-- ===== src/Subscriptions/Chosen.antt =====
-- The entries that a claim chooses, and what leasing them does to the store.
use acdp_registry_rs.Subscriptions.{
  is_due, chosen, leased, lease_all, sort_by_attempt, insert_by_attempt, SubscriptionRecord,
}
use acdp_registry_rs.Prelude.{
  All-filterb, All-take, map, All, List, leb, nat_eq, ap, some_injective, insert-Distinct, ◌≤◌, ◌<◌,
  sym, lookup-insert, zero, refl, inr, Bool-cases, [], ◌∙◌, arith, inl, if◌then◌else◌, false, ◌∷◌,
  suc, insert, string_eq, filterb, take, ◌⊎◌, Distinct, none, true, some, any, ◌==◌, ◌≡◌, Bool, ℕ,
  HashMap, lookup, String,
}

module _ {F : Type 0} where
  -- Whether the entry under `id` is among these.
  abbrev pub has_key : String → HashMap String (SubscriptionRecord F) → Bool
  has_key id due = any (λ e. e.0 == id) due

  abbrev pub HeldUntil : String → ℕ → HashMap String (SubscriptionRecord F) → Type 0
  HeldUntil id lease_until_ms m =
      (s : SubscriptionRecord F) × (lookup id m ≡ some s) × (s.lease_until_ms ≡ some lease_until_ms)

  insert-HeldUntil :
      (id k : String) (l : ℕ) (s : SubscriptionRecord F) (m : HashMap String (SubscriptionRecord F))
      → ((k == id) ≡ true) ⊎ HeldUntil id l m
      → HeldUntil id l (insert k (leased l s) m)
  insert-HeldUntil id k l s m h = elim (Bool-cases (k == id)) [
    | inl same ↦ (leased l s, rw (lookup-insert k id (leased l s) m, same) refl, refl)
    | inr other ↦ elim h [
      | inl same ↦ absurd (cc (same, other))
      | inr (r, e, p) ↦ (r, rw (lookup-insert k id (leased l s) m, other) e, p)
    ]
  ]

  pub lease_all-HeldUntil :
      (id : String) (l : ℕ) (due m : HashMap String (SubscriptionRecord F))
      → (has_key id due ≡ true) ⊎ HeldUntil id l m
      → HeldUntil id l (lease_all l due m)
  lease_all-HeldUntil id l [] m (inl h) = cc
  lease_all-HeldUntil id l [] m (inr h) = h
  lease_all-HeldUntil id l ((k, s) ∷ due) m (inr h) =
      lease_all-HeldUntil id l due (insert k (leased l s) m)
        (inr (insert-HeldUntil id k l s m (inr h)))
  lease_all-HeldUntil id l ((k, s) ∷ due) m (inl h) = elim (Bool-cases (k == id)) [
    | inl same ↦
        lease_all-HeldUntil id l due (insert k (leased l s) m)
          (inr (insert-HeldUntil id k l s m (inl same)))
    | inr other ↦ lease_all-HeldUntil id l due (insert k (leased l s) m) (inl (rw other at h))
  ]

  any-take :
      (p : String × SubscriptionRecord F → Bool) (n : ℕ) (m : HashMap String (SubscriptionRecord F))
      → any p (take n m) ≡ true
      → any p m ≡ true
  any-take p zero m h = cc
  any-take p (suc n) [] h = cc
  any-take p (suc n) (x ∷ m) h = ground (arith, any-take p n m)

  any-insert_by_attempt :
      (p : String × SubscriptionRecord F → Bool) (x : String × SubscriptionRecord F)
      (due : HashMap String (SubscriptionRecord F))
      → any p (insert_by_attempt x due) ≡ (if p x then true else any p due)
  any-insert_by_attempt p x [] = refl
  any-insert_by_attempt p x (y ∷ due) = ground (arith, any-insert_by_attempt p x due)

  any-sort_by_attempt :
      (p : String × SubscriptionRecord F → Bool) (due : HashMap String (SubscriptionRecord F))
      → any p (sort_by_attempt due) ≡ any p due
  any-sort_by_attempt p [] = refl
  any-sort_by_attempt p (x ∷ due) =
      any-insert_by_attempt p x (sort_by_attempt due) ∙ rw (any-sort_by_attempt p due) refl

  -- What a filter takes from a map is what the map has under that key.
  absent :
      (id : String) (p : SubscriptionRecord F → Bool) (m : HashMap String (SubscriptionRecord F))
      → lookup id m ≡ none
      → has_key id (filterb (λ e. p e.1) m) ≡ false
  unfolding lookup
  absent id p [] h = refl
  absent id p ((k, s) ∷ m) h = ground (arith, absent id p m)

  lookup-filterb :
      (id : String) (p : SubscriptionRecord F → Bool) (m : HashMap String (SubscriptionRecord F))
      → Distinct m
      → has_key id (filterb (λ e. p e.1) m) ≡ true
      → (s : SubscriptionRecord F) × (lookup id m ≡ some s) × (p s ≡ true)
  unfolding lookup
  lookup-filterb id p [] d h = cc
  lookup-filterb id p ((k, s) ∷ m) d h = elim (Bool-cases (k == id)) [
    | inl same ↦ elim (Bool-cases (p s)) [
      | inl on ↦ (s, rw same refl, on)
      | inr off ↦
          let gone = absent id p m (rw ((string_eq.beq_iff k id).0 same) at d.0) in
          let found = rw off at h in absurd (cc (found, gone))
    ]
    | inr other ↦ let (r, e, q) = lookup-filterb id p m d.1 (later other h) in (r, rw other e, q)
  ]
    where
      later :
          (k == id) ≡ false
          → has_key id (filterb (λ e. p e.1) ((k, s) ∷ m)) ≡ true
          → has_key id (filterb (λ e. p e.1) m) ≡ true
      later other h = ground arith

  -- A chosen entry is in the map, and due.
  lookup-chosen :
      (id : String) (now_ms head limit : ℕ) (m : HashMap String (SubscriptionRecord F))
      → Distinct m
      → has_key id (chosen now_ms head limit m) ≡ true
      → (s : SubscriptionRecord F) × (lookup id m ≡ some s) × (is_due now_ms head s ≡ true)
  unfolding chosen
  lookup-chosen id now_ms head limit m d h =
      let due = filterb (λ e. is_due now_ms head e.1) m in
      lookup-filterb id (is_due now_ms head) m d (
        sym (any-sort_by_attempt (λ e. e.0 == id) due)
        ∙ any-take (λ e. e.0 == id) limit (sort_by_attempt due) h)

  is_due-unleased :
      (now_ms head l : ℕ) (s : SubscriptionRecord F)
      → is_due now_ms head s ≡ true
      → s.lease_until_ms ≡ some l
      → l < now_ms
  unfolding is_due
  is_due-unleased now_ms head l s h e = ground arith

  pub lease_all-Distinct :
      (l : ℕ) (due m : HashMap String (SubscriptionRecord F))
      → Distinct m
      → Distinct (lease_all l due m)
  lease_all-Distinct l [] m d = d
  lease_all-Distinct l ((k, s) ∷ due) m d =
      lease_all-Distinct l due (insert k (leased l s) m) (insert-Distinct k (leased l s) m d)

  -- Whether the subscription is among these.
  abbrev pub has_id : String → List (SubscriptionRecord F) → Bool
  has_id id l = any (λ (s : SubscriptionRecord F). s.subscription_id == id) l

  -- Each entry stands under its subscription's identifier.
  abbrev pub Keyed : HashMap String (SubscriptionRecord F) → Type 0
  Keyed m = All (λ (e : String × SubscriptionRecord F). e.0 ≡ e.1.subscription_id) m

  pub has_id-has_key :
      (id : String) (l : ℕ) (due : HashMap String (SubscriptionRecord F))
      → Keyed due
      → has_id id (map (λ e. leased l e.1) due) ≡ has_key id due
  has_id-has_key id l [] keyed = refl
  has_id-has_key id l ((k, s) ∷ due) keyed = rw (sym keyed.0, has_id-has_key id l due keyed.1) refl

  insert_by_attempt-Keyed :
      (x : String × SubscriptionRecord F) (due : HashMap String (SubscriptionRecord F))
      → x.0 ≡ x.1.subscription_id
      → Keyed due
      → Keyed (insert_by_attempt x due)
  insert_by_attempt-Keyed x [] h keyed = (h, tt)
  insert_by_attempt-Keyed x (y ∷ due) h keyed =
      elim (Bool-cases (leb x.1.next_attempt_at_ms y.1.next_attempt_at_ms)) [
        | inl first ↦ rw first (h, keyed)
        | inr later ↦ rw later (keyed.0, insert_by_attempt-Keyed x due h keyed.1)
      ]

  sort_by_attempt-Keyed :
      (m : HashMap String (SubscriptionRecord F)) → Keyed m → Keyed (sort_by_attempt m)
  sort_by_attempt-Keyed [] keyed = tt
  sort_by_attempt-Keyed (x ∷ m) keyed =
      insert_by_attempt-Keyed x (sort_by_attempt m) keyed.0 (sort_by_attempt-Keyed m keyed.1)

  pub chosen-Keyed :
      (now_ms head limit : ℕ) (m : HashMap String (SubscriptionRecord F))
      → Keyed m
      → Keyed (chosen now_ms head limit m)
  unfolding chosen
  chosen-Keyed now_ms head limit m keyed =
      let is_keyed : String × SubscriptionRecord F → Type 0 = λ e. e.0 ≡ e.1.subscription_id in
      let due = filterb (λ e. is_due now_ms head e.1) m in
      All-take is_keyed limit (sort_by_attempt due)
        (sort_by_attempt-Keyed due (All-filterb is_keyed (λ e. is_due now_ms head e.1) m keyed))

  insert-Keyed :
      (k : String) (s : SubscriptionRecord F) (m : HashMap String (SubscriptionRecord F))
      → k ≡ s.subscription_id
      → Keyed m
      → Keyed (insert k s m)
  unfolding insert
  insert-Keyed k s [] h keyed = (h, tt)
  insert-Keyed k s ((j, r) ∷ m) h keyed = elim (Bool-cases (j == k)) [
    | inl same ↦ rw (same, insert) (h, keyed.1)
    | inr other ↦ rw (other, insert) (keyed.0, insert-Keyed k s m h keyed.1)
  ]

  pub lease_all-Keyed :
      (l : ℕ) (due m : HashMap String (SubscriptionRecord F))
      → Keyed due
      → Keyed m
      → Keyed (lease_all l due m)
  lease_all-Keyed l [] m taken keyed = keyed
  lease_all-Keyed l ((k, s) ∷ due) m taken keyed =
      lease_all-Keyed l due (insert k (leased l s) m) taken.1
        (insert-Keyed k (leased l s) m taken.0 keyed)

  pub lookup-lease_all :
      (id : String) (l : ℕ) (due m : HashMap String (SubscriptionRecord F))
      → has_key id due ≡ false
      → lookup id (lease_all l due m) ≡ lookup id m
  lookup-lease_all id l [] m h = refl
  lookup-lease_all id l ((k, s) ∷ due) m h = elim (Bool-cases (k == id)) [
    | inl same ↦ absurd (refused (rw same at h))
    | inr other ↦
        lookup-lease_all id l due (insert k (leased l s) m) (rw other at h)
        ∙ rw (lookup-insert k id (leased l s) m, other) refl
  ]
    where
      refused : true ≡ false → ⊥
      refused e = cc

  -- An entry that is leased beyond `now_ms` is not chosen.
  pub chosen-HeldUntil :
      (id : String) (l now_ms head limit : ℕ) (m : HashMap String (SubscriptionRecord F))
      → Distinct m
      → now_ms ≤ l
      → HeldUntil id l m
      → has_key id (chosen now_ms head limit m) ≡ false
  chosen-HeldUntil id l now_ms head limit m d le (s, e, p) =
      elim (Bool-cases (has_key id (chosen now_ms head limit m))) [
        | inr gone ↦ gone
        | inl again ↦
            let (r, f, due) = lookup-chosen id now_ms head limit m d again in
            let same = some_injective (sym e ∙ f) in
            absurd (
              omega (
                arith,
                le,
                is_due-unleased now_ms head l r due
                    (sym (ap (λ (x : SubscriptionRecord F). x.lease_until_ms) same) ∙ p),
              ))
      ]
