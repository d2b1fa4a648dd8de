-- ===== src/Subscriptions/Owners.antt =====
-- Owners: the bound on what one owner holds, and that no owner reads or deletes another's subscription.
use acdp_registry_rs.Prelude.{remove, lookup-remove, ==_refl, lookup-insert, [], ◌∷◌}
use acdp_registry_rs.Subscriptions.{
  fresh, held, delete_subscription, NewSubscription, SubscriptionRecord, get_subscription,
  create_subscription,
}
use acdp_registry_rs.Prelude.{
  refl, false, inr, none, inl, ◌≢◌, leb, arith, string_eq, ◌+◌, some, Bool-cases, ◌==◌, ◌<◌, ◌≡◌,
  ◌≤◌, if◌then◌else◌, lookup, HashMap, ℕ, insert, String,
}

module _ {F : Type 0} where
  abbrev owned_by : String → SubscriptionRecord F → ℕ
  owned_by owner s = if s.owner_did == owner then 1 else 0

  held-insert-le :
      (owner id : String) (s : SubscriptionRecord F) (m : HashMap String (SubscriptionRecord F))
      → held owner (insert id s m) ≤ owned_by owner s + held owner m
  unfolding insert
  held-insert-le owner id s [] = ground arith
  held-insert-le owner id s ((k, r) ∷ m) = ground (arith, held-insert-le owner id s m)

  -- To create keeps every owner within the bound on what one owner holds.
  pub held-create_subscription-le :
      (new : NewSubscription F) (max_per_owner : ℕ) (owner : String)
      (m : HashMap String (SubscriptionRecord F))
      → held owner m ≤ max_per_owner
      → held owner (create_subscription new max_per_owner m).1 ≤ max_per_owner
  unfolding create_subscription
  held-create_subscription-le new max_per_owner owner m h =
      elim (Bool-cases (leb max_per_owner (held new.owner_did m))) [
        | inl full ↦ rw full h
        | inr room ↦
            rw room
              (omega (arith, h, held-insert-le owner new.subscription_id (fresh new) m, spare room))
      ]
    where
      spare :
          leb max_per_owner (held new.owner_did m) ≡ false
          → owned_by owner (fresh new) + held owner m ≤ max_per_owner
      spare room = elim (Bool-cases (new.owner_did == owner)) [
        | inl same ↦
            let mine = (string_eq.beq_iff new.owner_did owner).0 same in
            rw same (ground (arith, rw mine at room))
        | inr other ↦ rw other (omega (arith, h))
      ]

  -- Of a subscription that another owner holds, a caller reads nothing, and to delete it changes nothing
  -- and says so.
  delete_subscription_other :
      (owner id : String) (s : SubscriptionRecord F) (m : HashMap String (SubscriptionRecord F))
      → lookup id m ≡ some s
      → s.owner_did ≢ owner
      → (get_subscription owner id m ≡ none) × (delete_subscription owner id m ≡ (false, m))
  unfolding get_subscription delete_subscription
  delete_subscription_other owner id s m e differs = (rw (e, other) refl, rw (e, other) refl)
    where
      other : (s.owner_did == owner) ≡ false
      other = ground (arith, differs, string_eq.beq_iff s.owner_did owner)

  -- Where the owner is below the bound, a subscription that is created is read back by its owner, and gone
  -- once the owner deletes it.
  pub get-create_subscription :
      (new : NewSubscription F) (max_per_owner : ℕ) (m : HashMap String (SubscriptionRecord F))
      → held new.owner_did m < max_per_owner
      → (get_subscription new.owner_did new.subscription_id
            (create_subscription new max_per_owner m).1
          ≡ some (fresh new))
        × (lookup new.subscription_id
              (delete_subscription new.owner_did new.subscription_id
                (create_subscription new max_per_owner m).1).1
            ≡ none)
  unfolding get_subscription delete_subscription create_subscription
  get-create_subscription new max_per_owner m h =
      rw room (rw (stored, ==_refl new.owner_did) (refl, deleted))
    where
      id : String
      id = new.subscription_id

      stored : lookup id (insert id (fresh new) m) ≡ some (fresh new)
      stored = rw (lookup-insert id id (fresh new) m, ==_refl id) refl

      deleted : lookup id (remove id (insert id (fresh new) m)) ≡ none
      deleted = rw (lookup-remove id id (insert id (fresh new) m), ==_refl id) refl

      room : leb max_per_owner (held new.owner_did m) ≡ false
      room = ground (arith, h)
