-- ===== src/Subscriptions/Leases.antt =====
-- Leases: a claimed subscription has one holder until its lease lapses, and only that holder finishes.
use acdp_registry_rs.Subscriptions.Chosen.{
  HeldUntil, has_id, Keyed, lease_all-HeldUntil, has_id-has_key, chosen-Keyed, lease_all-Keyed,
  lookup-lease_all, chosen-HeldUntil, lease_all-Distinct,
}
use acdp_registry_rs.Subscriptions.{
  advanced, has_lease, SubscriptionProgress, finish_subscription_attempt, claim_due_subscriptions,
  chosen, lease_all, SubscriptionRecord,
}
use acdp_registry_rs.Prelude.{
  All, List, ==_refl, nat_eq, ◌≢◌, ◌≤◌, sym, lookup-insert, refl, [], ◌∙◌, arith, inl, false, ◌∷◌,
  insert, string_eq, Distinct, none, true, some, ◌==◌, ◌≡◌, ℕ, HashMap, lookup, String,
}

-- The arguments of a claim.
pub record Claim : Type 0 where
  pub now_ms : ℕ
  pub head : ℕ
  pub lease_until_ms : ℕ
  pub limit : ℕ

module _ {F : Type 0} where
  abbrev pub claimed :
      Claim
      → HashMap String (SubscriptionRecord F)
      → List (SubscriptionRecord F) × HashMap String (SubscriptionRecord F)
  claimed c m = claim_due_subscriptions c.now_ms c.head c.lease_until_ms c.limit m

  -- The store after claims, one after the other.
  abbrev pub after_claims :
      List Claim → HashMap String (SubscriptionRecord F) → HashMap String (SubscriptionRecord F)
  after_claims [] m = m
  after_claims (c ∷ claims) m = after_claims claims (claimed c m).1

  -- What is kept between the claims.
  record Leased (id : String) (l : ℕ) (m : HashMap String (SubscriptionRecord F)) : Type 0 where
    pub distinct : Distinct m
    pub keyed : Keyed m
    pub held : HeldUntil id l m

  claimed-Leased :
      (id : String) (l : ℕ) (c : Claim) (m : HashMap String (SubscriptionRecord F))
      → c.now_ms ≤ l
      → Leased id l m
      → Leased id l (claimed c m).1
  unfolding claim_due_subscriptions
  claimed-Leased id l c m le h =
      let due = chosen c.now_ms c.head c.limit m in
      let skipped = chosen-HeldUntil id l c.now_ms c.head c.limit m h.distinct le h.held in
      let (s, e, p) = h.held in
      record {
        distinct = lease_all-Distinct c.lease_until_ms due m h.distinct;
        keyed =
            lease_all-Keyed c.lease_until_ms due m (chosen-Keyed c.now_ms c.head c.limit m h.keyed)
              h.keyed;
        held = (s, lookup-lease_all id c.lease_until_ms due m skipped ∙ e, p);
      }

  after_claims-Leased :
      (id : String) (l : ℕ) (claims : List Claim) (m : HashMap String (SubscriptionRecord F))
      → All (λ (c : Claim). c.now_ms ≤ l) claims
      → Leased id l m
      → Leased id l (after_claims claims m)
  after_claims-Leased id l [] m le h = h
  after_claims-Leased id l (c ∷ claims) m le h =
      after_claims-Leased id l claims (claimed c m).1 le.1 (claimed-Leased id l c m le.0 h)

  -- In a store with one entry for each key, under its subscription's identifier: a subscription that a claim
  -- hands out is not handed out by any claim that follows, with any other claims between, at whatever heads
  -- and limits, until its lease has lapsed.
  pub claim_due_subscriptions_exclusive :
      (id : String) (first : Claim) (between : List Claim) (later : Claim)
      (m : HashMap String (SubscriptionRecord F))
      → Distinct m
      → Keyed m
      → All (λ (c : Claim). c.now_ms ≤ first.lease_until_ms) between
      → later.now_ms ≤ first.lease_until_ms
      → has_id id (claimed first m).0 ≡ true
      → has_id id (claimed later (after_claims between (claimed first m).1)).0 ≡ false
  unfolding claim_due_subscriptions
  claim_due_subscriptions_exclusive id first between later m d keyed les le h =
      let due = chosen first.now_ms first.head first.limit m in
      let taken = chosen-Keyed first.now_ms first.head first.limit m keyed in
      let l = first.lease_until_ms in
      let kept = after_claims-Leased id l between (lease_all l due m) les (record {
        distinct = lease_all-Distinct l due m d;
        keyed = lease_all-Keyed l due m taken keyed;
        held = lease_all-HeldUntil id l due m (inl (sym (has_id-has_key id l due taken) ∙ h));
      }) in
      let store = after_claims between (lease_all l due m) in
      has_id-has_key id later.lease_until_ms (chosen later.now_ms later.head later.limit store)
        (chosen-Keyed later.now_ms later.head later.limit store kept.keyed)
      ∙ chosen-HeldUntil id l later.now_ms later.head later.limit store kept.distinct le kept.held

  has_lease-eq :
      (l l' : ℕ) (s : SubscriptionRecord F) → s.lease_until_ms ≡ some l' → has_lease l s ≡ (l' == l)
  has_lease-eq l l' s e = rw e refl

  -- Where another lease holds the entry, to finish changes nothing and says so.
  finish_subscription_attempt_refused :
      (id : String) (l l' : ℕ) (progress : SubscriptionProgress)
      (m : HashMap String (SubscriptionRecord F))
      → HeldUntil id l' m
      → l' ≢ l
      → finish_subscription_attempt id l progress m ≡ (false, m)
  unfolding finish_subscription_attempt
  finish_subscription_attempt_refused id l l' progress m (s, e, p) differs =
      rw (e, has_lease-eq l l' s p, other) refl
    where
      other : (l' == l) ≡ false
      other = ground (arith, differs)

  finish-advanced :
      (id : String) (l : ℕ) (progress : SubscriptionProgress) (s : SubscriptionRecord F)
      (m : HashMap String (SubscriptionRecord F))
      → lookup id m ≡ some s
      → s.lease_until_ms ≡ some l
      → finish_subscription_attempt id l progress m ≡ (true, insert id (advanced progress s) m)
  unfolding finish_subscription_attempt
  finish-advanced id l progress s m e p = rw (e, has_lease-eq l l s p, ==_refl l) refl

  unleased_refused :
      (id : String) (again : ℕ) (next : SubscriptionProgress) (r : SubscriptionRecord F)
      (m : HashMap String (SubscriptionRecord F))
      → lookup id m ≡ some r
      → r.lease_until_ms ≡ none
      → (finish_subscription_attempt id again next m).0 ≡ false
  unfolding finish_subscription_attempt
  unleased_refused id again next r m e p = rw e (rw p refl)

  -- A finish by the lease that holds the entry succeeds, stores the progress and ends the lease: a finish
  -- that follows it is refused, whatever lease and progress it gives.
  pub finish_subscription_attempt_once :
      (id : String) (l again : ℕ) (progress next : SubscriptionProgress)
      (m : HashMap String (SubscriptionRecord F)) (s : SubscriptionRecord F)
      → lookup id m ≡ some s
      → s.lease_until_ms ≡ some l
      → (finish_subscription_attempt id l progress m ≡ (true, insert id (advanced progress s) m))
        × ((finish_subscription_attempt id again next
              (finish_subscription_attempt id l progress m).1).0
            ≡ false)
  finish_subscription_attempt_once id l again progress next m s e p = (
    finish-advanced id l progress s m e p,
    rw (finish-advanced id l progress s m e p) (
        unleased_refused id again next (advanced progress s) (insert id (advanced progress s) m)
          (rw (lookup-insert id id (advanced progress s) m, ==_refl id) refl) refl),
  )
