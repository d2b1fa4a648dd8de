-- ===== src/Subscriptions/Tests.antt =====
-- The theorems on subscriptions, at a store with one that is due and one that is leased.
use acdp_registry_rs.Subscriptions.Owners.{held-create_subscription-le}
use acdp_registry_rs.Subscriptions.Chosen.{has_id}
use acdp_registry_rs.Subscriptions.Leases.{
  finish_subscription_attempt_once, claim_due_subscriptions_exclusive, claimed, after_claims, Claim,
}
use acdp_registry_rs.Subscriptions.{
  advanced, claim_due_subscriptions, active, healthy, is_due, create_subscription,
  finish_subscription_attempt, chosen, SubscriptionRecord, held, NewSubscription,
}
use acdp_registry_rs.Prelude.{
  ◌+◌, refl, string_eq, arith, insert, ◌∷◌, true, false, [], some, ◌≤◌, none, ◌≡◌, ℕ, Option,
  lookup, HashMap, String,
}

abbrev subscription : String → String → Option ℕ → SubscriptionRecord ℕ
subscription id owner lease = record {
  subscription_id = id;
  owner_did = owner;
  tenant_id = none;
  filter = 0;
  callback_url = "https://a.example";
  secret_ct = [];
  secret_key_id = 0;
  status = active;
  created_at_ms = 5;
  last_hinted_seq = 1;
  next_attempt_at_ms = 5;
  failing_since_ms = none;
  attempts = 0;
  lease_until_ms = lease;
}

abbrev store : HashMap String (SubscriptionRecord ℕ)
store =
    ("s", subscription "s" "did:web:a" none) ∷ ("t", subscription "t" "did:web:b" (some 90)) ∷ []

abbrev new_subscription : NewSubscription ℕ
new_subscription = record {
  subscription_id = "u";
  owner_did = "did:web:a";
  tenant_id = none;
  filter = 0;
  callback_url = "https://a.example";
  secret_ct = [];
  secret_key_id = 0;
  created_at_ms = 7;
  last_hinted_seq = 1;
}

abbrev claim_at : ℕ → Claim
claim_at now_ms = record { now_ms = now_ms; head = 9; lease_until_ms = now_ms + 40; limit = 10 }

claim_due_subscriptions_exclusive_example :
    has_id "s"
      (claimed (claim_at 60) (after_claims (claim_at 50 ∷ []) (claimed (claim_at 20) store).1)).0
    ≡ false
unfolding claim_due_subscriptions lookup chosen is_due
claim_due_subscriptions_exclusive_example =
    claim_due_subscriptions_exclusive "s" (claim_at 20) (claim_at 50 ∷ []) (claim_at 60) store
      (refl, (refl, tt)) (refl, (refl, tt)) (omega arith, tt) (omega arith) refl

finish_subscription_attempt_once_example :
    (finish_subscription_attempt "t" 90 (healthy 2 30) store
      ≡ (true, insert "t" (advanced (healthy 2 30) (subscription "t" "did:web:b" (some 90))) store))
    × ((finish_subscription_attempt "t" 90
          (healthy 3 40)
          (finish_subscription_attempt "t" 90 (healthy 2 30) store).1).0
        ≡ false)
unfolding lookup
finish_subscription_attempt_once_example =
    finish_subscription_attempt_once "t" 90 90 (healthy 2 30) (healthy 3 40) store
      (subscription "t" "did:web:b" (some 90)) refl refl

held-create_subscription-le_example :
    held "did:web:a" (create_subscription new_subscription 2 store).1 ≤ 2
held-create_subscription-le_example =
    held-create_subscription-le new_subscription 2 "did:web:a" store (omega arith)
