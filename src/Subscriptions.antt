-- ===== src/Subscriptions.antt =====
-- RFC-ACDP-0018 push subscriptions: the records of crates/acdp-registry-store/src/subscriptions.rs and the
-- subscription methods of `MemoryStore` in crates/acdp-registry-server/src/memory_ext.rs. A watch filter is
-- a type parameter. Milliseconds are counted from the Unix epoch.
use acdp_registry_rs.Prelude.{
  nat_eq, min, suc, [], string_eq, map, insert, filterb, ltb, remove, leb, ◌==◌, ◌+◌, take, ◌∷◌,
  ◌&&◌, lookup, false, keep, if◌then◌else◌, some, List, true, HashMap, none, Option, Bool, ℕ,
  String,
}
pub mod Chosen
pub mod Leases
pub mod Owners
pub mod Tests

pub data SubscriptionStatus : Type 0 where
  active disabled : SubscriptionStatus

abbrev is_active : SubscriptionStatus → Bool
is_active active = true
is_active disabled = false

module _ (Filter : Type 0) where
  pub record NewSubscription : Type 0 where
    pub subscription_id : String
    pub owner_did : String
    pub tenant_id : Option String
    pub filter : Filter
    pub callback_url : String
    pub secret_ct : List ℕ
    pub secret_key_id : ℕ
    pub created_at_ms : ℕ
    pub last_hinted_seq : ℕ

  pub record SubscriptionRecord : Type 0 where
    pub subscription_id : String
    pub owner_did : String
    pub tenant_id : Option String
    pub filter : Filter
    pub callback_url : String
    pub secret_ct : List ℕ
    pub secret_key_id : ℕ
    pub status : SubscriptionStatus
    pub created_at_ms : ℕ
    pub last_hinted_seq : ℕ
    pub next_attempt_at_ms : ℕ
    pub failing_since_ms : Option ℕ
    pub attempts : ℕ
    pub lease_until_ms : Option ℕ

pub data CreateSubscriptionOutcome : Type 0 where
  created limit_reached : CreateSubscriptionOutcome

pub record SubscriptionProgress : Type 0 where
  pub last_hinted_seq : ℕ
  pub status : SubscriptionStatus
  pub next_attempt_at_ms : ℕ
  pub failing_since_ms : Option ℕ
  pub attempts : ℕ

pub record SubscriptionCounts : Type 0 where
  pub active_count : ℕ
  pub disabled_count : ℕ
  pub oldest_due_at_ms : Option ℕ

-- `SubscriptionProgress::healthy`
unfoldable pub healthy : ℕ → ℕ → SubscriptionProgress
healthy seq next_attempt_at_ms = record {
  last_hinted_seq = seq;
  status = active;
  next_attempt_at_ms = next_attempt_at_ms;
  failing_since_ms = none;
  attempts = 0;
}

-- `is_none_or(|l| l < now_ms)`
abbrev pub unleased : Option ℕ → ℕ → Bool
unleased none now_ms = true
unleased (some l) now_ms = ltb l now_ms

abbrev pub unwrap_or : Option ℕ → ℕ → ℕ
unwrap_or none n = n
unwrap_or (some m) n = m

module _ {F : Type 0} where
  -- `SubscriptionProgress::disabled`
  unfoldable pub disabled_progress : SubscriptionRecord F → ℕ → SubscriptionProgress
  disabled_progress sub now_ms = record {
    last_hinted_seq = sub.last_hinted_seq;
    status = disabled;
    next_attempt_at_ms = now_ms;
    failing_since_ms = some (unwrap_or sub.failing_since_ms now_ms);
    attempts = sub.attempts;
  }

  -- The record that `create_subscription` stores.
  abbrev pub fresh : NewSubscription F → SubscriptionRecord F
  fresh new = record {
    subscription_id = new.subscription_id;
    owner_did = new.owner_did;
    tenant_id = new.tenant_id;
    filter = new.filter;
    callback_url = new.callback_url;
    secret_ct = new.secret_ct;
    secret_key_id = new.secret_key_id;
    status = active;
    created_at_ms = new.created_at_ms;
    last_hinted_seq = new.last_hinted_seq;
    next_attempt_at_ms = new.created_at_ms;
    failing_since_ms = none;
    attempts = 0;
    lease_until_ms = none;
  }

  -- How many subscriptions an owner holds.
  abbrev pub held : String → HashMap String (SubscriptionRecord F) → ℕ
  held owner [] = 0
  held owner ((k, s) ∷ m) =
      let rest = held owner m in if s.owner_did == owner then suc rest else rest

  unfoldable pub create_subscription :
      NewSubscription F
      → ℕ
      → HashMap String (SubscriptionRecord F)
      → CreateSubscriptionOutcome × HashMap String (SubscriptionRecord F)
  create_subscription new max_per_owner m =
      if leb max_per_owner (held new.owner_did m)
      then (limit_reached, m)
      else (created, insert new.subscription_id (fresh new) m)

  unfoldable pub get_subscription :
      String → String → HashMap String (SubscriptionRecord F) → Option (SubscriptionRecord F)
  get_subscription owner_did subscription_id m =
      keep (λ s. s.owner_did == owner_did) (lookup subscription_id m)

  abbrev pub is_owned : String → Option (SubscriptionRecord F) → Bool
  is_owned owner_did none = false
  is_owned owner_did (some s) = s.owner_did == owner_did

  unfoldable pub delete_subscription :
      String
      → String
      → HashMap String (SubscriptionRecord F)
      → Bool × HashMap String (SubscriptionRecord F)
  delete_subscription owner_did subscription_id m =
      let owned = is_owned owner_did (lookup subscription_id m) in
      (owned, if owned then remove subscription_id m else m)

  unfoldable pub is_due : ℕ → ℕ → SubscriptionRecord F → Bool
  is_due now_ms head s =
      is_active s.status
      && leb s.next_attempt_at_ms now_ms
      && unleased s.lease_until_ms now_ms
      && ltb s.last_hinted_seq head

  -- `sort_by_key(|s| s.next_attempt_at_ms)`, which is stable
  abbrev pub insert_by_attempt :
      String × SubscriptionRecord F
      → HashMap String (SubscriptionRecord F)
      → HashMap String (SubscriptionRecord F)
  insert_by_attempt x [] = x ∷ []
  insert_by_attempt x (y ∷ due) =
      let rest = insert_by_attempt x due in
      if leb x.1.next_attempt_at_ms y.1.next_attempt_at_ms then x ∷ y ∷ due else y ∷ rest

  abbrev pub sort_by_attempt :
      HashMap String (SubscriptionRecord F) → HashMap String (SubscriptionRecord F)
  sort_by_attempt [] = []
  sort_by_attempt (x ∷ due) = insert_by_attempt x (sort_by_attempt due)

  -- The entries that `claim_due_subscriptions` takes, in order.
  unfoldable pub chosen :
      ℕ → ℕ → ℕ → HashMap String (SubscriptionRecord F) → HashMap String (SubscriptionRecord F)
  chosen now_ms head limit m =
      take limit (sort_by_attempt (filterb (λ e. is_due now_ms head e.1) m))

  abbrev pub leased : ℕ → SubscriptionRecord F → SubscriptionRecord F
  leased lease_until_ms s = record s { lease_until_ms = some lease_until_ms }

  abbrev pub lease_all :
      ℕ
      → HashMap String (SubscriptionRecord F)
      → HashMap String (SubscriptionRecord F)
      → HashMap String (SubscriptionRecord F)
  lease_all lease_until_ms [] m = m
  lease_all lease_until_ms ((k, s) ∷ due) m =
      lease_all lease_until_ms due (insert k (leased lease_until_ms s) m)

  unfoldable pub claim_due_subscriptions :
      ℕ
      → ℕ
      → ℕ
      → ℕ
      → HashMap String (SubscriptionRecord F)
      → List (SubscriptionRecord F) × HashMap String (SubscriptionRecord F)
  claim_due_subscriptions now_ms head lease_until_ms limit m =
      let due = chosen now_ms head limit m in
      (map (λ e. leased lease_until_ms e.1) due, lease_all lease_until_ms due m)

  abbrev pub has_lease : ℕ → SubscriptionRecord F → Bool
  has_lease lease_until_ms s = elim s.lease_until_ms [ none ↦ false | some l ↦ l == lease_until_ms ]

  abbrev pub advanced : SubscriptionProgress → SubscriptionRecord F → SubscriptionRecord F
  advanced progress s = record s {
    last_hinted_seq = progress.last_hinted_seq;
    status = progress.status;
    next_attempt_at_ms = progress.next_attempt_at_ms;
    failing_since_ms = progress.failing_since_ms;
    attempts = progress.attempts;
    lease_until_ms = none;
  }

  abbrev pub finished :
      String
      → SubscriptionProgress
      → Option (SubscriptionRecord F)
      → HashMap String (SubscriptionRecord F)
      → Bool × HashMap String (SubscriptionRecord F)
  finished subscription_id progress none m = (false, m)
  finished subscription_id progress (some s) m =
      (true, insert subscription_id (advanced progress s) m)

  unfoldable pub finish_subscription_attempt :
      String
      → ℕ
      → SubscriptionProgress
      → HashMap String (SubscriptionRecord F)
      → Bool × HashMap String (SubscriptionRecord F)
  finish_subscription_attempt subscription_id lease_until_ms progress m =
      finished subscription_id progress (keep (has_lease lease_until_ms) (lookup subscription_id m))
        m

  abbrev oldest : SubscriptionRecord F → ℕ → Option ℕ → Option ℕ
  oldest s head o =
      if ltb s.last_hinted_seq head
      then elim o [ none ↦ some s.next_attempt_at_ms | some t ↦ some (min t s.next_attempt_at_ms) ]
      else o

  abbrev pub counted :
      ℕ → SubscriptionStatus → SubscriptionRecord F → SubscriptionCounts → SubscriptionCounts
  counted head active s out = record out {
    active_count = out.active_count + 1;
    oldest_due_at_ms = oldest s head out.oldest_due_at_ms;
  }
  counted head disabled s out = record out { disabled_count = out.disabled_count + 1 }

  abbrev pub count_from :
      ℕ → HashMap String (SubscriptionRecord F) → SubscriptionCounts → SubscriptionCounts
  count_from head [] out = out
  count_from head ((k, s) ∷ m) out = count_from head m (counted head s.status s out)

  unfoldable pub subscription_counts :
      ℕ → HashMap String (SubscriptionRecord F) → SubscriptionCounts
  subscription_counts head m =
      count_from head m (record { active_count = 0; disabled_count = 0; oldest_due_at_ms = none })
