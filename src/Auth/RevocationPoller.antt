-- ===== src/Auth/RevocationPoller.antt =====
-- The poller of the peers' revocation feeds: crates/acdp-registry-auth/src/revocation_poller.rs, over the calls
-- that it makes of `RevocationStore`. What the HTTP client answers is an argument, and so is whether it was
-- built; what is only logged is left out. An `exp` is an `i64`, counted from `i64::MIN`.
pub mod Applied
pub mod Caught
pub mod Memory
pub mod Tests
use acdp_registry_rs.Auth.Error.{AuthError}
use acdp_registry_rs.Time.{seconds, unix_epoch, DateTime}
use acdp_registry_rs.Auth.RevocationStore.{
  set_revocation_cursor, get_revocation_cursor, revoke, InMemoryRevocationStore, RevocationRecord,
}
use acdp_registry_rs.Prelude.{
  ◌-◌, string_eq, ◌+◌, ltb, [], none, ◌&&◌, false, ◌==◌, leb, ◌∷◌, some, true, not, if◌then◌else◌,
  err, ok, Bool, Option, ◌^◌, Result, List, String, ℕ,
}

pub record FeedEntry : Type 0 where
  pub jti : String
  pub sub : String
  pub iss : String
  pub exp : ℕ
  pub revoked_at_ms : ℕ

pub record FeedResponse : Type 0 where
  pub entries : List FeedEntry
  pub next_cursor : Option ℕ

pub record RevocationFeedConfig : Type 0 where
  pub issuer : String
  pub feed_url : String
  pub admin_token : String
  pub poll_seconds : ℕ

-- The query of one fetch.
pub record FeedRequest : Type 0 where
  pub url : String
  pub bearer : String
  pub since : ℕ
  pub limit : ℕ

-- `decoded` is what `resp.json()` makes of the body.
pub data HttpReply : Type 0 where
  unsent : String → HttpReply
  answered : ℕ → Result String FeedResponse → HttpReply

pub data FetchError : Type 0 where
  transport : String → FetchError
  http : ℕ → FetchError
  undecoded : String → FetchError

abbrev pub feed_request : RevocationFeedConfig → ℕ → FeedRequest
feed_request cfg cursor = record {
  url = cfg.feed_url;
  bearer = cfg.admin_token;
  since = cursor;
  limit = 200;
}

abbrev pub decoded_body : Result String FeedResponse → Result FetchError (List FeedEntry × Option ℕ)
decoded_body (ok body) = ok (body.entries, body.next_cursor)
decoded_body (err e) = err (undecoded e)

abbrev pub read_reply : HttpReply → Result FetchError (List FeedEntry × Option ℕ)
read_reply (unsent e) = err (transport e)
read_reply (answered status body) =
    if leb 200 status && ltb status 300 then decoded_body body else err (http status)

unfoldable pub fetch_once :
    (FeedRequest → HttpReply)
    → RevocationFeedConfig
    → ℕ
    → Result FetchError (List FeedEntry × Option ℕ)
fetch_once peer cfg cursor = read_reply (peer (feed_request cfg cursor))

-- The calls of the trait `RevocationStore` that the poller makes; each answers, and leaves a state.
pub record Store (S : Type 0) : Type 0 where
  pub revoke : RevocationRecord → S → S × Result AuthError (Unit {0})
  pub get_revocation_cursor : String → S → Result AuthError (Option ℕ)
  pub set_revocation_cursor : String → ℕ → S → S × Result AuthError (Unit {0})

-- `i64` zero, as `exp` is counted
abbrev pub i64_zero : ℕ
i64_zero = 2 ^ 63

-- `Utc.timestamp_opt(exp, 0).single()`: chrono's range ends at the second 8210266876799.
unfoldable pub timestamp_opt : ℕ → Option DateTime
timestamp_opt exp =
    if leb i64_zero (exp + unix_epoch) && leb exp (i64_zero + 8210266876799)
    then some (seconds (exp + unix_epoch - i64_zero))
    else none

-- The registry that the feed speaks for; an entry that names none is taken for its.
abbrev pub is_foreign : RevocationFeedConfig → FeedEntry → Bool
is_foreign cfg e = not (e.iss == "") && not (e.iss == cfg.issuer)

abbrev pub record_of : FeedEntry → DateTime → RevocationRecord
record_of e expires_at = record { jti = e.jti; agent_did = e.sub; expires_at = expires_at }

abbrev pub is_ok : Result AuthError (Unit {0}) → Bool
is_ok (ok u) = true
is_ok (err e) = false

module _ {S : Type 0} (store : Store S) (cfg : RevocationFeedConfig) where
  -- One entry with its expiry: `false` where the store fails.
  abbrev pub apply_at : FeedEntry → S → Option DateTime → S × Bool
  apply_at e s none = (s, true)
  apply_at e s (some expires_at) =
      let (s', answer) = store.revoke (record_of e expires_at) s in (s', is_ok answer)

  unfoldable pub apply_entry : FeedEntry → S → S × Bool
  unfolding timestamp_opt
  apply_entry e s = if is_foreign cfg e then (s, true) else apply_at e s (timestamp_opt e.exp)

  unfoldable pub apply_entries : List FeedEntry → S → S × Bool
  apply_entries [] s = (s, true)
  apply_entries (e ∷ entries) s =
      let first = apply_entry e s in
      let rest = apply_entries entries first.0 in (rest.0, first.1 && rest.1)

  pub record Poller : Type 0 where
    pub cursor : ℕ
    pub local : S

  -- The cursor moves only where every entry was applied; that it cannot be stored is only logged.
  unfoldable pub advance : Bool → Option ℕ → Poller → Poller
  advance false next p = p
  advance true none p = p
  advance true (some c) p = record {
    cursor = c;
    local = (store.set_revocation_cursor cfg.issuer c p.local).0;
  }

  abbrev pub after_fetch : Poller → Result FetchError (List FeedEntry × Option ℕ) → Poller
  after_fetch p (err e) = p
  after_fetch p (ok (entries, next)) =
      let applied = apply_entries entries p.local in
      advance applied.1 next (record p { local = applied.0 })

  -- One round of the loop.
  unfoldable pub poll_once : (FeedRequest → HttpReply) → Poller → Poller
  poll_once peer p = after_fetch p (fetch_once peer cfg p.cursor)

  -- The cursor to start from.
  abbrev pub resumed : Result AuthError (Option ℕ) → ℕ
  resumed (ok (some c)) = c
  resumed (ok none) = 0
  resumed (err e) = 0

  unfoldable pub start : S → Poller
  start s = record { cursor = resumed (store.get_revocation_cursor cfg.issuer s); local = s }

  -- A tick: what the peer answers, and what the registry does to the store until the next one.
  pub record Tick : Type 0 where
    pub peer : FeedRequest → HttpReply
    pub between : S → S

  unfoldable pub poll_rounds : List Tick → Poller → Poller
  poll_rounds [] p = p
  poll_rounds (t ∷ ticks) p =
      let polled = poll_once t.peer p in
      poll_rounds ticks (record polled { local = t.between polled.local })

  -- `client` says that the HTTP client was built.
  unfoldable pub poll_loop : Bool → List Tick → S → S
  unfolding start poll_rounds
  poll_loop false ticks s = s
  poll_loop true ticks s = (poll_rounds ticks (start s)).local

-- The in-memory store as one.
abbrev pub in_memory : Store InMemoryRevocationStore
in_memory = record {
  revoke = λ r s. (revoke r s, ok tt);
  get_revocation_cursor = λ issuer s. ok (get_revocation_cursor issuer s);
  set_revocation_cursor = λ issuer c s. (set_revocation_cursor issuer c s, ok tt);
}
