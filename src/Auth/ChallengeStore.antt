-- ===== src/Auth/ChallengeStore.antt =====
-- `InMemoryChallengeStore` of crates/acdp-registry-auth/src/challenge_store.rs. The map stands for the
-- content of the mutex; a poisoned lock (a panic while it is held) is not modelled.
pub mod Laws
use acdp_registry_rs.Prelude.{
  String, Bool, Option, none, some, HashMap, lookup, insert, remove, retain, Result, ok, err, ltb,
  leb, if◌then◌else◌, string_eq,
}
use acdp_registry_rs.Time.{DateTime}
use acdp_registry_rs.Auth.Error.{AuthError, challenge_replay}

pub record ChallengeRecord : Type 0 where
  pub nonce : String
  pub agent_id : String
  pub expires_at : DateTime

abbrev pub Challenges : Type 0
Challenges = HashMap String ChallengeRecord

abbrev put_unless :
    Option ChallengeRecord → ChallengeRecord → Challenges → Result AuthError (Unit {0}) × Challenges
put_unless (some _) record_ g = (err (challenge_replay "duplicate nonce"), g)
put_unless none record_ g = (ok tt, insert record_.nonce record_ g)

-- A duplicate nonce is refused and changes nothing.
unfoldable pub put : ChallengeRecord → Challenges → Result AuthError (Unit {0}) × Challenges
put record_ g = put_unless (lookup record_.nonce g) record_ g

abbrev live : DateTime → Option ChallengeRecord → Option ChallengeRecord
live now none = none
live now (some rec) = if leb rec.expires_at now then none else some rec

-- The record goes whether or not it has expired; `now` is the store's own clock reading.
unfoldable pub take : String → DateTime → Challenges → Option ChallengeRecord × Challenges
take nonce now g = (live now (lookup nonce g), remove nonce g)

abbrev pub unexpired : DateTime → ChallengeRecord → Bool
unexpired now r = ltb now r.expires_at

unfoldable pub evict_expired : DateTime → Challenges → Challenges
evict_expired now g = retain (unexpired now) g
