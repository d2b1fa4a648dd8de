-- ===== src/Keyless/Jwks/Calls.antt =====
-- Histories of calls of the cache.
-- How often the cache fetches a source, whatever tokens name.
use acdp_registry_rs.Keyless.Types.{source_eq}
use acdp_registry_rs.Keyless.Jwks.{Fetched, keys, Target, refresh_for_unknown_kid, JwksCache}
use acdp_registry_rs.Keyless.Types.{KeySource}
use acdp_registry_rs.Prelude.{refl, ◌≡◌, ◌++◌, [], ◌∷◌, Bool, if◌then◌else◌, List, ℕ}

-- A lookup of a source's keys, or a refetch that an unknown `kid` asks for, at an instant and with what the
-- network answers then.
pub record Call : Type 0 where
  pub source : KeySource
  pub unknown_kid : Bool
  pub now : ℕ
  pub web : Target → Fetched

unfoldable pub call : Call → JwksCache → JwksCache
call k c =
    if k.unknown_kid
    then (refresh_for_unknown_kid k.web k.source k.now c).1
    else (keys k.web k.source k.now c).1

unfoldable pub run : List Call → JwksCache → JwksCache
run [] c = c
run (k ∷ calls) c = run calls (call k c)

pub run-append : (xs ys : List Call) (c : JwksCache) → run (xs ++ ys) c ≡ run ys (run xs c)
unfolding run
run-append [] ys c = refl
run-append (k ∷ xs) ys c = run-append xs ys (call k c)
