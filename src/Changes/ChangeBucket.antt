-- ===== src/Changes/ChangeBucket.antt =====
-- `Bucket` of crates/acdp-registry-store/src/change_bucket.rs. A bucket and a stored hash are the bytes of
-- their lowercase hex text.
use acdp_registry_rs.Prelude.{
  ℕ, ◌+◌, List, [], ◌∷◌, Bool, true, false, Option, none, some, ◌==◌, nat_eq, if◌then◌else◌,
}
use mathlib.Core.List.{reverse}

-- `str::starts_with`, on bytes
unfoldable pub starts_with : List ℕ → List ℕ → Bool
starts_with hash [] = true
starts_with [] (d ∷ ds) = false
starts_with (h ∷ hash) (d ∷ ds) = let rest = starts_with hash ds in if h == d then rest else false

unfoldable pub contains : List ℕ → List ℕ → Bool
unfolding starts_with
contains bucket hash = starts_with hash bucket

abbrev pub map_some : (List ℕ → List ℕ) → Option (List ℕ) → Option (List ℕ)
map_some f none = none
map_some f (some ds) = some (f ds)

-- The loop of `range`, over the digits from the last to the first.
unfoldable pub bump : List ℕ → Option (List ℕ)
bump [] = none
bump (d ∷ ds) =
    let rest = map_some (λ r. b'0' ∷ r) (bump ds) in
    if d == b'f' then rest else if d == b'9' then some (b'a' ∷ ds) else some ((d + 1) ∷ ds)

unfoldable pub range : List ℕ → List ℕ × Option (List ℕ)
unfolding bump
range bucket = (bucket, map_some reverse (bump (reverse bucket)))
