-- ===== src/Prelude/Assoc.antt =====
-- `HashMap<K, V>` as an association list with one entry for each key. The iteration order is that
-- of the list, and what is proved holds for each.
use Prim.Native.Nat.{suc, ◌≤◌}
use mathlib.Core.Path.{◌≡◌, refl}
use mathlib.Core.Logic.{inl, inr}
use mathlib.Core.Bool.{Bool}
use mathlib.Core.Option.{Option, none, some}
use mathlib.Core.List.{List, [], ◌∷◌}
use native.Mathlib.Omega.{arith}
use acdp_registry_rs.Prelude.Tests.{Eq, ◌==◌, if◌then◌else◌, Bool-cases}
use acdp_registry_rs.Prelude.Lists.{length}

abbrev pub HashMap {ℓ κ} : Type ℓ → Type κ → Type (ℓ ⊔ κ)
HashMap K V = List (K × V)

-- What `retain` leaves of one entry.
abbrev pub keep {κ} : {V : Type κ} → (V → Bool) → Option V → Option V
keep p none = none
keep p (some v) = if p v then some v else none

module _ {ℓ κ} {K : Type ℓ} {V : Type κ} ⦃e : Eq K⦄ where
  unfoldable pub lookup : K → HashMap K V → Option V
  lookup k [] = none
  lookup k ((j, v) ∷ m) = let rest = lookup k m in if j == k then some v else rest

  unfoldable pub insert : K → V → HashMap K V → HashMap K V
  insert k v [] = (k, v) ∷ []
  insert k v ((j, w) ∷ m) = let rest = insert k v m in if j == k then (k, v) ∷ m else (j, w) ∷ rest

  unfoldable pub remove : K → HashMap K V → HashMap K V
  remove k [] = []
  remove k ((j, w) ∷ m) = let rest = remove k m in if j == k then rest else (j, w) ∷ rest

  unfoldable pub retain : (V → Bool) → HashMap K V → HashMap K V
  retain p [] = []
  retain p ((j, w) ∷ m) = let rest = retain p m in if p w then (j, w) ∷ rest else rest

  -- One entry for each key.
  abbrev pub Distinct : HashMap K V → Type κ
  Distinct [] = Unit
  Distinct ((j, w) ∷ m) = (lookup j m ≡ none) × Distinct m

module _ {ℓ κ} {K : Type ℓ} {V : Type κ} ⦃e : Eq K⦄ where
  pub lookup-insert :
      (k j : K) (v : V) (m : HashMap K V)
      → lookup j (insert k v m) ≡ (if k == j then some v else lookup j m)
  unfolding lookup insert
  lookup-insert k j v [] = ground arith
  lookup-insert k j v ((i, w) ∷ m) =
      ground (arith, e.beq_iff k j, e.beq_iff i k, e.beq_iff i j, lookup-insert k j v m)

  pub lookup-remove :
      (k j : K) (m : HashMap K V) → lookup j (remove k m) ≡ (if k == j then none else lookup j m)
  unfolding lookup remove
  lookup-remove k j [] = ground arith
  lookup-remove k j ((i, w) ∷ m) =
      ground (arith, lookup-remove k j m, e.beq_iff i k, e.beq_iff i j, e.beq_iff k j)

  pub insert-Distinct : (k : K) (v : V) (m : HashMap K V) → Distinct m → Distinct (insert k v m)
  unfolding lookup insert
  insert-Distinct k v [] d = (refl, tt)
  insert-Distinct k v ((i, w) ∷ m) d = elim (Bool-cases (i == k)) [
    | inl same ↦ rw same (cc ((e.beq_iff i k).0 same, d.0), d.1)
    | inr other ↦ rw other (
      rw (lookup-insert k i v m) (ground (arith, e.beq_iff i k, e.beq_iff k i, d.0)),
      insert-Distinct k v m d.1,
    )
  ]

  pub remove-Distinct : (k : K) (m : HashMap K V) → Distinct m → Distinct (remove k m)
  unfolding remove
  remove-Distinct k [] d = tt
  remove-Distinct k ((i, w) ∷ m) d = elim (Bool-cases (i == k)) [
    | inl same ↦ rw same (remove-Distinct k m d.1)
    | inr other ↦ rw other (rw (lookup-remove k i m) (ground (arith, d.0)), remove-Distinct k m d.1)
  ]

  retain-absent :
      (p : V → Bool) (k : K) (m : HashMap K V) → lookup k m ≡ none → lookup k (retain p m) ≡ none
  unfolding lookup retain
  retain-absent p k [] h = refl
  retain-absent p k ((i, w) ∷ m) h = ground (arith, retain-absent p k m)

  pub lookup-retain :
      (p : V → Bool) (k : K) (m : HashMap K V)
      → Distinct m
      → lookup k (retain p m) ≡ keep p (lookup k m)
  unfolding lookup retain
  lookup-retain p k [] d = refl
  lookup-retain p k ((i, w) ∷ m) d =
      ground (arith, lookup-retain p k m d.1, retain-absent p i m d.0, e.beq_iff i k)

  pub retain-Distinct : (p : V → Bool) (m : HashMap K V) → Distinct m → Distinct (retain p m)
  unfolding retain
  retain-Distinct p [] d = tt
  retain-Distinct p ((i, w) ∷ m) d = elim (Bool-cases (p w)) [
    | inl kept ↦ rw kept (retain-absent p i m d.0, retain-Distinct p m d.1)
    | inr gone ↦ rw gone (retain-Distinct p m d.1)
  ]

  pub length-insert-le : (k : K) (v : V) (m : HashMap K V) → length (insert k v m) ≤ suc (length m)
  unfolding insert
  length-insert-le k v [] = omega arith
  length-insert-le k v ((i, w) ∷ m) = ground (arith, length-insert-le k v m)

  pub length-insert_known :
      (k : K) (v w : V) (m : HashMap K V) → lookup k m ≡ some w → length (insert k v m) ≡ length m
  unfolding lookup insert
  length-insert_known k v w [] h = cc
  length-insert_known k v w ((i, x) ∷ m) h = ground (arith, length-insert_known k v w m)

  pub length-retain-le : (p : V → Bool) (m : HashMap K V) → length (retain p m) ≤ length m
  unfolding retain
  length-retain-le p [] = omega arith
  length-retain-le p ((i, w) ∷ m) = ground (arith, length-retain-le p m)
