-- ===== src/Auth/ChallengeStore/Laws.antt =====
-- What the challenge store promises: a nonce is redeemed at most once, and never after its expiry.
use acdp_registry_rs.Prelude.{
  ℕ, ◌+◌, ◌≡◌, ◌≤◌, ◌<◌, String, List, [], ◌∷◌, Option, none, some, lookup, Result, ok, err,
  lookup-insert, lookup-remove, lookup-retain, Distinct, insert-Distinct, remove-Distinct,
  retain-Distinct, arith, eq_iff, string_eq, ◌==◌, if◌then◌else◌, keep,
}
use acdp_registry_rs.Time.{DateTime}
use acdp_registry_rs.Auth.Error.{AuthError}
use acdp_registry_rs.Auth.ChallengeStore.{
  ChallengeRecord, Challenges, put, take, unexpired, evict_expired,
}

-- The calls that a store receives, in the order in which its lock is taken.
pub data Op : Type 0 where
  put_op : ChallengeRecord → Op
  take_op : String → DateTime → Op
  evict_op : DateTime → Op

unfoldable pub apply : Op → Challenges → Challenges
apply (put_op r) g = (put r g).1
apply (take_op n now) g = (take n now g).1
apply (evict_op now) g = evict_expired now g

abbrev is_ok : Result AuthError (Unit {0}) → ℕ
is_ok (ok _) = 1
is_ok (err _) = 0

abbrev is_some : Option ChallengeRecord → ℕ
is_some none = 0
is_some (some _) = 1

-- Whether a call stored, or redeemed, the nonce `n`.
unfoldable pub stored : String → Op → Challenges → ℕ
stored n (put_op r) g = if r.nonce == n then is_ok (put r g).0 else 0
stored n _ g = 0

unfoldable pub redeemed : String → Op → Challenges → ℕ
redeemed n (take_op m now) g = if m == n then is_some (take m now g).0 else 0
redeemed n _ g = 0

unfoldable pub total : (String → Op → Challenges → ℕ) → String → List Op → Challenges → ℕ
unfolding apply
total f n [] g = 0
total f n (op ∷ ops) g = f n op g + total f n ops (apply op g)

pub apply-Distinct : (op : Op) (g : Challenges) → Distinct g → Distinct (apply op g)
unfolding apply put take evict_expired
apply-Distinct (put_op r) g d = ground (arith, insert-Distinct r.nonce r g d)
apply-Distinct (take_op n now) g d = remove-Distinct n g d
apply-Distinct (evict_op now) g d = retain-Distinct _ g d

-- One call: what is held afterwards and what was redeemed were held before or stored by it.
one_use :
    (n : String) (op : Op) (g : Challenges)
    → Distinct g
    → is_some (lookup n (apply op g)) + redeemed n op g ≤ is_some (lookup n g) + stored n op g
unfolding apply put take evict_expired stored redeemed
one_use n (put_op r) g d = ground (arith, lookup-insert r.nonce n r g, eq_iff r.nonce n)
one_use n (take_op m now) g d = ground (arith, lookup-remove m n g, eq_iff m n)
one_use n (evict_op now) g d = rw (lookup-retain (unexpired now) n g d) (still_held (lookup n g))
  where
    still_held : (o : Option ChallengeRecord) → is_some (keep (unexpired now) o) + 0 ≤ is_some o + 0
    still_held o = ground arith

total_uses :
    (n : String) (ops : List Op) (g : Challenges)
    → Distinct g
    → total redeemed n ops g ≤ is_some (lookup n g) + total stored n ops g
unfolding total
total_uses n [] g d = omega arith
total_uses n (op ∷ ops) g d =
    omega (arith, one_use n op g d, total_uses n ops (apply op g) (apply-Distinct op g d))

-- From an empty store, whatever calls are interleaved, a nonce is redeemed at most as many times as
-- a challenge was successfully stored under it.
pub redeemed-le-stored :
    (n : String) (ops : List Op) → total redeemed n ops [] ≤ total stored n ops []
unfolding lookup
redeemed-le-stored n ops = omega (arith, total_uses n ops [] tt)

-- A redeemed challenge is the one stored under the nonce, and its expiry lies after the clock
-- reading at which it is redeemed.
pub take_live :
    (n : String) (now : DateTime) (g : Challenges) {r : ChallengeRecord}
    → (take n now g).0 ≡ some r
    → (lookup n g ≡ some r) × (now < r.expires_at)
unfolding take
take_live n now g h = ground arith

-- Whatever it answers, `take` leaves the nonce unknown: the next `take` of it answers nothing.
pub take-take : (n : String) (t u : DateTime) (g : Challenges) → (take n u (take n t g).1).0 ≡ none
unfolding take
take-take n t u g = ground (arith, lookup-remove n n g, eq_iff n n)

-- In a store with one entry for each nonce, eviction at an earlier instant changes no later answer of
-- `take`.
pub take-evict_expired :
    (n : String) (t u : DateTime) (g : Challenges)
    → Distinct g
    → t ≤ u
    → (take n u (evict_expired t g)).0 ≡ (take n u g).0
unfolding take evict_expired
take-evict_expired n t u g d h = rw (lookup-retain (unexpired t) n g d) (ground arith)
