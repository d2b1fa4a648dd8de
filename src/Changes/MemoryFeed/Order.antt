-- ===== src/Changes/MemoryFeed/Order.antt =====
-- The rows of the feed are the positions after `pruned_through` up to the last one assigned.
use mathlib.Core.Path.{subst}
use acdp_registry_rs.Changes.MemoryFeed.{none, row_of, drop, push, push_one, empty_feed, Feed}
use acdp_registry_rs.Changes.Feed.{FeedAppend, FeedFingerprint, FeedRow}
use acdp_registry_rs.Prelude.{
  sym, ap, some_injective, ◌≢◌, ◌+◌, zero, refl, [], ◌++◌, ◌<◌, take, some, arith, suc, ◌∷◌, last,
  ◌≤◌, ◌≡◌, List, ℕ,
}

module _ {V : Type 0} where
  -- The rows run, one by one, from just above `p` to `last_seq`.
  abbrev pub Contiguous : ℕ → ℕ → List (FeedRow V) → Type 0
  Contiguous p last_seq [] = p ≡ last_seq
  Contiguous p last_seq (r ∷ rows) = (r.seq ≡ suc p) × Contiguous r.seq last_seq rows

  pub Contiguous-append :
      (p q : ℕ) (rows : List (FeedRow V)) (r : FeedRow V)
      → Contiguous p q rows
      → r.seq ≡ suc q
      → Contiguous p r.seq (rows ++ (r ∷ []))
  Contiguous-append p q [] r h e = (rw h e, refl)
  Contiguous-append p q (x ∷ rows) r h e = (h.0, Contiguous-append x.seq q rows r h.1 e)

  pub Contiguous-le : (p q : ℕ) (rows : List (FeedRow V)) → Contiguous p q rows → p ≤ q
  Contiguous-le p q [] h = omega arith
  Contiguous-le p q (r ∷ rows) h = omega (arith, Contiguous-le r.seq q rows h.1)

  -- The position of the last row, where there is one, is the end of the run.
  pub seq-last :
      (p q : ℕ) (rows : List (FeedRow V)) (r : FeedRow V)
      → Contiguous p q rows
      → last rows ≡ some r
      → (r.seq ≡ q) × (p < r.seq)
  seq-last p q [] r h e = cc
  seq-last p q (x ∷ []) r h e = ground arith
  seq-last p q (x ∷ y ∷ rows) r h e = omega (arith, seq-last x.seq q (y ∷ rows) r h.1 e)

  -- What a prune leaves below and above.
  pub Contiguous-drop :
      (n p q : ℕ) (rows : List (FeedRow V)) (r : FeedRow V)
      → Contiguous p q rows
      → last (take n rows) ≡ some r
      → Contiguous r.seq q (drop n rows)
  Contiguous-drop zero p q rows r h e = cc
  Contiguous-drop (suc n) p q [] r h e = cc
  Contiguous-drop (suc zero) p q (x ∷ rows) r h e =
      subst (λ (y : FeedRow V). Contiguous y.seq q rows) (some_injective e) h.1
  Contiguous-drop (suc (suc n)) p q (x ∷ []) r h e =
      subst (λ (y : FeedRow V). Contiguous y.seq q []) (some_injective e) h.1
  Contiguous-drop (suc (suc n)) p q (x ∷ y ∷ rows) r h e =
      Contiguous-drop (suc n) x.seq q (y ∷ rows) r h.1 e

pub record WellFormed {V : Type 0} (fp : FeedRow V → FeedFingerprint) (f : Feed V) : Type 0 where
  pub contiguous : Contiguous f.pruned_through f.last_seq f.rows
  pub fp_recorded : 0 < f.pruned_through → (x : FeedFingerprint) × (f.pruned_through_fp ≡ some x)

module _ {V : Type 0} (fp : FeedRow V → FeedFingerprint) where
  pub empty_feed-WellFormed : WellFormed fp empty_feed
  empty_feed-WellFormed = record { contiguous = refl; fp_recorded = λ h. elim h [ ] }

  push_one-WellFormed :
      (now_ms : ℕ) (a : FeedAppend V) (f : Feed V)
      → WellFormed fp f
      → WellFormed fp (push_one now_ms a f)
  unfolding push_one
  push_one-WellFormed now_ms a f w = record {
    contiguous =
        Contiguous-append f.pruned_through f.last_seq f.rows (row_of a (f.last_seq + 1) now_ms)
          w.contiguous (omega arith);
    fp_recorded = w.fp_recorded;
  }

  -- Appending keeps the feed well formed: the rows are the positions after `pruned_through`, one by one,
  -- up to the last one assigned.
  pub push-WellFormed :
      (now_ms : ℕ) (appends : List (FeedAppend V)) (f : Feed V)
      → WellFormed fp f
      → WellFormed fp (push now_ms appends f)
  unfolding push
  push-WellFormed now_ms [] f w = w
  push-WellFormed now_ms (a ∷ appends) f w =
      push-WellFormed now_ms appends (push_one now_ms a f) (push_one-WellFormed now_ms a f w)

module _ {V : Type 0} where
  -- A feed with no row has been pruned through its last position.
  pub no_rows : (p q : ℕ) (rows : List (FeedRow V)) → Contiguous p q rows → last rows ≡ none → p ≡ q
  no_rows p q [] h e = h
  no_rows p q (x ∷ []) h e = cc
  no_rows p q (x ∷ y ∷ rows) h e = absurd (last-cons y rows e)
    where
      last-cons : (y : FeedRow V) (rows : List (FeedRow V)) → last (y ∷ rows) ≢ none
      last-cons y [] e = cc
      last-cons y (z ∷ rows) e = last-cons z rows e

  -- What is drained lies above `pruned_through`.
  pub lt-seq-take :
      (n p q : ℕ) (rows : List (FeedRow V)) (r : FeedRow V)
      → Contiguous p q rows
      → last (take n rows) ≡ some r
      → p < r.seq
  lt-seq-take zero p q rows r h e = cc
  lt-seq-take (suc n) p q [] r h e = cc
  lt-seq-take (suc zero) p q (x ∷ rows) r h e =
      ground (arith, ap (λ (y : FeedRow V). y.seq) (some_injective e))
  lt-seq-take (suc (suc n)) p q (x ∷ []) r h e =
      ground (arith, ap (λ (y : FeedRow V). y.seq) (some_injective e))
  lt-seq-take (suc (suc n)) p q (x ∷ y ∷ rows) r h e =
      omega (arith, h.0, lt-seq-take (suc n) x.seq q (y ∷ rows) r h.1 e)

module _ {ℓ} {A : Type ℓ} where
  -- The ends of the two parts of a list.
  pub drop-whole : (n : ℕ) (xs : List A) → last (take n xs) ≡ none → drop n xs ≡ xs
  drop-whole zero xs e = refl
  drop-whole (suc n) [] e = refl
  drop-whole (suc zero) (x ∷ xs) e = cc
  drop-whole (suc (suc n)) (x ∷ []) e = cc
  drop-whole (suc (suc n)) (x ∷ y ∷ xs) e = absurd (last-take-ne-none n y xs e)
    where
      last-take-ne-none : (n : ℕ) (y : A) (xs : List A) → last (take (suc n) (y ∷ xs)) ≢ none
      last-take-ne-none zero y xs e = cc
      last-take-ne-none (suc n) y [] e = cc
      last-take-ne-none (suc n) y (z ∷ xs) e = last-take-ne-none n z xs e

  pub last-drop : (n : ℕ) (xs : List A) (a : A) → last (drop n xs) ≡ some a → last xs ≡ some a
  last-drop zero xs a e = e
  last-drop (suc n) [] a e = cc
  last-drop (suc zero) (x ∷ []) a e = cc
  last-drop (suc (suc n)) (x ∷ []) a e = cc
  last-drop (suc zero) (x ∷ y ∷ xs) a e = e
  last-drop (suc (suc n)) (x ∷ y ∷ xs) a e = last-drop (suc n) (y ∷ xs) a e

  pub last-take_all : (n : ℕ) (xs : List A) → last (drop n xs) ≡ none → last (take n xs) ≡ last xs
  last-take_all zero [] e = refl
  last-take_all zero (x ∷ xs) e = sym e
  last-take_all (suc n) [] e = refl
  last-take_all (suc zero) (x ∷ []) e = refl
  last-take_all (suc (suc n)) (x ∷ []) e = refl
  last-take_all (suc zero) (x ∷ y ∷ xs) e = absurd (last-cons-ne-none y xs e)
    where
      last-cons-ne-none : (y : A) (xs : List A) → last (y ∷ xs) ≢ none
      last-cons-ne-none y [] e = cc
      last-cons-ne-none y (z ∷ xs) e = last-cons-ne-none z xs e
  last-take_all (suc (suc n)) (x ∷ y ∷ xs) e = last-take_all (suc n) (y ∷ xs) e
