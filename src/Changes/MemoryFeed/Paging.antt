-- ===== src/Changes/MemoryFeed/Paging.antt =====
-- Reading the feed page by page: nothing that matches is skipped or repeated, and the pages come to an end.
use acdp_registry_rs.Changes.MemoryFeed.Pruning.{head-last_seq}
use mathlib.Core.List.{append-nil}
use acdp_registry_rs.Changes.MemoryFeed.{head, pending, Feed, changes_page, rows_after}
use acdp_registry_rs.Changes.MemoryFeed.Order.{WellFormed, drop-whole, Contiguous-le, Contiguous}
use acdp_registry_rs.Changes.Feed.{
  limit, from_scan, FeedFingerprint, has_id_clause, matches, FeedRow, FeedQuery,
}
use acdp_registry_rs.Prelude.{
  if◌then◌else◌, length-append, take-append-drop, max, ◌++◌, false, length, ltb, ◌∙◌, true, leb,
  sym, drop, ap, zero, some_injective, inr, inl, Bool-cases, ◌⊎◌, suc, none, ◌<◌, some, take, last,
  Bool, refl, arith, ◌∷◌, [], ◌≡◌, ◌≤◌, filterb, List, ℕ,
}

module _ {V : Type 0} where
  -- What is left of the matching rows when a position is passed.
  abbrev pub left : FeedQuery → ℕ → List (FeedRow V) → List (FeedRow V)
  left q after rows = filterb (matches q) (rows_after after rows)

  -- The rows above every position are none.
  pub rows_after-end :
      (p n after : ℕ) (rows : List (FeedRow V))
      → Contiguous p n rows
      → n ≤ after
      → rows_after after rows ≡ []
  rows_after-end p n after [] h le = refl
  rows_after-end p n after (r ∷ rows) h le =
      let rest = rows_after-end r.seq n after rows h.1 le in
      let bound = Contiguous-le r.seq n rows h.1 in ground (arith, rest, bound)

  pub rows_after-start :
      (p n after : ℕ) (rows : List (FeedRow V))
      → Contiguous p n rows
      → after ≤ p
      → rows_after after rows ≡ rows
  rows_after-start p n after [] h le = refl
  rows_after-start p n after (r ∷ rows) h le = ground arith

  last-cons :
      (x : FeedRow V) (xs : List (FeedRow V)) (r : FeedRow V)
      → last (x ∷ xs) ≡ some r
      → ((last xs ≡ none) × (x ≡ r)) ⊎ (last xs ≡ some r)
  last-cons x [] r e = inl (refl, some_injective e)
  last-cons x (y ∷ ys) r e = inr e

  -- A row that the filter keeps stands above the run's start.
  lt-seq-filterb :
      (m : FeedRow V → Bool) (n p q : ℕ) (rows : List (FeedRow V)) (r : FeedRow V)
      → Contiguous p q rows
      → last (take n (filterb m rows)) ≡ some r
      → p < r.seq
  lt-seq-filterb m zero p q rows r h e = cc
  lt-seq-filterb m (suc n) p q [] r h e = cc
  lt-seq-filterb m (suc n) p q (x ∷ xs) r h e = elim (Bool-cases (m x)) [
    | inl on ↦ elim (last-cons x (take n (filterb m xs)) r (rw on at e)) [
      | inl ends ↦ omega (arith, h.0, ap (λ (y : FeedRow V). y.seq) ends.1)
      | inr more ↦ omega (arith, h.0, lt-seq-filterb m n x.seq q xs r h.1 more)
    ]
    | inr off ↦ omega (arith, h.0, lt-seq-filterb m (suc n) x.seq q xs r h.1 (rw off at e))
  ]

  passed : (x r : FeedRow V) → x.seq ≤ r.seq → leb x.seq r.seq ≡ true
  passed x r h = ground arith

  -- What a page leaves behind is what lies above its last row.
  drop-filterb :
      (m : FeedRow V → Bool) (n p q : ℕ) (rows : List (FeedRow V)) (r : FeedRow V)
      → Contiguous p q rows
      → last (take n (filterb m rows)) ≡ some r
      → drop n (filterb m rows) ≡ filterb m (rows_after r.seq rows)
  drop-filterb m zero p q rows r h e = cc
  drop-filterb m (suc n) p q [] r h e = cc
  drop-filterb m (suc n) p q (x ∷ xs) r h e = elim (Bool-cases (m x)) [
    | inl on ↦ elim (last-cons x (take n (filterb m xs)) r (rw on at e)) [
      | inl ends ↦
          let same = ap (λ (y : FeedRow V). y.seq) ends.1 in
          rw (passed x r (omega (arith, same)), on)
            (drop-whole n (filterb m xs) ends.0
              ∙ ap (filterb m) (sym (rows_after-start x.seq q r.seq xs h.1 (omega (arith, same)))))
      | inr more ↦
          let above = lt-seq-filterb m n x.seq q xs r h.1 more in
          rw (passed x r (omega (arith, above)), on) (drop-filterb m n x.seq q xs r h.1 more)
    ]
    | inr off ↦
        let later = rw off at e in
        let above = lt-seq-filterb m (suc n) x.seq q xs r h.1 later in
        rw (passed x r (omega (arith, above)), off) (drop-filterb m (suc n) x.seq q xs r h.1 later)
  ]

  -- The same below the position that a query starts from.
  lt-seq-left :
      (q : FeedQuery) (n after p e : ℕ) (rows : List (FeedRow V)) (r : FeedRow V)
      → Contiguous p e rows
      → last (take n (left q after rows)) ≡ some r
      → p < r.seq
  lt-seq-left q n after p e [] r h l = lt-seq-filterb (matches q) n p e [] r h l
  lt-seq-left q n after p e (x ∷ xs) r h l = elim (Bool-cases (leb x.seq after)) [
    | inl on ↦ omega (arith, h.0, lt-seq-left q n after x.seq e xs r h.1 (rw on at l))
    | inr off ↦ lt-seq-filterb (matches q) n p e (x ∷ xs) r h (rw off at l)
  ]

  pub drop-left :
      (q : FeedQuery) (n after p e : ℕ) (rows : List (FeedRow V)) (r : FeedRow V)
      → Contiguous p e rows
      → last (take n (left q after rows)) ≡ some r
      → drop n (left q after rows) ≡ left q r.seq rows
  drop-left q n after p e [] r h l = drop-filterb (matches q) n p e [] r h l
  drop-left q n after p e (x ∷ xs) r h l = elim (Bool-cases (leb x.seq after)) [
    | inl on ↦
        let rest = rw on at l in
        let above = lt-seq-left q n after x.seq e xs r h.1 rest in
        rw (on, passed x r (omega (arith, above))) (drop-left q n after x.seq e xs r h.1 rest)
    | inr off ↦ rw off (drop-filterb (matches q) n p e (x ∷ xs) r h (rw off at l))
  ]

  pub matches-after :
      (q : FeedQuery) (after : ℕ) → matches {V = V} (record q { after = after }) ≡ matches q
  unfolding matches has_id_clause
  matches-after q after = refl

  last-some : (x : FeedRow V) (xs : List (FeedRow V)) → (r : FeedRow V) × (last (x ∷ xs) ≡ some r)
  last-some x [] = (x, refl)
  last-some x (y ∷ xs) = last-some y xs

  full_page-last :
      (n : ℕ) (rows : List (FeedRow V))
      → 0 < n
      → ltb (length (take n rows)) n ≡ false
      → (r : FeedRow V) × (last (take n rows) ≡ some r)
  full_page-last zero rows pos full = absurd (omega (arith, pos))
  full_page-last (suc n) [] pos full = absurd (ground (arith, full))
  full_page-last (suc n) (x ∷ rows) pos full = last-some x (take n rows)

  short_page :
      (n : ℕ) (rows : List (FeedRow V)) → ltb (length (take n rows)) n ≡ true → take n rows ≡ rows
  short_page zero rows h = ground arith
  short_page (suc n) [] h = refl
  short_page (suc n) (x ∷ rows) h = ap (λ t. x ∷ t) (short_page n rows (ground arith))

module _ {V : Type 0} (fp : FeedRow V → FeedFingerprint) where
  short_page-rest :
      (q : FeedQuery) (f : Feed V)
      → WellFormed fp f
      → ltb (length (take (limit q) (pending q f))) (limit q) ≡ true
      → pending q f
        ≡ take (limit q) (pending q f)
          ++ pending (record q { after = max (head fp f).head q.after }) f
  short_page-rest q f w h =
      rw
        (
          matches-after {V = V} q (max (head fp f).head q.after),
          rows_after-end f.pruned_through f.last_seq (max (head fp f).head q.after) f.rows
              w.contiguous (omega (arith, head-last_seq fp f w)),
          short_page (limit q) (pending q f) h,
        )
        (sym (append-nil (pending q f)))

  full_page-rest :
      (q : FeedQuery) (f : Feed V) (r : FeedRow V)
      → WellFormed fp f
      → last (take (limit q) (pending q f)) ≡ some r
      → pending q f ≡ take (limit q) (pending q f) ++ pending (record q { after = r.seq }) f
  full_page-rest q f r w e = rw (matches-after {V = V} q r.seq) (
      sym (take-append-drop (limit q) (pending q f))
      ∙ ap (λ t. take (limit q) (pending q f) ++ t)
          (drop-left q (limit q) q.after f.pruned_through f.last_seq f.rows r w.contiguous e))

  -- On a well-formed feed a page and what is pending after its `last_scanned` are what was pending before.
  pub rows-changes_page :
      (q : FeedQuery) (f : Feed V)
      → WellFormed fp f
      → pending q f
        ≡ (changes_page fp q f).rows
          ++ pending (record q { after = (changes_page fp q f).last_scanned }) f
  unfolding changes_page from_scan
  rows-changes_page q f w =
      elim (Bool-cases (ltb (length (take (limit q) (pending q f))) (limit q))) [
        | inl short ↦ rw short (short_page-rest q f w short)
        | inr full ↦
            let (r, e) = full_page-last (limit q) (pending q f) (omega arith) full in
            rw (full, e) (full_page-rest q f r w e)
      ]

  -- A reader that asks for page after page, each time from the `last_scanned` of the page before, until a
  -- page reaches the head; the first argument bounds the number of pages.
  abbrev pub read_all : ℕ → FeedQuery → Feed V → List (FeedRow V)
  read_all zero q f = []
  read_all (suc k) q f =
      let p = changes_page fp q f in
      let rest = read_all k (record q { after = p.last_scanned }) f in
      p.rows ++ (if p.reached_head then [] else rest)

  full_page-length :
      (q : FeedQuery) (f : Feed V)
      → (changes_page fp q f).reached_head ≡ false
      → 0 < length (changes_page fp q f).rows
  unfolding changes_page from_scan
  full_page-length q f full =
      ground (arith, ltb_false (length (take (limit q) (pending q f))) (limit q) full)
    where
      ltb_false : (a b : ℕ) → ltb a b ≡ false → b ≤ a
      ltb_false a b h = ground arith

  -- Where the page does not reach the head it is not empty, so that fewer rows stay pending.
  page_progress :
      (q : FeedQuery) (f : Feed V)
      → WellFormed fp f
      → (changes_page fp q f).reached_head ≡ false
      → length (pending (record q { after = (changes_page fp q f).last_scanned }) f)
        < length (pending q f)
  page_progress q f w full = omega (
    arith,
    ap length (rows-changes_page q f w),
    length-append (changes_page fp q f).rows
        (pending (record q { after = (changes_page fp q f).last_scanned }) f),
    full_page-length q f full,
  )

  page_complete :
      (q : FeedQuery) (f : Feed V)
      → (changes_page fp q f).reached_head ≡ true
      → (changes_page fp q f).rows ≡ pending q f
  unfolding changes_page from_scan
  page_complete q f h = short_page (limit q) (pending q f) h

  -- On a well-formed feed a reader that starts anywhere gets, in order and once each, the matching rows
  -- after its position, where it may ask for more pages than there are such rows.
  pub read_all-eq-pending :
      (k : ℕ) (q : FeedQuery) (f : Feed V)
      → WellFormed fp f
      → length (pending q f) < k
      → read_all k q f ≡ pending q f
  read_all-eq-pending zero q f w h = absurd (omega (arith, h))
  read_all-eq-pending (suc k) q f w h = elim (Bool-cases (changes_page fp q f).reached_head) [
    | inl done ↦ rw (done, page_complete q f done) (append-nil (pending q f))
    | inr more ↦
        let next = record q { after = (changes_page fp q f).last_scanned } in
        let fewer = page_progress q f w more in
        rw (more, read_all-eq-pending k next f w (omega (arith, fewer, h)))
          (sym (rows-changes_page q f w))
  ]
