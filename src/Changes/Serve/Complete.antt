-- ===== src/Changes/Serve/Complete.antt =====
-- What a whole page of `GET /changes` holds, on a feed that stays the same while it is put together.
use mathlib.Core.Path.{subst}
use acdp_registry_rs.Prelude.{
  nat_eq, >>=-eq-ok, inl, ◌==◌, length, Bool-cases, inr, ok_injective, ◌⊎◌, All, [], refl, ap, ok,
  ◌∙◌, true, false, sym, ◌++◌, ◌∷◌,
}
use mathlib.Core.List.{append_assoc}
use acdp_registry_rs.Changes.MemoryFeed.Paging.{drop-left, left}
use acdp_registry_rs.Changes.Serve.Rounds.{Renders-append, is_seen, Renders}
use acdp_registry_rs.Changes.MemoryFeed.Order.{WellFormed}
use acdp_registry_rs.Changes.MemoryFeed.{head, Feed}
use acdp_registry_rs.Changes.Feed.{FeedQuery, FeedFingerprint, FeedRow}
use acdp_registry_rs.Prelude.{◌∷◌, ◌++◌, ◌≡◌, filterb, List, ℕ, Bool, String}
use acdp_registry_rs.Changes.Page.{overflows, serve_rows, with_change, render, Scan, Registry}

module _ {V E Change : Type 0} (reg : Registry V E Change) (is_visible : String → Bool)
    (fp : FeedRow V → FeedFingerprint) (f : Feed V) (q : FeedQuery) where
  -- The changes after a position that the query asks for and the requester may see.
  abbrev pub seen_after : ℕ → List (FeedRow V)
  seen_after pos = filterb (is_seen reg is_visible) (left q pos f.rows)

  -- What the scan has collected since `start`: entries of `served`, with nothing skipped or repeated.
  pub record Collected (start : ℕ) (st : Scan Change) : Type 0 where
    pub served : List (FeedRow V)
    pub rendered : Renders reg is_visible served st.changes
    pub split : seen_after start ≡ served ++ seen_after st.pos
    pub newest : st.head ≡ (head fp f).head

  left-step :
      (w : WellFormed fp f) (pos : ℕ) (r : FeedRow V) (rest : List (FeedRow V))
      → left q pos f.rows ≡ r ∷ rest
      → left q r.seq f.rows ≡ rest
  left-step w pos r rest e =
      sym (drop-left q 1 pos f.pruned_through f.last_seq f.rows r w.contiguous (rw e refl))
      ∙ rw e refl

  hidden :
      (w : WellFormed fp f) (start : ℕ) (st : Scan Change) (r : FeedRow V) (rest : List (FeedRow V))
      → left q st.pos f.rows ≡ r ∷ rest
      → is_seen reg is_visible r ≡ false
      → Collected start st
      → Collected start (record st { pos = r.seq })
  hidden w start st r rest e off c = record {
    served = c.served;
    rendered = c.rendered;
    split =
        c.split
        ∙ ap (λ t. c.served ++ t)
            (ap (filterb (is_seen reg is_visible)) e
              ∙ rw off (ap (filterb (is_seen reg is_visible)) (sym (left-step w st.pos r rest e))));
    newest = c.newest;
  }

  shown :
      (w : WellFormed fp f) (start : ℕ) (st : Scan Change) (r : FeedRow V) (rest : List (FeedRow V))
      (c : Change) (n : ℕ)
      → left q st.pos f.rows ≡ r ∷ rest
      → is_seen reg is_visible r ≡ true
      → render reg r ≡ ok (c, n)
      → Collected start st
      → Collected start (with_change reg c n r.seq st)
  shown w start st r rest c n e on done h = record {
    served = h.served ++ (r ∷ []);
    rendered = Renders-append reg is_visible h.served st.changes r c n h.rendered done;
    split =
        h.split
        ∙ ap (λ t. h.served ++ t)
            (ap (filterb (is_seen reg is_visible)) e
              ∙ rw on (
                  ap (λ t. r ∷ filterb (is_seen reg is_visible) t)
                    (sym (left-step w st.pos r rest e))))
        ∙ sym (append_assoc h.served (r ∷ []) (seen_after r.seq));
    newest = h.newest;
  }

  -- The page's rows are read from the front. Where the loop is left early the scan goes no further.
  pub serve_rows-Collected :
      (w : WellFormed fp f) (start target : ℕ) (shows : FeedRow V → Bool)
      (rows tail : List (FeedRow V)) (st : Scan Change) (left_early : Bool) (out : Scan Change)
      → All (λ row. shows row ≡ is_seen reg is_visible row) rows
      → left q st.pos f.rows ≡ rows ++ tail
      → Collected start st
      → serve_rows reg target shows rows st ≡ ok (left_early, out)
      → Collected start out × ((left_early ≡ true) ⊎ (left q out.pos f.rows ≡ tail))
  unfolding serve_rows
  serve_rows-Collected w start target shows [] tail st left_early out known e c done =
      let same = ok_injective done in
      let stay = ap (λ (p : Bool × Scan Change). p.1) same in
      (
        subst (Collected start) stay c,
        inr (ap (λ (s : Scan Change). left q s.pos f.rows) (sym stay) ∙ e),
      )
  serve_rows-Collected w start target shows (r ∷ rows) tail st left_early out known e c done =
      elim (Bool-cases (length st.changes == target)) [
        | inl full ↦
            let same = ok_injective (rw (full, serve_rows) at done) in
            (
              subst (Collected start) (ap (λ (p : Bool × Scan Change). p.1) same) c,
              inl (sym (ap (λ (p : Bool × Scan Change). p.0) same)),
            )
        | inr room ↦ elim (Bool-cases (shows r)) [
          | inr off ↦
              serve_rows-Collected w start target shows rows tail (record st { pos = r.seq })
                left_early out known.1 (left-step w st.pos r (rows ++ tail) e)
                (hidden w start st r (rows ++ tail) e (sym known.0 ∙ off) c)
                (rw (room, off, serve_rows) at done)
          | inl on ↦
              let (rendered, entry, rest) =
                >>=-eq-ok (render reg r) _ (rw (room, on, serve_rows) at done) in
              elim (Bool-cases (overflows reg st rendered.1)) [
                | inl over ↦
                    let same = ok_injective (rw over at rest) in
                    let stay = ap (λ (p : Bool × Scan Change). p.1) same in
                    (
                      subst (Collected start) stay (capped_keeps start st c),
                      inl (sym (ap (λ (p : Bool × Scan Change). p.0) same)),
                    )
                | inr fits ↦
                    serve_rows-Collected w start target shows rows tail
                      (with_change reg rendered.0 rendered.1 r.seq st) left_early out known.1
                      (left-step w st.pos r (rows ++ tail) e)
                      (shown w start st r (rows ++ tail) rendered.0 rendered.1 e (sym known.0 ∙ on)
                        entry c)
                      (rw fits at rest)
              ]
        ]
      ]
    where
      capped_keeps :
          (start : ℕ) (st : Scan Change)
          → Collected start st
          → Collected start (record st { capped = true })
      capped_keeps start st c = record {
        served = c.served;
        rendered = c.rendered;
        split = c.split;
        newest = c.newest;
      }
