-- ===== src/Changes/Page.antt =====
-- What `GET /changes` takes and answers, and its loop over a page's rows: the types and the row loop of
-- crates/acdp-registry-core/src/handlers/changes.rs. Visibility, the producers of contexts, the SDK's change
-- entries and their JSON are the record `Registry`.
use acdp_registry_rs.Changes.Since.{failed, ServeError, DecodedCursor, Since}
use acdp_registry_rs.Prelude.{
  ◌++◌, ◌&&◌, string_eq, max, leb, length, ◌+◌, not, ◌>>=◌, nat_eq, ◌==◌, ◌>>=◌, if◌then◌else◌,
  true, ◌∷◌, err, ltb, none, [], false, some, ok, Bool, String, Result, Option, List, ℕ,
}
use acdp_registry_rs.Changes.Feed.{
  lifecycle, superseded, key_revocation, FeedPage, ChangeKind, FeedFingerprint, FeedRow, FeedHead,
}

-- The SDK's filter; a bucket is the bytes of its text.
pub record WatchFilter : Type 0 where
  pub ctx_id : List String
  pub lineage_id : List String
  pub agent_id : List String
  pub kind : List ChangeKind
  pub lineage_bucket : List (List ℕ)
  pub agent_bucket : List (List ℕ)

pub record ChangesRequest : Type 0 where
  pub since : Since
  pub limit : ℕ
  pub filter : WatchFilter

pub record ChangesResponse (Change : Type 0) : Type 0 where
  pub changes : List Change
  pub next : DecodedCursor
  pub has_more : Bool

-- What the handler asks of the rest of the registry, for one requester and tenant.
pub record Registry (V E Change : Type 0) : Type 0 where
  pub visible_ctx_ids : List String → String → Bool
  pub producers_of : List String → List String
  pub sorted_dedup : List String → List String
  pub parse_bucket : List ℕ → Result E (List ℕ)
  pub to_change : FeedRow V → Result E Change
  pub json_len : Change → Result E ℕ
  pub empty_len : FeedHead → Result E ℕ
  pub validate : ChangesResponse Change → Result E (Unit {0})
  pub min_scan_rows : ℕ
  pub max_page_bytes : ℕ

abbrev pub refill_max_scans : ℕ
refill_max_scans = 6

unfoldable pub visibility_subject : {V : Type 0} → FeedRow V → Option String
visibility_subject row = elim row.kind [
  | lifecycle ↦ some row.ctx_id
  | superseded ↦ elim row.superseded_by [ none ↦ some "" | some id ↦ some id ]
  | key_revocation ↦ none
]

abbrev pub failing {ℓ} : {E : Type 0} {A : Type ℓ} → Result E A → Result (ServeError E) A
failing (ok a) = ok a
failing (err e) = err (failed e)

abbrev pub map_result : {E A B : Type 0} → (A → Result E B) → List A → Result E (List B)
map_result f [] = ok []
map_result f (x ∷ xs) = f x >>= λ y. map_result f xs >>= λ ys. ok (y ∷ ys)

-- What the refill loop carries. `head` and `head_fp` are the newest observed.
pub record Scan (Change : Type 0) : Type 0 where
  pub pos : ℕ
  pub head : ℕ
  pub head_fp : Option FeedFingerprint
  pub body : ℕ
  pub changes : List Change
  pub scanned : ℕ
  pub capped : Bool

abbrev pub is_empty_page {ℓ} : {A : Type ℓ} → List A → Bool
is_empty_page [] = true
is_empty_page (x ∷ xs) = false

module _ {V E Change : Type 0} (reg : Registry V E Change) where
  -- `row.to_change()` and its length
  abbrev pub render : FeedRow V → Result (ServeError E) (Change × ℕ)
  render row = failing (reg.to_change row >>= λ c. reg.json_len c >>= λ n. ok (c, n))

  abbrev pub named : String → List String → List String
  named id ids = if id == "" then ids else id ∷ ids

  abbrev pub subjects : List (FeedRow V) → List String
  subjects [] = []
  subjects (row ∷ rows) = elim (visibility_subject row) [
    | none ↦ subjects rows
    | some id ↦ named id (subjects rows)
  ]

  -- `visible_ctx_ids` of the page's subjects
  abbrev pub is_shown : List (FeedRow V) → FeedRow V → Bool
  is_shown rows row = elim (visibility_subject row) [
    | none ↦ true
    | some id ↦ not (is_empty_page (subjects rows)) && reg.visible_ctx_ids (subjects rows) id
  ]

  -- Whether one more entry of `size` bytes overflows the page; the first always fits.
  abbrev pub overflows : Scan Change → ℕ → Bool
  overflows st size = not (is_empty_page st.changes) && ltb reg.max_page_bytes (st.body + 1 + size)

  abbrev pub with_change : Change → ℕ → ℕ → Scan Change → Scan Change
  with_change c size seq st = record st {
    pos = seq;
    body = st.body + (size + (if is_empty_page st.changes then 0 else 1));
    changes = st.changes ++ (c ∷ []);
  }

  -- The loop over a page's rows; the answer says whether it left the outer loop.
  unfoldable pub serve_rows :
      ℕ
      → (FeedRow V → Bool)
      → List (FeedRow V)
      → Scan Change
      → Result (ServeError E) (Bool × Scan Change)
  serve_rows target shown [] st = ok (false, st)
  serve_rows target shown (row ∷ rows) st = elim (length st.changes == target) [
    | true ↦ ok (true, st)
    | false ↦ elim (shown row) [
      | false ↦ serve_rows target shown rows (record st { pos = row.seq })
      | true ↦ render row >>= λ rendered. elim (overflows st rendered.1) [
        | true ↦ ok (true, record st { capped = true })
        | false ↦ serve_rows target shown rows (with_change rendered.0 rendered.1 row.seq st)
      ]
    ]
  ]

  -- The newest head of a scan and a page.
  abbrev pub observed : FeedPage V → Scan Change → Scan Change
  observed page st =
      if leb st.head page.head
      then record st {
        head = page.head;
        head_fp = page.head_fp;
        scanned = st.scanned + length page.rows;
      }
      else record st { scanned = st.scanned + length page.rows }

  abbrev pub passed_page : FeedPage V → Scan Change → Scan Change
  passed_page page st = record st { pos = max st.pos page.last_scanned }
