-- ===== src/Changes/Append/Told.antt =====
-- A row that was checked before its append is served as a change, whose watchers its buckets find.
use acdp_registry_rs.Changes.MemoryFeed.{row_of}
use acdp_registry_rs.Changes.ChangeBucket.{contains}
use acdp_registry_rs.Changes.Since.{bytes_beq}
use acdp_registry_rs.Changes.Feed.{
  key_revocation, superseded, lifecycle, matches, FeedAppend, FeedQuery, ChangeKind, FeedRow,
}
use acdp_registry_rs.Changes.Append.{
  check_servable, corrupt, bucket_hash, change_of, bucketed, map_err, to_change, Sdk,
}
use acdp_registry_rs.Prelude.{
  >>=-ok, nat_beq_iff, ◌∷◌, sym, ◌∙◌, ok_or-eq-ok, refl, ok_or, string_eq, arith, eq_iff, ◌||◌,
  ◌==◌, not, err, [], >>=-eq-ok, refuse_if-eq-ok, ok_injective, ◌⊎◌, ap, true, ok, ◌≡◌, any, List,
  Result, String, ℕ,
}

module _ {V M E L R G C : Type 0} (sdk : Sdk V M E L R G C) where
  -- A change is made, of the same lineage and agent as another.
  pub record Alike (made : Result E C) (c : C) : Type 0 where
    pub change : C
    pub succeeds : made ≡ ok change
    pub same_lineage : sdk.lineage_of change ≡ sdk.lineage_of c
    pub same_agent : sdk.agent_of change ≡ sdk.agent_of c

  -- Where a change can be made of a row at a position, it can at any other, and it is of the same lineage and
  -- agent.
  pub record Uniform : Type 0 where
    pub lifecycle_at :
        (s t : ℕ) (lineage agent : String) (event : V) (receipt : R) (c : C)
        → sdk.lifecycle_change s lineage agent event receipt ≡ ok c
        → Alike (sdk.lifecycle_change t lineage agent event receipt) c
    pub superseded_at :
        (s t : ℕ) (ctx agent : String) (receipt : G) (c : C)
        → sdk.superseded_change s ctx agent receipt ≡ ok c
        → Alike (sdk.superseded_change t ctx agent receipt) c
    pub key_revocation_at :
        (s t : ℕ) (agent : String) (receipt : G) (c : C)
        → sdk.key_revocation_change s agent receipt ≡ ok c
        → Alike (sdk.key_revocation_change t agent receipt) c

  -- The query watches a bucket of the change's lineage or agent, and any kind.
  pub record Watches (q : FeedQuery) (c : C) : Type 0 where
    pub in_bucket :
        (any (λ b. contains b (bucket_hash sdk (sdk.lineage_of c))) q.lineage_buckets ≡ true)
        ⊎ (any (λ b. contains b (bucket_hash sdk (sdk.agent_of c))) q.agent_buckets ≡ true)
    pub any_kind : q.kinds ≡ []

  -- The row is served as a change, which every query that watches it matches.
  pub record Told (row : FeedRow V) : Type 0 where
    pub change : C
    pub served : to_change sdk row ≡ ok change
    pub lineage_same : sdk.lineage_of change ≡ row.lineage_id
    pub agent_same : sdk.agent_of change ≡ row.agent_id
    pub matched : (q : FeedQuery) → Watches q change → matches q row ≡ true

  map_err-eq-ok : {A : Type 0} (f : E → E) (r : Result E A) {a : A} → map_err f r ≡ ok a → r ≡ ok a
  map_err-eq-ok f (ok a) h = ap (λ x. ok x) (ok_injective h)
  map_err-eq-ok f (err e) h = cc

  map_err-ok : {A : Type 0} (f : E → E) {r : Result E A} {a : A} → r ≡ ok a → map_err f r ≡ ok a
  map_err-ok f h = ap (map_err f) h

  bytes_beq-eq : (xs ys : List ℕ) → bytes_beq xs ys ≡ true → xs ≡ ys
  bytes_beq-eq [] [] h = refl
  bytes_beq-eq (x ∷ xs) (y ∷ ys) h = ground (arith, nat_beq_iff x y, bytes_beq-eq xs ys)
  bytes_beq-eq [] (y ∷ ys) h = cc
  bytes_beq-eq (x ∷ xs) [] h = cc

  bucketed-eq :
      (served column : String) (hash : List ℕ) {u : Unit {0}}
      → bucketed sdk served column hash ≡ ok u
      → (served ≡ column) × (hash ≡ bucket_hash sdk served)
  bucketed-eq served column hash h =
      let good =
        refuse_if-eq-ok (not (served == column) || not (bytes_beq hash (bucket_hash sdk served))) _
          h in
      (
        (eq_iff served column).0 (ground (arith, good)),
        bytes_beq-eq hash (bucket_hash sdk served) (ground (arith, good)),
      )

  -- The change at another position.
  change_of-at :
      Uniform
      → (kind : ChangeKind) (a : FeedAppend V) (s t now now' : ℕ) (agent : String) (c : C)
      → change_of sdk kind (row_of a s now) agent ≡ ok c
      → Alike (change_of sdk kind (row_of a t now') agent) c
  change_of-at u lifecycle a s t now now' agent c h =
      let (raw, p1, h1) = >>=-eq-ok (ok_or a.event (corrupt sdk s (sdk.registry_internal _))) _ h in
      let (parsed, p2, h2) = >>=-eq-ok (map_err (corrupt sdk s) (sdk.event_from_value raw)) _ h1 in
      let (event, p3, h3) =
        >>=-eq-ok
          (map_err (λ e. corrupt sdk s (sdk.registry_internal (sdk.display e)))
            (sdk.event_to_value parsed))
          _ h2 in
      let (receipt, p4, h4) =
        >>=-eq-ok (map_err (corrupt sdk s) (sdk.event_receipt_from_value a.receipt)) _ h3 in
      let (lineage, p5, h5) =
        >>=-eq-ok (map_err (corrupt sdk s) (sdk.parse_lineage a.lineage_id)) _ h4 in
      let d =
        u.lifecycle_at s t lineage agent event receipt c (map_err-eq-ok (corrupt sdk s) _ h5) in
      record {
        change = d.change;
        succeeds =
            >>=-ok _
              (ap
                (λ o.
                  ok_or o
                    (corrupt sdk t (sdk.registry_internal "lifecycle entry without an event")))
                (ok_or-eq-ok _ _ p1))
              (>>=-ok _ (map_err-ok _ (map_err-eq-ok _ (sdk.event_from_value raw) p2)) (
                >>=-ok _ (map_err-ok _ (map_err-eq-ok _ (sdk.event_to_value parsed) p3)) (
                  >>=-ok _
                    (map_err-ok _ (map_err-eq-ok _ (sdk.event_receipt_from_value a.receipt) p4))
                    (>>=-ok _ (map_err-ok _ (map_err-eq-ok _ (sdk.parse_lineage a.lineage_id) p5))
                      (map_err-ok (corrupt sdk t) d.succeeds)))));
        same_lineage = d.same_lineage;
        same_agent = d.same_agent;
      }
  change_of-at u superseded a s t now now' agent c h =
      let (ctx, p1, h1) = >>=-eq-ok (map_err (corrupt sdk s) (sdk.parse_ctx a.ctx_id)) _ h in
      let (receipt, p2, h2) =
        >>=-eq-ok (map_err (corrupt sdk s) (sdk.registry_receipt_from_value a.receipt)) _ h1 in
      let d = u.superseded_at s t ctx agent receipt c (map_err-eq-ok (corrupt sdk s) _ h2) in
      record {
        change = d.change;
        succeeds = >>=-ok _ (map_err-ok _ (map_err-eq-ok _ (sdk.parse_ctx a.ctx_id) p1)) (
            >>=-ok _ (map_err-ok _ (map_err-eq-ok _ (sdk.registry_receipt_from_value a.receipt) p2))
              (map_err-ok (corrupt sdk t) d.succeeds));
        same_lineage = d.same_lineage;
        same_agent = d.same_agent;
      }
  change_of-at u key_revocation a s t now now' agent c h =
      let (receipt, p1, h1) =
        >>=-eq-ok (map_err (corrupt sdk s) (sdk.registry_receipt_from_value a.receipt)) _ h in
      let d = u.key_revocation_at s t agent receipt c (map_err-eq-ok (corrupt sdk s) _ h1) in
      record {
        change = d.change;
        succeeds =
            >>=-ok _ (map_err-ok _ (map_err-eq-ok _ (sdk.registry_receipt_from_value a.receipt) p1))
              (map_err-ok (corrupt sdk t) d.succeeds);
        same_lineage = d.same_lineage;
        same_agent = d.same_agent;
      }

  to_change-at :
      Uniform
      → (a : FeedAppend V) (s t now now' : ℕ) (c : C) → to_change sdk (row_of a s now) ≡ ok c
      → Alike (to_change sdk (row_of a t now')) c
  unfolding to_change
  to_change-at u a s t now now' c h =
      let (agent, p, h1) = >>=-eq-ok (map_err (corrupt sdk s) (sdk.parse_agent a.agent_id)) _ h in
      let d = change_of-at u a.kind a s t now now' agent c h1 in
      record {
        change = d.change;
        succeeds =
            >>=-ok _ (map_err-ok _ (map_err-eq-ok _ (sdk.parse_agent a.agent_id) p)) d.succeeds;
        same_lineage = d.same_lineage;
        same_agent = d.same_agent;
      }

  watched_row :
      (q : FeedQuery) (row : FeedRow V) (c : C)
      → row.lineage_hash ≡ bucket_hash sdk (sdk.lineage_of c)
      → row.agent_hash ≡ bucket_hash sdk (sdk.agent_of c)
      → Watches q c
      → matches q row ≡ true
  unfolding matches
  watched_row q row c lineage agent w =
      rw (w.any_kind, lineage, agent) (ground (arith, w.in_bucket))

  pub check_servable-Told :
      Uniform
      → (a : FeedAppend V) (seq now : ℕ) → check_servable sdk a ≡ ok tt
      → Told (row_of a seq now)
  unfolding check_servable
  check_servable-Told u a seq now h =
      let (c, made, h1) = >>=-eq-ok (to_change sdk (row_of a 1 0)) _ h in
      let (_, lineage, h2) =
        >>=-eq-ok (bucketed sdk (sdk.lineage_of c) a.lineage_id a.lineage_hash) _ h1 in
      let (lineage_same, lineage_hash) =
        bucketed-eq (sdk.lineage_of c) a.lineage_id a.lineage_hash lineage in
      let (agent_same, agent_hash) = bucketed-eq (sdk.agent_of c) a.agent_id a.agent_hash h2 in
      let d = to_change-at u a 1 seq 0 now c made in
      record {
        change = d.change;
        served = d.succeeds;
        lineage_same = d.same_lineage ∙ lineage_same;
        agent_same = d.same_agent ∙ agent_same;
        matched = λ q.
            watched_row q (row_of a seq now) d.change
              (lineage_hash ∙ ap (bucket_hash sdk) (sym d.same_lineage))
              (agent_hash ∙ ap (bucket_hash sdk) (sym d.same_agent));
      }
