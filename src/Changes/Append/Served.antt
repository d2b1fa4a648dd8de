-- ===== src/Changes/Append/Served.antt =====
-- Every row that is appended can be served, and whoever watches the buckets of what it is served as is told of it.
use acdp_registry_rs.Changes.Append.Told.{check_servable-Told, Told, Uniform}
use mathlib.Core.List.{append-nil, append_assoc, map-append}
use mathlib.Core.Path.{subst}
use acdp_registry_rs.Changes.MemoryFeed.{push_one, push, Feed, row_of}
use acdp_registry_rs.Changes.Feed.{key_revocation, superseded, FeedAppend, ChangeKind, FeedRow}
use acdp_registry_rs.Changes.Append.{
  member, controller_of, superseded_appends, revoked_key_controller, revocation_appends,
  Predecessor, Body, feed_appends_for_publish, derive, check_all, check_servable, Sdk,
}
use acdp_registry_rs.Prelude.{
  ok_or-eq-ok, ok_or, inr, inl, Bool-cases, ◌⊎◌, String, false, ◌>>=◌, none, if◌then◌else◌, ◌+◌,
  Bool, some, map, ◌++◌, All, Option, ◌∷◌, sym, ◌∙◌, refl, string_eq, [], >>=-eq-ok, ok_injective,
  ap, true, ok, ◌≡◌, List, Result, ℕ,
}

-- What a row tells, without its place in the feed and its hashes.
pub record Entry (V : Type 0) : Type 0 where
  pub kind : ChangeKind
  pub ctx_id : String
  pub lineage_id : String
  pub agent_id : String
  pub superseded_by : Option String
  pub event : Option V
  pub receipt : V

abbrev pub entry_of : {V : Type 0} → FeedRow V → Entry V
entry_of r = record {
  kind = r.kind;
  ctx_id = r.ctx_id;
  lineage_id = r.lineage_id;
  agent_id = r.agent_id;
  superseded_by = r.superseded_by;
  event = r.event;
  receipt = r.receipt;
}

abbrev appended_entry : {V : Type 0} → FeedAppend V → Entry V
appended_entry a = record {
  kind = a.kind;
  ctx_id = a.ctx_id;
  lineage_id = a.lineage_id;
  agent_id = a.agent_id;
  superseded_by = a.superseded_by;
  event = a.event;
  receipt = a.receipt;
}

module _ {V M E L R G C : Type 0} (sdk : Sdk V M E L R G C) where
  check_all-Told :
      Uniform sdk
      → (appends : List (FeedAppend V)) {u : Unit {0}} → check_all sdk appends ≡ ok u
      → All (λ (a : FeedAppend V). (seq now : ℕ) → Told sdk (row_of a seq now)) appends
  check_all-Told u [] h = tt
  check_all-Told u (a ∷ rest) h =
      let (_, first, later) = >>=-eq-ok (check_servable sdk a) _ h in
      ((λ seq now. check_servable-Told sdk u a seq now first), check_all-Told u rest later)

  -- The rows that a feed gains.
  pub record Gains (f g : Feed V) (entries : List (Entry V)) : Type 0 where
    pub gained : List (FeedRow V)
    pub appended : g.rows ≡ f.rows ++ gained
    pub of_entries : map entry_of gained ≡ entries
    pub told : All (Told sdk) gained

  push-Gains :
      (now_ms : ℕ) (appends : List (FeedAppend V)) (f : Feed V)
      → All (λ (a : FeedAppend V). (seq now : ℕ) → Told sdk (row_of a seq now)) appends
      → Gains f (push now_ms appends f) (map appended_entry appends)
  unfolding push push_one
  push-Gains now_ms [] f h = record {
    gained = [];
    appended = sym (append-nil f.rows);
    of_entries = refl;
    told = tt;
  }
  push-Gains now_ms (a ∷ appends) f h =
      let row = row_of a (f.last_seq + 1) now_ms in
      let rest = push-Gains now_ms appends (push_one now_ms a f) h.1 in
      record {
        gained = row ∷ rest.gained;
        appended = rest.appended ∙ append_assoc f.rows (row ∷ []) rest.gained;
        of_entries = ap (λ entries. appended_entry a ∷ entries) rest.of_entries;
        told = (h.0 (f.last_seq + 1) now_ms, rest.told);
      }

  -- A superseded predecessor is told under its own context and producer, with the new version.
  abbrev pub superseded_entries : Body M → V → Option Predecessor → List (Entry V)
  superseded_entries body receipt none = []
  superseded_entries body receipt (some prev) =
      record {
        kind = superseded;
        ctx_id = prev.ctx_id;
        lineage_id = body.lineage_id;
        agent_id = prev.agent_id;
        superseded_by = some body.ctx_id;
        event = none;
        receipt = receipt;
      }
      ∷ []

  -- The controller that the metadata declares, if any.
  abbrev pub declared : Option M → Option V
  declared none = none
  declared (some m) = sdk.get "revoked_key_controller" m

  -- A revoked key's controller: the declared one, as it parses, and the body's producer where none is declared or
  -- a null is.
  abbrev pub ControlledBy : Body M → Option V → String → Type 0
  ControlledBy body none controller = controller ≡ body.agent_id
  ControlledBy body (some v) controller =
      ((sdk.is_null v ≡ true) × (controller ≡ body.agent_id))
      ⊎ ((sdk.is_null v ≡ false)
          × ((text : String) × (sdk.as_str v ≡ some text) × (sdk.parse_agent text ≡ ok controller)))

  abbrev pub Revokes : Bool → Body M → V → List (Entry V) → Type 0
  Revokes false body receipt entries = entries ≡ []
  Revokes true body receipt entries =
      (controller : String) × ControlledBy body (declared body.metadata) controller
      × (entries
          ≡ record {
            kind = key_revocation;
            ctx_id = body.ctx_id;
            lineage_id = body.lineage_id;
            agent_id = controller;
            superseded_by = none;
            event = none;
            receipt = receipt;
          }
            ∷ [])

  -- What a publication tells.
  abbrev pub Published : Body M → Option V → Option Predecessor → List (Entry V) → Type 0
  Published body none predecessor entries = entries ≡ []
  Published body (some receipt) predecessor entries =
      (revoked : List (Entry V)) × Revokes body.is_key_revocation body receipt revoked
      × (entries ≡ superseded_entries body receipt predecessor ++ revoked)

  controller_of-ControlledBy :
      (body : Body M) (o : Option V) {controller : String}
      → controller_of sdk body o ≡ ok controller
      → ControlledBy body o controller
  controller_of-ControlledBy body none h = sym (ok_injective h)
  controller_of-ControlledBy body (some v) h = elim (Bool-cases (sdk.is_null v)) [
    | inl null ↦ inl (null, sym (ok_injective (rw null at h)))
    | inr there ↦
        let (text, read, parsed) = >>=-eq-ok (ok_or (sdk.as_str v) _) _ (rw there at h) in
        inr (there, (text, ok_or-eq-ok _ _ read, parsed))
  ]

  revoked_key_controller-ControlledBy :
      (body : Body M) {controller : String}
      → revoked_key_controller sdk body ≡ ok controller
      → ControlledBy body (declared body.metadata) controller
  unfolding revoked_key_controller
  revoked_key_controller-ControlledBy body h = of_metadata body.metadata h
    where
      of_metadata :
          (metadata : Option M) {controller : String}
          → controller_of sdk body (member sdk "revoked_key_controller" metadata) ≡ ok controller
          → ControlledBy body (declared metadata) controller
      of_metadata none h = controller_of-ControlledBy body none h
      of_metadata (some m) h =
          controller_of-ControlledBy body (sdk.get "revoked_key_controller" m) h

  revocation_appends-Revokes :
      (body : Body M) (receipt : V) {revoked : List (FeedAppend V)}
      → revocation_appends sdk body receipt ≡ ok revoked
      → Revokes body.is_key_revocation body receipt (map appended_entry revoked)
  unfolding derive
  revocation_appends-Revokes body receipt h =
      by_flag body.is_key_revocation
        (revoked_key_controller sdk body >>= λ controller.
          ok (
            derive sdk key_revocation body.ctx_id body.lineage_id controller none none receipt
            ∷ []))
        (λ revoked made.
          let (controller, named, same) = >>=-eq-ok (revoked_key_controller sdk body) _ made in
          (
            controller,
            revoked_key_controller-ControlledBy body named,
            ap (map appended_entry) (sym (ok_injective same)),
          ))
        h
    where
      by_flag :
          (b : Bool) (made : Result E (List (FeedAppend V))) {revoked : List (FeedAppend V)}
          → ((l : List (FeedAppend V))
              → made ≡ ok l
              → Revokes true body receipt (map appended_entry l))
          → (if b then made else ok []) ≡ ok revoked
          → Revokes b body receipt (map appended_entry revoked)
      by_flag true made {revoked} one h = one revoked h
      by_flag false made one h = ap (map appended_entry) (sym (ok_injective h))

  feed_appends_for_publish-Told :
      (body : Body M) (receipt : Option V) (predecessor : Option Predecessor)
      {appends : List (FeedAppend V)}
      → Uniform sdk
      → feed_appends_for_publish sdk body receipt predecessor ≡ ok appends
      → All (λ (a : FeedAppend V). (seq now : ℕ) → Told sdk (row_of a seq now)) appends
        × Published body receipt predecessor (map appended_entry appends)
  unfolding feed_appends_for_publish derive
  feed_appends_for_publish-Told body none predecessor u h =
      subst
        (λ (l : List (FeedAppend V)).
          All (λ (a : FeedAppend V). (seq now : ℕ) → Told sdk (row_of a seq now)) l
          × Published body none predecessor (map appended_entry l))
        (ok_injective h) (tt, refl)
  feed_appends_for_publish-Told body (some receipt) predecessor u h =
      let (revoked, made, h1) = >>=-eq-ok (revocation_appends sdk body receipt) _ h in
      let out = superseded_appends sdk body receipt predecessor ++ revoked in
      let (_, checked, same) = >>=-eq-ok (check_all sdk out) _ h1 in
      subst
        (λ (l : List (FeedAppend V)).
          All (λ (a : FeedAppend V). (seq now : ℕ) → Told sdk (row_of a seq now)) l
          × Published body (some receipt) predecessor (map appended_entry l))
        (ok_injective same)
        (
          check_all-Told u out checked,
          (
            map appended_entry revoked,
            revocation_appends-Revokes body receipt made,
            map-append appended_entry (superseded_appends sdk body receipt predecessor) revoked
                ∙ ap (λ l. l ++ map appended_entry revoked) (first predecessor),
          ),
        )
    where
      first :
          (predecessor : Option Predecessor)
          → map appended_entry (superseded_appends sdk body receipt predecessor)
            ≡ superseded_entries body receipt predecessor
      first none = refl
      first (some prev) = refl

  -- Where the SDK makes changes alike at every position: an accepted publication whose rows can be made appends to
  -- the feed, in order, a `superseded` row of its predecessor, under the predecessor's own context and producer and
  -- with the new version, where it has one, and a `key_revocation` row of the published context where it revokes a
  -- key, under the controller that the metadata declares, or else its producer; all with the registry receipt, and
  -- none without one. Each is served as a change of the row's lineage and agent, and every query of any kind that
  -- watches a bucket of that change's lineage or agent matches the row.
  pub push-feed_appends_for_publish :
      (body : Body M) (receipt : Option V) (predecessor : Option Predecessor) (now_ms : ℕ)
      (f : Feed V) {appends : List (FeedAppend V)}
      → Uniform sdk
      → feed_appends_for_publish sdk body receipt predecessor ≡ ok appends
      → (entries : List (Entry V)) × Published body receipt predecessor entries
        × Gains f (push now_ms appends f) entries
  push-feed_appends_for_publish body receipt predecessor now_ms f {appends} u h =
      let (told, published) = feed_appends_for_publish-Told body receipt predecessor u h in
      (map appended_entry appends, published, push-Gains now_ms appends f told)
