-- ===== src/Hints/Turns.antt =====
-- What a turn does to its subscription: no change that the owner asks for and may see is passed over.
use acdp_registry_rs.Changes.Serve.Complete.{seen_after}
use acdp_registry_rs.Hints.Outcomes.{send_hint-Explains, Explains}
use acdp_registry_rs.Changes.MemoryFeed.Order.{WellFormed}
use acdp_registry_rs.Changes.Serve.Resume.{pruned_through-head}
use acdp_registry_rs.Changes.Serve.Answer.{evaluate_changes-Complete, Complete}
use acdp_registry_rs.Changes.Serve.Total.{evaluate_changes_answers, Total}
use acdp_registry_rs.Changes.Serve.Rounds.{Sees, Renders}
use mathlib.Core.Path.{subst}
use acdp_registry_rs.Changes.Since.{position, start_pos}
use acdp_registry_rs.Subscriptions.{
  has_lease, unwrap_or, advanced, finish_subscription_attempt, SubscriptionProgress,
  SubscriptionRecord, disabled_progress, healthy,
}
use acdp_registry_rs.Changes.MemoryFeed.{changes_head, head, Feed}
use acdp_registry_rs.Changes.Feed.{FeedQuery, FeedFingerprint, FeedRow}
use acdp_registry_rs.Changes.Serve.{base_query}
use acdp_registry_rs.Changes.Page.{
  ChangesResponse, is_empty_page, ChangesRequest, WatchFilter, Registry,
}
use acdp_registry_rs.Hints.{
  lease_ms, hint_one, finish, is_none, hint_turn, evaluate_hint, lease_lost, Readings, HintOutcome,
  Worker,
}
use acdp_registry_rs.Prelude.{
  ◌≢◌, ◌++◌, ap, string_eq, ◌+◌, Option-cases, insert, some, lookup, ◌⊎◌, HashMap, ◌∙◌, ◌&&◌, not,
  Bool-cases, ◌∷◌, arith, [], false, ◌||◌, true, ltb, List, ◌≤◌, sym, refl, >>=-eq-ok, inr, inl,
  ok_injective, ok, ℕ, Bool, String, ◌≡◌,
}

module _ {V E Change : Type 0} (worker : Worker E) (reg : Registry V E Change)
    (is_visible : String → Bool) (fp : FeedRow V → FeedFingerprint) (f : Feed V) where
  abbrev pub request_of : SubscriptionRecord WatchFilter → ChangesRequest
  request_of sub = record { since = position sub.last_hinted_seq; limit = 1; filter = sub.filter }

  -- The position is between the feed's bounds.
  abbrev pub Retained : ℕ → Type 0
  Retained pos = (f.pruned_through ≤ pos) × (pos ≤ (head fp f).head)

  position-accepted :
      (pos : ℕ) → Retained pos → start_pos fp {E = E} f (changes_head fp f) (position pos) ≡ ok pos
  unfolding start_pos changes_head
  position-accepted pos h =
      rw
        (inside (head fp f).head pos f.pruned_through (head fp f).pruned_through h.0 h.1
          (pruned_through-head reg fp f))
        refl
    where
      inside : (h p a b : ℕ) → a ≤ p → p ≤ h → b ≡ a → (ltb h p || ltb p b) ≡ false
      inside h p a b low high same = ground arith

  no_entries :
      (rows : List (FeedRow V)) (cs : List Change)
      → Renders reg is_visible rows cs
      → is_empty_page cs ≡ true
      → rows ≡ []
  no_entries [] cs h e = refl
  no_entries (r ∷ rows) [] h e = absurd h
  no_entries (r ∷ rows) (c ∷ cs) h e = cc

  some_entry :
      (rows tail : List (FeedRow V)) (cs : List Change)
      → Renders reg is_visible rows cs
      → is_empty_page cs ≡ false
      → (rows ++ tail) ≢ []
  some_entry [] tail [] h e = cc
  some_entry [] tail (c ∷ cs) h e = absurd h
  some_entry (r ∷ rows) tail cs h e = λ none_. cc

  evaluate_hint-Complete :
      Sees reg is_visible
      → Total reg fp f
      → WellFormed fp f
      → (sub : SubscriptionRecord WatchFilter) (q : FeedQuery) (resp : ChangesResponse Change)
      → Retained sub.last_hinted_seq
      → base_query reg fp (λ _. f) (request_of sub) sub.last_hinted_seq ≡ ok q
      → evaluate_hint worker reg fp (λ _. f) (λ _. f) (request_of sub) ≡ ok resp
      → Complete reg is_visible fp f q sub.last_hinted_seq resp
  unfolding evaluate_hint
  evaluate_hint-Complete sees t w sub q resp kept query done =
      let from = position-accepted sub.last_hinted_seq kept in
      let ((answer, scanned), e) =
        evaluate_changes_answers reg fp f t w (request_of sub) sub.last_hinted_seq q from query in
      subst (Complete reg is_visible fp f q sub.last_hinted_seq)
        (ok_injective (rw (e, evaluate_hint) at done))
        (evaluate_changes-Complete reg is_visible fp f sees w (request_of sub) sub.last_hinted_seq q
          answer scanned from query e)

  hint_turn-Explains :
      Sees reg is_visible
      → Total reg fp f
      → WellFormed fp f
      → (sub : SubscriptionRecord WatchFilter) (clock : Readings) (q : FeedQuery)
        (turn : SubscriptionProgress × HintOutcome)
      → Retained sub.last_hinted_seq
      → base_query reg fp (λ _. f) (request_of sub) sub.last_hinted_seq ≡ ok q
      → hint_turn worker reg fp (λ _. f) (λ _. f) (changes_head fp f) clock sub ≡ ok turn
      → Explains worker reg is_visible fp f q (changes_head fp f) clock sub turn.1 turn.0
  unfolding hint_turn disabled_progress healthy
  hint_turn-Explains sees t w sub clock q turn kept query done =
      elim (Bool-cases (
        not (worker.parse_did sub.owner_did) || (worker.require_tenant && is_none sub.tenant_id))) [
          | inl barred ↦
              subst
                (λ (t : SubscriptionProgress × HintOutcome).
                  Explains worker reg is_visible fp f q (changes_head fp f) clock sub t.1 t.0)
                (ok_injective (rw barred at done)) (refl, refl)
          | inr served ↦
              let (resp, evaluated, after) =
                >>=-eq-ok (evaluate_hint worker reg fp (λ _. f) (λ _. f) (request_of sub)) _
                  (rw served at done) in
              let page = evaluate_hint-Complete sees t w sub q resp kept query evaluated in
              elim (Bool-cases (is_empty_page resp.changes)) [
                | inl nothing ↦
                    subst
                      (λ (t : SubscriptionProgress × HintOutcome).
                        Explains worker reg is_visible fp f q (changes_head fp f) clock sub t.1 t.0)
                      (ok_injective (rw nothing at after))
                      (
                        refl,
                        page.split
                            ∙ rw (no_entries page.served resp.changes page.rendered nothing) refl,
                      )
                | inr some_change ↦
                    send_hint-Explains worker reg is_visible fp f q sub (changes_head fp f) clock
                      (worker.open_secret sub.subscription_id sub.secret_key_id sub.secret_ct) turn
                      (λ nothing.
                        some_entry page.served (seen_after reg is_visible fp f q resp.next.pos)
                          resp.changes page.rendered some_change (sym page.split ∙ nothing))
                      refl (rw some_change at after)
              ]
        ]

  -- `finish` writes the progress under the lease, or writes nothing and reports the lease lost.
  finish-cases :
      (sub : SubscriptionRecord WatchFilter) (lease : ℕ) (p : SubscriptionProgress)
      (o : HintOutcome) (m : HashMap String (SubscriptionRecord WatchFilter))
      → (finish worker reg fp sub lease (p, o) m ≡ (lease_lost, m))
        ⊎ ((s : SubscriptionRecord WatchFilter) × (lookup sub.subscription_id m ≡ some s)
            × (finish worker reg fp sub lease (p, o) m
                ≡ (o, insert sub.subscription_id (advanced p s) m)))
  unfolding finish finish_subscription_attempt
  finish-cases sub lease p o m = elim (Option-cases (lookup sub.subscription_id m)) [
    | inl absent ↦ inl (rw absent refl)
    | inr (s, e) ↦ elim (Bool-cases (has_lease lease s)) [
      | inl held ↦ inr (s, e, rw (e, held) refl)
      | inr other ↦ inl (rw (e, other) refl)
    ]
  ]

  -- On a well-formed feed that stays the same meanwhile, where the feed's rows render, the answers made of
  -- it pass the schema check, the store tells which contexts the owner may see, the position is retained and the filter's buckets parse:
  -- a turn that ends either reports the lease lost and writes nothing, or writes the progress that its
  -- outcome explains. A delivered hint was sent, signed with the subscription's secret, to an allowed URL and
  -- address, named the head and was answered with a status of success, it tells of a change that the owner asks for
  -- and may see, and it moves the position to that head; with nothing visible the
  -- position moves over no change that the owner asks for and may see; every other outcome keeps it, and
  -- only `Disabled` ends the subscription.
  pub hint_one-Explains :
      Sees reg is_visible
      → Total reg fp f
      → WellFormed fp f
      → (sub : SubscriptionRecord WatchFilter) (clock : Readings) (q : FeedQuery)
        (m : HashMap String (SubscriptionRecord WatchFilter)) (o : HintOutcome)
        (after : HashMap String (SubscriptionRecord WatchFilter))
      → Retained sub.last_hinted_seq
      → base_query reg fp (λ _. f) (request_of sub) sub.last_hinted_seq ≡ ok q
      → hint_one worker reg fp (λ _. f) (λ _. f) (changes_head fp f) clock sub m ≡ ok (o, after)
      → ((o ≡ lease_lost) × (after ≡ m))
        ⊎ ((s : SubscriptionRecord WatchFilter) × (p : SubscriptionProgress) × (lookup
                sub.subscription_id m
              ≡ some s)
            × (after ≡ insert sub.subscription_id (advanced p s) m)
            × Explains worker reg is_visible fp f q (changes_head fp f) clock sub o p)
  unfolding hint_one
  hint_one-Explains sees t w sub clock q m o after kept query done =
      let ((p, told), turn, written) =
        >>=-eq-ok (hint_turn worker reg fp (λ _. f) (λ _. f) (changes_head fp f) clock sub) _
          done in
      let explained = hint_turn-Explains sees t w sub clock q (p, told) kept query turn in
      let same = ok_injective written in
      elim (finish-cases sub (unwrap_or sub.lease_until_ms (clock.started_ms + lease_ms)) p told
        m) [
          | inl lost ↦
              let both = sym same ∙ lost in
              inl (
                ap (λ (t : HintOutcome × HashMap String (SubscriptionRecord WatchFilter)). t.0)
                    both,
                ap (λ (t : HintOutcome × HashMap String (SubscriptionRecord WatchFilter)). t.1)
                    both,
              )
          | inr (s, found, stored) ↦
              let both = sym same ∙ stored in
              inr (
                s,
                p,
                found,
                ap (λ (t : HintOutcome × HashMap String (SubscriptionRecord WatchFilter)). t.1)
                    both,
                subst (λ x. Explains worker reg is_visible fp f q (changes_head fp f) clock sub x p)
                    (sym (
                      ap
                        (λ (t : HintOutcome × HashMap String (SubscriptionRecord WatchFilter)). t.0)
                        both))
                    explained,
              )
        ]
