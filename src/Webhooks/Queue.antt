-- ===== src/Webhooks/Queue.antt =====
-- The queue between the emitter and its worker, over tokio's bounded channel.
use mathlib.Core.List.{append-nil, append_assoc}
use acdp_registry_rs.Webhooks.Events.{WebhookEvent, WebhookConfig, Delivery}
use acdp_registry_rs.Prelude.{
  arith, ◌≤◌, ap, refl, Option-cases, inr, ◌∙◌, inl, Result-cases, sym, length, ◌+◌, ◌∷◌, ◌++◌,
  some, none, err, max, [], ◌-◌, ok, ◌≡◌, Option, String, List, Result, ℕ,
}

pub data TrySendError : Type 0 where
  full closed : TrySendError

-- `tokio::sync::mpsc`: `S` is a channel's state. A refused `try_send` leaves it as it is.
pub record Mpsc (S D : Type 0) : Type 0 where
  pub channel : ℕ → S
  pub try_send : D → S → Result TrySendError S
  pub recv : S → Option (D × S)
  pub max_capacity : S → ℕ
  pub capacity : S → ℕ

-- What its documentation says: first in, first out, and refused only where nothing is free or it is closed.
pub record Documented {S D : Type 0} (c : Mpsc S D) : Type 0 where
  pub contents : S → List D
  pub fresh : (n : ℕ) → (contents (c.channel n) ≡ []) × (c.max_capacity (c.channel n) ≡ n)
  pub sent :
      (d : D) (s s' : S)
      → c.try_send d s ≡ ok s'
      → (contents s' ≡ contents s ++ d ∷ []) × (c.max_capacity s' ≡ c.max_capacity s)
  pub refused : (d : D) (s : S) → c.try_send d s ≡ err full → c.capacity s ≡ 0
  pub received :
      (s s' : S) (d : D)
      → c.recv s ≡ some (d, s')
      → (contents s ≡ d ∷ contents s') × (c.max_capacity s' ≡ c.max_capacity s)
  pub free : (s : S) → c.capacity s + length (contents s) ≡ c.max_capacity s

module _ {V S : Type 0} (c : Mpsc S (Delivery V)) where
  -- The channel that `spawn_with_policy` makes.
  unfoldable pub spawn : WebhookConfig → S
  spawn cfg = c.channel (max cfg.queue_capacity 1)

  -- The state after a send; a refused delivery is dropped.
  abbrev pub after_send : S → Result TrySendError S → S
  after_send s (ok s') = s'
  after_send s (err e) = s

  -- `event_id` is a fresh UUID.
  unfoldable pub emit_with_tenant : String → WebhookEvent V → Option String → S → S
  emit_with_tenant event_id event tenant_id s =
      after_send s
        (c.try_send (record { event_id = event_id; event = event; tenant_id = tenant_id }) s)

  unfoldable pub emit : String → WebhookEvent V → S → S
  unfolding emit_with_tenant
  emit event_id event s = emit_with_tenant event_id event none s

  unfoldable pub queue_status : S → ℕ × ℕ
  queue_status s = let capacity = c.max_capacity s in (capacity - c.capacity s, capacity)

-- An emission, or the worker's next `recv`.
pub data Action (V : Type 0) : Type 0 where
  emission : String → WebhookEvent V → Option String → Action V
  reception : Action V

module _ {V S : Type 0} (c : Mpsc S (Delivery V)) where
  abbrev pub after_recv : S → List (Delivery V) → Option (Delivery V × S) → S × List (Delivery V)
  after_recv s got none = (s, got)
  after_recv s got (some (d, s')) = (s', got ++ d ∷ [])

  -- The channel and what the worker has received so far.
  unfoldable pub run : List (Action V) → S → List (Delivery V) → S × List (Delivery V)
  run [] s got = (s, got)
  run (emission i e t ∷ rest) s got = run rest (emit_with_tenant c i e t s) got
  run (reception ∷ rest) s got = let next = after_recv s got (c.recv s) in run rest next.0 next.1

  -- The emissions that the channel takes, in order.
  unfoldable pub accepted : List (Action V) → S → List (Delivery V)
  accepted [] s = []
  accepted (emission i e t ∷ rest) s =
      let later = accepted rest (emit_with_tenant c i e t s) in
      elim (c.try_send (record { event_id = i; event = e; tenant_id = t }) s) [
        | ok s' ↦ record { event_id = i; event = e; tenant_id = t } ∷ later
        | err problem ↦ later
      ]
  accepted (reception ∷ rest) s = accepted rest (after_recv s [] (c.recv s)).0

  emit_with_tenant-ok :
      (d : Delivery V) (s s' : S)
      → c.try_send d s ≡ ok s'
      → emit_with_tenant c d.event_id d.event d.tenant_id s ≡ s'
  unfolding emit_with_tenant
  emit_with_tenant-ok d s s' h = rw (h, after_send) refl

  emit_with_tenant-err :
      (d : Delivery V) (s : S) (problem : TrySendError)
      → c.try_send d s ≡ err problem
      → emit_with_tenant c d.event_id d.event d.tenant_id s ≡ s
  unfolding emit_with_tenant
  emit_with_tenant-err d s problem h = rw (h, after_send) refl

  module _ (doc : Documented c) where
    -- What the worker has received, and then what waits.
    abbrev pub all_of : S × List (Delivery V) → List (Delivery V)
    all_of state = state.1 ++ doc.contents state.0

    run-accepted :
        (actions : List (Action V)) (s : S) (got : List (Delivery V))
        → all_of (run actions s got) ≡ (got ++ doc.contents s) ++ accepted actions s
    unfolding run accepted
    run-accepted [] s got = sym (append-nil (got ++ doc.contents s))
    run-accepted (emission i e t ∷ rest) s got =
        let d : Delivery V = record { event_id = i; event = e; tenant_id = t } in
        elim (Result-cases (c.try_send d s)) [
          | inl (s', taken) ↦
              let moved = emit_with_tenant-ok d s s' taken in
              ap (λ x. all_of (run rest x got)) moved
              ∙ run-accepted rest s' got
              ∙ rw (taken, accepted, moved) (simp ((doc.sent d s s' taken).0, append_assoc))
          | inr (problem, dropped) ↦
              let same = emit_with_tenant-err d s problem dropped in
              ap (λ x. all_of (run rest x got)) same
              ∙ run-accepted rest s got
              ∙ rw (dropped, accepted, same) refl
        ]
    run-accepted (reception ∷ rest) s got = elim (Option-cases (c.recv s)) [
      | inl nothing ↦
          ap (λ o. all_of (run rest (after_recv s got o).0 (after_recv s got o).1)) nothing
          ∙ run-accepted rest s got
          ∙ ap (λ o. (got ++ doc.contents s) ++ accepted rest (after_recv s [] o).0) (sym nothing)
      | inr ((d, s'), next) ↦
          ap (λ o. all_of (run rest (after_recv s got o).0 (after_recv s got o).1)) next
          ∙ run-accepted rest s' (got ++ d ∷ [])
          ∙ simp ((doc.received s s' d next).0, append_assoc, next)
    ]

    max_capacity-emit_with_tenant :
        (d : Delivery V) (s : S)
        → c.max_capacity (emit_with_tenant c d.event_id d.event d.tenant_id s) ≡ c.max_capacity s
    max_capacity-emit_with_tenant d s = elim (Result-cases (c.try_send d s)) [
      | inl (s', taken) ↦
          ap c.max_capacity (emit_with_tenant-ok d s s' taken) ∙ (doc.sent d s s' taken).1
      | inr (problem, dropped) ↦ ap c.max_capacity (emit_with_tenant-err d s problem dropped)
    ]

    max_capacity-run :
        (actions : List (Action V)) (s : S) (got : List (Delivery V))
        → c.max_capacity (run actions s got).0 ≡ c.max_capacity s
    unfolding run
    max_capacity-run [] s got = refl
    max_capacity-run (emission i e t ∷ rest) s got =
        max_capacity-run rest _ got
        ∙ max_capacity-emit_with_tenant (record { event_id = i; event = e; tenant_id = t }) s
    max_capacity-run (reception ∷ rest) s got = max_capacity-run rest _ _ ∙ kept
      where
        kept : c.max_capacity (after_recv s got (c.recv s)).0 ≡ c.max_capacity s
        kept = elim (Option-cases (c.recv s)) [
          | inl nothing ↦ rw nothing refl
          | inr ((d, s'), next) ↦ rw next (doc.received s s' d next).1
        ]

    -- What the queue promises after a history of emissions and receptions.
    pub record Queued (cfg : WebhookConfig) (actions : List (Action V)) (s : S)
        (got : List (Delivery V)) : Type 0 where
      pub in_order : got ++ doc.contents s ≡ accepted actions (spawn c cfg)
      pub bounded : length (doc.contents s) ≤ max cfg.queue_capacity 1
      pub told : queue_status c s ≡ (length (doc.contents s), max cfg.queue_capacity 1)
      pub dropped_if_full :
          (d : Delivery V)
          → c.try_send d s ≡ err full
          → length (doc.contents s) ≡ max cfg.queue_capacity 1

    -- Over a channel as documented, after any history of emissions and receptions: what the worker has received,
    -- and then what waits, are the emissions that were accepted, in order, each once; the configured capacity, or
    -- one, bounds what waits, `queue_status` tells it, and an emission finds the channel full only at that bound.
    pub run-Queued :
        (cfg : WebhookConfig) (actions : List (Action V))
        → Queued cfg actions (run actions (spawn c cfg) []).0 (run actions (spawn c cfg) []).1
    unfolding spawn queue_status
    run-Queued cfg actions =
        let new = doc.fresh (max cfg.queue_capacity 1) in
        let s = (run actions (spawn c cfg) []).0 in
        let most = max_capacity-run actions (spawn c cfg) [] ∙ new.1 in
        record {
          in_order =
              run-accepted actions (spawn c cfg) []
              ∙ ap (λ l. l ++ accepted actions (spawn c cfg)) new.0;
          bounded = omega (arith, doc.free s, most);
          told =
              rw most (ap (λ n. (n, max cfg.queue_capacity 1)) (omega (arith, doc.free s, most)));
          dropped_if_full = λ d h. omega (arith, doc.free s, most, doc.refused d s h);
        }
