-- ===== src/Webhooks/Tests.antt =====
-- The webhook emitter at concrete data, and the witnesses of its theorems.
use native.Mathlib.Decide.{dec_lt}
use acdp_registry_rs.Webhooks.Deliveries.{deliver-Ends, Ends, schedule}
use acdp_registry_rs.Webhooks.Queue.{
  reception, full, TrySendError, run-Queued, spawn, emission, run, Action, Queued, Documented, Mpsc,
}
use acdp_registry_rs.Webhooks.Trust.{worker-try_spawn, Authentic, Posts}
use acdp_registry_rs.Webhooks.{
  worker, request_of, context_retrieved, try_spawn, Turn, deliver, is_blank, deliver_loop,
}
use acdp_registry_rs.Webhooks.Events.{
  status, default_config, Reply, Delivery, WebhookConfig, External,
}
use acdp_registry_rs.Prelude.{
  ok_injective, ◌-◌, sym, length-append, suc, nat_eq, string_eq, some_injective, ap, ◌∷◌, ◌++◌, err,
  Option, Result, refl, ◌==◌, arith, ◌<◌, ◌≤◌, some, none, true, codes, if◌then◌else◌, [], length,
  ◌≡◌, ok, List, ℕ,
}

abbrev ext : External (Unit {0})
ext = record {
  to_vec = λ e. ok (codes e.event_id);
  hmac_sha256 = λ key message. key ++ message;
  hex = λ bytes. "00";
  check_url = λ url. if url == "https://hooks.example" then ok tt else err "refused";
}

abbrev cfg : WebhookConfig
cfg = record default_config { enabled = true; url = "https://hooks.example"; secret = " s" }

abbrev delivery : Delivery (Unit {0})
delivery = record {
  event_id = "e1";
  event = context_retrieved (record {
    registry_authority = "r.example";
    ctx_id = "acdp://r.example/1";
    requester_did = none;
    at = 0;
  });
  tenant_id = some "t";
}

-- Refused once with 503, then accepted.
abbrev busy_once : ℕ → Reply
busy_once n = if n == 1 then status 503 else status 204

-- 503, 429, and then a refusal that ends the delivery before the third pause.
busy_then_gone :
    deliver_loop 5 5
      (request_of ext cfg 0 delivery [])
      (λ n. if n == 1 then status 503 else if n == 2 then status 429 else status 410)
      0
      250
    ≡ some (schedule (request_of ext cfg 0 delivery []) 0 2)
unfolding deliver_loop
busy_then_gone = refl

spaces_are_blank : is_blank " \t" ≡ true
unfolding is_blank
spaces_are_blank = refl

deliver-Ends_example :
    (k : ℕ) × (deliver ext cfg 7 busy_once delivery
      ≡ ok (some (schedule (request_of ext cfg 7 delivery (codes "e1")) 0 k)))
    × Ends 3 busy_once 0 (suc k)
deliver-Ends_example = deliver-Ends ext cfg 7 busy_once delivery (codes "e1") refl

abbrev turn : Turn (Unit {0})
turn = record { delivery = delivery; sent_at = 7; replies = busy_once }

spawned : try_spawn ext cfg ≡ ok cfg
unfolding try_spawn is_blank
spawned = refl

worker-try_spawn_example : Posts (Authentic ext cfg) (worker ext cfg true (turn ∷ turn ∷ []))
worker-try_spawn_example = worker-try_spawn ext cfg true (turn ∷ turn ∷ []) spawned

-- A channel as a list with its bound.
record Listed : Type 0 where
  waiting : List (Delivery (Unit {0}))
  bound : ℕ
  fits : length waiting ≤ bound

send_within :
    (d : Delivery (Unit {0})) (s : Listed)
    → Dec (length s.waiting < s.bound)
    → Result TrySendError Listed
send_within d s (yes room) = ok (record {
  waiting = s.waiting ++ d ∷ [];
  bound = s.bound;
  fits = rw (length-append s.waiting (d ∷ [])) (omega (arith, room));
})
send_within d s (no spent) = err full

first_of :
    (waiting : List (Delivery (Unit {0}))) (bound : ℕ)
    → length waiting ≤ bound
    → Option (Delivery (Unit {0}) × Listed)
first_of [] bound fits = none
first_of (d ∷ rest) bound fits =
    some (d, record { waiting = rest; bound = bound; fits = omega (arith, fits) })

abbrev listed : Mpsc Listed (Delivery (Unit {0}))
listed = record {
  channel = λ n. record { waiting = []; bound = n; fits = omega arith };
  try_send = λ d s. send_within d s (dec_lt (length s.waiting) s.bound);
  recv = λ s. first_of s.waiting s.bound s.fits;
  max_capacity = λ s. s.bound;
  capacity = λ s. s.bound - length s.waiting;
}

sent_within :
    (d : Delivery (Unit {0})) (s s' : Listed) (room : Dec (length s.waiting < s.bound))
    → send_within d s room ≡ ok s'
    → (s'.waiting ≡ s.waiting ++ d ∷ []) × (s'.bound ≡ s.bound)
unfolding send_within
sent_within d s s' (yes room) h = (
  ap (λ (t : Listed). t.waiting) (sym (ok_injective h)),
  ap (λ (t : Listed). t.bound) (sym (ok_injective h)),
)
sent_within d s s' (no spent) h = cc

refused_within :
    (d : Delivery (Unit {0})) (s : Listed) (room : Dec (length s.waiting < s.bound))
    → send_within d s room ≡ err full
    → s.bound - length s.waiting ≡ 0
unfolding send_within
refused_within d s (yes room) h = cc
refused_within d s (no spent) h = omega arith

received_first :
    (waiting : List (Delivery (Unit {0}))) (bound : ℕ) (fits : length waiting ≤ bound) (s' : Listed)
    (d : Delivery (Unit {0}))
    → first_of waiting bound fits ≡ some (d, s')
    → (waiting ≡ d ∷ s'.waiting) × (s'.bound ≡ bound)
unfolding first_of
received_first [] bound fits s' d h = cc
received_first (x ∷ rest) bound fits s' d h =
    let e = some_injective h in
    (
      ap (λ (p : Delivery (Unit {0}) × Listed). p.0 ∷ p.1.waiting) e,
      ap (λ (p : Delivery (Unit {0}) × Listed). p.1.bound) (sym e),
    )

listed-Documented : Documented listed
listed-Documented = record {
  contents = λ s. s.waiting;
  fresh = λ n. (refl, refl);
  sent = λ d s s'. sent_within d s s' (dec_lt (length s.waiting) s.bound);
  refused = λ d s. refused_within d s (dec_lt (length s.waiting) s.bound);
  received = λ s s' d. received_first s.waiting s.bound s.fits s' d;
  free = λ s. omega (arith, s.fits);
}

abbrev history : List (Action (Unit {0}))
history =
    emission "e1" delivery.event none
    ∷ emission "e2" delivery.event none
    ∷ reception
    ∷ emission "e3" delivery.event none
    ∷ []

run-Queued_example :
    Queued listed listed-Documented
      (record cfg { queue_capacity = 1 })
      history
      (run listed history (spawn listed (record cfg { queue_capacity = 1 })) []).0
      (run listed history (spawn listed (record cfg { queue_capacity = 1 })) []).1
run-Queued_example = run-Queued listed listed-Documented (record cfg { queue_capacity = 1 }) history
