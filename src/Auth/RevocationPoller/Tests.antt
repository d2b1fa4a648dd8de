-- ===== src/Auth/RevocationPoller/Tests.antt =====
-- The poller at concrete data, and the witnesses of its theorems.
use mathlib.Core.Path.{subst}
use acdp_registry_rs.Auth.RevocationPoller.Applied.{apply_entries-foreign}
use acdp_registry_rs.Auth.RevocationStore.{
  get_revocation_cursor, set_revocation_cursor, revoke, new,
}
use acdp_registry_rs.Auth.RevocationPoller.Memory.{in_memory-Reliable}
use acdp_registry_rs.Auth.RevocationPoller.Caught.{poll_rounds-start, Sound, Caught}
use acdp_registry_rs.Auth.RevocationPoller.{
  resumed, timestamp_opt, apply_entry, apply_entries, start, advance, answered, poll_once,
  in_memory, i64_zero, poll_rounds, fetch_once, Tick, FeedEntry, RevocationFeedConfig,
}
use acdp_registry_rs.Prelude.{
  Member, insert, lookup, eq_iff, ◌≢◌, sym, inl, inr, ok_injective, Option, refl, ap, arith, ◌≤◌,
  ◌<◌, some, ok, err, ◌+◌, [], ◌∷◌, ◌≡◌, List, ℕ,
}

abbrev cfg : RevocationFeedConfig
cfg = record {
  issuer = "peer.example";
  feed_url = "https://peer.example/auth/revocations";
  admin_token = "k";
  poll_seconds = 300;
}

abbrev ours : FeedEntry
ours = record {
  jti = "a";
  sub = "did:web:alice";
  iss = "peer.example";
  exp = i64_zero + 100;
  revoked_at_ms = 5;
}

abbrev foreign : FeedEntry
foreign = record {
  jti = "b";
  sub = "did:web:bob";
  iss = "other.example";
  exp = i64_zero + 100;
  revoked_at_ms = 6;
}

abbrev page : List FeedEntry
page = foreign ∷ ours ∷ []

-- The peer is down at first, and then answers with the page.
abbrev down : Tick in_memory cfg
down = record { peer = λ q. answered 503 (err "down"); between = λ s. s }

abbrev up : Tick in_memory cfg
up = record {
  peer = λ q. answered 200 (ok (record { entries = page; next_cursor = some 6 }));
  between = λ s. s;
}

abbrev Fed : FeedEntry → Type 0
Fed e = e ≡ ours

down-Sound : Sound in_memory cfg in_memory-Reliable Fed down
unfolding fetch_once
down-Sound = record {
  whole = λ c next entries h. cc;
  keeps = λ s jti h. h;
  same_cursor = λ s. refl;
}

up-Sound : Sound in_memory cfg in_memory-Reliable Fed up
unfolding fetch_once
up-Sound = record { whole = whole; keeps = λ s jti h. h; same_cursor = λ s. refl }
  where
    whole :
        (c next : ℕ) (entries : List FeedEntry)
        → fetch_once up.peer cfg c ≡ ok (entries, some next)
        → (e : FeedEntry) → e ≡ ours
        → c < e.revoked_at_ms
        → e.revoked_at_ms ≤ next
        → Member e entries
    whole c next entries h e same low high =
        subst (Member e) (ap (λ (t : List FeedEntry × Option ℕ). t.0) (ok_injective h))
          (inr (inl (sym same)))

none_yet : resumed in_memory cfg (in_memory.get_revocation_cursor cfg.issuer new) ≡ 0
unfolding get_revocation_cursor lookup
none_yet = refl

poll_rounds-start_example :
    Caught in_memory cfg in_memory-Reliable Fed
      (poll_rounds in_memory cfg (down ∷ up ∷ []) (start in_memory cfg new))
poll_rounds-start_example =
    poll_rounds-start in_memory cfg in_memory-Reliable Fed (down ∷ up ∷ []) new
      (down-Sound, (up-Sound, tt)) (λ e fed a low high. absurd (omega (arith, low, high, none_yet)))

polled : (poll_rounds in_memory cfg (down ∷ up ∷ []) (start in_memory cfg new)).cursor ≡ 6
unfolding lookup insert poll_rounds poll_once fetch_once advance apply_entries apply_entry start
    timestamp_opt get_revocation_cursor set_revocation_cursor revoke
polled = refl

a_is_not_b : ours.jti ≢ "b"
a_is_not_b h = ground (arith, eq_iff "a" "b")

apply_entries-foreign_example :
    in_memory-Reliable.entry "b" (apply_entries in_memory cfg page new).0
    ≡ in_memory-Reliable.entry "b" new
apply_entries-foreign_example =
    apply_entries-foreign in_memory cfg in_memory-Reliable page new "b"
      ((λ same. (λ e. cc, λ e. cc)), ((λ same. absurd (a_is_not_b same)), tt))
