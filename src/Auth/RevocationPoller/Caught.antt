-- ===== src/Auth/RevocationPoller/Caught.antt =====
-- The poller misses no revocation that it is to apply: of those, what its cursor has passed is revoked locally.
use native.Mathlib.Decide.{dec_lt}
use acdp_registry_rs.Auth.RevocationPoller.Applied.{
  get_revocation_cursor-apply_entries, apply_entries-keeps, apply_entries-marks, marked, Applies,
  Reliable,
}
use acdp_registry_rs.Auth.RevocationPoller.{
  after_fetch, FetchError, start, advance, apply_entries, resumed, fetch_once, poll_rounds,
  poll_once, Poller, Tick, FeedEntry, RevocationFeedConfig, Store,
}
use mathlib.Core.Path.{subst}
use acdp_registry_rs.Prelude.{
  Member, ap, ◌∙◌, Bool-cases, sym, refl, none, Result, false, inl, inr, Option, arith,
  Result-cases, [], some, ok, true, ◌≡◌, ◌∷◌, ◌≤◌, All, ◌<◌, List, String, ℕ,
}

module _ {S : Type 0} (store : Store S) (cfg : RevocationFeedConfig) (laws : Reliable store)
    (feed : FeedEntry → Type 0) where
  -- Every entry that the peer ever feeds, for this poller to apply and up to the cursor, is revoked here.
  abbrev pub Covered : ℕ → S → Type 0
  Covered c s =
      (e : FeedEntry)
      → feed e
      → Applies cfg e
      → 0 < e.revoked_at_ms
      → e.revoked_at_ms ≤ c
      → marked (laws.entry e.jti s) ≡ true

  -- A page with a next cursor holds every entry between the cursor asked for and that one. Between the ticks
  -- nothing revoked is dropped, and the cursor is left alone.
  pub record Sound (t : Tick store cfg) : Type 0 where
    pub whole :
        (c next : ℕ) (entries : List FeedEntry)
        → fetch_once t.peer cfg c ≡ ok (entries, some next)
        → (e : FeedEntry) → feed e
        → c < e.revoked_at_ms
        → e.revoked_at_ms ≤ next
        → Member e entries
    pub keeps :
        (s : S) (jti : String)
        → marked (laws.entry jti s) ≡ true
        → marked (laws.entry jti (t.between s)) ≡ true
    pub same_cursor :
        (s : S)
        → store.get_revocation_cursor cfg.issuer (t.between s)
          ≡ store.get_revocation_cursor cfg.issuer s

  -- Neither the cursor in memory nor the one to restart from has passed an entry to apply that is not revoked here.
  pub record Caught (p : Poller store cfg) : Type 0 where
    pub in_memory_cursor : Covered p.cursor p.local
    pub stored_cursor :
        Covered (resumed store cfg (store.get_revocation_cursor cfg.issuer p.local)) p.local

  -- Where a store keeps what is revoked, what is covered stays so.
  Covered-keeps :
      (c : ℕ) (s s' : S)
      → ((jti : String) → marked (laws.entry jti s) ≡ true → marked (laws.entry jti s') ≡ true)
      → Covered c s
      → Covered c s'
  Covered-keeps c s s' keeps covered e fed a low high = keeps e.jti (covered e fed a low high)

  Covered-apply_entries :
      (t : Tick store cfg) (c next : ℕ) (entries : List FeedEntry) (s : S)
      → Sound t
      → fetch_once t.peer cfg c ≡ ok (entries, some next)
      → (apply_entries store cfg entries s).1 ≡ true
      → Covered c s
      → Covered next (apply_entries store cfg entries s).0
  Covered-apply_entries t c next entries s sound page done covered e fed a low high =
      elim (dec_lt c e.revoked_at_ms) [
        | yes later ↦
            apply_entries-marks store cfg laws entries s e a
              (sound.whole c next entries page e fed later high) done
        | no before ↦
            apply_entries-keeps store cfg laws entries s e.jti
              (covered e fed a low (omega (arith, before)))
      ]

  Caught-keeps :
      (p : Poller store cfg) (s' : S)
      → ((jti : String)
          → marked (laws.entry jti p.local) ≡ true
          → marked (laws.entry jti s') ≡ true)
      → store.get_revocation_cursor cfg.issuer s' ≡ store.get_revocation_cursor cfg.issuer p.local
      → Caught p
      → Caught (record p { local = s' })
  Caught-keeps p s' keeps same h = record {
    in_memory_cursor = Covered-keeps p.cursor p.local s' keeps h.in_memory_cursor;
    stored_cursor = rw same (
        Covered-keeps (resumed store cfg (store.get_revocation_cursor cfg.issuer p.local)) p.local
          s' keeps h.stored_cursor);
  }

  Caught-apply_entries :
      (entries : List FeedEntry) (p : Poller store cfg)
      → Caught p
      → Caught (record p { local = (apply_entries store cfg entries p.local).0 })
  Caught-apply_entries entries p =
      Caught-keeps p (apply_entries store cfg entries p.local).0
        (λ jti. apply_entries-keeps store cfg laws entries p.local jti)
        (get_revocation_cursor-apply_entries store cfg laws entries p.local)

  advance-Caught :
      (next : Option ℕ) (p : Poller store cfg)
      → ((c : ℕ) → next ≡ some c → Covered c p.local)
      → Caught p
      → Caught (advance store cfg true next p)
  unfolding advance
  advance-Caught none p covered h = h
  advance-Caught (some c) p covered h =
      let s' = (store.set_revocation_cursor cfg.issuer c p.local).0 in
      let keeps : (n : ℕ) → Covered n p.local → Covered n s' = λ n.
        Covered-keeps n p.local s' (λ jti m. rw (laws.cursor_others cfg.issuer c p.local jti) m) in
      record {
        in_memory_cursor = keeps c (covered c refl);
        stored_cursor = elim (laws.cursor_read cfg.issuer c p.local) [
          | inl read ↦ rw read (keeps c (covered c refl))
          | inr old ↦ rw old (
              keeps (resumed store cfg (store.get_revocation_cursor cfg.issuer p.local))
                h.stored_cursor)
        ];
      }

  unmoved :
      (next : Option ℕ) (p : Poller store cfg) → Caught p → Caught (advance store cfg false next p)
  unfolding advance
  unmoved next p h = h

  poll_once-Caught :
      (t : Tick store cfg) (p : Poller store cfg)
      → Sound t
      → Caught p
      → Caught (poll_once store cfg t.peer p)
  unfolding poll_once
  poll_once-Caught t p sound h = elim (Result-cases (fetch_once t.peer cfg p.cursor)) [
    | inr (problem, failed) ↦ rw failed h
    | inl ((entries, next), page) ↦
        let applied : Poller store cfg = record p {
          local = (apply_entries store cfg entries p.local).0;
        } in
        subst
          (λ (r : Result FetchError (List FeedEntry × Option ℕ)).
            Caught (after_fetch store cfg p r))
          (sym page)
          (elim (Bool-cases (apply_entries store cfg entries p.local).1) [
            | inl done ↦
                subst (λ b. Caught (advance store cfg b next applied)) (sym done)
                  (advance-Caught next applied
                    (λ c e.
                      Covered-apply_entries t p.cursor c entries p.local sound
                        (page ∙ ap (λ n. ok (entries, n)) e) done h.in_memory_cursor)
                    (Caught-apply_entries entries p h))
            | inr partial ↦
                subst (λ b. Caught (advance store cfg b next applied)) (sym partial)
                  (unmoved next applied (Caught-apply_entries entries p h))
          ])
  ]

  poll_rounds-Caught :
      (ticks : List (Tick store cfg)) (p : Poller store cfg)
      → All Sound ticks
      → Caught p
      → Caught (poll_rounds store cfg ticks p)
  unfolding poll_rounds
  poll_rounds-Caught [] p sound h = h
  poll_rounds-Caught (t ∷ ticks) p sound h =
      let polled = poll_once store cfg t.peer p in
      poll_rounds-Caught ticks (record polled { local = t.between polled.local }) sound.1
        (Caught-keeps polled (t.between polled.local) (sound.0.keeps polled.local)
          (sound.0.same_cursor polled.local) (poll_once-Caught t p sound.0 h))

  -- Entries are meant that the peer ever feeds of its own tokens, whose expiry is a representable time, and that were
  -- revoked after the epoch. In a reliable store, where a page with a next cursor is whole and nothing is dropped
  -- between the ticks: of a store whose cursor has passed no such entry that is not revoked in it, the poller keeps
  -- it so, and its cursor in memory too, through any rounds, whether a fetch, a revocation or the storing of a
  -- cursor fails. Of other entries nothing is said.
  pub poll_rounds-start :
      (ticks : List (Tick store cfg)) (s : S)
      → All Sound ticks
      → Covered (resumed store cfg (store.get_revocation_cursor cfg.issuer s)) s
      → Caught (poll_rounds store cfg ticks (start store cfg s))
  unfolding start
  poll_rounds-start ticks s sound h =
      poll_rounds-Caught ticks (start store cfg s) sound
        (record { in_memory_cursor = h; stored_cursor = h })
