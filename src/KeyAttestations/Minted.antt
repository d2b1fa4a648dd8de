-- ===== src/KeyAttestations/Minted.antt =====
-- Publications one after the other, in the order in which the store takes them: what those that are accepted rest on,
-- and that no token mints two attestations.
use acdp_registry_rs.Time.{DateTime}
use acdp_registry_rs.KeyAttestations.Admission.{checked_window-InWindow, InWindow}
use acdp_registry_rs.Prelude.{
  refuse_if-eq-ok, refl, ◌&&◌, sym, refuse_if, ok_injective, Result-cases, ap, inl, inr, ◌||◌, ◌∙◌,
  Bool-cases, arith, All, >>=-eq-ok, string_eq, none, true, ◌==◌, false, [], some, err,
  if◌then◌else◌, ◌≤◌, ok, ◌∷◌, ◌+◌, Bool, ◌≡◌, ℕ, List, Result, Option, String,
}
use mathlib.Core.Path.{subst}
use acdp_registry_rs.KeyAttestations.{
  token_replayed, mints_attestation, checked_window, is_mint, used_token, SuccessorAttestation,
  insert_row, is_used, receipt_for, keyless_minter, PublishRequest, commit_publish, Publication,
  MemoryState, contains_token, KeyAttestationIndexRow, KeylessSigner, KeylessError,
}

module _ {Reason : Type 0} (keyless_key_id : String → String → Option String)
    (may_supersede : KeylessSigner → KeylessSigner → Result Reason (Unit {0}))
    (Receipt : Type 0) where
  abbrev pub Posted : Type 0
  Posted = Publication keyless_key_id may_supersede Receipt

  -- The publications that are accepted, of these in this order.
  abbrev pub accepted : List Posted → MemoryState → List Posted
  accepted [] s = []
  accepted (p ∷ ps) s = elim (commit_publish keyless_key_id may_supersede p s) [
    | ok done ↦ p ∷ accepted ps done.1
    | err e ↦ accepted ps s
  ]

  -- How many of these mint an attestation with the token.
  abbrev pub mints_with : String → Result (KeylessError Reason) (Option KeyAttestationIndexRow) → ℕ
  mints_with token (ok none) = 0
  mints_with token (ok (some row)) = if row.token_hash == token then 1 else 0
  mints_with token (err e) = 0

  abbrev pub mints_of : String → List Posted → ℕ
  mints_of token [] = 0
  mints_of token (p ∷ ps) = mints_with token p.index + mints_of token ps

  abbrev pub spent : String → MemoryState → ℕ
  spent token s = if contains_token token s.attestation_tokens then 1 else 0

  -- The request's index row has the token of its body's.
  abbrev pub SameToken : Posted → Type 0
  SameToken p =
      (row : KeyAttestationIndexRow)
      → p.index ≡ ok (some row)
      → (r : KeyAttestationIndexRow) × (p.for_request ≡ ok (some r))
        × (r.token_hash ≡ row.token_hash)

  -- A keyless publication is in an attestation's window.
  abbrev pub Rests : Bool → Posted → Type 0
  Rests false p = Unit
  Rests true p = InWindow keyless_key_id may_supersede p.req p.successor_found p.created_at

  -- What an accepted publication rests on, and what it adds.
  record Committed (p : Posted) (s s2 : MemoryState) : Type 0 where
    pub rests : Rests p.is_keyless p
    pub spends : (token : String) → mints_with token p.index + spent token s ≡ spent token s2

  abbrev Checked :
      Bool
      → PublishRequest
      → Option SuccessorAttestation
      → DateTime
      → Result (KeylessError Reason) (Option KeyAttestationIndexRow)
      → Option String
      → Type 0
  Checked b req found created_at index used =
      ((u : Unit {0}) × (checked_window keyless_key_id may_supersede b req found created_at ≡ ok u))
      × ((row : Option KeyAttestationIndexRow) × (index ≡ ok row)
          × ((mints_attestation keyless_key_id may_supersede row
                && is_used keyless_key_id may_supersede used)
              ≡ false))

  keyless_minter-Checked :
      (b : Bool) (req : PublishRequest) (found : Option SuccessorAttestation)
      (created_at : DateTime) (index : Result (KeylessError Reason) (Option KeyAttestationIndexRow))
      (used : Option String) (mint : Result (KeylessError Reason) Receipt) {receipt : Receipt}
      → keyless_minter keyless_key_id may_supersede b req found created_at index used mint
        ≡ ok receipt
      → Checked b req found created_at index used
  unfolding keyless_minter
  keyless_minter-Checked b req found created_at index used mint h =
      let (u, window, h1) =
        >>=-eq-ok (checked_window keyless_key_id may_supersede b req found created_at) _ h in
      let (row, indexed, h2) = >>=-eq-ok index _ h1 in
      let (_, fresh, _) =
        >>=-eq-ok
          (refuse_if
            (mints_attestation keyless_key_id may_supersede row
              && is_used keyless_key_id may_supersede used)
            token_replayed)
          _ h2 in
      ((u, window), (row, indexed, refuse_if-eq-ok _ _ fresh))

  -- Where the minter is wrapped, it checked.
  receipt_for-Checked :
      (p : Posted) (s : MemoryState) {receipt : Receipt}
      → (p.is_keyless || is_mint keyless_key_id may_supersede p.for_request) ≡ true
      → receipt_for keyless_key_id may_supersede p s ≡ ok receipt
      → Checked p.is_keyless p.req p.successor_found p.created_at p.index
          (used_token keyless_key_id may_supersede s p.for_request)
  unfolding receipt_for
  receipt_for-Checked p s wrapped h =
      keyless_minter-Checked p.is_keyless p.req p.successor_found p.created_at p.index
        (used_token keyless_key_id may_supersede s p.for_request) p.minted (rw wrapped at h)

  receipt_for-Rests :
      (p : Posted) (s : MemoryState) {receipt : Receipt}
      → receipt_for keyless_key_id may_supersede p s ≡ ok receipt
      → Rests p.is_keyless p
  receipt_for-Rests p s h = by_flag p.is_keyless refl
    where
      by_flag : (b : Bool) → p.is_keyless ≡ b → Rests b p
      by_flag false e = tt
      by_flag true e =
          let ((u, window), _) = receipt_for-Checked p s (ground (arith, e)) h in
          checked_window-InWindow keyless_key_id may_supersede p.req p.successor_found p.created_at
            (rw e at window)

  used_token-fresh :
      (s : MemoryState) (r : KeyAttestationIndexRow)
      → is_used keyless_key_id may_supersede
          (used_token keyless_key_id may_supersede s (ok (some r)))
        ≡ false
      → contains_token r.token_hash s.attestation_tokens ≡ false
  used_token-fresh s r h = elim (Bool-cases (contains_token r.token_hash s.attestation_tokens)) [
    | inr fresh ↦ fresh
    | inl old ↦ absurd (refused (rw (old, used_token) at h))
  ]
    where
      refused : true ≡ false → ⊥
      refused e = cc

  fresh_token :
      (p : Posted) (s : MemoryState) (row : KeyAttestationIndexRow) {receipt : Receipt}
      → SameToken p
      → p.index ≡ ok (some row)
      → receipt_for keyless_key_id may_supersede p s ≡ ok receipt
      → contains_token row.token_hash s.attestation_tokens ≡ false
  fresh_token p s row same indexed h =
      let (r, asked, token) = same row indexed in
      let (_, (row2, indexed2, unused)) = receipt_for-Checked p s (wrapped r asked) h in
      let known : some row ≡ row2 = ok_injective (sym indexed ∙ indexed2) in
      subst (λ t. contains_token t s.attestation_tokens ≡ false) token
        (used_token-fresh s r (rw asked at (rw (sym known) at unused)))
    where
      wrapped :
          (r : KeyAttestationIndexRow)
          → p.for_request ≡ ok (some r)
          → (p.is_keyless || is_mint keyless_key_id may_supersede p.for_request) ≡ true
      wrapped r asked = rw asked (ground arith)

  left_zero : (n : ℕ) → 0 + n ≡ n
  left_zero n = omega arith

  inserted :
      (token : String) (row : Option KeyAttestationIndexRow) (s : MemoryState)
      → ((r : KeyAttestationIndexRow)
          → row ≡ some r
          → contains_token r.token_hash s.attestation_tokens ≡ false)
      → mints_with token (ok row) + spent token s ≡ spent token (insert_row row s)
  inserted token none s fresh = omega arith
  inserted token (some r) s fresh = elim (Bool-cases (r.token_hash == token)) [
    | inl same ↦
        let unspent =
          subst (λ t. contains_token t s.attestation_tokens ≡ false)
            ((string_eq.beq_iff r.token_hash token).0 same) (fresh r refl) in
        rw (same, unspent) refl
    | inr other ↦ rw other (left_zero (spent token s))
  ]

  commit_publish-Committed :
      (p : Posted) (s : MemoryState) (done : Receipt × MemoryState)
      → SameToken p
      → commit_publish keyless_key_id may_supersede p s ≡ ok done
      → Committed p s done.1
  unfolding commit_publish
  commit_publish-Committed p s done same h =
      let (receipt, made, h1) = >>=-eq-ok (receipt_for keyless_key_id may_supersede p s) _ h in
      let (row, indexed, last) = >>=-eq-ok p.index _ h1 in
      let counts : (token : String)
          → mints_with token (ok row) + spent token s ≡ spent token (insert_row row s) =
        λ token.
          inserted token row s (λ r e. fresh_token p s r same (indexed ∙ ap (λ x. ok x) e) made) in
      let after = ap (λ (d : Receipt × MemoryState). d.1) (ok_injective last) in
      record {
        rests = receipt_for-Rests p s made;
        spends = λ token. rw indexed (counts token ∙ ap (spent token) after);
      }

  pub accepted-Attested :
      (ps : List Posted) (s : MemoryState) (token : String)
      → All SameToken ps
      → All (λ (p : Posted). Rests p.is_keyless p) (accepted ps s)
        × (mints_of token (accepted ps s) + spent token s ≤ 1)
  accepted-Attested [] s token same = (tt, ground arith)
  accepted-Attested (p ∷ ps) s token same =
      elim (Result-cases (commit_publish keyless_key_id may_supersede p s)) [
        | inr (e, failed) ↦
            subst Bounded (sym (skipped e failed)) (accepted-Attested ps s token same.1)
        | inl (done, committed) ↦
            let c = commit_publish-Committed p s done same.0 committed in
            let (rest, bound) = accepted-Attested ps done.1 token same.1 in
            subst Bounded (sym (taken done committed))
              ((c.rests, rest), omega (arith, bound, c.spends token))
      ]
    where
      Bounded : List Posted → Type 0
      Bounded l =
          All (λ (p : Posted). Rests p.is_keyless p) l × (mints_of token l + spent token s ≤ 1)

      skipped :
          (e : KeylessError Reason)
          → commit_publish keyless_key_id may_supersede p s ≡ err e
          → accepted (p ∷ ps) s ≡ accepted ps s
      skipped e h = rw (accepted, h) refl

      taken :
          (done : Receipt × MemoryState)
          → commit_publish keyless_key_id may_supersede p s ≡ ok done
          → accepted (p ∷ ps) s ≡ p ∷ accepted ps done.1
      taken done h = rw (accepted, h) refl
