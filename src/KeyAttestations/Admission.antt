-- ===== src/KeyAttestations/Admission.antt =====
-- What a keyless publication that is admitted and minted guarantees.
use mathlib.Core.Path.{subst}
use acdp_registry_rs.Time.{DateTime}
use acdp_registry_rs.KeyAttestations.{
  registry_internal, keyless, controller_signer, checked_predecessor, signer, row_of_attestation,
  predecessor_signer, check_supersession, keyless_admission, refusal, checked_window,
  attestation_mismatch, timestamp_millis, attestation_withdrawn, attestation_not_found,
  KeylessError, KeyAttestationIndexRow, window_contains, check_window, SuccessorAttestation, binds,
  admit_successor, names_key, PublishRequest, KeylessSigner,
}
use acdp_registry_rs.Prelude.{
  inr, inl, Bool-cases, sym, err, arith, refuse_if-eq-ok, ok_or-eq-ok, ◌<◌, ok_injective, ◌≤◌,
  refuse_if, none, ok_or, string_eq, refl, ◌==◌, >>=-eq-ok, ap, ok, false, true, some, ◌&&◌, not,
  ◌≡◌, Bool, Result, Option, String,
}

module _ {Reason : Type 0} (keyless_key_id : String → String → Option String)
    (may_supersede : KeylessSigner → KeylessSigner → Result Reason (Unit {0})) where
  -- The request is signed by the key that the attestation attests.
  pub record Attested (req : PublishRequest) (attestation : SuccessorAttestation) : Type 0 where
    pub same_agent : req.agent_id ≡ attestation.row.controller
    pub same_algorithm : req.algorithm ≡ attestation.row.algorithm
    pub same_key : req.key_id ≡ attestation.row.key_id
    pub key_of_fingerprint :
        keyless_key_id attestation.row.controller attestation.row.key_fingerprint ≡ some req.key_id
    pub in_force : attestation.withdrawn ≡ false

  names_key-eq :
      (k : Option String) (key_id : String)
      → names_key keyless_key_id may_supersede k key_id ≡ true
      → k ≡ some key_id
  names_key-eq none key_id h = cc
  names_key-eq (some k) key_id h = ap some ((string_eq.beq_iff k key_id).0 h)

  all_true :
      (a b c d : Bool)
      → (a && b && c && d) ≡ true
      → (a ≡ true) × (b ≡ true) × (c ≡ true) × (d ≡ true)
  all_true true true true d h = (refl, refl, refl, h)
  all_true true true false d h = cc
  all_true true false c d h = cc
  all_true false b c d h = cc

  denied-twice : (b : Bool) → not b ≡ false → b ≡ true
  denied-twice true h = refl
  denied-twice false h = cc

  admit_successor-Attested :
      (req : PublishRequest) (found : Option SuccessorAttestation) (att : SuccessorAttestation)
      → admit_successor keyless_key_id may_supersede req found ≡ ok att
      → (found ≡ some att)
        × (binds keyless_key_id may_supersede req att.row ≡ true)
        × (att.withdrawn ≡ false)
  unfolding admit_successor
  admit_successor-Attested req found att h =
      let (a, known, h1) = >>=-eq-ok (ok_or found attestation_not_found) _ h in
      let (_, bound, h2) =
        >>=-eq-ok
          (refuse_if (not (binds keyless_key_id may_supersede req a.row)) attestation_mismatch) _
          h1 in
      let (_, valid, h3) = >>=-eq-ok (refuse_if a.withdrawn attestation_withdrawn) _ h2 in
      subst
        (λ (x : SuccessorAttestation).
          (found ≡ some x)
          × (binds keyless_key_id may_supersede req x.row ≡ true)
          × (x.withdrawn ≡ false))
        (ok_injective h3)
        (
          ok_or-eq-ok found _ known,
          denied-twice _ (refuse_if-eq-ok _ _ bound),
          refuse_if-eq-ok _ _ valid,
        )

  attested :
      (req : PublishRequest) (found : Option SuccessorAttestation) (att : SuccessorAttestation)
      → (found ≡ some att)
        × (binds keyless_key_id may_supersede req att.row ≡ true)
        × (att.withdrawn ≡ false)
      → Attested req att
  unfolding binds
  attested req found att (known, bound, valid) =
      let (agent, algorithm, key, fingerprint) =
        all_true (req.agent_id == att.row.controller) (req.algorithm == att.row.algorithm)
          (req.key_id == att.row.key_id)
          (names_key keyless_key_id may_supersede
            (keyless_key_id att.row.controller att.row.key_fingerprint) req.key_id)
          bound in
      record {
        same_agent = (string_eq.beq_iff req.agent_id att.row.controller).0 agent;
        same_algorithm = (string_eq.beq_iff req.algorithm att.row.algorithm).0 algorithm;
        same_key = (string_eq.beq_iff req.key_id att.row.key_id).0 key;
        key_of_fingerprint = names_key-eq _ req.key_id fingerprint;
        in_force = valid;
      }

  in_window :
      (att : SuccessorAttestation) (created_at : DateTime) {u : Unit {0}}
      → check_window keyless_key_id may_supersede att created_at ≡ ok u
      → (att.row.not_before_ms ≤ timestamp_millis created_at)
        × (timestamp_millis created_at < att.row.not_after_ms)
  unfolding check_window window_contains
  in_window att created_at h =
      ground (arith, denied-twice (window_contains att.row created_at) (refuse_if-eq-ok _ _ h))

  refusal-eq-ok :
      (r : Result Reason (Unit {0})) {u : Unit {0}}
      → refusal keyless_key_id may_supersede r ≡ ok u
      → r ≡ ok tt
  refusal-eq-ok (ok x) h = refl
  refusal-eq-ok (err e) h = cc

  -- What the check before a keyless mint establishes: an attestation was found, attests the request's key, and its
  -- window holds the time.
  abbrev pub InWindow : PublishRequest → Option SuccessorAttestation → DateTime → Type 0
  InWindow req found created_at =
      (a : SuccessorAttestation) × (found ≡ some a)
      × Attested req a
      × (a.row.not_before_ms ≤ timestamp_millis created_at)
      × (timestamp_millis created_at < a.row.not_after_ms)

  pub checked_window-InWindow :
      (req : PublishRequest) (found : Option SuccessorAttestation) (created_at : DateTime)
      {u : Unit {0}}
      → checked_window keyless_key_id may_supersede true req found created_at ≡ ok u
      → InWindow req found created_at
  checked_window-InWindow req found created_at h =
      let (att, admitted, inside) =
        >>=-eq-ok (admit_successor keyless_key_id may_supersede req found) _ h in
      let facts = admit_successor-Attested req found att admitted in
      let times = in_window att created_at inside in
      (att, facts.0, attested req found att facts, times.0, times.1)

  -- Who signed a predecessor: its controller where it names no attestation, and else the identity in the index row
  -- of the attestation that it names.
  abbrev pub SignedBy : Option String → Option KeyAttestationIndexRow → KeylessSigner → Type 0
  SignedBy none row predecessor = predecessor ≡ controller_signer
  SignedBy (some att) row predecessor =
      (r : KeyAttestationIndexRow) × (row ≡ some r)
      × (r.ctx_id ≡ att)
      × (predecessor ≡ keyless r.identity r.org_wide)

  predecessor_signer-SignedBy :
      (pred_att : Option String) (row : Option KeyAttestationIndexRow) {predecessor : KeylessSigner}
      → predecessor_signer keyless_key_id may_supersede pred_att
          (row_of_attestation keyless_key_id may_supersede pred_att row)
        ≡ ok predecessor
      → SignedBy pred_att row predecessor
  unfolding predecessor_signer signer
  predecessor_signer-SignedBy none row h = sym (ok_injective h)
  predecessor_signer-SignedBy (some att) none h = cc
  predecessor_signer-SignedBy (some att) (some row) {predecessor} h =
      elim (Bool-cases (att == row.ctx_id)) [
        | inl same ↦ (
          row,
          refl,
          sym ((string_eq.beq_iff att row.ctx_id).0 same),
          sym (ok_injective (rw (same, predecessor_signer) at h)),
        )
        | inr other ↦ absurd (refused (rw (other, predecessor_signer) at h))
      ]
    where
      refused :
          ◌≡◌ {A = Result (KeylessError Reason) KeylessSigner}
            (err registry_internal)
            (ok predecessor)
          → ⊥
      refused e = cc

  -- A keyless supersession that is admitted is signed by the key of an attestation that was found and not
  -- withdrawn; the predecessor was signed by its controller, where it names no attestation, or else by the identity
  -- in the index row of the very attestation it names, and the supersession table allows that signer to be followed
  -- by the found attestation's identity. The caller's own admission passed too.
  pub keyless_admission-Attested :
      (req : PublishRequest) (found : Option SuccessorAttestation) (pred_att : Option String)
      (row : Option KeyAttestationIndexRow) (admit : Result (KeylessError Reason) (Unit {0}))
      → keyless_admission keyless_key_id may_supersede true req found (ok pred_att) row admit
        ≡ ok tt
      → (a : SuccessorAttestation) × (found ≡ some a)
        × Attested req a
        × ((predecessor : KeylessSigner) × SignedBy pred_att row predecessor
            × (may_supersede predecessor (keyless a.row.identity a.row.org_wide) ≡ ok tt))
        × (admit ≡ ok tt)
  unfolding keyless_admission check_supersession signer
  keyless_admission-Attested req found pred_att row admit h =
      let (_, checked, admitted) =
        >>=-eq-ok
          (checked_predecessor keyless_key_id may_supersede true req found (ok pred_att) row) _ h in
      let (att, found_ok, h1) =
        >>=-eq-ok (admit_successor keyless_key_id may_supersede req found) _ checked in
      let (predecessor, signed, allowed) =
        >>=-eq-ok
          (predecessor_signer keyless_key_id may_supersede pred_att
            (row_of_attestation keyless_key_id may_supersede pred_att row))
          _ h1 in
      let facts = admit_successor-Attested req found att found_ok in
      (
        att,
        facts.0,
        attested req found att facts,
        (
          predecessor,
          predecessor_signer-SignedBy pred_att row signed,
          refusal-eq-ok (may_supersede predecessor (signer att.row)) allowed,
        ),
        admitted,
      )
