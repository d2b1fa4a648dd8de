-- ===== src/KeyAttestations/Tests.antt =====
-- The theorems on keyless publication, at one attestation and one predecessor.
use acdp_registry_rs.KeyAttestations.Admission.{keyless_admission-Attested, Attested, SignedBy}
use acdp_registry_rs.KeyAttestations.Minted.{
  accepted-Attested, accepted, mints_of, spent, Rests, SameToken,
}
use acdp_registry_rs.KeyAttestations.{
  commit_publish, receipt_for, Publication, MemoryState, signer, binds, check_supersession,
  window_contains, predecessor_signer, check_window, admit_successor, keyless_admission,
  keyless_minter, PublishRequest, SuccessorAttestation, KeyAttestationIndexRow, spiffe, keyless,
  KeylessError, KeylessSigner,
}
use acdp_registry_rs.Prelude.{
  ◌∷◌, [], All, ◌+◌, ap, ok_injective, ℕ, true, refl, ◌≤◌, ◌≡◌, string_eq, ◌==◌, if◌then◌else◌,
  false, String, none, some, Option, ok, err, Result,
}

abbrev key_id_of : String → String → Option String
key_id_of controller fingerprint = some "did:web:a#acdp-kl-b"

-- The same identity may follow itself, and nothing else.
abbrev same_subject : KeylessSigner → KeylessSigner → Result String (Unit {0})
same_subject (keyless (spiffe a) x) (keyless (spiffe b) y) =
    if a == b then ok tt else err "identity"
same_subject _ _ = err "identity"

abbrev attestation_row : KeyAttestationIndexRow
attestation_row = record {
  ctx_id = "acdp://r/k";
  controller = "did:web:a";
  identity = spiffe "spiffe://a/w";
  org_wide = false;
  key_id = "did:web:a#acdp-kl-b";
  algorithm = "ed25519";
  key_fingerprint = "sha256:b";
  not_before_ms = 10;
  not_after_ms = 20;
  token_hash = "t";
  created_at_ms = 10;
}

abbrev attestation_a : SuccessorAttestation
attestation_a = record { row = attestation_row; withdrawn = false }

abbrev publish_request : PublishRequest
publish_request = record {
  agent_id = "did:web:a";
  algorithm = "ed25519";
  key_id = "did:web:a#acdp-kl-b";
}

abbrev admitted : Result (KeylessError String) (Unit {0})
admitted = ok tt

abbrev state : MemoryState
state = record { attestation_tokens = "u" ∷ []; key_attestations = [] }

-- A keyless publication that mints an attestation itself, with the token of `attestation_row`.
abbrev publication : Publication key_id_of same_subject ℕ
publication = record {
  is_keyless = true;
  req = publish_request;
  successor_found = some attestation_a;
  created_at = 12000000;
  for_request = ok (some attestation_row);
  index = ok (some attestation_row);
  minted = ok 7;
}

publication-SameToken : SameToken key_id_of same_subject ℕ publication
publication-SameToken row e = (
  attestation_row,
  refl,
  ap (λ (r : Option KeyAttestationIndexRow). elim r [ none ↦ "" | some x ↦ x.token_hash ])
      (ok_injective e),
)

-- Of two publications with the same token the first is accepted.
twice : accepted key_id_of same_subject ℕ (publication ∷ publication ∷ []) state ≡ publication ∷ []
unfolding commit_publish receipt_for keyless_minter admit_successor check_window window_contains
    binds
twice = refl

accepted-Attested_example :
    All
      (λ (p : Publication key_id_of same_subject ℕ). Rests key_id_of same_subject ℕ p.is_keyless p)
      (accepted key_id_of same_subject ℕ (publication ∷ publication ∷ []) state)
    × (mints_of key_id_of same_subject ℕ "t"
            (accepted key_id_of same_subject ℕ (publication ∷ publication ∷ []) state)
          + spent key_id_of same_subject ℕ "t" state
        ≤ 1)
accepted-Attested_example =
    accepted-Attested key_id_of same_subject ℕ (publication ∷ publication ∷ []) state "t"
      (publication-SameToken, (publication-SameToken, tt))

keyless_admission-Attested_example :
    (a : SuccessorAttestation) × (some attestation_a ≡ some a)
    × Attested key_id_of same_subject publish_request a
    × ((predecessor : KeylessSigner) × SignedBy key_id_of same_subject
          (some "acdp://r/k")
          (some attestation_row)
          predecessor
        × (same_subject predecessor (keyless a.row.identity a.row.org_wide) ≡ ok tt))
    × (admitted ≡ ok tt)
unfolding keyless_admission admit_successor predecessor_signer check_supersession binds signer
keyless_admission-Attested_example =
    keyless_admission-Attested key_id_of same_subject publish_request (some attestation_a)
      (some "acdp://r/k") (some attestation_row) admitted refl
