-- ===== src/KeyAttestations.antt =====
-- Keyless publication against a key attestation: the checks of
-- crates/acdp-registry-store/src/key_attestations.rs, and `commit_publish` in
-- crates/acdp-registry-server/src/memory_ext.rs: its two closures that run them, and what it does to the set of used
-- tokens. What the inner store refuses is in what it answers for the minter. Key identifiers and the supersession table
-- are the SDK's, and arguments. Milliseconds are counted from chrono's earliest instant, as `Time` does.
pub mod Admission
pub mod Minted
pub mod Tests
use acdp_registry_rs.Time.{DateTime}
use acdp_registry_rs.Prelude.{
  insert, any, HashMap, ◌||◌, ◌∷◌, List, ok_or, ◌>>=◌, ◌>>◌, err, not, true, ltb, if◌then◌else◌, ok,
  refuse_if, ◌==◌, ◌&&◌, ◌/◌, none, Result, false, leb, some, ℕ, Option, String, string_eq, Bool,
}

pub data WorkloadIdentity : Type 0 where
  oidc : String → String → WorkloadIdentity
  spiffe : String → WorkloadIdentity

pub data KeylessSigner : Type 0 where
  controller_signer : KeylessSigner
  keyless : WorkloadIdentity → Bool → KeylessSigner

pub data KeylessError (Reason : Type 0) : Type 0 where
  attestation_not_found attestation_mismatch attestation_withdrawn : KeylessError Reason
  outside_attestation_window token_replayed registry_internal : KeylessError Reason
  refused : Reason → KeylessError Reason

pub record KeyAttestationIndexRow : Type 0 where
  pub ctx_id : String
  pub controller : String
  pub identity : WorkloadIdentity
  pub org_wide : Bool
  pub key_id : String
  pub algorithm : String
  pub key_fingerprint : String
  pub not_before_ms : ℕ
  pub not_after_ms : ℕ
  pub token_hash : String
  pub created_at_ms : ℕ

-- The members of `PublishRequest` that the checks read.
pub record PublishRequest : Type 0 where
  pub agent_id : String
  pub algorithm : String
  pub key_id : String

pub record SuccessorAttestation : Type 0 where
  pub row : KeyAttestationIndexRow
  pub withdrawn : Bool

unfoldable pub issuer : KeyAttestationIndexRow → Option String
issuer row = elim row.identity [ oidc i s ↦ some i | spiffe s ↦ none ]

unfoldable pub subject : KeyAttestationIndexRow → String
subject row = elim row.identity [ oidc i s ↦ s | spiffe s ↦ s ]

unfoldable pub signer : KeyAttestationIndexRow → KeylessSigner
signer row = keyless row.identity row.org_wide

-- `DateTime::timestamp_millis`, which rounds down
abbrev pub timestamp_millis : DateTime → ℕ
timestamp_millis t = t / 1000000

unfoldable pub window_contains : KeyAttestationIndexRow → DateTime → Bool
window_contains row t =
    leb row.not_before_ms (timestamp_millis t) && ltb (timestamp_millis t) row.not_after_ms

pub record KeyAttestationFilter : Type 0 where
  pub issuer_filter : Option String
  pub subject_filter : Option String

abbrev same_text : Option String → String → Bool
same_text none t = false
same_text (some s) t = s == t

-- `KeyAttestationFilter::matches`
unfoldable pub filter_matches : KeyAttestationFilter → KeyAttestationIndexRow → Bool
unfolding issuer subject
filter_matches f row =
    elim f.issuer_filter [ none ↦ true | some i ↦ same_text (issuer row) i ]
    && elim f.subject_filter [ none ↦ true | some s ↦ subject row == s ]

-- The members of the store's state that keyless publication reads and writes; the set of tokens is a list.
pub record MemoryState : Type 0 where
  pub attestation_tokens : List String
  pub key_attestations : HashMap String KeyAttestationIndexRow

abbrev pub contains_token : String → List String → Bool
contains_token token tokens = any (λ t. t == token) tokens

-- What is inserted once a publication is committed.
abbrev pub insert_row : Option KeyAttestationIndexRow → MemoryState → MemoryState
insert_row none s = s
insert_row (some row) s = record {
  attestation_tokens = row.token_hash ∷ s.attestation_tokens;
  key_attestations = insert row.ctx_id row s.key_attestations;
}

module _ {Reason : Type 0} (keyless_key_id : String → String → Option String)
    (may_supersede : KeylessSigner → KeylessSigner → Result Reason (Unit {0})) where
  abbrev pub names_key : Option String → String → Bool
  names_key none key_id = false
  names_key (some k) key_id = k == key_id

  unfoldable pub binds : PublishRequest → KeyAttestationIndexRow → Bool
  binds req row =
      req.agent_id == row.controller
      && req.algorithm == row.algorithm
      && req.key_id == row.key_id
      && names_key (keyless_key_id row.controller row.key_fingerprint) req.key_id

  unfoldable pub admit_successor :
      PublishRequest
      → Option SuccessorAttestation
      → Result (KeylessError Reason) SuccessorAttestation
  admit_successor req found = do
    att ← ok_or found attestation_not_found
    refuse_if (not (binds req att.row)) attestation_mismatch
    refuse_if att.withdrawn attestation_withdrawn
    ok att

  unfoldable pub check_window :
      SuccessorAttestation → DateTime → Result (KeylessError Reason) (Unit {0})
  check_window found created_at =
      refuse_if (not (window_contains found.row created_at)) outside_attestation_window

  -- The attestation that the predecessor names, and its index row.
  unfoldable pub predecessor_signer :
      Option String → Option KeyAttestationIndexRow → Result (KeylessError Reason) KeylessSigner
  predecessor_signer none row = ok controller_signer
  predecessor_signer (some att) none = err registry_internal
  predecessor_signer (some att) (some row) = ok (signer row)

  abbrev pub refusal : Result Reason (Unit {0}) → Result (KeylessError Reason) (Unit {0})
  refusal (ok u) = ok tt
  refusal (err reason) = err (refused reason)

  unfoldable pub check_supersession :
      KeylessSigner → SuccessorAttestation → Result (KeylessError Reason) (Unit {0})
  check_supersession predecessor successor =
      refusal (may_supersede predecessor (signer successor.row))

  -- `predecessor_row.filter(...)`: a row of another attestation does not count.
  abbrev pub row_of_attestation :
      Option String → Option KeyAttestationIndexRow → Option KeyAttestationIndexRow
  row_of_attestation none row = none
  row_of_attestation (some att) none = none
  row_of_attestation (some att) (some row) = if att == row.ctx_id then some row else none

  abbrev pub checked_predecessor :
      Bool
      → PublishRequest
      → Option SuccessorAttestation
      → Result (KeylessError Reason) (Option String)
      → Option KeyAttestationIndexRow
      → Result (KeylessError Reason) (Unit {0})
  checked_predecessor false req successor_found pred_att predecessor_row = ok tt
  checked_predecessor true req successor_found pred_att predecessor_row = do
    found ← admit_successor req successor_found
    att ← pred_att
    predecessor ← predecessor_signer att (row_of_attestation att predecessor_row)
    check_supersession predecessor found

  -- The closure `keyless_admission`. `is_keyless` says whether the request is; `pred_att` is what
  -- `predecessor_attestation` answers, and `admit` what the caller's own admission does.
  unfoldable pub keyless_admission :
      Bool
      → PublishRequest
      → Option SuccessorAttestation
      → Result (KeylessError Reason) (Option String)
      → Option KeyAttestationIndexRow
      → Result (KeylessError Reason) (Unit {0})
      → Result (KeylessError Reason) (Unit {0})
  keyless_admission is_keyless req successor_found pred_att predecessor_row admit =
      checked_predecessor is_keyless req successor_found pred_att predecessor_row >>= λ _. admit

  abbrev pub checked_window :
      Bool
      → PublishRequest
      → Option SuccessorAttestation
      → DateTime
      → Result (KeylessError Reason) (Unit {0})
  checked_window false req successor_found created_at = ok tt
  checked_window true req successor_found created_at = do
    found ← admit_successor req successor_found
    check_window found created_at

  abbrev pub mints_attestation : Option KeyAttestationIndexRow → Bool
  mints_attestation none = false
  mints_attestation (some row) = true

  abbrev pub is_used : Option String → Bool
  is_used none = false
  is_used (some token) = true

  -- The closure `keyless_minter`. `index` is what `index_row_for` answers on the body, `used` the token of the
  -- request where it was used before, and `mint` the real minter.
  unfoldable pub keyless_minter :
      {Receipt : Type 0}
      → Bool
      → PublishRequest
      → Option SuccessorAttestation
      → DateTime
      → Result (KeylessError Reason) (Option KeyAttestationIndexRow)
      → Option String
      → Result (KeylessError Reason) Receipt
      → Result (KeylessError Reason) Receipt
  keyless_minter is_keyless req successor_found created_at index used mint = do
    checked_window is_keyless req successor_found created_at
    row ← index
    refuse_if (mints_attestation row && is_used used) token_replayed
    mint

  abbrev pub used_token :
      MemoryState → Result (KeylessError Reason) (Option KeyAttestationIndexRow) → Option String
  used_token s (ok none) = none
  used_token s (ok (some row)) =
      if contains_token row.token_hash s.attestation_tokens then some row.token_hash else none
  used_token s (err e) = none

  -- `!matches!(mint, Ok(None))`
  abbrev pub is_mint : Result (KeylessError Reason) (Option KeyAttestationIndexRow) → Bool
  is_mint (ok none) = false
  is_mint (ok (some row)) = true
  is_mint (err e) = true

  -- A publication: `for_request` is what `index_row_for_request` answers on the request, `index` what
  -- `index_row_for` answers on its body, and `minted` what the inner store and the real minter answer.
  pub record Publication (Receipt : Type 0) : Type 0 where
    pub is_keyless : Bool
    pub req : PublishRequest
    pub successor_found : Option SuccessorAttestation
    pub created_at : DateTime
    pub for_request : Result (KeylessError Reason) (Option KeyAttestationIndexRow)
    pub index : Result (KeylessError Reason) (Option KeyAttestationIndexRow)
    pub minted : Result (KeylessError Reason) Receipt

  -- The receipt of a publication with a minter: by the wrapped one where it has anything to check.
  unfoldable pub receipt_for :
      {Receipt : Type 0} → Publication Receipt → MemoryState → Result (KeylessError Reason) Receipt
  receipt_for p s =
      if p.is_keyless || is_mint p.for_request
      then keyless_minter p.is_keyless p.req p.successor_found p.created_at p.index
          (used_token s p.for_request) p.minted
      else p.minted

  -- `commit_publish` with a minter, in what it does to the tokens and the attestations.
  unfoldable pub commit_publish :
      {Receipt : Type 0}
      → Publication Receipt
      → MemoryState
      → Result (KeylessError Reason) (Receipt × MemoryState)
  unfolding receipt_for
  commit_publish p s = do receipt ← receipt_for p s; row ← p.index; ok (receipt, insert_row row s)
