-- ===== src/Changes/Cursor.antt =====
-- The text of a cursor: `encode_cursor` and `decode_cursor` of crates/acdp-registry-core/src/changes_key.rs.
-- AES-256-GCM, HMAC-SHA-256 and base64 are the record `Crypto`, under the derived
-- keys; the type of base64 texts is a parameter, and a byte is a number.
pub mod Codec
pub mod Tests
use acdp_registry_rs.Changes.Feed.{be_bytes}
use acdp_registry_rs.Changes.Since.{bytes_beq, DecodedCursor, CursorAnchor}
use acdp_registry_rs.Prelude.{
  zero, nat_eq, drop, some, [], not, ◌==◌, Result, Bool, take, suc, none, length, codes, ◌≡◌, ◌++◌,
  ◌∷◌, ◌&&◌, ◌||◌, ◌>>=◌, ◌>>◌, ◌*◌, ◌^◌, ◌+◌, ◌-◌, ok, err, if◌then◌else◌, ℕ, List, String, Option,
  refuse_if, ok_or,
}

pub data CursorError : Type 0 where
  invalid unknown_key stale : CursorError

pub record Crypto (Text : Type 0) : Type 0 where
  pub encode : List ℕ → Text
  pub decode : Text → Option (List ℕ)
  pub sign : List ℕ → List ℕ
  pub seal : List ℕ → List ℕ → List ℕ → List ℕ
  pub open_in_place : List ℕ → List ℕ → List ℕ → Option (List ℕ)

-- `kid` is derived from the master key.
pub record ChangesKey : Type 0 where
  pub key_id : ℕ
  pub kid : List ℕ
  pub epoch : ℕ

abbrev pub with_epoch : ℕ → ChangesKey → ChangesKey
with_epoch epoch key = record key { epoch = epoch }

abbrev pub nonce_len : ℕ
nonce_len = 12

abbrev pub tag_len : ℕ
tag_len = 16

abbrev pub seq_len : ℕ
seq_len = 8

abbrev pub fp_len : ℕ
fp_len = 8

abbrev pub epoch_len : ℕ
epoch_len = 4

abbrev pub plain_len : ℕ
plain_len = seq_len + seq_len + fp_len + epoch_len

abbrev pub header_len : ℕ
header_len = 6

abbrev pub cursor_len : ℕ
cursor_len = header_len + nonce_len + plain_len + tag_len

abbrev pub v1_header_len : ℕ
v1_header_len = 2

abbrev pub v1_cursor_len : ℕ
v1_cursor_len = v1_header_len + nonce_len + seq_len + tag_len

-- `CURSOR_VERSION` and `V1_VERSION`
abbrev pub cursor_version : ℕ
cursor_version = 2

abbrev pub v1_version : ℕ
v1_version = 1

abbrev pub cursor_aad_label : List ℕ
cursor_aad_label = codes "acdp-registry/changes-cursor/v2"

abbrev pub v1_cursor_aad_label : List ℕ
v1_cursor_aad_label = codes "acdp-registry/changes-cursor/v1"

-- `from_be_bytes`
abbrev pub from_be_bytes : List ℕ → ℕ
from_be_bytes [] = 0
from_be_bytes (b ∷ bs) = b * 2 ^ (8 * length bs) + from_be_bytes bs

-- What the version and the length of the bytes say: the label, the length of what is sealed, and the header's.
abbrev pub layout : List ℕ → Option (List ℕ × ℕ × ℕ)
layout [] = none
layout (version ∷ raw) =
    if (version == cursor_version) && (suc (length raw) == cursor_len)
    then some (cursor_aad_label, plain_len, header_len)
    else if (version == v1_version) && (suc (length raw) == v1_cursor_len)
    then some (v1_cursor_aad_label, seq_len, v1_header_len)
    else none

-- `raw[i]`, which stands inside
abbrev pub byte_at : ℕ → List ℕ → ℕ
byte_at i [] = 0
byte_at zero (b ∷ bs) = b
byte_at (suc i) (b ∷ bs) = byte_at i bs

unfoldable pub header : ChangesKey → List ℕ
header key = cursor_version ∷ key.key_id ∷ key.kid

module _ {Text : Type 0} (crypto : Crypto Text) where
  unfoldable pub cursor_nonce : ℕ → List ℕ → List ℕ
  cursor_nonce version plain =
      take nonce_len (crypto.sign (if version == v1_version then plain else version ∷ plain))

  unfoldable pub cursor_plain : ChangesKey → ℕ → CursorAnchor → List ℕ
  cursor_plain key pos anchor =
      be_bytes seq_len pos
      ++ (be_bytes seq_len anchor.seq ++ (anchor.fp ++ be_bytes epoch_len key.epoch))

  unfoldable pub encode_cursor : ChangesKey → ℕ → CursorAnchor → Text
  encode_cursor key pos anchor =
      let body = cursor_plain key pos anchor in
      let nonce = cursor_nonce cursor_version body in
      crypto.encode
        (header key ++ (nonce ++ crypto.seal nonce (cursor_aad_label ++ header key) body))

  abbrev pub other_key : ChangesKey → ℕ → List ℕ → Bool
  other_key key header_bytes raw =
      not (byte_at 1 raw == key.key_id)
      || ((header_bytes == header_len) && not (bytes_beq (drop 2 (take header_len raw)) key.kid))

  -- What an opened cursor says.
  unfoldable pub decoded : ChangesKey → ℕ → List ℕ → Result CursorError DecodedCursor
  decoded key version plain = do
    refuse_if (version == v1_version) stale
    refuse_if (not (from_be_bytes (drop (2 * seq_len + fp_len) plain) == key.epoch)) stale
    ok (record {
      pos = from_be_bytes (take seq_len plain);
      anchor = record {
        seq = from_be_bytes (take seq_len (drop seq_len plain));
        fp = take fp_len (drop (2 * seq_len) plain);
      };
    })

  unfoldable pub opened_cursor :
      ChangesKey → List ℕ → List ℕ × ℕ × ℕ → Result CursorError DecodedCursor
  opened_cursor key raw (label, plain_bytes, header_bytes) = do
    refuse_if (other_key key header_bytes raw) unknown_key
    let header = take header_bytes raw
    let nonce = take nonce_len (drop header_bytes raw)
    plain ←
        ok_or
          (crypto.open_in_place nonce (label ++ header) (drop nonce_len (drop header_bytes raw)))
          invalid
    refuse_if
        (not (length plain == plain_bytes)
          || not (bytes_beq (cursor_nonce (byte_at 0 header) plain) nonce))
        invalid
    decoded key (byte_at 0 header) plain

  unfoldable pub decode_cursor : ChangesKey → Text → Result CursorError DecodedCursor
  decode_cursor key text = do
    raw ← ok_or (crypto.decode text) invalid
    parts ← ok_or (layout raw) invalid
    opened_cursor key raw parts
