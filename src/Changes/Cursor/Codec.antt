-- ===== src/Changes/Cursor/Codec.antt =====
-- A cursor reads back as what was written.
use acdp_registry_rs.Changes.Since.Accepted.{bytes_beq_refl}
use acdp_registry_rs.Changes.Since.{DecodedCursor, CursorAnchor}
use native.Mathlib.Nat.{pow-suc}
use native.Mathlib.Nat.{mul-add, mul_assoc, mul_comm}
use acdp_registry_rs.Prelude.{
  nat_beq_iff, true, ==_refl, inr, inl, Bool-cases, nat_eq, err, length-take, ok, ◌==◌,
  if◌then◌else◌, length-append, [], ◌<◌, ◌∷◌, ◌++◌, some, drop, take, List, ◌∙◌, refl, ap,
}
use acdp_registry_rs.Changes.Feed.{be_bytes}
use acdp_registry_rs.Changes.Cursor.{
  cursor_len, encode_cursor, header_len, decode_cursor, layout, opened_cursor, header,
  cursor_aad_label, stale, epoch_len, v1_version, cursor_version, seq_len, with_epoch, plain_len,
  nonce_len, decoded, cursor_plain, cursor_nonce, tag_len, ChangesKey, Crypto, from_be_bytes,
}
use native.Mathlib.Nat.{mod-add-div, div-div-eq-div-mul}
use acdp_registry_rs.Prelude.{zero, suc, length, ◌≡◌, ◌*◌, ◌^◌, ◌+◌, ◌/◌, ◌%◌, ℕ, arith}

length-be_bytes : (w n : ℕ) → length (be_bytes w n) ≡ w
length-be_bytes zero n = refl
length-be_bytes (suc w) n = omega (arith, length-be_bytes w n)

-- One more digit of base 256.
digit :
    (n m r a c : ℕ)
    → r + m * a ≡ n
    → (d : ℕ) → d + 256 * c ≡ a
    → (s : ℕ) → s + m * 256 * c ≡ n
    → d * m + r ≡ s
digit n m r a c e d f s g =
    omega (arith, e, g, ap (λ x. m * x) f, mul-add m d (256 * c), mul_assoc m 256 c, mul_comm d m)

pow_256 : (w : ℕ) → 2 ^ (8 * suc w) ≡ 2 ^ (8 * w) * 256
pow_256 w = ap (λ e. 2 ^ e) (omega arith) ∙ eight (8 * w)
  where
    eight : (e : ℕ) → 2 ^ suc (suc (suc (suc (suc (suc (suc (suc e))))))) ≡ 2 ^ e * 256
    eight e = omega (
      arith,
      pow-suc 2 (suc (suc (suc (suc (suc (suc (suc e))))))),
      pow-suc 2 (suc (suc (suc (suc (suc (suc e)))))),
      pow-suc 2 (suc (suc (suc (suc (suc e))))),
      pow-suc 2 (suc (suc (suc (suc e)))),
      pow-suc 2 (suc (suc (suc e))),
      pow-suc 2 (suc (suc e)),
      pow-suc 2 (suc e),
      pow-suc 2 e,
    )

from_be_bytes-be_bytes : (w n : ℕ) → from_be_bytes (be_bytes w n) ≡ n % 2 ^ (8 * w)
from_be_bytes-be_bytes zero n = omega (arith, mod-add-div n 1)
from_be_bytes-be_bytes (suc w) n =
    let m = 2 ^ (8 * w) in
    rw (length-be_bytes w n, from_be_bytes-be_bytes w n, pow_256 w)
      (digit n m (n % m) (n / m) (n / (m * 256)) (mod-add-div n m) (n / m % 256)
        (rw (div-div-eq-div-mul n m 256) at (mod-add-div (n / m) 256)) (n % (m * 256))
        (mod-add-div n (m * 256)))

module _ {ℓ} {A : Type ℓ} where
  pub take-front : (n : ℕ) (xs ys : List A) → length xs ≡ n → take n (xs ++ ys) ≡ xs
  take-front zero [] ys e = refl
  take-front (suc n) [] ys e = absurd (omega (arith, e))
  take-front zero (x ∷ xs) ys e = absurd (omega (arith, e))
  take-front (suc n) (x ∷ xs) ys e = ap (λ t. x ∷ t) (take-front n xs ys (omega (arith, e)))

  drop-front : (n : ℕ) (xs ys : List A) → length xs ≡ n → drop n (xs ++ ys) ≡ ys
  drop-front zero [] ys e = refl
  drop-front (suc n) [] ys e = absurd (omega (arith, e))
  drop-front zero (x ∷ xs) ys e = absurd (omega (arith, e))
  drop-front (suc n) (x ∷ xs) ys e = drop-front n xs ys (omega (arith, e))

-- What is asked of base64, of the AEAD and of the HMAC, whose digests have 32 bytes.
pub record Sound {Text : Type 0} (crypto : Crypto Text) : Type 0 where
  pub decodes : (bytes : List ℕ) → crypto.decode (crypto.encode bytes) ≡ some bytes
  pub opens :
      (nonce aad plain : List ℕ)
      → crypto.open_in_place nonce aad (crypto.seal nonce aad plain) ≡ some plain
  pub tagged :
      (nonce aad plain : List ℕ) → length (crypto.seal nonce aad plain) ≡ length plain + tag_len
  pub digests : (message : List ℕ) → length (crypto.sign message) ≡ 32

module _ {Text : Type 0} (crypto : Crypto Text) (sound : Sound crypto) (key : ChangesKey) (pos : ℕ)
    (anchor : CursorAnchor) (short_kid : length key.kid ≡ 4) (short_fp : length anchor.fp ≡ 8) where
  length-cursor_nonce :
      (version : ℕ) (plain : List ℕ) → length (cursor_nonce crypto version plain) ≡ nonce_len
  unfolding cursor_nonce
  length-cursor_nonce version plain =
      let message = if version == v1_version then plain else version ∷ plain in
      omega (arith, length-take nonce_len (crypto.sign message), sound.digests message)

  length-cursor_plain : length (cursor_plain crypto key pos anchor) ≡ plain_len
  unfolding cursor_plain
  length-cursor_plain = omega (
    arith,
    length-append (be_bytes seq_len pos)
        (be_bytes seq_len anchor.seq ++ (anchor.fp ++ be_bytes epoch_len key.epoch)),
    length-append (be_bytes seq_len anchor.seq) (anchor.fp ++ be_bytes epoch_len key.epoch),
    length-append anchor.fp (be_bytes epoch_len key.epoch),
    length-be_bytes seq_len pos,
    length-be_bytes seq_len anchor.seq,
    length-be_bytes epoch_len key.epoch,
    short_fp,
  )

  abbrev told : DecodedCursor
  told = record { pos = pos; anchor = anchor }

  decoded-parts :
      (epoch : ℕ) (plain : List ℕ)
      → from_be_bytes (take 8 plain) ≡ pos
      → from_be_bytes (take 8 (drop 8 plain)) ≡ anchor.seq
      → take 8 (drop 16 plain) ≡ anchor.fp
      → from_be_bytes (drop 24 plain) ≡ key.epoch
      → decoded crypto (with_epoch epoch key) cursor_version plain
        ≡ (if key.epoch == epoch then ok told else err stale)
  unfolding decoded
  decoded-parts epoch plain at_pos at_seq at_fp at_epoch = elim (Bool-cases (key.epoch == epoch)) [
    | inl same ↦ rw (at_epoch, same, at_pos, at_seq, at_fp) refl
    | inr other ↦ rw (at_epoch, other) refl
  ]

  word : (n : ℕ) → n < 2 ^ 64 → from_be_bytes (be_bytes 8 n) ≡ n
  word n small = from_be_bytes-be_bytes 8 n ∙ omega (arith, small)

  half_word : (n : ℕ) → n < 2 ^ 32 → from_be_bytes (be_bytes 4 n) ≡ n
  half_word n small = from_be_bytes-be_bytes 4 n ∙ omega (arith, small)

  decoded-cursor_plain :
      key.epoch < 2 ^ 32
      → pos < 2 ^ 64
      → anchor.seq < 2 ^ 64
      → (epoch : ℕ)
      → decoded crypto (with_epoch epoch key) cursor_version (cursor_plain crypto key pos anchor)
        ≡ (if key.epoch == epoch then ok told else err stale)
  unfolding cursor_plain
  decoded-cursor_plain small_epoch small_pos small_seq epoch =
      decoded-parts epoch (cursor_plain crypto key pos anchor) (word pos small_pos)
        (word anchor.seq small_seq) (take-front 8 anchor.fp (be_bytes epoch_len key.epoch) short_fp)
        (ap from_be_bytes (drop-front 8 anchor.fp (be_bytes epoch_len key.epoch) short_fp)
          ∙ half_word key.epoch small_epoch)

  opened-parts :
      (epoch : ℕ) (nonce sealed plain : List ℕ)
      → length nonce ≡ nonce_len
      → crypto.open_in_place nonce (cursor_aad_label ++ header key) sealed ≡ some plain
      → length plain ≡ plain_len
      → cursor_nonce crypto cursor_version plain ≡ nonce
      → opened_cursor crypto
          (with_epoch epoch key)
          (header key ++ (nonce ++ sealed))
          (cursor_aad_label, plain_len, header_len)
        ≡ decoded crypto (with_epoch epoch key) cursor_version plain
  unfolding opened_cursor header
  opened-parts epoch nonce sealed plain long opens whole same =
      rw
        (
          take-front 4 key.kid (nonce ++ sealed) short_kid,
          drop-front 4 key.kid (nonce ++ sealed) short_kid,
          ==_refl key.key_id,
          bytes_beq_refl key.kid,
          take-front nonce_len nonce sealed long,
          drop-front nonce_len nonce sealed long,
          opens,
          whole,
          same,
          bytes_beq_refl nonce,
        )
        refl

  layout-cursor :
      (nonce sealed : List ℕ)
      → length nonce ≡ nonce_len
      → length sealed ≡ plain_len + tag_len
      → layout (header key ++ (nonce ++ sealed)) ≡ some (cursor_aad_label, plain_len, header_len)
  unfolding header
  layout-cursor nonce sealed long tagged = rw (layout, whole) refl
    where
      whole : (suc (suc (length (key.kid ++ (nonce ++ sealed)))) == cursor_len) ≡ true
      whole = (nat_beq_iff (suc (suc (length (key.kid ++ (nonce ++ sealed))))) cursor_len).1 (
          omega (
            arith,
            length-append key.kid (nonce ++ sealed),
            length-append nonce sealed,
            short_kid,
            long,
            tagged,
          ))

  -- Under sound primitives, and where the positions and epochs fit their machine words: a cursor that a key
  -- encodes is decoded, under the same key and epoch, as its position and anchor, and as stale under any
  -- other epoch.
  pub decode_cursor-encode_cursor :
      key.epoch < 2 ^ 32
      → pos < 2 ^ 64
      → anchor.seq < 2 ^ 64
      → (epoch : ℕ)
      → decode_cursor crypto (with_epoch epoch key) (encode_cursor crypto key pos anchor)
        ≡ (if key.epoch == epoch then ok told else err stale)
  unfolding decode_cursor encode_cursor
  decode_cursor-encode_cursor small_epoch small_pos small_seq epoch =
      let plain = cursor_plain crypto key pos anchor in
      let nonce = cursor_nonce crypto cursor_version plain in
      let aad = cursor_aad_label ++ header key in
      let sealed = crypto.seal nonce aad plain in
      let long = length-cursor_nonce cursor_version plain in
      rw
        (
          sound.decodes (header key ++ (nonce ++ sealed)),
          layout-cursor nonce sealed long
              (sound.tagged nonce aad plain ∙ ap (λ n. n + tag_len) length-cursor_plain),
        )
        (opened-parts epoch nonce sealed plain long (sound.opens nonce aad plain)
            length-cursor_plain refl
          ∙ decoded-cursor_plain small_epoch small_pos small_seq epoch)
