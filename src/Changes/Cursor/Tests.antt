-- ===== src/Changes/Cursor/Tests.antt =====
-- The round trip of a cursor, under primitives that hide nothing.
use acdp_registry_rs.Changes.Since.{CursorAnchor}
use acdp_registry_rs.Changes.Cursor.Codec.{take-front, decode_cursor-encode_cursor, Sound}
use acdp_registry_rs.Changes.Cursor.{encode_cursor, decode_cursor, ChangesKey, Crypto}
use acdp_registry_rs.Prelude.{
  ap, length-append, arith, length, take, replicate, ◌≡◌, ◌∷◌, [], ◌++◌, ◌-◌, ok, some, refl, ℕ,
  List,
}

abbrev plain_crypto : Crypto (List ℕ)
plain_crypto = record {
  encode = λ bytes. bytes;
  decode = λ text. some text;
  sign = λ message. replicate 32 0;
  seal = λ nonce aad plain. plain ++ replicate 16 0;
  open_in_place = λ nonce aad sealed. some (take (length sealed - 16) sealed);
}

plain_crypto-Sound : Sound plain_crypto
plain_crypto-Sound = record {
  decodes = λ bytes. refl;
  opens = λ nonce aad plain. ap some (unsealed plain);
  tagged = λ nonce aad plain. length-append plain (replicate 16 0);
  digests = λ message. refl;
}
  where
    unsealed :
        (plain : List ℕ)
        → take (length (plain ++ replicate 16 0) - 16) (plain ++ replicate 16 0) ≡ plain
    unsealed plain =
        take-front (length (plain ++ replicate 16 0) - 16) plain (replicate 16 0)
          (omega (arith, length-append plain (replicate 16 0)))

abbrev key : ChangesKey
key = record { key_id = 1; kid = 7 ∷ 7 ∷ 7 ∷ 7 ∷ []; epoch = 3 }

abbrev anchor : CursorAnchor
anchor = record { seq = 300; fp = 1 ∷ 2 ∷ 3 ∷ 4 ∷ 5 ∷ 6 ∷ 7 ∷ 8 ∷ [] }

decode_cursor-encode_cursor_example :
    decode_cursor plain_crypto key (encode_cursor plain_crypto key 258 anchor)
    ≡ ok (record { pos = 258; anchor = anchor })
decode_cursor-encode_cursor_example =
    decode_cursor-encode_cursor plain_crypto plain_crypto-Sound key 258 anchor refl refl
      (omega arith) (omega arith) (omega arith) 3
