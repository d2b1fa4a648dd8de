-- ===== src/ReadTokens/Digests.antt =====
-- The constant-time comparison of two digests is equality.
use acdp_registry_rs.ReadTokens.{is_hex, hex_pairs, ct_fold, parse_sha256_hex, ct_eq_32}
use Prim.Native.Nat.{bit_or, bit_xor, bit_or-bitwise, bit_xor-bitwise, digits, differ}
use acdp_registry_rs.Prelude.{
  nat_eq, some_injective, inr, not, any, inl, ◌==◌, codes, Bool-cases, none, some, String,
  nat_beq_iff, ◌∙◌, length, sym, ap, ◌≡◌, ◌∷◌, [], ◌+◌, ◌*◌, ◌/◌, ◌%◌, ◌≤◌, ℕ, List, zero, suc, max,
  arith, refl, true,
}

differ-eq : (x y : ℕ) → differ x y ≡ 0 → x ≡ y
differ-eq zero y h = ground (arith, h)
differ-eq (suc x) zero h = h
differ-eq (suc x) (suc y) h = ap suc (differ-eq x y h)

both : (x y : ℕ) → x * 2 + y ≡ 0 → (x ≡ 0) × (y ≡ 0)
both x y h = (omega (arith, h), omega (arith, h))

digits-differ : (n a b : ℕ) → a ≤ n → digits (λ d. d) differ n a b ≡ 0 → a ≡ b
digits-differ zero a b le h = omega (arith, le, h)
digits-differ (suc n) zero b le h = ground (arith, h)
digits-differ (suc n) (suc a) b le h =
    let (high, low) =
      both (digits (λ d. d) differ n (suc a / 2) (b / 2)) (differ (suc a % 2) (b % 2)) h in
    let rest = digits-differ n (suc a / 2) (b / 2) (omega (arith, le)) high in
    omega (arith, rest, differ-eq (suc a % 2) (b % 2) low)

digits-max : (n a b : ℕ) → a ≤ n → digits (λ d. d) max n a b ≡ 0 → (a ≡ 0) × (b ≡ 0)
digits-max zero a b le h = (omega (arith, le), h)
digits-max (suc n) zero b le h = (refl, h)
digits-max (suc n) (suc a) b le h =
    let (high, low) =
      both (digits (λ d. d) max n (suc a / 2) (b / 2)) (max (suc a % 2) (b % 2)) h in
    let (rest, _) = digits-max n (suc a / 2) (b / 2) (omega (arith, le)) high in
    absurd (omega (arith, rest, low))

bit_xor-eq : (a b : ℕ) → bit_xor a b ≡ 0 → a ≡ b
bit_xor-eq a b h = digits-differ a a b (omega arith) (sym (bit_xor-bitwise a b) ∙ h)

bit_or-eq : (a b : ℕ) → bit_or a b ≡ 0 → (a ≡ 0) × (b ≡ 0)
bit_or-eq a b h = digits-max a a b (omega arith) (sym (bit_or-bitwise a b) ∙ h)

ct_fold-eq :
    (acc : ℕ) (a b : List ℕ) → length a ≡ length b → ct_fold acc a b ≡ 0 → (acc ≡ 0) × (a ≡ b)
ct_fold-eq acc [] [] e h = (h, refl)
ct_fold-eq acc [] (y ∷ b) e h = absurd (omega (arith, e))
ct_fold-eq acc (x ∷ a) [] e h = absurd (omega (arith, e))
ct_fold-eq acc (x ∷ a) (y ∷ b) e h =
    let (folded, rest) = ct_fold-eq (bit_or acc (bit_xor x y)) a b (omega (arith, e)) h in
    let (none_before, none_here) = bit_or-eq acc (bit_xor x y) folded in
    (none_before, cc (bit_xor-eq x y none_here, rest))

-- Digests of one length that compare equal are equal.
pub ct_eq_32-eq : (a b : List ℕ) → length a ≡ length b → ct_eq_32 a b ≡ true → a ≡ b
unfolding ct_eq_32
ct_eq_32-eq a b e h = (ct_fold-eq 0 a b e ((nat_beq_iff (ct_fold 0 a b) 0).0 h)).1

length-hex_pairs : (n : ℕ) (bytes : List ℕ) → length bytes ≡ n + n → length (hex_pairs bytes) ≡ n
length-hex_pairs zero [] e = refl
length-hex_pairs zero (x ∷ bytes) e = absurd (omega (arith, e))
length-hex_pairs (suc n) [] e = absurd (omega (arith, e))
length-hex_pairs (suc n) (x ∷ []) e = absurd (omega (arith, e))
length-hex_pairs (suc n) (x ∷ y ∷ bytes) e =
    omega (arith, length-hex_pairs n bytes (omega (arith, e)))

-- A hash that parses has 32 bytes.
pub length-parse_sha256_hex :
    (s : String) (hash : List ℕ) → parse_sha256_hex s ≡ some hash → length hash ≡ 32
unfolding parse_sha256_hex
length-parse_sha256_hex s hash h = elim (Bool-cases (length (codes s) == 64)) [
  | inl whole ↦ elim (Bool-cases (any (λ b. not (is_hex b)) (codes s))) [
    | inl odd ↦ absurd (dropped (rw (whole, odd) at h))
    | inr hex ↦
        ap length (sym (some_injective (rw (whole, hex) at h)))
        ∙ length-hex_pairs 32 (codes s) ((nat_beq_iff (length (codes s)) 64).0 whole)
  ]
  | inr other ↦ absurd (dropped (rw other at h))
]
  where
    dropped : none ≡ some hash → ⊥
    dropped e = cc
