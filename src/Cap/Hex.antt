-- ===== src/Cap/Hex.antt =====
-- security/cap/cap.go: lower hex texts and the test of a digest against a prefix.
use servora_platform.Common.{
  ℕ, ◌+◌, ◌*◌, ◌/◌, ◌%◌, ◌<◌, ◌≡◌, refl, Bool, true, false, not, ◌&&◌, Option, none, some, ◌||◌, [],
  ◌∷◌, length, arith, ltb, eqb, all, All,
}
use servora_platform.Cap.Bytes.{Bytes, hex_value}
use servora_platform.Cap.Prng.{
  fnv1a, digit, prng, prng_from_hash, length-prng_from_hash, All-prng_from_hash,
}

-- `hex.EncodeToString`.
unfoldable pub encode_hex : Bytes → Bytes
encode_hex [] = []
encode_hex (b ∷ bs) = digit (b / 16 % 16) ∷ digit (b % 16) ∷ encode_hex bs

unfoldable pub is_lower_hex_byte : ℕ → Bool
is_lower_hex_byte c = not ((ltb c 48 || ltb 57 c) && (ltb c 97 || ltb 102 c))

unfoldable pub is_lower_hex : Bytes → ℕ → Bool
is_lower_hex value size = eqb (length value) size && all is_lower_hex_byte value

abbrev pub is_value : Option ℕ → ℕ → Bool
is_value none n = false
is_value (some v) n = eqb v n

abbrev pub two_digits : Option ℕ → Option ℕ → Option ℕ
two_digits (some h) (some l) = some (h * 16 + l)
two_digits none l = none
two_digits (some h) none = none

-- Each byte of the digest against two digits, and its high half against a last odd digit.
unfoldable pub matches_hex_prefix : Bytes → Bytes → Bool
matches_hex_prefix digest [] = true
matches_hex_prefix [] (c ∷ cs) = false
matches_hex_prefix (d ∷ ds) (c ∷ []) = is_value (hex_value c) (d / 16)
matches_hex_prefix (d ∷ ds) (c ∷ c' ∷ cs) =
    is_value (two_digits (hex_value c) (hex_value c')) d && matches_hex_prefix ds cs

digit-IsLowerHex : (n : ℕ) → n < 16 → is_lower_hex_byte (digit n) ≡ true
unfolding digit is_lower_hex_byte
digit-IsLowerHex n h = ground arith

length-encode_hex : (bs : Bytes) → length (encode_hex bs) ≡ 2 * length bs
unfolding encode_hex
length-encode_hex [] = refl
length-encode_hex (b ∷ bs) = omega (arith, length-encode_hex bs)

all-encode_hex : (bs : Bytes) → all is_lower_hex_byte (encode_hex bs) ≡ true
unfolding encode_hex
all-encode_hex [] = refl
all-encode_hex (b ∷ bs) = rw (
  digit-IsLowerHex (b / 16 % 16) (omega arith),
  digit-IsLowerHex (b % 16) (omega arith),
  all-encode_hex bs,
)

-- The hex text of n bytes is a lower hex text of 2 n digits.
pub is_lower_hex-encode_hex :
    (bs : Bytes) (n : ℕ) → length bs ≡ n → is_lower_hex (encode_hex bs) (2 * n) ≡ true
unfolding is_lower_hex
is_lower_hex-encode_hex bs n e = rw (length-encode_hex bs, e, all-encode_hex bs) (ground arith)

all-All : (p : ℕ → Bool) (bs : Bytes) → All (λ b. p b ≡ true) bs → all p bs ≡ true
all-All p [] h = refl
all-All p (b ∷ bs) h = rw (h.0, all-All p bs h.1)

-- A text of the generator has the length asked for, and only lower hex digits.
pub is_lower_hex-prng : (seed : Bytes) (n : ℕ) → is_lower_hex (prng seed n) n ≡ true
unfolding is_lower_hex prng
is_lower_hex-prng seed n =
    rw
      (
        length-prng_from_hash (fnv1a seed) n,
        all-All is_lower_hex_byte (prng_from_hash (fnv1a seed) n) digits,
      )
      (ground arith)
  where
    digits : All (λ b. is_lower_hex_byte b ≡ true) (prng_from_hash (fnv1a seed) n)
    digits =
        All-prng_from_hash (λ b. is_lower_hex_byte b ≡ true)
          (λ m. digit-IsLowerHex (m % 16) (omega arith)) (fnv1a seed) n
