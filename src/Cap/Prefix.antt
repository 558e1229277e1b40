-- ===== src/Cap/Prefix.antt =====
-- security/cap/cap.go: matchesHexPrefix compares numbers; this is what it says of the hex text of the
-- digest.
use servora_platform.Common.{
  ℕ, ◌/◌, ◌%◌, ◌<◌, ◌≡◌, refl, ap, ◌∙◌, Bool, true, false, ◌&&◌, [], ◌∷◌, eqb, all, All, arith,
}
use servora_platform.Cap.Bytes.{Bytes, hex_value}
use servora_platform.Cap.Prng.{digit}
use servora_platform.Cap.Hex
use servora_platform.Cap.Hex.{encode_hex, is_lower_hex_byte, matches_hex_prefix}

-- `strings.HasPrefix(text, start)`.
unfoldable pub starts_with : Bytes → Bytes → Bool
starts_with [] text = true
starts_with (c ∷ cs) [] = false
starts_with (c ∷ cs) (b ∷ bs) = eqb c b && starts_with cs bs

-- A lower hex digit has the value of a number below 16 exactly where it is that number's digit.
digit_value :
    (c v : ℕ) → is_lower_hex_byte c ≡ true → v < 16 → Hex.is_value (hex_value c) v ≡ eqb c (digit v)
unfolding is_lower_hex_byte hex_value digit
digit_value c v lower small = ground arith

two_values :
    (c c' d : ℕ)
    → is_lower_hex_byte c ≡ true
    → is_lower_hex_byte c' ≡ true
    → d < 256
    → Hex.is_value (Hex.two_digits (hex_value c) (hex_value c')) d
      ≡ (eqb c (digit (d / 16 % 16)) && eqb c' (digit (d % 16)))
unfolding is_lower_hex_byte hex_value digit
two_values c c' d lower lower' small = ground arith

-- The test of a digest against a target of lower hex digits, even or odd in number, is the test that
-- the hex text of the digest starts with the target.
pub matches_hex_prefix-starts_with :
    (digest target : Bytes)
    → All (λ d. d < 256) digest
    → all is_lower_hex_byte target ≡ true
    → matches_hex_prefix digest target ≡ starts_with target (encode_hex digest)
unfolding matches_hex_prefix starts_with encode_hex
matches_hex_prefix-starts_with digest [] bytes lower = refl
matches_hex_prefix-starts_with [] (c ∷ cs) bytes lower = refl
matches_hex_prefix-starts_with (d ∷ ds) (c ∷ []) bytes lower =
    digit_value c (d / 16) (ground arith) (omega (arith, bytes.0)) ∙ last (omega (arith, bytes.0))
  where
    last : d / 16 < 16 → eqb c (digit (d / 16)) ≡ (eqb c (digit (d / 16 % 16)) && true)
    last small = ground arith
matches_hex_prefix-starts_with (d ∷ ds) (c ∷ c' ∷ cs) bytes lower =
    ap (λ b. b && matches_hex_prefix ds cs)
      (two_values c c' d (ground arith) (ground arith) bytes.0)
    ∙ ap (λ b. (eqb c (digit (d / 16 % 16)) && eqb c' (digit (d % 16))) && b)
        (matches_hex_prefix-starts_with ds cs bytes.1 (ground arith))
    ∙ regroup (eqb c (digit (d / 16 % 16))) (eqb c' (digit (d % 16)))
        (starts_with cs (encode_hex ds))
  where
    regroup : (a b r : Bool) → ((a && b) && r) ≡ (a && (b && r))
    regroup true b r = refl
    regroup false b r = refl
