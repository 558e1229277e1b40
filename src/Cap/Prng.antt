-- ===== src/Cap/Prng.antt =====
-- security/cap/cap.go: fnv1a and prng, on words of 32 bits.
use Prim.Native.Nat.{bit_xor}
use servora_platform.Common.{
  ℕ, zero, suc, ◌+◌, ◌*◌, ◌/◌, ◌%◌, ◌^◌, ◌≤◌, ◌≡◌, refl, [], ◌∷◌, ◌++◌, length, arith, ltb, All,
  All-append, if◌then◌else◌,
}
use servora_platform.Cap.Bytes.{Bytes}

abbrev pub word : ℕ
word = 2 ^ 32

abbrev shift_left : ℕ → ℕ → ℕ
shift_left x k = x * 2 ^ k % word

unfoldable pub fnv1a_step : ℕ → ℕ → ℕ
fnv1a_step state byte =
    let s = bit_xor state byte in
    (s
      + (((((shift_left s 1 + shift_left s 4) % word) + shift_left s 7) % word + shift_left s 8)
            % word
          + shift_left s 24)
        % word)
    % word

unfoldable pub fnv1a_resume : ℕ → Bytes → ℕ
fnv1a_resume state [] = state
fnv1a_resume state (b ∷ bs) = fnv1a_resume (fnv1a_step state b) bs

unfoldable pub fnv1a : Bytes → ℕ
fnv1a value = fnv1a_resume 2166136261 value

-- The three shifts of one turn of the generator.
unfoldable pub xorshift : ℕ → ℕ
xorshift s =
    let a = bit_xor s (shift_left s 13) in
    let b = bit_xor a (a / 2 ^ 17) in bit_xor b (shift_left b 5)

-- The entry of "0123456789abcdef" at a number below 16.
unfoldable pub digit : ℕ → ℕ
digit n = if ltb n 10 then 48 + n else 87 + n

-- The digits written by the inner loop, from the highest.
abbrev pub eight_digits : ℕ → Bytes
eight_digits s =
    digit (s / 2 ^ 28 % 16)
    ∷ digit (s / 2 ^ 24 % 16)
    ∷ digit (s / 2 ^ 20 % 16)
    ∷ digit (s / 2 ^ 16 % 16)
    ∷ digit (s / 2 ^ 12 % 16)
    ∷ digit (s / 2 ^ 8 % 16)
    ∷ digit (s / 2 ^ 4 % 16)
    ∷ digit (s / 2 ^ 0 % 16)
    ∷ []

-- The outer loop, for a buffer of so many blocks.
unfoldable pub fill : ℕ → ℕ → Bytes
fill state zero = []
fill state (suc blocks) = let next = xorshift state in eight_digits next ++ fill next blocks

unfoldable pub take : ℕ → Bytes → Bytes
take zero bs = []
take (suc n) [] = []
take (suc n) (b ∷ bs) = b ∷ take n bs

unfoldable pub prng_from_hash : ℕ → ℕ → Bytes
prng_from_hash state length = take length (fill state ((length + 7) / 8))

unfoldable pub prng : Bytes → ℕ → Bytes
prng seed length = prng_from_hash (fnv1a seed) length

length-take : (n : ℕ) (bs : Bytes) → n ≤ length bs → length (take n bs) ≡ n
unfolding take
length-take zero bs h = refl
length-take (suc n) [] h = absurd (omega arith)
length-take (suc n) (b ∷ bs) h = ap_suc (length-take n bs (omega arith))
  where
    ap_suc : {a b : ℕ} → a ≡ b → suc a ≡ suc b
    ap_suc e = cc

length-fill : (state blocks : ℕ) → length (fill state blocks) ≡ 8 * blocks
unfolding fill
length-fill state zero = refl
length-fill state (suc blocks) = omega (arith, length-fill (xorshift state) blocks)

-- A text of the generator has the length asked for.
pub length-prng_from_hash : (state n : ℕ) → length (prng_from_hash state n) ≡ n
unfolding prng_from_hash
length-prng_from_hash state n = length-take n _ (omega (arith, length-fill state ((n + 7) / 8)))

All-take : (P : ℕ → Type 0) (n : ℕ) (bs : Bytes) → All P bs → All P (take n bs)
unfolding take
All-take P zero bs h = tt
All-take P (suc n) [] h = tt
All-take P (suc n) (b ∷ bs) h = (h.0, All-take P n bs h.1)

module _ (P : ℕ → Type 0) (holds : (n : ℕ) → P (digit (n % 16))) where
  All-fill : (state blocks : ℕ) → All P (fill state blocks)
  unfolding fill
  All-fill state zero = tt
  All-fill state (suc blocks) =
      All-append P (eight_digits (xorshift state)) (fill (xorshift state) blocks)
        (holds _, (holds _, (holds _, (holds _, (holds _, (holds _, (holds _, (holds _, tt))))))))
        (All-fill (xorshift state) blocks)

  -- What holds of every digit holds of a text of the generator.
  pub All-prng_from_hash : (state n : ℕ) → All P (prng_from_hash state n)
  unfolding prng_from_hash
  All-prng_from_hash state n = All-take P n _ (All-fill state ((n + 7) / 8))
