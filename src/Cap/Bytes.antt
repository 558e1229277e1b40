-- ===== src/Cap/Bytes.antt =====
-- Texts as lists of bytes, Go's int and int64 as signed numbers, and what cap.go uses of the
-- packages strings and strconv.
use servora_platform.Common.{
  ℕ, zero, suc, ◌+◌, ◌-◌, ◌*◌, ◌/◌, ◌%◌, ◌^◌, ◌≡◌, ◌≢◌, refl, Bool, true, false, not, ◌&&◌, List,
  [], ◌∷◌, ◌++◌, Option, none, some, All, ltb, eqb, arith, if◌then◌else◌,
}

abbrev pub Bytes : Type 0
Bytes = List ℕ

unfoldable pub same : Bytes → Bytes → Bool
same [] [] = true
same [] (b ∷ bs) = false
same (a ∷ xs) [] = false
same (a ∷ xs) (b ∷ bs) = eqb a b && same xs bs

pub same_refl : (a : Bytes) → same a a ≡ true
unfolding same
same_refl [] = refl
same_refl (x ∷ xs) = ground (arith, same_refl xs)

pub same-≡ : (a b : Bytes) → same a b ≡ true → a ≡ b
unfolding same
same-≡ [] [] h = refl
same-≡ [] (b ∷ bs) h = cc
same-≡ (a ∷ xs) [] h = cc
same-≡ (a ∷ xs) (b ∷ bs) h =
    let head : a ≡ b = ground arith in let tail : xs ≡ bs = same-≡ xs bs (ground arith) in cc

pub data ℤ : Type 0 where
  pos negsuc : ℕ → ℤ

abbrev pub ltz : ℤ → ℤ → Bool
ltz (pos a) (pos b) = ltb a b
ltz (pos a) (negsuc b) = false
ltz (negsuc a) (pos b) = true
ltz (negsuc a) (negsuc b) = ltb b a

abbrev minus : ℕ → ℕ → ℤ
minus a b = if ltb a b then negsuc (b - suc a) else pos (a - b)

infixl 20 ◌-ℤ◌
abbrev pub ◌-ℤ◌ : ℤ → ℤ → ℤ
pos a -ℤ pos b = minus a b
pos a -ℤ negsuc b = pos (a + suc b)
negsuc a -ℤ pos b = negsuc (a + b)
negsuc a -ℤ negsuc b = minus b a

abbrev pub to_nat : ℤ → ℕ
to_nat (pos n) = n
to_nat (negsuc n) = 0

-- The signed value of the low 64 bits.
unfoldable pub signed64 : ℕ → ℤ
signed64 n = if ltb n (2 ^ 63) then pos n else negsuc (2 ^ 64 - suc n)

-- A count of milliseconds as a time.Duration, in nanoseconds of int64.
unfoldable pub milliseconds : ℤ → ℤ
milliseconds (pos n) = signed64 (n * 10 ^ 6 % 2 ^ 64)
milliseconds (negsuc n) = signed64 ((2 ^ 64 - suc n * 10 ^ 6 % 2 ^ 64) % 2 ^ 64)

abbrev glue : ℕ → List Bytes → List Bytes
glue c [] = (c ∷ []) ∷ []
glue c (p ∷ ps) = (c ∷ p) ∷ ps

-- `strings.Split` at one byte.
unfoldable pub split : ℕ → Bytes → List Bytes
split sep [] = [] ∷ []
split sep (c ∷ cs) = let rest = split sep cs in if eqb c sep then [] ∷ rest else glue c rest

abbrev put_first : ℕ → Option (Bytes × Bytes) → Option (Bytes × Bytes)
put_first c none = none
put_first c (some (a, b)) = some (c ∷ a, b)

-- `strings.Cut` at one byte.
unfoldable pub cut : ℕ → Bytes → Option (Bytes × Bytes)
cut sep [] = none
cut sep (c ∷ cs) = let rest = cut sep cs in if eqb c sep then some ([], cs) else put_first c rest

-- `strings.Contains` of one byte.
unfoldable pub contains_byte : ℕ → Bytes → Bool
contains_byte c [] = false
contains_byte c (b ∷ bs) = if eqb b c then true else contains_byte c bs

-- `strconv.Itoa` of a natural number; a number has no more digits than its value, but at least one.
unfoldable pub itoa_digits : ℕ → ℕ → Bytes
itoa_digits zero n = (48 + n) ∷ []
itoa_digits (suc k) n = elim (ltb n 10) [
  | true ↦ (48 + n) ∷ []
  | false ↦ itoa_digits k (n / 10) ++ ((48 + n % 10) ∷ [])
]

unfoldable pub itoa : ℕ → Bytes
itoa n = itoa_digits n n

-- One digit of `strconv.ParseUint` in base 16.
unfoldable pub hex_value : ℕ → Option ℕ
hex_value c =
    if not (ltb c 48) && ltb c 58
    then some (c - 48)
    else (if not (ltb c 97) && ltb c 103
        then some (c - 87)
        else (if not (ltb c 65) && ltb c 71 then some (c - 55) else none))

pub split-free : (sep : ℕ) (a : Bytes) → All (λ c. c ≢ sep) a → split sep a ≡ a ∷ []
unfolding split
split-free sep [] h = refl
split-free sep (c ∷ cs) h = rw (split-free sep cs h.1) (ground arith)

pub split-parts :
    (sep : ℕ) (a b : Bytes) → All (λ c. c ≢ sep) a → split sep (a ++ sep ∷ b) ≡ a ∷ split sep b
unfolding split
split-parts sep [] b h = ground arith
split-parts sep (c ∷ cs) b h = rw (split-parts sep cs b h.1) (ground arith)

pub cut-parts :
    (sep : ℕ) (a b : Bytes) → All (λ c. c ≢ sep) a → cut sep (a ++ sep ∷ b) ≡ some (a, b)
unfolding cut
cut-parts sep [] b h = ground arith
cut-parts sep (c ∷ cs) b h = rw (cut-parts sep cs b h.1) (ground arith)

pub contains_byte-free : (c : ℕ) (a : Bytes) → All (λ b. b ≢ c) a → contains_byte c a ≡ false
unfolding contains_byte
contains_byte-free c [] h = refl
contains_byte-free c (b ∷ bs) h = ground (arith, contains_byte-free c bs h.1)
