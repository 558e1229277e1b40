-- ===== src/Authz/Text.antt =====
-- security/authz/openfga/authz.go: the names of types, relations and resources. Texts are lists of
-- bytes; what the package unicode knows of them is a parameter.
use servora_platform.Common.{
  ℕ, ◌-◌, ◌≡◌, ◌<◌, Bool, true, false, not, ◌&&◌, ◌||◌, List, [], ◌∷◌, ◌++◌, Option, none, some,
  All, any, all, length, leb, eqb, if◌then◌else◌,
}
use servora_platform.Cap.Bytes.{Bytes}

-- The packages unicode/utf8 and unicode: the runes of a text, where it is valid UTF-8, their count,
-- and the classes of runes.
pub record Unicode : Type 0 where
  pub decode : Bytes → Option (List ℕ)
  pub rune_count : Bytes → ℕ
  pub is_space : ℕ → Bool
  pub is_control : ℕ → Bool

-- A text that decodes to runes of ASCII is those runes.
pub record IsUtf8 (u : Unicode) : Type 0 where
  pub ascii : (b rs : List ℕ) → u.decode b ≡ some rs → All (λ r. r < 128) rs → rs ≡ b

pub data Failure : Type 0 where
  invalid_input unauthenticated unavailable : Failure
  -- the context is cancelled, or past its deadline
  cancelled : Failure
  -- the classes of the SDK's errors, of the JSON encoder's and of the network's
  rate_limited provider_internal : Failure
  required_param invalid_param validation unsupported_type unsupported_value : Failure
  network : Failure
  -- an error of no class
  other : Failure

pub data Result (A : Type 0) : Type 0 where
  ok : A → Result A
  fail : Failure → Result A

infixl 5 ◌>>=◌ ◌>>◌
abbrev pub ◌>>=◌ : {A B : Type 0} → Result A → (A → Result B) → Result B
◌>>=◌ (ok a) f = f a
◌>>=◌ (fail e) f = fail e

abbrev pub ◌>>◌ : {A B : Type 0} → Result A → Result B → Result B
◌>>◌ r s = r >>= λ _. s

abbrev pub when : Bool → Failure → Result (Unit {0})
when true e = fail e
when false e = ok tt

abbrev pub colon : ℕ
colon = 58

abbrev pub is_empty : Bytes → Bool
is_empty [] = true
is_empty (b ∷ bs) = false

-- An underscore, a letter or a digit of ASCII.
unfoldable pub is_name_rune : ℕ → Bool
is_name_rune c = eqb c 95 || leb 97 c && leb c 122 || leb 65 c && leb c 90 || leb 48 c && leb c 57

unfoldable pub are_name_runes : Option (List ℕ) → Bool
are_name_runes none = false
are_name_runes (some rs) = all is_name_rune rs

abbrev pub is_decoded : Option (List ℕ) → Bool
is_decoded none = false
is_decoded (some rs) = true

-- `strings.ContainsAny(value, "#:")`.
abbrev pub has_separator : Bytes → Bool
has_separator = any (λ b. eqb b 35 || eqb b colon)

-- `strings.Cut(value, ":")`: the texts before and after the first colon.
unfoldable pub cut : Bytes → Option (Bytes × Bytes)
cut [] = none
cut (b ∷ bs) =
    let rest = cut bs in
    if eqb b colon then some ([], bs) else elim rest [ none ↦ none | some p ↦ some (b ∷ p.0, p.1) ]

module _ (u : Unicode) where
  unfoldable pub valid_provider_name : Bytes → ℕ → Bool
  valid_provider_name value max_length =
      not (is_empty value) && leb (length value) max_length && are_name_runes (u.decode value)

  abbrev pub has_blank : Option (List ℕ) → Bool
  has_blank none = false
  has_blank (some rs) = any (λ r. u.is_space r || u.is_control r) rs

  unfoldable pub valid_resource_id : Bytes → ℕ → Bool
  valid_resource_id value max_length =
      not (is_empty value)
      && leb 1 max_length
      && is_decoded (u.decode value)
      && leb (u.rune_count value) max_length
      && not (has_separator value)
      && not (has_blank (u.decode value))

  unfoldable pub relation_name : Bytes → Result Bytes
  relation_name action = do
    when (not (valid_provider_name action 50)) Failure.invalid_input
    ok action

  unfoldable pub resource_type_name : Bytes → Result Bytes
  resource_type_name resource_type = do
    when (not (valid_provider_name resource_type 254)) Failure.invalid_input
    ok resource_type

  -- A negative count of runes that is left is below 1, as 0 is.
  unfoldable pub resource_object : Bytes → Bytes → Result Bytes
  resource_object resource_type resource_id = do
    name ← resource_type_name resource_type
    when (not (valid_resource_id resource_id (256 - u.rune_count name - 1))) Failure.invalid_input
    ok (name ++ colon ∷ resource_id)
