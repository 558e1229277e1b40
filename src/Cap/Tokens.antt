-- ===== src/Cap/Tokens.antt =====
-- security/cap/cap.go: the one-time verification tokens, their keys and their consumption.
use servora_platform.Common.{
  Bool, true, false, not, ◌||◌, ◌∷◌, ◌++◌, Option, none, some, if◌then◌else◌,
}
use servora_platform.Cap.Bytes.{Bytes, same, cut, contains_byte}
use servora_platform.Cap.Hex.{encode_hex, is_lower_hex}
use servora_platform.Cap.Service.{Redis, Codecs, Cap, M, pure, run_script}

module _ (codecs : Codecs) (cap : Cap) where
  unfoldable pub hash_sha256 : Bytes → Bytes
  hash_sha256 value = encode_hex (codecs.sha256 value)

  -- prefix token: id : hash of the secret
  unfoldable pub token_key : Bytes → Bytes → Bytes
  token_key id secret =
      cap.key_prefix ++ 116 ∷ 111 ∷ 107 ∷ 101 ∷ 110 ∷ 58 ∷ (id ++ 58 ∷ hash_sha256 secret)

  abbrev pub key_of : Option (Bytes × Bytes) → Option Bytes
  key_of none = none
  key_of (some (id, secret)) =
      if contains_byte 58 secret || not (is_lower_hex id 16) || not (is_lower_hex secret 30)
      then none
      else some (token_key id secret)

  unfoldable pub verification_key : Bytes → Option Bytes
  verification_key token = key_of (cut 58 token)

  module _ (redis : Redis) where
    -- GETDEL.
    unfoldable pub consume : Bytes → redis.State → Bool × redis.State
    consume key s = elim (redis.get key s) [ none ↦ (false, s) | some v ↦ (true, redis.del key s) ]

    unfoldable pub validate_token : Bytes → M redis.State Bool
    validate_token token = elim (verification_key token) [
      | none ↦ pure false
      | some key ↦ run_script redis (consume key)
    ]

    -- consumeScopedTokenScript.
    unfoldable pub consume_scoped : Bytes → Bytes → redis.State → Bool × redis.State
    consume_scoped key expected s = elim (redis.get key s) [
      | none ↦ (false, s)
      | some scope ↦ if same scope expected then (true, redis.del key s) else (false, s)
    ]

    unfoldable pub validate_token_with_scope : Bytes → Bytes → M redis.State Bool
    validate_token_with_scope token expected = elim (verification_key token) [
      | none ↦ pure false
      | some key ↦ run_script redis (consume_scoped key expected)
    ]
