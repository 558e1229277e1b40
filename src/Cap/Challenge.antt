-- ===== src/Cap/Challenge.antt =====
-- security/cap/cap.go: the policy of the challenges, their creation, signature and verification.
use servora_platform.Common.{
  ℕ, ◌+◌, ◌*◌, ◌/◌, ◌^◌, Bool, not, ◌&&◌, ◌||◌, List, [], ◌∷◌, ◌++◌, Option, none, some, length,
  ltb, if◌then◌else◌,
}
use servora_platform.Cap.Bytes.{Bytes, ℤ, pos, ltz, same, split, milliseconds, to_nat}
use servora_platform.Cap.Hex.{encode_hex, is_lower_hex}
use servora_platform.Cap.Service.{
  ChallengeParams, ChallengeClaims, Redis, Codecs, Cap, M, ◌>>=◌, ◌>>◌, pure, when, lift,
  invalid_params, expiration_not_positive, not_signed, invalid_token, expired_token, random_hex,
  now,
}

-- `durationpb.Duration` of the configuration: whether it is valid, and its nanoseconds.
pub record Duration : Type 0 where
  pub valid : Bool
  pub nanoseconds : ℤ

unfoldable pub valid_duration : Option Duration → ℤ → Option ℤ
valid_duration none fallback = some fallback
valid_duration (some d) fallback =
    if d.valid && ltz (pos 0) d.nanoseconds then some d.nanoseconds else none

abbrev pub in_range : ℤ → ℕ → Bool
in_range n most = not (ltz n (pos 1)) && not (ltz (pos most) n)

unfoldable pub validate_challenge_params : ChallengeParams → Bool
validate_challenge_params p = in_range p.c 1000 && in_range p.s 256 && in_range p.d 16

-- The configuration after its defaults are applied and its required fields are there.
pub record Config : Type 0 where
  pub signing_secret : Bytes
  pub challenge_ttl : Option Duration
  pub token_ttl : Option Duration
  pub challenge_count : ℤ
  pub challenge_size : ℤ
  pub challenge_difficulty : ℤ
  pub redis_key_prefix : Bytes
  pub default_scope : Bytes

abbrev default_key_prefix : Bytes
default_key_prefix = 99 ∷ 97 ∷ 112 ∷ 58 ∷ 118 ∷ 50 ∷ 58 ∷ []

abbrev minute_ns : ℕ
minute_ns = 60 * 10 ^ 9

abbrev configured : Config → ChallengeParams → Option ℤ → Option ℤ → Option Cap
configured c p none t = none
configured c p (some u) none = none
configured c p (some u) (some t) =
    if validate_challenge_params p
    then some (record {
      signing_secret = c.signing_secret;
      key_prefix = if same c.redis_key_prefix [] then default_key_prefix else c.redis_key_prefix;
      challenge_params = p;
      challenge_ttl = u;
      token_ttl = t;
      default_scope = c.default_scope;
    })
    else none

-- `New`; none is an error.
unfoldable pub new : Config → Option Cap
new c =
    if ltb (length c.signing_secret) 16
    then none
    else configured c
        (record { c = c.challenge_count; s = c.challenge_size; d = c.challenge_difficulty })
        (valid_duration c.challenge_ttl (pos (10 * minute_ns)))
        (valid_duration c.token_ttl (pos (20 * minute_ns)))

pub record ChallengeConfig : Type 0 where
  pub challenge_count : ℤ
  pub challenge_size : ℤ
  pub challenge_difficulty : ℤ
  pub expires_ms : ℤ
  pub scope : Bytes

pub record ChallengeResponse : Type 0 where
  pub challenge : ChallengeParams
  pub token : Bytes
  pub expires : ℕ

abbrev if_positive : ℤ → ℤ → ℤ
if_positive new old = if ltz (pos 0) new then new else old

unfoldable pub params_of : Cap → Option ChallengeConfig → ChallengeParams
params_of cap none = cap.challenge_params
params_of cap (some o) = record {
  c = if_positive o.challenge_count cap.challenge_params.c;
  s = if_positive o.challenge_size cap.challenge_params.s;
  d = if_positive o.challenge_difficulty cap.challenge_params.d;
}

unfoldable pub ttl_of : Cap → Option ChallengeConfig → ℤ
ttl_of cap none = cap.challenge_ttl
ttl_of cap (some o) =
    if ltz (pos 0) o.expires_ms then milliseconds o.expires_ms else cap.challenge_ttl

unfoldable pub scope_of : Cap → Option ChallengeConfig → Bytes
scope_of cap none = cap.default_scope
scope_of cap (some o) = if same o.scope [] then cap.default_scope else o.scope

-- `Milliseconds` of a positive duration.
abbrev pub to_milliseconds : ℤ → ℕ
to_milliseconds t = to_nat t / 10 ^ 6

module _ (codecs : Codecs) (cap : Cap) where
  -- The header's encoding is a constant of the package.
  abbrev pub header : Bytes
  header = codecs.encode_base64 (
      123 ∷ 34 ∷ 97 ∷ 108 ∷ 103 ∷ 34 ∷ 58 ∷ 34 ∷ 72 ∷ 83 ∷ 50 ∷ 53 ∷ 54 ∷ 34 ∷ 44 ∷ 34 ∷ 116 ∷ 121
      ∷ 112 ∷ 34 ∷ 58 ∷ 34 ∷ 74 ∷ 87 ∷ 84 ∷ 34 ∷ 125 ∷ [])

  abbrev pub signing_input : Bytes → Bytes
  signing_input body = header ++ 46 ∷ body

  -- The token of a payload.
  unfoldable pub signed_token : Bytes → Bytes
  signed_token payload =
      let body = codecs.encode_base64 payload in
      header
      ++ 46
        ∷ (body
            ++ 46
              ∷ codecs.encode_base64 (codecs.hmac_sha256 cap.signing_secret (signing_input body)))

  -- None is the encoder's error.
  unfoldable pub sign_challenge : ChallengeClaims → Option Bytes
  sign_challenge claims = elim (codecs.marshal claims) [
    | none ↦ none
    | some payload ↦ some (signed_token payload)
  ]

  -- The three parts of a token with the right header and no empty part.
  unfoldable pub token_parts : List Bytes → Option (Bytes × Bytes)
  token_parts (h ∷ b ∷ s ∷ []) =
      if not (same h header) || same b [] || same s [] then none else some (b, s)
  token_parts _ = none

  abbrev pub well_formed : ChallengeClaims → Bool
  well_formed c =
      is_lower_hex c.nonce 50
      && ltz (pos 0) c.issued_at
      && ltz c.issued_at c.expires
      && validate_challenge_params (record { c = c.count; s = c.size; d = c.difficulty })

  -- The claims of a signed body.
  unfoldable pub read_claims : Bytes → Bytes → Option ChallengeClaims
  read_claims body signature =
      if same signature (codecs.hmac_sha256 cap.signing_secret (signing_input body))
      then elim (codecs.decode_base64 body) [
        | none ↦ none
        | some payload ↦ elim (codecs.unmarshal payload) [
          | none ↦ none
          | some claims ↦ if well_formed claims then some claims else none
        ]
      ]
      else none

  abbrev with_signature : Bytes → Bytes → Option (ChallengeClaims × Bytes)
  with_signature body signature = elim (read_claims body signature) [
    | none ↦ none
    | some claims ↦ some (claims, encode_hex signature)
  ]

  -- The part of `verifyChallenge` that does not read the clock.
  unfoldable pub open_token : Bytes → Option (ChallengeClaims × Bytes)
  open_token token = elim (token_parts (split 46 token)) [
    | none ↦ none
    | some (body, encoded) ↦ elim (codecs.decode_base64 encoded) [
      | none ↦ none
      | some signature ↦ with_signature body signature
    ]
  ]

  module _ (redis : Redis) where
    unfoldable pub verify_challenge : Bytes → M redis.State (ChallengeClaims × Bytes)
    verify_challenge token = do
      opened ← lift invalid_token (open_token token)
      t ← now redis
      when (ltz opened.0.expires (pos t)) expired_token
      pure opened

    unfoldable pub create_challenge : Option ChallengeConfig → M redis.State ChallengeResponse
    create_challenge override = do
      let p = params_of cap override
      when (not (validate_challenge_params p)) invalid_params
      when (not (ltz (pos 0) (ttl_of cap override))) expiration_not_positive
      nonce ← random_hex 25
      t ← now redis
      let expires = t + to_milliseconds (ttl_of cap override)
      token ← lift not_signed (
          sign_challenge (record {
            nonce = nonce;
            count = p.c;
            size = p.s;
            difficulty = p.d;
            expires = pos expires;
            issued_at = pos t;
            scope = scope_of cap override;
          }))
      pure (record { challenge = p; token = token; expires = expires })
