-- ===== src/Cap/Roundtrip.antt =====
-- security/cap/cap.go: what createChallenge signs, verifyChallenge reads back.
use servora_platform.Common.{
  ℕ, zero, suc, ◌+◌, ◌*◌, ◌≤◌, ◌≡◌, ◌≢◌, refl, ap, ◌∙◌, subst, Bool, true, false, not, List, [],
  ◌∷◌, Option, none, some, length, arith, ltb, if◌then◌else◌, Bool-cases, inl, inr,
}
use servora_platform.Cap.Bytes.{
  Bytes, pos, ltz, same, same_refl, same-≡, split, split-free, split-parts,
}
use servora_platform.Cap.Hex.{encode_hex, is_lower_hex, is_lower_hex-encode_hex}
use servora_platform.Cap.Service.{
  ChallengeClaims, Redis, Codecs, Cap, World, Outcome, ok, err, ◌>>=◌, pure, when, lift, now,
  random_hex, random_from, invalid_token, expired_token, invalid_params, expiration_not_positive,
  not_signed,
}
use servora_platform.Cap.Keeps.{Keeps-now}
use servora_platform.Cap.Once.{Keeps-ok}
use servora_platform.Cap.Laws.{bind_ok, lift_ok, bind_run, when_ok, now_ok}
use servora_platform.Cap.Challenge
use servora_platform.Cap.Challenge.{
  ChallengeConfig, ChallengeResponse, validate_challenge_params, params_of, ttl_of, scope_of,
  to_milliseconds, header, signing_input, signed_token, sign_challenge, token_parts, read_claims,
  open_token, verify_challenge, create_challenge,
}

pub not_same : (a b : Bytes) → a ≢ b → same a b ≡ false
not_same a b apart = elim (Bool-cases (same a b)) [
  | inl e ↦ absurd (apart (same-≡ a b e))
  | inr e ↦ e
]

module _ (codecs : Codecs) (cap : Cap) where
  encoded-ne-nil : (bs : Bytes) → bs ≢ [] → codecs.encode_base64 bs ≢ []
  encoded-ne-nil [] apart = absurd (apart refl)
  encoded-ne-nil (b ∷ bs) apart = codecs.encode-ne-nil b bs

  body_of : Bytes → Bytes
  body_of payload = codecs.encode_base64 payload

  pub mac_of : Bytes → Bytes
  mac_of payload =
      codecs.hmac_sha256 cap.signing_secret (signing_input codecs cap (body_of payload))

  split-signed_token :
      (payload : Bytes)
      → split 46 (signed_token codecs cap payload)
        ≡ header codecs cap ∷ body_of payload ∷ codecs.encode_base64 (mac_of payload) ∷ []
  unfolding signed_token body_of mac_of
  split-signed_token payload =
      split-parts 46 _ _ (codecs.encode-free _)
      ∙ ap (λ ps. header codecs cap ∷ ps)
          (split-parts 46 _ _ (codecs.encode-free _)
            ∙ ap (λ ps. body_of payload ∷ ps) (split-free 46 _ (codecs.encode-free _)))

  parts-signed_token :
      (payload : Bytes)
      → payload ≢ []
      → token_parts codecs cap (split 46 (signed_token codecs cap payload))
        ≡ some (body_of payload, codecs.encode_base64 (mac_of payload))
  unfolding token_parts body_of mac_of
  parts-signed_token payload some_payload =
      rw (split-signed_token payload, same_refl (header codecs cap), body_there, mac_there)
    where
      body_there : same (body_of payload) [] ≡ false
      body_there = not_same _ [] (encoded-ne-nil _ some_payload)

      mac_there : same (codecs.encode_base64 (mac_of payload)) [] ≡ false
      mac_there = not_same _ [] (encoded-ne-nil _ (codecs.hmac-ne-nil _ _))

  read-signed_token :
      (claims : ChallengeClaims) (payload : Bytes)
      → codecs.marshal claims ≡ some payload
      → Challenge.well_formed codecs cap claims ≡ true
      → read_claims codecs cap (body_of payload) (mac_of payload) ≡ some claims
  unfolding read_claims body_of mac_of
  read-signed_token claims payload encoded good = rw (
    same_refl (mac_of payload),
    codecs.decode-encode payload,
    codecs.unmarshal-marshal claims payload encoded,
    good,
  )

  -- The token of the payload of well-formed claims opens to them.
  pub open-signed_token :
      (claims : ChallengeClaims) (payload : Bytes)
      → codecs.marshal claims ≡ some payload
      → Challenge.well_formed codecs cap claims ≡ true
      → open_token codecs cap (signed_token codecs cap payload)
        ≡ some (claims, encode_hex (mac_of payload))
  unfolding open_token
  open-signed_token claims payload encoded good =
      rw
        (
          open_token,
          parts-signed_token payload (codecs.marshal-ne-nil claims payload encoded),
          codecs.decode-encode (mac_of payload),
        )
        (ap
          (λ (o : Option ChallengeClaims). elim o as (λ _. Option (ChallengeClaims × Bytes)) [
            | none ↦ none
            | some c ↦ some (c, encode_hex (mac_of payload))
          ])
          (read-signed_token claims payload encoded good))

  sign_challenge_ok :
      (claims : ChallengeClaims) {token : Bytes}
      → sign_challenge codecs cap claims ≡ some token
      → (payload : Bytes) × (codecs.marshal claims ≡ some payload)
        × (signed_token codecs cap payload ≡ token)
  unfolding sign_challenge
  sign_challenge_ok claims h = by_payload (codecs.marshal claims) refl h
    where
      by_payload :
          (o : Option Bytes) {token : Bytes}
          → codecs.marshal claims ≡ o
          → (elim o as (λ _. Option Bytes) [
            | none ↦ none
            | some payload ↦ some (signed_token codecs cap payload)
          ])
            ≡ some token
          → (payload : Bytes) × (codecs.marshal claims ≡ some payload)
            × (signed_token codecs cap payload ≡ token)
      by_payload none e q = cc
      by_payload (some payload) e q = (payload, e, cc)

module _ {S : Type 0} where
  more_ok :
      (b : ℕ) (o : Outcome S Bytes) {bs : Bytes} {v : World S}
      → (elim o [ ok bs' w' ↦ ok (b ∷ bs') w' | err e w' ↦ err e w' ]) ≡ ok bs v
      → (rest : Bytes) × (bs ≡ b ∷ rest) × (o ≡ ok rest v)
  more_ok b (ok rest w) h = (rest, cc, cc)
  more_ok b (err e w) h = cc

  length-random_from :
      (n : ℕ) (bs : List ℕ) (w : World S) {rs : Bytes} {v : World S}
      → random_from n bs w ≡ ok rs v
      → (length rs ≡ n) × (v.time ≡ w.time)
  unfolding random_from
  length-random_from zero bs w h = (ground arith, ground arith)
  length-random_from (suc n) [] w h = cc
  length-random_from (suc n) (b ∷ bs) w h =
      let (rest, cons, inner) = more_ok b (random_from n bs w) h in
      let (size, still) = length-random_from n bs w inner in (ap length cons ∙ ap suc size, still)

  hex_ok :
      (o : Outcome S Bytes) {bs : Bytes} {v : World S}
      → (elim o [ ok rs w' ↦ ok (encode_hex rs) w' | err e w' ↦ err e w' ]) ≡ ok bs v
      → (rs : Bytes) × (bs ≡ encode_hex rs) × (o ≡ ok rs v)
  hex_ok (ok rs w) h = (rs, cc, cc)
  hex_ok (err e w) h = cc

  random_hex_ok :
      (n : ℕ) (w : World S) {bs : Bytes} {v : World S}
      → random_hex n w ≡ ok bs v
      → (is_lower_hex bs (2 * n) ≡ true) × (v.time ≡ w.time)
  unfolding random_hex
  random_hex_ok n w h =
      let (rs, hex, drawn) = hex_ok (random_from n w.entropy w) h in
      let (size, still) = length-random_from n w.entropy w drawn in
      (ap (λ bs. is_lower_hex bs (2 * n)) hex ∙ is_lower_hex-encode_hex rs n size, still)

module _ (codecs : Codecs) (cap : Cap) (redis : Redis) where
  claims_of : Option ChallengeConfig → Bytes → ℕ → ChallengeClaims
  claims_of override nonce t = record {
    nonce = nonce;
    count = (params_of cap override).c;
    size = (params_of cap override).s;
    difficulty = (params_of cap override).d;
    expires = pos (t + to_milliseconds (ttl_of cap override));
    issued_at = pos t;
    scope = scope_of cap override;
  }

  response_of : Option ChallengeConfig → Bytes → ℕ → ChallengeResponse
  response_of override payload t = record {
    challenge = params_of cap override;
    token = signed_token codecs cap payload;
    expires = t + to_milliseconds (ttl_of cap override);
  }

  time-now :
      (w : World redis.State) {v : World redis.State} {t : ℕ} → now redis w ≡ ok t v → w.time ≤ t
  time-now w h = omega (
    arith,
    now_ok redis w h,
    Keeps-ok {H = λ x s. w.time ≤ x} (Keeps-now redis _ (λ x d s le. omega (arith, le))) w
        (omega arith) h,
  )

  create_ok :
      (override : Option ChallengeConfig) (w v : World redis.State) (r : ChallengeResponse)
      → create_challenge codecs cap redis override w ≡ ok r v
      → (nonce : Bytes) × (payload : Bytes) × (t : ℕ) × (is_lower_hex nonce 50 ≡ true)
        × (w.time ≤ t)
        × (validate_challenge_params (params_of cap override) ≡ true)
        × (codecs.marshal (claims_of override nonce t) ≡ some payload)
        × (response_of override payload t ≡ r)
  unfolding create_challenge claims_of response_of
  create_ok override w v r h =
      let (_, x, first, more) =
        bind_ok (when (not (validate_challenge_params (params_of cap override))) invalid_params) _ w
          h in
      let (valid, same_x) = when_ok _ _ w first in
      let (_, y, second, more') =
        bind_ok (when (not (ltz (pos 0) (ttl_of cap override))) expiration_not_positive) _ x more in
      let (_, same_y) = when_ok _ _ x second in
      let (nonce, z, drawn, more'') = bind_ok (random_hex 25) _ y more' in
      let (hex, still) = random_hex_ok 25 y drawn in
      let (t, u, read, rest) = bind_ok (now redis) _ z more'' in
      let (token, q, given, last) =
        bind_ok (lift not_signed (sign_challenge codecs cap (claims_of override nonce t))) _ u
          rest in
      let (payload, encoded, same_token) =
        sign_challenge_ok codecs cap (claims_of override nonce t) (lift_ok _ _ u given).0 in
      (
        nonce,
        payload,
        t,
        hex,
        omega (
          arith,
          time-now z read,
          still,
          ap (λ (q : World redis.State). q.time) same_x,
          ap (λ (q : World redis.State). q.time) same_y,
        ),
        ground arith,
        encoded,
        ap
              (λ (z : Bytes). record {
                challenge = params_of cap override;
                token = z;
                expires = t + to_milliseconds (ttl_of cap override);
              })
              same_token
            ∙ same_response last,
      )
    where
      same_response :
          {a b : ChallengeResponse} {x y : World redis.State}
          → ◌≡◌ {A = Outcome redis.State ChallengeResponse} (ok a x) (ok b y)
          → a ≡ b
      same_response q = cc

  claims_of-IsWellFormed :
      (override : Option ChallengeConfig) (nonce : Bytes) (t : ℕ)
      → is_lower_hex nonce 50 ≡ true
      → 1 ≤ t
      → 1 ≤ to_milliseconds (ttl_of cap override)
      → validate_challenge_params (params_of cap override) ≡ true
      → Challenge.well_formed codecs cap (claims_of override nonce t) ≡ true
  unfolding claims_of
  claims_of-IsWellFormed override nonce t hex some_time some_ttl valid =
      rw (hex, valid) (ground arith)

  verify_opened :
      (token : Bytes) (claims : ChallengeClaims) (sig : Bytes) (exp : ℕ) (x y : World redis.State)
      (t : ℕ)
      → claims.expires ≡ pos exp
      → open_token codecs cap token ≡ some (claims, sig)
      → now redis x ≡ ok t y
      → verify_challenge codecs cap redis token x
        ≡ (if ltb exp t then err expired_token y else ok (claims, sig) y)
  unfolding verify_challenge
  verify_opened token claims sig exp x y t expires opens read =
      bind_run (lift invalid_token (open_token codecs cap token)) _ x (
        ap (λ (o : Option (ChallengeClaims × Bytes)). lift {S = redis.State} invalid_token o x)
          opens)
      ∙ bind_run (now redis) _ x read
      ∙ ap (λ e. (when (ltz e (pos t)) expired_token >>= λ _. pure (claims, sig)) y) expires
      ∙ decided (ltb exp t)
    where
      decided :
          (b : Bool)
          → ◌≡◌ {A = Outcome redis.State (ChallengeClaims × Bytes)}
              ((when b expired_token >>= λ _. pure (claims, sig)) y)
              (if b then err expired_token y else ok (claims, sig) y)
      decided true = refl
      decided false = refl

  -- A challenge created after the epoch with a time to live of a millisecond or more is verified,
  -- with the parameters and the scope of the policy and its overrides, at every reading of the
  -- clock up to its expiry, and refused as expired at every later one.
  pub verify-create_challenge :
      (override : Option ChallengeConfig) (w v x y : World redis.State) (r : ChallengeResponse)
      (t : ℕ)
      → 1 ≤ w.time
      → 1 ≤ to_milliseconds (ttl_of cap override)
      → create_challenge codecs cap redis override w ≡ ok r v
      → now redis x ≡ ok t y
      → (claims : ChallengeClaims) × (sig : Bytes) × (claims.scope ≡ scope_of cap override)
        × (record { c = claims.count; s = claims.size; d = claims.difficulty }
            ≡ params_of cap override)
        × (verify_challenge codecs cap redis r.token x
            ≡ (if ltb r.expires t then err expired_token y else ok (claims, sig) y))
  unfolding claims_of response_of
  verify-create_challenge override w v x y r t started lives created read =
      let (nonce, payload, t', hex, later, valid, encoded, same_r) =
        create_ok override w v r created in
      let claims = claims_of override nonce t' in
      let opens = open-signed_token codecs cap claims payload encoded (
        claims_of-IsWellFormed override nonce t' hex (omega (arith, later, started)) lives valid) in
      subst
        (λ (q : ChallengeResponse).
          (claims : ChallengeClaims) × (sig : Bytes) × (claims.scope ≡ scope_of cap override)
          × (record { c = claims.count; s = claims.size; d = claims.difficulty }
              ≡ params_of cap override)
          × (verify_challenge codecs cap redis q.token x
              ≡ (if ltb q.expires t then err expired_token y else ok (claims, sig) y)))
        same_r
        (
          claims,
          encode_hex (mac_of codecs cap payload),
          refl,
          refl,
          verify_opened _ claims _ _ x y t refl opens read,
        )
