-- ===== src/Cap/Redeem.antt =====
-- security/cap/cap.go: a proof of work and its exchange for a verification token.
use servora_platform.Common.{
  ℕ, zero, suc, ◌+◌, Bool, true, false, not, ◌&&◌, ◌||◌, List, [], ◌∷◌, ◌++◌, Option, none, some,
  is_some, length, eqb, if◌then◌else◌,
}
use servora_platform.Cap.Bytes.{Bytes, ℤ, pos, negsuc, ltz, ◌-ℤ◌, same, itoa, milliseconds, to_nat}
use servora_platform.Cap.Prng.{fnv1a, fnv1a_resume, prng_from_hash}
use servora_platform.Cap.Hex.{matches_hex_prefix}
use servora_platform.Cap.Service.{
  ChallengeClaims, Redis, Codecs, Cap, Outcome, ok, err, M, ◌>>=◌, pure, raise, random_hex, now,
  run_script, redis_failed, token_collision,
}
use servora_platform.Cap.Challenge.{to_milliseconds, verify_challenge}
use servora_platform.Cap.Tokens.{token_key}

-- "Invalid body", "Challenge invalid or expired" and "Invalid solution".
pub data Message : Type 0 where
  invalid_body challenge_invalid_or_expired invalid_solution : Message

pub data RedeemResponse : Type 0 where
  failed : Message → RedeemResponse
  -- the token, its expiry, its scope and when the challenge was issued
  success : Bytes → ℕ → Bytes → ℤ → RedeemResponse

-- The results 0, -1 and 1 of issueVerificationScript, and its end by an error of PSETEX, which refuses
-- to set a key for no time.
pub data Issue : Type 0 where
  replayed collision issued too_short : Issue

abbrev same_count : ℤ → ℕ → Bool
same_count (pos n) m = eqb n m
same_count (negsuc n) m = false

module _ (codecs : Codecs) (cap : Cap) where
  -- One solution, of the challenge at an index counted from 1.
  unfoldable pub valid_solution : ℕ → ChallengeClaims → ℕ → ℤ → Bool
  valid_solution token_hash claims index (negsuc n) = false
  valid_solution token_hash claims index (pos n) =
      let salt_hash = fnv1a_resume token_hash (itoa index) in
      let salt = prng_from_hash salt_hash (to_nat claims.size) in
      let target = prng_from_hash (fnv1a_resume salt_hash (100 ∷ [])) (to_nat claims.difficulty) in
      matches_hex_prefix (codecs.sha256 (salt ++ itoa n)) target

  unfoldable pub valid_from : ℕ → ChallengeClaims → ℕ → List ℤ → Bool
  valid_from token_hash claims index [] = true
  valid_from token_hash claims index (s ∷ ss) =
      valid_solution token_hash claims (suc index) s && valid_from token_hash claims (suc index) ss

  unfoldable pub valid_solutions : Bytes → ChallengeClaims → List ℤ → Bool
  valid_solutions token claims solutions = valid_from (fnv1a token) claims 0 solutions

  -- The checks on a token that verified: none lets it pass.
  unfoldable pub check_proof : Bytes → List ℤ → Bytes → ChallengeClaims → Option Message
  check_proof token solutions expected_scope claims =
      if not (same expected_scope []) && not (same claims.scope expected_scope)
      then some challenge_invalid_or_expired
      else (if not (same_count claims.count (length solutions))
            || not (valid_solutions token claims solutions)
          then some invalid_solution
          else none)

  unfoldable pub nonce_key : Bytes → Bytes
  nonce_key signature_hex = cap.key_prefix ++ 110 ∷ 111 ∷ 110 ∷ 99 ∷ 101 ∷ 58 ∷ signature_hex

  module _ (redis : Redis) where
    -- The two writes of issueVerificationScript; what was written before an error stays.
    unfoldable pub write_keys : Bytes → Bytes → ℕ → ℕ → Bytes → redis.State → Issue × redis.State
    write_keys nonce token zero token_ttl scope s = (too_short, s)
    write_keys nonce token (suc n) zero scope s =
        (too_short, redis.psetex nonce (suc n) (49 ∷ []) s)
    write_keys nonce token (suc n) (suc m) scope s =
        (issued, redis.psetex token (suc m) scope (redis.psetex nonce (suc n) (49 ∷ []) s))

    -- issueVerificationScript.
    unfoldable pub issue : Bytes → Bytes → ℕ → ℕ → Bytes → redis.State → Issue × redis.State
    issue nonce token nonce_ttl token_ttl scope s =
        if is_some (redis.get nonce s)
        then (replayed, s)
        else (if is_some (redis.get token s)
            then (collision, s)
            else write_keys nonce token nonce_ttl token_ttl scope s)

    -- The switch on the script's result, with the next attempt.
    unfoldable pub answer_issue :
        Bytes
        → Bytes
        → ChallengeClaims
        → M redis.State RedeemResponse
        → Issue
        → M redis.State RedeemResponse
    answer_issue id secret claims again replayed = pure (failed challenge_invalid_or_expired)
    answer_issue id secret claims again collision = again
    answer_issue id secret claims again too_short = raise redis_failed
    answer_issue id secret claims again issued = do
      t ← now redis
      pure (
          success (id ++ 58 ∷ secret) (t + to_milliseconds cap.token_ttl) claims.scope
            claims.issued_at)

    -- The loop over the attempts left.
    unfoldable pub issue_token : ℕ → ChallengeClaims → Bytes → ℕ → M redis.State RedeemResponse
    issue_token zero claims signature_hex ttl = raise token_collision
    issue_token (suc attempts) claims signature_hex ttl = do
      secret ← random_hex 15
      id ← random_hex 8
      result ← run_script redis (
          issue (nonce_key signature_hex) (token_key codecs cap id secret) ttl
            (to_milliseconds cap.token_ttl) claims.scope)
      answer_issue id secret claims (issue_token attempts claims signature_hex ttl) result

    -- What follows a valid proof.
    unfoldable pub redeem_proof : ChallengeClaims → Bytes → M redis.State RedeemResponse
    redeem_proof claims signature_hex = do
      t ← now redis
      let remaining = milliseconds (claims.expires -ℤ pos t)
      if ltz (pos 0) remaining
          then issue_token 3 claims signature_hex (to_milliseconds remaining)
          else pure (failed challenge_invalid_or_expired)

    abbrev pub answer_check :
        M redis.State RedeemResponse → Option Message → M redis.State RedeemResponse
    answer_check proceed none = proceed
    answer_check proceed (some m) = pure (failed m)

    unfoldable pub redeem_claims :
        Bytes → List ℤ → Bytes → ChallengeClaims × Bytes → M redis.State RedeemResponse
    redeem_claims token solutions expected_scope (claims, signature_hex) =
        answer_check (redeem_proof claims signature_hex)
          (check_proof token solutions expected_scope claims)

    abbrev pub or_failed :
        (ChallengeClaims × Bytes → M redis.State RedeemResponse)
        → Outcome redis.State (ChallengeClaims × Bytes)
        → Outcome redis.State RedeemResponse
    or_failed f (ok o w) = f o w
    or_failed f (err e w) = ok (failed challenge_invalid_or_expired) w

    -- `RedeemChallengeWithScope`; none is a null list of solutions.
    unfoldable pub redeem_challenge_with_scope :
        Bytes → Option (List ℤ) → Bytes → M redis.State RedeemResponse
    redeem_challenge_with_scope token none expected_scope w = ok (failed invalid_body) w
    redeem_challenge_with_scope token (some solutions) expected_scope w =
        if same token []
        then ok (failed invalid_body) w
        else or_failed (redeem_claims token solutions expected_scope)
            (verify_challenge codecs cap redis token w)

    unfoldable pub redeem_challenge : Bytes → Option (List ℤ) → M redis.State RedeemResponse
    redeem_challenge token solutions = redeem_challenge_with_scope token solutions cap.default_scope
