-- ===== src/Cap/Replay.antt =====
-- security/cap/cap.go: properties of the clock and of Redis that an exchange of a proof keeps.
use servora_platform.Common.{
  ℕ, zero, suc, ◌+◌, ◌≡◌, ◌≢◌, false, List, [], ◌∷◌, ◌++◌, Option, none, some, is_some, arith,
  Bool-cases, inl, inr,
}
use servora_platform.Cap.Bytes.{Bytes, ℤ, same}
use servora_platform.Cap.Service.{
  ChallengeClaims, Redis, Codecs, Cap, Outcome, ok, err, M, when, after, expired_token,
}
use servora_platform.Cap.Keeps.{
  Keeps, Keeps-bind, Keeps-seq, Keeps-pure, Keeps-raise, Keeps-when, Keeps-lift, Keeps-if,
  Keeps-random_hex, Keeps-now, Keeps-run_script,
}
use servora_platform.Cap.Challenge.{verify_challenge, to_milliseconds}
use servora_platform.Cap.Tokens.{token_key}
use servora_platform.Cap.Redeem
use servora_platform.Cap.Redeem.{
  RedeemResponse, failed, success, Message, Issue, replayed, collision, issued, too_short,
  write_keys, challenge_invalid_or_expired, invalid_body, invalid_solution, nonce_key, issue,
  answer_issue, issue_token, redeem_proof, redeem_claims, redeem_challenge_with_scope,
  valid_solutions,
}

prefix_differs : (p a b : Bytes) {x y : ℕ} → x ≢ y → p ++ x ∷ a ≢ p ++ y ∷ b
prefix_differs [] a b differ e = differ (cc)
prefix_differs (c ∷ p) a b differ e = prefix_differs p a b differ (tail_eq e)
  where
    tail_eq : {c : ℕ} {xs ys : Bytes} → ◌≡◌ {A = Bytes} (c ∷ xs) (c ∷ ys) → xs ≡ ys
    tail_eq h = cc

module _ (codecs : Codecs) (cap : Cap) (redis : Redis) where
  pub nonce-ne-token :
      (sig id secret : Bytes) → nonce_key codecs cap sig ≢ token_key codecs cap id secret
  unfolding nonce_key token_key
  nonce-ne-token sig id secret = prefix_differs cap.key_prefix _ _ (omega arith)

  -- What a call keeps of the state of Redis and of the clock.
  module _ (H : ℕ → redis.State → Type 0)
      (ticks : (t d : ℕ) (s : redis.State) → H t s → H (t + d) (redis.pass d s))
      (writes_nonce : (sig : Bytes) (n t : ℕ) (s : redis.State)
        → is_some (redis.get (nonce_key codecs cap sig) s) ≡ false
        → H t s
        → H t (redis.psetex (nonce_key codecs cap sig) n (49 ∷ []) s))
      (writes_token : (id secret : Bytes) (m : ℕ) (scope : Bytes) (t : ℕ) (s : redis.State)
        → H t s
        → H t (redis.psetex (token_key codecs cap id secret) m scope s)) where
    Keeps-write_keys :
        (sig id secret : Bytes) (n m : ℕ) (scope : Bytes) (t : ℕ) (s : redis.State)
        → is_some (redis.get (nonce_key codecs cap sig) s) ≡ false
        → H t s
        → H t
            (write_keys codecs cap redis
              (nonce_key codecs cap sig)
              (token_key codecs cap id secret)
              n
              m
              scope
              s).1
    unfolding write_keys
    Keeps-write_keys sig id secret zero m scope t s fresh h = h
    Keeps-write_keys sig id secret (suc n) zero scope t s fresh h =
        writes_nonce sig (suc n) t s fresh h
    Keeps-write_keys sig id secret (suc n) (suc m) scope t s fresh h =
        writes_token id secret (suc m) scope t _ (writes_nonce sig (suc n) t s fresh h)

    Keeps-issue :
        (sig id secret : Bytes) (n m : ℕ) (scope : Bytes) (t : ℕ) (s : redis.State)
        → H t s
        → H t
            (issue codecs cap redis
              (nonce_key codecs cap sig)
              (token_key codecs cap id secret)
              n
              m
              scope
              s).1
    unfolding issue
    Keeps-issue sig id secret n m scope t s h =
        elim (Bool-cases (is_some (redis.get (nonce_key codecs cap sig) s))) [
          | inl e ↦ rw e h
          | inr e ↦ elim (Bool-cases (is_some (redis.get (token_key codecs cap id secret) s))) [
            | inl e' ↦ rw (e, e') h
            | inr e' ↦ rw (e, e') (Keeps-write_keys sig id secret n m scope t s e h)
          ]
        ]

    Keeps-answer :
        (id secret : Bytes) (claims : ChallengeClaims) (again : M redis.State RedeemResponse)
        (result : Issue)
        → Keeps H again
        → Keeps H (answer_issue codecs cap redis id secret claims again result)
    unfolding answer_issue
    Keeps-answer id secret claims again replayed k = Keeps-pure _
    Keeps-answer id secret claims again collision k = k
    Keeps-answer id secret claims again too_short k = Keeps-raise _
    Keeps-answer id secret claims again issued k =
        Keeps-bind _ _ (Keeps-now redis H ticks) (λ t. Keeps-pure _)

    pub Keeps-issue_token :
        (attempts : ℕ) (claims : ChallengeClaims) (sig : Bytes) (ttl : ℕ)
        → Keeps H (issue_token codecs cap redis attempts claims sig ttl)
    unfolding issue_token
    Keeps-issue_token zero claims sig ttl = Keeps-raise _
    Keeps-issue_token (suc n) claims sig ttl = Keeps-bind _ _ (Keeps-random_hex 15) λ secret.
        Keeps-bind _ _ (Keeps-random_hex 8) λ id.
          Keeps-bind _ _
            (Keeps-run_script redis H _
              (Keeps-issue sig id secret ttl (to_milliseconds cap.token_ttl) claims.scope))
            (λ result. Keeps-answer id secret claims _ result (Keeps-issue_token n claims sig ttl))

    Keeps-redeem_proof :
        (claims : ChallengeClaims) (sig : Bytes)
        → Keeps H (redeem_proof codecs cap redis claims sig)
    unfolding redeem_proof
    Keeps-redeem_proof claims sig =
        Keeps-bind _ _ (Keeps-now redis H ticks)
          (λ t. Keeps-if _ _ _ (Keeps-issue_token 3 claims sig _) (Keeps-pure _))

    Keeps-answer_check :
        (m : M redis.State RedeemResponse) (o : Option Message)
        → Keeps H m
        → Keeps H (Redeem.answer_check codecs cap redis m o)
    Keeps-answer_check m none k = k
    Keeps-answer_check m (some x) k = Keeps-pure _

    pub Keeps-redeem_claims :
        (token : Bytes) (solutions : List ℤ) (scope : Bytes) (opened : ChallengeClaims × Bytes)
        → Keeps H (redeem_claims codecs cap redis token solutions scope opened)
    unfolding redeem_claims
    Keeps-redeem_claims token solutions scope (claims, sig) =
        Keeps-answer_check _ _ (Keeps-redeem_proof claims sig)

    pub Keeps-verify : (token : Bytes) → Keeps H (verify_challenge codecs cap redis token)
    unfolding verify_challenge
    Keeps-verify token = Keeps-bind _ _ (Keeps-lift _ _) λ opened.
        Keeps-bind _ _ (Keeps-now redis H ticks)
          (λ t. Keeps-seq (when _ expired_token) _ (Keeps-when _ _) (Keeps-pure _))

    pub Keeps-redeem :
        (token : Bytes) (solutions : Option (List ℤ)) (scope : Bytes)
        → Keeps H (redeem_challenge_with_scope codecs cap redis token solutions scope)
    unfolding redeem_challenge_with_scope
    Keeps-redeem token none scope = record { at = λ w h. h }
    Keeps-redeem token (some solutions) scope = record {
      at = λ w h. elim (Bool-cases (same token [])) [
        | inl e ↦ rw e h
        | inr e ↦
            rw e (
              failed_after (verify_challenge codecs cap redis token w)
                ((Keeps-verify token).at w h))
      ];
    }
      where
        failed_after :
            (o : Outcome redis.State (ChallengeClaims × Bytes))
            → H (after o).time (after o).store
            → H
                (after (
                  Redeem.or_failed codecs cap redis
                    (redeem_claims codecs cap redis token solutions scope)
                    o)).time
                (after (
                  Redeem.or_failed codecs cap redis
                    (redeem_claims codecs cap redis token solutions scope)
                    o)).store
        failed_after (ok opened w) h = (Keeps-redeem_claims token solutions scope opened).at w h
        failed_after (err e w) h = h
