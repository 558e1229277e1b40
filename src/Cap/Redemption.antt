-- ===== src/Cap/Redemption.antt =====
-- security/cap/cap.go: the exchange of one challenge, before and after it succeeded.
use servora_platform.Common.{
  ℕ, ◌≤◌, ◌<◌, ◌≡◌, refl, sym, ap, ◌∙◌, subst, Bool, true, false, List, [], Option, none, some,
  arith, if◌then◌else◌, Bool-cases, inl, inr, ◌⊎◌,
}
use servora_platform.Cap.Bytes.{Bytes, ℤ, pos, ltz, ◌-ℤ◌, same, milliseconds}
use servora_platform.Cap.Service.{
  ChallengeClaims, Redis, Codecs, Cap, World, Outcome, ok, err, M, pure, now, when, lift,
  invalid_token, expired_token,
}
use servora_platform.Cap.Keeps.{Keeps-now, Keeps-if, Keeps-pure}
use servora_platform.Cap.Laws.{bind_ok, lift_ok, now_ok}
use servora_platform.Cap.Challenge.{open_token, verify_challenge, to_milliseconds}
use servora_platform.Cap.Redeem
use servora_platform.Cap.Redeem.{
  RedeemResponse, failed, success, Message, check_proof, issue_token, redeem_proof, redeem_claims,
  redeem_challenge_with_scope,
}
use servora_platform.Cap.Replay.{Keeps-issue_token, Keeps-verify}
use servora_platform.Cap.Calls.{Call, run, Keeps-run}
use servora_platform.Cap.Once.{
  is_success, far, remaining_positive, remaining_some, Keeps-ok, Guards, Guards-pass, Guards-nonce,
  Guards-token, Guards-delete, issue_token_ok, issue_token_refused,
}

module _ (codecs : Codecs) (cap : Cap) (redis : Redis) where
  verify_ok :
      (token : Bytes) (w : World redis.State) {v : World redis.State}
      {opened : ChallengeClaims × Bytes}
      → verify_challenge codecs cap redis token w ≡ ok opened v
      → open_token codecs cap token ≡ some opened
  unfolding verify_challenge
  verify_ok token w h =
      let (o, u, first, rest) = bind_ok (lift invalid_token (open_token codecs cap token)) _ w h in
      let (t, x, read, last) = bind_ok (now redis) _ u rest in
      let (_, y, checked, end) =
        bind_ok (when (ltz o.0.expires (pos t)) expired_token) (λ _. pure o) x last in
      (lift_ok invalid_token (open_token codecs cap token) w first).0 ∙ ap some (opened_eq end)
    where
      opened_eq :
          {a b : ChallengeClaims × Bytes} {u v : World redis.State}
          → ◌≡◌ {A = Outcome redis.State (ChallengeClaims × Bytes)} (ok a u) (ok b v)
          → a ≡ b
      opened_eq e = cc

  Passed : Bytes → World redis.State → RedeemResponse → World redis.State → Type 0
  Passed token w r v =
      (opened : ChallengeClaims × Bytes) × (u : World redis.State) × (verify_challenge codecs cap
          redis token w
        ≡ ok opened u)
      × (redeem_proof codecs cap redis opened.0 opened.1 u ≡ ok r v)

  module _ (token : Bytes) where
    checked_cases :
        (proceed : M redis.State RedeemResponse) (o : Option Message) (u : World redis.State)
        {v : World redis.State} {r : RedeemResponse}
        → Redeem.answer_check codecs cap redis proceed o u ≡ ok r v
        → (is_success r ≡ false) ⊎ (proceed u ≡ ok r v)
    unfolding is_success
    checked_cases proceed none u h = inr h
    checked_cases proceed (some m) u h = inl (cc)

    verified_cases :
        (solutions : List ℤ) (scope : Bytes) (w : World redis.State)
        (o : Outcome redis.State (ChallengeClaims × Bytes)) {v : World redis.State}
        {r : RedeemResponse}
        → verify_challenge codecs cap redis token w ≡ o
        → Redeem.or_failed codecs cap redis (redeem_claims codecs cap redis token solutions scope) o
          ≡ ok r v
        → (is_success r ≡ false) ⊎ Passed token w r v
    unfolding is_success redeem_claims Passed
    verified_cases solutions scope w (err e u) q h = inl (cc)
    verified_cases solutions scope w (ok (claims, sig) u) q h =
        elim (checked_cases _ (check_proof codecs cap token solutions scope claims) u h) [
          | inl off ↦ inl off
          | inr on ↦ inr ((claims, sig), u, q, on)
        ]

    redeem_cases :
        (solutions : Option (List ℤ)) (scope : Bytes) (w : World redis.State)
        {v : World redis.State} {r : RedeemResponse}
        → redeem_challenge_with_scope codecs cap redis token solutions scope w ≡ ok r v
        → (is_success r ≡ false) ⊎ Passed token w r v
    unfolding redeem_challenge_with_scope is_success
    redeem_cases none scope w h = inl (cc)
    redeem_cases (some solutions) scope w h = elim (Bool-cases (same token [])) [
      | inl e ↦ inl (empty (rw e at h))
      | inr e ↦ verified_cases solutions scope w _ refl (rw e at h)
    ]
      where
        empty :
            {r : RedeemResponse} {v : World redis.State} {m : Message}
            → ◌≡◌ {A = Outcome redis.State RedeemResponse} (ok (failed m) w) (ok r v)
            → is_success r ≡ false
        empty e = cc

  module _ (claims : ChallengeClaims) (sig : Bytes) (exp : ℕ)
      (expires : claims.expires ≡ pos exp) where
    rest_of : ℤ → ℕ → M redis.State RedeemResponse
    rest_of e t =
        let left = milliseconds (e -ℤ pos t) in
        if ltz (pos 0) left
        then issue_token codecs cap redis 3 claims sig (to_milliseconds left)
        else pure (failed Redeem.challenge_invalid_or_expired)

    proof_parts :
        (w : World redis.State) {v : World redis.State} {r : RedeemResponse}
        → redeem_proof codecs cap redis claims sig w ≡ ok r v
        → (t : ℕ) × (u : World redis.State) × (now redis w ≡ ok t u)
          × (u.time ≡ t)
          × (rest_of (pos exp) t u ≡ ok r v)
    unfolding redeem_proof rest_of
    proof_parts w {v} {r} h =
        let (t, u, read, rest) = bind_ok (now redis) _ w h in
        (t, u, read, now_ok redis w read, subst (λ e. rest_of e t u ≡ ok r v) expires rest)

    rest_cases :
        (t ttl : ℕ) (b : Bool) (u : World redis.State) {v : World redis.State} {r : RedeemResponse}
        → (if b
              then issue_token codecs cap redis 3 claims sig ttl
              else pure (failed Redeem.challenge_invalid_or_expired))
            u
          ≡ ok r v
        → (is_success r ≡ false)
          ⊎ ((b ≡ true) × (issue_token codecs cap redis 3 claims sig ttl u ≡ ok r v))
    unfolding is_success
    rest_cases t ttl true u h = inr (refl, h)
    rest_cases t ttl false u h = inl (cc)

    clash : {b : Bool} → b ≡ true → b ≡ false → ⊥
    clash e f = cc

    rest_ok :
        (t : ℕ) (u : World redis.State) {v : World redis.State} {r : RedeemResponse}
        → exp < far
        → u.time ≡ t
        → rest_of (pos exp) t u ≡ ok r v
        → is_success r ≡ true
        → Guards codecs cap redis sig exp v.time v.store
    unfolding rest_of
    rest_ok t u near at_t h good = elim (rest_cases t _ _ u h) [
      | inl bad ↦ absurd (clash good bad)
      | inr (_, went) ↦
          issue_token_ok codecs cap redis sig exp claims _ 3 u
            (omega (arith, at_t, remaining_positive exp t near)) went good
    ]

    proof_ok :
        (w : World redis.State) {v : World redis.State} {r : RedeemResponse}
        → exp < far
        → redeem_proof codecs cap redis claims sig w ≡ ok r v
        → is_success r ≡ true
        → Guards codecs cap redis sig exp v.time v.store
    proof_ok w near h good =
        let (t, u, read, at_t, rest) = proof_parts w h in rest_ok t u near at_t rest good

    rest_refused :
        (t : ℕ) (u : World redis.State) {v : World redis.State} {r : RedeemResponse}
        → t < far
        → u.time ≡ t
        → Guards codecs cap redis sig exp u.time u.store
        → rest_of (pos exp) t u ≡ ok r v
        → is_success r ≡ false
    unfolding rest_of
    rest_refused t u near at_t guarded h = elim (rest_cases t _ _ u h) [
      | inl bad ↦ bad
      | inr (positive, went) ↦
          issue_token_refused codecs cap redis sig exp claims _ 3 u
            (omega (arith, at_t, remaining_some exp t near positive)) guarded went
    ]

    rest-monotone :
        (t : ℕ) (u : World redis.State) {v : World redis.State} {r : RedeemResponse}
        → rest_of (pos exp) t u ≡ ok r v
        → u.time ≤ v.time
    unfolding rest_of
    rest-monotone t u h =
        Keeps-ok {H = λ x s. u.time ≤ x}
          (Keeps-if _ _ _
            (Keeps-issue_token codecs cap redis _ (λ x d s le. omega (arith, le))
              (λ _ _ _ _ _ le. le) (λ _ _ _ _ _ _ le. le) 3 claims sig _)
            (Keeps-pure _))
          u (omega arith) h

    proof_refused :
        (w : World redis.State) {v : World redis.State} {r : RedeemResponse}
        → v.time < far
        → Guards codecs cap redis sig exp w.time w.store
        → redeem_proof codecs cap redis claims sig w ≡ ok r v
        → is_success r ≡ false
    proof_refused w near guarded h =
        let (t, u, read, at_t, rest) = proof_parts w h in
        rest_refused t u (omega (arith, rest-monotone t u rest, at_t, near)) at_t
          (Keeps-ok {H = Guards codecs cap redis sig exp}
            (Keeps-now redis _ (Guards-pass codecs cap redis sig exp)) w guarded read)
          rest

  -- The exchange that passed the checks is of the claims that the token opens to.
  Passed-proof :
      (token : Bytes) (claims : ChallengeClaims) (sig : Bytes) (w v : World redis.State)
      (r : RedeemResponse)
      → open_token codecs cap token ≡ some (claims, sig)
      → Passed token w r v
      → (u : World redis.State) × (verify_challenge codecs cap redis token w ≡ ok (claims, sig) u)
        × (redeem_proof codecs cap redis claims sig u ≡ ok r v)
  unfolding Passed
  Passed-proof token claims sig w v r opens (opened, u, verified, proof) =
      let same_opened = opened_eq (sym (verify_ok token w verified) ∙ opens) in
      (
        u,
        subst (λ o. verify_challenge codecs cap redis token w ≡ ok o u) same_opened verified,
        subst (λ (o : ChallengeClaims × Bytes). redeem_proof codecs cap redis o.0 o.1 u ≡ ok r v)
            same_opened proof,
      )
    where
      opened_eq :
          {a b : ChallengeClaims × Bytes}
          → ◌≡◌ {A = Option (ChallengeClaims × Bytes)} (some a) (some b)
          → a ≡ b
      opened_eq e = cc

  -- A challenge that expires before the year 2248, once exchanged for a verification token, is never
  -- exchanged again by any call that ends before that year, whatever calls come between.
  pub redeem_challenge_once :
      (token : Bytes) (claims : ChallengeClaims) (sig : Bytes) (exp : ℕ)
      (solutions solutions' : Option (List ℤ)) (scope scope' : Bytes) (between : List Call)
      (w v x : World redis.State) {first later : RedeemResponse}
      → open_token codecs cap token ≡ some (claims, sig)
      → claims.expires ≡ pos exp
      → exp < far
      → redeem_challenge_with_scope codecs cap redis token solutions scope w ≡ ok first v
      → is_success first ≡ true
      → redeem_challenge_with_scope codecs cap redis token solutions' scope'
          (run codecs cap redis between v)
        ≡ ok later x
      → x.time < far
      → is_success later ≡ false
  redeem_challenge_once token claims sig exp solutions solutions' scope scope' between w v x {first}
        {later} opens expires near returned good again late =
      elim (redeem_cases token solutions scope w returned) [
        | inl bad ↦ absurd (clash good bad)
        | inr passed ↦
            let (u, _, proof) = Passed-proof token claims sig w v first opens passed in
            elim (redeem_cases token solutions' scope' (run codecs cap redis between v) again) [
              | inl bad ↦ bad
              | inr passed' ↦
                  let (u', verified, proof') =
                    Passed-proof token claims sig _ x later opens passed' in
                  proof_refused claims sig exp expires u' late
                    (Keeps-ok {H = Guards codecs cap redis sig exp}
                      (Keeps-verify codecs cap redis _ (Guards-pass codecs cap redis sig exp)
                        (Guards-nonce codecs cap redis sig exp)
                        (Guards-token codecs cap redis sig exp) token)
                      (run codecs cap redis between v)
                      (Keeps-run codecs cap redis (Guards codecs cap redis sig exp)
                        (Guards-pass codecs cap redis sig exp)
                        (Guards-nonce codecs cap redis sig exp)
                        (Guards-token codecs cap redis sig exp)
                        (Guards-delete codecs cap redis sig exp) between v
                        (proof_ok claims sig exp expires u near proof good))
                      verified)
                    proof'
            ]
      ]
    where
      clash : {b : Bool} → b ≡ true → b ≡ false → ⊥
      clash e f = cc
