-- ===== src/Cap/Once.antt =====
-- security/cap/cap.go: a challenge is redeemed at most once.
use servora_platform.Common.{
  ℕ, zero, suc, ◌+◌, ◌-◌, ◌*◌, ◌/◌, ◌^◌, ◌≤◌, ◌<◌, ◌≡◌, ◌≢◌, refl, sym, ap, ◌∙◌, subst, Bool, true,
  false, [], ◌∷◌, is_some, arith, ltb, ltb→lt, if◌then◌else◌, Bool-cases, inl, inr,
}
use servora_platform.Cap.Bytes.{
  Bytes, pos, ltz, ◌-ℤ◌, same, same_refl, same-≡, milliseconds, signed64,
}
use servora_platform.Cap.Service.{
  ChallengeClaims, Redis, Codecs, Cap, World, ok, M, random_hex, run_script,
}
use servora_platform.Cap.Keeps.{Keeps, Keeps-bind, Keeps-pure, Keeps-random_hex, Keeps-now}
use servora_platform.Cap.Laws.{bind_ok, run_script_ok}
use servora_platform.Cap.Challenge.{to_milliseconds}
use servora_platform.Cap.Tokens.{token_key}
use servora_platform.Cap.Redeem.{
  RedeemResponse, failed, success, Issue, replayed, collision, issued, too_short, write_keys,
  nonce_key, issue, answer_issue, issue_token,
}
use servora_platform.Cap.Replay.{nonce-ne-token}

unfoldable pub is_success : RedeemResponse → Bool
is_success (failed m) = false
is_success (success t e s i) = true

-- The years up to 2248 in milliseconds, for which nanoseconds fit an int64.
abbrev pub far : ℕ
far = 2 ^ 43

milliseconds_small : (n : ℕ) → n < far → milliseconds (pos n) ≡ pos (n * 10 ^ 6)
unfolding milliseconds signed64
milliseconds_small n h = ground arith

whole : (n : ℕ) → n * 10 ^ 6 / 10 ^ 6 ≡ n
whole n = omega arith

remaining_ms :
    (exp t : ℕ)
    → exp < far
    → ltb exp t ≡ false
    → to_milliseconds (milliseconds (pos exp -ℤ pos t)) ≡ exp - t
remaining_ms exp t h e = rw (e, milliseconds_small (exp - t) (omega arith), whole (exp - t))

pub remaining_positive :
    (exp t : ℕ) → exp < far → exp ≤ t + to_milliseconds (milliseconds (pos exp -ℤ pos t))
remaining_positive exp t h = elim (Bool-cases (ltb exp t)) [
  | inl e ↦ omega (arith, ltb→lt exp t e)
  | inr e ↦ omega (arith, remaining_ms exp t h e)
]

pub remaining_some :
    (exp t : ℕ) → t < far → ltz (pos 0) (milliseconds (pos exp -ℤ pos t)) ≡ true → t < exp
unfolding milliseconds signed64
remaining_some exp t h p = ground arith

module _ {S : Type 0} {H : ℕ → S → Type 0} where
  pub Keeps-ok :
      {A : Type 0} {m : M S A}
      → Keeps H m
      → (w : World S) {v : World S} {a : A} → H w.time w.store
      → m w ≡ ok a v
      → H v.time v.store
  Keeps-ok k w h e = rw e at (k.at w h)

module _ (codecs : Codecs) (cap : Cap) (redis : Redis) (sig : Bytes) (exp : ℕ) where
  abbrev key : Bytes
  key = nonce_key codecs cap sig

  -- The nonce of the challenge stays in Redis until the challenge expires.
  abbrev pub Guards : ℕ → redis.State → Type 0
  Guards t s = exp ≤ t + redis.pttl key s

  pub Guards-pass : (t d : ℕ) (s : redis.State) → Guards t s → Guards (t + d) (redis.pass d s)
  Guards-pass t d s h = omega (arith, h, redis.pttl-pass key d s)

  absent :
      (s : redis.State) (n : ℕ) → redis.pttl key s ≡ n → is_some (redis.get key s) ≡ false → n ≡ 0
  absent s zero e h = refl
  absent s (suc n) e h = absurd (clash (redis.get-pttl key n s e) h)
    where
      clash : {b : Bool} → b ≡ true → b ≡ false → ⊥
      clash e f = cc

  pub Guards-token :
      (id secret : Bytes) (m : ℕ) (scope : Bytes) (t : ℕ) (s : redis.State)
      → Guards t s
      → Guards t (redis.psetex (token_key codecs cap id secret) m scope s)
  Guards-token id secret m scope t s h = omega (
    arith,
    h,
    redis.pttl-psetex_other key _ m scope s (nonce-ne-token codecs cap redis sig id secret),
  )

  pub Guards-nonce :
      (sig' : Bytes) (n t : ℕ) (s : redis.State)
      → is_some (redis.get (nonce_key codecs cap sig') s) ≡ false
      → Guards t s
      → Guards t (redis.psetex (nonce_key codecs cap sig') n (49 ∷ []) s)
  Guards-nonce sig' n t s fresh h = elim (Bool-cases (same key (nonce_key codecs cap sig'))) [
    | inl e ↦
        let equal = same-≡ key (nonce_key codecs cap sig') e in
        let gone =
          absent s _ refl (subst (λ k. is_some (redis.get k s) ≡ false) (sym equal) fresh) in
        omega (arith, h, gone)
    | inr e ↦
        let apart =
          redis.pttl-psetex_other key (nonce_key codecs cap sig') n (49 ∷ []) s (differs e) in
        omega (arith, h, apart)
  ]
    where
      differs : {k k' : Bytes} → same k k' ≡ false → k ≢ k'
      differs {k} {k'} e q = clash (same_refl k) (subst (λ x. same k x ≡ false) (sym q) e)
        where
          clash : {b : Bool} → b ≡ true → b ≡ false → ⊥
          clash e f = cc

  pub Guards-delete :
      (id secret : Bytes) (t : ℕ) (s : redis.State)
      → Guards t s
      → Guards t (redis.del (token_key codecs cap id secret) s)
  Guards-delete id secret t s h =
      omega (arith, h, redis.pttl-del_other key _ s (nonce-ne-token codecs cap redis sig id secret))

  issue-guarded :
      (token : Bytes) (n m : ℕ) (scope : Bytes) (t : ℕ) (s : redis.State)
      → is_some (redis.get key s) ≡ true
      → (issue codecs cap redis key token n m scope s).0 ≡ replayed
  unfolding issue
  issue-guarded token n m scope t s h = rw h

  issue-issued :
      (id secret : Bytes) (n m : ℕ) (scope : Bytes) (s s' : redis.State)
      → issue codecs cap redis key (token_key codecs cap id secret) n m scope s ≡ (issued, s')
      → redis.pttl key s' ≡ n
  unfolding issue write_keys
  issue-issued id secret n m scope s s' h = wrote n m (
      reached (is_some (redis.get key s)) (is_some (redis.get (token_key codecs cap id secret) s))
        h)
    where
      reached :
          {o : Issue × redis.State} (b c : Bool)
          → ◌≡◌ {A = Issue × redis.State}
              (if b then (replayed, s) else (if c then (collision, s) else o))
              (issued, s')
          → o ≡ (issued, s')
      reached true c h = cc
      reached false true h = cc
      reached false false h = h

      wrote :
          (n m : ℕ)
          → write_keys codecs cap redis key (token_key codecs cap id secret) n m scope s
            ≡ (issued, s')
          → redis.pttl key s' ≡ n
      wrote zero m h = cc
      wrote (suc n) zero h = cc
      wrote (suc n) (suc m) h =
          subst (λ x. redis.pttl key x ≡ suc n) (ap (λ q. q.1) h)
            (redis.pttl-psetex_other key _ (suc m) scope _
                (nonce-ne-token codecs cap redis sig id secret)
              ∙ redis.pttl-psetex key (suc n) (49 ∷ []) s)

  -- The exchange sets the nonce until the challenge expires.
  module _ (claims : ChallengeClaims) (ttl : ℕ) where
    abbrev Late : ℕ → redis.State → Type 0
    Late t s = exp ≤ t + ttl

    answer_ok :
        (id secret : Bytes) (again : M redis.State RedeemResponse) (result : Issue)
        (w : World redis.State) {v : World redis.State} {r : RedeemResponse}
        → (again w ≡ ok r v → is_success r ≡ true → Guards v.time v.store)
        → (result ≡ issued → Guards w.time w.store)
        → answer_issue codecs cap redis id secret claims again result w ≡ ok r v
        → is_success r ≡ true
        → Guards v.time v.store
    unfolding answer_issue is_success
    answer_ok id secret again replayed w more done h g = cc
    answer_ok id secret again collision w more done h g = more h g
    answer_ok id secret again too_short w more done h g = cc
    answer_ok id secret again issued w more done h g =
        Keeps-ok (Keeps-bind _ _ (Keeps-now redis Guards Guards-pass) (λ t. Keeps-pure _)) w
          (done refl) h

    Late-pass : (t d : ℕ) (s : redis.State) → Late t s → Late (t + d) (redis.pass d s)
    Late-pass t d s h = omega (arith, h)

    pub issue_token_ok :
        (attempts : ℕ) (w : World redis.State) {v : World redis.State} {r : RedeemResponse}
        → Late w.time w.store
        → issue_token codecs cap redis attempts claims sig ttl w ≡ ok r v
        → is_success r ≡ true
        → Guards v.time v.store
    unfolding issue_token
    issue_token_ok zero w late h g = cc
    issue_token_ok (suc n) w late h g =
        let (secret, x, first, rest) = bind_ok (random_hex 15) _ w h in
        let late_x = Keeps-ok {H = Late} (Keeps-random_hex 15) w late first in
        let (id, y, second, rest') = bind_ok (random_hex 8) _ x rest in
        let late_y = Keeps-ok {H = Late} (Keeps-random_hex 8) x late_x second in
        let (result, z, script, last) = bind_ok (run_script redis _) _ y rest' in
        let (ran, when_ran) = run_script_ok redis _ y script in
        let late_z : Late z.time z.store = omega (arith, late_y, when_ran) in
        answer_ok id secret _ result z (λ again. issue_token_ok n z late_z again)
          (λ e. omega (
            arith,
            late_z,
            issue-issued id secret ttl (to_milliseconds cap.token_ttl) claims.scope y.store z.store
                (ran ∙ ap (λ q. (q, z.store)) e),
          ))
          last g

    -- Where the nonce stands, the exchange is refused.
    pub issue_token_refused :
        (attempts : ℕ) (w : World redis.State) {v : World redis.State} {r : RedeemResponse}
        → w.time < exp
        → Guards w.time w.store
        → issue_token codecs cap redis attempts claims sig ttl w ≡ ok r v
        → is_success r ≡ false
    unfolding issue_token answer_issue is_success
    issue_token_refused zero w early guarded h = cc
    issue_token_refused (suc n) w early guarded h =
        let (secret, x, first, rest) = bind_ok (random_hex 15) _ w h in
        let held = Keeps-ok {H = Held} (Keeps-random_hex 15) w (early, guarded) first in
        let (id, y, second, rest') = bind_ok (random_hex 8) _ x rest in
        let held' = Keeps-ok {H = Held} (Keeps-random_hex 8) x held second in
        let (result, z, script, last) = bind_ok (run_script redis _) _ y rest' in
        let (ran, when_ran) = run_script_ok redis _ y script in
        let present = here y.time y.store (redis.pttl key y.store) held'.0 refl held'.1 in
        refused id secret _ result z
          (sym (ap (λ q. q.0) ran)
            ∙ issue-guarded (token_key codecs cap id secret) ttl (to_milliseconds cap.token_ttl)
                claims.scope y.time y.store present)
          last
      where
        Held : ℕ → redis.State → Type 0
        Held t s = (t < exp) × Guards t s

        here :
            (t : ℕ) (s : redis.State) (n : ℕ)
            → t < exp
            → redis.pttl key s ≡ n
            → Guards t s
            → is_some (redis.get key s) ≡ true
        here t s zero lt e g = absurd (omega (arith, lt, e, g))
        here t s (suc n) lt e g = redis.get-pttl key n s e

        refused :
            (id secret : Bytes) (again : M redis.State RedeemResponse) (result : Issue)
            (z : World redis.State) {v : World redis.State} {r : RedeemResponse}
            → result ≡ replayed
            → answer_issue codecs cap redis id secret claims again result z ≡ ok r v
            → is_success r ≡ false
        refused id secret again replayed z e h = cc
        refused id secret again collision z e h = cc
        refused id secret again too_short z e h = cc
        refused id secret again issued z e h = cc
