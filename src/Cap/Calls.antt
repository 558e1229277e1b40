-- ===== src/Cap/Calls.antt =====
-- security/cap/cap.go: the calls on the service, one after another, and what they keep.
use servora_platform.Common.{
  ℕ, ◌+◌, ◌≡◌, refl, subst, Bool, true, false, not, ◌||◌, List, [], ◌∷◌, Option, none, some,
  is_some, if◌then◌else◌, Bool-cases, inl, inr,
}
use servora_platform.Cap.Bytes.{Bytes, ℤ, same, cut, contains_byte}
use servora_platform.Cap.Hex.{is_lower_hex}
use servora_platform.Cap.Service.{
  Redis, Codecs, Cap, World, M, ◌>>=◌, pure, after, run_script, when, invalid_params,
  expiration_not_positive,
}
use servora_platform.Cap.Keeps.{
  Keeps, Keeps-bind, Keeps-seq, Keeps-pure, Keeps-when, Keeps-lift, Keeps-now, Keeps-random_hex,
  Keeps-run_script,
}
use servora_platform.Cap.Challenge.{ChallengeConfig, create_challenge}
use servora_platform.Cap.Tokens
use servora_platform.Cap.Tokens.{
  token_key, consume, consume_scoped, validate_token, validate_token_with_scope, verification_key,
}
use servora_platform.Cap.Redeem.{nonce_key, redeem_challenge_with_scope}
use servora_platform.Cap.Replay.{Keeps-redeem}

pub data Call : Type 0 where
  creates_challenge : Option ChallengeConfig → Call
  redeems_challenge : Bytes → Option (List ℤ) → Bytes → Call
  validates_token : Bytes → Call
  validates_token_with_scope : Bytes → Bytes → Call

module _ (codecs : Codecs) (cap : Cap) (redis : Redis) where
  unfoldable pub perform : Call → M redis.State (Unit {0})
  perform (creates_challenge o) = do _ ← create_challenge codecs cap redis o; pure tt
  perform (redeems_challenge t s e) = do
    _ ← redeem_challenge_with_scope codecs cap redis t s e
    pure tt
  perform (validates_token t) = do _ ← validate_token codecs cap redis t; pure tt
  perform (validates_token_with_scope t e) = do
    _ ← validate_token_with_scope codecs cap redis t e
    pure tt

  unfoldable pub run : List Call → World redis.State → World redis.State
  run [] w = w
  run (c ∷ cs) w = run cs (after (perform c w))

  key_shape :
      (o : Option (Bytes × Bytes)) {key : Bytes}
      → Tokens.key_of codecs cap o ≡ some key
      → (id : Bytes) × (secret : Bytes) × (token_key codecs cap id secret ≡ key)
  key_shape none h = cc
  key_shape (some (id, secret)) h =
      elim (Bool-cases
        (contains_byte 58 secret || not (is_lower_hex id 16) || not (is_lower_hex secret 30))) [
          | inl e ↦ absurd (off _ e h)
          | inr e ↦ (id, secret, on _ e h)
        ]
    where
      off :
          {b : Bool} (k : Bytes) {key : Bytes}
          → b ≡ true
          → (if b then none else some k) ≡ some key
          → ⊥
      off {b} k e h = cc

      on :
          {b : Bool} (k : Bytes) {key : Bytes}
          → b ≡ false
          → (if b then none else some k) ≡ some key
          → k ≡ key
      on {b} k e h = cc

  module _ (H : ℕ → redis.State → Type 0)
      (ticks : (t d : ℕ) (s : redis.State) → H t s → H (t + d) (redis.pass d s))
      (writes_nonce : (sig : Bytes) (n t : ℕ) (s : redis.State)
        → is_some (redis.get (nonce_key codecs cap sig) s) ≡ false
        → H t s
        → H t (redis.psetex (nonce_key codecs cap sig) n (49 ∷ []) s))
      (writes_token : (id secret : Bytes) (m : ℕ) (scope : Bytes) (t : ℕ) (s : redis.State)
        → H t s
        → H t (redis.psetex (token_key codecs cap id secret) m scope s))
      (deletes : (id secret : Bytes) (t : ℕ) (s : redis.State)
        → H t s
        → H t (redis.del (token_key codecs cap id secret) s)) where
    deletes_key :
        (key : Bytes) (t : ℕ) (s : redis.State) (token : Bytes)
        → verification_key codecs cap token ≡ some key
        → H t s
        → H t (redis.del key s)
    unfolding verification_key
    deletes_key key t s token e h =
        let (id, secret, same_key) = key_shape (cut 58 token) e in
        subst (λ k. H t (redis.del k s)) same_key (deletes id secret t s h)

    Keeps-creates : (o : Option ChallengeConfig) → Keeps H (create_challenge codecs cap redis o)
    unfolding create_challenge
    Keeps-creates o = Keeps-seq (when _ invalid_params) _ (Keeps-when _ _) (
        Keeps-seq (when _ expiration_not_positive) _ (Keeps-when _ _) (
          Keeps-bind _ _ (Keeps-random_hex 25) (λ n.
            Keeps-bind _ _ (Keeps-now redis H ticks)
              (λ t. Keeps-bind _ _ (Keeps-lift _ _) (λ token. Keeps-pure _)))))

    Keeps-consume :
        (token : Bytes) (key : Option Bytes)
        → verification_key codecs cap token ≡ key
        → Keeps H (elim key [
          | none ↦ pure false
          | some k ↦ run_script redis (consume codecs cap redis k)
        ])
    unfolding consume
    Keeps-consume token none e = Keeps-pure _
    Keeps-consume token (some k) e =
        Keeps-run_script redis H _ (λ t s h. found (redis.get k s) t s h)
      where
        found :
            (o : Option Bytes) (t : ℕ) (s : redis.State)
            → H t s
            → H t
                (elim o as (λ _. Bool × redis.State) [
                  | none ↦ (false, s)
                  | some v ↦ (true, redis.del k s)
                ]).1
        found none t s h = h
        found (some v) t s h = deletes_key k t s token e h

    Keeps-consume_scoped :
        (token scope : Bytes) (key : Option Bytes)
        → verification_key codecs cap token ≡ key
        → Keeps H (elim key [
          | none ↦ pure false
          | some k ↦ run_script redis (consume_scoped codecs cap redis k scope)
        ])
    unfolding consume_scoped
    Keeps-consume_scoped token scope none e = Keeps-pure _
    Keeps-consume_scoped token scope (some k) e =
        Keeps-run_script redis H _ (λ t s h. found (redis.get k s) t s h)
      where
        found :
            (o : Option Bytes) (t : ℕ) (s : redis.State)
            → H t s
            → H t
                (elim o as (λ _. Bool × redis.State) [
                  | none ↦ (false, s)
                  | some v ↦ if same v scope then (true, redis.del k s) else (false, s)
                ]).1
        found none t s h = h
        found (some v) t s h = elim (Bool-cases (same v scope)) [
          | inl q ↦ rw q (deletes_key k t s token e h)
          | inr q ↦ rw q h
        ]

    pub Keeps-perform : (c : Call) → Keeps H (perform c)
    unfolding perform validate_token validate_token_with_scope
    Keeps-perform (creates_challenge o) = Keeps-bind _ _ (Keeps-creates o) (λ _. Keeps-pure _)
    Keeps-perform (redeems_challenge t s e) =
        Keeps-bind _ _ (Keeps-redeem codecs cap redis H ticks writes_nonce writes_token t s e)
          (λ _. Keeps-pure _)
    Keeps-perform (validates_token t) =
        Keeps-bind _ _ (Keeps-consume t (verification_key codecs cap t) refl) (λ _. Keeps-pure _)
    Keeps-perform (validates_token_with_scope t e) =
        Keeps-bind _ _ (Keeps-consume_scoped t e (verification_key codecs cap t) refl)
          (λ _. Keeps-pure _)

    pub Keeps-run :
        (cs : List Call) (w : World redis.State)
        → H w.time w.store
        → H (run cs w).time (run cs w).store
    unfolding run
    Keeps-run [] w h = h
    Keeps-run (c ∷ cs) w h = Keeps-run cs (after (perform c w)) ((Keeps-perform c).at w h)
