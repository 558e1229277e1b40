-- ===== src/Cap/Consumption.antt =====
-- security/cap/cap.go: what the consumption of a verification token does to it.
use servora_platform.Common.{
  ◌≡◌, ◌≢◌, refl, sym, ap, ◌∙◌, subst, Bool, true, false, Option, none, some, is_some,
  if◌then◌else◌, Bool-cases, inl, inr, ◌⊎◌,
}
use servora_platform.Cap.Bytes.{Bytes, same, same_refl, same-≡}
use servora_platform.Cap.Service.{Redis, Codecs, Cap, World, ok}
use servora_platform.Cap.Laws.{run_script_ok}
use servora_platform.Cap.Tokens.{
  consume, consume_scoped, validate_token, validate_token_with_scope, verification_key,
}

module _ (codecs : Codecs) (cap : Cap) (redis : Redis) where
  consumed :
      (key : Bytes) (s s' : redis.State) (o : Option Bytes) {b : Bool}
      → redis.get key s ≡ o
      → (elim o as (λ _. Bool × redis.State) [
        | none ↦ (false, s)
        | some v ↦ (true, redis.del key s)
      ])
        ≡ (b, s')
      → (b ≡ is_some o) × (redis.get key s' ≡ none)
  consumed key s s' none e h = (
    sym (ap (λ (q : Bool × redis.State). q.0) h),
    ap (λ (q : Bool × redis.State). redis.get key q.1) (sym h) ∙ e,
  )
  consumed key s s' (some v) e h = (
    sym (ap (λ (q : Bool × redis.State). q.0) h),
    ap (λ (q : Bool × redis.State). redis.get key q.1) (sym h) ∙ redis.get-del key s,
  )

  -- Validating a token of the right form, where Redis answers, returns whether its key is there, and
  -- leaves it absent.
  pub validate_token_ok :
      (token key : Bytes) (w v : World redis.State) (b : Bool)
      → verification_key codecs cap token ≡ some key
      → validate_token codecs cap redis token w ≡ ok b v
      → (b ≡ is_some (redis.get key w.store)) × (redis.get key v.store ≡ none)
  unfolding validate_token consume
  validate_token_ok token key w v b e h =
      let (ran, _) =
        run_script_ok redis (consume codecs cap redis key) w (rw (e, validate_token) at h) in
      consumed key w.store v.store (redis.get key w.store) refl ran

  scoped :
      (key expected : Bytes) (s s' : redis.State) (o : Option Bytes) {b : Bool}
      → redis.get key s ≡ o
      → (elim o as (λ _. Bool × redis.State) [
        | none ↦ (false, s)
        | some v ↦ if same v expected then (true, redis.del key s) else (false, s)
      ])
        ≡ (b, s')
      → (b ≡ true) × (redis.get key s ≡ some expected) × (redis.get key s' ≡ none)
        ⊎ (b ≡ false) × (redis.get key s ≢ some expected) × (s' ≡ s)
  scoped key expected s s' none e h = inr (
    sym (ap (λ (q : Bool × redis.State). q.0) h),
    (λ q. absurd (none_some (sym e ∙ q))),
    sym (ap (λ (q : Bool × redis.State). q.1) h),
  )
    where
      none_some : ◌≡◌ {A = Option Bytes} none (some expected) → ⊥
      none_some q = cc
  scoped key expected s s' (some v) e h = elim (Bool-cases (same v expected)) [
    | inl q ↦ inl (
      sym (ap (λ (p : Bool × redis.State). p.0) (rw q at h)),
      e ∙ ap some (same-≡ v expected q),
      ap (λ (p : Bool × redis.State). redis.get key p.1) (sym (rw q at h)) ∙ redis.get-del key s,
    )
    | inr q ↦ inr (
      sym (ap (λ (p : Bool × redis.State). p.0) (rw q at h)),
      (λ p. differ q (sym e ∙ p)),
      sym (ap (λ (p : Bool × redis.State). p.1) (rw q at h)),
    )
  ]
    where
      unsome : {a b : Bytes} → ◌≡◌ {A = Option Bytes} (some a) (some b) → a ≡ b
      unsome p = cc

      clash : {b : Bool} → b ≡ true → b ≡ false → ⊥
      clash e f = cc

      differ : same v expected ≡ false → ◌≡◌ {A = Option Bytes} (some v) (some expected) → ⊥
      differ q p = clash (same_refl v) (subst (λ x. same v x ≡ false) (sym (unsome p)) q)

  -- Validating a token of the right form with a scope, where Redis answers, either returns true, the
  -- scope being the one stored with the token, and consumes the token, or returns false, the scope
  -- being another or the token absent, and leaves Redis as it was.
  pub validate_token_with_scope_ok :
      (token key expected : Bytes) (w v : World redis.State) (b : Bool)
      → verification_key codecs cap token ≡ some key
      → validate_token_with_scope codecs cap redis token expected w ≡ ok b v
      → (b ≡ true) × (redis.get key w.store ≡ some expected) × (redis.get key v.store ≡ none)
        ⊎ (b ≡ false) × (redis.get key w.store ≢ some expected) × (v.store ≡ w.store)
  unfolding validate_token_with_scope consume_scoped
  validate_token_with_scope_ok token key expected w v b e h =
      let (ran, _) =
        run_script_ok redis (consume_scoped codecs cap redis key expected) w
          (rw (e, validate_token_with_scope) at h) in
      scoped key expected w.store v.store (redis.get key w.store) refl ran
