-- ===== src/Cap/Laws.antt =====
-- What a call that returned has done to the clock and to Redis.
use servora_platform.Common.{
  ℕ, ◌≡◌, refl, ap, Bool, true, false, List, [], ◌∷◌, Option, none, some, arith,
}
use servora_platform.Cap.Service.{
  Redis, World, Outcome, ok, err, M, ◌>>=◌, when, lift, Error, now, run_script,
}

module _ {S A B : Type 0} where
  outcome_ok :
      (f : A → M S B) (o : Outcome S A) {b : B} {v : World S}
      → (elim o [ ok a w' ↦ f a w' | err e w' ↦ err e w' ]) ≡ ok b v
      → (a : A) × (w : World S) × (o ≡ ok a w) × (f a w ≡ ok b v)
  outcome_ok f (ok a w) h = (a, w, refl, h)
  outcome_ok f (err e w) h = cc

  pub bind_ok :
      (m : M S A) (f : A → M S B) (w : World S) {b : B} {v : World S}
      → (m >>= f) w ≡ ok b v
      → (a : A) × (u : World S) × (m w ≡ ok a u) × (f a u ≡ ok b v)
  bind_ok m f w h = outcome_ok f (m w) h

  pub bind_run :
      (m : M S A) (f : A → M S B) (w : World S) {a : A} {u : World S}
      → m w ≡ ok a u
      → (m >>= f) w ≡ f a u
  bind_run m f w h = ap (λ (o : Outcome S A). elim o [ ok a w' ↦ f a w' | err e w' ↦ err e w' ]) h

module _ {S : Type 0} where
  pub when_ok :
      (b : Bool) (e : Error) (w : World S) {v : World S} {u : Unit {0}}
      → when b e w ≡ ok u v
      → (b ≡ false) × (w ≡ v)
  when_ok true e w h = cc
  when_ok false e w h = (refl, cc)

  pub lift_ok :
      {A : Type 0} (e : Error) (o : Option A) (w : World S) {v : World S} {a : A}
      → lift e o w ≡ ok a v
      → (o ≡ some a) × (w ≡ v)
  lift_ok e none w h = cc
  lift_ok e (some a) w h = (cc, cc)

module _ (redis : Redis) where
  clock_ok :
      (ds : List ℕ) (w : World redis.State) {v : World redis.State} {t : ℕ}
      → now redis (record w { delays = ds }) ≡ ok t v
      → v.time ≡ t
  unfolding now
  clock_ok [] w h = ground arith
  clock_ok (d ∷ ds) w h = ground arith

  -- The time read is the time after the reading.
  pub now_ok :
      (w : World redis.State) {v : World redis.State} {t : ℕ} → now redis w ≡ ok t v → v.time ≡ t
  now_ok w h = clock_ok w.delays w h

  module _ {A : Type 0} (f : redis.State → A × redis.State) where
    script_ok :
        (fs : List Bool) (w : World redis.State) {v : World redis.State} {a : A}
        → run_script redis f (record w { faults = fs }) ≡ ok a v
        → (f w.store ≡ (a, v.store)) × (v.time ≡ w.time)
    unfolding run_script
    script_ok [] w h = (ground arith, ground arith)
    script_ok (true ∷ fs) w h = cc
    script_ok (false ∷ fs) w h = (ground arith, ground arith)

    pub run_script_ok :
        (w : World redis.State) {v : World redis.State} {a : A}
        → run_script redis f w ≡ ok a v
        → (f w.store ≡ (a, v.store)) × (v.time ≡ w.time)
    run_script_ok w h = script_ok w.faults w h
