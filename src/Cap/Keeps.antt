-- ===== src/Cap/Keeps.antt =====
-- Properties of the clock and of Redis that a call keeps, whether it returns or raises: those that
-- the passing of time keeps.
use servora_platform.Common.{
  ℕ, zero, suc, ◌+◌, Bool, true, false, List, [], ◌∷◌, Option, none, some, if◌then◌else◌,
}
use servora_platform.Cap.Bytes.{Bytes}
use servora_platform.Cap.Service.{
  Redis, World, Outcome, ok, err, M, ◌>>=◌, ◌>>◌, pure, raise, when, lift, after, Error,
  random_from, random_hex, now, run_script,
}

pub record Keeps {S : Type 0} (H : ℕ → S → Type 0) {A : Type 0} (m : M S A) : Type 0 where
  pub at : (w : World S) → H w.time w.store → H (after (m w)).time (after (m w)).store

module _ {S : Type 0} (H : ℕ → S → Type 0) where
  abbrev pub Holds : World S → Type 0
  Holds w = H w.time w.store

  bind_after :
      {A B : Type 0} (f : A → M S B) (o : Outcome S A)
      → Holds (after o)
      → ((a : A) → Keeps H (f a))
      → Holds (after (elim o [ ok a w' ↦ f a w' | err e w' ↦ err e w' ]))
  bind_after f (ok a w) h k = (k a).at w h
  bind_after f (err e w) h k = h

  random_after : (n : ℕ) (bs : List ℕ) (w : World S) → Holds w → Holds (after (random_from n bs w))
  unfolding random_from
  random_after zero bs w h = h
  random_after (suc n) [] w h = h
  random_after (suc n) (b ∷ bs) w h = more_after (random_from n bs w) (random_after n bs w h)
    where
      more_after :
          (o : Outcome S Bytes)
          → Holds (after o)
          → Holds (after (elim o [ ok bs' w' ↦ ok (b ∷ bs') w' | err e w' ↦ err e w' ]))
      more_after (ok a w) h = h
      more_after (err e w) h = h

  hex_after :
      (f : Bytes → Bytes) (o : Outcome S Bytes)
      → Holds (after o)
      → Holds (after (elim o [ ok bs w' ↦ ok (f bs) w' | err e w' ↦ err e w' ]))
  hex_after f (ok a w) h = h
  hex_after f (err e w) h = h

module _ {S : Type 0} {H : ℕ → S → Type 0} where
  pub Keeps-bind :
      {A B : Type 0} (m : M S A) (f : A → M S B)
      → Keeps H m
      → ((a : A) → Keeps H (f a))
      → Keeps H (m >>= f)
  Keeps-bind m f km kf = record { at = λ w h. bind_after H f (m w) (km.at w h) kf }

  pub Keeps-seq : {A B : Type 0} (m : M S A) (n : M S B) → Keeps H m → Keeps H n → Keeps H (m >> n)
  Keeps-seq m n km kn = Keeps-bind m (λ _. n) km (λ _. kn)

  pub Keeps-pure : {A : Type 0} (a : A) → Keeps H (pure {S = S} a)
  Keeps-pure a = record { at = λ w h. h }

  pub Keeps-raise : {A : Type 0} (e : Error) → Keeps H (raise {S = S} {A = A} e)
  Keeps-raise e = record { at = λ w h. h }

  pub Keeps-when : (b : Bool) (e : Error) → Keeps H (when b e)
  Keeps-when true e = Keeps-raise e
  Keeps-when false e = Keeps-pure tt

  pub Keeps-lift : {A : Type 0} (e : Error) (o : Option A) → Keeps H (lift e o)
  Keeps-lift e none = Keeps-raise e
  Keeps-lift e (some a) = Keeps-pure a

  pub Keeps-if :
      {A : Type 0} (b : Bool) (m n : M S A) → Keeps H m → Keeps H n → Keeps H (if b then m else n)
  Keeps-if true m n km kn = km
  Keeps-if false m n km kn = kn

  pub Keeps-random_hex : (n : ℕ) → Keeps H (random_hex n)
  unfolding random_hex
  Keeps-random_hex n = record {
    at = λ w h. hex_after H _ (random_from n w.entropy w) (random_after H n w.entropy w h);
  }

module _ (redis : Redis) (H : ℕ → redis.State → Type 0) where
  now-after :
      (ds : List ℕ) (w : World redis.State)
      → ((t d : ℕ) (s : redis.State) → H t s → H (t + d) (redis.pass d s))
      → Holds H w
      → Holds H (after (now redis (record w { delays = ds })))
  unfolding now
  now-after [] w ticks h = h
  now-after (d ∷ ds) w ticks h = ticks w.time d w.store h

  script_after :
      {A : Type 0} (f : redis.State → A × redis.State) (fs : List Bool) (w : World redis.State)
      → ((t : ℕ) (s : redis.State) → H t s → H t (f s).1)
      → Holds H w
      → Holds H (after (run_script redis f (record w { faults = fs })))
  unfolding run_script
  script_after f [] w keep h = keep w.time w.store h
  script_after f (true ∷ fs) w keep h = h
  script_after f (false ∷ fs) w keep h = keep w.time w.store h

  pub Keeps-now :
      ((t d : ℕ) (s : redis.State) → H t s → H (t + d) (redis.pass d s)) → Keeps H (now redis)
  Keeps-now ticks = record { at = λ w h. now-after w.delays w ticks h }

  pub Keeps-run_script :
      {A : Type 0} (f : redis.State → A × redis.State)
      → ((t : ℕ) (s : redis.State) → H t s → H t (f s).1)
      → Keeps H (run_script redis f)
  Keeps-run_script f keep = record { at = λ w h. script_after f w.faults w keep h }
