-- ===== src/Iam/Store/Quiet.antt =====
-- What an action does where no statement fails.
use servora_platform.Common.{
  ℕ, ◌+◌, ◌≡◌, refl, ap, ◌∙◌, Bool, List, [], ◌∷◌, select, set_where, length,
}
use servora_platform.Iam.Schema.Tables.{Table}
use servora_platform.Iam.Store
use servora_platform.Iam.Store.{
  Error, World, Outcome, ok, err, M, ◌>>=◌, pure, map_error, gets, modify, statement, now, single,
  query, only, update, in_tx,
}

-- No statement to come fails.
abbrev pub IsQuiet : World → Type 0
IsQuiet w = w.faults ≡ []

module _ {A B : Type 0} where
  pub bind_run :
      (m : M A) (f : A → M B) (w : World) {a : A} {u : World} → m w ≡ ok a u → (m >>= f) w ≡ f a u
  bind_run m f w h = ap (λ (o : Outcome A). elim o [ ok a w' ↦ f a w' | err e w' ↦ err e w' ]) h

pub map_error_run :
    {A : Type 0} (f : Error → Error) (m : M A) (w : World) {a : A} {u : World}
    → m w ≡ ok a u
    → map_error f m w ≡ ok a u
map_error_run {A} f m w h =
    ap (λ (o : Outcome A). elim o [ ok a w' ↦ ok a w' | err e w' ↦ err (f e) w' ]) h

script_run :
    (fs : List Bool) (w : World)
    → fs ≡ []
    → statement (record w { faults = fs }) ≡ ok tt (record w { faults = fs })
unfolding statement
script_run [] w h = refl
script_run (b ∷ fs) w h = cc

pub statement_run : (w : World) → IsQuiet w → statement w ≡ ok tt w
statement_run w h = script_run w.faults w h

clock_run :
    (ds : List ℕ) (w : World)
    → (t : ℕ) × (v : World) × (now (record w { delays = ds }) ≡ ok t v)
      × (v.faults ≡ w.faults)
      × (v.db ≡ w.db)
unfolding now
clock_run [] w = (w.time, record w { delays = [] }, refl, refl, refl)
clock_run (d ∷ ds) w = (w.time + d, record w { time = w.time + d; delays = ds }, refl, refl, refl)

pub now_run :
    (w : World) → (t : ℕ) × (v : World) × (now w ≡ ok t v) × (v.faults ≡ w.faults) × (v.db ≡ w.db)
now_run w = clock_run w.delays w

module _ {R : Type 0} (t : Table R) where
  pub only_run :
      (p : R → Bool) (w : World) {r : R}
      → IsQuiet w
      → select p (t.get w.db) ≡ r ∷ []
      → only t p w ≡ ok r w
  unfolding only single
  only_run p w quiet one =
      bind_run (query t p) single w (bind_run statement _ w (statement_run w quiet))
      ∙ ap (λ rs. single rs w) one

  pub update_run :
      (p : R → Bool) (f : R → R) (w : World)
      → IsQuiet w
      → update t p f w
        ≡ ok
            (length (select p (t.get w.db)))
            (record w { db = t.put w.db (set_where p f (t.get w.db)) })
  unfolding update
  update_run p f w quiet = bind_run statement _ w (statement_run w quiet)

pub in_tx_run :
    {A : Type 0} (m : M A) (w : World) {a : A} {v : World}
    → IsQuiet w
    → m w ≡ ok a v
    → IsQuiet v
    → in_tx m w ≡ ok a v
unfolding in_tx
in_tx_run {A} m w {a} {v} quiet ran quiet' =
    bind_run statement _ w (statement_run w quiet)
    ∙ ap (Store.roll_back w.db)
        (bind_run m _ w ran ∙ bind_run statement (λ _. pure a) v (statement_run v quiet'))
