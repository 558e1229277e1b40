-- ===== src/Iam/Store/Keeps.antt =====
-- Properties of the database that an action keeps, whether it returns or raises: one rule for each
-- way to build an action.
use servora_platform.Common.{
  ℕ, String, ◌≡◌, refl, Bool, true, false, not, List, [], ◌∷◌, ◌++◌, select, set_where,
  if◌then◌else◌, any,
}
use servora_platform.Iam.Schema.{Db}
use servora_platform.Iam.Schema.Tables.{Table}
use servora_platform.Iam.Store
use servora_platform.Iam.Store.{
  Error, World, Outcome, ok, err, M, ◌>>=◌, ◌>>◌, pure, raise, map_error, when, after, statement,
  now, new_id, new_secret, gets, modify, single, query, only, exists, update, update_one, insert,
  delete, in_tx,
}

pub record Keeps (P : Db → Type 0) {A : Type 0} (m : M A) : Type 0 where
  pub at : (w : World) → P w.db → P (after (m w)).db

module _ (P : Db → Type 0) where
  map_after :
      {A : Type 0} (f : Error → Error) (o : Outcome A)
      → P (after o).db
      → P (after (elim o [ ok a w' ↦ ok a w' | err e w' ↦ err (f e) w' ])).db
  map_after f (ok a w) h = h
  map_after f (err e w) h = h

  script_after :
      (fs : List Bool) (w : World) → P w.db → P (after (statement (record w { faults = fs }))).db
  unfolding statement
  script_after [] w h = h
  script_after (true ∷ fs) w h = h
  script_after (false ∷ fs) w h = h

  clock_after : (ds : List ℕ) (w : World) → P w.db → P (after (now (record w { delays = ds }))).db
  unfolding now
  clock_after [] w h = h
  clock_after (d ∷ ds) w h = h

  ids_after :
      (is : List String) (w : World) → P w.db → P (after (new_id (record w { ids = is }))).db
  unfolding new_id
  ids_after [] w h = h
  ids_after (i ∷ is) w h = h

  secrets_after :
      (ss : List String) (w : World)
      → P w.db
      → P (after (new_secret (record w { secrets = ss }))).db
  unfolding new_secret
  secrets_after [] w h = h
  secrets_after (s ∷ ss) w h = h

  rolled_back :
      {A : Type 0} (d : Db) (o : Outcome A)
      → P d
      → P (after o).db
      → P (after (Store.roll_back d o)).db
  rolled_back d (ok a w) hd h = h
  rolled_back d (err e w) hd h = hd

module _ {P : Db → Type 0} {A B : Type 0} where
  bind_after :
      (f : A → M B) (o : Outcome A)
      → P (after o).db
      → ((a : A) → Keeps P (f a))
      → P (after (elim o [ ok a w' ↦ f a w' | err e w' ↦ err e w' ])).db
  bind_after f (ok a w) h k = (k a).at w h
  bind_after f (err e w) h k = h

  pub Keeps-bind :
      (m : M A) (f : A → M B) → Keeps P m → ((a : A) → Keeps P (f a)) → Keeps P (m >>= f)
  Keeps-bind m f km kf = record { at = λ w h. bind_after f (m w) (km.at w h) kf }

  bind_known :
      (w : World) (m : M A) (f : A → M B) (o : Outcome A)
      → m w ≡ o
      → P w.db
      → P (after o).db
      → ((a : A) (u : World) → P w.db → m w ≡ ok a u → Keeps P (f a))
      → P (after (elim o [ ok a w' ↦ f a w' | err e w' ↦ err e w' ])).db
  bind_known w m f (ok a u) e p h k = (k a u p e).at u h
  bind_known w m f (err x u) e p h k = h

  -- The rest may use what the action returned, and where.
  pub Keeps-bind_known :
      (m : M A) (f : A → M B)
      → Keeps P m
      → ((a : A) (w u : World) → P w.db → m w ≡ ok a u → Keeps P (f a))
      → Keeps P (m >>= f)
  Keeps-bind_known m f km kf = record {
    at = λ w h. bind_known w m f (m w) refl h (km.at w h) (λ a u. kf a w u);
  }

  pub Keeps-seq : (m : M A) (n : M B) → Keeps P m → Keeps P n → Keeps P (m >> n)
  Keeps-seq m n km kn = Keeps-bind m (λ _. n) km (λ _. kn)

module _ {P : Db → Type 0} {A : Type 0} where
  pub Keeps-pure : (a : A) → Keeps P (pure a)
  Keeps-pure a = record { at = λ w h. h }

  pub Keeps-raise : (e : Error) → Keeps P (raise {A = A} e)
  Keeps-raise e = record { at = λ w h. h }

  pub Keeps-gets : (f : Db → A) → Keeps P (gets f)
  Keeps-gets f = record { at = λ w h. h }

  pub Keeps-map_error : (f : Error → Error) (m : M A) → Keeps P m → Keeps P (map_error f m)
  Keeps-map_error f m km = record { at = λ w h. map_after P f (m w) (km.at w h) }

  -- The branch taken is known to be the one of the test's value.
  pub Keeps-if :
      (test : Bool) (this that : M A)
      → (test ≡ true → Keeps P this)
      → (test ≡ false → Keeps P that)
      → Keeps P (if test then this else that)
  Keeps-if true this that when_true when_false = when_true refl
  Keeps-if false this that when_true when_false = when_false refl

module _ {P : Db → Type 0} where
  pub Keeps-when : (b : Bool) (e : Error) → Keeps P (when b e)
  Keeps-when true e = record { at = λ w h. h }
  Keeps-when false e = record { at = λ w h. h }

  pub Keeps-modify : (f : Db → Db) → ((d : Db) → P d → P (f d)) → Keeps P (modify f)
  Keeps-modify f k = record { at = λ w h. k w.db h }

  pub Keeps-statement : Keeps P statement
  Keeps-statement = record { at = λ w h. script_after P w.faults w h }

  pub Keeps-now : Keeps P now
  Keeps-now = record { at = λ w h. clock_after P w.delays w h }

  pub Keeps-new_id : Keeps P new_id
  Keeps-new_id = record { at = λ w h. ids_after P w.ids w h }

  pub Keeps-new_secret : Keeps P new_secret
  Keeps-new_secret = record { at = λ w h. secrets_after P w.secrets w h }

  pub Keeps-single : {R : Type 0} (rs : List R) → Keeps P (single rs)
  unfolding single
  Keeps-single [] = Keeps-raise _
  Keeps-single (r ∷ []) = Keeps-pure r
  Keeps-single (r ∷ s ∷ rs) = Keeps-raise _

module _ {P : Db → Type 0} {R : Type 0} (t : Table R) where
  pub Keeps-query : (p : R → Bool) → Keeps P (query t p)
  unfolding query
  Keeps-query p = Keeps-bind _ _ Keeps-statement (λ _. Keeps-gets _)

  pub Keeps-only : (p : R → Bool) → Keeps P (only t p)
  unfolding only
  Keeps-only p = Keeps-bind _ _ (Keeps-query p) (λ rows. Keeps-single rows)

  pub Keeps-exists : (p : R → Bool) → Keeps P (exists t p)
  unfolding exists
  Keeps-exists p = Keeps-bind _ _ Keeps-statement (λ _. Keeps-gets _)

  pub Keeps-update :
      (p : R → Bool) (f : R → R)
      → ((d : Db) → P d → P (t.put d (set_where p f (t.get d))))
      → Keeps P (update t p f)
  unfolding update
  Keeps-update p f k =
      Keeps-bind _ _ Keeps-statement λ _.
        Keeps-bind _ _ (Keeps-gets _) λ n. Keeps-bind _ _ (Keeps-modify _ k) (λ _. Keeps-pure n)

  first-Keeps : (rs : List R) → Keeps P (Store.first_or_missing t rs)
  first-Keeps [] = Keeps-raise _
  first-Keeps (r ∷ rs) = Keeps-pure r

  pub Keeps-update_one :
      (p : R → Bool) (f : R → R)
      → ((d : Db) → P d → P (t.put d (set_where p f (t.get d))))
      → Keeps P (update_one t p f)
  unfolding update_one
  Keeps-update_one p f k = Keeps-bind _ _ Keeps-statement λ _.
      Keeps-bind _ _ (record { at = λ w h. (first-Keeps (select p (t.get w.db))).at w h })
        λ r. Keeps-bind _ _ (Keeps-modify _ k) (λ _. Keeps-pure (f r))

  -- A row is added only if its keys are free.
  pub Keeps-insert :
      (r : R)
      → ((d : Db) → P d → any (t.clash r) (t.get d) ≡ false → P (t.put d (t.get d ++ r ∷ [])))
      → Keeps P (insert t r)
  unfolding insert
  Keeps-insert r k =
      Keeps-bind _ _ (Keeps-when (not (t.valid r)) _)
        (λ _. Keeps-bind _ _ Keeps-statement (λ _. free))
    where
      added :
          (b : Bool) (w : World)
          → any (t.clash r) (t.get w.db) ≡ b
          → P w.db
          → P
              (after (
                (when b Error.constraint >>= λ _.
                modify (λ d. t.put d (t.get d ++ r ∷ [])) >>= λ _. pure r)
                  w)).db
      added true w e h = h
      added false w e h = k w.db h e

      free : Keeps P (
          gets (λ d. any (t.clash r) (t.get d)) >>= λ taken. when taken Error.constraint >>= λ _.
          modify (λ d. t.put d (t.get d ++ r ∷ [])) >>= λ _. pure r)
      free = record { at = λ w h. added _ w refl h }

  pub Keeps-delete :
      (p : R → Bool)
      → ((d : Db) → P d → P (t.put d (select (λ r. not (p r)) (t.get d))))
      → Keeps P (delete t p)
  unfolding delete
  Keeps-delete p k = Keeps-bind _ _ Keeps-statement (λ _. Keeps-modify _ k)

module _ {P : Db → Type 0} {A : Type 0} where
  pub Keeps-in_tx : (m : M A) → Keeps P m → Keeps P (in_tx m)
  unfolding in_tx
  Keeps-in_tx m km = Keeps-bind _ _ Keeps-statement λ _. record {
    at = λ w h.
        rolled_back P w.db ((m >>= λ a. statement >>= λ _. pure a) w) h
          ((Keeps-bind m _ km (λ a. Keeps-bind _ _ Keeps-statement (λ _. Keeps-pure a))).at w h);
  }

pub ruleset keeps_rules = (
  Keeps-bind, Keeps-seq, Keeps-pure, Keeps-raise, Keeps-gets, Keeps-map_error, Keeps-if, Keeps-when,
  Keeps-statement, Keeps-now, Keeps-new_id, Keeps-new_secret, Keeps-query, Keeps-only, Keeps-exists,
  Keeps-update, Keeps-update_one, Keeps-insert, Keeps-delete, Keeps-in_tx,
)
