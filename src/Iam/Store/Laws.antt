-- ===== src/Iam/Store/Laws.antt =====
-- What an action that returned has done to the database.
use servora_platform.Common.{
  ap, not, eqb, ◌⊎◌, select-ne-nil_any, subst, All, All-selected, ℕ, String, ◌≡◌, refl, sym, ◌∙◌,
  Bool, true, false, List, [], ◌∷◌, ◌++◌, select, set_where, any, length, inl, inr, arith,
}
use servora_platform.Iam.Schema.{Db}
use servora_platform.Iam.Schema.Tables.{Table}
use servora_platform.Iam.Store
use servora_platform.Iam.Store.{
  Error, World, Outcome, ok, err, M, ◌>>=◌, pure, raise, map_error, when, after, statement, now,
  new_id, new_secret, gets, modify, single, query, only, exists, update, update_one, insert, delete,
  in_tx, validation, constraint, driver, ent_not_found,
}

module _ {A B : Type 0} where
  outcome_ok :
      (f : A → M B) (o : Outcome A) {b : B} {v : World}
      → (elim o [ ok a w' ↦ f a w' | err e w' ↦ err e w' ]) ≡ ok b v
      → (a : A) × (w : World) × (o ≡ ok a w) × (f a w ≡ ok b v)
  outcome_ok f (ok a w) h = (a, w, refl, h)
  outcome_ok f (err e w) h = cc

  outcome_err :
      (f : A → M B) (o : Outcome A) {e : Error} {v : World}
      → (elim o [ ok a w' ↦ f a w' | err e w' ↦ err e w' ]) ≡ err e v
      → (o ≡ err e v) ⊎ ((a : A) × (w : World) × (o ≡ ok a w) × (f a w ≡ err e v))
  outcome_err f (ok a w) h = inr (a, w, refl, h)
  outcome_err f (err e w) h = inl (cc)

  pub bind_err :
      (m : M A) (f : A → M B) (w : World) {v : World} {e : Error}
      → (m >>= f) w ≡ err e v
      → (m w ≡ err e v) ⊎ ((a : A) × (u : World) × (m w ≡ ok a u) × (f a u ≡ err e v))
  bind_err m f w h = outcome_err f (m w) h

  -- A sequence that returned is an action that returned and a rest that did.
  pub bind_ok :
      (m : M A) (f : A → M B) (w : World) {v : World} {b : B}
      → (m >>= f) w ≡ ok b v
      → (a : A) × (u : World) × (m w ≡ ok a u) × (f a u ≡ ok b v)
  bind_ok m f w h = outcome_ok f (m w) h

module _ {A : Type 0} where
  mapped_ok :
      (f : Error → Error) (o : Outcome A) {a : A} {v : World}
      → (elim o [ ok a w' ↦ ok a w' | err e w' ↦ err (f e) w' ]) ≡ ok a v
      → o ≡ ok a v
  mapped_ok f (ok a w) h = h
  mapped_ok f (err e w) h = cc

  pub map_error_ok :
      (f : Error → Error) (m : M A) (w : World) {v : World} {a : A}
      → map_error f m w ≡ ok a v
      → m w ≡ ok a v
  map_error_ok f m w h = mapped_ok f (m w) h

pub when_ok :
    (b : Bool) (e : Error) (w : World) {v : World} {u : Unit {0}}
    → when b e w ≡ ok u v
    → (b ≡ false) × (v ≡ w)
when_ok true e w h = cc
when_ok false e w h = (refl, cc)

script_ok :
    (fs : List Bool) (w : World) {v : World} {u : Unit {0}}
    → statement (record w { faults = fs }) ≡ ok u v
    → v.db ≡ w.db
unfolding statement
script_ok [] w h = ground arith
script_ok (true ∷ fs) w h = cc
script_ok (false ∷ fs) w h = ground arith

pub statement_ok : (w : World) {v : World} {u : Unit {0}} → statement w ≡ ok u v → v.db ≡ w.db
statement_ok w h = script_ok w.faults w h

script_err :
    (fs : List Bool) (w : World) {v : World} {e : Error}
    → statement (record w { faults = fs }) ≡ err e v
    → v.db ≡ w.db
unfolding statement
script_err [] w h = cc
script_err (true ∷ fs) w h = ground arith
script_err (false ∷ fs) w h = cc

pub statement_err : (w : World) {v : World} {e : Error} → statement w ≡ err e v → v.db ≡ w.db
statement_err w h = script_err w.faults w h

fault_err :
    (fs : List Bool) (w : World) {v : World} {e : Error}
    → statement (record w { faults = fs }) ≡ err e v
    → e ≡ driver
unfolding statement
fault_err [] w h = cc
fault_err (true ∷ fs) w h = cc
fault_err (false ∷ fs) w h = cc

pub statement_fault : (w : World) {v : World} {e : Error} → statement w ≡ err e v → e ≡ driver
statement_fault w h = fault_err w.faults w h

clock_ok :
    (ds : List ℕ) (w : World) {v : World} {n : ℕ}
    → now (record w { delays = ds }) ≡ ok n v
    → v.db ≡ w.db
unfolding now
clock_ok [] w h = ground arith
clock_ok (d ∷ ds) w h = ground arith

pub now_ok : (w : World) {v : World} {n : ℕ} → now w ≡ ok n v → v.db ≡ w.db
now_ok w h = clock_ok w.delays w h

ids_ok :
    (is : List String) (w : World) {v : World} {i : String}
    → new_id (record w { ids = is }) ≡ ok i v
    → v.db ≡ w.db
unfolding new_id
ids_ok [] w h = cc
ids_ok (i ∷ is) w h = ground arith

pub new_id_ok : (w : World) {v : World} {i : String} → new_id w ≡ ok i v → v.db ≡ w.db
new_id_ok w h = ids_ok w.ids w h

secrets_ok :
    (ss : List String) (w : World) {v : World} {s : String}
    → new_secret (record w { secrets = ss }) ≡ ok s v
    → v.db ≡ w.db
unfolding new_secret
secrets_ok [] w h = cc
secrets_ok (s ∷ ss) w h = ground arith

pub new_secret_ok : (w : World) {v : World} {s : String} → new_secret w ≡ ok s v → v.db ≡ w.db
new_secret_ok w h = secrets_ok w.secrets w h

module _ {R : Type 0} where
  pub single_ok :
      (rs : List R) (w : World) {v : World} {r : R} → single rs w ≡ ok r v → (rs ≡ r ∷ []) × (v ≡ w)
  unfolding single
  single_ok [] w h = cc
  single_ok (r ∷ []) w h = (cc, cc)
  single_ok (r ∷ s ∷ rs) w h = cc

module _ {R : Type 0} (t : Table R) (p : R → Bool) where
  pub query_ok :
      (w : World) {v : World} {rs : List R}
      → query t p w ≡ ok rs v
      → (rs ≡ select p (t.get w.db)) × (v.db ≡ w.db)
  unfolding query
  query_ok w h =
      let (_, u, first, rest) = bind_ok statement (λ _. gets (λ d. select p (t.get d))) w h in
      let same = statement_ok w first in (rw (← same) (cc), rw (← same) (cc))

  pub only_ok :
      (w : World) {v : World} {r : R}
      → only t p w ≡ ok r v
      → (select p (t.get w.db) ≡ r ∷ []) × (v.db ≡ w.db)
  unfolding only
  only_ok w h =
      let (rows, u, first, rest) = bind_ok (query t p) single w h in
      let (found, same) = query_ok w first in
      let (one, last) = single_ok rows u rest in (sym found ∙ one, rw last same)

module _ {R : Type 0} (t : Table R) where
  first_ok :
      (rs : List R) (w : World) {v : World} {r : R}
      → Store.first_or_missing t rs w ≡ ok r v
      → (xs : List R) × (rs ≡ r ∷ xs) × (v ≡ w)
  first_ok [] w h = cc
  first_ok (r ∷ rs) w h = (rs, cc, cc)

  pub exists_ok :
      (p : R → Bool) (w : World) {v : World} {b : Bool}
      → exists t p w ≡ ok b v
      → (any p (t.get w.db) ≡ b) × (v.db ≡ w.db)
  unfolding exists
  exists_ok p w h =
      let (_, u, first, rest) = bind_ok statement (λ _. gets (λ d. any p (t.get d))) w h in
      let same = statement_ok w first in (rw (← same) (cc), rw (← same) (cc))

  pub update_ok :
      (p : R → Bool) (f : R → R) (w : World) {v : World} {n : ℕ}
      → update t p f w ≡ ok n v
      → (v.db ≡ t.put w.db (set_where p f (t.get w.db))) × (length (select p (t.get w.db)) ≡ n)
  unfolding update
  update_ok p f w h =
      let (_, u, first, rest) = bind_ok statement _ w h in
      let same = statement_ok w first in (rw (← same) (cc), rw (← same) (cc))

  -- The check that an update wrote one row.
  pub write_one_ok :
      (p : R → Bool) (f : R → R) (e : Error) (w : World) {v : World} {u : Unit {0}}
      → (update t p f >>= λ n. when (not (eqb n 1)) e) w ≡ ok u v
      → (v.db ≡ t.put w.db (set_where p f (t.get w.db))) × (length (select p (t.get w.db)) ≡ 1)
  write_one_ok p f e w h =
      let (n, x, updated, checked) = bind_ok (update t p f) _ w h in
      let (result, counted) = update_ok p f w updated in
      let (one, same) = when_ok (not (eqb n 1)) e x checked in
      (ap (λ (z : World). z.db) same ∙ result, counted ∙ exactly n one)
    where
      exactly : (n : ℕ) → not (eqb n 1) ≡ false → n ≡ 1
      exactly n q = ground arith

  pub insert_ok :
      (r : R) (w : World) {v : World} {s : R}
      → insert t r w ≡ ok s v
      → (t.valid r ≡ true)
        × (any (t.clash r) (t.get w.db) ≡ false)
        × (v.db ≡ t.put w.db (t.get w.db ++ r ∷ []))
  unfolding insert
  insert_ok r w h =
      let (_, x, checked, more) = bind_ok (when (not (t.valid r)) validation) _ w h in
      let (valid, same_x) = when_ok _ _ w checked in
      let (_, u, first, rest) = bind_ok statement _ x more in
      let same : u.db ≡ w.db = statement_ok x first ∙ ap (λ (z : World). z.db) same_x in
      let (_, y, guarded, last) =
        bind_ok (when (any (t.clash r) (t.get u.db)) constraint) _ u rest in
      let (fresh, same_y) = when_ok _ _ u guarded in
      (ground arith, rw (← same) fresh, rw (← same) (ground arith))

  -- The row returned is the row given.
  pub insert_value : (r : R) (w : World) {v : World} {s : R} → insert t r w ≡ ok s v → s ≡ r
  unfolding insert
  insert_value r w h =
      let (_, x, _, more) = bind_ok (when (not (t.valid r)) validation) _ w h in
      let (_, u, _, rest) = bind_ok statement _ x more in
      let (_, y, _, last) = bind_ok (when (any (t.clash r) (t.get u.db)) constraint) _ u rest in
      ground arith

  pub update_one_ok :
      (p : R → Bool) (f : R → R) (w : World) {v : World} {r : R}
      → update_one t p f w ≡ ok r v
      → (x : R) × (any p (t.get w.db) ≡ true)
        × (f x ≡ r)
        × (v.db ≡ t.put w.db (set_where p f (t.get w.db)))
  unfolding update_one
  update_one_ok p f w h =
      let (_, u, first, rest) = bind_ok statement _ w h in
      let same = statement_ok w first in
      let (x, y, found, last) =
        bind_ok (λ (z : World). Store.first_or_missing t (select p (t.get z.db)) z) _ u rest in
      let (xs, some_row, stay) = first_ok _ u found in
      (
        x,
        rw (← same) (select-ne-nil_any p (t.get u.db) some_row),
        ground arith,
        rw (← same) (ground arith),
      )

  -- The row that an update of one row returned was one of its condition.
  pub update_one_row :
      (p : R → Bool) (f : R → R) (w : World) {v : World} {r : R}
      → update_one t p f w ≡ ok r v
      → (x : R) × (p x ≡ true) × (r ≡ f x)
  unfolding update_one
  update_one_row p f w h =
      let (_, u, first, rest) = bind_ok statement _ w h in
      let (x, y, found, last) =
        bind_ok (λ (z : World). Store.first_or_missing t (select p (t.get z.db)) z) _ u rest in
      let (xs, some_row, stay) = first_ok _ u found in
      (x, (subst (All (λ z. p z ≡ true)) some_row (All-selected p (t.get u.db))).0, ground arith)

  pub first_err :
      (rs : List R) (w : World) {v : World} {e : Error}
      → Store.first_or_missing t rs w ≡ err e v
      → (rs ≡ []) × (v ≡ w)
  first_err [] w h = (refl, cc)
  first_err (r ∷ rs) w h = cc

  -- An update of one row that misses found none.
  pub update_one_missed :
      (p : R → Bool) (f : R → R) (w : World) {v : World}
      → update_one t p f w ≡ err ent_not_found v
      → (select p (t.get w.db) ≡ []) × (v.db ≡ w.db)
  unfolding update_one
  update_one_missed p f w h = elim (bind_err statement _ w h) [
    | inl broken ↦ absurd (apart (statement_fault w broken))
    | inr (_, u, first, rest) ↦
        elim (bind_err (λ (z : World). Store.first_or_missing t (select p (t.get z.db)) z) _ u
          rest) [
            | inl missed ↦
                let (nothing, stay) = first_err _ u missed in
                let same = statement_ok w first in
                (rw (← same) nothing, ap (λ (z : World). z.db) stay ∙ same)
            | inr (_, _, _, later) ↦ cc
          ]
  ]
    where
      apart : ent_not_found ≡ driver → ⊥
      apart e = cc

  pub delete_ok :
      (p : R → Bool) (w : World) {v : World} {u : Unit {0}}
      → delete t p w ≡ ok u v
      → v.db ≡ t.put w.db (select (λ r. not (p r)) (t.get w.db))
  unfolding delete
  delete_ok p w h =
      let (_, u, first, rest) = bind_ok statement _ w h in
      let same = statement_ok w first in rw (← same) (ground arith)

module _ {A : Type 0} where
  roll_back_ok :
      (d : Db) (o : Outcome A) {v : World} {a : A} → Store.roll_back d o ≡ ok a v → o ≡ ok a v
  roll_back_ok d (ok a w) h = h
  roll_back_ok d (err e w) h = cc

  roll_back_err :
      (d : Db) (o : Outcome A) {v : World} {e : Error} → Store.roll_back d o ≡ err e v → v.db ≡ d
  roll_back_err d (ok a w) h = cc
  roll_back_err d (err e w) h = ground arith

  -- A transaction that returned ran its body from the database as it was, and kept its writes.
  pub in_tx_ok :
      (m : M A) (w : World) {v : World} {a : A}
      → in_tx m w ≡ ok a v
      → (x : World) × (y : World) × (x.db ≡ w.db) × (m x ≡ ok a y) × (v.db ≡ y.db)
  unfolding in_tx
  in_tx_ok m w h =
      let (_, x, first, rest) = bind_ok statement _ w h in
      let inner = roll_back_ok x.db _ rest in
      let (a', y, body, tail) = bind_ok m _ x inner in
      let (_, z, commit, last) = bind_ok statement _ y tail in
      (x, y, statement_ok w first, ground arith, ground (arith, statement_ok y commit))

  -- A transaction that failed changed nothing.
  pub in_tx_err : (m : M A) (w : World) {v : World} {e : Error} → in_tx m w ≡ err e v → v.db ≡ w.db
  unfolding in_tx
  in_tx_err m w h = elim (bind_err statement _ w h) [
    | inl failed ↦ statement_err w failed
    | inr (_, x, first, rest) ↦ roll_back_err x.db _ rest ∙ statement_ok w first
  ]
