-- ===== src/Iam/Store/Refuses.antt =====
-- Actions that never return where a condition holds of the database, and leave it as it was.
use servora_platform.Common.{
  ◌≡◌, refl, sym, ap, ◌∙◌, subst, Bool, true, false, any, select, inl, inr,
}
use servora_platform.Iam.Schema.{Db}
use servora_platform.Iam.Schema.Tables.{Table}
use servora_platform.Iam.Store
use servora_platform.Iam.Store.{
  World, Outcome, Error, ok, err, M, ◌>>=◌, map_error, after, statement, update_one, in_tx,
}
use servora_platform.Iam.Store.Keeps.{Keeps}
use servora_platform.Iam.Store.Laws.{
  first_err, bind_err, statement_ok, statement_err, update_one_ok, in_tx_ok, in_tx_err,
}

-- What refuses has an error for its outcome, with the database as it was.
pub record Refused {A : Type 0} (d : Db) (o : Outcome A) : Type 0 where
  pub never : (a : A) (v : World) → o ≡ ok a v → ⊥
  pub same : (after o).db ≡ d

pub record Refuses (P : Db → Type 0) {A : Type 0} (m : M A) : Type 0 where
  pub at : (w : World) → P w.db → Refused w.db (m w)

module _ {A B : Type 0} where
  first-Refused :
      (d : Db) (f : A → M B) (o : Outcome A)
      → Refused d o
      → Refused d (elim o [ ok a w' ↦ f a w' | err e w' ↦ err e w' ])
  first-Refused d f (ok a w) r = absurd (r.never a w refl)
  first-Refused d f (err e w) r = record { never = λ a v q. cc; same = r.same }

  later-Refused :
      (P : Db → Type 0) (d : Db) (f : A → M B) (o : Outcome A)
      → P d
      → (after o).db ≡ d
      → ((a : A) → Refuses P (f a))
      → Refused d (elim o [ ok a w' ↦ f a w' | err e w' ↦ err e w' ])
  later-Refused P d f (ok a w) h same r =
      subst (λ x. Refused x (f a w)) same ((r a).at w (subst P (sym same) h))
  later-Refused P d f (err e w) h same r = record { never = λ a v q. cc; same = same }

module _ {P : Db → Type 0} {A B : Type 0} where
  -- The first action refuses, or one after actions that leave the database as it was.
  pub Refuses-first : (m : M A) (f : A → M B) → Refuses P m → Refuses P (m >>= f)
  Refuses-first m f r = record { at = λ w h. first-Refused w.db f (m w) (r.at w h) }

  pub Refuses-later :
      (m : M A) (f : A → M B)
      → ((d : Db) → Keeps (λ x. x ≡ d) m)
      → ((a : A) → Refuses P (f a))
      → Refuses P (m >>= f)
  Refuses-later m f k r = record {
    at = λ w h. later-Refused P w.db f (m w) h ((k w.db).at w refl) r;
  }

module _ {A : Type 0} where
  map-Refused :
      (f : Error → Error) (d : Db) (o : Outcome A)
      → Refused d o
      → Refused d (elim o [ ok a w' ↦ ok a w' | err e w' ↦ err (f e) w' ])
  map-Refused f d (ok a w) r = absurd (r.never a w refl)
  map-Refused f d (err e w) r = record { never = λ a v q. cc; same = r.same }

  -- An action that never returns and fails clean refuses.
  refused :
      (d : Db) (o : Outcome A)
      → ((a : A) (v : World) → o ≡ ok a v → ⊥)
      → ((e : Error) (v : World) → o ≡ err e v → v.db ≡ d)
      → Refused d o
  refused d (ok a w) never clean = absurd (never a w refl)
  refused d (err e w) never clean = record { never = never; same = clean e w refl }

module _ {P : Db → Type 0} {A : Type 0} where
  pub Refuses-map_error : (f : Error → Error) (m : M A) → Refuses P m → Refuses P (map_error f m)
  Refuses-map_error f m r = record { at = λ w h. map-Refused f w.db (m w) (r.at w h) }

  pub Refuses-in_tx : (m : M A) → Refuses P m → Refuses P (in_tx m)
  Refuses-in_tx m r = record {
    at = λ w h.
        refused w.db (in_tx m w)
          (λ a v q.
            let (x, y, start, body, finish) = in_tx_ok m w q in
            (r.at x (subst P (sym start) h)).never a y body)
          (λ e v q. in_tx_err m w q);
  }

module _ {R : Type 0} (t : Table R) where
  update_one_err :
      (p : R → Bool) (f : R → R) (w : World) {v : World} {e : Error}
      → update_one t p f w ≡ err e v
      → v.db ≡ w.db
  unfolding update_one
  update_one_err p f w h = elim (bind_err statement _ w h) [
    | inl broken ↦ statement_err w broken
    | inr (_, u, first, rest) ↦
        elim (bind_err (λ (z : World). Store.first_or_missing t (select p (t.get z.db)) z) _ u
          rest) [
            | inl none_there ↦
                let (_, stay) = first_err t (select p (t.get u.db)) u none_there in
                ap (λ (z : World). z.db) stay ∙ statement_ok w first
            | inr (_, _, _, later) ↦ cc
          ]
  ]

  -- An update of one row refuses where its condition holds of none.
  pub Refuses-update_one :
      (p : R → Bool) (f : R → R) → Refuses (λ d. any p (t.get d) ≡ false) (update_one t p f)
  Refuses-update_one p f = record {
    at = λ w h.
        refused w.db (update_one t p f w)
          (λ a v q. let (_, there, _, _) = update_one_ok t p f w q in clash (sym h ∙ there))
          (λ e v q. update_one_err p f w q);
  }
    where
      clash : false ≡ true → ⊥
      clash q = cc
