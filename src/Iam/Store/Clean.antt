-- ===== src/Iam/Store/Clean.antt =====
-- Actions that change nothing where they fail.
use servora_platform.Common.{◌≡◌, refl, sym, ap, ◌∙◌, inl, inr}
use servora_platform.Iam.Schema.{Db}
use servora_platform.Iam.Store.{
  World, Outcome, Error, ok, err, M, ◌>>=◌, pure, after, map_error, in_tx,
}
use servora_platform.Iam.Store.Keeps.{Keeps}
use servora_platform.Iam.Store.Laws.{bind_err, in_tx_err}

-- An action that changes nothing where it fails.
pub record FailsClean {A : Type 0} (m : M A) : Type 0 where
  pub at : (w : World) {v : World} {e : Error} → m w ≡ err e v → v.db ≡ w.db

module _ {A : Type 0} where
  mapped :
      (f : Error → Error) (o : Outcome A) {v : World} {e : Error}
      → (elim o [ ok a w' ↦ ok a w' | err e' w' ↦ err (f e') w' ]) ≡ err e v
      → (e' : Error) × (o ≡ err e' v)
  mapped f (ok a w) h = cc
  mapped f (err e w) h = (e, cc)

  pub clean-map_error : (f : Error → Error) (m : M A) → FailsClean m → FailsClean (map_error f m)
  clean-map_error f m c = record { at = λ w h. let (e, failed) = mapped f (m w) h in c.at w failed }

  pub clean-in_tx : (m : M A) → FailsClean (in_tx m)
  clean-in_tx m = record { at = λ w h. in_tx_err m w h }

  unchanged :
      {m : M A}
      → ((d : Db) → Keeps (λ x. x ≡ d) m)
      → (w : World) {v : World} (o : Outcome A) → m w ≡ o
      → after o ≡ v
      → v.db ≡ w.db
  unchanged k w o e q =
      ap (λ (z : World). z.db) (sym q)
      ∙ ap (λ (z : Outcome A). (after z).db) (sym e)
      ∙ (k w.db).at w refl

  pub clean-reads : {m : M A} → ((d : Db) → Keeps (λ x. x ≡ d) m) → FailsClean m
  clean-reads k = record { at = λ w {v} {e} h. unchanged k w (err e v) h refl }

module _ {A B : Type 0} where
  -- Reads first, then the rest.
  pub clean-bind :
      (m : M A) (f : A → M B)
      → ((d : Db) → Keeps (λ x. x ≡ d) m)
      → ((a : A) → FailsClean (f a))
      → FailsClean (m >>= f)
  clean-bind m f k g = record {
    at = λ w h. elim (bind_err m f w h) [
      | inl failed ↦ (clean-reads k).at w failed
      | inr (a, u, first, rest) ↦ (g a).at u rest ∙ unchanged k w (ok a u) first refl
    ];
  }

  -- The last step cannot fail.
  pub clean-pure : (m : M A) (b : A → B) → FailsClean m → FailsClean (m >>= λ a. pure (b a))
  clean-pure m b c = record {
    at = λ w h. elim (bind_err m _ w h) [ inl failed ↦ c.at w failed | inr (_, _, _, rest) ↦ cc ];
  }
