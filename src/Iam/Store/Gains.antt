-- ===== src/Iam/Store/Gains.antt =====
-- What an action establishes when it returns: from P before, Q after. One rule for each way to build
-- an action around the step that establishes Q.
use servora_platform.Common.{◌≡◌}
use servora_platform.Iam.Schema.{Db}
use servora_platform.Iam.Store.{Error, World, ok, M, ◌>>=◌, map_error, in_tx}
use servora_platform.Iam.Store.Keeps.{Keeps}
use servora_platform.Iam.Store.Laws.{bind_ok, map_error_ok, in_tx_ok}

pub record Gains (P Q : Db → Type 0) {A : Type 0} (m : M A) : Type 0 where
  pub at : (w : World) {v : World} {a : A} → P w.db → m w ≡ ok a v → Q v.db

module _ {A : Type 0} where
  pub Keeps-ok :
      {P : Db → Type 0} {m : M A} (k : Keeps P m) (w : World) {v : World} {a : A}
      → P w.db
      → m w ≡ ok a v
      → P v.db
  Keeps-ok k w h e = rw e at (k.at w h)

module _ {P Q : Db → Type 0} {A B : Type 0} where
  -- The step that establishes Q comes first.
  pub Gains-then :
      (m : M A) (f : A → M B) → Gains P Q m → ((a : A) → Keeps Q (f a)) → Gains P Q (m >>= f)
  Gains-then m f g k = record {
    at = λ w h e.
        let (a, u, first, rest) = bind_ok m f w e in Keeps-ok (k a) u (g.at w h first) rest;
  }

  -- It comes later; the rest may use what the first action returned.
  pub Gains-later :
      (m : M A) (f : A → M B)
      → Keeps P m
      → ((a : A) (w u : World) → m w ≡ ok a u → Gains P Q (f a))
      → Gains P Q (m >>= f)
  Gains-later m f k g = record {
    at = λ w h e.
        let (a, u, first, rest) = bind_ok m f w e in
        (g a w u first).at u (Keeps-ok k w h first) rest;
  }

module _ {P Q : Db → Type 0} {A : Type 0} where
  pub Gains-map_error : (f : Error → Error) (m : M A) → Gains P Q m → Gains P Q (map_error f m)
  Gains-map_error f m g = record { at = λ w h e. g.at w h (map_error_ok f m w e) }

  pub Gains-in_tx : (m : M A) → Gains P Q m → Gains P Q (in_tx m)
  Gains-in_tx m g = record {
    at = λ w h e.
        let (x, y, start, body, finish) = in_tx_ok m w e in rw finish (g.at x (rw start h) body);
  }
