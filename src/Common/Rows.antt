-- ===== src/Common/Rows.antt =====
-- Lists as the rows of a table: selection, conditional update, membership as a recursive predicate.
use Prim.Native.Nat.{ℕ, suc}
use mathlib.Core.Path.{◌≡◌, refl}
use mathlib.Core.Logic.{inl, inr}
use mathlib.Core.Bool.{Bool, true, false, ◌&&◌, ◌||◌}
use mathlib.Core.List.{List, [], ◌∷◌, ◌++◌}
use native.Mathlib.Omega.{arith}
use servora_platform.Common.Tests.{if◌then◌else◌, Bool-cases}

module _ {ℓ} {A : Type ℓ} where
  abbrev pub length : List A → ℕ
  length [] = 0
  length (x ∷ xs) = suc (length xs)

  -- The rows that a WHERE clause keeps, in order.
  abbrev pub select : (A → Bool) → List A → List A
  select p [] = []
  select p (x ∷ xs) = if p x then x ∷ select p xs else select p xs

  -- The rows after an UPDATE with a WHERE clause.
  abbrev pub set_where : (A → Bool) → (A → A) → List A → List A
  set_where p f [] = []
  set_where p f (x ∷ xs) = (if p x then f x else x) ∷ set_where p f xs

  abbrev pub any : (A → Bool) → List A → Bool
  any p [] = false
  any p (x ∷ xs) = p x || any p xs

  abbrev pub all : (A → Bool) → List A → Bool
  all p [] = true
  all p (x ∷ xs) = p x && all p xs

  abbrev pub All {κ} : (A → Type κ) → List A → Type κ
  All P [] = Unit
  All P (x ∷ xs) = P x × All P xs

module _ {ℓ κ} {A : Type ℓ} (P : A → Type κ) where
  pub All-append : (xs ys : List A) → All P xs → All P ys → All P (xs ++ ys)
  All-append [] ys hx hy = hy
  All-append (x ∷ xs) ys hx hy = (hx.0, All-append xs ys hx.1 hy)

  -- An update keeps a property that it keeps on each row.
  pub All-set_where :
      (p : A → Bool) (f : A → A) (xs : List A)
      → ((x : A) → p x ≡ true → P x → P (f x))
      → All P xs
      → All P (set_where p f xs)
  All-set_where p f [] keep h = tt
  All-set_where p f (x ∷ xs) keep h = elim (Bool-cases (p x)) [
    | inl e ↦ rw e (keep x e h.0, All-set_where p f xs keep h.1)
    | inr e ↦ rw e (h.0, All-set_where p f xs keep h.1)
  ]

  pub All-select : (p : A → Bool) (xs : List A) → All P xs → All P (select p xs)
  All-select p [] h = tt
  All-select p (x ∷ xs) h = elim (Bool-cases (p x)) [
    | inl e ↦ rw e (h.0, All-select p xs h.1)
    | inr e ↦ rw e (All-select p xs h.1)
  ]

module _ {ℓ} {A : Type ℓ} where
  -- A property that the update gives every row that it writes, and that the other rows have.
  pub All-written {κ} :
      (P : A → Type κ) (p : A → Bool) (f : A → A) (xs : List A)
      → ((x : A) → p x ≡ true → P (f x))
      → ((x : A) → p x ≡ false → P x)
      → All P (set_where p f xs)
  All-written P p f [] written kept = tt
  All-written P p f (x ∷ xs) written kept = elim (Bool-cases (p x)) [
    | inl e ↦ rw e (written x e, All-written P p f xs written kept)
    | inr e ↦ rw e (kept x e, All-written P p f xs written kept)
  ]

  pub All-selected : (p : A → Bool) (xs : List A) → All (λ x. p x ≡ true) (select p xs)
  All-selected p [] = tt
  All-selected p (x ∷ xs) = elim (Bool-cases (p x)) [
    | inl e ↦ rw e (e, All-selected p xs)
    | inr e ↦ rw e (All-selected p xs)
  ]

  pub All-map {κ μ} :
      (P : A → Type κ) (Q : A → Type μ) (xs : List A) → ((x : A) → P x → Q x) → All P xs → All Q xs
  All-map P Q [] f h = tt
  All-map P Q (x ∷ xs) f h = (f x h.0, All-map P Q xs f h.1)

  -- No row passes a test that every row fails.
  pub select-eq-nil : (p : A → Bool) (xs : List A) → All (λ x. p x ≡ false) xs → select p xs ≡ []
  select-eq-nil p [] h = refl
  select-eq-nil p (x ∷ xs) h = rw h.0 (select-eq-nil p xs h.1)

  pub any-append : (p : A → Bool) (xs ys : List A) → any p xs ≡ true → any p (xs ++ ys) ≡ true
  any-append p [] ys h = absurd (false_true h)
    where
      false_true : false ≡ true → ⊥
      false_true e = cc
  any-append p (x ∷ xs) ys h = elim (Bool-cases (p x)) [
    | inl e ↦ rw e
    | inr e ↦ rw e (any-append p xs ys (rw e at h))
  ]

  pub any-append_right : (p : A → Bool) (xs ys : List A) → any p ys ≡ true → any p (xs ++ ys) ≡ true
  any-append_right p [] ys h = h
  any-append_right p (x ∷ xs) ys h = elim (Bool-cases (p x)) [
    | inl e ↦ rw e
    | inr e ↦ rw e (any-append_right p xs ys h)
  ]

  -- An update that leaves a test as it was leaves its verdict as it was.
  pub any-set_where :
      (q p : A → Bool) (f : A → A) (xs : List A)
      → ((x : A) → q (f x) ≡ q x)
      → any q (set_where p f xs) ≡ any q xs
  any-set_where q p f [] same = refl
  any-set_where q p f (x ∷ xs) same = elim (Bool-cases (p x)) [
    | inl e ↦ rw (e, same x, any-set_where q p f xs same)
    | inr e ↦ rw (e, any-set_where q p f xs same)
  ]

  pub select-ne-nil_any :
      (p : A → Bool) (xs : List A) {y : A} {ys : List A} → select p xs ≡ y ∷ ys → any p xs ≡ true
  select-ne-nil_any p [] h = absurd (nil_cons h)
    where
      nil_cons : {y : A} {ys : List A} → ◌≡◌ {A = List A} [] (y ∷ ys) → ⊥
      nil_cons e = cc
  select-ne-nil_any p (x ∷ xs) h = elim (Bool-cases (p x)) [
    | inl e ↦ rw e
    | inr e ↦ rw e (select-ne-nil_any p xs (rw e at h))
  ]

  -- A row that one test finds and another does not.
  pub any-separates :
      (q p : A → Bool) (xs : List A)
      → any q xs ≡ true
      → any p xs ≡ false
      → (x : A) × (q x ≡ true) × (p x ≡ false)
  any-separates q p [] h k = cc
  any-separates q p (x ∷ xs) h k = elim (Bool-cases (q x)) [
    | inl e ↦ (x, e, ground arith)
    | inr e ↦ any-separates q p xs (rw e at h) (ground arith)
  ]

  pub none_any : (p : A → Bool) (xs : List A) → All (λ x. p x ≡ false) xs → any p xs ≡ false
  none_any p [] h = refl
  none_any p (x ∷ xs) h = rw h.0 (none_any p xs h.1)

  pub All-any-false : (p : A → Bool) (xs : List A) → any p xs ≡ false → All (λ x. p x ≡ false) xs
  All-any-false p [] h = tt
  All-any-false p (x ∷ xs) h = (ground arith, All-any-false p xs (ground arith))

module _ {ℓ} {A : Type ℓ} (p : A → Bool) where
  pub any-length : (xs : List A) {n : ℕ} → length (select p xs) ≡ suc n → any p xs ≡ true
  any-length [] h = absurd (omega arith)
  any-length (x ∷ xs) h = elim (Bool-cases (p x)) [
    | inl e ↦ rw e
    | inr e ↦ rw e (any-length xs (rw e at h))
  ]

  pub any_mono :
      (q : A → Bool) (xs : List A)
      → ((x : A) → p x ≡ true → q x ≡ true)
      → any p xs ≡ true
      → any q xs ≡ true
  any_mono q [] k h = h
  any_mono q (x ∷ xs) k h = elim (Bool-cases (p x)) [
    | inl e ↦ rw (k x e)
    | inr e ↦ elim (Bool-cases (q x)) [
      | inl found ↦ rw found
      | inr missed ↦ rw missed (any_mono q xs k (rw e at h))
    ]
  ]

module _ {ℓ κ μ} {A : Type ℓ} (P : A → Type κ) (Q : A → Type μ) where
  -- An update turns one property of the rows into another.
  pub All-updated :
      (p : A → Bool) (f : A → A) (xs : List A)
      → ((x : A) → p x ≡ true → P x → Q (f x))
      → ((x : A) → p x ≡ false → P x → Q x)
      → All P xs
      → All Q (set_where p f xs)
  All-updated p f [] written kept h = tt
  All-updated p f (x ∷ xs) written kept h = elim (Bool-cases (p x)) [
    | inl e ↦ rw e (written x e h.0, All-updated p f xs written kept h.1)
    | inr e ↦ rw e (kept x e h.0, All-updated p f xs written kept h.1)
  ]

-- Where a test selects nothing, it fails on every row.
pub select-nil-All {ℓ} :
    {A : Type ℓ} (p : A → Bool) (xs : List A) → select p xs ≡ [] → All (λ x. p x ≡ false) xs
select-nil-All p [] h = tt
select-nil-All {A = A} p (x ∷ xs) h = elim (Bool-cases (p x)) [
  | inl e ↦ absurd (cons_nil (rw e at h))
  | inr e ↦ (e, select-nil-All p xs (rw e at h))
]
  where
    cons_nil : {y : A} {ys : List A} → ◌≡◌ {A = List A} (y ∷ ys) [] → ⊥
    cons_nil e = cc
