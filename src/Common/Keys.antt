-- ===== src/Common/Keys.antt =====
-- Rows with a text for a key, no two rows with one key.
use mathlib.Core.Path.{◌≡◌, refl, sym, ◌∙◌}
use mathlib.Core.Logic.{◌≢◌, inl, inr}
use mathlib.Core.Bool.{Bool, true, false}
use mathlib.Core.List.{List, [], ◌∷◌, ◌++◌}
use servora_platform.Common.Tests.{Bool-cases}
use servora_platform.Common.Rows.{
  select, set_where, any, All, All-append, All-select, All-set_where, All-map,
}

module _ {A K : Type 0} (key : A → K) where
  abbrev pub Unique : List A → Type 0
  Unique [] = Unit
  Unique (x ∷ xs) = All (λ y. key y ≢ key x) xs × Unique xs

  pub Unique-set_where :
      (p : A → Bool) (f : A → A) (xs : List A)
      → ((x : A) → key (f x) ≡ key x)
      → Unique xs
      → Unique (set_where p f xs)
  Unique-set_where p f [] same u = tt
  Unique-set_where p f (x ∷ xs) same u = elim (Bool-cases (p x)) [
    | inl e ↦ rw e (
      rw (same x) (All-set_where (λ y. key y ≢ key x) p f xs (λ y _ h q. h (sym (same y) ∙ q)) u.0),
      Unique-set_where p f xs same u.1,
    )
    | inr e ↦ rw e (
      All-set_where (λ y. key y ≢ key x) p f xs (λ y _ h q. h (sym (same y) ∙ q)) u.0,
      Unique-set_where p f xs same u.1,
    )
  ]

  pub Unique-append :
      (xs : List A) (r : A) → Unique xs → All (λ x. key r ≢ key x) xs → Unique (xs ++ r ∷ [])
  Unique-append [] r u h = (tt, tt)
  Unique-append (x ∷ xs) r u h =
      (All-append (λ y. key y ≢ key x) xs (r ∷ []) u.0 (h.0, tt), Unique-append xs r u.1 h.1)

  pub Unique-select : (p : A → Bool) (xs : List A) → Unique xs → Unique (select p xs)
  Unique-select p [] u = tt
  Unique-select p (x ∷ xs) u = elim (Bool-cases (p x)) [
    | inl e ↦ rw e (All-select (λ y. key y ≢ key x) p xs u.0, Unique-select p xs u.1)
    | inr e ↦ rw e (Unique-select p xs u.1)
  ]

  no_other :
      (p : A → Bool) (c : K) (xs : List A)
      → ((x : A) → p x ≡ true → key x ≡ c)
      → All (λ y. key y ≢ c) xs
      → any p xs ≡ false
  no_other p c [] known h = refl
  no_other p c (x ∷ xs) known h = elim (Bool-cases (p x)) [
    | inl e ↦ absurd (h.0 (known x e))
    | inr e ↦ rw e (no_other p c xs known h.1)
  ]

  -- If a row that passes a test has the key, then it is the only row with the key.
  pub Unique-only :
      (p : A → Bool) (c : K) (xs : List A)
      → ((x : A) → p x ≡ true → key x ≡ c)
      → Unique xs
      → any p xs ≡ true
      → All (λ x. key x ≡ c → p x ≡ true) xs
  Unique-only p c [] known u h = tt
  Unique-only p c (x ∷ xs) known u h = elim (Bool-cases (p x)) [
    | inl e ↦ (
      λ _. e,
      All-map (λ y. key y ≢ key x) (λ y. key y ≡ c → p y ≡ true) xs
          (λ y apart q. absurd (apart (q ∙ sym (known x e)))) u.0,
    )
    | inr e ↦ (
      λ q. elim (Bool-cases (any p xs)) [
        | inl found ↦
            absurd (true_false found (no_other p (key x) xs (λ y k. known y k ∙ sym q) u.0))
        | inr missed ↦ absurd (true_false (rw e at h) missed)
      ],
      Unique-only p c xs known u.1 (rw e at h),
    )
  ]
    where
      true_false : {b : Bool} → b ≡ true → b ≡ false → ⊥
      true_false s t = cc
