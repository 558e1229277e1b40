-- ===== src/Iam/Account/Spent.antt =====
-- Tables of one-time tokens, by the digest that names a token: when a digest is spent, and what
-- keeps it so. Both tables of the accounts are instances.
use servora_platform.Common.{
  ℕ, String, ◌==◌, eq_iff, ◌≡◌, sym, ap, ◌∙◌, subst, Bool, true, false, List, [], ◌∷◌, ◌++◌, Option,
  is_some, any, any-append, any-set_where, any-separates, All, All-append, select-nil-All,
  All-set_where, All-select, All-map, All-selected, All-updated, select, select-ne-nil_any,
  set_where, Bool-cases, inl, inr,
}

-- Where a test finds one row, every row that it holds of is that row.
pub sole_row {ℓ} :
    {A : Type ℓ} (p : A → Bool) (xs : List A) {e : A}
    → select p xs ≡ e ∷ []
    → All (λ x. p x ≡ true → x ≡ e) xs
sole_row p [] h = tt
sole_row {A = A} p (x ∷ xs) {e} h = elim (Bool-cases (p x)) [
  | inl hit ↦ (
    λ _. first (rw hit at h),
    All-map (λ y. p y ≡ false) _ xs (λ y off on. absurd (clash y off on))
        (select-nil-All p xs (rest (rw hit at h))),
  )
  | inr off ↦ ((λ on. absurd (clash x off on)), sole_row p xs (rw off at h))
]
  where
    first : {y : A} {ys : List A} → y ∷ ys ≡ e ∷ [] → y ≡ e
    first q = cc

    rest : {y : A} {ys : List A} → y ∷ ys ≡ e ∷ [] → ys ≡ []
    rest q = cc

    clash : (y : A) → p y ≡ false → p y ≡ true → ⊥
    clash y off on = cc

-- The row that a test finds alone passes it.
pub selected_hit {ℓ} :
    {A : Type ℓ} (p : A → Bool) (xs : List A) {e : A} → select p xs ≡ e ∷ [] → p e ≡ true
selected_hit {A = A} p xs sole = (subst (All (λ x. p x ≡ true)) sole (All-selected p xs)).0

module _ {R : Type 0} (digest : R → String) (used : R → Option ℕ) (h : String) where
  -- A token of the digest is there, and every one of the digest is used.
  abbrev pub Spent : List R → Type 0
  Spent rows =
      (any (λ r. digest r == h) rows ≡ true)
      × All (λ r. digest r ≡ h → is_some (used r) ≡ true) rows

  pub Spent-append :
      (clash : R → Bool) (r : R) (rows : List R)
      → ((x : R) → clash x ≡ false → digest r ≡ digest x → ⊥)
      → Spent rows
      → any clash rows ≡ false
      → Spent (rows ++ r ∷ [])
  Spent-append clash r rows apart s fresh =
      let (x, here, off) = any-separates (λ x. digest x == h) clash rows s.0 fresh in
      (
        any-append _ rows (r ∷ []) s.0,
        All-append _ rows (r ∷ []) s.1
            (λ e. absurd (apart x off (e ∙ sym ((eq_iff (digest x) h).0 here))), tt),
      )

  pub Spent-set_where :
      (p : R → Bool) (f : R → R) (rows : List R)
      → ((x : R) → digest (f x) ≡ digest x)
      → ((x : R) → is_some (used (f x)) ≡ true)
      → Spent rows
      → Spent (set_where p f rows)
  Spent-set_where p f rows same use_up s = (
    any-set_where (λ x. digest x == h) p f rows (λ x. rw (same x)) ∙ s.0,
    All-set_where (λ x. digest x ≡ h → is_some (used x) ≡ true) p f rows (λ x _ _ _. use_up x) s.1,
  )

  -- Using up the sole token of the digest spends it.
  pub spends :
      (p : R → Bool) (f : R → R) (rows : List R) {e : R}
      → ((x : R) → digest (f x) ≡ digest x)
      → ((x : R) → is_some (used (f x)) ≡ true)
      → select (λ x. digest x == h) rows ≡ e ∷ []
      → p e ≡ true
      → Spent (set_where p f rows)
  spends p f rows {e} same use_up sole hit = (
    any-set_where (λ x. digest x == h) p f rows (λ x. rw (same x))
        ∙ select-ne-nil_any (λ x. digest x == h) rows sole,
    All-updated (λ x. (digest x == h) ≡ true → x ≡ e) (λ x. digest x ≡ h → is_some (used x) ≡ true)
        p f rows (λ x _ _ _. use_up x)
        (λ x off only_e is_h.
          absurd (differ (sym off ∙ ap p (only_e ((eq_iff (digest x) h).1 is_h)) ∙ hit)))
        (sole_row (λ x. digest x == h) rows sole),
  )
    where
      differ : false ≡ true → ⊥
      differ q = cc

  -- The sole token of a spent digest is used.
  pub sole-Spent :
      (rows : List R) {e : R}
      → Spent rows
      → select (λ x. digest x == h) rows ≡ e ∷ []
      → digest e ≡ h
      → is_some (used e) ≡ true
  sole-Spent rows s sole =
      (subst (All (λ x. digest x ≡ h → is_some (used x) ≡ true)) sole
        (All-select _ (λ x. digest x == h) rows s.1)).0
