-- ===== src/Authz/Correlation.antt =====
-- The identifiers that correlate the items of a batch with their results are different.
use servora_platform.Common.{
  ℕ, zero, suc, ◌+◌, ◌-◌, ◌*◌, ◌/◌, ◌%◌, ◌≤◌, ◌≡◌, refl, sym, ap, ◌∙◌, subst, true, false, List, [],
  ◌∷◌, ◌++◌, All, All-map, ltb, arith, Unique, Bool-cases, inl, inr,
}
use servora_platform.Cap.Bytes.{Bytes, itoa, itoa_digits}
use servora_platform.Authz.Text.{Unicode, ok}
use servora_platform.Authz.Check.{Authorizer, Request, Item, request_parts, items_from}
use servora_platform.Authz.Objects.{then_ok}

-- The number that a text of digits stands for, after the digits read so far.
unfoldable pub value_from : ℕ → Bytes → ℕ
value_from n [] = n
value_from n (d ∷ ds) = value_from (10 * n + (d - 48)) ds

value_from-append :
    (n r : ℕ) (ds : Bytes) → value_from n (ds ++ (48 + r) ∷ []) ≡ 10 * value_from n ds + r
unfolding value_from
value_from-append n r [] = omega arith
value_from-append n r (d ∷ ds) = value_from-append (10 * n + (d - 48)) r ds

one_digit : (k n : ℕ) → ltb n 10 ≡ true → itoa_digits (suc k) n ≡ (48 + n) ∷ []
unfolding itoa_digits
one_digit k n small = rw (small, itoa_digits) refl

more_digits :
    (k n : ℕ)
    → ltb n 10 ≡ false
    → itoa_digits (suc k) n ≡ itoa_digits k (n / 10) ++ (48 + n % 10) ∷ []
unfolding itoa_digits
more_digits k n large = rw (large, itoa_digits) refl

-- As much fuel as the number is enough for its digits.
value_from-itoa_digits : (k n : ℕ) → n ≤ k → value_from 0 (itoa_digits k n) ≡ n
unfolding value_from itoa_digits
value_from-itoa_digits zero n h = omega arith
value_from-itoa_digits (suc k) n h = elim (Bool-cases (ltb n 10)) [
  | inl small ↦ ap (value_from 0) (one_digit k n small) ∙ omega arith
  | inr large ↦
      ap (value_from 0) (more_digits k n large)
      ∙ value_from-append 0 (n % 10) (itoa_digits k (n / 10))
      ∙ ap (λ m. 10 * m + n % 10) (value_from-itoa_digits k (n / 10) (smaller k n h large))
      ∙ omega arith
]
  where
    smaller : (k n : ℕ) → n ≤ suc k → ltb n 10 ≡ false → n / 10 ≤ k
    smaller k n h large = ground arith

value_from-itoa : (n : ℕ) → value_from 0 (itoa n) ≡ n
unfolding itoa
value_from-itoa n = value_from-itoa_digits n n (omega arith)

itoa_injective : (m n : ℕ) → itoa m ≡ itoa n → m ≡ n
itoa_injective m n e = sym (value_from-itoa m) ∙ ap (value_from 0) e ∙ value_from-itoa n

module _ (u : Unicode) (authorizer : Authorizer) where
  -- The identifiers of the items are the texts of the indices from one on.
  items_from-index :
      (n : ℕ) (rs : List Request) (is : List Item)
      → items_from u authorizer n rs ≡ ok is
      → All (λ i. (m : ℕ) × (n ≤ m) × (i.correlation_id ≡ itoa m)) is
        × Unique (λ (i : Item). i.correlation_id) is
  unfolding items_from
  items_from-index n [] is h =
      subst
        (λ (z : List Item).
          All (λ i. (m : ℕ) × (n ≤ m) × (i.correlation_id ≡ itoa m)) z
          × Unique (λ (i : Item). i.correlation_id) z)
        (same_items h) (tt, tt)
    where
      same_items : {x y : List Item} → ok x ≡ ok y → x ≡ y
      same_items q = cc
  items_from-index n (r ∷ rs) is h =
      let (parts, _, h1) = then_ok (request_parts u authorizer r) _ h in
      let (rest, others, last) = then_ok (items_from u authorizer (suc n) rs) _ h1 in
      let (indices, unique) = items_from-index (suc n) rs rest others in
      subst
        (λ (z : List Item).
          All (λ i. (m : ℕ) × (n ≤ m) × (i.correlation_id ≡ itoa m)) z
          × Unique (λ (i : Item). i.correlation_id) z)
        (same_items last)
        (
          (
            (n, omega arith, refl),
            All-map _ _ rest (λ i (m, later, e). (m, omega (arith, later), e)) indices,
          ),
          (
            All-map _ _ rest
                (λ i (m, later, e) same. apart n m later (itoa_injective m n (sym e ∙ same)))
                indices,
            unique,
          ),
        )
    where
      same_items : {x y : List Item} → ok x ≡ ok y → x ≡ y
      same_items q = cc

      apart : (n m : ℕ) → suc n ≤ m → m ≡ n → ⊥
      apart n m later e = omega arith

  -- The items of a batch have different identifiers, so that a result answers one request.
  pub items_from-Unique :
      (rs : List Request) (is : List Item)
      → items_from u authorizer 0 rs ≡ ok is
      → Unique (λ (i : Item). i.correlation_id) is
  items_from-Unique rs is h = (items_from-index 0 rs is h).1
