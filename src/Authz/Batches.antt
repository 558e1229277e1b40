-- ===== src/Authz/Batches.antt =====
-- The results of a batch of checks: one for each request, in the order of the requests.
use servora_platform.Common.{
  ℕ, suc, ◌≡◌, ap, ◌∙◌, subst, Bool, not, List, [], ◌∷◌, some, length, eqb,
}
use servora_platform.Cap.Bytes.{Bytes, itoa}
use servora_platform.Authz.Text.{Unicode, Failure, ok, when}
use servora_platform.Authz.Check.{
  Authorizer, Request, Item, ItemResult, required, item_allowed, find, request_parts, items_from,
  collect, batch_check,
}
use servora_platform.Authz.Objects.{then_ok, required_ok}

module _ (u : Unicode) (authorizer : Authorizer) where
  -- From an index on, each request has an item with its parts under the index, and each item has a
  -- result under the index, which is the answer.
  pub data Answers (results : List (Bytes × ItemResult))
      : ℕ → List Request → List Item → List Bool → Type 0 where
    done : {n : ℕ} → Answers results n [] [] []
    one :
        {n : ℕ} {r : Request} {rs : List Request} {user relation object : Bytes} {is : List Item}
        {result : ItemResult} {b : Bool} {bs : List Bool}
        → request_parts u authorizer r ≡ ok (user, relation, object)
        → find (itoa n) results ≡ some result
        → item_allowed result ≡ ok b
        → Answers results (suc n) rs is bs
        → Answers results n
            (r ∷ rs)
            (record { user = user; relation = relation; object = object; correlation_id = itoa n }
              ∷ is)
            (b ∷ bs)

  same_value : {A : Type 0} {x y : A} → ok x ≡ ok y → x ≡ y
  same_value q = cc

  moved :
      (results : List (Bytes × ItemResult)) (n : ℕ) (rs : List Request) {is is' : List Item}
      {bs bs' : List Bool}
      → ok is ≡ ok is'
      → ok bs ≡ ok bs'
      → Answers results n rs is bs
      → Answers results n rs is' bs'
  moved results n rs {is} {is'} {bs} {bs'} p q a =
      subst (λ (z : List Item). Answers results n rs z bs') (same_value p)
        (subst (λ (z : List Bool). Answers results n rs is z) (same_value q) a)

  collect_ok :
      (results : List (Bytes × ItemResult)) (n : ℕ) (rs : List Request) {is : List Item}
      {bs : List Bool}
      → items_from u authorizer n rs ≡ ok is
      → collect u authorizer n rs results ≡ ok bs
      → Answers results n rs is bs
  unfolding items_from collect
  collect_ok results n [] hi hb = moved results n [] hi hb done
  collect_ok results n (r ∷ rs) hi hb =
      let (parts, asked, hi1) = then_ok (request_parts u authorizer r) _ hi in
      let (is, others, last_i) = then_ok (items_from u authorizer (suc n) rs) _ hi1 in
      let (result, found, hb1) = then_ok (required (find (itoa n) results)) _ hb in
      let (b, allowed, hb2) = then_ok (item_allowed result) _ hb1 in
      let (bs, rest, last_b) = then_ok (collect u authorizer (suc n) rs results) _ hb2 in
      moved results n (r ∷ rs) last_i last_b (
        one asked (required_ok (find (itoa n) results) found) allowed
          (collect_ok results (suc n) rs others rest))

  -- A batch of one request or more that returned asked OpenFGA for the parts of each request under its
  -- index, and gives for each, in order, what the result of that index allows.
  pub batch_check_ok :
      (r : Request) (rs : List Request) (bs : List Bool)
      → batch_check u authorizer (r ∷ rs) ≡ ok bs
      → (is : List Item) × (results : List (Bytes × ItemResult)) × (authorizer.client.batch_check is
          ≡ ok (some results))
        × Answers results 0 (r ∷ rs) is bs
  unfolding batch_check
  batch_check_ok r rs bs h =
      let (is, made, h1) = then_ok (items_from u authorizer 0 (r ∷ rs)) _ h in
      let (response, answered, h2) = then_ok (authorizer.client.batch_check is) _ h1 in
      let (results, there, h3) = then_ok (required response) _ h2 in
      let (_, counted, last) =
        then_ok (when (not (eqb (length results) (length (r ∷ rs)))) Failure.other) _ h3 in
      (
        is,
        results,
        answered ∙ ap ok (required_ok response there),
        collect_ok results 0 (r ∷ rs) made last,
      )
