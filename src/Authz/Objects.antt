-- ===== src/Authz/Objects.antt =====
-- The names of resources in OpenFGA: an object says which resource it is.
use servora_platform.Common.{
  ℕ, ◌-◌, ◌≡◌, ◌<◌, refl, sym, ap, ◌∙◌, subst, Bool, true, false, not, List, [], ◌∷◌, ◌++◌, Option,
  none, some, All, all, map, eqb, arith, Bool-cases, inl, inr,
}
use servora_platform.Cap.Bytes.{Bytes}
use servora_platform.Authz.Text.{
  Unicode, IsUtf8, Failure, Result, ok, fail, ◌>>=◌, when, colon, cut, is_name_rune, are_name_runes,
  valid_provider_name, valid_resource_id, relation_name, resource_type_name, resource_object,
}
use servora_platform.Authz.Actor.{Actor, valid, is_anonymous}
use servora_platform.Authz.Check
use servora_platform.Authz.Check.{
  Authorizer, Request, request_parts, required, strip_prefix, subject, bare_id, bare_ids,
  list_allowed,
}

module _ {A B : Type 0} where
  -- A sequence that gave a value.
  pub then_ok :
      (r : Result A) (f : A → Result B) {b : B}
      → (r >>= f) ≡ ok b
      → (a : A) × (r ≡ ok a) × (f a ≡ ok b)
  then_ok (ok a) f h = (a, refl, h)
  then_ok (fail e) f h = cc

pub when_passed : (b : Bool) (e : Failure) {x : Unit {0}} → when b e ≡ ok x → b ≡ false
when_passed true e h = cc
when_passed false e h = refl

module _ {A : Type 0} where
  same_value : {x y : A} → ok x ≡ ok y → x ≡ y
  same_value q = cc

  pub required_ok : (o : Option A) {a : A} → required o ≡ ok a → o ≡ some a
  required_ok none h = cc
  required_ok (some a) h = ap some (same_value h)

name_runes : (rs : List ℕ) → all is_name_rune rs ≡ true → All (λ r. r < 128) rs
unfolding is_name_rune
name_runes [] h = tt
name_runes (r ∷ rs) h = (ground arith, name_runes rs (ground arith))

decoded :
    (u : Unicode)
    → IsUtf8 u
    → (b : Bytes) (o : Option (List ℕ)) → u.decode b ≡ o
    → are_name_runes o ≡ true
    → all is_name_rune b ≡ true
unfolding are_name_runes
decoded u law b none e h = cc
decoded u law b (some rs) e h =
    subst (λ (z : List ℕ). all is_name_rune z ≡ true) (law.ascii b rs e (name_runes rs h)) h

cut_name : (t id : Bytes) → all is_name_rune t ≡ true → cut (t ++ colon ∷ id) ≡ some (t, id)
unfolding cut is_name_rune
cut_name [] id h = refl
cut_name (b ∷ t) id h =
    let rest = cut_name t id (ground arith) in
    let apart : eqb b colon ≡ false = ground arith in rw (apart, rest) refl

-- A name that is valid is made of name runes.
named :
    (u : Unicode)
    → IsUtf8 u
    → (t : Bytes) (n : ℕ) → valid_provider_name u t n ≡ true
    → all is_name_rune t ≡ true
unfolding valid_provider_name
named u law t n h = decoded u law t (u.decode t) refl (ground arith)

resource_type_name_ok :
    (u : Unicode) (t : Bytes) {name : Bytes}
    → resource_type_name u t ≡ ok name
    → (name ≡ t) × (valid_provider_name u t 254 ≡ true)
unfolding resource_type_name
resource_type_name_ok u t h =
    let (_, passed, last) =
      then_ok (when (not (valid_provider_name u t 254)) Failure.invalid_input) _ h in
    (
      sym (same_value last),
      ground (arith, when_passed (not (valid_provider_name u t 254)) Failure.invalid_input passed),
    )

-- What an object is made of.
resource_object_ok :
    (u : Unicode) (t id : Bytes) {object : Bytes}
    → resource_object u t id ≡ ok object
    → (object ≡ t ++ colon ∷ id) × (valid_provider_name u t 254 ≡ true)
unfolding resource_object
resource_object_ok u t id h =
    let (name, named_t, rest) = then_ok (resource_type_name u t) _ h in
    let (same_t, valid) = resource_type_name_ok u t named_t in
    let (_, _, last) =
      then_ok
        (when (not (valid_resource_id u id (256 - u.rune_count name - 1))) Failure.invalid_input) _
        rest in
    (sym (same_value last) ∙ ap (λ (z : Bytes). z ++ colon ∷ id) same_t, valid)

-- Where ASCII decodes to itself: the type and the identifier of a resource are read back from the
-- object made of them, so that no two resources have the same object.
pub cut-resource_object :
    (u : Unicode) (law : IsUtf8 u) (resource_type resource_id object : Bytes)
    → resource_object u resource_type resource_id ≡ ok object
    → cut object ≡ some (resource_type, resource_id)
cut-resource_object u law t id object h =
    let (made, valid) = resource_object_ok u t id h in
    ap cut made ∙ cut_name t id (named u law t 254 valid)

strip_prefix_ok : (p s : Bytes) {r : Bytes} → strip_prefix p s ≡ some r → s ≡ p ++ r
unfolding strip_prefix
strip_prefix_ok [] s h = cc
strip_prefix_ok (b ∷ p) [] h = cc
strip_prefix_ok (b ∷ p) (c ∷ s) h = elim (Bool-cases (eqb b c)) [
  | inl same ↦
      let rest = strip_prefix_ok p s (rw same at h) in let first : c ≡ b = ground arith in cc
  | inr apart ↦ absurd (clash (rw apart at h))
]
  where
    clash : {x : Bytes} → ◌≡◌ {A = Option Bytes} none (some x) → ⊥
    clash q = cc

module _ (u : Unicode) (authorizer : Authorizer) where
  bare_id_ok :
      (start object : Bytes) {id : Bytes}
      → bare_id u authorizer start object ≡ ok id
      → (object ≡ start ++ id) × (valid_resource_id u id (256 - u.rune_count start) ≡ true)
  unfolding bare_id
  bare_id_ok start object h =
      let (r, stripped, rest) = then_ok (required (strip_prefix start object)) _ h in
      let (_, passed, last) =
        then_ok (when (not (valid_resource_id u r (256 - u.rune_count start))) Failure.other) _
          rest in
      let same_id = same_value last in
      (
        strip_prefix_ok start object (required_ok (strip_prefix start object) stripped)
            ∙ ap (λ (z : Bytes). start ++ z) same_id,
        subst (λ (z : Bytes). valid_resource_id u z (256 - u.rune_count start) ≡ true) same_id
            (ground (
              arith,
              when_passed (not (valid_resource_id u r (256 - u.rune_count start))) Failure.other
                  passed,
            )),
      )

  bare_ids_ok :
      (start : Bytes) (objects : List Bytes) {ids : List Bytes}
      → bare_ids u authorizer start objects ≡ ok ids
      → (objects ≡ map (λ id. start ++ id) ids)
        × All (λ id. valid_resource_id u id (256 - u.rune_count start) ≡ true) ids
  unfolding bare_ids
  bare_ids_ok start [] {ids} h =
      subst
        (λ (is : List Bytes).
          ([] ≡ map (λ id. start ++ id) is)
          × All (λ id. valid_resource_id u id (256 - u.rune_count start) ≡ true) is)
        (same_value h) (refl, tt)
  bare_ids_ok start (o ∷ os) {ids} h =
      let (id, first, h1) = then_ok (bare_id u authorizer start o) _ h in
      let (rest, others, last) = then_ok (bare_ids u authorizer start os) _ h1 in
      let (same_o, valid) = bare_id_ok start o first in
      let (same_os, all_valid) = bare_ids_ok start os others in
      subst
        (λ (is : List Bytes).
          (o ∷ os ≡ map (λ id. start ++ id) is)
          × All (λ id. valid_resource_id u id (256 - u.rune_count start) ≡ true) is)
        (same_value last)
        (
          ap (λ (z : Bytes). z ∷ os) same_o ∙ ap (λ (z : List Bytes). (start ++ id) ∷ z) same_os,
          (valid, all_valid),
        )

  -- The identifiers listed are, in their order, those of the objects that OpenFGA listed for the
  -- subject, the relation and the type asked for, and each is a valid one.
  pub list_allowed_ok :
      (actor : Actor) (action resource_type : Bytes) (ids : List Bytes)
      → list_allowed u authorizer actor action resource_type ≡ ok ids
      → (user : Bytes) × (subject u authorizer actor ≡ ok user)
        × (authorizer.client.list_objects user action resource_type
            ≡ ok (some (map (λ id. (resource_type ++ colon ∷ []) ++ id) ids)))
        × All
            (λ id. valid_resource_id u id (256 - u.rune_count (resource_type ++ colon ∷ [])) ≡ true)
            ids
  unfolding list_allowed relation_name
  list_allowed_ok actor action resource_type ids h =
      let (user, mapped, h1) = then_ok (subject u authorizer actor) _ h in
      let (relation, checked, h2) = then_ok (relation_name u action) _ h1 in
      let (name, named_type, h3) = then_ok (resource_type_name u resource_type) _ h2 in
      let (response, answered, h4) =
        then_ok (authorizer.client.list_objects user relation name) _ h3 in
      let (objects, there, last) = then_ok (required response) _ h4 in
      let (_, _, same_relation) =
        then_ok (when (not (valid_provider_name u action 50)) Failure.invalid_input) _ checked in
      let (same_objects, valid) = bare_ids_ok (name ++ colon ∷ []) objects last in
      let same_name = (resource_type_name_ok u resource_type named_type).0 in
      (
        user,
        mapped,
        ap (λ (z : Bytes). authorizer.client.list_objects user z resource_type)
              (same_value same_relation)
            ∙ ap (λ (z : Bytes). authorizer.client.list_objects user relation z) (sym same_name)
            ∙ answered
            ∙ ap ok (required_ok response there ∙ ap some same_objects)
            ∙ ap (λ (z : Bytes). ok (some (map (λ id. (z ++ colon ∷ []) ++ id) ids))) same_name,
        subst
            (λ (z : Bytes).
              All (λ id. valid_resource_id u id (256 - u.rune_count (z ++ colon ∷ [])) ≡ true) ids)
            same_name valid,
      )

  subject_ok :
      (actor : Actor) {user : Bytes}
      → subject u authorizer actor ≡ ok user
      → authorizer.map_subject actor ≡ ok user
  unfolding subject
  subject_ok actor h =
      let (_, _, h1) = then_ok (when (not (valid actor)) Failure.invalid_input) _ h in
      let (_, _, h2) = then_ok (when (is_anonymous actor.type) Failure.unauthenticated) _ h1 in
      let (mapped, got, h3) = then_ok (authorizer.map_subject actor) _ h2 in
      let (_, _, last) =
        then_ok (when (not (Check.valid_subject u authorizer (cut mapped))) Failure.invalid_input) _
          h3 in
      got ∙ last

  -- The parts of a request are its actor's subject, its action and the object of its resource.
  pub request_parts_ok :
      (r : Request) {parts : Bytes × Bytes × Bytes}
      → request_parts u authorizer r ≡ ok parts
      → (authorizer.map_subject r.actor ≡ ok parts.0)
        × (parts.1 ≡ r.action)
        × (parts.2 ≡ r.resource_type ++ colon ∷ r.resource_id)
  unfolding request_parts relation_name
  request_parts_ok r {parts} h =
      let (user, mapped, h1) = then_ok (subject u authorizer r.actor) _ h in
      let (relation, checked, h2) = then_ok (relation_name u r.action) _ h1 in
      let (object, made, last) = then_ok (resource_object u r.resource_type r.resource_id) _ h2 in
      let (_, _, same_relation) =
        then_ok (when (not (valid_provider_name u r.action 50)) Failure.invalid_input) _ checked in
      let (a, b, c) = apart last in
      (
        subject_ok r.actor mapped ∙ ap ok a,
        sym b ∙ sym (same_value same_relation),
        sym c ∙ (resource_object_ok u r.resource_type r.resource_id made).0,
      )
    where
      apart :
          {x y z x' y' z' : Bytes}
          → ◌≡◌ {A = Result (Bytes × Bytes × Bytes)} (ok (x, y, z)) (ok (x', y', z'))
          → (x ≡ x') × (y ≡ y') × (z ≡ z')
      apart q = (cc, cc, cc)
