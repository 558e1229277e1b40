-- ===== src/Authz/Check.antt =====
-- security/authz/openfga/authz.go: the checks that OpenFGA is asked for. The SDK's client and the
-- mapping of an actor to a subject are parameters.
use servora_platform.Common.{
  ℕ, suc, ◌-◌, Bool, true, false, not, ◌&&◌, List, [], ◌∷◌, ◌++◌, Option, none, some, length, eqb,
  if◌then◌else◌,
}
use servora_platform.Cap.Bytes.{Bytes, same, itoa}
use servora_platform.Authz.Text.{
  Unicode, Failure, Result, ok, fail, ◌>>=◌, ◌>>◌, when, colon, cut, valid_provider_name,
  valid_resource_id, relation_name, resource_type_name, resource_object,
}
use servora_platform.Authz.Actor.{Actor, valid, is_anonymous}

pub record Request : Type 0 where
  pub actor : Actor
  pub action : Bytes
  pub resource_type : Bytes
  pub resource_id : Bytes

-- An item of a batch, with the identifier that correlates it with its result.
pub record Item : Type 0 where
  pub user : Bytes
  pub relation : Bytes
  pub object : Bytes
  pub correlation_id : Bytes

-- An error code of the SDK: none given, the code for no error, or another.
pub data Code : Type 0 where
  unset no_error : Code
  code : Bytes → Code

pub record CheckError : Type 0 where
  pub internal_error : Code
  pub input_error : Code

pub record ItemResult : Type 0 where
  pub error : Option CheckError
  pub allowed : Option Bool

-- The SDK's client: a response of none is one without the field asked for, or none at all.
pub record Client : Type 0 where
  pub check : Bytes → Bytes → Bytes → Result (Option Bool)
  pub batch_check : List Item → Result (Option (List (Bytes × ItemResult)))
  pub list_objects : Bytes → Bytes → Bytes → Result (Option (List Bytes))

pub record Authorizer : Type 0 where
  pub client : Client
  pub map_subject : Actor → Result Bytes

abbrev pub star : Bytes
star = 42 ∷ []

abbrev pub required : {A : Type 0} → Option A → Result A
required none = fail Failure.other
required (some a) = ok a

abbrev pub is_error : Code → Bool
is_error Code.unset = false
is_error Code.no_error = false
is_error (Code.code c) = true

-- One result of a batch.
unfoldable pub item_allowed : ItemResult → Result Bool
item_allowed r = elim r.error [
  | none ↦ required r.allowed
  | some e ↦
      if is_error e.internal_error
      then fail Failure.unavailable
      else (if is_error e.input_error then fail Failure.invalid_input else fail Failure.other)
]

-- A key of a map.
unfoldable pub find : {A : Type 0} → Bytes → List (Bytes × A) → Option A
find k [] = none
find k ((l, a) ∷ rest) = if same k l then some a else find k rest

unfoldable pub strip_prefix : Bytes → Bytes → Option Bytes
strip_prefix [] s = some s
strip_prefix (b ∷ p) [] = none
strip_prefix (b ∷ p) (c ∷ s) = if eqb b c then strip_prefix p s else none

module _ (u : Unicode) (authorizer : Authorizer) where
  abbrev pub valid_subject : Option (Bytes × Bytes) → Bool
  valid_subject none = false
  valid_subject (some p) =
      valid_provider_name u p.0 254
      && not (same p.1 star)
      && valid_resource_id u p.1 (512 - u.rune_count p.0 - 1)

  -- `Authorizer.subject`.
  unfoldable pub subject : Actor → Result Bytes
  subject actor = do
    when (not (valid actor)) Failure.invalid_input
    when (is_anonymous actor.type) Failure.unauthenticated
    mapped ← authorizer.map_subject actor
    when (not (valid_subject (cut mapped))) Failure.invalid_input
    ok mapped

  unfoldable pub request_parts : Request → Result (Bytes × Bytes × Bytes)
  request_parts r = do
    user ← subject r.actor
    relation ← relation_name u r.action
    object ← resource_object u r.resource_type r.resource_id
    ok (user, relation, object)

  -- `Authorizer.Check`, of an authorizer that New made.
  unfoldable pub check : Request → Result Bool
  check r = do
    parts ← request_parts r
    response ← authorizer.client.check parts.0 parts.1 parts.2
    required response

  unfoldable pub items_from : ℕ → List Request → Result (List Item)
  items_from n [] = ok []
  items_from n (r ∷ rs) = do
    parts ← request_parts r
    rest ← items_from (suc n) rs
    ok (
        record { user = parts.0; relation = parts.1; object = parts.2; correlation_id = itoa n }
        ∷ rest)

  -- The loop on the results, in the order of the requests.
  unfoldable pub collect : ℕ → List Request → List (Bytes × ItemResult) → Result (List Bool)
  collect n [] results = ok []
  collect n (r ∷ rs) results = do
    result ← required (find (itoa n) results)
    allowed ← item_allowed result
    rest ← collect (suc n) rs results
    ok (allowed ∷ rest)

  unfoldable pub batch_check : List Request → Result (List Bool)
  batch_check [] = ok []
  batch_check (r ∷ rs) = do
    items ← items_from 0 (r ∷ rs)
    response ← authorizer.client.batch_check items
    results ← required response
    when (not (eqb (length results) (length (r ∷ rs)))) Failure.other
    collect 0 (r ∷ rs) results

  -- The identifier of an object of the type whose prefix it has.
  unfoldable pub bare_id : Bytes → Bytes → Result Bytes
  bare_id start object = do
    id ← required (strip_prefix start object)
    when (not (valid_resource_id u id (256 - u.rune_count start))) Failure.other
    ok id

  unfoldable pub bare_ids : Bytes → List Bytes → Result (List Bytes)
  bare_ids start [] = ok []
  bare_ids start (o ∷ os) = do id ← bare_id start o; rest ← bare_ids start os; ok (id ∷ rest)

  unfoldable pub list_allowed : Actor → Bytes → Bytes → Result (List Bytes)
  list_allowed actor action resource_type = do
    user ← subject actor
    relation ← relation_name u action
    name ← resource_type_name u resource_type
    response ← authorizer.client.list_objects user relation name
    objects ← required response
    bare_ids (name ++ colon ∷ []) objects
