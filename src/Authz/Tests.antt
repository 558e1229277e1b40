-- ===== src/Authz/Tests.antt =====
-- Runs of the authorization on small inputs, and the theorems at concrete inputs.
use servora_platform.Common.{
  Unique, ℕ, ◌≡◌, ◌-◌, refl, Bool, true, false, List, [], ◌∷◌, ◌++◌, Option, none, some, All, all,
  map, ltb, eqb, length, if◌then◌else◌,
}
use servora_platform.Cap.Bytes
use servora_platform.Cap.Bytes.{Bytes}
use servora_platform.Authz.Text
use servora_platform.Authz.Text.{
  Unicode, IsUtf8, Failure, Result, ok, fail, colon, cut, resource_object, valid_resource_id,
}
use servora_platform.Authz.Actor
use servora_platform.Authz.Actor.{Actor, ActorType}
use servora_platform.Authz.Check
use servora_platform.Authz.Check.{
  Authorizer, Client, Request, Item, ItemResult, subject, list_allowed, batch_check,
}
use servora_platform.Authz.Message
use servora_platform.Authz.Server
use servora_platform.Authz.Server.{Rule, Rules, Mode, Call, Answer, server, handled}
use servora_platform.Authz.Objects.{cut-resource_object, list_allowed_ok}
use servora_platform.Authz.Guard.{IsOpen, server_handled}
use servora_platform.Authz.Correlation.{items_from-Unique}
use servora_platform.Authz.Batches.{Answers, batch_check_ok}

abbrev is_ascii : Bytes → Bool
is_ascii = all (λ b. ltb b 128)

abbrev ascii : Unicode
ascii = record {
  decode = λ b. if is_ascii b then some b else none;
  rune_count = length;
  is_space = λ r. eqb r 32;
  is_control = λ r. ltb r 32;
}

ascii-IsUtf8 : IsUtf8 ascii
ascii-IsUtf8 = record { ascii = λ b rs e _. by_range b rs (is_ascii b) e }
  where
    by_range :
        (b rs : Bytes) (t : Bool)
        → ◌≡◌ {A = Option Bytes} (if t then some b else none) (some rs)
        → rs ≡ b
    by_range b rs true e = cc
    by_range b rs false e = cc

-- doc, get, user and a 7.
abbrev doc : Bytes
doc = 100 ∷ 111 ∷ 99 ∷ []

abbrev get : Bytes
get = 103 ∷ 101 ∷ 116 ∷ []

abbrev seven : Bytes
seven = 55 ∷ []

abbrev ann : Actor
ann = record { type = ActorType.human; id = 97 ∷ [] }

abbrev result_of : Item → Bytes × ItemResult
result_of i = (i.correlation_id, record { error = none; allowed = some true })

abbrev open_door : Authorizer
open_door = record {
  client = record {
    check = λ user relation object. ok (some true);
    batch_check = λ is. ok (some (map result_of is));
    list_objects = λ user relation type. ok (some ((doc ++ colon ∷ seven) ∷ []));
  };
  map_subject = λ actor. ok (117 ∷ colon ∷ actor.id);
}

runtime : Unit {0}
unfolding Bytes.same Bytes.itoa Bytes.itoa_digits Text.is_name_rune Text.are_name_runes cut
    Text.valid_provider_name valid_resource_id Text.relation_name Text.resource_type_name
    resource_object Actor.valid_for Actor.valid Actor.actor_from Check.item_allowed Check.find
    Check.strip_prefix subject Check.request_parts Check.check Check.items_from Check.collect
    batch_check Check.bare_id Check.bare_ids list_allowed Message.by_name Message.message_of
    Message.id_text Message.read_id Message.enter Message.walk Message.resource_id_from_request
    Server.copied Server.merged Server.new_rules Server.api_error Server.as_answer Server.known
    Server.target Server.decide Server.by_rule server
runtime = tt

object_made : resource_object ascii doc seven ≡ ok (doc ++ colon ∷ seven)
unfolding runtime
object_made = refl

cut-resource_object_example : cut (doc ++ colon ∷ seven) ≡ some (doc, seven)
cut-resource_object_example =
    cut-resource_object ascii ascii-IsUtf8 doc seven (doc ++ colon ∷ seven) object_made

listed : list_allowed ascii open_door ann get doc ≡ ok (seven ∷ [])
unfolding runtime
listed = refl

list_allowed_ok_example :
    (user : Bytes) × (subject ascii open_door ann ≡ ok user)
    × (open_door.client.list_objects user get doc
        ≡ ok (some (map (λ id. (doc ++ colon ∷ []) ++ id) (seven ∷ []))))
    × All (λ id. valid_resource_id ascii id (256 - length (doc ++ colon ∷ [])) ≡ true) (seven ∷ [])
list_allowed_ok_example = list_allowed_ok ascii open_door ann get doc (seven ∷ []) listed

abbrev question : Request
question = record { actor = ann; action = get; resource_type = doc; resource_id = seven }

batch_returns : batch_check ascii open_door (question ∷ question ∷ []) ≡ ok (true ∷ true ∷ [])
unfolding runtime
batch_returns = refl

batch_check_ok_example :
    (is : List Item) × (results : List (Bytes × ItemResult)) × (open_door.client.batch_check is
      ≡ ok (some results))
    × Answers ascii open_door results 0 (question ∷ question ∷ []) is (true ∷ true ∷ [])
batch_check_ok_example =
    batch_check_ok ascii open_door question (question ∷ []) (true ∷ true ∷ []) batch_returns

abbrev item_of : Bytes → Item
item_of c = record {
  user = 117 ∷ colon ∷ 97 ∷ [];
  relation = get;
  object = doc ++ colon ∷ seven;
  correlation_id = c;
}

abbrev two_items : List Item
two_items = item_of (48 ∷ []) ∷ item_of (49 ∷ []) ∷ []

items_made : Check.items_from ascii open_door 0 (question ∷ question ∷ []) ≡ ok two_items
unfolding runtime
items_made = refl

items_from-Unique_example : Unique (λ (i : Item). i.correlation_id) two_items
items_from-Unique_example =
    items_from-Unique ascii open_door (question ∷ question ∷ []) two_items items_made

-- A rule that takes the resource from the field id of the request.
abbrev id_field : Bytes
id_field = 105 ∷ 100 ∷ []

abbrev rule : Rule
rule = record {
  mode = Mode.required_mode;
  action = get;
  resource_type = doc;
  resource_id = [];
  resource_id_field = id_field ∷ [];
}

abbrev rules : Rules
rules = Server.new_rules (some ((get, rule) ∷ []) ∷ none ∷ [])

abbrev call_by : Option Actor → Call
call_by actor = record {
  operation = some get;
  actor = actor;
  request = some (
      Message.field
        (record {
          name = id_field;
          in_oneof = false;
          is_list_or_map = false;
          has_presence = false;
          has = true;
        })
        (Message.text seven) Message.end);
}

abbrev serve : Option Actor → Answer ℕ
serve actor =
    server ascii open_door (λ negative n. Bytes.itoa n) Bytes.itoa (λ b. b) rules (call_by actor)
      200

served : serve (some ann) ≡ handled 200
unfolding runtime
served = refl

-- Without an actor the call is refused.
unknown_refused : serve none ≡ Server.refused Server.api_unauthenticated
unfolding runtime
unknown_refused = refl

server_handled_example :
    (operation : Bytes) × (rule : Rule) × ((call_by (some ann)).operation ≡ some operation)
    × (rules operation ≡ some rule)
    × IsOpen ascii open_door
        (λ negative n. Bytes.itoa n)
        Bytes.itoa
        (λ b. b)
        rule
        (call_by (some ann))
server_handled_example =
    server_handled ascii open_door (λ negative n. Bytes.itoa n) Bytes.itoa (λ b. b) rules
      (call_by (some ann)) 200 200 served
