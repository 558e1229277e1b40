-- ===== src/Authz/Server.antt =====
-- security/authz/openfga/middleware.go and security/authz/rules.go: which calls reach their handler.
use servora_platform.Common.{
  ℕ, Bool, true, false, not, List, [], ◌∷◌, Option, none, some, if◌then◌else◌,
}
use servora_platform.Cap.Bytes.{Bytes}
use servora_platform.Authz.Text.{Unicode, Failure, Result, ok, fail, ◌>>=◌, is_empty}
use servora_platform.Authz.Actor.{Actor, actor_from, is_anonymous}
use servora_platform.Authz.Check.{Authorizer, check, find}
use servora_platform.Authz.Message.{Fields, resource_id_from_request}

pub data Mode : Type 0 where
  none_needed required_mode : Mode
  -- unspecified, or a number without a name
  unsupported : Mode

-- `authzpb.AuthzRule`, with the path of its field split at the dots.
pub record Rule : Type 0 where
  pub mode : Mode
  pub action : Bytes
  pub resource_type : Bytes
  pub resource_id : Bytes
  pub resource_id_field : List Bytes

abbrev pub Rules : Type 0
Rules = Bytes → Option Rule

-- `maps.Copy` of one provider's rules; a provider that is nil is left out.
unfoldable pub copied : Rules → Option (List (Bytes × Rule)) → Rules
copied rules none operation = rules operation
copied rules (some provided) operation = elim (find operation provided) [
  | none ↦ rules operation
  | some r ↦ some r
]

unfoldable pub merged : Rules → List (Option (List (Bytes × Rule))) → Rules
merged rules [] = rules
merged rules (p ∷ ps) = merged (copied rules p) ps

unfoldable pub new_rules : List (Option (List (Bytes × Rule))) → Rules
new_rules providers = merged (λ operation. none) providers

-- The errors of the API.
pub data ApiError : Type 0 where
  api_cancelled : ApiError
  api_unauthenticated api_invalid_argument api_unavailable api_internal : ApiError

unfoldable pub api_error : Failure → ApiError
api_error Failure.cancelled = ApiError.api_cancelled
api_error Failure.unauthenticated = ApiError.api_unauthenticated
api_error Failure.invalid_input = ApiError.api_invalid_argument
api_error Failure.unavailable = ApiError.api_unavailable
api_error Failure.rate_limited = ApiError.api_unavailable
api_error Failure.provider_internal = ApiError.api_unavailable
api_error Failure.required_param = ApiError.api_invalid_argument
api_error Failure.invalid_param = ApiError.api_invalid_argument
api_error Failure.validation = ApiError.api_invalid_argument
api_error Failure.unsupported_type = ApiError.api_invalid_argument
api_error Failure.unsupported_value = ApiError.api_invalid_argument
api_error Failure.network = ApiError.api_unavailable
api_error Failure.other = ApiError.api_internal

-- The answer to a call: an error of the middleware, a denial, or what the handler made of it.
pub data Answer (A : Type 0) : Type 0 where
  refused : ApiError → Answer A
  denied : Answer A
  handled : A → Answer A

-- What a call brings: its operation where the context has a transport, the actor of the context, and
-- the request as a message.
pub record Call : Type 0 where
  pub operation : Option Bytes
  pub actor : Option Actor
  pub request : Option Fields

abbrev pub invalid : {A : Type 0} → Result A → Result A
invalid (ok a) = ok a
invalid (fail e) = fail Failure.invalid_input

unfoldable pub as_answer : {A : Type 0} → Result Bool → A → Answer A
as_answer (ok true) a = handled a
as_answer (ok false) a = denied
as_answer (fail e) a = refused (api_error e)

unfoldable pub known : Option Actor → Result Actor
known none = fail Failure.unauthenticated
known (some actor) = if is_anonymous actor.type then fail Failure.unauthenticated else ok actor

module _ (u : Unicode) (authorizer : Authorizer) (format_int : Bool → ℕ → Bytes)
    (format_uint : ℕ → Bytes) (trim_space : Bytes → Bytes) where
  unfoldable pub target : Rule → Option Fields → Result Bytes
  target rule request =
      if not (is_empty rule.resource_id) then ok rule.resource_id else elim rule.resource_id_field [
        | [] ↦ fail Failure.other
        | s ∷ ss ↦
            invalid (resource_id_from_request format_int format_uint trim_space (s ∷ ss) request)
      ]

  -- The decision on a call whose rule asks for authorization.
  unfoldable pub decide : Rule → Call → Result Bool
  decide rule call = do
    actor ← known (actor_from call.actor)
    resource_id ← target rule call.request
    check u authorizer (record {
      actor = actor;
      action = rule.action;
      resource_type = rule.resource_type;
      resource_id = resource_id;
    })

  unfoldable pub by_rule : {A : Type 0} → Option Rule → Call → A → Answer A
  by_rule none call answer = refused (api_error Failure.other)
  by_rule (some rule) call answer = elim rule.mode [
    | Mode.none_needed ↦ handled answer
    | Mode.required_mode ↦ as_answer (decide rule call) answer
    | Mode.unsupported ↦ refused (api_error Failure.other)
  ]

  -- `Server`, with what the handler would answer.
  unfoldable pub server : {A : Type 0} → Rules → Call → A → Answer A
  server rules call answer = elim call.operation [
    | none ↦ refused (api_error Failure.other)
    | some operation ↦ by_rule (rules operation) call answer
  ]
