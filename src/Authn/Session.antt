-- ===== src/Authn/Session.antt =====
-- security/authn/session: authn.go, credential.go and middleware.go. The resolver of a credential, the
-- mapping of an identity to an actor, the extension of the context and the parsing of cookies are
-- parameters. A context is the actor it holds, the error it ended with, and the rest of its values.
use servora_platform.Common.{
  Bool, true, false, not, ◌&&◌, ◌||◌, List, Option, none, some, if◌then◌else◌,
}
use servora_platform.Cap.Bytes.{Bytes, same}
use servora_platform.Authz.Text.{is_empty}
use servora_platform.Authz.Actor.{Actor, ActorType, valid, actor_from, is_anonymous}
use servora_platform.Authz.Server.{
  ApiError, api_cancelled, api_unauthenticated, api_unavailable, api_internal,
}

pub data Reason : Type 0 where
  missing_credentials invalid_credentials dependency_unavailable : Reason
  actor_mapping context_extension : Reason
  -- the context is cancelled, or past its deadline
  cancelled : Reason
  other_reason : Reason

pub data Attempt (A : Type 0) : Type 0 where
  done : A → Attempt A
  failed : Reason → Attempt A

infixl 5 ◌>>=◌ ◌>>◌
abbrev pub ◌>>=◌ : {A B : Type 0} → Attempt A → (A → Attempt B) → Attempt B
◌>>=◌ (done a) f = f a
◌>>=◌ (failed e) f = failed e

abbrev pub ◌>>◌ : {A B : Type 0} → Attempt A → Attempt B → Attempt B
◌>>◌ r s = r >>= λ _. s

abbrev pub when : Bool → Reason → Attempt (Unit {0})
when true e = failed e
when false e = done tt

-- What `request.Cookie(name)` finds in a header.
pub data Cookie : Type 0 where
  no_cookie malformed : Cookie
  cookie : Bytes → Cookie

unfoldable pub cookie_value : Cookie → Attempt Bytes
cookie_value no_cookie = failed Reason.missing_credentials
cookie_value malformed = failed Reason.invalid_credentials
cookie_value (cookie v) = if is_empty v then failed Reason.missing_credentials else done v

unfoldable pub cookie_credential : (Bytes → Bytes → Cookie) → Bytes → Bytes → Attempt Bytes
cookie_credential parse header name =
    if is_empty header then failed Reason.missing_credentials else cookie_value (parse header name)

unfoldable pub same_type : ActorType → ActorType → Bool
same_type ActorType.human ActorType.human = true
same_type ActorType.service ActorType.service = true
same_type ActorType.anonymous ActorType.anonymous = true
same_type (ActorType.unknown a) (ActorType.unknown b) = same a b
same_type _ _ = false

-- `stored == actor`.
unfoldable pub same_actor : Actor → Actor → Bool
same_actor a b = same_type a.type b.type && same a.id b.id

unfoldable pub session_error : Reason → ApiError
session_error Reason.cancelled = api_cancelled
session_error Reason.missing_credentials = api_unauthenticated
session_error Reason.invalid_credentials = api_unauthenticated
session_error Reason.actor_mapping = api_unauthenticated
session_error Reason.dependency_unavailable = api_unavailable
session_error Reason.context_extension = api_internal
session_error Reason.other_reason = api_internal

pub data AuthnMode : Type 0 where
  public_mode required_mode unsupported : AuthnMode

-- `authnpb.AuthnRule`, by operation.
abbrev pub AuthnRules : Type 0
AuthnRules = Bytes → Option AuthnMode

abbrev pub anonymous : Actor
anonymous = record { type = ActorType.anonymous; id = List.[] }

pub record Context (X : Type 0) : Type 0 where
  pub actor : Option Actor
  pub ended : Option Reason
  pub values : X

-- The answer to a call: an error of the middleware, or the context with which its handler runs.
pub data Entry (X : Type 0) : Type 0 where
  refused : ApiError → Entry X
  entered : Context X → Entry X

pub record Authenticator (X T : Type 0) : Type 0 where
  pub cookie_name : Bytes
  pub resolve : Context X → Bytes → Attempt T
  pub map_actor : T → Attempt Actor
  -- none is no extender; a result of none is the nil context
  pub extend : Option (Context X → T → Option (Context X))

-- What a call brings: its operation where the context has a transport, and the Cookie header where
-- the request has headers.
pub record AuthnCall : Type 0 where
  pub operation : Option Bytes
  pub header : Option Bytes

abbrev pub given : {A : Type 0} → Option A → Reason → Attempt A
given none e = failed e
given (some a) e = done a

abbrev pub with_actor : {X : Type 0} → Context X → Actor → Context X
with_actor ctx actor = record ctx { actor = some actor }

abbrev pub holds : Option Actor → Actor → Bool
holds none actor = false
holds (some stored) actor = same_actor stored actor

unfoldable pub check_extended : {X : Type 0} → Option (Context X) → Actor → Attempt (Context X)
check_extended none actor = failed Reason.context_extension
check_extended (some ctx) actor = do
  when (not (holds (actor_from ctx.actor) actor)) Reason.context_extension
  done ctx

abbrev pub not_ended : Option Reason → Attempt (Unit {0})
not_ended none = done tt
not_ended (some e) = failed e

-- The mapper's error is wrapped, so that a cancellation is still seen in it.
unfoldable pub map_error : Reason → Reason
map_error Reason.cancelled = Reason.cancelled
map_error _ = Reason.actor_mapping

unfoldable pub mapped : Attempt Actor → Attempt Actor
mapped (done actor) = done actor
mapped (failed e) = failed (map_error e)

unfoldable pub as_entry : {X : Type 0} → Attempt (Context X) → Entry X
as_entry (done ctx) = entered ctx
as_entry (failed e) = refused (session_error e)

module _ {X T : Type 0} where
  unfoldable pub extended :
      Option (Context X → T → Option (Context X)) → Context X → T → Actor → Attempt (Context X)
  extended none ctx identity actor = done ctx
  extended (some extend) ctx identity actor = check_extended (extend ctx identity) actor

  unfoldable pub authenticate : Authenticator X T → Context X → Bytes → Attempt (Context X)
  authenticate authenticator ctx credential = do
    not_ended ctx.ended
    identity ← authenticator.resolve ctx credential
    actor ← mapped (authenticator.map_actor identity)
    when (not (valid actor) || is_anonymous actor.type) Reason.actor_mapping
    extended authenticator.extend (with_actor ctx actor) identity actor

  module _ (parse : Bytes → Bytes → Cookie) (authenticator : Authenticator X T) where
    unfoldable pub trust : AuthnCall → Context X → Attempt (Context X)
    trust call ctx = do
      header ← given call.header Reason.other_reason
      credential ← cookie_credential parse header authenticator.cookie_name
      authenticate authenticator ctx credential

    unfoldable pub by_authn_mode : Option AuthnMode → AuthnCall → Context X → Entry X
    by_authn_mode none call ctx = refused (session_error Reason.other_reason)
    by_authn_mode (some AuthnMode.public_mode) call ctx = entered (with_actor ctx anonymous)
    by_authn_mode (some AuthnMode.required_mode) call ctx = as_entry (trust call ctx)
    by_authn_mode (some AuthnMode.unsupported) call ctx =
        refused (session_error Reason.other_reason)

    -- `Server`, up to the handler.
    unfoldable pub session_server : AuthnRules → AuthnCall → Context X → Entry X
    session_server rules call ctx = elim call.operation [
      | none ↦ refused (session_error Reason.other_reason)
      | some operation ↦ by_authn_mode (rules operation) call ctx
    ]
