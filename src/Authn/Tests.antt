-- ===== src/Authn/Tests.antt =====
-- Runs of the authentication by session, and its theorem at a concrete input.
use servora_platform.Common.{
  ◌≡◌, ltb, eqb, length, refl, ◌⊎◌, true, [], if◌then◌else◌, ◌∷◌, ℕ, Option, none, some,
}
use servora_platform.Cap.Bytes.{Bytes}
use servora_platform.Cap.Bytes
use servora_platform.Authz.Text
use servora_platform.Authz.Text.{Unicode, ok}
use servora_platform.Authz.Actor
use servora_platform.Authz.Actor.{Actor, ActorType}
use servora_platform.Authz.Check
use servora_platform.Authz.Check.{Authorizer}
use servora_platform.Authz.Server
use servora_platform.Authz.Server.{Rule, Call, server, handled}
use servora_platform.Authn.Session
use servora_platform.Authn.Session.{
  Reason, done, failed, Cookie, cookie, no_cookie, AuthnMode, AuthnRules, Context, Entry, refused,
  entered, Authenticator, AuthnCall, session_server, anonymous,
}
use servora_platform.Authn.Together.{IsSessionCall, authorized_session}
use servora_platform.Authn.Trusted.{IsLetIn, session_server_entered}

abbrev ann : Actor
ann = record { type = ActorType.human; id = 97 ∷ [] }

-- A header of one byte names no cookie, a longer one has the cookie's value after its first byte.
abbrev parse : Bytes → Bytes → Cookie
parse (b ∷ c ∷ bs) name = cookie (c ∷ bs)
parse _ name = no_cookie

-- An extender that counts its runs.
abbrev authenticator : Authenticator ℕ ℕ
authenticator = record {
  cookie_name = 115 ∷ [];
  resolve = λ ctx credential. done 7;
  map_actor = λ n. done ann;
  extend = some (λ ctx n. some (record ctx { values = n }));
}

abbrev fresh : Context ℕ
fresh = record { actor = none; ended = none; values = 0 }

abbrev rules : AuthnRules
rules operation =
    if Bytes.same operation (1 ∷ [])
    then some AuthnMode.public_mode
    else if Bytes.same operation (2 ∷ [])
    then some AuthnMode.required_mode
    else none

abbrev call_to : ℕ → Option Bytes → AuthnCall
call_to n header = record { operation = some (n ∷ []); header = header }

runtime : Unit {0}
unfolding Session.session_server Session.by_authn_mode Session.trust Session.authenticate
    Session.cookie_credential Session.cookie_value Session.extended Session.check_extended
    Session.mapped Session.map_error Session.as_entry Session.session_error Session.same_actor
    Session.same_type Actor.valid Actor.valid_for Actor.actor_from Bytes.same
runtime = tt

abbrev cookie_header : Option Bytes
cookie_header = some (1 ∷ 42 ∷ [])

abbrev signed_in : Context ℕ
signed_in = record { actor = some ann; ended = none; values = 7 }

let_in :
    session_server parse authenticator rules (call_to 2 cookie_header) fresh ≡ entered signed_in
unfolding runtime
let_in = refl

-- A session is not looked for under a public rule.
public_anonymous :
    session_server parse authenticator rules (call_to 1 cookie_header) fresh
    ≡ entered (record { actor = some anonymous; ended = none; values = 0 })
unfolding runtime
public_anonymous = refl

without_cookie :
    session_server parse authenticator rules (call_to 2 (some (1 ∷ []))) fresh
    ≡ refused Server.api_unauthenticated
unfolding runtime
without_cookie = refl

without_rule :
    session_server parse authenticator rules (call_to 3 cookie_header) fresh
    ≡ refused Server.api_internal
unfolding runtime
without_rule = refl

session_server_entered_example :
    (operation : Bytes) × ((call_to 2 cookie_header).operation ≡ some operation)
    × IsLetIn parse authenticator (rules operation) (call_to 2 cookie_header) fresh signed_in
session_server_entered_example =
    session_server_entered parse authenticator rules (call_to 2 cookie_header) fresh signed_in
      let_in

abbrev unicode : Unicode
unicode = record {
  decode = λ b. some b;
  rune_count = length;
  is_space = λ r. eqb r 32;
  is_control = λ r. ltb r 32;
}

abbrev open_door : Authorizer
open_door = record {
  client = record {
    check = λ user relation object. ok (some true);
    batch_check = λ is. ok none;
    list_objects = λ user relation type. ok none;
  };
  map_subject = λ actor. ok (117 ∷ 58 ∷ actor.id);
}

-- get, on the document 7.
abbrev rule : Rule
rule = record {
  mode = Server.Mode.required_mode;
  action = 103 ∷ 101 ∷ 116 ∷ [];
  resource_type = 100 ∷ 111 ∷ 99 ∷ [];
  resource_id = 55 ∷ [];
  resource_id_field = [];
}

abbrev guards : Bytes → Option Rule
guards operation = if Bytes.same operation (2 ∷ []) then some rule else none

abbrev guarded : Call
guarded = record { operation = some (2 ∷ []); actor = some ann; request = none }

guard_runtime : Unit {0}
unfolding runtime Text.is_name_rune Text.are_name_runes Text.valid_provider_name
    Text.valid_resource_id Text.relation_name Text.resource_type_name Text.resource_object Text.cut
    Check.subject Check.request_parts Check.check Server.as_answer Server.known Server.target
    Server.decide Server.by_rule server
guard_runtime = tt

abbrev serve : Server.Answer ℕ
serve = server unicode open_door (λ negative n. Bytes.itoa n) Bytes.itoa (λ b. b) guards guarded 200

served : serve ≡ handled 200
unfolding guard_runtime
served = refl

authorized_session_example :
    (operation : Bytes) × (rule : Rule) × ((call_to 2 cookie_header).operation ≡ some operation)
    × (guards operation ≡ some rule)
    × ((rule.mode ≡ Server.Mode.none_needed)
        ⊎ ((rules operation ≡ some AuthnMode.required_mode)
            × IsSessionCall unicode open_door
                (λ negative n. Bytes.itoa n)
                Bytes.itoa
                (λ b. b)
                parse
                authenticator
                rule
                (call_to 2 cookie_header)
                fresh
                signed_in
                guarded))
authorized_session_example =
    authorized_session unicode open_door (λ negative n. Bytes.itoa n) Bytes.itoa (λ b. b) parse
      authenticator rules guards (call_to 2 cookie_header) guarded fresh signed_in 200 200 let_in
      refl refl served
