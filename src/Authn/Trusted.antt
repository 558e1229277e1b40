-- ===== src/Authn/Trusted.antt =====
-- Which calls reach their handler, and for whom: a public rule only ever gives the anonymous actor, and
-- a rule that requires authentication the actor of the session that the cookie names.
use servora_platform.Common.{
  ◌≡◌, refl, ap, Bool, true, false, not, ◌||◌, Option, none, some, ◌⊎◌, inl, inr,
}
use servora_platform.Cap.Bytes.{Bytes, same_refl}
use servora_platform.Authz.Actor.{Actor, ActorType, valid, actor_from, is_anonymous}
use servora_platform.Authn.Session.{
  Reason, Attempt, done, failed, ◌>>=◌, when, Cookie, cookie_credential, same_type, same_actor,
  AuthnMode, AuthnRules, Context, Entry, refused, entered, Authenticator, AuthnCall, session_error,
  given, with_actor, holds, check_extended, not_ended, mapped, extended, authenticate, as_entry,
  trust, by_authn_mode, session_server, anonymous,
}

then_done :
    {A B : Type 0} (r : Attempt A) (f : A → Attempt B) {b : B}
    → (r >>= f) ≡ done b
    → (a : A) × (r ≡ done a) × (f a ≡ done b)
then_done (done a) f h = (a, refl, h)
then_done (failed e) f h = cc

when_done : (b : Bool) (e : Reason) {u : Unit {0}} → when b e ≡ done u → b ≡ false
when_done true e h = cc
when_done false e h = refl

given_done : {A : Type 0} (o : Option A) (e : Reason) {a : A} → given o e ≡ done a → o ≡ some a
given_done none e h = cc
given_done (some a) e h = cc

not_ended_done : (o : Option Reason) {u : Unit {0}} → not_ended o ≡ done u → o ≡ none
not_ended_done none h = refl
not_ended_done (some e) h = cc

mapped_done : (r : Attempt Actor) {a : Actor} → mapped r ≡ done a → r ≡ done a
unfolding mapped
mapped_done (done a) h = h
mapped_done (failed e) h = cc

as_entry_done :
    {X : Type 0} (r : Attempt (Context X)) {x : Context X} → as_entry r ≡ entered x → r ≡ done x
unfolding as_entry
as_entry_done (done a) q = cc
as_entry_done (failed e) q = cc

same_type_refl : (t : ActorType) → same_type t t ≡ true
unfolding same_type
same_type_refl ActorType.human = refl
same_type_refl ActorType.service = refl
same_type_refl ActorType.anonymous = refl
same_type_refl (ActorType.unknown a) = same_refl a

same_actor_refl : (a : Actor) → same_actor a a ≡ true
unfolding same_actor
same_actor_refl a = rw (same_type_refl a.type, same_refl a.id)

known : (v n : Bool) → (not v || n) ≡ false → (v ≡ true) × (n ≡ false)
known true n h = (refl, h)
known false n h = cc

-- An actor is in the context as it is read.
abbrev pub Holds : {X : Type 0} → Context X → Actor → Type 0
Holds ctx actor = holds (actor_from ctx.actor) actor ≡ true

with_actor-Holds :
    {X : Type 0} (ctx : Context X) (actor : Actor)
    → valid actor ≡ true
    → Holds (with_actor ctx actor) actor
unfolding actor_from
with_actor-Holds ctx actor v = rw (v, same_actor_refl actor)

module _ {X : Type 0} where
  checked :
      (o : Option (Context X)) (actor : Actor) {ctx : Context X}
      → check_extended o actor ≡ done ctx
      → (o ≡ some ctx) × Holds ctx actor
  unfolding check_extended
  checked none actor h = cc
  checked (some new) actor {ctx} h =
      let (_, held, h1) = then_done (when (not (holds (actor_from new.actor) actor)) _) _ h in
      let same_ctx : new ≡ ctx = value h1 in
      (
        ap some same_ctx,
        still (kept (holds (actor_from new.actor) actor) (when_done _ _ held)) same_ctx,
      )
    where
      value : {x y : Context X} → done x ≡ done y → x ≡ y
      value q = cc

      kept : (b : Bool) → not b ≡ false → b ≡ true
      kept true q = refl
      kept false q = cc

      still : {x y : Context X} → Holds x actor → x ≡ y → Holds y actor
      still k q = rw q at k

module _ {X T : Type 0} where
  extended_done :
      (e : Option (Context X → T → Option (Context X))) (ctx : Context X) (identity : T)
      (actor : Actor) {ctx' : Context X}
      → Holds ctx actor
      → extended e ctx identity actor ≡ done ctx'
      → Holds ctx' actor
  unfolding extended
  extended_done none ctx identity actor {ctx'} held h = transport_held held (value h)
    where
      value : {x y : Context X} → done x ≡ done y → x ≡ y
      value q = cc

      transport_held : {x y : Context X} → Holds x actor → x ≡ y → Holds y actor
      transport_held k q = rw q at k
  extended_done (some extend) ctx identity actor held h = (checked (extend ctx identity) actor h).1

  module _ (parse : Bytes → Bytes → Cookie) (authenticator : Authenticator X T) where
    -- The session behind a call and its actor.
    pub record IsTrusted (call : AuthnCall) (ctx ctx' : Context X) : Type 0 where
      pub header : Bytes
      pub credential : Bytes
      pub identity : T
      pub actor : Actor
      pub its_header : call.header ≡ some header
      pub its_credential :
          cookie_credential parse header authenticator.cookie_name ≡ done credential
      pub open_context : ctx.ended ≡ none
      pub resolved : authenticator.resolve ctx credential ≡ done identity
      pub its_actor : authenticator.map_actor identity ≡ done actor
      pub its_valid : valid actor ≡ true
      pub its_known : is_anonymous actor.type ≡ false
      pub held : Holds ctx' actor

    trust_done :
        (call : AuthnCall) (ctx : Context X) {ctx' : Context X}
        → trust parse authenticator call ctx ≡ done ctx'
        → IsTrusted call ctx ctx'
    unfolding trust authenticate
    trust_done call ctx h =
        let (header, g, h1) = then_done (given call.header Reason.other_reason) _ h in
        let (credential, c, h2) =
          then_done (cookie_credential parse header authenticator.cookie_name) _ h1 in
        let (_, o, h3) = then_done (not_ended ctx.ended) _ h2 in
        let (identity, r, h4) = then_done (authenticator.resolve ctx credential) _ h3 in
        let (actor, m, h5) = then_done (mapped (authenticator.map_actor identity)) _ h4 in
        let (_, w, h6) = then_done (when (not (valid actor) || is_anonymous actor.type) _) _ h5 in
        let (v, k) = known (valid actor) _ (when_done _ _ w) in
        record {
          header = header;
          credential = credential;
          identity = identity;
          actor = actor;
          its_header = given_done _ _ g;
          its_credential = c;
          open_context = not_ended_done _ o;
          resolved = r;
          its_actor = mapped_done _ m;
          its_valid = v;
          its_known = k;
          held =
              extended_done authenticator.extend _ identity actor (with_actor-Holds ctx actor v) h6;
        }

    -- How a call came in: without a session under a public rule, or with the one its cookie names.
    abbrev pub IsLetIn : Option AuthnMode → AuthnCall → Context X → Context X → Type 0
    IsLetIn mode call ctx ctx' =
        ((mode ≡ some AuthnMode.public_mode) × (ctx' ≡ with_actor ctx anonymous))
        ⊎ ((mode ≡ some AuthnMode.required_mode) × IsTrusted call ctx ctx')

    mode_entered :
        (mode : Option AuthnMode) (call : AuthnCall) (ctx : Context X) {ctx' : Context X}
        → by_authn_mode parse authenticator mode call ctx ≡ entered ctx'
        → IsLetIn mode call ctx ctx'
    unfolding by_authn_mode
    mode_entered none call ctx h = cc
    mode_entered (some AuthnMode.public_mode) call ctx h = inl (refl, value h)
      where
        value : {x y : Context X} → entered x ≡ entered y → y ≡ x
        value q = cc
    mode_entered (some AuthnMode.required_mode) call ctx h =
        inr (refl, trust_done call ctx (as_entry_done (trust parse authenticator call ctx) h))
    mode_entered (some AuthnMode.unsupported) call ctx h = cc

    with_operation :
        (rules : AuthnRules) (call : AuthnCall) (ctx : Context X) (o : Option Bytes)
        {ctx' : Context X}
        → (elim o as (λ _. Entry X) [
          | none ↦ refused (session_error Reason.other_reason)
          | some operation ↦ by_authn_mode parse authenticator (rules operation) call ctx
        ])
          ≡ entered ctx'
        → (operation : Bytes) × (o ≡ some operation) × IsLetIn (rules operation) call ctx ctx'
    with_operation rules call ctx none h = cc
    with_operation rules call ctx (some operation) h =
        (operation, refl, mode_entered (rules operation) call ctx h)

    -- A call reaches its handler only where its operation has a rule. Under a public rule the context
    -- of the handler is the call's with the anonymous actor. Under a rule that requires
    -- authentication, the Cookie header has a credential that the resolver accepts, in a context that
    -- has not ended, and the actor read from the handler's context equals the one that its identity
    -- is mapped to, which is valid and not anonymous, whatever the extender did.
    pub session_server_entered :
        (rules : AuthnRules) (call : AuthnCall) (ctx ctx' : Context X)
        → session_server parse authenticator rules call ctx ≡ entered ctx'
        → (operation : Bytes) × (call.operation ≡ some operation)
          × IsLetIn (rules operation) call ctx ctx'
    unfolding session_server
    session_server_entered rules call ctx ctx' h = with_operation rules call ctx call.operation h
