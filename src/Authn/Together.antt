-- ===== src/Authn/Together.antt =====
-- The authentication followed by the authorization: who the calls that pass both are made for.
use servora_platform.Common.{
  ◌≡◌, refl, sym, ap, ◌∙◌, Bool, true, false, Option, some, ◌⊎◌, inl, inr, ℕ,
}
use servora_platform.Cap.Bytes.{Bytes}
use servora_platform.Authz.Text.{Unicode}
use servora_platform.Authz.Actor.{Actor, valid, valid_for, actor_from, is_anonymous}
use servora_platform.Authz.Check.{Authorizer}
use servora_platform.Authz.Server
use servora_platform.Authz.Server.{Rule, Rules, Call, handled, server}
use servora_platform.Authz.Guard.{IsAllowed, server_handled}
use servora_platform.Authn.Session.{
  Cookie, AuthnMode, AuthnRules, Context, entered, Authenticator, AuthnCall, with_actor, holds,
  session_server, anonymous,
}
use servora_platform.Authn.Trusted.{IsTrusted, IsLetIn, session_server_entered}

some-≡ : {A : Type 0} {a b : A} → some a ≡ some b → a ≡ b
some-≡ q = cc

read_anonymous :
    {X : Type 0} (ctx : Context X) → actor_from ((with_actor ctx anonymous).actor) ≡ some anonymous
unfolding actor_from valid valid_for
read_anonymous ctx = refl

module _ (u : Unicode) (authorizer : Authorizer) (format_int : Bool → ℕ → Bytes)
    (format_uint : ℕ → Bytes) (trim_space : Bytes → Bytes) where
  module _ {X T : Type 0} (parse : Bytes → Bytes → Cookie) (authenticator : Authenticator X T) where
    -- The actor that OpenFGA was asked about is the one of the session.
    pub record IsSessionCall (rule : Rule) (call : AuthnCall) (ctx ctx' : Context X)
        (guarded : Call) : Type 0 where
      pub session : IsTrusted parse authenticator call ctx ctx'
      pub allowed : IsAllowed u authorizer format_int format_uint trim_space rule guarded
      pub its_actor : holds (some allowed.actor) session.actor ≡ true

    both :
        (rule : Rule) (mode : Option AuthnMode) (call : AuthnCall) (ctx ctx' : Context X)
        (guarded : Call)
        → guarded.actor ≡ ctx'.actor
        → IsLetIn parse authenticator mode call ctx ctx'
        → IsAllowed u authorizer format_int format_uint trim_space rule guarded
        → (mode ≡ some AuthnMode.required_mode) × IsSessionCall rule call ctx ctx' guarded
    both rule mode call ctx ctx' guarded e (inl (m, q)) w =
        absurd (clash (ap (λ (a : Actor). is_anonymous a.type) who ∙ w.known_actor))
      where
        who : anonymous ≡ w.actor
        who = some-≡ (
            sym (read_anonymous ctx)
            ∙ ap (λ (c : Context X). actor_from c.actor) (sym q)
            ∙ ap actor_from (sym e)
            ∙ w.its_actor)

        clash : true ≡ false → ⊥
        clash q = cc
    both rule mode call ctx ctx' guarded e (inr (m, t)) w = (
      m,
      record {
        session = t;
        allowed = w;
        its_actor = ap (λ o. holds o t.actor) (sym w.its_actor ∙ ap actor_from e) ∙ t.held;
      },
    )

    -- A call that passes the authentication by session and then, with the context it made, the
    -- authorization of the same operation, either has an authorization rule that asks for nothing,
    -- or has an authentication rule that requires a session: its cookie names a session, and OpenFGA
    -- allowed the call for an actor equal to the one of that session. So a public route never passes
    -- a rule that requires authorization.
    pub authorized_session :
        {A : Type 0} (rules : AuthnRules) (guards : Rules) (call : AuthnCall) (guarded : Call)
        (ctx ctx' : Context X) (a b : A)
        → session_server parse authenticator rules call ctx ≡ entered ctx'
        → guarded.operation ≡ call.operation
        → guarded.actor ≡ ctx'.actor
        → server u authorizer format_int format_uint trim_space guards guarded a ≡ handled b
        → (operation : Bytes) × (rule : Rule) × (call.operation ≡ some operation)
          × (guards operation ≡ some rule)
          × ((rule.mode ≡ Server.Mode.none_needed)
              ⊎ ((rules operation ≡ some AuthnMode.required_mode)
                  × IsSessionCall rule call ctx ctx' guarded))
    authorized_session rules guards call guarded ctx ctx' a b h o e g =
        let (operation, its_operation, in_by) =
          session_server_entered parse authenticator rules call ctx ctx' h in
        let (found, rule, its_found, its_rule, open_by) =
          server_handled u authorizer format_int format_uint trim_space guards guarded a b g in
        let same_operation : found ≡ operation = some-≡ (sym its_found ∙ o ∙ its_operation) in
        (
          operation,
          rule,
          its_operation,
          rw same_operation at its_rule,
          elim open_by [
            | inl m ↦ inl m
            | inr q ↦ inr (both rule (rules operation) call ctx ctx' guarded e in_by q.1)
          ],
        )
