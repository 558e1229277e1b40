-- ===== src/Authz/Guard.antt =====
-- Which calls reach their handler: the middleware lets a call through only on a rule, and only where
-- OpenFGA allows it.
use servora_platform.Common.{
  ◌≡◌, refl, sym, ap, ◌∙◌, Bool, true, false, ◌∷◌, ◌++◌, Option, none, some, ◌⊎◌, inl, inr,
  Bool-cases, ℕ,
}
use servora_platform.Cap.Bytes.{Bytes}
use servora_platform.Authz.Text.{Unicode, Failure, Result, ok, fail, colon}
use servora_platform.Authz.Actor.{Actor, valid, actor_from, is_anonymous}
use servora_platform.Authz.Check.{Authorizer, Request, request_parts, required, check}
use servora_platform.Authz.Server.{
  Mode, Rule, Rules, Answer, Call, api_error, as_answer, known, target, decide, by_rule, server,
  handled, refused,
}
use servora_platform.Authz.Objects.{then_ok, required_ok, request_parts_ok}

known_ok :
    (o : Option Actor) {a : Actor} → known o ≡ ok a → (o ≡ some a) × (is_anonymous a.type ≡ false)
unfolding known
known_ok none h = cc
known_ok (some actor) {a} h = elim (Bool-cases (is_anonymous actor.type)) [
  | inl hit ↦ absurd (clash (rw hit at h))
  | inr off ↦
      let same : actor ≡ a = same_value (rw off at h) in
      (ap some same, ap (λ (x : Actor). is_anonymous x.type) (sym same) ∙ off)
]
  where
    clash : {x : Actor} → ◌≡◌ {A = Result Actor} (fail Failure.unauthenticated) (ok x) → ⊥
    clash q = cc

    same_value : {x y : Actor} → ok x ≡ ok y → x ≡ y
    same_value q = cc

-- The actor read is the one of the context, and valid.
actor_from_ok :
    (o : Option Actor) {a : Actor} → actor_from o ≡ some a → (o ≡ some a) × (valid a ≡ true)
unfolding actor_from
actor_from_ok none h = cc
actor_from_ok (some actor) {a} h = elim (Bool-cases (valid actor)) [
  | inl good ↦
      let same : some actor ≡ some a = rw good at h in
      (same, ap valid (sym (some_value same)) ∙ good)
  | inr bad ↦ absurd (clash (rw bad at h))
]
  where
    clash : {x : Actor} → ◌≡◌ {A = Option Actor} none (some x) → ⊥
    clash q = cc

    some_value : {x y : Actor} → some x ≡ some y → x ≡ y
    some_value q = cc

module _ {A : Type 0} where
  answered : (r : Result Bool) (a : A) {b : A} → as_answer r a ≡ handled b → (r ≡ ok true) × (a ≡ b)
  unfolding as_answer
  answered (ok true) a h = (refl, value h)
    where
      value : {x y : A} → handled x ≡ handled y → x ≡ y
      value q = cc
  answered (ok false) a h = cc
  answered (fail e) a h = cc

-- A check that allowed is OpenFGA's answer for the subject, the action and the object of the resource.
check_ok :
    (u : Unicode) (authorizer : Authorizer) (r : Request)
    → check u authorizer r ≡ ok true
    → (user : Bytes) × (authorizer.map_subject r.actor ≡ ok user)
      × (authorizer.client.check user r.action (r.resource_type ++ colon ∷ r.resource_id)
          ≡ ok (some true))
unfolding check
check_ok u authorizer r h =
    let (parts, made, h1) = then_ok (request_parts u authorizer r) _ h in
    let (response, answer, last) =
      then_ok (authorizer.client.check parts.0 parts.1 parts.2) required h1 in
    let (mapped, same_relation, same_object) = request_parts_ok u authorizer r made in
    (
      parts.0,
      mapped,
      rw (← same_relation, ← same_object) (answer ∙ ap ok (required_ok response last)),
    )

module _ (u : Unicode) (authorizer : Authorizer) (format_int : Bool → ℕ → Bytes)
    (format_uint : ℕ → Bytes) (trim_space : Bytes → Bytes) where
  -- What OpenFGA allowed of a call, by a rule: its answer for the subject of a valid actor, the rule's
  -- action and the object of the resource.
  pub record IsAllowed (rule : Rule) (call : Call) : Type 0 where
    pub actor : Actor
    pub resource_id : Bytes
    pub user : Bytes
    pub given : call.actor ≡ some actor
    pub its_actor : actor_from call.actor ≡ some actor
    pub its_valid : valid actor ≡ true
    pub known_actor : is_anonymous actor.type ≡ false
    pub its_resource :
        target u authorizer format_int format_uint trim_space rule call.request ≡ ok resource_id
    pub its_user : authorizer.map_subject actor ≡ ok user
    pub checked :
        authorizer.client.check user rule.action (rule.resource_type ++ colon ∷ resource_id)
        ≡ ok (some true)

  decide_ok :
      (rule : Rule) (call : Call)
      → decide u authorizer format_int format_uint trim_space rule call ≡ ok true
      → IsAllowed rule call
  unfolding decide
  decide_ok rule call h =
      let (actor, found, h1) = then_ok (known (actor_from call.actor)) _ h in
      let (id, resolved, h2) =
        then_ok (target u authorizer format_int format_uint trim_space rule call.request) _ h1 in
      let (its_actor, known_actor) = known_ok (actor_from call.actor) found in
      let (given, its_valid) = actor_from_ok call.actor its_actor in
      let (user, its_user, checked) =
        check_ok u authorizer
          (record {
            actor = actor;
            action = rule.action;
            resource_type = rule.resource_type;
            resource_id = id;
          })
          h2 in
      record {
        actor = actor;
        resource_id = id;
        user = user;
        given = given;
        its_actor = its_actor;
        its_valid = its_valid;
        known_actor = known_actor;
        its_resource = resolved;
        its_user = its_user;
        checked = checked;
      }

  -- Why a call reached its handler: by a rule that asks for nothing, or one that OpenFGA allowed.
  abbrev pub IsOpen : Rule → Call → Type 0
  IsOpen rule call =
      (rule.mode ≡ Mode.none_needed) ⊎ ((rule.mode ≡ Mode.required_mode) × IsAllowed rule call)

  module _ {A : Type 0} where
    by_mode :
        (rule : Rule) (call : Call) (a : A) (m : Mode) {b : A}
        → rule.mode ≡ m
        → (elim m as (λ _. Answer A) [
          | Mode.none_needed ↦ handled a
          | Mode.required_mode ↦
              as_answer (decide u authorizer format_int format_uint trim_space rule call) a
          | Mode.unsupported ↦ refused (api_error Failure.other)
        ])
          ≡ handled b
        → IsOpen rule call
    by_mode rule call a Mode.none_needed e h = inl e
    by_mode rule call a Mode.required_mode e h = inr (e, decide_ok rule call (answered _ a h).0)
    by_mode rule call a Mode.unsupported e h = cc

    rule_ok :
        (o : Option Rule) (call : Call) (a : A) {b : A}
        → by_rule u authorizer format_int format_uint trim_space o call a ≡ handled b
        → (rule : Rule) × (o ≡ some rule) × IsOpen rule call
    unfolding by_rule
    rule_ok none call a h = cc
    rule_ok (some rule) call a h = (rule, refl, by_mode rule call a rule.mode refl h)

    with_operation :
        (rules : Rules) (call : Call) (a : A) (o : Option Bytes) {b : A}
        → (elim o as (λ _. Answer A) [
          | none ↦ refused (api_error Failure.other)
          | some operation ↦
              by_rule u authorizer format_int format_uint trim_space (rules operation) call a
        ])
          ≡ handled b
        → (operation : Bytes) × (rule : Rule) × (o ≡ some operation)
          × (rules operation ≡ some rule)
          × IsOpen rule call
    with_operation rules call a none h = cc
    with_operation rules call a (some operation) h =
        let (rule, there, open_to) = rule_ok (rules operation) call a h in
        (operation, rule, refl, there, open_to)

    -- A call reaches its handler only where its operation has a rule, and that rule asks for no
    -- authorization, or the context holds a valid actor that is not anonymous, and OpenFGA's client
    -- answered true for the subject that the actor is mapped to, the rule's action and the object of
    -- the rule's type and the resource that the rule or the request names.
    pub server_handled :
        (rules : Rules) (call : Call) (a b : A)
        → server u authorizer format_int format_uint trim_space rules call a ≡ handled b
        → (operation : Bytes) × (rule : Rule) × (call.operation ≡ some operation)
          × (rules operation ≡ some rule)
          × IsOpen rule call
    unfolding server
    server_handled rules call a b h = with_operation rules call a call.operation h
