-- ===== src/Authz/Actor.antt =====
-- security/actor.go: who a call is made for.
use servora_platform.Common.{Bool, true, false, not, Option, none, some, if◌then◌else◌}
use servora_platform.Cap.Bytes.{Bytes}
use servora_platform.Authz.Text.{is_empty}

pub data ActorType : Type 0 where
  human service anonymous : ActorType
  -- any other text
  unknown : Bytes → ActorType

pub record Actor : Type 0 where
  pub type : ActorType
  pub id : Bytes

-- `Actor.Valid`, by the type.
unfoldable pub valid_for : ActorType → Bytes → Bool
valid_for ActorType.human id = not (is_empty id)
valid_for ActorType.service id = not (is_empty id)
valid_for ActorType.anonymous id = is_empty id
valid_for (ActorType.unknown t) id = false

unfoldable pub valid : Actor → Bool
unfolding valid_for
valid actor = valid_for actor.type actor.id

abbrev pub is_anonymous : ActorType → Bool
is_anonymous ActorType.anonymous = true
is_anonymous _ = false

-- `ActorFrom`, on what the context holds.
unfoldable pub actor_from : Option Actor → Option Actor
actor_from none = none
actor_from (some actor) = if valid actor then some actor else none
