-- ===== src/Iam/Login/Repo.antt =====
-- app/iam/service/internal/data: authn.go, errors.go and the lookup of a user in user.go. The
-- repositories of the login sessions, of the token sessions and of the passwords.
use servora_platform.Common.{
  ℕ, ◌+◌, ◌*◌, String, ◌==◌, Bool, not, ◌&&◌, ◌||◌, List, [], ◌∷◌, Option, none, some, is_none,
  is_some, ltb, eqb, map, if◌then◌else◌,
}
use servora_platform.Iam.Schema.{User, LoginIdentifier, LoginSession, TokenSession}
use servora_platform.Iam.Schema.Tables.{
  users, identifiers, authenticators, passwords, login_sessions, token_sessions, access_tokens,
  refresh_tokens,
}
use servora_platform.Iam.Store.{
  Error, M, ◌>>=◌, ◌>>◌, pure, raise, map_error, missing_as, if_missing, when, not_found,
  already_exists, mutation_miss, inconsistent, missing_argument, now, new_id, query, only, update,
  update_one, insert, in_tx,
}
use servora_platform.Iam.Oidc.Requests.{hour, contains}

abbrev pub login_session_idle_ttl : ℕ
login_session_idle_ttl = 7 * (24 * hour)

abbrev pub login_session_absolute_ttl : ℕ
login_session_absolute_ttl = 30 * (24 * hour)

unfoldable pub translate_ent_error : Error → Error
translate_ent_error Error.ent_not_found = not_found
translate_ent_error Error.constraint = already_exists
translate_ent_error e = e

-- `if now.IsZero()`: the zero time stands for the time of the call.
unfoldable pub time_or_now : ℕ → M ℕ
time_or_now t = if eqb t 0 then now else pure t

-- `sessionpb.Session`.
pub record Session : Type 0 where
  pub name : String
  pub session_id : String
  pub create_time : ℕ
  pub last_seen_time : ℕ
  pub idle_expires_time : ℕ
  pub absolute_expires_time : ℕ

unfoldable pub to_session : LoginSession → Session
to_session s = record {
  name = Prim.Native.String.◌++◌ "sessions/" s.id;
  session_id = s.id;
  create_time = s.create_time;
  last_seen_time = s.last_seen_time;
  idle_expires_time = s.idle_expires_time;
  absolute_expires_time = s.absolute_expires_time;
}

-- `sessionRepository.Create`.
unfoldable pub create_session : String → String → ℕ → M Session
create_session user_id secret_hash given = do
  id ← new_id
  t ← time_or_now given
  entity ← map_error translate_ent_error (
      insert login_sessions (record {
        id = id;
        user_id = user_id;
        secret_hash = secret_hash;
        create_time = t;
        last_seen_time = t;
        idle_expires_time = t + login_session_idle_ttl;
        absolute_expires_time = t + login_session_absolute_ttl;
        revoked_time = none;
      }))
  pure (to_session entity)

unfoldable pub find_by_secret_hash : String → M (Session × String × Bool)
find_by_secret_hash secret_hash = do
  entity ← map_error translate_ent_error (only login_sessions (λ s. s.secret_hash == secret_hash))
  pure (to_session entity, entity.user_id, is_some entity.revoked_time)

-- The idle expiry after a use at t, of a session with that absolute expiry.
unfoldable pub idle_expiry : ℕ → ℕ → ℕ
idle_expiry t absolute =
    let idle = t + login_session_idle_ttl in if ltb absolute idle then absolute else idle

unfoldable pub touch : String → ℕ → M Session
touch id given = do
  t ← time_or_now given
  current ← map_error translate_ent_error (only login_sessions (λ s. s.id == id))
  updated ← map_error (missing_as mutation_miss) (
      update_one login_sessions
        (λ s.
          s.id == id
          && is_none s.revoked_time
          && ltb t s.idle_expires_time
          && ltb t s.absolute_expires_time)
        (λ s. record s {
          last_seen_time = t;
          idle_expires_time = idle_expiry t current.absolute_expires_time;
        }))
  pure (to_session updated)

-- `sessionRepository.Revoke`.
unfoldable pub revoke_session : String → ℕ → M (Unit {0})
revoke_session id given = do
  t ← time_or_now given
  map_error translate_ent_error (
      if_missing
        (do
          _ ←
              update_one login_sessions (λ s. s.id == id && is_none s.revoked_time)
                (λ s. record s { revoked_time = some t })
          pure tt)
        (pure tt))

unfoldable pub revoke_other_sessions : String → String → ℕ → M (Unit {0})
revoke_other_sessions user_id keep_session_id given = do
  t ← time_or_now given
  _ ← map_error translate_ent_error (
      update login_sessions
        (λ s. s.user_id == user_id && not (s.id == keep_session_id) && is_none s.revoked_time)
        (λ s. record s { revoked_time = some t }))
  pure tt

unfoldable pub revoke_all_sessions : String → ℕ → M (Unit {0})
revoke_all_sessions user_id given = do
  t ← time_or_now given
  _ ← map_error translate_ent_error (
      update login_sessions (λ s. s.user_id == user_id && is_none s.revoked_time)
        (λ s. record s { revoked_time = some t }))
  pure tt

-- `tokenSessionRepository.revoke`, on the sessions of the ids found.
unfoldable pub revoke_ids : List String → ℕ → M (Unit {0})
revoke_ids [] t = pure tt
revoke_ids (i ∷ is) t = do
  _ ←
      update token_sessions (λ s. contains (i ∷ is) s.id && is_none s.revoked_time)
        (λ s. record s { revoked_time = some t })
  _ ←
      update access_tokens (λ a. contains (i ∷ is) a.token_session_id && is_none a.revoked_time)
        (λ a. record a { revoked_time = some t })
  _ ←
      update refresh_tokens (λ r. contains (i ∷ is) r.token_session_id && is_none r.revoked_time)
        (λ r. record r { revoked_time = some t })
  pure tt

unfoldable pub revoke_token_sessions : ℕ → (TokenSession → Bool) → M (Unit {0})
revoke_token_sessions t p = in_tx (
    map_error translate_ent_error
      (do found ← query token_sessions p; revoke_ids (map (λ s. s.id) found) t))

unfoldable pub revoke_for_login_session : String → ℕ → M (Unit {0})
revoke_for_login_session login_session_id given = if login_session_id == "" then pure tt else do
  t ← time_or_now given
  revoke_token_sessions t (λ s. s.iam_login_session_id == login_session_id)

unfoldable pub revoke_all_for_user : String → ℕ → M (Unit {0})
revoke_all_for_user user_id given =
    if user_id == ""
    then pure tt
    else do t ← time_or_now given; revoke_token_sessions t (λ s. s.user_id == user_id)

pub record PasswordCredential : Type 0 where
  pub user_id : String
  pub authenticator_id : String
  pub password_hash : String

unfoldable pub find_active_password : String → M PasswordCredential
find_active_password user_id = do
  entity ← map_error translate_ent_error (
      only authenticators (λ a.
        a.user_id == user_id
        && a.type == "password"
        && a.state == "active"
        && is_none a.revoked_time))
  password ← map_error translate_ent_error (only passwords (λ p. p.authenticator_id == entity.id))
  pure (record {
    user_id = user_id;
    authenticator_id = entity.id;
    password_hash = password.password_hash;
  })

unfoldable pub replace_password : String → String → String → ℕ → M (Unit {0})
replace_password user_id authenticator_id password_hash given = do
  when (user_id == "" || authenticator_id == "" || password_hash == "") missing_argument
  t ← time_or_now given
  in_tx (
      map_error translate_ent_error (do
        entity ← only authenticators (λ a.
            a.id == authenticator_id
            && a.user_id == user_id
            && a.type == "password"
            && a.state == "active"
            && is_none a.revoked_time)
        password ← only passwords (λ p. p.authenticator_id == entity.id)
        _ ←
            update_one passwords (λ p. p.id == password.id)
              (λ p. record p { password_hash = password_hash })
        _ ←
            update_one authenticators (λ a. a.id == entity.id)
              (λ a. record a { last_used_time = some t; update_time = t })
        pure tt))

pub data UserStatus : Type 0 where
  unspecified pending_email_verification active disabled : UserStatus

unfoldable pub to_status : String → UserStatus
to_status s =
    if s == "pending_verification"
    then UserStatus.pending_email_verification
    else (if s == "active"
        then UserStatus.active
        else (if s == "disabled" then UserStatus.disabled else UserStatus.unspecified))

-- `userpb.User`: the row, with its status read and its email identifier.
pub record UserResource : Type 0 where
  pub entity : User
  pub status : UserStatus
  pub email : String
  pub email_verified : Bool

abbrev pub last_of : List LoginIdentifier → Option LoginIdentifier
last_of [] = none
last_of (i ∷ []) = some i
last_of (i ∷ j ∷ is) = last_of (j ∷ is)

-- `toResources` on one user: the email found last stands in the map.
unfoldable pub to_resource : User → Option LoginIdentifier → M UserResource
to_resource u none = raise inconsistent
to_resource u (some i) = pure (record {
  entity = u;
  status = to_status u.status;
  email = i.display_value;
  email_verified = is_some i.verified_time;
})

-- `userRepository.Get`.
unfoldable pub get_user : String → M UserResource
get_user id = do
  entity ← map_error translate_ent_error (only users (λ u. u.id == id))
  found ←
      map_error translate_ent_error
        (query identifiers (λ i. i.user_id == entity.id && i.type == "email"))
  to_resource entity (last_of found)
