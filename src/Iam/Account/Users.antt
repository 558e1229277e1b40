-- ===== src/Iam/Account/Users.antt =====
-- app/iam/service/internal/data: user.go and initial_admin_creator.go. The rows of users with their
-- email identifiers and passwords. The reading of one user stands in Iam.Login.Repo.
use servora_platform.Common.{
  ℕ, String, ◌==◌, Bool, ◌&&◌, ◌||◌, List, [], ◌∷◌, Option, none, some, if◌then◌else◌,
}
use servora_platform.Iam.Schema.{User, Authenticator}
use servora_platform.Iam.Schema.Tables.{users, identifiers, authenticators, passwords}
use servora_platform.Iam.Store.{
  Error, M, ◌>>=◌, ◌>>◌, pure, raise, map_error, when, mutation_miss, missing_argument,
  inconsistent, now, new_id, only, update, update_one, insert, in_tx,
}
use servora_platform.Iam.Login.Repo.{
  UserResource, UserStatus, translate_ent_error, time_or_now, get_user,
}
use servora_platform.Iam.Account.Services.{Profile, Services}

-- The fields of `userpb.User` from which a user is created.
pub record Draft : Type 0 where
  pub user_id : String
  pub email : String
  pub profile : Option Profile
  pub create_time : Option ℕ

abbrev pub empty_profile : Profile
empty_profile = record {
  name = none;
  given_name = none;
  family_name = none;
  nickname = none;
  preferred_username = none;
  picture = none;
  locale = none;
}

abbrev pub or_else {ℓ} : {A : Type ℓ} → Option A → A → A
or_else none b = b
or_else (some a) b = a

-- `SetNillable…` on each column of a profile.
abbrev pub user_of : String → String → String → Profile → ℕ → User
user_of id status etag p t = record {
  id = id;
  status = status;
  name = p.name;
  given_name = p.given_name;
  family_name = p.family_name;
  nickname = p.nickname;
  preferred_username = p.preferred_username;
  picture = p.picture;
  locale = p.locale;
  etag = etag;
  create_time = t;
  update_time = t;
}

-- The four rows of one user, with their identifiers drawn before.
unfoldable pub insert_aggregate :
    Draft
    → String
    → String
    → String
    → Option ℕ
    → ℕ
    → String
    → String
    → String
    → String
    → M (Unit {0})
insert_aggregate draft password_hash canonical status verified_time t identifier_id authenticator_id
      password_authenticator_id etag =
    do
      entity ←
          map_error translate_ent_error (
            insert users
              (user_of draft.user_id status etag (or_else draft.profile empty_profile) t))
      _ ← map_error translate_ent_error (
          insert identifiers (record {
            id = identifier_id;
            user_id = entity.id;
            type = "email";
            canonical_value = canonical;
            display_value = draft.email;
            verified_time = verified_time;
          }))
      created ← now
      _ ← map_error translate_ent_error (
          insert authenticators (record {
            id = authenticator_id;
            user_id = entity.id;
            type = "password";
            state = "active";
            display_name = none;
            verified_time = none;
            last_used_time = none;
            revoked_time = none;
            create_time = created;
            update_time = created;
          }))
      changed ← now
      _ ← map_error translate_ent_error (
          insert passwords (record {
            id = password_authenticator_id;
            authenticator_id = authenticator_id;
            password_hash = password_hash;
            changed_time = changed;
          }))
      pure tt

unfoldable pub create_user_aggregate :
    Draft → String → String → String → Option ℕ → ℕ → M (Unit {0})
create_user_aggregate draft password_hash canonical status verified_time t = do
  identifier_id ← new_id
  authenticator_id ← new_id
  password_authenticator_id ← new_id
  etag ← new_id
  in_tx (
      insert_aggregate draft password_hash canonical status verified_time t identifier_id
        authenticator_id password_authenticator_id etag)

-- `userRepository.Create`, on a resource that is there.
unfoldable pub create_user : Draft → String → String → M UserResource
create_user draft password_hash canonical = do
  when (draft.user_id == "" || draft.email == "" || password_hash == "" || canonical == "")
      missing_argument
  read ← now
  create_user_aggregate draft password_hash canonical "pending_verification" none
      (or_else draft.create_time read)
  get_user draft.user_id

unfoldable pub create_initial_admin : String → String → String → String → ℕ → M (Unit {0})
create_initial_admin user_id email canonical password_hash given = do
  when (user_id == "" || email == "" || canonical == "" || password_hash == "") missing_argument
  t ← time_or_now given
  create_user_aggregate
      (record { user_id = user_id; email = email; profile = none; create_time = none })
      password_hash canonical "active" (some t) t

unfoldable pub find_by_email : String → M UserResource
find_by_email canonical = do
  identifier ←
      map_error translate_ent_error
        (only identifiers (λ i. i.type == "email" && i.canonical_value == canonical))
  get_user identifier.user_id

-- A conditional update that met no row.
unfoldable pub missed : Error → Error
missed Error.ent_not_found = mutation_miss
missed e = translate_ent_error e

abbrev pub is_disabled : UserStatus → Bool
is_disabled UserStatus.disabled = Bool.true
is_disabled _ = Bool.false

abbrev pub storage_status : UserStatus → String
storage_status status = if is_disabled status then "disabled" else "active"

-- What a change of status does to an authenticator of the user.
abbrev pub set_state : UserStatus → ℕ → ℕ → Authenticator → Authenticator
set_state status t written a =
    if is_disabled status
    then record a { state = "disabled"; revoked_time = some t; update_time = written }
    else record a { state = "active"; revoked_time = none; update_time = written }

-- The transaction of `UpdateStatus`.
unfoldable pub write_status : String → String → UserStatus → String → ℕ → M (Unit {0})
write_status user_id expected_etag status etag t = do
  _ ← map_error missed (
      update_one users (λ u. u.id == user_id && u.etag == expected_etag)
        (λ u. record u { status = storage_status status; etag = etag; update_time = t }))
  written ← now
  _ ←
      map_error translate_ent_error
        (update authenticators (λ a. a.user_id == user_id) (set_state status t written))
  pure tt

unfoldable pub update_status : String → String → UserStatus → ℕ → M UserResource
update_status user_id expected_etag status given = do
  when (user_id == "" || expected_etag == "") missing_argument
  etag ← new_id
  t ← time_or_now given
  in_tx (write_status user_id expected_etag status etag t)
  get_user user_id

-- The columns of a profile, and a user with others.
abbrev pub profile_of : User → Profile
profile_of u = record {
  name = u.name;
  given_name = u.given_name;
  family_name = u.family_name;
  nickname = u.nickname;
  preferred_username = u.preferred_username;
  picture = u.picture;
  locale = u.locale;
}

abbrev pub with_profile : Profile → User → User
with_profile p u = record u {
  name = p.name;
  given_name = p.given_name;
  family_name = p.family_name;
  nickname = p.nickname;
  preferred_username = p.preferred_username;
  picture = p.picture;
  locale = p.locale;
}

-- `if profile.X != nil { builder.SetX }`.
abbrev pub set_given : Option String → Option String → Option String
set_given none old = old
set_given (some s) old = some s

-- One round of the loop on the mask's paths.
unfoldable pub set_path : Profile → String → Profile → Profile
set_path given path p =
    if path == "profile.name"
    then record p { name = set_given given.name p.name }
    else (if path == "profile.given_name"
        then record p { given_name = set_given given.given_name p.given_name }
        else (if path == "profile.family_name"
            then record p { family_name = set_given given.family_name p.family_name }
            else (if path == "profile.nickname"
                then record p { nickname = set_given given.nickname p.nickname }
                else (if path == "profile.preferred_username"
                    then record p {
                      preferred_username = set_given given.preferred_username p.preferred_username;
                    }
                    else (if path == "profile.picture"
                        then record p { picture = set_given given.picture p.picture }
                        else (if path == "profile.locale"
                            then record p { locale = set_given given.locale p.locale }
                            else p))))))

unfoldable pub set_paths : Option Profile → List String → Profile → Profile
set_paths none paths p = p
set_paths (some given) [] p = p
set_paths (some given) (path ∷ paths) p = set_paths (some given) paths (set_path given path p)

abbrev pub user_profile_write_mask : List String
user_profile_write_mask =
    "profile.name" ∷ "profile.given_name" ∷ "profile.family_name" ∷ "profile.nickname"
    ∷ "profile.preferred_username" ∷ "profile.picture" ∷ "profile.locale" ∷ []

module _ (s : Services) where
  abbrev pub intents : Option (Profile → Profile) → M (Profile → Profile)
  intents none = raise inconsistent
  intents (some f) = pure f

  -- The conditional update of `updateProfileFields`; ent writes the update time by itself.
  unfoldable pub write_profile : String → String → String → (Profile → Profile) → ℕ → M User
  write_profile user_id expected_etag etag change written = map_error missed (
      update_one users (λ u. u.id == user_id && u.etag == expected_etag)
        (λ u.
          with_profile (change (profile_of u)) (record u { etag = etag; update_time = written })))

  unfoldable pub update_profile_fields :
      String → String → Option Profile → List String → M UserResource
  update_profile_fields user_id expected_etag profile mask = do
    etag ← new_id
    clear ← intents (s.clear_intents profile mask)
    written ← now
    updated ←
        write_profile user_id expected_etag etag (λ p. set_paths profile mask (clear p)) written
    get_user updated.id

  -- `userRepository.UpdateUser`, on a resource and a mask that are there.
  unfoldable pub update_user : String → String → Option Profile → List String → M UserResource
  update_user user_id expected_etag profile mask = do
    when (expected_etag == "") missing_argument
    update_profile_fields user_id expected_etag profile mask

  unfoldable pub update_profile : String → String → Option Profile → M UserResource
  update_profile user_id expected_etag profile = do
    when (user_id == "" || expected_etag == "") missing_argument
    update_profile_fields user_id expected_etag profile user_profile_write_mask

-- The transaction of `ActivateEmail`.
unfoldable pub write_activation : String → String → String → ℕ → M (Unit {0})
write_activation user_id identifier_id etag t = do
  _ ← map_error translate_ent_error (
      update_one users (λ u. u.id == user_id && u.status == "pending_verification")
        (λ u. record u { status = "active"; etag = etag; update_time = t }))
  _ ← map_error translate_ent_error (
      update_one identifiers (λ i. i.id == identifier_id)
        (λ i. record i { verified_time = some t }))
  pure tt

unfoldable pub activate_email : String → ℕ → M (Unit {0})
activate_email user_id given = do
  t ← time_or_now given
  etag ← new_id
  identifier ←
      map_error translate_ent_error
        (only identifiers (λ i. i.user_id == user_id && i.type == "email"))
  in_tx (write_activation user_id identifier.id etag t)
