-- ===== src/Iam/Account/Admin.antt =====
-- app/iam/service/internal/biz: user.go and admin_initializer.go. The administration of users, and
-- the first administrator.
use servora_platform.Common.{ℕ, String, ◌==◌, Bool, not, ◌&&◌, ◌||◌, List, Option, if◌then◌else◌}
use servora_platform.Iam.Store.{
  Error, Outcome, ok, err, M, ◌>>=◌, ◌>>◌, pure, map_error, when, now, new_id, new_secret,
  user_etag_mismatch, user_invalid_state, session_revocation, inconsistent,
}
use servora_platform.Iam.Login.Repo.{UserResource, UserStatus, get_user}
use servora_platform.Iam.Login.Usecase.{revoke_every_session}
use servora_platform.Iam.Account.Services.{Profile, Services, normalize_email, hash}
use servora_platform.Iam.Account.Users.{
  is_disabled, create_initial_admin, find_by_email, update_status, update_user,
}
use servora_platform.Iam.Account.Usecase.{is_active, create_pending_user}

-- What `corecrud.PreparedUpdate` carries: the etag expected, the profile with its mask, and whether
-- the fields that may not change are those of the resource there is.
pub record PreparedUpdate : Type 0 where
  pub etag : String
  pub profile : Option Profile
  pub mask : List String
  pub validate_immutable : UserResource → Bool

abbrev pub missed_as_user : Error → Error
missed_as_user Error.mutation_miss = user_etag_mismatch
missed_as_user e = e

-- The guards of `updateStatus`, on the user found.
unfoldable pub check_change : UserStatus → String → UserResource → M (Unit {0})
check_change status expected_etag current = do
  when (is_active status && not (is_disabled current.status)) user_invalid_state
  when (not (expected_etag == "") && not (expected_etag == current.entity.etag)) user_etag_mismatch

-- The write is left out only where a disabled user is disabled.
unfoldable pub write_change : String → UserStatus → UserResource → ℕ → M UserResource
write_change user_id status current t =
    if not (is_disabled status) || not (is_disabled current.status)
    then map_error missed_as_user (update_status user_id current.entity.etag status t)
    else pure current

unfoldable pub change_status : String → String → UserStatus → M UserResource
change_status user_id expected_etag status = do
  current ← get_user user_id
  check_change status expected_etag current
  t ← now
  updated ← write_change user_id status current t
  if not (is_disabled status)
      then pure updated
      else (do map_error (λ _. session_revocation) (revoke_every_session user_id); pure updated)

unfoldable pub disable_user : String → String → M UserResource
disable_user user_id expected_etag = change_status user_id expected_etag UserStatus.disabled

unfoldable pub enable_user : String → String → M UserResource
enable_user user_id expected_etag = change_status user_id expected_etag UserStatus.active

module _ (s : Services) where
  -- `UserUsecase.CreateUser`, on the email and profile of the resource prepared.
  unfoldable pub admin_create_user : String → String → Option Profile → String → M UserResource
  admin_create_user user_id email profile plaintext_password =
      create_pending_user s user_id email plaintext_password profile

  -- `UserUsecase.UpdateUser`.
  unfoldable pub admin_update_user : String → PreparedUpdate → M UserResource
  admin_update_user user_id prepared = do
    when (prepared.etag == "") user_etag_mismatch
    current ← get_user user_id
    when (not (prepared.validate_immutable current)) inconsistent
    map_error missed_as_user (update_user s user_id prepared.etag prepared.profile prepared.mask)

  -- `AdminInitializer.create`: the identifier of the administrator created.
  unfoldable pub create_admin : String → String → M String
  create_admin display_email canonical_email = do
    user_id ← new_id
    plaintext ← new_secret
    password_hash ← hash s plaintext
    t ← now
    create_initial_admin user_id display_email canonical_email password_hash t
    pure user_id

  -- Where another process created it first, the administrator is looked up again.
  unfoldable pub created_or_found : String → Outcome String → Outcome String
  created_or_found canonical_email (ok user_id w) = ok user_id w
  created_or_found canonical_email (err Error.already_exists w) =
      (find_by_email canonical_email >>= λ admin. pure admin.entity.id) w
  created_or_found canonical_email (err e w) = err e w

  unfoldable pub found_or_created : String → String → Outcome UserResource → Outcome String
  found_or_created display_email canonical_email (ok admin w) =
      (when (not (is_active admin.status) || not admin.email_verified) inconsistent >>= λ _.
      pure admin.entity.id)
        w
  found_or_created display_email canonical_email (err Error.not_found w) =
      created_or_found canonical_email (create_admin display_email canonical_email w)
  found_or_created display_email canonical_email (err e w) = err e w

  unfoldable pub find_or_create : String → String → M String
  find_or_create display_email canonical_email w =
      found_or_created display_email canonical_email (find_by_email canonical_email w)

  -- `AdminInitializer.Initialize`, with the two results of NormalizeEmail named as there.
  unfoldable pub initialize : String → M (Unit {0})
  initialize email = do
    names ← normalize_email s email
    user_id ← find_or_create names.0 names.1
    s.ensure_platform_admin user_id
