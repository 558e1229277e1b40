-- ===== src/Iam/Account/Usecase.antt =====
-- app/iam/service/internal/biz/account.go: registration, verification of the email, recovery of the
-- password, and the profile of an account.
use servora_platform.Common.{
  ℕ, ◌+◌, ◌*◌, ◌/◌, String, ◌==◌, Bool, true, false, not, ◌||◌, Option, none, if◌then◌else◌,
}
use servora_platform.Iam.Store.{
  Error, Outcome, ok, err, M, ◌>>=◌, ◌>>◌, pure, map_error, when, now, new_id, new_secret,
  invalid_token, token_expired, email_already_exists, unauthenticated, profile_etag_mismatch,
  invalid_credentials, invalid_password,
}
use servora_platform.Iam.Oidc.Requests.{hour}
use servora_platform.Iam.Login.Repo.{
  UserResource, UserStatus, get_user, find_active_password, replace_password,
}
use servora_platform.Iam.Login.Usecase.{revoke_others_for_user, revoke_every_session}
use servora_platform.Iam.Account.Services.{Profile, Services, normalize_email, hash, compare}
use servora_platform.Iam.Account.Users.{create_user, find_by_email, activate_email, update_profile}
use servora_platform.Iam.Account.Tokens.{
  create_verification_token, consume_verification_token, create_reset_token,
  consume_and_replace_password,
}

abbrev pub email_verification_ttl : ℕ
email_verification_ttl = 24 * hour

abbrev pub password_reset_ttl : ℕ
password_reset_ttl = hour

unfoldable pub account_token_error : Error → Error
account_token_error Error.expired = token_expired
account_token_error Error.not_found = invalid_token
account_token_error Error.mutation_miss = invalid_token
account_token_error e = e

-- The lookup of `CreatePendingUser`: an email that is found is taken.
unfoldable pub refuse_found : Outcome UserResource → Outcome (Unit {0})
refuse_found (ok user w) = err email_already_exists w
refuse_found (err Error.not_found w) = ok tt w
refuse_found (err e w) = err e w

unfoldable pub check_free : String → M (Unit {0})
check_free canonical w = refuse_found (find_by_email canonical w)

abbrev pub taken_as_registered : Error → Error
taken_as_registered Error.already_exists = email_already_exists
taken_as_registered e = e

-- `if errors.Is(err, ErrNotFound) { return nil }` after a lookup, with the rest of the call.
unfoldable pub if_found : Outcome UserResource → (UserResource → M (Unit {0})) → Outcome (Unit {0})
if_found (ok user w) rest = rest user w
if_found (err Error.not_found w) rest = ok tt w
if_found (err e w) rest = err e w

-- An email that does not normalize is answered like one that is not found.
unfoldable pub if_normalized :
    Outcome (String × String) → (UserResource → M (Unit {0})) → Outcome (Unit {0})
if_normalized (ok names w) rest = if_found (find_by_email names.0 w) rest
if_normalized (err e w) rest = ok tt w

abbrev pub is_pending : UserStatus → Bool
is_pending UserStatus.pending_email_verification = true
is_pending _ = false

abbrev pub is_active : UserStatus → Bool
is_active UserStatus.active = true
is_active _ = false

abbrev pub missed_as_profile : Error → Error
missed_as_profile Error.mutation_miss = profile_etag_mismatch
missed_as_profile e = e

module _ (s : Services) where
  unfoldable pub verification_link : String → String
  verification_link token =
      Prim.Native.String.◌++◌ s.verification_origin (Prim.Native.String.◌++◌ "/verify-email#" token)

  -- A token of verification is stored, then its link is sent.
  unfoldable pub mail_verification : UserResource → M (Unit {0})
  mail_verification user = do
    token ← new_secret
    t ← now
    create_verification_token user.entity.id "" (s.hash_opaque_secret token)
        (t + email_verification_ttl)
    s.send_verification user.email (verification_link token) (email_verification_ttl / hour)

  unfoldable pub create_pending_user : String → String → String → Option Profile → M UserResource
  create_pending_user user_id email plaintext_password profile = do
    names ← normalize_email s email
    check_free names.0
    id ← if user_id == "" then new_id else pure user_id
    password_hash ← hash s plaintext_password
    user ← map_error taken_as_registered (
        create_user
          (record { user_id = id; email = names.1; profile = profile; create_time = none })
          password_hash names.0)
    mail_verification user
    pure user

  unfoldable pub register : String → String → String → Option Profile → M UserResource
  register email plaintext_password captcha_token profile = do
    valid ← s.validate_captcha captcha_token
    when (not valid) invalid_token
    create_pending_user "" email plaintext_password profile

  unfoldable pub verify_email : String → M UserResource
  verify_email token = do
    when (token == "") invalid_token
    t ← now
    user_id ←
        map_error account_token_error (consume_verification_token (s.hash_opaque_secret token) t)
    t' ← now
    activate_email user_id t'
    get_user user_id

  unfoldable pub for_user : String → (UserResource → M (Unit {0})) → M (Unit {0})
  for_user email rest w = if_normalized (normalize_email s email w) rest

  unfoldable pub resend_verification : String → String → M (Unit {0})
  resend_verification email captcha_token = do
    valid ← s.validate_captcha captcha_token
    when (not valid) invalid_token
    for_user email (λ user.
        if not (is_pending user.status) || user.email_verified
        then pure tt
        else mail_verification user)

  unfoldable pub mail_reset : UserResource → M (Unit {0})
  mail_reset user = do
    token ← new_secret
    t ← now
    create_reset_token user.entity.id (s.hash_opaque_secret token) (t + password_reset_ttl)
    s.send_password_reset user.email
        (Prim.Native.String.◌++◌ s.verification_origin
          (Prim.Native.String.◌++◌ "/reset-password#" token))
        (password_reset_ttl / hour)

  unfoldable pub request_password_reset : String → String → M (Unit {0})
  request_password_reset email captcha_token = do
    valid ← s.validate_captcha captcha_token
    when (not valid) invalid_token
    for_user email (λ user.
        if not (is_active user.status) || not user.email_verified then pure tt else mail_reset user)

  unfoldable pub confirm_password_reset : String → String → M (Unit {0})
  confirm_password_reset token new_password = do
    when (token == "") invalid_token
    password_hash ← map_error (λ _. invalid_password) (hash s new_password)
    t ← now
    user_id ←
        map_error account_token_error
          (consume_and_replace_password (s.hash_opaque_secret token) password_hash t)
    revoke_every_session user_id

  unfoldable pub change_password : String → String → String → String → M (Unit {0})
  change_password user_id current_session_id current_password new_password = do
    when (user_id == "" || current_session_id == "") unauthenticated
    credential ← find_active_password user_id
    when (not (compare s current_password credential.password_hash)) invalid_credentials
    password_hash ← hash s new_password
    t ← now
    replace_password user_id credential.authenticator_id password_hash t
    revoke_others_for_user user_id current_session_id

  unfoldable pub get_profile : String → M UserResource
  get_profile user_id = do when (s.trim_space user_id == "") unauthenticated; get_user user_id

  -- `AccountUsecase.UpdateProfile`.
  unfoldable pub change_profile : String → String → Option Profile → M UserResource
  change_profile user_id etag profile = do
    when (user_id == "" || etag == "") unauthenticated
    map_error missed_as_profile (update_profile s user_id etag profile)

  unfoldable pub update_current_profile : String → Option Profile → M UserResource
  update_current_profile user_id profile = do
    current ← get_profile user_id
    change_profile user_id current.entity.etag profile
