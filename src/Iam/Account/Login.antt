-- ===== src/Iam/Account/Login.antt =====
-- app/iam/service/internal/biz/authn.go: the login by email and password.
use servora_platform.Common.{String, not, ◌||◌}
use servora_platform.Iam.Store.{Error, M, ◌>>=◌, ◌>>◌, pure, map_error, when, invalid_credentials}
use servora_platform.Iam.Login.Repo.{Session, UserResource, find_active_password}
use servora_platform.Iam.Login.Usecase.{create}
use servora_platform.Iam.Account.Services.{Services, normalize_email, compare}
use servora_platform.Iam.Account.Users.{find_by_email}
use servora_platform.Iam.Account.Usecase.{is_active}

-- What is not found is an invalid login.
abbrev pub gone_as_invalid : Error → Error
gone_as_invalid Error.not_found = invalid_credentials
gone_as_invalid e = e

module _ (s : Services) where
  -- The password of the user found, then the session.
  unfoldable pub login_user : UserResource → String → M (UserResource × Session × String)
  login_user user plaintext_password = do
    when (not (is_active user.status) || not user.email_verified) invalid_credentials
    credential ← map_error gone_as_invalid (find_active_password user.entity.id)
    when (not (compare s plaintext_password credential.password_hash)) invalid_credentials
    created ← create s.hash_opaque_secret user.entity.id
    pure (user, created.0, created.1)

  unfoldable pub login : String → String → M (UserResource × Session × String)
  login email plaintext_password = do
    names ← map_error (λ _. invalid_credentials) (normalize_email s email)
    user ← map_error gone_as_invalid (find_by_email names.0)
    login_user user plaintext_password
