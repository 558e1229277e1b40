-- ===== src/Iam/Login/Usecase.antt =====
-- app/iam/service/internal/biz/session.go: the use cases of a login session. The hash of a secret is
-- a parameter.
use servora_platform.Common.{ℕ, String, ◌==◌, Bool, not, ◌||◌, ltb}
use servora_platform.Iam.Store.{
  Error, Outcome, ok, err, M, ◌>>=◌, ◌>>◌, pure, raise, map_error, when, unauthenticated,
  session_revoked, user_disabled, user_not_active, now, new_secret,
}
use servora_platform.Iam.Login.Repo.{
  Session, UserResource, UserStatus, create_session, find_by_secret_hash, touch, revoke_session,
  revoke_other_sessions, revoke_all_sessions, revoke_for_login_session, revoke_all_for_user,
  get_user,
}

-- `errors.Is(err, ErrNotFound)`, and with `ErrMutationMiss`.
abbrev pub gone_as_revoked : Error → Error
gone_as_revoked Error.not_found = session_revoked
gone_as_revoked e = e

abbrev pub missed_as_revoked : Error → Error
missed_as_revoked Error.not_found = session_revoked
missed_as_revoked Error.mutation_miss = session_revoked
missed_as_revoked e = e

-- `errors.Join` of two calls: both are made, and the first error stands for the joined one.
abbrev pub join_rest : M (Unit {0}) → Outcome (Unit {0}) → Outcome (Unit {0})
join_rest n (ok u w) = n w
join_rest n (err e w) = elim (n w) [ ok u w' ↦ err e w' | err e' w' ↦ err e w' ]

unfoldable pub join : M (Unit {0}) → M (Unit {0}) → M (Unit {0})
join m n w = join_rest n (m w)

unfoldable pub check_status : UserResource → M (Unit {0})
check_status user = elim user.status [
  | UserStatus.disabled ↦ raise user_disabled
  | UserStatus.active ↦ when (not user.email_verified) user_not_active
  | UserStatus.unspecified ↦ raise user_not_active
  | UserStatus.pending_email_verification ↦ raise user_not_active
]

-- Whether the session found is revoked or not active at a time.
abbrev pub is_refused : Session → Bool → ℕ → Bool
is_refused session revoked t =
    revoked
    || session.session_id == ""
    || not (ltb t session.idle_expires_time)
    || not (ltb t session.absolute_expires_time)

-- The part of `Resolve` after the lookup and the reading of the clock.
unfoldable pub enter : ℕ → Session × String × Bool → M (UserResource × Session)
enter t (session, user_id, revoked) = do
  when (is_refused session revoked t) session_revoked
  user ← map_error gone_as_revoked (get_user user_id)
  check_status user
  touched ← map_error missed_as_revoked (touch session.session_id t)
  pure (user, touched)

module _ (hash_opaque_secret : String → String) where
  unfoldable pub create : String → M (Session × String)
  create user_id = do
    when (user_id == "") unauthenticated
    secret ← new_secret
    t ← now
    session ← create_session user_id (hash_opaque_secret secret) t
    pure (session, secret)

  unfoldable pub resolve : String → M (UserResource × Session)
  resolve secret = do
    when (secret == "") unauthenticated
    found ← map_error gone_as_revoked (find_by_secret_hash (hash_opaque_secret secret))
    t ← now
    enter t found

unfoldable pub logout : String → M (Unit {0})
logout session_id = do
  when (session_id == "") unauthenticated
  t ← now
  join (revoke_session session_id t) (revoke_for_login_session session_id t)

unfoldable pub revoke_others_for_user : String → String → M (Unit {0})
revoke_others_for_user user_id keep_session_id = do
  when (user_id == "" || keep_session_id == "") unauthenticated
  t ← now
  join (revoke_other_sessions user_id keep_session_id t) (revoke_all_for_user user_id t)

unfoldable pub revoke_every_session : String → M (Unit {0})
revoke_every_session user_id = do
  when (user_id == "") unauthenticated
  t ← now
  join (revoke_all_sessions user_id t) (revoke_all_for_user user_id t)
