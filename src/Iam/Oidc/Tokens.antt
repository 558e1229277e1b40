-- ===== src/Iam/Oidc/Tokens.antt =====
-- app/iam/service/internal/oidc/op_auth_storage.go: token grants, the issue of tokens, and the
-- rotation of refresh tokens.
use servora_platform.Common.{
  ℕ, ◌+◌, ◌*◌, String, ◌==◌, Bool, true, false, not, ◌&&◌, ◌||◌, List, Option, none, some, is_none,
  is_some, ltb, eqb, if◌then◌else◌,
}
use servora_platform.Iam.Schema.{RefreshToken}
use servora_platform.Iam.Schema.Tables.{users, codes, token_sessions, access_tokens, refresh_tokens}
use servora_platform.Iam.Store.{
  Error, M, ◌>>=◌, ◌>>◌, pure, raise, map_error, when, storage_not_found, invalid_grant,
  subject_inactive, not_ready, unsupported_request, now, new_id, new_secret, only, exists, update,
  insert, in_tx,
}
use servora_platform.Iam.Oidc.Requests.{
  AuthorizationRequest, done, get_subject, get_auth_time, get_amr, or_empty, minute, hour,
}

abbrev pub access_token_ttl : ℕ
access_token_ttl = 15 * minute

abbrev pub refresh_token_ttl : ℕ
refresh_token_ttl = 7 * (24 * hour)

pub record RefreshTokenRequest : Type 0 where
  pub token_id : String
  pub token_session_id : String
  pub client_id : String
  pub subject : String
  pub scopes : List String
  pub auth_time : ℕ
  pub amr : List String

-- The cases of the type switch on `op.TokenRequest`.
pub data TokenRequest : Type 0 where
  authorization : AuthorizationRequest → TokenRequest
  refresh : RefreshTokenRequest → TokenRequest
  unsupported : TokenRequest

pub record TokenGrant : Type 0 where
  pub code_id : String
  pub refresh_token_id : String
  pub token_session_id : String
  pub user_id : String
  pub client_id : String
  pub iam_login_session_id : Option String
  pub scopes : List String
  pub auth_time : ℕ
  pub amr : List String

-- Whether the request cannot pay for tokens.
unfoldable pub is_unready : AuthorizationRequest → Bool
is_unready r =
    r.authorization_code_id == "" || not (done r) || is_none r.entity.iam_login_session_id

unfoldable pub grant_of : AuthorizationRequest → TokenGrant
grant_of r = record {
  code_id = r.authorization_code_id;
  refresh_token_id = "";
  token_session_id = "";
  user_id = get_subject r;
  client_id = r.entity.client_id;
  iam_login_session_id = r.entity.iam_login_session_id;
  scopes = r.entity.scopes;
  auth_time = get_auth_time r;
  amr = get_amr r;
}

unfoldable pub token_grant_from_request : TokenRequest → M TokenGrant
token_grant_from_request (authorization r) =
    when (is_unready r) not_ready >>= λ _. pure (grant_of r)
token_grant_from_request (refresh r) = pure (record {
  code_id = "";
  refresh_token_id = r.token_id;
  token_session_id = r.token_session_id;
  user_id = r.subject;
  client_id = r.client_id;
  iam_login_session_id = none;
  scopes = r.scopes;
  auth_time = r.auth_time;
  amr = r.amr;
})
token_grant_from_request unsupported = raise unsupported_request

unfoldable pub token_grant_error : Error → Error
token_grant_error Error.storage_not_found = invalid_grant
token_grant_error Error.subject_inactive = invalid_grant
token_grant_error e = e

unfoldable pub consume_authorization_code : String → String → ℕ → M (Unit {0})
consume_authorization_code code_id token_session_id t = do
  consumed ←
      update codes (λ c. c.id == code_id && is_none c.consumed_time && ltb t c.expires_time)
        (λ c. record c { token_session_id = some token_session_id; consumed_time = some t })
  when (not (eqb consumed 1)) storage_not_found

unfoldable pub ensure_active_user : String → M (Unit {0})
ensure_active_user user_id = do
  active ← exists users (λ u. u.id == user_id && u.status == "active")
  when (not active) subject_inactive

unfoldable pub revoke_token_session : String → ℕ → M (Unit {0})
revoke_token_session session_id t = do
  _ ←
      update token_sessions (λ s. s.id == session_id && is_none s.revoked_time)
        (λ s. record s { revoked_time = some t })
  _ ←
      update access_tokens (λ a. a.token_session_id == session_id && is_none a.revoked_time)
        (λ a. record a { revoked_time = some t })
  _ ←
      update refresh_tokens (λ r. r.token_session_id == session_id && is_none r.revoked_time)
        (λ r. record r { revoked_time = some t })
  pure tt

-- A code pays for a new session: the same statements in both kinds of issue. An unset login session
-- is an empty text here, which the validator of the column refuses as ent refuses an unset one.
unfoldable pub open_token_session : TokenGrant → String → String → ℕ → M (Unit {0})
open_token_session grant token_session_id family_id t = do
  consume_authorization_code grant.code_id token_session_id t
  ensure_active_user grant.user_id
  _ ← insert token_sessions (record {
    id = token_session_id;
    user_id = grant.user_id;
    client_id = grant.client_id;
    iam_login_session_id = or_empty grant.iam_login_session_id;
    refresh_family_id = family_id;
    scopes = grant.scopes;
    auth_time = grant.auth_time;
    amr = grant.amr;
    revoked_time = none;
  })
  pure tt

unfoldable pub store_access_token : TokenGrant → String → String → ℕ → M (Unit {0})
store_access_token grant access_token_id token_session_id t = do
  _ ← insert access_tokens (record {
    id = access_token_id;
    token_session_id = token_session_id;
    subject = grant.user_id;
    client_id = grant.client_id;
    scopes = grant.scopes;
    issued_time = t;
    expires_time = t + access_token_ttl;
    revoked_time = none;
  })
  pure tt

unfoldable pub create_access_token : TokenRequest → M (String × ℕ)
create_access_token request = do
  grant ← token_grant_from_request request
  access_token_id ← new_id
  token_session_id ← new_id
  family_id ← new_id
  t ← now
  map_error token_grant_error (
      in_tx (do
        open_token_session grant token_session_id family_id t
        store_access_token grant access_token_id token_session_id t))
  pure (access_token_id, t + access_token_ttl)

-- What a transaction that issues a pair of tokens goes on with: the session, its family and the
-- token that the new one replaces; or a replay, whose revocation is to be committed.
pub data Granted : Type 0 where
  session : String → String → Option String → Granted
  replay : Granted

unfoldable pub start_session : TokenGrant → ℕ → M Granted
start_session grant t = do
  token_session_id ← new_id
  family_id ← new_id
  open_token_session grant token_session_id family_id t
  pure (session token_session_id family_id none)

-- The checks on a refresh token that was not consumed before, and its consumption.
unfoldable pub consume_refresh_token : TokenGrant → RefreshToken → ℕ → M Granted
consume_refresh_token grant current t = do
  when (is_some current.revoked_time || not (ltb t current.expires_time)) storage_not_found
  stored ← only token_sessions (λ s. s.id == grant.token_session_id)
  when (is_some stored.revoked_time) storage_not_found
  ensure_active_user grant.user_id
  active_sessions ←
      update token_sessions (λ s. s.id == grant.token_session_id && is_none s.revoked_time)
        (λ s. record s { scopes = grant.scopes })
  when (not (eqb active_sessions 1)) storage_not_found
  consumed ←
      update refresh_tokens
        (λ r.
          r.id == current.id
          && is_none r.consumed_time
          && is_none r.revoked_time
          && ltb t r.expires_time)
        (λ r. record r { consumed_time = some t })
  if eqb consumed 1
      then pure (session grant.token_session_id stored.refresh_family_id (some current.id))
      else (do revoke_token_session grant.token_session_id t; pure replay)

unfoldable pub rotate : TokenGrant → ℕ → M Granted
rotate grant t = do
  current ← only refresh_tokens (λ r. r.id == grant.refresh_token_id)
  if is_some current.consumed_time
      then (do revoke_token_session grant.token_session_id t; pure replay)
      else consume_refresh_token grant current t

module _ (hash_opaque_secret : String → String) where
  unfoldable pub store_refresh_token :
      String → String → String → String → Option String → ℕ → M (Unit {0})
  store_refresh_token refresh_token_id refresh_token token_session_id family_id parent t = do
    _ ← insert refresh_tokens (record {
      id = refresh_token_id;
      token_session_id = token_session_id;
      family_id = family_id;
      token_hash = hash_opaque_secret refresh_token;
      parent_token_id = parent;
      issued_time = t;
      expires_time = t + refresh_token_ttl;
      consumed_time = none;
      revoked_time = none;
    })
    pure tt

  -- Whether a replay was detected.
  unfoldable pub store_tokens : TokenGrant → String → String → String → ℕ → Granted → M Bool
  store_tokens grant access_token_id refresh_token_id refresh_token t replay = pure true
  store_tokens grant access_token_id refresh_token_id refresh_token t
        (session token_session_id family_id parent) =
      do
        store_access_token grant access_token_id token_session_id t
        store_refresh_token refresh_token_id refresh_token token_session_id family_id parent t
        pure false

  unfoldable pub create_access_and_refresh_tokens : TokenRequest → M (String × String × ℕ)
  create_access_and_refresh_tokens request = do
    grant ← token_grant_from_request request
    access_token_id ← new_id
    refresh_token_id ← new_id
    refresh_token ← new_secret
    t ← now
    replayed ← map_error token_grant_error (
        in_tx (do
          granted ← (if grant.token_session_id == "" then start_session grant t else rotate grant t)
          store_tokens grant access_token_id refresh_token_id refresh_token t granted))
    when replayed invalid_grant
    pure (access_token_id, refresh_token, t + access_token_ttl)
