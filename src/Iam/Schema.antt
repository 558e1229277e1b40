-- ===== src/Iam/Schema.antt =====
-- app/iam/service/internal/data/schema: one record per ent schema, and the tables together.
-- A text column is a String, a time column a number of nanoseconds since the zero time, an optional
-- column an Option. Validators (NotEmpty) and unique keys stand in Tables. Left out are the columns
-- that only keep a date of creation or of the last write and that no code modelled here reads, and
-- the display name and verification time of an authenticator, which nothing writes.
pub mod Tables
use servora_platform.Common.{ℕ, String, Bool, List, Option}

pub record User : Type 0 where
  pub id : String
  pub status : String
  pub name : Option String
  pub given_name : Option String
  pub family_name : Option String
  pub nickname : Option String
  pub preferred_username : Option String
  pub picture : Option String
  pub locale : Option String
  pub etag : String
  pub create_time : ℕ
  pub update_time : ℕ

pub record LoginIdentifier : Type 0 where
  pub id : String
  pub user_id : String
  pub type : String
  pub canonical_value : String
  pub display_value : String
  pub verified_time : Option ℕ

pub record Authenticator : Type 0 where
  pub id : String
  pub user_id : String
  pub type : String
  pub state : String
  pub display_name : Option String
  pub verified_time : Option ℕ
  pub last_used_time : Option ℕ
  pub revoked_time : Option ℕ
  pub create_time : ℕ
  pub update_time : ℕ

pub record PasswordAuthenticator : Type 0 where
  pub id : String
  pub authenticator_id : String
  pub password_hash : String
  pub changed_time : ℕ

pub record EmailVerificationToken : Type 0 where
  pub id : String
  pub user_id : String
  pub login_identifier_id : String
  pub token_hash : String
  pub expires_time : ℕ
  pub consumed_time : Option ℕ

pub record PasswordResetToken : Type 0 where
  pub id : String
  pub user_id : String
  pub token_hash : String
  pub expires_time : ℕ
  pub consumed_time : Option ℕ

pub record LoginSession : Type 0 where
  pub id : String
  pub user_id : String
  pub secret_hash : String
  pub create_time : ℕ
  pub last_seen_time : ℕ
  pub idle_expires_time : ℕ
  pub absolute_expires_time : ℕ
  pub revoked_time : Option ℕ

pub record OidcAuthorizationRequest : Type 0 where
  pub id : String
  pub client_id : String
  pub redirect_uri : String
  pub response_type : String
  pub response_mode : String
  pub scopes : List String
  pub state : Option String
  pub nonce : Option String
  pub pkce_challenge : String
  pub pkce_challenge_method : String
  pub subject : Option String
  pub iam_login_session_id : Option String
  pub auth_time : Option ℕ
  pub done : Bool
  pub expires_time : ℕ

pub record AuthorizationCode : Type 0 where
  pub id : String
  pub code_hash : String
  pub authorization_request_id : String
  pub token_session_id : Option String
  pub client_id : String
  pub subject : String
  pub redirect_uri : String
  pub scopes : List String
  pub pkce_challenge : String
  pub pkce_challenge_method : String
  pub expires_time : ℕ
  pub consumed_time : Option ℕ

pub record TokenSession : Type 0 where
  pub id : String
  pub user_id : String
  pub client_id : String
  pub iam_login_session_id : String
  pub refresh_family_id : String
  pub scopes : List String
  pub auth_time : ℕ
  pub amr : List String
  pub revoked_time : Option ℕ

pub record AccessToken : Type 0 where
  pub id : String
  pub token_session_id : String
  pub subject : String
  pub client_id : String
  pub scopes : List String
  pub issued_time : ℕ
  pub expires_time : ℕ
  pub revoked_time : Option ℕ

pub record RefreshToken : Type 0 where
  pub id : String
  pub token_session_id : String
  pub family_id : String
  pub token_hash : String
  pub parent_token_id : Option String
  pub issued_time : ℕ
  pub expires_time : ℕ
  pub consumed_time : Option ℕ
  pub revoked_time : Option ℕ

pub record Client : Type 0 where
  pub id : String
  pub secret_hash : String
  pub redirect_uris : List String
  pub allowed_grant_types : List String
  pub allowed_response_types : List String
  pub allowed_scopes : List String
  pub trusted : Bool

-- The database: a list of rows for each table.
pub record Db : Type 0 where
  pub users : List User
  pub identifiers : List LoginIdentifier
  pub authenticators : List Authenticator
  pub passwords : List PasswordAuthenticator
  pub verification_tokens : List EmailVerificationToken
  pub reset_tokens : List PasswordResetToken
  pub login_sessions : List LoginSession
  pub requests : List OidcAuthorizationRequest
  pub codes : List AuthorizationCode
  pub token_sessions : List TokenSession
  pub access_tokens : List AccessToken
  pub refresh_tokens : List RefreshToken
  pub clients : List Client
