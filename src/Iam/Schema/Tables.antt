-- ===== src/Iam/Schema/Tables.antt =====
-- Each table with how it stands in the database, and what its ent schema asks of a new row: the
-- NotEmpty validators, which ent runs before it sends the statement, and the keys that the
-- database keeps unique.
use servora_platform.Common.{String, ◌==◌, Bool, not, ◌&&◌, ◌||◌, List, [], ◌∷◌, all}
use servora_platform.Iam.Schema.{
  Db, User, LoginIdentifier, Authenticator, PasswordAuthenticator, EmailVerificationToken,
  PasswordResetToken, LoginSession, OidcAuthorizationRequest, AuthorizationCode, TokenSession,
  AccessToken, RefreshToken, Client,
}

pub record Table (R : Type 0) : Type 0 where
  pub get : Db → List R
  pub put : Db → List R → Db
  pub valid : R → Bool
  pub clash : R → R → Bool

-- NotEmpty on several text columns.
abbrev pub not_empty : List String → Bool
not_empty = all (λ s. not (s == ""))

abbrev pub users : Table User
users = record {
  get = λ d. d.users;
  put = λ d rs. record d { users = rs };
  valid = λ r. not_empty (r.etag ∷ []);
  clash = λ r s. r.id == s.id;
}

abbrev pub identifiers : Table LoginIdentifier
identifiers = record {
  get = λ d. d.identifiers;
  put = λ d rs. record d { identifiers = rs };
  valid = λ r. not_empty (r.user_id ∷ r.type ∷ r.canonical_value ∷ r.display_value ∷ []);
  clash = λ r s.
      r.id == s.id
      || r.user_id == s.user_id && r.type == s.type
      || r.type == s.type && r.canonical_value == s.canonical_value;
}

abbrev pub authenticators : Table Authenticator
authenticators = record {
  get = λ d. d.authenticators;
  put = λ d rs. record d { authenticators = rs };
  valid = λ r. not_empty (r.user_id ∷ r.type ∷ []);
  clash = λ r s. r.id == s.id;
}

abbrev pub passwords : Table PasswordAuthenticator
passwords = record {
  get = λ d. d.passwords;
  put = λ d rs. record d { passwords = rs };
  valid = λ r. not_empty (r.authenticator_id ∷ r.password_hash ∷ []);
  clash = λ r s. r.id == s.id || r.authenticator_id == s.authenticator_id;
}

abbrev pub verification_tokens : Table EmailVerificationToken
verification_tokens = record {
  get = λ d. d.verification_tokens;
  put = λ d rs. record d { verification_tokens = rs };
  valid = λ r. not_empty (r.user_id ∷ r.login_identifier_id ∷ r.token_hash ∷ []);
  clash = λ r s. r.id == s.id || r.token_hash == s.token_hash;
}

abbrev pub reset_tokens : Table PasswordResetToken
reset_tokens = record {
  get = λ d. d.reset_tokens;
  put = λ d rs. record d { reset_tokens = rs };
  valid = λ r. not_empty (r.user_id ∷ r.token_hash ∷ []);
  clash = λ r s. r.id == s.id || r.token_hash == s.token_hash;
}

abbrev pub login_sessions : Table LoginSession
login_sessions = record {
  get = λ d. d.login_sessions;
  put = λ d rs. record d { login_sessions = rs };
  valid = λ r. not_empty (r.user_id ∷ r.secret_hash ∷ []);
  clash = λ r s. r.id == s.id || r.secret_hash == s.secret_hash;
}

abbrev pub requests : Table OidcAuthorizationRequest
requests = record {
  get = λ d. d.requests;
  put = λ d rs. record d { requests = rs };
  valid = λ r. not_empty (r.client_id ∷ r.redirect_uri ∷ r.response_type ∷ r.pkce_challenge ∷ []);
  clash = λ r s. r.id == s.id;
}

abbrev pub codes : Table AuthorizationCode
codes = record {
  get = λ d. d.codes;
  put = λ d rs. record d { codes = rs };
  valid = λ r. not_empty (
      r.code_hash ∷ r.authorization_request_id ∷ r.client_id ∷ r.subject ∷ r.redirect_uri
      ∷ r.pkce_challenge ∷ []);
  clash = λ r s.
      r.id == s.id
      || r.code_hash == s.code_hash
      || r.authorization_request_id == s.authorization_request_id;
}

abbrev pub token_sessions : Table TokenSession
token_sessions = record {
  get = λ d. d.token_sessions;
  put = λ d rs. record d { token_sessions = rs };
  valid =
      λ r. not_empty (r.user_id ∷ r.client_id ∷ r.iam_login_session_id ∷ r.refresh_family_id ∷ []);
  clash = λ r s. r.id == s.id || r.refresh_family_id == s.refresh_family_id;
}

abbrev pub access_tokens : Table AccessToken
access_tokens = record {
  get = λ d. d.access_tokens;
  put = λ d rs. record d { access_tokens = rs };
  valid = λ r. not_empty (r.token_session_id ∷ r.subject ∷ r.client_id ∷ []);
  clash = λ r s. r.id == s.id;
}

abbrev pub refresh_tokens : Table RefreshToken
refresh_tokens = record {
  get = λ d. d.refresh_tokens;
  put = λ d rs. record d { refresh_tokens = rs };
  valid = λ r. not_empty (r.token_session_id ∷ r.family_id ∷ r.token_hash ∷ []);
  clash = λ r s. r.id == s.id || r.token_hash == s.token_hash;
}

abbrev pub clients : Table Client
clients = record {
  get = λ d. d.clients;
  put = λ d rs. record d { clients = rs };
  valid = λ r. not_empty (r.secret_hash ∷ []);
  clash = λ r s. r.id == s.id;
}
