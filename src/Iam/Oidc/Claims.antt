-- ===== src/Iam/Oidc/Claims.antt =====
-- app/iam/service/internal/oidc: claims.go and op_op_storage.go, what is told of a token.
use servora_platform.Common.{
  ℕ, String, ◌==◌, Bool, true, false, not, ◌&&◌, ◌||◌, List, [], ◌∷◌, Option, none, some, is_none,
  is_some, ltb, if◌then◌else◌,
}
use servora_platform.Iam.Schema.{User, Client, AccessToken}
use servora_platform.Iam.Schema.Tables.{users, identifiers, clients, token_sessions, access_tokens}
use servora_platform.Iam.Store.{
  M, ◌>>=◌, ◌>>◌, pure, map_error, missing_as, when, storage_not_found, client_rejected, now, only,
  exists,
}
use servora_platform.Iam.Oidc.Requests.{contains}

unfoldable pub active_access_token : String → String → M AccessToken
active_access_token token_id subject = do
  t ← now
  token ← map_error (missing_as storage_not_found) (
      only access_tokens (λ a.
        a.id == token_id && a.subject == subject && ltb t a.expires_time && is_none a.revoked_time))
  session_active ←
      exists token_sessions (λ s. s.id == token.token_session_id && is_none s.revoked_time)
  when (not session_active) storage_not_found
  pure token

-- `oidc.UserInfo`, with the claims that the provider fills in; an unset text is empty.
pub record UserInfo : Type 0 where
  pub subject : String
  pub name : String
  pub given_name : String
  pub family_name : String
  pub nickname : String
  pub preferred_username : String
  pub picture : String
  pub locale : Option String
  pub updated_at : ℕ
  pub email : String
  pub email_verified : Bool

abbrev pub no_claims : UserInfo
no_claims = record {
  subject = "";
  name = "";
  given_name = "";
  family_name = "";
  nickname = "";
  preferred_username = "";
  picture = "";
  locale = none;
  updated_at = 0;
  email = "";
  email_verified = false;
}

-- A column that is set overwrites the claim.
abbrev or_else : Option String → String → String
or_else none s = s
or_else (some t) s = t

-- `oidc.IntrospectionResponse`; the token type is always Bearer.
pub record Introspection : Type 0 where
  pub active : Bool
  pub scope : List String
  pub client_id : String
  pub expiration : ℕ
  pub issued_at : ℕ
  pub auth_time : ℕ
  pub subject : String
  pub audience : List String
  pub amr : List String
  pub jwt_id : String
  pub userinfo : UserInfo

unfoldable pub email_claims : String → UserInfo → M UserInfo
email_claims user_id info = do
  email ← only identifiers (λ i. i.user_id == user_id && i.type == "email")
  pure (record info { email = email.display_value; email_verified = is_some email.verified_time })

-- What `language.Parse` accepts is a parameter.
module _ (parse_locale : String → Option String) where
  abbrev locale_of : Option String → Option String → Option String
  locale_of none old = old
  locale_of (some l) old = elim (parse_locale l) [ none ↦ old | some tag ↦ some tag ]

  unfoldable pub profile_claims : User → UserInfo → UserInfo
  profile_claims u info = record info {
    name = or_else u.name info.name;
    given_name = or_else u.given_name info.given_name;
    family_name = or_else u.family_name info.family_name;
    nickname = or_else u.nickname info.nickname;
    preferred_username = or_else u.preferred_username info.preferred_username;
    picture = or_else u.picture info.picture;
    locale = locale_of u.locale info.locale;
    updated_at = u.update_time;
  }

  unfoldable pub populate_userinfo : UserInfo → String → List String → M UserInfo
  unfolding profile_claims email_claims
  populate_userinfo info user_id scopes = do
    entity ←
        map_error (missing_as storage_not_found)
          (only users (λ u. u.id == user_id && u.status == "active"))
    let info' = record info { subject = entity.id }
    let profiled = if contains scopes "profile" then profile_claims entity info' else info'
    if contains scopes "email" then email_claims entity.id profiled else pure profiled

  unfoldable pub set_userinfo_from_token : UserInfo → String → String → M UserInfo
  set_userinfo_from_token info token_id subject = do
    token ← active_access_token token_id subject
    populate_userinfo info token.subject token.scopes

  unfoldable pub set_introspection_from_token : String → String → String → M Introspection
  set_introspection_from_token token_id subject client_id = do
    token ← active_access_token token_id subject
    when (client_id == "" || not (token.client_id == client_id)) storage_not_found
    stored ← only token_sessions (λ s. s.id == token.token_session_id)
    info ← populate_userinfo no_claims token.subject token.scopes
    pure (record {
      active = true;
      scope = token.scopes;
      client_id = token.client_id;
      expiration = token.expires_time;
      issued_at = token.issued_time;
      auth_time = stored.auth_time;
      subject = token.subject;
      audience = token.client_id ∷ [];
      amr = stored.amr;
      jwt_id = token.id;
      userinfo = info;
    })

unfoldable pub get_client_by_client_id : String → M Client
get_client_by_client_id client_id =
    map_error (missing_as storage_not_found) (only clients (λ c. c.id == client_id))

unfoldable pub authorize_client_id_secret : (String → String) → String → String → M (Unit {0})
authorize_client_id_secret hash_opaque_secret client_id client_secret = do
  entity ← get_client_by_client_id client_id
  when (entity.secret_hash == "" || not (hash_opaque_secret client_secret == entity.secret_hash))
      client_rejected
