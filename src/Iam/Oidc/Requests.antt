-- ===== src/Iam/Oidc/Requests.antt =====
-- app/iam/service/internal/oidc: op_auth_request.go, the request and code part of
-- op_auth_storage.go, and the request validation of provider.go.
use servora_platform.Common.{
  ℕ, ◌+◌, ◌*◌, ◌^◌, String, ◌==◌, Bool, true, false, not, ◌&&◌, ◌||◌, List, [], ◌∷◌, Option, none,
  some, is_none, is_some, ltb, eqb, any, all, if◌then◌else◌,
}
use servora_platform.Iam.Schema.{OidcAuthorizationRequest}
use servora_platform.Iam.Schema.Tables.{requests, codes}
use servora_platform.Iam.Store.{
  M, ◌>>=◌, ◌>>◌, pure, raise, map_error, missing_as, when, storage_not_found, invalid_request,
  request_not_supported, invalid_scope, panicked, now, new_id, only, update, insert, delete,
}

abbrev pub second : ℕ
second = 10 ^ 9

abbrev pub minute : ℕ
minute = 60 * second

abbrev pub hour : ℕ
hour = 60 * minute

abbrev pub authorization_request_ttl : ℕ
authorization_request_ttl = 10 * minute

abbrev pub authorization_code_ttl : ℕ
authorization_code_ttl = 5 * minute

abbrev pub supported_scopes : List String
supported_scopes = "openid" ∷ "profile" ∷ "email" ∷ "offline_access" ∷ []

-- `slices.Contains`.
abbrev pub contains : List String → String → Bool
contains l s = any (λ x. x == s) l

-- ZITADEL's `oidc.AuthRequest`, with the fields that the storage reads.
pub record AuthRequest : Type 0 where
  pub client_id : String
  pub redirect_uri : String
  pub response_type : String
  pub response_mode : String
  pub scopes : List String
  pub state : String
  pub nonce : String
  pub code_challenge : String
  pub code_challenge_method : String
  pub request_param : String

unfoldable pub validate_authorization_request : Option AuthRequest → M AuthRequest
validate_authorization_request none = raise invalid_request
validate_authorization_request (some r) = do
  when (not (r.response_type == "code")) invalid_request
  when (not (r.response_mode == "") && not (r.response_mode == "query")) invalid_request
  when (r.state == "" || r.nonce == "") invalid_request
  when (r.code_challenge == "" || not (r.code_challenge_method == "S256")) invalid_request
  when (not (r.request_param == "")) request_not_supported
  when (not (contains r.scopes "openid")) invalid_scope
  when (not (all (λ s. contains supported_scopes s) r.scopes)) invalid_scope
  pure r

-- `authorizationRequest`: a stored request, with the code by which it was found.
pub record AuthorizationRequest : Type 0 where
  pub entity : OidcAuthorizationRequest
  pub authorization_code_id : String

-- The method `Done`.
unfoldable pub done : AuthorizationRequest → Bool
done r = r.entity.done && is_some r.entity.subject && is_some r.entity.auth_time

abbrev pub or_empty : Option String → String
or_empty none = ""
or_empty (some s) = s

unfoldable pub get_subject : AuthorizationRequest → String
get_subject r = or_empty r.entity.subject

-- The zero time where none is set.
unfoldable pub get_auth_time : AuthorizationRequest → ℕ
get_auth_time r = elim r.entity.auth_time [ none ↦ 0 | some t ↦ t ]

unfoldable pub get_amr : AuthorizationRequest → List String
unfolding done
get_amr r = if done r then "pwd" ∷ [] else []

abbrev unless_empty : String → Option String
unless_empty s = if s == "" then none else some s

unfoldable pub create_auth_request : Option AuthRequest → M AuthorizationRequest
unfolding validate_authorization_request
create_auth_request request = do
  r ← validate_authorization_request request
  id ← new_id
  t ← now
  entity ← insert requests (record {
    id = id;
    client_id = r.client_id;
    redirect_uri = r.redirect_uri;
    response_type = r.response_type;
    response_mode = r.response_mode;
    scopes = r.scopes;
    state = unless_empty r.state;
    nonce = unless_empty r.nonce;
    pkce_challenge = r.code_challenge;
    pkce_challenge_method = r.code_challenge_method;
    subject = none;
    iam_login_session_id = none;
    auth_time = none;
    done = false;
    expires_time = t + authorization_request_ttl;
  })
  pure (record { entity = entity; authorization_code_id = "" })

unfoldable pub auth_request_by_id : String → M AuthorizationRequest
auth_request_by_id request_id = do
  t ← now
  entity ←
      map_error (missing_as storage_not_found)
        (only requests (λ r. r.id == request_id && ltb t r.expires_time))
  pure (record { entity = entity; authorization_code_id = "" })

-- `CompleteAuthRequest` binds a login session to a pending request.
unfoldable pub complete_auth_request : String → String → String → ℕ → M (Unit {0})
complete_auth_request request_id user_id iam_session_id auth_time = do
  t ← now
  updated ←
      update requests (λ r. r.id == request_id && not r.done && ltb t r.expires_time)
        (λ r. record r {
          subject = some user_id;
          iam_login_session_id = some iam_session_id;
          auth_time = some auth_time;
          done = true;
        })
  when (not (eqb updated 1)) storage_not_found

unfoldable pub delete_auth_request : String → M (Unit {0})
delete_auth_request request_id = delete requests (λ r. r.id == request_id)

-- `*request.Subject`.
abbrev pub deref : Option String → M String
deref none = raise panicked
deref (some s) = pure s

-- The hash of `biz.HashOpaqueSecret` is a parameter.
module _ (hash_opaque_secret : String → String) where
  unfoldable pub auth_request_by_code : String → M AuthorizationRequest
  auth_request_by_code code = do
    t ← now
    code_entity ← map_error (missing_as storage_not_found) (
        only codes (λ c.
          c.code_hash == hash_opaque_secret code
          && is_none c.consumed_time
          && ltb t c.expires_time))
    request_entity ←
        map_error (missing_as storage_not_found)
          (only requests (λ r. r.id == code_entity.authorization_request_id))
    when
        (not request_entity.done
          || is_none request_entity.subject
          || is_none request_entity.auth_time)
        storage_not_found
    pure (record { entity = request_entity; authorization_code_id = code_entity.id })

  unfoldable pub save_auth_code : String → String → M (Unit {0})
  save_auth_code request_id code = do
    t ← now
    request ←
        map_error (missing_as storage_not_found)
          (only requests (λ r. r.id == request_id && r.done && ltb t r.expires_time))
    id ← new_id
    subject ← deref request.subject
    t' ← now
    _ ← insert codes (record {
      id = id;
      code_hash = hash_opaque_secret code;
      authorization_request_id = request.id;
      token_session_id = none;
      client_id = request.client_id;
      subject = subject;
      redirect_uri = request.redirect_uri;
      scopes = request.scopes;
      pkce_challenge = request.pkce_challenge;
      pkce_challenge_method = request.pkce_challenge_method;
      expires_time = t' + authorization_code_ttl;
      consumed_time = none;
    })
    pure tt
