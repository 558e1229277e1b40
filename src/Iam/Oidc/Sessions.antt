-- ===== src/Iam/Oidc/Sessions.antt =====
-- app/iam/service/internal/oidc/op_auth_storage.go: the lookup of a refresh token, the end of
-- sessions and the revocation of tokens.
use servora_platform.Common.{
  ℕ, String, ◌==◌, Bool, true, false, not, ◌&&◌, ◌||◌, List, [], ◌∷◌, Option, none, some, is_none,
  is_some, ltb, if◌then◌else◌,
}
use servora_platform.Iam.Schema.{RefreshToken, TokenSession}
use servora_platform.Iam.Schema.Tables.{token_sessions, access_tokens, refresh_tokens}
use servora_platform.Iam.Store.{
  Error, Outcome, M, ◌>>=◌, ◌>>◌, pure, raise, map_error, missing_as, if_missing, when,
  storage_not_found, invalid_refresh_token, token_not_found, server_error, now, query, only, in_tx,
}
use servora_platform.Iam.Oidc.Tokens.{RefreshTokenRequest, ensure_active_user, revoke_token_session}

-- The body of the transaction of `TokenRequestByRefreshToken`; none is a replay.
unfoldable pub answer_refresh : RefreshToken → TokenSession → ℕ → M (Option RefreshTokenRequest)
answer_refresh token stored t =
    if is_some token.consumed_time then (do revoke_token_session stored.id t; pure none) else do
      when
          (is_some token.revoked_time
            || not (ltb t token.expires_time)
            || is_some stored.revoked_time)
          storage_not_found
      map_error (λ _. storage_not_found) (ensure_active_user stored.user_id)
      pure (
          some (record {
            token_id = token.id;
            token_session_id = stored.id;
            client_id = stored.client_id;
            subject = stored.user_id;
            scopes = stored.scopes;
            auth_time = stored.auth_time;
            amr = stored.amr;
          }))

abbrev pub request_or_replay : Option RefreshTokenRequest → M RefreshTokenRequest
request_or_replay none = raise storage_not_found
request_or_replay (some r) = pure r

unfoldable pub terminate_all : List TokenSession → ℕ → M (Unit {0})
terminate_all [] t = pure tt
terminate_all (s ∷ ss) t = do revoke_token_session s.id t; terminate_all ss t

unfoldable pub terminate_session : String → String → M (Unit {0})
terminate_session user_id client_id = do
  t ← now
  in_tx (do
    sessions ←
        query token_sessions
          (λ s. s.user_id == user_id && s.client_id == client_id && is_none s.revoked_time)
    terminate_all sessions t)

unfoldable pub session_of_refresh : String → String → String → M String
session_of_refresh token_id user_id client_id = do
  token ← map_error (missing_as token_not_found) (only refresh_tokens (λ r. r.id == token_id))
  stored ←
      map_error (λ _. token_not_found) (only token_sessions (λ s. s.id == token.token_session_id))
  when (not (stored.user_id == user_id) || not (stored.client_id == client_id)) token_not_found
  pure stored.id

unfoldable pub token_session_id_by_token : String → String → String → M String
token_session_id_by_token token_id user_id client_id =
    if_missing
      (do
        access ←
            only access_tokens
              (λ a. a.id == token_id && a.subject == user_id && a.client_id == client_id)
        pure access.token_session_id)
      (session_of_refresh token_id user_id client_id)

-- `errors.Is(err, errTokenNotFound)` ends the transaction with nothing done.
abbrev pub is_unknown : Error → Bool
is_unknown Error.token_not_found = true
is_unknown e = false

abbrev pub ignore_unknown : M (Unit {0}) → M (Unit {0})
ignore_unknown m w = elim (m w) [
  | Outcome.ok u w' ↦ Outcome.ok u w'
  | Outcome.err e w' ↦ if is_unknown e then Outcome.ok tt w' else Outcome.err e w'
]

unfoldable pub revoke_token : String → String → String → M (Unit {0})
revoke_token token_id user_id client_id = do
  t ← now
  map_error (λ _. server_error)
      (in_tx (
        ignore_unknown (do
          session_id ← token_session_id_by_token token_id user_id client_id
          revoke_token_session session_id t)))

module _ (hash_opaque_secret : String → String) where
  unfoldable pub token_request_by_refresh_token : String → M RefreshTokenRequest
  token_request_by_refresh_token refresh_token = do
    t ← now
    answer ← in_tx (do
      token ←
          map_error (missing_as storage_not_found)
            (only refresh_tokens (λ r. r.token_hash == hash_opaque_secret refresh_token))
      stored ← only token_sessions (λ s. s.id == token.token_session_id)
      answer_refresh token stored t)
    request_or_replay answer

  unfoldable pub get_refresh_token_info : String → String → M (String × String)
  get_refresh_token_info client_id refresh_token = do
    token ←
        map_error (missing_as invalid_refresh_token)
          (only refresh_tokens (λ r. r.token_hash == hash_opaque_secret refresh_token))
    stored ←
        map_error (λ _. invalid_refresh_token)
          (only token_sessions (λ s. s.id == token.token_session_id))
    when (not (stored.client_id == client_id)) invalid_refresh_token
    pure (stored.user_id, token.id)
