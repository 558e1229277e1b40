-- ===== src/Iam/Oidc/Calls.antt =====
-- The calls by which ZITADEL's provider and the login page change the storage, one after another.
-- Each call sees the database that the calls before it left, whether they returned or raised.
use servora_platform.Common.{ℕ, String, List, [], ◌∷◌, Option}
use servora_platform.Iam.Store.{World, M, ◌>>=◌, pure, after}
use servora_platform.Iam.Oidc.Requests.{
  AuthRequest, create_auth_request, complete_auth_request, save_auth_code, delete_auth_request,
}
use servora_platform.Iam.Oidc.Tokens.{
  TokenRequest, create_access_token, create_access_and_refresh_tokens,
}
use servora_platform.Iam.Oidc.Sessions.{
  token_request_by_refresh_token, terminate_session, revoke_token,
}

pub data Call : Type 0 where
  creates_request : Option AuthRequest → Call
  completes_request : String → String → String → ℕ → Call
  saves_code : String → String → Call
  deletes_request : String → Call
  creates_access_token : TokenRequest → Call
  creates_tokens : TokenRequest → Call
  looks_up_refresh_token : String → Call
  terminates_session : String → String → Call
  revokes_token : String → String → String → Call

module _ (hash_opaque_secret : String → String) where
  unfoldable pub perform : Call → M (Unit {0})
  perform (creates_request r) = do _ ← create_auth_request r; pure tt
  perform (completes_request r u s t) = complete_auth_request r u s t
  perform (saves_code r c) = save_auth_code hash_opaque_secret r c
  perform (deletes_request r) = delete_auth_request r
  perform (creates_access_token r) = do _ ← create_access_token r; pure tt
  perform (creates_tokens r) = do _ ← create_access_and_refresh_tokens hash_opaque_secret r; pure tt
  perform (looks_up_refresh_token t) = do
    _ ← token_request_by_refresh_token hash_opaque_secret t
    pure tt
  perform (terminates_session u c) = terminate_session u c
  perform (revokes_token t u c) = revoke_token t u c

  unfoldable pub run : List Call → World → World
  run [] w = w
  run (c ∷ cs) w = run cs (after (perform c w))
