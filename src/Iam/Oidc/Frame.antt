-- ===== src/Iam/Oidc/Frame.antt =====
-- A property of the codes alone is kept by every call, if saving a code and consuming one keep it.
use servora_platform.Common.{
  ℕ, String, ◌≡◌, false, List, [], ◌∷◌, ◌++◌, Option, none, some, any, if◌then◌else◌,
}
use servora_platform.Iam.Schema.{
  Db, OidcAuthorizationRequest, AuthorizationCode, TokenSession, AccessToken, RefreshToken,
}
use servora_platform.Iam.Schema.Tables.{
  requests, codes, token_sessions, access_tokens, refresh_tokens,
}
use servora_platform.Iam.Store.{World, Outcome, Error, ok, err, M, after, if_missing, is_missing}
use servora_platform.Iam.Store.Keeps.{
  Keeps, Keeps-bind, Keeps-pure, Keeps-raise, Keeps-map_error, Keeps-when, Keeps-now, Keeps-new_id,
  Keeps-new_secret, Keeps-query, Keeps-only, Keeps-exists, Keeps-update, Keeps-insert, Keeps-delete,
  Keeps-in_tx, Keeps-if, Keeps-seq, keeps_rules,
}
use servora_platform.Iam.Oidc.Requests
use servora_platform.Iam.Oidc.Requests.{
  AuthRequest, validate_authorization_request, create_auth_request, complete_auth_request,
  save_auth_code, delete_auth_request,
}
use servora_platform.Iam.Oidc.Tokens.{
  RefreshTokenRequest, TokenRequest, TokenGrant, Granted, session, replay, authorization, refresh,
  unsupported, token_grant_from_request, consume_authorization_code, ensure_active_user,
  revoke_token_session, open_token_session, store_access_token, start_session,
  consume_refresh_token, rotate, store_refresh_token, store_tokens, create_access_token,
  create_access_and_refresh_tokens,
}
use servora_platform.Iam.Oidc.Sessions
use servora_platform.Iam.Oidc.Sessions.{
  answer_refresh, terminate_all, terminate_session, session_of_refresh, token_session_id_by_token,
  revoke_token, token_request_by_refresh_token, is_unknown,
}
use servora_platform.Iam.Oidc.Calls.{
  Call, perform, run, creates_request, completes_request, saves_code, deletes_request,
  creates_access_token, creates_tokens, looks_up_refresh_token, terminates_session, revokes_token,
}

-- What holds of every database.
module _ {P : Db → Type 0} where
  pub Keeps-validate : (r : Option AuthRequest) → Keeps P (validate_authorization_request r)
  unfolding validate_authorization_request
  Keeps-validate none = Keeps-raise _
  Keeps-validate (some r) = search keeps_rules depth 12

  pub Keeps-grant : (r : TokenRequest) → Keeps P (token_grant_from_request r)
  unfolding token_grant_from_request
  Keeps-grant (authorization r) = search keeps_rules depth 8
  Keeps-grant (refresh r) = Keeps-pure _
  Keeps-grant unsupported = Keeps-raise _

  pub Keeps-ensure_active_user : (u : String) → Keeps P (ensure_active_user u)
  unfolding ensure_active_user
  Keeps-ensure_active_user u = search keeps_rules depth 8

  pub Keeps-deref : (s : Option String) → Keeps P (Requests.deref s)
  Keeps-deref none = Keeps-raise _
  Keeps-deref (some s) = Keeps-pure s

  pub Keeps-request_or_replay :
      (r : Option RefreshTokenRequest) → Keeps P (Sessions.request_or_replay r)
  Keeps-request_or_replay none = Keeps-raise _
  Keeps-request_or_replay (some r) = Keeps-pure r

  pub Keeps-session_of_refresh : (t u c : String) → Keeps P (session_of_refresh t u c)
  unfolding session_of_refresh
  Keeps-session_of_refresh t u c = search keeps_rules depth 12

module _ (P : Db → Type 0) where
  missing_after :
      {A : Type 0} (n : M A) (o : Outcome A)
      → P (after o).db
      → Keeps P n
      → P
          (after
            (elim o [ ok a w' ↦ ok a w' | err e w' ↦ if is_missing e then n w' else err e w' ])).db
  missing_after n (ok a w) h k = h
  missing_after n (err Error.ent_not_found w) h k = k.at w h
  missing_after n (err _ w) h k = h

  unknown_after :
      (o : Outcome (Unit {0}))
      → P (after o).db
      → P
          (after (elim o [
            | ok u w' ↦ ok u w'
            | err e w' ↦ if is_unknown e then ok tt w' else err e w'
          ])).db
  unknown_after (ok a w) h = h
  unknown_after (err Error.token_not_found w) h = h
  unknown_after (err _ w) h = h

module _ {P : Db → Type 0} where
  pub Keeps-if_missing : {A : Type 0} (m n : M A) → Keeps P m → Keeps P n → Keeps P (if_missing m n)
  Keeps-if_missing m n km kn = record { at = λ w h. missing_after P n (m w) (km.at w h) kn }

  pub Keeps-ignore_unknown : (m : M (Unit {0})) → Keeps P m → Keeps P (Sessions.ignore_unknown m)
  Keeps-ignore_unknown m km = record { at = λ w h. unknown_after P (m w) (km.at w h) }

  pub Keeps-token_session_id : (t u c : String) → Keeps P (token_session_id_by_token t u c)
  unfolding token_session_id_by_token
  Keeps-token_session_id t u c =
      Keeps-if_missing _ _ (Keeps-bind _ _ (Keeps-only access_tokens _) (λ _. Keeps-pure _))
        (Keeps-session_of_refresh t u c)

pub ruleset call_rules = (
  keeps_rules, Keeps-validate, Keeps-grant, Keeps-ensure_active_user, Keeps-deref,
  Keeps-request_or_replay, Keeps-ignore_unknown, Keeps-token_session_id,
)

-- The calls that only need the revocation of a session to keep the property.
module _ {P : Db → Type 0}
    (revokes : (s : String) (t : ℕ) → Keeps P (revoke_token_session s t)) where
  Keeps-terminate_all : (ss : List TokenSession) (t : ℕ) → Keeps P (terminate_all ss t)
  unfolding terminate_all
  Keeps-terminate_all [] t = Keeps-pure _
  Keeps-terminate_all (s ∷ ss) t = Keeps-seq _ _ (revokes s.id t) (Keeps-terminate_all ss t)

  pub Keeps-terminate_session : (u c : String) → Keeps P (terminate_session u c)
  unfolding terminate_session
  Keeps-terminate_session u c = search (call_rules, Keeps-terminate_all) depth 10

  pub Keeps-revoke_token : (t u c : String) → Keeps P (revoke_token t u c)
  unfolding revoke_token
  Keeps-revoke_token t u c = search call_rules depth 10

  pub Keeps-answer_refresh :
      (r : RefreshToken) (s : TokenSession) (t : ℕ) → Keeps P (answer_refresh r s t)
  unfolding answer_refresh
  Keeps-answer_refresh r s t = search call_rules depth 10

  pub Keeps-token_request :
      (hash : String → String) (s : String) → Keeps P (token_request_by_refresh_token hash s)
  unfolding token_request_by_refresh_token
  Keeps-token_request hash s = search (call_rules, Keeps-answer_refresh) depth 12

module _ {P : Db → Type 0}
    (free_requests : (d : Db) (rs : List OidcAuthorizationRequest) → P d → P (requests.put d rs))
    (free_sessions : (d : Db) (rs : List TokenSession) → P d → P (token_sessions.put d rs))
    (free_access : (d : Db) (rs : List AccessToken) → P d → P (access_tokens.put d rs))
    (free_refresh : (d : Db) (rs : List RefreshToken) → P d → P (refresh_tokens.put d rs))
    (saves : (d : Db) (r : AuthorizationCode)
      → P d
      → any (codes.clash r) d.codes ≡ false
      → P (codes.put d (d.codes ++ r ∷ [])))
    (consumes : (i s : String) (t : ℕ) → Keeps P (consume_authorization_code i s t)) where
  revokes : (s : String) (t : ℕ) → Keeps P (revoke_token_session s t)
  unfolding revoke_token_session
  revokes s t = search keeps_rules depth 10

  opens : (g : TokenGrant) (s f : String) (t : ℕ) → Keeps P (open_token_session g s f t)
  unfolding open_token_session
  opens g s f t = search call_rules depth 10

  stores_access : (g : TokenGrant) (a s : String) (t : ℕ) → Keeps P (store_access_token g a s t)
  unfolding store_access_token
  stores_access g a s t = search keeps_rules depth 10

  issues_one : (r : TokenRequest) → Keeps P (create_access_token r)
  unfolding create_access_token
  issues_one r = search (call_rules, opens, stores_access) depth 14

  starts : (g : TokenGrant) (t : ℕ) → Keeps P (start_session g t)
  unfolding start_session
  starts g t = search (call_rules, opens) depth 10

  rotates : (g : TokenGrant) (t : ℕ) → Keeps P (rotate g t)
  unfolding rotate consume_refresh_token
  rotates g t = search (call_rules, revokes) depth 20

  module _ (hash : String → String) where
    stores :
        (g : TokenGrant) (a r s : String) (t : ℕ) (x : Granted)
        → Keeps P (store_tokens hash g a r s t x)
    unfolding store_tokens store_refresh_token
    stores g a r s t replay = Keeps-pure _
    stores g a r s t (session i f p) = search (keeps_rules, stores_access) depth 10

    issues_two : (r : TokenRequest) → Keeps P (create_access_and_refresh_tokens hash r)
    unfolding create_access_and_refresh_tokens
    issues_two r = search (call_rules, starts, rotates, stores) depth 16

    saves_a_code : (r c : String) → Keeps P (save_auth_code hash r c)
    unfolding save_auth_code
    saves_a_code r c = search call_rules depth 16

    pub Keeps-perform : (c : Call) → Keeps P (perform hash c)
    unfolding perform create_auth_request complete_auth_request delete_auth_request
    Keeps-perform (creates_request r) = search call_rules depth 12
    Keeps-perform (completes_request r u s t) = search call_rules depth 10
    Keeps-perform (saves_code r c) = saves_a_code r c
    Keeps-perform (deletes_request r) = search call_rules
    Keeps-perform (creates_access_token r) = search (keeps_rules, issues_one)
    Keeps-perform (creates_tokens r) = search (keeps_rules, issues_two)
    Keeps-perform (looks_up_refresh_token t) =
        Keeps-bind _ _ (Keeps-token_request revokes hash t) (λ _. Keeps-pure _)
    Keeps-perform (terminates_session u c) = Keeps-terminate_session revokes u c
    Keeps-perform (revokes_token t u c) = Keeps-revoke_token revokes t u c

-- A property that every call keeps is kept by any sequence of calls.
pub run_induction :
    {P : Db → Type 0} (hash : String → String)
    → ((c : Call) → Keeps P (perform hash c))
    → (cs : List Call) (w : World) → P w.db
    → P (run hash cs w).db
unfolding run
run_induction hash k [] w h = h
run_induction hash k (c ∷ cs) w h =
    run_induction hash k cs (after (perform hash c w)) ((k c).at w h)
