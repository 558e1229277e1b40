-- ===== src/Iam/Oidc/Tests.antt =====
-- Runs of the OpenID storage on small databases, and the theorems at concrete inputs.
use servora_platform.Common.{ℕ, String, ◌≡◌, ◌≢◌, refl, true, [], ◌∷◌, none, some}
use servora_platform.Iam.Schema.{
  Db, User, OidcAuthorizationRequest, AuthorizationCode, TokenSession, RefreshToken,
}
use servora_platform.Iam.Store.{
  World, Outcome, ok, err, M, ◌>>=◌, after, invalid_grant, storage_not_found, statement, now,
  new_id, new_secret, single, only, exists, update, insert, in_tx,
}
use servora_platform.Iam.Oidc.Requests
use servora_platform.Iam.Oidc.Requests.{
  AuthRequest, AuthorizationRequest, create_auth_request, complete_auth_request, save_auth_code,
  auth_request_by_code,
}
use servora_platform.Iam.Oidc.Tokens
use servora_platform.Iam.Oidc.Tokens.{
  authorization, create_access_token, create_access_and_refresh_tokens, token_grant_from_request,
}
use servora_platform.Iam.Oidc.Sessions.{token_request_by_refresh_token}
use servora_platform.Iam.Oidc.Calls
use servora_platform.Iam.Oidc.Calls.{Call, perform, run, creates_tokens, deletes_request}
use servora_platform.Iam.Oidc.SingleUse.{HasCodeKeys}
use servora_platform.Iam.Oidc.Redemption.{redeems, redeem_code_once}
use servora_platform.Iam.Oidc.Replay.{IsRevoked, replay_revokes_session}
use servora_platform.Iam.Oidc.Atomic.{create_access_token-err}

abbrev tag : String → String
tag s = Prim.Native.String.◌++◌ "h:" s

abbrev ann : User
ann = record {
  id = "u1";
  status = "active";
  name = none;
  given_name = none;
  family_name = none;
  nickname = none;
  preferred_username = none;
  picture = none;
  locale = none;
  etag = "e";
  create_time = 0;
  update_time = 0;
}

abbrev empty_db : Db
empty_db = record {
  users = ann ∷ [];
  identifiers = [];
  authenticators = [];
  passwords = [];
  verification_tokens = [];
  reset_tokens = [];
  login_sessions = [];
  requests = [];
  codes = [];
  token_sessions = [];
  access_tokens = [];
  refresh_tokens = [];
  clients = [];
}

abbrev start : World
start = record {
  db = empty_db;
  time = 1000;
  delays = [];
  ids = "i1" ∷ "i2" ∷ "i3" ∷ "i4" ∷ "i5" ∷ "i6" ∷ "i7" ∷ "i8" ∷ "i9" ∷ "i10" ∷ "i11" ∷ "i12" ∷ [];
  secrets = "s1" ∷ "s2" ∷ "s3" ∷ [];
  faults = [];
}

abbrev ask : AuthRequest
ask = record {
  client_id = "app";
  redirect_uri = "https://app/cb";
  response_type = "code";
  response_mode = "";
  scopes = "openid" ∷ [];
  state = "st";
  nonce = "no";
  code_challenge = "ch";
  code_challenge_method = "S256";
  request_param = "";
}

-- From the authorization request to the saved code "c".
abbrev coded : M AuthorizationRequest
coded = do
  r ← create_auth_request (some ask)
  _ ← complete_auth_request r.entity.id "u1" "ls" 900
  _ ← save_auth_code tag r.entity.id "c"
  auth_request_by_code tag "c"

abbrev exchange : M (String × String × ℕ)
exchange = do r ← coded; create_access_and_refresh_tokens tag (authorization r)

runtime : Unit {0}
unfolding Requests.validate_authorization_request Requests.done Requests.get_subject
    Requests.get_auth_time Requests.get_amr create_auth_request complete_auth_request save_auth_code
    auth_request_by_code Tokens.is_unready Tokens.grant_of Tokens.start_session
    Tokens.open_token_session Tokens.consume_authorization_code Tokens.ensure_active_user
    Tokens.store_tokens Tokens.store_access_token Tokens.store_refresh_token
    Tokens.token_grant_error create_access_and_refresh_tokens create_access_token
    token_grant_from_request Calls.perform Calls.run redeems statement now new_id new_secret single
    only exists update insert in_tx
runtime = tt

value_of {ℓ} : {A : Type 0} {B : Type ℓ} → (A → B) → B → Outcome A → B
value_of f d (ok a w) = f a
value_of f d (err e w) = d

exchange_runs : value_of (λ t. some t.1) none (exchange start) ≡ some "s1"
unfolding runtime value_of
exchange_runs = refl

-- A completed authorization request, and its code.
abbrev login_request : OidcAuthorizationRequest
login_request = record {
  id = "r1";
  client_id = "app";
  redirect_uri = "https://app/cb";
  response_type = "code";
  response_mode = "";
  scopes = "openid" ∷ [];
  state = some "st";
  nonce = some "no";
  pkce_challenge = "ch";
  pkce_challenge_method = "S256";
  subject = some "u1";
  iam_login_session_id = some "ls";
  auth_time = some 900;
  done = true;
  expires_time = 2000;
}

abbrev login_code : AuthorizationCode
login_code = record {
  id = "c1";
  code_hash = "h:c";
  authorization_request_id = "r1";
  token_session_id = none;
  client_id = "app";
  subject = "u1";
  redirect_uri = "https://app/cb";
  scopes = "openid" ∷ [];
  pkce_challenge = "ch";
  pkce_challenge_method = "S256";
  expires_time = 2000;
  consumed_time = none;
}

abbrev with_code : World
with_code = record start {
  db = record empty_db { requests = login_request ∷ []; codes = login_code ∷ [] };
}

abbrev redemption : Call
redemption =
    creates_tokens (authorization (record { entity = login_request; authorization_code_id = "c1" }))

abbrev redeemed : World
redeemed = after (perform tag redemption with_code)

one_code : HasCodeKeys with_code.db
one_code = (tt, tt)

redeems_code : redeems "c1" redemption ≡ true
unfolding runtime
redeems_code = refl

redemption_returns : perform tag redemption with_code ≡ ok tt redeemed
unfolding runtime
redemption_returns = refl

redeem_code_once_example :
    perform tag redemption (run tag (deletes_request "r1" ∷ []) redeemed) ≢ ok tt start
redeem_code_once_example =
    redeem_code_once tag "c1" redemption redemption (deletes_request "r1" ∷ []) with_code redeemed
      start one_code redeems_code redeems_code redemption_returns

-- The user is gone: the code is consumed within the transaction, and given back.
abbrev without_user : World
without_user = record with_code { db = record with_code.db { users = [] } }

abbrev failed_issue : Outcome (String × ℕ)
failed_issue =
    create_access_token
      (authorization (record { entity = login_request; authorization_code_id = "c1" })) without_user

issue_fails : failed_issue ≡ err invalid_grant (after failed_issue)
unfolding runtime
issue_fails = refl

create_access_token-err_example : (after failed_issue).db ≡ without_user.db
create_access_token-err_example =
    create_access_token-err
      (authorization (record { entity = login_request; authorization_code_id = "c1" })) without_user
      (after failed_issue) invalid_grant issue_fails

abbrev old_session : TokenSession
old_session = record {
  id = "ts";
  user_id = "u1";
  client_id = "app";
  iam_login_session_id = "ls";
  refresh_family_id = "f";
  scopes = "openid" ∷ [];
  auth_time = 900;
  amr = "pwd" ∷ [];
  revoked_time = none;
}

abbrev old_token : RefreshToken
old_token = record {
  id = "rt";
  token_session_id = "ts";
  family_id = "f";
  token_hash = "h:old";
  parent_token_id = none;
  issued_time = 900;
  expires_time = 5000;
  consumed_time = some 950;
  revoked_time = none;
}

abbrev rotated : World
rotated = record start {
  db = record empty_db { token_sessions = old_session ∷ []; refresh_tokens = old_token ∷ [] };
}

replay_revokes_session_example :
    (v : World) × (token_request_by_refresh_token tag "old" rotated ≡ err storage_not_found v)
    × IsRevoked "ts" v.db
replay_revokes_session_example =
    replay_revokes_session tag "old" old_token old_session refl rotated refl (refl, refl)
