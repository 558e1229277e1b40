-- ===== src/Iam/Account/Frame.antt =====
-- A property of the tokens of verification and reset alone is kept by every call of the accounts, if
-- storing and consuming such a token keep it.
use servora_platform.Common.{ℕ, String, Bool, List, [], ◌∷◌, Option}
use servora_platform.Iam.Schema.{
  Db, User, LoginIdentifier, Authenticator, PasswordAuthenticator, LoginSession, TokenSession,
  AccessToken, RefreshToken,
}
use servora_platform.Iam.Schema.Tables.{
  users, identifiers, authenticators, passwords, login_sessions, token_sessions, access_tokens,
  refresh_tokens,
}
use servora_platform.Iam.Store.Keeps.{Keeps, Keeps-pure, keeps_rules}
use servora_platform.Iam.Oidc.Frame.{Keeps-if_missing}
use servora_platform.Iam.Login.Repo.{
  Session, UserResource, UserStatus, create_session, touch, revoke_session, revoke_other_sessions,
  revoke_all_sessions, revoke_ids, revoke_token_sessions, revoke_for_login_session,
  revoke_all_for_user, replace_password,
}
use servora_platform.Iam.Login.Usecase.{
  create, enter, resolve, logout, revoke_others_for_user, revoke_every_session,
}
use servora_platform.Iam.Login.Calls
use servora_platform.Iam.Account.Services.{Profile, Services}
use servora_platform.Iam.Account.Users.{
  Draft, insert_aggregate, create_user_aggregate, create_user, create_initial_admin, write_status,
  update_status, write_profile, update_profile_fields, write_activation, activate_email,
}
use servora_platform.Iam.Account.Login.{login_user}
use servora_platform.Iam.Account.Admin.{
  check_change, write_change, change_status, disable_user, enable_user,
}
use servora_platform.Iam.Account.Reads.{account_rules}

-- The tables of sessions, where the property does not speak of them.
pub record IgnoresSessions (P : Db → Type 0) : Type 0 where
  pub in_sessions : (d : Db) (rs : List LoginSession) → P d → P (login_sessions.put d rs)
  pub in_token_sessions : (d : Db) (rs : List TokenSession) → P d → P (token_sessions.put d rs)
  pub in_access_tokens : (d : Db) (rs : List AccessToken) → P d → P (access_tokens.put d rs)
  pub in_refresh_tokens : (d : Db) (rs : List RefreshToken) → P d → P (refresh_tokens.put d rs)

-- All the tables but those of the tokens of verification and reset.
pub record Ignores (P : Db → Type 0) : Type 0 where
  pub sessions : IgnoresSessions P
  pub in_users : (d : Db) (rs : List User) → P d → P (users.put d rs)
  pub in_identifiers : (d : Db) (rs : List LoginIdentifier) → P d → P (identifiers.put d rs)
  pub in_authenticators : (d : Db) (rs : List Authenticator) → P d → P (authenticators.put d rs)
  pub in_passwords : (d : Db) (rs : List PasswordAuthenticator) → P d → P (passwords.put d rs)

module _ {P : Db → Type 0} (j : IgnoresSessions P) where
  free_sessions : (d : Db) (rs : List LoginSession) → P d → P (login_sessions.put d rs)
  free_sessions = j.in_sessions

  free_token_sessions : (d : Db) (rs : List TokenSession) → P d → P (token_sessions.put d rs)
  free_token_sessions = j.in_token_sessions

  free_access_tokens : (d : Db) (rs : List AccessToken) → P d → P (access_tokens.put d rs)
  free_access_tokens = j.in_access_tokens

  free_refresh_tokens : (d : Db) (rs : List RefreshToken) → P d → P (refresh_tokens.put d rs)
  free_refresh_tokens = j.in_refresh_tokens

  creates : (u h : String) (t : ℕ) → Keeps P (create_session u h t)
  unfolding create_session
  creates u h t = search (account_rules, free_sessions) depth 12

  touches : (s : String) (t : ℕ) → Keeps P (touch s t)
  unfolding touch
  touches s t = search (account_rules, free_sessions) depth 12

  revokes : (s : String) (t : ℕ) → Keeps P (revoke_session s t)
  unfolding revoke_session
  revokes s t = search (account_rules, free_sessions, Keeps-if_missing) depth 14

  revokes_others : (u k : String) (t : ℕ) → Keeps P (revoke_other_sessions u k t)
  unfolding revoke_other_sessions
  revokes_others u k t = search (account_rules, free_sessions) depth 12

  revokes_all : (u : String) (t : ℕ) → Keeps P (revoke_all_sessions u t)
  unfolding revoke_all_sessions
  revokes_all u t = search (account_rules, free_sessions) depth 12

  revokes_ids : (is : List String) (t : ℕ) → Keeps P (revoke_ids is t)
  unfolding revoke_ids
  revokes_ids [] t = Keeps-pure _
  revokes_ids (x ∷ is) t =
      search (keeps_rules, free_token_sessions, free_access_tokens, free_refresh_tokens) depth 12

  revokes_for : (s : String) (t : ℕ) → Keeps P (revoke_for_login_session s t)
  unfolding revoke_for_login_session revoke_token_sessions
  revokes_for s t = search (account_rules, revokes_ids) depth 12

  revokes_for_user : (u : String) (t : ℕ) → Keeps P (revoke_all_for_user u t)
  unfolding revoke_all_for_user revoke_token_sessions
  revokes_for_user u t = search (account_rules, revokes_ids) depth 12

  enters : (t : ℕ) (f : Session × String × Bool) → Keeps P (enter t f)
  unfolding enter
  enters t (session, user_id, revoked) = search (account_rules, touches) depth 12

  pub ends : (u : String) → Keeps P (revoke_every_session u)
  unfolding revoke_every_session
  ends u = search (account_rules, revokes_all, revokes_for_user) depth 12

  pub ends_others : (u k : String) → Keeps P (revoke_others_for_user u k)
  unfolding revoke_others_for_user
  ends_others u k = search (account_rules, revokes_others, revokes_for_user) depth 12

  pub on_sessions : (h : String → String) (c : Calls.Call) → Keeps P (Calls.perform h c)
  unfolding Calls.perform create resolve logout
  on_sessions h (Calls.creates_session u) = search (account_rules, creates) depth 12
  on_sessions h (Calls.resolves_secret s) = search (account_rules, enters) depth 12
  on_sessions h (Calls.logs_out s) = search (account_rules, revokes, revokes_for) depth 12
  on_sessions h (Calls.revokes_others u k) = ends_others u k
  on_sessions h (Calls.revokes_all u) = ends u

  pub signs_in : (s : Services) (user : UserResource) (p : String) → Keeps P (login_user s user p)
  unfolding login_user create
  signs_in s user p = search (account_rules, creates) depth 14

module _ {P : Db → Type 0} (i : Ignores P) where
  j : IgnoresSessions P
  j = i.sessions

  free_users : (d : Db) (rs : List User) → P d → P (users.put d rs)
  free_users = i.in_users

  free_identifiers : (d : Db) (rs : List LoginIdentifier) → P d → P (identifiers.put d rs)
  free_identifiers = i.in_identifiers

  free_authenticators : (d : Db) (rs : List Authenticator) → P d → P (authenticators.put d rs)
  free_authenticators = i.in_authenticators

  free_passwords : (d : Db) (rs : List PasswordAuthenticator) → P d → P (passwords.put d rs)
  free_passwords = i.in_passwords

  replaces : (u a p : String) (t : ℕ) → Keeps P (replace_password u a p t)
  unfolding replace_password
  replaces u a p t = search (account_rules, free_authenticators, free_passwords) depth 16

  inserts :
      (draft : Draft) (p c s : String) (v : Option ℕ) (t : ℕ) (x y z e : String)
      → Keeps P (insert_aggregate draft p c s v t x y z e)
  unfolding insert_aggregate
  inserts draft p c s v t x y z e =
      search (keeps_rules, free_users, free_identifiers, free_authenticators, free_passwords) depth
        16

  aggregates :
      (draft : Draft) (p c s : String) (v : Option ℕ) (t : ℕ)
      → Keeps P (create_user_aggregate draft p c s v t)
  unfolding create_user_aggregate
  aggregates draft p c s v t = search (keeps_rules, inserts) depth 12

  creates_user_row : (draft : Draft) (p c : String) → Keeps P (create_user draft p c)
  unfolding create_user
  creates_user_row draft p c = search (account_rules, aggregates) depth 12

  creates_admin_row : (u e c p : String) (t : ℕ) → Keeps P (create_initial_admin u e c p t)
  unfolding create_initial_admin
  creates_admin_row u e c p t = search (account_rules, aggregates) depth 12

  writes_status :
      (u e : String) (s : UserStatus) (n : String) (t : ℕ) → Keeps P (write_status u e s n t)
  unfolding write_status
  writes_status u e s n t = search (keeps_rules, free_users, free_authenticators) depth 12

  updates_status : (u e : String) (s : UserStatus) (t : ℕ) → Keeps P (update_status u e s t)
  unfolding update_status
  updates_status u e s t = search (account_rules, writes_status) depth 12

  activates : (u : String) (t : ℕ) → Keeps P (activate_email u t)
  unfolding activate_email write_activation
  activates u t = search (account_rules, free_users, free_identifiers) depth 16

  module _ (s : Services) where
    writes_profile :
        (u e n : String) (f : Profile → Profile) (t : ℕ) → Keeps P (write_profile s u e n f t)
    unfolding write_profile
    writes_profile u e n f t = search (keeps_rules, free_users) depth 10

    updates_fields :
        (u e : String) (p : Option Profile) (m : List String)
        → Keeps P (update_profile_fields s u e p m)
    unfolding update_profile_fields
    updates_fields u e p m = search (account_rules, writes_profile) depth 12

  changes_status : (u e : String) (s : UserStatus) → Keeps P (change_status u e s)
  unfolding change_status check_change write_change
  changes_status u e s = search (account_rules, j, updates_status, ends) depth 14

-- The writes of users and passwords, which keep the property.
pub record Writes (P : Db → Type 0) : Type 0 where
  pub sessions : IgnoresSessions P
  pub replaces : (u a p : String) (t : ℕ) → Keeps P (replace_password u a p t)
  pub creates_user : (draft : Draft) (p c : String) → Keeps P (create_user draft p c)
  pub creates_admin : (u e c p : String) (t : ℕ) → Keeps P (create_initial_admin u e c p t)
  pub updates :
      (s : Services) (u e : String) (p : Option Profile) (m : List String)
      → Keeps P (update_profile_fields s u e p m)

-- The writes of a user's status.
pub record Moves (P : Db → Type 0) : Type 0 where
  pub activates : (u : String) (t : ℕ) → Keeps P (activate_email u t)
  pub disables : (u e : String) → Keeps P (disable_user u e)
  pub enables : (u e : String) → Keeps P (enable_user u e)

-- Where the property does not speak of their tables, they keep it.
pub Writes-Ignores : {P : Db → Type 0} → Ignores P → Writes P
Writes-Ignores i = record {
  sessions = i.sessions;
  replaces = replaces i;
  creates_user = creates_user_row i;
  creates_admin = creates_admin_row i;
  updates = updates_fields i;
}

pub Moves-Ignores : {P : Db → Type 0} → Ignores P → Moves P
unfolding disable_user enable_user
Moves-Ignores i = record {
  activates = activates i;
  disables = λ u e. changes_status i u e UserStatus.disabled;
  enables = λ u e. changes_status i u e UserStatus.active;
}
