-- ===== src/Iam/Login/Tests.antt =====
-- Runs of the login sessions on a small database, and the theorems at concrete inputs.
use servora_platform.Common.{String, ◌≡◌, ◌≢◌, refl, false, List, [], ◌∷◌, none, some, select}
use servora_platform.Iam.Schema.{User, LoginIdentifier, LoginSession}
use servora_platform.Iam.Store.{
  World, Outcome, ok, err, after, statement, now, new_id, new_secret, single, only, query, update,
  update_one, insert, in_tx,
}
use servora_platform.Iam.Login.Repo
use servora_platform.Iam.Login.Repo.{Session, UserResource, UserStatus}
use servora_platform.Iam.Login.Usecase
use servora_platform.Iam.Login.Usecase.{resolve, logout}
use servora_platform.Iam.Login.Resolution.{IsResolved, finds, resolve_ok}
use servora_platform.Iam.Login.Calls
use servora_platform.Iam.Login.Calls.{Call, run, revokes_others}
use servora_platform.Iam.Login.Logout.{logout_ends_session}

abbrev tag : String → String
tag s = Prim.Native.String.◌++◌ "h:" s

abbrev ann : User
ann = record {
  id = "u1";
  status = "active";
  name = none;
  given_name = none;
  family_name = none;
  nickname = none;
  preferred_username = none;
  picture = none;
  locale = none;
  etag = "e";
  create_time = 0;
  update_time = 0;
}

abbrev mail : LoginIdentifier
mail = record {
  id = "m1";
  user_id = "u1";
  type = "email";
  canonical_value = "ann@example.org";
  display_value = "Ann@example.org";
  verified_time = some 10;
}

abbrev session_of : String → String → LoginSession
session_of i h = record {
  id = i;
  user_id = "u1";
  secret_hash = h;
  create_time = 500;
  last_seen_time = 500;
  idle_expires_time = 5000;
  absolute_expires_time = 9000;
  revoked_time = none;
}

abbrev start : World
start = record {
  db = record {
    users = ann ∷ [];
    identifiers = mail ∷ [];
    authenticators = [];
    passwords = [];
    verification_tokens = [];
    reset_tokens = [];
    login_sessions = session_of "ls" "h:one" ∷ session_of "l2" "h:two" ∷ [];
    requests = [];
    codes = [];
    token_sessions = [];
    access_tokens = [];
    refresh_tokens = [];
    clients = [];
  };
  time = 1000;
  delays = [];
  ids = [];
  secrets = [];
  faults = [];
}

runtime : Unit {0}
unfolding Repo.translate_ent_error Repo.time_or_now Repo.to_session Repo.find_by_secret_hash
    Repo.idle_expiry Repo.touch Repo.revoke_session Repo.revoke_other_sessions
    Repo.revoke_all_sessions Repo.revoke_ids Repo.revoke_token_sessions
    Repo.revoke_for_login_session Repo.revoke_all_for_user Repo.to_status Repo.to_resource
    Repo.get_user Usecase.join Usecase.check_status Usecase.enter resolve logout
    Usecase.revoke_others_for_user Calls.perform run statement now new_id new_secret single only
    query update update_one insert in_tx
runtime = tt

abbrev logged_out : Outcome (Unit {0})
logged_out = logout "ls" start

abbrev between : List Call
between = revokes_others "u1" "l2" ∷ []

abbrev later : World
later = run tag between (after logged_out)

abbrev resolved : Outcome (UserResource × Session)
resolved = resolve tag "two" later

abbrev nobody : UserResource × Session
nobody = (
  record { entity = ann; status = UserStatus.unspecified; email = ""; email_verified = false },
  record {
    name = "";
    session_id = "";
    create_time = 0;
    last_seen_time = 0;
    idle_expires_time = 0;
    absolute_expires_time = 0;
  },
)

abbrev answer : Outcome (UserResource × Session) → UserResource × Session
answer (ok p w) = p
answer (err e w) = nobody

logout_returns : logged_out ≡ ok tt (after logged_out)
unfolding runtime
logout_returns = refl

resolve_returns : resolved ≡ ok ((answer resolved).0, (answer resolved).1) (after resolved)
unfolding runtime
resolve_returns = refl

logout_ends_session_example :
    (row : LoginSession) × (select (finds tag "two") later.db.login_sessions ≡ row ∷ [])
    × (row.id ≢ "ls")
logout_ends_session_example =
    logout_ends_session tag "ls" "two" between start (after logged_out) (after resolved) refl
      logout_returns resolve_returns

resolve_ok_example : IsResolved tag "two" later (answer resolved).0
resolve_ok_example = resolve_ok tag "two" later resolve_returns
