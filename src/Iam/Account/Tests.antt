-- ===== src/Iam/Account/Tests.antt =====
-- Runs of the accounts on a small database, and the theorems at concrete inputs.
use servora_platform.Common.{
  ℕ, String, ◌==◌, ◌≡◌, ◌≢◌, refl, true, false, List, [], ◌∷◌, Option, none, some, All,
}
use servora_platform.Iam.Schema.{User, LoginIdentifier, Authenticator}
use servora_platform.Iam.Store.{
  World, Outcome, Error, ok, err, pure, after, statement, now, new_id, new_secret, single, only,
  query, update, update_one, insert, in_tx,
}
use servora_platform.Iam.Store.Keeps.{Keeps-pure}
use servora_platform.Iam.Store.Refuses.{Refused}
use servora_platform.Iam.Login.Repo
use servora_platform.Iam.Login.Repo.{Session, UserResource, UserStatus, to_status}
use servora_platform.Iam.Login.Usecase.{join, create, revoke_every_session, revoke_others_for_user}
use servora_platform.Iam.Login.Revocation.{HasNoLogin, HasNoToken}
use servora_platform.Iam.Account.Services
use servora_platform.Iam.Account.Services.{Profile, Services, IsOutside}
use servora_platform.Iam.Account.Users
use servora_platform.Iam.Account.Users.{Draft, create_user_aggregate, update_status, update_user}
use servora_platform.Iam.Account.Tokens
use servora_platform.Iam.Account.Usecase
use servora_platform.Iam.Account.Usecase.{verify_email, confirm_password_reset}
use servora_platform.Iam.Account.Login
use servora_platform.Iam.Account.Login.{login}
use servora_platform.Iam.Account.Admin
use servora_platform.Iam.Account.Admin.{disable_user}
use servora_platform.Iam.Account.Calls
use servora_platform.Iam.Account.Calls.{Call, run}
use servora_platform.Iam.Account.Verification.{verify_email_once}
use servora_platform.Iam.Account.Reset.{IsReset, confirm_password_reset_ok}
use servora_platform.Iam.Account.SingleReset.{confirm_password_reset_once}
use servora_platform.Iam.Account.Entry.{IsLogin, login_ok}
use servora_platform.Iam.Account.Creation.{
  IsCreated, create_user_aggregate-err, create_user_aggregate_ok,
}
use servora_platform.Iam.Account.Etags.{
  update_status-Refuses, update_user-Refuses, second_update-Refused,
}
use servora_platform.Iam.Account.Status.{Trail, Follows}
use servora_platform.Iam.Account.Life.{run-Follows, never_pending_again}
use servora_platform.Iam.Account.Disabling.{IsDisabled, disable_user_ok}

abbrev tag : String → String
tag s = Prim.Native.String.◌++◌ "h:" s

abbrev outside_world : Services
outside_world = record {
  trim_space = λ s. s;
  fold_case = λ s. s;
  hash_opaque_secret = tag;
  create_hash = λ salt p. some (tag p);
  check_hash = λ p h. some (tag p == h);
  validate_captcha = λ t. pure (t == "solved");
  send_verification = λ a l h. pure tt;
  send_password_reset = λ a l h. pure tt;
  ensure_platform_admin = λ u. pure tt;
  clear_intents = λ p m. some (λ x. x);
  verification_origin = "https://id.example.org";
}

outside_world-IsOutside : IsOutside outside_world
outside_world-IsOutside = record {
  captcha = λ t d. Keeps-pure _;
  verification = λ a l h d. Keeps-pure _;
  reset = λ a l h d. Keeps-pure _;
  relation = λ u d. Keeps-pure _;
}

abbrev user_row : String → String → User
user_row i status = record {
  id = i;
  status = status;
  name = none;
  given_name = none;
  family_name = none;
  nickname = none;
  preferred_username = none;
  picture = none;
  locale = none;
  etag = "e";
  create_time = 0;
  update_time = 0;
}

abbrev mail_row : String → String → String → Option ℕ → LoginIdentifier
mail_row i u m t = record {
  id = i;
  user_id = u;
  type = "email";
  canonical_value = m;
  display_value = m;
  verified_time = t;
}

abbrev factor_row : String → String → Authenticator
factor_row i u = record {
  id = i;
  user_id = u;
  type = "password";
  state = "active";
  display_name = none;
  verified_time = none;
  last_used_time = none;
  revoked_time = none;
  create_time = 0;
  update_time = 0;
}

abbrev start : World
start = record {
  db = record {
    users = user_row "u1" "active" ∷ user_row "u2" "pending_verification" ∷ [];
    identifiers =
        mail_row "m1" "u1" "ann@example.org" (some 10)
        ∷ mail_row "m2" "u2" "bob@example.org" none
        ∷ [];
    authenticators = factor_row "a1" "u1" ∷ factor_row "a2" "u2" ∷ [];
    passwords =
        record { id = "p1"; authenticator_id = "a1"; password_hash = "h:old"; changed_time = 0 }
        ∷ record { id = "p2"; authenticator_id = "a2"; password_hash = "h:bob"; changed_time = 0 }
        ∷ [];
    verification_tokens =
        record {
          id = "t1";
          user_id = "u2";
          login_identifier_id = "m2";
          token_hash = "h:verify";
          expires_time = 5000;
          consumed_time = none;
        }
        ∷ [];
    reset_tokens =
        record {
          id = "r1";
          user_id = "u1";
          token_hash = "h:reset";
          expires_time = 5000;
          consumed_time = none;
        }
        ∷ [];
    login_sessions = [];
    requests = [];
    codes = [];
    token_sessions = [];
    access_tokens = [];
    refresh_tokens = [];
    clients = [];
  };
  time = 1000;
  delays = [];
  ids = "i1" ∷ "i2" ∷ "i3" ∷ "i4" ∷ "i5" ∷ [];
  secrets = "s1" ∷ "s2" ∷ "s3" ∷ [];
  faults = [];
}

runtime : Unit {0}
unfolding Repo.translate_ent_error Repo.time_or_now Repo.to_session Repo.find_by_secret_hash
    Repo.idle_expiry Repo.touch Repo.revoke_session Repo.revoke_other_sessions
    Repo.revoke_all_sessions Repo.revoke_ids Repo.revoke_token_sessions
    Repo.revoke_for_login_session Repo.revoke_all_for_user Repo.find_active_password to_status
    Repo.to_resource Repo.get_user Repo.create_session Repo.replace_password join create
    revoke_every_session revoke_others_for_user statement now new_id new_secret single only query
    update update_one insert in_tx Services.normalize_email Services.hash Services.compare
    Users.insert_aggregate create_user_aggregate Users.create_user Users.find_by_email Users.missed
    Users.write_status update_status Users.set_path Users.set_paths Users.write_profile
    Users.update_profile_fields update_user Users.update_profile Users.write_activation
    Users.activate_email Tokens.identifier_or_email Tokens.create_verification_token
    Tokens.consume_verification_token Tokens.create_reset_token Tokens.reset_password
    Tokens.consume_and_replace_password Usecase.account_token_error Usecase.refuse_found
    Usecase.check_free Usecase.if_found Usecase.if_normalized Usecase.verification_link
    Usecase.mail_verification Usecase.create_pending_user Usecase.register verify_email
    Usecase.for_user Usecase.mail_reset Usecase.request_password_reset confirm_password_reset
    Usecase.change_password Login.login_user login Admin.check_change Admin.write_change
    Admin.change_status disable_user Admin.enable_user Calls.perform run
runtime = tt

-- The value of an outcome that is one.
abbrev answer : {A : Type 0} → A → Outcome A → A
answer a (ok x w) = x
answer a (err e w) = a

abbrev verified : Outcome UserResource
verified = verify_email outside_world "verify" start

abbrev nobody : UserResource
nobody = record {
  entity = user_row "" "";
  status = UserStatus.unspecified;
  email = "";
  email_verified = false;
}

verify_returns : verified ≡ ok (answer nobody verified) (after verified)
unfolding runtime
verify_returns = refl

verify_activates : (answer nobody verified).status ≡ UserStatus.active
unfolding runtime
verify_activates = refl

abbrev between : List Call
between =
    Calls.registers "eve@example.org" "pw" "solved" none
    ∷ Calls.logs_in "bob@example.org" "bob"
    ∷ []

verify_email_once_example :
    verify_email outside_world "verify" (run outside_world between (after verified))
    ≢ ok nobody start
verify_email_once_example =
    verify_email_once outside_world outside_world-IsOutside "verify" between start (after verified)
      start (answer nobody verified) nobody verify_returns

abbrev reset : Outcome (Unit {0})
reset = confirm_password_reset outside_world "reset" "new" start

reset_returns : reset ≡ ok tt (after reset)
unfolding runtime
reset_returns = refl

confirm_password_reset_ok_example : IsReset outside_world "reset" "new" start.db (after reset).db
confirm_password_reset_ok_example =
    confirm_password_reset_ok outside_world "reset" "new" start (after reset) reset_returns

confirm_password_reset_once_example :
    confirm_password_reset outside_world "reset" "other" (run outside_world between (after reset))
    ≢ ok tt start
confirm_password_reset_once_example =
    confirm_password_reset_once outside_world outside_world-IsOutside "reset" "new" "other" between
      start (after reset) start reset_returns

abbrev logged_in : Outcome (UserResource × Session × String)
logged_in = login outside_world "ann@example.org" "old" start

abbrev no_session : Session
no_session = record {
  name = "";
  session_id = "";
  create_time = 0;
  last_seen_time = 0;
  idle_expires_time = 0;
  absolute_expires_time = 0;
}

abbrev entry : UserResource × Session × String
entry = answer (nobody, no_session, "") logged_in

login_returns : logged_in ≡ ok (entry.0, entry.1, entry.2) (after logged_in)
unfolding runtime
login_returns = refl

login_ok_example :
    IsLogin outside_world "ann@example.org" "old" entry.2 entry.0 entry.1 start.db
      (after logged_in).db
login_ok_example =
    login_ok outside_world "ann@example.org" "old" entry.2 entry.0 entry.1 start (after logged_in)
      login_returns

-- The account that was not verified cannot be entered.
bob_is_refused :
    login outside_world "bob@example.org" "bob" start ≡ err Error.invalid_credentials start
unfolding runtime
bob_is_refused = refl

abbrev draft : Draft
draft = record { user_id = "u3"; email = "Eve@example.org"; profile = none; create_time = none }

abbrev creation : World → Outcome (Unit {0})
creation = create_user_aggregate draft "h:pw" "eve@example.org" "pending_verification" none 1000

creation_returns : creation start ≡ ok tt (after (creation start))
unfolding runtime
creation_returns = refl

create_user_aggregate_ok_example :
    IsCreated draft "h:pw" "eve@example.org" "pending_verification" none 1000 start.db
      (after (creation start)).db
create_user_aggregate_ok_example =
    create_user_aggregate_ok draft "h:pw" "eve@example.org" "pending_verification" none 1000 start
      (after (creation start)) creation_returns

-- The fourth insertion fails.
abbrev broken : World
broken = record start { faults = false ∷ false ∷ false ∷ false ∷ true ∷ [] }

creation_fails : creation broken ≡ err Error.driver (after (creation broken))
unfolding runtime
creation_fails = refl

create_user_aggregate-err_example : (after (creation broken)).db ≡ start.db
create_user_aggregate-err_example =
    create_user_aggregate-err draft "h:pw" "eve@example.org" "pending_verification" none 1000 broken
      (after (creation broken)) Error.driver creation_fails

update_status-Refuses_example :
    Refused start.db (update_status "u1" "old" UserStatus.disabled 1000 start)
update_status-Refuses_example = update_status-Refuses "u1" "old" UserStatus.disabled 1000 start refl

update_user-Refuses_example :
    Refused start.db (update_user outside_world "u1" "old" none ("profile.name" ∷ []) start)
update_user-Refuses_example =
    update_user-Refuses outside_world "u1" "old" none ("profile.name" ∷ []) start refl

abbrev renaming : Option Profile
renaming = some (record Users.empty_profile { name = some "Ann" })

abbrev renamed : Outcome UserResource
renamed = update_user outside_world "u1" "e" renaming ("profile.name" ∷ []) start

rename_returns : renamed ≡ ok (answer nobody renamed) (after renamed)
unfolding runtime
rename_returns = refl

rename_writes : (answer nobody renamed).entity.name ≡ some "Ann"
unfolding runtime
rename_writes = refl

fresh_etags : All (λ i. i ≢ "e") start.ids
fresh_etags = (λ e. cc, (λ e. cc, (λ e. cc, (λ e. cc, (λ e. cc, tt)))))

second_update-Refused_example :
    Refused
      (after renamed).db
      (update_user outside_world "u1" "e" none ("profile.locale" ∷ []) (after renamed))
second_update-Refused_example =
    second_update-Refused outside_world "u1" "e" renaming none ("profile.name" ∷ [])
      ("profile.locale" ∷ []) start (after renamed) (answer nobody renamed) fresh_etags
      rename_returns

abbrev life : List Call
life = Calls.verifies "verify" ∷ Calls.disables "u2" "" ∷ Calls.enables "u2" "" ∷ []

run-Follows_example :
    Follows "u2"
      (Trail "u2" life (to_status "pending_verification"))
      (run outside_world life start).db
run-Follows_example =
    run-Follows outside_world outside_world-IsOutside "u2" (user_row "u2" "pending_verification")
      life start refl

not_pending : to_status "active" ≢ UserStatus.pending_email_verification
unfolding runtime
not_pending e = cc

never_pending_again_example :
    All
      (λ u. u.id ≡ "u1" → to_status u.status ≢ UserStatus.pending_email_verification)
      (run outside_world life start).db.users
never_pending_again_example =
    never_pending_again outside_world outside_world-IsOutside "u1" (user_row "u1" "active") life
      start refl not_pending

abbrev out : Outcome UserResource
out = disable_user "u1" "e" (after logged_in)

disable_returns : out ≡ ok (answer nobody out) (after out)
unfolding runtime
disable_returns = refl

disable_user_ok_example :
    IsDisabled "u1" (after out).db × HasNoLogin "u1" (after out).db × HasNoToken "u1" (after out).db
disable_user_ok_example =
    disable_user_ok "u1" "e" (after logged_in) (after out) (answer nobody out) disable_returns

-- A user that is disabled before the email is verified is active once enabled, and its email cannot
-- be verified any more.
abbrev stranded : World
stranded = run outside_world (Calls.disables "u2" "" ∷ Calls.enables "u2" "" ∷ []) start

stranded_status : (answer nobody (Repo.get_user "u2" stranded)).status ≡ UserStatus.active
unfolding runtime
stranded_status = refl

stranded_for_good :
    verify_email outside_world "verify" stranded
    ≡ err Error.not_found (after (verify_email outside_world "verify" stranded))
unfolding runtime
stranded_for_good = refl
