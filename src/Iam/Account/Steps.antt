-- ===== src/Iam/Account/Steps.antt =====
-- A property of the tokens of verification and reset alone is kept by every sequence of calls of the
-- accounts, if storing and consuming such a token keep it.
use servora_platform.Common.{ℕ, String, not, ◌||◌, List, [], ◌∷◌, Option}
use servora_platform.Iam.Schema.{Db}
use servora_platform.Iam.Store.{
  World, Outcome, Error, ok, err, ◌>>=◌, pure, after, when, inconsistent,
}
use servora_platform.Iam.Store.Keeps.{Keeps, Keeps-bind, Keeps-pure, keeps_rules}
use servora_platform.Iam.Login.Repo.{UserResource, replace_password}
use servora_platform.Iam.Account.Services.{Profile, Services, IsOutside}
use servora_platform.Iam.Account.Users.{
  Draft, find_by_email, create_user, create_initial_admin, activate_email, update_profile_fields,
  update_user, update_profile,
}
use servora_platform.Iam.Account.Tokens.{
  create_verification_token, consume_verification_token, create_reset_token,
  consume_and_replace_password,
}
use servora_platform.Iam.Account.Usecase.{
  is_active, register, mail_verification, create_pending_user, verify_email, resend_verification,
  mail_reset, request_password_reset, confirm_password_reset, change_password, get_profile,
  change_profile, update_current_profile,
}
use servora_platform.Iam.Account.Login.{login}
use servora_platform.Iam.Account.Admin.{
  admin_create_user, admin_update_user, create_admin, created_or_found, found_or_created,
  find_or_create, initialize, disable_user, enable_user,
}
use servora_platform.Iam.Account.Calls.{
  Call, perform, run, registers, verifies, resends, requests_reset, confirms_reset,
  changes_password, reads_profile, changes_profile, updates_profile, logs_in, creates_user,
  updates_user, disables, enables, initializes, on_session,
}
use servora_platform.Iam.Account.Reads.{Keeps-same, Keeps-find_by_email, account_rules}
use servora_platform.Iam.Account.Frame.{
  IgnoresSessions, Writes, Moves, ends, ends_others, on_sessions, signs_in,
}

-- What keeps the property where the tokens change.
pub record Handles (P : Db → Type 0) : Type 0 where
  pub writes : Writes P
  pub stores_verification : (u i h : String) (t : ℕ) → Keeps P (create_verification_token u i h t)
  pub consumes_verification : (h : String) (t : ℕ) → Keeps P (consume_verification_token h t)
  pub stores_reset : (u h : String) (t : ℕ) → Keeps P (create_reset_token u h t)
  pub consumes_reset : (h p : String) (t : ℕ) → Keeps P (consume_and_replace_password h p t)

-- What a call writes of a status.
abbrev pub MovesBy : (Db → Type 0) → Call → Type 0
MovesBy P (verifies token) = (u : String) (t : ℕ) → Keeps P (activate_email u t)
MovesBy P (disables u e) = Keeps P (disable_user u e)
MovesBy P (enables u e) = Keeps P (enable_user u e)
MovesBy P _ = Unit {0}

module _ {P : Db → Type 0} (k : Handles P) (s : Services) (outside : IsOutside s) where
  j : IgnoresSessions P
  j = k.writes.sessions

  replaces : (u a p : String) (t : ℕ) → Keeps P (replace_password u a p t)
  replaces = k.writes.replaces

  creates_row : (draft : Draft) (p c : String) → Keeps P (create_user draft p c)
  creates_row = k.writes.creates_user

  creates_admin_row : (u e c p : String) (t : ℕ) → Keeps P (create_initial_admin u e c p t)
  creates_admin_row = k.writes.creates_admin

  updates_fields :
      (u e : String) (p : Option Profile) (m : List String)
      → Keeps P (update_profile_fields s u e p m)
  updates_fields = k.writes.updates s

  captchas : (t : String) → Keeps P (s.validate_captcha t)
  captchas t = Keeps-same (outside.captcha t)

  mails : (a l : String) (h : ℕ) → Keeps P (s.send_verification a l h)
  mails a l h = Keeps-same (outside.verification a l h)

  mails_reset : (a l : String) (h : ℕ) → Keeps P (s.send_password_reset a l h)
  mails_reset a l h = Keeps-same (outside.reset a l h)

  grants : (u : String) → Keeps P (s.ensure_platform_admin u)
  grants u = Keeps-same (outside.relation u)

  stores : (u i h : String) (t : ℕ) → Keeps P (create_verification_token u i h t)
  stores = k.stores_verification

  consumes : (h : String) (t : ℕ) → Keeps P (consume_verification_token h t)
  consumes = k.consumes_verification

  stores_for_reset : (u h : String) (t : ℕ) → Keeps P (create_reset_token u h t)
  stores_for_reset = k.stores_reset

  resets : (h p : String) (t : ℕ) → Keeps P (consume_and_replace_password h p t)
  resets = k.consumes_reset

  sends_verification : (user : UserResource) → Keeps P (mail_verification s user)
  unfolding mail_verification
  sends_verification user = search (account_rules, stores, mails) depth 10

  sends_reset : (user : UserResource) → Keeps P (mail_reset s user)
  unfolding mail_reset
  sends_reset user = search (account_rules, stores_for_reset, mails_reset) depth 10

  creates_pending :
      (u e p : String) (profile : Option Profile) → Keeps P (create_pending_user s u e p profile)
  unfolding create_pending_user
  creates_pending u e p profile = search (account_rules, creates_row, sends_verification) depth 16

  creates_admin : (e c : String) → Keeps P (create_admin s e c)
  unfolding create_admin
  creates_admin e c = search (account_rules, creates_admin_row) depth 12

  found_again :
      (c : String) (o : Outcome String) → P (after o).db → P (after (created_or_found s c o)).db
  unfolding created_or_found
  found_again c (ok u w) h = h
  found_again c (err Error.already_exists w) h = found_admin.at w h
    where
      found_admin : Keeps P (find_by_email c >>= λ admin. pure admin.entity.id)
      found_admin = search account_rules depth 4
  found_again c (err _ w) h = h

  ensured :
      (e c : String) (o : Outcome UserResource)
      → P (after o).db
      → P (after (found_or_created s e c o)).db
  unfolding found_or_created
  ensured e c (ok admin w) h = checked.at w h
    where
      checked : Keeps P (
          when (not (is_active admin.status) || not admin.email_verified) inconsistent >>= λ _.
          pure admin.entity.id)
      checked = search keeps_rules depth 4
  ensured e c (err Error.not_found w) h =
      found_again c (create_admin s e c w) ((creates_admin e c).at w h)
  ensured e c (err _ w) h = h

  finds_or_creates : (e c : String) → Keeps P (find_or_create s e c)
  unfolding find_or_create
  finds_or_creates e c = record {
    at = λ w h. ensured e c (find_by_email c w) ((Keeps-find_by_email {P = P} c).at w h);
  }

  reads : (u : String) → Keeps P (get_profile s u)
  unfolding get_profile
  reads u = search account_rules depth 8

  updates : (u e : String) (p : Option Profile) → Keeps P (change_profile s u e p)
  unfolding change_profile update_profile
  updates u e p = search (account_rules, updates_fields) depth 12

  pub Keeps-perform : (c : Call) → MovesBy P c → Keeps P (perform s c)
  unfolding perform register verify_email resend_verification request_password_reset
      confirm_password_reset change_password update_current_profile login admin_create_user
      admin_update_user update_user initialize
  Keeps-perform (registers e p c profile) _ =
      search (account_rules, captchas, creates_pending) depth 10
  Keeps-perform (verifies token) moves = search (account_rules, consumes, moves) depth 14
  Keeps-perform (resends e c) _ = search (account_rules, captchas, sends_verification) depth 10
  Keeps-perform (requests_reset e c) _ = search (account_rules, captchas, sends_reset) depth 10
  Keeps-perform (confirms_reset token p) _ = search (account_rules, j, resets, ends) depth 14
  Keeps-perform (changes_password u x p q) _ =
      search (account_rules, j, replaces, ends_others) depth 16
  Keeps-perform (reads_profile u) _ = search (account_rules, reads) depth 8
  Keeps-perform (changes_profile u e p) _ = search (account_rules, updates) depth 8
  Keeps-perform (updates_profile u p) _ = search (account_rules, reads, updates) depth 10
  Keeps-perform (logs_in e p) _ = search (account_rules, j, signs_in) depth 10
  Keeps-perform (creates_user u e profile p) _ = search (account_rules, creates_pending) depth 8
  Keeps-perform (updates_user u prepared) _ = search (account_rules, updates_fields) depth 16
  Keeps-perform (disables u e) moves = Keeps-bind _ _ moves (λ _. Keeps-pure _)
  Keeps-perform (enables u e) moves = Keeps-bind _ _ moves (λ _. Keeps-pure _)
  Keeps-perform (initializes e) _ = search (account_rules, finds_or_creates, grants) depth 10
  Keeps-perform (on_session c) _ = on_sessions j s.hash_opaque_secret c

  moves_by : Moves P → (c : Call) → MovesBy P c
  moves_by m (verifies token) = m.activates
  moves_by m (disables u e) = m.disables u e
  moves_by m (enables u e) = m.enables u e
  moves_by m (registers _ _ _ _) = tt
  moves_by m (resends _ _) = tt
  moves_by m (requests_reset _ _) = tt
  moves_by m (confirms_reset _ _) = tt
  moves_by m (changes_password _ _ _ _) = tt
  moves_by m (reads_profile _) = tt
  moves_by m (changes_profile _ _ _) = tt
  moves_by m (updates_profile _ _) = tt
  moves_by m (logs_in _ _) = tt
  moves_by m (creates_user _ _ _ _) = tt
  moves_by m (updates_user _ _) = tt
  moves_by m (initializes _) = tt
  moves_by m (on_session _) = tt

  pub Keeps-run : Moves P → (cs : List Call) (w : World) → P w.db → P (run s cs w).db
  unfolding run
  Keeps-run m [] w h = h
  Keeps-run m (c ∷ cs) w h =
      Keeps-run m cs (after (perform s c w)) ((Keeps-perform c (moves_by m c)).at w h)
