-- ===== src/Iam/Account/Calls.antt =====
-- The calls of the accounts and of their login sessions, one after another.
use servora_platform.Common.{String, List, [], ◌∷◌, Option}
use servora_platform.Iam.Store.{World, M, ◌>>=◌, pure, after}
use servora_platform.Iam.Login.Calls
use servora_platform.Iam.Account.Services.{Profile, Services}
use servora_platform.Iam.Account.Usecase.{
  register, verify_email, resend_verification, request_password_reset, confirm_password_reset,
  change_password, get_profile, change_profile, update_current_profile,
}
use servora_platform.Iam.Account.Login.{login}
use servora_platform.Iam.Account.Admin.{
  PreparedUpdate, disable_user, enable_user, admin_create_user, admin_update_user, initialize,
}

pub data Call : Type 0 where
  registers : String → String → String → Option Profile → Call
  verifies : String → Call
  resends : String → String → Call
  requests_reset : String → String → Call
  confirms_reset : String → String → Call
  changes_password : String → String → String → String → Call
  reads_profile : String → Call
  changes_profile : String → String → Option Profile → Call
  updates_profile : String → Option Profile → Call
  logs_in : String → String → Call
  creates_user : String → String → Option Profile → String → Call
  updates_user : String → PreparedUpdate → Call
  disables : String → String → Call
  enables : String → String → Call
  initializes : String → Call
  on_session : Calls.Call → Call

module _ (s : Services) where
  unfoldable pub perform : Call → M (Unit {0})
  perform (registers e p c profile) = do _ ← register s e p c profile; pure tt
  perform (verifies token) = do _ ← verify_email s token; pure tt
  perform (resends e c) = resend_verification s e c
  perform (requests_reset e c) = request_password_reset s e c
  perform (confirms_reset token p) = confirm_password_reset s token p
  perform (changes_password u i p q) = change_password s u i p q
  perform (reads_profile u) = do _ ← get_profile s u; pure tt
  perform (changes_profile u e profile) = do _ ← change_profile s u e profile; pure tt
  perform (updates_profile u profile) = do _ ← update_current_profile s u profile; pure tt
  perform (logs_in e p) = do _ ← login s e p; pure tt
  perform (creates_user u e profile p) = do _ ← admin_create_user s u e profile p; pure tt
  perform (updates_user u prepared) = do _ ← admin_update_user s u prepared; pure tt
  perform (disables u e) = do _ ← disable_user u e; pure tt
  perform (enables u e) = do _ ← enable_user u e; pure tt
  perform (initializes e) = initialize s e
  perform (on_session c) = Calls.perform s.hash_opaque_secret c

  unfoldable pub run : List Call → World → World
  run [] w = w
  run (c ∷ cs) w = run cs (after (perform c w))
