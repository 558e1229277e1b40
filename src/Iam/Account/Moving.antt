-- ===== src/Iam/Account/Moving.antt =====
-- What the calls of the accounts do to the status of a user: only a verification, a disabling and an
-- enabling write one, and each after its own test.
use servora_platform.Common.{
  ℕ, String, ◌==◌, eq_iff, ◌≡◌, refl, sym, ◌∙◌, subst, true, ◌&&◌, All, All-select, arith,
}
use servora_platform.Iam.Schema.{Db, User, PasswordResetToken}
use servora_platform.Iam.Schema.Tables.{users}
use servora_platform.Iam.Store.Keeps.{
  Keeps, Keeps-bind, Keeps-bind_known, Keeps-map_error, Keeps-update_one, keeps_rules,
}
use servora_platform.Iam.Login.Repo.{UserResource, UserStatus, to_status}
use servora_platform.Iam.Login.Usecase.{revoke_every_session}
use servora_platform.Iam.Account.Users.{storage_status, write_status, update_status}
use servora_platform.Iam.Account.Tokens.{
  create_verification_token, consume_verification_token, create_reset_token, reset_password,
  consume_and_replace_password,
}
use servora_platform.Iam.Account.Admin.{
  check_change, write_change, change_status, disable_user, enable_user,
}
use servora_platform.Iam.Account.Reads.{Keeps-get_user, Keeps-check_change, account_rules}
use servora_platform.Iam.Account.Frame.{ends}
use servora_platform.Iam.Account.Steps.{Handles}
use servora_platform.Iam.Login.Lookup.{IsUser, get_user_ok}
use servora_platform.Iam.Account.Spent.{selected_hit}
use servora_platform.Iam.Account.Status.{
  Follows, enabling_ok, sets, creates, creates_admin, replaces, updates,
}

module _ (id : String) (R : UserStatus → Type 0) where
  -- A status may be written where the user may have it.
  changes_to :
      (u e : String) (s : UserStatus) (n : String) (t : ℕ)
      → (u ≡ id → R (to_status (storage_status s)))
      → Keeps (Follows id R) (write_status u e s n t)
  unfolding write_status
  changes_to u e s n t allowed =
      Keeps-bind _ _
        (Keeps-map_error _ _ (
          Keeps-update_one users _ _
            (λ d. sets id R _ _ d (λ x. refl) (λ x hit mine _. allowed (of_user x hit mine)))))
        (λ _. search keeps_rules depth 10)
    where
      of_user : (x : User) → (x.id == u && x.etag == e) ≡ true → x.id ≡ id → u ≡ id
      of_user x hit mine = sym ((eq_iff x.id u).0 (ground arith)) ∙ mine

  changes :
      (u e : String) (s : UserStatus) (t : ℕ)
      → (u ≡ id → R (to_status (storage_status s)))
      → Keeps (Follows id R) (update_status u e s t)
  unfolding update_status
  changes u e s t allowed = search (account_rules, writes) depth 12
    where
      writes : (n : String) (t : ℕ) → Keeps (Follows id R) (write_status u e s n t)
      writes n t = changes_to u e s n t allowed

  -- The status of the user found is one that it may have.
  known :
      (u : String) (current : UserResource) (d : Db)
      → Follows id R d
      → IsUser u current d
      → u ≡ id
      → R current.status
  known u current d h is_user mine = subst R (sym is_user.status) (
      (subst (All (λ (x : User). x.id ≡ id → R (to_status x.status))) is_user.sole (
          All-select (λ (x : User). x.id ≡ id → R (to_status x.status)) (λ x. x.id == u) d.users
            h.1)).0
        ((eq_iff current.entity.id u).0 (selected_hit (λ x. x.id == u) d.users is_user.sole)
          ∙ mine))

  ends_sessions : (u : String) → Keeps (Follows id R) (revoke_every_session u)
  ends_sessions u =
      ends
        (record {
          in_sessions = λ d rs p. p;
          in_token_sessions = λ d rs p. p;
          in_access_tokens = λ d rs p. p;
          in_refresh_tokens = λ d rs p. p;
        })
        u

  stores_verification :
      (u i d : String) (t : ℕ) → Keeps (Follows id R) (create_verification_token u i d t)
  unfolding create_verification_token
  stores_verification u i d t = search account_rules depth 12

  consumes_verification :
      (d : String) (t : ℕ) → Keeps (Follows id R) (consume_verification_token d t)
  unfolding consume_verification_token
  consumes_verification d t = search account_rules depth 16

  stores_reset : (u d : String) (t : ℕ) → Keeps (Follows id R) (create_reset_token u d t)
  unfolding create_reset_token
  stores_reset u d t = search account_rules depth 12

  resets :
      (k : PasswordResetToken) (p : String) (t : ℕ) → Keeps (Follows id R) (reset_password k p t)
  unfolding reset_password
  resets k p t = search keeps_rules depth 16

  consumes_reset :
      (d p : String) (t : ℕ) → Keeps (Follows id R) (consume_and_replace_password d p t)
  unfolding consume_and_replace_password
  consumes_reset d p t = search (account_rules, resets) depth 24

  pub disables_user :
      (u e : String)
      → ((s : UserStatus) → u ≡ id → R s → R UserStatus.disabled)
      → Keeps (Follows id R) (disable_user u e)
  unfolding disable_user change_status check_change write_change to_status
  disables_user u e allowed = Keeps-bind_known _ _ (Keeps-get_user u) λ current w x h found.
      search
        (
          account_rules,
          ends_sessions,
          writes (λ mine.
              allowed current.status mine (known u current w.db h (get_user_ok u w found) mine)),
        )
        depth 14
    where
      writes :
          (u ≡ id → R UserStatus.disabled)
          → (e : String) (t : ℕ) → Keeps (Follows id R) (update_status u e UserStatus.disabled t)
      writes reached e t = changes u e UserStatus.disabled t reached

  pub enables_user :
      (u e : String)
      → (u ≡ id → R UserStatus.disabled → R UserStatus.active)
      → Keeps (Follows id R) (enable_user u e)
  unfolding enable_user change_status write_change to_status
  enables_user u e allowed = Keeps-bind_known _ _ (Keeps-get_user u) λ current w x h found.
      Keeps-bind_known _ _ (Keeps-check_change UserStatus.active e current) λ _ y z _ checked.
        search
          (
            account_rules,
            writes (λ mine. allowed mine (
                subst R (enabling_ok current e y checked)
                  (known u current w.db h (get_user_ok u w found) mine))),
          )
          depth 14
    where
      writes :
          (u ≡ id → R UserStatus.active)
          → (e : String) (t : ℕ) → Keeps (Follows id R) (update_status u e UserStatus.active t)
      writes reached e t = changes u e UserStatus.active t reached

  -- Nothing else writes a status.
  pub handles : Handles (Follows id R)
  handles = record {
    writes = record {
      sessions = record {
        in_sessions = λ d rs p. p;
        in_token_sessions = λ d rs p. p;
        in_access_tokens = λ d rs p. p;
        in_refresh_tokens = λ d rs p. p;
      };
      replaces = replaces id R;
      creates_user = creates id R;
      creates_admin = creates_admin id R;
      updates = updates id R;
    };
    stores_verification = stores_verification;
    consumes_verification = consumes_verification;
    stores_reset = stores_reset;
    consumes_reset = consumes_reset;
  }
