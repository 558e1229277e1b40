-- ===== src/Iam/Account/Status.antt =====
-- The steps that the status of a user takes, and the writes of users that take them.
use servora_platform.Common.{
  ℕ, String, ◌==◌, eq_iff, ◌≡◌, refl, sym, ◌∙◌, subst, Bool, true, false, not, List, [], ◌∷◌, ◌++◌,
  Option, any, any-append, any-set_where, any-separates, All, All-append, All-set_where, set_where,
  arith,
}
use servora_platform.Iam.Schema.{Db, User}
use servora_platform.Iam.Schema.Tables.{users}
use servora_platform.Iam.Store.{World, ok, when, user_invalid_state}
use servora_platform.Iam.Store.Keeps.{
  Keeps, Keeps-bind, Keeps-map_error, Keeps-update_one, keeps_rules,
}
use servora_platform.Iam.Store.Laws.{bind_ok, when_ok}
use servora_platform.Iam.Login.Repo.{UserResource, UserStatus, to_status, replace_password}
use servora_platform.Iam.Account.Services.{Profile, Services}
use servora_platform.Iam.Account.Users.{
  Draft, is_disabled, insert_aggregate, create_user_aggregate, create_user, create_initial_admin,
  write_profile, update_profile_fields, write_activation, activate_email,
}
use servora_platform.Iam.Account.Admin.{check_change}
use servora_platform.Iam.Account.Calls.{Call, verifies, disables, enables}
use servora_platform.Iam.Account.Reads.{account_rules}

-- The step that a call may take the status of a user: a verification makes a pending user active, the
-- user is disabled by its own disabling, and a disabled one made active by its own enabling.
pub data Step (id : String) : Call → UserStatus → UserStatus → Type 0 where
  stays : {c : Call} {s : UserStatus} → Step id c s s
  verified :
      {token : String}
      → Step id (verifies token) UserStatus.pending_email_verification UserStatus.active
  disabled : {e : String} {s : UserStatus} → Step id (disables id e) s UserStatus.disabled
  enabled : {e : String} → Step id (enables id e) UserStatus.disabled UserStatus.active

-- A step for each call, in their order.
pub data Trail (id : String) : List Call → UserStatus → UserStatus → Type 0 where
  here : {s : UserStatus} → Trail id [] s s
  next :
      {c : Call} {cs : List Call} {s t u : UserStatus}
      → Step id c s t
      → Trail id cs t u
      → Trail id (c ∷ cs) s u

-- The user is there, and its status is one of those.
abbrev pub Follows : String → (UserStatus → Type 0) → Db → Type 0
Follows id R d =
    (any (λ u. u.id == id) d.users ≡ true) × All (λ u. u.id ≡ id → R (to_status u.status)) d.users

pub was_disabled : (s : UserStatus) → is_disabled s ≡ true → s ≡ UserStatus.disabled
was_disabled UserStatus.disabled e = refl
was_disabled UserStatus.active e = cc
was_disabled UserStatus.unspecified e = cc
was_disabled UserStatus.pending_email_verification e = cc

-- Only a disabled user is enabled.
pub enabling_ok :
    (current : UserResource) (e : String) (w : World) {v : World} {u : Unit {0}}
    → check_change UserStatus.active e current w ≡ ok u v
    → current.status ≡ UserStatus.disabled
unfolding check_change
enabling_ok current e w h =
    let (_, x, first, rest) =
      bind_ok (when (not (is_disabled current.status)) user_invalid_state) _ w h in
    was_disabled current.status (
      unnot (is_disabled current.status)
        (when_ok (not (is_disabled current.status)) user_invalid_state w first).0)
  where
    unnot : (b : Bool) → not b ≡ false → b ≡ true
    unnot true e = refl
    unnot false e = cc

module _ (id : String) (R : UserStatus → Type 0) where
  adds :
      (r : User) (d : Db)
      → Follows id R d
      → any (users.clash r) d.users ≡ false
      → Follows id R (users.put d (d.users ++ r ∷ []))
  adds r d h fresh =
      let (x, found, off) = any-separates (λ u. u.id == id) (users.clash r) d.users h.0 fresh in
      (
        any-append _ d.users (r ∷ []) h.0,
        All-append _ d.users (r ∷ []) h.1 (λ e. absurd (apart x found off e), tt),
      )
    where
      apart : (x : User) → (x.id == id) ≡ true → (r.id == x.id) ≡ false → r.id ≡ id → ⊥
      apart x found off e = ground (arith, eq_iff x.id id, eq_iff r.id x.id)

  pub sets :
      (p : User → Bool) (f : User → User) (d : Db)
      → ((x : User) → (f x).id ≡ x.id)
      → ((x : User) → p x ≡ true → x.id ≡ id → R (to_status x.status) → R (to_status (f x).status))
      → Follows id R d
      → Follows id R (users.put d (set_where p f d.users))
  sets p f d same moves h = (
    any-set_where (λ u. u.id == id) p f d.users (λ x. rw (same x)) ∙ h.0,
    All-set_where (λ (u : User). u.id ≡ id → R (to_status u.status)) p f d.users
        (λ x hit was e. moves x hit (sym (same x) ∙ e) (was (sym (same x) ∙ e))) h.1,
  )

  inserts :
      (draft : Draft) (p c s : String) (v : Option ℕ) (t : ℕ) (x y z e : String)
      → Keeps (Follows id R) (insert_aggregate draft p c s v t x y z e)
  unfolding insert_aggregate
  inserts draft p c s v t x y z e = search (keeps_rules, adds) depth 16

  aggregates :
      (draft : Draft) (p c s : String) (v : Option ℕ) (t : ℕ)
      → Keeps (Follows id R) (create_user_aggregate draft p c s v t)
  unfolding create_user_aggregate
  aggregates draft p c s v t = search (keeps_rules, inserts) depth 12

  pub creates : (draft : Draft) (p c : String) → Keeps (Follows id R) (create_user draft p c)
  unfolding create_user
  creates draft p c = search (account_rules, aggregates) depth 12

  pub creates_admin :
      (u e c p : String) (t : ℕ) → Keeps (Follows id R) (create_initial_admin u e c p t)
  unfolding create_initial_admin
  creates_admin u e c p t = search (account_rules, aggregates) depth 12

  pub replaces : (u a p : String) (t : ℕ) → Keeps (Follows id R) (replace_password u a p t)
  unfolding replace_password
  replaces u a p t = search account_rules depth 16

  profiles :
      (s : Services) (u e n : String) (f : Profile → Profile) (t : ℕ)
      → Keeps (Follows id R) (write_profile s u e n f t)
  unfolding write_profile
  profiles s u e n f t =
      Keeps-map_error _ _
        (Keeps-update_one users _ _ (λ d. sets _ _ d (λ x. refl) (λ x _ _ was. was)))

  pub updates :
      (s : Services) (u e : String) (p : Option Profile) (m : List String)
      → Keeps (Follows id R) (update_profile_fields s u e p m)
  unfolding update_profile_fields
  updates s u e p m = search (account_rules, profiles) depth 12

  module _ (verifying : R UserStatus.pending_email_verification → R UserStatus.active) where
    activation : (u i e : String) (t : ℕ) → Keeps (Follows id R) (write_activation u i e t)
    unfolding write_activation to_status
    activation u i e t =
        Keeps-bind _ _
          (Keeps-map_error _ _ (
            Keeps-update_one users _ _ (λ d.
              sets _ _ d (λ x. refl)
                (λ x hit _ was. verifying (subst R (pending x.status (ground (arith, hit))) was)))))
          (λ _. search keeps_rules depth 10)
      where
        pending :
            (s : String)
            → (s == "pending_verification") ≡ true
            → to_status s ≡ UserStatus.pending_email_verification
        pending s e = rw e refl

    pub activates : (u : String) (t : ℕ) → Keeps (Follows id R) (activate_email u t)
    unfolding activate_email
    activates u t = search (account_rules, activation) depth 14
