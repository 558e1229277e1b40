-- ===== src/Iam/Account/Life.antt =====
-- The life of an account: each call takes the step of Status that is its own.
use servora_platform.Common.{
  String, ◌==◌, eq_iff, ◌≡◌, ◌≢◌, sym, ap, subst, true, List, [], ◌∷◌, All, All-map, select,
  select-ne-nil_any,
}
use servora_platform.Iam.Schema.{User}
use servora_platform.Iam.Store.{World, after}
use servora_platform.Iam.Login.Repo.{UserStatus, to_status}
use servora_platform.Iam.Account.Services.{Services, IsOutside}
use servora_platform.Iam.Account.Calls.{Call, verifies, disables, enables, perform, run}
use servora_platform.Iam.Account.Steps.{MovesBy, Keeps-perform}
use servora_platform.Iam.Account.Spent.{sole_row}
use servora_platform.Iam.Account.Status.{
  Step, stays, verified, disabled, enabled, Trail, here, next, Follows, activates,
}
use servora_platform.Iam.Account.Moving.{disables_user, enables_user, handles}

-- The statuses that a call leads to from some others.
abbrev By : String → Call → (UserStatus → Type 0) → UserStatus → Type 0
By id c R s = (m : UserStatus) × R m × Step id c m s

module _ (id : String) (R : UserStatus → Type 0) where
  verifying :
      (token : String)
      → By id (verifies token) R UserStatus.pending_email_verification
      → By id (verifies token) R UserStatus.active
  verifying token (m, r, stays) = (m, r, verified)

  disabling :
      (u e : String) (s : UserStatus)
      → u ≡ id
      → By id (disables u e) R s
      → By id (disables u e) R UserStatus.disabled
  disabling u e s mine (m, r, _) =
      (m, r, subst (λ x. Step id (disables x e) m UserStatus.disabled) (sym mine) disabled)

  enabling :
      (u e : String)
      → u ≡ id
      → By id (enables u e) R UserStatus.disabled
      → By id (enables u e) R UserStatus.active
  enabling u e mine (m, r, stays) = (
    m,
    r,
    subst (λ x. Step id (enables x e) UserStatus.disabled UserStatus.active) (sym mine) enabled,
  )

  moves : (c : Call) → MovesBy (Follows id (By id c R)) c
  moves (verifies token) = activates id (By id (verifies token) R) (verifying token)
  moves (disables u e) = disables_user id (By id (disables u e) R) u e (disabling u e)
  moves (enables u e) = enables_user id (By id (enables u e) R) u e (enabling u e)
  moves (Call.registers _ _ _ _) = tt
  moves (Call.resends _ _) = tt
  moves (Call.requests_reset _ _) = tt
  moves (Call.confirms_reset _ _) = tt
  moves (Call.changes_password _ _ _ _) = tt
  moves (Call.reads_profile _) = tt
  moves (Call.changes_profile _ _ _) = tt
  moves (Call.updates_profile _ _) = tt
  moves (Call.logs_in _ _) = tt
  moves (Call.creates_user _ _ _ _) = tt
  moves (Call.updates_user _ _) = tt
  moves (Call.initializes _) = tt
  moves (Call.on_session _) = tt

module _ (s : Services) where
  -- The statuses after some calls are those that the calls lead to, one step for each.
  follows :
      (outside : IsOutside s) (id : String) (calls : List Call) (w : World)
      (R : UserStatus → Type 0)
      → Follows id R w.db
      → Follows id (λ u. (m : UserStatus) × R m × Trail id calls m u) (run s calls w).db
  unfolding run
  follows outside id [] w R h = (
    h.0,
    All-map (λ (u : User). u.id ≡ id → R (to_status u.status)) _ w.db.users
        (λ u known e. (to_status u.status, known e, here)) h.1,
  )
  follows outside id (c ∷ cs) w R h =
      let stay : Follows id (By id c R) w.db = (
        h.0,
        All-map (λ (u : User). u.id ≡ id → R (to_status u.status)) _ w.db.users
            (λ u known e. (to_status u.status, known e, stays)) h.1,
      ) in
      let stepped = (Keeps-perform (handles id (By id c R)) s outside c (moves id R c)).at w stay in
      let rest = follows outside id cs (after (perform s c w)) (By id c R) stepped in
      (
        rest.0,
        All-map
            (λ (u : User).
              u.id ≡ id → (m : UserStatus) × By id c R m × Trail id cs m (to_status u.status))
            _ (run s (c ∷ cs) w).db.users
            (λ u led e. let (m, (l, r, step), path) = led e in (l, r, next step path)) rest.1,
      )

  -- Where the services outside leave the database alone: whatever calls are made, a user that was there
  -- is there after them, and the calls took its status there by one step each: a verification takes a
  -- pending user to active or leaves it, the user's own disabling disables it or leaves it, its own
  -- enabling takes it from disabled to active or leaves it, and every other call leaves it.
  pub run-Follows :
      (outside : IsOutside s) (id : String) (row : User) (calls : List Call) (w : World)
      → select (λ u. u.id == id) w.db.users ≡ row ∷ []
      → Follows id (Trail id calls (to_status row.status)) (run s calls w).db
  run-Follows outside id row calls w sole =
      let led =
        follows outside id calls w (λ u. to_status row.status ≡ u)
          (
            select-ne-nil_any (λ u. u.id == id) w.db.users sole,
            All-map (λ (u : User). (u.id == id) ≡ true → u ≡ row) _ w.db.users
                (λ u only e.
                  ap (λ (x : User). to_status x.status) (sym (only ((eq_iff u.id id).1 e))))
                (sole_row (λ u. u.id == id) w.db.users sole),
          ) in
      (
        led.0,
        All-map
            (λ (u : User).
              u.id ≡ id
              → (m : UserStatus) × (to_status row.status ≡ m)
                × Trail id calls m (to_status u.status))
            _ (run s calls w).db.users
            (λ u go e.
              let (m, same, path) = go e in
              subst (λ (x : UserStatus). Trail id calls x (to_status u.status)) (sym same) path)
            led.1,
      )

  left_pending :
      {id : String} {calls : List Call} {a b : UserStatus}
      → Trail id calls a b
      → a ≢ UserStatus.pending_email_verification
      → b ≢ UserStatus.pending_email_verification
  left_pending here off = off
  left_pending (next stays p) off = left_pending p off
  left_pending (next verified p) off = left_pending p (λ e. cc)
  left_pending (next disabled p) off = left_pending p (λ e. cc)
  left_pending (next enabled p) off = left_pending p (λ e. cc)

  -- Where the services outside leave the database alone: a user that is not pending is never pending
  -- again.
  pub never_pending_again :
      (outside : IsOutside s) (id : String) (row : User) (calls : List Call) (w : World)
      → select (λ u. u.id == id) w.db.users ≡ row ∷ []
      → to_status row.status ≢ UserStatus.pending_email_verification
      → All
          (λ u. u.id ≡ id → to_status u.status ≢ UserStatus.pending_email_verification)
          (run s calls w).db.users
  never_pending_again outside id row calls w sole off =
      All-map (λ (u : User). u.id ≡ id → Trail id calls (to_status row.status) (to_status u.status))
        _ (run s calls w).db.users (λ u reached e. left_pending (reached e) off)
        (run-Follows outside id row calls w sole).1
