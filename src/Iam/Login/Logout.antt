-- ===== src/Iam/Login/Logout.antt =====
-- A login session that was logged out never resolves again.
use servora_platform.Common.{
  ℕ, String, ◌==◌, ◌≡◌, ◌≢◌, refl, ◌∙◌, subst, Bool, true, List, [], ◌∷◌, Option, none, some,
  is_some, is_none, any, any-set_where, All, All-select, select,
}
use servora_platform.Iam.Schema.{Db, LoginSession}
use servora_platform.Iam.Schema.Tables.{login_sessions}
use servora_platform.Iam.Store.{World, ok, when, unauthenticated, now}
use servora_platform.Iam.Store.Keeps.{
  Keeps, Keeps-bind, Keeps-pure, Keeps-now, Keeps-when, Keeps-map_error, Keeps-update_one,
}
use servora_platform.Iam.Store.Laws.{bind_ok}
use servora_platform.Iam.Store.Gains.{Keeps-ok}
use servora_platform.Iam.Oidc.Frame.{Keeps-if_missing}
use servora_platform.Iam.Login.Repo.{
  Session, UserResource, revoke_session, revoke_for_login_session,
}
use servora_platform.Iam.Login.Usecase.{resolve, logout}
use servora_platform.Iam.Login.Ending.{Keeps-time_or_now, revoke_session-Gains, join_ok}
use servora_platform.Iam.Login.Resolution.{finds, resolve_ok}
use servora_platform.Iam.Login.Calls.{Call, run, IsOver, Keeps-revoke_for, Keeps-run}

-- A login session of the identifier is in the table.
abbrev pub Exists : String → Db → Type 0
Exists id d = any (λ s. s.id == id) d.login_sessions ≡ true

revoke_session-Exists : (id : String) (t : ℕ) → Keeps (Exists id) (revoke_session id t)
unfolding revoke_session
revoke_session-Exists id given = Keeps-bind _ _ (Keeps-time_or_now given) λ t. Keeps-map_error _ _ (
    Keeps-if_missing _ _
      (Keeps-bind _ _
        (Keeps-update_one login_sessions _ _
          (λ d here. any-set_where (λ s. s.id == id) _ _ d.login_sessions (λ x. refl) ∙ here))
        (λ _. Keeps-pure _))
      (Keeps-pure _))

logout-IsOver :
    (id : String) (w : World) {v : World} {u : Unit {0}}
    → Exists id w.db
    → logout id w ≡ ok u v
    → IsOver id v.db
unfolding logout
logout-IsOver id w here h =
    let (_, x, first, rest) = bind_ok (when (id == "") unauthenticated) _ w h in
    let here_x = Keeps-ok {P = Exists id} (Keeps-when _ _) w here first in
    let (t, y, read, rest') = bind_ok now _ x rest in
    let here_y = Keeps-ok {P = Exists id} Keeps-now x here_x read in
    let (z, revoked, last) =
      join_ok (revoke_session id t) (revoke_for_login_session id t) y rest' in
    Keeps-ok (Keeps-revoke_for id id t) z
      (
        Keeps-ok (revoke_session-Exists id t) y here_y revoked,
        (revoke_session-Gains id t).at y tt revoked,
      )
      last

-- The row that a test selects alone has what every row has.
only_row :
    (P : LoginSession → Type 0) (p : LoginSession → Bool) (rows : List LoginSession)
    (row : LoginSession)
    → All P rows
    → select p rows ≡ row ∷ []
    → P row
only_row P p rows row all one = (subst (All P) one (All-select P p rows all)).0

module _ (hash_opaque_secret : String → String) where
  -- Where the login session is in the table: after a logout of it that returned, and after any
  -- further calls, a secret that resolves finds a session of another identifier.
  pub logout_ends_session :
      (id secret : String) (between : List Call) (w v x : World) {u : Unit {0}}
      {user : UserResource} {session : Session}
      → Exists id w.db
      → logout id w ≡ ok u v
      → resolve hash_opaque_secret secret (run hash_opaque_secret between v) ≡ ok (user, session) x
      → (row : LoginSession) × (select
            (finds hash_opaque_secret secret)
            (run hash_opaque_secret between v).db.login_sessions
          ≡ row ∷ [])
        × (row.id ≢ id)
  logout_ends_session id secret between w v x here out resolved =
      let found =
        resolve_ok hash_opaque_secret secret (run hash_opaque_secret between v) resolved in
      let row = found.row in
      let over = Keeps-run id hash_opaque_secret between v (logout-IsOver id w here out) in
      (
        row,
        found.sole,
        λ e.
            clash row.revoked_time
              (only_row (λ s. s.id ≡ id → is_some s.revoked_time ≡ true)
                (finds hash_opaque_secret secret) _ row over.1 found.sole e)
              found.usable.0,
      )
    where
      clash : (o : Option ℕ) → is_some o ≡ true → is_none o ≡ true → ⊥
      clash none a b = cc
      clash (some t) a b = cc
