-- ===== src/Iam/Login/Resolution.antt =====
-- What resolving a session's secret says of the session and its user.
use servora_platform.Common.{
  ℕ, ◌+◌, String, ◌==◌, ◌≡◌, ◌<◌, refl, sym, ap, ◌∙◌, subst, Bool, true, false, not, List, [], ◌∷◌,
  is_some, is_none, select, arith,
}
use servora_platform.Iam.Schema.{LoginSession}
use servora_platform.Iam.Schema.Tables.{Table, login_sessions}
use servora_platform.Iam.Store.{
  World, Outcome, ok, M, pure, raise, map_error, when, after, now, statement, single, gets, query,
  only, unauthenticated, session_revoked, user_disabled, user_not_active,
}
use servora_platform.Iam.Store.Laws.{bind_ok, map_error_ok, single_ok, only_ok, when_ok}
use servora_platform.Iam.Login.Repo.{
  Session, UserResource, UserStatus, to_session, translate_ent_error, find_by_secret_hash, touch,
  get_user,
}
use servora_platform.Iam.Login.Lookup.{IsUser, get_user_ok}
use servora_platform.Iam.Login.Usecase
use servora_platform.Iam.Login.Usecase.{check_status, enter, resolve, logout}

-- The row stands for a session that may be used at a time.
abbrev pub IsUsable : LoginSession → ℕ → Type 0
IsUsable s t =
    (is_none s.revoked_time ≡ true) × (t < s.idle_expires_time) × (t < s.absolute_expires_time)

-- What the clock reads next.
abbrev pub clock : World → ℕ
clock w = elim w.delays [ [] ↦ w.time | d ∷ rest ↦ w.time + d ]

same_world : {A : Type 0} {a b : A} {x y : World} → ok a x ≡ ok b y → x ≡ y
same_world q = cc

now_value :
    (w : World) (ds : List ℕ) {v : World} {t : ℕ}
    → now (record w { delays = ds }) ≡ ok t v
    → (t ≡ clock (record w { delays = ds })) × (v.db ≡ w.db)
unfolding now
now_value w [] h = (cc, cc)
now_value w (d ∷ ds) h = (cc, cc)

clock-statement :
    (w : World) (fs : List Bool) {v : World} {u : Unit {0}}
    → statement (record w { faults = fs }) ≡ ok u v
    → clock v ≡ clock w
unfolding statement
clock-statement w [] h = ap clock (sym (same_world h))
clock-statement w (true ∷ fs) h = cc
clock-statement w (false ∷ fs) h = ap clock (sym (same_world h))

-- A lookup of one row reads no clock.
clock-only :
    {R : Type 0} (t : Table R) (p : R → Bool) (w : World) {v : World} {r : R}
    → only t p w ≡ ok r v
    → clock v ≡ clock w
unfolding only query
clock-only t p w h =
    let (rows, x, first, rest) = bind_ok (query t p) single w h in
    let (_, y, sent, last) = bind_ok statement (λ _. gets (λ d. select p (t.get d))) w first in
    ap clock ((single_ok rows x rest).1 ∙ sym (same_world last)) ∙ clock-statement w w.faults sent

find_ok :
    (secret_hash : String) (w : World) {v : World} {found : Session × String × Bool}
    → find_by_secret_hash secret_hash w ≡ ok found v
    → (row : LoginSession) × (select (λ s. s.secret_hash == secret_hash) w.db.login_sessions
        ≡ row ∷ [])
      × (v.db ≡ w.db)
      × (clock v ≡ clock w)
      × ((to_session row, row.user_id, is_some row.revoked_time) ≡ found)
unfolding find_by_secret_hash
find_ok secret_hash w h =
    let (row, u, first, last) =
      bind_ok
        (map_error translate_ent_error (only login_sessions (λ s. s.secret_hash == secret_hash))) _
        w h in
    let (one, same) =
      only_ok login_sessions (λ s. s.secret_hash == secret_hash) w
        (map_error_ok translate_ent_error (only login_sessions (λ s. s.secret_hash == secret_hash))
          w first) in
    (
      row,
      one,
      found_here last same,
      ap clock (sym (same_world last))
          ∙ clock-only login_sessions (λ s. s.secret_hash == secret_hash) w
              (map_error_ok translate_ent_error
                (only login_sessions (λ s. s.secret_hash == secret_hash)) w first),
      found_value last,
    )
  where
    found_here :
        {a b : Session × String × Bool} {x y : World}
        → ◌≡◌ {A = Outcome (Session × String × Bool)} (ok a x) (ok b y)
        → x.db ≡ w.db
        → y.db ≡ w.db
    found_here q e = sym (ap (λ (z : Outcome (Session × String × Bool)). (after z).db) q) ∙ e

    found_value :
        {a b : Session × String × Bool} {x y : World}
        → ◌≡◌ {A = Outcome (Session × String × Bool)} (ok a x) (ok b y)
        → a ≡ b
    found_value q = cc

check_status_ok :
    (user : UserResource) (w : World) {v : World} {u : Unit {0}}
    → check_status user w ≡ ok u v
    → (user.status ≡ UserStatus.active) × (user.email_verified ≡ true)
unfolding check_status
check_status_ok user w {v} {u} h = status user.status refl h
  where
    status :
        (s : UserStatus)
        → user.status ≡ s
        → (elim s as (λ _. M (Unit {0})) [
          | UserStatus.disabled ↦ raise user_disabled
          | UserStatus.active ↦ when (not user.email_verified) user_not_active
          | UserStatus.unspecified ↦ raise user_not_active
          | UserStatus.pending_email_verification ↦ raise user_not_active
        ])
            w
          ≡ ok u v
        → (user.status ≡ UserStatus.active) × (user.email_verified ≡ true)
    status UserStatus.active e q =
        (e, ground (arith, (when_ok (not user.email_verified) user_not_active w q).0))
    status UserStatus.unspecified e q = cc
    status UserStatus.disabled e q = cc
    status UserStatus.pending_email_verification e q = cc

usable :
    (row : LoginSession) (t : ℕ)
    → Usecase.is_refused (to_session row) (is_some row.revoked_time) t ≡ false
    → IsUsable row t
unfolding to_session
usable row t h = (ground arith, ground arith, ground arith)

enter_ok :
    (t : ℕ) (row : LoginSession) (w : World) {v : World} {user : UserResource} {session : Session}
    → enter t (to_session row, row.user_id, is_some row.revoked_time) w ≡ ok (user, session) v
    → IsUsable row t
      × IsUser row.user_id user w.db
      × (user.status ≡ UserStatus.active)
      × (user.email_verified ≡ true)
unfolding enter
enter_ok t row w {v} {user} {session} h =
    let (_, x, first, rest) =
      bind_ok
        (when (Usecase.is_refused (to_session row) (is_some row.revoked_time) t) session_revoked) _
        w h in
    let (passed, same_x) = when_ok _ _ w first in
    let (u, y, got, rest') =
      bind_ok (map_error Usecase.gone_as_revoked (get_user row.user_id)) _ x rest in
    let (_, z, checked, rest'') = bind_ok (check_status u) _ y rest' in
    let (s, _, _, last) =
      bind_ok (map_error Usecase.missed_as_revoked (touch (to_session row).session_id t))
        (λ s. pure (u, s)) z rest'' in
    let (active, verified) = check_status_ok u y checked in
    let same_user : u ≡ user = user_eq last in
    (
      usable row t passed,
      subst (λ (q : UserResource). IsUser row.user_id q w.db) same_user
          (subst (λ (z : World). IsUser row.user_id u z.db) same_x
            (get_user_ok row.user_id x
              (map_error_ok Usecase.gone_as_revoked (get_user row.user_id) x got))),
      ap (λ (q : UserResource). q.status) (sym same_user) ∙ active,
      ap (λ (q : UserResource). q.email_verified) (sym same_user) ∙ verified,
    )
  where
    user_eq :
        {a b : UserResource} {s s' : Session} {x y : World}
        → ◌≡◌ {A = Outcome (UserResource × Session)} (ok (a, s) x) (ok (b, s') y)
        → a ≡ b
    user_eq q = cc

module _ (hash_opaque_secret : String → String) where
  abbrev pub finds : String → LoginSession → Bool
  finds secret s = s.secret_hash == hash_opaque_secret secret

  -- A session that a secret finds, and its user, as a call that returned them saw both.
  pub record IsResolved (secret : String) (w : World) (user : UserResource) : Type 0 where
    pub row : LoginSession
    pub sole : select (finds secret) w.db.login_sessions ≡ row ∷ []
    pub usable : IsUsable row (clock w)
    pub its_user : IsUser row.user_id user w.db
    pub active : user.status ≡ UserStatus.active
    pub confirmed : is_some its_user.mail.verified_time ≡ true

  -- A secret resolves only where it finds one login session, which at the reading of the clock is not
  -- revoked and not expired, and only to the one user of that session, which is active and has a last
  -- email identifier with a time of verification.
  pub resolve_ok :
      (secret : String) (w : World) {v : World} {user : UserResource} {session : Session}
      → resolve hash_opaque_secret secret w ≡ ok (user, session) v
      → IsResolved secret w user
  unfolding resolve
  resolve_ok secret w {v} {user} {session} h =
      let (_, x, first, rest) = bind_ok (when (secret == "") unauthenticated) _ w h in
      let (_, same_x) = when_ok _ _ w first in
      let (found, y, looked, rest') =
        bind_ok
          (map_error Usecase.gone_as_revoked (find_by_secret_hash (hash_opaque_secret secret))) _ x
          rest in
      let (row, one, same_y, same_clock, answer) = find_ok (hash_opaque_secret secret) x (
        map_error_ok Usecase.gone_as_revoked (find_by_secret_hash (hash_opaque_secret secret)) x
          looked) in
      let (t, z, read, rest'') = bind_ok now (λ t. enter t found) y rest' in
      let (reading, same_z) = now_value y y.delays read in
      let (usable_row, is_user, active, verified) =
        enter_ok t row z (subst (λ f. enter t f z ≡ ok (user, session) v) (sym answer) rest'') in
      let its_user : IsUser row.user_id user w.db =
        subst (IsUser row.user_id user) (same_z ∙ same_y ∙ ap (λ (q : World). q.db) same_x)
          is_user in
      record {
        row = row;
        sole = ap (λ (q : World). select (finds secret) q.db.login_sessions) (sym same_x) ∙ one;
        usable = subst (IsUsable row) (reading ∙ same_clock ∙ ap clock same_x) usable_row;
        its_user = its_user;
        active = active;
        confirmed = sym its_user.verified ∙ verified;
      }
