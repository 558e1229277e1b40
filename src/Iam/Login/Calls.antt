-- ===== src/Iam/Login/Calls.antt =====
-- The calls on login sessions, one after another, and that a session that was logged out never
-- resolves again.
use servora_platform.Common.{
  ℕ, String, ◌==◌, eq_iff, ◌≡◌, refl, sym, ◌∙◌, Bool, true, false, not, List, [], ◌∷◌, ◌++◌, Option,
  none, some, is_some, any, any-append, any-set_where, any-separates, All-append, All-set_where,
  set_where, arith,
}
use servora_platform.Iam.Schema.{Db, User, LoginIdentifier, LoginSession}
use servora_platform.Iam.Schema.Tables.{login_sessions}
use servora_platform.Iam.Store.{
  World, Outcome, ok, err, M, ◌>>=◌, pure, raise, after, when, user_disabled, user_not_active,
}
use servora_platform.Iam.Store.Keeps.{
  Keeps, Keeps-bind, Keeps-pure, Keeps-raise, Keeps-when, Keeps-only, Keeps-map_error,
  Keeps-update_one, keeps_rules,
}
use servora_platform.Iam.Oidc.Frame.{Keeps-if_missing}
use servora_platform.Iam.Login.Repo.{
  Session, UserResource, UserStatus, create_session, find_by_secret_hash, touch, revoke_session,
  revoke_other_sessions, revoke_all_sessions, revoke_ids, revoke_token_sessions,
  revoke_for_login_session, revoke_all_for_user, get_user, to_resource,
}
use servora_platform.Iam.Login.Usecase
use servora_platform.Iam.Login.Usecase.{
  join, check_status, create, enter, resolve, logout, revoke_others_for_user, revoke_every_session,
}
use servora_platform.Iam.Login.Ending.{IsEnded, Keeps-time_or_now}

pub data Call : Type 0 where
  creates_session : String → Call
  resolves_secret : String → Call
  logs_out : String → Call
  revokes_others : String → String → Call
  revokes_all : String → Call

module _ (hash_opaque_secret : String → String) where
  unfoldable pub perform : Call → M (Unit {0})
  perform (creates_session user_id) = do _ ← create hash_opaque_secret user_id; pure tt
  perform (resolves_secret secret) = do _ ← resolve hash_opaque_secret secret; pure tt
  perform (logs_out id) = logout id
  perform (revokes_others user_id keep) = revoke_others_for_user user_id keep
  perform (revokes_all user_id) = revoke_every_session user_id

  unfoldable pub run : List Call → World → World
  run [] w = w
  run (c ∷ cs) w = run cs (after (perform c w))

-- There is a login session of the identifier, and all of them are revoked.
abbrev pub IsOver : String → Db → Type 0
IsOver id d = (any (λ s. s.id == id) d.login_sessions ≡ true) × IsEnded id d

module _ (id : String) where
  add-IsOver :
      (r : LoginSession) (d : Db)
      → IsOver id d
      → any (login_sessions.clash r) d.login_sessions ≡ false
      → IsOver id (login_sessions.put d (d.login_sessions ++ r ∷ []))
  add-IsOver r d h fresh =
      let (x, here, apart) =
        any-separates (λ s. s.id == id) (login_sessions.clash r) d.login_sessions h.0 fresh in
      (
        any-append _ d.login_sessions (r ∷ []) h.0,
        All-append _ d.login_sessions (r ∷ []) h.1
            (λ e. ground (arith, eq_iff x.id id, eq_iff r.id x.id), tt),
      )

  set-IsOver :
      (p : LoginSession → Bool) (f : LoginSession → LoginSession) (d : Db)
      → ((x : LoginSession) → (f x).id ≡ x.id)
      → ((x : LoginSession) → is_some x.revoked_time ≡ true → is_some (f x).revoked_time ≡ true)
      → IsOver id d
      → IsOver id (login_sessions.put d (set_where p f d.login_sessions))
  set-IsOver p f d same stays h = (
    any-set_where (λ s. s.id == id) p f d.login_sessions (λ x. rw (same x)) ∙ h.0,
    All-set_where (λ (x : LoginSession). x.id ≡ id → is_some x.revoked_time ≡ true) p f
        d.login_sessions (λ x _ was e. stays x (was (sym (same x) ∙ e))) h.1,
  )

  revoke_ids-IsOver : (is : List String) (t : ℕ) → Keeps (IsOver id) (revoke_ids is t)
  unfolding revoke_ids
  revoke_ids-IsOver [] t = Keeps-pure _
  revoke_ids-IsOver (i ∷ is) t = search keeps_rules depth 10

  Keeps-status : (user : UserResource) → Keeps (IsOver id) (check_status user)
  unfolding check_status
  Keeps-status user = by_status user.status
    where
      by_status :
          (s : UserStatus)
          → Keeps (IsOver id) (elim s as (λ _. M (Unit {0})) [
            | UserStatus.disabled ↦ raise user_disabled
            | UserStatus.active ↦ when (not user.email_verified) user_not_active
            | UserStatus.unspecified ↦ raise user_not_active
            | UserStatus.pending_email_verification ↦ raise user_not_active
          ])
      by_status UserStatus.active = Keeps-when _ _
      by_status UserStatus.unspecified = Keeps-raise _
      by_status UserStatus.disabled = Keeps-raise _
      by_status UserStatus.pending_email_verification = Keeps-raise _

  Keeps-resource : (u : User) (i : Option LoginIdentifier) → Keeps (IsOver id) (to_resource u i)
  unfolding to_resource
  Keeps-resource u none = Keeps-raise _
  Keeps-resource u (some i) = Keeps-pure _

  Keeps-get_user : (u : String) → Keeps (IsOver id) (get_user u)
  unfolding get_user
  Keeps-get_user u = search (keeps_rules, Keeps-resource) depth 10

  joined_after :
      (n : M (Unit {0})) (o : Outcome (Unit {0}))
      → Keeps (IsOver id) n
      → IsOver id (after o).db
      → IsOver id (after (Usecase.join_rest n o)).db
  joined_after n (ok u w) k h = k.at w h
  joined_after n (err e w) k h = second (n w) (k.at w h)
    where
      second :
          (o : Outcome (Unit {0}))
          → IsOver id (after o).db
          → IsOver id
              (after (elim o as (λ _. Outcome (Unit {0})) [
                | ok u w' ↦ err e w'
                | err e' w' ↦ err e w'
              ])).db
      second (ok u w') q = q
      second (err e' w') q = q

  Keeps-join :
      (m n : M (Unit {0}))
      → Keeps (IsOver id) m
      → Keeps (IsOver id) n
      → Keeps (IsOver id) (join m n)
  unfolding join
  Keeps-join m n km kn = record { at = λ w h. joined_after n (m w) kn (km.at w h) }

  sets :
      (p : LoginSession → Bool) (t : ℕ) (d : Db)
      → IsOver id d
      → IsOver id (
          login_sessions.put d
            (set_where p (λ s. record s { revoked_time = some t }) d.login_sessions))
  sets p t d = set-IsOver p _ d (λ x. refl) (λ x _. refl)

  Keeps-create : (u h : String) (t : ℕ) → Keeps (IsOver id) (create_session u h t)
  unfolding create_session
  Keeps-create u h t = search (keeps_rules, Keeps-time_or_now, add-IsOver) depth 12

  Keeps-touch : (s : String) (t : ℕ) → Keeps (IsOver id) (touch s t)
  unfolding touch
  Keeps-touch s given = Keeps-bind _ _ (Keeps-time_or_now given) λ t.
      Keeps-bind _ _ (Keeps-map_error _ _ (Keeps-only login_sessions _)) λ current.
        Keeps-bind _ _
          (Keeps-map_error _ _ (
            Keeps-update_one login_sessions _ _ (λ d. set-IsOver _ _ d (λ x. refl) (λ x was. was))))
          (λ updated. Keeps-pure _)

  Keeps-revoke : (s : String) (t : ℕ) → Keeps (IsOver id) (revoke_session s t)
  unfolding revoke_session
  Keeps-revoke s given = Keeps-bind _ _ (Keeps-time_or_now given) λ t. Keeps-map_error _ _ (
      Keeps-if_missing _ _
        (Keeps-bind _ _ (Keeps-update_one login_sessions _ _ (sets _ t)) (λ _. Keeps-pure _))
        (Keeps-pure _))

  Keeps-revoke_others : (u k : String) (t : ℕ) → Keeps (IsOver id) (revoke_other_sessions u k t)
  unfolding revoke_other_sessions
  Keeps-revoke_others u k t = search (keeps_rules, Keeps-time_or_now, sets) depth 12

  Keeps-revoke_all : (u : String) (t : ℕ) → Keeps (IsOver id) (revoke_all_sessions u t)
  unfolding revoke_all_sessions
  Keeps-revoke_all u t = search (keeps_rules, Keeps-time_or_now, sets) depth 12

  pub Keeps-revoke_for : (s : String) (t : ℕ) → Keeps (IsOver id) (revoke_for_login_session s t)
  unfolding revoke_for_login_session revoke_token_sessions
  Keeps-revoke_for s t = search (keeps_rules, Keeps-time_or_now, revoke_ids-IsOver) depth 12

  Keeps-revoke_user : (s : String) (t : ℕ) → Keeps (IsOver id) (revoke_all_for_user s t)
  unfolding revoke_all_for_user revoke_token_sessions
  Keeps-revoke_user s t = search (keeps_rules, Keeps-time_or_now, revoke_ids-IsOver) depth 12

  module _ (hash_opaque_secret : String → String) where
    Keeps-find : (h : String) → Keeps (IsOver id) (find_by_secret_hash h)
    unfolding find_by_secret_hash
    Keeps-find h = search keeps_rules depth 8

    Keeps-enter : (t : ℕ) (f : Session × String × Bool) → Keeps (IsOver id) (enter t f)
    unfolding enter
    Keeps-enter t (session, user_id, revoked) =
        search (keeps_rules, Keeps-get_user, Keeps-status, Keeps-touch) depth 12

    pub Keeps-perform : (c : Call) → Keeps (IsOver id) (perform hash_opaque_secret c)
    unfolding perform create resolve logout revoke_others_for_user revoke_every_session
    Keeps-perform (creates_session u) = search (keeps_rules, Keeps-create) depth 12
    Keeps-perform (resolves_secret s) = search (keeps_rules, Keeps-find, Keeps-enter) depth 12
    Keeps-perform (logs_out s) =
        search (keeps_rules, Keeps-join, Keeps-revoke, Keeps-revoke_for) depth 12
    Keeps-perform (revokes_others u k) =
        search (keeps_rules, Keeps-join, Keeps-revoke_others, Keeps-revoke_user) depth 12
    Keeps-perform (revokes_all u) =
        search (keeps_rules, Keeps-join, Keeps-revoke_all, Keeps-revoke_user) depth 12

    pub Keeps-run :
        (cs : List Call) (w : World) → IsOver id w.db → IsOver id (run hash_opaque_secret cs w).db
    unfolding run
    Keeps-run [] w h = h
    Keeps-run (c ∷ cs) w h =
        Keeps-run cs (after (perform hash_opaque_secret c w)) ((Keeps-perform c).at w h)
