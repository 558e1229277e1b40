-- ===== src/Iam/Login/Ending.antt =====
-- The end of login sessions: what revoking one and logging out establish.
use servora_platform.Common.{
  ℕ, String, ◌==◌, eq_iff, ◌≡◌, refl, subst, Bool, true, false, ◌&&◌, List, [], ◌∷◌, some, is_some,
  is_none, All, All-written, All-map, select-nil-All, arith, if◌then◌else◌, inl, inr, ◌⊎◌,
}
use servora_platform.Iam.Schema.{Db, LoginSession}
use servora_platform.Iam.Schema.Tables.{login_sessions}
use servora_platform.Iam.Store.{
  World, Outcome, Error, ok, err, M, ◌>>=◌, pure, if_missing, is_missing, ent_not_found, update_one,
}
use servora_platform.Iam.Store.Keeps.{Keeps, Keeps-pure, keeps_rules}
use servora_platform.Iam.Store.Laws.{bind_ok, bind_err, update_one_ok, update_one_missed}
use servora_platform.Iam.Store.Gains.{Gains, Gains-later, Gains-map_error}
use servora_platform.Iam.Login.Repo.{
  time_or_now, revoke_session, revoke_ids, revoke_token_sessions, revoke_for_login_session,
}
use servora_platform.Iam.Login.Usecase
use servora_platform.Iam.Login.Usecase.{join, logout}

-- Every login session of the identifier is revoked.
abbrev pub IsEnded : String → Db → Type 0
IsEnded id d = All (λ s. s.id ≡ id → is_some s.revoked_time ≡ true) d.login_sessions

-- Every token session that came from the login session is revoked.
abbrev pub HasNoTokens : String → Db → Type 0
HasNoTokens id d =
    All (λ s. s.iam_login_session_id ≡ id → is_some s.revoked_time ≡ true) d.token_sessions

pub Keeps-time_or_now : {P : Db → Type 0} (t : ℕ) → Keeps P (time_or_now t)
unfolding time_or_now
Keeps-time_or_now t = search keeps_rules

abbrev Anything : Db → Type 0
Anything d = Unit {0}

module _ {A : Type 0} where
  missing_ok :
      (n : M A) (o : Outcome A) {a : A} {v : World}
      → (elim o [ ok a w' ↦ ok a w' | err e w' ↦ if is_missing e then n w' else err e w' ]) ≡ ok a v
      → (o ≡ ok a v) ⊎ ((w : World) × (o ≡ err ent_not_found w) × (n w ≡ ok a v))
  missing_ok n (ok a w) h = inl h
  missing_ok n (err Error.ent_not_found w) h = inr (w, refl, h)
  missing_ok n (err Error.driver w) h = cc
  missing_ok n (err _ w) h = cc

  if_missing_ok :
      (m n : M A) (w : World) {a : A} {v : World}
      → if_missing m n w ≡ ok a v
      → (m w ≡ ok a v) ⊎ ((x : World) × (m w ≡ err ent_not_found x) × (n x ≡ ok a v))
  if_missing_ok m n w h = missing_ok n (m w) h

module _ {A B : Type 0} where
  -- An update and then a value misses only where the update does.
  then_pure_err :
      (m : M A) (b : B) (w : World) {v : World} {e : Error}
      → (m >>= λ _. pure b) w ≡ err e v
      → m w ≡ err e v
  then_pure_err m b w h = elim (bind_err m _ w h) [ inl e ↦ e | inr (_, _, _, last) ↦ cc ]

abbrev pub is_current : String → LoginSession → Bool
is_current id s = s.id == id && is_none s.revoked_time

abbrev revoking : String → ℕ → M LoginSession
revoking id t = update_one login_sessions (is_current id) (λ s. record s { revoked_time = some t })

not_current :
    (id : String) (s : LoginSession)
    → is_current id s ≡ false
    → s.id ≡ id
    → is_some s.revoked_time ≡ true
not_current id s h e = ground (arith, eq_iff s.id id)

ended :
    (id : String) (t : ℕ) (w : World) {v : World} {r : LoginSession}
    → revoking id t w ≡ ok r v
    → IsEnded id v.db
ended id t w h =
    let (_, _, _, result) = update_one_ok login_sessions (is_current id) _ w h in
    rw result (
      All-written (λ (s : LoginSession). s.id ≡ id → is_some s.revoked_time ≡ true) (is_current id)
        _ w.db.login_sessions (λ s _ _. refl) (λ s off. not_current id s off))

missed :
    (id : String) (t : ℕ) (w : World) {v : World}
    → revoking id t w ≡ err ent_not_found v
    → IsEnded id v.db
missed id t w h =
    let (nothing, same) = update_one_missed login_sessions (is_current id) _ w h in
    rw same (
      All-map (λ s. is_current id s ≡ false) _ w.db.login_sessions (λ s off. not_current id s off)
        (select-nil-All (is_current id) w.db.login_sessions nothing))

revoke_now-Gains :
    (id : String) (t : ℕ)
    → Gains Anything (IsEnded id) (if_missing (revoking id t >>= λ _. pure tt) (pure tt))
revoke_now-Gains id t = record {
  at = λ w _ h. elim (if_missing_ok (revoking id t >>= λ _. pure tt) (pure tt) w h) [
    | inl updated ↦
        let (r, u, first, last) = bind_ok (revoking id t) _ w updated in
        ended_then id t w u first last
    | inr (x, gone, last) ↦ missed_then id t w x (then_pure_err (revoking id t) tt w gone) last
  ];
}
  where
    ended_then :
        (id : String) (t : ℕ) (w u : World) {r : LoginSession} {v : World} {x : Unit {0}}
        → revoking id t w ≡ ok r u
        → pure tt u ≡ ok x v
        → IsEnded id v.db
    ended_then id t w u {r} {v} first last =
        subst (λ (z : World). IsEnded id z.db) (same_world last) (ended id t w first)
      where
        same_world : {a b : World} {x : Unit {0}} → ok tt a ≡ ok x b → a ≡ b
        same_world e = cc

    missed_then :
        (id : String) (t : ℕ) (w u : World) {v : World} {x : Unit {0}}
        → revoking id t w ≡ err ent_not_found u
        → pure tt u ≡ ok x v
        → IsEnded id v.db
    missed_then id t w u first last =
        subst (λ (z : World). IsEnded id z.db) (same_world last) (missed id t w first)
      where
        same_world : {a b : World} {x : Unit {0}} → ok tt a ≡ ok x b → a ≡ b
        same_world e = cc

-- Revoking a login session leaves every session of the identifier revoked.
pub revoke_session-Gains : (id : String) (t : ℕ) → Gains Anything (IsEnded id) (revoke_session id t)
unfolding revoke_session
revoke_session-Gains id given =
    Gains-later _ _ (Keeps-time_or_now given)
      (λ t _ _ _. Gains-map_error _ _ (revoke_now-Gains id t))

joined_ok :
    (n : M (Unit {0})) (o : Outcome (Unit {0})) {v : World} {u : Unit {0}}
    → Usecase.join_rest n o ≡ ok u v
    → (x : World) × (o ≡ ok tt x) × (n x ≡ ok u v)
joined_ok n (ok tt w) h = (w, refl, h)
joined_ok n (err e w) h = absurd (never (n w) h)
  where
    never :
        {v : World} {u : Unit {0}} (o : Outcome (Unit {0}))
        → (elim o as (λ _. Outcome (Unit {0})) [ ok x w' ↦ err e w' | err e' w' ↦ err e w' ])
          ≡ ok u v
        → ⊥
    never (ok x w') q = cc
    never (err e' w') q = cc

-- Both calls of a join that returned have returned.
pub join_ok :
    (m n : M (Unit {0})) (w : World) {v : World} {u : Unit {0}}
    → join m n w ≡ ok u v
    → (x : World) × (m w ≡ ok tt x) × (n x ≡ ok u v)
unfolding join
join_ok m n w h = joined_ok n (m w) h

revoke_ids-IsEnded : (id : String) (is : List String) (t : ℕ) → Keeps (IsEnded id) (revoke_ids is t)
unfolding revoke_ids
revoke_ids-IsEnded id [] t = Keeps-pure _
revoke_ids-IsEnded id (i ∷ is) t = search keeps_rules depth 10

revoke_for-IsEnded : (id s : String) (t : ℕ) → Keeps (IsEnded id) (revoke_for_login_session s t)
unfolding revoke_for_login_session revoke_token_sessions
revoke_for-IsEnded id s t = search (keeps_rules, Keeps-time_or_now, revoke_ids-IsEnded) depth 12
