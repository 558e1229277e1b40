-- ===== src/Iam/Login/Revocation.antt =====
-- Ending every session of a user, which a reset of the password and the disabling of the user do.
use servora_platform.Common.{
  ℕ, String, ◌==◌, eq_iff, ◌≡◌, refl, sym, ◌∙◌, subst, Bool, true, false, ◌&&◌, List, [], ◌∷◌, map,
  some, is_some, is_none, select, All, All-written, All-map, All-updated, arith, Bool-cases, inl,
  inr,
}
use servora_platform.Iam.Schema.{Db, LoginSession, TokenSession}
use servora_platform.Iam.Schema.Tables.{login_sessions, token_sessions}
use servora_platform.Iam.Store.{World, ok, ◌>>=◌, when, unauthenticated, now, query, update}
use servora_platform.Iam.Store.Keeps.{Keeps, Keeps-pure, keeps_rules}
use servora_platform.Iam.Store.Laws.{bind_ok, when_ok, query_ok, update_ok}
use servora_platform.Iam.Store.Gains.{
  Gains, Gains-then, Gains-later, Gains-map_error, Gains-in_tx, Keeps-ok,
}
use servora_platform.Iam.Oidc.Requests.{contains}
use servora_platform.Iam.Login.Repo.{
  revoke_all_sessions, revoke_ids, revoke_token_sessions, revoke_all_for_user,
}
use servora_platform.Iam.Login.Usecase.{revoke_every_session}
use servora_platform.Iam.Login.Ending.{Keeps-time_or_now, join_ok}

-- Every login session of the user is revoked.
abbrev pub HasNoLogin : String → Db → Type 0
HasNoLogin u d = All (λ s. s.user_id ≡ u → is_some s.revoked_time ≡ true) d.login_sessions

-- Every token session of the user is revoked.
abbrev pub HasNoToken : String → Db → Type 0
HasNoToken u d = All (λ s. s.user_id ≡ u → is_some s.revoked_time ≡ true) d.token_sessions

abbrev Anything : Db → Type 0
Anything d = Unit {0}

abbrev of_user : String → LoginSession → Bool
of_user u s = s.user_id == u && is_none s.revoked_time

abbrev end_at : ℕ → LoginSession → LoginSession
end_at t s = record s { revoked_time = some t }

off_user :
    (u : String) (s : LoginSession)
    → of_user u s ≡ false
    → s.user_id ≡ u
    → is_some s.revoked_time ≡ true
off_user u s h e = ground (arith, eq_iff s.user_id u)

revoke_all_sessions-Gains :
    (u : String) (given : ℕ) → Gains Anything (HasNoLogin u) (revoke_all_sessions u given)
unfolding revoke_all_sessions
revoke_all_sessions-Gains u given =
    Gains-later _ _ (Keeps-time_or_now given)
      λ t _ _ _. Gains-then _ _ (Gains-map_error _ _ (written t)) (λ _. Keeps-pure _)
  where
    written : (t : ℕ) → Gains Anything (HasNoLogin u) (update login_sessions (of_user u) (end_at t))
    written t = record {
      at = λ w _ h.
          subst (HasNoLogin u) (sym (update_ok login_sessions (of_user u) (end_at t) w h).0) (
            All-written (λ (s : LoginSession). s.user_id ≡ u → is_some s.revoked_time ≡ true)
              (of_user u) (end_at t) w.db.login_sessions (λ s _ _. refl)
              (λ s off. off_user u s off));
    }

revoke_ids-HasNoLogin :
    (u : String) (is : List String) (t : ℕ) → Keeps (HasNoLogin u) (revoke_ids is t)
unfolding revoke_ids
revoke_ids-HasNoLogin u [] t = Keeps-pure _
revoke_ids-HasNoLogin u (i ∷ is) t = search keeps_rules depth 12

revoke_all_for_user-HasNoLogin :
    (u x : String) (t : ℕ) → Keeps (HasNoLogin u) (revoke_all_for_user x t)
unfolding revoke_all_for_user revoke_token_sessions
revoke_all_for_user-HasNoLogin u x t =
    search (keeps_rules, Keeps-time_or_now, revoke_ids-HasNoLogin) depth 12

-- The identifiers of the rows found hold the identifier of each.
found_ids :
    (p : TokenSession → Bool) (xs : List TokenSession)
    → All (λ s. p s ≡ true → contains (map (λ x. x.id) (select p xs)) s.id ≡ true) xs
found_ids p [] = tt
found_ids p (x ∷ xs) = elim (Bool-cases (p x)) [
  | inl hit ↦ rw hit (
    (λ _. ground (arith, eq_iff x.id x.id)),
    All-map
        (λ (s : TokenSession). p s ≡ true → contains (map (λ x. x.id) (select p xs)) s.id ≡ true) _
        xs (λ s found on. ground (arith, found on)) (found_ids p xs),
  )
  | inr off ↦ (
    λ on. absurd (clash (sym off ∙ on)),
    All-map
        (λ (s : TokenSession). p s ≡ true → contains (map (λ x. x.id) (select p xs)) s.id ≡ true) _
        xs (λ s found on. rw off (found on)) (found_ids p xs),
  )
]
  where
    clash : false ≡ true → ⊥
    clash q = cc

-- The token sessions of the user are among those of the identifiers.
abbrev Among : String → List String → Db → Type 0
Among u is d = All (λ s. s.user_id ≡ u → contains is s.id ≡ true) d.token_sessions

abbrev is_listed : List String → TokenSession → Bool
is_listed is s = contains is s.id && is_none s.revoked_time

abbrev revoke_at : ℕ → TokenSession → TokenSession
revoke_at t s = record s { revoked_time = some t }

revoke_ids-Gains :
    (u : String) (is : List String) (t : ℕ) → Gains (Among u is) (HasNoToken u) (revoke_ids is t)
unfolding revoke_ids
revoke_ids-Gains u [] t = record {
  at = λ w h e. subst (HasNoToken u) (same_db e) (
      All-map (λ (s : TokenSession). s.user_id ≡ u → contains [] s.id ≡ true) _ w.db.token_sessions
        (λ s none_of mine. absurd (clash (none_of mine))) h);
}
  where
    clash : false ≡ true → ⊥
    clash q = cc

    same_db : {a b : Unit {0}} {y z : World} → ok a y ≡ ok b z → y.db ≡ z.db
    same_db q = cc
revoke_ids-Gains u (i ∷ is) t =
    Gains-then (update token_sessions (is_listed (i ∷ is)) (revoke_at t)) _ revoked
      (λ _. search keeps_rules depth 10)
  where
    missed_one :
        (s : TokenSession)
        → is_listed (i ∷ is) s ≡ false
        → (s.user_id ≡ u → contains (i ∷ is) s.id ≡ true)
        → s.user_id ≡ u
        → is_some s.revoked_time ≡ true
    missed_one s off listed mine = ground (arith, listed mine)

    revoked :
        Gains
          (Among u (i ∷ is))
          (HasNoToken u)
          (update token_sessions (is_listed (i ∷ is)) (revoke_at t))
    revoked = record {
      at = λ w h e.
          subst (HasNoToken u)
            (sym (update_ok token_sessions (is_listed (i ∷ is)) (revoke_at t) w e).0)
            (All-updated (λ (s : TokenSession). s.user_id ≡ u → contains (i ∷ is) s.id ≡ true)
              (λ (s : TokenSession). s.user_id ≡ u → is_some s.revoked_time ≡ true)
              (is_listed (i ∷ is)) (revoke_at t) w.db.token_sessions (λ s _ _ _. refl) missed_one
              h);
    }

abbrev has_user : String → TokenSession → Bool
has_user u s = s.user_id == u

revoke_found-Gains :
    (u : String) (t : ℕ)
    → Gains Anything
        (HasNoToken u)
        (query token_sessions (has_user u) >>= λ found. revoke_ids (map (λ s. s.id) found) t)
revoke_found-Gains u t = record {
  at = λ w _ e.
      let (found, x, read, rest) =
        bind_ok (query token_sessions (has_user u)) (λ found. revoke_ids (map (λ s. s.id) found) t)
          w e in
      let (rows, same) = query_ok token_sessions (has_user u) w read in
      (revoke_ids-Gains u (map (λ s. s.id) found) t).at x
        (subst
          (λ (ss : List TokenSession).
            All (λ s. s.user_id ≡ u → contains (map (λ s. s.id) ss) s.id ≡ true)
              x.db.token_sessions)
          (sym rows)
          (subst
            (λ (d : Db).
              All
                (λ s.
                  s.user_id ≡ u
                  → contains (map (λ s. s.id) (select (has_user u) w.db.token_sessions)) s.id
                    ≡ true)
                d.token_sessions)
            (sym same)
            (All-map _ _ w.db.token_sessions (λ s listed mine. listed ((eq_iff s.user_id u).1 mine))
              (found_ids (has_user u) w.db.token_sessions))))
        rest;
}

revoke_all_for_user-Gains :
    (u : String) (given : ℕ)
    → (u == "") ≡ false
    → Gains Anything (HasNoToken u) (revoke_all_for_user u given)
unfolding revoke_all_for_user revoke_token_sessions
revoke_all_for_user-Gains u given there = rw there (
    Gains-later _ _ (Keeps-time_or_now given)
      λ t _ _ _. Gains-in_tx _ (Gains-map_error _ _ (revoke_found-Gains u t)))

-- Ending the sessions of a user leaves none of them, neither a login session nor a token session.
pub revoke_every_session_ok :
    (u : String) (w : World) {v : World} {x : Unit {0}}
    → revoke_every_session u w ≡ ok x v
    → HasNoLogin u v.db × HasNoToken u v.db
unfolding revoke_every_session
revoke_every_session_ok u w e =
    let (_, a, given, e1) = bind_ok (when (u == "") unauthenticated) _ w e in
    let (t, b, read, e2) = bind_ok now _ a e1 in
    let (c, first, second) = join_ok (revoke_all_sessions u t) (revoke_all_for_user u t) b e2 in
    (
      Keeps-ok (revoke_all_for_user-HasNoLogin u u t) c
          ((revoke_all_sessions-Gains u t).at b tt first) second,
      (revoke_all_for_user-Gains u t (when_ok (u == "") unauthenticated w given).0).at c tt second,
    )
