-- ===== src/Iam/Account/Opening.antt =====
-- The session that a login opens.
use servora_platform.Common.{ℕ, ◌+◌, String, ◌==◌, ◌≡◌, sym, ap, ◌∙◌, [], ◌∷◌, ◌++◌, none}
use servora_platform.Iam.Schema.{Db, LoginSession}
use servora_platform.Iam.Schema.Tables.{login_sessions}
use servora_platform.Iam.Store.{
  World, Outcome, ok, map_error, when, unauthenticated, now, new_id, new_secret, insert,
}
use servora_platform.Iam.Store.Keeps.{Keeps-when, Keeps-now, Keeps-new_id, Keeps-new_secret}
use servora_platform.Iam.Store.Laws.{bind_ok, map_error_ok, insert_ok, insert_value}
use servora_platform.Iam.Login.Repo.{
  Session, translate_ent_error, time_or_now, to_session, login_session_idle_ttl,
  login_session_absolute_ttl, create_session,
}
use servora_platform.Iam.Login.Usecase.{create}
use servora_platform.Iam.Login.Ending.{Keeps-time_or_now}
use servora_platform.Iam.Account.Services.{Services}
use servora_platform.Iam.Account.Reads.{reads_ok}

-- The row of a session that begins at a time.
abbrev pub session_row : String → String → String → ℕ → LoginSession
session_row id user_id secret_hash t = record {
  id = id;
  user_id = user_id;
  secret_hash = secret_hash;
  create_time = t;
  last_seen_time = t;
  idle_expires_time = t + login_session_idle_ttl;
  absolute_expires_time = t + login_session_absolute_ttl;
  revoked_time = none;
}

create_session_ok :
    (user_id secret_hash : String) (given : ℕ) (w : World) {v : World} {session : Session}
    → create_session user_id secret_hash given w ≡ ok session v
    → (id : String) × (t : ℕ) × (session ≡ to_session (session_row id user_id secret_hash t))
      × (v.db
          ≡ login_sessions.put w.db
              (w.db.login_sessions ++ session_row id user_id secret_hash t ∷ []))
unfolding create_session
create_session_ok user_id secret_hash given w e =
    let (id, x, drawn, e1) = bind_ok new_id _ w e in
    let same_x = reads_ok new_id w (λ d. Keeps-new_id) drawn in
    let (t, y, read, e2) = bind_ok (time_or_now given) _ x e1 in
    let same_y = reads_ok (time_or_now given) x (λ d. Keeps-time_or_now given) read ∙ same_x in
    let (r, z, added, last) =
      bind_ok
        (map_error translate_ent_error
          (insert login_sessions (session_row id user_id secret_hash t)))
        _ y e2 in
    let inserted =
      map_error_ok translate_ent_error
        (insert login_sessions (session_row id user_id secret_hash t)) y added in
    let (_, _, result) =
      insert_ok login_sessions (session_row id user_id secret_hash t) y inserted in
    (
      id,
      t,
      same_value last
          ∙ ap to_session
              (insert_value login_sessions (session_row id user_id secret_hash t) y inserted),
      same_world last
          ∙ result
          ∙ ap
              (λ (d : Db).
                login_sessions.put d
                  (d.login_sessions ++ session_row id user_id secret_hash t ∷ []))
              same_y,
    )
  where
    same_world : {a b : Session} {y z : World} → ok a y ≡ ok b z → z.db ≡ y.db
    same_world q = cc

    same_value : {a b : Session} {y z : World} → ok a y ≡ ok b z → b ≡ a
    same_value q = cc

module _ (s : Services) where
  pub create_ok :
      (u : String) (w : World) {v : World} {session : Session} {secret : String}
      → create s.hash_opaque_secret u w ≡ ok (session, secret) v
      → (id : String) × (t : ℕ) × (session
          ≡ to_session (session_row id u (s.hash_opaque_secret secret) t))
        × (v.db
            ≡ login_sessions.put w.db
                (w.db.login_sessions ++ session_row id u (s.hash_opaque_secret secret) t ∷ []))
  unfolding create
  create_ok u w {v} {session} {secret} e =
      let (_, a, given, e1) = bind_ok (when (u == "") unauthenticated) _ w e in
      let same_a = reads_ok (when (u == "") unauthenticated) w (λ d. Keeps-when _ _) given in
      let (drawn, b, drew, e2) = bind_ok new_secret _ a e1 in
      let same_b = reads_ok new_secret a (λ d. Keeps-new_secret) drew ∙ same_a in
      let (t, c, read, e3) = bind_ok now _ b e2 in
      let same_c = reads_ok now b (λ d. Keeps-now) read ∙ same_b in
      let (made, x, created, last) =
        bind_ok (create_session u (s.hash_opaque_secret drawn) t) _ c e3 in
      let (id, t', named, result) = create_session_ok u (s.hash_opaque_secret drawn) t c created in
      let (same_made, same_secret, same_x) = parts last in
      (
        id,
        t',
        same_made
            ∙ named
            ∙ ap (λ z. to_session (session_row id u (s.hash_opaque_secret z) t')) (sym same_secret),
        same_x
            ∙ result
            ∙ ap
                (λ (d : Db).
                  login_sessions.put d
                    (d.login_sessions ++ session_row id u (s.hash_opaque_secret drawn) t' ∷ []))
                same_c
            ∙ ap
                (λ z.
                  login_sessions.put w.db
                    (w.db.login_sessions ++ session_row id u (s.hash_opaque_secret z) t' ∷ []))
                (sym same_secret),
      )
    where
      parts :
          {a b : Session} {x y : String} {p q : World}
          → ◌≡◌ {A = Outcome (Session × String)} (ok (a, x) p) (ok (b, y) q)
          → (b ≡ a) × (y ≡ x) × (q.db ≡ p.db)
      parts e = (cc, cc, cc)
