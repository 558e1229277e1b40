-- ===== src/Iam/Account/Entry.antt =====
-- Who gets in: what a login that returned has checked and done.
use servora_platform.Common.{
  ℕ, String, ◌==◌, ◌≡◌, refl, sym, ap, ◌∙◌, subst, Bool, true, false, not, is_some, ◌||◌, [], ◌∷◌,
  ◌++◌, select, arith, if◌then◌else◌,
}
use servora_platform.Iam.Schema.{Db, LoginIdentifier, Authenticator, PasswordAuthenticator}
use servora_platform.Iam.Store.{
  World, Outcome, ok, pure, raise, map_error, when, invalid_credentials, empty_email,
}
use servora_platform.Iam.Store.Laws.{bind_ok, when_ok, map_error_ok}
use servora_platform.Iam.Login.Repo.{
  Session, UserResource, UserStatus, to_session, find_active_password,
}
use servora_platform.Iam.Login.Usecase.{create}
use servora_platform.Iam.Account.Services.{Services, normalize_email, compare}
use servora_platform.Iam.Account.Users.{find_by_email}
use servora_platform.Iam.Account.Usecase.{is_active}
use servora_platform.Iam.Account.Login.{gone_as_invalid, login_user, login}
use servora_platform.Iam.Account.Reads.{Keeps-find_by_email, Keeps-find_active_password, reads_ok}
use servora_platform.Iam.Account.Recovery.{is_password_of}
use servora_platform.Iam.Login.Lookup.{IsUser}
use servora_platform.Iam.Account.Found.{is_mail, find_by_email_ok, find_active_password_ok}
use servora_platform.Iam.Account.Opening.{session_row, create_ok}

-- A login took a database to another, and gave a secret.
pub record IsLogin (s : Services) (email plaintext_password secret : String) (user : UserResource)
    (session : Session) (d d' : Db) : Type 0 where
  pub identifier : LoginIdentifier
  pub factor : Authenticator
  pub password : PasswordAuthenticator
  pub id : String
  pub t : ℕ
  pub its_email :
      select (is_mail (s.fold_case (s.trim_space email))) d.identifiers ≡ identifier ∷ []
  pub its_user : IsUser identifier.user_id user d
  pub active : user.status ≡ UserStatus.active
  pub verified : user.email_verified ≡ true
  pub confirmed : is_some its_user.mail.verified_time ≡ true
  pub its_factor : select (is_password_of user.entity.id) d.authenticators ≡ factor ∷ []
  pub its_password : select (λ p. p.authenticator_id == factor.id) d.passwords ≡ password ∷ []
  pub agrees : compare s plaintext_password password.password_hash ≡ true
  pub its_session :
      session ≡ to_session (session_row id user.entity.id (s.hash_opaque_secret secret) t)
  pub stored :
      d'.login_sessions
      ≡ d.login_sessions ++ session_row id user.entity.id (s.hash_opaque_secret secret) t ∷ []

active_ok : (status : UserStatus) → is_active status ≡ true → status ≡ UserStatus.active
active_ok UserStatus.active e = refl
active_ok UserStatus.unspecified e = cc
active_ok UserStatus.disabled e = cc
active_ok UserStatus.pending_email_verification e = cc

module _ (s : Services) where
  normalize_email_ok :
      (email : String) (w : World) {v : World} {names : String × String}
      → normalize_email s email w ≡ ok names v
      → (names.0 ≡ s.fold_case (s.trim_space email)) × (v ≡ w)
  unfolding normalize_email
  normalize_email_ok email w e = by_emptiness (s.trim_space email == "") w e
    where
      by_emptiness :
          (b : Bool) (w : World) {v : World} {names : String × String}
          → ◌≡◌ {A = Outcome (String × String)}
              ((if b
                  then raise empty_email
                  else pure (s.fold_case (s.trim_space email), s.trim_space email))
                w)
              (ok names v)
          → (names.0 ≡ s.fold_case (s.trim_space email)) × (v ≡ w)
      by_emptiness true w e = cc
      by_emptiness false w e = (cc, cc)

  -- What a login has checked of the user found, and done for it.
  abbrev Enters : String → UserResource → Session → String → Db → Db → Type 0
  Enters plaintext_password user session secret d d' =
      (user.status ≡ UserStatus.active)
      × (user.email_verified ≡ true)
      × (a : Authenticator) × (p : PasswordAuthenticator) × (id : String) × (t : ℕ) × (select
            (is_password_of user.entity.id) d.authenticators
          ≡ a ∷ [])
      × (select (λ p. p.authenticator_id == a.id) d.passwords ≡ p ∷ [])
      × (compare s plaintext_password p.password_hash ≡ true)
      × (session ≡ to_session (session_row id user.entity.id (s.hash_opaque_secret secret) t))
      × (d'.login_sessions
          ≡ d.login_sessions ++ session_row id user.entity.id (s.hash_opaque_secret secret) t ∷ [])

  login_user_ok :
      (user : UserResource) (plaintext_password : String) (w : World) {v : World}
      {found : UserResource} {session : Session} {secret : String}
      → login_user s user plaintext_password w ≡ ok (found, session, secret) v
      → (found ≡ user) × Enters plaintext_password user session secret w.db v.db
  unfolding login_user
  login_user_ok user plaintext_password w {v} {found} {session} {secret} e =
      let (_, a, allowed, e1) =
        bind_ok (when (not (is_active user.status) || not user.email_verified) invalid_credentials)
          _ w e in
      let (can, same_a) =
        when_ok (not (is_active user.status) || not user.email_verified) invalid_credentials w
          allowed in
      let (c, b, read, e2) =
        bind_ok (map_error gone_as_invalid (find_active_password user.entity.id)) _ a e1 in
      let got = map_error_ok gone_as_invalid (find_active_password user.entity.id) a read in
      let (factor, pw, one_a, one_p, hashed) = find_active_password_ok user.entity.id a got in
      let same_b =
        reads_ok (find_active_password user.entity.id) a
          (λ d. Keeps-find_active_password user.entity.id) got in
      let (_, x, matched, e3) =
        bind_ok (when (not (compare s plaintext_password c.password_hash)) invalid_credentials) _ b
          e2 in
      let (good, same_x) =
        when_ok (not (compare s plaintext_password c.password_hash)) invalid_credentials b
          matched in
      let ((made, drawn), y, created, last) =
        bind_ok (create s.hash_opaque_secret user.entity.id) _ x e3 in
      let (id, t, named, result) = create_ok s user.entity.id x created in
      let (same_user, same_session, same_secret, same_y) = parts last in
      let start : a.db ≡ w.db = ap (λ (o : World). o.db) same_a in
      let before : x.db ≡ w.db = ap (λ (o : World). o.db) same_x ∙ same_b ∙ start in
      (
        same_user,
        (
          active_ok user.status (ground arith),
          ground arith,
          factor,
          pw,
          id,
          t,
          subst (λ (d : Db). select (is_password_of user.entity.id) d.authenticators ≡ factor ∷ [])
              start one_a,
          subst (λ (d : Db). select (λ p. p.authenticator_id == factor.id) d.passwords ≡ pw ∷ [])
              start one_p,
          subst (λ h. compare s plaintext_password h ≡ true) hashed (ground arith),
          same_session
              ∙ named
              ∙ ap (λ z. to_session (session_row id user.entity.id (s.hash_opaque_secret z) t))
                  (sym same_secret),
          ap (λ (d : Db). d.login_sessions) (same_y ∙ result)
              ∙ ap
                  (λ (d : Db).
                    d.login_sessions
                    ++ session_row id user.entity.id (s.hash_opaque_secret drawn) t ∷ [])
                  before
              ∙ ap
                  (λ z.
                    w.db.login_sessions
                    ++ session_row id user.entity.id (s.hash_opaque_secret z) t ∷ [])
                  (sym same_secret),
        ),
      )
    where
      parts :
          {a b : UserResource} {c d : Session} {x y : String} {p q : World}
          → ◌≡◌ {A = Outcome (UserResource × Session × String)} (ok (a, c, x) p) (ok (b, d, y) q)
          → (b ≡ a) × (d ≡ c) × (y ≡ x) × (q.db ≡ p.db)
      parts e = (cc, cc, cc, cc)

  -- A login that returned was given an email that stands in one identifier, whose user is active and
  -- has a last email identifier with a time of verification, and the plaintext of that user's active
  -- password; it stored a session of that user under the digest of the secret that it gave.
  pub login_ok :
      (email plaintext_password secret : String) (user : UserResource) (session : Session)
      (w v : World)
      → login s email plaintext_password w ≡ ok (user, session, secret) v
      → IsLogin s email plaintext_password secret user session w.db v.db
  unfolding login
  login_ok email plaintext_password secret user session w v e =
      let (names, a, split, e1) =
        bind_ok (map_error (λ _. invalid_credentials) (normalize_email s email)) _ w e in
      let (canonical, same_a) =
        normalize_email_ok email w
          (map_error_ok (λ _. invalid_credentials) (normalize_email s email) w split) in
      let (found, b, read, last) =
        bind_ok (map_error gone_as_invalid (find_by_email names.0)) _ a e1 in
      let got = map_error_ok gone_as_invalid (find_by_email names.0) a read in
      let (i, one_i, is_user) = find_by_email_ok names.0 a got in
      let start : a.db ≡ w.db = ap (λ (o : World). o.db) same_a in
      let before : b.db ≡ w.db =
        reads_ok (find_by_email names.0) a (λ d. Keeps-find_by_email names.0) got ∙ start in
      let (
        same_user,
        (active, verified, factor, pw, id, t, one_a, one_p, agrees, its_session, stored),
      ) =
        login_user_ok found plaintext_password b last in
      let its_user : IsUser i.user_id found w.db = subst (IsUser i.user_id found) start is_user in
      subst (λ (u : UserResource). IsLogin s email plaintext_password secret u session w.db v.db)
        (sym same_user)
        (record {
          identifier = i;
          factor = factor;
          password = pw;
          id = id;
          t = t;
          its_email =
              subst (λ c. select (is_mail c) w.db.identifiers ≡ i ∷ []) canonical
                (subst (λ (d : Db). select (is_mail names.0) d.identifiers ≡ i ∷ []) start one_i);
          its_user = its_user;
          active = active;
          verified = verified;
          confirmed = sym its_user.verified ∙ verified;
          its_factor =
              subst
                (λ (d : Db). select (is_password_of found.entity.id) d.authenticators ≡ factor ∷ [])
                before one_a;
          its_password =
              subst
                (λ (d : Db). select (λ p. p.authenticator_id == factor.id) d.passwords ≡ pw ∷ [])
                before one_p;
          agrees = agrees;
          its_session = its_session;
          stored =
              stored
              ∙ ap
                  (λ (d : Db).
                    d.login_sessions
                    ++ session_row id found.entity.id (s.hash_opaque_secret secret) t ∷ [])
                  before;
        })
