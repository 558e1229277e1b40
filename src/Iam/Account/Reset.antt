-- ===== src/Iam/Account/Reset.antt =====
-- What a confirmed reset of a password has done.
use servora_platform.Common.{
  ℕ, String, ◌==◌, ◌≡◌, ap, ◌∙◌, subst, true, List, [], ◌∷◌, Option, none, some, is_none, ltb,
  select, set_where,
}
use servora_platform.Iam.Schema.{Db, Authenticator, PasswordAuthenticator, PasswordResetToken}
use servora_platform.Iam.Store.{
  World, ok, M, map_error, when, invalid_token, invalid_password, now, new_secret,
}
use servora_platform.Iam.Store.Keeps.{Keeps, Keeps-when, Keeps-now}
use servora_platform.Iam.Store.Laws.{bind_ok, map_error_ok}
use servora_platform.Iam.Store.Gains.{Keeps-ok}
use servora_platform.Iam.Login.Usecase.{revoke_every_session}
use servora_platform.Iam.Login.Revocation.{HasNoLogin, HasNoToken, revoke_every_session_ok}
use servora_platform.Iam.Account.Services
use servora_platform.Iam.Account.Services.{Services, IsOutside, hash}
use servora_platform.Iam.Account.Tokens.{consume_and_replace_password}
use servora_platform.Iam.Account.Usecase.{account_token_error, confirm_password_reset}
use servora_platform.Iam.Account.Reads.{Keeps-hash, reads_ok}
use servora_platform.Iam.Account.Frame.{ends}
use servora_platform.Iam.Account.Recovery.{
  of_digest, is_password_of, set_password, consume_and_replace_password_ok,
}

-- The rows of passwords.
abbrev pub HasPasswords : List PasswordAuthenticator → Db → Type 0
HasPasswords ps d = d.passwords ≡ ps

module _ (s : Services) where
  -- A text that `password.Hash` gives for a plaintext, with some salt.
  abbrev pub IsHashOf : String → String → Type 0
  IsHashOf encoded plaintext = (salt : String) × (s.create_hash salt plaintext ≡ some encoded)

  hashed_ok :
      (o : Option String) (w : World) {v : World} {h : String}
      → Services.hashed s o w ≡ ok h v
      → o ≡ some h
  hashed_ok none w e = cc
  hashed_ok (some h) w e = cc

  pub hash_ok :
      (p : String) (w : World) {v : World} {h : String} → hash s p w ≡ ok h v → IsHashOf h p
  unfolding hash
  hash_ok p w e =
      let (salt, x, drawn, rest) =
        bind_ok new_secret (λ salt. Services.hashed s (s.create_hash salt p)) w e in
      (salt, hashed_ok (s.create_hash salt p) x rest)

  abbrev replacing : String → String → ℕ → M String
  replacing token encoded t =
      map_error account_token_error
        (consume_and_replace_password (s.hash_opaque_secret token) encoded t)

  -- The replacement within a reset that returned, from the database as it was.
  pub confirm_password_reset-replaces :
      (token new_password : String) (w : World) {v : World} {u : Unit {0}}
      → confirm_password_reset s token new_password w ≡ ok u v
      → (encoded : String) × (t : ℕ) × (x : World) × (y : World) × (user_id : String) × IsHashOf
          encoded new_password
        × (x.db ≡ w.db)
        × (consume_and_replace_password (s.hash_opaque_secret token) encoded t x ≡ ok user_id y)
        × (revoke_every_session user_id y ≡ ok u v)
  unfolding confirm_password_reset
  confirm_password_reset-replaces token new_password w e =
      let (_, a, given, e1) = bind_ok (when (token == "") invalid_token) _ w e in
      let same_a = reads_ok (when (token == "") invalid_token) w (λ d. Keeps-when _ _) given in
      let (encoded, b, made, e2) =
        bind_ok (map_error (λ _. invalid_password) (hash s new_password)) _ a e1 in
      let made' = map_error_ok (λ _. invalid_password) (hash s new_password) a made in
      let same_b =
        reads_ok (hash s new_password) a (λ d. Keeps-hash s new_password) made' ∙ same_a in
      let (t, x, read, e3) = bind_ok now _ b e2 in
      let same_x = reads_ok now b (λ d. Keeps-now) read ∙ same_b in
      let (user_id, y, replaced, last) = bind_ok (replacing token encoded t) _ x e3 in
      (
        encoded,
        t,
        x,
        y,
        user_id,
        hash_ok new_password a made',
        same_x,
        map_error_ok account_token_error
            (consume_and_replace_password (s.hash_opaque_secret token) encoded t) x replaced,
        last,
      )

  -- A reset of a password took a database to another.
  pub record IsReset (token new_password : String) (d d' : Db) : Type 0 where
    pub key : PasswordResetToken
    pub factor : Authenticator
    pub old : PasswordAuthenticator
    pub encoded : String
    pub t : ℕ
    pub sole : select (of_digest (s.hash_opaque_secret token)) d.reset_tokens ≡ key ∷ []
    pub fresh : is_none key.consumed_time ≡ true
    pub in_time : ltb t key.expires_time ≡ true
    pub its_factor : select (is_password_of key.user_id) d.authenticators ≡ factor ∷ []
    pub its_password : select (λ p. p.authenticator_id == factor.id) d.passwords ≡ old ∷ []
    pub hashes : IsHashOf encoded new_password
    pub replaced :
        d'.passwords ≡ set_where (λ p. p.id == old.id) (set_password encoded t) d.passwords
    pub no_login : HasNoLogin key.user_id d'
    pub no_token : HasNoToken key.user_id d'

  Keeps-passwords :
      (u : String) (ps : List PasswordAuthenticator)
      → Keeps (HasPasswords ps) (revoke_every_session u)
  Keeps-passwords u ps =
      ends
        (record {
          in_sessions = λ d rs p. p;
          in_token_sessions = λ d rs p. p;
          in_access_tokens = λ d rs p. p;
          in_refresh_tokens = λ d rs p. p;
        })
        u

  -- A reset that returned was given the one token of its digest, unused and in time; the active
  -- password of the token's user is replaced by a hash of the new one, and no session of the user is
  -- left unrevoked.
  pub confirm_password_reset_ok :
      (token new_password : String) (w v : World)
      → confirm_password_reset s token new_password w ≡ ok tt v
      → IsReset token new_password w.db v.db
  confirm_password_reset_ok token new_password w v e =
      let (encoded, given, x, y, user_id, made, start, replaced, ended) =
        confirm_password_reset-replaces token new_password w e in
      let (t, k, a, p, sole, fresh, good, whose, one_a, one_p, result) =
        consume_and_replace_password_ok (s.hash_opaque_secret token) encoded given x replaced in
      let (no_login, no_token) = revoke_every_session_ok user_id y ended in
      record {
        key = k;
        factor = a;
        old = p;
        encoded = encoded;
        t = t;
        sole =
            subst
              (λ (d : Db). select (of_digest (s.hash_opaque_secret token)) d.reset_tokens ≡ k ∷ [])
              start sole;
        fresh = fresh;
        in_time = good;
        its_factor =
            subst (λ (d : Db). select (is_password_of k.user_id) d.authenticators ≡ a ∷ []) start
              one_a;
        its_password =
            subst (λ (d : Db). select (λ p. p.authenticator_id == a.id) d.passwords ≡ p ∷ []) start
              one_p;
        hashes = made;
        replaced =
            Keeps-ok
              (Keeps-passwords user_id
                (set_where (λ q. q.id == p.id) (set_password encoded t) w.db.passwords))
              y
              (ap (λ (d : Db). d.passwords) result
                ∙ ap
                    (λ (d : Db). set_where (λ q. q.id == p.id) (set_password encoded t) d.passwords)
                    start)
              ended;
        no_login = subst (λ u. HasNoLogin u v.db) whose no_login;
        no_token = subst (λ u. HasNoToken u v.db) whose no_token;
      }
