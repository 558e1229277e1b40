-- ===== src/Iam/Account/Creation.antt =====
-- The creation of a user: all four rows or none.
use servora_platform.Common.{
  ℕ, String, ◌≡◌, refl, sym, ap, ◌∙◌, subst, false, [], ◌∷◌, ◌++◌, Option, none, any,
}
use servora_platform.Iam.Schema.{Db, User, LoginIdentifier, Authenticator, PasswordAuthenticator}
use servora_platform.Iam.Schema.Tables.{Table, users, identifiers, authenticators, passwords}
use servora_platform.Iam.Store.{World, Error, ok, err, M, map_error, now, new_id, insert}
use servora_platform.Iam.Store.Keeps.{Keeps-new_id, Keeps-now}
use servora_platform.Iam.Store.Laws.{bind_ok, map_error_ok, insert_ok, insert_value, in_tx_ok}
use servora_platform.Iam.Store.Clean.{FailsClean, clean-bind, clean-in_tx}
use servora_platform.Iam.Login.Repo.{translate_ent_error}
use servora_platform.Iam.Account.Users.{
  Draft, or_else, empty_profile, profile_of, user_of, insert_aggregate, create_user_aggregate,
}
use servora_platform.Iam.Account.Reads.{reads_ok}

creation-FailsClean :
    (draft : Draft) (password_hash canonical status : String) (verified_time : Option ℕ) (t : ℕ)
    → FailsClean (create_user_aggregate draft password_hash canonical status verified_time t)
unfolding create_user_aggregate
creation-FailsClean draft password_hash canonical status verified_time t =
    clean-bind _ _ (λ d. Keeps-new_id)
      λ i.
        clean-bind _ _ (λ d. Keeps-new_id)
          λ a.
            clean-bind _ _ (λ d. Keeps-new_id)
              λ p. clean-bind _ _ (λ d. Keeps-new_id) λ e. clean-in_tx _

-- The creation of a user that fails leaves the database as it was.
pub create_user_aggregate-err :
    (draft : Draft) (password_hash canonical status : String) (verified_time : Option ℕ) (t : ℕ)
    (w v : World) (e : Error)
    → create_user_aggregate draft password_hash canonical status verified_time t w ≡ err e v
    → v.db ≡ w.db
create_user_aggregate-err draft password_hash canonical status verified_time t w v e =
    (creation-FailsClean draft password_hash canonical status verified_time t).at w

-- The four rows of a user, added to a database where none of them clashed with a row of its table: a
-- user with its profile and a first etag, its email as it was given and as it is compared, a password
-- factor in use, and its hash.
pub record IsCreated (draft : Draft) (password_hash canonical status : String)
    (verified_time : Option ℕ) (t : ℕ) (d d' : Db) : Type 0 where
  pub user : User
  pub identifier : LoginIdentifier
  pub factor : Authenticator
  pub password : PasswordAuthenticator
  pub its_id : user.id ≡ draft.user_id
  pub its_status : user.status ≡ status
  pub its_profile : profile_of user ≡ or_else draft.profile empty_profile
  pub its_time : user.create_time ≡ t
  pub its_identifier : identifier.user_id ≡ draft.user_id
  pub its_type : identifier.type ≡ "email"
  pub its_email : identifier.canonical_value ≡ canonical
  pub its_display : identifier.display_value ≡ draft.email
  pub its_verification : identifier.verified_time ≡ verified_time
  pub its_factor : factor.user_id ≡ draft.user_id
  pub its_kind : factor.type ≡ "password"
  pub its_state : factor.state ≡ "active"
  pub in_use : factor.revoked_time ≡ none
  pub its_password : password.authenticator_id ≡ factor.id
  pub its_hash : password.password_hash ≡ password_hash
  pub new_user : any (users.clash user) d.users ≡ false
  pub new_email : any (identifiers.clash identifier) d.identifiers ≡ false
  pub new_factor : any (authenticators.clash factor) d.authenticators ≡ false
  pub new_password : any (passwords.clash password) d.passwords ≡ false
  pub result : d' ≡ record d {
    users = d.users ++ user ∷ [];
    identifiers = d.identifiers ++ identifier ∷ [];
    authenticators = d.authenticators ++ factor ∷ [];
    passwords = d.passwords ++ password ∷ [];
  }

abbrev adding : {R : Type 0} → Table R → R → M R
adding t r = map_error translate_ent_error (insert t r)

-- A row that was added.
added :
    {R : Type 0} (t : Table R) (r : R) (w : World) {v : World} {x : R}
    → adding t r w ≡ ok x v
    → (x ≡ r) × (any (t.clash r) (t.get w.db) ≡ false) × (v.db ≡ t.put w.db (t.get w.db ++ r ∷ []))
added t r w e =
    let inserted = map_error_ok translate_ent_error (insert t r) w e in
    let (_, fresh, result) = insert_ok t r w inserted in
    (insert_value t r w inserted, fresh, result)

abbrev identifier_of : String → String → String → String → Option ℕ → LoginIdentifier
identifier_of id user_id canonical display verified_time = record {
  id = id;
  user_id = user_id;
  type = "email";
  canonical_value = canonical;
  display_value = display;
  verified_time = verified_time;
}

abbrev factor_of : String → String → ℕ → Authenticator
factor_of id user_id t = record {
  id = id;
  user_id = user_id;
  type = "password";
  state = "active";
  display_name = none;
  verified_time = none;
  last_used_time = none;
  revoked_time = none;
  create_time = t;
  update_time = t;
}

abbrev password_of : String → String → String → ℕ → PasswordAuthenticator
password_of id factor_id password_hash t = record {
  id = id;
  authenticator_id = factor_id;
  password_hash = password_hash;
  changed_time = t;
}

insert_aggregate_ok :
    (draft : Draft) (password_hash canonical status : String) (verified_time : Option ℕ) (t : ℕ)
    (i a p e : String) (w : World) {v : World} {u : Unit {0}}
    → insert_aggregate draft password_hash canonical status verified_time t i a p e w ≡ ok u v
    → IsCreated draft password_hash canonical status verified_time t w.db v.db
unfolding insert_aggregate
insert_aggregate_ok draft password_hash canonical status verified_time t i a p e w h =
    let row = user_of draft.user_id status e (or_else draft.profile empty_profile) t in
    let (entity, x1, add_user, h1) = bind_ok (adding users row) _ w h in
    let (same_entity, new_user, db1) = added users row w add_user in
    let identifier = identifier_of i entity.id canonical draft.email verified_time in
    let (_, x2, add_identifier, h2) = bind_ok (adding identifiers identifier) _ x1 h1 in
    let (_, new_email, db2) = added identifiers identifier x1 add_identifier in
    let (created, x3, read, h3) = bind_ok now _ x2 h2 in
    let db3 = reads_ok now x2 (λ d. Keeps-now) read in
    let factor = factor_of a entity.id created in
    let (_, x4, add_factor, h4) = bind_ok (adding authenticators factor) _ x3 h3 in
    let (_, new_factor, db4) = added authenticators factor x3 add_factor in
    let (changed, x5, read', h5) = bind_ok now _ x4 h4 in
    let db5 = reads_ok now x4 (λ d. Keeps-now) read' in
    let password = password_of p a password_hash changed in
    let (_, x6, add_password, last) = bind_ok (adding passwords password) _ x5 h5 in
    let (_, new_password, db6) = added passwords password x5 add_password in
    let at2 : x3.db
        ≡ identifiers.put (users.put w.db (w.db.users ++ row ∷ []))
            (w.db.identifiers ++ identifier ∷ []) =
      db3 ∙ db2 ∙ ap (λ (d : Db). identifiers.put d (d.identifiers ++ identifier ∷ [])) db1 in
    let at3 : x5.db
        ≡ authenticators.put
            (identifiers.put (users.put w.db (w.db.users ++ row ∷ []))
              (w.db.identifiers ++ identifier ∷ []))
            (w.db.authenticators ++ factor ∷ []) =
      db5 ∙ db4 ∙ ap (λ (d : Db). authenticators.put d (d.authenticators ++ factor ∷ [])) at2 in
    let its_id : entity.id ≡ draft.user_id = ap (λ (r : User). r.id) same_entity in
    record {
      user = row;
      identifier = identifier;
      factor = factor;
      password = password;
      its_id = refl;
      its_status = refl;
      its_profile = refl;
      its_time = refl;
      its_identifier = its_id;
      its_type = refl;
      its_email = refl;
      its_display = refl;
      its_verification = refl;
      its_factor = its_id;
      its_kind = refl;
      its_state = refl;
      in_use = refl;
      its_password = refl;
      its_hash = refl;
      new_user = new_user;
      new_email =
          subst (λ (d : Db). any (identifiers.clash identifier) d.identifiers ≡ false) db1
            new_email;
      new_factor =
          subst (λ (d : Db). any (authenticators.clash factor) d.authenticators ≡ false) at2
            new_factor;
      new_password =
          subst (λ (d : Db). any (passwords.clash password) d.passwords ≡ false) at3 new_password;
      result =
          same_world last
          ∙ db6
          ∙ ap (λ (d : Db). passwords.put d (d.passwords ++ password ∷ [])) at3;
    }
  where
    same_world : {a b : Unit {0}} {y z : World} → ok a y ≡ ok b z → z.db ≡ y.db
    same_world q = cc

-- The creation of a user that returned added four rows that belong together, none of which clashed with
-- a row of its table, and changed nothing else.
pub create_user_aggregate_ok :
    (draft : Draft) (password_hash canonical status : String) (verified_time : Option ℕ) (t : ℕ)
    (w v : World)
    → create_user_aggregate draft password_hash canonical status verified_time t w ≡ ok tt v
    → IsCreated draft password_hash canonical status verified_time t w.db v.db
unfolding create_user_aggregate
create_user_aggregate_ok draft password_hash canonical status verified_time t w v h =
    let (i, x1, draw1, h1) = bind_ok new_id _ w h in
    let (a, x2, draw2, h2) = bind_ok new_id _ x1 h1 in
    let (p, x3, draw3, h3) = bind_ok new_id _ x2 h2 in
    let (e, x4, draw4, h4) = bind_ok new_id _ x3 h3 in
    let same : x4.db ≡ w.db =
      reads_ok new_id x3 (λ d. Keeps-new_id) draw4
      ∙ reads_ok new_id x2 (λ d. Keeps-new_id) draw3
      ∙ reads_ok new_id x1 (λ d. Keeps-new_id) draw2
      ∙ reads_ok new_id w (λ d. Keeps-new_id) draw1 in
    let (start, finish, same_start, body, same_finish) =
      in_tx_ok (insert_aggregate draft password_hash canonical status verified_time t i a p e) x4
        h4 in
    subst (λ d. IsCreated draft password_hash canonical status verified_time t d v.db)
      (same_start ∙ same)
      (subst (IsCreated draft password_hash canonical status verified_time t start.db)
        (sym same_finish)
        (insert_aggregate_ok draft password_hash canonical status verified_time t i a p e start
          body))
