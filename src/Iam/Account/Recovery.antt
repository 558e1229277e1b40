-- ===== src/Iam/Account/Recovery.antt =====
-- The recovery of a password: what a reset that returned has done, and the single use of its token.
use servora_platform.Common.{
  ℕ, String, ◌==◌, ◌≡◌, refl, ap, ◌∙◌, subst, Bool, true, false, not, ◌&&◌, ◌||◌, [], ◌∷◌, Option,
  none, some, is_some, is_none, ltb, select, set_where, arith,
}
use servora_platform.Iam.Schema.{Db, Authenticator, PasswordAuthenticator, PasswordResetToken}
use servora_platform.Iam.Schema.Tables.{authenticators, passwords, reset_tokens}
use servora_platform.Iam.Store.{
  World, ok, M, map_error, when, missing_argument, mutation_miss, expired, only, update_one, in_tx,
}
use servora_platform.Iam.Store.Keeps.{Keeps-when}
use servora_platform.Iam.Store.Laws.{
  bind_ok, when_ok, map_error_ok, only_ok, update_one_ok, in_tx_ok,
}
use servora_platform.Iam.Login.Repo.{translate_ent_error, time_or_now}
use servora_platform.Iam.Login.Ending.{Keeps-time_or_now}
use servora_platform.Iam.Account.Users.{missed}
use servora_platform.Iam.Account.Tokens.{
  is_open_reset, reset_password, consume_and_replace_password,
}
use servora_platform.Iam.Account.Reads.{reads_ok}

abbrev pub of_digest : String → PasswordResetToken → Bool
of_digest h k = k.token_hash == h

abbrev pub use_up : ℕ → PasswordResetToken → PasswordResetToken
use_up t k = record k { consumed_time = some t }

abbrev finding : String → M PasswordResetToken
finding h = map_error translate_ent_error (only reset_tokens (of_digest h))

-- The active password of a user.
abbrev pub is_password_of : String → Authenticator → Bool
is_password_of u a =
    a.user_id == u && a.type == "password" && a.state == "active" && is_none a.revoked_time

abbrev pub set_password : String → ℕ → PasswordAuthenticator → PasswordAuthenticator
set_password h t p = record p { password_hash = h; changed_time = t }

-- The database after a reset: the password of one row is replaced, and the token used up.
abbrev pub after_reset : String → String → String → ℕ → Db → Db
after_reset password_id password_hash token_id t d =
    reset_tokens.put
      (passwords.put d
        (set_where (λ p. p.id == password_id) (set_password password_hash t) d.passwords))
      (set_where (is_open_reset token_id t) (use_up t) d.reset_tokens)

reset_password_ok :
    (k : PasswordResetToken) (password_hash : String) (t : ℕ) (w : World) {v : World} {u : Unit {0}}
    → reset_password k password_hash t w ≡ ok u v
    → (a : Authenticator) × (p : PasswordAuthenticator) × (select
          (is_password_of k.user_id)
          w.db.authenticators
        ≡ a ∷ [])
      × (select (λ x. x.authenticator_id == a.id) w.db.passwords ≡ p ∷ [])
      × (v.db ≡ after_reset p.id password_hash k.id t w.db)
unfolding reset_password
reset_password_ok k password_hash t w e =
    let (a, x, got_a, e1) =
      bind_ok (map_error translate_ent_error (only authenticators (is_password_of k.user_id))) _ w
        e in
    let (one_a, same_x) =
      only_ok authenticators (is_password_of k.user_id) w (
        map_error_ok translate_ent_error (only authenticators (is_password_of k.user_id)) w
          got_a) in
    let (p, y, got_p, e2) =
      bind_ok (map_error translate_ent_error (only passwords (λ p. p.authenticator_id == a.id))) _ x
        e1 in
    let (one_p, same_y) =
      only_ok passwords (λ p. p.authenticator_id == a.id) x
        (map_error_ok translate_ent_error (only passwords (λ p. p.authenticator_id == a.id)) x
          got_p) in
    let (_, z, wrote, e3) =
      bind_ok
        (map_error translate_ent_error
          (update_one passwords (λ q. q.id == p.id) (set_password password_hash t)))
        _ y e2 in
    let (_, _, _, result) =
      update_one_ok passwords (λ q. q.id == p.id) (set_password password_hash t) y
        (map_error_ok translate_ent_error
          (update_one passwords (λ q. q.id == p.id) (set_password password_hash t)) y wrote) in
    let (_, z', used, last) =
      bind_ok (map_error missed (update_one reset_tokens (is_open_reset k.id t) (use_up t))) _ z
        e3 in
    let (_, _, _, result') =
      update_one_ok reset_tokens (is_open_reset k.id t) (use_up t) z
        (map_error_ok missed (update_one reset_tokens (is_open_reset k.id t) (use_up t)) z used) in
    (
      a,
      p,
      one_a,
      subst (λ (d : Db). select (λ q. q.authenticator_id == a.id) d.passwords ≡ p ∷ []) same_x
          one_p,
      same_world last
          ∙ result'
          ∙ ap
              (λ (d : Db).
                reset_tokens.put d (set_where (is_open_reset k.id t) (use_up t) d.reset_tokens))
              (result
                ∙ ap
                    (λ (d : Db).
                      passwords.put d
                        (set_where (λ q. q.id == p.id) (set_password password_hash t) d.passwords))
                    (same_y ∙ same_x)),
    )
  where
    same_world : {a b : Unit {0}} {y z : World} → ok a y ≡ ok b z → z.db ≡ y.db
    same_world q = cc

-- What a reset that returned has done: the sole token of the digest was open, the active password of
-- its user is replaced, and the token used up.
pub consume_and_replace_password_ok :
    (h password_hash : String) (given : ℕ) (w : World) {v : World} {user_id : String}
    → consume_and_replace_password h password_hash given w ≡ ok user_id v
    → (t : ℕ) × (k : PasswordResetToken) × (a : Authenticator) × (p : PasswordAuthenticator)
      × (select (of_digest h) w.db.reset_tokens ≡ k ∷ [])
      × (is_none k.consumed_time ≡ true)
      × (ltb t k.expires_time ≡ true)
      × (user_id ≡ k.user_id)
      × (select (is_password_of k.user_id) w.db.authenticators ≡ a ∷ [])
      × (select (λ x. x.authenticator_id == a.id) w.db.passwords ≡ p ∷ [])
      × (v.db ≡ after_reset p.id password_hash k.id t w.db)
unfolding consume_and_replace_password
consume_and_replace_password_ok h password_hash given w e =
    let (_, x, given_both, e1) =
      bind_ok (when (h == "" || password_hash == "") missing_argument) _ w e in
    let same_x =
      reads_ok (when (h == "" || password_hash == "") missing_argument) w (λ d. Keeps-when _ _)
        given_both in
    let (t, y, read, e2) = bind_ok (time_or_now given) _ x e1 in
    let same_y = reads_ok (time_or_now given) x (λ d. Keeps-time_or_now given) read ∙ same_x in
    let (k, z, found, e3) = bind_ok (finding h) _ y e2 in
    let (sole, same) =
      only_ok reset_tokens (of_digest h) y
        (map_error_ok translate_ent_error (only reset_tokens (of_digest h)) y found) in
    let (_, p, unused, e4) = bind_ok (when (is_some k.consumed_time) mutation_miss) _ z e3 in
    let (fresh, same_p) = when_ok (is_some k.consumed_time) mutation_miss z unused in
    let (_, q, open_one, e5) = bind_ok (when (not (ltb t k.expires_time)) expired) _ p e4 in
    let (good, same_q) = when_ok (not (ltb t k.expires_time)) expired p open_one in
    let (_, r, committed, last) = bind_ok (in_tx (reset_password k password_hash t)) _ q e5 in
    let (start, finish, same_start, body, same_finish) =
      in_tx_ok (reset_password k password_hash t) q committed in
    let there : start.db ≡ w.db =
      same_start
      ∙ ap (λ (o : World). o.db) same_q
      ∙ ap (λ (o : World). o.db) same_p
      ∙ same
      ∙ same_y in
    let (a, pw, one_a, one_p, result) = reset_password_ok k password_hash t start body in
    (
      t,
      k,
      a,
      pw,
      subst (λ (d : Db). select (of_digest h) d.reset_tokens ≡ k ∷ []) same_y sole,
      unset k.consumed_time fresh,
      ground arith,
      same_value last,
      subst (λ (d : Db). select (is_password_of k.user_id) d.authenticators ≡ a ∷ []) there one_a,
      subst (λ (d : Db). select (λ o. o.authenticator_id == a.id) d.passwords ≡ pw ∷ []) there
          one_p,
      same_world last ∙ same_finish ∙ result ∙ ap (after_reset pw.id password_hash k.id t) there,
    )
  where
    unset : (o : Option ℕ) → is_some o ≡ false → is_none o ≡ true
    unset none q = refl
    unset (some n) q = cc

    same_world : {a b : String} {y z : World} → ok a y ≡ ok b z → z.db ≡ y.db
    same_world q = cc

    same_value : {a b : String} {y z : World} → ok a y ≡ ok b z → b ≡ a
    same_value q = cc
