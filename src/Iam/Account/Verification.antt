-- ===== src/Iam/Account/Verification.antt =====
-- The single use of a token that verifies an email.
use servora_platform.Common.{
  ℕ, String, ◌==◌, eq_iff, ◌≡◌, ◌≢◌, refl, sym, ap, ◌∙◌, subst, Bool, true, false, not, List, [],
  ◌∷◌, ◌++◌, Option, none, some, is_some, is_none, ltb, any, select, set_where, arith,
}
use servora_platform.Iam.Schema.{Db, EmailVerificationToken}
use servora_platform.Iam.Schema.Tables.{verification_tokens}
use servora_platform.Iam.Store.{
  World, ok, M, ◌>>=◌, ◌>>◌, map_error, when, missing_argument, mutation_miss, expired,
  invalid_token, now, only, update_one,
}
use servora_platform.Iam.Store.Keeps.{Keeps, Keeps-when, Keeps-now}
use servora_platform.Iam.Store.Laws.{bind_ok, when_ok, map_error_ok, only_ok, update_one_ok}
use servora_platform.Iam.Store.Gains.{Keeps-ok}
use servora_platform.Iam.Login.Repo.{UserResource, translate_ent_error, time_or_now, get_user}
use servora_platform.Iam.Login.Ending.{Keeps-time_or_now}
use servora_platform.Iam.Account.Services.{Services, IsOutside}
use servora_platform.Iam.Account.Users.{missed, activate_email}
use servora_platform.Iam.Account.Tokens.{
  is_open_verification, create_verification_token, consume_verification_token, reset_password,
  create_reset_token, consume_and_replace_password,
}
use servora_platform.Iam.Account.Usecase.{account_token_error, verify_email}
use servora_platform.Iam.Account.Calls.{Call, run}
use servora_platform.Iam.Account.Reads.{reads_ok, account_rules}
use servora_platform.Iam.Account.Frame.{Ignores, Writes-Ignores, Moves-Ignores}
use servora_platform.Iam.Account.Steps.{Handles, Keeps-run}
use servora_platform.Iam.Account.Spent.{
  Spent, Spent-append, Spent-set_where, spends, sole-Spent, selected_hit,
}

-- The tokens of verification of the digest are used.
abbrev pub IsVerified : String → Db → Type 0
IsVerified h d = Spent (λ k. k.token_hash) (λ k. k.consumed_time) h d.verification_tokens

abbrev of_digest : String → EmailVerificationToken → Bool
of_digest h k = k.token_hash == h

abbrev use_up : ℕ → EmailVerificationToken → EmailVerificationToken
use_up t k = record k { consumed_time = some t }

abbrev finding : String → M EmailVerificationToken
finding h = map_error translate_ent_error (only verification_tokens (of_digest h))

abbrev using : String → ℕ → M EmailVerificationToken
using id t =
    map_error missed (update_one verification_tokens (is_open_verification id t) (use_up t))

-- What a consumption that returned has done: the sole token of the digest was open, and is used up.
pub consume_verification_token_ok :
    (h : String) (given : ℕ) (w : World) {v : World} {user_id : String}
    → consume_verification_token h given w ≡ ok user_id v
    → (t : ℕ) × (k : EmailVerificationToken) × (select (of_digest h) w.db.verification_tokens
        ≡ k ∷ [])
      × (is_none k.consumed_time ≡ true)
      × (ltb t k.expires_time ≡ true)
      × (v.db
          ≡ verification_tokens.put w.db
              (set_where (is_open_verification k.id t) (use_up t) w.db.verification_tokens))
unfolding consume_verification_token
consume_verification_token_ok h given w e =
    let (_, x, given_one, e1) = bind_ok (when (h == "") missing_argument) _ w e in
    let same_x = reads_ok (when (h == "") missing_argument) w (λ d. Keeps-when _ _) given_one in
    let (t, y, read, e2) = bind_ok (time_or_now given) _ x e1 in
    let same_y = reads_ok (time_or_now given) x (λ d. Keeps-time_or_now given) read ∙ same_x in
    let (k, z, found, e3) = bind_ok (finding h) _ y e2 in
    let (sole, same) =
      only_ok verification_tokens (of_digest h) y
        (map_error_ok translate_ent_error (only verification_tokens (of_digest h)) y found) in
    let (_, p, unused, e4) = bind_ok (when (is_some k.consumed_time) mutation_miss) _ z e3 in
    let (fresh, same_p) = when_ok (is_some k.consumed_time) mutation_miss z unused in
    let (_, q, open_one, e5) = bind_ok (when (not (ltb t k.expires_time)) expired) _ p e4 in
    let (good, same_q) = when_ok (not (ltb t k.expires_time)) expired p open_one in
    let (r, u, wrote, last) = bind_ok (using k.id t) _ q e5 in
    let (_, _, _, result) =
      update_one_ok verification_tokens (is_open_verification k.id t) (use_up t) q (
        map_error_ok missed
          (update_one verification_tokens (is_open_verification k.id t) (use_up t)) q wrote) in
    let there : q.db ≡ w.db =
      ap (λ (o : World). o.db) same_q ∙ ap (λ (o : World). o.db) same_p ∙ same ∙ same_y in
    (
      t,
      k,
      rw (← same_y) sole,
      unset k.consumed_time fresh,
      ground arith,
      rw (← there) (sym (same_world last) ∙ result),
    )
  where
    unset : (o : Option ℕ) → is_some o ≡ false → is_none o ≡ true
    unset none q = refl
    unset (some n) q = cc

    same_world : {a b : String} {y z : World} → ok a y ≡ ok b z → y.db ≡ z.db
    same_world q = cc

consume-IsVerified :
    (h : String) (t : ℕ) (w : World) {v : World} {u : String}
    → consume_verification_token h t w ≡ ok u v
    → IsVerified h v.db
consume-IsVerified h given w e =
    let (t, k, sole, fresh, good, result) = consume_verification_token_ok h given w e in
    subst (IsVerified h) (sym result) (
      spends (λ x. x.token_hash) (λ x. x.consumed_time) h (is_open_verification k.id t) (use_up t)
        w.db.verification_tokens (λ x. refl) (λ x. refl) sole (hits k fresh t good))
  where
    hits :
        (k : EmailVerificationToken)
        → is_none k.consumed_time ≡ true
        → (t : ℕ) → ltb t k.expires_time ≡ true
        → is_open_verification k.id t k ≡ true
    hits k fresh t good = ground (arith, eq_iff k.id k.id)

-- A digest that is used is not consumed again.
spent_refuses :
    (h : String) (t : ℕ) (w : World) {v : World} {u : String}
    → IsVerified h w.db
    → consume_verification_token h t w ≡ ok u v
    → ⊥
spent_refuses h given w spent e =
    let (t, k, sole, fresh, good, result) = consume_verification_token_ok h given w e in
    clash k.consumed_time fresh (
      sole-Spent (λ x. x.token_hash) (λ x. x.consumed_time) h w.db.verification_tokens spent sole
        ((eq_iff k.token_hash h).0 (selected_hit (of_digest h) w.db.verification_tokens sole)))
  where
    clash : (o : Option ℕ) → is_none o ≡ true → is_some o ≡ true → ⊥
    clash none a b = cc
    clash (some n) a b = cc

module _ (h : String) where
  stores : (u i d : String) (t : ℕ) → Keeps (IsVerified h) (create_verification_token u i d t)
  unfolding create_verification_token
  stores u i d t = search (account_rules, adds) depth 12
    where
      adds :
          (r : EmailVerificationToken) (d : Db)
          → IsVerified h d
          → any (verification_tokens.clash r) d.verification_tokens ≡ false
          → IsVerified h (verification_tokens.put d (d.verification_tokens ++ r ∷ []))
      adds r d spent fresh =
          Spent-append (λ k. k.token_hash) (λ k. k.consumed_time) h (verification_tokens.clash r) r
            d.verification_tokens (λ x off same. ground (arith, eq_iff r.token_hash x.token_hash))
            spent fresh

  uses : (d : String) (t : ℕ) → Keeps (IsVerified h) (consume_verification_token d t)
  unfolding consume_verification_token
  uses d t = search (account_rules, sets) depth 16
    where
      sets :
          (p : EmailVerificationToken → Bool) (t : ℕ) (d : Db)
          → IsVerified h d
          → IsVerified h (verification_tokens.put d (set_where p (use_up t) d.verification_tokens))
      sets p t d spent =
          Spent-set_where (λ k. k.token_hash) (λ k. k.consumed_time) h p (use_up t)
            d.verification_tokens (λ x. refl) (λ x. refl) spent

  stores_reset : (u d : String) (t : ℕ) → Keeps (IsVerified h) (create_reset_token u d t)
  unfolding create_reset_token
  stores_reset u d t = search account_rules depth 10

  resets : (d p : String) (t : ℕ) → Keeps (IsVerified h) (consume_and_replace_password d p t)
  unfolding consume_and_replace_password reset_password
  resets d p t = search account_rules depth 24

  ignores : Ignores (IsVerified h)
  ignores = record {
    sessions = record {
      in_sessions = λ d rs p. p;
      in_token_sessions = λ d rs p. p;
      in_access_tokens = λ d rs p. p;
      in_refresh_tokens = λ d rs p. p;
    };
    in_users = λ d rs p. p;
    in_identifiers = λ d rs p. p;
    in_authenticators = λ d rs p. p;
    in_passwords = λ d rs p. p;
  }

  handles : Handles (IsVerified h)
  handles = record {
    writes = Writes-Ignores ignores;
    stores_verification = stores;
    consumes_verification = uses;
    stores_reset = stores_reset;
    consumes_reset = resets;
  }

module _ (s : Services) where
  abbrev consuming : String → ℕ → M String
  consuming token t =
      map_error account_token_error (consume_verification_token (s.hash_opaque_secret token) t)

  -- The token that a verification consumed, at the state where it did.
  verify_email-consumes :
      (token : String) (w : World) {v : World} {user : UserResource}
      → verify_email s token w ≡ ok user v
      → (t : ℕ) × (x : World) × (y : World) × (u : String) × (x.db ≡ w.db)
        × (consume_verification_token (s.hash_opaque_secret token) t x ≡ ok u y)
        × ((P : Db → Type 0)
            → ((u : String) (n : ℕ) → Keeps P (activate_email u n))
            → P y.db
            → P v.db)
  unfolding verify_email
  verify_email-consumes token w e =
      let (_, a, given_one, e1) = bind_ok (when (token == "") invalid_token) _ w e in
      let same_a = reads_ok (when (token == "") invalid_token) w (λ d. Keeps-when _ _) given_one in
      let (t, x, read, e2) = bind_ok now _ a e1 in
      let same_x = reads_ok now a (λ d. Keeps-now) read ∙ same_a in
      let (u, y, consumed, e3) = bind_ok (consuming token t) _ x e2 in
      (
        t,
        x,
        y,
        u,
        same_x,
        map_error_ok account_token_error (consume_verification_token (s.hash_opaque_secret token) t)
            x consumed,
        λ P k h. Keeps-ok (finishes P k u) y h e3,
      )
    where
      finishes :
          (P : Db → Type 0)
          → ((u : String) (n : ℕ) → Keeps P (activate_email u n))
          → (u : String) → Keeps P (now >>= λ t. activate_email u t >> get_user u)
      finishes P k u = search (account_rules, k) depth 8

  -- Where the services outside leave the database alone: the token with which a verification returned
  -- is refused by every later one, whatever calls of the accounts come in between.
  pub verify_email_once :
      (outside : IsOutside s) (token : String) (between : List Call) (w v x : World)
      (user again : UserResource)
      → verify_email s token w ≡ ok user v
      → verify_email s token (run s between v) ≢ ok again x
  verify_email_once outside token between w v x user again first second =
      let (t, a, b, u, start, consumed, later) = verify_email-consumes token w first in
      let spent =
        later (IsVerified (s.hash_opaque_secret token))
          (Moves-Ignores (ignores (s.hash_opaque_secret token))).activates
          (consume-IsVerified (s.hash_opaque_secret token) t a consumed) in
      let still =
        Keeps-run (handles (s.hash_opaque_secret token)) s outside
          (Moves-Ignores (ignores (s.hash_opaque_secret token))) between v spent in
      let (t', a', b', u', start', consumed', _) =
        verify_email-consumes token (run s between v) second in
      spent_refuses (s.hash_opaque_secret token) t' a'
        (subst (IsVerified (s.hash_opaque_secret token)) (sym start') still) consumed'
