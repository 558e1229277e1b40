-- ===== src/Iam/Account/SingleReset.antt =====
-- The token of a reset of a password is used once.
use servora_platform.Common.{
  ℕ, String, eq_iff, ◌≡◌, ◌≢◌, refl, sym, subst, Bool, true, false, List, [], ◌∷◌, ◌++◌, Option,
  none, some, is_some, is_none, ltb, any, set_where, arith,
}
use servora_platform.Iam.Schema.{Db, PasswordResetToken}
use servora_platform.Iam.Schema.Tables.{reset_tokens}
use servora_platform.Iam.Store.{World, ok}
use servora_platform.Iam.Store.Keeps.{Keeps, keeps_rules}
use servora_platform.Iam.Store.Gains.{Keeps-ok}
use servora_platform.Iam.Account.Services.{Services, IsOutside}
use servora_platform.Iam.Account.Tokens.{
  is_open_reset, create_verification_token, consume_verification_token, create_reset_token,
  reset_password, consume_and_replace_password,
}
use servora_platform.Iam.Account.Usecase.{confirm_password_reset}
use servora_platform.Iam.Account.Calls.{Call, run}
use servora_platform.Iam.Account.Reads.{account_rules}
use servora_platform.Iam.Account.Frame.{Ignores, Writes-Ignores, Moves-Ignores, ends}
use servora_platform.Iam.Account.Steps.{Handles, Keeps-run}
use servora_platform.Iam.Account.Spent.{
  Spent, Spent-append, Spent-set_where, spends, sole-Spent, selected_hit,
}
use servora_platform.Iam.Account.Recovery.{of_digest, use_up, consume_and_replace_password_ok}
use servora_platform.Iam.Account.Reset.{confirm_password_reset-replaces}

-- The tokens of reset of the digest are used.
abbrev pub IsUsed : String → Db → Type 0
IsUsed h d = Spent (λ k. k.token_hash) (λ k. k.consumed_time) h d.reset_tokens

replace-IsUsed :
    (h encoded : String) (t : ℕ) (w : World) {v : World} {u : String}
    → consume_and_replace_password h encoded t w ≡ ok u v
    → IsUsed h v.db
replace-IsUsed h encoded given w e =
    let (t, k, a, p, sole, fresh, good, _, _, _, result) =
      consume_and_replace_password_ok h encoded given w e in
    subst (IsUsed h) (sym result) (
      spends (λ x. x.token_hash) (λ x. x.consumed_time) h (is_open_reset k.id t) (use_up t)
        w.db.reset_tokens (λ x. refl) (λ x. refl) sole (hits k fresh t good))
  where
    hits :
        (k : PasswordResetToken)
        → is_none k.consumed_time ≡ true
        → (t : ℕ) → ltb t k.expires_time ≡ true
        → is_open_reset k.id t k ≡ true
    hits k fresh t good = ground (arith, eq_iff k.id k.id)

-- A digest that is used replaces no password again.
used_refuses :
    (h encoded : String) (t : ℕ) (w : World) {v : World} {u : String}
    → IsUsed h w.db
    → consume_and_replace_password h encoded t w ≡ ok u v
    → ⊥
used_refuses h encoded given w used e =
    let (t, k, a, p, sole, fresh, good, _, _, _, result) =
      consume_and_replace_password_ok h encoded given w e in
    clash k.consumed_time fresh (
      sole-Spent (λ x. x.token_hash) (λ x. x.consumed_time) h w.db.reset_tokens used sole
        ((eq_iff k.token_hash h).0 (selected_hit (of_digest h) w.db.reset_tokens sole)))
  where
    clash : (o : Option ℕ) → is_none o ≡ true → is_some o ≡ true → ⊥
    clash none a b = cc
    clash (some n) a b = cc

module _ (h : String) where
  stores : (u d : String) (t : ℕ) → Keeps (IsUsed h) (create_reset_token u d t)
  unfolding create_reset_token
  stores u d t = search (account_rules, adds) depth 12
    where
      adds :
          (r : PasswordResetToken) (d : Db)
          → IsUsed h d
          → any (reset_tokens.clash r) d.reset_tokens ≡ false
          → IsUsed h (reset_tokens.put d (d.reset_tokens ++ r ∷ []))
      adds r d used fresh =
          Spent-append (λ k. k.token_hash) (λ k. k.consumed_time) h (reset_tokens.clash r) r
            d.reset_tokens (λ x off same. ground (arith, eq_iff r.token_hash x.token_hash)) used
            fresh

  changes : (k : PasswordResetToken) (p : String) (t : ℕ) → Keeps (IsUsed h) (reset_password k p t)
  unfolding reset_password
  changes k p t = search (keeps_rules, sets) depth 16
    where
      sets :
          (p : PasswordResetToken → Bool) (t : ℕ) (d : Db)
          → IsUsed h d
          → IsUsed h (reset_tokens.put d (set_where p (use_up t) d.reset_tokens))
      sets p t d used =
          Spent-set_where (λ k. k.token_hash) (λ k. k.consumed_time) h p (use_up t) d.reset_tokens
            (λ x. refl) (λ x. refl) used

  uses : (d p : String) (t : ℕ) → Keeps (IsUsed h) (consume_and_replace_password d p t)
  unfolding consume_and_replace_password
  uses d p t = search (account_rules, changes) depth 24

  stores_verification :
      (u i d : String) (t : ℕ) → Keeps (IsUsed h) (create_verification_token u i d t)
  unfolding create_verification_token
  stores_verification u i d t = search account_rules depth 12

  consumes : (d : String) (t : ℕ) → Keeps (IsUsed h) (consume_verification_token d t)
  unfolding consume_verification_token
  consumes d t = search account_rules depth 16

  ignores : Ignores (IsUsed h)
  ignores = record {
    sessions = record {
      in_sessions = λ d rs p. p;
      in_token_sessions = λ d rs p. p;
      in_access_tokens = λ d rs p. p;
      in_refresh_tokens = λ d rs p. p;
    };
    in_users = λ d rs p. p;
    in_identifiers = λ d rs p. p;
    in_authenticators = λ d rs p. p;
    in_passwords = λ d rs p. p;
  }

  handles : Handles (IsUsed h)
  handles = record {
    writes = Writes-Ignores ignores;
    stores_verification = stores_verification;
    consumes_verification = consumes;
    stores_reset = stores;
    consumes_reset = uses;
  }

module _ (s : Services) where
  -- Where the services outside leave the database alone: the token with which a reset returned is
  -- refused by every later one, whatever calls of the accounts come in between.
  pub confirm_password_reset_once :
      (outside : IsOutside s) (token new_password other : String) (between : List Call)
      (w v x : World)
      → confirm_password_reset s token new_password w ≡ ok tt v
      → confirm_password_reset s token other (run s between v) ≢ ok tt x
  confirm_password_reset_once outside token new_password other between w v x first second =
      let (encoded, t, a, b, u, _, start, replaced, ended) =
        confirm_password_reset-replaces s token new_password w first in
      let used =
        Keeps-ok (ends (handles (s.hash_opaque_secret token)).writes.sessions u) b
          (replace-IsUsed (s.hash_opaque_secret token) encoded t a replaced) ended in
      let still =
        Keeps-run (handles (s.hash_opaque_secret token)) s outside
          (Moves-Ignores (ignores (s.hash_opaque_secret token))) between v used in
      let (encoded', t', a', b', u', _, start', replaced', _) =
        confirm_password_reset-replaces s token other (run s between v) second in
      used_refuses (s.hash_opaque_secret token) encoded' t' a'
        (subst (IsUsed (s.hash_opaque_secret token)) (sym start') still) replaced'
