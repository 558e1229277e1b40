-- ===== src/Iam/Account/Tokens.antt =====
-- app/iam/service/internal/data/account.go: the tokens that verify an email or reset a password.
use servora_platform.Common.{
  ℕ, String, ◌==◌, Bool, not, ◌&&◌, ◌||◌, none, some, is_none, is_some, ltb, if◌then◌else◌,
}
use servora_platform.Iam.Schema.{EmailVerificationToken, PasswordResetToken}
use servora_platform.Iam.Schema.Tables.{
  identifiers, authenticators, passwords, verification_tokens, reset_tokens,
}
use servora_platform.Iam.Store.{
  M, ◌>>=◌, ◌>>◌, pure, map_error, when, mutation_miss, expired, missing_argument, new_id, only,
  update_one, insert, in_tx,
}
use servora_platform.Iam.Login.Repo.{translate_ent_error, time_or_now}
use servora_platform.Iam.Account.Users.{missed}

-- The identifier of the user's email, where none is given.
unfoldable pub identifier_or_email : String → String → M String
identifier_or_email user_id identifier_id =
    if not (identifier_id == "") then pure identifier_id else (do
      identifier ←
          map_error translate_ent_error
            (only identifiers (λ i. i.user_id == user_id && i.type == "email"))
      pure identifier.id)

unfoldable pub create_verification_token : String → String → String → ℕ → M (Unit {0})
create_verification_token user_id identifier_id token_hash expires = do
  when (user_id == "" || token_hash == "") missing_argument
  identifier ← identifier_or_email user_id identifier_id
  id ← new_id
  _ ← map_error translate_ent_error (
      insert verification_tokens (record {
        id = id;
        user_id = user_id;
        login_identifier_id = identifier;
        token_hash = token_hash;
        expires_time = expires;
        consumed_time = none;
      }))
  pure tt

-- The conditional write that consumes a token of verification.
abbrev pub is_open_verification : String → ℕ → EmailVerificationToken → Bool
is_open_verification id t k = k.id == id && is_none k.consumed_time && ltb t k.expires_time

unfoldable pub consume_verification_token : String → ℕ → M String
consume_verification_token token_hash given = do
  when (token_hash == "") missing_argument
  t ← time_or_now given
  entity ←
      map_error translate_ent_error (only verification_tokens (λ k. k.token_hash == token_hash))
  when (is_some entity.consumed_time) mutation_miss
  when (not (ltb t entity.expires_time)) expired
  updated ← map_error missed (
      update_one verification_tokens (is_open_verification entity.id t)
        (λ k. record k { consumed_time = some t }))
  pure updated.user_id

unfoldable pub create_reset_token : String → String → ℕ → M (Unit {0})
create_reset_token user_id token_hash expires = do
  when (user_id == "" || token_hash == "") missing_argument
  id ← new_id
  _ ← map_error translate_ent_error (
      insert reset_tokens (record {
        id = id;
        user_id = user_id;
        token_hash = token_hash;
        expires_time = expires;
        consumed_time = none;
      }))
  pure tt

abbrev pub is_open_reset : String → ℕ → PasswordResetToken → Bool
is_open_reset id t k = k.id == id && is_none k.consumed_time && ltb t k.expires_time

-- The transaction of `ConsumeAndReplacePassword`.
unfoldable pub reset_password : PasswordResetToken → String → ℕ → M (Unit {0})
reset_password token password_hash t = do
  entity ← map_error translate_ent_error (
      only authenticators (λ a.
        a.user_id == token.user_id
        && a.type == "password"
        && a.state == "active"
        && is_none a.revoked_time))
  password ← map_error translate_ent_error (only passwords (λ p. p.authenticator_id == entity.id))
  _ ← map_error translate_ent_error (
      update_one passwords (λ p. p.id == password.id)
        (λ p. record p { password_hash = password_hash; changed_time = t }))
  _ ← map_error missed (
      update_one reset_tokens (is_open_reset token.id t) (λ k. record k { consumed_time = some t }))
  pure tt

unfoldable pub consume_and_replace_password : String → String → ℕ → M String
consume_and_replace_password token_hash password_hash given = do
  when (token_hash == "" || password_hash == "") missing_argument
  t ← time_or_now given
  entity ← map_error translate_ent_error (only reset_tokens (λ k. k.token_hash == token_hash))
  when (is_some entity.consumed_time) mutation_miss
  when (not (ltb t entity.expires_time)) expired
  in_tx (reset_password entity password_hash t)
  pure entity.user_id
