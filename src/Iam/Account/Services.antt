-- ===== src/Iam/Account/Services.antt =====
-- What the accounts take from code outside the repository, as one record that the use cases are
-- given, and app/iam/service/internal/biz/identity.go with security/password/password.go, which are
-- thin layers over it.
use servora_platform.Common.{
  ℕ, String, ◌==◌, ◌≡◌, Bool, false, List, Option, none, some, if◌then◌else◌,
}
use servora_platform.Iam.Schema.{Db}
use servora_platform.Iam.Store.{M, ◌>>=◌, pure, raise, new_secret, hashing, empty_email}
use servora_platform.Iam.Store.Keeps.{Keeps}

-- `userpb.UserProfile`, and the columns of a user that hold it.
pub record Profile : Type 0 where
  pub name : Option String
  pub given_name : Option String
  pub family_name : Option String
  pub nickname : Option String
  pub preferred_username : Option String
  pub picture : Option String
  pub locale : Option String

pub record Services : Type 0 where
  -- `strings.TrimSpace`, and the case folder on the normal form of a text
  pub trim_space : String → String
  pub fold_case : String → String
  -- the digest of a secret
  pub hash_opaque_secret : String → String
  -- `argon2id.CreateHash` with a salt, and `argon2id.CheckHash`; none is an error
  pub create_hash : String → String → Option String
  pub check_hash : String → String → Option Bool
  -- the proof-of-work server's ValidateToken
  pub validate_captcha : String → M Bool
  -- the mail sender: address, link, hours the link is good for
  pub send_verification : String → String → ℕ → M (Unit {0})
  pub send_password_reset : String → String → ℕ → M (Unit {0})
  -- the writer of relations
  pub ensure_platform_admin : String → M (Unit {0})
  -- the Clear intents of a profile and a mask: what becomes of the columns; none is an error
  pub clear_intents : Option Profile → List String → Option (Profile → Profile)
  pub verification_origin : String

-- The services outside do not touch the database.
pub record IsOutside (s : Services) : Type 0 where
  pub captcha : (t : String) (d : Db) → Keeps (λ x. x ≡ d) (s.validate_captcha t)
  pub verification :
      (a l : String) (h : ℕ) (d : Db) → Keeps (λ x. x ≡ d) (s.send_verification a l h)
  pub reset : (a l : String) (h : ℕ) (d : Db) → Keeps (λ x. x ≡ d) (s.send_password_reset a l h)
  pub relation : (u : String) (d : Db) → Keeps (λ x. x ≡ d) (s.ensure_platform_admin u)

module _ (s : Services) where
  -- `NormalizeEmail`: the canonical and the display value.
  unfoldable pub normalize_email : String → M (String × String)
  normalize_email raw =
      let display = s.trim_space raw in
      if display == "" then raise empty_email else pure (s.fold_case display, display)

  abbrev pub hashed : Option String → M String
  hashed none = raise hashing
  hashed (some h) = pure h

  -- `password.Hash`.
  unfoldable pub hash : String → M String
  hash plaintext = do salt ← new_secret; hashed (s.create_hash salt plaintext)

  abbrev pub agrees : Option Bool → Bool
  agrees none = false
  agrees (some b) = b

  -- `match, _, err := password.Compare`, as `err == nil && match`.
  unfoldable pub compare : String → String → Bool
  compare plaintext encoded = agrees (s.check_hash plaintext encoded)
