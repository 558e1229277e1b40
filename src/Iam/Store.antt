-- ===== src/Iam/Store.antt =====
-- The runtime of the identity service as explicit state: the tables, the clock, the generators of
-- identifiers and secrets, and the driver. An action takes the state and returns a value or an
-- error, each with the state after it, since what was written before an error stays written.
-- ent's client and the SQL driver are not code of the repository: an action below does to the rows
-- what ent documents for the builder of its name, and any statement may fail, as the script of
-- driver faults says.
pub mod Laws
pub mod Keeps
pub mod Gains
pub mod Quiet
pub mod Clean
pub mod Refuses
use servora_platform.Common.{
  ℕ, zero, suc, String, ◌+◌, Bool, true, false, not, ◌&&◌, List, [], ◌∷◌, ◌++◌, Option, none, some,
  select, set_where, any, length, if◌then◌else◌,
}
use servora_platform.Iam.Schema.{Db}
use servora_platform.Iam.Schema.Tables.{Table}

-- The errors by which the code branches, as `errors.Is` and `errors.As` see them. Wrapping by `%w`
-- and joining with a rollback's error keep the class.
pub data Error : Type 0 where
  driver generator validation constraint : Error
  ent_not_found not_singular : Error
  storage_not_found invalid_grant invalid_refresh_token subject_inactive token_not_found : Error
  not_ready unsupported_request client_rejected server_error panicked : Error
  invalid_request request_not_supported invalid_scope unsupported_grant : Error
  not_found already_exists mutation_miss expired : Error
  unauthenticated session_revoked user_disabled user_not_active : Error
  missing_argument inconsistent : Error
  invalid_token token_expired email_already_exists profile_etag_mismatch : Error
  user_etag_mismatch user_invalid_state session_revocation : Error
  invalid_credentials invalid_password hashing empty_email unavailable : Error

pub record World : Type 0 where
  pub db : Db
  pub time : ℕ
  -- how far the clock moves before each of its next readings
  pub delays : List ℕ
  -- the next identifiers and secrets; where none is left the generator fails
  pub ids : List String
  pub secrets : List String
  -- whether each of the next statements fails; the statements after them do not
  pub faults : List Bool

pub data Outcome (A : Type 0) : Type 0 where
  ok : A → World → Outcome A
  err : Error → World → Outcome A

abbrev pub M : Type 0 → Type 0
M A = World → Outcome A

infixl 5 ◌>>=◌ ◌>>◌
abbrev pub ◌>>=◌ : {A B : Type 0} → M A → (A → M B) → M B
◌>>=◌ act next w = elim (act w) [ ok value w' ↦ next value w' | err e w' ↦ err e w' ]

abbrev pub ◌>>◌ : {A B : Type 0} → M A → M B → M B
first >> second = first >>= λ _. second

abbrev pub pure : {A : Type 0} → A → M A
pure a w = ok a w

abbrev pub raise : {A : Type 0} → Error → M A
raise e w = err e w

-- `if err != nil` with another error in its place.
abbrev pub map_error : {A : Type 0} → (Error → Error) → M A → M A
map_error f m w = elim (m w) [ ok a w' ↦ ok a w' | err e w' ↦ err (f e) w' ]

-- The storage's answer to a missing row.
abbrev pub missing_as : Error → Error → Error
missing_as as_error ent_not_found = as_error
missing_as as_error e = e

abbrev pub is_missing : Error → Bool
is_missing ent_not_found = true
is_missing e = false

-- `if entmodel.IsNotFound(err)` with another action in its place.
abbrev pub if_missing : {A : Type 0} → M A → M A → M A
if_missing m n w = elim (m w) [
  | ok a w' ↦ ok a w'
  | err e w' ↦ if is_missing e then n w' else err e w'
]

abbrev pub when : Bool → Error → M (Unit {0})
when true e = raise e
when false e = pure tt

-- The state after an action, and its value.
abbrev pub after : {A : Type 0} → Outcome A → World
after (ok a w) = w
after (err e w) = w

-- One statement on its way to the database.
unfoldable pub statement : M (Unit {0})
statement w = elim w.faults [
  | [] ↦ ok tt w
  | true ∷ rest ↦ err driver (record w { faults = rest })
  | false ∷ rest ↦ ok tt (record w { faults = rest })
]

-- `time.Now()`.
unfoldable pub now : M ℕ
now w = elim w.delays [
  | [] ↦ ok w.time w
  | d ∷ rest ↦ ok (w.time + d) (record w { time = w.time + d; delays = rest })
]

-- `newID` and `biz.NewUserID`.
unfoldable pub new_id : M String
new_id w = elim w.ids [ [] ↦ err generator w | i ∷ rest ↦ ok i (record w { ids = rest }) ]

-- The plaintext of `biz.NewOpaqueSecret`.
unfoldable pub new_secret : M String
new_secret w = elim w.secrets [
  | [] ↦ err generator w
  | s ∷ rest ↦ ok s (record w { secrets = rest })
]

abbrev pub gets : {A : Type 0} → (Db → A) → M A
gets f w = ok (f w.db) w

abbrev pub modify : (Db → Db) → M (Unit {0})
modify f w = ok tt (record w { db = f w.db })

-- `Only` on the rows found.
unfoldable pub single : {R : Type 0} → List R → M R
single [] = raise ent_not_found
single (r ∷ []) = pure r
single (r ∷ s ∷ rs) = raise not_singular

module _ {R : Type 0} (t : Table R) where
  -- `Query().Where(p).All`.
  unfoldable pub query : (R → Bool) → M (List R)
  query p = do statement; gets (λ d. select p (t.get d))

  -- `Query().Where(p).Only`, and `Get`.
  unfoldable pub only : (R → Bool) → M R
  unfolding query
  only p = do rows ← query p; single rows

  -- `Query().Where(p).Exist`.
  unfoldable pub exists : (R → Bool) → M Bool
  exists p = do statement; gets (λ d. any p (t.get d))

  -- `Update().Where(p).Set….Save`: how many rows it wrote.
  unfoldable pub update : (R → Bool) → (R → R) → M ℕ
  update p f = do
    statement
    n ← gets (λ d. length (select p (t.get d)))
    modify (λ d. t.put d (set_where p f (t.get d)))
    pure n

  abbrev first_or_missing : List R → M R
  first_or_missing [] = raise ent_not_found
  first_or_missing (r ∷ rs) = pure r

  -- `UpdateOneID(id).Where(p).Set….Save`, where `p` tests the id too: the row written.
  unfoldable pub update_one : (R → Bool) → (R → R) → M R
  update_one p f = do
    statement
    r ← (λ w. first_or_missing (select p (t.get w.db)) w)
    modify (λ d. t.put d (set_where p f (t.get d)))
    pure (f r)

  -- `Create().Set….Save`.
  unfoldable pub insert : R → M R
  insert r = do
    when (not (t.valid r)) validation
    statement
    taken ← gets (λ d. any (t.clash r) (t.get d))
    when taken constraint
    modify (λ d. t.put d (t.get d ++ r ∷ []))
    pure r

  -- `Delete().Where(p).Exec`.
  unfoldable pub delete : (R → Bool) → M (Unit {0})
  delete p = do statement; modify (λ d. t.put d (select (λ r. not (p r)) (t.get d)))

-- `inTx` and `InTx`: the writes stand only if the body returns and the commit succeeds.
abbrev roll_back : {A : Type 0} → Db → Outcome A → Outcome A
roll_back d (ok a w) = ok a w
roll_back d (err e w) = err e (record w { db = d })

unfoldable pub in_tx : {A : Type 0} → M A → M A
in_tx m = do statement; λ w. roll_back w.db ((do a ← m; statement; pure a) w)
