-- ===== src/Iam/Account/Reads.antt =====
-- What the reads of the accounts, and the services outside, leave as it was: any property of the
-- database.
use servora_platform.Common.{String, ◌≡◌, refl, sym, subst, Option, none, some, not}
use servora_platform.Iam.Schema.{Db, User, LoginIdentifier}
use servora_platform.Iam.Store.{
  World, Outcome, Error, ok, err, M, raise, after, when, user_disabled, user_not_active,
}
use servora_platform.Iam.Store.Keeps.{Keeps, Keeps-pure, Keeps-raise, Keeps-when, keeps_rules}
use servora_platform.Iam.Store.Gains.{Keeps-ok}
use servora_platform.Iam.Login.Repo.{
  UserResource, UserStatus, find_by_secret_hash, find_active_password, get_user, to_resource,
}
use servora_platform.Iam.Login.Usecase
use servora_platform.Iam.Login.Usecase.{join, check_status}
use servora_platform.Iam.Login.Ending.{Keeps-time_or_now}
use servora_platform.Iam.Account.Services
use servora_platform.Iam.Account.Services.{Profile, Services, normalize_email, hash}
use servora_platform.Iam.Account.Users
use servora_platform.Iam.Account.Users.{find_by_email}
use servora_platform.Iam.Account.Tokens.{identifier_or_email}
use servora_platform.Iam.Account.Admin.{check_change}
use servora_platform.Iam.Account.Usecase.{
  refuse_found, check_free, if_found, if_normalized, for_user,
}

-- An action that leaves the database as it was keeps every property of it.
pub Keeps-same :
    {P : Db → Type 0} {A : Type 0} {m : M A} → ((d : Db) → Keeps (λ x. x ≡ d) m) → Keeps P m
Keeps-same {P} k = record { at = λ w h. subst P (sym ((k w.db).at w refl)) h }

module _ {P : Db → Type 0} where
  Keeps-resource : (u : User) (i : Option LoginIdentifier) → Keeps P (to_resource u i)
  unfolding to_resource
  Keeps-resource u none = Keeps-raise _
  Keeps-resource u (some i) = Keeps-pure _

  pub Keeps-get_user : (u : String) → Keeps P (get_user u)
  unfolding get_user
  Keeps-get_user u = search (keeps_rules, Keeps-resource) depth 10

  pub Keeps-find_by_email : (c : String) → Keeps P (find_by_email c)
  unfolding find_by_email
  Keeps-find_by_email c = search (keeps_rules, Keeps-get_user) depth 10

  pub Keeps-find_active_password : (u : String) → Keeps P (find_active_password u)
  unfolding find_active_password
  Keeps-find_active_password u = search keeps_rules depth 10

  pub Keeps-find_by_secret_hash : (h : String) → Keeps P (find_by_secret_hash h)
  unfolding find_by_secret_hash
  Keeps-find_by_secret_hash h = search keeps_rules depth 10

  pub Keeps-identifier_or_email : (u i : String) → Keeps P (identifier_or_email u i)
  unfolding identifier_or_email
  Keeps-identifier_or_email u i = search keeps_rules depth 10

  pub Keeps-check_status : (user : UserResource) → Keeps P (check_status user)
  unfolding check_status
  Keeps-check_status user = by_status user.status
    where
      by_status :
          (s : UserStatus)
          → Keeps P (elim s as (λ _. M (Unit {0})) [
            | UserStatus.disabled ↦ raise user_disabled
            | UserStatus.active ↦ when (not user.email_verified) user_not_active
            | UserStatus.unspecified ↦ raise user_not_active
            | UserStatus.pending_email_verification ↦ raise user_not_active
          ])
      by_status UserStatus.active = Keeps-when _ _
      by_status UserStatus.unspecified = Keeps-raise _
      by_status UserStatus.disabled = Keeps-raise _
      by_status UserStatus.pending_email_verification = Keeps-raise _

  pub Keeps-check_change :
      (status : UserStatus) (e : String) (current : UserResource)
      → Keeps P (check_change status e current)
  unfolding check_change
  Keeps-check_change status e current = search keeps_rules depth 6

  module _ (s : Services) where
    pub Keeps-normalize_email : (e : String) → Keeps P (normalize_email s e)
    unfolding normalize_email
    Keeps-normalize_email e = search keeps_rules depth 6

    Keeps-hashed : (h : Option String) → Keeps P (Services.hashed s h)
    Keeps-hashed none = Keeps-raise _
    Keeps-hashed (some h) = Keeps-pure h

    pub Keeps-hash : (p : String) → Keeps P (hash s p)
    unfolding hash
    Keeps-hash p = search (keeps_rules, Keeps-hashed) depth 6

    pub Keeps-intents : (f : Option (Profile → Profile)) → Keeps P (Users.intents s f)
    Keeps-intents none = Keeps-raise _
    Keeps-intents (some f) = Keeps-pure f

module _ (P : Db → Type 0) where
  refused_after : (o : Outcome UserResource) → P (after o).db → P (after (refuse_found o)).db
  unfolding refuse_found
  refused_after (ok user w) h = h
  refused_after (err Error.not_found w) h = h
  refused_after (err _ w) h = h

  found_after :
      (o : Outcome UserResource) (rest : UserResource → M (Unit {0}))
      → ((user : UserResource) → Keeps P (rest user))
      → P (after o).db
      → P (after (if_found o rest)).db
  unfolding if_found
  found_after (ok user w) rest k h = (k user).at w h
  found_after (err Error.not_found w) rest k h = h
  found_after (err _ w) rest k h = h

  normalized_after :
      (o : Outcome (String × String)) (rest : UserResource → M (Unit {0}))
      → ((user : UserResource) → Keeps P (rest user))
      → P (after o).db
      → P (after (if_normalized o rest)).db
  unfolding if_normalized
  normalized_after (ok names w) rest k h =
      found_after (find_by_email names.0 w) rest k ((Keeps-find_by_email {P = P} names.0).at w h)
  normalized_after (err e w) rest k h = h

  pub joined_after :
      (n : M (Unit {0})) (o : Outcome (Unit {0}))
      → Keeps P n
      → P (after o).db
      → P (after (Usecase.join_rest n o)).db
  joined_after n (ok u w) k h = k.at w h
  joined_after n (err e w) k h = second (n w) (k.at w h)
    where
      second :
          (o : Outcome (Unit {0}))
          → P (after o).db
          → P
              (after (elim o as (λ _. Outcome (Unit {0})) [
                | ok u w' ↦ err e w'
                | err e' w' ↦ err e w'
              ])).db
      second (ok u w') q = q
      second (err e' w') q = q

module _ {P : Db → Type 0} where
  pub Keeps-check_free : (c : String) → Keeps P (check_free c)
  unfolding check_free
  Keeps-check_free c = record {
    at = λ w h. refused_after P (find_by_email c w) ((Keeps-find_by_email {P = P} c).at w h);
  }

  pub Keeps-join : (m n : M (Unit {0})) → Keeps P m → Keeps P n → Keeps P (join m n)
  unfolding join
  Keeps-join m n km kn = record { at = λ w h. joined_after P n (m w) kn (km.at w h) }

  pub Keeps-for_user :
      (s : Services) (e : String) (rest : UserResource → M (Unit {0}))
      → ((user : UserResource) → Keeps P (rest user))
      → Keeps P (for_user s e rest)
  unfolding for_user
  Keeps-for_user s e rest k = record {
    at = λ w h.
        normalized_after P (normalize_email s e w) rest k
          ((Keeps-normalize_email {P = P} s e).at w h);
  }

pub ruleset account_rules = (
  keeps_rules, Keeps-time_or_now, Keeps-get_user, Keeps-find_by_email, Keeps-find_active_password,
  Keeps-find_by_secret_hash, Keeps-identifier_or_email, Keeps-check_change, Keeps-check_status,
  Keeps-normalize_email, Keeps-hash, Keeps-intents, Keeps-check_free, Keeps-join, Keeps-for_user,
)

-- What an action that leaves the database as it was has done where it returned.
pub reads_ok :
    {A : Type 0} (m : M A) (w : World) {v : World} {a : A}
    → ((d : Db) → Keeps (λ x. x ≡ d) m)
    → m w ≡ ok a v
    → v.db ≡ w.db
reads_ok m w k e = Keeps-ok (k w.db) w refl e
