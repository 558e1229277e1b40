-- ===== src/Iam/Account/Found.antt =====
-- What the lookups of a user and of its password found where they returned.
use servora_platform.Common.{String, ◌==◌, ◌≡◌, sym, ap, subst, Bool, ◌&&◌, [], ◌∷◌, select}
use servora_platform.Iam.Schema.{Db, LoginIdentifier, Authenticator, PasswordAuthenticator}
use servora_platform.Iam.Schema.Tables.{identifiers, authenticators, passwords}
use servora_platform.Iam.Store.{World, ok, map_error, only}
use servora_platform.Iam.Store.Laws.{bind_ok, map_error_ok, only_ok}
use servora_platform.Iam.Login.Repo.{
  UserResource, PasswordCredential, translate_ent_error, get_user, find_active_password,
}
use servora_platform.Iam.Login.Lookup.{IsUser, get_user_ok}
use servora_platform.Iam.Account.Users.{find_by_email}
use servora_platform.Iam.Account.Recovery.{is_password_of}

abbrev pub is_mail : String → LoginIdentifier → Bool
is_mail canonical i = i.type == "email" && i.canonical_value == canonical

pub find_by_email_ok :
    (canonical : String) (w : World) {v : World} {user : UserResource}
    → find_by_email canonical w ≡ ok user v
    → (i : LoginIdentifier) × (select (is_mail canonical) w.db.identifiers ≡ i ∷ [])
      × IsUser i.user_id user w.db
unfolding find_by_email
find_by_email_ok canonical w {v} {user} e =
    let (i, x, read, last) =
      bind_ok (map_error translate_ent_error (only identifiers (is_mail canonical)))
        (λ i. get_user i.user_id) w e in
    let (sole, same) =
      only_ok identifiers (is_mail canonical) w
        (map_error_ok translate_ent_error (only identifiers (is_mail canonical)) w read) in
    (i, sole, subst (IsUser i.user_id user) same (get_user_ok i.user_id x last))

pub find_active_password_ok :
    (u : String) (w : World) {v : World} {c : PasswordCredential}
    → find_active_password u w ≡ ok c v
    → (a : Authenticator) × (p : PasswordAuthenticator) × (select
          (is_password_of u)
          w.db.authenticators
        ≡ a ∷ [])
      × (select (λ p. p.authenticator_id == a.id) w.db.passwords ≡ p ∷ [])
      × (c.password_hash ≡ p.password_hash)
unfolding find_active_password
find_active_password_ok u w {v} {c} e =
    let (a, x, read, e1) =
      bind_ok (map_error translate_ent_error (only authenticators (is_password_of u))) _ w e in
    let (one_a, same) =
      only_ok authenticators (is_password_of u) w
        (map_error_ok translate_ent_error (only authenticators (is_password_of u)) w read) in
    let (p, y, read', last) =
      bind_ok (map_error translate_ent_error (only passwords (λ p. p.authenticator_id == a.id))) _ x
        e1 in
    let (one_p, _) =
      only_ok passwords (λ p. p.authenticator_id == a.id) x
        (map_error_ok translate_ent_error (only passwords (λ p. p.authenticator_id == a.id)) x
          read') in
    (
      a,
      p,
      one_a,
      subst (λ (d : Db). select (λ p. p.authenticator_id == a.id) d.passwords ≡ p ∷ []) same one_p,
      sym (ap (λ (c : PasswordCredential). c.password_hash) (same_value last)),
    )
  where
    same_value : {a b : PasswordCredential} {y z : World} → ok a y ≡ ok b z → a ≡ b
    same_value q = cc
