-- ===== src/Iam/Login/Lookup.antt =====
-- What the lookup of a user found where it returned.
use servora_platform.Common.{
  String, ◌==◌, ◌≡◌, refl, sym, ap, ◌∙◌, Bool, ◌&&◌, [], ◌∷◌, Option, none, some, is_some, select,
}
use servora_platform.Iam.Schema.{Db, User, LoginIdentifier}
use servora_platform.Iam.Schema.Tables.{users, identifiers}
use servora_platform.Iam.Store.{World, ok, map_error, only, query}
use servora_platform.Iam.Store.Laws.{bind_ok, map_error_ok, only_ok, query_ok}
use servora_platform.Iam.Login.Repo.{
  UserResource, translate_ent_error, last_of, to_status, to_resource, get_user,
}

abbrev pub has_id : String → User → Bool
has_id id u = u.id == id

abbrev pub mail_of : String → LoginIdentifier → Bool
mail_of id i = i.user_id == id && i.type == "email"

-- The resource of a user is the one row of the identifier, with its status read, and its email is
-- verified where the row of the last email of the user has a time of verification.
pub record IsUser (id : String) (user : UserResource) (d : Db) : Type 0 where
  pub mail : LoginIdentifier
  pub sole : select (has_id id) d.users ≡ user.entity ∷ []
  pub status : user.status ≡ to_status user.entity.status
  pub its_mail : last_of (select (mail_of user.entity.id) d.identifiers) ≡ some mail
  pub verified : user.email_verified ≡ is_some mail.verified_time

resource_ok :
    (u : User) (o : Option LoginIdentifier) (w : World) {v : World} {user : UserResource}
    → to_resource u o w ≡ ok user v
    → (mail : LoginIdentifier) × (user.entity ≡ u)
      × (user.status ≡ to_status u.status)
      × (o ≡ some mail)
      × (user.email_verified ≡ is_some mail.verified_time)
unfolding to_resource
resource_ok u none w e = cc
resource_ok u (some i) w {v} {user} e = (
  i,
  ap (λ (x : UserResource). x.entity) (same e),
  ap (λ (x : UserResource). x.status) (same e),
  refl,
  ap (λ (x : UserResource). x.email_verified) (same e),
)
  where
    same : {a b : UserResource} {x y : World} → ok a x ≡ ok b y → b ≡ a
    same q = cc

pub get_user_ok :
    (id : String) (w : World) {v : World} {user : UserResource}
    → get_user id w ≡ ok user v
    → IsUser id user w.db
unfolding get_user
get_user_ok id w {v} {user} e =
    let (u, x, read, e1) = bind_ok (map_error translate_ent_error (only users (has_id id))) _ w e in
    let (sole, same_x) =
      only_ok users (has_id id) w
        (map_error_ok translate_ent_error (only users (has_id id)) w read) in
    let (found, y, listed, last) =
      bind_ok (map_error translate_ent_error (query identifiers (mail_of u.id)))
        (λ found. to_resource u (last_of found)) x e1 in
    let (rows, _) =
      query_ok identifiers (mail_of u.id) x
        (map_error_ok translate_ent_error (query identifiers (mail_of u.id)) x listed) in
    let (mail, row, status, its_mail, verified) = resource_ok u (last_of found) y last in
    record {
      mail = mail;
      sole = sole ∙ ap (λ (r : User). r ∷ []) (sym row);
      status = status ∙ ap (λ (r : User). to_status r.status) (sym row);
      its_mail =
          ap (λ (r : User). last_of (select (mail_of r.id) w.db.identifiers)) row
          ∙ ap (λ (d : Db). last_of (select (mail_of u.id) d.identifiers)) (sym same_x)
          ∙ ap last_of (sym rows)
          ∙ its_mail;
      verified = verified;
    }
