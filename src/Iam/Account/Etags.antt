-- ===== src/Iam/Account/Etags.antt =====
-- Optimistic concurrency: an etag that is not the user's current one writes nothing.
use servora_platform.Common.{
  ℕ, String, ◌==◌, eq_iff, ◌≡◌, ◌≢◌, refl, sym, ◌∙◌, subst, Bool, false, ◌&&◌, ◌||◌, List, Option,
  any, arith, Bool-cases, inl, inr, All, set_where, [], ◌∷◌,
}
use servora_platform.Iam.Schema.{Db, User}
use servora_platform.Iam.Schema.Tables.{users}
use servora_platform.Iam.Store.{
  World, Error, Outcome, ok, err, when, missing_argument, new_id, now, in_tx, update_one,
}
use servora_platform.Iam.Store.Keeps.{Keeps-when, Keeps-new_id, Keeps-now}
use servora_platform.Iam.Store.Laws.{bind_ok, when_ok, map_error_ok, update_one_ok}
use servora_platform.Iam.Store.Refuses.{
  Refused, Refuses, Refuses-first, Refuses-later, Refuses-map_error, Refuses-in_tx,
  Refuses-update_one,
}
use servora_platform.Iam.Login.Repo.{UserResource, UserStatus, time_or_now, get_user}
use servora_platform.Iam.Login.Ending.{Keeps-time_or_now}
use servora_platform.Iam.Account.Services.{Profile, Services}
use servora_platform.Iam.Account.Users
use servora_platform.Iam.Account.Users.{
  missed, with_profile, profile_of, set_paths, write_status, update_status, write_profile,
  update_profile_fields, update_user, update_profile,
}
use servora_platform.Iam.Account.Reads.{Keeps-get_user, Keeps-intents, reads_ok}

-- The etag is that of no row of the user.
abbrev pub IsStale : String → String → Db → Type 0
IsStale user_id etag d = any (λ u. u.id == user_id && u.etag == etag) d.users ≡ false

write_status-Refuses :
    (u e : String) (s : UserStatus) (n : String) (t : ℕ)
    → Refuses (IsStale u e) (write_status u e s n t)
unfolding write_status
write_status-Refuses u e s n t =
    Refuses-first _ _ (Refuses-map_error _ _ (Refuses-update_one users _ _))

-- A change of status with a stale etag returns no user and writes nothing.
pub update_status-Refuses :
    (user_id etag : String) (status : UserStatus) (t : ℕ) (w : World)
    → IsStale user_id etag w.db
    → Refused w.db (update_status user_id etag status t w)
unfolding update_status
update_status-Refuses u e s given w =
    (Refuses-later (when (u == "" || e == "") missing_argument) _ (λ d. Keeps-when _ _)
        λ _.
          Refuses-later new_id _ (λ d. Keeps-new_id)
            λ n.
              Refuses-later (time_or_now given) _ (λ d. Keeps-time_or_now given)
                λ t.
                  Refuses-first (in_tx (write_status u e s n t)) _
                    (Refuses-in_tx _ (write_status-Refuses u e s n t))).at
      w

abbrev is_current : String → String → User → Bool
is_current user_id etag u = u.id == user_id && u.etag == etag

abbrev edit : String → ℕ → (Profile → Profile) → User → User
edit etag t change u =
    with_profile (change (profile_of u)) (record u { etag = etag; update_time = t })

-- After a write with another etag, the etag expected is stale.
stale :
    (user_id etag n : String) (t : ℕ) (change : Profile → Profile) (rows : List User)
    → n ≢ etag
    → any (is_current user_id etag) (set_where (is_current user_id etag) (edit n t change) rows)
      ≡ false
stale user_id etag n t change [] other = refl
stale user_id etag n t change (u ∷ us) other = elim (Bool-cases (is_current user_id etag u)) [
  | inl hit ↦ rw (hit, rewritten) (stale user_id etag n t change us other)
  | inr off ↦ rw (off, off) (stale user_id etag n t change us other)
]
  where
    rewritten : is_current user_id etag (edit n t change u) ≡ false
    rewritten = elim (Bool-cases (n == etag)) [
      | inl same ↦ absurd (other ((eq_iff n etag).0 same))
      | inr apart ↦ ground arith
    ]

-- The identifier drawn is one of those to come.
drawn :
    (etag : String) (ids : List String) (w : World) {v : World} {n : String}
    → new_id (record w { ids = ids }) ≡ ok n v
    → All (λ i. i ≢ etag) ids
    → n ≢ etag
unfolding new_id
drawn etag [] w h other e = absurd (clash h)
  where
    clash : {a : Error} {b : String} {x y : World} → ◌≡◌ {A = Outcome String} (err a x) (ok b y) → ⊥
    clash q = cc
drawn etag (i ∷ ids) w h other e = other.0 (value h ∙ e)
  where
    value : {a b : String} {x y : World} → ok a x ≡ ok b y → a ≡ b
    value q = cc

module _ (s : Services) where
  write_profile-Refuses :
      (u e n : String) (f : Profile → Profile) (t : ℕ)
      → Refuses (IsStale u e) (write_profile s u e n f t)
  unfolding write_profile
  write_profile-Refuses u e n f t = Refuses-map_error _ _ (Refuses-update_one users _ _)

  fields-Refuses :
      (u e : String) (p : Option Profile) (m : List String)
      → Refuses (IsStale u e) (update_profile_fields s u e p m)
  unfolding update_profile_fields
  fields-Refuses u e p m =
      Refuses-later new_id _ (λ d. Keeps-new_id)
        λ n.
          Refuses-later (Users.intents s (s.clear_intents p m)) _ (λ d. Keeps-intents s _)
            λ clear.
              Refuses-later now _ (λ d. Keeps-now)
                λ t.
                  Refuses-first (write_profile s u e n (λ x. set_paths p m (clear x)) t) _
                    (write_profile-Refuses u e n (λ x. set_paths p m (clear x)) t)

  -- An update of a user's profile with a stale etag returns no user and writes nothing.
  pub update_user-Refuses :
      (user_id etag : String) (profile : Option Profile) (mask : List String) (w : World)
      → IsStale user_id etag w.db
      → Refused w.db (update_user s user_id etag profile mask w)
  unfolding update_user
  update_user-Refuses u e p m w =
      (Refuses-later (when (e == "") missing_argument) _ (λ d. Keeps-when _ _)
          (λ _. fields-Refuses u e p m)).at
        w

  fields_ok :
      (u e : String) (p : Option Profile) (m : List String) (w : World) {v : World}
      {user : UserResource}
      → update_profile_fields s u e p m w ≡ ok user v
      → All (λ i. i ≢ e) w.ids
      → IsStale u e v.db
  unfolding update_profile_fields write_profile
  fields_ok u e p m w {v} {user} h fresh =
      let (n, a, drew, h1) = bind_ok new_id _ w h in
      let (clear, b, _, h2) = bind_ok (Users.intents s (s.clear_intents p m)) _ a h1 in
      let (t, c, _, h3) = bind_ok now _ b h2 in
      let (row, x, wrote, last) =
        bind_ok (write_profile s u e n (λ z. set_paths p m (clear z)) t) (λ r. get_user r.id) c
          h3 in
      let (_, _, _, result) =
        update_one_ok users (is_current u e) (edit n t (λ z. set_paths p m (clear z))) c (
          map_error_ok missed
            (update_one users (is_current u e) (edit n t (λ z. set_paths p m (clear z)))) c
            wrote) in
      subst (IsStale u e)
        (sym (reads_ok (get_user row.id) x (λ d. Keeps-get_user row.id) last ∙ result))
        (stale u e n t (λ z. set_paths p m (clear z)) c.db.users (drawn e w.ids w drew fresh))

  -- Where the etag is none of the identifiers to come, of two updates of a user that expect it the
  -- second is refused, returning no user and writing nothing, where the first returned.
  pub second_update-Refused :
      (user_id etag : String) (p q : Option Profile) (m n : List String) (w v : World)
      (user : UserResource)
      → All (λ i. i ≢ etag) w.ids
      → update_user s user_id etag p m w ≡ ok user v
      → Refused v.db (update_user s user_id etag q n v)
  unfolding update_user
  second_update-Refused user_id etag p q m n w v user fresh h =
      let (_, a, given, first) = bind_ok (when (etag == "") missing_argument) _ w h in
      let same : a ≡ w = (when_ok (etag == "") missing_argument w given).1 in
      update_user-Refuses user_id etag q n v (
        fields_ok user_id etag p m a first
          (subst (λ (z : World). All (λ i. i ≢ etag) z.ids) (sym same) fresh))
