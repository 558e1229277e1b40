-- ===== src/Iam/Account/Disabling.antt =====
-- What disabling a user does: the user is out, with every session.
use servora_platform.Common.{
  ℕ, String, ◌==◌, eq_iff, ◌≡◌, refl, sym, ap, ◌∙◌, subst, Bool, true, false, not, ◌&&◌, ◌||◌, All,
  All-map, All-updated, arith, if◌then◌else◌,
}
use servora_platform.Iam.Schema.{Db, User}
use servora_platform.Iam.Schema.Tables.{users, authenticators}
use servora_platform.Iam.Store.{
  World, ok, ◌>>=◌, pure, map_error, when, missing_argument, session_revocation, new_id, now,
  update, update_one, in_tx,
}
use servora_platform.Iam.Store.Keeps.{Keeps, Keeps-when, Keeps-new_id, Keeps-now, keeps_rules}
use servora_platform.Iam.Store.Laws.{bind_ok, map_error_ok, update_one_ok, in_tx_ok}
use servora_platform.Iam.Store.Gains.{Keeps-ok}
use servora_platform.Iam.Login.Repo.{
  UserResource, UserStatus, translate_ent_error, to_status, time_or_now, get_user,
}
use servora_platform.Iam.Login.Usecase.{revoke_every_session}
use servora_platform.Iam.Login.Ending.{Keeps-time_or_now}
use servora_platform.Iam.Login.Revocation.{HasNoLogin, HasNoToken, revoke_every_session_ok}
use servora_platform.Iam.Account.Users.{missed, is_disabled, set_state, write_status, update_status}
use servora_platform.Iam.Account.Admin.{
  missed_as_user, check_change, write_change, change_status, disable_user,
}
use servora_platform.Iam.Account.Reads.{Keeps-get_user, Keeps-check_change, reads_ok}
use servora_platform.Iam.Account.Frame.{ends}
use servora_platform.Iam.Account.Spent.{sole_row}
use servora_platform.Iam.Login.Lookup.{IsUser, get_user_ok}
use servora_platform.Iam.Account.Status.{was_disabled}

-- Every row of the user is disabled.
abbrev pub IsDisabled : String → Db → Type 0
IsDisabled u d = All (λ x. x.id ≡ u → to_status x.status ≡ UserStatus.disabled) d.users

abbrev is_current : String → String → User → Bool
is_current u e x = x.id == u && x.etag == e

abbrev disable_at : String → ℕ → User → User
disable_at etag t x = record x { status = "disabled"; etag = etag; update_time = t }

write_status-IsDisabled :
    (u : String) (current : UserResource) (n : String) (t : ℕ) (w : World) {v : World}
    {x : Unit {0}}
    → IsUser u current w.db
    → write_status u current.entity.etag UserStatus.disabled n t w ≡ ok x v
    → IsDisabled u v.db
unfolding write_status to_status
write_status-IsDisabled u current n t w is_user h =
    let (_, a, wrote, rest) =
      bind_ok
        (map_error missed (update_one users (is_current u current.entity.etag) (disable_at n t))) _
        w h in
    let (_, _, _, result) =
      update_one_ok users (is_current u current.entity.etag) (disable_at n t) w (
        map_error_ok missed (update_one users (is_current u current.entity.etag) (disable_at n t)) w
          wrote) in
    Keeps-ok {P = IsDisabled u} states a
      (subst (IsDisabled u) (sym result) (
        All-updated (λ (x : User). (x.id == u) ≡ true → x ≡ current.entity)
          (λ (x : User). x.id ≡ u → to_status x.status ≡ UserStatus.disabled)
          (is_current u current.entity.etag) (disable_at n t) w.db.users (λ x _ _ _. refl)
          (λ x off only mine. absurd (other x off (only ((eq_iff x.id u).1 mine)) mine))
          (sole_row (λ x. x.id == u) w.db.users is_user.sole)))
      rest
  where
    other :
        (x : User) → is_current u current.entity.etag x ≡ false → x ≡ current.entity → x.id ≡ u → ⊥
    other x off same mine =
        ground
          (arith, eq_iff x.id u, eq_iff x.etag current.entity.etag, ap (λ (z : User). z.etag) same)

    states : Keeps (IsDisabled u) (
        now >>= λ written.
        map_error translate_ent_error
          (update authenticators (λ a. a.user_id == u) (set_state UserStatus.disabled t written))
        >>= λ _. pure tt)
    states = search keeps_rules depth 10

update_status-IsDisabled :
    (u : String) (current : UserResource) (given : ℕ) (w : World) {v : World} {user : UserResource}
    → IsUser u current w.db
    → update_status u current.entity.etag UserStatus.disabled given w ≡ ok user v
    → IsDisabled u v.db
unfolding update_status
update_status-IsDisabled u current given w is_user h =
    let etag = current.entity.etag in
    let (_, a, given_both, h1) = bind_ok (when (u == "" || etag == "") missing_argument) _ w h in
    let same_a =
      reads_ok (when (u == "" || etag == "") missing_argument) w (λ d. Keeps-when _ _) given_both in
    let (n, b, drawn, h2) = bind_ok new_id _ a h1 in
    let same_b = reads_ok new_id a (λ d. Keeps-new_id) drawn ∙ same_a in
    let (t, c, read, h3) = bind_ok (time_or_now given) _ b h2 in
    let same_c = reads_ok (time_or_now given) b (λ d. Keeps-time_or_now given) read ∙ same_b in
    let (_, x, committed, last) =
      bind_ok (in_tx (write_status u etag UserStatus.disabled n t)) _ c h3 in
    let (start, finish, same_start, body, same_finish) =
      in_tx_ok (write_status u etag UserStatus.disabled n t) c committed in
    Keeps-ok {P = IsDisabled u} (Keeps-get_user u) x
      (subst (IsDisabled u) (sym same_finish) (
        write_status-IsDisabled u current n t start
          (subst (IsUser u current) (sym (same_start ∙ same_c)) is_user) body))
      last

same_world : {a b : UserResource} {y z : World} → ok a y ≡ ok b z → y.db ≡ z.db
same_world q = cc

write_change-IsDisabled :
    (u : String) (current : UserResource) (t : ℕ) (w : World) {v : World} {user : UserResource}
    → IsUser u current w.db
    → write_change u UserStatus.disabled current t w ≡ ok user v
    → IsDisabled u v.db
unfolding write_change
write_change-IsDisabled u current t w is_user h = by_status (is_disabled current.status) refl h
  where
    by_status :
        {v : World} {user : UserResource} (b : Bool)
        → is_disabled current.status ≡ b
        → (if not b
              then map_error missed_as_user
                  (update_status u current.entity.etag UserStatus.disabled t)
              else pure current)
            w
          ≡ ok user v
        → IsDisabled u v.db
    by_status false off h = update_status-IsDisabled u current t w is_user (
        map_error_ok missed_as_user (update_status u current.entity.etag UserStatus.disabled t) w h)
    by_status true on h =
        subst (λ (d : Db). IsDisabled u d) (same_world h)
          (All-map (λ (x : User). (x.id == u) ≡ true → x ≡ current.entity) _ w.db.users
            (λ x only mine.
              ap (λ (z : User). to_status z.status) (only ((eq_iff x.id u).1 mine))
              ∙ sym is_user.status
              ∙ was_disabled current.status on)
            (sole_row (λ x. x.id == u) w.db.users is_user.sole))

ends-IsDisabled : (u x : String) → Keeps (IsDisabled u) (revoke_every_session x)
ends-IsDisabled u x =
    ends
      (record {
        in_sessions = λ d rs p. p;
        in_token_sessions = λ d rs p. p;
        in_access_tokens = λ d rs p. p;
        in_refresh_tokens = λ d rs p. p;
      })
      x

-- A call that disabled a user and returned leaves the user disabled, with no login session and no
-- token session that is not revoked.
pub disable_user_ok :
    (user_id expected_etag : String) (w v : World) (user : UserResource)
    → disable_user user_id expected_etag w ≡ ok user v
    → IsDisabled user_id v.db × HasNoLogin user_id v.db × HasNoToken user_id v.db
unfolding disable_user change_status
disable_user_ok u e w v user h =
    let (current, a, found, h1) = bind_ok (get_user u) _ w h in
    let same_a = reads_ok (get_user u) w (λ d. Keeps-get_user u) found in
    let (_, b, checked, h2) = bind_ok (check_change UserStatus.disabled e current) _ a h1 in
    let same_b =
      reads_ok (check_change UserStatus.disabled e current) a
        (λ d. Keeps-check_change UserStatus.disabled e current) checked
      ∙ same_a in
    let (t, c, read, h3) = bind_ok now _ b h2 in
    let same_c = reads_ok now b (λ d. Keeps-now) read ∙ same_b in
    let (updated, x, wrote, h4) = bind_ok (write_change u UserStatus.disabled current t) _ c h3 in
    let (_, y, ended, last) =
      bind_ok (map_error (λ _. session_revocation) (revoke_every_session u)) (λ _. pure updated) x
        h4 in
    let ended' = map_error_ok (λ _. session_revocation) (revoke_every_session u) x ended in
    let out =
      write_change-IsDisabled u current t c
        (subst (IsUser u current) (sym same_c) (get_user_ok u w found)) wrote in
    let still = Keeps-ok (ends-IsDisabled u u) x out ended' in
    subst (λ (d : Db). IsDisabled u d × HasNoLogin u d × HasNoToken u d) (same_world last)
      (still, (revoke_every_session_ok u x ended').0, (revoke_every_session_ok u x ended').1)
