-- ===== src/Iam/Oidc/SingleUse.antt =====
-- An authorization code is redeemed at most once.
use servora_platform.Common.{
  ℕ, String, ◌==◌, eq_iff, ◌≡◌, ◌≢◌, refl, sym, ◌∙◌, ap, Bool, true, false, ◌&&◌, [], ◌∷◌, ◌++◌,
  some, is_some, is_none, ltb, any, All, All-append, All-set_where, All-map, All-updated,
  All-any-false, select-eq-nil, any-append, any-set_where, any-separates, select, set_where, length,
  any-length, any_mono, arith, Unique, Unique-append, Unique-set_where, Unique-only,
}
use servora_platform.Iam.Schema.{Db, AuthorizationCode}
use servora_platform.Iam.Schema.Tables.{codes}
use servora_platform.Iam.Store.{World, ok}
use servora_platform.Iam.Store.Keeps.{Keeps, Keeps-bind, Keeps-when, Keeps-update}
use servora_platform.Iam.Store.Laws.{write_one_ok}
use servora_platform.Iam.Store.Gains.{Gains}
use servora_platform.Iam.Oidc.Tokens.{consume_authorization_code}
use servora_platform.Iam.Oidc.Calls.{Call, perform}
use servora_platform.Iam.Oidc.Frame.{Keeps-perform}

-- The code is in the table, and every row of its identifier is consumed.
abbrev pub IsSpent : String → Db → Type 0
IsSpent c d =
    (any (λ x. x.id == c) d.codes ≡ true)
    × All (λ x. x.id ≡ c → is_some x.consumed_time ≡ true) d.codes

module _ (c : String) where
  set_codes-IsSpent :
      (p : AuthorizationCode → Bool) (f : AuthorizationCode → AuthorizationCode) (d : Db)
      → ((x : AuthorizationCode) → (f x).id ≡ x.id)
      → ((x : AuthorizationCode) → is_some (f x).consumed_time ≡ true)
      → IsSpent c d
      → IsSpent c (codes.put d (set_where p f d.codes))
  set_codes-IsSpent p f d same spent h = (
    any-set_where (λ x. x.id == c) p f d.codes (λ x. rw (same x)) ∙ h.0,
    All-set_where (λ (x : AuthorizationCode). x.id ≡ c → is_some x.consumed_time ≡ true) p f d.codes
        (λ x _ _ _. spent x) h.1,
  )

  add_code-IsSpent :
      (r : AuthorizationCode) (d : Db)
      → IsSpent c d
      → any (codes.clash r) d.codes ≡ false
      → IsSpent c (codes.put d (d.codes ++ r ∷ []))
  add_code-IsSpent r d h fresh =
      let (x, here, apart) = any-separates (λ x. x.id == c) (codes.clash r) d.codes h.0 fresh in
      (
        any-append _ d.codes (r ∷ []) h.0,
        All-append _ d.codes (r ∷ []) h.1
            (λ e. ground (arith, eq_iff x.id c, eq_iff r.id x.id), tt),
      )

  consume-IsSpent : (i s : String) (t : ℕ) → Keeps (IsSpent c) (consume_authorization_code i s t)
  unfolding consume_authorization_code
  consume-IsSpent i s t =
      Keeps-bind _ _ (Keeps-update codes _ _ (λ d. set_codes-IsSpent _ _ d (λ x. refl) (λ x. refl)))
        (λ n. Keeps-when _ _)

abbrev pub HasCodeKeys : Db → Type 0
HasCodeKeys d = Unique (λ (x : AuthorizationCode). x.id) d.codes

add_code-HasCodeKeys :
    (d : Db) (r : AuthorizationCode)
    → HasCodeKeys d
    → any (codes.clash r) d.codes ≡ false
    → HasCodeKeys (codes.put d (d.codes ++ r ∷ []))
add_code-HasCodeKeys d r u fresh =
    Unique-append (λ (x : AuthorizationCode). x.id) d.codes r u
      (All-map (λ x. codes.clash r x ≡ false) (λ x. r.id ≢ x.id) d.codes
        (λ x apart e. ground (arith, eq_iff r.id x.id)) (All-any-false _ d.codes fresh))

consume-HasCodeKeys : (i s : String) (t : ℕ) → Keeps HasCodeKeys (consume_authorization_code i s t)
unfolding consume_authorization_code
consume-HasCodeKeys i s t =
    Keeps-bind _ _
      (Keeps-update codes _ _
        (λ d u. Unique-set_where (λ (x : AuthorizationCode). x.id) _ _ d.codes (λ x. refl) u))
      (λ n. Keeps-when _ _)

pub perform-IsSpent :
    (hash : String → String) (c : String) (call : Call) → Keeps (IsSpent c) (perform hash call)
perform-IsSpent hash c =
    Keeps-perform (λ d rs h. h) (λ d rs h. h) (λ d rs h. h) (λ d rs h. h)
      (λ d r. add_code-IsSpent c r d) (consume-IsSpent c) hash

-- A call keeps the identifiers of the codes distinct.
pub perform-HasCodeKeys :
    (hash : String → String) (call : Call) → Keeps HasCodeKeys (perform hash call)
perform-HasCodeKeys hash =
    Keeps-perform (λ d rs h. h) (λ d rs h. h) (λ d rs h. h) (λ d rs h. h) add_code-HasCodeKeys
      consume-HasCodeKeys hash

-- The codes that a consumption takes: of the identifier, not consumed, not expired.
abbrev pub is_live : String → ℕ → AuthorizationCode → Bool
is_live i t c = c.id == i && is_none c.consumed_time && ltb t c.expires_time

is_live-id :
    (i : String) (t : ℕ) (c : AuthorizationCode) → is_live i t c ≡ true → (c.id == i) ≡ true
is_live-id i t c h = ground arith

pub consume_ok :
    (i s : String) (t : ℕ) (w : World) {v : World} {u : Unit {0}}
    → HasCodeKeys w.db
    → consume_authorization_code i s t w ≡ ok u v
    → IsSpent i v.db
unfolding consume_authorization_code
consume_ok i s t w {v} keys h =
    let (result, one) = write_one_ok codes (is_live i t) _ _ w h in
    let live : any (is_live i t) w.db.codes ≡ true = any-length _ w.db.codes one in
    rw result (
      any-set_where (λ x. x.id == i) _ _ w.db.codes (λ x. refl)
          ∙ any_mono (is_live i t) _ w.db.codes (is_live-id i t) live,
      All-updated (λ (x : AuthorizationCode). x.id ≡ i → is_live i t x ≡ true)
          (λ (x : AuthorizationCode). x.id ≡ i → is_some x.consumed_time ≡ true) (is_live i t)
          (λ x. record x { token_session_id = some s; consumed_time = some t }) w.db.codes
          (λ x _ _ _. refl) (λ x off only q. absurd (false_true (sym off ∙ only q)))
          (Unique-only (λ (x : AuthorizationCode). x.id) (is_live i t) i w.db.codes
            (λ x e. (eq_iff x.id i).0 (is_live-id i t x e)) keys live),
    )
  where
    false_true : false ≡ true → ⊥
    false_true e = cc

pub consume_spent :
    (i s : String) (t : ℕ) (w : World) {v : World} {u : Unit {0}}
    → IsSpent i w.db
    → consume_authorization_code i s t w ≢ ok u v
unfolding consume_authorization_code
consume_spent i s t w spent h =
    let (_, one) = write_one_ok codes (is_live i t) _ _ w h in
    let gone : select (is_live i t) w.db.codes ≡ [] =
      select-eq-nil (is_live i t) w.db.codes
        (All-map _ _ w.db.codes (λ x done. ground (arith, done, eq_iff x.id i)) spent.1) in
    absurd (omega (arith, sym one ∙ ap length gone))

pub consume-Gains :
    (i s : String) (t : ℕ) → Gains HasCodeKeys (IsSpent i) (consume_authorization_code i s t)
consume-Gains i s t = record { at = λ w keys. consume_ok i s t w keys }

-- A spent code pays for nothing.
pub IsSpent-Gains :
    (i s : String) (t : ℕ) → Gains (IsSpent i) (λ _. ⊥) (consume_authorization_code i s t)
IsSpent-Gains i s t = record { at = λ w spent h. consume_spent i s t w spent h }
