-- ===== src/Iam/Oidc/Redemption.antt =====
-- The exchange of an authorization code for tokens, and that it happens at most once.
use servora_platform.Common.{
  ℕ, String, ◌==◌, eq_iff, ◌≡◌, ◌≢◌, ◌∙◌, sym, ap, Bool, true, false, List,
}
use servora_platform.Iam.Schema.{Db, TokenSession, AccessToken, RefreshToken}
use servora_platform.Iam.Schema.Tables.{token_sessions, access_tokens, refresh_tokens}
use servora_platform.Iam.Store.{World, ok, when, not_ready, invalid_grant, pure}
use servora_platform.Iam.Store.Keeps.{
  Keeps, Keeps-seq, Keeps-when, Keeps-now, Keeps-new_id, Keeps-new_secret, Keeps-pure, keeps_rules,
}
use servora_platform.Iam.Store.Laws.{bind_ok}
use servora_platform.Iam.Store.Gains.{Gains, Gains-then, Gains-later, Gains-in_tx, Gains-map_error}
use servora_platform.Iam.Oidc.Requests.{AuthorizationRequest}
use servora_platform.Iam.Oidc.Tokens.{
  TokenRequest, TokenGrant, Granted, session, replay, authorization, refresh, unsupported, grant_of,
  is_unready, consume_authorization_code, open_token_session, token_grant_from_request,
  start_session, store_tokens, store_access_token, store_refresh_token, create_access_token,
  create_access_and_refresh_tokens,
}
use servora_platform.Iam.Oidc.Calls.{Call, perform, run, creates_access_token, creates_tokens}
use servora_platform.Iam.Oidc.Frame.{run_induction, call_rules}
use servora_platform.Iam.Oidc.SingleUse.{
  IsSpent, HasCodeKeys, consume-Gains, IsSpent-Gains, perform-IsSpent,
}

-- The calls that exchange the code for tokens.
unfoldable pub redeems : String → Call → Bool
redeems c (creates_access_token (authorization r)) = r.authorization_code_id == c
redeems c (creates_tokens (authorization r)) = r.authorization_code_id == c
redeems c _ = false

granted_ok :
    (r : AuthorizationRequest) (w : World) {u : World} {g : TokenGrant}
    → token_grant_from_request (authorization r) w ≡ ok g u
    → grant_of r ≡ g
unfolding token_grant_from_request
granted_ok r w h =
    let (_, x, checked, last) =
      bind_ok (when (is_unready r) not_ready) (λ _. pure (grant_of r)) w h in
    cc

-- What the consumption of a code gains, an exchange of the code gains: the rest of it writes
-- sessions and tokens only.
module _ {P Q : Db → Type 0} (c : String)
    (consumes : (s : String) (t : ℕ) → Gains P Q (consume_authorization_code c s t))
    (free_sessions : (d : Db) (rs : List TokenSession) → Q d → Q (token_sessions.put d rs))
    (free_access : (d : Db) (rs : List AccessToken) → Q d → Q (access_tokens.put d rs))
    (free_refresh : (d : Db) (rs : List RefreshToken) → Q d → Q (refresh_tokens.put d rs)) where
  pays : (i s : String) (t : ℕ) → i ≡ c → Gains P Q (consume_authorization_code i s t)
  pays i s t e = rw e (consumes s t)

  opens :
      (g : TokenGrant) (s f : String) (t : ℕ)
      → g.code_id ≡ c
      → Gains P Q (open_token_session g s f t)
  unfolding open_token_session
  opens g s f t e = Gains-then _ _ (pays g.code_id s t e) (λ _. search call_rules depth 10)

  stores_access : (g : TokenGrant) (a s : String) (t : ℕ) → Keeps Q (store_access_token g a s t)
  unfolding store_access_token
  stores_access g a s t = search keeps_rules depth 10

  Keeps-grant : (r : TokenRequest) → Keeps P (token_grant_from_request r)
  Keeps-grant r = search call_rules

  module _ (r : AuthorizationRequest) (e : r.authorization_code_id ≡ c) where
    same :
        (g : TokenGrant) (w u : World)
        → token_grant_from_request (authorization r) w ≡ ok g u
        → g.code_id ≡ c
    unfolding grant_of
    same g w u h = sym (ap (λ (x : TokenGrant). x.code_id) (granted_ok r w h)) ∙ e

    issues_one : Gains P Q (create_access_token (authorization r))
    unfolding create_access_token
    issues_one = Gains-later _ _ (Keeps-grant _) λ g w u h. Gains-later _ _ Keeps-new_id λ a _ _ _.
        Gains-later _ _ Keeps-new_id λ s _ _ _. Gains-later _ _ Keeps-new_id λ f _ _ _.
          Gains-later _ _ Keeps-now λ t _ _ _.
            Gains-then _ _
              (Gains-map_error _ _ (
                Gains-in_tx _
                  (Gains-then _ _ (opens g s f t (same g w u h)) (λ _. stores_access g a s t))))
              (λ _. Keeps-pure _)

    starts : (t : ℕ) → Gains P Q (start_session (grant_of r) t)
    unfolding start_session grant_of
    starts t = Gains-later _ _ Keeps-new_id λ s _ _ _.
        Gains-later _ _ Keeps-new_id
          λ f _ _ _. Gains-then _ _ (opens (grant_of r) s f t e) (λ _. Keeps-pure _)

    module _ (hash : String → String) where
      stores :
          (g : TokenGrant) (a i s : String) (t : ℕ) (x : Granted)
          → Keeps Q (store_tokens hash g a i s t x)
      unfolding store_tokens store_refresh_token
      stores g a i s t replay = Keeps-pure _
      stores g a i s t (session n f p) = search (keeps_rules, stores_access) depth 10

      issues_two : Gains P Q (create_access_and_refresh_tokens hash (authorization r))
      unfolding create_access_and_refresh_tokens grant_of
      issues_two = Gains-later _ _ (Keeps-grant _) λ g w u h. rw (← granted_ok r w h) (
          Gains-later _ _ Keeps-new_id λ a _ _ _. Gains-later _ _ Keeps-new_id λ i _ _ _.
            Gains-later _ _ Keeps-new_secret λ s _ _ _. Gains-later _ _ Keeps-now λ t _ _ _.
              Gains-then _ _
                (Gains-map_error _ _
                  (Gains-in_tx _ (Gains-then _ _ (starts t) (stores (grant_of r) a i s t))))
                (λ b. Keeps-seq (when b invalid_grant) _ (Keeps-when _ _) (Keeps-pure _)))

  module _ (hash : String → String) where
    pub redeems-Gains : (call : Call) → redeems c call ≡ true → Gains P Q (perform hash call)
    unfolding perform redeems
    redeems-Gains (creates_access_token (authorization r)) e =
        Gains-then _ _ (issues_one r ((eq_iff _ _).0 e)) (λ _. Keeps-pure _)
    redeems-Gains (creates_tokens (authorization r)) e =
        Gains-then _ _ (issues_two r ((eq_iff _ _).0 e) hash) (λ _. Keeps-pure _)
    redeems-Gains (creates_access_token (refresh r)) e = cc
    redeems-Gains (creates_access_token unsupported) e = cc
    redeems-Gains (creates_tokens (refresh r)) e = cc
    redeems-Gains (creates_tokens unsupported) e = cc
    redeems-Gains (Call.creates_request _) e = cc
    redeems-Gains (Call.completes_request _ _ _ _) e = cc
    redeems-Gains (Call.saves_code _ _) e = cc
    redeems-Gains (Call.deletes_request _) e = cc
    redeems-Gains (Call.looks_up_refresh_token _) e = cc
    redeems-Gains (Call.terminates_session _ _) e = cc
    redeems-Gains (Call.revokes_token _ _ _) e = cc

module _ (hash_opaque_secret : String → String) where
  redeems-IsSpent :
      (c : String) (call : Call)
      → redeems c call ≡ true
      → Gains HasCodeKeys (IsSpent c) (perform hash_opaque_secret call)
  redeems-IsSpent c =
      redeems-Gains c (λ s t. consume-Gains c s t) (λ d rs h. h) (λ d rs h. h) (λ d rs h. h)
        hash_opaque_secret

  IsSpent-refused :
      (c : String) (call : Call)
      → redeems c call ≡ true
      → Gains (IsSpent c) (λ _. ⊥) (perform hash_opaque_secret call)
  IsSpent-refused c =
      redeems-Gains c (λ s t. IsSpent-Gains c s t) (λ d rs h. h) (λ d rs h. h) (λ d rs h. h)
        hash_opaque_secret

  -- Where the identifiers of the codes are distinct: once an exchange of an authorization code for
  -- tokens has returned, no exchange of that code returns after any further calls of the storage.
  pub redeem_code_once :
      (code : String) (first later : Call) (between : List Call) (w v x : World) {t u : Unit {0}}
      → HasCodeKeys w.db
      → redeems code first ≡ true
      → redeems code later ≡ true
      → perform hash_opaque_secret first w ≡ ok t v
      → perform hash_opaque_secret later (run hash_opaque_secret between v) ≢ ok u x
  redeem_code_once code first later between w v x keys is_first is_later returned again =
      (IsSpent-refused code later is_later).at (run hash_opaque_secret between v)
        (run_induction hash_opaque_secret (perform-IsSpent hash_opaque_secret code) between v
          ((redeems-IsSpent code first is_first).at w keys returned))
        again
