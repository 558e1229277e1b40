-- ===== src/Iam/Oidc/Replay.antt =====
-- A refresh token that was consumed before betrays its session: presenting it again revokes the
-- session and all its tokens.
use servora_platform.Common.{
  ℕ, String, ◌==◌, eq_iff, ◌≡◌, refl, sym, ◌∙◌, subst, true, false, ◌&&◌, [], ◌∷◌, Option, none,
  some, is_some, is_none, All, All-written, select, set_where, arith,
}
use servora_platform.Iam.Schema.{Db, TokenSession, AccessToken, RefreshToken}
use servora_platform.Iam.Schema.Tables.{token_sessions, access_tokens, refresh_tokens}
use servora_platform.Iam.Store.{
  World, ok, err, M, ◌>>=◌, pure, map_error, missing_as, now, only, update, in_tx,
  storage_not_found,
}
use servora_platform.Iam.Store.Quiet.{
  IsQuiet, bind_run, map_error_run, now_run, only_run, update_run, in_tx_run,
}
use servora_platform.Iam.Oidc.Tokens.{RefreshTokenRequest, revoke_token_session}
use servora_platform.Iam.Oidc.Sessions
use servora_platform.Iam.Oidc.Sessions.{answer_refresh, token_request_by_refresh_token}

-- The session of the identifier and all its tokens are revoked.
abbrev pub IsRevoked : String → Db → Type 0
IsRevoked s d =
    All (λ x. x.id ≡ s → is_some x.revoked_time ≡ true) d.token_sessions
    × All (λ x. x.token_session_id ≡ s → is_some x.revoked_time ≡ true) d.access_tokens
    × All (λ x. x.token_session_id ≡ s → is_some x.revoked_time ≡ true) d.refresh_tokens

module _ (s : String) (t : ℕ) where
  abbrev sessions_after : Db → Db
  sessions_after d = token_sessions.put d (
      set_where (λ x. x.id == s && is_none x.revoked_time) (λ x. record x { revoked_time = some t })
        d.token_sessions)

  abbrev access_after : Db → Db
  access_after d = access_tokens.put d (
      set_where (λ x. x.token_session_id == s && is_none x.revoked_time)
        (λ x. record x { revoked_time = some t }) d.access_tokens)

  abbrev refresh_after : Db → Db
  refresh_after d = refresh_tokens.put d (
      set_where (λ x. x.token_session_id == s && is_none x.revoked_time)
        (λ x. record x { revoked_time = some t }) d.refresh_tokens)

  -- Whatever stands in the columns, an update of the rows that are not revoked revokes them.
  left_revoked :
      (i : String) (o : Option ℕ) → (i == s && is_none o) ≡ false → i ≡ s → is_some o ≡ true
  left_revoked i o h e = ground (arith, eq_iff i s)

  revoke-IsRevoked : (d : Db) → IsRevoked s (refresh_after (access_after (sessions_after d)))
  revoke-IsRevoked d = (
    All-written (λ (x : TokenSession). x.id ≡ s → is_some x.revoked_time ≡ true) _ _
        d.token_sessions (λ x _ _. refl) (λ x off. left_revoked x.id x.revoked_time off),
    All-written (λ (x : AccessToken). x.token_session_id ≡ s → is_some x.revoked_time ≡ true) _ _
        d.access_tokens (λ x _ _. refl)
        (λ x off. left_revoked x.token_session_id x.revoked_time off),
    All-written (λ (x : RefreshToken). x.token_session_id ≡ s → is_some x.revoked_time ≡ true) _ _
        d.refresh_tokens (λ x _ _. refl)
        (λ x off. left_revoked x.token_session_id x.revoked_time off),
  )

  revoke_token_session_run :
      (w : World)
      → IsQuiet w
      → revoke_token_session s t w
        ≡ ok tt (record w { db = refresh_after (access_after (sessions_after w.db)) })
  unfolding revoke_token_session
  revoke_token_session_run w quiet =
      bind_run (update token_sessions _ _) _ w (update_run token_sessions _ _ w quiet)
      ∙ bind_run (update access_tokens _ _) _ _
          (update_run access_tokens _ _ (record w { db = sessions_after w.db }) quiet)
      ∙ bind_run (update refresh_tokens _ _) _ _ (
          update_run refresh_tokens _ _ (record w { db = access_after (sessions_after w.db) })
            quiet)

module _ (hash_opaque_secret : String → String) (refresh_token : String) (token : RefreshToken)
    (stored : TokenSession) (consumed : is_some token.consumed_time ≡ true) where
  abbrev Presented : Db → Type 0
  Presented d =
      (select (λ r. r.token_hash == hash_opaque_secret refresh_token) d.refresh_tokens ≡ token ∷ [])
      × (select (λ s. s.id == token.token_session_id) d.token_sessions ≡ stored ∷ [])

  abbrev found_token : M RefreshToken
  found_token =
      map_error (missing_as storage_not_found)
        (only refresh_tokens (λ r. r.token_hash == hash_opaque_secret refresh_token))

  abbrev found_session : M TokenSession
  found_session = only token_sessions (λ s. s.id == token.token_session_id)

  answer_run :
      (t : ℕ) (x : World)
      → IsQuiet x
      → answer_refresh token stored t x
        ≡ ok none (record x {
          db =
              refresh_after stored.id t
                (access_after stored.id t (sessions_after stored.id t x.db));
        })
  unfolding answer_refresh
  answer_run t x quiet = rw consumed (
      bind_run (revoke_token_session stored.id t) (λ _. pure none) x
        (revoke_token_session_run stored.id t x quiet))

  abbrev body : ℕ → M (Option RefreshTokenRequest)
  body t = in_tx (do
    token ← found_token
    stored ← only token_sessions (λ s. s.id == token.token_session_id)
    answer_refresh token stored t)

  body_run :
      (t : ℕ) (x : World)
      → IsQuiet x
      → Presented x.db
      → body t x
        ≡ ok none (record x {
          db =
              refresh_after stored.id t
                (access_after stored.id t (sessions_after stored.id t x.db));
        })
  body_run t x quiet (one, other) =
      in_tx_run _ x quiet
        (bind_run found_token _ x (
            map_error_run (missing_as storage_not_found)
              (only refresh_tokens (λ r. r.token_hash == hash_opaque_secret refresh_token)) x
              (only_run refresh_tokens _ x quiet one))
          ∙ bind_run found_session (λ s. answer_refresh token s t) x
              (only_run token_sessions _ x quiet other)
          ∙ answer_run t x quiet)
        quiet

  -- Where no statement fails: presenting a refresh token that was consumed before, whose session is
  -- in the table, is refused, and leaves the session and all its tokens revoked.
  pub replay_revokes_session :
      (w : World)
      → IsQuiet w
      → Presented w.db
      → (v : World) × (token_request_by_refresh_token hash_opaque_secret refresh_token w
          ≡ err storage_not_found v)
        × IsRevoked stored.id v.db
  unfolding token_request_by_refresh_token
  replay_revokes_session w quiet presented =
      let (t, x, read, same_faults, same_db) = now_run w in
      let quiet_x = same_faults ∙ quiet in
      let presented_x = subst Presented (sym same_db) presented in
      (
        record x {
          db =
              refresh_after stored.id t
                (access_after stored.id t (sessions_after stored.id t x.db));
        },
        bind_run now _ w read
            ∙ bind_run (body t) Sessions.request_or_replay x (body_run t x quiet_x presented_x),
        revoke-IsRevoked stored.id t x.db,
      )
