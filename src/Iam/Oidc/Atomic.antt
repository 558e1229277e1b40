-- ===== src/Iam/Oidc/Atomic.antt =====
-- A failed issue of tokens changes nothing.
use servora_platform.Common.{◌+◌, ◌≡◌}
use servora_platform.Iam.Store.{World, Error, err}
use servora_platform.Iam.Store.Keeps.{Keeps-now, Keeps-new_id}
use servora_platform.Iam.Store.Clean.{
  FailsClean, clean-map_error, clean-in_tx, clean-bind, clean-pure,
}
use servora_platform.Iam.Oidc.Tokens.{
  access_token_ttl, TokenRequest, token_grant_error, create_access_token,
}
use servora_platform.Iam.Oidc.Frame.{Keeps-grant}

clean-create_access_token : (request : TokenRequest) → FailsClean (create_access_token request)
unfolding create_access_token
clean-create_access_token request =
    clean-bind _ _ (λ d. Keeps-grant request)
      λ grant.
        clean-bind _ _ (λ d. Keeps-new_id)
          λ a.
            clean-bind _ _ (λ d. Keeps-new_id)
              λ s.
                clean-bind _ _ (λ d. Keeps-new_id)
                  λ f.
                    clean-bind _ _ (λ d. Keeps-now)
                      λ t.
                        clean-pure _ (λ _. (a, t + access_token_ttl))
                          (clean-map_error token_grant_error _ (clean-in_tx _))

-- An access token that is not issued leaves the database as it was: no code is consumed, no session
-- opened and no token stored.
pub create_access_token-err :
    (request : TokenRequest) (w v : World) (e : Error)
    → create_access_token request w ≡ err e v
    → v.db ≡ w.db
create_access_token-err request w v e = (clean-create_access_token request).at w
