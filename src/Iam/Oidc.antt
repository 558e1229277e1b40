-- ===== src/Iam/Oidc.antt =====
-- app/iam/service/internal/oidc: the storage behind the OpenID provider. Requests and codes stand in
-- Requests, tokens and their rotation in Tokens, the calls by a refresh token, the revocations and
-- the lookups in Sessions, and what a client is told of a token in Claims.
pub mod Requests
pub mod Tokens
pub mod Sessions
pub mod Claims
pub mod Calls
pub mod Frame
pub mod SingleUse
pub mod Redemption
pub mod Replay
pub mod Atomic
mod Tests
