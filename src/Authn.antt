-- ===== src/Authn.antt =====
-- security/authn/session: the authentication of calls by a session cookie. Session holds the
-- authenticator and the middleware, Trusted who a call is made for, Together the authorization that
-- follows.
pub mod Session
pub mod Together
pub mod Trusted
mod Tests
