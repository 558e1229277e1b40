-- ===== src/Authz.antt =====
-- security/authz and security/actor.go: the authorization of calls by OpenFGA. Text holds the names
-- of subjects, relations and objects, Actor who calls, Check the calls of OpenFGA, Message the
-- resource that a request names, Server the middleware.
pub mod Text
pub mod Actor
pub mod Check
pub mod Message
pub mod Server
pub mod Objects
pub mod Guard
pub mod Batches
mod Tests
pub mod Correlation
