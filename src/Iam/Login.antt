-- ===== src/Iam/Login.antt =====
-- The login sessions of the identity service: the repositories in Repo, the use cases in Usecase.
pub mod Repo
pub mod Usecase
pub mod Ending
pub mod Lookup
pub mod Resolution
mod Tests
pub mod Calls
pub mod Logout
pub mod Revocation
