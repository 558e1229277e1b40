-- ===== src/Iam/Account.antt =====
-- The accounts of the identity service: Users are the rows of users with their identifiers and
-- passwords, Tokens the tokens of verification and reset, Usecase the life of an account, Login the
-- login by password, Admin the administration of users. Services is what they take from outside.
pub mod Services
pub mod Users
pub mod Tokens
pub mod Usecase
pub mod Login
pub mod Admin
pub mod Calls
pub mod Reads
pub mod Frame
pub mod Steps
pub mod Spent
pub mod Verification
pub mod Recovery
pub mod Reset
pub mod SingleReset
pub mod Found
pub mod Status
pub mod Moving
pub mod Life
pub mod Disabling
pub mod Etags
pub mod Creation
pub mod Opening
pub mod Entry
mod Tests
