-- ===== src/Iam.antt =====
-- app/iam/service/internal: the identity service, its tables, its sessions and its OpenID storage.
pub mod Schema
pub mod Store
pub mod Oidc
pub mod Login
pub mod Account
