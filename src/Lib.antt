-- ===== src/Lib.antt =====
-- Verification of Servora Platform: the accounts, the OpenID storage and the login sessions of the
-- identity service, the authentication and authorization of calls, and the proof-of-work server.
--
-- The parts and where they are modelled
--   * app/iam/service/internal/data/schema: Iam/Schema, one record per ent schema with its columns,
--     and Iam/Schema/Tables, the validators and unique keys of each table.
--   * The runtime of the identity service: Iam/Store. An action takes the state (the tables, the
--     clock, the identifiers and secrets to come, and a script of failing statements) and returns a
--     value or an error with the state after it. The statements do what ent documents for Only,
--     Exist, Update, UpdateOneID, Create and Delete; in_tx is inTx of oidc/storage.go and InTx of
--     data/data.go. Store/Keeps and Store/Gains hold the rules for what actions keep and establish,
--     Store/Laws what an action that returned has done, Store/Quiet what happens where no statement
--     fails.
--   * app/iam/service/internal/oidc: Iam/Oidc. Requests holds authorization requests and codes, Tokens
--     the issue and rotation of tokens, Sessions the lookup of refresh tokens and the revocations,
--     Claims the introspection and the user info. Calls is any sequence of calls of the storage; Frame,
--     SingleUse, Redemption, Replay and Atomic hold the proofs.
--   * app/iam/service/internal/data/authn.go, data/errors.go and biz/session.go: Iam/Login. Repo holds
--     the repositories, Usecase the use cases, Calls any sequence of calls; Ending, Lookup, Resolution,
--     Revocation and Logout hold the proofs.
--   * app/iam/service/internal/data/account.go, data/user.go, data/initial_admin_creator.go and
--     biz/account.go, biz/authn.go, biz/user.go, biz/admin_initializer.go: Iam/Account. Users holds the
--     rows of users, Tokens the tokens of verification and reset, Usecase the life of an account, Login
--     the login by password, Admin the administration, Services what they take from outside, with
--     biz/identity.go and security/password/password.go. Calls is any sequence of calls; Reads, Frame
--     and Steps say what keeps a property of the database through them. Spent, Verification, Recovery,
--     Reset and SingleReset hold the proofs on tokens, Found, Opening and Entry those on the login,
--     Status, Moving, Life, Disabling, Etags and Creation those on users.
--   * security/cap/cap.go: Cap. Prng is fnv1a and prng on words of 32 bits, Hex the hex texts and the
--     prefix test, Service the state and the promises of Redis, Challenge the creation and verification
--     of challenges, Redeem the exchange of a proof, Tokens the consumption of verification tokens.
--     Calls, Keeps, Laws, Replay, Once, Redemption, Roundtrip, Prefix and Consumption hold the
--     proofs.
--   * security/authz and security/actor.go: Authz. Text holds the names of OpenFGA, Actor who a call is
--     made for, Check the calls of OpenFGA, Message the resource that a request names, Server the
--     middleware and its rules. Objects, Guard, Batches and Correlation hold the proofs.
--   * security/authn/session: Authn. Session holds the authenticator, the credential of a cookie and the
--     middleware, Trusted and Together the proofs, the latter with the authorization that follows.
--
-- How they interact: a login session binds an authorization request (CompleteAuthRequest), whose code
-- is exchanged for a token session; logging out revokes the login session and its token sessions. A
-- login by password opens a login session; a reset of the password and the disabling of a user end
-- every session of the user. The authorization of a call reads the actor that its authentication left
-- in the context.
-- The parts share the tables of Iam/Store. Calls on a database follow each other: a transaction is
-- taken as one step, as serializable isolation makes it. A script or command of Redis is one step,
-- and time passes, for Redis as for the service, at each reading of the clock.
--
-- Parameters: the hash of secrets, the parsing of locales; for the accounts the trimming and folding of
-- text, Argon2id, the mail sender, the writer of relations, the check of a proof-of-work token and the
-- Clear intents of an update, of which the theorems only ask that they leave the database alone; for the
-- proof-of-work server SHA-256, HMAC, base64, the JSON of claims and Redis, with the laws that the code
-- relies on; for the authorization OpenFGA's client, the mapping of an actor to a subject, what the
-- package unicode knows of runes, and the texts of numbers; for the authentication the resolver of a
-- credential, the mapping of its identity to an actor, the extender and the parsing of cookies.
--
-- Bounds: times are natural numbers, nanoseconds in Iam and milliseconds in Cap, and int64 durations
-- wrap as Go's do, so what is said of challenges is said up to 2 ^ 43 milliseconds. The text of a number
-- takes its value as fuel, which is never less than its count of digits for a number above 0, and 0
-- takes the last digit alone. The attempts to issue a token are the three of the source.
--
-- Not modelled: HTTP handlers, mail, key rotation, the listing of users, the authentication by token,
-- code generators, the audit and example services, and generated code. The context of a call is never
-- cancelled but where Authn reads it; error texts and logging are left out; a joined error is its first,
-- but for the cancellation that Authn looks for in it.
pub mod Common
pub mod Iam
pub mod Cap
pub mod Authz
pub mod Authn
