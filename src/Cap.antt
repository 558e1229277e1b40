-- ===== src/Cap.antt =====
-- security/cap/cap.go: the proof-of-work server. Texts and Go's integers stand in Bytes, the random
-- digits of a challenge in Prng, hex texts and prefixes in Hex, the service's state in Service, the
-- signed challenges in Challenge, the exchange of a proof for a token in Redeem, and the
-- consumption of tokens in Tokens.
pub mod Bytes
pub mod Prng
pub mod Hex
pub mod Prefix
pub mod Service
pub mod Challenge
pub mod Redeem
pub mod Tokens
pub mod Keeps
pub mod Laws
pub mod Replay
pub mod Calls
pub mod Once
pub mod Redemption
pub mod Consumption
pub mod Roundtrip
mod Samples
mod Tests
