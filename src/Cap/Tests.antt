-- ===== src/Cap/Tests.antt =====
-- Runs of the proof-of-work server on a small policy, and the theorems at concrete inputs.
use servora_platform.Common.{
  ℕ, zero, suc, ◌*◌, ◌^◌, ◌≡◌, ◌≢◌, refl, Bool, true, false, List, [], ◌∷◌, ◌++◌, Option, none,
  some, is_some, all, arith, ◌⊎◌, ltb, if◌then◌else◌, ◌≤◌,
}
use servora_platform.Cap.Bytes
use servora_platform.Cap.Bytes.{Bytes, ℤ, pos}
use servora_platform.Cap.Prng
use servora_platform.Cap.Hex
use servora_platform.Cap.Service
use servora_platform.Cap.Tokens
use servora_platform.Cap.Redeem
use servora_platform.Cap.Calls
use servora_platform.Cap.Once
use servora_platform.Cap.Prng.{prng}
use servora_platform.Cap.Prefix.{starts_with, matches_hex_prefix-starts_with}
use servora_platform.Cap.Hex.{encode_hex, matches_hex_prefix, is_lower_hex, is_lower_hex-prng}
use servora_platform.Cap.Service.{
  ChallengeClaims, Cap, World, Outcome, ok, err, after, now, expired_token, redis_failed,
}
use servora_platform.Cap.Challenge
use servora_platform.Cap.Challenge.{
  ChallengeResponse, signed_token, sign_challenge, create_challenge, verify_challenge,
  to_milliseconds, ttl_of, scope_of, params_of,
}
use servora_platform.Cap.Tokens.{
  token_key, validate_token, validate_token_with_scope, verification_key,
}
use servora_platform.Cap.Redeem.{
  RedeemResponse, failed, challenge_invalid_or_expired, redeem_challenge_with_scope, invalid_body,
}
use servora_platform.Cap.Calls.{Call, run, validates_token}
use servora_platform.Cap.Once.{is_success}
use servora_platform.Cap.Redemption.{redeem_challenge_once}
use servora_platform.Cap.Roundtrip.{mac_of, open-signed_token, verify-create_challenge}
use servora_platform.Cap.Consumption.{validate_token_ok, validate_token_with_scope_ok}
use servora_platform.Cap.Samples.{keys, plain, written}

abbrev policy : Cap
policy = record {
  signing_secret = [];
  key_prefix = 99 ∷ [];
  challenge_params = record { c = pos 1; s = pos 1; d = pos 1 };
  challenge_ttl = pos (600 * 10 ^ 9);
  token_ttl = pos (1200 * 10 ^ 9);
  default_scope = 115 ∷ [];
}

abbrev zeros : ℕ → Bytes
zeros zero = []
zeros (suc n) = 48 ∷ zeros n

abbrev claims : ChallengeClaims
claims = record {
  nonce = zeros 50;
  count = pos 1;
  size = pos 1;
  difficulty = pos 1;
  expires = pos 601000;
  issued_at = pos 1000;
  scope = 115 ∷ [];
}

abbrev token : Bytes
token = signed_token plain policy (written claims)

abbrev empty : World keys.State
empty = record { store = λ k. ([], 0); time = 1000; delays = []; entropy = zeros 100; faults = [] }

runtime : Unit {0}
unfolding Bytes.same Bytes.split Bytes.cut Bytes.contains_byte Bytes.hex_value Bytes.itoa
    Bytes.itoa_digits Bytes.milliseconds Bytes.signed64 Prng.fnv1a Prng.fnv1a_resume Prng.fnv1a_step
    Prng.prng_from_hash Prng.xorshift Prng.digit Prng.fill Prng.take Hex.encode_hex Hex.is_lower_hex
    Hex.is_lower_hex_byte Hex.matches_hex_prefix Service.random_from Service.random_hex Service.now
    Service.run_script Challenge.validate_challenge_params Challenge.params_of Challenge.ttl_of
    Challenge.scope_of Challenge.signed_token Challenge.sign_challenge Challenge.token_parts
    Challenge.read_claims Challenge.open_token Challenge.verify_challenge Challenge.create_challenge
    Tokens.hash_sha256 Tokens.token_key Tokens.verification_key Tokens.consume Tokens.consume_scoped
    Tokens.validate_token Tokens.validate_token_with_scope Redeem.valid_solution Redeem.valid_from
    Redeem.valid_solutions Redeem.check_proof Redeem.nonce_key Redeem.write_keys Redeem.issue
    Redeem.answer_issue Redeem.issue_token Redeem.redeem_proof Redeem.redeem_claims
    Redeem.redeem_challenge_with_scope Calls.perform Calls.run Once.is_success
runtime = tt

-- The solution: the target of the token is the digit 8.
abbrev solution : Option (List ℤ)
solution = some (pos 8 ∷ [])

abbrev first_run : Outcome keys.State RedeemResponse
first_run = redeem_challenge_with_scope plain policy keys token solution (115 ∷ []) empty

abbrev answer : Outcome keys.State RedeemResponse → RedeemResponse
answer (ok r w) = r
answer (err e w) = failed invalid_body

abbrev between : List Call
between = validates_token [] ∷ []

abbrev later_run : Outcome keys.State RedeemResponse
later_run =
    redeem_challenge_with_scope plain policy keys token solution []
      (run plain policy keys between (after first_run))

is_signed : sign_challenge plain policy claims ≡ some token
unfolding runtime
is_signed = refl

good_claims : Challenge.well_formed plain policy claims ≡ true
unfolding runtime
good_claims = refl

first_returns : first_run ≡ ok (answer first_run) (after first_run)
unfolding runtime
first_returns = refl

first_succeeds : is_success (answer first_run) ≡ true
unfolding runtime
first_succeeds = refl

later_returns : later_run ≡ ok (answer later_run) (after later_run)
unfolding runtime
later_returns = refl

later_time : (after later_run).time ≡ 1000
unfolding runtime
later_time = refl

redeem_challenge_once_example : is_success (answer later_run) ≡ false
redeem_challenge_once_example =
    redeem_challenge_once plain policy keys token claims
      (encode_hex (mac_of plain policy (written claims))) 601000 solution solution (115 ∷ []) []
      between empty (after first_run) (after later_run)
      (open-signed_token plain policy claims (written claims) refl good_claims) refl (omega arith)
      first_returns first_succeeds later_returns (omega (arith, later_time))

-- A challenge created at the start, and read a minute later.
abbrev created : Outcome keys.State ChallengeResponse
created = create_challenge plain policy keys none empty

abbrev no_challenge : ChallengeResponse
no_challenge = record { challenge = policy.challenge_params; token = []; expires = 0 }

abbrev response : Outcome keys.State ChallengeResponse → ChallengeResponse
response (ok r w) = r
response (err e w) = no_challenge

abbrev minute_later : World keys.State
minute_later = record (after created) { delays = 60000 ∷ [] }

create_returns : created ≡ ok (response created) (after created)
unfolding runtime
create_returns = refl

reading : now keys minute_later ≡ ok 61000 (after (now keys minute_later))
unfolding runtime
reading = refl

some_ttl : 1 ≤ to_milliseconds (ttl_of policy none)
unfolding ttl_of
some_ttl = omega arith

verify-create_challenge_example :
    (c : ChallengeClaims) × (sig : Bytes) × (c.scope ≡ scope_of policy none)
    × (record { c = c.count; s = c.size; d = c.difficulty } ≡ params_of policy none)
    × (verify_challenge plain policy keys (response created).token minute_later ≡ (
        if ltb (response created).expires 61000
        then err expired_token (after (now keys minute_later))
        else ok (c, sig) (after (now keys minute_later))))
verify-create_challenge_example =
    verify-create_challenge plain policy keys none empty (after created) minute_later
      (after (now keys minute_later)) (response created) 61000 (omega arith) some_ttl create_returns
      reading

-- A token of zeros, stored with the scope "s".
abbrev zero_token : Bytes
zero_token = zeros 16 ++ 58 ∷ zeros 30

abbrev zero_key : Bytes
zero_key = token_key plain policy (zeros 16) (zeros 30)

abbrev stored : World keys.State
stored = record empty { store = keys.psetex zero_key 1000 (115 ∷ []) empty.store }

abbrev validated : Outcome keys.State Bool
validated = validate_token plain policy keys zero_token stored

zero_token_key : verification_key plain policy zero_token ≡ some zero_key
unfolding runtime
zero_token_key = refl

validate_returns : validated ≡ ok true (after validated)
unfolding runtime
validate_returns = refl

validate_token_ok_example :
    (true ≡ is_some (keys.get zero_key stored.store))
    × (keys.get zero_key (after validated).store ≡ none)
validate_token_ok_example =
    validate_token_ok plain policy keys zero_token zero_key stored (after validated) true
      zero_token_key validate_returns

abbrev other_scope : Outcome keys.State Bool
other_scope = validate_token_with_scope plain policy keys zero_token (116 ∷ []) stored

other_scope_returns : other_scope ≡ ok false (after other_scope)
unfolding runtime
other_scope_returns = refl

validate_token_with_scope_ok_example :
    (false ≡ true)
      × (keys.get zero_key stored.store ≡ some (116 ∷ []))
      × (keys.get zero_key (after other_scope).store ≡ none)
    ⊎ (false ≡ false)
      × (keys.get zero_key stored.store ≢ some (116 ∷ []))
      × ((after other_scope).store ≡ stored.store)
validate_token_with_scope_ok_example =
    validate_token_with_scope_ok plain policy keys zero_token zero_key (116 ∷ []) stored
      (after other_scope) false zero_token_key other_scope_returns

is_lower_hex-prng_example : is_lower_hex (prng (115 ∷ []) 5) 5 ≡ true
is_lower_hex-prng_example = is_lower_hex-prng (115 ∷ []) 5

-- The target 0af against a digest that starts with 0aff.
abbrev target_0af : Bytes
target_0af = 48 ∷ 97 ∷ 102 ∷ []

target_is_lower : all Hex.is_lower_hex_byte target_0af ≡ true
unfolding runtime
target_is_lower = refl

matches_hex_prefix-starts_with_example :
    matches_hex_prefix (10 ∷ 255 ∷ []) target_0af
    ≡ starts_with target_0af (encode_hex (10 ∷ 255 ∷ []))
matches_hex_prefix-starts_with_example =
    matches_hex_prefix-starts_with (10 ∷ 255 ∷ []) target_0af (omega arith, (omega arith, tt))
      target_is_lower

-- A verification token of less than a millisecond is refused by Redis, and the challenge is spent.
abbrev hasty : Cap
hasty = record policy { token_ttl = pos 1 }

abbrev hasty_run : Outcome keys.State RedeemResponse
hasty_run = redeem_challenge_with_scope plain hasty keys token solution (115 ∷ []) empty

hasty_fails : hasty_run ≡ err redis_failed (after hasty_run)
unfolding runtime
hasty_fails = refl

hasty_retry :
    redeem_challenge_with_scope plain hasty keys token solution (115 ∷ []) (after hasty_run)
    ≡ ok (failed challenge_invalid_or_expired) (
        after (
          redeem_challenge_with_scope plain hasty keys token solution (115 ∷ []) (after hasty_run)))
unfolding runtime
hasty_retry = refl
