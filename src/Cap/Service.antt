-- ===== src/Cap/Service.antt =====
-- security/cap/cap.go: the service, its policy, and the state that its calls share. Redis, the
-- hashes of Go's crypto packages, base64 and the JSON of the claims are parameters: Redis promises
-- that a key reads as it was last written until it expires, base64 and JSON that decoding undoes
-- encoding.
use servora_platform.Common.{
  ℕ, zero, suc, ◌+◌, ◌-◌, ◌≡◌, ◌≢◌, Bool, true, false, List, [], ◌∷◌, Option, none, some, is_some,
  All,
}
use servora_platform.Cap.Bytes.{Bytes, ℤ}
use servora_platform.Cap.Hex.{encode_hex}

pub record ChallengeParams : Type 0 where
  pub c : ℤ
  pub s : ℤ
  pub d : ℤ

pub record ChallengeClaims : Type 0 where
  pub nonce : Bytes
  pub count : ℤ
  pub size : ℤ
  pub difficulty : ℤ
  pub expires : ℤ
  pub issued_at : ℤ
  pub scope : Bytes

-- The state of Redis, and its commands on text values.
pub record Redis : Type 1 where
  pub State : Type 0
  pub get : Bytes → State → Option Bytes
  -- PSETEX with a number of milliseconds
  pub psetex : Bytes → ℕ → Bytes → State → State
  pub del : Bytes → State → State
  -- what a number of milliseconds leaves
  pub pass : ℕ → State → State
  -- PTTL: how long the key stays
  pub pttl : Bytes → State → ℕ
  pub get-pttl : (k : Bytes) (n : ℕ) (s : State) → pttl k s ≡ suc n → is_some (get k s) ≡ true
  pub pttl-psetex : (k : Bytes) (n : ℕ) (v : Bytes) (s : State) → pttl k (psetex k n v s) ≡ n
  pub pttl-psetex_other :
      (k k' : Bytes) (n : ℕ) (v : Bytes) (s : State) → k ≢ k' → pttl k (psetex k' n v s) ≡ pttl k s
  pub pttl-del_other : (k k' : Bytes) (s : State) → k ≢ k' → pttl k (del k' s) ≡ pttl k s
  pub pttl-pass : (k : Bytes) (n : ℕ) (s : State) → pttl k (pass n s) ≡ pttl k s - n
  pub get-psetex_other :
      (k k' : Bytes) (n : ℕ) (v : Bytes) (s : State) → k ≢ k' → get k (psetex k' n v s) ≡ get k s
  pub get-del : (k : Bytes) (s : State) → get k (del k s) ≡ none
  pub get-del_other : (k k' : Bytes) (s : State) → k ≢ k' → get k (del k' s) ≡ get k s
  -- a key that is absent stays so
  pub get-pass : (k : Bytes) (n : ℕ) (s : State) → get k s ≡ none → get k (pass n s) ≡ none

pub record Codecs : Type 0 where
  pub sha256 : Bytes → Bytes
  pub hmac_sha256 : Bytes → Bytes → Bytes
  pub encode_base64 : Bytes → Bytes
  pub decode_base64 : Bytes → Option Bytes
  -- none is an error
  pub marshal : ChallengeClaims → Option Bytes
  pub unmarshal : Bytes → Option ChallengeClaims
  pub decode-encode : (bs : Bytes) → decode_base64 (encode_base64 bs) ≡ some bs
  -- the alphabet has no dot
  pub encode-free : (bs : Bytes) → All (λ b. b ≢ 46) (encode_base64 bs)
  pub encode-ne-nil : (b : ℕ) (bs : Bytes) → encode_base64 (b ∷ bs) ≢ []
  pub unmarshal-marshal :
      (c : ChallengeClaims) (bs : Bytes) → marshal c ≡ some bs → unmarshal bs ≡ some c
  pub marshal-ne-nil : (c : ChallengeClaims) (bs : Bytes) → marshal c ≡ some bs → bs ≢ []
  pub hmac-ne-nil : (k m : Bytes) → hmac_sha256 k m ≢ []

pub record Cap : Type 0 where
  pub signing_secret : Bytes
  pub key_prefix : Bytes
  pub challenge_params : ChallengeParams
  -- durations in nanoseconds
  pub challenge_ttl : ℤ
  pub token_ttl : ℤ
  pub default_scope : Bytes

pub data Error : Type 0 where
  invalid_params expiration_not_positive generator not_signed : Error
  invalid_token expired_token redis_failed token_collision : Error

-- The state of Redis, the milliseconds of the clock, how far it moves before its next readings, the
-- random bytes to come, and whether each of the next scripts fails.
pub record World (S : Type 0) : Type 0 where
  pub store : S
  pub time : ℕ
  pub delays : List ℕ
  pub entropy : List ℕ
  pub faults : List Bool

pub data Outcome (S A : Type 0) : Type 0 where
  ok : A → World S → Outcome S A
  err : Error → World S → Outcome S A

abbrev pub M : Type 0 → Type 0 → Type 0
M S A = World S → Outcome S A

infixl 5 ◌>>=◌ ◌>>◌
abbrev pub ◌>>=◌ : {S A B : Type 0} → M S A → (A → M S B) → M S B
◌>>=◌ act next w = elim (act w) [ ok value w' ↦ next value w' | err e w' ↦ err e w' ]

abbrev pub ◌>>◌ : {S A B : Type 0} → M S A → M S B → M S B
first >> second = first >>= λ _. second

abbrev pub pure : {S A : Type 0} → A → M S A
pure a w = ok a w

abbrev pub raise : {S A : Type 0} → Error → M S A
raise e w = err e w

abbrev pub after : {S A : Type 0} → Outcome S A → World S
after (ok a w) = w
after (err e w) = w

abbrev pub when : {S : Type 0} → Bool → Error → M S (Unit {0})
when true e = raise e
when false e = pure tt

-- The Boolean answer of a check that returns an error or nil.
abbrev pub lift : {S A : Type 0} → Error → Option A → M S A
lift e none = raise e
lift e (some a) = pure a

-- `rand.Read` of so many bytes.
unfoldable pub random_from : {S : Type 0} → ℕ → List ℕ → World S → Outcome S Bytes
random_from zero rest w = ok [] (record w { entropy = rest })
random_from (suc n) [] w = err generator w
random_from (suc n) (b ∷ rest) w = elim (random_from n rest w) [
  | ok bs w' ↦ ok (b ∷ bs) w'
  | err e w' ↦ err e w'
]

unfoldable pub random_hex : {S : Type 0} → ℕ → M S Bytes
random_hex n w = elim (random_from n w.entropy w) [
  | ok bs w' ↦ ok (encode_hex bs) w'
  | err e w' ↦ err e w'
]

module _ (redis : Redis) where
  -- `c.now().UnixMilli()`; Redis sees the time pass too.
  unfoldable pub now : M redis.State ℕ
  now w = elim w.delays [
    | [] ↦ ok w.time w
    | d ∷ rest ↦
        ok (w.time + d)
          (record w { time = w.time + d; delays = rest; store = redis.pass d w.store })
  ]

  -- A script or command on its way to Redis: it runs at once and alone.
  unfoldable pub run_script : {A : Type 0} → (redis.State → A × redis.State) → M redis.State A
  run_script f w = elim w.faults [
    | [] ↦ ok (f w.store).0 (record w { store = (f w.store).1 })
    | true ∷ rest ↦ err redis_failed (record w { faults = rest })
    | false ∷ rest ↦ ok (f w.store).0 (record w { store = (f w.store).1; faults = rest })
  ]
