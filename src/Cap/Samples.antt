-- ===== src/Cap/Samples.antt =====
-- A Redis and codecs that keep the promises, and the data of the tests.
use servora_platform.Common.{
  ◌∙◌, sym, ℕ, zero, suc, ◌+◌, ◌-◌, ◌*◌, ◌≡◌, ◌≢◌, refl, ap, true, [], ◌∷◌, ◌++◌, map, Option, none,
  some, is_some, length, All, arith, if◌then◌else◌,
}
use servora_platform.Cap.Bytes.{Bytes, ℤ, pos, negsuc, same, same_refl}
use servora_platform.Cap.Service.{ChallengeClaims, Redis, Codecs}
use servora_platform.Cap.Roundtrip.{not_same}

-- What stands at each key, and for how long.
abbrev Keys : Type 0
Keys = Bytes → Bytes × ℕ

abbrev shown : Bytes × ℕ → Option Bytes
shown (v, zero) = none
shown (v, suc n) = some v

abbrev put : Bytes → Bytes × ℕ → Keys → Keys
put k e s k' = if same k' k then e else s k'

pub put-here : (k : Bytes) (e : Bytes × ℕ) (s : Keys) → put k e s k ≡ e
put-here k e s = rw (same_refl k)

pub put-there : (k k' : Bytes) (e : Bytes × ℕ) (s : Keys) → k ≢ k' → put k' e s k ≡ s k
put-there k k' e s apart = rw (not_same k k' apart)

pub shown-some : (e : Bytes × ℕ) (n : ℕ) → e.1 ≡ suc n → is_some (shown e) ≡ true
shown-some (v, zero) n h = absurd (omega (arith, h))
shown-some (v, suc m) n h = refl

pub shown-none : (e : Bytes × ℕ) (n : ℕ) → shown e ≡ none → shown (e.0, e.1 - n) ≡ none
shown-none (v, zero) n h = at_zero (0 - n) (omega arith)
  where
    at_zero : (m : ℕ) → m ≡ 0 → shown (v, m) ≡ none
    at_zero zero e = refl
    at_zero (suc m) e = absurd (omega arith)
shown-none (v, suc m) n h = cc

abbrev pub keys : Redis
keys = record {
  State = Keys;
  get = λ k s. shown (s k);
  psetex = λ k n v s. put k (v, n) s;
  del = λ k s. put k ([], 0) s;
  pass = λ n s k. ((s k).0, (s k).1 - n);
  pttl = λ k s. (s k).1;
  get-pttl = λ k n s h. shown-some (s k) n h;
  pttl-psetex = λ k n v s. ap (λ (e : Bytes × ℕ). e.1) (put-here k (v, n) s);
  pttl-psetex_other =
      λ k k' n v s apart. ap (λ (e : Bytes × ℕ). e.1) (put-there k k' (v, n) s apart);
  pttl-del_other = λ k k' s apart. ap (λ (e : Bytes × ℕ). e.1) (put-there k k' ([], 0) s apart);
  pttl-pass = λ k n s. refl;
  get-psetex_other = λ k k' n v s apart. ap shown (put-there k k' (v, n) s apart);
  get-del = λ k s. ap shown (put-here k ([], 0) s);
  get-del_other = λ k k' s apart. ap shown (put-there k k' ([], 0) s apart);
  get-pass = λ k n s h. shown-none (s k) n h;
}

abbrev up : Bytes → Bytes
up = map (λ c. c + 47)

abbrev down : Bytes → Bytes
down = map (λ c. c - 47)

pub down-up : (bs : Bytes) → down (up bs) ≡ bs
down-up [] = refl
down-up (b ∷ bs) = rw (down-up bs) (ap (λ c. c ∷ bs) (omega arith))

pub up-free : (bs : Bytes) → All (λ b. b ≢ 46) (up bs)
up-free [] = tt
up-free (b ∷ bs) = (omega arith, up-free bs)

abbrev sign : ℤ → ℕ
sign (pos n) = 0
sign (negsuc n) = 1

abbrev size : ℤ → ℕ
size (pos n) = n
size (negsuc n) = n

abbrev signed : ℕ → ℕ → ℤ
signed zero n = pos n
signed (suc s) n = negsuc n

signed-sign : (z : ℤ) → signed (sign z) (size z) ≡ z
signed-sign (pos n) = refl
signed-sign (negsuc n) = refl

abbrev first : ℕ → Bytes → Bytes
first zero bs = []
first (suc n) [] = []
first (suc n) (b ∷ bs) = b ∷ first n bs

abbrev rest : ℕ → Bytes → Bytes
rest zero bs = bs
rest (suc n) [] = []
rest (suc n) (b ∷ bs) = rest n bs

first-append : (a b : Bytes) → first (length a) (a ++ b) ≡ a
first-append [] b = refl
first-append (x ∷ xs) b = ap (λ l. x ∷ l) (first-append xs b)

rest-append : (a b : Bytes) → rest (length a) (a ++ b) ≡ b
rest-append [] b = refl
rest-append (x ∷ xs) b = rest-append xs b

abbrev pub written : ChallengeClaims → Bytes
written c =
    sign c.count
      ∷ size c.count
      ∷ sign c.size
      ∷ size c.size
      ∷ sign c.difficulty
      ∷ size c.difficulty
      ∷ sign c.expires
      ∷ size c.expires
      ∷ sign c.issued_at
      ∷ size c.issued_at
      ∷ length c.nonce
      ∷ c.nonce
    ++ c.scope

abbrev read : Bytes → Option ChallengeClaims
read (a ∷ a' ∷ b ∷ b' ∷ c ∷ c' ∷ d ∷ d' ∷ e ∷ e' ∷ n ∷ more) = some (record {
  nonce = first n more;
  count = signed a a';
  size = signed b b';
  difficulty = signed c c';
  expires = signed d d';
  issued_at = signed e e';
  scope = rest n more;
})
read _ = none

pub read-written : (c : ChallengeClaims) → read (written c) ≡ some c
read-written c = rw (
  signed-sign c.count,
  signed-sign c.size,
  signed-sign c.difficulty,
  signed-sign c.expires,
  signed-sign c.issued_at,
  first-append c.nonce c.scope,
  rest-append c.nonce c.scope,
)

pub cons_nil : (b : ℕ) (bs : Bytes) → ◌≡◌ {A = Bytes} (b ∷ bs) [] → ⊥
cons_nil b bs e = cc

-- A digest whose first half byte is the last digit of the text.
abbrev last_half : Bytes → ℕ
last_half [] = 0
last_half (b ∷ []) = (b - 48) * 16
last_half (b ∷ c ∷ bs) = last_half (c ∷ bs)

abbrev some_value : {a b : Bytes} → some a ≡ some b → a ≡ b
some_value q = cc

abbrev pub plain : Codecs
plain = record {
  sha256 = λ bs. last_half bs ∷ 0 ∷ [];
  hmac_sha256 = λ k m. 7 ∷ [];
  encode_base64 = up;
  decode_base64 = λ bs. some (down bs);
  marshal = λ c. some (written c);
  unmarshal = read;
  decode-encode = λ bs. ap some (down-up bs);
  encode-free = up-free;
  encode-ne-nil = λ b bs e. cons_nil _ _ e;
  unmarshal-marshal = λ c bs e. ap read (sym (some_value e)) ∙ read-written c;
  marshal-ne-nil = λ c bs e q. cons_nil _ _ (some_value e ∙ q);
  hmac-ne-nil = λ k m e. cons_nil _ _ e;
}
