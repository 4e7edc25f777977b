-- ===== src/Strings/Numbers.antt =====
-- The specialisations of `stot` in server/src/utils/StringUtils.cpp that read the text themselves:
-- `bool`, `__int128` and `unsigned __int128`.
use utbot_cpp.Base.{
  ℕ, ◌+◌, ◌-◌, ◌*◌, ◌%◌, ◌^◌, ◌≤◌, Bool, true, false, ◌||◌, [], ◌∷◌, ◌≡◌, ◌≢◌, refl, arith, Text,
  codes, text_eq, all, Bool-cases, inl, inr, ◌==◌, ltb, if◌then◌else◌, Result, ok, err,
}
use utbot_cpp.Strings.Affixes.{is_digit}
use mathlib.Core.List.{foldl}

-- `std::invalid_argument`, and the undefined behaviour of an overflow of the signed type.
pub data NumberError : Type 0 where
  invalid_argument undefined_overflow : NumberError

unfoldable pub stot_bool : Text → Result NumberError Bool
stot_bool s =
    if text_eq s (codes "false")
    then ok false
    else if text_eq s (codes "true")
    then ok true
    else err invalid_argument

abbrev pub uint128_mod : ℕ
uint128_mod = 2 ^ 128

-- `res *= 10; res += d - '0'`, modulo 2 ^ 128.
unfoldable pub unsigned_loop : Text → ℕ → Result NumberError ℕ
unsigned_loop [] res = ok res
unsigned_loop (d ∷ s) res =
    let rest = unsigned_loop s ((res * 10 % uint128_mod + (d - b'0')) % uint128_mod) in
    if ltb d b'0' || ltb b'9' d then err invalid_argument else rest

unfoldable pub stot_uint128 : Text → Result NumberError ℕ
stot_uint128 [] = err invalid_argument
stot_uint128 (c ∷ s) =
    if c == b'-'
    then err invalid_argument
    else if c == b'+'
    then unsigned_loop s 0
    else unsigned_loop (c ∷ s) 0

-- A sign and a magnitude; both signs of 0 stand for 0.
pub record Int128 : Type 0 where
  pub negative : Bool
  pub magnitude : ℕ

-- The largest magnitude of each sign.
abbrev pub int128_limit : Bool → ℕ
int128_limit true = 2 ^ 127
int128_limit false = 2 ^ 127 - 1

-- `res` has the sign `neg` throughout, as both steps go the same way from 0.
unfoldable pub signed_loop : Bool → Text → ℕ → Result NumberError ℕ
signed_loop neg [] res = ok res
signed_loop neg (d ∷ s) res =
    let rest = signed_loop neg s (res * 10 + (d - b'0')) in
    if ltb d b'0' || ltb b'9' d
    then err invalid_argument
    else if ltb (int128_limit neg) (res * 10 + (d - b'0'))
    then err undefined_overflow
    else rest

abbrev pub with_sign : Bool → Result NumberError ℕ → Result NumberError Int128
with_sign neg (ok n) = ok (record { negative = neg; magnitude = n })
with_sign neg (err e) = err e

unfoldable pub stot_int128 : Text → Result NumberError Int128
stot_int128 [] = err invalid_argument
stot_int128 (c ∷ s) =
    let neg = c == b'-' in
    if c == b'+' || c == b'-'
    then with_sign neg (signed_loop neg s 0)
    else with_sign neg (signed_loop neg (c ∷ s) 0)

-- The number that digits spell behind `n`, with no bound.
abbrev pub value : ℕ → Text → ℕ
value = foldl (λ n d. n * 10 + (d - b'0'))

unsigned_loop-value :
    (s : Text) (n : ℕ)
    → all is_digit s ≡ true
    → unsigned_loop s (n % uint128_mod) ≡ ok (value n s % uint128_mod)
unfolding unsigned_loop is_digit
unsigned_loop-value [] n h = refl
unsigned_loop-value (d ∷ s) n h =
    let step : (n % uint128_mod * 10 % uint128_mod + (d - b'0')) % uint128_mod
        ≡ (n * 10 + (d - b'0')) % uint128_mod =
      omega arith in
    rw step (ground (arith, unsigned_loop-value s (n * 10 + (d - b'0'))))

unsigned_loop-invalid :
    (s : Text) (n : ℕ) → all is_digit s ≡ false → unsigned_loop s n ≡ err invalid_argument
unfolding unsigned_loop is_digit
unsigned_loop-invalid [] n h = cc
unsigned_loop-invalid (d ∷ s) n h =
    let next = (n * 10 % uint128_mod + (d - b'0')) % uint128_mod in
    ground (arith, unsigned_loop-invalid s next)

-- A text that is not empty and does not begin with a sign is read, with or without a plus sign in
-- front, as its value modulo 2 ^ 128 if it consists of digits, and refused otherwise.
pub stot_uint128_lem :
    (d : ℕ) (s : Text)
    → d ≢ b'-'
    → d ≢ b'+'
    → (stot_uint128 (d ∷ s) ≡ (
        if all is_digit (d ∷ s) then ok (value 0 (d ∷ s) % uint128_mod) else err invalid_argument))
      × (stot_uint128 (b'+' ∷ d ∷ s) ≡ (
          if all is_digit (d ∷ s)
          then ok (value 0 (d ∷ s) % uint128_mod)
          else err invalid_argument))
unfolding stot_uint128
stot_uint128_lem d s minus plus = elim (Bool-cases (all is_digit (d ∷ s))) [
  | inl h ↦ let read = unsigned_loop-value (d ∷ s) 0 h in (ground arith, ground arith)
  | inr h ↦ let refused = unsigned_loop-invalid (d ∷ s) 0 h in (ground arith, ground arith)
]

le-value : (s : Text) (n : ℕ) → n ≤ value n s
le-value [] n = omega arith
le-value (d ∷ s) n = omega (arith, le-value s (n * 10 + (d - b'0')))

-- What the arithmetic gives for a magnitude: the number, or an overflow.
abbrev pub in_range : Bool → ℕ → Result NumberError ℕ
in_range neg n = if ltb (int128_limit neg) n then err undefined_overflow else ok n

signed_loop-value :
    (neg : Bool) (s : Text) (n : ℕ)
    → all is_digit s ≡ true
    → n ≤ int128_limit neg
    → signed_loop neg s n ≡ in_range neg (value n s)
unfolding signed_loop is_digit
signed_loop-value neg [] n h fits = ground arith
signed_loop-value neg (d ∷ s) n h fits =
    let next = n * 10 + (d - b'0') in ground (arith, signed_loop-value neg s next, le-value s next)

-- A text of digits, not empty, is read as the integer that it spells, with the sign in front of it
-- if there is one, if that fits in 128 bits; otherwise the signed arithmetic overflows.
pub stot_int128_lem :
    (d : ℕ) (s : Text)
    → all is_digit (d ∷ s) ≡ true
    → (stot_int128 (d ∷ s) ≡ with_sign false (in_range false (value 0 (d ∷ s))))
      × (stot_int128 (b'+' ∷ d ∷ s) ≡ with_sign false (in_range false (value 0 (d ∷ s))))
      × (stot_int128 (b'-' ∷ d ∷ s) ≡ with_sign true (in_range true (value 0 (d ∷ s))))
unfolding stot_int128 is_digit
stot_int128_lem d s h =
    let up = signed_loop-value false (d ∷ s) 0 h (omega arith) in
    let down = signed_loop-value true (d ∷ s) 0 h (omega arith) in
    (ground arith, rw up refl, rw down refl)
