-- ===== src/Values/LittleEndian.antt =====
-- The number that a little-endian byte array stands for, by parts of the array.
use utbot_cpp.Base.{
  ℕ, zero, suc, ◌+◌, ◌*◌, ◌/◌, ◌%◌, ◌^◌, ◌<◌, List, [], ◌∷◌, ◌++◌, ◌≡◌, refl, sym, ap, ◌∙◌, arith,
  length, take, drop, replicate, All,
}
use utbot_cpp.Base.Bits.{mod-mul, pow-add}
use utbot_cpp.Values.Bytes.{little_endian}
use native.Mathlib.Nat.{div-div-eq-div-mul, mul_assoc, div-one, mod-one}

-- Every element is a byte.
abbrev pub IsBytes : List ℕ → Type 0
IsBytes = All (λ b. b < 256)

-- A fact about each number below 8, or up to 8.
pub below_8 {ℓ} :
    (C : ℕ → Type ℓ) → C 0 → C 1 → C 2 → C 3 → C 4 → C 5 → C 6 → C 7 → (k : ℕ) → k < 8 → C k
below_8 C c0 c1 c2 c3 c4 c5 c6 c7 zero h = c0
below_8 C c0 c1 c2 c3 c4 c5 c6 c7 (suc zero) h = c1
below_8 C c0 c1 c2 c3 c4 c5 c6 c7 (suc (suc zero)) h = c2
below_8 C c0 c1 c2 c3 c4 c5 c6 c7 (suc (suc (suc zero))) h = c3
below_8 C c0 c1 c2 c3 c4 c5 c6 c7 (suc (suc (suc (suc zero)))) h = c4
below_8 C c0 c1 c2 c3 c4 c5 c6 c7 (suc (suc (suc (suc (suc zero))))) h = c5
below_8 C c0 c1 c2 c3 c4 c5 c6 c7 (suc (suc (suc (suc (suc (suc zero)))))) h = c6
below_8 C c0 c1 c2 c3 c4 c5 c6 c7 (suc (suc (suc (suc (suc (suc (suc zero))))))) h = c7
below_8 C c0 c1 c2 c3 c4 c5 c6 c7 (suc (suc (suc (suc (suc (suc (suc (suc k)))))))) h =
    absurd (omega arith)

-- A power of one byte more is 256 times as large.
pub pow_byte_top : (n t : ℕ) → 2 ^ (8 * suc n + t) ≡ 256 * 2 ^ (8 * n + t)
pow_byte_top n t = ap (λ (e : ℕ). 2 ^ e) (omega arith) ∙ pow-add 2 8 (8 * n + t)

pub pow_byte : (n : ℕ) → 2 ^ (8 * suc n) ≡ 256 * 2 ^ (8 * n)
pow_byte n = ap (λ (e : ℕ). 2 ^ e) (omega arith) ∙ pow-add 2 8 (8 * n)

pub little_endian-drop :
    (n : ℕ) (bs : List ℕ) → IsBytes bs → little_endian (drop n bs) ≡ little_endian bs / 2 ^ (8 * n)
unfolding little_endian
little_endian-drop zero bs h = sym (div-one (little_endian bs))
little_endian-drop (suc n) [] h = omega arith
little_endian-drop (suc n) (b ∷ bs) (hb, h) =
    let power : 2 ^ (8 * suc n) ≡ 256 * 2 ^ (8 * n) = pow_byte n in
    let rest : (b + 256 * little_endian bs) / 256 ≡ little_endian bs = omega arith in
    rw (power, sym (div-div-eq-div-mul (b + 256 * little_endian bs) 256 (2 ^ (8 * n))), rest)
      (little_endian-drop n bs h)

-- The remainder by a power with a whole byte below.
pub mod_byte : (b x p : ℕ) → b < 256 → (b + 256 * x) % (256 * p) ≡ b + 256 * (x % p)
mod_byte b x p h =
    let rest : (b + 256 * x) / 256 ≡ x = omega arith in
    let low : (b + 256 * x) % 256 ≡ b = omega arith in
    mod-mul (b + 256 * x) 256 p ∙ rw (rest, low) refl

pub little_endian-take :
    (n : ℕ) (bs : List ℕ) → IsBytes bs → little_endian (take n bs) ≡ little_endian bs % 2 ^ (8 * n)
unfolding little_endian
little_endian-take zero bs h = sym (mod-one (little_endian bs))
little_endian-take (suc n) [] h = omega arith
little_endian-take (suc n) (b ∷ bs) (hb, h) =
    let power : 2 ^ (8 * suc n) ≡ 256 * 2 ^ (8 * n) = pow_byte n in
    rw (power, mod_byte b (little_endian bs) (2 ^ (8 * n)) hb, little_endian-take n bs h) refl

pub little_endian-append :
    (front bs : List ℕ)
    → little_endian (front ++ bs) ≡ little_endian front + 2 ^ (8 * length front) * little_endian bs
unfolding little_endian
little_endian-append [] bs = omega arith
little_endian-append (a ∷ front) bs =
    let power : 2 ^ (8 * suc (length front)) ≡ 256 * 2 ^ (8 * length front) =
      pow_byte (length front) in
    omega (
      arith,
      little_endian-append front bs,
      ap (λ (t : ℕ). t * little_endian bs) power,
      mul_assoc 256 (2 ^ (8 * length front)) (little_endian bs),
    )

pub little_endian-zeros : (n : ℕ) → little_endian (replicate n 0) ≡ 0
unfolding little_endian
little_endian-zeros zero = refl
little_endian-zeros (suc n) = omega (arith, little_endian-zeros n)

-- All bits set.
pub little_endian-ones : (n : ℕ) → little_endian (replicate n 255) + 1 ≡ 2 ^ (8 * n)
unfolding little_endian
little_endian-ones zero = refl
little_endian-ones (suc n) =
    let power : 2 ^ (8 * suc n) ≡ 256 * 2 ^ (8 * n) = pow_byte n in
    omega (arith, little_endian-ones n, power)

-- The last byte with its `top` lowest bits only.
abbrev pub mask_last : ℕ → List ℕ → List ℕ
mask_last top [] = []
mask_last top (b ∷ []) = b % 2 ^ top ∷ []
mask_last top (b ∷ c ∷ bs) = b ∷ mask_last top (c ∷ bs)

mod_top : (top b x : ℕ) → top < 8 → (b + 256 * x) % 2 ^ suc top ≡ b % 2 ^ suc top
mod_top top b x h =
    below_8 (λ t. (b + 256 * x) % 2 ^ suc t ≡ b % 2 ^ suc t) (omega arith) (omega arith)
      (omega arith) (omega arith) (omega arith) (omega arith) (omega arith) (omega arith) top h

pub little_endian-mask_last :
    (top n : ℕ) (bs : List ℕ)
    → top < 8
    → IsBytes bs
    → n < length bs
    → little_endian (mask_last (suc top) (take (suc n) bs))
      ≡ little_endian bs % 2 ^ (8 * n + suc top)
unfolding little_endian
little_endian-mask_last top n [] t h e = absurd (omega arith)
little_endian-mask_last top zero (b ∷ bs) t h e =
    let power : 2 ^ (8 * 0 + suc top) ≡ 2 ^ suc top = ap (λ (e : ℕ). 2 ^ e) (omega arith) in
    rw power (omega (arith, mod_top top b (little_endian bs) t))
little_endian-mask_last top (suc n) (b ∷ []) t h e = absurd (omega arith)
little_endian-mask_last top (suc n) (b ∷ c ∷ bs) t (hb, h) e =
    rw (pow_byte_top n (suc top), mod_byte b (little_endian (c ∷ bs)) (2 ^ (8 * n + suc top)) hb)
      (ap (λ (x : ℕ). b + 256 * x) (little_endian-mask_last top n (c ∷ bs) t h (omega arith)))
