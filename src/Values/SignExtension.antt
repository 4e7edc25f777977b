-- ===== src/Values/SignExtension.antt =====
-- `sext` and `readBytesAsValue` of server/src/Tests.h: the integer that is read.
use utbot_cpp.Base.{
  ℕ, suc, ◌+◌, ◌-◌, ◌*◌, ◌/◌, ◌%◌, ◌^◌, ◌≤◌, ◌<◌, Bool, List, [], ◌∷◌, ◌++◌, ◌≡◌, ◌≢◌, refl, sym,
  ap, ◌∙◌, subst, arith, length, true, false, leb, if◌then◌else◌, take, drop, replicate, ok, ◌==◌,
  Bool-cases, inl, inr, length-take, length-drop, take-append-drop, get_elem?-drop, ◌>>=◌,
}
use utbot_cpp.Base.Bits.{pow-add, bit_or-shift}
use utbot_cpp.Values.Bytes.{
  ℤ, pos, negsuc, little_endian, sext, value_bytes, integer_of, integer_to_string,
  read_bytes_as_value, read_at,
}
use utbot_cpp.Values.LittleEndian.{
  IsBytes, below_8, little_endian-drop, little_endian-append, little_endian-ones,
}
use utbot_cpp.Values.FieldCopy.{copy_field-little_endian}
use native.Mathlib.Nat.{
  one-le-pow, mod-lt, div-eq_of_lt, div-div-eq-div-mul, mod-add-div, pow-suc, pow-le-pow_right,
  div-lt_iff_lt-mul,
}
use Prim.Native.Nat.{bit_or}

-- A byte with its sign at bit `k`, and nothing above it.
sign_byte :
    (k b x : ℕ)
    → k < 8
    → b + 256 * x < 2 ^ suc k
    → (x ≡ 0)
      × (b < 2 ^ suc k)
      × (b / 2 ^ k % 2 ≡ 0 → b < 2 ^ k)
      × (b / 2 ^ k % 2 ≢ 0 → b / 2 ^ k ≡ 1)
sign_byte k b x h =
    below_8
      (λ j.
        b + 256 * x < 2 ^ suc j
        → (x ≡ 0)
          × (b < 2 ^ suc j)
          × (b / 2 ^ j % 2 ≡ 0 → b < 2 ^ j)
          × (b / 2 ^ j % 2 ≢ 0 → b / 2 ^ j ≡ 1))
      (λ e. ground arith) (λ e. ground arith) (λ e. ground arith) (λ e. ground arith)
      (λ e. ground arith) (λ e. ground arith) (λ e. ground arith) (λ e. ground arith) k h

-- All bits from `k` up, as a number that is shifted; and a sign bit of 1 adds nothing to it.
upper_bits :
    (k : ℕ)
    → k < 8
    → (256 - 2 ^ k ≡ (2 ^ (8 - k) - 1) * 2 ^ k)
      × (bit_or 1 (2 ^ (8 - k) - 1) * 2 ^ k + 2 ^ k ≡ 256)
      × (2 ^ suc k ≤ 256)
upper_bits k h =
    below_8
      (λ j.
        (256 - 2 ^ j ≡ (2 ^ (8 - j) - 1) * 2 ^ j)
        × (bit_or 1 (2 ^ (8 - j) - 1) * 2 ^ j + 2 ^ j ≡ 256)
        × (2 ^ suc j ≤ 256))
      (refl, refl, omega arith) (refl, refl, omega arith) (refl, refl, omega arith)
      (refl, refl, omega arith) (refl, refl, omega arith) (refl, refl, omega arith)
      (refl, refl, omega arith) (refl, refl, omega arith) k h

extended_byte : (k b : ℕ) → k < 8 → b / 2 ^ k ≡ 1 → bit_or b (256 - 2 ^ k) + 2 ^ suc k ≡ b + 256
extended_byte k b h q =
    let bits = upper_bits k h in
    rw (bits.0, bit_or-shift k b (2 ^ (8 - k) - 1), q)
      (omega (arith, bits.1, mod-add-div b (2 ^ k), ap (λ (t : ℕ). 2 ^ k * t) q, pow-suc 2 k))

module _ (bytes : List ℕ) (size len b : ℕ) (rest : List ℕ) (all : IsBytes bytes)
    (count : length bytes ≡ size) (some_bits : 0 < len) (fits : len ≤ 8 * size)
    (value : little_endian bytes < 2 ^ len) (at_sign : drop ((len - 1) / 8) bytes ≡ b ∷ rest) where
  abbrev p : ℕ
  p = (len - 1) / 8

  abbrev k : ℕ
  k = (len - 1) % 8

  tail_value : b + 256 * little_endian rest ≡ little_endian bytes / 2 ^ (8 * p)
  tail_value =
      sym (ap little_endian at_sign ∙ unfold little_endian in refl) ∙ little_endian-drop p bytes all

  powers : (2 ^ len ≡ 2 ^ suc k * 2 ^ (8 * p)) × (2 ^ (len - 1) ≡ 2 ^ (8 * p) * 2 ^ k)
  powers = (
    ap (λ (e : ℕ). 2 ^ e) (omega arith) ∙ pow-add 2 (suc k) (8 * p),
    ap (λ (e : ℕ). 2 ^ e) (omega arith) ∙ pow-add 2 (8 * p) k,
  )

  small : b + 256 * little_endian rest < 2 ^ suc k
  small = rw tail_value (
      (div-lt_iff_lt-mul (one-le-pow (8 * p) 2 (omega arith))).1
        (subst (λ (t : ℕ). little_endian bytes < t) powers.0 value))

  -- The quotient by the weight of the sign bit.
  sign_quotient : little_endian bytes / 2 ^ (len - 1) ≡ b / 2 ^ k
  sign_quotient =
      rw
        (
          powers.1,
          sym (div-div-eq-div-mul (little_endian bytes) (2 ^ (8 * p)) (2 ^ k)),
          sym tail_value,
          (sign_byte k b (little_endian rest) (omega arith) small).0,
        )
        (ap (λ (t : ℕ). t / 2 ^ k) (omega arith))

  front_value : little_endian bytes ≡ little_endian (take p bytes) + 2 ^ (8 * p) * b
  front_value =
      let front : length (take p bytes) ≡ p = length-take p bytes (omega arith) in
      let joined = little_endian-append (take p bytes) (drop p bytes) in
      let tail : little_endian (drop p bytes) ≡ b + 256 * little_endian rest =
        ap little_endian at_sign ∙ unfold little_endian in refl in
      let none_above = (sign_byte k b (little_endian rest) (omega arith) small).0 in
      ap little_endian (sym (take-append-drop p bytes))
      ∙ joined
      ∙ rw (front, tail, none_above)
          (ap (λ (t : ℕ). little_endian (take p bytes) + 2 ^ (8 * p) * t) (omega arith))

  extended_value :
      b / 2 ^ k ≡ 1
      → little_endian (take p bytes ++ (bit_or b (256 - 2 ^ k) ∷ replicate (size - (p + 1)) 255))
          + 2 ^ len
        ≡ little_endian bytes + 2 ^ (8 * size)
  extended_value q =
      let P = 2 ^ (8 * p) in
      let e = bit_or b (256 - 2 ^ k) in
      let m = size - (p + 1) in
      let front : length (take p bytes) ≡ p = length-take p bytes (omega arith) in
      let joined = little_endian-append (take p bytes) (e ∷ replicate m 255) in
      let tail : little_endian (e ∷ replicate m 255) + 256 ≡ e + 256 * 2 ^ (8 * m) =
        unfold little_endian in omega (arith, little_endian-ones m) in
      let byte = extended_byte k b (omega arith) q in
      let size_split : 8 * size ≡ 8 * p + (8 + 8 * m) = omega arith in
      let top : 2 ^ (8 * size) ≡ P * (256 * 2 ^ (8 * m)) =
        ap (λ (t : ℕ). 2 ^ t) size_split
        ∙ pow-add 2 (8 * p) (8 + 8 * m)
        ∙ ap (λ (t : ℕ). P * t) (pow-add 2 8 (8 * m)) in
      let whole : P * (little_endian (e ∷ replicate m 255) + 256 + (e + 2 ^ suc k))
          ≡ P * (e + 256 * 2 ^ (8 * m) + (b + 256)) =
        ap (λ (t : ℕ). P * t) (omega (arith, tail, byte)) in
      omega (
        arith,
        joined,
        ap (λ (t : ℕ). 2 ^ (8 * t) * little_endian (e ∷ replicate m 255)) front,
        whole,
        top,
        powers.0,
        front_value,
      )

  -- `sext` leaves a number whose sign bit is 0, and otherwise fills it up with ones.
  sext_lem :
      (out : List ℕ) × (sext bytes size (len - 1) ≡ ok out)
      × (little_endian out + (if leb (2 ^ (len - 1)) (little_endian bytes) then 2 ^ len else 0)
          ≡ little_endian bytes
            + (if leb (2 ^ (len - 1)) (little_endian bytes) then 2 ^ (8 * size) else 0))
  unfolding sext
  sext_lem =
      let found = get_elem?-drop p bytes b rest at_sign in
      let shape = sign_byte k b (little_endian rest) (omega arith) small in
      let split = mod-add-div (little_endian bytes) (2 ^ (len - 1)) in
      let bound = mod-lt (little_endian bytes) (one-le-pow (len - 1) 2 (omega arith)) in
      elim (Bool-cases (b / 2 ^ k % 2 == 0)) [
        | inl zero_bit ↦
            let none : little_endian bytes / 2 ^ (len - 1) ≡ 0 =
              sign_quotient ∙ div-eq_of_lt (shape.2 (ground arith)) in
            let test : leb (2 ^ (len - 1)) (little_endian bytes) ≡ false =
              ground (arith, split, bound, ap (λ (t : ℕ). 2 ^ (len - 1) * t) none) in
            (bytes, rw (found, zero_bit, read_at, ◌>>=◌) refl, rw test refl)
        | inr one_bit ↦
            let one : b / 2 ^ k ≡ 1 = shape.3 (ground arith) in
            let test : leb (2 ^ (len - 1)) (little_endian bytes) ≡ true =
              ground
                (arith, split, bound, ap (λ (t : ℕ). 2 ^ (len - 1) * t) (sign_quotient ∙ one)) in
            (
              take p bytes ++ (bit_or b (256 - 2 ^ k) ∷ replicate (size - (p + 1)) 255),
              rw (found, one_bit, read_at, ◌>>=◌) refl,
              rw test (extended_value one),
            )
      ]

half : (n : ℕ) → 0 < n → 2 ^ n ≡ 2 * 2 ^ (n - 1)
half n h =
    let before : n ≡ 1 + (n - 1) = omega arith in ap (λ (e : ℕ). 2 ^ e) before ∙ pow-add 2 1 (n - 1)

-- The integer does not depend on whether it is read from the field or from the extended value.
integer_of_extended :
    (bits len v w : ℕ)
    → 0 < len
    → len ≤ bits
    → v < 2 ^ len
    → w + (if leb (2 ^ (len - 1)) v then 2 ^ len else 0)
      ≡ v + (if leb (2 ^ (len - 1)) v then 2 ^ bits else 0)
    → integer_of bits true w ≡ integer_of len true v
unfolding integer_of
integer_of_extended bits len v w h fits value e =
    let narrow = half len h in
    let wide = half bits (omega arith) in
    let order : 2 ^ (len - 1) ≤ 2 ^ (bits - 1) = pow-le-pow_right (omega arith) (omega arith) in
    elim (Bool-cases (leb (2 ^ (len - 1)) v)) [
      | inl neg ↦
          let filled : w + 2 ^ len ≡ v + 2 ^ bits = rw neg at e in
          let test : leb (2 ^ (bits - 1)) w ≡ true = ground (arith, narrow, wide, order, filled) in
          rw (test, neg) (ap negsuc (omega (arith, filled)))
      | inr plus ↦
          let kept : w + 0 ≡ v + 0 = rw plus at e in
          let test : leb (2 ^ (bits - 1)) w ≡ false = ground (arith, order, kept) in
          rw (test, plus) (ap pos (omega (arith, kept)))
    ]

-- `sext` keeps the integer.
sign_extended :
    (bytes : List ℕ) (size len : ℕ) (tail : List ℕ)
    → IsBytes bytes
    → length bytes ≡ size
    → 0 < len
    → len ≤ 8 * size
    → little_endian bytes < 2 ^ len
    → drop ((len - 1) / 8) bytes ≡ tail
    → (out : List ℕ) × (sext bytes size (len - 1) ≡ ok out)
      × (integer_of (8 * size) true (little_endian out) ≡ integer_of len true (little_endian bytes))
sign_extended bytes size len [] all count h fits value e =
    absurd (omega (arith, ap length e, length-drop ((len - 1) / 8) bytes))
sign_extended bytes size len (b ∷ rest) all count h fits value e =
    let (out, done, number) = sext_lem bytes size len b rest all count h fits value e in
    (
      out,
      done,
      integer_of_extended (8 * size) len (little_endian bytes) (little_endian out) h fits value
          number,
    )

-- A bit field of `len` bits at bit `offset` of a little-endian array, in a type of `size` bytes that
-- holds it and inside the array, is read as the integer that its bits stand for: the bits themselves
-- for an unsigned type, and their two's complement of `len` bits for a signed one.
pub read_bytes_as_value_lem :
    (size : ℕ) (signed : Bool) (array : List ℕ) (offset len : ℕ)
    → IsBytes array
    → 0 < len
    → offset + len ≤ 8 * length array
    → len ≤ 8 * size
    → read_bytes_as_value size signed array offset len
      ≡ ok (integer_to_string (integer_of len signed (little_endian array / 2 ^ offset % 2 ^ len)))
unfolding read_bytes_as_value value_bytes
read_bytes_as_value_lem size false array offset len bytes h inside fits =
    let (out, copied, count, all, value) =
      copy_field-little_endian size array offset len bytes h inside fits in
    rw (copied, ◌>>=◌, value) refl
read_bytes_as_value_lem size true array offset len bytes h inside fits =
    let v = little_endian array / 2 ^ offset % 2 ^ len in
    let (out, copied, count, all, value) =
      copy_field-little_endian size array offset len bytes h inside fits in
    let bound : little_endian out < 2 ^ len =
      rw value (mod-lt (little_endian array / 2 ^ offset) (one-le-pow len 2 (omega arith))) in
    let (extended, done, number) =
      sign_extended out size len (drop ((len - 1) / 8) out) all count h fits bound refl in
    let same = number ∙ ap (integer_of len true) value in
    rw (copied, done, ◌>>=◌) (ap (λ (n : ℤ). ok (integer_to_string n)) same)
