-- ===== src/Values/FieldCopy.antt =====
-- `readBytesAsValue` of server/src/Tests.h copies the bits of a field, whether they fill whole bytes
-- or not.
use utbot_cpp.Base.{
  ℕ, zero, suc, ◌+◌, ◌-◌, ◌*◌, ◌/◌, ◌%◌, ◌^◌, ◌≤◌, ◌<◌, List, [], ◌∷◌, ◌++◌, ◌≡◌, refl, sym, ap,
  ◌∙◌, subst, arith, length, true, take, drop, replicate, ok, ltb, ◌==◌, not, ◌||◌, Bool-cases, inl,
  inr, length-take, length-drop, length-append, length-replicate, take-append-drop, All-take,
  All-drop, All-append, append_assoc, get_elem?-drop, set-append, drop-suc, ◌>>=◌,
}
use utbot_cpp.Base.Bits.{mod-mul, pow-add}
use utbot_cpp.Values.Bytes.{
  little_endian, merge_low, mask_byte, bit_loop, byte_loop, copy_field, top_bits, read_at, write_at,
}
use utbot_cpp.Values.LittleEndian.{
  IsBytes, below_8, mask_last, little_endian-drop, little_endian-take, little_endian-mask_last,
  little_endian-append, little_endian-zeros,
}
use utbot_cpp.Values.BitFields.{
  Leaves, mask_last_step, split_bounds, bit_loop_lem, zeros-IsBytes, mask_last-IsBytes,
}
use native.Mathlib.Nat.{
  div-div-eq-div-mul, one-le-pow, mod-lt, mul-add-div, div-eq_of_lt, add-zero, lt_of_lt_of_le,
  pow-le-pow_right,
}

-- The bits from `lo` up, of the first `lo + len`.
mod_pow-div : (x lo len : ℕ) → x % 2 ^ (lo + len) / 2 ^ lo ≡ x / 2 ^ lo % 2 ^ len
mod_pow-div x lo len =
    let high = x / 2 ^ lo % 2 ^ len in
    let split : x % 2 ^ (lo + len) ≡ 2 ^ lo * high + x % 2 ^ lo =
      rw (pow-add 2 lo len) (omega (arith, mod-mul x (2 ^ lo) (2 ^ len))) in
    rw
      (
        split,
        mul-add-div (one-le-pow lo 2 (omega arith)) high (x % 2 ^ lo),
        div-eq_of_lt (mod-lt x (one-le-pow lo 2 (omega arith))),
      )
      (omega arith)

first_value : (lo b x : ℕ) → lo < 8 → b / 2 ^ lo + 2 ^ (8 - lo) * x ≡ (b + 256 * x) / 2 ^ lo
first_value lo b x h =
    below_8 (λ k. b / 2 ^ k + 2 ^ (8 - k) * x ≡ (b + 256 * x) / 2 ^ k) (omega arith) (omega arith)
      (omega arith) (omega arith) (omega arith) (omega arith) (omega arith) (omega arith) lo h

first_byte :
    (array : List ℕ) (lo top start r : ℕ) (rest : List ℕ) (left z : ℕ)
    → drop start array ≡ r ∷ rest
    → bit_loop array lo top (suc left) start 0 (replicate (suc z) 0)
      ≡ bit_loop array lo top left
          (suc start)
          1
          (mask_byte (left == 0) top r / 2 ^ lo ∷ replicate z 0)
unfolding bit_loop merge_low
first_byte array lo top start r rest left z e =
    let next : start + 1 ≡ suc start = omega arith in
    let inside : ltb 0 (length {A = ℕ} (replicate (suc z) 0)) ≡ true = ground arith in
    rw (get_elem?-drop start array r rest e, read_at, ◌>>=◌, next, inside) refl

-- The loop of bit fields from its start.
bit_loop_start :
    (array : List ℕ) (lo top start : ℕ) (r : ℕ) (rs rest : List ℕ) (z : ℕ)
    → lo < 8
    → drop start array ≡ r ∷ (rs ++ rest)
    → IsBytes (mask_last top (r ∷ rs))
    → length rs ≤ suc z
    → little_endian (mask_last top (r ∷ rs)) / 2 ^ lo < 2 ^ (8 * suc z)
    → Leaves
        (bit_loop array lo top (suc (length rs)) start 0 (replicate (suc z) 0))
        []
        (suc z)
        (little_endian (mask_last top (r ∷ rs)) / 2 ^ lo)
bit_loop_start array lo top start r rs rest z h e bytes len fits =
    let b = mask_byte (length rs == 0) top r in
    let masked : mask_last top (r ∷ rs) ≡ b ∷ mask_last top rs = mask_last_step top r rs in
    let all : IsBytes (b ∷ mask_last top rs) = subst IsBytes masked bytes in
    let x = little_endian (mask_last top rs) in
    let number : little_endian (mask_last top (r ∷ rs)) ≡ b + 256 * x =
      ap little_endian masked ∙ unfold little_endian in refl in
    let value : little_endian (mask_last top (r ∷ rs)) / 2 ^ lo ≡ b / 2 ^ lo + 2 ^ (8 - lo) * x =
      ap (λ (t : ℕ). t / 2 ^ lo) number ∙ sym (first_value lo b x h) in
    let next : start + 1 ≡ suc start = omega arith in
    let first = first_byte array lo top start r (rs ++ rest) (length rs) z e in
    rw (first, value)
      (bit_loop_lem array lo top h rs rest (suc start) [] (b / 2 ^ lo) z
        (drop-suc start array r (rs ++ rest) e) all.1
        (split_bounds lo b 0 h all.0 (one-le-pow (8 - lo) 2 (omega arith))).0 len
        (subst (λ (t : ℕ). t < 2 ^ (8 * suc z)) value fits))

-- The loop of whole bytes, behind those that are written.
byte_loop_lem :
    (array : List ℕ) (rs rest : List ℕ) (start : ℕ) (front : List ℕ) (z : ℕ)
    → drop (start + length front) array ≡ rs ++ rest
    → length rs ≤ z
    → byte_loop array start (length rs) (length front) (front ++ replicate z 0)
      ≡ ok (front ++ (rs ++ replicate (z - length rs) 0))
unfolding byte_loop
byte_loop_lem array [] rest start front z e len =
    let none_left : z - 0 ≡ z = omega arith in rw none_left refl
byte_loop_lem array (r ∷ rs) rest start front zero e len = absurd (omega arith)
byte_loop_lem array (r ∷ rs) rest start front (suc z) e len =
    let inside : ltb (length front) (length (front ++ 0 ∷ replicate z 0)) ≡ true =
      ground (arith, length-append front (0 ∷ replicate z 0)) in
    let next : length front + 1 ≡ length (front ++ r ∷ []) =
      omega (arith, length-append front (r ∷ [])) in
    let place : start + length (front ++ r ∷ []) ≡ suc (start + length front) =
      omega (arith, length-append front (r ∷ [])) in
    let rest_of : drop (start + length (front ++ r ∷ [])) array ≡ rs ++ rest =
      rw place (drop-suc (start + length front) array r (rs ++ rest) e) in
    let left : suc z - suc (length rs) ≡ z - length rs = omega arith in
    rw
      (
        left,
        get_elem?-drop (start + length front) array r (rs ++ rest) e,
        inside,
        set-append front 0 r (replicate z 0),
        next,
        sym (append_assoc front (r ∷ []) (replicate z 0)),
        read_at,
        write_at,
        ◌>>=◌,
      )
      (byte_loop_lem array rs rest start (front ++ r ∷ []) z rest_of (omega arith)
        ∙ ap ok (append_assoc front (r ∷ []) (rs ++ replicate (z - length rs) 0)))

-- A list of bytes as its parts before and after an index.
parts : (n : ℕ) (xs : List ℕ) → xs ≡ take n xs ++ drop n xs
parts n xs = sym (take-append-drop n xs)

padded_value :
    (n m : ℕ) (xs : List ℕ)
    → IsBytes xs
    → little_endian (take n xs ++ replicate m 0) ≡ little_endian xs % 2 ^ (8 * n)
padded_value n m xs h =
    let front = take n xs in
    rw (little_endian-append front (replicate m 0), little_endian-zeros m)
      (omega (arith, little_endian-take n xs h))

module _ (z : ℕ) (array : List ℕ) (offset len : ℕ) (bytes : IsBytes array) (some_bits : 0 < len)
    (inside : offset + len ≤ 8 * length array) (fits : len ≤ 8 * suc z) where
  -- The bytes from the first one of the field.
  abbrev tail_bytes : List ℕ
  tail_bytes = drop (offset / 8) array

  tail-IsBytes : IsBytes tail_bytes
  tail-IsBytes = All-drop (λ b. b < 256) (offset / 8) array bytes

  tail_length : length tail_bytes ≡ length array - offset / 8
  tail_length = length-drop (offset / 8) array

  tail_value : little_endian tail_bytes ≡ little_endian array / 2 ^ (8 * (offset / 8))
  tail_value = little_endian-drop (offset / 8) array bytes

  shifted : little_endian tail_bytes / 2 ^ (offset % 8) ≡ little_endian array / 2 ^ offset
  shifted =
      ap (λ (n : ℕ). n / 2 ^ (offset % 8)) tail_value
      ∙ div-div-eq-div-mul (little_endian array) (2 ^ (8 * (offset / 8))) (2 ^ (offset % 8))
      ∙ ap (λ (n : ℕ). little_endian array / n)
          (sym (pow-add 2 (8 * (offset / 8)) (offset % 8)) ∙ ap (λ (n : ℕ). 2 ^ n) (omega arith))

  byte_case :
      offset % 8 ≡ 0
      → len % 8 ≡ 0
      → Leaves
          (copy_field (suc z) array offset len)
          []
          (suc z)
          (little_endian array / 2 ^ offset % 2 ^ len)
  unfolding copy_field
  byte_case o l =
      let whole : 8 * (offset / 8) ≡ offset = omega arith in
      let all_bits : 8 * (len / 8) ≡ len = omega arith in
      let n = len / 8 in
      let rs = take n tail_bytes in
      let count : length rs ≡ n = length-take n tail_bytes (omega (arith, tail_length)) in
      let loop =
        byte_loop_lem array rs (drop n tail_bytes) (offset / 8) [] (suc z)
          (rw (add-zero (offset / 8)) (parts n tail_bytes)) (omega (arith, count)) in
      (
        rs ++ replicate (suc z - n) 0,
        rw (o, l) (rw count at loop),
        omega (
          arith,
          length-append rs (replicate (suc z - n) 0),
          length-replicate {A = ℕ} (suc z - n) 0,
          count,
        ),
        All-append (λ b. b < 256) rs (replicate (suc z - n) 0)
            (All-take (λ b. b < 256) n tail_bytes tail-IsBytes) (zeros-IsBytes (suc z - n)),
        padded_value n (suc z - n) tail_bytes tail-IsBytes ∙ rw (tail_value, whole, all_bits) refl,
      )

  bit_case :
      (r : ℕ) (rs : List ℕ)
      → take ((offset + len + 7) / 8 - offset / 8) tail_bytes ≡ r ∷ rs
      → (not (offset % 8 == 0) || not (len % 8 == 0)) ≡ true
      → Leaves
          (copy_field (suc z) array offset len)
          []
          (suc z)
          (little_endian array / 2 ^ offset % 2 ^ len)
  unfolding copy_field
  bit_case r rs e test =
      let lo = offset % 8 in
      let t = (offset + len + 7) % 8 in
      let m = (offset + len + 7) / 8 - offset / 8 - 1 in
      let counted : (offset + len + 7) / 8 - offset / 8 ≡ suc m = omega arith in
      let top : top_bits offset len ≡ suc t = unfold top_bits in ground arith in
      let taken : take (suc m) tail_bytes ≡ r ∷ rs =
        sym (ap (λ (n : ℕ). take n tail_bytes) counted) ∙ e in
      let count : suc m ≡ suc (length rs) =
        sym (length-take (suc m) tail_bytes (omega (arith, tail_length))) ∙ ap length taken in
      let masked : little_endian (mask_last (suc t) (r ∷ rs))
          ≡ little_endian tail_bytes % 2 ^ (lo + len) =
        ap (λ (xs : List ℕ). little_endian (mask_last (suc t) xs)) (sym taken)
        ∙ little_endian-mask_last t m tail_bytes (omega arith) tail-IsBytes
            (omega (arith, tail_length))
        ∙ ap (λ (n : ℕ). little_endian tail_bytes % 2 ^ n) (omega arith) in
      let value : little_endian (mask_last (suc t) (r ∷ rs)) / 2 ^ lo
          ≡ little_endian array / 2 ^ offset % 2 ^ len =
        ap (λ (n : ℕ). n / 2 ^ lo) masked
        ∙ mod_pow-div (little_endian tail_bytes) lo len
        ∙ ap (λ (n : ℕ). n % 2 ^ len) shifted in
      let narrow : little_endian (mask_last (suc t) (r ∷ rs)) / 2 ^ lo < 2 ^ (8 * suc z) =
        rw value (
          lt_of_lt_of_le
            (mod-lt (little_endian array / 2 ^ offset) (one-le-pow len 2 (omega arith)))
            (pow-le-pow_right (omega arith) fits)) in
      let read : IsBytes (r ∷ rs) =
        subst IsBytes taken (All-take (λ b. b < 256) (suc m) tail_bytes tail-IsBytes) in
      let after = drop (suc m) tail_bytes in
      let split : tail_bytes ≡ (r ∷ rs) ++ after =
        parts (suc m) tail_bytes ∙ ap (λ (xs : List ℕ). xs ++ after) taken in
      let loop =
        bit_loop_start array lo (suc t) (offset / 8) r rs after z (omega arith) split
          (mask_last-IsBytes (suc t) (r ∷ rs) read) (omega (arith, count)) narrow in
      let rounds = counted ∙ count in rw (test, top, rounds, sym value) loop

-- A field of `len` bits at bit `offset`, in a type that holds it, is copied as the number that those
-- bits of the array stand for.
pub copy_field-little_endian :
    (size : ℕ) (array : List ℕ) (offset len : ℕ)
    → IsBytes array
    → 0 < len
    → offset + len ≤ 8 * length array
    → len ≤ 8 * size
    → Leaves (copy_field size array offset len) [] size (little_endian array / 2 ^ offset % 2 ^ len)
copy_field-little_endian zero array offset len bytes some_bits inside fits = absurd (omega arith)
copy_field-little_endian (suc z) array offset len bytes some_bits inside fits =
    elim (Bool-cases (not (offset % 8 == 0) || not (len % 8 == 0))) [
      | inl bit ↦
          whole_case (take ((offset + len + 7) / 8 - offset / 8) (drop (offset / 8) array)) refl bit
      | inr whole ↦
          byte_case z array offset len bytes some_bits inside fits (ground arith) (ground arith)
    ]
  where
    whole_case :
        (xs : List ℕ)
        → take ((offset + len + 7) / 8 - offset / 8) (drop (offset / 8) array) ≡ xs
        → (not (offset % 8 == 0) || not (len % 8 == 0)) ≡ true
        → Leaves
            (copy_field (suc z) array offset len)
            []
            (suc z)
            (little_endian array / 2 ^ offset % 2 ^ len)
    whole_case [] e bit = absurd (
        omega (
          arith,
          ap length e,
          length-take ((offset + len + 7) / 8 - offset / 8) (drop (offset / 8) array)
              (omega (arith, length-drop (offset / 8) array)),
        ))
    whole_case (r ∷ rs) e bit = bit_case z array offset len bytes some_bits inside fits r rs e bit
