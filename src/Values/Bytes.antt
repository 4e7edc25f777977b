-- ===== src/Values/Bytes.antt =====
-- `readBytesAsValue` and `sext` of server/src/Tests.h, on byte arrays of little-endian targets.
use utbot_cpp.Base.{
  ℕ, zero, suc, ◌+◌, ◌-◌, ◌*◌, ◌/◌, ◌%◌, ◌^◌, Bool, ◌||◌, List, [], ◌∷◌, none, some, length,
  get_elem?, set, take, replicate, ◌++◌, ltb, leb, ◌==◌, not, ◌&&◌, Text, codes, if◌then◌else◌,
  Result, ok, err, ◌>>=◌,
}
use utbot_cpp.Base.Bits.{low_mask}
use utbot_cpp.Types.Handler.{TypeError}
use Prim.Native.Nat.{bit_and, bit_or}

-- An integer: `negsuc n` is the one before `- n`.
pub data ℤ : Type 0 where
  pos negsuc : ℕ → ℤ

-- What stops the construction of a value: an exception, or behaviour that the language leaves
-- undefined, such as an access out of bounds. The exceptions that are not of the table of types are
-- `IncorrectIndexException` and those of the number parsers.
pub data ValueError : Type 0 where
  undefined_behaviour incorrect_index : ValueError
  invalid_argument : ValueError
  type_error : TypeError → ValueError

-- `v[i]` of a vector or an array.
abbrev pub read_at {ℓ} : {A : Type ℓ} → List A → ℕ → Result ValueError A
read_at xs i = elim (get_elem? xs i) [ none ↦ err undefined_behaviour | some x ↦ ok x ]

abbrev pub write_at {ℓ} : {A : Type ℓ} → List A → ℕ → A → Result ValueError (List A)
write_at xs i v = if ltb i (length xs) then ok (set xs i v) else err undefined_behaviour

-- `bytes[j - 1] |= low << hi`, for `j > 0`; the assignment to `char` keeps the low byte.
unfoldable pub merge_low : List ℕ → ℕ → ℕ → ℕ → Result ValueError (List ℕ)
merge_low bytes zero low hi = ok bytes
merge_low bytes (suc j) low hi = do
  b ← read_at bytes j
  write_at bytes j (bit_or b (low * 2 ^ hi) % 256)

-- `byte &= ((1 << top) - 1)` at the last byte.
unfoldable pub mask_byte : Bool → ℕ → ℕ → ℕ
mask_byte last top byte = if last then bit_and (low_mask top) byte else byte

-- The loop for bit fields: `rest` rounds are left, `i` and `j` are the two indices.
unfoldable pub bit_loop : List ℕ → ℕ → ℕ → ℕ → ℕ → ℕ → List ℕ → Result ValueError (List ℕ)
unfolding merge_low mask_byte
bit_loop array lo top zero i j bytes = ok bytes
bit_loop array lo top (suc rest) i j bytes = do
  raw ← read_at array i
  let byte = mask_byte (rest == 0) top raw
  merged ← merge_low bytes j (bit_and (low_mask lo) byte) (8 - lo)
  bit_loop array lo top rest (i + 1) (j + 1)
      (if ltb j (length bytes) then set merged j (byte / 2 ^ lo) else merged)

-- The loop for whole bytes.
unfoldable pub byte_loop : List ℕ → ℕ → ℕ → ℕ → List ℕ → Result ValueError (List ℕ)
byte_loop array start zero j bytes = ok bytes
byte_loop array start (suc rest) j bytes = do
  byte ← read_at array (start + j)
  written ← write_at bytes j byte
  byte_loop array start rest (j + 1) written

-- `top`: the number of bits of the last byte that belong to the field.
unfoldable pub top_bits : ℕ → ℕ → ℕ
top_bits offset len = let top = (offset + len) % 8 in if top == 0 then 8 else top

-- Both branches, into the array `bytes` of `size` zeros.
unfoldable pub copy_field : ℕ → List ℕ → ℕ → ℕ → Result ValueError (List ℕ)
unfolding bit_loop byte_loop top_bits
copy_field size array offset len =
    if not (offset % 8 == 0) || not (len % 8 == 0)
    then bit_loop array (offset % 8) (top_bits offset len) ((offset + len + 7) / 8 - offset / 8)
        (offset / 8) 0 (replicate size 0)
    else byte_loop array (offset / 8) (len / 8) 0 (replicate size 0)

-- `sext`: `mask ^ ((1 << k) - 1)` has the bits from `k` up, in a byte.
unfoldable pub sext : List ℕ → ℕ → ℕ → Result ValueError (List ℕ)
sext bytes len sign_pos = do
  b ← read_at bytes (sign_pos / 8)
  let k = sign_pos % 8
  let ones = replicate (len - (sign_pos / 8 + 1)) 255
  let extended = take (sign_pos / 8) bytes ++ bit_or b (256 - 2 ^ k) ∷ ones
  ok (if b / 2 ^ k % 2 == 0 then bytes else extended)

-- The bytes of the value that is read.
unfoldable pub value_bytes : ℕ → Bool → List ℕ → ℕ → ℕ → Result ValueError (List ℕ)
unfolding copy_field sext
value_bytes size signed array offset len = do
  bytes ← copy_field size array offset len
  if signed then sext bytes size (len - 1) else ok bytes

-- The number that little-endian bytes stand for.
unfoldable pub little_endian : List ℕ → ℕ
little_endian [] = 0
little_endian (b ∷ bytes) = b + 256 * little_endian bytes

-- The integer that `bits` bits stand for, in two's complement if the type is signed.
unfoldable pub integer_of : ℕ → Bool → ℕ → ℤ
integer_of bits signed n =
    if signed && leb (2 ^ (bits - 1)) n then negsuc (2 ^ bits - 1 - n) else pos n

-- The digits of `std::to_string`, from the last. The program prints integers of at most 64
-- bits, for which 20 are enough.
unfoldable pub digits_loop : ℕ → ℕ → Text → Text
digits_loop zero n out = out
digits_loop (suc rest) n out =
    let more = digits_loop rest (n / 10) ((b'0' + n % 10) ∷ out) in if n == 0 then out else more

unfoldable pub natural_to_string : ℕ → Text
unfolding digits_loop
natural_to_string n = if n == 0 then codes "0" else digits_loop 20 n []

unfoldable pub integer_to_string : ℤ → Text
unfolding natural_to_string
integer_to_string (pos n) = natural_to_string n
integer_to_string (negsuc n) = b'-' ∷ natural_to_string (suc n)

-- `readBytesAsValue<T>` of an integer type of `size` bytes.
unfoldable pub read_bytes_as_value : ℕ → Bool → List ℕ → ℕ → ℕ → Result ValueError Text
unfolding value_bytes little_endian integer_of integer_to_string
read_bytes_as_value size signed array offset len = do
  bytes ← value_bytes size signed array offset len
  ok (integer_to_string (integer_of (8 * size) signed (little_endian bytes)))
