-- ===== src/Values/Literals.antt =====
-- The literals of the generated tests: `isPrintable` and `charCodeToLiteral` of
-- server/src/utils/StringUtils.cpp, and the views of primitive values of server/src/Tests.cpp.
use utbot_cpp.Base.{
  ℕ, zero, suc, ◌+◌, ◌-◌, ◌*◌, ◌/◌, ◌%◌, Bool, not, ◌&&◌, ◌||◌, List, [], ◌∷◌, ◌++◌, map, none,
  some, Text, codes, text_eq, lookup_text, lookup_id, is_some, contains_text, length, ltb, leb,
  ◌==◌, if◌then◌else◌, Result, ok, err, ◌>>=◌,
}
use utbot_cpp.Values.Bytes.{ℤ, pos, negsuc, ValueError, invalid_argument, read_at}
use utbot_cpp.Types.Kinds.{CType}
use utbot_cpp.Types.Handler.{is_character_type}

-- `PrinterUtils::escapeSequences`. A backslash is 92.
unfoldable pub escape_sequences : List (ℕ × Text)
escape_sequences =
    (10, 92 ∷ b'n' ∷ [])
    ∷ (9, 92 ∷ b't' ∷ [])
    ∷ (11, 92 ∷ b'v' ∷ [])
    ∷ (8, 92 ∷ b'b' ∷ [])
    ∷ (13, 92 ∷ b'r' ∷ [])
    ∷ (12, 92 ∷ b'f' ∷ [])
    ∷ (7, 92 ∷ b'a' ∷ [])
    ∷ (92, 92 ∷ 92 ∷ [])
    ∷ (63, 92 ∷ 63 ∷ [])
    ∷ (39, 92 ∷ 39 ∷ [])
    ∷ (34, 92 ∷ 34 ∷ [])
    ∷ (0, 92 ∷ b'0' ∷ [])
    ∷ []

-- `code += 256` for a negative code, as `char` is signed; codes are those of characters.
unfoldable pub unsigned_code : ℤ → ℕ
unsigned_code (pos n) = n
unsigned_code (negsuc n) = 255 - n

-- `std::isprint` in the C locale.
abbrev pub isprint : ℕ → Bool
isprint c = leb 32 c && ltb c 127

unfoldable pub is_printable : ℤ → Bool
unfolding unsigned_code escape_sequences
is_printable code =
    not (is_some (lookup_id (unsigned_code code) escape_sequences)) && isprint (unsigned_code code)

unfoldable pub hex_digit : ℕ → ℕ
hex_digit d = if ltb d 10 then b'0' + d else b'a' + (d - 10)

-- `std::hex` of a code below 256, padded to two digits.
unfoldable pub hex_code : ℕ → Text
unfolding hex_digit
hex_code code = hex_digit (code / 16) ∷ hex_digit (code % 16) ∷ []

unfoldable pub char_code_to_literal : ℤ → Text
unfolding unsigned_code escape_sequences hex_code
char_code_to_literal code =
    let c = unsigned_code code in
    elim (lookup_id c escape_sequences) [
      | some text ↦ text
      | none ↦ if isprint c then c ∷ [] else 92 ∷ b'x' ∷ hex_code c
    ]

-- The `int` of a byte that is a signed `char`.
unfoldable pub char_to_int : ℕ → ℤ
char_to_int c = if ltb c 128 then pos c else negsuc (255 - c)

-- One round of the loop of `stringLiteralView`; `more` is `i + 1 < byteArray.size()`.
unfoldable pub literal_round : ℕ → Bool → Text
unfolding char_code_to_literal is_printable char_to_int
literal_round c more =
    let quotes : Text = if not (is_printable (char_to_int c)) && more then 34 ∷ 34 ∷ [] else [] in
    char_code_to_literal (char_to_int c) ++ quotes

-- The loop, with `rest` rounds left at index `i`.
unfoldable pub literal_loop : List ℕ → Bool → ℕ → ℕ → Result ValueError Text
unfolding literal_round
literal_loop array skip i zero = ok []
literal_loop array skip i (suc rest) = do
  c ← read_at array i
  let more = literal_loop array skip (i + 1) rest
  if c == 0 && skip
      then ok []
      else (more >>= λ text. ok (literal_round c (ltb (i + 1) (length array)) ++ text))

unfoldable pub string_literal_view : List ℕ → ℕ → Result ValueError Text
unfolding literal_loop
string_literal_view array len = do
  body ← literal_loop array (len == 0) 0 (if len == 0 then length array else len)
  ok (34 ∷ (body ++ 34 ∷ []))

-- `FPSpecialValuesMappings`.
unfoldable pub fp_special_values_mappings : List (Text × Text)
fp_special_values_mappings =
    (codes "nan", codes "NAN")
    ∷ (codes "-nan", codes "-NAN")
    ∷ (codes "inf", codes "INFINITY")
    ∷ (codes "-inf", codes "-INFINITY")
    ∷ []

abbrev second : Text × Text → Text
second (k, v) = v

unfoldable pub is_fp_special_value : Text → Bool
unfolding fp_special_values_mappings
is_fp_special_value value = contains_text value (map second fp_special_values_mappings)

unfoldable pub process_fp_special_value : Text → Text
unfolding fp_special_values_mappings
process_fp_special_value value = elim (lookup_text value fp_special_values_mappings) [
  | some v ↦ v
  | none ↦ value
]

-- `INT64_MIN_STRING`.
abbrev pub int64_min_string : Text
int64_min_string = codes "-9223372036854775808"

unfoldable pub make_decimal_constant : Text → Text → Text
unfolding fp_special_values_mappings
make_decimal_constant value type_name =
    if text_eq type_name (codes "long")
    then (if text_eq value int64_min_string
        then codes "(-9223372036854775807L - 1)"
        else value ++ codes "L")
    else if text_eq type_name (codes "long long")
    then (if text_eq value int64_min_string
        then codes "(-9223372036854775807LL - 1)"
        else value ++ codes "LL")
    else if text_eq type_name (codes "unsigned int")
    then value ++ codes "U"
    else if text_eq type_name (codes "unsigned long")
    then value ++ codes "UL"
    else if text_eq type_name (codes "unsigned long long")
    then value ++ codes "ULL"
    else if text_eq type_name (codes "long double")
        && not (is_some (lookup_text value fp_special_values_mappings))
    then value ++ codes "L"
    else value

unfoldable pub primitive_bool_view : Text → Text
primitive_bool_view value = if text_eq value (codes "0") then codes "false" else codes "true"

-- `std::stoi` of a text without spaces and in the range of `int`, as that of a `char` is.
unfoldable pub stoi_digits : Text → ℕ → Result ValueError ℕ
stoi_digits [] n = ok n
stoi_digits (d ∷ s) n =
    let rest = stoi_digits s (n * 10 + (d - b'0')) in
    if ltb d b'0' || ltb b'9' d then err invalid_argument else rest

unfoldable pub stoi : Text → Result ValueError ℤ
unfolding stoi_digits
stoi [] = err invalid_argument
stoi (c ∷ s) =
    if c == b'-'
    then (do
      n ← if length s == 0 then err invalid_argument else stoi_digits s 0
      ok (if n == 0 then pos 0 else negsuc (n - 1)))
    else (do n ← stoi_digits (c ∷ s) 0; ok (pos n))

unfoldable pub primitive_char_view : CType → Text → Result ValueError Text
unfolding stoi char_code_to_literal
primitive_char_view type value =
    if is_character_type type
    then (do code ← stoi value; ok (39 ∷ (char_code_to_literal code ++ 39 ∷ [])))
    else ok value
