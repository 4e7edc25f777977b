-- ===== src/Types/Names.antt =====
-- server/src/types/Types.cpp: the functions on names of types, and what a test is given for a type.
use utbot_cpp.Base.{
  ℕ, zero, suc, Bool, true, false, ◌&&◌, ◌||◌, List, [], ◌∷◌, ◌++◌, none, some, Text, codes,
  text_eq, contains_text, lookup_text, length, ltb, ◌==◌, if◌then◌else◌, Result, ok, err,
}
use utbot_cpp.Strings.Affixes.{starts_with, is_empty}
use utbot_cpp.Strings.Split.{split, join_with}
use utbot_cpp.Strings.Trim.{trim, split_by_whitespaces}
use utbot_cpp.Types.Kinds.{CType}
use utbot_cpp.Types.Queries.{is_array, is_object_pointer, is_void}
use utbot_cpp.Types.Handler.{
  Language, c_language, cxx_language, unknown_language, is_integer_type, is_bool_type,
  is_bool_type_name, is_floating_point_type, is_character_type, is_c_string_type,
  integer_types_to_sizes,
}

abbrev pub const_qualifier : Text
const_qualifier = codes "const"

-- The undefined behaviour of the first token, or the last byte, of a name that has none; and `ABORT_F`.
pub data NameError : Type 0 where
  empty_name not_an_integer_type unknown_integer_size : NameError

unfoldable pub remove_const_prefix : Text → Result NameError Text
remove_const_prefix type = elim (split type b' ') [
  | [] ↦ err empty_name
  | token ∷ tokens ↦
      ok (if text_eq token const_qualifier then join_with tokens (b' ' ∷ []) else type)
]

unfoldable pub has_const_modifier : Text → Bool
has_const_modifier name = contains_text const_qualifier (split_by_whitespaces name)

-- `pop_back`, and a test of `back`.
abbrev pub pop_back : Text → Text
pop_back [] = []
pop_back (c ∷ []) = []
pop_back (c ∷ d ∷ s) = c ∷ pop_back (d ∷ s)

abbrev pub back_is : ℕ → Text → Bool
back_is b [] = false
back_is b (c ∷ []) = c == b
back_is b (c ∷ d ∷ s) = back_is b (d ∷ s)

unfoldable pub drop_star : Text → Text
drop_star [] = []
drop_star (c ∷ s) =
    if c == b'*' then s else if back_is b'*' (c ∷ s) then pop_back (c ∷ s) else c ∷ s

unfoldable pub drop_brackets : Text → Text
drop_brackets s =
    if ltb 2 (length s) && back_is b']' s && back_is b'[' (pop_back s)
    then pop_back (pop_back s)
    else s

unfoldable pub remove_array_reference : Text → Result NameError Text
unfolding drop_star drop_brackets
remove_array_reference [] = err empty_name
remove_array_reference (c ∷ s) = ok (trim (drop_brackets (drop_star (c ∷ s))))

-- The `while` of `removeArrayBrackets`; the length of the name is fuel enough.
unfoldable pub brackets_loop : ℕ → Text → Text
brackets_loop zero s = s
brackets_loop (suc fuel) s = elim (is_empty s || back_is b'[' s) [
  | true ↦ s
  | false ↦ brackets_loop fuel (pop_back s)
]

unfoldable pub remove_array_brackets : Text → Result NameError Text
unfolding brackets_loop
remove_array_brackets [] = err empty_name
remove_array_brackets (c ∷ s) = ok (
    if back_is b']' (c ∷ s)
    then trim (pop_back (brackets_loop (length (c ∷ s)) (c ∷ s)))
    else trim (c ∷ s))

unfoldable pub is_unsigned_type : CType → Bool
is_unsigned_type t = starts_with t.base_type (codes "unsigned")

-- The integer constants of `testsgen::ValidationType`.
pub data ValidationType : Type 0 where
  int8_t int16_t int32_t int64_t uint8_t uint16_t uint32_t uint64_t : ValidationType

unfoldable pub validation_type_of_size : ℕ → Bool → Result NameError ValidationType
validation_type_of_size size unsigned =
    if size == 8
    then ok (if unsigned then uint8_t else int8_t)
    else if size == 16
    then ok (if unsigned then uint16_t else int16_t)
    else if size == 32
    then ok (if unsigned then uint32_t else int32_t)
    else if size == 64
    then ok (if unsigned then uint64_t else int64_t)
    else err unknown_integer_size

unfoldable pub get_integer_validation_type : CType → Result NameError ValidationType
get_integer_validation_type t =
    if is_integer_type t
    then elim (lookup_text t.base_type integer_types_to_sizes) [
      | some size ↦ validation_type_of_size size (is_unsigned_type t)
      | none ↦ err not_an_integer_type
    ]
    else err not_an_integer_type

unfoldable pub preferred_constraints : List (Text × List Text)
preferred_constraints =
    let letters : List Text = codes ">= 'a'" ∷ codes "<= 'z'" ∷ codes "!= '\\0'" ∷ [] in
    let small : List Text = codes ">= -10" ∷ codes "<= 10" ∷ [] in
    let bounded : List Text = codes "<= 10" ∷ [] in
    (codes "char", letters)
    ∷ (codes "signed char", letters)
    ∷ (codes "unsigned char", letters)
    ∷ (codes "short", small)
    ∷ (codes "int", small)
    ∷ (codes "long", small)
    ∷ (codes "long long", small)
    ∷ (codes "unsigned short", bounded)
    ∷ (codes "unsigned int", bounded)
    ∷ (codes "unsigned long", bounded)
    ∷ (codes "unsigned long long", bounded)
    ∷ (codes "float", small)
    ∷ (codes "double", small)
    ∷ (codes "long double", small)
    ∷ (codes "void", bounded)
    ∷ []

-- The value for a type of no known kind.
unfoldable pub fallback_value : Text → Language → Text
fallback_value name c_language = codes "(" ++ (name ++ codes "){0}")
fallback_value name cxx_language = codes "{}"
fallback_value name unknown_language =
    codes "\n#ifdef __cplusplus\n "
    ++ (codes "{}"
        ++ (codes "\n #else\n " ++ ((codes "(" ++ (name ++ codes "){0}")) ++ codes "\n #endif\n")))

unfoldable pub bool_value : Language → Text
bool_value cxx_language = codes "false"
bool_value _ = codes "0"

unfoldable pub get_default_value_for_type : CType → Language → Text
get_default_value_for_type t language =
    if is_integer_type t
    then codes "0"
    else if is_bool_type t
    then bool_value language
    else if is_floating_point_type t
    then codes ".0"
    else if is_void t
    then []
    else if is_character_type t
    then codes "'\\0'"
    else if is_array t
    then codes "{}"
    else if is_c_string_type t
    then codes "\"\""
    else if is_object_pointer t
    then codes "NULL"
    else fallback_value t.type_name language

unfoldable pub c_bool_to_cpp : Text → Text
c_bool_to_cpp type = if is_bool_type_name type then codes "bool" else type
