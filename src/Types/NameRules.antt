-- ===== src/Types/NameRules.antt =====
-- The names and default values that server/src/types/Types.cpp gives to types.
use utbot_cpp.Base.{
  ℕ, Bool, true, false, List, [], ◌∷◌, ◌≡◌, ◌≢◌, ◌↔◌, ◌⊎◌, refl, sym, arith, none, some, Text,
  codes, text_eq, text_eq_sound, contains_text, lookup_text, if◌then◌else◌, ok, All, Option-cases,
  inl, inr,
}
use utbot_cpp.Strings.Split.{join_with, split-join_with, Lacks, c_string}
use utbot_cpp.Strings.Trim.{split_by_whitespaces, whitespace_loop, is_space}
use utbot_cpp.Types.Kinds.{CType}
use utbot_cpp.Types.Queries.{is_void, is_void_name}
use utbot_cpp.Types.Creation.{create_const_type_from_name}
use utbot_cpp.Types.Handler.{
  TypesHandler, Language, c_language, cxx_language, unknown_language, is_integer_type, is_bool_type,
  is_floating_point_type, integer_types_to_sizes, is_bool_type_name, bool_types_to_sizes,
  floating_point_types_to_sizes, type_size, type_size_fuel,
}
use utbot_cpp.Types.Names.{
  const_qualifier, remove_const_prefix, has_const_modifier, is_unsigned_type, ValidationType,
  int8_t, int16_t, int32_t, int64_t, uint8_t, uint16_t, uint32_t, uint64_t, validation_type_of_size,
  get_integer_validation_type, fallback_value, bool_value, get_default_value_for_type,
}

-- `removeConstPrefix` of words with single spaces between them drops the first word if it is `const`,
-- and changes nothing otherwise. The words hold no space and no NUL and are not empty.
pub remove_const_prefix_lem :
    (w : Text) (ws : List Text)
    → All (λ p. Lacks b' ' p × (p ≢ [])) (w ∷ ws)
    → All (Lacks 0) (w ∷ ws)
    → remove_const_prefix (join_with (w ∷ ws) (b' ' ∷ []))
      ≡ ok (join_with (if text_eq w const_qualifier then ws else w ∷ ws) (b' ' ∷ []))
unfolding remove_const_prefix
remove_const_prefix_lem w ws h z =
    let tokens = split-join_with (w ∷ ws) b' ' (omega arith) h z in ground (arith, tokens)

-- A type that `createConstTypeFromName` makes has the `const` modifier in its name.
pub has_const_modifier-create_const_type_from_name :
    (name : Text) (n : ℕ) → has_const_modifier (create_const_type_from_name name n).type_name ≡ true
unfolding has_const_modifier create_const_type_from_name split_by_whitespaces c_string
    whitespace_loop is_space contains_text text_eq codes
has_const_modifier-create_const_type_from_name name n = refl

-- The number of bits, and whether the type is unsigned.
abbrev pub bits_of : ValidationType → ℕ
bits_of int8_t = 8
bits_of uint8_t = 8
bits_of int16_t = 16
bits_of uint16_t = 16
bits_of int32_t = 32
bits_of uint32_t = 32
bits_of int64_t = 64
bits_of uint64_t = 64

abbrev pub is_unsigned : ValidationType → Bool
is_unsigned uint8_t = true
is_unsigned uint16_t = true
is_unsigned uint32_t = true
is_unsigned uint64_t = true
is_unsigned _ = false

integer_size :
    (name : Text) (size : ℕ)
    → lookup_text name integer_types_to_sizes ≡ some size
    → (size ≡ 8) ⊎ (size ≡ 16) ⊎ (size ≡ 32) ⊎ (size ≡ 64)
unfolding lookup_text integer_types_to_sizes
integer_size name size e = ground arith

validation_type_of_size_lem :
    (size : ℕ) (unsigned : Bool)
    → (size ≡ 8) ⊎ (size ≡ 16) ⊎ (size ≡ 32) ⊎ (size ≡ 64)
    → (v : ValidationType) × (validation_type_of_size size unsigned ≡ ok v)
      × (bits_of v ≡ size)
      × (is_unsigned v ≡ unsigned)
unfolding validation_type_of_size
validation_type_of_size_lem size true (inl e) = (uint8_t, ground arith, sym e, refl)
validation_type_of_size_lem size true (inr (inl e)) = (uint16_t, ground arith, sym e, refl)
validation_type_of_size_lem size true (inr (inr (inl e))) = (uint32_t, ground arith, sym e, refl)
validation_type_of_size_lem size true (inr (inr (inr e))) = (uint64_t, ground arith, sym e, refl)
validation_type_of_size_lem size false (inl e) = (int8_t, ground arith, sym e, refl)
validation_type_of_size_lem size false (inr (inl e)) = (int16_t, ground arith, sym e, refl)
validation_type_of_size_lem size false (inr (inr (inl e))) = (int32_t, ground arith, sym e, refl)
validation_type_of_size_lem size false (inr (inr (inr e))) = (int64_t, ground arith, sym e, refl)

-- Every integer type has a validation type, with as many bits as `typeSize` says, and unsigned
-- exactly if the name of the type begins so.
pub get_integer_validation_type_lem :
    (h : TypesHandler) (t : CType)
    → is_integer_type t ≡ true
    → (v : ValidationType) × (get_integer_validation_type t ≡ ok v)
      × (type_size h t ≡ ok (bits_of v))
      × (is_unsigned v ≡ is_unsigned_type t)
unfolding get_integer_validation_type type_size type_size_fuel is_integer_type
get_integer_validation_type_lem h t e =
    elim (Option-cases (lookup_text t.base_type integer_types_to_sizes)) [
      | inl missing ↦ absurd (ground arith)
      | inr (size, found) ↦
          let (v, made, bits, sign) =
            validation_type_of_size_lem size (is_unsigned_type t)
              (integer_size t.base_type size found) in
          (v, ground arith, ground arith, sign)
    ]

void_lookups :
    (name : Text)
    → is_void_name name ≡ true
    → (lookup_text name integer_types_to_sizes ≡ none)
      × (lookup_text name floating_point_types_to_sizes ≡ none)
      × (is_bool_type_name name ≡ false)
unfolding is_void_name is_bool_type_name lookup_text integer_types_to_sizes bool_types_to_sizes
    floating_point_types_to_sizes text_eq codes
void_lookups name e = let same = text_eq_sound name (codes "void") e in rw same (refl, refl, refl)

fallback_value_some : (name : Text) (l : Language) → fallback_value name l ≢ []
unfolding fallback_value codes
fallback_value_some name c_language = cc
fallback_value_some name cxx_language = cc
fallback_value_some name unknown_language = cc

-- Void is the one type with an empty default value, in every language.
pub get_default_value_for_type-nil :
    (t : CType) (l : Language) → (get_default_value_for_type t l ≡ []) ↔ (is_void t ≡ true)
unfolding get_default_value_for_type is_void is_integer_type is_floating_point_type is_bool_type
    bool_value codes
get_default_value_for_type-nil t l = (
  λ e. ground (arith, fallback_value_some t.type_name l),
  λ e. ground (arith, void_lookups t.base_type),
)
