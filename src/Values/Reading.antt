-- ===== src/Values/Reading.antt =====
-- `readBytesAsValueForType`, `primitiveView` and `enumView` of server/src/Tests.cpp.
use utbot_cpp.Base.{
  ℕ, Bool, true, false, ◌||◌, List, [], ◌∷◌, ◌++◌, none, some, Text, codes, text_eq, lookup_text,
  is_some, ◌==◌, if◌then◌else◌, Result, ok, err, ◌>>=◌,
}
use utbot_cpp.Names.Decorate.{decorate}
use utbot_cpp.Types.Kinds.{CType}
use utbot_cpp.Types.Queries.{is_void, base_type_obj}
use utbot_cpp.Types.Creation.{minimal_scalar_type}
use utbot_cpp.Types.Handler.{
  EnumInfo, Language, cxx_language, is_bool_type, TypeError, out_of_range,
}
use utbot_cpp.Values.Bytes.{
  ValueError, undefined_behaviour, type_error, value_bytes, little_endian, read_bytes_as_value,
}
use utbot_cpp.Values.Literals.{
  make_decimal_constant, process_fp_special_value, primitive_bool_view, primitive_char_view,
}
use utbot_cpp.Values.Views.{View, primitive, enum}

-- The integer types: size in bytes and whether they are signed.
unfoldable pub integer_layouts : List (Text × (ℕ × Bool))
integer_layouts =
    (codes "utbot_byte", (1, true))
    ∷ (codes "short", (2, true))
    ∷ (codes "int", (4, true))
    ∷ (codes "long", (8, true))
    ∷ (codes "long long", (8, true))
    ∷ (codes "unsigned short", (2, false))
    ∷ (codes "unsigned int", (4, false))
    ∷ (codes "unsigned long", (8, false))
    ∷ (codes "unsigned long long", (8, false))
    ∷ (codes "char", (1, true))
    ∷ (codes "signed char", (1, true))
    ∷ (codes "unsigned char", (1, false))
    ∷ (codes "std::uintptr_t", (8, false))
    ∷ (codes "uintptr_t", (8, false))
    ∷ []

-- The floating-point types, for which `std::is_signed` holds too: size in bytes.
unfoldable pub float_layouts : List (Text × ℕ)
float_layouts = (codes "float", 4) ∷ (codes "double", 8) ∷ (codes "long double", 16) ∷ []

-- A `bool` that is neither 0 nor 1 has no value.
abbrev pub bool_text : ℕ → Result ValueError Text
bool_text n =
    if n == 0 then ok (codes "0") else if n == 1 then ok (codes "1") else err undefined_behaviour

abbrev pub lift_type {ℓ} : {A : Type ℓ} → Result TypeError A → Result ValueError A
lift_type (ok a) = ok a
lift_type (err e) = err (type_error e)

-- `valuesToEntries.at(value)` and `getEntryName`.
abbrev pub is_cxx : Language → Bool
is_cxx cxx_language = true
is_cxx _ = false

unfoldable pub get_entry_name : EnumInfo → Text → Language → Result TypeError Text
get_entry_name info value language = elim (lookup_text value info.values_to_entries) [
  | none ↦ err out_of_range
  | some entry ↦ elim info.access [
    | some access ↦
        ok (if is_cxx language then access ++ (codes "::" ++ entry.name) else entry.name)
    | none ↦ ok entry.name
  ]
]

-- `print_float` is `std::scientific` output of a floating-point number of the named type, from its
-- bytes.
module _ (print_float : Text → List ℕ → Text) (array : List ℕ) where
  unfoldable pub read_bytes_as_value_for_type : Text → ℕ → ℕ → Result ValueError Text
  unfolding integer_layouts float_layouts read_bytes_as_value value_bytes little_endian
  read_bytes_as_value_for_type type_name offset len = elim (lookup_text type_name integer_layouts) [
    | some (size, signed) ↦ read_bytes_as_value size signed array offset len
    | none ↦
        if text_eq type_name (codes "bool") || text_eq type_name (codes "_Bool")
        then (do bytes ← value_bytes 1 false array offset len; bool_text (little_endian bytes))
        else elim (lookup_text type_name float_layouts) [
          | some size ↦ do
            bytes ← value_bytes size true array offset len
            ok (print_float type_name bytes)
          | none ↦ ok []
        ]
  ]

  unfoldable pub primitive_view : CType → ℕ → ℕ → Result ValueError View
  unfolding read_bytes_as_value_for_type
  primitive_view type offset len = do
    let read_type = if is_void type then minimal_scalar_type else type
    read ← read_bytes_as_value_for_type read_type.base_type offset len
    let value = process_fp_special_value (make_decimal_constant read type.base_type)
    text ←
        if is_bool_type type
        then ok (primitive_bool_view value)
        else primitive_char_view (base_type_obj type) value
    ok (primitive text)

  -- A value that is no entry is formatted with `%d` although it is a text, which is undefined.
  unfoldable pub enum_view : EnumInfo → ℕ → ℕ → Result ValueError View
  unfolding get_entry_name read_bytes_as_value
  enum_view info offset len = do
    value ← read_bytes_as_value 4 true array offset len
    name ←
        if is_some (lookup_text value info.values_to_entries)
        then lift_type (get_entry_name info value cxx_language)
        else err undefined_behaviour
    ok (enum (decorate name))
