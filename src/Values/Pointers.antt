-- ===== src/Values/Pointers.antt =====
-- The text of pointers and of accesses to fields: server/src/utils/PrinterUtils.cpp and
-- server/src/utils/StubsUtils.cpp. `stringFormat` puts texts without a zero byte in their places.
use utbot_cpp.Base.{
  ℕ, zero, suc, ◌/◌, ◌%◌, Bool, true, false, List, [], ◌∷◌, ◌++◌, Option, none, some, Text, codes,
  text_eq, drop, replicate, ◌==◌, if◌then◌else◌, Result, ok, err, ◌>>=◌,
}
use utbot_cpp.Paths.FileNames.{stub_suffix}
use utbot_cpp.Strings.Affixes.{is_empty}
use utbot_cpp.Strings.Replace.{replace_colon}
use utbot_cpp.Types.Kinds.{AccessSpecifier, as_public}
use utbot_cpp.Types.Handler.{Field}
use utbot_cpp.Values.Bytes.{ValueError, undefined_behaviour, invalid_argument, natural_to_string}
use utbot_cpp.Values.Literals.{stoi_digits, hex_digit}

abbrev pub c_null : Text
c_null = codes "NULL"

abbrev pub is_public : AccessSpecifier → Bool
is_public as_public = true
is_public _ = false

unfoldable pub get_field_access : Text → Field → Text
get_field_access object_name field =
    if is_empty field.name
    then object_name
    else if is_public field.access_specifier
    then object_name ++ (codes "." ++ field.name)
    else codes "access_private::" ++ (field.name ++ (codes "(" ++ (object_name ++ codes ")")))

unfoldable pub get_const_qualifier : Bool → Text
get_const_qualifier const_qualified_value = if const_qualified_value then codes "const " else []

-- The loop of `appendIndicesToVarName`, with the sizes from the last; a size of 0 divides by zero.
unfoldable pub indices_loop : List ℕ → ℕ → Text → Result ValueError Text
indices_loop [] offset indices = ok indices
indices_loop (size ∷ sizes) offset indices =
    let rest =
      indices_loop sizes (offset / size)
        (codes "[" ++ (natural_to_string (offset % size) ++ (codes "]" ++ indices))) in
    if size == 0 then err undefined_behaviour else rest

abbrev pub reverse_onto {ℓ} : {A : Type ℓ} → List A → List A → List A
reverse_onto [] done = done
reverse_onto (x ∷ xs) done = reverse_onto xs (x ∷ done)

unfoldable pub append_indices_to_var_name : Text → List ℕ → ℕ → Result ValueError Text
unfolding indices_loop
append_indices_to_var_name var_name sizes offset =
    if is_empty var_name
    then ok var_name
    else (do indices ← indices_loop (reverse_onto sizes []) offset []; ok (var_name ++ indices))

unfoldable pub append_const_cast : Text → Text
append_const_cast var_name =
    if is_empty var_name then var_name else codes "constCast(" ++ (var_name ++ codes ")")

-- `std::stoull` of digits, in the range of `unsigned long long`.
unfoldable pub stoull : Text → Result ValueError ℕ
unfolding stoi_digits
stoull s = if is_empty s then err invalid_argument else stoi_digits s 0

-- `%lx`, from the last digit; 16 digits are enough for 64 bits.
unfoldable pub hex_loop : ℕ → ℕ → Text → Text
hex_loop zero n out = out
hex_loop (suc rest) n out =
    let more = hex_loop rest (n / 16) (hex_digit (n % 16) ∷ out) in if n == 0 then out else more

unfoldable pub initialize_pointer : Text → Text → ℕ → Bool → Result ValueError Text
unfolding stoull get_const_qualifier hex_loop
initialize_pointer type value additional_pointers_count const_qualified =
    if text_eq value c_null then ok c_null else (do
      n ← stoull value
      let stars : Text = replicate additional_pointers_count b'*'
      let cast : Text =
          codes "(" ++ (get_const_qualifier const_qualified ++ (type ++ (stars ++ codes ") 0x")))
      ok (if n == 0 then c_null else cast ++ hex_loop 16 n []))

unfoldable pub initialize_pointer_to_var : Text → Text → ℕ → Bool → Text
unfolding get_const_qualifier
initialize_pointer_to_var type var_name additional_pointers_count const_qualified =
    let stars : Text = replicate additional_pointers_count b'*' in
    codes "("
    ++ (get_const_qualifier const_qualified ++ (type ++ (stars ++ (codes ") &" ++ var_name))))

unfoldable pub get_function_pointer_stub_name : Option Text → Text → Text → Bool → Text
get_function_pointer_stub_name scope_name method_name param_name omit_suffix =
    let scope : Text = elim scope_name [ none ↦ [] | some s ↦ s ] in
    let stub_name : Text = codes "*" ++ (scope ++ (codes "_" ++ method_name)) in
    replace_colon (
      if omit_suffix
      then drop 1 stub_name
      else stub_name ++ (codes "_" ++ (param_name ++ stub_suffix)))

unfoldable pub get_function_pointer_as_struct_field_stub_name : Text → Text → Bool → Text
get_function_pointer_as_struct_field_stub_name struct_name field_name omit_suffix =
    let stub_name : Text = codes "*" ++ struct_name in
    replace_colon (
      if omit_suffix
      then drop 1 stub_name
      else stub_name ++ (codes "_" ++ (field_name ++ stub_suffix)))

unfoldable pub convert_bytes_to_struct : Text → Text → Text
convert_bytes_to_struct type_name bytes =
    codes "from_bytes<" ++ (type_name ++ (codes ">(" ++ (bytes ++ codes ")")))
