-- ===== src/Values/Lookup.antt =====
-- Where a pointer into a struct leads, and the other queries of `KTestObjectParser` in
-- server/src/Tests.cpp.
use utbot_cpp.Base.{
  ℕ, zero, suc, ◌+◌, ◌-◌, ◌/◌, ◌%◌, ◌^◌, Bool, true, false, not, ◌&&◌, ◌||◌, List, [], ◌∷◌, ◌++◌,
  Option, none, some, Text, codes, text_eq, length, get_elem?, ltb, ◌==◌, if◌then◌else◌, Result, ok,
  err, ◌>>=◌,
}
use utbot_cpp.Types.Kinds.{CType, PointerUsage, parameter}
use utbot_cpp.Types.Queries.{
  is_pointer_to_pointer, arrays_sizes, base_type_obj, base_type_obj_at, is_const_qualified_value,
  is_object_pointer, is_l_value_reference, is_file_pointer, is_type_contains_function_pointer,
}
use utbot_cpp.Types.Handler.{
  TypesHandler, StructInfo, Field, primitive, struct_like, object_pointer, get_type_kind, type_size,
  get_struct_info, TypeError, no_such_type, does_not_return, bytes_to_bits, base_type_is_void,
}
use utbot_cpp.Values.Bytes.{
  ValueError, undefined_behaviour, incorrect_index, read_at, type_error, natural_to_string,
}
use utbot_cpp.Values.Reading.{lift_type}
use utbot_cpp.Values.Pointers.{get_field_access, append_indices_to_var_name, append_const_cast}
use utbot_cpp.Values.Structs.{Pointer, KTestObject}

-- The comparator takes the offset as an `int`, which is compared as a `size_t` again.
unfoldable pub as_int : ℕ → ℕ
as_int offset =
    let low = offset % 2 ^ 32 in if ltb low (2 ^ 31) then low else low + (2 ^ 64 - 2 ^ 32)

unfoldable pub begins_later : ℕ → Field → Bool
unfolding as_int
begins_later offset f = ltb (as_int offset) f.offset

-- `std::upper_bound` by bisection of the `len` fields from `first` on.
module _ (fields : List Field) (offset : ℕ) where
  abbrev pub later_at : ℕ → Bool
  later_at i = elim (get_elem? fields i) [ some f ↦ begins_later offset f | none ↦ true ]

  unfoldable pub bisect : ℕ → ℕ → ℕ → ℕ
  unfolding begins_later
  bisect zero first len = first
  bisect (suc fuel) first len =
      let half = len / 2 in
      let left = bisect fuel first half in
      let right = bisect fuel (first + half + 1) (len - half - 1) in
      if len == 0 then first else if later_at (first + half) then left else right

-- The search gets shorter with every round.
unfoldable pub upper_bound : List Field → ℕ → ℕ
unfolding bisect
upper_bound fields offset = bisect fields offset (length fields) 0 (length fields)

unfoldable pub find_field_index : StructInfo → ℕ → Result ValueError ℕ
unfolding upper_bound
find_field_index info offset =
    let ind_field = upper_bound info.fields offset in
    if ind_field == 0 then err incorrect_index else ok (ind_field - 1)

abbrev pub is_parameter : PointerUsage → Bool
is_parameter parameter = true
is_parameter _ = false

-- `TypeAndVarName`.
pub record TypeAndVarName : Type 0 where
  pub type : CType
  pub var_name : Text

module _ (h : TypesHandler) where
  -- `traverseLazyInStruct`, with fuel for the nesting of structs.
  unfoldable pub traverse_lazy_in_struct : ℕ → CType → ℕ → Text → Result ValueError TypeAndVarName
  unfolding find_field_index get_field_access
  traverse_lazy_in_struct zero type offset name = err (type_error does_not_return)
  traverse_lazy_in_struct (suc fuel) type offset name =
      let here = ok (record { type = type; var_name = name }) in
      let inner : Result ValueError TypeAndVarName = (do
        info ← lift_type (get_struct_info h type)
        index ← find_field_index info offset
        next ← read_at info.fields index
        traverse_lazy_in_struct fuel next.type (offset - next.offset)
            (get_field_access name next)) in
      elim (get_type_kind h type) [
        | struct_like ↦ inner
        | object_pointer ↦ here
        | primitive ↦ here
        | _ ↦ err (type_error (no_such_type 0))
      ]

  unfoldable pub point_to_struct : CType → KTestObject → Result ValueError Bool
  point_to_struct pointer_type goal = do
    field_size ← lift_type (type_size h (base_type_obj_at 1 pointer_type))
    ok (bytes_to_bits (length goal.bytes) == field_size)

  -- `getOffsetInStruct`: the object, which it changes, and the offset.
  unfoldable pub get_offset_in_struct :
      TypeAndVarName → ℕ → PointerUsage → Result ValueError (TypeAndVarName × ℕ)
  unfolding append_indices_to_var_name append_const_cast
  get_offset_in_struct object offset usage =
      let base = base_type_obj object.type in
      if not (is_pointer_to_pointer object.type) || not (is_parameter usage)
      then ok (object, offset)
      else (do
        size ← lift_type (type_size h base)
        checked ← if size == 0 then err undefined_behaviour else ok size
        name ←
            append_indices_to_var_name object.var_name (arrays_sizes usage object.type)
              (offset / checked)
        let cast = if is_const_qualified_value base then append_const_cast name else name
        ok (record { type = base; var_name = cast }, offset % checked))

-- `getSuiteName`; `failed` is the status of the test, and `for_assert` that of the line, if any.
unfoldable pub get_suite_name : Bool → Option Bool → Text
get_suite_name failed for_assert =
    let asserted : Bool = elim for_assert [ none ↦ false | some b ↦ b ] in
    if failed || asserted then codes "error" else codes "regression"

-- `MethodParam::isChangeable`.
unfoldable pub is_changeable : CType → Bool
is_changeable t =
    (is_object_pointer t || is_l_value_reference t)
    && not (is_file_pointer t)
    && not (is_type_contains_function_pointer t)
    && not (is_const_qualified_value t)
    && not (base_type_is_void t)

pub record RawKleeParam : Type 0 where
  pub param_name : Text
  pub raw_data : List ℕ
  pub pointers : List Pointer

-- `std::find_if` by the name.
unfoldable pub get_klee_param : List RawKleeParam → Text → Option RawKleeParam
get_klee_param [] name = none
get_klee_param (p ∷ params) name =
    if text_eq p.param_name name then some p else get_klee_param params name

unfoldable pub get_klee_param_or_throw : List RawKleeParam → Text → Result ValueError RawKleeParam
unfolding get_klee_param
get_klee_param_or_throw params name = elim (get_klee_param params name) [
  | some p ↦ ok p
  | none ↦
      err (
        type_error
          (TypeError.unimplemented (codes "Parameter '" ++ (name ++ codes "' not found."))))
]

-- `LAZYNAME` and `LAZYRENAME`.
abbrev pub lazy_name : Text
lazy_name = codes "unnamed"

unfoldable pub generate_new_var : ℕ → Text
unfolding natural_to_string
generate_new_var cnt = codes "utbotInnerVar" ++ natural_to_string cnt

-- The loop of `parseTestCaseParams` that gives the lazy objects their own names.
unfoldable pub rename_lazy : List KTestObject → ℕ → List KTestObject
unfolding generate_new_var
rename_lazy [] cnt = []
rename_lazy (o ∷ objects) cnt =
    let plain = o ∷ rename_lazy objects cnt in
    let renamed = record o { name = generate_new_var (cnt + 1) } ∷ rename_lazy objects (cnt + 1) in
    if text_eq o.name lazy_name then renamed else plain

-- `MethodDescription::operator==`, on the name and the types of the parameters.
unfoldable pub same_types : List CType → List CType → Bool
same_types [] [] = true
same_types [] (t ∷ ts) = false
same_types (s ∷ ss) [] = false
same_types (s ∷ ss) (t ∷ ts) = text_eq s.type_name t.type_name && same_types ss ts
