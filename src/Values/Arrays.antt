-- ===== src/Values/Arrays.antt =====
-- `arrayView` and `multiArrayView` of server/src/Tests.cpp. The view of a struct is an argument, as
-- it calls them itself.
use utbot_cpp.Base.{
  ℕ, zero, suc, ◌+◌, List, [], ◌∷◌, Text, length, take, drop, ltb, if◌then◌else◌, Result, ok, err,
  ◌>>=◌,
}
use utbot_cpp.Types.Kinds.{CType, PointerUsage}
use utbot_cpp.Types.Queries.{is_void, base_type_obj, arrays_sizes}
use utbot_cpp.Types.Creation.{minimal_scalar_type}
use utbot_cpp.Types.Handler.{
  TypesHandler, StructInfo, primitive, struct_like, enum, function_pointer, get_type_kind,
  type_size, get_struct_info, get_enum_info, no_such_type, unimplemented, does_not_return,
}
use utbot_cpp.Values.Bytes.{ValueError, undefined_behaviour, type_error}
use utbot_cpp.Values.Views.{View, from_list}
use utbot_cpp.Values.Views
use utbot_cpp.Values.Reading.{primitive_view, enum_view, lift_type}

-- The loops `for (curPos = offset; curPos < stop; curPos += step)`, which push the view at `curPos`.
-- With a step of 0 the loop does not return.
module _ (view : ℕ → Result ValueError View) where
  unfoldable pub element_loop : ℕ → ℕ → ℕ → ℕ → Result ValueError (List View)
  element_loop zero cur stop step = err (type_error does_not_return)
  element_loop (suc fuel) cur stop step =
      let rest = element_loop fuel (cur + step) stop step in
      if ltb cur stop then (do v ← view cur; views ← rest; ok (v ∷ views)) else ok []

  -- One round for each step, and one to see the end.
  unfoldable pub elements : ℕ → ℕ → ℕ → Result ValueError (List View)
  unfolding element_loop
  elements offset size step = element_loop (suc size) offset (offset + size) step

-- One round of the regrouping: the views in groups of `size`. A short last group is read out of
-- bounds, and groups of 0 views do not end.
unfoldable pub group_loop : ℕ → ℕ → List View → Result ValueError (List View)
group_loop fuel size [] = ok []
group_loop zero size (v ∷ views) = err (type_error does_not_return)
group_loop (suc fuel) size (v ∷ views) =
    let rest = group_loop fuel size (drop size (v ∷ views)) in
    if ltb (length (v ∷ views)) size
    then err undefined_behaviour
    else (do groups ← rest; ok (Views.array (from_list (take size (v ∷ views))) ∷ groups))

-- The regrouping by the sizes behind the first one, from the last.
unfoldable pub regroup : List ℕ → List View → Result ValueError (List View)
unfolding group_loop
regroup [] views = ok views
regroup (size ∷ sizes) views = do inner ← regroup sizes views; group_loop (length inner) size inner

abbrev pub tail_sizes : List ℕ → Result ValueError (List ℕ)
tail_sizes [] = err undefined_behaviour
tail_sizes (size ∷ sizes) = ok sizes

module _ (print_float : Text → List ℕ → Text) (h : TypesHandler) (bytes : List ℕ)
    (struct_view : StructInfo → ℕ → Result ValueError View) where
  -- The length of an element in bits.
  unfoldable pub element_size : CType → Result ValueError ℕ
  element_size type = lift_type (type_size h (if is_void type then minimal_scalar_type else type))

  -- An element of `arrayView`. `default` of the `switch` takes pointers to functions.
  unfoldable pub array_element : CType → ℕ → ℕ → Result ValueError View
  array_element type len cur =
      let struct = lift_type (get_struct_info h type) >>= λ info. struct_view info cur in
      let entry =
        lift_type (get_enum_info h type) >>= λ info. enum_view print_float bytes info cur len in
      let value = primitive_view print_float bytes (base_type_obj type) cur len in
      elim (get_type_kind h type) [
        | struct_like ↦ struct
        | enum ↦ entry
        | primitive ↦ value
        | function_pointer ↦ err (type_error (no_such_type 0))
        | _ ↦ err (type_error (unimplemented type.type_name))
      ]

  unfoldable pub array_view : CType → ℕ → ℕ → Result ValueError View
  unfolding element_size array_element elements
  array_view type size offset = do
    len ← element_size type
    views ← elements (array_element type len) offset size len
    ok (Views.array (from_list views))

  -- An element of `multiArrayView`: the entry of an enum is looked up by the type of the array.
  unfoldable pub multi_array_element : CType → ℕ → ℕ → Result ValueError View
  multi_array_element type len cur =
      let base = base_type_obj type in
      let struct = lift_type (get_struct_info h base) >>= λ info. struct_view info cur in
      let entry =
        lift_type (get_enum_info h type) >>= λ info. enum_view print_float bytes info cur len in
      let value = primitive_view print_float bytes base cur len in
      elim (get_type_kind h base) [
        | struct_like ↦ struct
        | enum ↦ entry
        | primitive ↦ value
        | function_pointer ↦ err (type_error (no_such_type 0))
        | _ ↦ err (type_error (unimplemented type.type_name))
      ]

  unfoldable pub multi_array_view : PointerUsage → CType → ℕ → ℕ → Result ValueError View
  unfolding element_size multi_array_element elements regroup
  multi_array_view usage type size offset = do
    len ← element_size (base_type_obj type)
    views ← elements (multi_array_element type len) offset size len
    sizes ← tail_sizes (arrays_sizes usage type)
    grouped ← regroup sizes views
    ok (Views.array (from_list grouped))
