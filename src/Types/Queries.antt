-- ===== src/Types/Queries.antt =====
-- server/src/types/Types.cpp: the constructors and the const methods of `types::Type`.
use utbot_cpp.Base.{
  ℕ, ◌+◌, ◌-◌, ◌%◌, ◌^◌, Bool, true, false, not, ◌&&◌, ◌||◌, List, [], ◌∷◌, none, some, Text, codes,
  text_eq, length, any, drop, ltb, leb, ◌==◌, if◌then◌else◌, Result, ok, err,
}
use utbot_cpp.Types.Kinds.{
  Kind, object_pointer, function_pointer, array, simple, is_object_pointer_kind,
  is_function_pointer_kind, is_array_kind, is_simple_kind, is_unnamed_kind, is_const_simple, CType,
  PointerUsage, parameter, return, known_size, lazy, front_is, reference_of, is_l_value, is_r_value,
}

unfoldable pub is_object_pointer : CType → Bool
is_object_pointer t = front_is is_object_pointer_kind t.kinds

unfoldable pub is_array : CType → Bool
is_array t = front_is is_array_kind t.kinds

unfoldable pub is_pointer_to_function : CType → Bool
is_pointer_to_function t = front_is is_function_pointer_kind t.kinds

unfoldable pub is_simple : CType → Bool
is_simple t = front_is is_simple_kind t.kinds

-- The program's name; it tests for a pointer in front of a pointer to a function.
unfoldable pub is_array_of_pointers_to_function : CType → Bool
is_array_of_pointers_to_function t =
    front_is is_object_pointer_kind t.kinds && front_is is_function_pointer_kind (drop 1 t.kinds)

unfoldable pub is_array_candidate : CType → Bool
unfolding is_object_pointer is_array
is_array_candidate t = is_object_pointer t || is_array t

unfoldable pub is_unnamed : CType → Bool
unfolding is_simple
is_unnamed t = is_simple t && front_is is_unnamed_kind t.kinds

unfoldable pub is_const_qualified : CType → Bool
unfolding is_simple
is_const_qualified t = is_simple t && front_is is_const_simple t.kinds

unfoldable pub is_l_value_reference : CType → Bool
unfolding is_simple
is_l_value_reference t = is_simple t && front_is (λ k. is_l_value (reference_of k)) t.kinds

unfoldable pub is_r_value_reference : CType → Bool
unfolding is_simple
is_r_value_reference t = is_simple t && front_is (λ k. is_r_value (reference_of k)) t.kinds

-- The `while` of `pointerArrayKinds`: the leading pointers and arrays before the last kind.
unfoldable pub pointer_array_prefix : List Kind → List Kind
pointer_array_prefix [] = []
pointer_array_prefix (k ∷ []) = []
pointer_array_prefix (k ∷ l ∷ ks) =
    let rest = pointer_array_prefix (l ∷ ks) in
    if is_object_pointer_kind k || is_array_kind k then k ∷ rest else []

unfoldable pub pointer_array_kinds : CType → List Kind
unfolding pointer_array_prefix
pointer_array_kinds t = pointer_array_prefix t.kinds

-- `TypesHandler::getElementsNumberInPointerOneDim` and `…MultiDim`.
unfoldable pub get_elements_number_in_pointer_one_dim : PointerUsage → ℕ → ℕ
get_elements_number_in_pointer_one_dim parameter def = 10
get_elements_number_in_pointer_one_dim return def = 1
get_elements_number_in_pointer_one_dim lazy def = 1
get_elements_number_in_pointer_one_dim known_size def = def

unfoldable pub get_elements_number_in_pointer_multi_dim : PointerUsage → ℕ → ℕ
get_elements_number_in_pointer_multi_dim parameter def = 2
get_elements_number_in_pointer_multi_dim return def = 2
get_elements_number_in_pointer_multi_dim lazy def = 1
get_elements_number_in_pointer_multi_dim known_size def = def

-- `Type::symInputSize`, the default of the one-dimensional number of elements.
abbrev pub sym_input_size : ℕ
sym_input_size = 64

abbrev pub is_lazy : PointerUsage → Bool
is_lazy lazy = true
is_lazy _ = false

-- What one pointer adds in `arraysSizes`, by the number of kinds of the whole type.
unfoldable pub pointer_elements : PointerUsage → ℕ → ℕ
unfolding get_elements_number_in_pointer_one_dim get_elements_number_in_pointer_multi_dim
pointer_elements usage kinds_size =
    if leb kinds_size 2
    then get_elements_number_in_pointer_one_dim usage sym_input_size
    else get_elements_number_in_pointer_multi_dim usage 2

-- The loop of `arraysSizes`. A simple kind is logged as an error and adds nothing.
unfoldable pub sizes_loop : PointerUsage → ℕ → List Kind → List ℕ
unfolding pointer_elements
sizes_loop usage n [] = []
sizes_loop usage n (array m c ∷ ks) = m ∷ sizes_loop usage n ks
sizes_loop usage n (object_pointer c ∷ ks) =
    let rest = sizes_loop usage n ks in
    pointer_elements usage n ∷ (if is_lazy usage then [] else rest)
sizes_loop usage n (function_pointer ∷ ks) =
    let rest = sizes_loop usage n ks in
    pointer_elements usage n ∷ (if is_lazy usage then [] else rest)
sizes_loop usage n (simple i u c r ∷ ks) = sizes_loop usage n ks

unfoldable pub arrays_sizes : PointerUsage → CType → List ℕ
unfolding is_array is_object_pointer is_pointer_to_function sizes_loop pointer_array_kinds
arrays_sizes usage t =
    if not (is_array t) && not (is_object_pointer t) && not (is_pointer_to_function t)
    then []
    else sizes_loop usage (length t.kinds) (pointer_array_kinds t)

unfoldable pub get_dimension : CType → ℕ
unfolding arrays_sizes
get_dimension t = length (arrays_sizes parameter t)

-- `baseTypeObj(depth)`: the first `depth` kinds are erased.
unfoldable pub base_type_obj_at : ℕ → CType → CType
base_type_obj_at depth t =
    let erased : CType = record t {
      type_name = t.base_type;
      base_type = t.base_type;
      used_type = t.base_type;
      kinds = drop depth t.kinds;
    } in
    record erased {
      dimension = get_dimension erased;
      type_id = t.base_type_id;
      base_type_id = t.base_type_id;
    }

unfoldable pub base_type_obj : CType → CType
unfolding base_type_obj_at
base_type_obj t = base_type_obj_at (get_dimension t) t

-- `getId`: 0 where there is no id.
unfoldable pub get_id : CType → ℕ
get_id t = elim t.type_id [ none ↦ 0 | some i ↦ i ]

abbrev pub file_ptr_type : Text
file_ptr_type = codes "struct _IO_FILE *"

unfoldable pub is_file_pointer : CType → Bool
is_file_pointer t = text_eq t.type_name file_ptr_type

-- `TypesHandler::isVoid`, on a name and on a type.
unfoldable pub is_void_name : Text → Bool
is_void_name s = text_eq s (codes "void")

unfoldable pub is_void : CType → Bool
unfolding is_simple is_void_name
is_void t = is_simple t && is_void_name t.base_type

unfoldable pub maybe_just_pointer : CType → Bool
unfolding is_object_pointer
maybe_just_pointer t = is_object_pointer t && not t.maybe_array && ltb (length t.kinds) 3

unfoldable pub maybe_return_array : CType → Bool
unfolding is_object_pointer maybe_just_pointer is_array_of_pointers_to_function is_void
    base_type_obj
maybe_return_array t =
    is_object_pointer t
    && not (maybe_just_pointer t)
    && not (is_array_of_pointers_to_function t)
    && ltb (length t.kinds) 3
    && not (is_void (base_type_obj t))

-- `size_t` arithmetic: the decrement of 0 wraps around.
abbrev pub size_max : ℕ
size_max = 2 ^ 64

unfoldable pub count_pointers : List Kind → ℕ
count_pointers [] = 0
count_pointers (k ∷ ks) = (if is_object_pointer_kind k then 1 else 0) + count_pointers ks

unfoldable pub count_return_pointers : Bool → CType → ℕ
unfolding count_pointers pointer_array_kinds maybe_return_array
count_return_pointers decrement_if_array t =
    let n = count_pointers (pointer_array_kinds t) in
    if decrement_if_array && maybe_return_array t then (n + size_max - 1) % size_max else n

unfoldable pub is_pointer_to_pointer : CType → Bool
unfolding pointer_array_kinds
is_pointer_to_pointer t =
    front_is is_object_pointer_kind (pointer_array_kinds t)
    && front_is is_object_pointer_kind (drop 1 (pointer_array_kinds t))

unfoldable pub is_two_dimensional_pointer : CType → Bool
unfolding is_pointer_to_pointer
is_two_dimensional_pointer t = is_pointer_to_pointer t && length t.kinds == 3

unfoldable pub is_pointer_to_array : CType → Bool
unfolding pointer_array_kinds
is_pointer_to_array t =
    front_is is_object_pointer_kind (pointer_array_kinds t)
    && front_is is_array_kind (drop 1 (pointer_array_kinds t))

unfoldable pub is_one_dimension_pointer : CType → Bool
unfolding is_object_pointer is_pointer_to_pointer is_pointer_to_array
is_one_dimension_pointer t =
    is_object_pointer t && not (is_pointer_to_pointer t) && not (is_pointer_to_array t)

-- The loop of `isConstQualifiedValue`.
unfoldable pub const_value_loop : List Kind → Bool
const_value_loop [] = false
const_value_loop (simple i u c r ∷ ks) = c
const_value_loop (array n c ∷ ks) = const_value_loop ks
const_value_loop (object_pointer c ∷ ks) = const_value_loop ks
const_value_loop (function_pointer ∷ ks) = false

unfoldable pub is_const_qualified_value : CType → Bool
unfolding const_value_loop
is_const_qualified_value t = const_value_loop t.kinds

unfoldable pub is_type_contains_pointer : CType → Bool
unfolding pointer_array_kinds
is_type_contains_pointer t = any is_object_pointer_kind (pointer_array_kinds t)

unfoldable pub is_type_contains_function_pointer : CType → Bool
is_type_contains_function_pointer t = any is_function_pointer_kind t.kinds

-- `BaseException` of `indexOfFirstPointerInTypeKinds`.
pub data NoPointer : Type 0 where
  no_pointer_in_type : Text → NoPointer

unfoldable pub first_pointer_loop : Text → ℕ → List Kind → Result NoPointer ℕ
first_pointer_loop name index [] = err (no_pointer_in_type name)
first_pointer_loop name index (k ∷ ks) =
    let rest = first_pointer_loop name (index + 1) ks in
    if is_object_pointer_kind k then ok index else rest

unfoldable pub index_of_first_pointer_in_type_kinds : CType → Result NoPointer ℕ
unfolding first_pointer_loop pointer_array_kinds
index_of_first_pointer_in_type_kinds t = first_pointer_loop t.type_name 0 (pointer_array_kinds t)
