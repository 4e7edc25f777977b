-- ===== src/Types/Creation.antt =====
-- server/src/types/Types.cpp: the functions that make a `types::Type` from a name or another type.
use utbot_cpp.Base.{
  ℕ, ◌+◌, true, false, ◌&&◌, List, [], ◌∷◌, ◌++◌, none, some, Text, codes, length, set, replicate,
  ltb, ◌==◌, if◌then◌else◌,
}
use utbot_cpp.Types.Kinds.{
  not_reference, Kind, object_pointer, array, simple, is_object_pointer_kind, CType, PointerUsage,
  parameter,
}
use utbot_cpp.Types.Queries.{
  get_elements_number_in_pointer_one_dim, get_elements_number_in_pointer_multi_dim, is_unnamed,
  maybe_just_pointer, pointer_array_kinds, base_type_obj, arrays_sizes,
}

-- `Type(type, pointersNum)`, which is `createSimpleTypeFromName`.
unfoldable pub create_simple_type_from_name : Text → ℕ → CType
create_simple_type_from_name name pointers_num =
    let full : Text =
      if ltb 0 pointers_num then name ++ codes " " ++ replicate pointers_num b'*' else name in
    record {
      type_name = full;
      base_type = name;
      used_type = full;
      kinds =
          replicate pointers_num (object_pointer false) ++ simple 0 false false not_reference ∷ [];
      dimension = pointers_num;
      type_id = none;
      base_type_id = none;
      maybe_array = false;
    }

unfoldable pub create_const_type_from_name : Text → ℕ → CType
unfolding create_simple_type_from_name
create_const_type_from_name name pointers_num =
    let res = create_simple_type_from_name name pointers_num in
    record res {
      type_name = codes "const " ++ res.type_name;
      used_type = codes "const " ++ res.type_name;
    }

unfoldable pub create_array : CType → CType
unfolding get_elements_number_in_pointer_one_dim
create_array t = record {
  type_name = t.type_name ++ codes "*";
  base_type = t.base_type;
  used_type = t.type_name ++ codes "*";
  kinds = array (get_elements_number_in_pointer_one_dim parameter 64) false ∷ t.kinds;
  dimension = t.dimension + 1;
  type_id = some 0;
  base_type_id = t.base_type_id;
  maybe_array = true;
}

unfoldable pub minimal_scalar_type : CType
unfolding create_simple_type_from_name
minimal_scalar_type = create_simple_type_from_name (codes "unsigned char") 0

unfoldable pub minimal_scalar_pointer_type : ℕ → CType
unfolding create_simple_type_from_name
minimal_scalar_pointer_type = create_simple_type_from_name (codes "unsigned char")

unfoldable pub int_type : CType
unfolding create_simple_type_from_name
int_type = create_simple_type_from_name (codes "int") 0

unfoldable pub longlong_type : CType
unfolding create_simple_type_from_name
longlong_type = create_simple_type_from_name (codes "long long") 0

unfoldable pub c_string_type : CType
unfolding create_const_type_from_name
c_string_type = record (create_const_type_from_name (codes "char") 1) { maybe_array = true }

unfoldable pub array_clone : PointerUsage → ℕ → CType → CType
unfolding get_elements_number_in_pointer_one_dim
array_clone usage pointer_size t = record t {
  kinds = set t.kinds 0 (array (get_elements_number_in_pointer_one_dim usage pointer_size) true);
}

-- The loop of `arrayCloneMultiDim`: the kinds from the current index on, and the sizes left. The
-- source reads past the kinds if there are more sizes than kinds.
unfoldable pub clone_loop : PointerUsage → List ℕ → List Kind → List Kind
unfolding get_elements_number_in_pointer_multi_dim
clone_loop usage [] ks = ks
clone_loop usage (n ∷ ns) [] = []
clone_loop usage (n ∷ ns) (k ∷ ks) =
    (if is_object_pointer_kind k
      then array (get_elements_number_in_pointer_multi_dim usage n) true
      else k)
    ∷ clone_loop usage ns ks

unfoldable pub array_clone_multi_dim_sizes : PointerUsage → List ℕ → CType → CType
unfolding clone_loop
array_clone_multi_dim_sizes usage sizes t = record t { kinds = clone_loop usage sizes t.kinds }

unfoldable pub array_clone_multi_dim : PointerUsage → CType → CType
array_clone_multi_dim usage t =
    if maybe_just_pointer t && ltb (length (pointer_array_kinds t)) 2
    then base_type_obj t
    else if length (arrays_sizes usage t) == 1
    then array_clone usage 0 t
    else array_clone_multi_dim_sizes usage (arrays_sizes usage t) t

unfoldable pub replace_used_type : Text → CType → CType
replace_used_type name t = record t { used_type = name }

unfoldable pub replace_type_name_if_unnamed : Text → CType → CType
unfolding is_unnamed
replace_type_name_if_unnamed name t =
    if is_unnamed t then record t { base_type = name; used_type = name } else t
