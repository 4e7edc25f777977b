-- ===== src/Types/Classify.antt =====
-- The classes of types that `TypesHandler` of server/src/types/Types.cpp tells apart.
use utbot_cpp.Base.{true, false, not, ◌&&◌, ◌||◌, List, [], ◌∷◌, ◌≡◌, ◌↔◌, arith}
use utbot_cpp.Types.Kinds.{
  Kind, CType, front_is, is_simple_kind, is_array_kind, is_object_pointer_kind,
  is_function_pointer_kind, HasBase,
}
use utbot_cpp.Types.Queries.{
  is_simple, is_array, is_object_pointer, is_pointer_to_function, is_void,
}
use utbot_cpp.Types.Dimension.{IsWellFormed}
use utbot_cpp.Types.Handler.{
  TypesHandler, is_integer_type, is_floating_point_type, is_character_type, is_bool_type,
  is_primitive_type, is_struct_like, is_enum, primitive, struct_like, enum, object_pointer,
  function_pointer, array, unknown, get_type_kind,
}

-- A list of kinds has at most one of the four fronts.
front_unique :
    (ks : List Kind)
    → (front_is is_simple_kind ks ≡ true
        → (front_is is_array_kind ks ≡ false)
          × (front_is is_object_pointer_kind ks ≡ false)
          × (front_is is_function_pointer_kind ks ≡ false))
      × (front_is is_array_kind ks ≡ true
          → (front_is is_object_pointer_kind ks ≡ false)
            × (front_is is_function_pointer_kind ks ≡ false))
      × (front_is is_object_pointer_kind ks ≡ true → front_is is_function_pointer_kind ks ≡ false)
front_unique [] = ground arith
front_unique (k ∷ ks) = ground arith

pub simple_unique :
    (t : CType)
    → is_simple t ≡ true
    → (is_array t ≡ false) × (is_object_pointer t ≡ false) × (is_pointer_to_function t ≡ false)
unfolding is_simple is_array is_object_pointer is_pointer_to_function
simple_unique t = (front_unique t.kinds).0

wrapper_unique :
    (t : CType)
    → (is_array t ≡ true → (is_object_pointer t ≡ false) × (is_pointer_to_function t ≡ false))
      × (is_object_pointer t ≡ true → is_pointer_to_function t ≡ false)
unfolding is_simple is_array is_object_pointer is_pointer_to_function
wrapper_unique t = ((front_unique t.kinds).1, (front_unique t.kinds).2)

pub primitive_simple : (t : CType) → is_primitive_type t ≡ true → is_simple t ≡ true
unfolding is_primitive_type is_integer_type is_floating_point_type is_character_type is_bool_type
    is_void
primitive_simple t e = ground arith

pub struct_simple : (h : TypesHandler) (t : CType) → is_struct_like h t ≡ true → is_simple t ≡ true
unfolding is_struct_like
struct_simple h t e = ground arith

pub enum_simple : (h : TypesHandler) (t : CType) → is_enum h t ≡ true → is_simple t ≡ true
unfolding is_enum
enum_simple h t e = ground arith

-- `getTypeKind` answers with a class exactly when its test holds: for pointers, arrays and pointers
-- to functions whatever the order of the tests, and with the first of primitive, struct and enum.
pub get_type_kind_iff :
    (h : TypesHandler) (t : CType)
    → ((get_type_kind h t ≡ object_pointer) ↔ (is_object_pointer t ≡ true))
      × ((get_type_kind h t ≡ array) ↔ (is_array t ≡ true))
      × ((get_type_kind h t ≡ function_pointer) ↔ (is_pointer_to_function t ≡ true))
      × ((get_type_kind h t ≡ primitive) ↔ (is_primitive_type t ≡ true))
      × ((get_type_kind h t ≡ struct_like)
          ↔ ((is_struct_like h t && not (is_primitive_type t)) ≡ true))
      × ((get_type_kind h t ≡ enum)
          ↔ ((is_enum h t && not (is_primitive_type t) && not (is_struct_like h t)) ≡ true))
unfolding get_type_kind
get_type_kind_iff h t =
    let p = primitive_simple t in
    let s = struct_simple h t in
    let e = enum_simple h t in
    let u = simple_unique t in let w = wrapper_unique t in ground (arith, p, s, e, u, w.0, w.1)

front_total :
    (ks : List Kind)
    → HasBase ks
    → (front_is is_simple_kind ks
        || front_is is_array_kind ks
        || front_is is_object_pointer_kind ks
        || front_is is_function_pointer_kind ks)
      ≡ true
front_total [] h = absurd h
front_total (k ∷ ks) h = ground arith

-- A well-formed type is of unknown kind exactly when it is simple and neither primitive nor in the
-- maps of structs and enums.
pub unknown_iff :
    (h : TypesHandler) (t : CType)
    → IsWellFormed t
    → (get_type_kind h t ≡ unknown) ↔ (
        (is_simple t && not (is_primitive_type t) && not (is_struct_like h t) && not (is_enum h t))
        ≡ true)
unfolding get_type_kind
unknown_iff h t wf =
    let total : (is_simple t || is_array t || is_object_pointer t || is_pointer_to_function t)
        ≡ true =
      unfold is_simple is_array is_object_pointer is_pointer_to_function in
      front_total t.kinds wf.based in
    let u = simple_unique t in ground (arith, total, u)
