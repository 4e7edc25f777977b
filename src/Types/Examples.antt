-- ===== src/Types/Examples.antt =====
-- Concrete types: a list node, `struct Node { struct Node *next; int value; }`, and what is made of it.
use utbot_cpp.Base.{
  contains_text, ℕ, ◌*◌, ◌%◌, true, false, not, ◌&&◌, [], ◌∷◌, ◌++◌, some, ◌≡◌, ◌≢◌, ◌↔◌, refl, sym,
  arith, Text, codes, text_eq, length, ok, lookup_id, lookup_text, ◌>>=◌,
}
use utbot_cpp.Types.Kinds.{object_pointer, simple, not_reference, CType, as_public, parameter}
use utbot_cpp.Types.Queries.{
  is_object_pointer, is_array, is_simple, is_void, is_void_name, get_dimension,
  pointer_array_prefix, pointer_array_kinds, base_type_obj, base_type_obj_at, arrays_sizes,
  maybe_return_array, maybe_just_pointer, is_array_of_pointers_to_function, is_pointer_to_function,
  sizes_loop, is_type_contains_pointer, size_max, get_id, is_pointer_to_pointer, count_pointers,
}
use utbot_cpp.Types.Creation.{array_clone_multi_dim}
use utbot_cpp.Types.Dimension.{
  IsWellFormed, get_dimension_lem, base_type_obj_splits, length-arrays_sizes,
}
use utbot_cpp.Types.Pointers.{array_clone_multi_dim_no_pointer}
use utbot_cpp.Types.Handler.{
  TypesHandler, Field, struct, TypeKind, unknown, get_type_kind, type_size, is_primitive_type,
  is_integer_type, is_floating_point_type, is_character_type, is_bool_type, is_struct_like, is_enum,
  integer_types_to_sizes,
}
use utbot_cpp.Types.Classify.{get_type_kind_iff}
use utbot_cpp.Types.Sizes.{type_size_sized, type_size_outer_array, wrap}
use utbot_cpp.Types.Support.{
  CheckState, TypeUsage, TypeSupport, supported, is_supported_type, is_supported_fuel, find_entry,
  check_type, check_fields, check_base, plain_reason, has_flexible_array, has_big_dimension,
  has_extra_const, start_check, end_check, erase_text, remember, unsupported_fields,
  unsupported_base,
}
use utbot_cpp.Types.Support.Returns.{is_supported_type_returns, is_supported_again}

abbrev named_type : Text → ℕ → CType
named_type name id = record {
  type_name = name;
  base_type = name;
  used_type = name;
  kinds = simple id false false not_reference ∷ [];
  dimension = 0;
  type_id = some id;
  base_type_id = some id;
  maybe_array = false;
}

abbrev node_type : CType
node_type = named_type (codes "struct Node") 7

abbrev pointer_to : CType → CType
pointer_to t = record t {
  type_name = t.type_name ++ codes "*";
  used_type = t.type_name ++ codes "*";
  kinds = object_pointer false ∷ t.kinds;
  dimension = 1;
}

abbrev possible_array : CType
possible_array = record (pointer_to node_type) { maybe_array = true }

abbrev field_of : Text → CType → Field
field_of name type = record {
  type = type;
  unnamed_type = false;
  anonymous = false;
  name = name;
  size = 32;
  offset = 0;
  access_specifier = as_public;
}

abbrev node_handler : TypesHandler
node_handler = record {
  structs =
      (
        7,
        record {
          name = codes "Node";
          size = 128;
          alignment = 64;
          fields =
              field_of (codes "next") (pointer_to node_type)
              ∷ field_of (codes "value") (named_type (codes "int") 1)
              ∷ [];
          has_anonymous_struct_or_union = false;
          is_c_like = true;
          sub_type = struct;
          has_default_public_constructor = true;
        },
      )
      ∷ [];
  enums = [];
  pointer_size = 8;
}

abbrev fresh_state : CheckState
fresh_state = record { recursive_check_started = []; is_supported_type_hash = [] }

named_type-IsWellFormed : (name : Text) (id : ℕ) → IsWellFormed (named_type name id)
unfolding pointer_array_kinds pointer_array_prefix
named_type-IsWellFormed name id = record {
  dimension_agrees = sym (get_dimension_lem (named_type name id));
  based = tt;
}

pointer_to-IsWellFormed : (name : Text) (id : ℕ) → IsWellFormed (pointer_to (named_type name id))
unfolding pointer_array_kinds pointer_array_prefix
pointer_to-IsWellFormed name id = record {
  dimension_agrees = sym (get_dimension_lem (pointer_to (named_type name id)));
  based = tt;
}

possible_array-IsWellFormed : IsWellFormed possible_array
unfolding pointer_array_kinds pointer_array_prefix
possible_array-IsWellFormed = record {
  dimension_agrees = sym (get_dimension_lem possible_array);
  based = tt;
}

is_supported_type_returns_example :
    (r : TypeSupport) × (st' : CheckState) × (is_supported_type node_handler node_type
        TypeUsage.parameter fresh_state
      ≡ some (r, st'))
is_supported_type_returns_example =
    is_supported_type_returns node_handler node_type TypeUsage.parameter fresh_state
      (
        (
          pointer_to-IsWellFormed (codes "struct Node") 7,
          (named_type-IsWellFormed (codes "int") 1, tt),
        ),
        tt,
      )
      (named_type-IsWellFormed (codes "struct Node") 7)

base_type_obj_splits_example :
    (pointer_array_kinds (pointer_to node_type) ++ (base_type_obj (pointer_to node_type)).kinds
      ≡ (pointer_to node_type).kinds)
    × (get_dimension (pointer_to node_type) ≡ length (pointer_array_kinds (pointer_to node_type)))
    × (get_dimension (base_type_obj (pointer_to node_type)) ≡ 0)
    × (is_array (base_type_obj (pointer_to node_type)) ≡ false)
    × (is_object_pointer (base_type_obj (pointer_to node_type)) ≡ false)
base_type_obj_splits_example =
    base_type_obj_splits (pointer_to node_type) (pointer_to-IsWellFormed (codes "struct Node") 7)

array_clone_multi_dim_no_pointer_example :
    is_type_contains_pointer (array_clone_multi_dim parameter possible_array) ≡ false
array_clone_multi_dim_no_pointer_example =
    array_clone_multi_dim_no_pointer parameter possible_array refl

length-arrays_sizes_example :
    length (arrays_sizes parameter possible_array) ≡ length (pointer_array_kinds possible_array)
length-arrays_sizes_example = length-arrays_sizes parameter possible_array refl

possible_array-returns : maybe_return_array possible_array ≡ true
unfolding maybe_return_array is_object_pointer maybe_just_pointer is_array_of_pointers_to_function
    is_void is_simple is_void_name get_dimension text_eq codes
possible_array-returns = refl

type_size_outer_array_example :
    type_size node_handler (wrap 5 true (pointer_to node_type))
    ≡ (do m ← type_size node_handler (base_type_obj (pointer_to node_type)); ok (m * 5 % size_max))
type_size_outer_array_example =
    type_size_outer_array node_handler 5 true (pointer_to node_type)
      (pointer_to-IsWellFormed (codes "struct Node") 7)

get_type_kind_iff_example :
    ((get_type_kind node_handler node_type ≡ TypeKind.object_pointer)
      ↔ (is_object_pointer node_type ≡ true))
    × ((get_type_kind node_handler node_type ≡ TypeKind.array) ↔ (is_array node_type ≡ true))
    × ((get_type_kind node_handler node_type ≡ TypeKind.function_pointer)
        ↔ (is_pointer_to_function node_type ≡ true))
    × ((get_type_kind node_handler node_type ≡ TypeKind.primitive)
        ↔ (is_primitive_type node_type ≡ true))
    × ((get_type_kind node_handler node_type ≡ TypeKind.struct_like)
        ↔ ((is_struct_like node_handler node_type && not (is_primitive_type node_type)) ≡ true))
    × ((get_type_kind node_handler node_type ≡ TypeKind.enum) ↔ (
        (is_enum node_handler node_type
          && not (is_primitive_type node_type)
          && not (is_struct_like node_handler node_type))
        ≡ true))
get_type_kind_iff_example = get_type_kind_iff node_handler node_type

pointer_known : get_type_kind node_handler (pointer_to node_type) ≢ unknown
unfolding get_type_kind is_primitive_type is_integer_type is_floating_point_type is_character_type
    is_bool_type is_void is_simple is_object_pointer
pointer_known = ground arith

node_known : get_type_kind node_handler (base_type_obj (pointer_to node_type)) ≢ unknown
unfolding get_type_kind is_primitive_type is_integer_type is_floating_point_type is_character_type
    is_bool_type is_void is_simple is_object_pointer is_array is_struct_like base_type_obj
    base_type_obj_at get_dimension arrays_sizes pointer_array_kinds pointer_array_prefix sizes_loop
    lookup_id get_id
node_known = ground arith

pointer_not_void : is_void (pointer_to node_type) ≡ false
unfolding is_void is_simple
pointer_not_void = refl

node_not_void : is_void (base_type_obj (pointer_to node_type)) ≡ false
unfolding is_void is_simple is_void_name text_eq codes base_type_obj base_type_obj_at get_dimension
node_not_void = refl

type_size_sized_example : (n : ℕ) × (type_size node_handler (pointer_to node_type) ≡ ok n)
type_size_sized_example =
    type_size_sized node_handler (pointer_to node_type)
      (pointer_to-IsWellFormed (codes "struct Node") 7) pointer_known pointer_not_void node_known
      node_not_void

abbrev after_check : CheckState
after_check = record {
  recursive_check_started = [];
  is_supported_type_hash =
      record { type_name = codes "int"; usage = TypeUsage.parameter; support = supported } ∷ [];
}

int_supported :
    is_supported_fuel node_handler 1 (named_type (codes "int") 1) TypeUsage.parameter 0 fresh_state
    ≡ some (supported, after_check)
unfolding is_supported_fuel find_entry check_type plain_reason get_type_kind is_primitive_type
    is_integer_type is_simple lookup_text integer_types_to_sizes text_eq codes has_flexible_array
    is_struct_like lookup_id get_id has_big_dimension count_pointers is_array is_object_pointer
    is_pointer_to_pointer pointer_array_kinds pointer_array_prefix check_base check_fields
    contains_text end_check erase_text has_extra_const remember start_check unsupported_base
    unsupported_fields
int_supported = refl

is_supported_again_example :
    is_supported_fuel node_handler 3 (named_type (codes "int") 1) TypeUsage.parameter 4 after_check
    ≡ some (supported, after_check)
is_supported_again_example =
    is_supported_again node_handler 1 (named_type (codes "int") 1) TypeUsage.parameter 0 fresh_state
      supported after_check int_supported refl 2 4
