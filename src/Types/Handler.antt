-- ===== src/Types/Handler.antt =====
-- `types::TypesHandler` of server/src/types/Types.h and Types.cpp: the tables of named types, the
-- maps of structs and enums, and what is asked of a type with them.
use utbot_cpp.Base.{
  ℕ, zero, suc, ◌*◌, ◌%◌, Bool, not, ◌&&◌, ◌||◌, List, [], ◌∷◌, Option, none, some, Text, codes,
  lookup_text, lookup_id, is_some, if◌then◌else◌, Result, ok, err, ◌>>=◌,
}
use utbot_cpp.Types.Kinds.{Kind, get_size, is_complete, CType, AccessSpecifier, front_is}
use utbot_cpp.Types.Queries.{
  is_simple, is_array, is_object_pointer, is_pointer_to_function, is_unnamed,
  is_array_of_pointers_to_function, is_one_dimension_pointer, is_void, is_void_name, base_type_obj,
  get_id, size_max,
}
use utbot_cpp.Types.Creation.{minimal_scalar_type}

pub data Language : Type 0 where
  c_language cxx_language unknown_language : Language

pub record Field : Type 0 where
  pub type : CType
  pub unnamed_type : Bool
  pub anonymous : Bool
  pub name : Text
  pub size : ℕ
  pub offset : ℕ
  pub access_specifier : AccessSpecifier

pub data SubType : Type 0 where
  struct union : SubType

-- `StructInfo` without its file, its definition and its function fields, which nothing here reads.
pub record StructInfo : Type 0 where
  pub name : Text
  pub size : ℕ
  pub alignment : ℕ
  pub fields : List Field
  pub has_anonymous_struct_or_union : Bool
  pub is_c_like : Bool
  pub sub_type : SubType
  pub has_default_public_constructor : Bool

pub record EnumEntry : Type 0 where
  pub name : Text
  pub value : Text

pub record EnumInfo : Type 0 where
  pub name : Text
  pub size : ℕ
  pub values_to_entries : List (Text × EnumEntry)
  pub names_to_entries : List (Text × EnumEntry)
  pub access : Option Text
  pub is_specifier_needed : Bool

-- `TypeMaps` and the pointer size of `SizeContext`, in bytes.
pub record TypesHandler : Type 0 where
  pub structs : List (ℕ × StructInfo)
  pub enums : List (ℕ × EnumInfo)
  pub pointer_size : ℕ

-- `SizeUtils::bytesToBits`, in `size_t`.
unfoldable pub bytes_to_bits : ℕ → ℕ
bytes_to_bits bytes = bytes * 8 % size_max

-- `sizeof` is that of the LP64 targets of the server.
unfoldable pub integer_types_to_sizes : List (Text × ℕ)
integer_types_to_sizes =
    (codes "utbot_byte", 8)
    ∷ (codes "short", 16)
    ∷ (codes "int", 32)
    ∷ (codes "long", 64)
    ∷ (codes "long long", 64)
    ∷ (codes "unsigned short", 16)
    ∷ (codes "unsigned int", 32)
    ∷ (codes "unsigned long", 64)
    ∷ (codes "unsigned long long", 64)
    ∷ (codes "unsigned char", 8)
    ∷ []

unfoldable pub floating_point_types_to_sizes : List (Text × ℕ)
floating_point_types_to_sizes =
    (codes "float", 32) ∷ (codes "double", 64) ∷ (codes "long double", 128) ∷ []

unfoldable pub character_types_to_sizes : List (Text × ℕ)
character_types_to_sizes = (codes "char", 8) ∷ (codes "signed char", 8) ∷ []

unfoldable pub bool_types_to_sizes : List (Text × ℕ)
bool_types_to_sizes = (codes "bool", 8) ∷ (codes "_Bool", 8) ∷ []

unfoldable pub is_integer_type : CType → Bool
is_integer_type t = is_simple t && is_some (lookup_text t.base_type integer_types_to_sizes)

unfoldable pub is_floating_point_type : CType → Bool
is_floating_point_type t =
    is_simple t && is_some (lookup_text t.base_type floating_point_types_to_sizes)

unfoldable pub is_character_type_name : Text → Bool
is_character_type_name s = is_some (lookup_text s character_types_to_sizes)

unfoldable pub is_character_type : CType → Bool
unfolding is_character_type_name
is_character_type t = is_simple t && is_character_type_name t.base_type

unfoldable pub is_bool_type_name : Text → Bool
is_bool_type_name s = is_some (lookup_text s bool_types_to_sizes)

unfoldable pub is_bool_type : CType → Bool
unfolding is_bool_type_name
is_bool_type t = is_simple t && is_bool_type_name t.base_type

unfoldable pub is_primitive_type : CType → Bool
is_primitive_type t =
    is_integer_type t
    || is_floating_point_type t
    || is_character_type t
    || is_bool_type t
    || is_void t

unfoldable pub is_c_string_type : CType → Bool
is_c_string_type t = is_one_dimension_pointer t && is_character_type_name t.base_type

unfoldable pub base_type_is_void : CType → Bool
base_type_is_void t = is_void_name t.base_type

unfoldable pub is_incomplete_array_type : CType → Bool
is_incomplete_array_type t = is_array t && front_is (λ k. not (is_complete k)) t.kinds

unfoldable pub omit_make_symbolic : CType → Bool
omit_make_symbolic t =
    is_void t
    || is_pointer_to_function t
    || is_array_of_pointers_to_function t
    || is_object_pointer t

unfoldable pub skip_type_in_return : CType → Bool
skip_type_in_return t = is_void t || is_pointer_to_function t || is_array_of_pointers_to_function t

unfoldable pub get_return_type_to_check : CType → CType
get_return_type_to_check t =
    if is_object_pointer t
    then (if skip_type_in_return (base_type_obj t) then minimal_scalar_type else base_type_obj t)
    else t

-- The exceptions of these functions. `out_of_range` is that of `unordered_map::at`, and
-- `does_not_return` stands for a recursion that never ends.
pub data TypeError : Type 0 where
  no_such_type : (id : ℕ) → TypeError
  unimplemented : (type_name : Text) → TypeError
  out_of_range does_not_return : TypeError

abbrev pub at_or_throw {ℓ} : {A : Type ℓ} → Option A → TypeError → Result TypeError A
at_or_throw (some a) e = ok a
at_or_throw none e = err e

-- `kinds().front()->getSize()`.
abbrev pub front_size : List Kind → ℕ
front_size [] = 0
front_size (k ∷ ks) = get_size k

pub data TypeKind : Type 0 where
  primitive struct_like enum object_pointer function_pointer array unknown : TypeKind

module _ (h : TypesHandler) where
  unfoldable pub is_struct_like : CType → Bool
  is_struct_like t = is_simple t && is_some (lookup_id (get_id t) h.structs)

  unfoldable pub is_enum : CType → Bool
  is_enum t = is_simple t && is_some (lookup_id (get_id t) h.enums)

  unfoldable pub is_anonymous_enum : CType → Bool
  unfolding is_enum
  is_anonymous_enum t = is_unnamed t && is_enum t

  unfoldable pub get_struct_info : CType → Result TypeError StructInfo
  get_struct_info t = at_or_throw (lookup_id (get_id t) h.structs) (no_such_type (get_id t))

  unfoldable pub get_enum_info : CType → Result TypeError EnumInfo
  get_enum_info t = at_or_throw (lookup_id (get_id t) h.enums) (no_such_type (get_id t))

  -- `typeSize`, in bits. The recursion is on the base type of an array.
  unfoldable pub type_size_fuel : ℕ → CType → Result TypeError ℕ
  type_size_fuel zero t = err does_not_return
  type_size_fuel (suc fuel) t =
      let element = type_size_fuel fuel (base_type_obj t) in
      if is_integer_type t
      then at_or_throw (lookup_text t.base_type integer_types_to_sizes) out_of_range
      else if is_bool_type t
      then at_or_throw (lookup_text t.base_type bool_types_to_sizes) out_of_range
      else if is_floating_point_type t
      then at_or_throw (lookup_text t.base_type floating_point_types_to_sizes) out_of_range
      else if is_character_type t
      then at_or_throw (lookup_text t.base_type character_types_to_sizes) out_of_range
      else if is_struct_like t
      then (do s ← get_struct_info t; ok s.size)
      else if is_enum t
      then (do e ← get_enum_info t; ok e.size)
      else if is_array t
      then (do n ← element; ok (n * front_size t.kinds % size_max))
      else if is_object_pointer t
      then ok (bytes_to_bits h.pointer_size)
      else if is_pointer_to_function t
      then ok (bytes_to_bits 8)
      else err (unimplemented t.type_name)

  -- An array of a well-formed type is one level above its base type.
  unfoldable pub type_size : CType → Result TypeError ℕ
  type_size = type_size_fuel 2

  unfoldable pub get_type_kind : CType → TypeKind
  get_type_kind t =
      if is_primitive_type t
      then primitive
      else if is_object_pointer t
      then object_pointer
      else if is_array t
      then array
      else if is_struct_like t
      then struct_like
      else if is_enum t
      then enum
      else if is_pointer_to_function t
      then function_pointer
      else unknown
