-- ===== src/Types/Kinds.antt =====
-- server/src/types/AbstractType.h and its subclasses: one constructor for each subclass; and the
-- fields of `types::Type` in server/src/types/Types.h.
use utbot_cpp.Base.{ℕ, Bool, true, false, List, [], ◌∷◌, Option, Text}

pub data ReferenceType : Type 0 where
  l_value_reference r_value_reference not_reference : ReferenceType

pub data Kind : Type 0 where
  object_pointer : (const_qualified : Bool) → Kind
  function_pointer : Kind
  array : (size : ℕ) (complete : Bool) → Kind
  simple : (id : ℕ) (unnamed const_qualified : Bool) (reference : ReferenceType) → Kind

abbrev pub is_object_pointer_kind : Kind → Bool
is_object_pointer_kind (object_pointer c) = true
is_object_pointer_kind _ = false

abbrev pub is_function_pointer_kind : Kind → Bool
is_function_pointer_kind function_pointer = true
is_function_pointer_kind _ = false

abbrev pub is_array_kind : Kind → Bool
is_array_kind (array n c) = true
is_array_kind _ = false

abbrev pub is_simple_kind : Kind → Bool
is_simple_kind (simple i u c r) = true
is_simple_kind _ = false

-- `AbstractType::getSize`, which only `ArrayType` overrides.
abbrev pub get_size : Kind → ℕ
get_size (array n c) = n
get_size _ = 0

-- `is_complete` of `ArrayType`; the source casts only after a test for an array.
abbrev pub is_complete : Kind → Bool
is_complete (array n c) = c
is_complete _ = true

abbrev pub is_unnamed_kind : Kind → Bool
is_unnamed_kind (simple i u c r) = u
is_unnamed_kind _ = false

-- `isConstQualified` of `SimpleType`.
abbrev pub is_const_simple : Kind → Bool
is_const_simple (simple i u c r) = c
is_const_simple _ = false

-- `isConstQualified` of `ObjectPointerType`, behind the cast that fails on any other kind.
abbrev pub is_const_pointer : Kind → Bool
is_const_pointer (object_pointer c) = c
is_const_pointer _ = false

abbrev pub is_l_value : ReferenceType → Bool
is_l_value l_value_reference = true
is_l_value _ = false

abbrev pub is_r_value : ReferenceType → Bool
is_r_value r_value_reference = true
is_r_value _ = false

abbrev pub reference_of : Kind → ReferenceType
reference_of (simple i u c r) = r
reference_of _ = not_reference

-- `types::Type`: `kinds` lists pointers and arrays from the outside in, and ends in the base kind.
pub record CType : Type 0 where
  pub type_name : Text
  pub base_type : Text
  pub used_type : Text
  pub kinds : List Kind
  pub dimension : ℕ
  pub type_id : Option ℕ
  pub base_type_id : Option ℕ
  pub maybe_array : Bool

pub data PointerUsage : Type 0 where
  parameter return known_size lazy : PointerUsage

pub data AccessSpecifier : Type 0 where
  as_public as_protected as_private as_none : AccessSpecifier

-- A test of `kinds().front()`. On an empty vector the source has undefined behaviour; here the test
-- fails, and `HasBase` rules the case out.
abbrev pub front_is : (Kind → Bool) → List Kind → Bool
front_is p [] = false
front_is p (k ∷ ks) = p k

-- Behind the leading pointers and arrays there is a simple type or a pointer to a function.
abbrev pub HasBase : List Kind → Type 0
HasBase [] = ⊥
HasBase (simple i u c r ∷ ks) = Unit
HasBase (function_pointer ∷ ks) = Unit
HasBase (object_pointer c ∷ ks) = HasBase ks
HasBase (array n c ∷ ks) = HasBase ks
