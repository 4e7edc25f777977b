-- ===== src/Values/Structs.antt =====
-- `structView` and `getLazyPointerView` of server/src/Tests.cpp.
use utbot_cpp.Base.{
  ℕ, zero, suc, ◌+◌, ◌-◌, ◌*◌, ◌/◌, Bool, true, false, not, ◌&&◌, ◌||◌, List, [], ◌∷◌, ◌++◌, Option,
  none, some, Text, codes, is_some, any, drop, length, get_elem?, replicate, ltb, ◌==◌,
  if◌then◌else◌, Result, ok, err, ◌>>=◌,
}
use utbot_cpp.Strings.Affixes.{is_empty}
use utbot_cpp.Types.Kinds.{CType, Kind, PointerUsage, is_array_kind, get_size}
use utbot_cpp.Types.Queries.{
  is_const_qualified_value, base_type_obj, get_dimension, pointer_array_kinds,
}
use utbot_cpp.Types.Creation.{create_simple_type_from_name}
use utbot_cpp.Types.Handler.{
  TypesHandler, StructInfo, Field, primitive, struct_like, enum, object_pointer, function_pointer,
  array, unknown, get_type_kind, type_size, get_struct_info, get_enum_info, unimplemented,
  does_not_return, bytes_to_bits,
}
use utbot_cpp.Values.Bytes.{ValueError, type_error}
use utbot_cpp.Values.Views.{
  View, Views, cons, struct_value, is_struct, is_union, is_initialized, is_dirty_init,
  get_entry_value, from_list,
}
use utbot_cpp.Values.Views
use utbot_cpp.Values.Reading.{primitive_view, enum_view, lift_type, read_bytes_as_value_for_type}
use utbot_cpp.Values.Pointers.{
  c_null, get_field_access, stoull, initialize_pointer, initialize_pointer_to_var,
  get_function_pointer_as_struct_field_stub_name, convert_bytes_to_struct,
}
use utbot_cpp.Values.Arrays.{array_view, multi_array_view}

-- `Pointer` of the KLEE objects, whose other fields are read elsewhere.
pub record Pointer : Type 0 where
  pub offset : ℕ
  pub index : ℕ
  pub index_offset : ℕ

pub record KTestObject : Type 0 where
  pub name : Text
  pub bytes : List ℕ
  pub pointers : List Pointer
  pub address : ℕ
  pub is_lazy : Bool

pub record InitReference : Type 0 where
  pub var_name : Text
  pub ref_name : Text
  pub type_name : Text

abbrev pub pointer_width_size_in_bits : ℕ
pointer_width_size_in_bits = 64

-- `std::find_if` by the address.
unfoldable pub find_address : ℕ → List KTestObject → Option KTestObject
find_address ptr [] = none
find_address ptr (o ∷ objects) = if o.address == ptr then some o else find_address ptr objects

-- The view and the references, to which one may be added.
unfoldable pub get_lazy_pointer_view :
    List KTestObject
    → List InitReference
    → Text
    → Text
    → CType
    → Bool
    → Result ValueError (View × List InitReference)
unfolding find_address stoull initialize_pointer initialize_pointer_to_var
get_lazy_pointer_view objects refs name res type lazy_pointer = do
  ptr ← stoull res
  let found = find_address ptr objects
  let stars = get_dimension type
  let const = is_const_qualified_value type
  let added : List InitReference = elim found [
    | none ↦ []
    | some o ↦
        record {
          var_name = name;
          ref_name = o.name;
          type_name = initialize_pointer_to_var type.base_type o.name stars const;
        }
        ∷ []
  ]
  let shown : Text = if lazy_pointer || is_some found then c_null else res
  text ← initialize_pointer type.base_type shown stars const
  ok (Views.just text, if lazy_pointer then refs else refs ++ added)

-- The loop of `dirtyCheck` over `rest` bytes from index `i`: true if one is not 0, or out of bounds.
unfoldable pub dirty_loop : List ℕ → ℕ → ℕ → Bool
dirty_loop bytes i zero = false
dirty_loop bytes i (suc rest) =
    let others = dirty_loop bytes (i + 1) rest in
    elim (get_elem? bytes i) [ none ↦ true | some b ↦ if b == 0 then others else true ]

unfoldable pub dirty_between : List ℕ → ℕ → ℕ → Bool
unfolding dirty_loop
dirty_between bytes from to = dirty_loop bytes (from / 8) (to / 8 - from / 8)

-- The product of the sizes of the leading arrays, and whether there are only arrays.
unfoldable pub array_product : List Kind → ℕ → ℕ × Bool
array_product [] size = (size, true)
array_product (k ∷ ks) size =
    let rest = array_product ks (size * get_size k) in
    if is_array_kind k then rest else (size, false)

-- The variables of the loop over the fields.
pub record Progress : Type 0 where
  pub sub_views : List View
  pub field_index_to_init_union : Option ℕ
  pub size_of_field_to_init_union : ℕ
  pub prev_field_end_offset : ℕ
  pub field_index : ℕ
  pub dirty_initialized_struct : Bool
  pub is_initialized_struct : Bool
  pub references : List InitReference

-- Whether bytes that belong to no field hold something: the gap before the field, and what follows
-- it in a union or behind the last field.
unfoldable pub dirty_field : List ℕ → StructInfo → ℕ → Progress → ℕ → ℕ → Bool
unfolding dirty_between
dirty_field bytes info offset p start len =
    let previous = if is_union info.sub_type then offset else p.prev_field_end_offset in
    let gap = ltb previous start && dirty_between bytes previous start in
    let last = is_union info.sub_type || p.field_index + 1 == length info.fields in
    gap || last && dirty_between bytes (start + len) (offset + info.size)

-- The end of a round: `clean` is `!dirtyInitializedField`.
unfoldable pub finish_field :
    StructInfo → Progress → ℕ → ℕ → Bool → View → List InitReference → Progress
finish_field info p start len dirty view refs =
    let chosen = not dirty && ltb p.size_of_field_to_init_union len && is_union info.sub_type in
    let is_dirty = if chosen then false else p.dirty_initialized_struct in
    let is_init = chosen || p.is_initialized_struct in
    record {
      sub_views = p.sub_views ++ view ∷ [];
      field_index_to_init_union =
          if chosen then some p.field_index else p.field_index_to_init_union;
      size_of_field_to_init_union = if chosen then len else p.size_of_field_to_init_union;
      prev_field_end_offset = start + len;
      field_index = p.field_index + 1;
      dirty_initialized_struct = if is_struct info.sub_type then is_dirty || dirty else is_dirty;
      is_initialized_struct =
          if is_struct info.sub_type then is_init && is_initialized view else is_init;
      references = refs;
    }

-- A struct that no field list can initialise is copied from its bytes.
unfoldable pub needs_copy : StructInfo → Progress → Bool → Bool
needs_copy info p anonymous =
    not p.is_initialized_struct && not (is_empty info.name) && not anonymous

-- Behind the loop. `bytes_text` is the text of the bytes of the struct, for the copy of memory.
unfoldable pub finish_struct : StructInfo → Progress → Bool → Text → View × List InitReference
unfolding convert_bytes_to_struct needs_copy
finish_struct info p anonymous bytes_text =
    let copy = needs_copy info p anonymous in
    let entry_value = if copy then some (convert_bytes_to_struct info.name bytes_text) else none in
    let is_init = copy || p.is_initialized_struct in
    let dirty = not copy && is_init && p.dirty_initialized_struct in
    (
      struct_value info (from_list p.sub_views) entry_value anonymous is_init dirty
          p.field_index_to_init_union,
      p.references,
    )

abbrev pub start_progress : StructInfo → ℕ → List InitReference → Progress
start_progress info offset refs = record {
  sub_views = [];
  field_index_to_init_union = none;
  size_of_field_to_init_union = 0;
  prev_field_end_offset = offset;
  field_index = 0;
  dirty_initialized_struct = false;
  is_initialized_struct = is_struct info.sub_type;
  references = refs;
}

-- `std::find_if` over the lazy pointers.
abbrev pub is_lazy_pointer : List Pointer → ℕ → Bool
is_lazy_pointer lazy_pointers start = any (λ p. bytes_to_bits p.offset == start) lazy_pointers

module _ (print_float : Text → List ℕ → Text) (h : TypesHandler) (bytes : List ℕ) where
  -- The round of one field, whose view is an argument.
  unfoldable pub field_round :
      (Field → ℕ → ℕ → List InitReference → Result ValueError (View × List InitReference))
      → StructInfo
      → ℕ
      → Field
      → Progress
      → Result ValueError Progress
  unfolding dirty_field finish_field
  field_round view info offset field p = do
    len ← lift_type (type_size h field.type)
    let start = offset + field.offset
    (shown, refs) ← view field start len p.references
    let dirty = dirty_field bytes info offset p start len || is_dirty_init shown
    ok (finish_field info p start len dirty shown refs)

  unfoldable pub fields_loop :
      (Field → ℕ → ℕ → List InitReference → Result ValueError (View × List InitReference))
      → StructInfo
      → ℕ
      → List Field
      → Progress
      → Result ValueError Progress
  unfolding field_round
  fields_loop view info offset [] p = ok p
  fields_loop view info offset (field ∷ fields) p = do
    q ← field_round view info offset field p
    fields_loop view info offset fields q

  -- The view of an array field. The views of pointers are all null, as many as the arrays in front
  -- of the first pointer have elements.
  unfoldable pub array_field_view :
      (StructInfo → ℕ → Result ValueError View)
      → PointerUsage
      → Field
      → ℕ
      → ℕ
      → Result ValueError View
  unfolding array_product array_view multi_array_view
  array_field_view nested usage field start len =
      let kinds = pointer_array_kinds field.type in
      let (size, only_arrays) = array_product kinds 1 in
      let base = base_type_obj field.type in
      let multi = lift_type (type_size h base) >>= λ n.
      multi_array_view print_float h bytes nested usage field.type (size * n) start in
      let flat = array_view print_float h bytes nested base len start in
      let nulls = Views.array (from_list (replicate size (Views.just c_null))) in
      if ltb 1 (length kinds) then (if only_arrays then multi else ok nulls) else flat

  module _ (lazy_pointers : List Pointer) (usage : PointerUsage) where
    -- The `switch` on the kind of a field, in a struct of name `struct_name`; `nested` is the view of
    -- a struct with the references so far.
    unfoldable pub field_view :
        (List KTestObject
          → Text
          → Bool
          → List InitReference
          → StructInfo
          → ℕ
          → Result ValueError (View × List InitReference))
        → List KTestObject
        → Text
        → Text
        → Field
        → ℕ
        → ℕ
        → List InitReference
        → Result ValueError (View × List InitReference)
    unfolding array_field_view get_lazy_pointer_view get_field_access
    field_view nested objects struct_name name field start len refs =
        let access = get_field_access name field in
        let keep : View → Result ValueError (View × List InitReference) = λ v. ok (v, refs) in
        let alone : StructInfo → ℕ → Result ValueError View =
          λ info cur. nested [] [] false [] info cur >>= λ r. ok r.0 in
        elim (get_type_kind h field.type) [
          | struct_like ↦ lift_type (get_struct_info h field.type) >>= λ info.
              nested objects access field.anonymous refs info start
          | enum ↦ lift_type (get_enum_info h field.type) >>= λ info.
              enum_view print_float bytes info start len >>= keep
          | primitive ↦
              primitive_view print_float bytes (base_type_obj field.type) start
                (if ltb len field.size then len else field.size)
              >>= keep
          | array ↦ array_field_view alone usage field start len >>= keep
          | object_pointer ↦
              read_bytes_as_value_for_type print_float bytes (codes "std::uintptr_t") start
                pointer_width_size_in_bits
              >>= λ res.
                  get_lazy_pointer_view objects refs access res field.type
                    (is_lazy_pointer lazy_pointers start)
          | function_pointer ↦ keep (
              Views.function_pointer (
                drop 1
                  (get_function_pointer_as_struct_field_stub_name struct_name field.name false)))
          | unknown ↦ err (type_error (unimplemented field.type.type_name))
        ]

    -- `structView`, with fuel for the nesting of structs.
    unfoldable pub struct_view :
        ℕ
        → List KTestObject
        → Text
        → Bool
        → List InitReference
        → StructInfo
        → ℕ
        → Result ValueError (View × List InitReference)
    unfolding field_view fields_loop finish_struct array_view needs_copy
    struct_view zero objects name anonymous refs info offset = err (type_error does_not_return)
    struct_view (suc fuel) objects name anonymous refs info offset = do
      p ←
          fields_loop (field_view (struct_view fuel) objects info.name name) info offset info.fields
            (start_progress info offset refs)
      let alone : StructInfo → ℕ → Result ValueError View =
          λ sub cur. struct_view fuel [] [] false [] sub cur >>= λ r. ok r.0
      text ←
          if needs_copy info p anonymous
          then (array_view print_float h bytes alone
                (create_simple_type_from_name (codes "utbot_byte") 0) info.size offset
              >>= λ v. ok (get_entry_value v))
          else ok []
      ok (finish_struct info p anonymous text)
