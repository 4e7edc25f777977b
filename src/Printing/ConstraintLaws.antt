-- ===== src/Printing/ConstraintLaws.antt =====
-- `genConstraints` of server/src/printers/KleeConstraintsPrinter.cpp returns, and keeps the indentation.
use utbot_cpp.Base.{
  ℕ, zero, suc, ◌+◌, ◌<◌, Bool, true, false, ◌&&◌, List, [], ◌∷◌, ◌++◌, ◌≡◌, ◌≢◌, refl, ◌∙◌, arith,
  Text, codes, if◌then◌else◌, ok, All, Bool-cases, Option-cases, inl, inr, lookup_id,
}
use utbot_cpp.Types.Kinds.{CType, parameter}
use utbot_cpp.Types.Queries.{
  arrays_sizes, base_type_obj, is_type_contains_pointer, is_array_of_pointers_to_function, get_id,
}
use utbot_cpp.Types.Handler.{
  TypesHandler, TypeKind, primitive, struct_like, enum, object_pointer, function_pointer, array,
  unknown, StructInfo, EnumInfo, Field, get_type_kind, get_struct_info, get_enum_info,
  is_struct_like, is_enum, is_c_string_type, is_character_type,
}
use utbot_cpp.Types.Classify.{get_type_kind_iff}
use utbot_cpp.Printing.Printer.{
  str_assign_var, gen_stub_for_struct_function_pointer, str_function_call, write_indented, write,
  for_loops, loop_iterators, constr_multi_index,
}
use utbot_cpp.Values.Pointers.{get_function_pointer_as_struct_field_stub_name}
use utbot_cpp.Printing.Braces.{close_brackets-depth_for_loops}
use utbot_cpp.Printing.Constraints.{
  Writer, ConstraintsState, Run, gen_constraints_for_pointer_in_struct, end_of_string,
  gen_constraints_for_enum, gen_element, gen_in_loops, assign_pointers_to_null,
  gen_constraints_for_multi_pointer_or_array, gen_constraints_for_pointer_or_array, field_state,
  gen_field, gen_fields, gen_constraints_for_struct, gen_constraints, first_state, checked_type,
}
use utbot_cpp.Printing.ConstraintSizes.{
  Keeps, gen_constraints_for_primitive-depth, ended_string, c_string_pointer, c_string_sizes,
  other_kind, gen_stub_for_struct_function_pointer_array-depth, loop_sizes_returns,
}

module _ (h : TypesHandler) where
  found_struct :
      (t : CType)
      → is_struct_like h t ≡ true
      → (info : StructInfo) × (get_struct_info h t ≡ ok info)
  unfolding is_struct_like get_struct_info
  found_struct t e = elim (Option-cases (lookup_id (get_id t) h.structs)) [
    | inl no_entry ↦ absurd (ground arith)
    | inr (info, entry) ↦ (info, rw entry refl)
  ]

  found_enum : (t : CType) → is_enum h t ≡ true → (info : EnumInfo) × (get_enum_info h t ≡ ok info)
  unfolding is_enum get_enum_info
  found_enum t e = elim (Option-cases (lookup_id (get_id t) h.enums)) [
    | inl no_entry ↦ absurd (ground arith)
    | inr (info, entry) ↦ (info, rw entry refl)
  ]

  gen_constraints_for_enum-Keeps :
      (state : ConstraintsState) (w : Writer)
      → is_enum h state.cur_type ≡ true
      → Keeps w (gen_constraints_for_enum h state w)
  unfolding gen_constraints_for_enum str_function_call write
  gen_constraints_for_enum-Keeps state w e =
      let (info, found) = found_enum state.cur_type e in rw found (_, refl, refl)

  -- What is asked of the function for structs.
  abbrev KeepsStruct : (CType → ℕ) → ℕ → (ConstraintsState → Writer → Run) → Type 0
  KeepsStruct rank fuel for_struct =
      (state : ConstraintsState) (w : Writer)
      → is_struct_like h state.cur_type ≡ true
      → rank state.cur_type < fuel
      → Keeps w (for_struct state w)

  gen_element-Keeps :
      (rank : CType → ℕ) (fuel : ℕ) (for_struct : ConstraintsState → Writer → Run)
      → KeepsStruct rank fuel for_struct
      → (to_null : Bool) (state : ConstraintsState) (w : Writer)
      → (to_null ≡ false → is_struct_like h state.cur_type ≡ true → rank state.cur_type < fuel)
      → Keeps w (gen_element h for_struct to_null state w)
  unfolding gen_element gen_constraints_for_pointer_in_struct str_function_call write
  gen_element-Keeps rank fuel for_struct keep true state w small = (_, refl, refl)
  gen_element-Keeps rank fuel for_struct keep false state w small =
      elim (Bool-cases (is_struct_like h state.cur_type)) [
        | inl struct ↦ rw struct (keep state w struct (small refl struct))
        | inr other ↦ elim (Bool-cases (is_enum h state.cur_type)) [
          | inl is ↦ rw (other, is) (gen_constraints_for_enum-Keeps state w is)
          | inr no_enum ↦
              rw (other, no_enum) (_, refl, gen_constraints_for_primitive-depth state [] w)
        ]
      ]

  gen_in_loops-Keeps :
      (rank : CType → ℕ) (fuel : ℕ) (for_struct : ConstraintsState → Writer → Run)
      → KeepsStruct rank fuel for_struct
      → (to_null : Bool) (state : ConstraintsState) (sizes : List ℕ) (w : Writer)
      → ((is_character_type (base_type_obj state.cur_type) && is_c_string_type state.cur_type)
            ≡ true
          → (n : ℕ) × (ns : List ℕ) × (sizes ≡ n ∷ ns))
      → (to_null ≡ false
          → is_struct_like h (base_type_obj state.cur_type) ≡ true
          → rank (base_type_obj state.cur_type) < fuel)
      → Keeps w (gen_in_loops h for_struct to_null state sizes w)
  unfolding gen_in_loops
  gen_in_loops-Keeps rank fuel for_struct keep to_null state sizes w some_size small =
      let counter = w.counter + 1 in
      let opened : Writer = record {
        printer = for_loops counter 0 sizes w.printer;
        counter = counter;
      } in
      let base_type = base_type_obj state.cur_type in
      let indexes = loop_iterators counter 0 sizes in
      let is_string =
        state.end_string && is_character_type base_type && is_c_string_type state.cur_type in
      let ended : Keeps opened
          (if is_string then end_of_string state.cur_element indexes sizes opened else ok opened) =
        ended_string state.cur_element counter sizes opened is_string
          (λ e. some_size (ground arith)) in
      let inner : ConstraintsState = record {
        param_name = state.param_name;
        cur_element = constr_multi_index state.cur_element indexes;
        cur_type = base_type;
        end_string = false;
        depth = 0;
      } in
      let put = gen_element-Keeps rank fuel for_struct keep to_null inner ended.0 small in
      rw (ended.1, put.1)
        (
          _,
          refl,
          close_brackets-depth_for_loops counter 0 sizes w.printer put.0.printer (put.2 ∙ ended.2),
        )

  gen_constraints_for_pointer_or_array-Keeps :
      (rank : CType → ℕ) (fuel : ℕ) (for_struct : ConstraintsState → Writer → Run)
      → KeepsStruct rank fuel for_struct
      → (state : ConstraintsState) (w : Writer)
      → (is_c_string_type state.cur_type ≡ true → state.depth ≡ 0)
      → (assign_pointers_to_null state ≡ false
          → is_struct_like h (base_type_obj state.cur_type) ≡ true
          → rank (base_type_obj state.cur_type) < fuel)
      → Keeps w (gen_constraints_for_pointer_or_array h for_struct state w)
  unfolding gen_constraints_for_pointer_or_array gen_constraints_for_multi_pointer_or_array
  gen_constraints_for_pointer_or_array-Keeps rank fuel for_struct keep state w outside small =
      let to_null = assign_pointers_to_null state in
      let sizes = arrays_sizes parameter state.cur_type in
      let some_sizes = loop_sizes_returns to_null state.cur_type sizes (λ e. ground arith) in
      rw some_sizes.1 (
        gen_in_loops-Keeps rank fuel for_struct keep to_null state some_sizes.0 w
          (λ string.
            let (m, ms, e) = c_string_sizes state.cur_type string in
            (m, ms, some_sizes.2 (ground (arith, outside)) ∙ e))
          small)

  -- What is asked of a struct's field: its class is known, and it is smaller than the struct, where it or
  -- the element of an array without pointers is a struct itself.
  abbrev pub IsSmallField : (CType → ℕ) → CType → Field → Type 0
  IsSmallField rank t f =
      (get_type_kind h f.type ≢ unknown)
      × (is_struct_like h f.type ≡ true → rank f.type < rank t)
      × (is_type_contains_pointer f.type ≡ false
          → is_struct_like h (base_type_obj f.type) ≡ true
          → rank (base_type_obj f.type) < rank t)

  gen_field_at-Keeps :
      (rank : CType → ℕ) (fuel : ℕ) (for_struct : ConstraintsState → Writer → Run)
      → KeepsStruct rank fuel for_struct
      → (state : ConstraintsState) (info : StructInfo) (field : Field) (w : Writer)
      → IsSmallField rank state.cur_type field
      → rank state.cur_type < suc fuel
      → (k : TypeKind) → get_type_kind h field.type ≡ k
      → Keeps w (gen_field h for_struct state info field w)
  unfolding gen_field str_assign_var gen_stub_for_struct_function_pointer write_indented write
  gen_field_at-Keeps rank fuel for_struct keep state info field w small lt struct_like e =
      let struct : is_struct_like h field.type ≡ true =
        ground (arith, (get_type_kind_iff h field.type).4.0 e) in
      rw (e, gen_field)
        (keep (field_state state info field) w struct (omega (arith, small.1 struct)))
  gen_field_at-Keeps rank fuel for_struct keep state info field w small lt enum e =
      rw (e, gen_field)
        (gen_constraints_for_enum-Keeps (field_state state info field) w
          (ground (arith, (get_type_kind_iff h field.type).5.0 e)))
  gen_field_at-Keeps rank fuel for_struct keep state info field w small lt primitive e =
      rw (e, gen_field)
        (_, refl, gen_constraints_for_primitive-depth (field_state state info field) [] w)
  gen_field_at-Keeps rank fuel for_struct keep state info field w small lt array e =
      rw (e, gen_field)
        (gen_constraints_for_pointer_or_array-Keeps rank fuel for_struct keep
          (field_state state info field) w
          (λ string. absurd (
            other_kind ((get_type_kind_iff h field.type).0.1 (c_string_pointer field.type string))
              e))
          (λ kept struct. omega (arith, small.2 (ground arith) struct)))
  gen_field_at-Keeps rank fuel for_struct keep state info field w small lt object_pointer e =
      elim (Bool-cases (is_array_of_pointers_to_function field.type)) [
        | inl many ↦
            rw (e, many, gen_field)
              (
                _,
                refl,
                gen_stub_for_struct_function_pointer_array-depth state.cur_element field
                    (get_function_pointer_as_struct_field_stub_name info.name field.name false)
                    w.printer,
              )
        | inr other ↦ rw (e, other, gen_field) (w, refl, refl)
      ]
  gen_field_at-Keeps rank fuel for_struct keep state info field w small lt function_pointer e =
      rw (e, gen_field) (_, refl, refl)
  gen_field_at-Keeps rank fuel for_struct keep state info field w small lt unknown e =
      absurd (small.0 e)

  gen_fields-Keeps :
      (rank : CType → ℕ) (fuel : ℕ) (for_struct : ConstraintsState → Writer → Run)
      → KeepsStruct rank fuel for_struct
      → (state : ConstraintsState) (info : StructInfo) (fields : List Field) (w : Writer)
      → All (IsSmallField rank state.cur_type) fields
      → rank state.cur_type < suc fuel
      → Keeps w (gen_fields h for_struct state info fields w)
  unfolding gen_fields
  gen_fields-Keeps rank fuel for_struct keep state info [] w small lt = (w, refl, refl)
  gen_fields-Keeps rank fuel for_struct keep state info (field ∷ fields) w (here, small) lt =
      let one =
        gen_field_at-Keeps rank fuel for_struct keep state info field w here lt
          (get_type_kind h field.type) refl in
      let rest = gen_fields-Keeps rank fuel for_struct keep state info fields one.0 small lt in
      (rest.0, rw one.1 rest.1, rest.2 ∙ one.2)

  -- A measure by which what a struct holds is smaller than the struct, and known classes of its fields.
  abbrev pub IsRank : (CType → ℕ) → Type 0
  IsRank rank =
      (t : CType) (info : StructInfo)
      → get_struct_info h t ≡ ok info
      → All (IsSmallField rank t) info.fields

  gen_constraints_for_struct-Keeps :
      (rank : CType → ℕ)
      → IsRank rank
      → (fuel : ℕ) → KeepsStruct rank fuel (gen_constraints_for_struct h fuel)
  unfolding gen_constraints_for_struct
  gen_constraints_for_struct-Keeps rank falls zero state w struct lt = absurd (omega arith)
  gen_constraints_for_struct-Keeps rank falls (suc fuel) state w struct lt =
      let (info, found) = found_struct state.cur_type struct in
      rw found (
        gen_fields-Keeps rank fuel (gen_constraints_for_struct h fuel)
          (gen_constraints_for_struct-Keeps rank falls fuel) state info info.fields w
          (falls state.cur_type info found) lt)

  gen_constraints_at-Keeps :
      (rank : CType → ℕ) (fuel : ℕ) (name : Text) (type : CType) (names : List Text) (w : Writer)
      → IsRank rank
      → rank (checked_type type) < fuel
      → rank (base_type_obj (checked_type type)) < fuel
      → (k : TypeKind) → get_type_kind h (checked_type type) ≡ k
      → Keeps w (gen_constraints h fuel name type names w)
  unfolding gen_constraints
  gen_constraints_at-Keeps rank fuel name type names w falls lt lt_base object_pointer e =
      rw (e, gen_constraints)
        (gen_constraints_for_pointer_or_array-Keeps rank fuel (gen_constraints_for_struct h fuel)
          (gen_constraints_for_struct-Keeps rank falls fuel) (first_state name name type) w
          (λ _. refl) (λ _ _. lt_base))
  gen_constraints_at-Keeps rank fuel name type names w falls lt lt_base array e =
      rw (e, gen_constraints)
        (gen_constraints_for_pointer_or_array-Keeps rank fuel (gen_constraints_for_struct h fuel)
          (gen_constraints_for_struct-Keeps rank falls fuel) (first_state name name type) w
          (λ _. refl) (λ _ _. lt_base))
  gen_constraints_at-Keeps rank fuel name type names w falls lt lt_base struct_like e =
      let struct : is_struct_like h (checked_type type) ≡ true =
        ground (arith, (get_type_kind_iff h (checked_type type)).4.0 e) in
      rw (e, gen_constraints)
        (gen_constraints_for_struct-Keeps rank falls fuel
          (first_state (codes "&" ++ name) name type) w struct lt)
  gen_constraints_at-Keeps rank fuel name type names w falls lt lt_base enum e =
      rw (e, gen_constraints)
        (gen_constraints_for_enum-Keeps (first_state (codes "&" ++ name) name type) w
          (ground (arith, (get_type_kind_iff h (checked_type type)).5.0 e)))
  gen_constraints_at-Keeps rank fuel name type names w falls lt lt_base k e =
      rw (e, gen_constraints)
        (
          _,
          refl,
          gen_constraints_for_primitive-depth (first_state (codes "&" ++ name) name type) names w,
        )

-- `genConstraints` returns for every type, and leaves the depth of the indentation as it was. Its conditions:
-- each field of a struct is of known class; there is a measure by which a field that is a struct, or the
-- element of a field that is an array without pointers, is smaller than the struct; and the fuel is above
-- the measure of the type and of its base type.
pub gen_constraints-Keeps :
    (h : TypesHandler) (rank : CType → ℕ) (fuel : ℕ) (name : Text) (type : CType)
    (names : List Text) (w : Writer)
    → IsRank h rank
    → rank (checked_type type) < fuel
    → rank (base_type_obj (checked_type type)) < fuel
    → Keeps w (gen_constraints h fuel name type names w)
gen_constraints-Keeps h rank fuel name type names w falls lt lt_base =
    gen_constraints_at-Keeps h rank fuel name type names w falls lt lt_base
      (get_type_kind h (checked_type type)) refl
