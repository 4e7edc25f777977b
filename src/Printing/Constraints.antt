-- ===== src/Printing/Constraints.antt =====
-- `KleeConstraintsPrinter` of server/src/printers/KleeConstraintsPrinter.cpp: what KLEE is told to prefer
-- and to assume of a value, by its type.
use utbot_cpp.Base.{
  ℕ, zero, suc, ◌+◌, ◌-◌, ◌%◌, Bool, true, false, ◌&&◌, List, [], ◌∷◌, ◌++◌, Option, none, some,
  Text, codes, length, take, ltb, text_eq, lookup_text, if◌then◌else◌, Result, ok, err, ◌>>=◌,
}
use utbot_cpp.Strings.Affixes.{is_empty}
use utbot_cpp.Types.Kinds.{CType, parameter}
use utbot_cpp.Types.Queries.{
  arrays_sizes, base_type_obj, is_type_contains_pointer, index_of_first_pointer_in_type_kinds,
  is_array_of_pointers_to_function, maybe_just_pointer, size_max,
}
use utbot_cpp.Types.Handler.{
  TypesHandler, TypeError, primitive, struct_like, enum, object_pointer, function_pointer, array,
  unknown, StructInfo, SubType, struct, union, EnumEntry, Field, get_type_kind, get_struct_info,
  get_enum_info, is_struct_like, is_enum, is_character_type, is_c_string_type, unimplemented,
}
use utbot_cpp.Types.Names.{preferred_constraints}
use utbot_cpp.Values.Bytes.{natural_to_string}
use utbot_cpp.Values.Pointers.{
  get_field_access, get_function_pointer_as_struct_field_stub_name, c_null,
}
use utbot_cpp.Printing.Printer.{
  Printer, write_indented, str_function_call, scnl, nl, lb, rb, for_loops, loop_iterators,
  constr_multi_index, close_brackets, gen_stub_for_struct_function_pointer,
  gen_stub_for_struct_function_pointer_array,
}

-- The printer with the thread's own counter of loops.
pub record Writer : Type 0 where
  pub printer : Printer
  pub counter : ℕ

pub record ConstraintsState : Type 0 where
  pub param_name : Text
  pub cur_element : Text
  pub cur_type : CType
  pub end_string : Bool
  pub depth : ℕ

-- The exceptions of the handler of types and of a type without a pointer, and `back` of an empty vector.
pub data ConstraintsError : Type 0 where
  of_types : TypeError → ConstraintsError
  no_pointer undefined_behaviour does_not_return : ConstraintsError

abbrev pub Run : Type 0
Run = Result ConstraintsError Writer

abbrev pub lift {ℓ} : {A : Type ℓ} → Result TypeError A → Result ConstraintsError A
lift (ok a) = ok a
lift (err e) = err (of_types e)

abbrev pub on_printer : (Printer → Printer) → Writer → Writer
on_printer f w = record w { printer = f w.printer }

-- `strFunctionCall` with its default arguments.
abbrev pub call : Text → List Text → Writer → Writer
call name args = on_printer (str_function_call name args scnl none true 0 none false)

unfoldable pub constraints_loop : Text → List Text → Text
constraints_loop name [] = []
constraints_loop name (c ∷ []) = name ++ (codes " " ++ c)
constraints_loop name (c ∷ d ∷ cs) =
    name ++ (codes " " ++ (c ++ (codes " & " ++ constraints_loop name (d ∷ cs))))

unfoldable pub names_loop : Text → List Text → Text
names_loop name [] = []
names_loop name (other ∷ names) =
    let rest = names_loop name names in
    if text_eq name other then rest else codes " & " ++ (name ++ (codes " != " ++ (other ++ rest)))

unfoldable pub cex_constraints : Text → CType → List Text → Text
unfolding preferred_constraints constraints_loop names_loop
cex_constraints name type names = elim (lookup_text type.base_type preferred_constraints) [
  | none ↦ []
  | some constraints ↦ constraints_loop name constraints ++ names_loop name names
]

unfoldable pub no_constraints : Text → Writer → Writer
unfolding write_indented
no_constraints cause = on_printer (write_indented (codes "// No constraints for " ++ (cause ++ nl)))

unfoldable pub gen_constraints_for_primitive : ConstraintsState → List Text → Writer → Writer
unfolding cex_constraints no_constraints str_function_call
gen_constraints_for_primitive state names w =
    let cons = cex_constraints state.cur_element state.cur_type names in
    if is_empty cons
    then no_constraints state.cur_element w
    else call (codes "klee_prefer_cex") (state.param_name ∷ cons ∷ []) w

-- The entries in the order in which the map `namesToEntries` is read.
unfoldable pub entries_loop : Text → List (Text × EnumEntry) → Text
entries_loop element [] = []
entries_loop element ((key, entry) ∷ []) = element ++ (codes " == " ++ entry.name)
entries_loop element ((key, entry) ∷ next ∷ entries) =
    element
    ++ (codes " == " ++ (entry.name ++ (codes " | " ++ entries_loop element (next ∷ entries))))

unfoldable pub gen_constraints_for_pointer_in_struct : ConstraintsState → Writer → Writer
unfolding str_function_call
gen_constraints_for_pointer_in_struct state =
    call (codes "klee_assume") ((state.cur_element ++ (codes " == " ++ c_null)) ∷ [])

-- The first elements and the last one; `none` where there is no last one.
abbrev pub unsnoc {ℓ} : {A : Type ℓ} → List A → Option (List A × A)
unsnoc [] = none
unsnoc (x ∷ []) = some ([], x)
unsnoc (x ∷ y ∷ xs) = elim (unsnoc (y ∷ xs)) [
  | none ↦ none
  | some (front, last) ↦ some (x ∷ front, last)
]

-- The block that ends a string, for the iterators and the sizes of its loops.
unfoldable pub end_of_string : Text → List Text → List ℕ → Writer → Run
unfolding write_indented constr_multi_index lb rb
end_of_string element indexes sizes w = elim (unsnoc indexes) [
  | none ↦ err undefined_behaviour
  | some (front, index) ↦ elim (unsnoc sizes) [
    | none ↦ err undefined_behaviour
    | some (others, size) ↦
        let last = natural_to_string ((size + size_max - 1) % size_max) in
        let char_element = constr_multi_index element front in
        let test : Text = codes "if (" ++ (index ++ (codes " == " ++ (last ++ codes ")"))) in
        let assumption : Text =
          codes "klee_assume("
          ++ (char_element ++ (codes "[" ++ (last ++ (codes "] == '\\0')" ++ scnl)))) in
        ok (
          on_printer
            (λ p. rb false (
              write_indented (codes "break" ++ scnl)
                (write_indented assumption (lb true (write_indented test p)))))
            w)
  ]
]

abbrev pub assign_pointers_to_null : ConstraintsState → Bool
assign_pointers_to_null state = is_type_contains_pointer state.cur_type && ltb 0 state.depth

-- The sizes of the loops: up to the first pointer, if that is to be null.
unfoldable pub loop_sizes : Bool → CType → List ℕ → Result ConstraintsError (List ℕ)
unfolding index_of_first_pointer_in_type_kinds
loop_sizes false type sizes = ok sizes
loop_sizes true type sizes = elim (index_of_first_pointer_in_type_kinds type) [
  | err e ↦ err no_pointer
  | ok index ↦ ok (take index sizes)
]

abbrev pub is_struct : SubType → Bool
is_struct struct = true
is_struct union = false

abbrev pub field_state : ConstraintsState → StructInfo → Field → ConstraintsState
field_state state info field = record {
  param_name = state.param_name;
  cur_element = get_field_access state.cur_element field;
  cur_type = field.type;
  end_string = is_struct info.sub_type && state.end_string;
  depth = state.depth + 1;
}

-- A pointer that is surely one stands for what it points to.
abbrev pub checked_type : CType → CType
checked_type type = if maybe_just_pointer type then base_type_obj type else type

abbrev pub first_state : Text → Text → CType → ConstraintsState
first_state param_name name type = record {
  param_name = param_name;
  cur_element = name;
  cur_type = checked_type type;
  end_string = true;
  depth = 0;
}

module _ (h : TypesHandler) where
  unfoldable pub gen_constraints_for_enum : ConstraintsState → Writer → Run
  unfolding entries_loop str_function_call
  gen_constraints_for_enum state w = do
    info ← lift (get_enum_info h state.cur_type)
    ok (call (codes "klee_assume") (entries_loop state.cur_element info.names_to_entries ∷ []) w)

  -- What stands in the loops, for one element.
  unfoldable pub gen_element :
      (ConstraintsState → Writer → Run) → Bool → ConstraintsState → Writer → Run
  unfolding gen_constraints_for_pointer_in_struct gen_constraints_for_enum
      gen_constraints_for_primitive
  gen_element for_struct to_null state w =
      if to_null
      then ok (gen_constraints_for_pointer_in_struct state w)
      else if is_struct_like h state.cur_type
      then for_struct state w
      else if is_enum h state.cur_type
      then gen_constraints_for_enum state w
      else ok (gen_constraints_for_primitive state [] w)

  -- What is printed behind the sizes. The function for structs is an argument: it is called for elements,
  -- and calls this one for fields.
  unfoldable pub gen_in_loops :
      (ConstraintsState → Writer → Run) → Bool → ConstraintsState → List ℕ → Writer → Run
  unfolding for_loops loop_iterators constr_multi_index end_of_string gen_element close_brackets
  gen_in_loops for_struct to_null state sizes w = do
    let base_type = base_type_obj state.cur_type
    let counter = w.counter + 1
    let indexes = loop_iterators counter 0 sizes
    let element = constr_multi_index state.cur_element indexes
    let opened : Writer = record {
      printer = for_loops counter 0 sizes w.printer;
      counter = counter;
    }
    let is_string =
        state.end_string && is_character_type base_type && is_c_string_type state.cur_type
    ended ← if is_string then end_of_string state.cur_element indexes sizes opened else ok opened
    let new_state : ConstraintsState = record {
      param_name = state.param_name;
      cur_element = element;
      cur_type = base_type;
      end_string = false;
      depth = 0;
    }
    put ← gen_element for_struct to_null new_state ended
    ok (on_printer (close_brackets (length sizes)) put)

  unfoldable pub gen_constraints_for_multi_pointer_or_array :
      (ConstraintsState → Writer → Run) → ConstraintsState → List ℕ → Writer → Run
  unfolding loop_sizes gen_in_loops
  gen_constraints_for_multi_pointer_or_array for_struct state all_sizes w = do
    sizes ← loop_sizes (assign_pointers_to_null state) state.cur_type all_sizes
    gen_in_loops for_struct (assign_pointers_to_null state) state sizes w

  unfoldable pub gen_constraints_for_pointer_or_array :
      (ConstraintsState → Writer → Run) → ConstraintsState → Writer → Run
  unfolding gen_constraints_for_multi_pointer_or_array arrays_sizes
  gen_constraints_for_pointer_or_array for_struct state =
      gen_constraints_for_multi_pointer_or_array for_struct state
        (arrays_sizes parameter state.cur_type)

  -- The `switch` for one field.
  unfoldable pub gen_field :
      (ConstraintsState → Writer → Run) → ConstraintsState → StructInfo → Field → Writer → Run
  unfolding get_field_access get_function_pointer_as_struct_field_stub_name gen_constraints_for_enum
      gen_constraints_for_primitive gen_constraints_for_pointer_or_array
      gen_stub_for_struct_function_pointer_array gen_stub_for_struct_function_pointer
  gen_field for_struct state info field w =
      let new_state = field_state state info field in
      let stub = get_function_pointer_as_struct_field_stub_name info.name field.name false in
      elim (get_type_kind h field.type) [
        | struct_like ↦ for_struct new_state w
        | enum ↦ gen_constraints_for_enum new_state w
        | primitive ↦ ok (gen_constraints_for_primitive new_state [] w)
        | array ↦ gen_constraints_for_pointer_or_array for_struct new_state w
        | object_pointer ↦ ok (
            if is_array_of_pointers_to_function field.type
            then on_printer
                (gen_stub_for_struct_function_pointer_array state.cur_element field stub) w
            else w)
        | function_pointer ↦
            ok (on_printer (gen_stub_for_struct_function_pointer state.cur_element field stub) w)
        | unknown ↦ err (of_types (unimplemented field.type.type_name))
      ]

  unfoldable pub gen_fields :
      (ConstraintsState → Writer → Run) → ConstraintsState → StructInfo → List Field → Writer → Run
  unfolding gen_field
  gen_fields for_struct state info [] w = ok w
  gen_fields for_struct state info (field ∷ fields) w = do
    v ← gen_field for_struct state info field w
    gen_fields for_struct state info fields v

  -- Structs in structs, with fuel for their nesting.
  unfoldable pub gen_constraints_for_struct : ℕ → ConstraintsState → Writer → Run
  unfolding gen_fields
  gen_constraints_for_struct zero state w = err does_not_return
  gen_constraints_for_struct (suc fuel) state w = do
    info ← lift (get_struct_info h state.cur_type)
    gen_fields (gen_constraints_for_struct fuel) state info info.fields w

  unfoldable pub gen_constraints : ℕ → Text → CType → List Text → Writer → Run
  unfolding gen_constraints_for_pointer_or_array gen_constraints_for_struct gen_constraints_for_enum
      gen_constraints_for_primitive
  gen_constraints fuel name type names w =
      let state = first_state (codes "&" ++ name) name type in
      let of_pointer = first_state name name type in
      let for_struct = gen_constraints_for_struct fuel in
      elim (get_type_kind h (checked_type type)) [
        | object_pointer ↦ gen_constraints_for_pointer_or_array for_struct of_pointer w
        | array ↦ gen_constraints_for_pointer_or_array for_struct of_pointer w
        | struct_like ↦ for_struct state w
        | enum ↦ gen_constraints_for_enum state w
        | _ ↦ ok (gen_constraints_for_primitive state names w)
      ]
