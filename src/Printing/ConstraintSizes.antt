-- ===== src/Printing/ConstraintSizes.antt =====
-- The sizes that the loops of server/src/printers/KleeConstraintsPrinter.cpp run over, and its texts that
-- no loop is around.
use utbot_cpp.Base.{
  ℕ, Bool, true, false, ◌&&◌, List, [], ◌∷◌, ◌≡◌, refl, ◌∙◌, arith, some, Text, length, take, drop,
  if◌then◌else◌, ok, inl, inr,
}
use utbot_cpp.Types.Kinds
use utbot_cpp.Types.Kinds.{CType, Kind, parameter, front_is, is_object_pointer_kind, is_simple_kind}
use utbot_cpp.Types.Queries.{
  arrays_sizes, base_type_obj, is_type_contains_pointer, sizes_loop, pointer_elements,
  pointer_array_kinds, pointer_array_prefix, is_object_pointer, is_one_dimension_pointer, is_simple,
  get_dimension,
}
use utbot_cpp.Types.Handler.{
  TypeKind, object_pointer, array, Field, is_c_string_type, is_character_type,
}
use utbot_cpp.Types.Pointers.{index_of_first_pointer_lem}
use utbot_cpp.Printing.Printer.{
  Printer, assign_in_loop, str_for_bound, str_assign_var,
  gen_stub_for_struct_function_pointer_array, iterator_name, rb, lb, str_function_call,
  write_indented, write, loop_iterators,
}
use utbot_cpp.Printing.Braces.{decrement-increment}
use utbot_cpp.Printing.Constraints.{
  Writer, ConstraintsState, Run, gen_constraints_for_primitive, no_constraints, unsnoc,
  end_of_string, loop_sizes,
}

-- The code returns, and the indentation is as before.
abbrev pub Keeps : Writer → Run → Type 0
Keeps w r = (v : Writer) × (r ≡ ok v) × (v.printer.tabs_depth ≡ w.printer.tabs_depth)

pub gen_constraints_for_primitive-depth :
    (state : ConstraintsState) (names : List Text) (w : Writer)
    → (gen_constraints_for_primitive state names w).printer.tabs_depth ≡ w.printer.tabs_depth
unfolding gen_constraints_for_primitive no_constraints str_function_call write_indented write
gen_constraints_for_primitive-depth state names w = ground arith

unsnoc-some {ℓ} :
    {A : Type ℓ} (x : A) (xs : List A)
    → (front : List A) × (last : A) × (unsnoc (x ∷ xs) ≡ some (front, last))
unsnoc-some x [] = ([], x, refl)
unsnoc-some x (y ∷ xs) = let (front, last, e) = unsnoc-some y xs in (x ∷ front, last, rw e refl)

-- The block at the end of a string, for loops of which there is one.
end_of_string-Keeps :
    (element : Text) (counter size : ℕ) (sizes : List ℕ) (w : Writer)
    → Keeps w (end_of_string element (loop_iterators counter 0 (size ∷ sizes)) (size ∷ sizes) w)
unfolding end_of_string loop_iterators rb lb write_indented write
end_of_string-Keeps element counter size sizes w =
    let index = unsnoc-some (iterator_name counter 0) (loop_iterators counter 1 sizes) in
    let last = unsnoc-some size sizes in
    rw (index.2, last.2) (_, refl, decrement-increment w.printer.tabs_depth)

pub ended_string :
    (element : Text) (counter : ℕ) (sizes : List ℕ) (w : Writer) (is_string : Bool)
    → (is_string ≡ true → (n : ℕ) × (ns : List ℕ) × (sizes ≡ n ∷ ns))
    → Keeps w
        (if is_string then end_of_string element (loop_iterators counter 0 sizes) sizes w else ok w)
ended_string element counter sizes w false some_size = (w, refl, refl)
ended_string element counter sizes w true some_size =
    let (n, ns, e) = some_size refl in rw e (end_of_string-Keeps element counter n ns w)

-- A string is one pointer at least, in front of a simple type.
pointer_sizes :
    (n : ℕ) (ks : List Kind)
    → front_is is_object_pointer_kind ks ≡ true
    → front_is is_simple_kind (drop (length (sizes_loop parameter n (pointer_array_prefix ks))) ks)
      ≡ true
    → (m : ℕ) × (ms : List ℕ) × (sizes_loop parameter n (pointer_array_prefix ks) ≡ m ∷ ms)
unfolding sizes_loop pointer_array_prefix
pointer_sizes n [] e simple = cc
pointer_sizes n (Kinds.object_pointer c ∷ []) e simple = cc
pointer_sizes n (Kinds.object_pointer c ∷ l ∷ ks) e simple =
    (pointer_elements parameter n, sizes_loop parameter n (pointer_array_prefix (l ∷ ks)), refl)
pointer_sizes n (Kinds.function_pointer ∷ ks) e simple = cc
pointer_sizes n (Kinds.array m c ∷ ks) e simple = cc
pointer_sizes n (Kinds.simple i u c r ∷ ks) e simple = cc

pub c_string_pointer : (t : CType) → is_c_string_type t ≡ true → is_object_pointer t ≡ true
unfolding is_c_string_type is_one_dimension_pointer
c_string_pointer t e = ground arith

pointer-arrays_sizes :
    (t : CType)
    → is_object_pointer t ≡ true
    → arrays_sizes parameter t
      ≡ sizes_loop parameter (length t.kinds) (pointer_array_prefix t.kinds)
unfolding arrays_sizes pointer_array_kinds
pointer-arrays_sizes t e = ground arith

character-simple : (t : CType) → is_character_type t ≡ true → is_simple t ≡ true
unfolding is_character_type
character-simple t e = ground arith

pub c_string_sizes :
    (t : CType)
    → (is_character_type (base_type_obj t) && is_c_string_type t) ≡ true
    → (m : ℕ) × (ms : List ℕ) × (arrays_sizes parameter t ≡ m ∷ ms)
unfolding is_object_pointer base_type_obj is_simple get_dimension
c_string_sizes t e =
    let pointer = c_string_pointer t (ground arith) in
    let same = pointer-arrays_sizes t pointer in
    let plain : front_is is_simple_kind (drop (length (arrays_sizes parameter t)) t.kinds) ≡ true =
      character-simple (base_type_obj t) (ground arith) in
    let (m, ms, sizes) = pointer_sizes (length t.kinds) t.kinds pointer (rw (← same) plain) in
    (m, ms, same ∙ sizes)

pub other_kind : {k : TypeKind} → k ≡ object_pointer → k ≡ array → ⊥
other_kind p q = cc

pub gen_stub_for_struct_function_pointer_array-depth :
    (name : Text) (field : Field) (stub : Text) (p : Printer)
    → (gen_stub_for_struct_function_pointer_array name field stub p).tabs_depth ≡ p.tabs_depth
unfolding gen_stub_for_struct_function_pointer_array assign_in_loop str_for_bound str_assign_var
    write_indented write
gen_stub_for_struct_function_pointer_array-depth name field stub p =
    decrement-increment p.tabs_depth

contradiction : {b : Bool} → b ≡ true → b ≡ false → ⊥
contradiction p q = cc

-- A type with a pointer has a first one.
pub loop_sizes_returns :
    (to_null : Bool) (t : CType) (sizes : List ℕ)
    → (to_null ≡ true → is_type_contains_pointer t ≡ true)
    → (out : List ℕ) × (loop_sizes to_null t sizes ≡ ok out) × (to_null ≡ false → out ≡ sizes)
unfolding loop_sizes
loop_sizes_returns false t sizes has = (sizes, refl, λ _. refl)
loop_sizes_returns true t sizes has = elim (index_of_first_pointer_lem t) [
  | inl (_, index, found, _, _) ↦ (take index sizes, rw (found, loop_sizes) refl, λ e. cc)
  | inr (without, _) ↦ absurd (contradiction (has refl) without)
]
