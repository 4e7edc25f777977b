-- ===== src/Printing/Examples.antt =====
-- Runs of the printer of server/src/printers/Printer.cpp, and the theorem at a concrete input.
use utbot_cpp.Base.{
  ◌<◌, subst, Bool-cases, inl, inr, ok-injective, ℕ, All, ◌==◌, if◌then◌else◌, lookup_text,
  lookup_id, text_eq, Text, Result, ok, ◌>>=◌, true, false, some, codes, [], ◌∷◌, ◌≡◌, ◌+◌, refl,
  arith,
}
use utbot_cpp.Types.Kinds.{as_public, CType, simple, array, object_pointer, not_reference}
use utbot_cpp.Types.Queries.{
  base_type_obj, get_dimension, arrays_sizes, maybe_just_pointer, get_id, is_simple,
  is_object_pointer, is_type_contains_pointer,
}
use utbot_cpp.Types.Classify.{get_type_kind_iff}
use utbot_cpp.Types.Handler.{
  TypeKind, unknown, object_pointer as object_pointer_kind, get_struct_info, get_type_kind,
  is_struct_like, is_enum, is_primitive_type, is_integer_type, integer_types_to_sizes, TypesHandler,
  StructInfo, Field, struct, c_language, cxx_language,
}
use utbot_cpp.Values.Bytes.{pos}
use utbot_cpp.Printing.Printer.{Printer, write_code_line, for_loops, close_brackets}
use utbot_cpp.Printing.Constraints.{Writer, Run, ConstraintsError, gen_constraints, checked_type}
use utbot_cpp.Printing.ConstraintLaws.{IsSmallField, IsRank, gen_constraints-Keeps}
use utbot_cpp.Printing.ConstraintSizes.{Keeps}
use utbot_cpp.Printing.Functions.{parameters_loop, parameter_texts, joined, parameters_loop_lem}
use utbot_cpp.Printing.Braces.{opens, closes, count-write_indented, close_brackets-for_loops}

abbrev fresh : Printer
fresh = record {
  ss = [];
  tabs_depth = pos 0;
  comment_depth = pos 0;
  src_language = c_language;
  language = cxx_language;
}

-- `for (int it_1_0 = 0; …)` and an inner loop around one line.
abbrev step : Printer → Printer
step = write_code_line (codes "x++")

step_depth : (r : Printer) → (step r).tabs_depth ≡ r.tabs_depth
unfolding write_code_line
step_depth r = refl

step_even : (r : Printer) → opens (step r).ss + closes r.ss ≡ closes (step r).ss + opens r.ss
unfolding write_code_line codes
step_even r = omega (
  arith,
  count-write_indented 123 (120 ∷ 43 ∷ 43 ∷ 59 ∷ 10 ∷ []) r (omega arith),
  count-write_indented 125 (120 ∷ 43 ∷ 43 ∷ 59 ∷ 10 ∷ []) r (omega arith),
)

close_brackets-for_loops_example :
    let q = close_brackets 2 (step (for_loops 1 0 (2 ∷ 3 ∷ []) fresh)) in
    (q.tabs_depth ≡ pos 0) × (opens q.ss + 0 ≡ closes q.ss + 0)
close_brackets-for_loops_example =
    close_brackets-for_loops 1 0 (2 ∷ 3 ∷ []) step fresh step_depth step_even

abbrev int_type : CType
int_type = record {
  type_name = codes "int";
  base_type = codes "int";
  used_type = codes "int";
  kinds = simple 1 false false not_reference ∷ [];
  dimension = 0;
  type_id = some 1;
  base_type_id = some 1;
  maybe_array = false;
}

-- `int *[4]`: a pointer to an array.
abbrev row_type : CType
row_type = record int_type {
  type_name = codes "int *[4]";
  used_type = codes "row *";
  kinds = object_pointer false ∷ array 4 true ∷ simple 1 false false not_reference ∷ [];
  dimension = 2;
}

parameters_loop_lem_example :
    parameters_loop (codes "f") [] (int_type ∷ row_type ∷ []) (codes "a" ∷ codes "b" ∷ [])
    ≡ joined
        (parameter_texts (codes "f") [] (int_type ∷ row_type ∷ []) (codes "a" ∷ codes "b" ∷ []))
parameters_loop_lem_example =
    parameters_loop_lem (codes "f") [] (int_type ∷ row_type ∷ []) (codes "a" ∷ codes "b" ∷ [])

-- `struct S { int a; struct S *next; }`.
abbrev s_type : CType
s_type = record int_type {
  type_name = codes "struct S";
  base_type = codes "struct S";
  used_type = codes "struct S";
  kinds = simple 2 false false not_reference ∷ [];
  type_id = some 2;
  base_type_id = some 2;
}

abbrev s_pointer : CType
s_pointer = record s_type {
  type_name = codes "struct S *";
  used_type = codes "struct S *";
  kinds = object_pointer false ∷ simple 2 false false not_reference ∷ [];
  dimension = 1;
  type_id = some 3;
}

abbrev field_of : Text → CType → Field
field_of name type = record {
  type = type;
  unnamed_type = false;
  anonymous = false;
  name = name;
  size = 32;
  offset = 0;
  access_specifier = as_public;
}

abbrev s_info : StructInfo
s_info = record {
  name = codes "S";
  size = 128;
  alignment = 8;
  fields = field_of (codes "a") int_type ∷ field_of (codes "next") s_pointer ∷ [];
  has_anonymous_struct_or_union = false;
  is_c_like = true;
  sub_type = struct;
  has_default_public_constructor = true;
}

abbrev handler : TypesHandler
handler = record { structs = (2, s_info) ∷ []; enums = []; pointer_size = 8 }

abbrev start : Writer
start = record { printer = fresh; counter = 0 }

abbrev text_of : Run → Result ConstraintsError Text
text_of r = do w ← r; ok w.printer.ss

abbrev rank : CType → ℕ
rank t = if get_id t == 2 then 1 else 0

s_pointer_kind : get_type_kind handler s_pointer ≡ object_pointer_kind
s_pointer_kind = (get_type_kind_iff handler s_pointer).0.1 (unfold is_object_pointer in refl)

differ : {k : TypeKind} → k ≡ object_pointer_kind → k ≡ unknown → ⊥
differ p q = cc

s_fields : (t : CType) → All (IsSmallField handler rank t) s_info.fields
unfolding get_type_kind is_struct_like is_enum is_primitive_type is_integer_type is_simple
    is_object_pointer integer_types_to_sizes lookup_text lookup_id text_eq codes get_id
    is_type_contains_pointer base_type_obj get_dimension arrays_sizes
s_fields t =
    ((cc, (λ e. cc), (λ _ e. cc)), (((λ e. differ s_pointer_kind e), (λ e. cc), (λ e _. cc)), tt))

falls : IsRank handler rank
unfolding get_struct_info lookup_id
falls t info found = elim (Bool-cases (2 == get_id t)) [
  | inl same ↦
      let e : s_info ≡ info = ok-injective s_info info (rw same at found) in
      subst (λ (i : StructInfo). All (IsSmallField handler rank t) i.fields) e (s_fields t)
  | inr other ↦ absurd (ground (arith, found))
]

small : rank (checked_type s_pointer) < 2
unfolding maybe_just_pointer base_type_obj get_dimension arrays_sizes get_id
small = omega arith

small_base : rank (base_type_obj (checked_type s_pointer)) < 2
unfolding maybe_just_pointer base_type_obj get_dimension arrays_sizes get_id
small_base = omega arith

gen_constraints-Keeps_example :
    Keeps start (gen_constraints handler 2 (codes "s") s_pointer [] start)
gen_constraints-Keeps_example =
    gen_constraints-Keeps handler rank 2 (codes "s") s_pointer [] start falls small small_base
