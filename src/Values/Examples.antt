-- ===== src/Values/Examples.antt =====
-- Runs of the views of values of server/src/Tests.cpp, and the theorems at concrete inputs.
use utbot_cpp.Base.{
  ℕ, codes, true, false, ok, [], ◌∷◌, ◌≡◌, refl, arith, Text, List, none, some, Result, length, not,
  ◌&&◌, ◌||◌, ◌⊎◌, inl, ◌≤◌, ◌<◌, suc, err, get_elem?, lookup_text, lookup_id, text_eq,
}
use utbot_cpp.Strings.Split.{join_with}
use utbot_cpp.Strings.Affixes.{is_empty}
use utbot_cpp.Types.Kinds.{CType, as_public, PointerUsage}
use utbot_cpp.Types.Creation.{create_simple_type_from_name}
use utbot_cpp.Types.Handler.{
  TypesHandler, StructInfo, Field, SubType, get_struct_info, type_size, type_size_fuel,
  is_integer_type, integer_types_to_sizes, get_type_kind, is_primitive_type, is_bool_type,
  is_bool_type_name, bool_types_to_sizes, is_character_type, is_character_type_name,
  character_types_to_sizes, is_floating_point_type, floating_point_types_to_sizes,
}
use utbot_cpp.Types.Queries.{
  get_id, is_simple, is_void, is_void_name, base_type_obj, base_type_obj_at, get_dimension,
  arrays_sizes, is_object_pointer, is_array, is_pointer_to_function,
}
use utbot_cpp.Values.Reading.{primitive_view}
use utbot_cpp.Values.Bytes.{
  read_bytes_as_value, integer_to_string, integer_of, little_endian, ValueError, incorrect_index,
}
use utbot_cpp.Values.Literals.{
  string_literal_view, make_decimal_constant, process_fp_special_value, primitive_char_view,
}
use utbot_cpp.Values.Decoding.{decode}
use utbot_cpp.Values.LiteralText.{until_zero, string_literal_view-decode}
use utbot_cpp.Values.SignExtension.{read_bytes_as_value_lem}
use utbot_cpp.Values.Views.{
  View, nil, cons, primitive, struct_value, get_entry_value, is_initialized, is_dirty_init,
}
use utbot_cpp.Values.Structs.{dirty_between, Progress, InitReference, struct_view, fields_loop}
use utbot_cpp.Values.Union.{Shown, is_clean, fields_loop-union}
use utbot_cpp.Values.StructViews.{sub_views, struct_view_lem}
use utbot_cpp.Values.Lookup.{find_field_index, traverse_lazy_in_struct}
use utbot_cpp.Values.FieldSearch.{find_field_index_lem}
use utbot_cpp.Values.Pointers.{get_field_access}
use utbot_cpp.Types.Handler.{is_struct_like}
use utbot_cpp.Values.LookupLaws.{IsFieldPath, access_text, traverse_lazy_in_struct-offset_of}

read_int : read_bytes_as_value 4 true (254 ∷ 255 ∷ 255 ∷ 255 ∷ []) 0 32 ≡ ok (codes "-2")
unfolding read_bytes_as_value codes
read_int = refl

read_bit_field : read_bytes_as_value 4 true (0 ∷ 52 ∷ 255 ∷ []) 9 4 ≡ ok (codes "-6")
unfolding read_bytes_as_value codes
read_bit_field = refl

abbrev field_bytes : List ℕ
field_bytes = 0 ∷ 52 ∷ 255 ∷ []

read_bytes_as_value_lem_example :
    read_bytes_as_value 4 true field_bytes 9 4 ≡ ok (integer_to_string (integer_of 4 true 10))
unfolding little_endian
read_bytes_as_value_lem_example =
    read_bytes_as_value_lem 4 true field_bytes 9 4 (omega arith, (omega arith, (omega arith, tt)))
      (omega arith) (omega arith) (omega arith)

string_literal_view-decode_example :
    (text : Text) × (string_literal_view (104 ∷ 10 ∷ 49 ∷ 0 ∷ 7 ∷ []) 0 ≡ ok text)
    × (decode text ≡ some (104 ∷ 10 ∷ 49 ∷ []))
unfolding until_zero
string_literal_view-decode_example =
    string_literal_view-decode (104 ∷ 10 ∷ 49 ∷ 0 ∷ 7 ∷ []) 0
      (omega arith, (omega arith, (omega arith, (omega arith, (omega arith, tt))))) (omega arith)

-- `struct { int x; char c; }` and `union { char c; int x; }`, and no struct in the tables.
abbrev int_field : Field
int_field = record {
  type = create_simple_type_from_name (codes "int") 0;
  unnamed_type = false;
  anonymous = false;
  name = codes "x";
  size = 32;
  offset = 0;
  access_specifier = as_public;
}

abbrev char_field : ℕ → Field
char_field offset = record {
  type = create_simple_type_from_name (codes "char") 0;
  unnamed_type = false;
  anonymous = false;
  name = codes "c";
  size = 8;
  offset = offset;
  access_specifier = as_public;
}

abbrev pair : StructInfo
pair = record {
  name = codes "Pair";
  size = 64;
  alignment = 4;
  fields = int_field ∷ char_field 32 ∷ [];
  has_anonymous_struct_or_union = false;
  is_c_like = true;
  sub_type = SubType.struct;
  has_default_public_constructor = true;
}

abbrev choice : StructInfo
choice = record pair {
  name = codes "Choice";
  size = 32;
  fields = char_field 0 ∷ int_field ∷ char_field 0 ∷ [];
  sub_type = SubType.union;
}

abbrev tables : TypesHandler
tables = record { structs = []; enums = []; pointer_size = 8 }

abbrev no_float : Text → List ℕ → Text
no_float name bytes = []

abbrev pair_bytes : List ℕ
pair_bytes = 5 ∷ 0 ∷ 0 ∷ 0 ∷ 65 ∷ 0 ∷ 0 ∷ 0 ∷ []

abbrev pair_view : View
pair_view =
    struct_value pair (cons (primitive (codes "5")) (cons (primitive (codes "'A'")) nil)) none false
      true false none

shown_pair : get_entry_value pair_view ≡ codes "{5, 'A'}"
unfolding get_entry_value codes join_with
shown_pair = refl

struct_view_lem_example :
    (length (sub_views pair_view) ≡ 2)
    × ((is_initialized pair_view || is_empty pair.name || false) ≡ true)
    × ((is_dirty_init pair_view && not (is_initialized pair_view)) ≡ false)
unfolding struct_view codes create_simple_type_from_name type_size type_size_fuel is_integer_type
    is_simple lookup_text integer_types_to_sizes text_eq get_type_kind is_primitive_type
    primitive_view is_void is_void_name base_type_obj base_type_obj_at get_dimension arrays_sizes
    is_bool_type is_bool_type_name bool_types_to_sizes is_character_type is_character_type_name
    character_types_to_sizes is_floating_point_type floating_point_types_to_sizes is_object_pointer
    is_array is_pointer_to_function primitive_char_view process_fp_special_value
    make_decimal_constant lookup_id
struct_view_lem_example =
    struct_view_lem no_float tables pair_bytes [] PointerUsage.parameter 0 [] (codes "p") false []
      pair 0 pair_view [] refl

abbrev one_byte : List ℕ
one_byte = 7 ∷ 0 ∷ 0 ∷ 0 ∷ []

-- A view for every field, with nothing dirty.
abbrev plain : Field → ℕ → ℕ → List InitReference → Result ValueError (View × List InitReference)
plain field start len refs = ok (primitive (codes "7"), refs)

abbrev choice_end : Progress
choice_end = record {
  sub_views = primitive (codes "7") ∷ primitive (codes "7") ∷ primitive (codes "7") ∷ [];
  field_index_to_init_union = some 1;
  size_of_field_to_init_union = 32;
  prev_field_end_offset = 8;
  field_index = 3;
  dirty_initialized_struct = false;
  is_initialized_struct = true;
  references = [];
}

fields_loop-union_example :
    ((choice_end.field_index_to_init_union ≡ none)
      × ((i : ℕ) (field : Field) (len : ℕ) (shown : View)
          → Shown no_float tables one_byte choice.fields choice_end.sub_views i field len shown
          → is_clean one_byte choice 0 field len shown ≡ true
          → len ≡ 0))
    ⊎ ((k : ℕ) × (chosen : Field) × (size : ℕ) × (seen : View)
        × (choice_end.field_index_to_init_union ≡ some k)
        × Shown no_float tables one_byte choice.fields choice_end.sub_views k chosen size seen
        × (is_clean one_byte choice 0 chosen size seen ≡ true)
        × ((i : ℕ) (field : Field) (len : ℕ) (shown : View)
            → Shown no_float tables one_byte choice.fields choice_end.sub_views i field len shown
            → is_clean one_byte choice 0 field len shown ≡ true
            → len ≤ size))
unfolding fields_loop codes create_simple_type_from_name type_size type_size_fuel is_integer_type
    is_simple lookup_text integer_types_to_sizes text_eq is_bool_type is_bool_type_name
    bool_types_to_sizes is_character_type is_character_type_name character_types_to_sizes
    is_floating_point_type floating_point_types_to_sizes dirty_between
fields_loop-union_example =
    fields_loop-union no_float tables one_byte plain choice 0 [] choice_end refl refl

find_field_index_lem_example :
    ((find_field_index pair 40 ≡ err incorrect_index)
      × ((pair.fields ≡ []) ⊎ ((g : Field) × (get_elem? pair.fields 0 ≡ some g) × (40 < g.offset))))
    ⊎ ((i : ℕ) × (f : Field) × (find_field_index pair 40 ≡ ok i)
        × (get_elem? pair.fields i ≡ some f)
        × (f.offset ≤ 40)
        × ((suc i ≡ length pair.fields)
            ⊎ ((g : Field) × (get_elem? pair.fields (suc i) ≡ some g) × (40 < g.offset))))
find_field_index_lem_example =
    find_field_index_lem pair 40 ((omega arith, tt), (tt, tt)) (omega arith)

abbrev int_type : CType
int_type = create_simple_type_from_name (codes "int") 0

abbrev pair_type : CType
pair_type = record (create_simple_type_from_name (codes "Pair") 0) {
  type_id = some 4;
  base_type_id = some 4;
}

abbrev pair_tables : TypesHandler
pair_tables = record tables { structs = (4, pair) ∷ [] }

-- `struct { int x; Pair inner; }`, and the address of `o.inner.c`.
abbrev inner_field : Field
inner_field = record int_field { name = codes "inner"; type = pair_type; size = 64; offset = 32 }

abbrev outer : StructInfo
outer = record pair { name = codes "Outer"; size = 96; fields = int_field ∷ inner_field ∷ [] }

abbrev outer_type : CType
outer_type = record pair_type { type_id = some 5; base_type_id = some 5 }

abbrev outer_tables : TypesHandler
outer_tables = record tables { structs = (4, pair) ∷ (5, outer) ∷ [] }

outer_path : IsFieldPath outer_tables outer_type (inner_field ∷ char_field 32 ∷ [])
unfolding codes create_simple_type_from_name get_type_kind is_primitive_type is_integer_type
    is_simple lookup_text integer_types_to_sizes text_eq is_bool_type is_bool_type_name
    bool_types_to_sizes is_character_type is_character_type_name character_types_to_sizes
    is_floating_point_type floating_point_types_to_sizes is_void is_void_name is_object_pointer
    is_array is_pointer_to_function is_struct_like get_struct_info lookup_id get_id
outer_path = (
  refl,
  (outer, refl, ((omega arith, tt), (tt, tt)), (int_field ∷ [], [], refl, tt)),
  (refl, (pair, refl, ((omega arith, tt), (tt, tt)), (int_field ∷ [], [], refl, tt)), inl refl),
)

traverse_lazy_in_struct-offset_of_example :
    traverse_lazy_in_struct outer_tables 3 outer_type 64 (codes "o")
    ≡ ok (record {
      type = (char_field 32).type;
      var_name = access_text (codes "o") (inner_field ∷ char_field 32 ∷ []);
    })
traverse_lazy_in_struct-offset_of_example =
    traverse_lazy_in_struct-offset_of outer_tables outer_type (inner_field ∷ char_field 32 ∷ [])
      (codes "o") outer_path (omega arith)

found_text : access_text (codes "o") (inner_field ∷ char_field 32 ∷ []) ≡ codes "o.inner.c"
unfolding codes get_field_access text_eq
found_text = refl
