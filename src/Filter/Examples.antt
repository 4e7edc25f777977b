-- ===== src/Filter/Examples.antt =====
-- A file with one method that is kept and one that is skipped.
use utbot_cpp.Base.{
  ℕ, Bool, true, false, not, ◌||◌, List, [], ◌∷◌, ◌++◌, none, some, ◌≡◌, refl, Text, codes, any, ok,
  lookup_id,
}
use utbot_cpp.Types.Kinds.{
  CType, simple, array, not_reference, as_public, as_private, AccessSpecifier,
}
use utbot_cpp.Types.Queries.{get_id, is_simple}
use utbot_cpp.Types.Handler.{TypesHandler, Field, StructInfo, struct, is_struct_like}
use utbot_cpp.Types.Support.{CheckState, supported, TypeUsage}
use utbot_cpp.Filter.Server.{server_queries}
use utbot_cpp.Filter.Methods.{
  MethodDescription, Queries, filter_methods, verdict, return_verdict, params_verdict,
  update_if_not_complete_type, private_params_verdict, class_verdict, modifiers_verdict,
  last_verdict, has_private_array_type,
}
use utbot_cpp.Filter.Globals.{filter_global_parameters, filter_globals}
use utbot_cpp.Filter.Files.{Tests, filter_tests, filter_files, filter}
use utbot_cpp.Filter.Accepts.{AreFiltered, has_method, filter_lem}

abbrev named_type : Text → ℕ → CType
named_type name id = record {
  type_name = name;
  base_type = name;
  used_type = name;
  kinds = simple id false false not_reference ∷ [];
  dimension = 0;
  type_id = some id;
  base_type_id = some id;
  maybe_array = false;
}

abbrev int_array : CType
int_array = record (named_type (codes "int") 1) {
  kinds = array 4 true ∷ simple 1 false false not_reference ∷ [];
  dimension = 1;
}

abbrev field_of : AccessSpecifier → CType → Field
field_of access type = record {
  type = type;
  unnamed_type = false;
  anonymous = false;
  name = codes "x";
  size = 32;
  offset = 0;
  access_specifier = access;
}

abbrev struct_of : List Field → StructInfo
struct_of fields = record {
  name = codes "S";
  size = 160;
  alignment = 32;
  fields = fields;
  has_anonymous_struct_or_union = false;
  is_c_like = true;
  sub_type = struct;
  has_default_public_constructor = true;
}

abbrev count_field : Field
count_field = field_of as_public (named_type (codes "int") 1)

abbrev array_field : Field
array_field = field_of as_private int_array

-- Struct 8 has a private array behind its first field; struct 7 has none.
abbrev handler : TypesHandler
handler = record {
  structs =
      (7, struct_of (count_field ∷ [])) ∷ (8, struct_of (count_field ∷ array_field ∷ [])) ∷ [];
  enums = [];
  pointer_size = 8;
}

abbrev queries : Queries
queries = record {
  handler = handler;
  support = λ t u st. (supported, st);
  private_array = λ t. false;
}

abbrev method : Text → Bool → MethodDescription
method name static = record {
  class_obj = none;
  name = name;
  return_type = named_type (codes "int") 1;
  has_incomplete_return_type = false;
  is_static = static;
  is_extern = false;
  is_inline = false;
  global_params = [];
  params = [];
  access_specifier = as_public;
}

abbrev two_methods : List MethodDescription
two_methods = method (codes "f") false ∷ method (codes "g") true ∷ []

abbrev fresh_state : CheckState
fresh_state = record { recursive_check_started = []; is_supported_type_hash = [] }

abbrev skipped : Text
skipped =
    codes "Function '"
    ++ (codes "g"
        ++ (codes "' was skipped, as option \"Generate For Static Functions\"is disabled" ++ []))

two_methods-filtered :
    filter_methods queries false two_methods fresh_state
    ≡ ok (method (codes "f") false ∷ [], skipped ∷ [], fresh_state)
unfolding filter_methods verdict return_verdict params_verdict update_if_not_complete_type
    private_params_verdict class_verdict modifiers_verdict last_verdict has_private_array_type
    is_struct_like is_simple lookup_id get_id
two_methods-filtered = refl

abbrev before : Tests
before = record { source_file_path = codes "s.c"; methods = two_methods; comment_blocks = [] }

abbrev after : Tests
after = record before { methods = method (codes "f") false ∷ []; comment_blocks = skipped ∷ [] }

file-filtered : filter queries false true (before ∷ []) fresh_state ≡ ok (after ∷ [], fresh_state)
unfolding filter filter_files filter_tests filter_methods verdict return_verdict params_verdict
    update_if_not_complete_type private_params_verdict class_verdict modifiers_verdict last_verdict
    has_private_array_type is_struct_like is_simple lookup_id get_id filter_global_parameters
    filter_globals
file-filtered = refl

filter_lem_example :
    AreFiltered queries false (before ∷ []) (after ∷ [])
    × ((not true || any (has_method queries false) (after ∷ [])) ≡ true)
filter_lem_example =
    filter_lem queries false true (before ∷ []) fresh_state (after ∷ []) fresh_state file-filtered

abbrev served : Queries
served = server_queries handler 2

abbrev int_method : MethodDescription
int_method = method (codes "f") false

abbrev int_checked : CheckState
int_checked = record {
  recursive_check_started = [];
  is_supported_type_hash =
      record { type_name = codes "int"; usage = TypeUsage.return; support = supported } ∷ [];
}

abbrev one_file : Tests
one_file = record before { methods = int_method ∷ [] }
