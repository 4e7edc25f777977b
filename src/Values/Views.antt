-- ===== src/Values/Views.antt =====
-- The views of values of server/src/Tests.h: the subclasses of `AbstractValueView`.
use utbot_cpp.Base.{
  ℕ, ◌+◌, Bool, true, false, ◌||◌, List, [], ◌∷◌, ◌++◌, Option, none, some, Text, codes, ◌==◌,
  if◌then◌else◌, Result, ok, ◌>>=◌,
}
use utbot_cpp.Strings.Split.{join_with}
use utbot_cpp.Strings.Affixes.{is_empty}
use utbot_cpp.Names.Decorate.{decorate}
use utbot_cpp.Types.Handler.{StructInfo, SubType, struct, union}
use utbot_cpp.Values.Bytes.{ValueError, read_at}
use utbot_cpp.Values.Literals.{is_fp_special_value}

mutual
  -- `field_index` is `fieldIndexToInitUnion`, `none` for its initial `SIZE_MAX`.
  pub data View : Type 0 where
    just primitive string function_pointer enum : (entry_value : Text) → View
    void : View
    array : (sub_views : Views) → View
    struct_value :
        (struct_info : StructInfo) (sub_views : Views) (entry_value : Option Text)
        (anonymous is_init dirty_init : Bool) (field_index : Option ℕ)
        → View

  -- `std::vector` of views.
  pub data Views : Type 0 where
    nil : Views
    cons : View → Views → Views

abbrev pub is_struct : SubType → Bool
is_struct struct = true
is_struct union = false

abbrev pub is_union : SubType → Bool
is_union struct = false
is_union union = true

abbrev pub is_index : Option ℕ → ℕ → Bool
is_index none i = false
is_index (some k) i = k == i

abbrev pub braced : List Text → Text
braced entries = codes "{" ++ (join_with entries (codes ", ") ++ codes "}")

-- `getEntryValue(nullptr)`; `i` counts the fields of a struct.
unfoldable mutual
  pub get_entry_value : View → Text
  get_entry_value (just value) = value
  get_entry_value (primitive value) = value
  get_entry_value (string value) = value
  get_entry_value (function_pointer value) = value
  get_entry_value (enum value) = value
  get_entry_value void = []
  get_entry_value (array views) = braced (array_entries views)
  get_entry_value (struct_value info views (some value) anonymous is_init dirty index) = value
  get_entry_value (struct_value info views none anonymous is_init dirty index) =
      braced (struct_entries info.sub_type index views 0)

  pub array_entries : Views → List Text
  array_entries nil = []
  array_entries (cons v views) = get_entry_value v ∷ array_entries views

  pub struct_entries : SubType → Option ℕ → Views → ℕ → List Text
  struct_entries sub_type index nil i = []
  struct_entries sub_type index (cons v views) i =
      let entry = get_entry_value v in
      let rest = struct_entries sub_type index views (i + 1) in
      if is_struct sub_type || is_index index i then entry ∷ rest else rest

unfoldable mutual
  pub contains_fp_special_value : View → Bool
  contains_fp_special_value (just value) = is_fp_special_value value
  contains_fp_special_value (primitive value) = is_fp_special_value value
  contains_fp_special_value (string value) = is_fp_special_value value
  contains_fp_special_value (function_pointer value) = is_fp_special_value value
  contains_fp_special_value (enum value) = is_fp_special_value value
  contains_fp_special_value void = false
  contains_fp_special_value (array views) = any_contains views
  contains_fp_special_value (struct_value info views value anonymous is_init dirty index) =
      any_contains views

  pub any_contains : Views → Bool
  any_contains nil = false
  any_contains (cons v views) = contains_fp_special_value v || any_contains views

abbrev pub is_initialized : View → Bool
is_initialized (struct_value info views value anonymous is_init dirty index) = is_init
is_initialized _ = true

abbrev pub is_dirty_init : View → Bool
is_dirty_init (struct_value info views value anonymous is_init dirty index) = dirty
is_dirty_init _ = false

-- `getFieldPrefix`.
unfoldable pub get_field_prefix : StructInfo → ℕ → Result ValueError Text
get_field_prefix info i = do
  field ← read_at info.fields i
  let prefix : Text = codes "." ++ (decorate field.name ++ codes " = ")
  let commented : Text = codes "/*" ++ (prefix ++ codes "*/")
  ok (if is_empty field.name then [] else if info.is_c_like then prefix else commented)

-- Views as a list, and back.
abbrev pub to_list : Views → List View
to_list nil = []
to_list (cons v views) = v ∷ to_list views

abbrev pub from_list : List View → Views
from_list [] = nil
from_list (v ∷ views) = cons v (from_list views)
