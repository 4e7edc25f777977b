-- ===== src/Types/Support.antt =====
-- `TypesHandler::isSupportedType` of server/src/types/Types.cpp: the recursive check of a type, with
-- its two mutable fields `recursiveCheckStarted` and `isSupportedTypeHash` as a state.
pub mod Cover
pub mod Known
pub mod Returns
use utbot_cpp.Base.{
  contains_text, ℕ, zero, suc, ◌+◌, ◌*◌, Bool, true, false, not, ◌&&◌, ◌||◌, List, [], ◌∷◌, ◌++◌,
  Option, none, some, Text, codes, text_eq, length, ltb, drop, if◌then◌else◌, ok, err,
}
use utbot_cpp.Types.Kinds.{CType, Kind, front_is, is_object_pointer_kind, is_const_pointer}
use utbot_cpp.Types.Queries.{
  is_array, is_object_pointer, is_pointer_to_pointer, base_type_obj, count_pointers,
}
use utbot_cpp.Types.Handler.{
  TypesHandler, Field, StructInfo, is_struct_like, get_struct_info, is_incomplete_array_type,
  get_type_kind, TypeKind, unknown,
}

pub data TypeUsage : Type 0 where
  parameter return all : TypeUsage

abbrev pub is_return : TypeUsage → Bool
is_return return = true
is_return _ = false

abbrev pub usage_eq : TypeUsage → TypeUsage → Bool
usage_eq parameter parameter = true
usage_eq return return = true
usage_eq all all = true
usage_eq _ _ = false

pub record TypeSupport : Type 0 where
  pub is_supported : Bool
  pub info : Text

-- One entry of `isSupportedTypeHash`: its key is a type's name and a usage.
pub record HashEntry : Type 0 where
  pub type_name : Text
  pub usage : TypeUsage
  pub support : TypeSupport

pub record CheckState : Type 0 where
  pub recursive_check_started : List Text
  pub is_supported_type_hash : List HashEntry

-- `erase` of a set, which holds a name once at most: every copy goes.
unfoldable pub erase_text : Text → List Text → List Text
erase_text n [] = []
erase_text n (m ∷ ms) = let rest = erase_text n ms in if text_eq m n then rest else m ∷ rest

unfoldable pub find_entry : Text → TypeUsage → List HashEntry → Option TypeSupport
find_entry n u [] = none
find_entry n u (e ∷ es) =
    if text_eq e.type_name n && usage_eq e.usage u then some e.support else find_entry n u es

unfoldable pub start_check : Text → CheckState → CheckState
unfolding contains_text
start_check n st =
    if contains_text n st.recursive_check_started
    then st
    else record st { recursive_check_started = n ∷ st.recursive_check_started }

unfoldable pub end_check : Text → CheckState → CheckState
unfolding erase_text
end_check n st = record st { recursive_check_started = erase_text n st.recursive_check_started }

unfoldable pub remember : Text → TypeUsage → TypeSupport → CheckState → CheckState
remember n u r st = record st {
  is_supported_type_hash =
      record { type_name = n; usage = u; support = r } ∷ st.is_supported_type_hash;
}

-- The type of the last field.
abbrev last_is : (CType → Bool) → List Field → Bool
last_is p [] = false
last_is p (f ∷ []) = p f.type
last_is p (f ∷ g ∷ fs) = last_is p (g ∷ fs)

-- The four predicates that do not recur.
module _ (h : TypesHandler) where
  unfoldable pub has_flexible_array : CType → Bool
  has_flexible_array t = is_struct_like h t && elim (get_struct_info h t) [
    | ok s ↦ last_is is_incomplete_array_type s.fields
    | err e ↦ false
  ]

  unfoldable pub has_big_dimension : CType → TypeUsage → Bool
  has_big_dimension t usage = not (is_return usage) && ltb 2 (count_pointers t.kinds)

  unfoldable pub has_extra_const : CType → TypeUsage → Bool
  has_extra_const t usage =
      not (is_return usage)
      && is_pointer_to_pointer t
      && (front_is is_const_pointer t.kinds || front_is is_const_pointer (drop 1 t.kinds))

  abbrev pub is_unknown : TypeKind → Bool
  is_unknown unknown = true
  is_unknown _ = false

  -- The first of them that holds.
  unfoldable pub plain_reason : CType → TypeUsage → Option Text
  plain_reason t usage =
      if is_unknown (get_type_kind h t)
      then some (codes "Type is unknown")
      else if has_flexible_array t
      then some (codes "Type has flexible array member")
      else if has_big_dimension t usage
      then some (codes "Dimension of pointer is too big")
      else if has_extra_const t usage
      then some (codes "Two dimensional pointer has extra const qualifiers")
      else none

  abbrev pub struct_fields : CType → List Field
  struct_fields t =
      if is_struct_like h t then elim (get_struct_info h t) [ ok s ↦ s.fields | err e ↦ [] ] else []

-- A call of the check: `none` means that the fuel ran out.
abbrev pub Check : Type 0 → Type 0
Check A = CheckState → Option (A × CheckState)

-- `any_of` over the fields, which stops at the first field that is not supported.
unfoldable pub unsupported_fields : (CType → Check TypeSupport) → List Field → Check Bool
unsupported_fields check [] st = some (false, st)
unsupported_fields check (f ∷ fs) st =
    let rest = unsupported_fields check fs in
    if contains_text f.type.type_name st.recursive_check_started || is_object_pointer f.type
    then rest st
    else elim (check f.type st) [
      | none ↦ none
      | some (r, st') ↦ if r.is_supported then rest st' else some (true, st')
    ]

-- The last predicate, on the base type of an array or a pointer.
unfoldable pub unsupported_base : (CType → Check TypeSupport) → CType → ℕ → Check Bool
unsupported_base check t depth st =
    if not (is_array t || is_object_pointer t) || is_object_pointer t && ltb 0 depth
    then some (false, st)
    else elim (check (base_type_obj t) st) [
      | none ↦ none
      | some (r, st') ↦ some (not r.is_supported, st')
    ]

abbrev pub supported : TypeSupport
supported = record { is_supported = true; info = [] }

abbrev pub unsupported : Text → TypeSupport
unsupported reason = record { is_supported = false; info = reason }

-- The body behind the lookup in the hash; `check` is the recursive call at the next depth.
module _ (h : TypesHandler) (check : CType → Check TypeSupport) (t : CType)
    (usage : TypeUsage) where
  unfoldable pub check_base : ℕ → Check TypeSupport
  check_base depth st = elim (unsupported_base check t depth st) [
    | none ↦ none
    | some (bad, st') ↦
        if bad
        then some (unsupported (codes "Base type of array or pointer"), end_check t.type_name st')
        else some (supported, remember t.type_name usage supported (end_check t.type_name st'))
  ]

  unfoldable pub check_fields : ℕ → Check TypeSupport
  check_fields depth st = elim (unsupported_fields check (struct_fields h t) st) [
    | none ↦ none
    | some (bad, st') ↦
        if bad
        then some
            (unsupported (codes "Unsupported types in structs/unions"), end_check t.type_name st')
        else check_base depth st'
  ]

  unfoldable pub check_type : ℕ → Check TypeSupport
  check_type depth st = elim (plain_reason h t usage) [
    | some reason ↦ some (unsupported reason, end_check t.type_name (start_check t.type_name st))
    | none ↦ check_fields depth (start_check t.type_name st)
  ]

unfoldable pub is_supported_fuel : TypesHandler → ℕ → CType → TypeUsage → ℕ → Check TypeSupport
is_supported_fuel h zero t usage depth st = none
is_supported_fuel h (suc fuel) t usage depth st =
    elim (find_entry t.type_name usage st.is_supported_type_hash) [
      | some r ↦ some (r, st)
      | none ↦ check_type h (λ u. is_supported_fuel h fuel u usage (suc depth)) t usage depth st
    ]

-- The names of the types of all fields that the handler knows.
unfoldable pub field_names : List Field → List Text
field_names [] = []
field_names (f ∷ fs) = f.type.type_name ∷ field_names fs

unfoldable pub all_field_names : List (ℕ × StructInfo) → List Text
unfolding field_names
all_field_names [] = []
all_field_names ((i, s) ∷ ss) = field_names s.fields ++ all_field_names ss

-- The call from outside, at depth 0. The fuel is twice the number of names of fields, and 3.
unfoldable pub is_supported_type : TypesHandler → CType → TypeUsage → Check TypeSupport
is_supported_type h t usage =
    is_supported_fuel h (length (all_field_names h.structs) * 2 + 3) t usage 0
