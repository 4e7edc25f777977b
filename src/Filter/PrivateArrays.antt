-- ===== src/Filter/PrivateArrays.antt =====
-- `hasPrivateArray` of server/src/FeaturesFilter.cpp.
use utbot_cpp.Base.{
  ℕ, zero, suc, Bool, true, false, not, ◌&&◌, List, [], ◌∷◌, Option, none, some, if◌then◌else◌, ok,
  err,
}
use utbot_cpp.Types.Kinds.{CType, AccessSpecifier, as_public}
use utbot_cpp.Types.Queries.{is_array}
use utbot_cpp.Types.Handler.{
  TypesHandler, Field, get_struct_info, get_type_kind, TypeKind, struct_like,
}

abbrev pub is_public : AccessSpecifier → Bool
is_public as_public = true
is_public _ = false

-- The loop over the fields: each of its two branches returns in the first round. `recurse` is the
-- recursive call; `none` means that its fuel ran out.
unfoldable pub private_array_in : (CType → Option Bool) → List Field → Option Bool
private_array_in recurse [] = some false
private_array_in recurse (f ∷ fs) =
    if is_array f.type && not (is_public f.access_specifier) then some true else recurse f.type

abbrev pub is_struct_kind : TypeKind → Bool
is_struct_kind struct_like = true
is_struct_kind _ = false

module _ (h : TypesHandler) where
  unfoldable pub fields_of : CType → List Field
  fields_of t = elim (get_struct_info h t) [ ok s ↦ s.fields | err e ↦ [] ]

  unfoldable pub has_private_array_fuel : ℕ → CType → Option Bool
  has_private_array_fuel zero t = none
  has_private_array_fuel (suc fuel) t =
      let inside = private_array_in (has_private_array_fuel fuel) (fields_of t) in
      if is_struct_kind (get_type_kind h t) then inside else some false
