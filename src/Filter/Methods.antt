-- ===== src/Filter/Methods.antt =====
-- The predicate that `FeaturesFilter::filter` erases methods by, in server/src/FeaturesFilter.cpp.
-- The counters of `unsupportedStatistics` and the log lines, which nothing reads, are left out.
use utbot_cpp.Base.{
  Bool, false, not, ◌&&◌, List, [], ◌∷◌, ◌++◌, Option, none, some, Text, codes, if◌then◌else◌,
  Result, ok, ◌>>=◌,
}
use utbot_cpp.Types.Kinds.{CType, AccessSpecifier}
use utbot_cpp.Types.Handler.{TypesHandler, get_struct_info, is_struct_like, TypeError}
use utbot_cpp.Types.Support.{TypeUsage, parameter, return, TypeSupport, CheckState}
use utbot_cpp.Filter.PrivateArrays.{is_public}

-- `MethodParam`.
pub record MethodParam : Type 0 where
  pub type : CType
  pub name : Text
  pub has_incomplete_type : Bool

-- The fields of `MethodDescription` that the filter reads or writes.
pub record MethodDescription : Type 0 where
  pub class_obj : Option MethodParam
  pub name : Text
  pub return_type : CType
  pub has_incomplete_return_type : Bool
  pub is_static : Bool
  pub is_extern : Bool
  pub is_inline : Bool
  pub global_params : List MethodParam
  pub params : List MethodParam
  pub access_specifier : AccessSpecifier

-- What the filter asks of `TypesHandler` and of `hasPrivateArray`.
pub record Queries : Type 0 where
  pub handler : TypesHandler
  pub support : CType → TypeUsage → CheckState → TypeSupport × CheckState
  pub private_array : CType → Bool

unfoldable pub update_if_not_complete_type : TypeSupport → Bool → Text → TypeSupport
update_if_not_complete_type s condition message =
    if s.is_supported && condition then record { is_supported = false; info = message } else s

abbrev pub concat_text : List Text → Text
concat_text [] = []
concat_text (t ∷ ts) = t ++ concat_text ts

-- What a test of a method does: it gives the comment for an erased method, or lets it pass.
abbrev pub Verdict : Type 0
Verdict = Option Text

module _ (q : Queries) where
  unfoldable pub return_verdict : MethodDescription → CheckState → Verdict × CheckState
  unfolding update_if_not_complete_type
  return_verdict m st =
      let (r, st') = q.support m.return_type return st in
      let r' =
        update_if_not_complete_type r m.has_incomplete_return_type
          (codes "Method has incomplete return type") in
      (
        if r'.is_supported
            then none
            else some (
                concat_text (
                  codes "Function '"
                  ∷ m.name
                  ∷ codes "' was skipped, as return type '"
                  ∷ m.return_type.type_name
                  ∷ codes "' is not fully supported: "
                  ∷ r'.info
                  ∷ [])),
        st',
      )

  unfoldable pub params_verdict : Text → List MethodParam → CheckState → Verdict × CheckState
  unfolding update_if_not_complete_type
  params_verdict name [] st = (none, st)
  params_verdict name (p ∷ ps) st =
      let (r, st') = q.support p.type parameter st in
      let r' =
        update_if_not_complete_type r p.has_incomplete_type
          (codes "Parameter has incomplete type") in
      let rest = params_verdict name ps st' in
      if r'.is_supported then rest else (
        some (
            concat_text (
              codes "Function '"
              ∷ name
              ∷ codes "' was skipped, as parameter '"
              ∷ p.name
              ∷ codes "' is not fully supported: "
              ∷ r'.info
              ∷ [])),
        st',
      )

  unfoldable pub has_private_array_type : CType → Bool
  has_private_array_type t = is_struct_like q.handler t && q.private_array t

  unfoldable pub private_params_verdict : Text → List MethodParam → Verdict
  private_params_verdict name [] = none
  private_params_verdict name (p ∷ ps) =
      if has_private_array_type p.type
      then some (
          concat_text (
            codes "Method '"
            ∷ name
            ∷ codes "' was skipped, as parameter '"
            ∷ p.type.type_name
            ∷ codes "' has private field"
            ∷ []))
      else private_params_verdict name ps

  -- The two tests of the class of a method. `getStructInfo` throws for a class that is not known.
  unfoldable pub class_verdict : Text → Option MethodParam → Result TypeError Verdict
  class_verdict name none = ok none
  class_verdict name (some c) = do
    s ← get_struct_info q.handler c.type
    ok (
        if not s.has_default_public_constructor
        then some (
            concat_text (
              codes "Method '"
              ∷ name
              ∷ codes "' was skipped, as class '"
              ∷ c.type.type_name
              ∷ codes "' can't be construct in current version"
              ∷ []))
        else if q.private_array c.type
        then some (
            concat_text (
              codes "Method '"
              ∷ name
              ∷ codes "' was skipped, as class '"
              ∷ c.type.type_name
              ∷ codes "' has private field"
              ∷ []))
        else none)

  unfoldable pub modifiers_verdict : Bool → MethodDescription → Verdict
  modifiers_verdict generate_for_static_functions m =
      if m.is_static && not generate_for_static_functions
      then some (
          concat_text (
            codes "Function '"
            ∷ m.name
            ∷ codes "' was skipped, as option \"Generate For Static Functions\"is disabled"
            ∷ []))
      else if m.is_inline && (not m.is_static && not m.is_extern)
      then some (
          concat_text (
            codes "Function '"
            ∷ m.name
            ∷ codes
                "' was skipped, as inline function without static or extern modifier is not supported by now"
            ∷ []))
      else none

  unfoldable pub class_type_name : Option MethodParam → Text
  class_type_name none = []
  class_type_name (some c) = c.type.type_name

  unfoldable pub last_verdict : MethodDescription → Verdict
  unfolding class_type_name has_private_array_type
  last_verdict m =
      if has_private_array_type m.return_type
      then some (
          concat_text (
            codes "Method '"
            ∷ m.name
            ∷ codes "' was skipped, as return type '"
            ∷ m.return_type.type_name
            ∷ codes "' has private field"
            ∷ []))
      else if not (is_public m.access_specifier)
      then some (
          concat_text (
            codes "Method '"
            ∷ m.name
            ∷ codes "' from class '"
            ∷ class_type_name m.class_obj
            ∷ codes "' was skipped, as private"
            ∷ []))
      else none

  -- The first test that fails decides.
  abbrev pub or_else : Verdict → Verdict → Verdict
  or_else (some t) v = some t
  or_else none v = v

  abbrev pub or_throw : Verdict → Result TypeError Verdict → Result TypeError Verdict
  or_throw (some t) v = ok (some t)
  or_throw none v = v

  unfoldable pub verdict :
      Bool → MethodDescription → CheckState → Result TypeError (Verdict × CheckState)
  verdict generate_for_static_functions m st =
      let (v₁, st₁) = return_verdict m st in
      let (v₂, st₂) = params_verdict m.name m.params st₁ in
      elim v₁ [
        | some t ↦ ok (some t, st₁)
        | none ↦ elim v₂ [
          | some t ↦ ok (some t, st₂)
          | none ↦ do
            v ←
                or_throw (modifiers_verdict generate_for_static_functions m)
                  (class_verdict m.name m.class_obj)
            ok (or_else v (or_else (private_params_verdict m.name m.params) (last_verdict m)), st₂)
        ]
      ]

  -- `erase_if` over the ordered map of methods: the methods kept, the comments added, the state.
  unfoldable pub filter_methods :
      Bool
      → List MethodDescription
      → CheckState
      → Result TypeError (List MethodDescription × List Text × CheckState)
  filter_methods generate_for_static_functions [] st = ok ([], [], st)
  filter_methods generate_for_static_functions (m ∷ ms) st = do
    (v, st') ← verdict generate_for_static_functions m st
    (kept, comments, st'') ← filter_methods generate_for_static_functions ms st'
    ok (elim v [ some t ↦ (kept, t ∷ comments, st'') | none ↦ (m ∷ kept, comments, st'') ])
