-- ===== src/Filter/Globals.antt =====
-- `FeaturesFilter::filterGlobalParameters` of server/src/FeaturesFilter.cpp, without its log.
use utbot_cpp.Base.{
  suc, Bool, false, not, ◌&&◌, ◌||◌, List, [], ◌∷◌, ◌≡◌, arith, if◌then◌else◌, All, length,
  Bool-cases, inl, inr, refl, ap,
}
use utbot_cpp.Types.Kinds.{CType}
use utbot_cpp.Types.Queries.{
  is_array, is_object_pointer, is_pointer_to_function, is_unnamed, is_void, base_type_obj,
  base_type_obj_at,
}
use utbot_cpp.Types.Handler.{is_incomplete_array_type}
use utbot_cpp.Types.Support.{parameter, CheckState}
use utbot_cpp.Filter.Methods.{MethodParam, MethodDescription, Queries}

-- The tests on the type itself, in the order of the source.
unfoldable pub is_skipped_global : CType → Bool
is_skipped_global t =
    is_pointer_to_function (base_type_obj t)
    || is_unnamed (base_type_obj t)
    || is_void (base_type_obj t)
    || is_incomplete_array_type t
    || is_array t && is_object_pointer (base_type_obj_at 1 t)

module _ (q : Queries) where
  unfoldable pub filter_globals : List MethodParam → CheckState → List MethodParam × CheckState
  filter_globals [] st = ([], st)
  filter_globals (p ∷ ps) st =
      let (r, st') = q.support p.type parameter st in
      let (kept, st'') = filter_globals ps st' in
      (if not r.is_supported || is_skipped_global p.type then kept else p ∷ kept, st'')

  unfoldable pub filter_global_parameters :
      List MethodDescription → CheckState → List MethodDescription × CheckState
  unfolding filter_globals
  filter_global_parameters [] st = ([], st)
  filter_global_parameters (m ∷ ms) st =
      let (globals, st') = filter_globals m.global_params st in
      let (rest, st'') = filter_global_parameters ms st' in
      (record m { global_params = globals } ∷ rest, st'')

  filter_globals-kept :
      (ps : List MethodParam) (st : CheckState)
      → All (λ p. is_skipped_global p.type ≡ false) (filter_globals ps st).0
  unfolding filter_globals
  filter_globals-kept [] st = tt
  filter_globals-kept (p ∷ ps) st =
      let (r, st') = q.support p.type parameter st in
      let rest = filter_globals-kept ps st' in
      elim (Bool-cases (not r.is_supported || is_skipped_global p.type)) [
        | inl gone ↦ rw (gone, All) rest
        | inr kept ↦ rw (kept, All) (ground arith, rest)
      ]

  -- A global parameter that is left has a base type that is named, not void and no pointer to a
  -- function, and is neither an incomplete array nor an array of pointers. No method is lost.
  pub filter_global_parameters_lem :
      (ms : List MethodDescription) (st : CheckState)
      → All
          (λ m. All (λ p. is_skipped_global p.type ≡ false) m.global_params)
          (filter_global_parameters ms st).0
        × (length (filter_global_parameters ms st).0 ≡ length ms)
  unfolding filter_global_parameters
  filter_global_parameters_lem [] st = (tt, refl)
  filter_global_parameters_lem (m ∷ ms) st =
      let ih = filter_global_parameters_lem ms (filter_globals m.global_params st).1 in
      ((filter_globals-kept m.global_params st, ih.0), ap suc ih.1)
