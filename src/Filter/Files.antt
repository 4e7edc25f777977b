-- ===== src/Filter/Files.antt =====
-- `FeaturesFilter::filter` of server/src/FeaturesFilter.cpp over all files.
use utbot_cpp.Base.{
  Bool, true, false, not, ◌&&◌, ◌||◌, List, [], ◌∷◌, ◌++◌, Text, if◌then◌else◌, Result, ok, err,
  ◌>>=◌,
}
use utbot_cpp.Types.Handler.{TypeError}
use utbot_cpp.Types.Support.{CheckState}
use utbot_cpp.Filter.Methods.{MethodDescription, Queries, filter_methods}
use utbot_cpp.Filter.Globals.{filter_global_parameters}

-- The fields of `tests::Tests` that the filter reads or writes.
pub record Tests : Type 0 where
  pub source_file_path : Text
  pub methods : List MethodDescription
  pub comment_blocks : List Text

pub data FilterError : Type 0 where
  type_error : TypeError → FilterError
  no_test_generated : FilterError

abbrev pub lift_error {ℓ} : {A : Type ℓ} → Result TypeError A → Result FilterError A
lift_error (ok a) = ok a
lift_error (err e) = err (type_error e)

abbrev pub is_nil {ℓ} : {A : Type ℓ} → List A → Bool
is_nil [] = true
is_nil (x ∷ xs) = false

module _ (q : Queries) (generate_for_static_functions : Bool) where
  unfoldable pub filter_tests : Tests → CheckState → Result TypeError (Tests × CheckState)
  filter_tests t st =
      let (methods, st₁) = filter_global_parameters q t.methods st in
      do
        (kept, comments, st₂) ← filter_methods q generate_for_static_functions methods st₁
        ok (record t { methods = kept; comment_blocks = t.comment_blocks ++ comments }, st₂)

  -- The loop over the files; the flag is `hasSupportedMethods`.
  unfoldable pub filter_files :
      List Tests → CheckState → Bool → Result TypeError (List Tests × Bool × CheckState)
  filter_files [] st has_supported = ok ([], has_supported, st)
  filter_files (t ∷ ts) st has_supported = do
    (t', st₁) ← filter_tests t st
    (rest, found, st₂) ← filter_files ts st₁ (has_supported || not (is_nil t'.methods))
    ok (t' ∷ rest, found, st₂)

  unfoldable pub filter :
      Bool → List Tests → CheckState → Result FilterError (List Tests × CheckState)
  filter throw_if_zero_functions ts st = do
    (ts', has_supported, st') ← lift_error (filter_files ts st false)
    if not has_supported && throw_if_zero_functions then err no_test_generated else ok (ts', st')
