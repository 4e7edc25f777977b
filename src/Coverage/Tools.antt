-- ===== src/Coverage/Tools.antt =====
-- `getCoverageInfo` of server/src/coverage/LlvmCoverageTool.cpp and GcovCoverageTool.cpp: coverage of files
-- from documents that are read. `path_of` stands for the normal form of `fs::path`.
use utbot_cpp.Base.{
  ℕ, zero, suc, ◌+◌, ◌-◌, ◌%◌, ◌^◌, Bool, true, ◌&&◌, List, [], ◌∷◌, ◌++◌, Text, codes, Result, ok,
  err, ◌>>=◌, ltb, ◌==◌, if◌then◌else◌, text_eq,
}
use utbot_cpp.Strings.Replace.{contains}
use utbot_cpp.Values.Bytes.{ℤ, pos, negsuc}
use utbot_cpp.Coverage.FileCoverage.{
  FileCoverage, SourceRange, empty_coverage, CoverageError, malformed, uint32_size,
  count_line_coverage,
}

-- `CoverageMap`: the first entry of a file counts.
abbrev pub CoverageMap : Type 0
CoverageMap = List (Text × FileCoverage)

-- A change of `coverageMap[file]`, which puts an empty entry where there is none.
unfoldable pub change_entry : Text → (FileCoverage → FileCoverage) → CoverageMap → CoverageMap
change_entry file f [] = (file, f empty_coverage) ∷ []
change_entry file f ((other, v) ∷ m) =
    if text_eq other file then (other, f v) ∷ m else (other, v) ∷ change_entry file f m

unfoldable pub is_gtest : Text → Bool
unfolding contains
is_gtest file = contains file (codes "gtest")

-- `get<uint32_t>()`, and `get<int>() == 0` and `get<int>() >= 1`, of a number of a document.
unfoldable pub to_uint32 : ℤ → ℕ
to_uint32 (pos n) = n % uint32_size
to_uint32 (negsuc n) = uint32_size - 1 - n % uint32_size

abbrev pub is_zero_int : ℤ → Bool
is_zero_int z = to_uint32 z == 0

abbrev pub is_positive_int : ℤ → Bool
is_positive_int z = ltb 0 (to_uint32 z) && ltb (to_uint32 z) (2 ^ 31)

-- `at`, which throws out of range.
abbrev pub at {ℓ} : {A : Type ℓ} → List A → ℕ → Result CoverageError A
at [] i = err malformed
at (x ∷ xs) zero = ok x
at (x ∷ xs) (suc i) = at xs i

-- A function of the export of `llvm-cov`: its regions are lists of numbers.
pub record LlvmFunction : Type 0 where
  pub filenames : List Text
  pub regions : List (List ℤ)

-- `region.at(i).get<uint32_t>() - 1`, which wraps around.
unfoldable pub position_at : List ℤ → ℕ → Result CoverageError ℕ
unfolding to_uint32
position_at region i = do z ← at region i; ok ((to_uint32 z + uint32_size - 1) % uint32_size)

unfoldable pub read_region : List ℤ → Result CoverageError (SourceRange × ℤ)
unfolding position_at
read_region region = do
  start_line ← position_at region 0
  start_character ← position_at region 1
  end_line ← position_at region 2
  end_character ← position_at region 3
  count ← at region 4
  ok (
    record {
      start = record { line = start_line; character = start_character };
      end = record { line = end_line; character = end_character };
    },
    count,
  )

unfoldable pub put_region : SourceRange → ℤ → FileCoverage → FileCoverage
unfolding to_uint32
put_region range count f =
    if is_zero_int count
    then record f { uncovered_ranges = f.uncovered_ranges ++ range ∷ [] }
    else if is_positive_int count
    then record f { covered_ranges = f.covered_ranges ++ range ∷ [] }
    else f

-- Whether `put_region` names the entry of the file.
abbrev pub counts : ℤ → Bool
counts count = if is_zero_int count then true else is_positive_int count

module _ (path_of : Text → Text) where
  unfoldable pub regions_loop :
      Text → List (List ℤ) → CoverageMap → Result CoverageError CoverageMap
  unfolding read_region put_region change_entry
  regions_loop file [] m = ok m
  regions_loop file (region ∷ regions) m = do
    (range, count) ← read_region region
    regions_loop file regions
        (if counts count then change_entry (path_of file) (put_region range count) m else m)

  unfoldable pub functions_loop : List LlvmFunction → CoverageMap → Result CoverageError CoverageMap
  unfolding regions_loop is_gtest
  functions_loop [] m = ok m
  functions_loop (function ∷ functions) m = do
    file ← at function.filenames 0
    n ← if is_gtest (path_of file) then ok m else regions_loop file function.regions m
    functions_loop functions n

  -- The loop that counts lines in every entry.
  unfoldable pub count_loop : CoverageMap → Result CoverageError CoverageMap
  unfolding count_line_coverage
  count_loop [] = ok []
  count_loop ((file, f) ∷ m) = do
    g ← count_line_coverage f
    rest ← count_loop m
    ok ((file, g) ∷ rest)

  -- The export's `data`, each with its functions.
  unfoldable pub data_loop :
      List (List LlvmFunction) → CoverageMap → Result CoverageError CoverageMap
  unfolding functions_loop
  data_loop [] m = ok m
  data_loop (functions ∷ others) m = do n ← functions_loop functions m; data_loop others n

  unfoldable pub get_llvm_coverage_info :
      List (List LlvmFunction) → Result CoverageError CoverageMap
  unfolding data_loop count_loop
  get_llvm_coverage_info json = do m ← data_loop json []; count_loop m
