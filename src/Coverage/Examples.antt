-- ===== src/Coverage/Examples.antt =====
-- Runs of the code of server/src/coverage, and the theorems at concrete inputs.
use utbot_cpp.Base.{
  ℕ, false, ◌&&◌, ◌||◌, List, [], ◌∷◌, ◌++◌, ◌≡◌, refl, arith, none, codes, Result, ok, ◌>>=◌, any,
  All,
}
use utbot_cpp.Values.Bytes.{pos}
use utbot_cpp.Strings.Split.{ended, Lacks}
use utbot_cpp.Strings.Trim.{is_space}
use utbot_cpp.Coverage.LineSet.{contains_line, insert_line, erase_line}
use utbot_cpp.Coverage.FileCoverage.{
  FileCoverage, SourceRange, empty_coverage, count_line_coverage, CoverageError,
}
use utbot_cpp.Coverage.Lines.{with_ranges, in_range, count_line_coverage_lem}
use utbot_cpp.Coverage.Tools.{to_uint32}
use utbot_cpp.Coverage.Gcov.{set_file}
use utbot_cpp.Coverage.GcovLines.{
  Puts, IsNumbered, line_marks, function_marks, file_json, set_file_lem,
}
use utbot_cpp.Coverage.TestList.{get_tests}
use utbot_cpp.Coverage.TestNames.{IsSuite, list_lines, units_of, get_tests_lem}

abbrev range : ℕ → ℕ → SourceRange
range first last = record {
  start = record { line = first; character = 0 };
  end = record { line = last; character = 0 };
}

abbrev full_and_partial : Result CoverageError FileCoverage → Result CoverageError (List ℕ × List ℕ)
full_and_partial r = do f ← r; ok (f.full_coverage_lines, f.partial_coverage_lines)

-- Line 5 has partial coverage, and also full coverage if the range that begins at it comes first.
partial_only :
    full_and_partial
      (count_line_coverage (with_ranges (range 3 7 ∷ range 5 6 ∷ []) (range 5 5 ∷ [])))
    ≡ ok (3 ∷ 4 ∷ 6 ∷ 7 ∷ [], 5 ∷ [])
unfolding count_line_coverage contains_line insert_line erase_line
partial_only = refl

partial_and_full :
    full_and_partial
      (count_line_coverage (with_ranges (range 5 6 ∷ range 3 7 ∷ []) (range 5 5 ∷ [])))
    ≡ ok (3 ∷ 4 ∷ 5 ∷ 6 ∷ 7 ∷ [], 5 ∷ [])
unfolding count_line_coverage contains_line insert_line erase_line
partial_and_full = refl

count_line_coverage_lem_example :
    (g : FileCoverage) × (count_line_coverage
        (with_ranges (range 3 7 ∷ range 5 6 ∷ []) (range 5 5 ∷ []))
      ≡ ok g)
    × ((l : ℕ)
        → (contains_line g.no_coverage_lines l || contains_line g.partial_coverage_lines l)
          ≡ any (in_range l) (range 5 5 ∷ []))
    × ((l : ℕ)
        → (contains_line g.no_coverage_lines l && contains_line g.partial_coverage_lines l) ≡ false)
    × ((l : ℕ)
        → any (in_range l) (range 5 5 ∷ []) ≡ false
        → contains_line g.full_coverage_lines l ≡ any (in_range l) (range 3 7 ∷ range 5 6 ∷ []))
count_line_coverage_lem_example =
    count_line_coverage_lem (range 3 7 ∷ range 5 6 ∷ []) (range 5 5 ∷ []) (omega arith)
      (omega arith)

IsNumbered-lines : All IsNumbered (line_marks ((pos 3, pos 1) ∷ (pos 4, pos 0) ∷ []))
unfolding to_uint32
IsNumbered-lines = omega arith

IsNumbered-functions : All IsNumbered (function_marks ((pos 3, pos 9, pos 1) ∷ []))
unfolding to_uint32
IsNumbered-functions = omega arith

set_file_lem_example :
    Puts
      (line_marks ((pos 3, pos 1) ∷ (pos 4, pos 0) ∷ [])
        ++ function_marks ((pos 3, pos 9, pos 1) ∷ []))
      empty_coverage
      (set_file
        (file_json none ((pos 3, pos 1) ∷ (pos 4, pos 0) ∷ []) ((pos 3, pos 9, pos 1) ∷ []))
        empty_coverage)
set_file_lem_example =
    set_file_lem none ((pos 3, pos 1) ∷ (pos 4, pos 0) ∷ []) ((pos 3, pos 9, pos 1) ∷ [])
      empty_coverage IsNumbered-lines IsNumbered-functions

first_no_nul : Lacks 0 (codes "Running main()")
unfolding codes
first_no_nul = ground arith

first_no_end : Lacks 10 (codes "Running main()")
unfolding codes
first_no_end = ground arith

suites_plain : All IsSuite ((codes "regression", codes "f_test_1" ∷ []) ∷ [])
unfolding codes is_space
suites_plain = ground arith

get_tests_lem_example :
    get_tests (codes "t.cpp") (
      ended 10
        (codes "Running main()" ∷ list_lines ((codes "regression", codes "f_test_1" ∷ []) ∷ [])))
    ≡ ok (units_of (codes "t.cpp") ((codes "regression", codes "f_test_1" ∷ []) ∷ []))
get_tests_lem_example =
    get_tests_lem (codes "t.cpp") (codes "Running main()")
      ((codes "regression", codes "f_test_1" ∷ []) ∷ []) first_no_nul first_no_end suites_plain
