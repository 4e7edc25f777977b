-- ===== src/Coverage/Gcov.antt =====
-- `GcovCoverageTool::getCoverageInfo` of server/src/coverage/GcovCoverageTool.cpp: what an exception in the
-- middle of a document leaves behind stays in the map.
use utbot_cpp.Base.{
  ℕ, ◌-◌, Bool, true, false, List, [], ◌∷◌, Option, none, some, Text, ◌==◌, if◌then◌else◌,
  lookup_text,
}
use utbot_cpp.Values.Bytes.{ℤ}
use utbot_cpp.Coverage.LineSet.{insert_line}
use utbot_cpp.Coverage.FileCoverage.{FileCoverage, empty_coverage}
use utbot_cpp.Coverage.Tools.{CoverageMap, change_entry, is_gtest, to_uint32, is_positive_int}

-- `none` is a key that is missing.
pub record LineJson : Type 0 where
  pub line_number : Option ℤ
  pub count : Option ℤ

pub record FunctionJson : Type 0 where
  pub start_line : Option ℤ
  pub end_line : Option ℤ
  pub execution_count : Option ℤ

pub record FileJson : Type 0 where
  pub file : Option Text
  pub lines : Option (List LineJson)
  pub functions : Option (List FunctionJson)

-- An exception, or the end of the process by `assert`.
pub data Outcome : Type 0 where
  done thrown aborted : Outcome

-- The state with what ended the code.
abbrev pub Run : Type 0 → Type 0
Run S = S × Outcome

abbrev pub and_then : {S : Type 0} → Run S → (S → Run S) → Run S
and_then (s, done) f = f s
and_then (s, thrown) f = (s, thrown)
and_then (s, aborted) f = (s, aborted)

unfoldable pub add_line : ℕ → Bool → FileCoverage → Run FileCoverage
add_line line_number covered f =
    if line_number == 0
    then (f, aborted)
    else if covered
    then (
      record f { full_coverage_lines = insert_line (line_number - 1) f.full_coverage_lines },
      done,
    )
    else (record f { no_coverage_lines = insert_line (line_number - 1) f.no_coverage_lines }, done)

unfoldable pub set_line_number : LineJson → FileCoverage → Run FileCoverage
unfolding add_line to_uint32
set_line_number line f = elim line.line_number [
  | none ↦ (f, thrown)
  | some number ↦ elim line.count [
    | none ↦ (f, thrown)
    | some count ↦ add_line (to_uint32 number) (is_positive_int count) f
  ]
]

unfoldable pub lines_loop : List LineJson → FileCoverage → Run FileCoverage
unfolding set_line_number
lines_loop [] f = (f, done)
lines_loop (line ∷ lines) f = and_then (set_line_number line f) (λ g. lines_loop lines g)

unfoldable pub set_line_numbers : FileJson → FileCoverage → Run FileCoverage
unfolding lines_loop
set_line_numbers file f = elim file.lines [ none ↦ (f, thrown) | some lines ↦ lines_loop lines f ]

unfoldable pub set_function_border : FunctionJson → FileCoverage → Run FileCoverage
unfolding add_line to_uint32
set_function_border function f = elim function.start_line [
  | none ↦ (f, thrown)
  | some start ↦ elim function.end_line [
    | none ↦ (f, thrown)
    | some last ↦ elim function.execution_count [
      | none ↦ (f, thrown)
      | some count ↦
          and_then (add_line (to_uint32 start) (is_positive_int count) f)
            (add_line (to_uint32 last) (is_positive_int count))
    ]
  ]
]

unfoldable pub functions_loop : List FunctionJson → FileCoverage → Run FileCoverage
unfolding set_function_border
functions_loop [] f = (f, done)
functions_loop (function ∷ functions) f =
    and_then (set_function_border function f) (λ g. functions_loop functions g)

unfoldable pub set_function_borders : FileJson → FileCoverage → Run FileCoverage
unfolding functions_loop
set_function_borders file f = elim file.functions [
  | none ↦ (f, thrown)
  | some functions ↦ functions_loop functions f
]

-- Both passes over one file.
unfoldable pub set_file : FileJson → FileCoverage → Run FileCoverage
unfolding set_line_numbers set_function_borders
set_file file f = and_then (set_line_numbers file f) (set_function_borders file)

abbrev pub state_of : Run FileCoverage → FileCoverage
state_of (f, o) = f

abbrev pub outcome_of : Run FileCoverage → Outcome
outcome_of (f, o) = o

abbrev entry_of : Text → CoverageMap → FileCoverage
entry_of file m = elim (lookup_text file m) [ none ↦ empty_coverage | some f ↦ f ]

module _ (path_of : Text → Text) where
  -- The files of one document.
  unfoldable pub files_loop : List FileJson → CoverageMap → Run CoverageMap
  unfolding set_file change_entry is_gtest lookup_text
  files_loop [] m = (m, done)
  files_loop (file ∷ files) m = elim file.file [
    | none ↦ (m, thrown)
    | some name ↦ elim (is_gtest (path_of name)) [
      | true ↦ files_loop files m
      | false ↦
          let r = set_file file (entry_of (path_of name) m) in
          and_then (change_entry (path_of name) (λ _. state_of r) m, outcome_of r)
            (λ n. files_loop files n)
    ]
  ]

  -- What the lambda catches ends the document and no more; `none` is the end of the process.
  abbrev after_document : Run CoverageMap → (CoverageMap → Option CoverageMap) → Option CoverageMap
  after_document (m, done) f = f m
  after_document (m, thrown) f = f m
  after_document (m, aborted) f = none

  -- A document that cannot be read is `none`.
  unfoldable pub get_gcov_coverage_info :
      List (Option (List FileJson)) → CoverageMap → Option CoverageMap
  unfolding files_loop
  get_gcov_coverage_info [] m = some m
  get_gcov_coverage_info (none ∷ documents) m = get_gcov_coverage_info documents m
  get_gcov_coverage_info (some files ∷ documents) m =
      after_document (files_loop files m) (λ n. get_gcov_coverage_info documents n)
