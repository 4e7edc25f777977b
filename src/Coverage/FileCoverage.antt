-- ===== src/Coverage/FileCoverage.antt =====
-- `FileCoverage` of server/src/coverage/Coverage.h, and `countLineCoverage` and `checkLineForPartial` of
-- LlvmCoverageTool.cpp: from ranges of a source file to its lines.
use utbot_cpp.Base.{
  ℕ, zero, suc, ◌+◌, ◌%◌, ◌^◌, List, [], ◌∷◌, Result, ok, err, ◌>>=◌, ltb, leb, if◌then◌else◌,
}
use utbot_cpp.Coverage.LineSet.{LineSet, contains_line, insert_line, erase_line}

pub record SourcePosition : Type 0 where
  pub line : ℕ
  pub character : ℕ

pub record SourceRange : Type 0 where
  pub start : SourcePosition
  pub end : SourcePosition

pub record FileCoverage : Type 0 where
  pub covered_ranges : List SourceRange
  pub uncovered_ranges : List SourceRange
  pub full_coverage_lines : LineSet
  pub partial_coverage_lines : LineSet
  pub no_coverage_lines : LineSet
  pub no_coverage_lines_borders : LineSet

abbrev pub empty_coverage : FileCoverage
empty_coverage = record {
  covered_ranges = [];
  uncovered_ranges = [];
  full_coverage_lines = [];
  partial_coverage_lines = [];
  no_coverage_lines = [];
  no_coverage_lines_borders = [];
}

-- A line is a `uint32_t`.
abbrev pub uint32_size : ℕ
uint32_size = 2 ^ 32

-- Any exception that a malformed document leads to, and a loop that does not end.
pub data CoverageError : Type 0 where
  malformed does_not_return : CoverageError

-- `for (i = first; i <= last; i++)`, whose counter wraps around.
unfoldable pub no_coverage_loop : ℕ → ℕ → ℕ → LineSet → Result CoverageError LineSet
no_coverage_loop zero i last lines = err does_not_return
no_coverage_loop (suc fuel) i last lines =
    let rest = no_coverage_loop fuel ((i + 1) % uint32_size) last (insert_line i lines) in
    if leb i last then rest else ok lines

-- `for (i = first; i < last; i++)`: a line is put only where it is not uncovered.
unfoldable pub full_coverage_loop : ℕ → ℕ → ℕ → LineSet → LineSet → Result CoverageError LineSet
full_coverage_loop zero i last missed lines = err does_not_return
full_coverage_loop (suc fuel) i last missed lines =
    let put : LineSet = if contains_line missed i then lines else insert_line i lines in
    let rest = full_coverage_loop fuel ((i + 1) % uint32_size) last missed put in
    if ltb i last then rest else ok lines

-- More rounds than the loops make, where their counter does not wrap around.
abbrev pub rounds : ℕ → ℕ
rounds last = last + 2

unfoldable pub count_uncovered : SourceRange → FileCoverage → Result CoverageError FileCoverage
unfolding no_coverage_loop
count_uncovered range f = do
  let first = range.start.line
  let last = range.end.line
  lines ← no_coverage_loop (rounds last) first last f.no_coverage_lines
  ok (record f {
    no_coverage_lines_borders = insert_line last (insert_line first f.no_coverage_lines_borders);
    no_coverage_lines = lines;
  })

unfoldable pub check_line_for_partial : ℕ → FileCoverage → FileCoverage
check_line_for_partial line f =
    if contains_line f.no_coverage_lines_borders line
    then record f {
      partial_coverage_lines = insert_line line f.partial_coverage_lines;
      no_coverage_lines = erase_line line f.no_coverage_lines;
    }
    else record f { full_coverage_lines = insert_line line f.full_coverage_lines }

unfoldable pub count_covered : SourceRange → FileCoverage → Result CoverageError FileCoverage
unfolding check_line_for_partial full_coverage_loop
count_covered range f = do
  let checked = check_line_for_partial range.end.line (check_line_for_partial range.start.line f)
  let first = (range.start.line + 1) % uint32_size
  let last = range.end.line
  lines ←
      full_coverage_loop (rounds last) first last checked.no_coverage_lines
        checked.full_coverage_lines
  ok (record checked { full_coverage_lines = lines })

unfoldable pub uncovered_loop : List SourceRange → FileCoverage → Result CoverageError FileCoverage
unfolding count_uncovered
uncovered_loop [] f = ok f
uncovered_loop (range ∷ ranges) f = do g ← count_uncovered range f; uncovered_loop ranges g

unfoldable pub covered_loop : List SourceRange → FileCoverage → Result CoverageError FileCoverage
unfolding count_covered
covered_loop [] f = ok f
covered_loop (range ∷ ranges) f = do g ← count_covered range f; covered_loop ranges g

-- `countLineCoverage`, for the entry of one file.
unfoldable pub count_line_coverage : FileCoverage → Result CoverageError FileCoverage
unfolding uncovered_loop covered_loop
count_line_coverage f = do g ← uncovered_loop f.uncovered_ranges f; covered_loop f.covered_ranges g
