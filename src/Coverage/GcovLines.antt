-- ===== src/Coverage/GcovLines.antt =====
-- `setLineNumbers` and `setFunctionBorders` of server/src/coverage/GcovCoverageTool.cpp: which lines they put.
use utbot_cpp.Base.{
  ℕ, ◌+◌, ◌-◌, ◌<◌, Bool, true, false, not, ◌&&◌, ◌||◌, List, [], ◌∷◌, ◌++◌, ◌≡◌, refl, arith,
  Option, some, ◌==◌, map, Text, any, All,
}
use utbot_cpp.Values.Bytes.{ℤ}
use utbot_cpp.Coverage.LineSet.{contains_line, insert_line, contains_line-insert_line}
use utbot_cpp.Coverage.FileCoverage.{FileCoverage}
use utbot_cpp.Coverage.Tools.{to_uint32, is_positive_int}
use utbot_cpp.Coverage.Gcov.{
  LineJson, FunctionJson, FileJson, done, Run, and_then, add_line, lines_loop, set_line_number,
  set_line_numbers, set_function_border, functions_loop, set_function_borders, set_file,
}

-- A line with whether it was run; it is numbered from 1.
abbrev pub Mark : Type 0
Mark = ℕ × Bool

abbrev pub IsNumbered : Mark → Type 0
IsNumbered mark = 0 < mark.0

abbrev pub hit : ℕ → Mark → Bool
hit l mark = mark.1 && mark.0 == l + 1

abbrev pub missed : ℕ → Mark → Bool
missed l mark = not mark.1 && mark.0 == l + 1

-- The run ends as it should, with the marked lines put.
abbrev pub Puts : List Mark → FileCoverage → Run FileCoverage → Type 0
Puts marks f r =
    (g : FileCoverage) × (r ≡ (g, done))
    × ((l : ℕ)
        → contains_line g.full_coverage_lines l
          ≡ (any (hit l) marks || contains_line f.full_coverage_lines l))
    × ((l : ℕ)
        → contains_line g.no_coverage_lines l
          ≡ (any (missed l) marks || contains_line f.no_coverage_lines l))

add_line-Puts :
    (n : ℕ) (covered : Bool) (f : FileCoverage)
    → 0 < n
    → Puts ((n, covered) ∷ []) f (add_line n covered f)
unfolding add_line
add_line-Puts n true f h = (
  record f { full_coverage_lines = insert_line (n - 1) f.full_coverage_lines },
  ground arith,
  λ l. ground (arith, contains_line-insert_line (n - 1) l f.full_coverage_lines),
  λ l. ground arith,
)
add_line-Puts n false f h = (
  record f { no_coverage_lines = insert_line (n - 1) f.no_coverage_lines },
  ground arith,
  λ l. ground arith,
  λ l. ground (arith, contains_line-insert_line (n - 1) l f.no_coverage_lines),
)

any-append {ℓ} :
    {A : Type ℓ} (p : A → Bool) (xs ys : List A) → any p (xs ++ ys) ≡ (any p xs || any p ys)
any-append p [] ys = refl
any-append p (x ∷ xs) ys = ground (arith, any-append p xs ys)

-- One run behind another.
and_then-Puts :
    (before behind : List Mark) (f : FileCoverage) (r : Run FileCoverage)
    (next : FileCoverage → Run FileCoverage)
    → Puts before f r
    → ((g : FileCoverage) → Puts behind g (next g))
    → Puts (before ++ behind) f (and_then r next)
and_then-Puts before behind f r next h k =
    let second = k h.0 in
    (
      second.0,
      rw h.1 second.1,
      λ l. ground (arith, h.2 l, second.2 l, any-append (hit l) before behind),
      λ l. ground (arith, h.3 l, second.3 l, any-append (missed l) before behind),
    )

-- A document of `gcov` with all its keys, from pairs of a line and a count and from functions with their
-- first line, last line and count.
abbrev pub line_json : ℤ × ℤ → LineJson
line_json (number, count) = record { line_number = some number; count = some count }

abbrev pub function_json : ℤ × ℤ × ℤ → FunctionJson
function_json (start, last, count) = record {
  start_line = some start;
  end_line = some last;
  execution_count = some count;
}

abbrev pub file_json : Option Text → List (ℤ × ℤ) → List (ℤ × ℤ × ℤ) → FileJson
file_json file lines functions = record {
  file = file;
  lines = some (map line_json lines);
  functions = some (map function_json functions);
}

abbrev pub line_marks : List (ℤ × ℤ) → List Mark
line_marks [] = []
line_marks ((number, count) ∷ lines) = (to_uint32 number, is_positive_int count) ∷ line_marks lines

abbrev pub function_marks : List (ℤ × ℤ × ℤ) → List Mark
function_marks [] = []
function_marks ((start, last, count) ∷ functions) =
    (to_uint32 start, is_positive_int count)
    ∷ (to_uint32 last, is_positive_int count)
    ∷ function_marks functions

lines_loop-Puts :
    (lines : List (ℤ × ℤ)) (f : FileCoverage)
    → All IsNumbered (line_marks lines)
    → Puts (line_marks lines) f (lines_loop (map line_json lines) f)
unfolding lines_loop set_line_number
lines_loop-Puts [] f h = (f, refl, λ l. refl, λ l. refl)
lines_loop-Puts ((number, count) ∷ lines) f (here, h) =
    and_then-Puts ((to_uint32 number, is_positive_int count) ∷ []) (line_marks lines) f _ _
      (add_line-Puts (to_uint32 number) (is_positive_int count) f here)
      (λ g. lines_loop-Puts lines g h)

functions_loop-Puts :
    (functions : List (ℤ × ℤ × ℤ)) (f : FileCoverage)
    → All IsNumbered (function_marks functions)
    → Puts (function_marks functions) f (functions_loop (map function_json functions) f)
unfolding functions_loop set_function_border
functions_loop-Puts [] f h = (f, refl, λ l. refl, λ l. refl)
functions_loop-Puts ((start, last, count) ∷ functions) f (here, (there, h)) =
    let run = is_positive_int count in
    and_then-Puts ((to_uint32 start, run) ∷ (to_uint32 last, run) ∷ []) (function_marks functions) f
      _ _
      (and_then-Puts ((to_uint32 start, run) ∷ []) ((to_uint32 last, run) ∷ []) f _ _
        (add_line-Puts (to_uint32 start) run f here)
        (λ g. add_line-Puts (to_uint32 last) run g there))
      (λ g. functions_loop-Puts functions g h)

-- For a file of a document that has all its keys and numbers its lines from 1, both passes end without an
-- exception. They add to the covered lines those that an entry or the border of a function with a positive
-- count names, and to the lines with no coverage those that one with any other count names: a line can be
-- both.
pub set_file_lem :
    (file : Option Text) (lines : List (ℤ × ℤ)) (functions : List (ℤ × ℤ × ℤ)) (f : FileCoverage)
    → All IsNumbered (line_marks lines)
    → All IsNumbered (function_marks functions)
    → Puts
        (line_marks lines ++ function_marks functions)
        f
        (set_file (file_json file lines functions) f)
unfolding set_file set_line_numbers set_function_borders
set_file_lem file lines functions f h k =
    and_then-Puts (line_marks lines) (function_marks functions) f _ _ (lines_loop-Puts lines f h)
      (λ g. functions_loop-Puts functions g k)
