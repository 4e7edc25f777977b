-- ===== src/Coverage/Lines.antt =====
-- `countLineCoverage` of server/src/coverage/LlvmCoverageTool.cpp: what becomes of the lines of ranges.
use utbot_cpp.Base.{
  ℕ, zero, suc, ◌+◌, ◌%◌, ◌<◌, ◌≤◌, Bool, true, false, not, ◌&&◌, ◌||◌, List, [], ◌∷◌, ◌≡◌, refl,
  ap, arith, ok, ltb, leb, ◌==◌, if◌then◌else◌, All, any, Bool-cases, inl, inr,
}
use utbot_cpp.Coverage.LineSet.{
  LineSet, contains_line, insert_line, IsSorted, contains_line-insert_line, insert_line-IsSorted,
  erase_line-IsSorted, contains_line-erase_line,
}
use utbot_cpp.Coverage.FileCoverage.{
  FileCoverage, empty_coverage, SourceRange, uint32_size, no_coverage_loop, full_coverage_loop,
  rounds, count_uncovered, check_line_for_partial, count_covered, uncovered_loop, covered_loop,
  count_line_coverage,
}

-- The line stands between the first and the last line of the range.
abbrev pub in_range : ℕ → SourceRange → Bool
in_range l range = leb range.start.line l && leb l range.end.line

-- The range ends where or behind where it starts, and not on the last number of a line.
abbrev pub IsProper : SourceRange → Type 0
IsProper range = (range.start.line ≤ range.end.line) × (range.end.line + 1 < uint32_size)

-- The loop returns with the lines of the range put.
no_coverage_loop_lem :
    (fuel i last : ℕ) (lines : LineSet)
    → last + 1 < uint32_size
    → 0 < fuel
    → last + 1 < i + fuel
    → (out : LineSet) × (no_coverage_loop fuel i last lines ≡ ok out)
      × ((j : ℕ) → contains_line out j ≡ (leb i j && leb j last || contains_line lines j))
      × (IsSorted lines → IsSorted out)
unfolding no_coverage_loop
no_coverage_loop_lem zero i last lines small some_fuel enough = absurd (omega arith)
no_coverage_loop_lem (suc fuel) i last lines small some_fuel enough =
    elim (Bool-cases (leb i last)) [
      | inr over ↦ (lines, rw over refl, λ j. ground arith, λ s. s)
      | inl more ↦
          let ih =
            no_coverage_loop_lem fuel ((i + 1) % uint32_size) last (insert_line i lines) small
              (ground arith) (ground arith) in
          (
            ih.0,
            rw more ih.1,
            λ j. ground (arith, ih.2 j, contains_line-insert_line i j lines),
            λ s. ih.3 (insert_line-IsSorted i lines s),
          )
    ]

full_coverage_loop_lem :
    (fuel i last : ℕ) (missed lines : LineSet)
    → last < uint32_size
    → 0 < fuel
    → last + 1 < i + fuel
    → (out : LineSet) × (full_coverage_loop fuel i last missed lines ≡ ok out)
      × ((j : ℕ)
          → contains_line out j
            ≡ (leb i j && ltb j last && not (contains_line missed j) || contains_line lines j))
unfolding full_coverage_loop
full_coverage_loop_lem zero i last missed lines small some_fuel enough = absurd (omega arith)
full_coverage_loop_lem (suc fuel) i last missed lines small some_fuel enough =
    elim (Bool-cases (ltb i last)) [
      | inr over ↦ (lines, rw over refl, λ j. ground arith)
      | inl more ↦
          let put : LineSet = if contains_line missed i then lines else insert_line i lines in
          let ih =
            full_coverage_loop_lem fuel ((i + 1) % uint32_size) last missed put small (ground arith)
              (ground arith) in
          (ih.0, rw more ih.1, λ j. ground (arith, ih.2 j, contains_line-insert_line i j lines))
    ]

abbrev is_border : ℕ → SourceRange → Bool
is_border l range = range.start.line == l || range.end.line == l

-- Uncovered ranges: their lines, and their borders.
uncovered_loop_lem :
    (ranges : List SourceRange) (f : FileCoverage)
    → All IsProper ranges
    → IsSorted f.no_coverage_lines
    → (g : FileCoverage) × (uncovered_loop ranges f ≡ ok g)
      × ((l : ℕ)
          → contains_line g.no_coverage_lines l
            ≡ (any (in_range l) ranges || contains_line f.no_coverage_lines l))
      × ((l : ℕ)
          → contains_line g.no_coverage_lines_borders l
            ≡ (any (is_border l) ranges || contains_line f.no_coverage_lines_borders l))
      × IsSorted g.no_coverage_lines
      × (g.full_coverage_lines ≡ f.full_coverage_lines)
      × (g.partial_coverage_lines ≡ f.partial_coverage_lines)
unfolding uncovered_loop count_uncovered
uncovered_loop_lem [] f proper sorted = (f, refl, λ l. refl, λ l. refl, sorted, refl, refl)
uncovered_loop_lem (range ∷ ranges) f (here, proper) sorted =
    let first = range.start.line in
    let last = range.end.line in
    let put =
      no_coverage_loop_lem (rounds last) first last f.no_coverage_lines here.1 (omega arith)
        (omega arith) in
    let borders = f.no_coverage_lines_borders in
    let g : FileCoverage = record f {
      no_coverage_lines_borders = insert_line last (insert_line first borders);
      no_coverage_lines = put.0;
    } in
    let ih = uncovered_loop_lem ranges g proper (put.3 sorted) in
    (
      ih.0,
      rw put.1 ih.1,
      λ l. ground (arith, ih.2 l, put.2 l),
      λ l. ground (
        arith,
        ih.3 l,
        contains_line-insert_line last l (insert_line first borders),
        contains_line-insert_line first l borders,
      ),
      ih.4,
      ih.5,
      ih.6,
    )

-- What holds while covered ranges are counted, for what the uncovered ranges hold.
record IsCounted (missed : ℕ → Bool) (f : FileCoverage) : Type 0 where
  sorted : IsSorted f.no_coverage_lines
  parted :
      (l : ℕ)
      → (contains_line f.no_coverage_lines l || contains_line f.partial_coverage_lines l) ≡ missed l
  apart :
      (l : ℕ)
      → (contains_line f.no_coverage_lines l && contains_line f.partial_coverage_lines l) ≡ false
  borders : (l : ℕ) → contains_line f.no_coverage_lines_borders l ≡ true → missed l ≡ true

check_line_for_partial-IsCounted :
    (missed : ℕ → Bool) (line : ℕ) (f : FileCoverage)
    → IsCounted missed f
    → IsCounted missed (check_line_for_partial line f)
      × ((l : ℕ)
          → (contains_line (check_line_for_partial line f).full_coverage_lines l || missed l)
            ≡ (line == l || contains_line f.full_coverage_lines l || missed l))
unfolding check_line_for_partial
check_line_for_partial-IsCounted missed line f h =
    elim (Bool-cases (contains_line f.no_coverage_lines_borders line)) [
      | inl border ↦ rw border (
        record {
          sorted = erase_line-IsSorted line f.no_coverage_lines h.sorted;
          parted = λ l. ground (
            arith,
            h.parted l,
            h.borders line border,
            contains_line-erase_line line l f.no_coverage_lines h.sorted,
            contains_line-insert_line line l f.partial_coverage_lines,
          );
          apart = λ l. ground (
            arith,
            h.apart l,
            contains_line-erase_line line l f.no_coverage_lines h.sorted,
            contains_line-insert_line line l f.partial_coverage_lines,
          );
          borders = h.borders;
        },
        λ l. ground (arith, h.borders line border),
      )
      | inr inside ↦ rw inside (
        record { sorted = h.sorted; parted = h.parted; apart = h.apart; borders = h.borders },
        λ l. ground (arith, contains_line-insert_line line l f.full_coverage_lines),
      )
    ]

count_covered-IsCounted :
    (missed : ℕ → Bool) (range : SourceRange) (f : FileCoverage)
    → IsProper range
    → IsCounted missed f
    → (g : FileCoverage) × (count_covered range f ≡ ok g)
      × IsCounted missed g
      × ((l : ℕ)
          → (contains_line g.full_coverage_lines l || missed l)
            ≡ (in_range l range || contains_line f.full_coverage_lines l || missed l))
unfolding count_covered
count_covered-IsCounted missed range f proper h =
    let first = range.start.line in
    let last = range.end.line in
    let once = check_line_for_partial first f in
    let checked = check_line_for_partial last once in
    let one = check_line_for_partial-IsCounted missed first f h in
    let two = check_line_for_partial-IsCounted missed last once one.0 in
    let put =
      full_coverage_loop_lem (rounds last) ((first + 1) % uint32_size) last
        checked.no_coverage_lines checked.full_coverage_lines (omega arith) (omega arith)
        (omega arith) in
    (
      record checked { full_coverage_lines = put.0 },
      rw put.1 refl,
      record {
        sorted = two.0.sorted;
        parted = two.0.parted;
        apart = two.0.apart;
        borders = two.0.borders;
      },
      λ l. ground (arith, put.2 l, one.1 l, two.1 l, two.0.parted l),
    )

covered_loop-IsCounted :
    (missed : ℕ → Bool) (ranges : List SourceRange) (f : FileCoverage)
    → All IsProper ranges
    → IsCounted missed f
    → (g : FileCoverage) × (covered_loop ranges f ≡ ok g)
      × IsCounted missed g
      × ((l : ℕ)
          → (contains_line g.full_coverage_lines l || missed l)
            ≡ (any (in_range l) ranges || contains_line f.full_coverage_lines l || missed l))
unfolding covered_loop
covered_loop-IsCounted missed [] f proper h = (f, refl, h, λ l. refl)
covered_loop-IsCounted missed (range ∷ ranges) f (here, proper) h =
    let step = count_covered-IsCounted missed range f here h in
    let ih = covered_loop-IsCounted missed ranges step.0 proper step.2 in
    (ih.0, rw step.1 ih.1, ih.2, λ l. ground (arith, ih.3 l, step.3 l))

border-in_range :
    (l : ℕ) (ranges : List SourceRange)
    → All IsProper ranges
    → any (is_border l) ranges ≡ true
    → any (in_range l) ranges ≡ true
border-in_range l [] proper e = cc
border-in_range l (range ∷ ranges) (here, proper) e =
    ground (arith, border-in_range l ranges proper)

-- Ranges of a file of which no line is counted yet.
abbrev pub with_ranges : List SourceRange → List SourceRange → FileCoverage
with_ranges covered uncovered = record empty_coverage {
  covered_ranges = covered;
  uncovered_ranges = uncovered;
}

-- Where no line of a file is counted yet and every range ends where or behind where it starts, and not on
-- the last number of a line, `countLineCoverage` returns. Then the lines of the uncovered ranges are those
-- with no coverage and those with partial coverage, and no line is both; and any other line has full
-- coverage exactly if a covered range holds it.
pub count_line_coverage_lem :
    (covered uncovered : List SourceRange)
    → All IsProper covered
    → All IsProper uncovered
    → (g : FileCoverage) × (count_line_coverage (with_ranges covered uncovered) ≡ ok g)
      × ((l : ℕ)
          → (contains_line g.no_coverage_lines l || contains_line g.partial_coverage_lines l)
            ≡ any (in_range l) uncovered)
      × ((l : ℕ)
          → (contains_line g.no_coverage_lines l && contains_line g.partial_coverage_lines l)
            ≡ false)
      × ((l : ℕ)
          → any (in_range l) uncovered ≡ false
          → contains_line g.full_coverage_lines l ≡ any (in_range l) covered)
unfolding count_line_coverage contains_line
count_line_coverage_lem covered uncovered proper_covered proper_uncovered =
    let missed = λ (l : ℕ). any (in_range l) uncovered in
    let first = uncovered_loop_lem uncovered (with_ranges covered uncovered) proper_uncovered tt in
    let counted : IsCounted missed first.0 = record {
      sorted = first.4;
      parted = λ l. rw first.6 (ground (arith, first.2 l));
      apart = λ l. rw first.6 (ground arith);
      borders = λ l e. border-in_range l uncovered proper_uncovered (ground (arith, first.3 l));
    } in
    let second = covered_loop-IsCounted missed covered first.0 proper_covered counted in
    (
      second.0,
      rw first.1 second.1,
      second.2.parted,
      second.2.apart,
      λ l outside. ground (arith, second.3 l, ap (λ (s : LineSet). contains_line s l) first.5),
    )
