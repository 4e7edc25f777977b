-- ===== src/Coverage/TestNames.antt =====
-- `getTestsFromMakefile` of server/src/coverage/TestRunner.cpp reads what gtest prints; the map of results.
use utbot_cpp.Base.{
  ℕ, true, false, ◌&&◌, List, [], ◌∷◌, ◌++◌, ◌≡◌, ◌≢◌, refl, sym, ap, ◌∙◌, arith, map, some, Text,
  ok, if◌then◌else◌, All, All-append, text_eq, text_eq_iff,
}
use utbot_cpp.Strings.Split.{split, Lacks, ended, split-ended}
use utbot_cpp.Strings.Trim.{trim, is_space, IsSolid, trim-IsSolid}
use utbot_cpp.Types.Names.{back_is, pop_back}
use utbot_cpp.Coverage.TestList.{
  UnitTest, tests_loop, parse_tests, get_tests, TestStatus, put_status, status_of,
}

-- A name without spaces and NUL.
abbrev pub IsPlain : Text → Type 0
IsPlain s = IsSolid s × Lacks 0 s

-- A test's name: not empty, and without a dot at its end.
abbrev pub IsTestName : Text → Type 0
IsTestName s = IsPlain s × (s ≢ []) × (back_is b'.' s ≡ false)

-- A suite with the names of its tests, as `--gtest_list_tests` prints it.
abbrev pub suite_lines : Text × List Text → List Text
suite_lines (suite, tests) = (suite ++ b'.' ∷ []) ∷ map (λ (t : Text). 32 ∷ 32 ∷ t) tests

abbrev pub list_lines : List (Text × List Text) → List Text
list_lines [] = []
list_lines (suite ∷ suites) = suite_lines suite ++ list_lines suites

abbrev pub units_of : Text → List (Text × List Text) → List UnitTest
units_of file [] = []
units_of file ((suite, tests) ∷ suites) =
    map (λ (t : Text). record { test_file_path = file; suitename = suite; testname = t }) tests
    ++ units_of file suites

abbrev pub IsSuite : Text × List Text → Type 0
IsSuite (suite, tests) = IsPlain suite × All IsTestName tests

back_is-snoc : (b : ℕ) (s : Text) → back_is b (s ++ b ∷ []) ≡ true
back_is-snoc b [] = ground arith
back_is-snoc b (c ∷ []) = ground arith
back_is-snoc b (c ∷ d ∷ s) = back_is-snoc b (d ∷ s)

pop_back-snoc : (b : ℕ) (s : Text) → pop_back (s ++ b ∷ []) ≡ s
pop_back-snoc b [] = refl
pop_back-snoc b (c ∷ []) = refl
pop_back-snoc b (c ∷ d ∷ s) = ap (λ r. c ∷ r) (pop_back-snoc b (d ∷ s))

-- A suite's line.
tests_loop_suite :
    (file old suite : Text) (lines : List Text)
    → tests_loop file old ((suite ++ b'.' ∷ []) ∷ lines) ≡ tests_loop file suite lines
unfolding tests_loop
tests_loop_suite file old [] lines = refl
tests_loop_suite file old (c ∷ s) lines =
    rw (back_is-snoc b'.' (c ∷ s), tests_loop)
      (ap (λ r. tests_loop file r lines) (pop_back-snoc b'.' (c ∷ s)))

-- The lines of a suite's tests, behind which others come.
tests_loop-append :
    (file suite : Text) (tests lines : List Text) (units : List UnitTest)
    → All IsTestName tests
    → tests_loop file suite lines ≡ ok units
    → tests_loop file suite (tests ++ lines)
      ≡ ok (
          map
            (λ (t : Text). record { test_file_path = file; suitename = suite; testname = t })
            tests
          ++ units)
unfolding tests_loop
tests_loop-append file suite [] lines units h e = e
tests_loop-append file suite ([] ∷ tests) lines units (here, h) e = absurd (here.1 refl)
tests_loop-append file suite ((c ∷ s) ∷ tests) lines units (here, h) e =
    rw (here.2, tests_loop) (rw (tests_loop-append file suite tests lines units h e) refl)

trimmed : List (Text × List Text) → List Text
trimmed [] = []
trimmed ((suite, tests) ∷ suites) = (suite ++ b'.' ∷ []) ∷ (tests ++ trimmed suites)

trim-suite : (suite : Text) → IsPlain suite → trim (suite ++ b'.' ∷ []) ≡ suite ++ b'.' ∷ []
trim-suite suite h =
    trim-IsSolid [] (suite ++ b'.' ∷ []) tt
      (All-append (λ c. is_space c ≡ false) suite (b'.' ∷ []) h.0 (unfold is_space in (refl, tt)))

map-trim-tests :
    (tests rest : List Text)
    → All IsTestName tests
    → map trim (map (λ (t : Text). 32 ∷ 32 ∷ t) tests ++ rest) ≡ tests ++ map trim rest
map-trim-tests [] rest h = refl
map-trim-tests (t ∷ tests) rest (here, h) =
    rw (trim-IsSolid (32 ∷ 32 ∷ []) t (unfold is_space in (refl, (refl, tt))) here.0.0)
      (ap (λ r. t ∷ r) (map-trim-tests tests rest h))

map-trim-list_lines :
    (suites : List (Text × List Text))
    → All IsSuite suites
    → map trim (list_lines suites) ≡ trimmed suites
unfolding trimmed
map-trim-list_lines [] h = refl
map-trim-list_lines ((suite, tests) ∷ suites) (here, h) = rw (trim-suite suite here.0) (
    ap (λ r. (suite ++ b'.' ∷ []) ∷ r)
      (map-trim-tests tests (list_lines suites) here.1
        ∙ ap (λ r. tests ++ r) (map-trim-list_lines suites h)))

tests_loop-trimmed :
    (file old : Text) (suites : List (Text × List Text))
    → All IsSuite suites
    → tests_loop file old (trimmed suites) ≡ ok (units_of file suites)
unfolding trimmed
tests_loop-trimmed file old [] h = unfold tests_loop in refl
tests_loop-trimmed file old ((suite, tests) ∷ suites) (here, h) =
    tests_loop_suite file old suite (tests ++ trimmed suites)
    ∙ tests_loop-append file suite tests (trimmed suites) (units_of file suites) here.1
        (tests_loop-trimmed file suite suites h)

IsSolid-Lacks : (s : Text) → IsSolid s → Lacks 10 s
unfolding is_space
IsSolid-Lacks [] h = tt
IsSolid-Lacks (c ∷ s) (here, h) = (ground arith, IsSolid-Lacks s h)

tests-Lacks :
    (b : ℕ) (tests : List Text)
    → b ≢ 32
    → ((s : Text) → IsPlain s → Lacks b s)
    → All IsTestName tests
    → All (Lacks b) (map (λ (t : Text). 32 ∷ 32 ∷ t) tests)
tests-Lacks b [] space rule h = tt
tests-Lacks b (t ∷ tests) space rule (here, h) =
    ((λ e. space (sym e), (λ e. space (sym e), rule t here.0)), tests-Lacks b tests space rule h)

list_lines-Lacks :
    (b : ℕ) (suites : List (Text × List Text))
    → b ≢ 32
    → b ≢ b'.'
    → ((s : Text) → IsPlain s → Lacks b s)
    → All IsSuite suites
    → All (Lacks b) (list_lines suites)
list_lines-Lacks b [] space dot rule h = tt
list_lines-Lacks b ((suite, tests) ∷ suites) space dot rule (here, h) = (
  All-append (λ c. c ≢ b) suite (b'.' ∷ []) (rule suite here.0) (λ e. dot (sym e), tt),
  All-append (Lacks b) (map (λ (t : Text). 32 ∷ 32 ∷ t) tests) (list_lines suites)
      (tests-Lacks b tests space rule here.1) (list_lines-Lacks b suites space dot rule h),
)

get_tests_nonempty :
    (file s t : Text) → get_tests file (s ++ 10 ∷ t) ≡ parse_tests file (split (s ++ 10 ∷ t) 10)
unfolding get_tests
get_tests_nonempty file [] t = refl
get_tests_nonempty file (c ∷ s) t = refl

parse_tests_cons :
    (file first : Text) (lines : List Text)
    → parse_tests file (first ∷ lines) ≡ tests_loop file [] (map trim lines)
unfolding parse_tests
parse_tests_cons file first lines = refl

-- Reading what gtest prints gives back its tests: behind a first line, a line with a dot at its end for each
-- suite, and two spaces and the name for each test, where names hold no white space and no NUL, and those
-- of tests are not empty and do not end in a dot.
pub get_tests_lem :
    (file first : Text) (suites : List (Text × List Text))
    → Lacks 0 first
    → Lacks 10 first
    → All IsSuite suites
    → get_tests file (ended 10 (first ∷ list_lines suites)) ≡ ok (units_of file suites)
get_tests_lem file first suites no_nul no_end h =
    let lines = first ∷ list_lines suites in
    let parts : split (ended 10 lines) 10 ≡ lines =
      split-ended 10 lines (ground arith)
        (
          no_end,
          list_lines-Lacks 10 suites (ground arith) (ground arith) (λ s p. IsSolid-Lacks s p.0) h,
        )
        (no_nul, list_lines-Lacks 0 suites (ground arith) (ground arith) (λ s p. p.1) h) in
    get_tests_nonempty file first (ended 10 (list_lines suites))
    ∙ ap (parse_tests file) parts
    ∙ parse_tests_cons file first (list_lines suites)
    ∙ ap (tests_loop file []) (map-trim-list_lines suites h)
    ∙ tests_loop-trimmed file [] suites h

-- After a status is put for a test, the map answers with it for that test, and as before for any other.
pub status_of-put_status :
    (file name f n : Text) (status : TestStatus) (m : List ((Text × Text) × TestStatus))
    → status_of f n (put_status file name status m)
      ≡ (if text_eq file f && text_eq name n then some status else status_of f n m)
unfolding status_of put_status
status_of-put_status file name f n status [] = refl
status_of-put_status file name f n status (((g, k), old) ∷ m) = ground (
  arith,
  status_of-put_status file name f n status m,
  text_eq_iff g file,
  text_eq_iff k name,
  text_eq_iff g f,
  text_eq_iff k n,
  text_eq_iff file f,
  text_eq_iff name n,
)
