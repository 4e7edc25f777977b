-- ===== src/Coverage/TestList.antt =====
-- `TestRunner` of server/src/coverage/TestRunner.cpp: the tests that a run of gtest lists, and the status
-- of a test that was run.
use utbot_cpp.Base.{
  ℕ, Bool, true, false, List, [], ◌∷◌, map, Option, none, some, Text, Result, ok, err, ◌>>=◌, ◌==◌,
  ◌+◌, ◌&&◌, text_eq, if◌then◌else◌,
}
use utbot_cpp.Strings.Split.{split}
use utbot_cpp.Strings.Trim.{trim}
use utbot_cpp.Types.Names.{back_is, pop_back}

pub record UnitTest : Type 0 where
  pub test_file_path : Text
  pub suitename : Text
  pub testname : Text

-- The last byte of an empty line, or the first line of none, is undefined behaviour.
pub data ListError : Type 0 where
  undefined_behaviour : ListError

-- A line with a dot at its end opens a suite; any other is a test of the suite.
unfoldable pub tests_loop : Text → Text → List Text → Result ListError (List UnitTest)
tests_loop file suite [] = ok []
tests_loop file suite ([] ∷ lines) = err undefined_behaviour
tests_loop file suite ((c ∷ s) ∷ lines) = elim (back_is b'.' (c ∷ s)) [
  | true ↦ tests_loop file (pop_back (c ∷ s)) lines
  | false ↦ do
    rest ← tests_loop file suite lines
    ok (record { test_file_path = file; suitename = suite; testname = c ∷ s } ∷ rest)
]

-- The first line says where `main` stands.
unfoldable pub parse_tests : Text → List Text → Result ListError (List UnitTest)
unfolding tests_loop trim
parse_tests file [] = err undefined_behaviour
parse_tests file (first ∷ lines) = tests_loop file [] (map trim lines)

-- `getTestsFromMakefile`, for the output of a command that has succeeded.
unfoldable pub get_tests : Text → Text → Result ListError (List UnitTest)
unfolding parse_tests split
get_tests file out = elim out [ [] ↦ ok [] | c ∷ s ↦ parse_tests file (split (c ∷ s) 10) ]

pub data TestStatus : Type 0 where
  test_passed test_failed test_death test_interrupted : TestStatus

-- What `runTest` finds behind the run: an interrupt, no results, results that cannot be read, or results
-- with a number of failures.
pub data RunResult : Type 0 where
  was_interrupted no_results unreadable_results : RunResult
  results : (failures : ℕ) → RunResult

unfoldable pub test_status : RunResult → TestStatus
test_status was_interrupted = test_interrupted
test_status no_results = test_death
test_status unreadable_results = test_failed
test_status (results failures) = if failures == 0 then test_passed else test_failed

-- What comes out of one run: a status, or an `ExecutionProcessException`; and whether the request was
-- cancelled behind it.
pub data RunOutcome : Type 0 where
  finished : (result : RunResult) (cancelled : Bool) → RunOutcome
  failed : RunOutcome

pub record Results : Type 0 where
  pub statuses : List ((Text × Text) × TestStatus)
  pub exceptions : ℕ

-- `testResultMap[file][name] = status`.
unfoldable pub put_status :
    Text → Text → TestStatus → List ((Text × Text) × TestStatus) → List ((Text × Text) × TestStatus)
put_status file name status [] = ((file, name), status) ∷ []
put_status file name status (((f, n), old) ∷ m) =
    if text_eq f file && text_eq n name
    then ((f, n), status) ∷ m
    else ((f, n), old) ∷ put_status file name status m

unfoldable pub status_of : Text → Text → List ((Text × Text) × TestStatus) → Option TestStatus
status_of file name [] = none
status_of file name (((f, n), status) ∷ m) =
    if text_eq f file && text_eq n name then some status else status_of file name m

abbrev put_result : UnitTest → TestStatus → Results → Results
put_result test status r = record r {
  statuses = put_status test.test_file_path test.testname status r.statuses;
}

-- The rounds of `runTests`; `none` is the `CancellationException`, which is not caught here.
unfoldable pub run_tests : List (UnitTest × RunOutcome) → Results → Option Results
unfolding test_status put_status
run_tests [] r = some r
run_tests ((test, finished result true) ∷ runs) r = none
run_tests ((test, finished result false) ∷ runs) r =
    run_tests runs (put_result test (test_status result) r)
run_tests ((test, failed) ∷ runs) r =
    let put = put_result test test_failed r in
    run_tests runs (record put { exceptions = put.exceptions + 1 })
