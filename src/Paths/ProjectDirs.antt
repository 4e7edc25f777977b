-- ===== src/Paths/ProjectDirs.antt =====
-- server/src/ProjectContext.cpp, and the directories of a project in server/src/Paths.h and Paths.cpp.
use utbot_cpp.Base.{Bool, not, Text, codes}
use utbot_cpp.Strings.Affixes.{is_empty}
use utbot_cpp.Paths.FilePath.{FilePath, path_string, stem, append_path, append_name}
use utbot_cpp.Paths.FileNames.{add_extension}

pub record ProjectContext : Type 0 where
  pub project_name : Text
  pub project_path : FilePath
  pub client_project_path : FilePath
  pub test_dir_rel_path : FilePath
  pub report_dir_rel_path : FilePath
  pub build_dir_rel_path : FilePath
  pub itf_rel_path : FilePath

unfoldable pub get_test_dir_abs_path : ProjectContext → FilePath
unfolding append_path
get_test_dir_abs_path ctx = append_path ctx.project_path ctx.test_dir_rel_path

unfoldable pub get_report_dir_abs_path : ProjectContext → FilePath
unfolding append_path
get_report_dir_abs_path ctx = append_path ctx.project_path ctx.report_dir_rel_path

unfoldable pub get_build_dir_abs_path : ProjectContext → FilePath
unfolding append_path
get_build_dir_abs_path ctx = append_path ctx.project_path ctx.build_dir_rel_path

unfoldable pub has_itf_path : ProjectContext → Bool
unfolding path_string
has_itf_path ctx = not (is_empty (path_string ctx.itf_rel_path))

unfoldable pub get_itf_abs_path : ProjectContext → FilePath
unfolding append_path
get_itf_abs_path ctx = append_path ctx.project_path ctx.itf_rel_path

-- Directories of the project.
unfoldable pub get_utbot_files : ProjectContext → FilePath
unfolding append_name get_build_dir_abs_path
get_utbot_files ctx = append_name (get_build_dir_abs_path ctx) (codes "utbot_files")

unfoldable pub get_utbot_build_dir : ProjectContext → FilePath
unfolding append_name get_utbot_files
get_utbot_build_dir ctx = append_name (get_utbot_files ctx) (codes "utbot_build")

unfoldable pub get_klee_out_dir : ProjectContext → FilePath
unfolding append_name get_utbot_files
get_klee_out_dir ctx = append_name (get_utbot_files ctx) (codes "klee_out")

unfoldable pub get_artifacts_root_dir : ProjectContext → FilePath
unfolding append_name get_build_dir_abs_path
get_artifacts_root_dir ctx = append_name (get_build_dir_abs_path ctx) (codes "utbot")

unfoldable pub get_gtest_results_json_path : ProjectContext → FilePath
unfolding append_name get_artifacts_root_dir
get_gtest_results_json_path ctx =
    append_name (get_artifacts_root_dir ctx) (codes "gtest-results.json")

unfoldable pub get_flags_dir : ProjectContext → FilePath
unfolding append_name get_artifacts_root_dir
get_flags_dir ctx = append_name (get_artifacts_root_dir ctx) (codes "flags")

unfoldable pub get_test_exec_dir : ProjectContext → FilePath
unfolding append_name get_artifacts_root_dir
get_test_exec_dir ctx = append_name (get_artifacts_root_dir ctx) (codes "tests")

unfoldable pub get_recompiled_dir : ProjectContext → FilePath
unfolding append_name get_utbot_build_dir
get_recompiled_dir ctx = append_name (get_utbot_build_dir ctx) (codes "recompiled")

unfoldable pub get_test_object_dir : ProjectContext → FilePath
unfolding append_name get_utbot_build_dir
get_test_object_dir ctx = append_name (get_utbot_build_dir ctx) (codes "test_objects")

unfoldable pub get_coverage_dir : ProjectContext → FilePath
unfolding append_name get_utbot_build_dir
get_coverage_dir ctx = append_name (get_utbot_build_dir ctx) (codes "coverage")

unfoldable pub get_clang_coverage_dir : ProjectContext → FilePath
unfolding append_name get_coverage_dir
get_clang_coverage_dir ctx = append_name (get_coverage_dir ctx) (codes "lcov")

unfoldable pub get_gcc_coverage_dir : ProjectContext → FilePath
unfolding append_name get_coverage_dir
get_gcc_coverage_dir ctx = append_name (get_coverage_dir ctx) (codes "gcov")

unfoldable pub get_test_executable : ProjectContext → FilePath → FilePath
unfolding append_name get_test_exec_dir stem
get_test_executable ctx file_path = append_name (get_test_exec_dir ctx) (stem file_path)

unfoldable pub get_profraw_file_path : ProjectContext → Text → FilePath
unfolding append_path get_clang_coverage_dir add_extension
get_profraw_file_path ctx test_name =
    append_path (get_clang_coverage_dir ctx) (add_extension test_name (codes ".profraw"))

unfoldable pub get_wrapper_dir_path : ProjectContext → FilePath
unfolding append_name get_test_dir_abs_path
get_wrapper_dir_path ctx = append_name (get_test_dir_abs_path ctx) (codes "wrapper")

unfoldable pub get_stubs_dir_path : ProjectContext → FilePath
unfolding append_name get_test_dir_abs_path
get_stubs_dir_path ctx = append_name (get_test_dir_abs_path ctx) (codes "stubs")
