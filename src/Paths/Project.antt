-- ===== src/Paths/Project.antt =====
-- The paths of a project's files in server/src/Paths.h and Paths.cpp.
-- `fs::relative`, which may follow links of the file system, is a parameter.
use utbot_cpp.Base.{◌++◌, [], Text, codes, if◌then◌else◌, Option, none, some}
use utbot_cpp.Strings.Affixes.{is_empty, starts_with}
use utbot_cpp.Strings.Replace.{replace_first}
use utbot_cpp.Paths.FilePath.{
  FilePath, path_of_name, path_string, filename, parent_path, stem, append_path, append_name,
  replace_extension, replace_filename,
}
use utbot_cpp.Paths.FileNames.{
  makefile_extension, test_suffix, stub_suffix, make_wrapper_suffix, add_extension, add_suffix,
  remove_suffix, add_orig_extension_as_suffix_and_add_new, restore_extension_from_suffix,
  is_sub_path_of,
}
use utbot_cpp.Paths.FileKinds.{is_source_file}
use utbot_cpp.Paths.ProjectDirs.{
  ProjectContext, get_test_dir_abs_path, get_report_dir_abs_path, get_build_dir_abs_path,
  get_utbot_build_dir, get_klee_out_dir, get_recompiled_dir, get_wrapper_dir_path,
  get_stubs_dir_path,
}

unfoldable pub create_temporary_object_file : FilePath → FilePath → FilePath
unfolding replace_extension replace_filename filename
create_temporary_object_file output source_path =
    replace_extension (replace_filename output (filename source_path)) (codes ".o")

-- Names of the files that are made for a source file.
unfoldable pub source_path_to_test_name : FilePath → Text
unfolding filename add_suffix add_orig_extension_as_suffix_and_add_new
source_path_to_test_name source =
    filename
      (add_suffix (add_orig_extension_as_suffix_and_add_new source (codes ".cpp")) test_suffix)

unfoldable pub test_path_to_source_name : FilePath → Text
unfolding filename remove_suffix restore_extension_from_suffix
test_path_to_source_name test_file_path =
    filename (restore_extension_from_suffix (remove_suffix test_file_path test_suffix) (codes ".c"))

unfoldable pub source_path_to_stub_name : FilePath → Text
unfolding filename add_suffix
source_path_to_stub_name source = filename (add_suffix source stub_suffix)

unfoldable pub get_stub_bitcode_file_path : FilePath → FilePath
unfolding add_suffix
get_stub_bitcode_file_path p = add_suffix p stub_suffix

unfoldable pub source_path_to_header_include : FilePath → FilePath
unfolding source_path_to_stub_name replace_extension path_of_name
source_path_to_header_include source =
    replace_extension (path_of_name (source_path_to_stub_name source)) (codes ".h")

unfoldable pub get_relative_path_with_shell_variable : FilePath → Text → Text → Option Text
unfolding starts_with replace_first path_string
get_relative_path_with_shell_variable variable base source =
    if starts_with source base
    then some (replace_first source base (path_string variable)).0
    else none

module _ (relative : FilePath → FilePath → FilePath) where
  unfoldable pub get_relative_dir_path : ProjectContext → FilePath → FilePath
  unfolding parent_path
  get_relative_dir_path ctx source = relative (parent_path source) ctx.project_path

  unfoldable pub klee_out_dir_for_file_path : ProjectContext → FilePath → FilePath
  unfolding append_path get_klee_out_dir add_orig_extension_as_suffix_and_add_new
  klee_out_dir_for_file_path ctx file_path =
      append_path (get_klee_out_dir ctx)
        (relative (add_orig_extension_as_suffix_and_add_new file_path []) ctx.project_path)

  unfoldable pub klee_out_dir_for_entrypoints : ProjectContext → FilePath → Text → FilePath
  unfolding append_name klee_out_dir_for_file_path filename add_orig_extension_as_suffix_and_add_new
  klee_out_dir_for_entrypoints ctx src_file_path method_name =
      append_name (klee_out_dir_for_file_path ctx src_file_path) (
        codes "klee_out_"
        ++ (if is_empty method_name
            then filename (add_orig_extension_as_suffix_and_add_new src_file_path [])
            else method_name))

  unfoldable pub get_makefile_dir : ProjectContext → FilePath → FilePath
  unfolding append_path append_name get_test_dir_abs_path get_relative_dir_path
  get_makefile_dir ctx source =
      append_path (append_name (get_test_dir_abs_path ctx) (codes "makefiles"))
        (get_relative_dir_path ctx source)

  unfoldable pub get_path_dir_relative_to_test_dir : ProjectContext → FilePath → FilePath
  unfolding append_path get_test_dir_abs_path get_relative_dir_path
  get_path_dir_relative_to_test_dir ctx source =
      append_path (get_test_dir_abs_path ctx) (get_relative_dir_path ctx source)

  unfoldable pub get_path_dir_relative_to_report_dir : ProjectContext → FilePath → FilePath
  unfolding append_path get_report_dir_abs_path get_relative_dir_path
  get_path_dir_relative_to_report_dir ctx source =
      append_path (get_report_dir_abs_path ctx) (get_relative_dir_path ctx source)

  unfoldable pub get_path_dir_relative_to_build_dir : ProjectContext → FilePath → FilePath
  unfolding parent_path get_utbot_build_dir
  get_path_dir_relative_to_build_dir ctx source =
      relative (parent_path source) (get_utbot_build_dir ctx)

  unfoldable pub get_generated_header_path : ProjectContext → FilePath → FilePath
  unfolding append_path get_path_dir_relative_to_test_dir replace_extension source_path_to_test_name
      path_of_name
  get_generated_header_path ctx source =
      append_path (get_path_dir_relative_to_test_dir ctx source)
        (replace_extension (path_of_name (source_path_to_test_name source)) (codes ".h"))

  unfoldable pub get_recompiled_file : ProjectContext → FilePath → FilePath
  unfolding append_path get_recompiled_dir is_source_file add_extension path_string
      get_build_dir_abs_path
  get_recompiled_file ctx file_path = append_path (get_recompiled_dir ctx) (
      if is_source_file file_path
      then add_extension (path_string (relative file_path ctx.project_path)) (codes ".o")
      else relative file_path (get_build_dir_abs_path ctx))

  unfoldable pub get_build_file_path : ProjectContext → FilePath → FilePath
  unfolding append_path append_name get_utbot_build_dir get_relative_dir_path filename add_extension
      path_string
  get_build_file_path ctx source =
      add_extension
        (path_string (
          append_name (append_path (get_utbot_build_dir ctx) (get_relative_dir_path ctx source))
            (filename source)))
        (codes ".o")

  unfoldable pub get_stub_build_file_path : ProjectContext → FilePath → FilePath
  unfolding append_path append_name get_utbot_build_dir get_relative_dir_path
      source_path_to_stub_name add_extension path_string
  get_stub_build_file_path ctx source =
      add_extension
        (path_string (
          append_name (append_path (get_utbot_build_dir ctx) (get_relative_dir_path ctx source))
            (source_path_to_stub_name source)))
        (codes ".o")

  unfoldable pub get_wrapper_file_path : ProjectContext → FilePath → FilePath
  unfolding append_path get_wrapper_dir_path get_relative_dir_path filename add_suffix path_of_name
  get_wrapper_file_path ctx source =
      append_path (append_path (get_wrapper_dir_path ctx) (get_relative_dir_path ctx source))
        (add_suffix (path_of_name (filename source)) make_wrapper_suffix)

  unfoldable pub source_path_to_test_path : ProjectContext → FilePath → FilePath
  unfolding append_path append_name get_test_dir_abs_path get_relative_dir_path
      source_path_to_test_name
  source_path_to_test_path ctx source =
      append_name (append_path (get_test_dir_abs_path ctx) (get_relative_dir_path ctx source))
        (source_path_to_test_name source)

  unfoldable pub source_path_to_stub_path : ProjectContext → FilePath → FilePath
  unfolding append_path append_name get_test_dir_abs_path get_relative_dir_path
      source_path_to_stub_name
  source_path_to_stub_path ctx source =
      append_name
        (append_path (append_name (get_test_dir_abs_path ctx) (codes "stubs"))
          (get_relative_dir_path ctx source))
        (source_path_to_stub_name source)

  unfoldable pub source_path_to_stub_header_path : ProjectContext → FilePath → FilePath
  unfolding replace_extension source_path_to_stub_path
  source_path_to_stub_header_path ctx source =
      replace_extension (source_path_to_stub_path ctx source) (codes ".h")

  unfoldable pub test_path_to_source_path : ProjectContext → FilePath → FilePath
  unfolding append_path append_name parent_path get_test_dir_abs_path test_path_to_source_name
  test_path_to_source_path ctx test_file_path =
      append_name
        (append_path ctx.project_path
          (relative (parent_path test_file_path) (get_test_dir_abs_path ctx)))
        (test_path_to_source_name test_file_path)

  -- The source file, and the file of its tests.
  unfoldable pub get_source_and_test_path : ProjectContext → FilePath → FilePath × FilePath
  unfolding is_sub_path_of get_test_dir_abs_path test_path_to_source_path source_path_to_test_path
  get_source_and_test_path ctx file_path =
      if is_sub_path_of (get_test_dir_abs_path ctx) file_path
      then (test_path_to_source_path ctx file_path, file_path)
      else (file_path, source_path_to_test_path ctx file_path)

  -- The path that `addSuffix` returns is not used.
  unfoldable pub get_makefile_path_from_source_file_path :
      ProjectContext → FilePath → Text → FilePath
  unfolding append_name get_makefile_dir replace_extension filename
  get_makefile_path_from_source_file_path ctx source suffix =
      append_name (get_makefile_dir ctx source)
        (filename (replace_extension source makefile_extension))

  unfoldable pub get_stubs_makefile_path : ProjectContext → FilePath → FilePath
  unfolding append_path get_makefile_dir add_extension add_suffix path_of_name path_string stem
  get_stubs_makefile_path ctx source = append_path (get_makefile_dir ctx source) (
      add_extension (path_string (add_suffix (path_of_name (stem source)) stub_suffix))
        makefile_extension)

  unfoldable pub stub_path_to_source_path : ProjectContext → FilePath → FilePath
  unfolding append_path get_stubs_dir_path remove_suffix
  stub_path_to_source_path ctx stub_path =
      remove_suffix (append_path ctx.project_path (relative stub_path (get_stubs_dir_path ctx)))
        stub_suffix
