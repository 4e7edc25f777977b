-- ===== src/Paths/TestPaths.antt =====
-- `sourcePathToTestPath` and `testPathToSourcePath` of server/src/Paths.cpp undo each other, as far as
-- `fs::relative` gives paths between the same directories, and `getSourceAndTestPath` takes either.
use utbot_cpp.Base.{true, false, ◌≡◌, refl, ap, ◌∙◌}
use utbot_cpp.Strings.Split.{Lacks}
use utbot_cpp.Paths.FilePath.{FilePath, filename, parent_path, append_path, append_name}
use utbot_cpp.Paths.FileNames.{is_sub_path_of}
use utbot_cpp.Paths.FileKinds.{is_source_file}
use utbot_cpp.Paths.Project.{
  get_relative_dir_path, source_path_to_test_path, source_path_to_test_name,
  test_path_to_source_path, test_path_to_source_name, get_source_and_test_path,
}
use utbot_cpp.Paths.ProjectDirs.{ProjectContext, get_test_dir_abs_path}
use utbot_cpp.Paths.Normal.{IsNormal}
use utbot_cpp.Paths.Directories.{
  IsDirectory, parent_path-append_name, append_name-parent_path, append_path-IsDirectory,
}
use utbot_cpp.Paths.SubPaths.{GoesDeeper, is_sub_path_of-append_path}
use utbot_cpp.Paths.TestNames.{
  source_path_to_test_name-IsName, test_path_to_source_name-source_path_to_test_path, filename_some,
}

-- What `fs::relative` promises for the directory of a source: it leads there from the root of the
-- project, and what stands behind the directory of the tests is read off again.
abbrev pub IsRelative : (FilePath → FilePath → FilePath) → ProjectContext → FilePath → Type 0
IsRelative relative ctx source =
    (append_path ctx.project_path (get_relative_dir_path relative ctx source) ≡ parent_path source)
    × (relative
          (append_path (get_test_dir_abs_path ctx) (get_relative_dir_path relative ctx source))
          (get_test_dir_abs_path ctx)
        ≡ get_relative_dir_path relative ctx source)

module _ (relative : FilePath → FilePath → FilePath) (ctx : ProjectContext) (source : FilePath)
    (absolute : ctx.project_path.is_absolute ≡ true)
    (behind : ctx.test_dir_rel_path.is_absolute ≡ false) (is_source : is_source_file source ≡ true)
    (deeper : (get_relative_dir_path relative ctx source).is_absolute ≡ false) where
  -- The directory of the tests of a source file.
  abbrev test_dir : FilePath
  test_dir = append_path (get_test_dir_abs_path ctx) (get_relative_dir_path relative ctx source)

  get_test_dir_abs_path-IsDirectory : IsDirectory (get_test_dir_abs_path ctx)
  unfolding get_test_dir_abs_path
  get_test_dir_abs_path-IsDirectory =
      append_path-IsDirectory ctx.project_path ctx.test_dir_rel_path absolute behind

  parent_path-source_path_to_test_path :
      parent_path (source_path_to_test_path relative ctx source) ≡ test_dir
  unfolding source_path_to_test_path
  parent_path-source_path_to_test_path =
      parent_path-append_name test_dir (source_path_to_test_name source)
        (append_path-IsDirectory (get_test_dir_abs_path ctx)
          (get_relative_dir_path relative ctx source) get_test_dir_abs_path-IsDirectory.0 deeper)
        (source_path_to_test_name-IsName source is_source)

  test_path_to_source_path-source_path_to_test_path :
      IsNormal source
      → Lacks b'/' (filename source)
      → IsRelative relative ctx source
      → test_path_to_source_path relative ctx (source_path_to_test_path relative ctx source)
        ≡ source
  unfolding test_path_to_source_path
  test_path_to_source_path-source_path_to_test_path normal no_slash laws =
      let test = source_path_to_test_path relative ctx source in
      ap
        (λ q.
          append_name (append_path ctx.project_path (relative q (get_test_dir_abs_path ctx)))
            (test_path_to_source_name test))
        parent_path-source_path_to_test_path
      ∙ ap (λ q. append_name (append_path ctx.project_path q) (test_path_to_source_name test))
          laws.1
      ∙ ap (λ q. append_name q (test_path_to_source_name test)) laws.0
      ∙ ap (append_name (parent_path source))
          (test_path_to_source_name-source_path_to_test_path relative ctx source is_source no_slash)
      ∙ append_name-parent_path source normal (filename_some source is_source)

-- For a source file of an absolute project that does not lie in the directory of the tests, of an
-- extension of C or C++ sources and in normal form, `getSourceAndTestPath` of the file and of the path
-- of its tests is the same pair: the file and that path. `fs::relative` may be any function that leads
-- from the project to the directory of the file without `..`, and reads off again what is put behind
-- the directory of the tests.
pub get_source_and_test_path_lem :
    (relative : FilePath → FilePath → FilePath) (ctx : ProjectContext) (source : FilePath)
    → ctx.project_path.is_absolute ≡ true
    → ctx.test_dir_rel_path.is_absolute ≡ false
    → is_source_file source ≡ true
    → (get_relative_dir_path relative ctx source).is_absolute ≡ false
    → GoesDeeper (get_relative_dir_path relative ctx source).parts
    → IsNormal source
    → Lacks b'/' (filename source)
    → IsRelative relative ctx source
    → is_sub_path_of (get_test_dir_abs_path ctx) source ≡ false
    → (get_source_and_test_path relative ctx source
        ≡ (source, source_path_to_test_path relative ctx source))
      × (get_source_and_test_path relative ctx (source_path_to_test_path relative ctx source)
          ≡ (source, source_path_to_test_path relative ctx source))
unfolding get_source_and_test_path
get_source_and_test_path_lem relative ctx source absolute behind is_source deeper steps normal
      no_slash laws outside =
    let test = source_path_to_test_path relative ctx source in
    let inside : is_sub_path_of (get_test_dir_abs_path ctx) test ≡ true =
      is_sub_path_of-append_path (get_test_dir_abs_path ctx)
        (get_relative_dir_path relative ctx source) test
        (get_test_dir_abs_path-IsDirectory relative ctx source absolute behind is_source deeper)
        deeper steps
        (parent_path-source_path_to_test_path relative ctx source absolute behind is_source
          deeper) in
    (
      rw outside refl,
      rw inside (
          ap (λ q. (q, test))
            (test_path_to_source_path-source_path_to_test_path relative ctx source absolute behind
              is_source deeper normal no_slash laws)),
    )
