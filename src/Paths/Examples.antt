-- ===== src/Paths/Examples.antt =====
-- Inputs for the theorems on the paths of server/src/Paths.h and Paths.cpp.
use utbot_cpp.Base.{true, false, [], ◌∷◌, codes, ◌++◌, ◌≡◌, refl, text_eq, length, drop}
use utbot_cpp.Strings.Split.{Lacks, join_with, getline_loop}
use utbot_cpp.Paths.FilePath.{
  FilePath, path_of, path_of_name, path_string, filename, parent_path, stem, extension, last_dot,
  split_name, append_path, append_name, dot_if_empty, normalized_trimmed, normal_loop,
}
use utbot_cpp.Paths.FileNames.{
  is_sub_path_of, names_of, is_prefix, add_suffix, suffixed_name,
  add_orig_extension_as_suffix_and_add_new, encoded_name,
}
use utbot_cpp.Paths.FileKinds.{is_source_file, is_c_file, is_cxx_file}
use utbot_cpp.Paths.Project.{
  get_relative_dir_path, source_path_to_test_path, test_path_to_source_name,
  get_source_and_test_path, source_path_to_test_name,
}
use utbot_cpp.Paths.ProjectDirs.{ProjectContext, get_test_dir_abs_path}
use utbot_cpp.Paths.Normal.{IsNormal, normalized_trimmed-IsNormal}
use utbot_cpp.Strings.Replace.{replace_all_char}
use utbot_cpp.Paths.FilePath.{has_extension, replace_extension}
use utbot_cpp.Paths.FileNames.{
  mangle_extensions, mangle_extensions_loop, mangle_text, remove_extension,
}
use utbot_cpp.Paths.Mangling.{mangle_extensions_lem}
use utbot_cpp.Paths.TestNames.{all-Lacks, test_path_to_source_name-source_path_to_test_path}
use utbot_cpp.Paths.TestPaths.{get_source_and_test_path_lem}

-- Paths below a directory.
abbrev below : FilePath → FilePath → FilePath
below p base = record {
  is_absolute = false;
  parts = dot_if_empty false (drop (length base.parts) p.parts);
}

abbrev project : ProjectContext
project = record {
  project_name = codes "demo";
  project_path = record { is_absolute = true; parts = codes "p" ∷ [] };
  client_project_path = record { is_absolute = true; parts = codes "p" ∷ [] };
  test_dir_rel_path = record { is_absolute = false; parts = codes "tests" ∷ [] };
  report_dir_rel_path = record { is_absolute = false; parts = codes "report" ∷ [] };
  build_dir_rel_path = record { is_absolute = false; parts = codes "build" ∷ [] };
  itf_rel_path = record { is_absolute = false; parts = [] };
}

abbrev source : FilePath
source = record { is_absolute = true; parts = codes "p" ∷ codes "lib" ∷ codes "list.c" ∷ [] }

source_string : path_string source ≡ codes "/p/lib/list.c"
unfolding path_string join_with codes
source_string = refl

source_read : path_of (codes "/p//x/../lib/./list.c/") ≡ source
unfolding path_of normalized_trimmed normal_loop getline_loop codes text_eq
source_read = refl

test_string :
    path_string (source_path_to_test_path below project source)
    ≡ codes "/p/tests/lib/list_dot_c_test.cpp"
unfolding path_string join_with codes source_path_to_test_path append_path append_name path_of_name
    get_test_dir_abs_path get_relative_dir_path source_path_to_test_name add_suffix suffixed_name
    add_orig_extension_as_suffix_and_add_new encoded_name stem extension filename parent_path
    split_name last_dot normalized_trimmed normal_loop text_eq
test_string = refl

normalized_trimmed-IsNormal_example :
    IsNormal (normalized_trimmed true (codes "p" ∷ codes ".." ∷ codes "lib" ∷ []))
normalized_trimmed-IsNormal_example =
    normalized_trimmed-IsNormal true (codes "p" ∷ codes ".." ∷ codes "lib" ∷ [])

source_no_slash : Lacks b'/' (filename source)
unfolding filename codes
source_no_slash = all-Lacks b'/' (codes "list.c") refl

source_is_source : is_source_file source ≡ true
unfolding is_source_file is_c_file is_cxx_file extension filename split_name last_dot codes text_eq
source_is_source = refl

test_path_to_source_name-source_path_to_test_path_example :
    test_path_to_source_name (source_path_to_test_path below project source) ≡ filename source
test_path_to_source_name-source_path_to_test_path_example =
    test_path_to_source_name-source_path_to_test_path below project source source_is_source
      source_no_slash

get_source_and_test_path_lem_example :
    (get_source_and_test_path below project source
      ≡ (source, source_path_to_test_path below project source))
    × (get_source_and_test_path below project (source_path_to_test_path below project source)
        ≡ (source, source_path_to_test_path below project source))
unfolding get_relative_dir_path parent_path normalized_trimmed normal_loop append_path
    get_test_dir_abs_path is_sub_path_of names_of is_prefix codes text_eq
get_source_and_test_path_lem_example =
    get_source_and_test_path_lem below project source refl refl source_is_source refl (refl, tt)
      refl source_no_slash (refl, refl) refl

abbrev archive : FilePath
archive = record { is_absolute = false; parts = codes "a-b.tar.gz" ∷ [] }

mangle_extensions_lem_example :
    (has_extension archive ≡ false → mangle_extensions archive ≡ path_string archive)
    × (has_extension archive ≡ true
        → mangle_extensions archive
          ≡ mangle_extensions (remove_extension archive) ++ mangle_text (extension archive))
mangle_extensions_lem_example = mangle_extensions_lem archive

archive_mangled : mangle_extensions archive ≡ codes "a-b_tar_gz"
unfolding mangle_extensions mangle_extensions_loop mangle_text replace_all_char has_extension
    extension remove_extension replace_extension split_name last_dot filename path_string join_with
    codes text_eq
archive_mangled = refl
