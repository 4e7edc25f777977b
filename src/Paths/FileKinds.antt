-- ===== src/Paths/FileKinds.antt =====
-- The kinds of files by their extensions of server/src/Paths.h and Paths.cpp, the files that KLEE leaves,
-- and `removeSharedLibraryVersion` of server/src/utils/CompilationUtils.cpp.
use utbot_cpp.Base.{
  Bool, ◌||◌, List, [], ◌∷◌, ◌++◌, Text, codes, text_eq, ◌==◌, if◌then◌else◌, Option, none, some,
  any,
}
use utbot_cpp.Strings.Affixes.{is_digit}
use utbot_cpp.Strings.Replace.{contains}
use utbot_cpp.Types.Handler.{Language, c_language, cxx_language, unknown_language}
use mathlib.Core.List.{reverse}
use utbot_cpp.Paths.FilePath.{FilePath, path_of, path_string, stem, extension, replace_extension}
use utbot_cpp.Paths.FileNames.{stub_suffix, remove_suffix}

-- Kinds of files by their extensions.
abbrev pub cxx_file_extensions : List Text
cxx_file_extensions = codes ".cc" ∷ codes ".cp" ∷ codes ".cpp" ∷ codes ".c++" ∷ codes ".cxx" ∷ []

abbrev pub hpp_file_extensions : List Text
hpp_file_extensions = codes ".hh" ∷ codes ".hpp" ∷ codes ".hxx" ∷ []

abbrev pub c_file_source_extensions : List Text
c_file_source_extensions = codes ".c" ∷ []

abbrev pub c_file_header_extensions : List Text
c_file_header_extensions = codes ".h" ∷ []

abbrev pub is_one_of : List Text → FilePath → Bool
unfolding extension
is_one_of extensions p = any (λ e. text_eq e (extension p)) extensions

unfoldable pub is_h_file : FilePath → Bool
is_h_file = is_one_of c_file_header_extensions

unfoldable pub is_c_file : FilePath → Bool
is_c_file = is_one_of c_file_source_extensions

unfoldable pub is_cxx_file : FilePath → Bool
is_cxx_file = is_one_of cxx_file_extensions

unfoldable pub is_hpp_file : FilePath → Bool
is_hpp_file = is_one_of hpp_file_extensions

unfoldable pub is_header_file : FilePath → Bool
unfolding is_h_file is_hpp_file
is_header_file p = is_h_file p || is_hpp_file p

unfoldable pub is_source_file : FilePath → Bool
unfolding is_c_file is_cxx_file
is_source_file p = is_c_file p || is_cxx_file p

unfoldable pub get_source_language : FilePath → Language
unfolding is_h_file is_c_file is_cxx_file is_hpp_file
get_source_language p =
    if is_h_file p
    then c_language
    else if is_c_file p
    then c_language
    else if is_cxx_file p || is_hpp_file p
    then cxx_language
    else unknown_language

unfoldable pub is_object_file : FilePath → Bool
is_object_file = is_one_of (codes ".o" ∷ [])

unfoldable pub is_static_library_file : FilePath → Bool
is_static_library_file = is_one_of (codes ".a" ∷ [])

-- The loop goes back over dots and digits from the end.
abbrev pub drop_version : Text → Text
unfolding is_digit
drop_version [] = []
drop_version (c ∷ s) = if c == b'.' || is_digit c then drop_version s else c ∷ s

unfoldable pub remove_shared_library_version : FilePath → FilePath
unfolding path_of path_string
remove_shared_library_version p = path_of (reverse (drop_version (reverse (path_string p))))

unfoldable pub is_shared_library_file : FilePath → Bool
unfolding remove_shared_library_version
is_shared_library_file p = is_one_of (codes ".so" ∷ []) (remove_shared_library_version p)

unfoldable pub is_library_file : FilePath → Bool
unfolding is_static_library_file is_shared_library_file
is_library_file p = is_static_library_file p || is_shared_library_file p

unfoldable pub is_utbot_wrapper : Text → Bool
unfolding contains
is_utbot_wrapper name = contains name (codes "utbot/wrapper")

unfoldable pub is_ktest : FilePath → Bool
is_ktest = is_one_of (codes ".ktest" ∷ [])

unfoldable pub is_ktest_json : FilePath → Bool
is_ktest_json = is_one_of (codes ".ktestjson" ∷ [])

unfoldable pub is_headers_equal : FilePath → FilePath → Bool
unfolding remove_suffix stem
is_headers_equal src_path header_path =
    text_eq (stem (remove_suffix src_path stub_suffix)) (stem header_path)

-- The files that KLEE leaves beside a test.
unfoldable pub error_file : FilePath → Text → FilePath
unfolding replace_extension
error_file p suffix = replace_extension p (b'.' ∷ suffix ++ codes ".err")

abbrev pub crash_suffixes : List Text
crash_suffixes = codes "exec" ∷ codes "external" ∷ codes "xxx" ∷ []

abbrev pub internal_error_suffixes : List Text
internal_error_suffixes =
    codes "abort"
    ∷ codes "assert"
    ∷ codes "bad_vector_access"
    ∷ codes "free"
    ∷ codes "overflow"
    ∷ codes "undefined_behavior"
    ∷ codes "ptr"
    ∷ codes "readonly"
    ∷ codes "reporterror"
    ∷ codes "uncaught_exception"
    ∷ codes "unexpected_exception"
    ∷ []

-- `fs::exists` is a parameter.
module _ (exists : FilePath → Bool) where
  unfoldable pub error_file_exists : FilePath → Text → Bool
  unfolding error_file
  error_file_exists p suffix = exists (error_file p suffix)

  unfoldable pub has_internal_error : FilePath → Bool
  unfolding error_file_exists
  has_internal_error p = any (error_file_exists p) crash_suffixes

  abbrev pub error_files : FilePath → List Text → List FilePath
  unfolding error_file_exists error_file
  error_files p [] = []
  error_files p (suffix ∷ suffixes) =
      let rest = error_files p suffixes in
      if error_file_exists p suffix then error_file p suffix ∷ rest else rest

  unfoldable pub get_error_descriptors : FilePath → List FilePath
  get_error_descriptors p = error_files p internal_error_suffixes

  -- The first source file of the extensions that exists.
  abbrev pub first_source : FilePath → List Text → Option FilePath
  unfolding replace_extension
  first_source source [] = none
  first_source source (extension ∷ extensions) =
      let rest = first_source source extensions in
      let candidate = replace_extension source extension in
      if exists candidate then some candidate else rest

  unfoldable pub header_path_to_source_path : FilePath → Option FilePath
  unfolding is_header_file
  header_path_to_source_path source =
      if is_header_file source then first_source source cxx_file_extensions else none
