-- ===== src/Klee/EntryPoint.antt =====
-- `entryPointFunction`, `postSymbolicVariable` and `processNumberOption` of
-- server/src/utils/KleeUtils.cpp.
use utbot_cpp.Base.{
  ℕ, Bool, ◌&&◌, ◌++◌, Text, codes, length, ◌==◌, if◌then◌else◌, Result, ok, ◌>>=◌,
}
use utbot_cpp.Strings.Replace.{replace_colon}
use utbot_cpp.Values.Bytes.{natural_to_string}
use utbot_cpp.Paths.FilePath.{FilePath, append_path, path_of}
use utbot_cpp.Paths.FileNames.{mangle}
use utbot_cpp.Paths.FileKinds.{is_cxx_file}
use utbot_cpp.Klee.Operators.{SymbolError, get_renamed_operator}

-- What it reads of `Tests`.
pub record TestsFile : Type 0 where
  pub source_file_path : FilePath
  pub relative_file_dir : FilePath
  pub source_file_name_no_ext : Text

unfoldable pub entry_name : FilePath → Text → Text
unfolding mangle
entry_name path method_name = codes "klee_entry__" ++ (mangle path ++ (codes "_" ++ method_name))

unfoldable pub mangled_entry : Text → Text
unfolding natural_to_string
mangled_entry name = codes "_Z" ++ (natural_to_string (length name) ++ (name ++ codes "iPPcS0_"))

unfoldable pub entry_point_function : TestsFile → Text → Bool → Bool → Result SymbolError Text
unfolding replace_colon get_renamed_operator entry_name mangled_entry append_path path_of
    is_cxx_file
entry_point_function tests method_name need_to_mangle is_wrapped = do
  renamed ← get_renamed_operator (replace_colon method_name)
  let method_new_name = if is_wrapped then renamed ++ codes "__wrapped" else renamed
  let path = append_path tests.relative_file_dir (path_of tests.source_file_name_no_ext)
  let name = entry_name path method_new_name
  ok (if need_to_mangle && is_cxx_file tests.source_file_path then mangled_entry name else name)

unfoldable pub post_symbolic_variable : Text → Text
post_symbolic_variable variable_name = variable_name ++ codes "_post"

-- The number is the command's.
unfoldable pub process_number_option : ℕ → Text
unfolding natural_to_string
process_number_option number =
    if number == 0
    then codes "--process-number=5"
    else codes "--process-number=" ++ natural_to_string number
