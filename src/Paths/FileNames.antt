-- ===== src/Paths/FileNames.antt =====
-- The names of files of server/src/Paths.h and Paths.cpp.
use utbot_cpp.Base.{
  ℕ, zero, suc, ◌+◌, Bool, true, false, ◌&&◌, List, [], ◌∷◌, ◌++◌, Text, codes, text_eq, ◌==◌,
  length, if◌then◌else◌, Option, none, some, take, drop,
}
use utbot_cpp.Strings.Affixes.{is_empty}
use utbot_cpp.Strings.Replace.{find, rfind, replace_at, replace_all_char}
use utbot_cpp.Paths.FilePath.{
  FilePath, path_of, path_string, filename, parent_path, stem, extension, has_extension,
  append_path, append_name, replace_extension, parts_eq,
}

abbrev pub makefile_extension : Text
makefile_extension = codes ".mk"

abbrev pub cxx_extension : Text
cxx_extension = codes ".cpp"

abbrev pub test_suffix : Text
test_suffix = codes "_test"

abbrev pub stub_suffix : Text
stub_suffix = codes "_stub"

abbrev pub dot_sep : Text
dot_sep = codes "_dot_"

abbrev pub make_wrapper_suffix : Text
make_wrapper_suffix = codes "_wrapper"

unfoldable pub add_extension : Text → Text → FilePath
unfolding path_of
add_extension file_path extension = path_of (file_path ++ extension)

unfoldable pub remove_back_trailed_slash : Text → Text
remove_back_trailed_slash [] = []
remove_back_trailed_slash (c ∷ []) = if c == b'/' then [] else c ∷ []
remove_back_trailed_slash (c ∷ d ∷ s) = c ∷ remove_back_trailed_slash (d ∷ s)

unfoldable pub add_prefix : FilePath → Text → FilePath
unfolding append_name parent_path filename
add_prefix p prefix = append_name (parent_path p) (prefix ++ filename p)

-- The names that `addSuffix` and `removeSuffix` put behind the directory of the path.
unfoldable pub suffixed_name : FilePath → Text → Text
unfolding stem extension
suffixed_name p suffix = stem p ++ (suffix ++ extension p)

unfoldable pub add_suffix : FilePath → Text → FilePath
unfolding append_name parent_path suffixed_name
add_suffix p suffix = append_name (parent_path p) (suffixed_name p suffix)

unfoldable pub add_test_suffix : FilePath → FilePath
unfolding add_suffix
add_test_suffix p = add_suffix p test_suffix

unfoldable pub without_last : Text → Text → Text
unfolding rfind replace_at
without_last name suffix = elim (rfind suffix name) [
  | some pos ↦ replace_at pos (length suffix) [] name
  | none ↦ name
]

unfoldable pub remove_suffix : FilePath → Text → FilePath
unfolding append_name parent_path without_last stem extension
remove_suffix p suffix = append_name (parent_path p) (without_last (stem p) suffix ++ extension p)

unfoldable pub remove_extension : FilePath → FilePath
unfolding replace_extension
remove_extension p = replace_extension p []

-- The element at the root of an absolute path is the first of its iteration.
unfoldable pub names_of : FilePath → List Text
names_of p = if p.is_absolute then (b'/' ∷ []) ∷ p.parts else p.parts

-- Whether `std::mismatch` stops at the end of the first list, and the names in front of where it stops.
unfoldable pub is_prefix : List Text → List Text → Bool
is_prefix [] bs = true
is_prefix (a ∷ as_) [] = false
is_prefix (a ∷ as_) (b ∷ bs) = text_eq a b && is_prefix as_ bs

unfoldable pub common_names : List Text → List Text → List Text
common_names (a ∷ as_) (b ∷ bs) = if text_eq a b then a ∷ common_names as_ bs else []
common_names _ _ = []

unfoldable pub is_sub_path_of : FilePath → FilePath → Bool
unfolding names_of is_prefix parent_path
is_sub_path_of base sub = is_prefix (names_of base) (names_of (parent_path sub))

abbrev pub join_paths : FilePath → List Text → FilePath
join_paths p [] = p
join_paths p (name ∷ names) = join_paths (append_path p (path_of name)) names

unfoldable pub longest_common_prefix_path : FilePath → FilePath → FilePath
unfolding names_of common_names append_path path_of parts_eq
longest_common_prefix_path a b =
    if parts_eq (names_of a) (names_of b)
    then a
    else join_paths (path_of []) (common_names (names_of a) (names_of b))

unfoldable pub mangle_text : Text → Text
unfolding replace_all_char
mangle_text s =
    replace_all_char b'-' b'_' (replace_all_char b'/' b'_' (replace_all_char b'.' b'_' s))

unfoldable pub mangle : FilePath → Text
unfolding mangle_text path_string
mangle p = mangle_text (path_string p)

-- A file loses one extension in every round, which has a byte at least.
unfoldable pub mangle_extensions_loop : ℕ → FilePath → Text
unfolding path_string has_extension extension remove_extension mangle_text
mangle_extensions_loop zero p = path_string p
mangle_extensions_loop (suc fuel) p =
    let shorter = mangle_extensions_loop fuel (remove_extension p) in
    if has_extension p then shorter ++ mangle_text (extension p) else path_string p

unfoldable pub mangle_extensions : FilePath → Text
unfolding mangle_extensions_loop filename
mangle_extensions p = mangle_extensions_loop (length (filename p)) p

-- `substr(0, path1.find(path2))`: a text that is not found leaves the whole path.
unfoldable pub up_to : Option ℕ → Text → Text
up_to none s = s
up_to (some n) s = take n s

unfoldable pub subtract_path : Text → Text → FilePath
unfolding path_of remove_back_trailed_slash up_to find
subtract_path path1 path2 =
    let front = remove_back_trailed_slash path1 in
    if text_eq path2 (b'.' ∷ [])
    then path_of path1
    else path_of (up_to (find (remove_back_trailed_slash path2) front) front)

-- The name that keeps the extension as a suffix.
unfoldable pub encoded_name : Text → Text → Text → Text
encoded_name stem extension new_ext = stem ++ (dot_sep ++ (drop 1 extension ++ new_ext))

unfoldable pub add_orig_extension_as_suffix_and_add_new : FilePath → Text → FilePath
unfolding append_name parent_path encoded_name stem extension replace_extension
add_orig_extension_as_suffix_and_add_new p new_ext =
    if is_empty (extension p)
    then replace_extension p new_ext
    else append_name (parent_path p) (encoded_name (stem p) (extension p) new_ext)

unfoldable pub decoded_name : Text → Text → Text
unfolding rfind
decoded_name name default_ext = elim (rfind dot_sep name) [
  | none ↦ name ++ default_ext
  | some pos ↦ take pos name ++ (b'.' ∷ drop (pos + length dot_sep) name)
]

unfoldable pub restore_extension_from_suffix : FilePath → Text → FilePath
unfolding append_path parent_path path_of decoded_name stem
restore_extension_from_suffix p default_ext =
    append_path (parent_path p) (path_of (decoded_name (stem p) default_ext))
