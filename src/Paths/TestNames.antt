-- ===== src/Paths/TestNames.antt =====
-- `sourcePathToTestName` and `testPathToSourceName` of server/src/Paths.cpp undo each other on source files.
use utbot_cpp.Base.{
  ℕ, true, false, not, all, List, [], ◌∷◌, ◌++◌, codes, ◌≡◌, ◌≢◌, refl, sym, ap, ◌∙◌, subst, arith,
  Text, text_eq, text_eq_sound, ◌==◌, some, All, any, Bool-cases, inl, inr, append_assoc,
}
use utbot_cpp.Strings.Affixes.{starts_with}
use utbot_cpp.Strings.Replace.{rfind}
use utbot_cpp.Strings.Split.{Lacks, getline_loop, getline_loop-join_with, join_with}
use utbot_cpp.Paths.FilePath.{
  FilePath, split_name, stem, extension, filename, parent_path, path_of, path_of_name, append_path,
  append_name, normalized_trimmed, normal_loop,
}
use utbot_cpp.Paths.FileNames.{
  dot_sep, test_suffix, add_suffix, remove_suffix, suffixed_name, encoded_name, decoded_name,
  without_last, add_orig_extension_as_suffix_and_add_new, restore_extension_from_suffix,
}
use utbot_cpp.Paths.FileKinds.{
  is_source_file, is_c_file, is_cxx_file, cxx_file_extensions, c_file_source_extensions,
}
use utbot_cpp.Paths.Project.{
  source_path_to_test_path, source_path_to_test_name, test_path_to_source_name,
  get_relative_dir_path,
}
use utbot_cpp.Paths.ProjectDirs.{ProjectContext, get_test_dir_abs_path}
use utbot_cpp.Paths.Directories.{IsName, filename-append_name}
use utbot_cpp.Paths.Stems.{
  no_dot_dot, split_name-append, split_name_lem, without_last-append, decoded_name-append,
}

-- What stands behind the dot of an extension that a name can keep.
abbrev pub IsExtension : Text → Type 0
IsExtension e = (e ≢ []) × Lacks b'.' e × (rfind dot_sep (dot_sep ++ e) ≡ some 0)

abbrev pub IsExtended : Text → Type 0
IsExtended x = (e : Text) × (x ≡ b'.' ∷ e) × IsExtension e

any-text_eq :
    (P : Text → Type 0) (xs : List Text) (x : Text)
    → All P xs
    → any (λ y. text_eq y x) xs ≡ true
    → P x
any-text_eq P [] x h e = cc
any-text_eq P (y ∷ xs) x (here, h) e = elim (Bool-cases (text_eq y x)) [
  | inl same ↦ subst P (text_eq_sound y x same) here
  | inr other ↦ any-text_eq P xs x h (ground arith)
]

pub all-Lacks : (b : ℕ) (s : Text) → all (λ c. not (c == b)) s ≡ true → Lacks b s
all-Lacks b [] e = tt
all-Lacks b (c ∷ s) e = (ground arith, all-Lacks b s (ground arith))

IsExtended-cons :
    (c : ℕ) (s : Text)
    → all (λ d. not (d == b'.')) (c ∷ s) ≡ true
    → rfind dot_sep (dot_sep ++ c ∷ s) ≡ some 0
    → IsExtended (b'.' ∷ c ∷ s)
IsExtended-cons c s no_dot found = (c ∷ s, refl, (λ e. cc, all-Lacks b'.' (c ∷ s) no_dot, found))

cxx_file_extensions-IsExtended : All IsExtended cxx_file_extensions
unfolding rfind codes starts_with text_eq
cxx_file_extensions-IsExtended = (
  IsExtended-cons b'c' (b'c' ∷ []) refl refl,
  (
    IsExtended-cons b'c' (b'p' ∷ []) refl refl,
    (
      IsExtended-cons b'c' (b'p' ∷ b'p' ∷ []) refl refl,
      (
        IsExtended-cons b'c' (b'+' ∷ b'+' ∷ []) refl refl,
        (IsExtended-cons b'c' (b'x' ∷ b'x' ∷ []) refl refl, tt),
      ),
    ),
  ),
)

c_file_source_extensions-IsExtended : All IsExtended c_file_source_extensions
unfolding rfind codes starts_with text_eq
c_file_source_extensions-IsExtended = (IsExtended-cons b'c' [] refl refl, tt)

is_source_file-IsExtended : (p : FilePath) → is_source_file p ≡ true → IsExtended (extension p)
unfolding is_source_file is_c_file is_cxx_file codes extension
is_source_file-IsExtended p e = elim (Bool-cases (is_c_file p)) [
  | inl is_c ↦
      any-text_eq IsExtended c_file_source_extensions (extension p)
        c_file_source_extensions-IsExtended is_c
  | inr not_c ↦
      any-text_eq IsExtended cxx_file_extensions (extension p) cxx_file_extensions-IsExtended
        (ground arith)
]

IsName-append : (front ext : Text) → front ≢ [] → ext ≢ [] → IsName (front ++ b'.' ∷ ext)
unfolding text_eq
IsName-append [] ext some_front some_byte = absurd (some_front refl)
IsName-append (c ∷ []) ext some_front some_byte = (ground arith, no_dot_dot c [] ext some_byte)
IsName-append (c ∷ d ∷ front) ext some_front some_byte =
    (ground arith, no_dot_dot c (d ∷ front) ext some_byte)

-- A name without a slash is a path of one name.
path_of-path_of_name :
    (name : Text) → IsName name → Lacks b'/' name → path_of name ≡ path_of_name name
unfolding path_of path_of_name normalized_trimmed normal_loop join_with
path_of-path_of_name [] h lacks = refl
path_of-path_of_name (c ∷ s) (some_name, up) lacks =
    let split_one : getline_loop b'/' [] (c ∷ s) ≡ (c ∷ s) ∷ [] =
      getline_loop-join_with b'/' ((c ∷ s) ∷ []) ((lacks, λ e. cc), tt) in
    let relative : (c == b'/') ≡ false = ground (arith, lacks.0) in
    rw (relative, split_one) (rw (some_name, up) refl)

append-some : (front s : Text) → front ≢ [] → front ++ s ≢ []
append-some [] s some_front = absurd (some_front refl)
append-some (c ∷ front) s some_front = λ e. cc

-- Names that end in `.cpp`.
IsName-cpp : (front : Text) → front ≢ [] → IsName (front ++ codes ".cpp")
unfolding codes
IsName-cpp front some_front = IsName-append front (codes "cpp") some_front (λ e. cc)

split_name-cpp :
    (front : Text) → front ≢ [] → split_name (front ++ codes ".cpp") ≡ (front, codes ".cpp")
unfolding codes
split_name-cpp front some_front =
    split_name-append front (codes "cpp") some_front (λ e. cc) (all-Lacks b'.' (codes "cpp") refl)

-- The path of a name that ends so, in any directory.
module _ (p : FilePath) (front : Text) (some_front : front ≢ [])
    (e : filename p ≡ front ++ codes ".cpp") where
  filename-add_suffix :
      (suffix : Text) → filename (add_suffix p suffix) ≡ (front ++ suffix) ++ codes ".cpp"
  unfolding add_suffix suffixed_name stem extension
  filename-add_suffix suffix =
      let cut = ap split_name e ∙ split_name-cpp front some_front in
      let name : suffixed_name p suffix ≡ (front ++ suffix) ++ codes ".cpp" =
        ap (λ c. c.0 ++ (suffix ++ c.1)) cut ∙ sym (append_assoc front suffix (codes ".cpp")) in
      ap (λ n. filename (append_name (parent_path p) n)) name
      ∙ filename-append_name (parent_path p) _
          (IsName-cpp (front ++ suffix) (append-some front suffix some_front))

  stem-cpp : stem p ≡ front
  unfolding stem
  stem-cpp = ap (λ c. c.0) (ap split_name e ∙ split_name-cpp front some_front)

  extension-cpp : extension p ≡ codes ".cpp"
  unfolding extension
  extension-cpp = ap (λ c. c.1) (ap split_name e ∙ split_name-cpp front some_front)

stem-extension : (p : FilePath) → stem p ++ extension p ≡ filename p
unfolding stem extension
stem-extension p = (split_name_lem (filename p)).0

stem_some : (p : FilePath) (e : Text) → extension p ≡ b'.' ∷ e → stem p ≢ []
unfolding stem extension
stem_some p e kept = (split_name_lem (filename p)).1 (λ none_left. ground (arith, kept, none_left))

-- A source file, by the two parts of its name.
module _ (source : FilePath) (e : Text) (h : IsExtension e) (kept : extension source ≡ b'.' ∷ e)
    (some_stem : stem source ≢ []) where
  -- `sourcePathToTestName` of it, less its ending.
  abbrev kept_name : Text
  kept_name = stem source ++ (dot_sep ++ e)

  kept_name_some : kept_name ≢ []
  kept_name_some = append-some (stem source) (dot_sep ++ e) some_stem

  source_parts : stem source ++ b'.' ∷ e ≡ filename source
  source_parts = ap (λ x. stem source ++ x) (sym kept) ∙ stem-extension source

  source-IsName : IsName (filename source)
  source-IsName = subst IsName source_parts (IsName-append (stem source) e some_stem h.0)

  filename-encoded :
      filename (add_orig_extension_as_suffix_and_add_new source (codes ".cpp"))
      ≡ kept_name ++ codes ".cpp"
  unfolding add_orig_extension_as_suffix_and_add_new encoded_name
  filename-encoded =
      let name : encoded_name (stem source) (b'.' ∷ e) (codes ".cpp") ≡ kept_name ++ codes ".cpp" =
        simp append_assoc in
      rw kept (
        ap (λ n. filename (append_name (parent_path source) n)) name
        ∙ filename-append_name (parent_path source) _ (IsName-cpp kept_name kept_name_some))

  source_path_to_test_name-kept :
      source_path_to_test_name source ≡ (kept_name ++ test_suffix) ++ codes ".cpp"
  unfolding source_path_to_test_name
  source_path_to_test_name-kept =
      filename-add_suffix (add_orig_extension_as_suffix_and_add_new source (codes ".cpp")) kept_name
        kept_name_some filename-encoded test_suffix

  module _ (test : FilePath)
      (named : filename test ≡ (kept_name ++ test_suffix) ++ codes ".cpp") where
    filename-remove_suffix : filename (remove_suffix test test_suffix) ≡ kept_name ++ codes ".cpp"
    unfolding remove_suffix rfind codes starts_with text_eq
    filename-remove_suffix =
        let some_front = append-some kept_name test_suffix kept_name_some in
        let name : without_last (stem test) test_suffix ++ extension test
            ≡ kept_name ++ codes ".cpp" =
          rw
            (
              stem-cpp test (kept_name ++ test_suffix) some_front named,
              extension-cpp test (kept_name ++ test_suffix) some_front named,
              without_last-append kept_name test_suffix refl,
            )
            refl in
        ap (λ n. filename (append_name (parent_path test) n)) name
        ∙ filename-append_name (parent_path test) _ (IsName-cpp kept_name kept_name_some)

    test_path_to_source_name-kept :
        Lacks b'/' (filename source) → test_path_to_source_name test ≡ filename source
    unfolding test_path_to_source_name restore_extension_from_suffix
    test_path_to_source_name-kept no_slash =
        let back = remove_suffix test test_suffix in
        let decoded : decoded_name (stem back) (codes ".c") ≡ filename source =
          ap (λ s. decoded_name s (codes ".c"))
            (stem-cpp back kept_name kept_name_some filename-remove_suffix)
          ∙ decoded_name-append (stem source) e (codes ".c") h.2
          ∙ source_parts in
        ap (λ s. filename (append_path (parent_path back) (path_of s))) decoded
        ∙ ap (λ q. filename (append_path (parent_path back) q))
            (path_of-path_of_name (filename source) source-IsName no_slash)
        ∙ (unfold append_name in
            filename-append_name (parent_path back) (filename source) source-IsName)

pub filename_some : (source : FilePath) → is_source_file source ≡ true → filename source ≢ []
filename_some source is_source =
    let (e, kept, h) = is_source_file-IsExtended source is_source in
    subst (λ s. s ≢ []) (source_parts source e h kept (stem_some source e kept))
      (append-some (stem source) (b'.' ∷ e) (stem_some source e kept))

-- The name of the tests is a name, and stands last in their path.
pub source_path_to_test_name-IsName :
    (source : FilePath) → is_source_file source ≡ true → IsName (source_path_to_test_name source)
source_path_to_test_name-IsName source is_source =
    let (e, kept, h) = is_source_file-IsExtended source is_source in
    let some_stem = stem_some source e kept in
    subst IsName (sym (source_path_to_test_name-kept source e h kept some_stem)) (
      IsName-cpp _ (
        append-some (kept_name source e h kept some_stem) test_suffix
          (kept_name_some source e h kept some_stem)))

-- `testPathToSourceName` of the path of the tests of a source file is the name of the file, whatever
-- `fs::relative` gives, if the file has one of the extensions of C and C++ sources and its name no
-- slash.
pub test_path_to_source_name-source_path_to_test_path :
    (relative : FilePath → FilePath → FilePath) (ctx : ProjectContext) (source : FilePath)
    → is_source_file source ≡ true
    → Lacks b'/' (filename source)
    → test_path_to_source_name (source_path_to_test_path relative ctx source) ≡ filename source
unfolding source_path_to_test_path
test_path_to_source_name-source_path_to_test_path relative ctx source is_source no_slash =
    let (e, kept, h) = is_source_file-IsExtended source is_source in
    let some_stem = stem_some source e kept in
    test_path_to_source_name-kept source e h kept some_stem
      (source_path_to_test_path relative ctx source)
      (filename-append_name
          (append_path (get_test_dir_abs_path ctx) (get_relative_dir_path relative ctx source)) _
          (source_path_to_test_name-IsName source is_source)
        ∙ source_path_to_test_name-kept source e h kept some_stem)
      no_slash
