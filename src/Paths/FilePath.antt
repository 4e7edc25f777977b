-- ===== src/Paths/FilePath.antt =====
-- `fs::path` of server/src/utils/path/FileSystemPath.h: a `std::filesystem::path` in its lexically normal
-- form, without a slash at its end.
use utbot_cpp.Base.{
  Bool, true, false, ◌&&◌, ◌||◌, List, [], ◌∷◌, ◌++◌, Text, text_eq, ◌==◌, if◌then◌else◌, Option,
  none, some,
}
use utbot_cpp.Strings.Affixes.{is_empty}
use utbot_cpp.Strings.Split.{getline_loop, join_with}
use mathlib.Core.List.{reverse}

-- The names from the root, or from where the path is relative to. The empty path has no names and is
-- relative; the path `.` has that name.
pub record FilePath : Type 0 where
  pub is_absolute : Bool
  pub parts : List Text

-- One name on top of those before it: `.` adds nothing, and `..` takes the last one off if it can.
abbrev pub is_dot : Text → Bool
is_dot s = text_eq s (b'.' ∷ [])

abbrev pub is_dot_dot : Text → Bool
is_dot_dot s = text_eq s (b'.' ∷ b'.' ∷ [])

abbrev pub push_dot_dot : Bool → List Text → List Text
push_dot_dot absolute [] = if absolute then [] else (b'.' ∷ b'.' ∷ []) ∷ []
push_dot_dot absolute (top ∷ stack) =
    if is_dot_dot top then (b'.' ∷ b'.' ∷ []) ∷ top ∷ stack else stack

abbrev pub push_part : Bool → Text → List Text → List Text
push_part absolute part stack =
    if is_empty part || is_dot part
    then stack
    else if is_dot_dot part
    then push_dot_dot absolute stack
    else part ∷ stack

unfoldable pub normal_loop : Bool → List Text → List Text → List Text
normal_loop absolute stack [] = reverse stack
normal_loop absolute stack (part ∷ parts) =
    normal_loop absolute (push_part absolute part stack) parts

abbrev pub dot_if_empty : Bool → List Text → List Text
dot_if_empty false [] = (b'.' ∷ []) ∷ []
dot_if_empty absolute parts = parts

-- `normalizedTrimmed`.
unfoldable pub normalized_trimmed : Bool → List Text → FilePath
unfolding normal_loop
normalized_trimmed absolute [] = record { is_absolute = absolute; parts = [] }
normalized_trimmed absolute (part ∷ parts) = record {
  is_absolute = absolute;
  parts = dot_if_empty absolute (normal_loop absolute [] (part ∷ parts));
}

-- From a text and to a text.
unfoldable pub path_of : Text → FilePath
unfolding normalized_trimmed getline_loop
path_of [] = record { is_absolute = false; parts = [] }
path_of (c ∷ s) = normalized_trimmed (c == b'/') (getline_loop b'/' [] (c ∷ s))

unfoldable pub path_string : FilePath → Text
unfolding join_with
path_string p =
    let names = join_with p.parts (b'/' ∷ []) in if p.is_absolute then b'/' ∷ names else names

abbrev pub last_part : List Text → Text
last_part [] = []
last_part (part ∷ []) = part
last_part (part ∷ next ∷ parts) = last_part (next ∷ parts)

abbrev pub front_parts : List Text → List Text
front_parts [] = []
front_parts (part ∷ []) = []
front_parts (part ∷ next ∷ parts) = part ∷ front_parts (next ∷ parts)

unfoldable pub filename : FilePath → Text
filename p = last_part p.parts

unfoldable pub parent_path : FilePath → FilePath
parent_path p = record p { parts = front_parts p.parts }

-- A name is cut at its last dot, unless that is its first byte, or the name is `..`.
-- The result is what stands in front of the last dot, and from it.
unfoldable pub last_dot : Text → Option (Text × Text)
last_dot [] = none
last_dot (c ∷ s) = elim (last_dot s) [
  | some (front, behind) ↦ some (c ∷ front, behind)
  | none ↦ if c == b'.' then some ([], c ∷ s) else none
]

unfoldable pub split_name : Text → Text × Text
unfolding last_dot
split_name name = if is_dot_dot name then (name, []) else elim (last_dot name) [
  | none ↦ (name, [])
  | some ([], behind) ↦ (name, [])
  | some (c ∷ front, behind) ↦ (c ∷ front, behind)
]

unfoldable pub stem : FilePath → Text
unfolding filename split_name
stem p = (split_name (filename p)).0

unfoldable pub extension : FilePath → Text
unfolding filename split_name
extension p = (split_name (filename p)).1

unfoldable pub has_extension : FilePath → Bool
unfolding extension
has_extension p = elim (extension p) [ [] ↦ false | c ∷ s ↦ true ]

-- `operator/`.
unfoldable pub append_path : FilePath → FilePath → FilePath
unfolding normalized_trimmed
append_path a b = if b.is_absolute then b else normalized_trimmed a.is_absolute (a.parts ++ b.parts)

-- A name as a path, and `path / name`.
unfoldable pub path_of_name : Text → FilePath
path_of_name [] = record { is_absolute = false; parts = [] }
path_of_name (c ∷ s) = record { is_absolute = false; parts = (c ∷ s) ∷ [] }

unfoldable pub append_name : FilePath → Text → FilePath
unfolding append_path path_of_name
append_name p name = append_path p (path_of_name name)

-- Neither this nor `replace_filename` makes the path normal again.
abbrev pub with_dot : Text → Text
with_dot [] = []
with_dot (c ∷ s) = if c == b'.' then c ∷ s else b'.' ∷ c ∷ s

abbrev pub change_last : (Text → Text) → List Text → List Text
change_last f [] = if is_empty (f []) then [] else f [] ∷ []
change_last f (part ∷ []) = f part ∷ []
change_last f (part ∷ next ∷ parts) = part ∷ change_last f (next ∷ parts)

unfoldable pub replace_extension : FilePath → Text → FilePath
unfolding split_name
replace_extension p extension = record p {
  parts = change_last (λ name. (split_name name).0 ++ with_dot extension) p.parts;
}

unfoldable pub replace_filename : FilePath → Text → FilePath
unfolding parent_path
replace_filename p name = record p { parts = front_parts p.parts ++ name ∷ [] }

-- Names compare one by one.
unfoldable pub parts_eq : List Text → List Text → Bool
parts_eq [] [] = true
parts_eq (a ∷ as_) (b ∷ bs) = text_eq a b && parts_eq as_ bs
parts_eq _ _ = false
