-- ===== src/Paths/Directories.antt =====
-- The directory and the name of a path of server/src/utils/path/FileSystemPath.h, taken apart and put
-- together.
use utbot_cpp.Base.{
  Bool, true, false, ◌||◌, List, [], ◌∷◌, ◌++◌, ◌≡◌, ◌≢◌, refl, sym, ap, ◌∙◌, subst, Text,
  if◌then◌else◌,
}
use utbot_cpp.Strings.Affixes.{is_empty}
use utbot_cpp.Paths.FilePath.{
  FilePath, is_dot, is_dot_dot, normal_loop, dot_if_empty, normalized_trimmed, last_part,
  front_parts, filename, parent_path, path_of_name, append_path, append_name,
}
use utbot_cpp.Paths.Normal.{
  IsNormal, normalized_trimmed-IsNormal, normal_parts, normalized_trimmed-normal_parts,
  normal_loop_snoc,
}

-- A name that stands for itself in a path.
abbrev pub IsName : Text → Type 0
IsName name = ((is_empty name || is_dot name) ≡ false) × (is_dot_dot name ≡ false)

dot_if_empty_snoc :
    (absolute : Bool) (parts : List Text) (name : Text)
    → dot_if_empty absolute (parts ++ name ∷ []) ≡ parts ++ name ∷ []
dot_if_empty_snoc true [] name = refl
dot_if_empty_snoc false [] name = refl
dot_if_empty_snoc true (part ∷ parts) name = refl
dot_if_empty_snoc false (part ∷ parts) name = refl

normal_parts_snoc :
    (absolute : Bool) (parts : List Text) (name : Text)
    → IsName name
    → normal_parts absolute (parts ++ name ∷ []) ≡ normal_loop absolute [] parts ++ name ∷ []
normal_parts_snoc absolute [] name (some_name, up) =
    ap (dot_if_empty absolute)
      (normal_loop_snoc absolute [] name (λ stack. rw (some_name, up) refl))
    ∙ dot_if_empty_snoc absolute (normal_loop absolute [] []) name
normal_parts_snoc absolute (part ∷ parts) name (some_name, up) =
    ap (dot_if_empty absolute)
      (normal_loop_snoc absolute (part ∷ parts) name (λ stack. rw (some_name, up) refl))
    ∙ dot_if_empty_snoc absolute (normal_loop absolute [] (part ∷ parts)) name

pub append_name-normal_loop :
    (p : FilePath) (name : Text)
    → IsName name
    → append_name p name ≡ record {
      is_absolute = p.is_absolute;
      parts = normal_loop p.is_absolute [] p.parts ++ name ∷ [];
    }
unfolding append_name append_path path_of_name
append_name-normal_loop p [] (some_name, up) = cc
append_name-normal_loop p (c ∷ s) h =
    normalized_trimmed-normal_parts p.is_absolute (p.parts ++ (c ∷ s) ∷ [])
    ∙ ap (λ ps. record { is_absolute = p.is_absolute; parts = ps })
        (normal_parts_snoc p.is_absolute p.parts (c ∷ s) h)

last_part_snoc : (parts : List Text) (name : Text) → last_part (parts ++ name ∷ []) ≡ name
last_part_snoc [] name = refl
last_part_snoc (part ∷ []) name = refl
last_part_snoc (part ∷ next ∷ parts) name = last_part_snoc (next ∷ parts) name

front_parts_snoc : (parts : List Text) (name : Text) → front_parts (parts ++ name ∷ []) ≡ parts
front_parts_snoc [] name = refl
front_parts_snoc (part ∷ []) name = refl
front_parts_snoc (part ∷ next ∷ parts) name =
    ap (λ ps. part ∷ ps) (front_parts_snoc (next ∷ parts) name)

pub filename-append_name :
    (p : FilePath) (name : Text) → IsName name → filename (append_name p name) ≡ name
unfolding filename
filename-append_name p name h =
    ap (λ q. last_part q.parts) (append_name-normal_loop p name h)
    ∙ last_part_snoc (normal_loop p.is_absolute [] p.parts) name

pub normal_parts_absolute :
    (parts : List Text) → normal_parts true parts ≡ normal_loop true [] parts
normal_parts_absolute [] = unfold normal_loop in refl
normal_parts_absolute (part ∷ parts) = dot_if_absolute (normal_loop true [] (part ∷ parts))
  where
    dot_if_absolute : (ps : List Text) → dot_if_empty true ps ≡ ps
    dot_if_absolute [] = refl
    dot_if_absolute (p ∷ ps) = refl

-- A directory in normal form that is absolute: `.` is none, as `./a` becomes `a`.
abbrev pub IsDirectory : FilePath → Type 0
IsDirectory p = (p.is_absolute ≡ true) × IsNormal p

pub IsDirectory-normal_loop :
    (p : FilePath) → IsDirectory p → normal_loop p.is_absolute [] p.parts ≡ p.parts
IsDirectory-normal_loop p (absolute, normal) = rw absolute (
    sym (normal_parts_absolute p.parts)
    ∙ ap (λ a. normal_parts a p.parts) (sym absolute)
    ∙ ap (λ q. q.parts) (sym (normalized_trimmed-normal_parts p.is_absolute p.parts) ∙ normal))

pub parent_path-append_name :
    (p : FilePath) (name : Text)
    → IsDirectory p
    → IsName name
    → parent_path (append_name p name) ≡ p
unfolding parent_path
parent_path-append_name p name d h =
    ap {A = FilePath} (λ q. record q { parts = front_parts q.parts })
      (append_name-normal_loop p name h)
    ∙ ap {B = FilePath} (λ ps. record { is_absolute = p.is_absolute; parts = ps })
        (front_parts_snoc (normal_loop p.is_absolute [] p.parts) name ∙ IsDirectory-normal_loop p d)

front_last :
    (parts : List Text) → last_part parts ≢ [] → front_parts parts ++ last_part parts ∷ [] ≡ parts
front_last [] some_name = absurd (some_name refl)
front_last (part ∷ []) some_name = refl
front_last (part ∷ next ∷ parts) some_name =
    ap (λ ps. part ∷ ps) (front_last (next ∷ parts) some_name)

append_name_parts :
    (p : FilePath) (name : Text)
    → name ≢ []
    → append_name p name ≡ normalized_trimmed p.is_absolute (p.parts ++ name ∷ [])
unfolding append_name append_path path_of_name
append_name_parts p [] some_name = absurd (some_name refl)
append_name_parts p (c ∷ s) some_name = refl

-- The directory and the name give the path back.
pub append_name-parent_path :
    (p : FilePath) → IsNormal p → filename p ≢ [] → append_name (parent_path p) (filename p) ≡ p
unfolding parent_path filename
append_name-parent_path p normal some_name =
    append_name_parts (parent_path p) (last_part p.parts) some_name
    ∙ ap (normalized_trimmed p.is_absolute) (front_last p.parts some_name)
    ∙ normal

pub append_path_relative :
    (a b : FilePath)
    → b.is_absolute ≡ false
    → append_path a b ≡ normalized_trimmed a.is_absolute (a.parts ++ b.parts)
unfolding append_path
append_path_relative a b behind =
    ap {B = FilePath} (λ t. if t then b else normalized_trimmed a.is_absolute (a.parts ++ b.parts))
      behind

normalized_trimmed-IsDirectory : (parts : List Text) → IsDirectory (normalized_trimmed true parts)
normalized_trimmed-IsDirectory parts = (
  ap {A = FilePath} (λ q. q.is_absolute) (normalized_trimmed-normal_parts true parts),
  normalized_trimmed-IsNormal true parts,
)

-- A path behind an absolute one is absolute, and a normal form.
pub append_path-IsDirectory :
    (a b : FilePath) → a.is_absolute ≡ true → b.is_absolute ≡ false → IsDirectory (append_path a b)
append_path-IsDirectory a b absolute behind =
    subst IsDirectory
      (ap (λ t. normalized_trimmed t (a.parts ++ b.parts)) (sym absolute)
        ∙ sym (append_path_relative a b behind))
      (normalized_trimmed-IsDirectory (a.parts ++ b.parts))
