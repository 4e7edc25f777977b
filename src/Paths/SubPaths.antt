-- ===== src/Paths/SubPaths.antt =====
-- `isSubPathOf` of server/src/Paths.cpp, and what stands behind a directory.
use utbot_cpp.Base.{
  Bool, true, false, ◌||◌, List, [], ◌∷◌, ◌++◌, ◌≡◌, refl, sym, ap, ◌∙◌, subst, Text, text_eq_refl,
  if◌then◌else◌, All, append_assoc, Bool-cases, inl, inr,
}
use mathlib.Core.List.{reverse, reverse-append}
use utbot_cpp.Strings.Affixes.{is_empty}
use utbot_cpp.Paths.FilePath.{
  is_dot, is_dot_dot, FilePath, push_part, normal_loop, parent_path, append_path,
  normalized_trimmed,
}
use utbot_cpp.Paths.FileNames.{is_sub_path_of, names_of, is_prefix}
use utbot_cpp.Paths.Normal.{stack_after, normal_loop-stack_after, normalized_trimmed-normal_parts}
use utbot_cpp.Paths.Directories.{
  IsDirectory, IsDirectory-normal_loop, normal_parts_absolute, append_path_relative,
}

-- Names that go only deeper stay behind what they are put behind.
abbrev pub GoesDeeper : List Text → Type 0
GoesDeeper = All (λ part. is_dot_dot part ≡ false)

stack_after-GoesDeeper :
    (absolute : Bool) (stack parts : List Text)
    → GoesDeeper parts
    → (more : List Text) × (stack_after absolute stack parts ≡ more ++ stack)
stack_after-GoesDeeper absolute stack [] h = ([], refl)
stack_after-GoesDeeper absolute stack (part ∷ parts) (here, h) =
    elim (Bool-cases (is_empty part || is_dot part)) [
      | inl none_new ↦ rw none_new (stack_after-GoesDeeper absolute stack parts h)
      | inr new ↦
          let (more, e) = stack_after-GoesDeeper absolute (part ∷ stack) parts h in
          (more ++ part ∷ [], rw (new, here) (e ∙ sym (append_assoc more (part ∷ []) stack)))
    ]

is_prefix-append : (xs ys : List Text) → is_prefix xs (xs ++ ys) ≡ true
unfolding is_prefix
is_prefix-append [] ys = refl
is_prefix-append (x ∷ xs) ys = rw (text_eq_refl x, is_prefix-append xs ys) refl

stack_after_concat :
    (absolute : Bool) (stack xs ys : List Text)
    → stack_after absolute stack (xs ++ ys)
      ≡ stack_after absolute (stack_after absolute stack xs) ys
stack_after_concat absolute stack [] ys = refl
stack_after_concat absolute stack (x ∷ xs) ys =
    stack_after_concat absolute (push_part absolute x stack) xs ys

normal_loop-GoesDeeper :
    (xs ys : List Text)
    → normal_loop true [] xs ≡ xs
    → GoesDeeper ys
    → (more : List Text) × (normal_loop true [] (xs ++ ys) ≡ xs ++ more)
normal_loop-GoesDeeper xs ys normal h =
    let (more, e) = stack_after-GoesDeeper true (stack_after true [] xs) ys h in
    (
      reverse more,
      normal_loop-stack_after true [] (xs ++ ys)
          ∙ ap reverse (stack_after_concat true [] xs ys ∙ e)
          ∙ reverse-append more (stack_after true [] xs)
          ∙ ap (λ ps. ps ++ reverse more) (sym (normal_loop-stack_after true [] xs) ∙ normal),
    )

append_path-GoesDeeper :
    (a b : FilePath)
    → IsDirectory a
    → b.is_absolute ≡ false
    → GoesDeeper b.parts
    → (more : List Text) × (append_path a b
        ≡ record { is_absolute = true; parts = a.parts ++ more })
append_path-GoesDeeper a b d behind h =
    let normal : normal_loop true [] a.parts ≡ a.parts =
      subst (λ t. normal_loop t [] a.parts ≡ a.parts) d.0 (IsDirectory-normal_loop a d) in
    let (more, e) = normal_loop-GoesDeeper a.parts b.parts normal h in
    (
      more,
      append_path_relative a b behind
          ∙ ap (λ t. normalized_trimmed t (a.parts ++ b.parts)) d.0
          ∙ normalized_trimmed-normal_parts true (a.parts ++ b.parts)
          ∙ ap {B = FilePath} (λ ps. record { is_absolute = true; parts = ps })
              (normal_parts_absolute (a.parts ++ b.parts) ∙ e),
    )

pub is_sub_path_of-append_path :
    (a b p : FilePath)
    → IsDirectory a
    → b.is_absolute ≡ false
    → GoesDeeper b.parts
    → parent_path p ≡ append_path a b
    → is_sub_path_of a p ≡ true
unfolding is_sub_path_of names_of is_prefix
is_sub_path_of-append_path a b p d behind h parent =
    let (more, e) = append_path-GoesDeeper a b d behind h in
    ap (λ q. is_prefix (names_of a) (names_of q)) (parent ∙ e)
    ∙ ap
        (λ t.
          is_prefix (if t then (b'/' ∷ []) ∷ a.parts else a.parts)
            ((b'/' ∷ []) ∷ (a.parts ++ more)))
        d.0
    ∙ is_prefix-append ((b'/' ∷ []) ∷ a.parts) more
