-- ===== src/Paths/Normal.antt =====
-- The normal form of paths: what `normalizedTrimmed` of server/src/utils/path/FileSystemPath.h and the
-- `operator/` that calls it give.
use utbot_cpp.Base.{
  Bool, true, false, ◌||◌, List, [], ◌∷◌, ◌++◌, ◌≡◌, refl, sym, ap, ◌∙◌, Text, text_eq, Bool-cases,
  inl, inr,
}
use utbot_cpp.Strings.Affixes.{is_empty}
use utbot_cpp.Paths.FilePath.{
  FilePath, is_dot, is_dot_dot, push_dot_dot, push_part, normal_loop, dot_if_empty,
  normalized_trimmed,
}
use mathlib.Core.List.{reverse, reverse-append}

-- The stack at the end of the loop.
module _ (absolute : Bool) where
  abbrev pub stack_after : List Text → List Text → List Text
  stack_after stack [] = stack
  stack_after stack (part ∷ parts) = stack_after (push_part absolute part stack) parts

  stack_after-append :
      (stack parts : List Text) (part : Text)
      → stack_after stack (parts ++ part ∷ []) ≡ push_part absolute part (stack_after stack parts)
  stack_after-append stack [] part = refl
  stack_after-append stack (p ∷ parts) part =
      stack_after-append (push_part absolute p stack) parts part

  pub normal_loop-stack_after :
      (stack parts : List Text)
      → normal_loop absolute stack parts ≡ reverse (stack_after stack parts)
  unfolding normal_loop
  normal_loop-stack_after stack [] = refl
  normal_loop-stack_after stack (part ∷ parts) =
      normal_loop-stack_after (push_part absolute part stack) parts

  -- A stack that was made by pushing: the name on its top would be pushed again.
  abbrev pub IsStack : List Text → Type 0
  IsStack [] = Unit
  IsStack (part ∷ stack) = (push_part absolute part stack ≡ part ∷ stack) × IsStack stack

  push_dot_dot-IsStack : (stack : List Text) → IsStack stack → IsStack (push_dot_dot absolute stack)
  unfolding text_eq
  push_dot_dot-IsStack [] h = elim (Bool-cases absolute) [
    | inl e ↦ rw e tt
    | inr e ↦ rw e (refl, tt)
  ]
  push_dot_dot-IsStack (top ∷ stack) h = elim (Bool-cases (is_dot_dot top)) [
    | inl e ↦ rw e (rw e refl, h)
    | inr e ↦ rw e h.1
  ]

  push_part-IsStack :
      (part : Text) (stack : List Text) → IsStack stack → IsStack (push_part absolute part stack)
  push_part-IsStack part stack h = elim (Bool-cases (is_empty part || is_dot part)) [
    | inl e ↦ rw e h
    | inr e ↦ elim (Bool-cases (is_dot_dot part)) [
      | inr name ↦ rw (e, name) (rw (e, name) refl, h)
      | inl up ↦ rw (e, up) (push_dot_dot-IsStack stack h)
    ]
  ]

  stack_after-IsStack :
      (stack parts : List Text) → IsStack stack → IsStack (stack_after stack parts)
  stack_after-IsStack stack [] h = h
  stack_after-IsStack stack (part ∷ parts) h =
      stack_after-IsStack (push_part absolute part stack) parts (push_part-IsStack part stack h)

  reverse_cons :
      (part : Text) (stack : List Text) → reverse (part ∷ stack) ≡ reverse stack ++ part ∷ []
  reverse_cons part stack = reverse-append (part ∷ []) stack

  -- Such a stack is pushed again name by name.
  stack_after-reverse : (stack : List Text) → IsStack stack → stack_after [] (reverse stack) ≡ stack
  stack_after-reverse [] h = refl
  stack_after-reverse (part ∷ stack) (here, h) =
      ap (stack_after []) (reverse_cons part stack)
      ∙ stack_after-append [] (reverse stack) part
      ∙ ap (push_part absolute part) (stack_after-reverse stack h)
      ∙ here

  normal_loop-normal_loop :
      (parts : List Text)
      → normal_loop absolute [] (normal_loop absolute [] parts) ≡ normal_loop absolute [] parts
  normal_loop-normal_loop parts =
      ap (normal_loop absolute []) (normal_loop-stack_after [] parts)
      ∙ normal_loop-stack_after [] (reverse (stack_after [] parts))
      ∙ ap reverse (stack_after-reverse (stack_after [] parts) (stack_after-IsStack [] parts tt))
      ∙ sym (normal_loop-stack_after [] parts)

-- A path that is its own normal form.
abbrev pub IsNormal : FilePath → Type 0
IsNormal p = normalized_trimmed p.is_absolute p.parts ≡ p

-- The normal form of any names.
abbrev pub normal_parts : Bool → List Text → List Text
normal_parts absolute [] = []
normal_parts absolute (part ∷ parts) =
    dot_if_empty absolute (normal_loop absolute [] (part ∷ parts))

pub normalized_trimmed-normal_parts :
    (absolute : Bool) (parts : List Text)
    → normalized_trimmed absolute parts
      ≡ record { is_absolute = absolute; parts = normal_parts absolute parts }
unfolding normalized_trimmed
normalized_trimmed-normal_parts absolute [] = refl
normalized_trimmed-normal_parts absolute (part ∷ parts) = refl

normal_parts_of :
    (absolute : Bool) (parts : List Text)
    → normal_loop absolute [] parts ≡ parts
    → normal_parts absolute (dot_if_empty absolute parts) ≡ dot_if_empty absolute parts
normal_parts_of true [] e = refl
normal_parts_of false [] e = unfold normal_loop text_eq in refl
normal_parts_of true (part ∷ parts) e = ap (dot_if_empty true) e
normal_parts_of false (part ∷ parts) e = ap (dot_if_empty false) e

normal_parts-normal_parts :
    (absolute : Bool) (parts : List Text)
    → normal_parts absolute (normal_parts absolute parts) ≡ normal_parts absolute parts
normal_parts-normal_parts absolute [] = refl
normal_parts-normal_parts absolute (part ∷ parts) =
    normal_parts_of absolute (normal_loop absolute [] (part ∷ parts))
      (normal_loop-normal_loop absolute (part ∷ parts))

-- A path that the program has put in normal form stays as it is when that is done again.
pub normalized_trimmed-IsNormal :
    (absolute : Bool) (parts : List Text) → IsNormal (normalized_trimmed absolute parts)
normalized_trimmed-IsNormal absolute parts = rw (normalized_trimmed-normal_parts absolute parts) (
    normalized_trimmed-normal_parts absolute (normal_parts absolute parts)
    ∙ ap (λ ps. record { is_absolute = absolute; parts = ps })
        (normal_parts-normal_parts absolute parts))

-- A name that every stack takes comes last.
pub normal_loop_snoc :
    (absolute : Bool) (parts : List Text) (name : Text)
    → ((stack : List Text) → push_part absolute name stack ≡ name ∷ stack)
    → normal_loop absolute [] (parts ++ name ∷ []) ≡ normal_loop absolute [] parts ++ name ∷ []
normal_loop_snoc absolute parts name here =
    normal_loop-stack_after absolute [] (parts ++ name ∷ [])
    ∙ ap reverse (stack_after-append absolute [] parts name ∙ here (stack_after absolute [] parts))
    ∙ reverse_cons absolute name (stack_after absolute [] parts)
    ∙ ap (λ ps. ps ++ name ∷ []) (sym (normal_loop-stack_after absolute [] parts))
