-- ===== src/Types/Support/Known.antt =====
-- The fields that `isSupportedType` goes down to: those of the structs that the handler knows.
use utbot_cpp.Base.{
  contains_text, ℕ, true, List, [], ◌∷◌, ◌++◌, ◌≡◌, subst, arith, some, Text, text_eq_refl,
  Bool-cases, Option-cases, inl, inr, All, lookup_id, ◌==◌,
}
use utbot_cpp.Types.Kinds.{CType}
use utbot_cpp.Types.Queries.{get_id}
use utbot_cpp.Types.Dimension.{IsWellFormed}
use utbot_cpp.Types.Handler.{TypesHandler, Field, StructInfo, is_struct_like, get_struct_info}
use utbot_cpp.Types.Support.{struct_fields, field_names, all_field_names}

-- A field whose type's name is listed and whose type is well formed.
abbrev pub IsKnown : List Text → Field → Type 0
IsKnown names f = (contains_text f.type.type_name names ≡ true) × IsWellFormed f.type

contains-append_left :
    (n : Text) (xs ys : List Text) → contains_text n xs ≡ true → contains_text n (xs ++ ys) ≡ true
unfolding contains_text
contains-append_left n [] ys c = cc
contains-append_left n (x ∷ xs) ys c = ground (arith, contains-append_left n xs ys)

contains-append_right :
    (n : Text) (xs ys : List Text) → contains_text n ys ≡ true → contains_text n (xs ++ ys) ≡ true
unfolding contains_text
contains-append_right n [] ys c = c
contains-append_right n (x ∷ xs) ys c = ground (arith, contains-append_right n xs ys c)

-- The types of all fields are well formed.
abbrev pub IsWellFormedHandler : TypesHandler → Type 0
IsWellFormedHandler h = All (λ e. All (λ f. IsWellFormed f.type) (e.1).fields) h.structs

All-imp {ℓ κ μ} :
    {A : Type ℓ} {P : A → Type κ} {Q : A → Type μ}
    → ((a : A) → P a → Q a)
    → (xs : List A) → All P xs
    → All Q xs
All-imp f [] h = tt
All-imp f (x ∷ xs) h = (f x h.0, All-imp f xs h.1)

field_names-IsKnown :
    (fs : List Field)
    → All (λ f. IsWellFormed f.type) fs
    → (more : List Text) → All (IsKnown (field_names fs ++ more)) fs
unfolding field_names contains_text
field_names-IsKnown [] h more = tt
field_names-IsKnown (f ∷ fs) h more = (
  (ground (arith, text_eq_refl f.type.type_name), h.0),
  All-imp (λ g k. (ground arith, k.1)) fs (field_names-IsKnown fs h.1 more),
)

lookup-IsKnown :
    (i : ℕ) (ss : List (ℕ × StructInfo)) (s : StructInfo)
    → All (λ e. All (λ f. IsWellFormed f.type) (e.1).fields) ss
    → lookup_id i ss ≡ some s
    → All (IsKnown (all_field_names ss)) s.fields
unfolding lookup_id all_field_names
lookup-IsKnown i [] s h e = cc
lookup-IsKnown i ((k, s₀) ∷ ss) s h e = elim (Bool-cases (k == i)) [
  | inl here ↦
      let same : s₀ ≡ s = ground arith in
      subst
        (λ (u : StructInfo). All (IsKnown (field_names s₀.fields ++ all_field_names ss)) u.fields)
        same (field_names-IsKnown s₀.fields h.0 (all_field_names ss))
  | inr there ↦
      All-imp
        (λ g known.
          (contains-append_right g.type.type_name (field_names s₀.fields) _ known.0, known.1))
        s.fields (lookup-IsKnown i ss s h.1 (ground arith))
]

pub struct_fields-IsKnown :
    (h : TypesHandler) (t : CType)
    → IsWellFormedHandler h
    → All (IsKnown (all_field_names h.structs)) (struct_fields h t)
unfolding get_struct_info
struct_fields-IsKnown h t wf = elim (Bool-cases (is_struct_like h t)) [
  | inr e ↦ rw e tt
  | inl e ↦ elim (Option-cases (lookup_id (get_id t) h.structs)) [
    | inl e' ↦ rw (e, e') tt
    | inr (s, e') ↦ rw (e, e') (lookup-IsKnown (get_id t) h.structs s wf e')
  ]
]
