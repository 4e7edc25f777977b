-- ===== src/Types/Dimension.antt =====
-- The dimension of `types::Type` and its base type, `baseTypeObj`, of server/src/types/Types.cpp.
use utbot_cpp.Base.{
  ℕ, suc, true, false, not, ◌&&◌, ◌||◌, List, [], ◌∷◌, ◌++◌, ◌≡◌, refl, ap, sym, ◌∙◌, length, drop,
  All, if◌then◌else◌, arith, Bool-cases, inl, inr,
}
use utbot_cpp.Types.Kinds.{
  Kind, object_pointer, function_pointer, array, simple, is_object_pointer_kind, is_array_kind,
  is_function_pointer_kind, CType, PointerUsage, parameter, HasBase, front_is,
}
use utbot_cpp.Types.Queries.{
  is_object_pointer, is_array, pointer_array_prefix, pointer_array_kinds, sizes_loop, arrays_sizes,
  get_dimension, base_type_obj, is_lazy,
}

abbrev IsWrapper : Kind → Type 0
IsWrapper k = (is_object_pointer_kind k || is_array_kind k) ≡ true

pointer_array_prefix-IsWrapper : (ks : List Kind) → All IsWrapper (pointer_array_prefix ks)
unfolding pointer_array_prefix
pointer_array_prefix-IsWrapper [] = tt
pointer_array_prefix-IsWrapper (k ∷ []) = tt
pointer_array_prefix-IsWrapper (k ∷ l ∷ ks) =
    elim (Bool-cases (is_object_pointer_kind k || is_array_kind k)) [
      | inl e ↦ rw e (e, pointer_array_prefix-IsWrapper (l ∷ ks))
      | inr e ↦ rw e tt
    ]

-- Every wrapper but those behind the first pointer of a lazy type gives one size.
length-sizes_loop :
    (usage : PointerUsage) (n : ℕ) (ks : List Kind)
    → is_lazy usage ≡ false
    → All IsWrapper ks
    → length (sizes_loop usage n ks) ≡ length ks
unfolding sizes_loop
length-sizes_loop usage n [] h w = refl
length-sizes_loop usage n (object_pointer c ∷ ks) h w =
    rw h (ap suc (length-sizes_loop usage n ks h w.1))
length-sizes_loop usage n (function_pointer ∷ ks) h w = cc
length-sizes_loop usage n (array m c ∷ ks) h w = ap suc (length-sizes_loop usage n ks h w.1)
length-sizes_loop usage n (simple i u c r ∷ ks) h w = cc

length-sizes_of_kinds :
    (usage : PointerUsage) (n : ℕ) (ks : List Kind)
    → is_lazy usage ≡ false
    → length (
        if not (front_is is_array_kind ks)
          && not (front_is is_object_pointer_kind ks)
          && not (front_is is_function_pointer_kind ks)
        then []
        else sizes_loop usage n (pointer_array_prefix ks))
      ≡ length (pointer_array_prefix ks)
unfolding pointer_array_prefix
length-sizes_of_kinds usage n [] h = refl
length-sizes_of_kinds usage n (simple i u c r ∷ []) h = refl
length-sizes_of_kinds usage n (simple i u c r ∷ l ∷ ks) h = refl
length-sizes_of_kinds usage n (object_pointer c ∷ ks) h =
    length-sizes_loop usage n _ h (pointer_array_prefix-IsWrapper (object_pointer c ∷ ks))
length-sizes_of_kinds usage n (function_pointer ∷ ks) h =
    length-sizes_loop usage n _ h (pointer_array_prefix-IsWrapper (function_pointer ∷ ks))
length-sizes_of_kinds usage n (array m c ∷ ks) h =
    length-sizes_loop usage n _ h (pointer_array_prefix-IsWrapper (array m c ∷ ks))

pub length-arrays_sizes :
    (usage : PointerUsage) (t : CType)
    → is_lazy usage ≡ false
    → length (arrays_sizes usage t) ≡ length (pointer_array_kinds t)
unfolding arrays_sizes
length-arrays_sizes usage t h = length-sizes_of_kinds usage (length t.kinds) t.kinds h

pub get_dimension_lem : (t : CType) → get_dimension t ≡ length (pointer_array_kinds t)
unfolding get_dimension
get_dimension_lem t = length-arrays_sizes parameter t refl

-- Nothing is left to take off behind the leading wrappers.
prefix-drop :
    (ks : List Kind) → pointer_array_prefix (drop (length (pointer_array_prefix ks)) ks) ≡ []
unfolding pointer_array_prefix
prefix-drop [] = refl
prefix-drop (k ∷ []) = refl
prefix-drop (k ∷ l ∷ ks) = elim (Bool-cases (is_object_pointer_kind k || is_array_kind k)) [
  | inl e ↦ rw e (prefix-drop (l ∷ ks))
  | inr e ↦ rw (e, e) refl
]

prefix-append-drop :
    (ks : List Kind) → pointer_array_prefix ks ++ drop (length (pointer_array_prefix ks)) ks ≡ ks
unfolding pointer_array_prefix
prefix-append-drop [] = refl
prefix-append-drop (k ∷ []) = refl
prefix-append-drop (k ∷ l ∷ ks) = elim (Bool-cases (is_object_pointer_kind k || is_array_kind k)) [
  | inl e ↦ rw e (ap (λ r. k ∷ r) (prefix-append-drop (l ∷ ks)))
  | inr e ↦ rw e refl
]

-- The dimension is a function of the kinds.
get_dimension_ext : (s t : CType) → s.kinds ≡ t.kinds → get_dimension s ≡ get_dimension t
unfolding pointer_array_kinds
get_dimension_ext s t e =
    get_dimension_lem s ∙ ap (λ ks. length (pointer_array_prefix ks)) e ∙ sym (get_dimension_lem t)

pub kinds-base_type_obj : (t : CType) → (base_type_obj t).kinds ≡ drop (get_dimension t) t.kinds
unfolding base_type_obj
kinds-base_type_obj t = refl

-- The base type of any type has dimension 0.
pub get_dimension-base_type_obj : (t : CType) → get_dimension (base_type_obj t) ≡ 0
unfolding pointer_array_kinds
get_dimension-base_type_obj t =
    get_dimension_lem (base_type_obj t)
    ∙ rw (kinds-base_type_obj, get_dimension_lem t) (ap length (prefix-drop t.kinds))

-- The `dimension` field says what `getDimension` computes, and there is a base kind.
pub record IsWellFormed (t : CType) : Type 0 where
  pub dimension_agrees : t.dimension ≡ get_dimension t
  pub based : HasBase t.kinds

HasBase-drop : (ks : List Kind) → HasBase ks → HasBase (drop (length (pointer_array_prefix ks)) ks)
unfolding pointer_array_prefix
HasBase-drop [] h = h
HasBase-drop (k ∷ []) h = h
HasBase-drop (simple i u c r ∷ l ∷ ks) h = h
HasBase-drop (function_pointer ∷ l ∷ ks) h = h
HasBase-drop (object_pointer c ∷ l ∷ ks) h = HasBase-drop (l ∷ ks) h
HasBase-drop (array n c ∷ l ∷ ks) h = HasBase-drop (l ∷ ks) h

dimension-base_type_obj :
    (t : CType) → (base_type_obj t).dimension ≡ get_dimension (base_type_obj t)
unfolding base_type_obj
dimension-base_type_obj t = get_dimension_ext _ _ refl

-- Taking the base type keeps a type well formed.
pub base_type_obj-IsWellFormed : (t : CType) → IsWellFormed t → IsWellFormed (base_type_obj t)
unfolding pointer_array_kinds
base_type_obj-IsWellFormed t h = record {
  dimension_agrees = dimension-base_type_obj t;
  based = rw (kinds-base_type_obj, get_dimension_lem t) (HasBase-drop t.kinds h.based);
}

base_type_obj_again :
    (t : CType)
    → t.type_name ≡ t.base_type
    → t.used_type ≡ t.base_type
    → t.type_id ≡ t.base_type_id
    → t.dimension ≡ 0
    → get_dimension t ≡ 0
    → base_type_obj t ≡ t
unfolding base_type_obj
base_type_obj_again t n u i d z =
    let ks : drop (get_dimension t) t.kinds ≡ t.kinds = rw z refl in
    let dim =
      get_dimension_ext
        (record t {
          type_name = t.base_type;
          used_type = t.base_type;
          kinds = drop (get_dimension t) t.kinds;
        })
        t ks in
    ground (arith, ks, dim)

-- Taking the base type of any type twice is taking it once.
pub base_type_obj-base_type_obj : (t : CType) → base_type_obj (base_type_obj t) ≡ base_type_obj t
base_type_obj-base_type_obj t =
    base_type_obj_again (base_type_obj t) (unfold base_type_obj in refl)
      (unfold base_type_obj in refl) (unfold base_type_obj in refl)
      (dimension-base_type_obj t ∙ get_dimension-base_type_obj t) (get_dimension-base_type_obj t)

front-base :
    (ks : List Kind)
    → HasBase ks
    → pointer_array_prefix ks ≡ []
    → (front_is is_array_kind ks ≡ false) × (front_is is_object_pointer_kind ks ≡ false)
unfolding pointer_array_prefix
front-base [] h e = absurd h
front-base (simple i u c r ∷ ks) h e = (refl, refl)
front-base (function_pointer ∷ ks) h e = (refl, refl)
front-base (object_pointer c ∷ []) h e = absurd h
front-base (object_pointer c ∷ l ∷ ks) h e = cc
front-base (array n c ∷ []) h e = absurd h
front-base (array n c ∷ l ∷ ks) h e = cc

-- The leading wrappers and the kinds of the base type make up the kinds of a well-formed type, and
-- the dimension is the number of the wrappers. The base type has dimension 0 and is neither an array
-- nor an object pointer.
pub base_type_obj_splits :
    (t : CType)
    → IsWellFormed t
    → (pointer_array_kinds t ++ (base_type_obj t).kinds ≡ t.kinds)
      × (get_dimension t ≡ length (pointer_array_kinds t))
      × (get_dimension (base_type_obj t) ≡ 0)
      × (is_array (base_type_obj t) ≡ false)
      × (is_object_pointer (base_type_obj t) ≡ false)
unfolding pointer_array_kinds is_array is_object_pointer
base_type_obj_splits t h =
    let fronts =
      front-base (base_type_obj t).kinds (base_type_obj-IsWellFormed t h).based
        (rw (kinds-base_type_obj, get_dimension_lem t) (prefix-drop t.kinds)) in
    (
      rw (kinds-base_type_obj, get_dimension_lem t) (prefix-append-drop t.kinds),
      get_dimension_lem t,
      get_dimension-base_type_obj t,
      fronts.0,
      fronts.1,
    )
