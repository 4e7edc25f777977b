-- ===== src/Types/Pointers.antt =====
-- Counting, finding and replacing the pointers of a type: server/src/types/Types.cpp.
use utbot_cpp.Base.{
  ℕ, suc, ◌+◌, Bool, true, false, not, ◌&&◌, List, [], ◌∷◌, ◌≡◌, ◌⊎◌, refl, sym, ◌∙◌, length, set,
  take, drop, All, any, ltb, arith, Bool-cases, inl, inr, Text, ok, err,
}
use utbot_cpp.Types.Kinds.{
  Kind, object_pointer, function_pointer, array, simple, is_object_pointer_kind, CType,
  PointerUsage, HasBase, front_is,
}
use utbot_cpp.Types.Queries.{
  is_object_pointer, pointer_array_prefix, pointer_array_kinds, arrays_sizes, base_type_obj,
  is_lazy, is_void, maybe_just_pointer, maybe_return_array, is_array_of_pointers_to_function,
  count_pointers, count_return_pointers, is_type_contains_pointer, first_pointer_loop,
  no_pointer_in_type, index_of_first_pointer_in_type_kinds,
}
use utbot_cpp.Types.Creation.{
  array_clone, array_clone_multi_dim, clone_loop, array_clone_multi_dim_sizes,
}
use utbot_cpp.Types.Dimension.{
  IsWellFormed, length-arrays_sizes, get_dimension_lem, get_dimension-base_type_obj,
}

-- `maybeReturnArray` holds for a pointer of at most two kinds that is marked as a possible array,
-- unless it points to a function pointer or to void.
pub maybe_return_array_lem :
    (t : CType)
    → maybe_return_array t ≡ (
        is_object_pointer t
        && t.maybe_array
        && not (is_array_of_pointers_to_function t)
        && ltb (length t.kinds) 3
        && not (is_void (base_type_obj t)))
maybe_return_array_lem t = unfold maybe_return_array maybe_just_pointer in ground arith

count_pointers-short :
    (ks : List Kind)
    → HasBase ks
    → front_is is_object_pointer_kind ks ≡ true
    → ltb (length ks) 3 ≡ true
    → count_pointers (pointer_array_prefix ks) ≡ 1
unfolding count_pointers pointer_array_prefix
count_pointers-short [] h p l = cc
count_pointers-short (simple i u c r ∷ ks) h p l = cc
count_pointers-short (array n c ∷ ks) h p l = cc
count_pointers-short (function_pointer ∷ ks) h p l = cc
count_pointers-short (object_pointer c ∷ []) h p l = absurd h
count_pointers-short (object_pointer c ∷ k ∷ []) h p l = refl
count_pointers-short (object_pointer c ∷ k ∷ k' ∷ ks) h p l = absurd (ground arith)

-- For a well-formed type that may return an array, `countReturnPointers` counts one pointer, and
-- its decrement leaves 0 and does not wrap around.
pub count_return_pointers_decrement :
    (t : CType)
    → IsWellFormed t
    → maybe_return_array t ≡ true
    → (count_return_pointers false t ≡ 1) × (count_return_pointers true t ≡ 0)
unfolding pointer_array_kinds is_object_pointer
count_return_pointers_decrement t h e =
    let shape = maybe_return_array_lem t in
    let one : count_pointers (pointer_array_prefix t.kinds) ≡ 1 =
      count_pointers-short t.kinds h.based (ground arith) (ground arith) in
    (unfold count_return_pointers in one, unfold count_return_pointers in rw (e, one) refl)

first_pointer_loop_finds :
    (name : Text) (index : ℕ) (ks : List Kind)
    → any is_object_pointer_kind ks ≡ true
    → (d : ℕ) × (first_pointer_loop name index ks ≡ ok (index + d))
      × (front_is is_object_pointer_kind (drop d ks) ≡ true)
      × All (λ k. is_object_pointer_kind k ≡ false) (take d ks)
unfolding first_pointer_loop
first_pointer_loop_finds name index [] e = cc
first_pointer_loop_finds name index (object_pointer c ∷ ks) e = (0, ground arith, refl, tt)
first_pointer_loop_finds name index (k ∷ ks) e =
    let (d, found, here, before) = first_pointer_loop_finds name (index + 1) ks e in
    (suc d, ground arith, here, (refl, before))

first_pointer_loop_fails :
    (name : Text) (index : ℕ) (ks : List Kind)
    → any is_object_pointer_kind ks ≡ false
    → first_pointer_loop name index ks ≡ err (no_pointer_in_type name)
unfolding first_pointer_loop
first_pointer_loop_fails name index [] e = refl
first_pointer_loop_fails name index (object_pointer c ∷ ks) e = cc
first_pointer_loop_fails name index (k ∷ ks) e = first_pointer_loop_fails name (index + 1) ks e

-- `indexOfFirstPointerInTypeKinds` gives the position of the first object pointer among the leading
-- wrappers if there is one, and throws otherwise.
pub index_of_first_pointer_lem :
    (t : CType)
    → ((is_type_contains_pointer t ≡ true)
        × (j : ℕ) × (index_of_first_pointer_in_type_kinds t ≡ ok j)
        × (front_is is_object_pointer_kind (drop j (pointer_array_kinds t)) ≡ true)
        × All (λ k. is_object_pointer_kind k ≡ false) (take j (pointer_array_kinds t)))
      ⊎ ((is_type_contains_pointer t ≡ false)
          × (index_of_first_pointer_in_type_kinds t ≡ err (no_pointer_in_type t.type_name)))
unfolding index_of_first_pointer_in_type_kinds is_type_contains_pointer
index_of_first_pointer_lem t =
    elim (Bool-cases (any is_object_pointer_kind (pointer_array_kinds t))) [
      | inl e ↦
          let (d, found, here, before) =
            first_pointer_loop_finds t.type_name 0 (pointer_array_kinds t) e in
          inl (e, d, ground arith, here, before)
      | inr e ↦ inr (e, first_pointer_loop_fails t.type_name 0 (pointer_array_kinds t) e)
    ]

any-nil-of_length : (ks : List Kind) → 0 ≡ length ks → any is_object_pointer_kind ks ≡ false
any-nil-of_length [] e = refl
any-nil-of_length (k ∷ ks) e = absurd (omega arith)

prefix-array-clone_loop :
    (usage : PointerUsage) (m : ℕ) (c : Bool) (ns : List ℕ) (l : Kind) (ks : List Kind)
    → pointer_array_prefix (array m c ∷ clone_loop usage ns (l ∷ ks))
      ≡ array m c ∷ pointer_array_prefix (clone_loop usage ns (l ∷ ks))
unfolding pointer_array_prefix clone_loop
prefix-array-clone_loop usage m c [] l ks = refl
prefix-array-clone_loop usage m c (n ∷ ns) l ks = refl

-- After the loop no kind up to the number of sizes is a pointer, so the leading wrappers are arrays.
prefix-clone_loop :
    (usage : PointerUsage) (ns : List ℕ) (ks : List Kind)
    → length ns ≡ length (pointer_array_prefix ks)
    → any is_object_pointer_kind (pointer_array_prefix (clone_loop usage ns ks)) ≡ false
unfolding pointer_array_prefix clone_loop
prefix-clone_loop usage [] ks e = any-nil-of_length (pointer_array_prefix ks) e
prefix-clone_loop usage (n ∷ ns) [] e = refl
prefix-clone_loop usage (n ∷ ns) (k ∷ []) e = absurd (omega arith)
prefix-clone_loop usage (n ∷ ns) (object_pointer c ∷ l ∷ ks) e =
    rw (prefix-array-clone_loop usage _ true ns l ks)
      (prefix-clone_loop usage ns (l ∷ ks) (omega arith))
prefix-clone_loop usage (n ∷ ns) (array m c ∷ l ∷ ks) e =
    rw (prefix-array-clone_loop usage m c ns l ks)
      (prefix-clone_loop usage ns (l ∷ ks) (omega arith))
prefix-clone_loop usage (n ∷ ns) (function_pointer ∷ l ∷ ks) e = absurd (omega arith)
prefix-clone_loop usage (n ∷ ns) (simple i u c r ∷ l ∷ ks) e = absurd (omega arith)

-- One array in front of a type with one wrapper.
prefix-set :
    (m : ℕ) (ks : List Kind)
    → length (pointer_array_prefix ks) ≡ 1
    → any is_object_pointer_kind (pointer_array_prefix (set ks 0 (array m true))) ≡ false
unfolding pointer_array_prefix
prefix-set m [] e = refl
prefix-set m (k ∷ []) e = refl
prefix-set m (object_pointer c ∷ l ∷ ks) e =
    any-nil-of_length (pointer_array_prefix (l ∷ ks)) (omega arith)
prefix-set m (array n c ∷ l ∷ ks) e =
    any-nil-of_length (pointer_array_prefix (l ∷ ks)) (omega arith)
prefix-set m (function_pointer ∷ l ∷ ks) e = absurd (omega arith)
prefix-set m (simple i u c r ∷ l ∷ ks) e = absurd (omega arith)

base_type_obj_no_pointer : (t : CType) → is_type_contains_pointer (base_type_obj t) ≡ false
unfolding is_type_contains_pointer
base_type_obj_no_pointer t =
    any-nil-of_length (pointer_array_kinds (base_type_obj t))
      (sym (get_dimension-base_type_obj t) ∙ get_dimension_lem (base_type_obj t))

-- The array copies of a type with as many sizes as leading wrappers.
array_clone_no_pointer :
    (usage : PointerUsage) (t : CType)
    → length (pointer_array_kinds t) ≡ 1
    → is_type_contains_pointer (array_clone usage 0 t) ≡ false
unfolding is_type_contains_pointer pointer_array_kinds array_clone
array_clone_no_pointer usage t one = prefix-set _ t.kinds one

array_clone_multi_dim_sizes_no_pointer :
    (usage : PointerUsage) (sizes : List ℕ) (t : CType)
    → length sizes ≡ length (pointer_array_kinds t)
    → is_type_contains_pointer (array_clone_multi_dim_sizes usage sizes t) ≡ false
unfolding is_type_contains_pointer pointer_array_kinds array_clone_multi_dim_sizes
array_clone_multi_dim_sizes_no_pointer usage sizes t e = prefix-clone_loop usage sizes t.kinds e

-- Unless the usage is lazy, the copy that stands for a type in the generated test has no object
-- pointer among its leading wrappers.
pub array_clone_multi_dim_no_pointer :
    (usage : PointerUsage) (t : CType)
    → is_lazy usage ≡ false
    → is_type_contains_pointer (array_clone_multi_dim usage t) ≡ false
unfolding array_clone_multi_dim
array_clone_multi_dim_no_pointer usage t h = ground (
  arith,
  length-arrays_sizes usage t h,
  base_type_obj_no_pointer t,
  array_clone_no_pointer usage t,
  array_clone_multi_dim_sizes_no_pointer usage (arrays_sizes usage t) t,
)
