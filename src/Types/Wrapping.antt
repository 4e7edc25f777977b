-- ===== src/Types/Wrapping.antt =====
-- The dimension of the types that server/src/types/Types.cpp makes: from a name, and by wrapping a
-- type in an array.
use utbot_cpp.Base.{
  ℕ, zero, suc, ◌+◌, Bool, false, List, [], ◌∷◌, ◌++◌, ◌≡◌, refl, ap, sym, ◌∙◌, length, drop,
  replicate, arith, length-replicate, Text,
}
use utbot_cpp.Types.Kinds.{Kind, object_pointer, array, CType, HasBase}
use utbot_cpp.Types.Queries.{
  pointer_array_prefix, pointer_array_kinds, get_dimension, base_type_obj,
}
use utbot_cpp.Types.Creation.{create_simple_type_from_name, create_array}
use utbot_cpp.Types.Dimension.{IsWellFormed, get_dimension_lem, kinds-base_type_obj}

prefix-replicate :
    (n : ℕ) (k : Kind)
    → pointer_array_prefix (replicate n (object_pointer false) ++ k ∷ [])
      ≡ replicate n (object_pointer false)
unfolding pointer_array_prefix
prefix-replicate zero k = refl
prefix-replicate (suc zero) k = refl
prefix-replicate (suc (suc n)) k = ap (λ r. object_pointer false ∷ r) (prefix-replicate (suc n) k)

HasBase-replicate :
    (n : ℕ) (ks : List Kind) → HasBase ks → HasBase (replicate n (object_pointer false) ++ ks)
HasBase-replicate zero ks h = h
HasBase-replicate (suc n) ks h = HasBase-replicate n ks h

-- A type made from a name is well formed, and has the dimension that was asked for.
pub create_simple_type_from_name-IsWellFormed :
    (name : Text) (n : ℕ)
    → IsWellFormed (create_simple_type_from_name name n)
      × (get_dimension (create_simple_type_from_name name n) ≡ n)
unfolding create_simple_type_from_name pointer_array_kinds
create_simple_type_from_name-IsWellFormed name n =
    let dim =
      get_dimension_lem (create_simple_type_from_name name n)
      ∙ ap length (prefix-replicate n _)
      ∙ length-replicate n (object_pointer false) in
    (record { dimension_agrees = sym dim; based = HasBase-replicate n _ tt }, dim)

prefix-array :
    (m : ℕ) (c : Bool) (ks : List Kind)
    → HasBase ks
    → length (pointer_array_prefix (array m c ∷ ks)) ≡ suc (length (pointer_array_prefix ks))
unfolding pointer_array_prefix
prefix-array m c [] h = absurd h
prefix-array m c (k ∷ ks) h = refl

get_dimension-array :
    (t : CType) (m : ℕ) (c : Bool) (ks : List Kind)
    → t.kinds ≡ ks
    → HasBase ks
    → (w : CType) → w.kinds ≡ array m c ∷ ks
    → get_dimension w ≡ suc (get_dimension t)
unfolding pointer_array_kinds
get_dimension-array t m c ks e h w f =
    get_dimension_lem w
    ∙ ap (λ l. length (pointer_array_prefix l)) f
    ∙ prefix-array m c ks h
    ∙ ap (λ l. suc (length (pointer_array_prefix l))) (sym e)
    ∙ ap suc (sym (get_dimension_lem t))

-- The base type of an array of a well-formed type is that of the type.
pub base_type_obj-array :
    (m : ℕ) (c : Bool) (t : CType)
    → HasBase t.kinds
    → base_type_obj (record t { kinds = array m c ∷ t.kinds }) ≡ base_type_obj t
unfolding base_type_obj
base_type_obj-array m c t h =
    let w : CType = record t { kinds = array m c ∷ t.kinds } in
    let dim : get_dimension w ≡ suc (get_dimension t) =
      get_dimension-array t m c t.kinds refl h w refl in
    let ks : drop (get_dimension w) w.kinds ≡ drop (get_dimension t) t.kinds = rw dim refl in
    let erase =
      λ (l : List Kind). record t { type_name = t.base_type; used_type = t.base_type; kinds = l } in
    λ i. record (erase (ks i)) {
      dimension = get_dimension (erase (ks i));
      type_id = t.base_type_id;
      base_type_id = t.base_type_id;
    }

-- Wrapping a well-formed type in an array by `createArray` gives a well-formed type with one
-- dimension more, whose base type has the same kinds.
pub create_array-IsWellFormed :
    (t : CType)
    → IsWellFormed t
    → IsWellFormed (create_array t)
      × (get_dimension (create_array t) ≡ get_dimension t + 1)
      × ((base_type_obj (create_array t)).kinds ≡ (base_type_obj t).kinds)
unfolding create_array pointer_array_kinds
create_array-IsWellFormed t h =
    let dim : get_dimension (create_array t) ≡ suc (get_dimension t) =
      get_dimension-array t _ false t.kinds refl h.based (create_array t) refl in
    (
      record { dimension_agrees = omega (arith, h.dimension_agrees); based = h.based },
      omega arith,
      kinds-base_type_obj (create_array t) ∙ rw dim (sym (kinds-base_type_obj t)),
    )
