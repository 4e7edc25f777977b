-- ===== src/Types/Sizes.antt =====
-- `typeSize` of server/src/types/Types.cpp: its recursion and its errors.
use utbot_cpp.Base.{
  Result-cases, ℕ, suc, ◌%◌, ◌*◌, Bool, true, false, ◌∷◌, ◌≡◌, ◌≢◌, refl, ◌∙◌, arith, ok, err,
  ◌>>=◌, Bool-cases, inl, inr,
}
use utbot_cpp.Types.Kinds.{CType, array}
use utbot_cpp.Types.Queries.{is_array, is_void, base_type_obj, size_max}
use utbot_cpp.Types.Dimension.{IsWellFormed, base_type_obj_splits}
use utbot_cpp.Types.Wrapping.{base_type_obj-array}
use utbot_cpp.Types.Handler.{
  TypesHandler, TypeError, does_not_return, is_integer_type, is_floating_point_type,
  is_character_type, is_bool_type, is_primitive_type, is_struct_like, is_enum, unknown,
  get_type_kind, type_size, type_size_fuel, front_size, get_struct_info, get_enum_info,
}
use utbot_cpp.Types.Classify.{simple_unique}

-- An array of `n` elements of a type.
abbrev pub wrap : ℕ → Bool → CType → CType
wrap n c t = record t { kinds = array n c ∷ t.kinds }

module _ (h : TypesHandler) where
  -- A type that is no array, on any fuel but none.
  type_size_flat :
      (fuel : ℕ) (t : CType)
      → is_array t ≡ false
      → get_type_kind h t ≢ unknown
      → is_void t ≡ false
      → (e : TypeError) → type_size_fuel h (suc fuel) t ≢ err e
  unfolding type_size_fuel get_type_kind is_primitive_type is_integer_type is_floating_point_type
      is_character_type is_bool_type is_struct_like is_enum get_struct_info get_enum_info
  type_size_flat fuel t a k v e = ground arith

  -- The recursion ends at once on a type that is no array.
  flat_returns :
      (fuel : ℕ) (t : CType)
      → is_array t ≡ false
      → type_size_fuel h (suc fuel) t ≢ err does_not_return
  unfolding type_size_fuel is_integer_type is_floating_point_type is_character_type is_bool_type
      is_struct_like is_enum get_struct_info get_enum_info
  flat_returns fuel t a = ground arith

  -- The size of an array, from that of its base type.
  type_size_array :
      (fuel : ℕ) (t : CType)
      → is_array t ≡ true
      → type_size_fuel h (suc fuel) t
        ≡ (do n ← type_size_fuel h fuel (base_type_obj t); ok (n * front_size t.kinds % size_max))
  unfolding type_size_fuel is_integer_type is_floating_point_type is_character_type is_bool_type
      is_struct_like is_enum
  type_size_array fuel t a = ground (arith, simple_unique t)

  -- The recursion of `typeSize` ends for every well-formed type.
  pub type_size_returns : (t : CType) → IsWellFormed t → type_size h t ≢ err does_not_return
  unfolding type_size
  type_size_returns t wf = elim (Bool-cases (is_array t)) [
    | inl a ↦
        rw (type_size_array 1 t a)
          (ground (arith, flat_returns 0 (base_type_obj t), (base_type_obj_splits t wf).3))
    | inr a ↦ flat_returns 1 t a
  ]

  size_throws_not :
      (t : CType)
      → IsWellFormed t
      → get_type_kind h t ≢ unknown
      → is_void t ≡ false
      → get_type_kind h (base_type_obj t) ≢ unknown
      → is_void (base_type_obj t) ≡ false
      → (e : TypeError) → type_size h t ≢ err e
  unfolding type_size
  size_throws_not t wf k v bk bv e = elim (Bool-cases (is_array t)) [
    | inl a ↦
        rw (type_size_array 1 t a)
          (ground (arith, type_size_flat 0 (base_type_obj t) (base_type_obj_splits t wf).3 bk bv e))
    | inr a ↦ type_size_flat 1 t a k v e
  ]

  -- `typeSize` gives a size for a well-formed type that is of known kind and not void, and whose
  -- base type is so too.
  pub type_size_sized :
      (t : CType)
      → IsWellFormed t
      → get_type_kind h t ≢ unknown
      → is_void t ≡ false
      → get_type_kind h (base_type_obj t) ≢ unknown
      → is_void (base_type_obj t) ≡ false
      → (n : ℕ) × (type_size h t ≡ ok n)
  type_size_sized t wf k v bk bv = elim (Result-cases (type_size h t)) [
    | inl sized ↦ sized
    | inr (e, thrown) ↦ absurd (size_throws_not t wf k v bk bv e thrown)
  ]

  flat_fuel : (t : CType) → is_array t ≡ false → type_size_fuel h 1 t ≡ type_size_fuel h 2 t
  unfolding type_size_fuel
  flat_fuel t a = ground arith

  -- The size of an array of a well-formed type is, modulo 2 ^ 64, the number of its own elements
  -- times the size of the base type of that type: where the element type is an array or a pointer
  -- itself, neither its number of elements nor the size of a pointer counts.
  pub type_size_outer_array :
      (n : ℕ) (c : Bool) (t : CType)
      → IsWellFormed t
      → type_size h (wrap n c t) ≡ (do m ← type_size h (base_type_obj t); ok (m * n % size_max))
  unfolding type_size
  type_size_outer_array n c t wf =
      type_size_array 1 (wrap n c t) (unfold is_array in refl)
      ∙ rw (
        base_type_obj-array n c t wf.based,
        flat_fuel (base_type_obj t) (base_type_obj_splits t wf).3,
      )
