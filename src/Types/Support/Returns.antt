-- ===== src/Types/Support/Returns.antt =====
-- The calls of `isSupportedType` of server/src/types/Types.cpp, and what they leave in its caches.
use utbot_cpp.Base.{
  contains_text, ℕ, zero, suc, ◌+◌, ◌*◌, ◌≤◌, Bool, true, false, not, ◌&&◌, ◌||◌, List, [], ◌∷◌,
  ◌≡◌, ◌⊎◌, refl, arith, Option, none, some, Text, codes, text_eq_refl, Bool-cases, Option-cases,
  inl, inr, All, ltb,
}
use utbot_cpp.Types.Kinds.{CType}
use utbot_cpp.Types.Queries.{is_array, is_object_pointer, base_type_obj}
use utbot_cpp.Types.Dimension.{IsWellFormed, base_type_obj_splits, base_type_obj-IsWellFormed}
use utbot_cpp.Types.Handler.{TypesHandler, Field}
use utbot_cpp.Types.Support.{
  TypeUsage, TypeSupport, CheckState, find_entry, start_check, end_check, remember, supported,
  unsupported, Check, unsupported_fields, unsupported_base, plain_reason, struct_fields, check_base,
  check_fields, check_type, is_supported_fuel, all_field_names, is_supported_type,
}
use utbot_cpp.Types.Support.Cover.{
  covered, Grows, open_count, open_count-le, open_count-lt, open_count-le_length, usage_eq_refl,
  start_check-covered, start_check-Grows, succeed-Grows,
}
use utbot_cpp.Types.Support.Known.{IsKnown, struct_fields-IsKnown, IsWellFormedHandler}

-- A call returns, and if its answer is positive it forgets no name.
abbrev Returns : TypeUsage → CheckState → Option (TypeSupport × CheckState) → Type 0
Returns usage st o =
    (r : TypeSupport) × (st' : CheckState) × (o ≡ some (r, st'))
    × (r.is_supported ≡ true → Grows usage st st')

abbrev ReturnsBool : TypeUsage → CheckState → Option (Bool × CheckState) → Type 0
ReturnsBool usage st o =
    (b : Bool) × (st' : CheckState) × (o ≡ some (b, st')) × (b ≡ false → Grows usage st st')

module _ (usage : TypeUsage) (names : List Text) where
  -- What the calls on fields are asked to do, up to `k` open names.
  abbrev FieldsReturn : ℕ → (CType → Check TypeSupport) → Type 0
  FieldsReturn k check =
      (u : CType) (st : CheckState)
      → contains_text u.type_name names ≡ true
      → IsWellFormed u
      → contains_text u.type_name st.recursive_check_started ≡ false
      → open_count usage st names ≤ k
      → Returns usage st (check u st)

  fields-return :
      (k : ℕ) (check : CType → Check TypeSupport)
      → FieldsReturn k check
      → (fs : List Field) → All (IsKnown names) fs
      → (st : CheckState) → open_count usage st names ≤ k
      → ReturnsBool usage st (unsupported_fields check fs st)
  unfolding unsupported_fields
  fields-return k check good [] known st fits = (false, st, refl, λ _ n c. c)
  fields-return k check good (f ∷ fs) (kf, ks) st fits =
      elim (Bool-cases
        (contains_text f.type.type_name st.recursive_check_started || is_object_pointer f.type)) [
          | inl skip ↦
              let (b, st', e, g) = fields-return k check good fs ks st fits in
              (b, st', ground arith, g)
          | inr go ↦
              let (r, st₁, e₁, g₁) = good f.type st kf.0 kf.1 (ground arith) fits in
              elim (Bool-cases r.is_supported) [
                | inl yes_supported ↦
                    let (b, st₂, e₂, g₂) =
                      fields-return k check good fs ks st₁ (
                        omega (arith, open_count-le usage st st₁ names (g₁ yes_supported), fits)) in
                    (b, st₂, ground arith, λ z n c. g₂ z n (g₁ yes_supported n c))
                | inr not_supported ↦ (true, st₁, ground arith, λ z. absurd (cc))
              ]
        ]

  -- The base call, where it is made at all.
  base-return :
      (check : CType → Check TypeSupport) (t : CType) (depth : ℕ) (st : CheckState)
      → ((is_array t || is_object_pointer t) ≡ true → Returns usage st (check (base_type_obj t) st))
      → ReturnsBool usage st (unsupported_base check t depth st)
  unfolding unsupported_base
  base-return check t depth st good =
      elim (Bool-cases
        (not (is_array t || is_object_pointer t) || is_object_pointer t && ltb 0 depth)) [
          | inl skip ↦ (false, st, rw skip refl, λ _ n c. c)
          | inr go ↦
              let (r, st', e, g) = good (ground arith) in
              (not r.is_supported, st', ground arith, λ z. g (ground arith))
        ]

  module _ (h : TypesHandler) (check : CType → Check TypeSupport) (t : CType) (depth : ℕ) where
    check_base-Returns :
        (st : CheckState)
        → ((is_array t || is_object_pointer t) ≡ true
            → Returns usage st (check (base_type_obj t) st))
        → Returns usage st (check_base h check t usage depth st)
    unfolding check_base
    check_base-Returns st good =
        let (b, st', e, g) = base-return check t depth st good in
        elim (Bool-cases b) [
          | inl bad ↦
              let answer = unsupported (codes "Base type of array or pointer") in
              (answer, end_check t.type_name st', rw (e, check_base, bad) refl, λ z. absurd (cc))
          | inr fine ↦ (
            supported,
            remember t.type_name usage supported (end_check t.type_name st'),
            rw (e, check_base, fine) refl,
            λ _ n c. succeed-Grows usage t.type_name st' n (g fine n c),
          )
        ]

    check_type-Returns :
        (k : ℕ) (st : CheckState)
        → All (IsKnown names) (struct_fields h t)
        → open_count usage (start_check t.type_name st) names ≤ k
        → FieldsReturn k check
        → ((is_array t || is_object_pointer t) ≡ true
            → (st' : CheckState) → open_count usage st' names ≤ k
            → Returns usage st' (check (base_type_obj t) st'))
        → Returns usage st (check_type h check t usage depth st)
    unfolding check_type check_fields
    check_type-Returns k st known fits good base =
        let begun = start_check t.type_name st in
        let grown = start_check-Grows usage t.type_name st in
        elim (Option-cases (plain_reason h t usage)) [
          | inr (reason, e) ↦ (
            unsupported reason,
            end_check t.type_name begun,
            rw (e, check_type) refl,
            λ z. absurd (cc),
          )
          | inl clean ↦
              let (b, st₁, e₁, g₁) =
                fields-return k check good (struct_fields h t) known begun fits in
              elim (Bool-cases b) [
                | inl bad ↦
                    let answer = unsupported (codes "Unsupported types in structs/unions") in
                    (
                      answer,
                      end_check t.type_name st₁,
                      rw (clean, check_type, e₁, check_fields, bad) refl,
                      λ z. absurd (cc),
                    )
                | inr fine ↦
                    let fits₁ : open_count usage st₁ names ≤ k =
                      omega (arith, open_count-le usage begun st₁ names (g₁ fine), fits) in
                    let (r, st₂, e₂, g₂) = check_base-Returns st₁ (λ w. base w st₁ fits₁) in
                    (
                      r,
                      st₂,
                      rw (clean, check_type, e₁, check_fields, fine) e₂,
                      λ z n c. g₂ z n (g₁ fine n (grown n c)),
                    )
              ]
        ]

module _ (h : TypesHandler) (wf : IsWellFormedHandler h) (usage : TypeUsage) where
  abbrev names : List Text
  names = all_field_names h.structs

  -- The three ways in which a call is made, and the fuel that each needs.
  abbrev Enough : ℕ → CType → CheckState → Type 0
  Enough fuel t st =
      (open_count usage st names * 2 + 3 ≤ fuel)
      ⊎ (((is_array t || is_object_pointer t) ≡ false) × (open_count usage st names * 2 + 2 ≤ fuel))
      ⊎ ((contains_text t.type_name names ≡ true)
          × (contains_text t.type_name st.recursive_check_started ≡ false)
          × (open_count usage st names * 2 + 1 ≤ fuel))

  -- Once the name of the type is entered in the set, the fuel left is enough for the calls below.
  Enough-start :
      (fuel : ℕ) (t : CType) (st : CheckState)
      → Enough (suc fuel) t st
      → find_entry t.type_name usage st.is_supported_type_hash ≡ none
      → (open_count usage (start_check t.type_name st) names * 2 + 1 ≤ fuel)
        × (((is_array t || is_object_pointer t) ≡ false)
            ⊎ (open_count usage (start_check t.type_name st) names * 2 + 2 ≤ fuel))
  Enough-start fuel t st (inl top) e =
      let le = open_count-le usage st _ names (start_check-Grows usage t.type_name st) in
      (omega arith, inr (omega arith))
  Enough-start fuel t st (inr (inl (flat, base))) e =
      let le = open_count-le usage st _ names (start_check-Grows usage t.type_name st) in
      (omega arith, inl flat)
  Enough-start fuel t st (inr (inr (listed, fresh, field))) e =
      let lt =
        open_count-lt usage st (start_check t.type_name st) t.type_name names
          (start_check-Grows usage t.type_name st) listed (unfold covered in ground arith)
          (start_check-covered usage t.type_name st) in
      (omega arith, inr (omega arith))

  is_supported-Returns :
      (fuel : ℕ) (t : CType) (depth : ℕ) (st : CheckState)
      → IsWellFormed t
      → Enough fuel t st
      → Returns usage st (is_supported_fuel h fuel t usage depth st)
  unfolding is_supported_fuel
  is_supported-Returns zero t depth st w (inl top) = absurd (omega arith)
  is_supported-Returns zero t depth st w (inr (inl (flat, base))) = absurd (omega arith)
  is_supported-Returns zero t depth st w (inr (inr (listed, fresh, field))) = absurd (omega arith)
  is_supported-Returns (suc fuel) t depth st w enough =
      elim (Option-cases (find_entry t.type_name usage st.is_supported_type_hash)) [
        | inr (r, e) ↦ (r, st, rw (e, is_supported_fuel) refl, λ _ n c. c)
        | inl e ↦
            let (fit, base) = Enough-start fuel t st enough e in
            let (r, st', e', g) =
              check_type-Returns usage names h (λ u. is_supported_fuel h fuel u usage (suc depth)) t
                depth (open_count usage (start_check t.type_name st) names) st
                (struct_fields-IsKnown h t wf) (omega arith)
                (λ u s listed wu fresh le.
                  is_supported-Returns fuel u (suc depth) s wu
                    (inr (inr (listed, fresh, omega arith))))
                (λ wrapped s le.
                  is_supported-Returns fuel (base_type_obj t) (suc depth) s
                    (base_type_obj-IsWellFormed t w)
                    (inr (
                      inl (
                        ground (arith, (base_type_obj_splits t w).3, (base_type_obj_splits t w).4),
                        ground (arith, base),
                      )))) in
            (r, st', rw (e, is_supported_fuel) e', g)
      ]

-- `isSupportedType` returns for every well-formed type, usage and state of its two caches, however
-- the structs that the handler knows refer to one another; every field's type has to be well formed.
pub is_supported_type_returns :
    (h : TypesHandler) (t : CType) (usage : TypeUsage) (st : CheckState)
    → IsWellFormedHandler h
    → IsWellFormed t
    → (r : TypeSupport) × (st' : CheckState) × (is_supported_type h t usage st ≡ some (r, st'))
unfolding is_supported_type
is_supported_type_returns h t usage st wf w =
    let le = open_count-le_length usage st (all_field_names h.structs) in
    let (r, st', e, g) = is_supported-Returns h wf usage _ t 0 st w (inl (omega arith)) in
    (r, st', e)

-- A positive answer stands in the hash.
module _ (h : TypesHandler) (check : CType → Check TypeSupport) (t : CType) (usage : TypeUsage)
    (depth : ℕ) (r : TypeSupport) (st' : CheckState) (p : r.is_supported ≡ true) where
  check_base-remembers :
      (st : CheckState)
      → check_base h check t usage depth st ≡ some (r, st')
      → find_entry t.type_name usage st'.is_supported_type_hash ≡ some r
  unfolding check_base remember find_entry
  check_base-remembers st e = ground (arith, text_eq_refl t.type_name, usage_eq_refl usage)

  check_type-remembers :
      (st : CheckState)
      → check_type h check t usage depth st ≡ some (r, st')
      → find_entry t.type_name usage st'.is_supported_type_hash ≡ some r
  unfolding check_type check_fields
  check_type-remembers st e =
      elim (Option-cases
        (unsupported_fields check (struct_fields h t) (start_check t.type_name st))) [
          | inl none_left ↦ absurd (ground arith)
          | inr ((b, s), found) ↦ ground (arith, check_base-remembers s)
        ]

-- After a positive answer of `isSupportedType` the same question gets the same answer, at any depth
-- and on any fuel but none, and leaves the caches as they are.
pub is_supported_again :
    (h : TypesHandler) (fuel : ℕ) (t : CType) (usage : TypeUsage) (depth : ℕ) (st : CheckState)
    (r : TypeSupport) (st' : CheckState)
    → is_supported_fuel h fuel t usage depth st ≡ some (r, st')
    → r.is_supported ≡ true
    → (fuel' depth' : ℕ) → is_supported_fuel h (suc fuel') t usage depth' st' ≡ some (r, st')
unfolding is_supported_fuel
is_supported_again h zero t usage depth st r st' e p fuel' depth' = cc
is_supported_again h (suc fuel) t usage depth st r st' e p fuel' depth' =
    let kept =
      check_type-remembers h (λ u. is_supported_fuel h fuel u usage (suc depth)) t usage depth r st'
        p st in
    ground (arith, kept)
