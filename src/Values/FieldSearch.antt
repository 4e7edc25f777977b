-- ===== src/Values/FieldSearch.antt =====
-- `findFieldIndex` of server/src/Tests.cpp: the bisection by the offsets of the fields.
use utbot_cpp.Base.{
  ℕ, zero, suc, ◌+◌, ◌-◌, ◌/◌, ◌^◌, ◌≤◌, ◌<◌, true, false, List, [], ◌∷◌, some, ◌++◌, ◌≡◌, refl,
  sym, ap, ◌∙◌, arith, length, get_elem?, get_elem?-bound, get_elem?-append, All, All-get_elem?,
  ◌==◌, Bool-cases, ok, err, inl, inr, ◌⊎◌, subst,
}
use native.Mathlib.Decide.{dec_lt}
use mathlib.Core.Option.{some-injective}
use utbot_cpp.Types.Handler.{StructInfo, Field}
use utbot_cpp.Values.Bytes.{incorrect_index}
use utbot_cpp.Values.Lookup.{as_int, begins_later, later_at, bisect, upper_bound, find_field_index}

-- No field begins in front of one before it.
abbrev pub IsInOrder : List Field → Type 0
IsInOrder [] = Unit
IsInOrder (f ∷ fields) = All (λ (g : Field). f.offset ≤ g.offset) fields × IsInOrder fields

IsInOrder-get_elem? :
    (fields : List Field) (i j : ℕ) (f g : Field)
    → IsInOrder fields
    → i ≤ j
    → get_elem? fields i ≡ some f
    → get_elem? fields j ≡ some g
    → f.offset ≤ g.offset
IsInOrder-get_elem? [] i j f g h l e e' = cc
IsInOrder-get_elem? (x ∷ fields) zero zero f g h l e e' =
    let same : f ≡ g = some-injective f g (sym e ∙ e') in rw same (omega arith)
IsInOrder-get_elem? (x ∷ fields) zero (suc j) f g (first, h) l e e' =
    let same : x ≡ f = some-injective x f e in
    subst (λ (y : Field). y.offset ≤ g.offset) same
      (All-get_elem? (λ (y : Field). x.offset ≤ y.offset) fields j g first e')
IsInOrder-get_elem? (x ∷ fields) (suc i) zero f g h l e e' = absurd (omega arith)
IsInOrder-get_elem? (x ∷ fields) (suc i) (suc j) f g (first, h) l e e' =
    IsInOrder-get_elem? fields i j f g h (omega arith) e e'

elem_at :
    (fields : List Field) (i : ℕ) → i < length fields → (f : Field) × (get_elem? fields i ≡ some f)
elem_at [] i h = absurd (omega arith)
elem_at (f ∷ fields) zero h = (f, refl)
elem_at (f ∷ fields) (suc i) h = elem_at fields i (omega arith)

module _ (fields : List Field) (offset : ℕ) (ordered : IsInOrder fields) where
  -- The fields in front of `n` do not begin later than the offset, and those from `n` on do.
  record IsBetween (low high : ℕ) : Type 0 where
    fits : high ≤ length fields
    below :
        (i : ℕ) (f : Field) → i < low → get_elem? fields i ≡ some f → begins_later offset f ≡ false
    above :
        (i : ℕ) (f : Field) → high ≤ i → get_elem? fields i ≡ some f → begins_later offset f ≡ true

  earlier :
      (i j : ℕ) (f g : Field)
      → i ≤ j
      → get_elem? fields i ≡ some f
      → get_elem? fields j ≡ some g
      → begins_later offset g ≡ false
      → begins_later offset f ≡ false
  unfolding begins_later
  earlier i j f g l e e' h = ground (arith, IsInOrder-get_elem? fields i j f g ordered l e e')

  later :
      (i j : ℕ) (f g : Field)
      → i ≤ j
      → get_elem? fields i ≡ some f
      → get_elem? fields j ≡ some g
      → begins_later offset f ≡ true
      → begins_later offset g ≡ true
  unfolding begins_later
  later i j f g l e e' h = ground (arith, IsInOrder-get_elem? fields i j f g ordered l e e')

  later_at_elem :
      (i : ℕ) (f : Field)
      → get_elem? fields i ≡ some f
      → later_at fields offset i ≡ begins_later offset f
  later_at_elem i f e = rw (later_at, e) refl

  bisect-IsBetween :
      (fuel first len : ℕ)
      → len ≤ fuel
      → IsBetween first (first + len)
      → IsBetween (bisect fields offset fuel first len) (bisect fields offset fuel first len)
  unfolding bisect
  bisect-IsBetween zero first len h b = subst (IsBetween first) (omega arith) b
  bisect-IsBetween (suc fuel) first len h b = elim (Bool-cases (len == 0)) [
    | inl done ↦ rw done (subst (IsBetween first) (ground arith) b)
    | inr some_left ↦
        let (m, at) = elem_at fields (first + len / 2) (ground (arith, b.fits)) in
        elim (Bool-cases (begins_later offset m)) [
          | inl behind ↦
              rw (some_left, later_at_elem (first + len / 2) m at, behind)
                (bisect-IsBetween fuel first (len / 2) (ground arith) (record {
                  fits = omega (arith, b.fits);
                  below = b.below;
                  above = λ i f l e. later (first + len / 2) i m f l at e behind;
                }))
          | inr before ↦
              rw (some_left, later_at_elem (first + len / 2) m at, before)
                (bisect-IsBetween fuel (first + len / 2 + 1) (len - len / 2 - 1) (ground arith)
                  (record {
                    fits = ground (arith, b.fits);
                    below = λ i f l e. earlier i (first + len / 2) f m (omega arith) e at before;
                    above = λ i f l e. b.above i f (ground arith) e;
                  }))
        ]
  ]

  upper_bound-IsBetween : IsBetween (upper_bound fields offset) (upper_bound fields offset)
  unfolding upper_bound
  upper_bound-IsBetween = bisect-IsBetween (length fields) 0 (length fields) (omega arith) (record {
    fits = omega arith;
    below = λ i f l e. absurd (omega arith);
    above = λ i f l e. absurd (omega (arith, get_elem?-bound fields i f e));
  })

-- Below 2 ^ 31 the comparison is that of the offsets.
as_int-small : (offset : ℕ) → offset < 2 ^ 31 → as_int offset ≡ offset
unfolding as_int
as_int-small offset h = ground arith

begins_later-false :
    (offset : ℕ) (f : Field) → offset < 2 ^ 31 → begins_later offset f ≡ false → f.offset ≤ offset
unfolding begins_later
begins_later-false offset f small e = ground (arith, as_int-small offset small)

begins_later-true :
    (offset : ℕ) (f : Field) → offset < 2 ^ 31 → begins_later offset f ≡ true → offset < f.offset
unfolding begins_later
begins_later-true offset f small e = ground (arith, as_int-small offset small)

module _ (info : StructInfo) (offset : ℕ) (ordered : IsInOrder info.fields)
    (small : offset < 2 ^ 31) where
  next_later :
      (n : ℕ)
      → IsBetween info.fields offset ordered n n
      → (n ≡ length info.fields)
        ⊎ ((g : Field) × (get_elem? info.fields n ≡ some g) × (offset < g.offset))
  next_later n b = elim (Bool-cases (n == length info.fields)) [
    | inl last ↦ inl (ground arith)
    | inr more ↦
        let (g, e) = elem_at info.fields n (ground (arith, b.fits)) in
        inr (g, e, begins_later-true offset g small (b.above n g (omega arith) e))
  ]

  no_fields : (fields : List Field) → 0 ≡ length fields → fields ≡ []
  no_fields [] h = refl
  no_fields (f ∷ fields) h = absurd (omega arith)

  -- What the index is, by the bound.
  index_of_bound :
      (n : ℕ)
      → upper_bound info.fields offset ≡ n
      → IsBetween info.fields offset ordered n n
      → ((find_field_index info offset ≡ err incorrect_index)
          × ((info.fields ≡ [])
              ⊎ ((g : Field) × (get_elem? info.fields 0 ≡ some g) × (offset < g.offset))))
        ⊎ ((i : ℕ) × (f : Field) × (find_field_index info offset ≡ ok i)
            × (get_elem? info.fields i ≡ some f)
            × (f.offset ≤ offset)
            × ((suc i ≡ length info.fields)
                ⊎ ((g : Field) × (get_elem? info.fields (suc i) ≡ some g) × (offset < g.offset))))
  unfolding find_field_index
  index_of_bound zero e b = inl (
    rw (find_field_index, e) refl,
    elim (next_later 0 b) [ inl none_left ↦ inl (no_fields info.fields none_left) | inr g ↦ inr g ],
  )
  index_of_bound (suc n) e b =
      let (f, at) = elem_at info.fields n (omega (arith, b.fits)) in
      let index : suc n - 1 ≡ n = omega arith in
      let positive : (suc n == 0) ≡ false = ground arith in
      inr (
        n,
        f,
        rw (find_field_index, e, positive, index) refl,
        at,
        begins_later-false offset f small (b.below n f (omega arith) at),
        next_later (suc n) b,
      )

-- In a struct whose fields are in the order of their offsets, and for an offset below 2 ^ 31,
-- `findFieldIndex` gives the last field that does not begin behind the offset; it throws exactly when
-- there is no field or the first one begins behind the offset.
pub find_field_index_lem :
    (info : StructInfo) (offset : ℕ)
    → IsInOrder info.fields
    → offset < 2 ^ 31
    → ((find_field_index info offset ≡ err incorrect_index)
        × ((info.fields ≡ [])
            ⊎ ((g : Field) × (get_elem? info.fields 0 ≡ some g) × (offset < g.offset))))
      ⊎ ((i : ℕ) × (f : Field) × (find_field_index info offset ≡ ok i)
          × (get_elem? info.fields i ≡ some f)
          × (f.offset ≤ offset)
          × ((suc i ≡ length info.fields)
              ⊎ ((g : Field) × (get_elem? info.fields (suc i) ≡ some g) × (offset < g.offset))))
find_field_index_lem info offset ordered small =
    index_of_bound info offset ordered small (upper_bound info.fields offset) refl
      (upper_bound-IsBetween info.fields offset ordered)

behind-get_elem? :
    (P : Field → Type 0) (front back : List Field) (f g : Field) (i : ℕ)
    → length front < i
    → get_elem? (front ++ f ∷ back) i ≡ some g
    → All P back
    → P g
behind-get_elem? P [] back f g zero l e h = absurd (omega arith)
behind-get_elem? P [] back f g (suc i) l e h = All-get_elem? P back i g h e
behind-get_elem? P (x ∷ front) back f g zero l e h = absurd (omega arith)
behind-get_elem? P (x ∷ front) back f g (suc i) l e h =
    behind-get_elem? P front back f g i (omega arith) e h

-- A field is found by any offset that is not in front of it and in front of the fields behind it.
pub find_field_index-append :
    (info : StructInfo) (offset : ℕ) (front back : List Field) (f : Field)
    → IsInOrder info.fields
    → offset < 2 ^ 31
    → info.fields ≡ front ++ f ∷ back
    → f.offset ≤ offset
    → All (λ (g : Field). offset < g.offset) back
    → find_field_index info offset ≡ ok (length front)
find_field_index-append info offset front back f ordered small parts here behind =
    let at : get_elem? info.fields (length front) ≡ some f =
      rw parts (get_elem?-append front f back) in
    let inside = get_elem?-bound info.fields (length front) f at in
    elim (find_field_index_lem info offset ordered small) [
      | inl (thrown, inl none_there) ↦
          let none_long : length info.fields ≡ 0 = ap length none_there in absurd (omega arith)
      | inl (thrown, inr (g, first, beyond)) ↦
          let in_order =
            IsInOrder-get_elem? info.fields 0 (length front) g f ordered (omega arith) first at in
          absurd (omega arith)
      | inr (i, g, found, there, before, after) ↦ elim (dec_lt (length front) i) [
        | yes too_far ↦
            let beyond =
              behind-get_elem? (λ (x : Field). offset < x.offset) front back f g i too_far
                (rw parts at there) behind in
            absurd (omega arith)
        | no not_behind ↦ elim (dec_lt i (length front)) [
          | no not_before ↦ let same : i ≡ length front = omega arith in found ∙ ap ok same
          | yes too_near ↦ elim after [
            | inl last ↦ absurd (omega arith)
            | inr (next, at_next, beyond) ↦
                let in_order =
                  IsInOrder-get_elem? info.fields (suc i) (length front) next f ordered
                    (omega arith) at_next at in
                absurd (omega arith)
          ]
        ]
      ]
    ]
