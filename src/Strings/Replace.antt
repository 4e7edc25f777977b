-- ===== src/Strings/Replace.antt =====
-- `contains`, `replaceFirst`, `replaceLast`, `replaceAll` and `replaceColon` of
-- server/src/utils/StringUtils.cpp.
use utbot_cpp.Base.{
  ℕ, zero, suc, ◌+◌, ◌≤◌, ◌<◌, Bool, true, false, [], ◌∷◌, ◌++◌, ◌≡◌, refl, sym, ap, ◌∙◌, subst,
  arith, Option, none, some, Text, codes, ◌==◌, if◌then◌else◌, append_assoc, length, length-append,
  length-drop, take, drop, map, is_some, Bool-cases, Option-cases, inl, inr,
}
use native.Mathlib.Nat.{zero-add, add-zero}
use utbot_cpp.Strings.Affixes.{starts_with}

-- `std::string::find`: the first position at which the pattern stands.
unfoldable pub find : Text → Text → Option ℕ
find p [] = if starts_with [] p then some 0 else none
find p (c ∷ s) =
    if starts_with (c ∷ s) p
    then some 0
    else elim (find p s) [ none ↦ none | some i ↦ some (i + 1) ]

-- `std::string::rfind`: the last one.
unfoldable pub rfind : Text → Text → Option ℕ
rfind p [] = if starts_with [] p then some 0 else none
rfind p (c ∷ s) = elim (rfind p s) [
  | some i ↦ some (i + 1)
  | none ↦ if starts_with (c ∷ s) p then some 0 else none
]

-- `find(pattern, start_pos)`.
unfoldable pub find_from : Text → ℕ → Text → Option ℕ
find_from p start s = elim (find p (drop start s)) [ none ↦ none | some i ↦ some (start + i) ]

-- `replace(pos, n, to)`.
unfoldable pub replace_at : ℕ → ℕ → Text → Text → Text
replace_at pos n to s = take pos s ++ (to ++ drop (pos + n) s)

unfoldable pub contains : Text → Text → Bool
contains s t = is_some (find t s)

-- The new text, and the result.
unfoldable pub replace_last : Text → Text → Text → Text × Bool
unfolding replace_at
replace_last str from to = elim (rfind from str) [
  | some pos ↦ (replace_at pos (length from) to str, true)
  | none ↦ (str, false)
]

unfoldable pub replace_first : Text → Text → Text → Text × Bool
unfolding replace_at
replace_first str from to = elim (find from str) [
  | some pos ↦ (replace_at pos (length from) to str, true)
  | none ↦ (str, false)
]

unfoldable pub replace_all_char : ℕ → ℕ → Text → Text
replace_all_char from to = map (λ c. if c == from then to else c)

-- The `while` of `replaceAll`, on the text and `start_pos`.
module _ (from to : Text) where
  unfoldable pub replace_all_loop : ℕ → Text → ℕ → Text
  replace_all_loop zero str start = str
  replace_all_loop (suc fuel) str start = elim (find_from from start str) [
    | none ↦ str
    | some pos ↦ replace_all_loop fuel (replace_at pos (length from) to str) (pos + length to)
  ]

-- The text that is left to search gets shorter with every round, so its length is fuel enough.
unfoldable pub replace_all : Text → Text → Text → Text
replace_all str [] to = str
replace_all str (f ∷ from) to = replace_all_loop (f ∷ from) to (length str + 1) str 0

unfoldable pub replace_colon : Text → Text
replace_colon str = replace_all str (codes "::") (codes "_")

-- The one-pass reference: `skip` bytes still belong to an occurrence that has been replaced.
module _ (f : ℕ) (from to : Text) where
  abbrev pub substitute : ℕ → Text → Text
  substitute skip [] = []
  substitute zero (c ∷ s) =
      if starts_with (c ∷ s) (f ∷ from)
      then to ++ substitute (length from) s
      else c ∷ substitute 0 s
  substitute (suc skip) (c ∷ s) = substitute skip s

  substitute_skip : (skip : ℕ) (s : Text) → substitute skip s ≡ substitute 0 (drop skip s)
  substitute_skip zero s = refl
  substitute_skip (suc skip) [] = refl
  substitute_skip (suc skip) (c ∷ s) = substitute_skip skip s

  find_nil : find (f ∷ from) [] ≡ none
  unfolding find starts_with
  find_nil = ground arith

  starts_with_fits : (s : Text) → starts_with s (f ∷ from) ≡ true → suc (length from) ≤ length s
  unfolding starts_with
  starts_with_fits s e = ground arith

  substitute_absent : (s : Text) → find (f ∷ from) s ≡ none → substitute 0 s ≡ s
  unfolding find
  substitute_absent [] e = refl
  substitute_absent (c ∷ s) e = ground (arith, substitute_absent s)

  -- What stands in front of the first occurrence is kept, and the search goes on behind it.
  substitute_found :
      (s : Text) (i : ℕ)
      → find (f ∷ from) s ≡ some i
      → (i + suc (length from) ≤ length s)
        × (substitute 0 s ≡ take i s ++ (to ++ substitute 0 (drop (i + suc (length from)) s)))
  unfolding find
  substitute_found [] i e = absurd (ground (arith, find_nil))
  substitute_found (c ∷ s) i e = elim (Bool-cases (starts_with (c ∷ s) (f ∷ from))) [
    | inl here ↦
        let first : i ≡ 0 = ground arith in
        let past : 0 + suc (length from) ≡ suc (length from) = omega arith in
        (
          ground (arith, starts_with_fits (c ∷ s) here),
          rw (first, here, past) (ap (λ r. to ++ r) (substitute_skip (length from) s)),
        )
    | inr later ↦ elim (Option-cases (find (f ∷ from) s)) [
      | inl no_more ↦ absurd (ground arith)
      | inr (j, found) ↦
          let (fits, same) = substitute_found s j found in
          let next : i ≡ suc j = ground arith in
          let past : suc j + suc (length from) ≡ suc (j + suc (length from)) = omega arith in
          (omega arith, rw (next, later, past) (ap (λ r. c ∷ r) same))
    ]
  ]

  -- One round of the loop, on a text of which `done` has been dealt with.
  take_done :
      (done rest : Text) (i : ℕ) → take (length done + i) (done ++ rest) ≡ done ++ take i rest
  take_done [] rest i = rw zero-add
  take_done (c ∷ done) rest i =
      let next : suc (length done) + i ≡ suc (length done + i) = omega arith in
      rw next (ap (λ r. c ∷ r) (take_done done rest i))

  drop_done : (done rest : Text) (i : ℕ) → drop (length done + i) (done ++ rest) ≡ drop i rest
  drop_done [] rest i = rw zero-add
  drop_done (c ∷ done) rest i =
      let next : suc (length done) + i ≡ suc (length done + i) = omega arith in
      rw next (drop_done done rest i)

  replace_at-append :
      (done rest : Text) (i n : ℕ)
      → replace_at (length done + i) n to (done ++ rest)
        ≡ (done ++ (take i rest ++ to)) ++ drop (i + n) rest
  unfolding replace_at
  replace_at-append done rest i n =
      let shift : length done + i + n ≡ length done + (i + n) = omega arith in
      rw (shift, take_done, drop_done) (simp append_assoc)

  length-take_le : (i : ℕ) (s : Text) → i ≤ length s → length (take i s) ≡ i
  length-take_le zero s h = refl
  length-take_le (suc i) [] h = absurd (omega arith)
  length-take_le (suc i) (c ∷ s) h = ap suc (length-take_le i s (omega arith))

  length_done :
      (done rest : Text) (i : ℕ)
      → i ≤ length rest
      → length (done ++ (take i rest ++ to)) ≡ length done + i + length to
  length_done done rest i h = omega (
    arith,
    length-append done (take i rest ++ to),
    length-append (take i rest) to,
    length-take_le i rest h,
  )

  find_from_done :
      (done rest : Text)
      → find_from (f ∷ from) (length done) (done ++ rest)
        ≡ elim (find (f ∷ from) rest) [ none ↦ none | some i ↦ some (length done + i) ]
  unfolding find_from
  find_from_done done rest =
      let whole : drop (length done) (done ++ rest) ≡ rest =
        subst (λ n. drop n (done ++ rest) ≡ rest) (add-zero (length done))
          (drop_done done rest 0) in
      rw (whole, find_from) refl

  replace_all_loop-substitute :
      (fuel : ℕ) (done rest : Text)
      → length rest < fuel
      → replace_all_loop (f ∷ from) to fuel (done ++ rest) (length done) ≡ done ++ substitute 0 rest
  unfolding replace_all_loop
  replace_all_loop-substitute zero done rest h = absurd (omega arith)
  replace_all_loop-substitute (suc fuel) done rest h = elim (Option-cases (find (f ∷ from) rest)) [
    | inl gone ↦
        rw (find_from_done, gone, replace_all_loop)
          (ap (λ r. done ++ r) (sym (substitute_absent rest gone)))
    | inr (i, found) ↦
        let (fits, same) = substitute_found rest i found in
        let after = drop (i + suc (length from)) rest in
        let done' = done ++ (take i rest ++ to) in
        let round =
          replace_all_loop-substitute fuel done' after
            (omega (arith, length-drop (i + suc (length from)) rest)) in
        let joined : done' ++ substitute 0 after ≡ done ++ substitute 0 rest =
          rw same (simp append_assoc) in
        rw (find_from_done, found, replace_all_loop)
          (rw (replace_at-append, ← length_done done rest i (omega arith)) (round ∙ joined))
  ]

-- `replaceAll` of a pattern that is not empty replaces its occurrences from left to right, each one
-- found behind the end of the one before, as the one-pass reference does; the loop always ends, and
-- text that was put in is not searched again. An empty pattern changes nothing.
pub replace_all-substitute :
    (s to : Text)
    → (replace_all s [] to ≡ s)
      × ((f : ℕ) (from : Text) → replace_all s (f ∷ from) to ≡ substitute f from to 0 s)
unfolding replace_all
replace_all-substitute s to =
    (refl, λ f from. replace_all_loop-substitute f from to (length s + 1) [] s (omega arith))
