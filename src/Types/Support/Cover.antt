-- ===== src/Types/Support/Cover.antt =====
-- The names that a state of `isSupportedType` has dealt with: those whose check has started, and
-- those with an entry in the hash.
use utbot_cpp.Base.{
  contains_text, ℕ, ◌+◌, ◌≤◌, ◌<◌, Bool, true, false, ◌||◌, List, [], ◌∷◌, ◌≡◌, ap, arith, is_some,
  Text, text_eq, text_eq_refl, text_eq_sound, length, if◌then◌else◌, Bool-cases, inl, inr,
}
use utbot_cpp.Types.Support.{
  TypeUsage, usage_eq, CheckState, erase_text, find_entry, start_check, end_check, remember,
  supported,
}

module _ (usage : TypeUsage) where
  unfoldable pub covered : CheckState → Text → Bool
  covered st n =
      contains_text n st.recursive_check_started
      || is_some (find_entry n usage st.is_supported_type_hash)

  -- Every name that is covered stays so.
  abbrev pub Grows : CheckState → CheckState → Type 0
  Grows st st' = (n : Text) → covered st n ≡ true → covered st' n ≡ true

  -- How many of the names are not covered.
  unfoldable pub open_count : CheckState → List Text → ℕ
  open_count st [] = 0
  open_count st (n ∷ ns) = (if covered st n then 0 else 1) + open_count st ns

  pub open_count-le_length : (st : CheckState) (ns : List Text) → open_count st ns ≤ length ns
  unfolding open_count
  open_count-le_length st [] = omega arith
  open_count-le_length st (n ∷ ns) = ground (arith, open_count-le_length st ns)

  pub open_count-le :
      (st st' : CheckState) (ns : List Text) → Grows st st' → open_count st' ns ≤ open_count st ns
  unfolding open_count
  open_count-le st st' [] g = omega arith
  open_count-le st st' (n ∷ ns) g = ground (arith, open_count-le st st' ns g, g n)

  pub open_count-lt :
      (st st' : CheckState) (n : Text) (ns : List Text)
      → Grows st st'
      → contains_text n ns ≡ true
      → covered st n ≡ false
      → covered st' n ≡ true
      → open_count st' ns < open_count st ns
  unfolding open_count contains_text
  open_count-lt st st' n [] g m old new = cc
  open_count-lt st st' n (k ∷ ns) g m old new = elim (Bool-cases (text_eq k n)) [
    | inl same ↦
        let e = text_eq_sound k n same in
        ground (arith, open_count-le st st' ns g, e, ap (covered st) e, ap (covered st') e)
    | inr other ↦ ground (arith, open_count-lt st st' n ns g, g k)
  ]

pub usage_eq_refl : (u : TypeUsage) → usage_eq u u ≡ true
usage_eq_refl u = ground arith

pub start_check-covered :
    (usage : TypeUsage) (n : Text) (st : CheckState) → covered usage (start_check n st) n ≡ true
unfolding covered start_check
start_check-covered usage n st = ground (arith, text_eq_refl n)

pub start_check-Grows :
    (usage : TypeUsage) (n : Text) (st : CheckState) → Grows usage st (start_check n st)
unfolding covered start_check
start_check-Grows usage n st m c = ground arith

erase_text-contains :
    (n m : Text) (ms : List Text)
    → text_eq n m ≡ false
    → contains_text m ms ≡ true
    → contains_text m (erase_text n ms) ≡ true
unfolding contains_text erase_text
erase_text-contains n m [] d c = cc
erase_text-contains n m (k ∷ ms) d c = elim (Bool-cases (text_eq k n)) [
  | inl same ↦
      let e = text_eq_sound k n same in
      ground (arith, erase_text-contains n m ms d, ap (λ t. text_eq t m) e)
  | inr other ↦ ground (arith, erase_text-contains n m ms d)
]

-- A check that ends well hands its name over from the set to the hash.
pub succeed-Grows :
    (usage : TypeUsage) (n : Text) (st : CheckState)
    → Grows usage st (remember n usage supported (end_check n st))
unfolding covered remember end_check find_entry
succeed-Grows usage n st m c =
    ground (arith, usage_eq_refl usage, erase_text-contains n m st.recursive_check_started)
