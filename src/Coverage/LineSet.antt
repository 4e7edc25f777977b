-- ===== src/Coverage/LineSet.antt =====
-- `std::set<SourceLine>` of server/src/coverage/Coverage.h: the numbers of its lines in their order.
use utbot_cpp.Base.{
  ℕ, ◌<◌, Bool, true, false, not, ◌&&◌, ◌||◌, List, [], ◌∷◌, ◌≡◌, refl, arith, ltb, ◌==◌,
  if◌then◌else◌,
}

abbrev pub LineSet : Type 0
LineSet = List ℕ

-- `count(line) > 0`.
unfoldable pub contains_line : LineSet → ℕ → Bool
contains_line [] l = false
contains_line (k ∷ s) l = k == l || contains_line s l

unfoldable pub insert_line : ℕ → LineSet → LineSet
insert_line l [] = l ∷ []
insert_line l (k ∷ s) = if ltb l k then l ∷ k ∷ s else if l == k then k ∷ s else k ∷ insert_line l s

unfoldable pub erase_line : ℕ → LineSet → LineSet
erase_line l [] = []
erase_line l (k ∷ s) = if k == l then s else k ∷ erase_line l s

pub contains_line-insert_line :
    (l j : ℕ) (s : LineSet) → contains_line (insert_line l s) j ≡ (l == j || contains_line s j)
unfolding contains_line insert_line
contains_line-insert_line l j [] = refl
contains_line-insert_line l j (k ∷ s) = ground (arith, contains_line-insert_line l j s)

-- Every line of the set stands behind the number, in order.
abbrev Above : ℕ → LineSet → Type 0
Above l [] = Unit
Above l (k ∷ s) = (l < k) × Above k s

abbrev pub IsSorted : LineSet → Type 0
IsSorted [] = Unit
IsSorted (k ∷ s) = Above k s

Above-contains_line : (l j : ℕ) (s : LineSet) → Above l s → contains_line s j ≡ true → l < j
unfolding contains_line
Above-contains_line l j [] h e = cc
Above-contains_line l j (k ∷ s) (h, r) e = ground (arith, Above-contains_line k j s r)

Above-weaken : (l j : ℕ) (s : LineSet) → l < j → Above j s → Above l s
Above-weaken l j [] h r = tt
Above-weaken l j (k ∷ s) h (r, t) = (omega arith, t)

Above-insert_line : (b l : ℕ) (s : LineSet) → b < l → Above b s → Above b (insert_line l s)
unfolding insert_line
Above-insert_line b l [] h r = (h, tt)
Above-insert_line b l (k ∷ s) h (r, t) = ground (arith, Above-insert_line k l s)

pub insert_line-IsSorted : (l : ℕ) (s : LineSet) → IsSorted s → IsSorted (insert_line l s)
unfolding insert_line
insert_line-IsSorted l [] r = tt
insert_line-IsSorted l (k ∷ s) r = ground (arith, Above-insert_line k l s)

Above-erase_line : (b l : ℕ) (s : LineSet) → Above b s → Above b (erase_line l s)
unfolding erase_line
Above-erase_line b l [] r = tt
Above-erase_line b l (k ∷ s) (r, t) =
    ground (arith, Above-erase_line k l s t, Above-weaken b k s r t)

pub erase_line-IsSorted : (l : ℕ) (s : LineSet) → IsSorted s → IsSorted (erase_line l s)
unfolding erase_line
erase_line-IsSorted l [] r = tt
erase_line-IsSorted l (k ∷ []) r = ground arith
erase_line-IsSorted l (k ∷ j ∷ s) (h, r) = ground (arith, Above-erase_line k l (j ∷ s) (h, r))

contains_line-erase_line-Above :
    (b l j : ℕ) (s : LineSet)
    → Above b s
    → contains_line (erase_line l s) j ≡ (not (l == j) && contains_line s j)
unfolding contains_line erase_line
contains_line-erase_line-Above b l j [] h = ground arith
contains_line-erase_line-Above b l j (k ∷ s) (h, r) =
    ground (arith, contains_line-erase_line-Above k l j s r, Above-contains_line k j s r)

-- In an ordered set the erased line is gone, and no other.
pub contains_line-erase_line :
    (l j : ℕ) (s : LineSet)
    → IsSorted s
    → contains_line (erase_line l s) j ≡ (not (l == j) && contains_line s j)
unfolding contains_line erase_line
contains_line-erase_line l j [] h = ground arith
contains_line-erase_line l j (k ∷ s) r =
    ground (arith, contains_line-erase_line-Above k l j s r, Above-contains_line k j s r)
