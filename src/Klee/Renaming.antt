-- ===== src/Klee/Renaming.antt =====
-- The names that `getRenamedOperator` of server/src/utils/KleeUtils.cpp gives.
use utbot_cpp.Base.{
  ℕ, ◌+◌, Bool, true, false, ◌&&◌, List, [], ◌∷◌, ◌++◌, ◌≡◌, ◌⊎◌, refl, arith, some, Text, codes,
  text_eq, text_eq_sound, contains_text, lookup_id, all, take, drop, ◌==◌, ok, Bool-cases,
  Option-cases, inl, inr, subst, is_some,
}
use utbot_cpp.Strings.Replace.{find}
use utbot_cpp.Names.Decorate.{is_word_char}
use utbot_cpp.Klee.Operators.{
  cpp_operators, cpp_bracket_operators, symbol_to_name, is_brackets, spell_symbols, operator_word,
  rename_symbols, rename_ending, get_renamed_operator,
}

-- A text of letters, digits and underscores.
abbrev pub is_word : Text → Bool
is_word = all is_word_char

is_word-append : (s t : Text) → is_word s ≡ true → is_word t ≡ true → is_word (s ++ t) ≡ true
is_word-append [] t h k = k
is_word-append (c ∷ s) t h k = ground (arith, is_word-append s t)

all_names : List (ℕ × Text) → Bool
all_names [] = true
all_names ((c, n) ∷ m) = is_word n && all_names m

lookup-is_word :
    (c : ℕ) (m : List (ℕ × Text)) (n : Text)
    → all_names m ≡ true
    → lookup_id c m ≡ some n
    → is_word n ≡ true
unfolding lookup_id all_names
lookup-is_word c [] n h e = cc
lookup-is_word c ((d, v) ∷ m) n h e = elim (Bool-cases (d == c)) [
  | inl here ↦ let same : v ≡ n = ground arith in subst (λ t. is_word t ≡ true) same (ground arith)
  | inr there ↦ lookup-is_word c m n (ground arith) (ground arith)
]

symbol_names : all_names symbol_to_name ≡ true
unfolding all_names symbol_to_name is_word_char codes
symbol_names = refl

has_name : ℕ → Bool
has_name c = is_some (lookup_id c symbol_to_name)

-- Symbols with a name are spelled by words.
spell_symbols-is_word :
    (s : Text) → all has_name s ≡ true → (w : Text) × (spell_symbols s ≡ ok w) × (is_word w ≡ true)
unfolding spell_symbols has_name
spell_symbols-is_word [] h = ([], refl, refl)
spell_symbols-is_word (c ∷ s) h = elim (Option-cases (lookup_id c symbol_to_name)) [
  | inl missing ↦ absurd (ground arith)
  | inr (n, found) ↦
      let (w, spelled, words) = spell_symbols-is_word s (ground arith) in
      let name = lookup-is_word c symbol_to_name n symbol_names found in
      (
        codes "_" ++ (n ++ w),
        ground arith,
        is_word-append (codes "_") (n ++ w) (unfold is_word_char codes in refl)
            (is_word-append n w name words),
      )
]

all_spelled : List Text → Bool
all_spelled [] = true
all_spelled (s ∷ l) = all has_name s && all_spelled l

contains-spelled :
    (s : Text) (l : List Text)
    → all_spelled l ≡ true
    → contains_text s l ≡ true
    → all has_name s ≡ true
unfolding contains_text all_spelled
contains-spelled s [] h e = cc
contains-spelled s (t ∷ l) h e = elim (Bool-cases (text_eq t s)) [
  | inl same ↦ subst (λ u. all has_name u ≡ true) (text_eq_sound t s same) (ground arith)
  | inr other ↦ contains-spelled s l (ground arith) (ground arith)
]

operators_spelled : all_spelled cpp_operators ≡ true
unfolding all_spelled cpp_operators has_name symbol_to_name lookup_id codes
operators_spelled = refl

is_brackets_round : (s : Text) → (b : Bool) × (is_brackets s b'(' ≡ ok b)
unfolding is_brackets cpp_bracket_operators lookup_id
is_brackets_round [] = (false, refl)
is_brackets_round (c ∷ s) = elim (Bool-cases (c == b'(')) [
  | inl e ↦ rw e (_, refl)
  | inr e ↦ rw e (false, refl)
]

is_brackets_square : (s : Text) → (b : Bool) × (is_brackets s b'[' ≡ ok b)
unfolding is_brackets cpp_bracket_operators lookup_id
is_brackets_square [] = (false, refl)
is_brackets_square (c ∷ s) = elim (Bool-cases (c == b'[')) [
  | inl e ↦ rw e (_, refl)
  | inr e ↦ rw e (false, refl)
]

-- The name itself, or the stem with a word behind it.
abbrev pub IsRenamed : Text → Text → Text → Type 0
IsRenamed method_name stem r =
    (r ≡ method_name) ⊎ ((w : Text) × (r ≡ stem ++ w) × (is_word w ≡ true))

rename_symbols-IsRenamed :
    (name stem ending : Text)
    → (r : Text) × (rename_symbols name stem ending ≡ ok r) × IsRenamed name stem r
unfolding rename_symbols
rename_symbols-IsRenamed name stem ending = elim (Bool-cases (contains_text ending cpp_operators)) [
  | inl known ↦
      let (w, spelled, words) =
        spell_symbols-is_word ending
          (contains-spelled ending cpp_operators operators_spelled known) in
      (stem ++ w, ground arith, inr (w, refl, words))
  | inr strange ↦ (name, ground arith, inl refl)
]

rename_ending-IsRenamed :
    (name stem ending : Text)
    → (r : Text) × (rename_ending name stem ending ≡ ok r) × IsRenamed name stem r
unfolding rename_ending
rename_ending-IsRenamed name stem ending =
    let (round, e₁) = is_brackets_round ending in
    let (square, e₂) = is_brackets_square ending in
    elim (Bool-cases round) [
      | inl yes_round ↦ (
        stem ++ codes "_parentheses",
        ground arith,
        inr (codes "_parentheses", refl, unfold is_word_char codes in refl),
      )
      | inr no_round ↦ elim (Bool-cases square) [
        | inl yes_square ↦ (
          stem ++ codes "_brackets",
          ground arith,
          inr (codes "_brackets", refl, unfold is_word_char codes in refl),
        )
        | inr no_square ↦
            let (r, e, shape) = rename_symbols-IsRenamed name stem ending in
            (r, ground arith, shape)
      ]
    ]

-- `getRenamedOperator` never throws. It gives the name itself or, where the name has the word
-- `operator` in it, the name up to the end of the first such word with letters, digits and
-- underscores behind.
pub get_renamed_operator_lem :
    (s : Text)
    → (r : Text) × (get_renamed_operator s ≡ ok r)
      × ((r ≡ s)
          ⊎ ((pos : ℕ) × (find operator_word s ≡ some pos) × IsRenamed s (take (pos + 8) s) r))
unfolding get_renamed_operator
get_renamed_operator_lem s = elim (Option-cases (find operator_word s)) [
  | inl absent ↦ (s, rw (absent, get_renamed_operator) refl, inl refl)
  | inr (pos, found) ↦
      let (r, e, shape) = rename_ending-IsRenamed s (take (pos + 8) s) (drop (pos + 8) s) in
      (r, rw (found, get_renamed_operator) e, inr (pos, found, shape))
]
