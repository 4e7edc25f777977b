-- ===== src/Strings/Trim.antt =====
-- `ltrim`, `rtrim`, `trim`, `splitByWhitespaces` and `removeLineEndings` of
-- server/src/utils/StringUtils.cpp.
use utbot_cpp.Base.{
  ℕ, Bool, true, false, ◌&&◌, ◌||◌, List, [], ◌∷◌, ◌++◌, ◌≡◌, ◌≢◌, refl, sym, ap, ◌∙◌, subst, arith,
  Text, All, All-append, ◌==◌, leb, if◌then◌else◌, append_assoc, Bool-cases, inl, inr,
}
use utbot_cpp.Strings.Split.{c_string}
use mathlib.Core.List.{reverse, reverse-reverse, reverse-append}

-- `std::isspace` in the "C" locale: the space, and `\t \n \v \f \r`.
unfoldable pub is_space : ℕ → Bool
is_space c = c == 32 || leb 9 c && leb c 13

-- Erases up to the first byte that is no space.
unfoldable pub ltrim : Text → Text
ltrim [] = []
ltrim (c ∷ s) = let rest = ltrim s in if is_space c then rest else c ∷ s

-- The same from the end: `find_if` over the reversed range.
unfoldable pub rtrim : Text → Text
unfolding ltrim
rtrim s = reverse (ltrim (reverse s))

unfoldable pub trim : Text → Text
trim s = rtrim (ltrim s)

-- The tokens of `istream_iterator<std::string>`; `token` is what was read since the last space.
unfoldable pub whitespace_loop : Text → Text → List Text
whitespace_loop [] [] = []
whitespace_loop (t ∷ token) [] = (t ∷ token) ∷ []
whitespace_loop [] (c ∷ s) = elim (is_space c) [
  | true ↦ whitespace_loop [] s
  | false ↦ whitespace_loop (c ∷ []) s
]
whitespace_loop (t ∷ token) (c ∷ s) = elim (is_space c) [
  | true ↦ (t ∷ token) ∷ whitespace_loop [] s
  | false ↦ whitespace_loop ((t ∷ token) ++ c ∷ []) s
]

unfoldable pub split_by_whitespaces : Text → List Text
unfolding whitespace_loop c_string
split_by_whitespaces input = whitespace_loop [] (c_string input)

-- `std::remove` and `erase` of one byte.
unfoldable pub remove_byte : ℕ → Text → Text
remove_byte b [] = []
remove_byte b (c ∷ s) = let rest = remove_byte b s in if c == b then rest else c ∷ rest

unfoldable pub remove_line_endings : Text → Text
unfolding remove_byte
remove_line_endings s = remove_byte b'\n' (remove_byte b'\r' s)

abbrev pub IsSpaces : Text → Type 0
IsSpaces = All (λ c. is_space c ≡ true)

-- No space in front.
abbrev pub StartsSolid : Text → Type 0
StartsSolid [] = Unit
StartsSolid (c ∷ s) = is_space c ≡ false

-- What `ltrim` cuts off: spaces, and all of them.
ltrim_split :
    (s : Text) → (pre : Text) × IsSpaces pre × (pre ++ ltrim s ≡ s) × StartsSolid (ltrim s)
unfolding ltrim
ltrim_split [] = ([], tt, refl, tt)
ltrim_split (c ∷ s) = elim (Bool-cases (is_space c)) [
  | inl e ↦
      let (pre, spaces, same, solid) = ltrim_split s in
      rw e (c ∷ pre, (e, spaces), ap (λ r. c ∷ r) same, solid)
  | inr e ↦ rw e ([], tt, refl, e)
]

IsSpaces-reverse : (s : Text) → IsSpaces s → IsSpaces (reverse s)
IsSpaces-reverse [] h = tt
IsSpaces-reverse (c ∷ s) h =
    subst IsSpaces (sym (reverse-append (c ∷ []) s))
      (All-append (λ b. is_space b ≡ true) (reverse s) (c ∷ []) (IsSpaces-reverse s h.1) (h.0, tt))

-- No space at the end.
abbrev pub EndsSolid : Text → Type 0
EndsSolid s = StartsSolid (reverse s)

rtrim_split :
    (s : Text) → (post : Text) × IsSpaces post × (rtrim s ++ post ≡ s) × EndsSolid (rtrim s)
unfolding rtrim
rtrim_split s =
    let (pre, spaces, same, solid) = ltrim_split (reverse s) in
    (
      reverse pre,
      IsSpaces-reverse pre spaces,
      sym (reverse-append pre (ltrim (reverse s))) ∙ ap reverse same ∙ reverse-reverse s,
      rw reverse-reverse solid,
    )

-- A text whose front part is not all of it keeps its front.
StartsSolid-prefix : (s t : Text) → StartsSolid (s ++ t) → StartsSolid s
StartsSolid-prefix [] t h = tt
StartsSolid-prefix (c ∷ s) t h = h

-- `trim` takes spaces off both ends and leaves none there: the text is the trimmed text between two
-- runs of spaces, and the trimmed text neither begins nor ends with a space.
pub trim_lem :
    (s : Text)
    → (pre : Text) × (post : Text) × IsSpaces pre
      × IsSpaces post
      × (pre ++ (trim s ++ post) ≡ s)
      × StartsSolid (trim s)
      × EndsSolid (trim s)
unfolding trim
trim_lem s =
    let (pre, spaces, same, solid) = ltrim_split s in
    let (post, spaces', same', solid') = rtrim_split (ltrim s) in
    (
      pre,
      post,
      spaces,
      spaces',
      ap (λ r. pre ++ r) same' ∙ same,
      StartsSolid-prefix (rtrim (ltrim s)) post (subst StartsSolid (sym same') solid),
      solid',
    )

abbrev pub IsWord : Text → Type 0
IsWord w = (w ≢ []) × All (λ c. is_space c ≡ false) w

whitespace_loop-IsWord :
    (s token : Text) → All (λ c. is_space c ≡ false) token → All IsWord (whitespace_loop token s)
unfolding whitespace_loop
whitespace_loop-IsWord [] [] h = tt
whitespace_loop-IsWord [] (t ∷ token) h = ((cc, h), tt)
whitespace_loop-IsWord (c ∷ s) [] h = elim (Bool-cases (is_space c)) [
  | inl e ↦ rw (e, All) (whitespace_loop-IsWord s [] tt)
  | inr e ↦ rw (e, All) (whitespace_loop-IsWord s (c ∷ []) (e, tt))
]
whitespace_loop-IsWord (c ∷ s) (t ∷ token) h = elim (Bool-cases (is_space c)) [
  | inl e ↦ rw (e, All) ((cc, h), whitespace_loop-IsWord s [] tt)
  | inr e ↦
      rw (e, All)
        (whitespace_loop-IsWord s ((t ∷ token) ++ c ∷ [])
          (All-append (λ b. is_space b ≡ false) (t ∷ token) (c ∷ []) h (e, tt)))
]

-- The bytes that are no spaces, in order.
abbrev pub solid_bytes : Text → Text
solid_bytes [] = []
solid_bytes (c ∷ s) = if is_space c then solid_bytes s else c ∷ solid_bytes s

abbrev pub concat : List Text → Text
concat [] = []
concat (w ∷ ws) = w ++ concat ws

whitespace_loop-concat :
    (s token : Text) → concat (whitespace_loop token s) ≡ token ++ solid_bytes s
unfolding whitespace_loop
whitespace_loop-concat [] [] = refl
whitespace_loop-concat [] (t ∷ token) = refl
whitespace_loop-concat (c ∷ s) [] =
    ground (arith, whitespace_loop-concat s [], whitespace_loop-concat s (c ∷ []))
whitespace_loop-concat (c ∷ s) (t ∷ token) = ground (
  arith,
  whitespace_loop-concat s [],
  whitespace_loop-concat s ((t ∷ token) ++ c ∷ []),
  append_assoc (t ∷ token) (c ∷ []) (solid_bytes s),
)

-- Every token of `splitByWhitespaces` is a word, not empty and with no space, and the tokens hold
-- all the bytes up to the first NUL that are no spaces, in their order.
pub split_by_whitespaces_lem :
    (s : Text)
    → All IsWord (split_by_whitespaces s)
      × (concat (split_by_whitespaces s) ≡ solid_bytes (c_string s))
unfolding split_by_whitespaces
split_by_whitespaces_lem s =
    (whitespace_loop-IsWord (c_string s) [] tt, whitespace_loop-concat (c_string s) [])

abbrev pub IsSolid : Text → Type 0
IsSolid = All (λ c. is_space c ≡ false)

IsSolid-reverse : (s : Text) → IsSolid s → IsSolid (reverse s)
IsSolid-reverse [] h = tt
IsSolid-reverse (c ∷ s) (here, h) =
    subst IsSolid (sym (reverse-append (c ∷ []) s))
      (All-append (λ b. is_space b ≡ false) (reverse s) (c ∷ []) (IsSolid-reverse s h) (here, tt))

ltrim-IsSolid : (pre s : Text) → IsSpaces pre → IsSolid s → ltrim (pre ++ s) ≡ s
unfolding ltrim
ltrim-IsSolid [] [] p h = refl
ltrim-IsSolid [] (c ∷ s) p (here, h) = rw here refl
ltrim-IsSolid (c ∷ pre) s (space, p) h = rw space (ltrim-IsSolid pre s p h)

-- Spaces in front of a text without any are what `trim` takes off.
pub trim-IsSolid : (pre s : Text) → IsSpaces pre → IsSolid s → trim (pre ++ s) ≡ s
unfolding trim rtrim
trim-IsSolid pre s p h =
    ap rtrim (ltrim-IsSolid pre s p h)
    ∙ ap reverse (ltrim-IsSolid [] (reverse s) tt (IsSolid-reverse s h))
    ∙ reverse-reverse s
