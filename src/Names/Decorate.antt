-- ===== src/Names/Decorate.antt =====
-- `decorate` of server/src/NameDecorator.cpp. Its regular expression is the alternation of the
-- keywords between two word boundaries. As a keyword has word characters only, it matches exactly at
-- the maximal runs of word characters that are a keyword.
use utbot_cpp.Base.{
  ℕ, Bool, true, false, not, ◌&&◌, ◌||◌, List, [], ◌∷◌, ◌++◌, ◌≡◌, refl, sym, ap, ◌∙◌, arith, Text,
  codes, text_eq, text_eq_sound, contains_text, ◌==◌, leb, if◌then◌else◌, append_assoc, append-nil,
  All, All-append, Bool-cases, inl, inr,
}
use utbot_cpp.Names.Keywords.{cpp_only_keywords, cpp_keywords, filter_out}

-- What `\b` takes for a part of a word: letters, digits and the underscore.
unfoldable pub is_word_char : ℕ → Bool
is_word_char c =
    leb b'a' c && leb c b'z' || leb b'A' c && leb c b'Z' || leb b'0' c && leb c b'9' || c == b'_'

-- `$&_` behind a keyword.
unfoldable pub mark : Text → Text
mark w = if contains_text w cpp_only_keywords then w ++ (b'_' ∷ []) else w

-- `w` is the run of word characters up to here.
unfoldable pub decorate_loop : Text → Text → Text
decorate_loop w [] = mark w
decorate_loop w (c ∷ s) = elim (is_word_char c) [
  | true ↦ decorate_loop (w ++ (c ∷ [])) s
  | false ↦ mark w ++ (c ∷ decorate_loop [] s)
]

unfoldable pub decorate : Text → Text
unfolding decorate_loop
decorate name = decorate_loop [] name

-- A text whose last byte is an underscore.
abbrev ends_in_underscore : Text → Bool
ends_in_underscore [] = false
ends_in_underscore (c ∷ []) = c == b'_'
ends_in_underscore (c ∷ d ∷ s) = ends_in_underscore (d ∷ s)

ends_in_underscore-append : (w : Text) → ends_in_underscore (w ++ (b'_' ∷ [])) ≡ true
ends_in_underscore-append [] = refl
ends_in_underscore-append (c ∷ []) = refl
ends_in_underscore-append (c ∷ d ∷ w) = ends_in_underscore-append (d ∷ w)

contains-open :
    (ks : List Text)
    → All (λ k. ends_in_underscore k ≡ false) ks
    → (w : Text) → ends_in_underscore w ≡ true
    → contains_text w ks ≡ false
unfolding contains_text
contains-open [] h w e = refl
contains-open (k ∷ ks) h w e = elim (Bool-cases (text_eq k w)) [
  | inl same ↦ absurd (ground (arith, ap ends_in_underscore (text_eq_sound k w same)))
  | inr other ↦ ground (arith, contains-open ks h.1 w e)
]

All-filter_out :
    (P : Text → Type 0) (p : Text → Bool) (ks : List Text) → All P ks → All P (filter_out p ks)
unfolding filter_out
All-filter_out P p [] h = tt
All-filter_out P p (k ∷ ks) h = elim (Bool-cases (p k)) [
  | inl gone ↦ rw gone (All-filter_out P p ks h.1)
  | inr kept ↦ rw kept (h.0, All-filter_out P p ks h.1)
]

all_open : List Text → Bool
all_open [] = true
all_open (k ∷ ks) = not (ends_in_underscore k) && all_open ks

all_open_lem : (ks : List Text) → all_open ks ≡ true → All (λ k. ends_in_underscore k ≡ false) ks
unfolding all_open
all_open_lem [] h = tt
all_open_lem (k ∷ ks) h = (ground arith, all_open_lem ks (ground arith))

cpp_keywords_open : all_open cpp_keywords ≡ true
unfolding all_open cpp_keywords codes
cpp_keywords_open = refl

-- A word that has been marked is no keyword.
mark-mark : (w : Text) → mark (mark w) ≡ mark w
unfolding mark cpp_only_keywords
mark-mark w =
    let open_keywords : All (λ k. ends_in_underscore k ≡ false) cpp_only_keywords =
      All-filter_out (λ k. ends_in_underscore k ≡ false) _ cpp_keywords
        (all_open_lem cpp_keywords cpp_keywords_open) in
    let marked =
      contains-open cpp_only_keywords open_keywords (w ++ (b'_' ∷ []))
        (ends_in_underscore-append w) in
    ground (arith, marked)

abbrev IsRun : Text → Type 0
IsRun = All (λ c. is_word_char c ≡ true)

mark-IsRun : (w : Text) → IsRun w → IsRun (mark w)
unfolding mark is_word_char
mark-IsRun w h = elim (Bool-cases (contains_text w cpp_only_keywords)) [
  | inl e ↦ rw e (All-append (λ c. is_word_char c ≡ true) w (b'_' ∷ []) h (refl, tt))
  | inr e ↦ rw e h
]

decorate_loop_word :
    (w s : Text) (c : ℕ)
    → is_word_char c ≡ true
    → decorate_loop w (c ∷ s) ≡ decorate_loop (w ++ (c ∷ [])) s
unfolding decorate_loop
decorate_loop_word w s c e = ground arith

decorate_loop_end :
    (w s : Text) (c : ℕ)
    → is_word_char c ≡ false
    → decorate_loop w (c ∷ s) ≡ mark w ++ (c ∷ decorate_loop [] s)
unfolding decorate_loop
decorate_loop_end w s c e = ground arith

decorate_loop-append :
    (u rest w : Text) → IsRun u → decorate_loop w (u ++ rest) ≡ decorate_loop (w ++ u) rest
decorate_loop-append [] rest w h = rw append-nil refl
decorate_loop-append (c ∷ u) rest w h =
    decorate_loop_word w (u ++ rest) c h.0
    ∙ decorate_loop-append u rest (w ++ (c ∷ [])) h.1
    ∙ ap (λ v. decorate_loop v rest) (append_assoc w (c ∷ []) u)

decorate_loop-run : (w : Text) → IsRun w → decorate_loop [] (mark w) ≡ mark w
unfolding decorate_loop
decorate_loop-run w h =
    ap (decorate_loop []) (sym (append-nil (mark w)))
    ∙ decorate_loop-append (mark w) [] [] (mark-IsRun w h)
    ∙ mark-mark w

decorate_loop-again :
    (s w : Text) → IsRun w → decorate_loop [] (decorate_loop w s) ≡ decorate_loop w s
decorate_loop-again [] w h = unfold decorate_loop in decorate_loop-run w h
decorate_loop-again (c ∷ s) w h = elim (Bool-cases (is_word_char c)) [
  | inl e ↦ rw (decorate_loop_word w s c e) (
      decorate_loop-again s (w ++ (c ∷ []))
        (All-append (λ b. is_word_char b ≡ true) w (c ∷ []) h (e, tt)))
  | inr e ↦
      let rest = decorate_loop [] s in
      rw (decorate_loop_end w s c e) (
        decorate_loop-append (mark w) (c ∷ rest) [] (mark-IsRun w h)
        ∙ decorate_loop_end (mark w) rest c e
        ∙ rw (mark-mark w, decorate_loop-again s [] tt) refl)
]

-- Decorating a text twice is decorating it once.
pub decorate-decorate : (s : Text) → decorate (decorate s) ≡ decorate s
unfolding decorate
decorate-decorate s = decorate_loop-again s [] tt
