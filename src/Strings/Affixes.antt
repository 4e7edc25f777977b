-- ===== src/Strings/Affixes.antt =====
-- `startsWith`, `endsWith` and the case functions of server/src/utils/StringUtils.cpp.
use utbot_cpp.Base.{
  ℕ, ◌+◌, ◌-◌, Bool, true, false, ◌&&◌, [], ◌∷◌, ◌++◌, ◌≡◌, ◌↔◌, refl, sym, ap, ◌∙◌, arith, Text,
  text_eq, text_eq_refl, text_eq_sound, length, length-append, take, drop, leb, if◌then◌else◌, all,
  map, take-append-drop, not,
}

-- `compare(0, n, pattern) == 0` behind the test of the lengths.
unfoldable pub starts_with : Text → Text → Bool
starts_with str pattern =
    if leb (length pattern) (length str) then text_eq (take (length pattern) str) pattern else false

unfoldable pub ends_with : Text → Text → Bool
ends_with str pattern =
    if leb (length pattern) (length str)
    then text_eq (drop (length str - length pattern) str) pattern
    else false

-- `std::isdigit`, `std::tolower` and `std::toupper` in the "C" locale.
unfoldable pub is_digit : ℕ → Bool
is_digit c = leb b'0' c && leb c b'9'

unfoldable pub lower : ℕ → ℕ
lower c = if leb b'A' c && leb c b'Z' then c + 32 else c

unfoldable pub upper : ℕ → ℕ
upper c = if leb b'a' c && leb c b'z' then c - 32 else c

abbrev pub is_empty : Text → Bool
is_empty [] = true
is_empty (c ∷ s) = false

unfoldable pub is_number : Text → Bool
unfolding is_digit
is_number s = not (is_empty s) && all is_digit s

unfoldable pub tolower : Text → Text
unfolding lower
tolower = map lower

unfoldable pub toupper : Text → Text
unfolding upper
toupper = map upper

pub take-length-append : (p r : Text) → take (length p) (p ++ r) ≡ p
take-length-append [] r = refl
take-length-append (c ∷ p) r = ap (λ t. c ∷ t) (take-length-append p r)

pub drop-length-append : (r p : Text) → drop (length r) (r ++ p) ≡ p
drop-length-append [] p = refl
drop-length-append (c ∷ r) p = drop-length-append r p

-- `startsWith` holds exactly for the texts that are the pattern followed by some rest.
pub starts_with_iff : (s p : Text) → (starts_with s p ≡ true) ↔ ((r : Text) × (s ≡ p ++ r))
starts_with_iff s p = (
  λ e. (
    drop (length p) s,
    let found : take (length p) s ≡ p =
          text_eq_sound (take (length p) s) p (unfold starts_with in ground arith) in
        sym (take-append-drop (length p) s) ∙ ap (λ t. t ++ drop (length p) s) found,
  ),
  λ (r, e).
      unfold starts_with in
      rw (e, take-length-append p r) (ground (arith, length-append p r, text_eq_refl p)),
)

-- `endsWith` holds exactly for the texts that are some beginning followed by the pattern.
pub ends_with_iff : (s p : Text) → (ends_with s p ≡ true) ↔ ((r : Text) × (s ≡ r ++ p))
ends_with_iff s p = (
  λ e. (
    take (length s - length p) s,
    let found : drop (length s - length p) s ≡ p =
          text_eq_sound (drop (length s - length p) s) p (unfold ends_with in ground arith) in
        sym (take-append-drop (length s - length p) s)
        ∙ ap (λ t. take (length s - length p) s ++ t) found,
  ),
  λ (r, e).
      let n : length (r ++ p) - length p ≡ length r = omega (arith, length-append r p) in
      unfold ends_with in
      rw (e, n, drop-length-append r p) (ground (arith, length-append r p, text_eq_refl p)),
)
