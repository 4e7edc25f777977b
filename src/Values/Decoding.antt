-- ===== src/Values/Decoding.antt =====
-- What a C compiler reads in the text of string literals that stand next to each other.
use utbot_cpp.Base.{
  ℕ, ◌+◌, ◌-◌, ◌*◌, ◌&&◌, List, [], ◌∷◌, ◌++◌, Option, none, some, Text, lookup_id, ltb, leb, ◌==◌,
  if◌then◌else◌,
}

-- Between literals, inside one, behind a backslash, and inside a hexadecimal or octal escape, whose
-- digits so far make a number.
pub data State : Type 0 where
  outside inside escape hex_start : State
  hex : ℕ → State
  octal : (digits value : ℕ) → State

abbrev pub hex_value : ℕ → Option ℕ
hex_value c =
    if leb b'0' c && leb c b'9'
    then some (c - b'0')
    else if leb b'a' c && leb c b'f'
    then some (c - b'a' + 10)
    else if leb b'A' c && leb c b'F'
    then some (c - b'A' + 10)
    else none

-- The simple escape sequences of C.
abbrev pub simple_escapes : List (ℕ × ℕ)
simple_escapes =
    (b'n', 10)
    ∷ (b't', 9)
    ∷ (b'v', 11)
    ∷ (b'b', 8)
    ∷ (b'r', 13)
    ∷ (b'f', 12)
    ∷ (b'a', 7)
    ∷ (92, 92)
    ∷ (63, 63)
    ∷ (39, 39)
    ∷ (34, 34)
    ∷ []

-- A character that no escape sequence takes; `before` is what has just been completed.
unfoldable pub next_inside : List ℕ → ℕ → Option (State × List ℕ)
next_inside before c =
    if c == 34
    then some (outside, before)
    else if c == 92
    then some (escape, before)
    else some (inside, before ++ c ∷ [])

-- One character of the text.
unfoldable pub next : State → ℕ → Option (State × List ℕ)
unfolding next_inside lookup_id
next outside c = if c == 34 then some (inside, []) else none
next inside c = next_inside [] c
next escape c =
    if c == b'x'
    then some (hex_start, [])
    else if leb b'0' c && leb c b'7'
    then some (octal 1 (c - b'0'), [])
    else elim (lookup_id c simple_escapes) [ some v ↦ some (inside, v ∷ []) | none ↦ none ]
next hex_start c = elim (hex_value c) [ some d ↦ some (hex d, []) | none ↦ none ]
next (hex n) c = elim (hex_value c) [
  | some d ↦ some (hex (n * 16 + d), [])
  | none ↦ next_inside (n ∷ []) c
]
next (octal digits n) c =
    if ltb digits 3 && leb b'0' c && leb c b'7'
    then some (octal (digits + 1) (n * 8 + (c - b'0')), [])
    else next_inside (n ∷ []) c

-- What has been read, and then what `f` reads from the state that is reached.
abbrev pub behind : List ℕ → Option (State × List ℕ) → Option (State × List ℕ)
behind out none = none
behind out (some (q, more)) = some (q, out ++ more)

abbrev pub and_then :
    Option (State × List ℕ) → (State → Option (State × List ℕ)) → Option (State × List ℕ)
and_then none f = none
and_then (some (q, out)) f = behind out (f q)

unfoldable pub feed : State → Text → Option (State × List ℕ)
unfolding next
feed q [] = some (q, [])
feed q (c ∷ s) = and_then (next q c) (λ r. feed r s)

-- The bytes of a sequence of adjacent literals, without the final zero.
unfoldable pub decode : Text → Option (List ℕ)
unfolding feed
decode s = elim (feed outside s) [
  | some (q, out) ↦ elim q [ outside ↦ some out | _ ↦ none ]
  | none ↦ none
]
