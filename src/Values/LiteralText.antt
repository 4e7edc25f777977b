-- ===== src/Values/LiteralText.antt =====
-- `stringLiteralView` of server/src/Tests.cpp writes a literal of the bytes that it was given.
use utbot_cpp.Base.{
  ℕ, zero, suc, ◌+◌, ◌≤◌, ◌<◌, Bool, true, false, ◌&&◌, List, [], ◌∷◌, ◌++◌, ◌≡◌, refl, sym, ap,
  ◌∙◌, arith, Option, none, some, Text, text_eq, text_eq_sound, length, get_elem?, take, drop, ltb,
  ◌==◌, if◌then◌else◌, ok, ◌>>=◌, Bool-cases, inl, inr, length-drop, get_elem?-drop, drop-suc,
  append_assoc, append-nil,
}
use utbot_cpp.Values.Bytes.{read_at}
use utbot_cpp.Values.Literals.{
  is_printable, char_to_int, char_code_to_literal, literal_round, literal_loop, string_literal_view,
}
use utbot_cpp.Values.Decoding.{
  State, outside, inside, escape, hex_start, hex, octal, behind, and_then, feed, next, decode,
}
use utbot_cpp.Values.LittleEndian.{IsBytes}
use mathlib.Core.Path.{fun_ext}

behind-nil : (m : Option (State × List ℕ)) → behind [] m ≡ m
behind-nil none = refl
behind-nil (some (q, out)) = refl

behind-behind :
    (out more : List ℕ) (m : Option (State × List ℕ))
    → behind (out ++ more) m ≡ behind out (behind more m)
behind-behind out more none = refl
behind-behind out more (some (q, last)) = ap (λ xs. some (q, xs)) (append_assoc out more last)

behind-and_then :
    (out : List ℕ) (m : Option (State × List ℕ)) (f : State → Option (State × List ℕ))
    → and_then (behind out m) f ≡ behind out (and_then m f)
behind-and_then out none f = refl
behind-and_then out (some (q, more)) f = behind-behind out more (f q)

and_then_assoc :
    (m : Option (State × List ℕ)) (f g : State → Option (State × List ℕ))
    → and_then (and_then m f) g ≡ and_then m (λ r. and_then (f r) g)
and_then_assoc none f g = refl
and_then_assoc (some (q, out)) f g = behind-and_then out (f q) g

-- Reading a text and then another.
feed-append : (q : State) (s t : Text) → feed q (s ++ t) ≡ and_then (feed q s) (λ r. feed r t)
unfolding feed
feed-append q [] t = sym (behind-nil (feed q t))
feed-append q (c ∷ s) t =
    rw (and_then_assoc (next q c) (λ (r : State). feed r s) (λ (r : State). feed r t))
      (ap (and_then (next q c)) (fun_ext (λ r. feed-append r s t)))

-- One byte is read, and the state is the one that the literal should leave.
abbrev is_inside : State → Bool
is_inside inside = true
is_inside _ = false

abbrev is_outside : State → Bool
is_outside outside = true
is_outside _ = false

abbrev leaves_byte : (State → Bool) → ℕ → Option (State × List ℕ) → Bool
leaves_byte p c none = false
leaves_byte p c (some (q, out)) = p q && text_eq out (c ∷ [])

leaves_inside :
    (c : ℕ) (m : Option (State × List ℕ))
    → leaves_byte is_inside c m ≡ true
    → m ≡ some (inside, c ∷ [])
leaves_inside c none h = cc
leaves_inside c (some (inside, out)) h = ap (λ xs. some (inside, xs)) (text_eq_sound out (c ∷ []) h)
leaves_inside c (some (outside, out)) h = cc
leaves_inside c (some (escape, out)) h = cc
leaves_inside c (some (hex_start, out)) h = cc
leaves_inside c (some (hex n, out)) h = cc
leaves_inside c (some (octal d n, out)) h = cc

leaves_outside :
    (c : ℕ) (m : Option (State × List ℕ))
    → leaves_byte is_outside c m ≡ true
    → m ≡ some (outside, c ∷ [])
leaves_outside c none h = cc
leaves_outside c (some (outside, out)) h =
    ap (λ xs. some (outside, xs)) (text_eq_sound out (c ∷ []) h)
leaves_outside c (some (inside, out)) h = cc
leaves_outside c (some (escape, out)) h = cc
leaves_outside c (some (hex_start, out)) h = cc
leaves_outside c (some (hex n, out)) h = cc
leaves_outside c (some (octal d n, out)) h = cc

-- The text of a byte that can be printed leaves the literal open; that of another one may end in
-- digits, and is read when a quote follows.
spelled : ℕ → Bool
spelled c =
    let text = char_code_to_literal (char_to_int c) in
    if is_printable (char_to_int c)
    then leaves_byte is_inside c (feed inside text)
    else leaves_byte is_outside c (feed inside (text ++ 34 ∷ []))

all_below : ℕ → (ℕ → Bool) → Bool
all_below zero p = true
all_below (suc n) p = p n && all_below n p

all_below_lem : (n : ℕ) (p : ℕ → Bool) → all_below n p ≡ true → (c : ℕ) → c < n → p c ≡ true
unfolding all_below
all_below_lem zero p h c l = absurd (omega arith)
all_below_lem (suc n) p h c l = elim (Bool-cases (c == n)) [
  | inl e ↦ let same : c ≡ n = ground arith in rw same (ground arith)
  | inr e ↦ all_below_lem n p (ground arith) c (ground arith)
]

all_spelled : all_below 256 spelled ≡ true
unfolding all_below spelled feed char_code_to_literal is_printable char_to_int text_eq
all_spelled = refl

-- The literal of a byte, and what follows.
printed :
    (c : ℕ) (t : Text)
    → c < 256
    → is_printable (char_to_int c) ≡ true
    → feed inside (char_code_to_literal (char_to_int c) ++ t) ≡ behind (c ∷ []) (feed inside t)
printed c t h e =
    let checked = all_below_lem 256 spelled all_spelled c h in
    let text = char_code_to_literal (char_to_int c) in
    let read : feed inside text ≡ some (inside, c ∷ []) =
      leaves_inside c (feed inside text) (unfold spelled in rw e at checked) in
    feed-append inside text t
    ∙ ap (λ (m : Option (State × List ℕ)). and_then m (λ r. feed r t)) read

escaped :
    (c : ℕ) (t : Text)
    → c < 256
    → is_printable (char_to_int c) ≡ false
    → feed inside (char_code_to_literal (char_to_int c) ++ 34 ∷ t)
      ≡ behind (c ∷ []) (feed outside t)
escaped c t h e =
    let checked = all_below_lem 256 spelled all_spelled c h in
    let text = char_code_to_literal (char_to_int c) in
    let read : feed inside (text ++ 34 ∷ []) ≡ some (outside, c ∷ []) =
      leaves_outside c (feed inside (text ++ 34 ∷ [])) (unfold spelled in rw e at checked) in
    ap (feed inside) (sym (append_assoc text (34 ∷ []) t))
    ∙ feed-append inside (text ++ 34 ∷ []) t
    ∙ ap (λ (m : Option (State × List ℕ)). and_then m (λ r. feed r t)) read

-- The bytes before the first zero.
unfoldable pub until_zero : List ℕ → List ℕ
until_zero [] = []
until_zero (c ∷ cs) = if c == 0 then [] else c ∷ until_zero cs

-- The bytes that a literal of `n` characters is meant to have.
abbrev meant : Bool → ℕ → List ℕ → List ℕ
meant skip n xs = if skip then until_zero (take n xs) else take n xs

-- One round, before the text of the other bytes and the closing quote.
literal_round_lem :
    (c : ℕ) (more : Bool) (body : Text) (out : List ℕ)
    → c < 256
    → feed inside (body ++ 34 ∷ []) ≡ some (outside, out)
    → (more ≡ false → body ≡ [])
    → feed inside ((literal_round c more ++ body) ++ 34 ∷ []) ≡ some (outside, c ∷ out)
literal_round_lem c true body out h e end =
    let text = char_code_to_literal (char_to_int c) in
    let rest = body ++ 34 ∷ [] in
    elim (Bool-cases (is_printable (char_to_int c))) [
      | inl p ↦
          let spaced : literal_round c true ≡ text =
            unfold literal_round in rw p (append-nil text) in
          rw (spaced, append_assoc text body (34 ∷ []), printed c rest h p, e) refl
      | inr p ↦
          let spaced : literal_round c true ≡ text ++ 34 ∷ 34 ∷ [] =
            unfold literal_round in rw p refl in
          let reopened : feed outside (34 ∷ rest) ≡ feed inside rest =
            unfold feed in behind-nil (feed inside rest) in
          rw
            (
              spaced,
              append_assoc (text ++ 34 ∷ 34 ∷ []) body (34 ∷ []),
              append_assoc text (34 ∷ 34 ∷ []) rest,
              escaped c (34 ∷ rest) h p,
              reopened,
              e,
            )
            refl
    ]
literal_round_lem c false body out h e end =
    let text = char_code_to_literal (char_to_int c) in
    let spaced : literal_round c false ≡ text =
      unfold literal_round in
      elim (Bool-cases (is_printable (char_to_int c))) [
        | inl p ↦ rw p (append-nil text)
        | inr p ↦ rw p (append-nil text)
      ] in
    let nothing = ap (feed inside) (ap (λ (b : Text). b ++ 34 ∷ []) (sym (end refl))) ∙ e in
    elim (Bool-cases (is_printable (char_to_int c))) [
      | inl p ↦
          rw (spaced, append_assoc text body (34 ∷ []), printed c (body ++ 34 ∷ []) h p, e) refl
      | inr p ↦
          rw (spaced, end refl, append-nil text, escaped c [] h p)
            (unfold feed in ap (behind (c ∷ [])) nothing)
    ]

closed : (skip : Bool) (xs : List ℕ) → feed inside (34 ∷ []) ≡ some (outside, meant skip 0 xs)
unfolding feed until_zero
closed true xs = refl
closed false xs = refl

meant_stop :
    (skip : Bool) (n c : ℕ) (xs : List ℕ)
    → (c == 0 && skip) ≡ true
    → [] ≡ meant skip (suc n) (c ∷ xs)
unfolding until_zero
meant_stop skip n c xs h = ground arith

meant_go :
    (skip : Bool) (n c : ℕ) (xs : List ℕ)
    → (c == 0 && skip) ≡ false
    → c ∷ meant skip n xs ≡ meant skip (suc n) (c ∷ xs)
unfolding until_zero
meant_go skip n c xs h = ground arith

closed_quote : feed inside (34 ∷ []) ≡ some (outside, [])
unfolding feed
closed_quote = refl

loop_stop :
    (array : List ℕ) (skip : Bool) (n i c : ℕ)
    → get_elem? array i ≡ some c
    → (c == 0 && skip) ≡ true
    → literal_loop array skip i (suc n) ≡ ok []
unfolding literal_loop
loop_stop array skip n i c found stop = rw (found, stop, read_at, ◌>>=◌) refl

loop_go :
    (array : List ℕ) (skip : Bool) (n i c : ℕ) (body : Text)
    → get_elem? array i ≡ some c
    → (c == 0 && skip) ≡ false
    → literal_loop array skip (i + 1) n ≡ ok body
    → literal_loop array skip i (suc n) ≡ ok (literal_round c (ltb (i + 1) (length array)) ++ body)
unfolding literal_loop
loop_go array skip n i c body found go done = rw (found, go, done, read_at, ◌>>=◌) refl

literal_loop_lem :
    (array : List ℕ) (skip : Bool) (n i : ℕ) (xs : List ℕ)
    → IsBytes xs
    → drop i array ≡ xs
    → n ≤ length xs
    → (body : Text) × (literal_loop array skip i n ≡ ok body)
      × (feed inside (body ++ 34 ∷ []) ≡ some (outside, meant skip n xs))
      × (n ≡ 0 → body ≡ [])
literal_loop_lem array skip zero i xs all e h =
    ([], unfold literal_loop in refl, closed skip xs, λ _. refl)
literal_loop_lem array skip (suc n) i [] all e h = absurd (omega arith)
literal_loop_lem array skip (suc n) i (c ∷ xs) (hc, all) e h =
    let found = get_elem?-drop i array c xs e in
    let next : i + 1 ≡ suc i = omega arith in
    let tail : drop (i + 1) array ≡ xs = rw next (drop-suc i array c xs e) in
    let (body, done, denotes, empty) =
      literal_loop_lem array skip n (i + 1) xs all tail (omega arith) in
    let last : ltb (i + 1) (length array) ≡ false → body ≡ [] =
      λ (t : ltb (i + 1) (length array) ≡ false).
        empty (ground (arith, length-drop i array, ap length e)) in
    elim (Bool-cases (c == 0 && skip)) [
      | inl stop ↦ (
        [],
        loop_stop array skip n i c found stop,
        closed_quote ∙ ap (λ (ys : List ℕ). some (outside, ys)) (meant_stop skip n c xs stop),
        λ (z : suc n ≡ 0). absurd (omega arith),
      )
      | inr go ↦ (
        literal_round c (ltb (i + 1) (length array)) ++ body,
        loop_go array skip n i c body found go done,
        literal_round_lem c (ltb (i + 1) (length array)) body (meant skip n xs) hc denotes last
            ∙ ap (λ (ys : List ℕ). some (outside, ys)) (meant_go skip n c xs go),
        λ (z : suc n ≡ 0). absurd (omega arith),
      )
    ]

take_all : (xs : List ℕ) → take (length xs) xs ≡ xs
take_all [] = refl
take_all (x ∷ xs) = ap (λ ys. x ∷ ys) (take_all xs)

meant_all :
    (array : List ℕ) (len : ℕ)
    → meant (len == 0) (if len == 0 then length array else len) array
      ≡ (if len == 0 then until_zero array else take len array)
meant_all array len = elim (Bool-cases (len == 0)) [
  | inl unset ↦ rw unset (ap until_zero (take_all array))
  | inr given ↦ rw given refl
]

-- The text of `stringLiteralView` denotes the bytes before the first zero if no length is given, and
-- otherwise as many bytes as it is given, when the array has them.
pub string_literal_view-decode :
    (array : List ℕ) (len : ℕ)
    → IsBytes array
    → len ≤ length array
    → (text : Text) × (string_literal_view array len ≡ ok text)
      × (decode text ≡ some (if len == 0 then until_zero array else take len array))
unfolding string_literal_view decode
string_literal_view-decode array len all h =
    let skip = len == 0 in
    let count = if skip then length array else len in
    let (body, done, denotes, empty) =
      literal_loop_lem array skip count 0 array all refl (ground arith) in
    let read : feed outside (34 ∷ (body ++ 34 ∷ [])) ≡ some (outside, meant skip count array) =
      unfold feed in behind-nil (feed inside (body ++ 34 ∷ [])) ∙ denotes in
    (
      34 ∷ (body ++ 34 ∷ []),
      rw (done, ◌>>=◌) refl,
      rw (read, decode) (ap some (meant_all array len)),
    )
