-- ===== src/Printing/Braces.antt =====
-- `LB`, `RB`, `printForLoopsAndReturnLoopIterators` and `closeBrackets` of
-- server/src/printers/Printer.cpp: braces and the depth of the indentation.
use utbot_cpp.Base.{
  ℕ, zero, suc, ◌+◌, ◌/◌, ◌%◌, ◌≤◌, Bool, true, false, List, [], ◌∷◌, ◌++◌, ◌≡◌, refl, ap, ◌∙◌,
  arith, Text, codes, length, ◌==◌, if◌then◌else◌,
}
use utbot_cpp.Values.Bytes.{ℤ, pos, negsuc, digits_loop, natural_to_string}
use utbot_cpp.Printing.Printer.{
  Printer, increment, decrement, repeat, repeat_natural, tab, write, line_indent, write_indented,
  lb, rb, str_for_bound, for_loops, iterator_name, close_brackets,
}

-- How often a byte stands in a text.
abbrev pub count : ℕ → Text → ℕ
count c [] = 0
count c (d ∷ s) = (if d == c then 1 else 0) + count c s

abbrev pub opens : Text → ℕ
opens = count 123

abbrev pub closes : Text → ℕ
closes = count 125

count-append : (c : ℕ) (s t : Text) → count c (s ++ t) ≡ count c s + count c t
count-append c [] t = omega arith
count-append c (d ∷ s) t = omega (arith, count-append c s t)

-- No brace is a digit.
count-digits_loop : (c k n : ℕ) (out : Text) → 58 ≤ c → count c (digits_loop k n out) ≡ count c out
unfolding digits_loop
count-digits_loop c zero n out h = refl
count-digits_loop c (suc k) n out h =
    ground (arith, count-digits_loop c k (n / 10) ((b'0' + n % 10) ∷ out) h)

count-natural_to_string : (c n : ℕ) → 58 ≤ c → count c (natural_to_string n) ≡ 0
unfolding natural_to_string codes
count-natural_to_string c n h = ground (arith, count-digits_loop c 20 n [] h)

count-line_indent : (c : ℕ) (p : Printer) → 48 ≤ c → count c (line_indent p) ≡ 0
unfolding line_indent repeat repeat_natural codes
count-line_indent c p h =
    ground (arith, count-append c (repeat tab p.tabs_depth) (codes "// "), spaces p.tabs_depth)
  where
    natural : (n : ℕ) → count c (repeat_natural tab n) ≡ 0
    natural zero = refl
    natural (suc n) = ground (arith, natural n, count-append c (repeat_natural tab n) tab)

    spaces : (z : ℤ) → count c (repeat tab z) ≡ 0
    spaces (pos n) = natural n
    spaces (negsuc n) = refl

pub count-write_indented :
    (c : ℕ) (text : Text) (p : Printer)
    → 58 ≤ c
    → count c (write_indented text p).ss ≡ count c p.ss + count c text
unfolding write_indented write
count-write_indented c text p h = omega (
  arith,
  count-append c p.ss (line_indent p ++ text),
  count-append c (line_indent p) text,
  count-line_indent c p (omega arith),
)

count-iterator_name : (c counter i : ℕ) → 123 ≤ c → count c (iterator_name counter i) ≡ 0
unfolding iterator_name codes
count-iterator_name c counter i h =
    let behind = count-append c (natural_to_string counter) (95 ∷ natural_to_string i) in
    ground (
      arith,
      behind,
      count-natural_to_string c counter (omega arith),
      count-natural_to_string c i (omega arith),
    )

count-str_for_bound :
    (c n : ℕ) (it : Text) (p : Printer)
    → 123 ≤ c
    → count c it ≡ 0
    → count c (str_for_bound it n p).ss ≡ count c p.ss
unfolding str_for_bound codes
count-str_for_bound c n it p h none_inside =
    let last : Text = codes "; " ++ (it ++ codes " ++)") in
    let third : Text = codes " < " ++ (natural_to_string n ++ last) in
    let second : Text = codes " = 0; " ++ (it ++ third) in
    ground (
      arith,
      count-write_indented c (codes "for (int " ++ (it ++ second)) p (omega arith),
      count-append c it (codes " ++)"),
      count-append c (natural_to_string n) last,
      count-append c it third,
      count-append c it second,
      count-natural_to_string c n (omega arith),
    )

count-lb :
    (space : Bool) (p : Printer)
    → (opens (lb space p).ss ≡ opens p.ss + 1) × (closes (lb space p).ss ≡ closes p.ss)
unfolding lb write codes
count-lb true p = (
  omega (arith, count-append 123 p.ss (32 ∷ 123 ∷ 10 ∷ [])),
  omega (arith, count-append 125 p.ss (32 ∷ 123 ∷ 10 ∷ [])),
)
count-lb false p = (
  omega (arith, count-append 123 p.ss (123 ∷ 10 ∷ [])),
  omega (arith, count-append 125 p.ss (123 ∷ 10 ∷ [])),
)

count-rb :
    (p : Printer)
    → (opens (rb false p).ss ≡ opens p.ss) × (closes (rb false p).ss ≡ closes p.ss + 1)
unfolding rb codes
count-rb p =
    let lowered : Printer = record p { tabs_depth = decrement p.tabs_depth } in
    (
      omega (arith, count-write_indented 123 (125 ∷ 10 ∷ []) lowered (omega arith)),
      omega (arith, count-write_indented 125 (125 ∷ 10 ∷ []) lowered (omega arith)),
    )

count-for_loops :
    (counter i : ℕ) (bounds : List ℕ) (p : Printer)
    → (opens (for_loops counter i bounds p).ss ≡ opens p.ss + length bounds)
      × (closes (for_loops counter i bounds p).ss ≡ closes p.ss)
unfolding for_loops
count-for_loops counter i [] p = (omega arith, refl)
count-for_loops counter i (bound ∷ bounds) p =
    let it = iterator_name counter i in
    let bound_line = str_for_bound it bound p in
    let rest = count-for_loops counter (i + 1) bounds (lb true bound_line) in
    let opened = count-lb true bound_line in
    let head_opens =
      count-str_for_bound 123 bound it p (omega arith)
        (count-iterator_name 123 counter i (omega arith)) in
    let head_closes =
      count-str_for_bound 125 bound it p (omega arith)
        (count-iterator_name 125 counter i (omega arith)) in
    (omega (arith, rest.0, opened.0, head_opens), omega (arith, rest.1, opened.1, head_closes))

count-close_brackets :
    (n : ℕ) (p : Printer)
    → (opens (close_brackets n p).ss ≡ opens p.ss)
      × (closes (close_brackets n p).ss ≡ closes p.ss + n)
unfolding close_brackets
count-close_brackets zero p = (refl, omega arith)
count-close_brackets (suc n) p =
    let rest = count-close_brackets n (rb false p) in
    let closed = count-rb p in (omega (arith, rest.0, closed.0), omega (arith, rest.1, closed.1))

-- The depth after `n` blocks are opened, or closed.
raise : ℕ → ℤ → ℤ
raise zero z = z
raise (suc n) z = raise n (increment z)

lower : ℕ → ℤ → ℤ
lower zero z = z
lower (suc n) z = lower n (decrement z)

pub decrement-increment : (z : ℤ) → decrement (increment z) ≡ z
unfolding decrement increment
decrement-increment (pos n) = refl
decrement-increment (negsuc zero) = refl
decrement-increment (negsuc (suc n)) = refl

raise-increment : (n : ℕ) (z : ℤ) → raise n (increment z) ≡ increment (raise n z)
unfolding raise
raise-increment zero z = refl
raise-increment (suc n) z = raise-increment n (increment z)

lower-raise : (n : ℕ) (z : ℤ) → lower n (raise n z) ≡ z
unfolding lower raise
lower-raise zero z = refl
lower-raise (suc n) z =
    ap (λ (x : ℤ). lower n (decrement x)) (raise-increment n z)
    ∙ ap (lower n) (decrement-increment (raise n z))
    ∙ lower-raise n z

for_loops-depth :
    (counter i : ℕ) (bounds : List ℕ) (p : Printer)
    → (for_loops counter i bounds p).tabs_depth ≡ raise (length bounds) p.tabs_depth
unfolding for_loops raise lb write str_for_bound write_indented
for_loops-depth counter i [] p = refl
for_loops-depth counter i (bound ∷ bounds) p =
    for_loops-depth counter (i + 1) bounds
      (lb true (str_for_bound (iterator_name counter i) bound p))

close_brackets-depth :
    (n : ℕ) (p : Printer) → (close_brackets n p).tabs_depth ≡ lower n p.tabs_depth
unfolding close_brackets lower rb write write_indented
close_brackets-depth zero p = refl
close_brackets-depth (suc n) p = close_brackets-depth n (rb false p)

-- The loops that are opened for some bounds, a body that keeps the depth and puts as many closing as
-- opening braces, and as many closed brackets as there are bounds: the depth is what it was, and the
-- text that is put has as many closing as opening braces.
pub close_brackets-for_loops :
    (counter i : ℕ) (bounds : List ℕ) (body : Printer → Printer) (p : Printer)
    → ((r : Printer) → (body r).tabs_depth ≡ r.tabs_depth)
    → ((r : Printer) → opens (body r).ss + closes r.ss ≡ closes (body r).ss + opens r.ss)
    → let q = close_brackets (length bounds) (body (for_loops counter i bounds p)) in
      (q.tabs_depth ≡ p.tabs_depth) × (opens q.ss + closes p.ss ≡ closes q.ss + opens p.ss)
close_brackets-for_loops counter i bounds body p depth even =
    let opened = for_loops counter i bounds p in
    let counts = count-for_loops counter i bounds p in
    let closed = count-close_brackets (length bounds) (body opened) in
    (
      close_brackets-depth (length bounds) (body opened)
          ∙ ap (lower (length bounds)) (depth opened ∙ for_loops-depth counter i bounds p)
          ∙ lower-raise (length bounds) p.tabs_depth,
      omega (arith, counts.0, counts.1, closed.0, closed.1, even opened),
    )

-- Closing as many brackets as loops are opened takes the depth back.
pub close_brackets-depth_for_loops :
    (counter i : ℕ) (bounds : List ℕ) (p q : Printer)
    → q.tabs_depth ≡ (for_loops counter i bounds p).tabs_depth
    → (close_brackets (length bounds) q).tabs_depth ≡ p.tabs_depth
close_brackets-depth_for_loops counter i bounds p q e =
    close_brackets-depth (length bounds) q
    ∙ ap (lower (length bounds)) (e ∙ for_loops-depth counter i bounds p)
    ∙ lower-raise (length bounds) p.tabs_depth
