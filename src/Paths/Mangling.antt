-- ===== src/Paths/Mangling.antt =====
-- `mangleExtensions` of server/src/Paths.cpp: it ends, as every round takes an extension off.
use utbot_cpp.Base.{
  ℕ, zero, suc, ◌+◌, ◌≤◌, true, false, [], ◌∷◌, ◌++◌, List, ◌≡◌, ◌≢◌, refl, sym, ap, ◌∙◌, arith,
  Text, length, length-append, if◌then◌else◌, append-nil, Bool-cases, inl, inr,
}
use utbot_cpp.Paths.FilePath.{
  FilePath, change_last, last_part, path_string, with_dot, split_name, filename, extension,
  has_extension, stem, replace_extension,
}
use utbot_cpp.Paths.FileNames.{
  remove_extension, mangle_text, mangle_extensions_loop, mangle_extensions,
}
use utbot_cpp.Paths.Stems.{split_name_lem}

last_part-change_last :
    (f : Text → Text) (parts : List Text)
    → last_part parts ≢ []
    → last_part (change_last f parts) ≡ f (last_part parts)
last_part-change_last f [] some_name = absurd (some_name refl)
last_part-change_last f (part ∷ []) some_name = refl
last_part-change_last f (part ∷ next ∷ []) some_name = refl
last_part-change_last f (part ∷ next ∷ last ∷ parts) some_name =
    last_part-change_last f (next ∷ last ∷ parts) some_name

some_bytes : (x : Text) → (elim x [ [] ↦ false | c ∷ s ↦ true ]) ≡ true → 1 ≤ length x
some_bytes [] e = cc
some_bytes (c ∷ s) e = omega arith

has_extension-length : (p : FilePath) → has_extension p ≡ true → 1 ≤ length (extension p)
unfolding has_extension
has_extension-length p has = some_bytes (extension p) has

length-filename : (p : FilePath) → length (stem p) + length (extension p) ≡ length (filename p)
unfolding stem extension
length-filename p =
    sym (length-append (split_name (filename p)).0 (split_name (filename p)).1)
    ∙ ap length (split_name_lem (filename p)).0

some_name : (s : Text) → 1 ≤ length s → s ≢ []
some_name [] h = absurd (omega arith)
some_name (c ∷ s) h = λ e. cc

filename-remove_extension :
    (p : FilePath) → filename p ≢ [] → filename (remove_extension p) ≡ stem p
unfolding filename remove_extension replace_extension stem
filename-remove_extension p named =
    last_part-change_last (λ name. (split_name name).0 ++ with_dot []) p.parts named
    ∙ append-nil (split_name (last_part p.parts)).0

-- A path with an extension has a longer name than without it.
length-filename-remove_extension :
    (p : FilePath)
    → has_extension p ≡ true
    → suc (length (filename (remove_extension p))) ≤ length (filename p)
length-filename-remove_extension p has =
    let some_extension = has_extension-length p has in
    let parts_of = length-filename p in
    let named : filename p ≢ [] = some_name (filename p) (omega arith) in
    let kept : length (filename (remove_extension p)) ≡ length (stem p) =
      ap length (filename-remove_extension p named) in
    omega arith

mangle_extensions_loop_fuel :
    (n m : ℕ) (p : FilePath)
    → length (filename p) ≤ n
    → length (filename p) ≤ m
    → mangle_extensions_loop n p ≡ mangle_extensions_loop m p
unfolding mangle_extensions_loop
mangle_extensions_loop_fuel zero zero p hn hm = refl
mangle_extensions_loop_fuel zero (suc m) p hn hm = elim (Bool-cases (has_extension p)) [
  | inl has ↦ absurd (omega (arith, length-filename-remove_extension p has))
  | inr none_left ↦ rw none_left refl
]
mangle_extensions_loop_fuel (suc n) zero p hn hm = elim (Bool-cases (has_extension p)) [
  | inl has ↦ absurd (omega (arith, length-filename-remove_extension p has))
  | inr none_left ↦ rw none_left refl
]
mangle_extensions_loop_fuel (suc n) (suc m) p hn hm = elim (Bool-cases (has_extension p)) [
  | inl has ↦
      let shorter = length-filename-remove_extension p has in
      rw has (
        ap (λ s. s ++ mangle_text (extension p))
          (mangle_extensions_loop_fuel n m (remove_extension p) (omega arith) (omega arith)))
  | inr none_left ↦ rw none_left refl
]

mangle_extensions_loop_last :
    (n : ℕ) (p : FilePath)
    → has_extension p ≡ false
    → mangle_extensions_loop (suc n) p ≡ path_string p
unfolding mangle_extensions_loop
mangle_extensions_loop_last n p none_left =
    ap
      (λ t.
        if t
        then mangle_extensions_loop n (remove_extension p) ++ mangle_text (extension p)
        else path_string p)
      none_left

mangle_extensions_loop_round :
    (n : ℕ) (p : FilePath)
    → has_extension p ≡ true
    → mangle_extensions_loop (suc n) p
      ≡ mangle_extensions_loop n (remove_extension p) ++ mangle_text (extension p)
unfolding mangle_extensions_loop
mangle_extensions_loop_round n p has =
    ap
      (λ t.
        if t
        then mangle_extensions_loop n (remove_extension p) ++ mangle_text (extension p)
        else path_string p)
      has

-- `mangleExtensions` ends and is what its source calls for: a path without an extension is its own
-- text, and any other is the result for the path without its extension, and the extension mangled.
pub mangle_extensions_lem :
    (p : FilePath)
    → (has_extension p ≡ false → mangle_extensions p ≡ path_string p)
      × (has_extension p ≡ true
          → mangle_extensions p
            ≡ mangle_extensions (remove_extension p) ++ mangle_text (extension p))
unfolding mangle_extensions
mangle_extensions_lem p = (
  λ none_left.
      mangle_extensions_loop_fuel (length (filename p)) (suc (length (filename p))) p (omega arith)
        (omega arith)
      ∙ mangle_extensions_loop_last (length (filename p)) p none_left,
  λ has.
      let shorter = length-filename-remove_extension p has in
      mangle_extensions_loop_fuel (length (filename p)) (suc (length (filename p))) p (omega arith)
        (omega arith)
      ∙ mangle_extensions_loop_round (length (filename p)) p has
      ∙ ap (λ s. s ++ mangle_text (extension p))
          (mangle_extensions_loop_fuel (length (filename p))
            (length (filename (remove_extension p))) (remove_extension p) (omega arith)
            (omega arith)),
)
