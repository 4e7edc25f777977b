-- ===== src/Paths/Stems.antt =====
-- Stems and extensions of names: where `fs::path::stem` and `extension` of
-- server/src/utils/path/FileSystemPath.h cut them, and where `rfind` finds a suffix.
use utbot_cpp.Base.{
  suc, ℕ, ◌+◌, false, [], ◌∷◌, ◌++◌, ◌≡◌, ◌≢◌, refl, sym, ap, ◌∙◌, arith, Text, text_eq, none, some,
  length, Bool-cases, Option-cases, inl, inr, append-nil, take, drop,
}
use native.Mathlib.Nat.{zero-add}
use utbot_cpp.Strings.Affixes.{take-length-append, drop-length-append}
use utbot_cpp.Strings.Replace.{rfind, replace_at}
use utbot_cpp.Strings.Split.{Lacks}
use utbot_cpp.Paths.FilePath.{is_dot_dot, last_dot, split_name}
use utbot_cpp.Paths.FileNames.{dot_sep, without_last, decoded_name}

last_dot-Lacks : (s : Text) → Lacks b'.' s → last_dot s ≡ none
unfolding last_dot
last_dot-Lacks [] h = refl
last_dot-Lacks (c ∷ s) (here, h) = ground (arith, last_dot-Lacks s h)

last_dot-append :
    (front ext : Text) → Lacks b'.' ext → last_dot (front ++ b'.' ∷ ext) ≡ some (front, b'.' ∷ ext)
unfolding last_dot
last_dot-append [] ext h = rw (last_dot-Lacks ext h) refl
last_dot-append (c ∷ front) ext h = rw (last_dot-append front ext h) refl

-- A name with an extension is not `..`.
pub no_dot_dot :
    (c : ℕ) (front ext : Text) → ext ≢ [] → is_dot_dot ((c ∷ front) ++ b'.' ∷ ext) ≡ false
unfolding text_eq
no_dot_dot c front [] some_byte = absurd (some_byte refl)
no_dot_dot c [] (d ∷ ext) some_byte = ground arith
no_dot_dot c (e ∷ []) (d ∷ ext) some_byte = ground arith
no_dot_dot c (e ∷ f ∷ front) (d ∷ ext) some_byte = ground arith

-- The cut is in front of the last dot.
pub split_name-append :
    (front ext : Text)
    → front ≢ []
    → ext ≢ []
    → Lacks b'.' ext
    → split_name (front ++ b'.' ∷ ext) ≡ (front, b'.' ∷ ext)
unfolding split_name
split_name-append [] ext some_front some_byte h = absurd (some_front refl)
split_name-append (c ∷ front) ext some_front some_byte h =
    rw (no_dot_dot c front ext some_byte, last_dot-append (c ∷ front) ext h) refl

last_dot_joined : (s front behind : Text) → last_dot s ≡ some (front, behind) → s ≡ front ++ behind
unfolding last_dot
last_dot_joined [] front behind e = cc
last_dot_joined (c ∷ s) front behind e = elim (Option-cases (last_dot s)) [
  | inl gone ↦ ground arith
  | inr ((f, b), found) ↦ ground (arith, last_dot_joined s f b found)
]

-- What the cut gives, joined, is the name, and there is no extension without a stem.
pub split_name_lem :
    (name : Text)
    → ((split_name name).0 ++ (split_name name).1 ≡ name)
      × ((split_name name).1 ≢ [] → (split_name name).0 ≢ [])
unfolding split_name
split_name_lem name = elim (Bool-cases (is_dot_dot name)) [
  | inl up ↦ rw up (append-nil name, λ some_byte. absurd (some_byte refl))
  | inr e ↦ elim (Option-cases (last_dot name)) [
    | inl gone ↦ rw (e, gone) (append-nil name, λ some_byte. absurd (some_byte refl))
    | inr (([], behind), found) ↦
        rw (e, found) (append-nil name, λ some_byte. absurd (some_byte refl))
    | inr ((c ∷ front, behind), found) ↦
        rw (e, found) (sym (last_dot_joined name (c ∷ front) behind found), λ some_byte. cc)
  ]
]

rfind-append : (p front s : Text) → rfind p s ≡ some 0 → rfind p (front ++ s) ≡ some (length front)
unfolding rfind
rfind-append p [] s found = found
rfind-append p (c ∷ front) s found = rw (rfind-append p front s found) (ap some (omega arith))

drop_behind : (p front s : Text) → drop (length front + length p) (front ++ (p ++ s)) ≡ s
drop_behind p [] s = ap (λ n. drop n (p ++ s)) (zero-add (length p)) ∙ drop-length-append p s
drop_behind p (c ∷ front) s =
    let next : suc (length front) + length p ≡ suc (length front + length p) = omega arith in
    rw next (drop_behind p front s)

-- A suffix at the end is the one that is taken off.
pub without_last-append :
    (front suffix : Text)
    → rfind suffix suffix ≡ some 0
    → without_last (front ++ suffix) suffix ≡ front
unfolding without_last replace_at
without_last-append front suffix found =
    rw (without_last, rfind-append suffix front suffix found)
      (ap
          (λ s.
            take (length front) (front ++ suffix)
            ++ drop (length front + length suffix) (front ++ s))
          (sym (append-nil suffix))
        ∙ ap (λ s. take (length front) (front ++ suffix) ++ s) (drop_behind suffix front [])
        ∙ append-nil (take (length front) (front ++ suffix))
        ∙ take-length-append front suffix)

-- The extension that was kept as a suffix comes back.
pub decoded_name-append :
    (front ext default_ext : Text)
    → rfind dot_sep (dot_sep ++ ext) ≡ some 0
    → decoded_name (front ++ (dot_sep ++ ext)) default_ext ≡ front ++ b'.' ∷ ext
unfolding decoded_name
decoded_name-append front ext default_ext found =
    rw (decoded_name, rfind-append dot_sep front (dot_sep ++ ext) found)
      (ap (λ s. s ++ b'.' ∷ drop (length front + length dot_sep) (front ++ (dot_sep ++ ext)))
          (take-length-append front (dot_sep ++ ext))
        ∙ ap (λ s. front ++ b'.' ∷ s) (drop_behind dot_sep front ext))
