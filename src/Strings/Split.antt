-- ===== src/Strings/Split.antt =====
-- `split` and `joinWith` of server/src/utils/StringUtils.cpp and StringUtils.h.
use utbot_cpp.Base.{
  ℕ, true, false, List, [], ◌∷◌, ◌++◌, ◌≡◌, ◌≢◌, refl, sym, ap, ◌∙◌, arith, Text, All, All-append,
  ◌==◌, if◌then◌else◌, append_assoc, append-nil, Bool-cases, inl, inr,
}

-- The stream is made from `data()`, which ends at the first NUL.
unfoldable pub c_string : Text → Text
c_string [] = []
c_string (c ∷ s) = let rest = c_string s in if c == 0 then [] else c ∷ rest

-- The `getline` loop: `token` holds what was read since the last delimiter. At the end of the
-- stream `getline` fails if it has read nothing.
module _ (delim : ℕ) where
  unfoldable pub getline_loop : Text → Text → List Text
  getline_loop [] [] = []
  getline_loop (t ∷ token) [] = (t ∷ token) ∷ []
  getline_loop token (c ∷ s) = elim (c == delim) [
    | true ↦ token ∷ getline_loop [] s
    | false ↦ getline_loop (token ++ c ∷ []) s
  ]

unfoldable pub split : Text → ℕ → List Text
unfolding c_string getline_loop
split str delim = getline_loop delim [] (c_string str)

unfoldable pub join_with : List Text → Text → Text
join_with [] del = []
join_with (p ∷ []) del = p
join_with (p ∷ q ∷ ps) del = p ++ (del ++ join_with (q ∷ ps) del)

abbrev pub Lacks : ℕ → Text → Type 0
Lacks b = All (λ c. c ≢ b)

c_string-Lacks : (s : Text) → Lacks 0 s → c_string s ≡ s
unfolding c_string
c_string-Lacks [] h = refl
c_string-Lacks (c ∷ s) h = ground (arith, c_string-Lacks s h.1)

module _ (delim : ℕ) where
  getline_loop-append :
      (p rest token : Text)
      → Lacks delim p
      → getline_loop delim token (p ++ rest) ≡ getline_loop delim (token ++ p) rest
  unfolding getline_loop
  getline_loop-append [] rest token h = rw append-nil
  getline_loop-append (c ∷ p) rest [] h = ground (arith, getline_loop-append p rest (c ∷ []) h.1)
  getline_loop-append (c ∷ p) rest (t ∷ token) h = ground (
    arith,
    getline_loop-append p rest ((t ∷ token) ++ c ∷ []) h.1,
    append_assoc (t ∷ token) (c ∷ []) p,
  )

  getline_loop_at_delim :
      (token s : Text) → getline_loop delim token (delim ∷ s) ≡ token ∷ getline_loop delim [] s
  unfolding getline_loop
  getline_loop_at_delim [] s = ground arith
  getline_loop_at_delim (t ∷ token) s = ground arith

  -- What the loop gives for texts that are joined by the delimiter.
  pub getline_loop-join_with :
      (ps : List Text)
      → All (λ p. Lacks delim p × (p ≢ [])) ps
      → getline_loop delim [] (join_with ps (delim ∷ [])) ≡ ps
  unfolding join_with
  getline_loop-join_with [] h = unfold getline_loop in refl
  getline_loop-join_with ([] ∷ []) ((lacks, some_byte), _) = absurd (some_byte refl)
  getline_loop-join_with ((c ∷ p) ∷ []) ((lacks, _), _) =
      ap (getline_loop delim []) (sym (append-nil (c ∷ p)))
      ∙ getline_loop-append (c ∷ p) [] [] lacks
      ∙ (unfold getline_loop in refl)
  getline_loop-join_with (p ∷ q ∷ ps) ((lacks, _), rest) =
      getline_loop-append p (delim ∷ join_with (q ∷ ps) (delim ∷ [])) [] lacks
      ∙ getline_loop_at_delim p (join_with (q ∷ ps) (delim ∷ []))
      ∙ ap (λ l. p ∷ l) (getline_loop-join_with (q ∷ ps) rest)

join_with-Lacks :
    (b : ℕ) (ps : List Text) (del : Text)
    → All (Lacks b) ps
    → Lacks b del
    → Lacks b (join_with ps del)
unfolding join_with
join_with-Lacks b [] del h d = tt
join_with-Lacks b (p ∷ []) del h d = h.0
join_with-Lacks b (p ∷ q ∷ ps) del (hp, hs) d =
    All-append (λ c. c ≢ b) p (del ++ join_with (q ∷ ps) del) hp
      (All-append (λ c. c ≢ b) del (join_with (q ∷ ps) del) d (join_with-Lacks b (q ∷ ps) del hs d))

-- Splitting a join gives the parts back, if the delimiter is not NUL and no part is empty or holds
-- the delimiter or a NUL.
pub split-join_with :
    (ps : List Text) (delim : ℕ)
    → delim ≢ 0
    → All (λ p. Lacks delim p × (p ≢ [])) ps
    → All (Lacks 0) ps
    → split (join_with ps (delim ∷ [])) delim ≡ ps
unfolding split
split-join_with ps delim nonzero h no_nul =
    ap (getline_loop delim [])
      (c_string-Lacks _ (join_with-Lacks 0 ps (delim ∷ []) no_nul (nonzero, tt)))
    ∙ getline_loop-join_with delim ps h

-- No token of a split holds the delimiter.
getline_loop-Lacks :
    (delim : ℕ) (s token : Text)
    → Lacks delim token
    → All (Lacks delim) (getline_loop delim token s)
unfolding getline_loop
getline_loop-Lacks delim [] [] h = tt
getline_loop-Lacks delim [] (t ∷ token) h = (h, tt)
getline_loop-Lacks delim (c ∷ s) token h = elim (Bool-cases (c == delim)) [
  | inl e ↦ rw (e, All) (h, getline_loop-Lacks delim s [] tt)
  | inr e ↦
      rw (e, All)
        (getline_loop-Lacks delim s (token ++ c ∷ [])
          (All-append (λ b. b ≢ delim) token (c ∷ []) h (ground arith)))
]

pub split-Lacks : (s : Text) (delim : ℕ) → All (Lacks delim) (split s delim)
unfolding split
split-Lacks s delim = getline_loop-Lacks delim (c_string s) [] tt

-- Lines, each with the delimiter at its end.
abbrev pub ended : ℕ → List Text → Text
ended delim [] = []
ended delim (p ∷ ps) = p ++ delim ∷ ended delim ps

ended-Lacks :
    (b delim : ℕ) (ps : List Text) → delim ≢ b → All (Lacks b) ps → Lacks b (ended delim ps)
ended-Lacks b delim [] d h = tt
ended-Lacks b delim (p ∷ ps) d (here, h) =
    All-append (λ c. c ≢ b) p (delim ∷ ended delim ps) here (d, ended-Lacks b delim ps d h)

getline_loop-ended :
    (delim : ℕ) (ps : List Text)
    → All (Lacks delim) ps
    → getline_loop delim [] (ended delim ps) ≡ ps
getline_loop-ended delim [] h = unfold getline_loop in refl
getline_loop-ended delim (p ∷ ps) (here, h) =
    getline_loop-append delim p (delim ∷ ended delim ps) [] here
    ∙ getline_loop_at_delim delim p (ended delim ps)
    ∙ ap (λ l. p ∷ l) (getline_loop-ended delim ps h)

-- Splitting lines that all end in the delimiter gives them back, also the empty ones.
pub split-ended :
    (delim : ℕ) (ps : List Text)
    → delim ≢ 0
    → All (Lacks delim) ps
    → All (Lacks 0) ps
    → split (ended delim ps) delim ≡ ps
unfolding split
split-ended delim ps nonzero h no_nul =
    ap (getline_loop delim []) (c_string-Lacks _ (ended-Lacks 0 delim ps nonzero no_nul))
    ∙ getline_loop-ended delim ps h
