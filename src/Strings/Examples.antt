-- ===== src/Strings/Examples.antt =====
-- Concrete texts.
use utbot_cpp.Base.{ℕ, true, false, List, [], ◌∷◌, ◌++◌, ◌≡◌, refl, arith, Text, codes, all}
use utbot_cpp.Strings.Affixes.{is_digit}
use utbot_cpp.Strings.Split.{split, join_with, split-join_with}
use utbot_cpp.Strings.Trim.{trim, trim_lem, IsSpaces, StartsSolid, EndsSolid}
use utbot_cpp.Strings.Replace.{replace_all, substitute, replace_all-substitute}
use utbot_cpp.Strings.Numbers.{stot_int128, stot_int128_lem, value, with_sign, in_range}

abbrev a_b : List Text
a_b = (b'a' ∷ []) ∷ (b'b' ∷ b'c' ∷ []) ∷ []

split-join_with_example : split (join_with a_b (b',' ∷ [])) b',' ≡ a_b
split-join_with_example =
    split-join_with a_b b',' (omega arith)
      (((omega arith, tt), cc), (((omega arith, (omega arith, tt)), cc), tt))
      ((omega arith, tt), ((omega arith, (omega arith, tt)), tt))

trim_lem_example :
    (pre : Text) × (post : Text) × IsSpaces pre
    × IsSpaces post
    × (pre ++ (trim (codes " a b ") ++ post) ≡ codes " a b ")
    × StartsSolid (trim (codes " a b "))
    × EndsSolid (trim (codes " a b "))
trim_lem_example = trim_lem (codes " a b ")

replace_all-substitute_example :
    (replace_all (codes "a::b") [] (codes "_") ≡ codes "a::b")
    × ((f : ℕ) (from : Text)
        → replace_all (codes "a::b") (f ∷ from) (codes "_")
          ≡ substitute f from (codes "_") 0 (codes "a::b"))
replace_all-substitute_example = replace_all-substitute (codes "a::b") (codes "_")

forty_two_digits : all is_digit (b'4' ∷ b'2' ∷ []) ≡ true
unfolding is_digit
forty_two_digits = refl

stot_int128_lem_example :
    (stot_int128 (b'4' ∷ b'2' ∷ []) ≡ with_sign false (in_range false (value 0 (b'4' ∷ b'2' ∷ []))))
    × (stot_int128 (b'+' ∷ b'4' ∷ b'2' ∷ [])
        ≡ with_sign false (in_range false (value 0 (b'4' ∷ b'2' ∷ []))))
    × (stot_int128 (b'-' ∷ b'4' ∷ b'2' ∷ [])
        ≡ with_sign true (in_range true (value 0 (b'4' ∷ b'2' ∷ []))))
stot_int128_lem_example = stot_int128_lem b'4' (b'2' ∷ []) forty_two_digits
