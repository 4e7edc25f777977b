-- ===== src/Klee/Operators.antt =====
-- `isBrackets` and `getRenamedOperator` of server/src/utils/KleeUtils.cpp: the names of overloaded
-- operators in the entry points of the symbolic executor.
use utbot_cpp.Base.{
  ℕ, ◌+◌, Bool, false, ◌&&◌, List, [], ◌∷◌, ◌++◌, none, some, Text, codes, contains_text, lookup_id,
  all, take, drop, ◌==◌, if◌then◌else◌, Result, ok, err, ◌>>=◌,
}
use utbot_cpp.Strings.Replace.{find}
use utbot_cpp.Strings.Trim.{is_space}
use utbot_cpp.Types.Names.{pop_back, back_is}

unfoldable pub cpp_operators : List Text
cpp_operators =
    codes "+"
    ∷ codes "-"
    ∷ codes "*"
    ∷ codes "/"
    ∷ codes "%"
    ∷ codes "^"
    ∷ codes "&"
    ∷ codes "|"
    ∷ codes "~"
    ∷ codes "!"
    ∷ codes "="
    ∷ codes "<"
    ∷ codes ">"
    ∷ codes "+="
    ∷ codes "-="
    ∷ codes "*="
    ∷ codes "/="
    ∷ codes "%="
    ∷ codes "^="
    ∷ codes "&="
    ∷ codes "|="
    ∷ codes "<<"
    ∷ codes ">>"
    ∷ codes ">>="
    ∷ codes "<<="
    ∷ codes "=="
    ∷ codes "!="
    ∷ codes "<="
    ∷ codes ">="
    ∷ codes "<=>"
    ∷ codes "&&"
    ∷ codes "||"
    ∷ codes "++"
    ∷ codes "--"
    ∷ codes ","
    ∷ codes "->*"
    ∷ codes "->"
    ∷ []

-- The exception of `unordered_map::at`.
pub data SymbolError : Type 0 where
  no_such_symbol : ℕ → SymbolError

unfoldable pub cpp_bracket_operators : List (ℕ × ℕ)
cpp_bracket_operators = (b'(', b')') ∷ (b'[', b']') ∷ []

unfoldable pub symbol_to_name : List (ℕ × Text)
symbol_to_name =
    (b'+', codes "plus")
    ∷ (b'-', codes "minus")
    ∷ (b'*', codes "asterisk")
    ∷ (b'/', codes "slash")
    ∷ (b'%', codes "percent")
    ∷ (b'^', codes "caret")
    ∷ (b'&', codes "ampersand")
    ∷ (b'|', codes "vertical")
    ∷ (b'~', codes "tilde")
    ∷ (b'!', codes "exclamation")
    ∷ (b'=', codes "equal")
    ∷ (b'<', codes "less")
    ∷ (b'>', codes "great")
    ∷ (b',', codes "comma")
    ∷ []

abbrev pub at {ℓ} : {V : Type ℓ} → ℕ → List (ℕ × V) → Result SymbolError V
at c m = elim (lookup_id c m) [ some v ↦ ok v | none ↦ err (no_such_symbol c) ]

unfoldable pub is_brackets : Text → ℕ → Result SymbolError Bool
is_brackets [] open_bracket = ok false
is_brackets (c ∷ s) open_bracket =
    if c == open_bracket
    then (do
      close_bracket ← at open_bracket cpp_bracket_operators
      ok (back_is close_bracket (c ∷ s) && all is_space (pop_back s)))
    else ok false

-- The loop over the symbols of an operator.
unfoldable pub spell_symbols : Text → Result SymbolError Text
spell_symbols [] = ok []
spell_symbols (c ∷ s) = do
  name ← at c symbol_to_name
  rest ← spell_symbols s
  ok (codes "_" ++ (name ++ rest))

abbrev pub operator_word : Text
operator_word = codes "operator"

-- What becomes of a method name that is split behind the word `operator`: the last two tests, and all.
unfoldable pub rename_symbols : Text → Text → Text → Result SymbolError Text
rename_symbols method_name stem ending =
    if contains_text ending cpp_operators
    then (do words ← spell_symbols ending; ok (stem ++ words))
    else ok method_name

unfoldable pub rename_ending : Text → Text → Text → Result SymbolError Text
unfolding rename_symbols
rename_ending method_name stem ending = is_brackets ending b'(' >>= λ parentheses.
    if parentheses
    then ok (stem ++ codes "_parentheses")
    else (is_brackets ending b'[' >>= λ brackets.
        if brackets then ok (stem ++ codes "_brackets") else rename_symbols method_name stem ending)

unfoldable pub get_renamed_operator : Text → Result SymbolError Text
get_renamed_operator method_name = elim (find operator_word method_name) [
  | none ↦ ok method_name
  | some pos ↦ rename_ending method_name (take (pos + 8) method_name) (drop (pos + 8) method_name)
]
