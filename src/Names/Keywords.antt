-- ===== src/Names/Keywords.antt =====
-- The tables of keywords of server/src/NameDecorator.cpp. The entries that are commented out there
-- are left out here.
use utbot_cpp.Base.{
  Bool, not, ◌&&◌, ◌||◌, List, [], ◌∷◌, ◌≡◌, arith, Text, codes, text_eq, text_eq_sound,
  contains_text, if◌then◌else◌, ap, Bool-cases, inl, inr, refl,
}

unfoldable pub c_keywords : List Text
c_keywords =
    codes "auto"
    ∷ codes "break"
    ∷ codes "case"
    ∷ codes "char"
    ∷ codes "const"
    ∷ codes "continue"
    ∷ codes "default"
    ∷ codes "do"
    ∷ codes "double"
    ∷ codes "else"
    ∷ codes "enum"
    ∷ codes "extern"
    ∷ codes "float"
    ∷ codes "for"
    ∷ codes "goto"
    ∷ codes "if"
    ∷ codes "inline"
    ∷ codes "int"
    ∷ codes "long"
    ∷ codes "register"
    ∷ codes "restrict"
    ∷ codes "return"
    ∷ codes "short"
    ∷ codes "signed"
    ∷ codes "sizeof"
    ∷ codes "static"
    ∷ codes "struct"
    ∷ codes "switch"
    ∷ codes "typedef"
    ∷ codes "union"
    ∷ codes "unsigned"
    ∷ codes "void"
    ∷ codes "volatile"
    ∷ codes "while"
    ∷ []

unfoldable pub cpp_keywords : List Text
cpp_keywords =
    codes "alignas"
    ∷ codes "alignof"
    ∷ codes "and"
    ∷ codes "and_eq"
    ∷ codes "asm"
    ∷ codes "atomic_cancel"
    ∷ codes "atomic_commit"
    ∷ codes "atomic_noexcept"
    ∷ codes "auto"
    ∷ codes "bitand"
    ∷ codes "bitor"
    ∷ codes "break"
    ∷ codes "case"
    ∷ codes "catch"
    ∷ codes "char"
    ∷ codes "char8_t"
    ∷ codes "char16_t"
    ∷ codes "char32_t"
    ∷ codes "class"
    ∷ codes "compl"
    ∷ codes "concept"
    ∷ codes "const"
    ∷ codes "consteval"
    ∷ codes "constexpr"
    ∷ codes "constinit"
    ∷ codes "const_cast"
    ∷ codes "continue"
    ∷ codes "co_await"
    ∷ codes "co_return"
    ∷ codes "co_yield"
    ∷ codes "decltype"
    ∷ codes "default"
    ∷ codes "delete"
    ∷ codes "do"
    ∷ codes "double"
    ∷ codes "dynamic_cast"
    ∷ codes "else"
    ∷ codes "enum"
    ∷ codes "explicit"
    ∷ codes "export"
    ∷ codes "extern"
    ∷ codes "float"
    ∷ codes "for"
    ∷ codes "friend"
    ∷ codes "goto"
    ∷ codes "if"
    ∷ codes "inline"
    ∷ codes "int"
    ∷ codes "long"
    ∷ codes "mutable"
    ∷ codes "namespace"
    ∷ codes "new"
    ∷ codes "noexcept"
    ∷ codes "not"
    ∷ codes "not_eq"
    ∷ codes "nullptr"
    ∷ codes "operator"
    ∷ codes "or"
    ∷ codes "or_eq"
    ∷ codes "private"
    ∷ codes "protected"
    ∷ codes "public"
    ∷ codes "reflexpr"
    ∷ codes "register"
    ∷ codes "reinterpret_cast"
    ∷ codes "requires"
    ∷ codes "return"
    ∷ codes "short"
    ∷ codes "signed"
    ∷ codes "sizeof"
    ∷ codes "static"
    ∷ codes "static_assert"
    ∷ codes "static_cast"
    ∷ codes "struct"
    ∷ codes "switch"
    ∷ codes "synchronized"
    ∷ codes "template"
    ∷ codes "this"
    ∷ codes "thread_local"
    ∷ codes "throw"
    ∷ codes "try"
    ∷ codes "typedef"
    ∷ codes "typeid"
    ∷ codes "typename"
    ∷ codes "union"
    ∷ codes "unsigned"
    ∷ codes "using"
    ∷ codes "virtual"
    ∷ codes "void"
    ∷ codes "volatile"
    ∷ codes "while"
    ∷ codes "xor"
    ∷ codes "xor_eq"
    ∷ []

unfoldable pub cpp_operators : List Text
cpp_operators =
    codes "xor"
    ∷ codes "xor_eq"
    ∷ codes "or"
    ∷ codes "not"
    ∷ codes "or_eq"
    ∷ codes "not_eq"
    ∷ codes "compl"
    ∷ codes "bitor"
    ∷ codes "bitand"
    ∷ codes "and_eq"
    ∷ codes "and"
    ∷ []

-- `CollectionUtils::filterOut`.
unfoldable pub filter_out : (Text → Bool) → List Text → List Text
filter_out p [] = []
filter_out p (k ∷ ks) = let rest = filter_out p ks in if p k then rest else k ∷ rest

unfoldable pub cpp_only_keywords : List Text
unfolding filter_out
cpp_only_keywords = filter_out (λ s. contains_text s c_keywords) cpp_keywords

unfoldable pub to_define : List Text
unfolding filter_out
to_define =
    filter_out (λ s. contains_text s cpp_operators || text_eq s (codes "bool")) cpp_only_keywords

contains-filter_out :
    (p : Text → Bool) (k : Text) (ks : List Text)
    → contains_text k (filter_out p ks) ≡ (contains_text k ks && not (p k))
unfolding filter_out contains_text
contains-filter_out p k [] = refl
contains-filter_out p k (l ∷ ks) = elim (Bool-cases (text_eq l k)) [
  | inl same ↦
      let e = ap p (text_eq_sound l k same) in ground (arith, contains-filter_out p k ks, e)
  | inr other ↦ ground (arith, contains-filter_out p k ks)
]

-- The names that are defined away in generated headers are the keywords of C++ that are neither
-- keywords of C nor names of operators nor `bool`.
pub contains-to_define :
    (k : Text)
    → contains_text k to_define ≡ (
        contains_text k cpp_keywords
        && not (contains_text k c_keywords)
        && not (contains_text k cpp_operators)
        && not (text_eq k (codes "bool")))
unfolding to_define cpp_only_keywords
contains-to_define k = ground (
  arith,
  contains-filter_out (λ (s : Text). contains_text s cpp_operators || text_eq s (codes "bool")) k
      (filter_out (λ (s : Text). contains_text s c_keywords) cpp_keywords),
  contains-filter_out (λ (s : Text). contains_text s c_keywords) k cpp_keywords,
)
