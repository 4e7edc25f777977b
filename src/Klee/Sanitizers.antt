-- ===== src/Klee/Sanitizers.antt =====
-- server/src/utils/SanitizerUtils.cpp: the sanitizer flags of a compiler.
use utbot_cpp.Base.{List, [], ◌∷◌, ◌++◌, ◌≡◌, refl, Text, codes, take}
use utbot_cpp.Strings.Split.{join_with}

-- `CompilationUtils::CompilerName`.
pub data CompilerName : Type 0 where
  gcc gxx clang clangxx unknown : CompilerName

unfoldable pub clang_sanitizer_checks : List Text
clang_sanitizer_checks =
    codes "alignment"
    ∷ codes "builtin"
    ∷ codes "bounds"
    ∷ codes "enum"
    ∷ codes "float-cast-overflow"
    ∷ codes "float-divide-by-zero"
    ∷ codes "implicit-unsigned-integer-truncation"
    ∷ codes "implicit-signed-integer-truncation"
    ∷ codes "implicit-integer-sign-change"
    ∷ codes "integer-divide-by-zero"
    ∷ codes "nonnull-attribute"
    ∷ codes "null"
    ∷ codes "nullability-arg"
    ∷ codes "nullability-assign"
    ∷ codes "nullability-return"
    ∷ codes "pointer-overflow"
    ∷ codes "return"
    ∷ codes "returns-nonnull-attribute"
    ∷ codes "shift"
    ∷ codes "unreachable"
    ∷ codes "vla-bound"
    ∷ []

unfoldable pub gcc_sanitizer_checks : List Text
gcc_sanitizer_checks =
    codes "shift"
    ∷ codes "shift-exponent"
    ∷ codes "integer-divide-by-zero"
    ∷ codes "unreachable"
    ∷ codes "vla-bound"
    ∷ codes "null"
    ∷ codes "return"
    ∷ codes "bounds"
    ∷ codes "bounds-strict"
    ∷ codes "alignment"
    ∷ codes "object-size"
    ∷ codes "float-divide-by-zero"
    ∷ codes "float-cast-overflow"
    ∷ codes "nonnull-attribute"
    ∷ codes "returns-nonnull-attribute"
    ∷ codes "enum"
    ∷ codes "pointer-overflow"
    ∷ codes "builtin"
    ∷ []

unfoldable pub clang_sanitizer_checks_flag : Text
clang_sanitizer_checks_flag = codes "-fsanitize=" ++ join_with clang_sanitizer_checks (codes ",")

unfoldable pub gcc_sanitizer_checks_flag : Text
gcc_sanitizer_checks_flag = codes "-fsanitize=" ++ join_with gcc_sanitizer_checks (codes ",")

abbrev pub address_sanitizer_flag : Text
address_sanitizer_flag = codes "-fsanitize=address"

abbrev pub no_sanitize_recover : Text
no_sanitize_recover = codes "-fno-sanitize-recover=all"

abbrev pub gcc_compile_flags : List Text
gcc_compile_flags = gcc_sanitizer_checks_flag ∷ address_sanitizer_flag ∷ no_sanitize_recover ∷ []

abbrev pub clang_compile_flags : List Text
clang_compile_flags =
    clang_sanitizer_checks_flag ∷ address_sanitizer_flag ∷ no_sanitize_recover ∷ []

unfoldable pub get_sanitize_compile_flags : CompilerName → List Text
get_sanitize_compile_flags gcc = gcc_compile_flags
get_sanitize_compile_flags gxx = gcc_compile_flags
get_sanitize_compile_flags clang = clang_compile_flags
get_sanitize_compile_flags clangxx = clang_compile_flags
get_sanitize_compile_flags unknown = []

unfoldable pub get_sanitize_link_flags : CompilerName → Text
get_sanitize_link_flags gcc =
    join_with (gcc_sanitizer_checks_flag ∷ address_sanitizer_flag ∷ []) (codes " ")
get_sanitize_link_flags gxx =
    join_with (gcc_sanitizer_checks_flag ∷ address_sanitizer_flag ∷ []) (codes " ")
get_sanitize_link_flags clang =
    join_with (clang_sanitizer_checks_flag ∷ address_sanitizer_flag ∷ []) (codes " ")
get_sanitize_link_flags clangxx =
    join_with (clang_sanitizer_checks_flag ∷ address_sanitizer_flag ∷ []) (codes " ")
get_sanitize_link_flags unknown = []

-- Every compiler links with the sanitizers that it compiles with: the link flags are the first two
-- compile flags, with a space between them.
pub get_sanitize_link_flags_lem :
    (name : CompilerName)
    → get_sanitize_link_flags name
      ≡ join_with (take 2 (get_sanitize_compile_flags name)) (codes " ")
unfolding get_sanitize_link_flags get_sanitize_compile_flags join_with
get_sanitize_link_flags_lem gcc = refl
get_sanitize_link_flags_lem gxx = refl
get_sanitize_link_flags_lem clang = refl
get_sanitize_link_flags_lem clangxx = refl
get_sanitize_link_flags_lem unknown = refl
