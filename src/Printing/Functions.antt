-- ===== src/Printing/Functions.antt =====
-- What `printer::Printer` of server/src/printers/Printer.cpp prints of functions: declarations, type
-- definitions of pointers, calls that are built apart from the stream, and calls of `memcpy`.
use utbot_cpp.Base.{
  ℕ, Bool, true, false, List, [], ◌∷◌, ◌++◌, Option, none, Text, codes, length, ◌==◌, ◌≡◌, refl, ap,
  ◌∙◌, if◌then◌else◌, contains_text, append-nil, ◌>>=◌, Result, ok, err,
}
use utbot_cpp.Strings.Split.{split, join_with}
use utbot_cpp.Strings.Affixes.{is_empty}
use utbot_cpp.Types.Kinds.{CType, known_size}
use utbot_cpp.Types.Queries.{is_array, is_pointer_to_array, is_array_of_pointers_to_function}
use utbot_cpp.Values.Bytes.{integer_to_string}
use utbot_cpp.Values.Lookup.{TypeAndVarName}
use utbot_cpp.Printing.Printer.{
  Printer, write_indented, need_decorate, decorated, nl, scnl, str_function_call, str_declare_var,
  str_declare_array_var, extern_c,
}

unfoldable pub str_declare_abs_error : Text → Printer → Printer
unfolding write_indented
str_declare_abs_error name p =
    write_indented (codes "static const float " ++ (name ++ (codes " = 1e-6;" ++ nl))) p

unfoldable pub comment_block_separator : Printer → Printer
unfolding write_indented
comment_block_separator p =
    write_indented (codes "//////////////////////////////////////////// " ++ nl) p

unfoldable pub recursive_iterator_name : Text → Printer → Text
unfolding integer_to_string
recursive_iterator_name prefix p = prefix ++ integer_to_string p.tabs_depth

-- The stream is swapped with an empty one and back, so the printer itself stays as it is.
unfoldable pub constr_function_call :
    Text → List Text → Text → Option Text → Bool → ℕ → Option CType → Printer → Text
unfolding str_function_call
constr_function_call function_name args finish class_obj_name need_tabs ret_pointers cast_type p =
    (str_function_call function_name args finish class_obj_name need_tabs ret_pointers cast_type
      false (record p { ss = [] })).ss

unfoldable pub str_memcpy_impl : Text → Text → Bool → Printer → Printer
unfolding str_function_call
str_memcpy_impl dest src need_dereference p =
    let dest_arg : Text =
      codes "(void *) " ++ ((if need_dereference then codes "&" else []) ++ dest) in
    let count : Text = codes "sizeof(" ++ (src ++ codes ")") in
    str_function_call (codes "memcpy") (dest_arg ∷ src ∷ count ∷ []) scnl none true 0 none false p

unfoldable pub str_memcpy : Text → Text → Bool → Printer → Printer
unfolding str_memcpy_impl need_decorate
str_memcpy dest src need_dereference p =
    str_memcpy_impl (decorated p dest) (decorated p src) need_dereference p

-- `getTypedefFunctionPointer`; a byte 38 is `&`.
abbrev pub without_ampersand : Text → Text
without_ampersand [] = []
without_ampersand (c ∷ s) = if c == 38 then s else c ∷ s

unfoldable pub get_typedef_function_pointer : Text → Text → Bool → Text
get_typedef_function_pointer parent_function_name name array =
    let ending : Text = if array then codes "_arr" else [] in
    without_ampersand parent_function_name ++ (codes "_" ++ (name ++ (codes "_arg" ++ ending)))

-- An access behind the end of a vector.
pub data PrinterError : Type 0 where
  too_few_parts : PrinterError

-- `decomposedType[0]` and `decomposedType[1]`, undefined where there are fewer; a byte 42 is `*`.
abbrev pub decomposed_text : Text → List Text → Result PrinterError Text
decomposed_text value (before ∷ behind ∷ others) = ok (before ++ (codes "*" ++ (value ++ behind)))
decomposed_text value _ = err too_few_parts

abbrev pub named : Text → Text → Text
named text value = if is_empty value then text else text ++ (codes " " ++ value)

-- What `strFunctionDecl` prints for one parameter; `substitutions` are the keys of the map.
unfoldable pub parameter_text : Text → List Text → CType → Text → Result PrinterError Text
unfolding get_typedef_function_pointer split is_pointer_to_array is_array_of_pointers_to_function
parameter_text function_name substitutions type value =
    let by_used_type = split type.used_type 42 in
    let by_name = split type.type_name 42 in
    let parts = if length by_used_type == 2 then by_used_type else by_name in
    let pointer =
      get_typedef_function_pointer function_name value (is_array_of_pointers_to_function type) in
    if contains_text value substitutions
    then ok (named pointer value)
    else if is_pointer_to_array type
    then decomposed_text value parts
    else ok (named type.used_type value)

-- The loop runs as long as there are types and values; a comma is put in front of a further pair.
abbrev pub separator : List CType → List Text → Text
separator (t ∷ ts) (v ∷ vs) = codes ", "
separator _ _ = []

unfoldable pub parameters_loop :
    Text → List Text → List CType → List Text → Result PrinterError Text
unfolding parameter_text
parameters_loop function_name substitutions (t ∷ ts) (v ∷ vs) = do
  text ← parameter_text function_name substitutions t v
  rest ← parameters_loop function_name substitutions ts vs
  ok (text ++ (separator ts vs ++ rest))
parameters_loop function_name substitutions _ _ = ok []

abbrev pub modifiers_text : List Text → Text
modifiers_text [] = []
modifiers_text (modifier ∷ modifiers) = modifier ++ (codes " " ++ modifiers_text modifiers)

unfoldable pub str_function_decl :
    Text
    → Text
    → List CType
    → List Text
    → Text
    → List Text
    → List Text
    → Bool
    → Printer
    → Result PrinterError Printer
unfolding write_indented parameters_loop
str_function_decl return_type function_name types values finish modifiers substitutions variadic p =
    do
      parameters ← parameters_loop function_name substitutions types values
      (let head : Text =
            modifiers_text modifiers
            ++ (return_type ++ (codes " " ++ (function_name ++ codes "("))) in
          let dots : Text = if variadic then codes ", ..." else [] in
          ok (write_indented (head ++ (parameters ++ (dots ++ (codes ")" ++ finish)))) p))

-- The variables of the set in its order.
unfoldable pub str_declare_set_of_extern_vars : List TypeAndVarName → Printer → Printer
unfolding str_declare_var str_declare_array_var is_array
str_declare_set_of_extern_vars [] p = p
str_declare_set_of_extern_vars (var ∷ vars) p =
    let array = str_declare_array_var var.type var.var_name known_size none none true extern_c p in
    let simple = str_declare_var var.type.type_name var.var_name none none true 0 extern_c p in
    str_declare_set_of_extern_vars vars (if is_array var.type then array else simple)

-- `genInitCall` and `genTearDownCall`, for a function's name.
unfoldable pub gen_call : Text → Printer → Printer
unfolding str_function_call
gen_call function_name p =
    if is_empty function_name
    then p
    else str_function_call function_name [] scnl none true 0 none false p

-- The texts of all parameters, one by one.
unfoldable pub parameter_texts :
    Text → List Text → List CType → List Text → Result PrinterError (List Text)
unfolding parameter_text
parameter_texts function_name substitutions (t ∷ ts) (v ∷ vs) = do
  text ← parameter_text function_name substitutions t v
  rest ← parameter_texts function_name substitutions ts vs
  ok (text ∷ rest)
parameter_texts function_name substitutions _ _ = ok []

-- A text in front of those that follow, in two ways.
abbrev pub in_front :
    Result PrinterError Text → Result PrinterError (List Text) → Result PrinterError (List Text)
in_front first others = do text ← first; rest ← others; ok (text ∷ rest)

abbrev pub joined : Result PrinterError (List Text) → Result PrinterError Text
joined r = do texts ← r; ok (join_with texts (codes ", "))

abbrev with_separator :
    Text → Result PrinterError Text → Result PrinterError Text → Result PrinterError Text
with_separator between first others = do text ← first; rest ← others; ok (text ++ (between ++ rest))

joined-last :
    (r : Result PrinterError Text) → with_separator [] r (ok []) ≡ joined (in_front r (ok []))
unfolding join_with
joined-last (ok text) = ap ok (append-nil text)
joined-last (err e) = refl

joined-further :
    (r q : Result PrinterError Text) (others : Result PrinterError (List Text))
    → with_separator (codes ", ") r (joined (in_front q others))
      ≡ joined (in_front r (in_front q others))
unfolding join_with codes
joined-further (ok text) (ok next) (ok rest) = refl
joined-further (ok text) (ok next) (err e) = refl
joined-further (ok text) (err e) others = refl
joined-further (err e) q others = refl

-- The loop puts the texts of the parameters with a comma between them, and is undefined where one of
-- them is.
pub parameters_loop_lem :
    (function_name : Text) (substitutions : List Text) (ts : List CType) (vs : List Text)
    → parameters_loop function_name substitutions ts vs
      ≡ joined (parameter_texts function_name substitutions ts vs)
unfolding parameters_loop parameter_texts join_with codes
parameters_loop_lem f subs [] vs = refl
parameters_loop_lem f subs (t ∷ ts) [] = refl
parameters_loop_lem f subs (t ∷ []) (v ∷ vs) = joined-last (parameter_text f subs t v)
parameters_loop_lem f subs (t ∷ u ∷ ts) (v ∷ []) = joined-last (parameter_text f subs t v)
parameters_loop_lem f subs (t ∷ u ∷ ts) (v ∷ w ∷ vs) =
    ap (with_separator (codes ", ") (parameter_text f subs t v))
      (parameters_loop_lem f subs (u ∷ ts) (w ∷ vs))
    ∙ joined-further (parameter_text f subs t v) (parameter_text f subs u w)
        (parameter_texts f subs ts vs)
