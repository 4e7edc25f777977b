-- ===== src/Printing/Printer.antt =====
-- `printer::Printer` of server/src/printers/Printer.cpp and Printer.h: the stream, the depth of the
-- indentation and what is printed on one line or in a block.
use utbot_cpp.Base.{
  ℕ, zero, suc, ◌+◌, Bool, true, false, not, ◌&&◌, List, [], ◌∷◌, ◌++◌, Option, none, some, Text,
  codes, length, is_some, ◌==◌, if◌then◌else◌,
}
use utbot_cpp.Names.Decorate.{decorate}
use utbot_cpp.Strings.Split.{join_with}
use utbot_cpp.Strings.Affixes.{is_empty}
use utbot_cpp.Types.Kinds.{CType, Kind, is_const_simple, PointerUsage, parameter}
use utbot_cpp.Types.Queries.{
  arrays_sizes, base_type_obj, get_elements_number_in_pointer_one_dim,
  get_elements_number_in_pointer_multi_dim, is_void, is_pointer_to_pointer,
}
use utbot_cpp.Types.Creation.{minimal_scalar_pointer_type}
use utbot_cpp.Types.Handler.{Language, is_character_type, Field}
use utbot_cpp.Types.Names.{c_bool_to_cpp}
use utbot_cpp.Values.Bytes.{ℤ, pos, negsuc, natural_to_string}
use utbot_cpp.Values.Reading.{is_cxx}
use utbot_cpp.Values.Pointers.{get_const_qualifier, get_field_access, c_null}

-- `language` is what the virtual `getLanguage` answers.
pub record Printer : Type 0 where
  pub ss : Text
  pub tabs_depth : ℤ
  pub comment_depth : ℤ
  pub src_language : Language
  pub language : Language

-- `++` and `--` of an `int`.
unfoldable pub increment : ℤ → ℤ
increment (pos n) = pos (suc n)
increment (negsuc zero) = pos 0
increment (negsuc (suc n)) = negsuc n

unfoldable pub decrement : ℤ → ℤ
decrement (pos zero) = negsuc 0
decrement (pos (suc n)) = pos n
decrement (negsuc n) = negsuc (suc n)

-- `StringUtils::repeat`: nothing for a negative number.
unfoldable pub repeat_natural : Text → ℕ → Text
repeat_natural s zero = []
repeat_natural s (suc n) = repeat_natural s n ++ s

unfoldable pub repeat : Text → ℤ → Text
unfolding repeat_natural
repeat s (pos n) = repeat_natural s n
repeat s (negsuc n) = []

abbrev pub is_positive : ℤ → Bool
is_positive (pos zero) = false
is_positive (pos (suc n)) = true
is_positive (negsuc n) = false

-- A byte 10 is a new line.
abbrev pub nl : Text
nl = 10 ∷ []

abbrev pub scnl : Text
scnl = codes ";" ++ nl

abbrev pub tab : Text
tab = codes "    "

-- `ss << text`.
unfoldable pub write : Text → Printer → Printer
write text p = record p { ss = p.ss ++ text }

unfoldable pub line_indent : Printer → Text
unfolding repeat
line_indent p =
    let tabs = repeat tab p.tabs_depth in
    if is_positive p.comment_depth then tabs ++ codes "// " else tabs

-- A line or its beginning, behind the indentation.
unfoldable pub write_indented : Text → Printer → Printer
unfolding write line_indent
write_indented text p = write (line_indent p ++ text) p

unfoldable pub need_decorate : Printer → Bool
need_decorate p = is_cxx p.language && not (is_cxx p.src_language)

abbrev pub decorated : Printer → Text → Text
decorated p name = if need_decorate p then decorate name else name

unfoldable pub reset_stream : Printer → Printer
reset_stream p = record p { ss = []; tabs_depth = pos 0 }

-- `ss << LB(startsWithSpace)` and `ss << RB(needSC)`.
unfoldable pub lb : Bool → Printer → Printer
unfolding write increment
lb starts_with_space p =
    write ((if starts_with_space then codes " " else []) ++ (codes "{" ++ nl))
      (record p { tabs_depth = increment p.tabs_depth })

unfoldable pub rb : Bool → Printer → Printer
unfolding write_indented decrement
rb need_sc p =
    write_indented (codes "}" ++ ((if need_sc then codes ";" else []) ++ nl))
      (record p { tabs_depth = decrement p.tabs_depth })

unfoldable pub str_include : Text → Bool → Printer → Printer
unfolding write_indented
str_include header is_angled p =
    let open_mark : Text = if is_angled then codes "<" else 34 ∷ [] in
    let close_mark : Text = if is_angled then codes ">" else 34 ∷ [] in
    write_indented (codes "#include " ++ (open_mark ++ (header ++ (close_mark ++ nl)))) p

unfoldable pub str_define : Text → Text → Printer → Printer
unfolding write
str_define from to p = write (codes "#define " ++ (from ++ (codes " " ++ (to ++ nl)))) p

unfoldable pub str_include_system : Text → Printer → Printer
unfolding write_indented
str_include_system header p = write_indented (codes "#include <" ++ (header ++ (codes ">" ++ nl))) p

unfoldable pub str_for_bound : Text → ℕ → Printer → Printer
unfolding write_indented
str_for_bound it n p =
    write_indented
      (codes "for (int "
        ++ (it
            ++ (codes " = 0; "
                ++ (it
                    ++ (codes " < "
                        ++ (natural_to_string n ++ (codes "; " ++ (it ++ codes " ++)"))))))))
      p

unfoldable pub str_if_bound : Text → Printer → Printer
unfolding write_indented
str_if_bound condition p = write_indented (codes "if (" ++ (condition ++ codes ")")) p

-- The loop of `printForLoopsAndReturnLoopIterators`, where `counter` is the thread's own.
unfoldable pub iterator_name : ℕ → ℕ → Text
iterator_name counter i =
    codes "it_" ++ (natural_to_string counter ++ (codes "_" ++ natural_to_string i))

unfoldable pub for_loops : ℕ → ℕ → List ℕ → Printer → Printer
unfolding str_for_bound lb iterator_name
for_loops counter i [] p = p
for_loops counter i (bound ∷ bounds) p =
    for_loops counter (i + 1) bounds (lb true (str_for_bound (iterator_name counter i) bound p))

unfoldable pub loop_iterators : ℕ → ℕ → List ℕ → List Text
unfolding iterator_name
loop_iterators counter i [] = []
loop_iterators counter i (bound ∷ bounds) =
    iterator_name counter i ∷ loop_iterators counter (i + 1) bounds

pub data ExternType : Type 0 where
  no_extern same_language extern_c : ExternType

-- The `switch`: `C` goes on to the next case where the language is not C++.
unfoldable pub extern_prefix : ExternType → Language → Text
extern_prefix no_extern _ = []
extern_prefix same_language _ = codes "extern "
extern_prefix extern_c spoken =
    if is_cxx spoken then codes "extern " ++ (34 ∷ 67 ∷ 34 ∷ 32 ∷ []) else codes "extern "

abbrev pub alignment_text : Option ℕ → Text
alignment_text none = []
alignment_text (some n) = codes "__attribute__ ((aligned(" ++ (natural_to_string n ++ codes "))) ")

abbrev pub init_text : Option Text → Text
init_text none = []
init_text (some value) = codes " = " ++ value

unfoldable pub str_declare_var :
    Text → Text → Option Text → Option ℕ → Bool → ℕ → ExternType → Printer → Printer
unfolding write_indented extern_prefix need_decorate repeat_natural
str_declare_var type name init_value alignment complete additional_pointers_count extern_type p =
    let pointers = repeat_natural (codes "*") additional_pointers_count in
    let shown_type : Text =
      if need_decorate p
      then decorate type
      else if is_cxx p.language
      then c_bool_to_cpp type
      else type in
    let declared : Text = shown_type ++ (pointers ++ (codes " " ++ decorated p name)) in
    let finish : Text = if complete then scnl else [] in
    write_indented
      (extern_prefix extern_type p.language
        ++ (alignment_text alignment ++ (declared ++ (init_text init_value ++ finish))))
      p

abbrev pub bracketed_sizes : List ℕ → Text
bracketed_sizes [] = []
bracketed_sizes (size ∷ sizes) =
    codes "[" ++ (natural_to_string size ++ (codes "]" ++ bracketed_sizes sizes))

unfoldable pub str_declare_array_var :
    CType → Text → PointerUsage → Option Text → Option ℕ → Bool → ExternType → Printer → Printer
unfolding write_indented extern_prefix need_decorate
str_declare_array_var type name usage value alignment complete extern_type p =
    let sizes = arrays_sizes usage type in
    let is_literal = length sizes == 1 && is_character_type (base_type_obj type) && is_some value in
    let brackets : Text = if is_literal then codes "[]" else bracketed_sizes sizes in
    let declared : Text =
      decorated p type.base_type ++ (codes " " ++ (decorated p name ++ brackets)) in
    let finish : Text = if complete then scnl else [] in
    write_indented
      (extern_prefix extern_type p.language
        ++ (alignment_text alignment ++ (declared ++ (init_text value ++ finish))))
      p

unfoldable pub str_assign_var : Text → Text → Printer → Printer
unfolding write_indented need_decorate
str_assign_var name value p =
    write_indented (decorated p name ++ (codes " = " ++ (value ++ scnl))) p

unfoldable pub str_function_call :
    Text → List Text → Text → Option Text → Bool → ℕ → Option CType → Bool → Printer → Printer
unfolding write line_indent need_decorate repeat_natural
str_function_call function_name args finish class_obj need_tabs ret_pointers cast_type need_comment
      p =
    let comment : Text = if need_comment then codes "//" else [] in
    let indent : Text = if need_tabs then line_indent p else [] in
    let cast : Text = elim cast_type [
      | none ↦ []
      | some t ↦ codes "(" ++ (t.type_name ++ codes ")")
    ] in
    let method : Text = elim class_obj [
      | none ↦ decorated p function_name
      | some o ↦ o ++ (codes "." ++ decorated p function_name)
    ] in
    let call : Text =
      method ++ (codes "(" ++ (join_with args (codes ", ") ++ (codes ")" ++ finish))) in
    write (comment ++ (indent ++ (repeat_natural (codes "*") ret_pointers ++ (cast ++ call)))) p

unfoldable pub str_comment : Text → Printer → Printer
unfolding write_indented
str_comment comment p = write_indented (codes "// " ++ (comment ++ nl)) p

unfoldable pub constr_index : Text → Text → Text
constr_index array_name ind = array_name ++ (codes "[" ++ (ind ++ codes "]"))

unfoldable pub constr_multi_index : Text → List Text → Text
unfolding constr_index
constr_multi_index array_name [] = array_name
constr_multi_index array_name (index ∷ indexes) =
    constr_multi_index (constr_index array_name index) indexes

unfoldable pub write_code_line : Text → Printer → Printer
unfolding write_indented
write_code_line str p = write_indented (str ++ scnl) p

unfoldable pub str_return : Text → Printer → Printer
unfolding write_indented
str_return value p =
    let text : Text = if is_empty value then codes "return" else codes "return " ++ value in
    write_indented (text ++ scnl) p

unfoldable pub check_overflow_stub_array : Text → Printer → Printer
unfolding write_indented rb increment
check_overflow_stub_array cnt_call p =
    let size = natural_to_string (get_elements_number_in_pointer_one_dim parameter 64) in
    let test : Text =
      codes "if (" ++ (cnt_call ++ (codes " == " ++ (size ++ (codes ") {" ++ nl)))) in
    let opened = write_indented test p in
    let inner : Printer = record opened { tabs_depth = increment opened.tabs_depth } in
    rb false (write_indented (cnt_call ++ (codes "--;" ++ nl)) inner)

unfoldable pub close_brackets : ℕ → Printer → Printer
unfolding rb
close_brackets zero p = p
close_brackets (suc sz) p = close_brackets sz (rb false p)

unfoldable pub str_klee_make_symbolic : Text → Bool → Text → Printer → Printer
unfolding str_function_call
str_klee_make_symbolic var_name need_ampersand pseudo_name p =
    let pointer : Text = (if need_ampersand then codes "&" else []) ++ var_name in
    let size : Text = codes "sizeof(" ++ (var_name ++ codes ")") in
    let name : Text = 34 ∷ (pseudo_name ++ 34 ∷ []) in
    str_function_call (codes "klee_make_symbolic") (pointer ∷ size ∷ name ∷ []) scnl none true 0
      none false p

-- The block of `strDeclareArrayOfFunctionPointerVar` and `genStubForStructFunctionPointerArray`.
unfoldable pub assign_in_loop : Text → Text → ℕ → Printer → Printer
unfolding write str_for_bound str_assign_var increment decrement write_indented
assign_in_loop name stub_name size p =
    let opened = write (codes " {" ++ nl) (str_for_bound (codes "i") size p) in
    let inner : Printer = record opened { tabs_depth = increment opened.tabs_depth } in
    let assigned = str_assign_var name stub_name inner in
    let closed : Printer = record assigned { tabs_depth = decrement assigned.tabs_depth } in
    write_indented (codes "}" ++ nl) closed

unfoldable pub str_declare_array_of_function_pointer_var : Text → Text → Text → Printer → Printer
unfolding str_declare_var assign_in_loop
str_declare_array_of_function_pointer_var array_type array_name stub_function_name p =
    let size = get_elements_number_in_pointer_one_dim parameter 64 in
    let sized : Text = array_name ++ (codes "[" ++ (natural_to_string size ++ codes "]")) in
    assign_in_loop (array_name ++ codes "[i]") stub_function_name size
      (str_declare_var array_type sized none none true 0 no_extern p)

unfoldable pub gen_stub_for_struct_function_pointer : Text → Field → Text → Printer → Printer
unfolding str_assign_var
gen_stub_for_struct_function_pointer struct_name field stub_name p =
    str_assign_var (get_field_access struct_name field) stub_name p

unfoldable pub gen_stub_for_struct_function_pointer_array : Text → Field → Text → Printer → Printer
unfolding assign_in_loop
gen_stub_for_struct_function_pointer_array struct_name field stub_name p =
    assign_in_loop (struct_name ++ (codes "." ++ (field.name ++ codes "[i]"))) stub_name
      (get_elements_number_in_pointer_one_dim parameter 64) p

-- `getConstQualifier`: whether the last kind is a constant simple type.
unfoldable pub last_is_const : List Kind → Bool
last_is_const [] = false
last_is_const (k ∷ []) = is_const_simple k
last_is_const (k ∷ l ∷ ks) = last_is_const (l ∷ ks)

-- `gen2DPointer`; `counter` is the thread's counter behind its increment.
unfoldable pub gen_2d_pointer : ℕ → CType → Text → Bool → Printer → Printer
unfolding str_declare_var str_assign_var for_loops loop_iterators constr_multi_index constr_index
    close_brackets last_is_const get_const_qualifier
gen_2d_pointer counter type name need_declare p =
    let pointer_size = get_elements_number_in_pointer_multi_dim parameter 2 in
    let type_object =
      if is_void (base_type_obj type) then minimal_scalar_pointer_type 2 else type in
    let base_type = type_object.base_type in
    let qualifier = get_const_qualifier (last_is_const type_object.kinds) in
    let shown : Text = qualifier ++ (base_type ++ codes " **") in
    let value : Text =
      codes "("
      ++ (shown
          ++ (codes ") calloc("
              ++ (natural_to_string (pointer_size + 1)
                  ++ (codes ", sizeof(" ++ (base_type ++ codes " *))"))))) in
    let declared =
      if need_declare
      then str_declare_var shown name (some value) none true 0 no_extern p
      else str_assign_var name value p in
    let indexing = constr_multi_index [] (loop_iterators counter 0 (pointer_size ∷ [])) in
    let looped = for_loops counter 0 (pointer_size ∷ []) declared in
    let assigned = str_assign_var (name ++ indexing) (codes "_" ++ (name ++ indexing)) looped in
    let closed = close_brackets 1 assigned in
    let last = str_assign_var (constr_index name (natural_to_string pointer_size)) c_null closed in
    if is_pointer_to_pointer type then last else p
