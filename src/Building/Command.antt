-- ===== src/Building/Command.antt =====
-- server/src/building/BaseCommand.cpp and the removals of CompileCommand.cpp. An iterator into the
-- `std::list` of arguments stays at its element while others are inserted or erased: an argument is a
-- text with a number of its own, and an iterator is that number. `none` stands for `end()`.
use utbot_cpp.Base.{
  ℕ, ◌+◌, Bool, true, false, List, [], ◌∷◌, ◌++◌, Option, none, some, Text, codes, text_eq,
  contains_text, lookup_id, take, ◌==◌, if◌then◌else◌, length,
}
use utbot_cpp.Strings.Affixes.{starts_with}
use utbot_cpp.Strings.Split.{join_with}
use utbot_cpp.Strings.Replace.{find}

abbrev pub Arguments : Type 0
Arguments = List (ℕ × Text)

pub record BaseCommand : Type 0 where
  pub should_change_directory : Bool
  pub directory : Text
  pub command_line : Arguments
  pub environment_variables : List (Text × Text)
  pub output : Option ℕ
  pub optimization_level : Option ℕ
  pub fresh : ℕ

unfoldable pub number_arguments : ℕ → List Text → Arguments
number_arguments n [] = []
number_arguments n (a ∷ args) = (n, a) ∷ number_arguments (n + 1) args

-- `std::next` of the first argument that is "-o".
unfoldable pub find_output : Arguments → Option ℕ
find_output [] = none
find_output ((i, a) ∷ []) = none
find_output ((i, a) ∷ (j, b) ∷ args) =
    if text_eq a (codes "-o") then some j else find_output ((j, b) ∷ args)

unfoldable pub find_optimization_level_flag : Arguments → Option ℕ
find_optimization_level_flag [] = none
find_optimization_level_flag ((i, a) ∷ args) =
    if starts_with a (codes "-O") then some i else find_optimization_level_flag args

-- The constructor.
unfoldable pub base_command : List Text → Text → Bool → BaseCommand
unfolding number_arguments find_output find_optimization_level_flag
base_command args directory should_change_directory = record {
  should_change_directory = should_change_directory;
  directory = directory;
  command_line = number_arguments 0 args;
  environment_variables = [];
  output = find_output (number_arguments 0 args);
  optimization_level = find_optimization_level_flag (number_arguments 0 args);
  fresh = length args;
}

-- `insert` behind the first argument. On an empty list the source has undefined behaviour.
unfoldable pub insert_second : ℕ → Text → Arguments → Arguments
insert_second i flag [] = (i, flag) ∷ []
insert_second i flag (a ∷ args) = a ∷ (i, flag) ∷ args

-- The command, and the iterator to the new argument.
unfoldable pub add_flag_to_begin : Text → BaseCommand → BaseCommand × ℕ
unfolding insert_second
add_flag_to_begin flag c = (
  record c { command_line = insert_second c.fresh flag c.command_line; fresh = c.fresh + 1 },
  c.fresh,
)

unfoldable pub add_flag_to_end : Text → BaseCommand → BaseCommand × ℕ
add_flag_to_end flag c = (
  record c { command_line = c.command_line ++ ((c.fresh, flag) ∷ []); fresh = c.fresh + 1 },
  c.fresh,
)

unfoldable pub insert_or_assign : Text → Text → List (Text × Text) → List (Text × Text)
insert_or_assign name value [] = (name, value) ∷ []
insert_or_assign name value ((n, v) ∷ env) =
    let rest = insert_or_assign name value env in
    if text_eq n name then (n, value) ∷ env else (n, v) ∷ rest

unfoldable pub add_environment_variable : Text → Text → BaseCommand → BaseCommand
unfolding insert_or_assign
add_environment_variable name value c = record c {
  environment_variables = insert_or_assign name value c.environment_variables;
}

abbrev pub argument_texts : Arguments → List Text
argument_texts [] = []
argument_texts ((i, a) ∷ args) = a ∷ argument_texts args

abbrev pub is_empty_environment : List (Text × Text) → Bool
is_empty_environment [] = true
is_empty_environment (e ∷ env) = false

abbrev pub assignments : List (Text × Text) → List Text
assignments [] = []
assignments ((n, v) ∷ env) = (n ++ (codes "=" ++ v)) ∷ assignments env

unfoldable pub to_string : BaseCommand → Text
to_string c =
    let command = join_with (argument_texts c.command_line) (codes " ") in
    if is_empty_environment c.environment_variables
    then command
    else join_with (assignments c.environment_variables) (codes " ") ++ (codes " " ++ command)

-- An assignment through an iterator.
unfoldable pub write_argument : ℕ → Text → Arguments → Arguments
write_argument i text [] = []
write_argument i text ((j, a) ∷ args) =
    let rest = write_argument i text args in if j == i then (j, text) ∷ args else (j, a) ∷ rest

unfoldable pub set_optimization_level : Text → BaseCommand → BaseCommand
unfolding add_flag_to_begin insert_second write_argument
set_optimization_level flag c = elim c.optimization_level [
  | some i ↦ record c { command_line = write_argument i flag c.command_line }
  | none ↦ record (add_flag_to_begin flag c).0 {
    optimization_level = some (add_flag_to_begin flag c).1;
  }
]

-- What an iterator reads; `none` is the undefined behaviour of `end()` or of an erased argument.
abbrev pub read : Option ℕ → Arguments → Option Text
read none args = none
read (some i) args = lookup_id i args

unfoldable pub get_output : BaseCommand → Option Text
get_output c = read c.output c.command_line

unfoldable pub set_output : Text → BaseCommand → BaseCommand
unfolding write_argument
set_output path c = elim c.output [
  | some i ↦ record c { command_line = write_argument i path c.command_line }
  | none ↦ c
]

unfoldable pub get_build_tool : BaseCommand → Option Text
get_build_tool c = elim c.command_line [ [] ↦ none | a ∷ args ↦ some a.1 ]

unfoldable pub set_build_tool : Text → BaseCommand → BaseCommand
set_build_tool tool c = record c {
  command_line = elim c.command_line [ [] ↦ [] | a ∷ args ↦ (a.0, tool) ∷ args ];
}

unfoldable pub erase_arguments : (Text → Bool) → Arguments → Arguments
erase_arguments f [] = []
erase_arguments f ((i, a) ∷ args) =
    let rest = erase_arguments f args in if f a then rest else (i, a) ∷ rest

unfoldable pub erase_if : (Text → Bool) → BaseCommand → BaseCommand
unfolding erase_arguments
erase_if f c = record c { command_line = erase_arguments f c.command_line }

unfoldable pub erase : Text → BaseCommand → BaseCommand
unfolding erase_if
erase arg = erase_if (λ a. text_eq a arg)

-- The part of an argument before its first `=`.
unfoldable pub switch_name : Text → Text
switch_name arg = elim (find (codes "=") arg) [ none ↦ arg | some pos ↦ take pos arg ]

unfoldable pub remove_compiler_flags_and_options : List Text → BaseCommand → BaseCommand
unfolding switch_name erase_if
remove_compiler_flags_and_options switches = erase_if (λ a. contains_text (switch_name a) switches)

unfoldable pub remove_include_flags : BaseCommand → BaseCommand
unfolding erase_if
remove_include_flags = erase_if (λ a. starts_with a (codes "-I"))

unfoldable pub remove_werror : BaseCommand → BaseCommand
unfolding erase_if
remove_werror = erase_if (λ a. starts_with a (codes "-Werror"))

unfoldable pub remove_fpie : BaseCommand → BaseCommand
unfolding erase_if
remove_fpie = erase_if (λ a. starts_with a (codes "-fPIE"))
