-- ===== src/Building/Examples.antt =====
-- Two compile commands, with an optimisation level and without.
use utbot_cpp.Base.{false, List, [], ◌∷◌, ◌≡◌, ◌≢◌, refl, some, Text, codes, text_eq, lookup_id}
use utbot_cpp.Strings.Affixes.{starts_with}
use utbot_cpp.Building.Command.{
  BaseCommand, base_command, number_arguments, find_output, find_optimization_level_flag,
  set_optimization_level, read, get_output,
}
use utbot_cpp.Building.Iterators.{IsValid, base_command-IsValid, set_optimization_level-IsValid}

abbrev plain_arguments : List Text
plain_arguments = codes "gcc" ∷ codes "-I." ∷ codes "-o" ∷ codes "a.o" ∷ codes "a.c" ∷ []

abbrev optimized_arguments : List Text
optimized_arguments = codes "gcc" ∷ codes "-O2" ∷ codes "-o" ∷ codes "a.o" ∷ codes "a.c" ∷ []

abbrev optimized : BaseCommand
optimized = base_command optimized_arguments (codes "/build") false

optimized-IsValid : IsValid optimized
optimized-IsValid = base_command-IsValid optimized_arguments (codes "/build") false

base_command-IsValid_example : IsValid (base_command plain_arguments (codes "/build") false)
base_command-IsValid_example = base_command-IsValid plain_arguments (codes "/build") false

set_optimization_level-IsValid_example :
    IsValid (set_optimization_level (codes "-O0") optimized)
    × (read
          (set_optimization_level (codes "-O0") optimized).optimization_level
          (set_optimization_level (codes "-O0") optimized).command_line
        ≡ some (codes "-O0"))
set_optimization_level-IsValid_example =
    set_optimization_level-IsValid (codes "-O0") optimized optimized-IsValid

optimized_output : optimized.output ≡ some 3
unfolding base_command number_arguments find_output text_eq codes
optimized_output = refl

optimized_level : optimized.optimization_level ≢ some 3
unfolding base_command number_arguments find_optimization_level_flag starts_with text_eq codes
optimized_level = cc

optimized_path : get_output optimized ≡ some (codes "a.o")
unfolding get_output base_command number_arguments find_output text_eq codes lookup_id
optimized_path = refl

path_kept : starts_with (codes "a.o") (codes "-I") ≡ false
unfolding starts_with text_eq codes
path_kept = refl
