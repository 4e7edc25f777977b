-- ===== src/Building/Iterators.antt =====
-- The iterators of a command of server/src/building/BaseCommand.cpp under its operations.
use utbot_cpp.Base.{
  ℕ, suc, ◌+◌, ◌<◌, Bool, true, false, List, [], ◌∷◌, ◌≡◌, ◌≢◌, ap, ◌∙◌, arith, none, some, is_some,
  Text, lookup_id, ◌==◌, if◌then◌else◌, length, All, Bool-cases, Option-cases, inl, inr, subst,
}
use utbot_cpp.Building.Command.{
  Arguments, BaseCommand, number_arguments, find_output, find_optimization_level_flag, base_command,
  insert_second, add_flag_to_begin, write_argument, set_optimization_level, read, get_output,
  set_output, erase_arguments, erase_if,
}

-- Both iterators stand at an argument if they are set, and the next number is fresh.
pub record IsValid (c : BaseCommand) : Type 0 where
  pub below : All (λ a. a.0 < c.fresh) c.command_line
  pub output_stands : (i : ℕ) → c.output ≡ some i → is_some (lookup_id i c.command_line) ≡ true
  pub level_stands :
      (i : ℕ) → c.optimization_level ≡ some i → is_some (lookup_id i c.command_line) ≡ true

lookup-below :
    (i n : ℕ) (args : Arguments)
    → All (λ a. a.0 < n) args
    → is_some (lookup_id i args) ≡ true
    → i < n
unfolding lookup_id
lookup-below i n [] h e = cc
lookup-below i n ((j, a) ∷ args) h e = ground (arith, lookup-below i n args h.1)

lookup-write_argument :
    (i j : ℕ) (text : Text) (args : Arguments)
    → lookup_id j (write_argument i text args) ≡ (
        if i == j
        then (if is_some (lookup_id j args) then some text else none)
        else lookup_id j args)
unfolding lookup_id write_argument
lookup-write_argument i j text [] = ground arith
lookup-write_argument i j text ((k, a) ∷ args) = ground (arith, lookup-write_argument i j text args)

lookup-insert_second :
    (i j : ℕ) (flag : Text) (args : Arguments)
    → i ≢ j
    → lookup_id j (insert_second i flag args) ≡ lookup_id j args
unfolding lookup_id insert_second
lookup-insert_second i j flag [] h = ground arith
lookup-insert_second i j flag ((k, a) ∷ args) h = ground arith

lookup-inserted :
    (i : ℕ) (flag : Text) (args : Arguments)
    → All (λ a. a.0 < i) args
    → lookup_id i (insert_second i flag args) ≡ some flag
unfolding lookup_id insert_second
lookup-inserted i flag [] h = ground arith
lookup-inserted i flag ((k, a) ∷ args) h = ground arith

write_argument-below :
    (n i : ℕ) (text : Text) (args : Arguments)
    → All (λ a. a.0 < n) args
    → All (λ a. a.0 < n) (write_argument i text args)
unfolding write_argument
write_argument-below n i text [] h = tt
write_argument-below n i text ((j, a) ∷ args) h = elim (Bool-cases (j == i)) [
  | inl e ↦ rw (e, All) h
  | inr e ↦ rw (e, All) (h.0, write_argument-below n i text args h.1)
]

below-suc : (n : ℕ) (args : Arguments) → All (λ a. a.0 < n) args → All (λ a. a.0 < n + 1) args
below-suc n [] h = tt
below-suc n (a ∷ args) h = (omega (arith, h.0), below-suc n args h.1)

insert_second-below :
    (n : ℕ) (flag : Text) (args : Arguments)
    → All (λ a. a.0 < n) args
    → All (λ a. a.0 < n + 1) (insert_second n flag args)
unfolding insert_second
insert_second-below n flag [] h = (omega arith, tt)
insert_second-below n flag (a ∷ args) h = (omega (arith, h.0), (omega arith, below-suc n args h.1))

number_arguments-below :
    (n : ℕ) (args : List Text) → All (λ a. a.0 < n + length args) (number_arguments n args)
unfolding number_arguments
number_arguments-below n [] = tt
number_arguments-below n (a ∷ args) =
    let shift : n + 1 + length args ≡ n + suc (length args) = omega arith in
    (
      omega arith,
      subst (λ (k : ℕ). All (λ a. a.0 < k) (number_arguments (n + 1) args)) shift
          (number_arguments-below (n + 1) args),
    )

found_output_stands :
    (args : Arguments) (i : ℕ) → find_output args ≡ some i → is_some (lookup_id i args) ≡ true
unfolding find_output lookup_id
found_output_stands [] i e = cc
found_output_stands ((k, a) ∷ []) i e = cc
found_output_stands ((k, a) ∷ (j, b) ∷ args) i e =
    ground (arith, found_output_stands ((j, b) ∷ args) i)

found_level_stands :
    (args : Arguments) (i : ℕ)
    → find_optimization_level_flag args ≡ some i
    → is_some (lookup_id i args) ≡ true
unfolding find_optimization_level_flag lookup_id
found_level_stands [] i e = cc
found_level_stands ((k, a) ∷ args) i e = ground (arith, found_level_stands args i)

-- A command that was just made has valid iterators.
pub base_command-IsValid :
    (args : List Text) (directory : Text) (should_change_directory : Bool)
    → IsValid (base_command args directory should_change_directory)
unfolding base_command
base_command-IsValid args directory should_change_directory = record {
  below =
      subst (λ (k : ℕ). All (λ a. a.0 < k) (number_arguments 0 args)) (omega arith)
        (number_arguments-below 0 args);
  output_stands = found_output_stands (number_arguments 0 args);
  level_stands = found_level_stands (number_arguments 0 args);
}

-- On a command with valid iterators `setOptimizationLevel` keeps them valid, and afterwards the
-- optimisation level reads as the new flag, whether there was one before or not.
pub set_optimization_level-IsValid :
    (flag : Text) (c : BaseCommand)
    → IsValid c
    → IsValid (set_optimization_level flag c)
      × (read
            (set_optimization_level flag c).optimization_level
            (set_optimization_level flag c).command_line
          ≡ some flag)
unfolding set_optimization_level add_flag_to_begin
set_optimization_level-IsValid flag c v = elim (Option-cases c.optimization_level) [
  | inl unset ↦
      rw (unset, set_optimization_level)
        (
          record {
            below = insert_second-below c.fresh flag c.command_line v.below;
            output_stands = λ i e. ground (
              arith,
              lookup-insert_second c.fresh i flag c.command_line,
              lookup-below i c.fresh c.command_line v.below,
              v.output_stands i,
            );
            level_stands =
                λ i e. ground (arith, lookup-inserted c.fresh flag c.command_line v.below);
          },
          lookup-inserted c.fresh flag c.command_line v.below,
        )
  | inr (k, set) ↦
      rw (set, set_optimization_level)
        (
          record {
            below = write_argument-below c.fresh k flag c.command_line v.below;
            output_stands = λ i e.
                ground (arith, lookup-write_argument k i flag c.command_line, v.output_stands i);
            level_stands = λ i e.
                ground (arith, lookup-write_argument k i flag c.command_line, v.level_stands i);
          },
          ground (arith, lookup-write_argument k k flag c.command_line, v.level_stands k),
        )
]

-- On a command with valid iterators and an output, `setOptimizationLevel` leaves the output as it
-- is, unless the iterator of the optimisation level is that of the output.
pub get_output-set_optimization_level :
    (flag : Text) (c : BaseCommand) (o : ℕ)
    → IsValid c
    → c.output ≡ some o
    → c.optimization_level ≢ some o
    → get_output (set_optimization_level flag c) ≡ get_output c
unfolding get_output set_optimization_level add_flag_to_begin
get_output-set_optimization_level flag c o v e d = elim (Option-cases c.optimization_level) [
  | inl unset ↦ ground (
    arith,
    lookup-insert_second c.fresh o flag c.command_line,
    lookup-below o c.fresh c.command_line v.below,
    v.output_stands o,
  )
  | inr (k, set) ↦ ground (arith, lookup-write_argument k o flag c.command_line)
]

lookup-erase_arguments :
    (f : Text → Bool) (i : ℕ) (args : Arguments) (text : Text)
    → lookup_id i args ≡ some text
    → f text ≡ false
    → lookup_id i (erase_arguments f args) ≡ some text
unfolding lookup_id erase_arguments
lookup-erase_arguments f i [] text e k = cc
lookup-erase_arguments f i ((j, a) ∷ args) text e k = elim (Bool-cases (j == i)) [
  | inl here ↦
      let same : a ≡ text = ground arith in let kept : f a ≡ false = ap f same ∙ k in ground arith
  | inr there ↦ let ih = lookup-erase_arguments f i args text (ground arith) k in ground arith
]

-- If the output reads as a path that the test does not erase, erasing arguments keeps the output.
pub get_output-erase_if :
    (f : Text → Bool) (c : BaseCommand) (path : Text)
    → get_output c ≡ some path
    → f path ≡ false
    → get_output (erase_if f c) ≡ some path
unfolding get_output erase_if
get_output-erase_if f c path e k = elim (Option-cases c.output) [
  | inl unset ↦ absurd (ground arith)
  | inr (i, set) ↦
      let kept = lookup-erase_arguments f i c.command_line path (ground arith) k in ground arith
]

-- After `setOutput` on a command whose output is set and valid, `getOutput` gives the new path.
pub get_output-set_output :
    (path : Text) (c : BaseCommand) (o : ℕ)
    → IsValid c
    → c.output ≡ some o
    → get_output (set_output path c) ≡ some path
unfolding get_output set_output
get_output-set_output path c o v e =
    ground (arith, lookup-write_argument o o path c.command_line, v.output_stands o)
