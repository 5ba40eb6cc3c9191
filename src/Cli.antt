-- ===== src/Cli.antt =====
-- src/cli.c: the command line: `option_value`, `parse_u32` and the loop of `cli_main` over the
-- arguments. A string is the list of its bytes. `strtoull` is a parameter.
mod Names
pub mod Settings
pub mod Accepted
pub mod Operands
pub mod Main
mod Tests
pub use Names.*
use qlvgm.Prelude.{
  ℕ, zero, suc, ◌+◌, ltb, ◌==◌, if◌then◌else◌, Bool, true, false, not, ◌&&◌, ◌||◌, Option, none,
  some,
}
use qlvgm.Prelude.{List, [], ◌∷◌, ◌++◌, length, drop, Result, ok, err, ◌>>=◌, ◌>>◌, fail_if}

-- What `strtoull(text, &end, 0)` gives: the number, how many bytes it read, and whether it set
-- `errno`.
pub record Number : Type 0 where
  pub value : ℕ
  pub used : ℕ
  pub failed : Bool

abbrev pub Strtoull : Type 0
Strtoull = List ℕ → Number

pub data CliError : Type 0 where
  needs_value : List ℕ → CliError
  invalid : List ℕ → List ℕ → CliError
  bad_screen_mode : CliError
  bad_rate : CliError
  bad_medium_name : CliError
  unknown_option : List ℕ → CliError
  too_many_operands : CliError
  screen_mode_alone : CliError
  operands_missing : CliError

-- The fields of `image_options` that the arguments set.
pub record Options : Type 0 where
  pub rate : ℕ
  pub sectors : ℕ
  pub screen_mode : ℕ
  pub screen_mode_set : Bool
  pub random_id : ℕ
  pub random_id_set : Bool
  pub pitch_conversion : Bool
  pub force : Bool
  pub verbose : Bool
  pub screen_path : Option (List ℕ)
  pub medium_name : Option (List ℕ)

pub default_options : Options
default_options = record {
  rate = 50;
  sectors = 255;
  screen_mode = 8;
  screen_mode_set = false;
  random_id = 0;
  random_id_set = false;
  pitch_conversion = true;
  force = false;
  verbose = false;
  screen_path = none;
  medium_name = none;
}

-- `strcmp(a, b) == 0`
pub same_text : List ℕ → List ℕ → Bool
same_text [] [] = true
same_text [] (y ∷ ys) = false
same_text (x ∷ xs) [] = false
same_text (x ∷ xs) (y ∷ ys) = x == y && same_text xs ys

-- `strncmp(text, start, strlen(start)) == 0`
pub starts_with : List ℕ → List ℕ → Bool
starts_with text [] = true
starts_with [] (y ∷ ys) = false
starts_with (x ∷ xs) (y ∷ ys) = x == y && starts_with xs ys

-- `--name` or `--name=...`
pub is_option : List ℕ → List ℕ → Bool
is_option argument name = same_text argument name || starts_with argument (name ++ 61 ∷ [])

-- The value of an option, and whether the next argument is it.
pub option_value : List ℕ → List ℕ → Option (List ℕ) → Result CliError (List ℕ × Bool)
option_value argument name next =
    if starts_with argument (name ++ 61 ∷ [])
    then elim (drop (length name + 1) argument) [
      | [] ↦ err (needs_value name)
      | b ∷ value ↦ ok (b ∷ value, false)
    ]
    else elim next [ none ↦ err (needs_value name) | some value ↦ ok (value, true) ]

pub parse_u32 : Strtoull → List ℕ → ℕ → ℕ → List ℕ → Result CliError ℕ
parse_u32 strtoull text minimum maximum name =
    let n = strtoull text in
    fail_if
      (n.failed
        || n.used == 0
        || not (n.used == length text)
        || ltb n.value minimum
        || ltb maximum n.value)
      (invalid name text)
    >> ok n.value

-- What the loop keeps.
pub record State : Type 0 where
  pub options : Options
  pub operands : List (List ℕ)
  pub options_done : Bool

-- How `cli_main` goes on behind the arguments.
pub data Outcome : Type 0 where
  show_help : Outcome
  show_version : Outcome
  usage_error : CliError → Outcome
  run : Options → List ℕ → List ℕ → Outcome

-- A round of the loop: the next argument is used up or not, or the loop ends.
pub data Round : Type 0 where
  go_on : State → Round
  go_past : State → Round
  stop : Outcome → Round

-- The end of a round that read a value.
pub with_value : State → Result CliError (Options × Bool) → Round
with_value s (err e) = stop (usage_error e)
with_value s (ok (options, true)) = go_past (record s { options = options })
with_value s (ok (options, false)) = go_on (record s { options = options })

-- A number between the bounds that is one of two, when they are asked for.
pub set_screen_mode : Strtoull → Options → List ℕ → Result CliError Options
set_screen_mode strtoull o value = parse_u32 strtoull value 4 8 screen_mode_name >>= λ mode.
    fail_if (not (mode == 4) && not (mode == 8)) bad_screen_mode
    >> ok (record o { screen_mode = mode; screen_mode_set = true })

pub set_rate : Strtoull → Options → List ℕ → Result CliError Options
set_rate strtoull o value = parse_u32 strtoull value 50 60 rate_name >>= λ rate.
    fail_if (not (rate == 50) && not (rate == 60)) bad_rate >> ok (record o { rate = rate })

pub set_sectors : Strtoull → Options → List ℕ → Result CliError Options
set_sectors strtoull o value =
    parse_u32 strtoull value 200 255 sectors_name >>= λ sectors. ok (record o { sectors = sectors })

pub set_medium_name : Options → List ℕ → Result CliError Options
set_medium_name o value =
    fail_if (length value == 0 || ltb 10 (length value)) bad_medium_name
    >> ok (record o { medium_name = some value })

pub set_random_id : Strtoull → Options → List ℕ → Result CliError Options
set_random_id strtoull o value = parse_u32 strtoull value 0 65535 random_id_name >>= λ id.
    ok (record o { random_id = id; random_id_set = true })

-- An option with a value.
pub read_option :
    State → List ℕ → List ℕ → Option (List ℕ) → (Options → List ℕ → Result CliError Options) → Round
read_option s argument name next setting = with_value s (
    option_value argument name next >>= λ (value, past).
    setting s.options value >>= λ o. ok (o, past))

pub add_operand : State → List ℕ → Round
add_operand s argument =
    if length s.operands == 2
    then stop (usage_error too_many_operands)
    else go_on (record s { operands = s.operands ++ argument ∷ [] })

-- The options with a value, and the operands.
pub read_valued : Strtoull → State → List ℕ → Option (List ℕ) → Round
read_valued strtoull s argument next =
    if is_option argument screen_name
    then read_option s argument screen_name next
        (λ o value. ok (record o { screen_path = some value }))
    else if is_option argument screen_mode_name
    then read_option s argument screen_mode_name next (set_screen_mode strtoull)
    else if is_option argument rate_name
    then read_option s argument rate_name next (set_rate strtoull)
    else if is_option argument sectors_name
    then read_option s argument sectors_name next (set_sectors strtoull)
    else if is_option argument medium_name_name
    then read_option s argument medium_name_name next set_medium_name
    else if is_option argument random_id_name
    then read_option s argument random_id_name next (set_random_id strtoull)
    else if starts_with argument (45 ∷ [])
    then stop (usage_error (unknown_option argument))
    else add_operand s argument

-- One argument, with the one behind it.
pub read_argument : Strtoull → State → List ℕ → Option (List ℕ) → Round
read_argument strtoull s argument next =
    if s.options_done
    then add_operand s argument
    else if same_text argument dashes
    then go_on (record s { options_done = true })
    else if same_text argument help_name
    then stop show_help
    else if same_text argument version_name
    then stop show_version
    else if same_text argument force_name
    then go_on (record s { options = record s.options { force = true } })
    else if same_text argument verbose_name
    then go_on (record s { options = record s.options { verbose = true } })
    else if same_text argument no_pitch_name
    then go_on (record s { options = record s.options { pitch_conversion = false } })
    else read_valued strtoull s argument next

-- Behind the loop.
pub operands_of : Options → List (List ℕ) → Outcome
operands_of o (input ∷ output ∷ []) = run o input output
operands_of o operands = usage_error operands_missing

pub end_arguments : State → Outcome
end_arguments s = elim s.options.screen_path [
  | none ↦
      if s.options.screen_mode_set
      then usage_error screen_mode_alone
      else operands_of s.options s.operands
  | some path ↦ operands_of s.options s.operands
]

pub read_arguments : Strtoull → State → List (List ℕ) → Outcome
read_arguments strtoull s [] = end_arguments s
read_arguments strtoull s (argument ∷ []) = elim (read_argument strtoull s argument none) [
  | go_on s' ↦ end_arguments s'
  | go_past s' ↦ end_arguments s'
  | stop outcome ↦ outcome
]
read_arguments strtoull s (argument ∷ next ∷ rest) =
    elim (read_argument strtoull s argument (some next)) [
      | go_on s' ↦ read_arguments strtoull s' (next ∷ rest)
      | go_past s' ↦ read_arguments strtoull s' rest
      | stop outcome ↦ outcome
    ]

-- `cli_main` up to the first use of the file system, on the arguments behind the program's name.
pub command_line : Strtoull → List (List ℕ) → Outcome
command_line strtoull arguments =
    read_arguments strtoull
      (record { options = default_options; operands = []; options_done = false }) arguments
