-- ===== src/Cli/Tests.antt =====
-- The theorems on the command line at concrete inputs.
use qlvgm.Prelude.{ℕ, ◌+◌, ◌-◌, ◌*◌, ◌≡◌, refl, List, [], ◌∷◌, ◌++◌, true, false}
use qlvgm.Cli.{
  Strtoull, default_options, command_line, read_arguments, rate_name, force_name, run, same_text,
  starts_with, read_argument, read_valued, is_option, read_option, with_value, option_value,
  set_rate, parse_u32, add_operand, end_arguments, operands_of,
}
use qlvgm.Cli.Accepted.{Accepted, command_line-Accepted}
use qlvgm.Cli.Operands.{rate, valued_name, read_arguments-joined}

-- A `strtoull` that reads two digits.
abbrev two_digits : Strtoull
two_digits (a ∷ b ∷ []) = record { value = (a - 48) * 10 + (b - 48); used = 2; failed = false }
two_digits text = record { value = 0; used = 0; failed = false }

abbrev arguments : List (List ℕ)
arguments = rate_name ∷ (54 ∷ 48 ∷ []) ∷ force_name ∷ (97 ∷ []) ∷ (98 ∷ []) ∷ []

command_line-Accepted_example : Accepted (command_line two_digits arguments)
command_line-Accepted_example = command_line-Accepted two_digits arguments

read_arguments-joined_example :
    read_arguments two_digits
      (record { options = default_options; operands = []; options_done = false })
      (valued_name rate ∷ (54 ∷ 48 ∷ []) ∷ (97 ∷ []) ∷ [])
    ≡ read_arguments two_digits
        (record { options = default_options; operands = []; options_done = false })
        ((valued_name rate ++ 61 ∷ 54 ∷ 48 ∷ []) ∷ (97 ∷ []) ∷ [])
read_arguments-joined_example =
    read_arguments-joined two_digits default_options [] rate 54 (48 ∷ []) ((97 ∷ []) ∷ [])

-- A run of the model.
arguments_run :
    command_line two_digits arguments
    ≡ run (record default_options { rate = 60; force = true }) (97 ∷ []) (98 ∷ [])
unfolding command_line default_options read_arguments read_argument same_text read_valued is_option
    starts_with read_option with_value option_value set_rate parse_u32 add_operand end_arguments
    operands_of
arguments_run = refl
