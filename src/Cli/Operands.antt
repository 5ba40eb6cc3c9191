-- ===== src/Cli/Operands.antt =====
-- src/cli.c: the two ways to write the value of an option, and the operands behind `--`.
use qlvgm.Prelude.{
  ℕ, ◌≡◌, refl, sym, ◌∙◌, ap, Bool, true, false, Option, none, some, List, [], ◌∷◌, ◌++◌, Result,
  ok, err, ◌>>=◌,
}
use qlvgm.Cli.{
  Strtoull, Options, default_options, State, Round, go_on, go_past, stop, Outcome, run, usage_error,
  CliError, operands_missing, too_many_operands, dashes, screen_name, screen_mode_name, rate_name,
  sectors_name, medium_name_name, random_id_name, option_value, with_value, set_screen_mode,
  set_rate, set_sectors, set_medium_name, set_random_id, read_option, add_operand, is_option,
  same_text, starts_with, read_valued, read_argument, operands_of, end_arguments, read_arguments,
  command_line,
}

-- The options with a value.
pub data Valued : Type 0 where
  screen : Valued
  screen_mode : Valued
  rate : Valued
  sectors : Valued
  medium_name : Valued
  random_id : Valued

pub valued_name : Valued → List ℕ
valued_name screen = screen_name
valued_name screen_mode = screen_mode_name
valued_name rate = rate_name
valued_name sectors = sectors_name
valued_name medium_name = medium_name_name
valued_name random_id = random_id_name

setting : Strtoull → Valued → Options → List ℕ → Result CliError Options
setting strtoull screen o value = ok (record o { screen_path = some value })
setting strtoull screen_mode o value = set_screen_mode strtoull o value
setting strtoull rate o value = set_rate strtoull o value
setting strtoull sectors o value = set_sectors strtoull o value
setting strtoull medium_name o value = set_medium_name o value
setting strtoull random_id o value = set_random_id strtoull o value

-- A round that does not read the next argument, and those behind it.
next_round : Strtoull → List (List ℕ) → Round → Outcome
next_round strtoull [] (go_on s) = end_arguments s
next_round strtoull [] (go_past s) = end_arguments s
next_round strtoull (next ∷ rest) (go_on s) = read_arguments strtoull s (next ∷ rest)
next_round strtoull (next ∷ rest) (go_past s) = read_arguments strtoull s rest
next_round strtoull rest (stop outcome) = outcome

-- The first of the arguments that are left, when there is one.
first_of : List (List ℕ) → Option (List ℕ)
first_of [] = none
first_of (next ∷ rest) = some next

read_arguments-next_round :
    (strtoull : Strtoull) (s : State) (argument : List ℕ) (rest : List (List ℕ))
    → read_arguments strtoull s (argument ∷ rest)
      ≡ next_round strtoull rest (read_argument strtoull s argument (first_of rest))
unfolding read_arguments next_round first_of
read_arguments-next_round strtoull s argument [] =
    elim (read_argument strtoull s argument none)
      as (λ r.
        (elim r [
          | go_on s' ↦ end_arguments s'
          | go_past s' ↦ end_arguments s'
          | stop outcome ↦ outcome
        ])
        ≡ next_round strtoull [] r) [ go_on s' ↦ refl | go_past s' ↦ refl | stop outcome ↦ refl ]
read_arguments-next_round strtoull s argument (next ∷ rest) =
    elim (read_argument strtoull s argument (some next))
      as (λ r.
        (elim r [
          | go_on s' ↦ read_arguments strtoull s' (next ∷ rest)
          | go_past s' ↦ read_arguments strtoull s' rest
          | stop outcome ↦ outcome
        ])
        ≡ next_round strtoull (next ∷ rest) r) [
          | go_on s' ↦ refl
          | go_past s' ↦ refl
          | stop outcome ↦ refl
        ]

module _ (strtoull : Strtoull) (o : Options) (operands : List (List ℕ)) where
  abbrev open_state : State
  open_state = record { options = o; operands = operands; options_done = false }

  abbrev after : Valued → List ℕ → Bool → Round
  after v value past = with_value open_state (setting strtoull v o value >>= λ o'. ok (o', past))

  read_argument-apart :
      (v : Valued) (value : List ℕ)
      → read_argument strtoull open_state (valued_name v) (some value) ≡ after v value true
  unfolding read_argument read_valued is_option same_text starts_with read_option option_value
      valued_name setting
  read_argument-apart screen value = refl
  read_argument-apart screen_mode value = refl
  read_argument-apart rate value = refl
  read_argument-apart sectors value = refl
  read_argument-apart medium_name value = refl
  read_argument-apart random_id value = refl

  read_argument-joined :
      (v : Valued) (b : ℕ) (value : List ℕ) (next : Option (List ℕ))
      → read_argument strtoull open_state (valued_name v ++ 61 ∷ b ∷ value) next
        ≡ after v (b ∷ value) false
  unfolding read_argument read_valued is_option same_text starts_with read_option option_value
      valued_name setting
  read_argument-joined screen b value next = refl
  read_argument-joined screen_mode b value next = refl
  read_argument-joined rate b value next = refl
  read_argument-joined sectors b value next = refl
  read_argument-joined medium_name b value next = refl
  read_argument-joined random_id b value next = refl

  -- The two rounds leave the same state, one of them past the value.
  after-same :
      (r : Result CliError Options) (value : List ℕ) (rest : List (List ℕ))
      → next_round strtoull (value ∷ rest) (with_value open_state (r >>= λ o'. ok (o', true)))
        ≡ next_round strtoull rest (with_value open_state (r >>= λ o'. ok (o', false)))
  unfolding with_value next_round read_arguments
  after-same (ok o') value [] = refl
  after-same (ok o') value (next ∷ rest) = refl
  after-same (err e) value [] = refl
  after-same (err e) value (next ∷ rest) = refl

  -- Wherever it stands among the arguments, before any `--`: an option with a value that is not empty
  -- does the same as `--name value` and as `--name=value`.
  pub read_arguments-joined :
      (v : Valued) (b : ℕ) (value : List ℕ) (rest : List (List ℕ))
      → read_arguments strtoull
          (record { options = o; operands = operands; options_done = false })
          (valued_name v ∷ (b ∷ value) ∷ rest)
        ≡ read_arguments strtoull
            (record { options = o; operands = operands; options_done = false })
            ((valued_name v ++ 61 ∷ b ∷ value) ∷ rest)
  unfolding first_of
  read_arguments-joined v b value rest =
      read_arguments-next_round strtoull open_state (valued_name v) ((b ∷ value) ∷ rest)
      ∙ ap (next_round strtoull ((b ∷ value) ∷ rest)) (read_argument-apart v (b ∷ value))
      ∙ after-same (setting strtoull v o (b ∷ value)) (b ∷ value) rest
      ∙ sym (ap (next_round strtoull rest) (read_argument-joined v b value (first_of rest)))
      ∙ sym (read_arguments-next_round strtoull open_state (valued_name v ++ 61 ∷ b ∷ value) rest)

-- The operands alone.
pub operands_only : List (List ℕ) → Outcome
operands_only [] = usage_error operands_missing
operands_only (input ∷ []) = usage_error operands_missing
operands_only (input ∷ output ∷ []) = run default_options input output
operands_only (input ∷ output ∷ more ∷ rest) = usage_error too_many_operands

-- Every argument behind a first `--` is an operand, options too: two of them are run with the
-- default options, fewer are missing, more are too many.
pub command_line-dashes :
    (strtoull : Strtoull) (arguments : List (List ℕ))
    → command_line strtoull (dashes ∷ arguments) ≡ operands_only arguments
unfolding command_line read_arguments read_argument same_text add_operand end_arguments operands_of
    operands_only default_options
command_line-dashes strtoull [] = refl
command_line-dashes strtoull (input ∷ []) = refl
command_line-dashes strtoull (input ∷ output ∷ []) = refl
command_line-dashes strtoull (input ∷ output ∷ more ∷ []) = refl
command_line-dashes strtoull (input ∷ output ∷ more ∷ another ∷ rest) = refl
