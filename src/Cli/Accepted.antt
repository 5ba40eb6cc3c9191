-- ===== src/Cli/Accepted.antt =====
-- src/cli.c: the options that the command line lets pass.
use qlvgm.Prelude.{
  ℕ, ◌≡◌, ◌≢◌, inl, inr, refl, arith, Bool, Bool-cases, true, false, ◌==◌, Option, none, some, List,
  [], ◌∷◌, ◌++◌, length, Result, ok, err, ◌>>=◌, if◌then◌else◌,
}
use qlvgm.Cli.{
  Strtoull, Options, default_options, State, Round, go_on, go_past, stop, Outcome, run, show_help,
  show_version, usage_error, CliError, option_value, with_value, set_screen_mode, set_rate,
  set_sectors, set_medium_name, set_random_id, read_option, too_many_operands, screen_mode_alone,
  unknown_option, is_option, starts_with, same_text, dashes, help_name, version_name, force_name,
  verbose_name, no_pitch_name, screen_mode_name, rate_name, sectors_name, medium_name_name,
  random_id_name, screen_name, add_operand, read_valued, read_argument, operands_of, end_arguments,
  read_arguments, command_line,
}
use qlvgm.Cli.Settings.{
  IsUsable, Sets, set_screen_mode-Sets, set_rate-Sets, set_sectors-Sets, set_random_id-Sets,
  set_medium_name-Sets,
}

-- A command line that is run has usable options, and a screen when a screen mode is set.
pub Accepted : Outcome → Type 0
Accepted (run o input output) = IsUsable o × (o.screen_mode_set ≡ true → o.screen_path ≢ none)
Accepted outcome = Unit

Keeps : Round → Type 0
Keeps (go_on s) = IsUsable s.options
Keeps (go_past s) = IsUsable s.options
Keeps (stop (run o input output)) = ⊥
Keeps (stop outcome) = Unit

with_setting-Keeps :
    (s : State) (past : Bool) (r : Result CliError Options)
    → Sets r
    → Keeps (with_value s (r >>= λ o. ok (o, past)))
unfolding with_value Keeps Sets
with_setting-Keeps s true (ok o) sets = sets
with_setting-Keeps s false (ok o) sets = sets
with_setting-Keeps s past (err e) sets = tt

with_value-Keeps :
    (s : State) (read : Result CliError (List ℕ × Bool))
    (setting : Options → List ℕ → Result CliError Options)
    → ((value : List ℕ) → Sets (setting s.options value))
    → Keeps (with_value s (read >>= λ (value, past). setting s.options value >>= λ o. ok (o, past)))
unfolding with_value Keeps
with_value-Keeps s (err e) setting sets = tt
with_value-Keeps s (ok (value, past)) setting sets =
    with_setting-Keeps s past (setting s.options value) (sets value)

read_option-Keeps :
    (s : State) (argument name : List ℕ) (next : Option (List ℕ))
    (setting : Options → List ℕ → Result CliError Options)
    → ((value : List ℕ) → Sets (setting s.options value))
    → Keeps (read_option s argument name next setting)
unfolding read_option
read_option-Keeps s argument name next setting sets =
    with_value-Keeps s (option_value argument name next) setting sets

Keeps-if : (b : Bool) (x y : Round) → Keeps x → Keeps y → Keeps (if b then x else y)
Keeps-if true x y p q = p
Keeps-if false x y p q = q

Keeps-go_on : (s : State) → IsUsable s.options → Keeps (go_on s)
unfolding Keeps
Keeps-go_on s usable = usable

Keeps-error : (e : CliError) → Keeps (stop (usage_error e))
unfolding Keeps
Keeps-error e = tt

Keeps-help : Keeps (stop show_help)
unfolding Keeps
Keeps-help = tt

Keeps-version : Keeps (stop show_version)
unfolding Keeps
Keeps-version = tt

add_operand-Keeps :
    (s : State) (argument : List ℕ) → IsUsable s.options → Keeps (add_operand s argument)
unfolding add_operand
add_operand-Keeps s argument usable =
    Keeps-if (length s.operands == 2) (stop (usage_error too_many_operands)) _
      (Keeps-error too_many_operands)
      (Keeps-go_on (record s { operands = s.operands ++ argument ∷ [] }) usable)

read_valued-Keeps :
    (strtoull : Strtoull) (s : State) (argument : List ℕ) (next : Option (List ℕ))
    → IsUsable s.options
    → Keeps (read_valued strtoull s argument next)
unfolding read_valued
read_valued-Keeps strtoull s argument next usable =
    Keeps-if (is_option argument screen_name) _ _
      (read_option-Keeps s argument screen_name next
        (λ o value. ok (record o { screen_path = some value }))
        (λ value.
          unfold Sets in
          record {
            rate = usable.rate;
            sectors = usable.sectors;
            screen_mode = usable.screen_mode;
            random_id = usable.random_id;
            medium_name = usable.medium_name;
          }))
      (Keeps-if (is_option argument screen_mode_name) _ _
        (read_option-Keeps s argument screen_mode_name next (set_screen_mode strtoull)
          (set_screen_mode-Sets strtoull s.options usable))
        (Keeps-if (is_option argument rate_name) _ _
          (read_option-Keeps s argument rate_name next (set_rate strtoull)
            (set_rate-Sets strtoull s.options usable))
          (Keeps-if (is_option argument sectors_name) _ _
            (read_option-Keeps s argument sectors_name next (set_sectors strtoull)
              (set_sectors-Sets strtoull s.options usable))
            (Keeps-if (is_option argument medium_name_name) _ _
              (read_option-Keeps s argument medium_name_name next set_medium_name
                (set_medium_name-Sets strtoull s.options usable))
              (Keeps-if (is_option argument random_id_name) _ _
                (read_option-Keeps s argument random_id_name next (set_random_id strtoull)
                  (set_random_id-Sets strtoull s.options usable))
                (Keeps-if (starts_with argument (45 ∷ [])) _ _
                  (Keeps-error (unknown_option argument))
                  (add_operand-Keeps s argument usable)))))))

read_argument-Keeps :
    (strtoull : Strtoull) (s : State) (argument : List ℕ) (next : Option (List ℕ))
    → IsUsable s.options
    → Keeps (read_argument strtoull s argument next)
unfolding read_argument
read_argument-Keeps strtoull s argument next usable =
    Keeps-if s.options_done _ _ (add_operand-Keeps s argument usable) (
      Keeps-if (same_text argument dashes) _ _
        (Keeps-go_on (record s { options_done = true }) usable)
        (Keeps-if (same_text argument help_name) _ _ Keeps-help (
          Keeps-if (same_text argument version_name) _ _ Keeps-version (
            Keeps-if (same_text argument force_name) _ _
              (Keeps-go_on (record s { options = record s.options { force = true } })
                (record {
                  rate = usable.rate;
                  sectors = usable.sectors;
                  screen_mode = usable.screen_mode;
                  random_id = usable.random_id;
                  medium_name = usable.medium_name;
                }))
              (Keeps-if (same_text argument verbose_name) _ _
                (Keeps-go_on (record s { options = record s.options { verbose = true } })
                  (record {
                    rate = usable.rate;
                    sectors = usable.sectors;
                    screen_mode = usable.screen_mode;
                    random_id = usable.random_id;
                    medium_name = usable.medium_name;
                  }))
                (Keeps-if (same_text argument no_pitch_name) _ _
                  (Keeps-go_on
                    (record s { options = record s.options { pitch_conversion = false } })
                    (record {
                      rate = usable.rate;
                      sectors = usable.sectors;
                      screen_mode = usable.screen_mode;
                      random_id = usable.random_id;
                      medium_name = usable.medium_name;
                    }))
                  (read_valued-Keeps strtoull s argument next usable)))))))

operands_of-Accepted :
    (o : Options) (operands : List (List ℕ))
    → IsUsable o
    → (o.screen_mode_set ≡ true → o.screen_path ≢ none)
    → Accepted (operands_of o operands)
unfolding operands_of Accepted
operands_of-Accepted o [] usable screen = tt
operands_of-Accepted o (input ∷ []) usable screen = tt
operands_of-Accepted o (input ∷ output ∷ []) usable screen = (usable, screen)
operands_of-Accepted o (input ∷ output ∷ more ∷ rest) usable screen = tt

end_arguments-Accepted : (s : State) → IsUsable s.options → Accepted (end_arguments s)
unfolding end_arguments
end_arguments-Accepted s usable =
    elim s.options.screen_path
        as (λ p.
          s.options.screen_path ≡ p
          → Accepted (elim p [
            | none ↦
                if s.options.screen_mode_set
                then usage_error screen_mode_alone
                else operands_of s.options s.operands
            | some path ↦ operands_of s.options s.operands
          ])) [
            | none ↦ λ e. elim (Bool-cases s.options.screen_mode_set) [
              | inl mode ↦ rw mode (unfold Accepted in tt)
              | inr no_mode ↦
                  simp no_mode (operands_of-Accepted s.options s.operands usable (λ mode. cc))
            ]
            | some path ↦ λ e. operands_of-Accepted s.options s.operands usable (λ mode missing. cc)
          ]
      refl

stop-Accepted : (r : Outcome) → Keeps (stop r) → Accepted r
unfolding Keeps Accepted
stop-Accepted (run o input output) keeps = absurd keeps
stop-Accepted show_help keeps = tt
stop-Accepted show_version keeps = tt
stop-Accepted (usage_error e) keeps = tt

read_arguments-Accepted :
    (strtoull : Strtoull) (s : State) (arguments : List (List ℕ))
    → IsUsable s.options
    → Accepted (read_arguments strtoull s arguments)
unfolding read_arguments
read_arguments-Accepted strtoull s [] usable = end_arguments-Accepted s usable
read_arguments-Accepted strtoull s (argument ∷ []) usable =
    elim (read_argument strtoull s argument none)
        as (λ r.
          Keeps r
          → Accepted (elim r [
            | go_on s' ↦ end_arguments s'
            | go_past s' ↦ end_arguments s'
            | stop outcome ↦ outcome
          ])) [
            | go_on s' ↦ λ keeps. end_arguments-Accepted s' (unfold Keeps in keeps)
            | go_past s' ↦ λ keeps. end_arguments-Accepted s' (unfold Keeps in keeps)
            | stop outcome ↦ λ keeps. stop-Accepted outcome keeps
          ]
      (read_argument-Keeps strtoull s argument none usable)
read_arguments-Accepted strtoull s (argument ∷ next ∷ rest) usable =
    elim (read_argument strtoull s argument (some next))
        as (λ r.
          Keeps r
          → Accepted (elim r [
            | go_on s' ↦ read_arguments strtoull s' (next ∷ rest)
            | go_past s' ↦ read_arguments strtoull s' rest
            | stop outcome ↦ outcome
          ])) [
            | go_on s' ↦
                λ keeps. read_arguments-Accepted strtoull s' (next ∷ rest) (unfold Keeps in keeps)
            | go_past s' ↦ λ keeps. read_arguments-Accepted strtoull s' rest (unfold Keeps in keeps)
            | stop outcome ↦ λ keeps. stop-Accepted outcome keeps
          ]
      (read_argument-Keeps strtoull s argument (some next) usable)

-- Whatever `strtoull` answers: a command line that is run has a rate of 50 or 60, 200 to 255
-- sectors, the screen mode 4 or 8, a random ID of 65535 at most, a medium name of 1 to 10 bytes if
-- it has one, and a screen when the screen mode was set.
pub command_line-Accepted :
    (strtoull : Strtoull) (arguments : List (List ℕ)) → Accepted (command_line strtoull arguments)
unfolding command_line default_options
command_line-Accepted strtoull arguments = read_arguments-Accepted strtoull _ arguments (record {
  rate = inl refl;
  sectors = (omega arith, omega arith);
  screen_mode = inr refl;
  random_id = omega arith;
  medium_name = tt;
})
