-- ===== src/Cli/Main/Codes.antt =====
-- src/cli.c: what each exit code of `cli_main` means.
use qlvgm.Prelude.{Bool, ℕ, ◌≡◌, List, []}
use qlvgm.Os.{Os, History}
use qlvgm.Os.History.{Kept}
use qlvgm.Cli.{Options, Outcome, show_help, show_version, usage_error, run}
use qlvgm.Cli.Main.{Environment, Report, help, version, bad_usage, failed, created}
use qlvgm.Cli.Main.Exits.{Created}

module _ (os : Os) (grants : ℕ → Bool) (rounds : ℕ) (env : Environment) (outcome : Outcome) where
  -- What a report says of the exit code, the command line and the calls.
  unfoldable pub Means : Report → ℕ → History → Type 0
  Means help code h = (code ≡ 0) × (h ≡ []) × (outcome ≡ show_help)
  Means version code h = (code ≡ 0) × (h ≡ []) × (outcome ≡ show_version)
  Means (bad_usage e) code h = (code ≡ 2) × (h ≡ []) × (outcome ≡ usage_error e)
  Means (failed e) code h = (code ≡ 1) × Kept os h
  Means (created loaded_size) code h =
      (code ≡ 0)
      × (options : Options) × (input_path : List ℕ) × (output_path : List ℕ) × (outcome
          ≡ run options input_path output_path)
      × Created os grants rounds env options input_path output_path loaded_size h
