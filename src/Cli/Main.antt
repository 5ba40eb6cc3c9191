-- ===== src/Cli/Main.antt =====
-- src/cli.c: `cli_main` as a whole, with its exit codes. What it prints when an image is created is
-- not modelled.
pub mod Exits
pub mod Codes
mod Tests
use qlvgm.Prelude.{
  ℕ, ◌==◌, not, if◌then◌else◌, Bool, true, false, Option, none, some, List, [], ◌∷◌, length, Result,
  ok, err, ◌>>=◌,
}
use qlvgm.Os.{Os, History}
use qlvgm.Runtime.{FileError, read_file}
use qlvgm.Runtime.Process.{PathError, executable_relative_path}
use qlvgm.Assemble.{lifted}
use qlvgm.Package.{PackError, Job, pack}
use qlvgm.Cli.{
  Strtoull, CliError, Options, Outcome, show_help, show_version, usage_error, run, command_line,
}

-- "../qlasm/qlasm" and "player.asm"
abbrev qlasm_name : List ℕ
qlasm_name = 46 ∷ 46 ∷ 47 ∷ 113 ∷ 108 ∷ 97 ∷ 115 ∷ 109 ∷ 47 ∷ 113 ∷ 108 ∷ 97 ∷ 115 ∷ 109 ∷ []

abbrev player_name : List ℕ
player_name = 112 ∷ 108 ∷ 97 ∷ 121 ∷ 101 ∷ 114 ∷ 46 ∷ 97 ∷ 115 ∷ 109 ∷ []

abbrev pub screen_size : ℕ
screen_size = 32768

-- What `getenv` gives, and the frames of a test build.
pub record Environment : Type 0 where
  pub qlasm : Option (List ℕ)
  pub player : Option (List ℕ)
  pub test_frames : ℕ

pub data MainError : Type 0 where
  unlocated : PathError → MainError
  unread : FileError → MainError
  bad_screen : ℕ → MainError
  not_packed : PackError → MainError

-- What `cli_main` reports.
pub data Report : Type 0 where
  help : Report
  version : Report
  bad_usage : CliError → Report
  failed : MainError → Report
  created : ℕ → Report

pub record Exit : Type 0 where
  pub code : ℕ
  pub report : Report
  pub history : History

-- The path beside the executable.
pub located : Result PathError (List ℕ) × History → Result (MainError × History) (List ℕ × History)
located (ok path, h) = ok (path, h)
located (err e, h) = err (unlocated e, h)

-- A path of the environment, or one beside the executable.
pub companion :
    Os → Option (List ℕ) → List ℕ → History → Result (MainError × History) (List ℕ × History)
companion os (some (c ∷ path)) relative h = ok (c ∷ path, h)
companion os (some []) relative h = located (executable_relative_path os relative h)
companion os none relative h = located (executable_relative_path os relative h)

pub sized_screen : List ℕ × History → Result (MainError × History) (Option (List ℕ) × History)
sized_screen (screen, h) =
    if not (length screen == screen_size)
    then err (bad_screen (length screen), h)
    else ok (some screen, h)

pub read_screen :
    Os
    → (ℕ → Bool)
    → ℕ
    → Option (List ℕ)
    → History
    → Result (MainError × History) (Option (List ℕ) × History)
read_screen os grants rounds none h = ok (none, h)
read_screen os grants rounds (some path) h =
    lifted unread (read_file os grants rounds path h) >>= sized_screen

-- Behind the command line.
pub run_main :
    Os
    → (ℕ → Bool)
    → ℕ
    → Environment
    → Options
    → List ℕ
    → List ℕ
    → History
    → Result (MainError × History) (ℕ × History)
run_main os grants rounds env options input_path output_path h =
    companion os env.qlasm qlasm_name h >>= λ (qlasm, h1).
    companion os env.player player_name h1 >>= λ (player_path, h2).
    read_screen os grants rounds options.screen_path h2 >>= λ (screen, h3).
    lifted unread (read_file os grants rounds input_path h3) >>= λ (input, h4). lifted not_packed (
      pack os grants rounds
        (record {
          qlasm = qlasm;
          player_path = player_path;
          output_path = output_path;
          test_frames = env.test_frames;
          options = options;
          screen = screen;
        })
        input h4)

pub exit_of : Result (MainError × History) (ℕ × History) → Exit
exit_of (ok (loaded_size, h)) = record { code = 0; report = created loaded_size; history = h }
exit_of (err (e, h)) = record { code = 1; report = failed e; history = h }

-- Behind the arguments.
pub exit_for : Os → (ℕ → Bool) → ℕ → Environment → Outcome → Exit
exit_for os grants rounds env show_help = record { code = 0; report = help; history = [] }
exit_for os grants rounds env show_version = record { code = 0; report = version; history = [] }
exit_for os grants rounds env (usage_error e) = record {
  code = 2;
  report = bad_usage e;
  history = [];
}
exit_for os grants rounds env (run options input output) =
    exit_of (run_main os grants rounds env options input output [])

pub cli_main : Os → (ℕ → Bool) → ℕ → Strtoull → Environment → List (List ℕ) → Exit
cli_main os grants rounds strtoull env arguments =
    exit_for os grants rounds env (command_line strtoull arguments)
