-- ===== src/Package.antt =====
-- src/output.c and src/cli.c: `create_image`, and the calls of `cli_main` from the bytes of the input
-- on.
pub mod Steps
pub mod Removal
mod Tests
use qlvgm.Prelude.{
  ℕ, ◌==◌, Bool, true, false, Option, none, some, List, [], ◌∷◌, length, Result, ok, err, ◌>>=◌,
  fail_if, if◌then◌else◌, u16,
}
use qlvgm.Os.{Os, History}
use qlvgm.Vgm.Song.{ParseError}
use qlvgm.Vgm.Parse.{parse}
use qlvgm.Vgm.Convert.{ConvertError, Converted, convert}
use qlvgm.Qlz.Compress.{CompressError}
use qlvgm.Qlz.Stream.{Stream, stream_create}
use qlvgm.Cli.{Options}
use qlvgm.Runtime.{FileError, read_file}
use qlvgm.Runtime.Process.{ProcessError, run_process}
use qlvgm.Assemble.{
  SourceError, Paths, clean, temporary_paths, Numbers, lifted, write_player_source,
}
use qlvgm.Qlay.RandomId.{RandomError, random_id}
use qlvgm.Program.{ProgramError, make_boot, boot_name, program_name, screen_file_name}
use qlvgm.Qlay.Image.{CartridgeFile}
use qlvgm.Qlay.Medium.{medium_name}
use qlvgm.Qlay.Output.{Output, ImageError}
use qlvgm.Qlay.Create.{write_image}

pub data PackError : Type 0 where
  parse_failed : ParseError → PackError
  convert_failed : ConvertError → PackError
  compress_failed : CompressError → PackError
  source_failed : SourceError → PackError
  assembler_failed : ProcessError → PackError
  program_unread : FileError → PackError
  empty_program : PackError
  draw_failed : RandomError → PackError
  boot_failed : ProgramError → PackError
  image_failed : ImageError → PackError

-- A step that makes no call on the system.
pub quiet {ℓ κ} :
    {E : Type ℓ} {A : Type κ}
    → (E → PackError)
    → History
    → Result E A
    → Result (PackError × History) A
quiet reason h (ok a) = ok a
quiet reason h (err e) = err (reason e, h)

-- The files of the cartridge.
pub cartridge : List ℕ → List ℕ → Option (List ℕ) → List CartridgeFile
cartridge boot program none =
    record { name = boot_name; contents = boot }
    ∷ record { name = program_name; contents = program }
    ∷ []
cartridge boot program (some screen) =
    record { name = boot_name; contents = boot }
    ∷ record { name = program_name; contents = program }
    ∷ record { name = screen_file_name; contents = screen }
    ∷ []

pub has_screen : Option (List ℕ) → Bool
has_screen none = false
has_screen (some screen) = true

-- What does not change while an image is made: the assembler, the paths of the player's source and of
-- the image, the frames of a test build, the options and the screen.
pub record Job : Type 0 where
  pub qlasm : List ℕ
  pub player_path : List ℕ
  pub output_path : List ℕ
  pub test_frames : ℕ
  pub options : Options
  pub screen : Option (List ℕ)

pub job_numbers : Job → Converted → Stream → Numbers
job_numbers j converted stream = record {
  rate = j.options.rate;
  raw_size = stream.raw_size;
  loop_offset = converted.loop_offset;
  test_frames = j.test_frames;
  compressed = stream.contents.bytes;
}

-- "--verbose"
abbrev verbose_argument : List ℕ
verbose_argument = 45 ∷ 45 ∷ 118 ∷ 101 ∷ 114 ∷ 98 ∷ 111 ∷ 115 ∷ 101 ∷ []

pub assembler_arguments : Job → Paths → List (List ℕ)
assembler_arguments j paths =
    j.qlasm
    ∷ (if j.options.verbose
        then verbose_argument ∷ paths.source ∷ paths.binary ∷ []
        else paths.source ∷ paths.binary ∷ [])

-- The random ID of the options, or one that is drawn.
pub image_id : Os → ℕ → Options → History → Result (RandomError × History) (ℕ × History)
image_id os rounds o h = if o.random_id_set then ok (u16 o.random_id, h) else random_id os rounds h

-- The size of the loaded program, when the image is written.
pub image_result :
    ℕ → Result (ImageError × Output) Output → Result (PackError × History) (ℕ × History)
image_result loaded_size (ok o) = ok (loaded_size, o.history)
image_result loaded_size (err (e, o)) = err (image_failed e, o.history)

-- Behind the assembler: the BOOT program and the image.
pub image_of : Os → ℕ → Job → Stream → List ℕ → History → Result (PackError × History) (ℕ × History)
image_of os rounds j stream program h =
    quiet boot_failed h
      (make_boot (length program) stream.raw_size (has_screen j.screen) j.options.screen_mode)
    >>= λ boot. lifted draw_failed (image_id os rounds j.options h) >>= λ (id, drawn).
        image_result (length program) (
          write_image os rounds j.output_path j.options.force j.options.sectors
            (medium_name j.output_path j.options.medium_name) id (cartridge boot program j.screen)
            drawn)

-- `create_image` between the temporary files.
pub build_image :
    Os
    → (ℕ → Bool)
    → ℕ
    → Job
    → Converted
    → Stream
    → Paths
    → History
    → Result (PackError × History) (ℕ × History)
build_image os grants rounds j converted stream paths h =
    lifted source_failed (
      write_player_source os grants rounds paths.source j.player_path
        (job_numbers j converted stream) h)
    >>= λ (_, sourced).
        lifted assembler_failed (run_process os rounds (assembler_arguments j paths) sourced)
        >>= λ (_, assembled).
            lifted program_unread (read_file os grants rounds paths.binary assembled)
            >>= λ (program, read).
                quiet (λ e. e) read (fail_if (length program == 0) empty_program) >>= λ _.
                image_of os rounds j stream program read

-- The temporary files go, whatever was done.
pub cleaned :
    Paths → Result (PackError × History) (ℕ × History) → Result (PackError × History) (ℕ × History)
cleaned paths (ok (loaded_size, h)) = ok (loaded_size, clean paths h)
cleaned paths (err (e, h)) = err (e, clean paths h)

pub create_image :
    Os
    → (ℕ → Bool)
    → ℕ
    → Job
    → Converted
    → Stream
    → History
    → Result (PackError × History) (ℕ × History)
create_image os grants rounds j converted stream h =
    lifted source_failed (temporary_paths os h) >>= λ (paths, made).
    cleaned paths (build_image os grants rounds j converted stream paths made)

-- From the bytes of the input to the image.
pub pack : Os → (ℕ → Bool) → ℕ → Job → List ℕ → History → Result (PackError × History) (ℕ × History)
pack os grants rounds j input h = quiet parse_failed h (parse grants input) >>= λ song.
    quiet convert_failed h (convert grants song j.options.rate j.options.pitch_conversion)
    >>= λ converted. quiet compress_failed h (stream_create grants converted.stream) >>= λ stream.
        create_image os grants rounds j converted stream h
