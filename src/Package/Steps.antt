-- ===== src/Package/Steps.antt =====
-- src/output.c and src/cli.c: what the image of a song is made of.
use qlvgm.Prelude.{
  ℕ, ◌≡◌, refl, ◌==◌, Bool, false, List, [], length, Result, ok, err, ◌>>=◌, fail_if, Bool-cases,
  true, inl, inr,
}
use qlvgm.Os.{Os, History}
use qlvgm.Os.History.{Kept}
use qlvgm.Os.Plain.{Plain, Plain-refl, Plain-trans, Plainly}
use qlvgm.Vgm.Song.{Song}
use qlvgm.Vgm.Parse.{parse}
use qlvgm.Vgm.Convert.{Converted, convert}
use qlvgm.Qlz.Stream.{Stream, stream_create}
use qlvgm.Runtime.{read_file}
use qlvgm.Runtime.Calls.{read_file-Plainly}
use qlvgm.Runtime.Process.{run_process}
use qlvgm.Runtime.Process.Places.{run_process-Plainly}
use qlvgm.Runtime.Process.Exited.{Exited, run_process-Exited}
use qlvgm.Assemble.{Paths, clean, temporary_paths, lifted, write_player_source}
use qlvgm.Assemble.Written.{Sourced, write_player_source-Plainly, write_player_source-Sourced}
use qlvgm.Assemble.Removed.{clean-Plain, temporary_paths-Plainly}
use qlvgm.Program.{make_boot}
use qlvgm.Qlay.Medium.{medium_name}
use qlvgm.Qlay.Output.{Output, ImageError}
use qlvgm.Qlay.Create.Bytes.{image_bytes}
use qlvgm.Qlay.Create.Safety.{Ended, write_image-Ended}
use qlvgm.Qlay.RandomId.Drawn.{random_id-Plainly}
use qlvgm.Package.{
  PackError, empty_program, Job, quiet, cartridge, has_screen, image_result, job_numbers,
  assembler_arguments, image_id, image_of, build_image, cleaned, create_image, pack,
}

-- What an image was made of.
pub record Made (os : Os) (grants : ℕ → Bool) (rounds : ℕ) (j : Job) (input : List ℕ)
    (start : History) (loaded_size : ℕ) (later : History) : Type 0 where
  pub song : Song
  pub converted : Converted
  pub stream : Stream
  pub paths : Paths
  pub program : List ℕ
  pub boot : List ℕ
  pub id : ℕ
  pub output : Output
  pub made : History
  pub sourced : History
  pub assembled : History
  pub read : History
  pub drawn : History
  pub parsed : parse grants input ≡ ok song
  pub played : convert grants song j.options.rate j.options.pitch_conversion ≡ ok converted
  pub compressed : stream_create grants converted.stream ≡ ok stream
  pub temporary : temporary_paths os start ≡ ok (paths, made)
  pub source :
      Sourced os grants rounds paths.source j.player_path
        (job_numbers j converted stream)
        made
        sourced
  pub ran : Exited os (assembler_arguments j paths) sourced assembled
  pub loaded : read_file os grants rounds paths.binary assembled ≡ ok (program, read)
  pub some_bytes : (length program == 0) ≡ false
  pub started :
      make_boot (length program) stream.raw_size (has_screen j.screen) j.options.screen_mode
      ≡ ok boot
  pub identified : image_id os rounds j.options read ≡ ok (id, drawn)
  pub written :
      Ended os j.output_path
        (image_bytes j.options.sectors
          (medium_name j.output_path j.options.medium_name)
          id
          (cartridge boot program j.screen))
        (ok output)
  pub removed : later ≡ clean paths output.history
  pub sized : loaded_size ≡ length program

unfoldable pub Packed :
    Os
    → (ℕ → Bool)
    → ℕ
    → Job
    → List ℕ
    → History
    → Result (PackError × History) (ℕ × History)
    → Type 0
Packed os grants rounds j input start (ok (loaded_size, later)) =
    Made os grants rounds j input start loaded_size later
Packed os grants rounds j input start (err (e, later)) = Kept os later

quiet-holds {ℓ κ} :
    {E : Type ℓ} {A : Type κ} (P : Result (PackError × History) (ℕ × History) → Type 0)
    (reason : E → PackError) (h : History) (r : Result E A)
    (next : A → Result (PackError × History) (ℕ × History))
    → ((e : PackError) → P (err (e, h)))
    → ((a : A) → r ≡ ok a → P (next a))
    → P (quiet reason h r >>= next)
unfolding quiet
quiet-holds P reason h (ok a) next stop rest = rest a refl
quiet-holds P reason h (err e) next stop rest = stop (reason e)

-- A step that makes plain calls, behind others.
lifted-holds {ℓ κ} :
    (os : Os) {E : Type ℓ} {A : Type κ} (P : Result (PackError × History) (ℕ × History) → Type 0)
    (reason : E → PackError) (h : History) (r : Result (E × History) (A × History))
    (next : A × History → Result (PackError × History) (ℕ × History))
    → Plain os [] h
    → Plainly os h r
    → ((e : PackError) (later : History) → Plain os [] later → P (err (e, later)))
    → ((a : A) (later : History) → r ≡ ok (a, later) → Plain os [] later → P (next (a, later)))
    → P (lifted reason r >>= next)
unfolding lifted
lifted-holds os P reason h (ok (a, later)) next before p stop rest =
    rest a later refl (Plain-trans before p)
lifted-holds os P reason h (err (e, later)) next before p stop rest =
    stop (reason e) later (Plain-trans before p)

image_id-Plainly :
    (os : Os) (rounds : ℕ) (j : Job) (h : History) → Plainly os h (image_id os rounds j.options h)
unfolding image_id
image_id-Plainly os rounds j h = elim (Bool-cases j.options.random_id_set) [
  | inl given ↦ rw (given, image_id) (Plain-refl os h)
  | inr none ↦ rw (none, image_id) (random_id-Plainly os rounds h)
]

passed : (b : Bool) {u : Unit {0}} → fail_if b empty_program ≡ ok u → b ≡ false
passed true e = cc
passed false e = refl

module _ (os : Os) (grants : ℕ → Bool) (rounds : ℕ) (j : Job) (input : List ℕ) (start : History)
    (before : Plain os [] start) where
  -- What is asked of the answers between the temporary files.
  Cleaned : Paths → Result (PackError × History) (ℕ × History) → Type 0
  Cleaned paths r = Packed os grants rounds j input start (cleaned paths r)

  Kept-clean : (paths : Paths) (h : History) → Kept os h → Kept os (clean paths h)
  Kept-clean paths h k = (clean-Plain os paths h).keeps k

  Kept-Plain : (h : History) → Plain os [] h → Kept os h
  unfolding Kept
  Kept-Plain h p = p.keeps tt

  Cleaned-err :
      (paths : Paths) (e : PackError) (h : History) → Plain os [] h → Cleaned paths (err (e, h))
  unfolding Cleaned Packed cleaned
  Cleaned-err paths e h p = Kept-clean paths h (Kept-Plain h p)

  image_result-Cleaned :
      (paths : Paths) (loaded_size : ℕ) (path bytes : List ℕ)
      (r : Result (ImageError × Output) Output)
      → Ended os path bytes r
      → ((o : Output)
          → Ended os path bytes (ok o)
          → Made os grants rounds j input start loaded_size (clean paths o.history))
      → Cleaned paths (image_result loaded_size r)
  unfolding Cleaned Packed cleaned image_result Ended
  image_result-Cleaned paths loaded_size path bytes (ok o) ended made = made o ended
  image_result-Cleaned paths loaded_size path bytes (err (e, o)) ended made =
      Kept-clean paths o.history ended

  image_of-Cleaned :
      (paths : Paths) (stream : Stream) (program : List ℕ) (h : History)
      → Plain os [] h
      → ((boot : List ℕ) (id : ℕ) (drawn : History) (o : Output)
          → make_boot (length program) stream.raw_size (has_screen j.screen) j.options.screen_mode
            ≡ ok boot
          → image_id os rounds j.options h ≡ ok (id, drawn)
          → Ended os j.output_path
              (image_bytes j.options.sectors
                (medium_name j.output_path j.options.medium_name)
                id
                (cartridge boot program j.screen))
              (ok o)
          → Made os grants rounds j input start (length program) (clean paths o.history))
      → Cleaned paths (image_of os rounds j stream program h)
  unfolding image_of
  image_of-Cleaned paths stream program h plain made =
      quiet-holds (Cleaned paths) _ h
        (make_boot (length program) stream.raw_size (has_screen j.screen) j.options.screen_mode) _
        (λ e. Cleaned-err paths e h plain)
        (λ boot started.
          lifted-holds os (Cleaned paths) _ h (image_id os rounds j.options h) _ plain
            (image_id-Plainly os rounds j h) (Cleaned-err paths)
            (λ id drawn identified before.
              image_result-Cleaned paths (length program) j.output_path _ _
                (write_image-Ended os rounds j.output_path j.options.force j.options.sectors id
                  (medium_name j.output_path j.options.medium_name)
                  (cartridge boot program j.screen) drawn before)
                (λ o. made boot id drawn o started identified)))

  -- Between the temporary files.
  build_image-Cleaned :
      (song : Song) (converted : Converted) (stream : Stream) (paths : Paths) (made : History)
      → parse grants input ≡ ok song
      → convert grants song j.options.rate j.options.pitch_conversion ≡ ok converted
      → stream_create grants converted.stream ≡ ok stream
      → temporary_paths os start ≡ ok (paths, made)
      → Plain os [] made
      → Cleaned paths (build_image os grants rounds j converted stream paths made)
  unfolding build_image
  build_image-Cleaned song converted stream paths made parsed played compressed temporary p =
      lifted-holds os (Cleaned paths) _ made
        (write_player_source os grants rounds paths.source j.player_path
          (job_numbers j converted stream) made)
        _ p
        (write_player_source-Plainly os grants rounds paths.source j.player_path
          (job_numbers j converted stream) made)
        (Cleaned-err paths)
        (λ u sourced wrote q.
          lifted-holds os (Cleaned paths) _ sourced
            (run_process os rounds (assembler_arguments j paths) sourced) _ q
            (run_process-Plainly os rounds (assembler_arguments j paths) sourced)
            (Cleaned-err paths)
            (λ v assembled ran r.
              lifted-holds os (Cleaned paths) _ assembled
                (read_file os grants rounds paths.binary assembled) _ r
                (read_file-Plainly os grants rounds paths.binary assembled) (Cleaned-err paths)
                (λ program read loaded s.
                  quiet-holds (Cleaned paths) _ read (fail_if (length program == 0) empty_program) _
                    (λ e. Cleaned-err paths e read s)
                    (λ w some_bytes.
                      image_of-Cleaned paths stream program read s
                        (λ boot id drawn o started identified written. record {
                          song = song;
                          converted = converted;
                          stream = stream;
                          paths = paths;
                          program = program;
                          boot = boot;
                          id = id;
                          output = o;
                          made = made;
                          sourced = sourced;
                          assembled = assembled;
                          read = read;
                          drawn = drawn;
                          parsed = parsed;
                          played = played;
                          compressed = compressed;
                          temporary = temporary;
                          source =
                              write_player_source-Sourced os grants rounds paths.source
                                j.player_path (job_numbers j converted stream) made sourced u wrote;
                          ran =
                              run_process-Exited os rounds (assembler_arguments j paths) sourced
                                assembled v ran;
                          loaded = loaded;
                          some_bytes = passed (length program == 0) some_bytes;
                          started = started;
                          identified = identified;
                          written = written;
                          removed = refl;
                          sized = refl;
                        })))))

  pub pack-Packed : Packed os grants rounds j input start (pack os grants rounds j input start)
  unfolding pack create_image Cleaned
  pack-Packed =
      let P = Packed os grants rounds j input start in
      let stop : (e : PackError) → P (err (e, start)) =
        λ e. unfold Packed in Kept-Plain start before in
      quiet-holds P _ start (parse grants input) _ stop (λ song parsed.
        quiet-holds P _ start (convert grants song j.options.rate j.options.pitch_conversion) _ stop
          (λ converted played.
            quiet-holds P _ start (stream_create grants converted.stream) _ stop
              (λ stream compressed.
                lifted-holds os P _ start (temporary_paths os start) _ before
                  (temporary_paths-Plainly os start)
                  (λ e later p. unfold Packed in Kept-Plain later p)
                  (λ paths made temporary p.
                    build_image-Cleaned song converted stream paths made parsed played compressed
                      temporary p))))
