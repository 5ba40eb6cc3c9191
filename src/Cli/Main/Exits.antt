-- ===== src/Cli/Main/Exits.antt =====
-- src/cli.c: the exit codes of `cli_main`, and what it has done then.
use qlvgm.Prelude.{
  ℕ, ◌≡◌, refl, ap, sym, ◌==◌, ==→eq, Bool, Bool-cases, inl, inr, Option, none, some, List, [], ◌∷◌,
  length, Result, ok, err, ◌>>=◌, ok_injective,
}
use qlvgm.Os.{Os, History}
use qlvgm.Os.History.{Kept}
use qlvgm.Os.Plain.{Plain, Plain-refl, Plain-trans, Plainly}
use qlvgm.Runtime.{FileError, read_file}
use qlvgm.Runtime.Calls.{read_file-Plainly}
use qlvgm.Runtime.Process.{PathError, executable_relative_path}
use qlvgm.Runtime.Process.Places.{executable_relative_path-Plain}
use qlvgm.Assemble.{lifted}
use qlvgm.Package.{PackError, Job, pack}
use qlvgm.Package.Steps.{Made, Packed, pack-Packed}
use qlvgm.Cli.{Options}
use qlvgm.Cli.Main.{
  Environment, MainError, located, companion, sized_screen, read_screen, run_main, screen_size,
  qlasm_name, player_name, unread, not_packed,
}

-- The path that is given, if it is not empty, or that of a file beside the executable.
abbrev pub FoundAt : Os → Option (List ℕ) → List ℕ → History → List ℕ → History → Type 0
FoundAt os (some (c ∷ given)) relative h path later = (path ≡ c ∷ given) × (later ≡ h)
FoundAt os (some []) relative h path later =
    executable_relative_path os relative h ≡ (ok path, later)
FoundAt os none relative h path later = executable_relative_path os relative h ≡ (ok path, later)

-- No screen, or the 32 KB that were read at the path.
abbrev pub ScreenRead :
    Os → (ℕ → Bool) → ℕ → Option (List ℕ) → History → Option (List ℕ) → History → Type 0
ScreenRead os grants rounds none h screen later = (screen ≡ none) × (later ≡ h)
ScreenRead os grants rounds (some path) h screen later =
    (bytes : List ℕ) × (read_file os grants rounds path h ≡ ok (bytes, later))
    × (length bytes ≡ 32768)
    × (screen ≡ some bytes)

-- A job for the options and the environment, and the calls that were made for it.
pub record Prepared (os : Os) (grants : ℕ → Bool) (rounds : ℕ) (env : Environment)
    (options : Options) (output_path : List ℕ) (job : Job) (before : History) : Type 0 where
  pub assembler_found : History
  pub player_found : History
  pub qlasm : FoundAt os env.qlasm qlasm_name [] job.qlasm assembler_found
  pub player_path : FoundAt os env.player player_name assembler_found job.player_path player_found
  pub screen : ScreenRead os grants rounds options.screen_path player_found job.screen before
  pub options_same : job.options ≡ options
  pub path_same : job.output_path ≡ output_path
  pub frames_same : job.test_frames ≡ env.test_frames

-- An image that was made of the file at a path.
pub record Created (os : Os) (grants : ℕ → Bool) (rounds : ℕ) (env : Environment)
    (options : Options) (input_path output_path : List ℕ) (loaded_size : ℕ) (later : History)
    : Type 0 where
  pub job : Job
  pub input : List ℕ
  pub before : History
  pub start : History
  pub prepared : Prepared os grants rounds env options output_path job before
  pub input_read : read_file os grants rounds input_path before ≡ ok (input, start)
  pub packed : Made os grants rounds job input start loaded_size later

unfoldable pub Ran :
    Os
    → (ℕ → Bool)
    → ℕ
    → Environment
    → Options
    → List ℕ
    → List ℕ
    → Result (MainError × History) (ℕ × History)
    → Type 0
Ran os grants rounds env options input_path output_path (ok (loaded_size, later)) =
    Created os grants rounds env options input_path output_path loaded_size later
Ran os grants rounds env options input_path output_path (err (e, later)) = Kept os later

module _ (os : Os) (grants : ℕ → Bool) (rounds : ℕ) where
  located-Plainly :
      (h : History) (r : Result PathError (List ℕ) × History)
      → Plain os h r.1
      → Plainly os h (located r)
  unfolding located
  located-Plainly h (ok path, later) p = p
  located-Plainly h (err e, later) p = p

  companion-Plainly :
      (given : Option (List ℕ)) (relative : List ℕ) (h : History)
      → Plainly os h (companion os given relative h)
  unfolding companion
  companion-Plainly (some (c ∷ path)) relative h = Plain-refl os h
  companion-Plainly (some []) relative h =
      located-Plainly h (executable_relative_path os relative h)
        (executable_relative_path-Plain os relative h)
  companion-Plainly none relative h =
      located-Plainly h (executable_relative_path os relative h)
        (executable_relative_path-Plain os relative h)

  located-ok :
      (r : Result PathError (List ℕ) × History) (path : List ℕ) (later : History)
      → located r ≡ ok (path, later)
      → r ≡ (ok path, later)
  unfolding located
  located-ok (ok found, last) path later e = ap (λ x. (ok x.0, x.1)) (ok_injective e)
  located-ok (err reason, last) path later e = absurd (cc)

  companion-FoundAt :
      (given : Option (List ℕ)) (relative : List ℕ) (h : History) (path : List ℕ) (later : History)
      → companion os given relative h ≡ ok (path, later)
      → FoundAt os given relative h path later
  unfolding companion
  companion-FoundAt (some (c ∷ given)) relative h path later e =
      (sym (ap (λ x. x.0) (ok_injective e)), sym (ap (λ x. x.1) (ok_injective e)))
  companion-FoundAt (some []) relative h path later e =
      located-ok (executable_relative_path os relative h) path later e
  companion-FoundAt none relative h path later e =
      located-ok (executable_relative_path os relative h) path later e

  read_screen-Plainly :
      (path : Option (List ℕ)) (h : History) → Plainly os h (read_screen os grants rounds path h)
  unfolding read_screen sized_screen lifted
  read_screen-Plainly none h = Plain-refl os h
  read_screen-Plainly (some path) h =
      behind (read_file os grants rounds path h) (read_file-Plainly os grants rounds path h)
    where
      behind :
          (r : Result (FileError × History) (List ℕ × History))
          → Plainly os h r
          → Plainly os h (lifted unread r >>= sized_screen)
      behind (ok (screen, later)) p = elim (Bool-cases (length screen == screen_size)) [
        | inl is ↦ rw is p
        | inr other ↦ rw other p
      ]
      behind (err (e, later)) p = p

  sized_screen-ok :
      (bytes : List ℕ) (h later : History) (screen : Option (List ℕ))
      → sized_screen (bytes, h) ≡ ok (screen, later)
      → (h ≡ later) × (length bytes ≡ 32768) × (screen ≡ some bytes)
  unfolding sized_screen
  sized_screen-ok bytes h later screen e = elim (Bool-cases (length bytes == screen_size)) [
    | inl is ↦
        let same = ok_injective (rw (is, sized_screen) at e) in
        (ap (λ x. x.1) same, ==→eq (length bytes) screen_size is, sym (ap (λ x. x.0) same))
    | inr other ↦ absurd (cc (rw (other, sized_screen) at e))
  ]

  read_screen-ScreenRead :
      (path : Option (List ℕ)) (h : History) (screen : Option (List ℕ)) (later : History)
      → read_screen os grants rounds path h ≡ ok (screen, later)
      → ScreenRead os grants rounds path h screen later
  unfolding read_screen lifted
  read_screen-ScreenRead none h screen later e =
      (sym (ap (λ x. x.0) (ok_injective e)), sym (ap (λ x. x.1) (ok_injective e)))
  read_screen-ScreenRead (some path) h screen later e = behind (read_file os grants rounds path h) e
    where
      behind :
          (r : Result (FileError × History) (List ℕ × History))
          → (lifted unread r >>= sized_screen) ≡ ok (screen, later)
          → (bytes : List ℕ) × (r ≡ ok (bytes, later))
            × (length bytes ≡ 32768)
            × (screen ≡ some bytes)
      behind (ok (bytes, last)) sized =
          let (same, size, is) = sized_screen-ok bytes last later screen sized in
          (bytes, ap (λ l. ok (bytes, l)) same, size, is)
      behind (err reason) failed = absurd (cc)

module _ (os : Os) (grants : ℕ → Bool) (rounds : ℕ) (env : Environment) (options : Options)
    (input_path output_path : List ℕ) where
  abbrev pub Goes : Result (MainError × History) (ℕ × History) → Type 0
  Goes r = Ran os grants rounds env options input_path output_path r

  stopped : (e : MainError) (h : History) → Plain os [] h → Goes (err (e, h))
  unfolding Ran Kept
  stopped e h p = p.keeps tt

  -- A step that makes plain calls, behind others.
  step-Goes {ℓ} :
      {A : Type ℓ} (h : History) (r : Result (MainError × History) (A × History))
      (next : A × History → Result (MainError × History) (ℕ × History))
      → Plain os [] h
      → Plainly os h r
      → ((a : A) (later : History) → r ≡ ok (a, later) → Plain os [] later → Goes (next (a, later)))
      → Goes (r >>= next)
  step-Goes h (ok (a, later)) next before p rest = rest a later refl (Plain-trans before p)
  step-Goes h (err (e, later)) next before p rest = stopped e later (Plain-trans before p)

  image-Goes :
      (j : Job) (input : List ℕ) (before start : History)
      (r : Result (PackError × History) (ℕ × History))
      → Prepared os grants rounds env options output_path j before
      → read_file os grants rounds input_path before ≡ ok (input, start)
      → Packed os grants rounds j input start r
      → Goes (lifted not_packed r)
  unfolding Ran Packed lifted
  image-Goes j input before start (ok (loaded_size, later)) prepared read made = record {
    job = j;
    input = input;
    before = before;
    start = start;
    prepared = prepared;
    input_read = read;
    packed = made;
  }
  image-Goes j input before start (err (e, later)) prepared read kept = kept

  input-Goes :
      (h : History) (j : Job)
      → Prepared os grants rounds env options output_path j h
      → Plain os [] h
      → Goes (
          lifted unread (read_file os grants rounds input_path h) >>= λ (input, start).
          lifted not_packed (pack os grants rounds j input start))
  unfolding lifted
  input-Goes h j prepared before =
      go (read_file os grants rounds input_path h) refl
        (read_file-Plainly os grants rounds input_path h)
    where
      go :
          (r : Result (FileError × History) (List ℕ × History))
          → read_file os grants rounds input_path h ≡ r
          → Plainly os h r
          → Goes (
              lifted unread r >>= λ (input, start).
              lifted not_packed (pack os grants rounds j input start))
      go (ok (input, start)) read p =
          image-Goes j input h start _ prepared read
            (pack-Packed os grants rounds j input start (Plain-trans before p))
      go (err (e, later)) read p = stopped (unread e) later (Plain-trans before p)

  pub run_main-Ran : Goes (run_main os grants rounds env options input_path output_path [])
  unfolding run_main
  run_main-Ran =
      step-Goes [] (companion os env.qlasm qlasm_name []) _ (Plain-refl os [])
        (companion-Plainly os grants rounds env.qlasm qlasm_name [])
        (λ qlasm h1 located1 p.
          step-Goes h1 (companion os env.player player_name h1) _ p
            (companion-Plainly os grants rounds env.player player_name h1)
            (λ player_path h2 located2 q.
              step-Goes h2 (read_screen os grants rounds options.screen_path h2) _ q
                (read_screen-Plainly os grants rounds options.screen_path h2)
                (λ screen h3 screened s.
                  input-Goes h3 _
                    (record {
                      assembler_found = h1;
                      player_found = h2;
                      qlasm =
                          companion-FoundAt os grants rounds env.qlasm qlasm_name [] qlasm h1
                            located1;
                      player_path =
                          companion-FoundAt os grants rounds env.player player_name h1 player_path
                            h2 located2;
                      screen =
                          read_screen-ScreenRead os grants rounds options.screen_path h2 screen h3
                            screened;
                      options_same = refl;
                      path_same = refl;
                      frames_same = refl;
                    })
                    s)))
