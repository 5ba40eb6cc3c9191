-- ===== src/Assemble.antt =====
-- src/output.c: the temporary files of `create_image`, and the calls of `write_player_source`.
-- The calls of stdio are calls of the system.
pub mod Prints
pub mod Written
pub mod Removed
mod Tests
use qlvgm.Prelude.{
  ℕ, zero, suc, ◌+◌, ◌-◌, ◌/◌, ◌%◌, leb, ◌==◌, if◌then◌else◌, Bool, true, false, not, ◌||◌, Option,
  none, some,
}
use qlvgm.Prelude.{List, [], ◌∷◌, ◌++◌, length, take, drop, get_or, Result, ok, err, ◌>>=◌}
use qlvgm.Os.{
  Call, mkdtemp_call, rmdir_call, unlink_call, create_call, fdopen_call, close_call, fprintf_call,
  fwrite_call, fputs_call, fflush_call, fclose_call, History, Os, succeeded,
}
use qlvgm.Runtime.{FileError, read_file}
use qlvgm.Program.{hex_byte, source_header, data_label, row_start, source_end}

pub data SourceError : Type 0 where
  cannot_make_directory : ℕ → SourceError
  temporary_too_long : SourceError
  player_unread : FileError → SourceError
  cannot_create : ℕ → SourceError
  cannot_open_stream : ℕ → SourceError
  cannot_write : SourceError
  cannot_close : ℕ → SourceError

-- `temporary_paths`
pub record Paths : Type 0 where
  pub directory : List ℕ
  pub source : List ℕ
  pub binary : List ℕ

-- A call for a path that is not empty.
abbrev pub for_path : (List ℕ → Call) → List ℕ → History → History
for_path call [] h = h
for_path call (c ∷ path) h = call (c ∷ path) ∷ h

-- `temporary_paths_clean`
unfoldable pub clean : Paths → History → History
clean p h =
    for_path rmdir_call p.directory
      (for_path unlink_call p.binary (for_path unlink_call p.source h))

-- "/tmp/qlvgm.XXXXXX"
abbrev pub temporary_template : List ℕ
temporary_template =
    47 ∷ 116 ∷ 109 ∷ 112 ∷ 47 ∷ 113 ∷ 108 ∷ 118 ∷ 103 ∷ 109 ∷ 46 ∷ 88 ∷ 88 ∷ 88 ∷ 88 ∷ 88 ∷ 88 ∷ []

-- "/player.asm" and "/qlvgm"
abbrev pub source_name : List ℕ
source_name = 47 ∷ 112 ∷ 108 ∷ 97 ∷ 121 ∷ 101 ∷ 114 ∷ 46 ∷ 97 ∷ 115 ∷ 109 ∷ []

abbrev pub binary_name : List ℕ
binary_name = 47 ∷ 113 ∷ 108 ∷ 118 ∷ 103 ∷ 109 ∷ []

-- `snprintf` keeps 4095 bytes.
unfoldable pub paths_in : List ℕ → Paths
paths_in directory = record {
  directory = directory;
  source = take 4095 (directory ++ source_name);
  binary = take 4095 (directory ++ binary_name);
}

unfoldable pub paths_fit : List ℕ → Bool
paths_fit directory =
    not
      (leb 4096 (length (directory ++ source_name)) || leb 4096 (length (directory ++ binary_name)))

unfoldable pub temporary_paths : Os → History → Result (SourceError × History) (Paths × History)
temporary_paths os h =
    let asked = mkdtemp_call temporary_template ∷ h in
    let a = os.answer asked in
    elim a.count [
      | none ↦ err (cannot_make_directory a.errno, asked)
      | some n ↦
          if paths_fit a.bytes
          then ok (paths_in a.bytes, asked)
          else err (temporary_too_long, clean (paths_in a.bytes) asked)
    ]

-- Whether the last call printed all: `fprintf` returns more than 0, `fwrite` the size, and the others
-- no EOF.
pub printed : Os → Call → History → Bool
printed os (fprintf_call text) h = elim (os.answer (fprintf_call text ∷ h)).count [
  | none ↦ false
  | some n ↦ not (n == 0)
]
printed os (fwrite_call text) h = elim (os.answer (fwrite_call text ∷ h)).count [
  | none ↦ false
  | some n ↦ n == length text
]
printed os c h = elim (os.answer (c ∷ h)).count [ none ↦ false | some n ↦ true ]

-- Calls one after the other, up to the first that fails.
pub print_all : Os → List Call → History → Bool × History
print_all os [] h = (true, h)
print_all os (c ∷ calls) h = elim (printed os c h) [
  | true ↦ print_all os calls (c ∷ h)
  | false ↦ (false, c ∷ h)
]

-- The bytes of one row: `$` and two digits each, with commas between them.
pub row_calls : List ℕ → List Call
row_calls [] = []
row_calls (b ∷ []) = fprintf_call (36 ∷ hex_byte b) ∷ []
row_calls (b ∷ c ∷ rest) =
    fprintf_call (36 ∷ hex_byte b) ∷ fputs_call (44 ∷ []) ∷ row_calls (c ∷ rest)

-- The rows of the data that is left, by as many rounds as it has bytes.
pub data_calls : ℕ → List ℕ → List Call
data_calls zero data_left = []
data_calls (suc fuel) [] = []
data_calls (suc fuel) (b ∷ rest) =
    fputs_call row_start ∷ row_calls (take 16 (b ∷ rest))
    ++ fputs_call (10 ∷ []) ∷ data_calls fuel (drop 16 (b ∷ rest))

-- A newline, if the player does not end with one.
pub line_calls : List ℕ → List Call
line_calls player =
    if length player == 0 || not (get_or player (length player - 1) 0 == 10)
    then fputs_call (10 ∷ []) ∷ []
    else []

-- What the source is made of, apart from the player.
pub record Numbers : Type 0 where
  pub rate : ℕ
  pub raw_size : ℕ
  pub loop_offset : ℕ
  pub test_frames : ℕ
  pub compressed : List ℕ

pub source_calls : List ℕ → Numbers → List Call
source_calls player n =
    fprintf_call (source_header n.rate n.raw_size n.loop_offset n.test_frames)
      ∷ fwrite_call player
      ∷ line_calls player
    ++ fputs_call data_label ∷ data_calls (length n.compressed) n.compressed
    ++ fputs_call source_end ∷ []

-- `fflush` and `fclose`, when all was printed.
pub end_source : Os → Bool × History → Result (SourceError × History) (Unit {0} × History)
end_source os (false, h) = err (cannot_write, fclose_call ∷ h)
end_source os (true, h) =
    let flushed = fflush_call ∷ h in
    let closed = fclose_call ∷ flushed in
    if not (succeeded (os.answer flushed))
    then err (cannot_write, closed)
    else if succeeded (os.answer closed)
    then ok (tt, closed)
    else err (cannot_close (os.answer closed).errno, closed)

-- The source in a file of its own, when the player is read.
pub create_source :
    Os → List ℕ → List Call → History → Result (SourceError × History) (Unit {0} × History)
create_source os path calls h =
    let created = create_call path ∷ h in
    let opened = fdopen_call ∷ created in
    elim (os.answer created).count [
      | none ↦ err (cannot_create (os.answer created).errno, created)
      | some fd ↦ elim (os.answer opened).count [
        | none ↦ err (cannot_open_stream (os.answer opened).errno, close_call ∷ opened)
        | some file ↦ end_source os (print_all os calls opened)
      ]
    ]

-- An error of a part, as one of the whole.
unfoldable pub lifted {ℓ κ μ} :
    {E : Type ℓ} {F : Type κ} {A : Type μ}
    → (E → F)
    → Result (E × History) A
    → Result (F × History) A
lifted reason (ok a) = ok a
lifted reason (err (e, h)) = err (reason e, h)

pub write_player_source :
    Os
    → (ℕ → Bool)
    → ℕ
    → List ℕ
    → List ℕ
    → Numbers
    → History
    → Result (SourceError × History) (Unit {0} × History)
write_player_source os grants rounds path player_path numbers h =
    lifted player_unread (read_file os grants rounds player_path h) >>= λ (player, read).
    create_source os path (source_calls player numbers) read
