-- ===== src/Qlay/Output.antt =====
-- src/qlay.c: the output file of an image: `qlay_output_begin`, `qlay_write_bytes`,
-- `qlay_output_write` and `qlay_output_finish`. The calls of the system are a history.
pub mod Writes
pub mod Finish
pub mod Begin
mod Tests
use qlvgm.Prelude.{
  ℕ, zero, suc, ◌+◌, ◌-◌, ltb, leb, ◌==◌, if◌then◌else◌, Bool, true, false, not, ◌&&◌, ◌||◌,
}
use qlvgm.Prelude.{List, [], ◌∷◌, ◌++◌, length, take, drop, Option, none, some, bit_and}
use qlvgm.Prelude.{Result, ok, err, ◌>>=◌, ◌>>◌, fail_if}
use qlvgm.Os.{
  Call, open_call, lstat_call, mkstemp_call, umask_call, fchmod_call, write_call, fsync_call,
  close_call, rename_call, unlink_call, Answer, History, Os, succeeded, interrupted,
}

abbrev file_buffer_size : ℕ
file_buffer_size = 4096

abbrev path_bytes : ℕ
path_bytes = 4096

-- `qlay_output`, with the calls made so far; `buffered` holds the bytes of the buffer in use.
pub record Output : Type 0 where
  pub path : List ℕ
  pub temporary_path : List ℕ
  pub buffered : List ℕ
  pub history : History

-- A write stops with `saved_error`, or when the rounds given to the model are used up.
pub data Stop : Type 0 where
  write_failed : ℕ → Stop
  out_of_rounds : Stop

-- What a step leaves: the output, on a failure too.
abbrev pub Step : Type 0
Step = Result (Stop × Output) Output

pub data ImageError : Type 0 where
  cannot_stat : ℕ → ImageError
  already_exists : ImageError
  not_regular : ImageError
  path_too_long : ImageError
  cannot_create_temporary : ℕ → ImageError
  cannot_create : ℕ → ImageError
  cannot_write : ℕ → ImageError
  bad_sectors : ImageError
  bad_file_count : ImageError
  bad_name : ImageError
  capacity_exceeded : ℕ → ℕ → ImageError
  never_ends : ImageError

pub errno_or_eio : Os → Answer → ℕ
errno_or_eio os a = if not (a.errno == 0) then a.errno else os.eio

unfoldable pub make_call : Call → Output → Output
make_call c o = record o { history = c ∷ o.history }

-- A call that is made, with its answer.
abbrev pub last_answer : Os → Output → Answer
last_answer os o = os.answer o.history

-- The loop of `qlay_write_bytes` over the bytes that are left, with as many rounds as given.
unfoldable pub write_bytes : Os → ℕ → List ℕ → Output → Step
write_bytes os zero bytes o = err (out_of_rounds, o)
write_bytes os (suc rounds) [] o = ok o
write_bytes os (suc rounds) (b ∷ bytes) o =
    let asked = make_call (write_call (b ∷ bytes)) o in
    elim (last_answer os asked).count [
      | none ↦ elim ((last_answer os asked).errno == os.eintr) [
        | true ↦ write_bytes os rounds (b ∷ bytes) asked
        | false ↦ err (write_failed (errno_or_eio os (last_answer os asked)), asked)
      ]
      | some zero ↦ err (write_failed (errno_or_eio os (last_answer os asked)), asked)
      | some (suc n) ↦ write_bytes os rounds (drop n bytes) asked
    ]

-- The end of a round of `qlay_output_write`: a full buffer goes to the file.
unfoldable pub flush_full : Os → ℕ → Output → Step
flush_full os rounds o = elim (length o.buffered == file_buffer_size) [
  | true ↦ write_bytes os rounds o.buffered o >>= λ o'. ok (record o' { buffered = [] })
  | false ↦ ok o
]

-- The loop of `qlay_output_write` over the bytes that are left. A round copies a byte at least, so
-- as many rounds as bytes are enough.
unfoldable pub write_loop : Os → ℕ → ℕ → List ℕ → Output → Step
write_loop os rounds fuel [] o = ok o
write_loop os rounds zero (b ∷ bytes) o = err (out_of_rounds, o)
write_loop os rounds (suc fuel) (b ∷ bytes) o =
    let available = file_buffer_size - length o.buffered in
    flush_full os rounds (record o { buffered = o.buffered ++ take available (b ∷ bytes) })
    >>= λ o'. write_loop os rounds fuel (drop available (b ∷ bytes)) o'

unfoldable pub output_write : Os → ℕ → List ℕ → Output → Step
output_write os rounds bytes o = write_loop os rounds (length bytes) bytes o

-- A call that must return 0.
unfoldable pub checked : Os → Call → Output → Step
checked os c o =
    let asked = make_call c o in
    if succeeded (last_answer os asked)
    then ok asked
    else err (write_failed (errno_or_eio os (last_answer os asked)), asked)

-- `output->buffered != 0`, with the bytes of the buffer as an argument of their own.
unfoldable pub flush_bytes : Os → ℕ → List ℕ → Output → Step
flush_bytes os rounds [] o = ok o
flush_bytes os rounds (b ∷ bytes) o =
    write_bytes os rounds (b ∷ bytes) o >>= λ o'. ok (record o' { buffered = [] })

-- The rest of the buffer, in `qlay_output_finish`.
unfoldable pub flush_rest : Os → ℕ → Output → Step
flush_rest os rounds o = flush_bytes os rounds o.buffered o

-- A failure without an error of its own counts as EIO.
unfoldable pub known_error : Os → Step → Step
known_error os (ok o) = ok o
known_error os (err (out_of_rounds, o)) = err (out_of_rounds, o)
known_error os (err (write_failed e, o)) = err (write_failed (if e == 0 then os.eio else e), o)

-- `qlay_output_finish`: the file is closed on a failure too, and then removed.
unfoldable pub close_output : Os → Step → Step
close_output os (ok o) = checked os close_call o
close_output os (err (out_of_rounds, o)) = err (out_of_rounds, o)
close_output os (err (write_failed e, o)) = err (write_failed e, make_call close_call o)

unfoldable pub rename_output : Os → Step → Step
rename_output os s = s >>= λ o. checked os (rename_call o.temporary_path o.path) o

unfoldable pub end_output : Step → Result (ImageError × Output) Output
end_output (ok o) = ok o
end_output (err (out_of_rounds, o)) = err (never_ends, o)
end_output (err (write_failed e, o)) =
    err (cannot_write e, make_call (unlink_call o.temporary_path) o)

unfoldable pub output_finish : Os → ℕ → Step → Result (ImageError × Output) Output
output_finish os rounds rendered = end_output (
    rename_output os (
      close_output os (
        known_error os rendered >>= λ o.
        flush_rest os rounds o >>= λ o'. checked os fsync_call o')))

unfoldable pub set_mode : Os → ℕ → Output → Result (ImageError × Output) Output
set_mode os mode o =
    let asked = make_call (fchmod_call mode) o in
    if succeeded (last_answer os asked)
    then ok asked
    else err (
      cannot_create (errno_or_eio os (last_answer os asked)),
      make_call (unlink_call o.temporary_path) (make_call close_call asked),
    )

-- The permissions of the new file: those of the old one, or 0666 & ~umask.
unfoldable pub with_mode : Os → Bool → Answer → Output → Result (ImageError × Output) Output
with_mode os true existing o = set_mode os (bit_and existing.mode 0o7777) o
with_mode os false existing o =
    let asked = make_call (umask_call 0) o in
    let mask : ℕ = elim (last_answer os asked).count [ none ↦ 0 | some n ↦ n ] in
    set_mode os (0o666 - bit_and 0o666 mask) (make_call (umask_call mask) asked)

-- ".tmp.XXXXXX"
abbrev pub temporary_suffix : List ℕ
temporary_suffix = 46 ∷ 116 ∷ 109 ∷ 112 ∷ 46 ∷ 88 ∷ 88 ∷ 88 ∷ 88 ∷ 88 ∷ 88 ∷ []

-- `mkstemp`, `fchmod`
unfoldable pub create_temporary : Os → Bool → Answer → Output → Result (ImageError × Output) Output
create_temporary os exists existing o =
    let asked = make_call (mkstemp_call (o.path ++ temporary_suffix)) o in
    elim (last_answer os asked).count [
      | none ↦ err (cannot_create_temporary (errno_or_eio os (last_answer os asked)), asked)
      | some fd ↦
          with_mode os exists existing
            (record asked { temporary_path = (last_answer os asked).bytes })
    ]

-- The tests of `qlay_output_begin`, on what `lstat` answers.
unfoldable pub output_checks : Os → List ℕ → Bool → Answer → Result ImageError (Unit {0})
output_checks os path force existing =
    let exists = succeeded existing in
    fail_if (not exists && not (existing.errno == os.enoent))
      (cannot_stat (errno_or_eio os existing))
    >> fail_if (exists && not force) already_exists
    >> fail_if (exists && not existing.regular) not_regular
    >> fail_if (ltb (path_bytes - (length temporary_suffix + 1)) (length path)) path_too_long
    >> fail_if (leb path_bytes (length (path ++ temporary_suffix))) path_too_long

-- A check that leaves the output as it is.
unfoldable pub with_output :
    Result ImageError (Unit {0}) → Output → Result (ImageError × Output) Output
with_output (ok u) o = ok o
with_output (err e) o = err (e, o)

unfoldable pub output_begin : Os → List ℕ → Bool → History → Result (ImageError × Output) Output
output_begin os path force h =
    let start : Output = record { path = path; temporary_path = []; buffered = []; history = h } in
    let asked = make_call (lstat_call path) start in
    let existing = last_answer os asked in
    with_output (output_checks os path force existing) asked >>= λ o.
    create_temporary os (succeeded existing) existing o
