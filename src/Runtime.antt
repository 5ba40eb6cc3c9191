-- ===== src/Runtime.antt =====
-- src/runtime.c: `read_file`. The calls of the system are a history; `grants` says whether `malloc`
-- gives so many bytes.
pub mod Contents
pub mod Process
pub mod Calls
mod Tests
use qlvgm.Prelude.{
  ℕ, zero, suc, ◌+◌, ◌-◌, ltb, ◌==◌, if◌then◌else◌, Bool, true, false, not, ◌||◌, Option, none,
  some,
}
use qlvgm.Prelude.{List, [], ◌∷◌, ◌++◌, Result, ok, err, ◌>>=◌}
use qlvgm.Os.{open_call, fstat_call, read_call, close_call, Answer, History, Os, succeeded}

abbrev pub max_input_bytes : ℕ
max_input_bytes = 16777216

pub data FileError : Type 0 where
  cannot_open : ℕ → FileError
  cannot_stat : ℕ → FileError
  not_a_file : FileError
  no_memory : FileError
  cannot_read : ℕ → FileError
  unexpected_end : FileError
  cannot_close : ℕ → FileError
  never_ends : FileError

-- The loop of `read_file` while so many bytes are left, with as many rounds as given.
pub read_loop : Os → ℕ → ℕ → List ℕ → History → Result (FileError × History) (List ℕ × History)
read_loop os zero left bytes h = err (never_ends, h)
read_loop os (suc rounds) zero bytes h = ok (bytes, h)
read_loop os (suc rounds) (suc left) bytes h =
    let asked = read_call (suc left) ∷ h in
    elim (os.answer asked).count [
      | none ↦ elim ((os.answer asked).errno == os.eintr) [
        | true ↦ read_loop os rounds (suc left) bytes asked
        | false ↦ err (cannot_read (os.answer asked).errno, close_call ∷ asked)
      ]
      | some zero ↦ err (unexpected_end, close_call ∷ asked)
      | some (suc n) ↦ read_loop os rounds (left - n) (bytes ++ (os.answer asked).bytes) asked
    ]

-- `close`, when all was read.
pub close_file : Os → List ℕ × History → Result (FileError × History) (List ℕ × History)
close_file os (bytes, h) =
    let asked = close_call ∷ h in
    if succeeded (os.answer asked)
    then ok (bytes, asked)
    else err (cannot_close (os.answer asked).errno, asked)

-- Behind `fstat`.
pub read_contents : Os → (ℕ → Bool) → ℕ → History → Result (FileError × History) (List ℕ × History)
read_contents os grants rounds h =
    let status = os.answer h in
    if not (succeeded status)
    then err (cannot_stat status.errno, close_call ∷ h)
    else if not status.regular || ltb max_input_bytes status.size
    then err (not_a_file, close_call ∷ h)
    else if not (grants (status.size + 1))
    then err (no_memory, close_call ∷ h)
    else (read_loop os rounds status.size [] h >>= λ read. close_file os read)

pub read_file :
    Os → (ℕ → Bool) → ℕ → List ℕ → History → Result (FileError × History) (List ℕ × History)
read_file os grants rounds path h =
    let asked = open_call path ∷ h in
    elim (os.answer asked).count [
      | none ↦ err (cannot_open (os.answer asked).errno, asked)
      | some fd ↦ read_contents os grants rounds (fstat_call ∷ asked)
    ]
