-- ===== src/Runtime/Process.antt =====
-- src/runtime.c: `run_process` and `executable_relative_path`. The child and the program that it
-- executes are the system's; a program that cannot be executed exits with 127.
pub mod Places
pub mod Exited
use qlvgm.Prelude.{
  ℕ, zero, suc, ◌+◌, leb, ◌==◌, if◌then◌else◌, Bool, true, false, Option, none, some, List, [], ◌∷◌,
  ◌++◌, length, take,
}
use qlvgm.Prelude.{Result, ok, err, ◌>>=◌}
use qlvgm.Os.{fork_call, waitpid_call, readlink_call, History, Os}

pub data ProcessError : Type 0 where
  cannot_start : ℕ → ProcessError
  cannot_wait : ℕ → ProcessError
  exited_with : ℕ → ProcessError
  ended_abnormally : ProcessError
  never_ends : ProcessError

-- What a status says.
pub exit_result : Option ℕ → History → Result (ProcessError × History) (Unit {0} × History)
exit_result none h = err (ended_abnormally, h)
exit_result (some zero) h = ok (tt, h)
exit_result (some (suc n)) h = err (exited_with (suc n), h)

-- `while (waitpid(...) < 0)`, with as many rounds as given.
pub wait_loop : Os → ℕ → History → Result (ProcessError × History) (Unit {0} × History)
wait_loop os zero h = err (never_ends, h)
wait_loop os (suc rounds) h =
    let asked = waitpid_call ∷ h in
    elim (os.answer asked).count [
      | none ↦ elim ((os.answer asked).errno == os.eintr) [
        | true ↦ wait_loop os rounds asked
        | false ↦ err (cannot_wait (os.answer asked).errno, asked)
      ]
      | some child ↦ exit_result (os.answer asked).exited asked
    ]

pub run_process :
    Os → ℕ → List (List ℕ) → History → Result (ProcessError × History) (Unit {0} × History)
run_process os rounds arguments h =
    let asked = fork_call arguments ∷ h in
    elim (os.answer asked).count [
      | none ↦ err (cannot_start (os.answer asked).errno, asked)
      | some child ↦ wait_loop os rounds asked
    ]

pub data PathError : Type 0 where
  cannot_locate : ℕ → PathError
  no_directory : PathError
  too_long : PathError

-- "/proc/self/exe"
abbrev executable_link : List ℕ
executable_link = 47 ∷ 112 ∷ 114 ∷ 111 ∷ 99 ∷ 47 ∷ 115 ∷ 101 ∷ 108 ∷ 102 ∷ 47 ∷ 101 ∷ 120 ∷ 101 ∷ []

-- The path up to its last `/`, which is kept.
pub folder_of : List ℕ → Option (List ℕ)
folder_of [] = none
folder_of (c ∷ path) = elim (folder_of path) [
  | some folder ↦ some (c ∷ folder)
  | none ↦ if c == 47 then some (c ∷ []) else none
]

-- `relative` behind the folder.
pub beside : List ℕ → Option (List ℕ) → Result PathError (List ℕ)
beside relative none = err no_directory
beside relative (some folder) =
    if leb 4096 (length folder + length relative) then err too_long else ok (folder ++ relative)

pub executable_relative_path : Os → List ℕ → History → Result PathError (List ℕ) × History
executable_relative_path os relative h =
    let asked = readlink_call executable_link ∷ h in
    (
      elim (os.answer asked).count [
        | none ↦ err (cannot_locate (os.answer asked).errno)
        | some n ↦
            if leb 4095 n
            then err (cannot_locate (os.answer asked).errno)
            else beside relative (folder_of (take n (os.answer asked).bytes))
      ],
      asked,
    )
