-- ===== src/Os.antt =====
-- The system that src/runtime.c and src/qlay.c call: what it answers to each call is a parameter,
-- which may depend on all calls before. A path and a run of bytes are lists.
pub mod History
pub mod Plain
pub mod Sample
use qlvgm.Prelude.{ℕ, ◌+◌, ◌==◌, Bool, true, false, Option, none, some, List, [], ◌∷◌, ◌++◌, take}

-- `open` with O_EXCL is `create_call`, and `fputc` is `fputs` of one byte. `fork` comes with the
-- arguments that the child executes.
pub data Call : Type 0 where
  open_call : List ℕ → Call
  fstat_call : Call
  read_call : ℕ → Call
  lstat_call : List ℕ → Call
  mkstemp_call : List ℕ → Call
  umask_call : ℕ → Call
  fchmod_call : ℕ → Call
  write_call : List ℕ → Call
  fsync_call : Call
  close_call : Call
  rename_call : List ℕ → List ℕ → Call
  unlink_call : List ℕ → Call
  mkdtemp_call : List ℕ → Call
  rmdir_call : List ℕ → Call
  create_call : List ℕ → Call
  fdopen_call : Call
  fprintf_call : List ℕ → Call
  fwrite_call : List ℕ → Call
  fputs_call : List ℕ → Call
  fflush_call : Call
  fclose_call : Call
  fork_call : List (List ℕ) → Call
  waitpid_call : Call
  readlink_call : List ℕ → Call
  time_call : Call
  getpid_call : Call

-- What a call returns (none for a negative number) with `errno` behind it, and what it stores: the
-- mode, kind and size of a file, the bytes read, the path of a temporary file or of a link, and the
-- status of a child that exited (none if it ended by a signal).
pub record Answer : Type 0 where
  pub count : Option ℕ
  pub errno : ℕ
  pub mode : ℕ
  pub regular : Bool
  pub size : ℕ
  pub bytes : List ℕ
  pub exited : Option ℕ

-- The calls made so far, the last one first.
abbrev pub History : Type 0
History = List Call

pub record Os : Type 0 where
  pub answer : History → Answer
  pub eintr : ℕ
  pub enoent : ℕ
  pub eio : ℕ
  pub stack_address : ℕ

-- A call that returns 0.
unfoldable pub succeeded : Answer → Bool
succeeded a = elim a.count [ none ↦ false | some n ↦ n == 0 ]

-- A call that fails for a signal.
unfoldable pub interrupted : Os → Answer → Bool
interrupted os a = elim a.count [ none ↦ a.errno == os.eintr | some n ↦ false ]
