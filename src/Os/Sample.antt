-- ===== src/Os/Sample.antt =====
-- A system on which every call succeeds, with the given files, for the examples.
use qlvgm.Prelude.{ℕ, true, some, List, [], ◌∷◌, length, replicate}
use qlvgm.Os.{
  write_call, fwrite_call, fprintf_call, fputs_call, fstat_call, open_call, read_call, mkdtemp_call,
  mkstemp_call, readlink_call, fork_call, waitpid_call, Answer, History, Os,
}

-- What is returned, with the size of a file and bytes.
abbrev returns : ℕ → ℕ → List ℕ → Answer
returns n size bytes = record {
  count = some n;
  errno = 0;
  mode = 0;
  regular = true;
  size = size;
  bytes = bytes;
  exited = some 0;
}

-- A file is read at once, and any number of zeros behind it. A folder is `/t`, a temporary file `t`,
-- and the program is `/b/q`.
unfoldable pub sample_answer : (List ℕ → List ℕ) → History → Answer
sample_answer files (write_call bytes ∷ h) = returns (length bytes) 0 []
sample_answer files (fwrite_call bytes ∷ h) = returns (length bytes) 0 []
sample_answer files (fprintf_call bytes ∷ h) = returns (length bytes) 0 []
sample_answer files (fputs_call bytes ∷ h) = returns 1 0 []
sample_answer files (fstat_call ∷ open_call path ∷ h) = returns 0 (length (files path)) []
sample_answer files (read_call k ∷ fstat_call ∷ open_call path ∷ h) =
    returns (length (files path)) 0 (files path)
sample_answer files (read_call k ∷ h) = returns k 0 (replicate k 0)
sample_answer files (mkdtemp_call template ∷ h) = returns 0 0 (47 ∷ 116 ∷ [])
sample_answer files (mkstemp_call template ∷ h) = returns 3 0 (116 ∷ [])
sample_answer files (readlink_call path ∷ h) = returns 4 0 (47 ∷ 98 ∷ 47 ∷ 113 ∷ [])
sample_answer files (fork_call arguments ∷ h) = returns 7 0 []
sample_answer files (waitpid_call ∷ h) = returns 7 0 []
sample_answer files h = returns 0 0 []

unfoldable pub sample_os : (List ℕ → List ℕ) → Os
sample_os files = record {
  answer = sample_answer files;
  eintr = 4;
  enoent = 2;
  eio = 5;
  stack_address = 4096;
}
