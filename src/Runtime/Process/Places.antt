-- ===== src/Runtime/Process/Places.antt =====
-- src/runtime.c: where `executable_relative_path` puts a path, and how `run_process` ends.
use qlvgm.Prelude.{
  ℕ, zero, suc, ◌+◌, ◌<◌, ◌≡◌, ◌≢◌, refl, arith, ap, ◌∙◌, inl, inr, leb, if◌then◌else◌, ◌==◌, ==→eq,
  ==→ne, leb→lt, Bool-cases,
}
use qlvgm.Prelude.{
  Option, none, some, Option-cases, List, [], ◌∷◌, ◌++◌, length, length-append, append_assoc, take,
  All, Result, ok, err,
}
use qlvgm.Os.{fork_call, waitpid_call, readlink_call, History, Os}
use qlvgm.Os.Plain.{Plain, Plain-refl, Plain-call, Plainly, Plainly-after}
use qlvgm.Runtime.Process.{
  exit_result, wait_loop, run_process, PathError, executable_link, folder_of, beside,
  executable_relative_path,
}

-- A folder with its `/`, and a name with none behind it.
pub Splits : List ℕ → Option (List ℕ) → Type 0
Splits path none = All (λ c. c ≢ 47) path
Splits path (some folder) =
    (front : List ℕ) × (name : List ℕ) × (folder ≡ front ++ 47 ∷ [])
    × (path ≡ folder ++ name)
    × All (λ c. c ≢ 47) name

folder_of-Splits : (path : List ℕ) → Splits path (folder_of path)
unfolding folder_of Splits
folder_of-Splits [] = tt
folder_of-Splits (c ∷ path) = behind (folder_of path) (folder_of-Splits path)
  where
    behind :
        (r : Option (List ℕ))
        → Splits path r
        → Splits (c ∷ path) (elim r [
          | some folder ↦ some (c ∷ folder)
          | none ↦ if c == 47 then some (c ∷ []) else none
        ])
    behind (some folder) (front, name, same, whole, none_left) =
        (c ∷ front, name, ap (◌∷◌ c) same, ap (◌∷◌ c) whole, none_left)
    behind none clear = elim (Bool-cases (c == 47)) [
      | inl slash ↦ rw (slash) ([], path, ap (λ x. x ∷ []) (==→eq c 47 slash), refl, clear)
      | inr other ↦ rw (other) (==→ne c 47 other, clear)
    ]

-- A path in the folder of another, which is `found`.
pub Placed : List ℕ → List ℕ → Result PathError (List ℕ) → Type 0
Placed relative found (err e) = Unit
Placed relative found (ok path) =
    (length path < 4096)
    × (front : List ℕ) × (name : List ℕ) × (found ≡ front ++ 47 ∷ name)
    × (path ≡ front ++ 47 ∷ relative)
    × All (λ c. c ≢ 47) name

beside-Placed :
    (relative found : List ℕ) (r : Option (List ℕ))
    → Splits found r
    → Placed relative found (beside relative r)
unfolding beside Placed Splits
beside-Placed relative found none clear = tt
beside-Placed relative found (some folder) (front, name, same, whole, clear) =
    elim (Bool-cases (leb 4096 (length folder + length relative))) [
      | inl long ↦ rw (long) tt
      | inr fits ↦ rw (fits) (
        omega (
          arith,
          length-append folder relative,
          leb→lt 4096 (length folder + length relative) fits,
        ),
        front,
        name,
        whole ∙ ap (◌++ name) same ∙ append_assoc front (47 ∷ []) name,
        ap (◌++ relative) same ∙ append_assoc front (47 ∷ []) relative,
        clear,
      )
    ]

module _ (os : Os) where
  -- A companion of the program is looked for in the folder of the executable: when
  -- `executable_relative_path` returns a path, it has less than 4096 bytes, and it is the relative
  -- path behind the last slash of the link's target, as many bytes of it as `readlink` gives.
  pub executable_relative_path-Placed :
      (relative : List ℕ) (h : History) (n : ℕ)
      → (os.answer (readlink_call executable_link ∷ h)).count ≡ some n
      → Placed relative
          (take n (os.answer (readlink_call executable_link ∷ h)).bytes)
          (executable_relative_path os relative h).0
  unfolding executable_relative_path
  executable_relative_path-Placed relative h n given =
      let a = os.answer (readlink_call executable_link ∷ h) in
      elim (Bool-cases (leb 4095 n)) [
        | inl long ↦ rw (given, long) (unfold Placed in tt)
        | inr fits ↦
            rw (given, fits)
              (beside-Placed relative (take n a.bytes) (folder_of (take n a.bytes))
                (folder_of-Splits (take n a.bytes)))
      ]

  exit_result-Plainly : (status : Option ℕ) (h : History) → Plainly os h (exit_result status h)
  unfolding exit_result
  exit_result-Plainly none h = Plain-refl os h
  exit_result-Plainly (some zero) h = Plain-refl os h
  exit_result-Plainly (some (suc n)) h = Plain-refl os h

  wait_loop-Plainly : (rounds : ℕ) (h : History) → Plainly os h (wait_loop os rounds h)
  unfolding wait_loop
  wait_loop-Plainly zero h = Plain-refl os h
  wait_loop-Plainly (suc rounds) h =
      let asked = waitpid_call ∷ h in
      let waited = Plain-call os waitpid_call h tt in
      elim (Option-cases (os.answer asked).count) [
        | inl failed ↦ elim (Bool-cases ((os.answer asked).errno == os.eintr)) [
          | inl signal ↦
              rw (failed, signal, wait_loop)
                (Plainly-after os h asked (wait_loop os rounds asked) waited
                  (wait_loop-Plainly rounds asked))
          | inr other ↦ rw (failed, other, wait_loop) waited
        ]
        | inr (child, went) ↦
            rw (went, wait_loop)
              (Plainly-after os h asked (exit_result (os.answer asked).exited asked) waited
                (exit_result-Plainly (os.answer asked).exited asked))
      ]

  pub run_process-Plainly :
      (rounds : ℕ) (arguments : List (List ℕ)) (h : History)
      → Plainly os h (run_process os rounds arguments h)
  unfolding run_process
  run_process-Plainly rounds arguments h =
      let asked = fork_call arguments ∷ h in
      let started = Plain-call os (fork_call arguments) h tt in
      elim (Option-cases (os.answer asked).count) [
        | inl failed ↦ rw (failed, run_process) started
        | inr (child, went) ↦
            rw (went, run_process)
              (Plainly-after os h asked (wait_loop os rounds asked) started
                (wait_loop-Plainly rounds asked))
      ]

  pub executable_relative_path-Plain :
      (relative : List ℕ) (h : History) → Plain os h (executable_relative_path os relative h).1
  unfolding executable_relative_path
  executable_relative_path-Plain relative h = Plain-call os (readlink_call executable_link) h tt
