-- ===== src/Runtime/Process/Exited.antt =====
-- src/runtime.c: what the child of `run_process` did when it is reported as done.
use qlvgm.Prelude.{ℕ, zero, suc, ◌≡◌, ap, sym, subst, ◌==◌, Bool-cases, inl, inr, some}
use qlvgm.Prelude.{Option-cases, List, ◌∷◌, ok, ok_injective}
use qlvgm.Os.{fork_call, waitpid_call, History, Os}
use qlvgm.Os.History.{count-cases}
use qlvgm.Runtime.Process.{exit_result, wait_loop, run_process}

-- So many calls of `waitpid`.
abbrev pub waits : ℕ → History → History
waits zero h = h
waits (suc k) h = waits k (waitpid_call ∷ h)

-- A child was started with the arguments, and the last `waitpid` says that it exited with 0.
pub record Exited (os : Os) (arguments : List (List ℕ)) (h later : History) : Type 0 where
  pub more : ℕ
  pub waited : later ≡ waits (suc more) (fork_call arguments ∷ h)
  pub status : (os.answer later).exited ≡ some 0

module _ (os : Os) where
  exit_result-ok :
      (h later : History) (u : Unit {0})
      → exit_result (os.answer h).exited h ≡ ok (u, later)
      → (later ≡ h) × ((os.answer later).exited ≡ some 0)
  unfolding exit_result
  exit_result-ok h later u e = elim (count-cases (os.answer h).exited) [
    | inl signal ↦ absurd (cc (rw (signal, exit_result) at e))
    | inr (inl fine) ↦
        let same = ap (λ x. x.1) (ok_injective (rw (fine, exit_result) at e)) in
        (sym same, subst (λ l. (os.answer l).exited ≡ some 0) same fine)
    | inr (inr (n, failed)) ↦ absurd (cc (rw (failed, exit_result) at e))
  ]

  wait_loop-ok :
      (rounds : ℕ) (h later : History) (u : Unit {0})
      → wait_loop os rounds h ≡ ok (u, later)
      → (more : ℕ) × (later ≡ waits (suc more) h) × ((os.answer later).exited ≡ some 0)
  unfolding wait_loop
  wait_loop-ok zero h later u e = absurd (cc)
  wait_loop-ok (suc rounds) h later u e =
      let a = os.answer (waitpid_call ∷ h) in
      elim (Option-cases a.count) [
        | inl failed ↦ elim (Bool-cases (a.errno == os.eintr)) [
          | inl signal ↦
              let (more, same, status) =
                wait_loop-ok rounds (waitpid_call ∷ h) later u
                  (rw (failed, signal, wait_loop) at e) in
              (suc more, same, status)
          | inr other ↦ absurd (cc (rw (failed, other, wait_loop) at e))
        ]
        | inr (child, went) ↦
            let (same, status) =
              exit_result-ok (waitpid_call ∷ h) later u (rw (went, wait_loop) at e) in
            (0, same, status)
      ]

  pub run_process-Exited :
      (rounds : ℕ) (arguments : List (List ℕ)) (h later : History) (u : Unit {0})
      → run_process os rounds arguments h ≡ ok (u, later)
      → Exited os arguments h later
  unfolding run_process
  run_process-Exited rounds arguments h later u e =
      elim (Option-cases (os.answer (fork_call arguments ∷ h)).count) [
        | inl failed ↦ absurd (cc (rw (failed, run_process) at e))
        | inr (child, went) ↦
            let (more, waited, status) =
              wait_loop-ok rounds (fork_call arguments ∷ h) later u (rw (went, run_process) at e) in
            record { more = more; waited = waited; status = status }
      ]
