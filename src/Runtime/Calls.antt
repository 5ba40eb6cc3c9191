-- ===== src/Runtime/Calls.antt =====
-- src/runtime.c: the calls of `read_file` write nothing.
use qlvgm.Prelude.{
  Bool, ℕ, zero, suc, ◌+◌, ◌-◌, ◌==◌, not, ◌||◌, ltb, Bool-cases, inl, inr, Option-cases, List, [],
  ◌∷◌,
}
use qlvgm.Os.{open_call, fstat_call, read_call, close_call, History, Os, succeeded}
use qlvgm.Os.History.{count-cases}
use qlvgm.Os.Plain.{Plain-refl, Plain-trans, Plain-call, Plainly, Plainly-after, Plainly-then}
use qlvgm.Runtime.{read_loop, close_file, read_contents, read_file, max_input_bytes}

module _ (os : Os) where
  read_loop-Plainly :
      (rounds left : ℕ) (bytes : List ℕ) (h : History)
      → Plainly os h (read_loop os rounds left bytes h)
  unfolding read_loop
  read_loop-Plainly zero left bytes h = Plain-refl os h
  read_loop-Plainly (suc rounds) zero bytes h = Plain-refl os h
  read_loop-Plainly (suc rounds) (suc left) bytes h =
      let asked = read_call (suc left) ∷ h in
      let plain = Plain-call os (read_call (suc left)) h tt in
      let closed = Plain-trans plain (Plain-call os close_call asked tt) in
      elim (count-cases (os.answer asked).count) [
        | inl failed ↦ elim (Bool-cases ((os.answer asked).errno == os.eintr)) [
          | inl signal ↦
              rw (failed, signal, read_loop)
                (Plainly-after os h asked (read_loop os rounds (suc left) bytes asked) plain
                  (read_loop-Plainly rounds (suc left) bytes asked))
          | inr other ↦ rw (failed, other, read_loop) closed
        ]
        | inr (inl nothing) ↦ rw (nothing, read_loop) closed
        | inr (inr (n, went)) ↦
            rw (went, read_loop)
              (Plainly-after os h asked (read_loop os rounds (left - n) _ asked) plain
                (read_loop-Plainly rounds (left - n) _ asked))
      ]

  close_file-Plainly : (bytes : List ℕ) (h : History) → Plainly os h (close_file os (bytes, h))
  unfolding close_file
  close_file-Plainly bytes h = elim (Bool-cases (succeeded (os.answer (close_call ∷ h)))) [
    | inl went ↦ rw (went) (Plain-call os close_call h tt)
    | inr failed ↦ rw (failed) (Plain-call os close_call h tt)
  ]

  read_contents-Plainly :
      (grants : ℕ → Bool) (rounds : ℕ) (h : History)
      → Plainly os h (read_contents os grants rounds h)
  unfolding read_contents
  read_contents-Plainly grants rounds h =
      let status = os.answer h in
      let closed = Plain-call os close_call h tt in
      elim (Bool-cases (succeeded status)) [
        | inr failed ↦ rw (failed) closed
        | inl went ↦ elim (Bool-cases (not status.regular || ltb max_input_bytes status.size)) [
          | inl other ↦ rw (went, other) closed
          | inr regular ↦ elim (Bool-cases (grants (status.size + 1))) [
            | inr refused ↦ rw (went, regular, refused) closed
            | inl granted ↦
                rw (went, regular, granted)
                  (Plainly-then os h (read_loop os rounds status.size [] h)
                    (λ read. close_file os read) (read_loop-Plainly rounds status.size [] h)
                    close_file-Plainly)
          ]
        ]
      ]

  pub read_file-Plainly :
      (grants : ℕ → Bool) (rounds : ℕ) (path : List ℕ) (h : History)
      → Plainly os h (read_file os grants rounds path h)
  unfolding read_file
  read_file-Plainly grants rounds path h =
      let asked = open_call path ∷ h in
      let opened = Plain-call os (open_call path) h tt in
      elim (Option-cases (os.answer asked).count) [
        | inl failed ↦ rw (failed, read_file) opened
        | inr (fd, went) ↦
            rw (went, read_file)
              (Plainly-after os h (fstat_call ∷ asked)
                (read_contents os grants rounds (fstat_call ∷ asked))
                (Plain-trans opened (Plain-call os fstat_call asked tt))
                (read_contents-Plainly grants rounds (fstat_call ∷ asked)))
      ]
