-- ===== src/Qlay/RandomId/Drawn.antt =====
-- src/qlay.c: the number that `qlay_random_id` draws, and the calls that it makes.
use qlvgm.Prelude.{ℕ, zero, suc, ◌+◌, ◌-◌, ◌^◌, ◌<◌, ◌≡◌, refl, arith, ◌==◌}
use qlvgm.Prelude.{
  Option, none, some, List, [], ◌∷◌, Result, ok, err, ◌>>=◌, Bool-cases, Option-cases, inl, inr,
}
use qlvgm.Os.{open_call, read_call, close_call, time_call, getpid_call, History, Os, interrupted}
use qlvgm.Os.History.{interruptions, IsPatient, count-cases}
use qlvgm.Os.Plain.{
  Plain, Plain-refl, Plain-trans, Plain-call, Plainly, Plainly-after, Plainly-then,
}
use qlvgm.Qlay.RandomId.{RandomError, random_path, read_random, mixed_id, after_read, random_id}

-- A number of 16 bits, drawn with no write and no rename.
unfoldable pub Drawn : Os → History → Result (RandomError × History) (ℕ × History) → Type 0
Drawn os h (ok (id, later)) = (id < 2 ^ 16) × Plain os h later
Drawn os h (err e) = ⊥

module _ (os : Os) where
  mixed_id-Plain : (h : History) → ((mixed_id os h).0 < 2 ^ 16) × Plain os h (mixed_id os h).1
  unfolding mixed_id
  mixed_id-Plain h = (
    omega arith,
    Plain-trans (Plain-call os time_call h tt) (Plain-call os getpid_call (time_call ∷ h) tt),
  )

  after_read-Plain :
      (bytes : Option (List ℕ)) (h : History)
      → ((after_read os (bytes, h)).0 < 2 ^ 16) × Plain os h (after_read os (bytes, h)).1
  unfolding after_read
  after_read-Plain (some bytes) h = (omega arith, Plain-call os close_call h tt)
  after_read-Plain none h =
      let (small, plain) = mixed_id-Plain (close_call ∷ h) in
      (small, Plain-trans (Plain-call os close_call h tt) plain)

  -- What the loop leaves, when it ends.
  Read : History → Result (RandomError × History) (Option (List ℕ) × History) → Type 0
  Read h (ok (bytes, later)) = Plain os h later
  Read h (err e) = ⊥

  Read-after :
      (h later : History) (r : Result (RandomError × History) (Option (List ℕ) × History))
      → Plain os h later
      → Read later r
      → Read h r
  unfolding Read
  Read-after h later (ok (bytes, last)) p q = Plain-trans p q
  Read-after h later (err e) p q = q

  read_random-Read :
      (n rounds left : ℕ) (bytes : List ℕ) (h : History)
      → IsPatient n os
      → left + (n - interruptions os h) < rounds
      → Read h (read_random os rounds left bytes h)
  unfolding read_random Read
  read_random-Read n zero left bytes h patient enough = absurd (omega arith)
  read_random-Read n (suc rounds) zero bytes h patient enough = Plain-refl os h
  read_random-Read n (suc rounds) (suc left) bytes h patient enough =
      let c = read_call (suc left) in
      let plain = Plain-call os c h tt in
      elim (count-cases (os.answer (c ∷ h)).count) [
        | inl failed ↦ elim (Bool-cases ((os.answer (c ∷ h)).errno == os.eintr)) [
          | inl signal ↦
              let once : interruptions os (c ∷ h) ≡ interruptions os h + 1 =
                unfold interruptions interrupted in rw (failed, signal) refl in
              rw (failed, signal, read_random)
                (Read-after h (c ∷ h) (read_random os rounds (suc left) bytes (c ∷ h)) plain (
                  read_random-Read n rounds (suc left) bytes (c ∷ h) patient
                    (omega (arith, once, patient (c ∷ h)))))
          | inr other ↦ rw (failed, other, read_random) plain
        ]
        | inr (inl nothing) ↦ rw (nothing, read_random) plain
        | inr (inr (k, some_bytes)) ↦
            let unchanged : interruptions os (c ∷ h) ≡ interruptions os h + 0 =
              unfold interruptions interrupted in rw some_bytes refl in
            rw (some_bytes, read_random)
              (Read-after h (c ∷ h) (read_random os rounds (left - k) _ (c ∷ h)) plain
                (read_random-Read n rounds (left - k) _ (c ∷ h) patient (omega (arith, unchanged))))
      ]

  read-Drawn :
      (h later : History) (r : Result (RandomError × History) (Option (List ℕ) × History))
      → Plain os h later
      → Read later r
      → Drawn os h (r >>= λ read. ok (after_read os read))
  unfolding Read Drawn
  read-Drawn h later (ok (bytes, last)) p q =
      let (small, plain) = after_read-Plain bytes last in
      (small, Plain-trans (Plain-trans p q) plain)
  read-Drawn h later (err e) p q = q

  -- When the system interrupts `n` calls at most, `random_id` ends in 3 + `n` rounds: it draws a number
  -- below 2 ^ 16, whether the system has entropy or not and wherever a call fails, and it writes
  -- nothing and puts no file in the place of another.
  pub random_id-Drawn :
      (n rounds : ℕ) (h : History)
      → IsPatient n os
      → 2 + n < rounds
      → Drawn os h (random_id os rounds h)
  unfolding random_id Drawn
  random_id-Drawn n rounds h patient enough =
      let asked = open_call random_path ∷ h in
      let opened = Plain-call os (open_call random_path) h tt in
      elim (os.answer asked).count
        as (λ r. Drawn os h (elim r [
          | none ↦ ok (mixed_id os asked)
          | some fd ↦ read_random os rounds 2 [] asked >>= λ read. ok (after_read os read)
        ])) [
          | none ↦ let (small, plain) = mixed_id-Plain asked in (small, Plain-trans opened plain)
          | some fd ↦
              read-Drawn h asked (read_random os rounds 2 [] asked) opened
                (read_random-Read n rounds 2 [] asked patient (omega arith))
        ]

  -- Without a bound on the interruptions, and on any number of rounds.
  read_random-Plainly :
      (rounds left : ℕ) (bytes : List ℕ) (h : History)
      → Plainly os h (read_random os rounds left bytes h)
  unfolding read_random
  read_random-Plainly zero left bytes h = Plain-refl os h
  read_random-Plainly (suc rounds) zero bytes h = Plain-refl os h
  read_random-Plainly (suc rounds) (suc left) bytes h =
      let asked = read_call (suc left) ∷ h in
      let plain = Plain-call os (read_call (suc left)) h tt in
      elim (count-cases (os.answer asked).count) [
        | inl failed ↦ elim (Bool-cases ((os.answer asked).errno == os.eintr)) [
          | inl signal ↦
              rw (failed, signal, read_random)
                (Plainly-after os h asked (read_random os rounds (suc left) bytes asked) plain
                  (read_random-Plainly rounds (suc left) bytes asked))
          | inr other ↦ rw (failed, other, read_random) plain
        ]
        | inr (inl nothing) ↦ rw (nothing, read_random) plain
        | inr (inr (n, went)) ↦
            rw (went, read_random)
              (Plainly-after os h asked (read_random os rounds (left - n) _ asked) plain
                (read_random-Plainly rounds (left - n) _ asked))
      ]

  pub random_id-Plainly : (rounds : ℕ) (h : History) → Plainly os h (random_id os rounds h)
  unfolding random_id
  random_id-Plainly rounds h =
      let asked = open_call random_path ∷ h in
      let opened = Plain-call os (open_call random_path) h tt in
      elim (Option-cases (os.answer asked).count) [
        | inl failed ↦ rw (failed, random_id) (Plain-trans opened (mixed_id-Plain asked).1)
        | inr (fd, went) ↦
            rw (went, random_id)
              (Plainly-then os h (read_random os rounds 2 [] asked)
                (λ read. ok (after_read os read))
                (Plainly-after os h asked (read_random os rounds 2 [] asked) opened
                  (read_random-Plainly rounds 2 [] asked))
                λ bytes later. (after_read-Plain bytes later).1)
      ]
