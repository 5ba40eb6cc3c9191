-- ===== src/Runtime/Contents.antt =====
-- src/runtime.c: what `read_file` returns of a file.
use qlvgm.Prelude.{
  or-eq-false, ℕ, zero, suc, ◌+◌, ◌-◌, ◌≤◌, ◌<◌, ◌≡◌, refl, arith, ap, ap₂, sym, ◌∙◌, ltb, ltb→le,
  ◌==◌, Bool-cases, inl, inr, Bool, not, ◌||◌, none, some, subst, List, [], ◌∷◌, ◌++◌, length, take,
  drop, take-add, take-length, Result, ok, err, ◌>>=◌,
}
use qlvgm.Os.{
  Call, open_call, fstat_call, read_call, close_call, History, Os, succeeded, interrupted,
}
use qlvgm.Os.History.{interruptions, IsPatient, count-cases}
use qlvgm.Runtime.{
  FileError, never_ends, cannot_open, read_loop, close_file, read_contents, read_file,
}

-- How many bytes a call reads.
unfoldable pub read_by : Os → Call → History → ℕ → ℕ
read_by os (open_call path) h sum = 0
read_by os (read_call k) h sum = elim (os.answer (read_call k ∷ h)).count [
  | none ↦ sum
  | some n ↦ sum + n
]
read_by os c h sum = sum

-- How many bytes were read since a file was opened.
unfoldable pub position : Os → History → ℕ
position os [] = 0
position os (c ∷ h) = read_by os c h (position os h)

-- Reads of so many bytes at most, the last one first, behind the `open` and the `fstat` of a path.
abbrev pub after_reads : List ℕ → List ℕ → History → History
after_reads path [] h = fstat_call ∷ open_call path ∷ h
after_reads path (k ∷ asked) h = read_call k ∷ after_reads path asked h

-- What the system says of the file that an `open` of the path behind `h` gives, until it is closed: its
-- size is that of the contents, and each read gives the next bytes of them, no more than asked for.
-- Other files, and the same path at other times, may have any contents.
pub record Holds (os : Os) (path contents : List ℕ) (h : History) : Type 0 where
  pub sized : (os.answer (fstat_call ∷ open_call path ∷ h)).size ≡ length contents
  pub reads :
      (asked : List ℕ) (k n : ℕ)
      → let before = after_reads path asked h in
        (os.answer (read_call k ∷ before)).count ≡ some n
        → (n ≤ k)
          × ((os.answer (read_call k ∷ before)).bytes ≡ take n (drop (position os before) contents))

-- The contents, at most 16 MB of them, or an error of the system's.
pub Reads : List ℕ → Result (FileError × History) (List ℕ × History) → Type 0
Reads contents (ok (bytes, h)) = (bytes ≡ contents) × (length bytes ≤ 16777216)
Reads contents (err (never_ends, h)) = ⊥
Reads contents (err (e, h)) = Unit

Read : List ℕ → Result (FileError × History) (List ℕ × History) → Type 0
Read contents (ok (bytes, h)) = bytes ≡ contents
Read contents (err (never_ends, h)) = ⊥
Read contents (err (e, h)) = Unit

module _ (os : Os) (path contents : List ℕ) (n : ℕ) (start : History)
    (holds : Holds os path contents start) (patient : IsPatient n os) where
  position-none :
      (k : ℕ) (h : History)
      → (os.answer (read_call k ∷ h)).count ≡ none
      → position os (read_call k ∷ h) ≡ position os h
  unfolding position read_by
  position-none k h e = rw (e, read_by) refl

  position-some :
      (k m : ℕ) (h : History)
      → (os.answer (read_call k ∷ h)).count ≡ some m
      → position os (read_call k ∷ h) ≡ position os h + m
  unfolding position read_by
  position-some k m h e = rw (e, read_by) refl

  read_loop-Read :
      (rounds left : ℕ) (bytes asked : List ℕ)
      → let h = after_reads path asked start in
        bytes ≡ take (position os h) contents
        → position os h + left ≡ length contents
        → left + (n - interruptions os h) < rounds
        → Read contents (read_loop os rounds left bytes h)
  unfolding read_loop
  read_loop-Read zero left bytes asked so_far rest enough = absurd (omega arith)
  read_loop-Read (suc rounds) zero bytes asked so_far rest enough =
      let h = after_reads path asked start in
      let all : position os h ≡ length contents = omega (arith, rest) in
      unfold Read in so_far ∙ ap (λ k. take k contents) all ∙ take-length contents
  read_loop-Read (suc rounds) (suc left) bytes asked so_far rest enough =
      let h = after_reads path asked start in
      let c = read_call (suc left) in
      elim (count-cases (os.answer (c ∷ h)).count) [
        | inl failed ↦ elim (Bool-cases ((os.answer (c ∷ h)).errno == os.eintr)) [
          | inl signal ↦
              let once : interruptions os (c ∷ h) ≡ interruptions os h + 1 =
                unfold interruptions interrupted in rw (failed, signal) refl in
              let still : position os (c ∷ h) ≡ position os h = position-none (suc left) h failed in
              rw (failed, signal, read_loop)
                (read_loop-Read rounds (suc left) bytes (suc left ∷ asked)
                  (so_far ∙ ap (λ k. take k contents) (sym still)) (omega (arith, still, rest))
                  (omega (arith, once, patient (c ∷ h))))
          | inr other ↦ rw (failed, other, read_loop) (unfold Read in tt)
        ]
        | inr (inl nothing) ↦ rw (nothing, read_loop) (unfold Read in tt)
        | inr (inr (k, some_bytes)) ↦
            let (bounded, next) = holds.reads asked (suc left) (suc k) some_bytes in
            let unchanged : interruptions os (c ∷ h) ≡ interruptions os h + 0 =
              unfold interruptions interrupted in rw some_bytes refl in
            let moved : position os (c ∷ h) ≡ position os h + suc k =
              position-some (suc left) (suc k) h some_bytes in
            let longer : bytes ++ (os.answer (c ∷ h)).bytes ≡ take (position os (c ∷ h)) contents =
              ap₂ (λ (x y : List ℕ). x ++ y) so_far next
              ∙ take-add (position os h) (suc k) contents
              ∙ ap (λ m. take m contents) (sym moved) in
            rw (some_bytes, read_loop)
              (read_loop-Read rounds (left - k) _ (suc left ∷ asked) longer
                (omega (arith, moved, rest, bounded)) (omega (arith, unchanged)))
      ]

  start-at : [] ≡ take (position os (fstat_call ∷ open_call path ∷ start)) contents
  unfolding position read_by
  start-at = refl

  close-Reads :
      (r : Result (FileError × History) (List ℕ × History))
      → Read contents r
      → length contents ≤ 16777216
      → Reads contents (r >>= λ read. close_file os read)
  unfolding Read Reads close_file
  close-Reads (ok (bytes, h)) same small =
      elim (Bool-cases (succeeded (os.answer (close_call ∷ h)))) [
        | inl closed ↦ rw (closed, Reads) (same, subst (λ l. length l ≤ 16777216) (sym same) small)
        | inr failed ↦ rw (failed, Reads) tt
      ]
  close-Reads (err (never_ends, h)) never small = never
  close-Reads (err (e, h)) fine small = unfold Reads in tt

  -- On a system that interrupts `n` calls at most, where the file that this `open` of the path gives has
  -- the contents, for its `fstat` and for the reads until it is closed: `read_file`, with more than
  -- 2 ^ 24 + `n` rounds, returns exactly the contents, of at most 16 MB, or an error of its own; it
  -- always ends.
  pub read_file-Reads :
      (grants : ℕ → Bool) (rounds : ℕ)
      → 16777216 + n < rounds
      → Reads contents (read_file os grants rounds path start)
  unfolding read_file read_contents
  read_file-Reads grants rounds enough =
      let opened = open_call path ∷ start in
      let status = os.answer (fstat_call ∷ opened) in
      elim (os.answer opened).count
        as (λ r. Reads contents (elim r [
          | none ↦ err (cannot_open (os.answer opened).errno, opened)
          | some fd ↦ read_contents os grants rounds (fstat_call ∷ opened)
        ])) [
          | none ↦ unfold Reads in tt
          | some fd ↦ elim (Bool-cases (succeeded status)) [
            | inr failed ↦ rw failed (unfold Reads in tt)
            | inl went ↦ elim (Bool-cases (not status.regular || ltb 16777216 status.size)) [
              | inl other ↦ rw (went, other) (unfold Reads in tt)
              | inr regular ↦ elim (Bool-cases (grants (status.size + 1))) [
                | inr refused ↦ rw (went, regular, refused) (unfold Reads in tt)
                | inl granted ↦
                    let sized = holds.sized in
                    let (kind, most) =
                      or-eq-false (not status.regular) (ltb 16777216 status.size) regular in
                    let small = ltb→le 16777216 status.size most in
                    rw (went, regular, granted)
                      (close-Reads (read_loop os rounds status.size [] (fstat_call ∷ opened))
                        (read_loop-Read rounds status.size [] [] start-at
                          (unfold position read_by in omega (arith, sized)) (omega (arith, small)))
                        (omega (arith, sized, small)))
              ]
            ]
          ]
        ]
