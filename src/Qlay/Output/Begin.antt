-- ===== src/Qlay/Output/Begin.antt =====
-- src/qlay.c: how `qlay_output_begin` starts a file.
use qlvgm.Prelude.{
  ℕ, ◌≤◌, ◌≡◌, ◌⊎◌, inl, inr, refl, Bool-cases, List, [], ◌∷◌, ◌++◌, length, append-nil, true,
  false, Bool, not, ◌&&◌, ltb, leb, Result, ok, err, ◌>>=◌, checks5-eq-ok, ==→eq, ltb→le, ◌==◌,
  none, some,
}
use qlvgm.Os.{lstat_call, mkstemp_call, fchmod_call, Os, History, Answer, succeeded}
use qlvgm.Os.History.{written, added, Kept}
use qlvgm.Qlay.Output.{
  Output, ImageError, output_begin, output_checks, with_output, create_temporary, with_mode,
  set_mode, make_call, last_answer, temporary_suffix, cannot_create_temporary, errno_or_eio,
}
use qlvgm.Qlay.Output.Writes.{content}

-- A file that was begun holds nothing yet, and nothing was put in any file's place.
unfoldable pub Begun : Os → List ℕ → History → Result (ImageError × Output) Output → Type 0
Begun os path h (ok o) =
    (o.path ≡ path) × (content os o ≡ written os h) × (Kept os h → Kept os o.history)
Begun os path h (err (e, o)) =
    (written os o.history ≡ written os h) × (Kept os h → Kept os o.history)

set_mode-Begun :
    (os : Os) (path : List ℕ) (h : History) (mode : ℕ) (o : Output)
    → o.buffered ≡ []
    → o.path ≡ path
    → written os o.history ≡ written os h
    → (Kept os h → Kept os o.history)
    → Begun os path h (set_mode os mode o)
unfolding set_mode Begun make_call written added Kept
set_mode-Begun os path h mode o empty same nothing kept =
    elim (Bool-cases (succeeded (os.answer (fchmod_call mode ∷ o.history)))) [
      | inl went ↦ rw (went, Begun) (same, simp (append-nil, empty) nothing, kept)
      | inr failed ↦ rw (failed, Begun) (simp append-nil nothing, kept)
    ]

-- A temporary file was made.
with_mode-Begun :
    (os : Os) (path : List ℕ) (h : History) (exists : Bool) (existing : Answer) (o : Output)
    → o.buffered ≡ []
    → o.path ≡ path
    → written os o.history ≡ written os h
    → (Kept os h → Kept os o.history)
    → Begun os path h (with_mode os exists existing o)
unfolding with_mode make_call written added Kept
with_mode-Begun os path h true existing o empty same nothing kept =
    set_mode-Begun os path h _ o empty same nothing kept
with_mode-Begun os path h false existing o empty same nothing kept =
    set_mode-Begun os path h _ _ empty same (simp append-nil nothing) kept

create_temporary-Begun :
    (os : Os) (path : List ℕ) (h : History) (exists : Bool) (existing : Answer) (o : Output)
    → o.buffered ≡ []
    → o.path ≡ path
    → written os o.history ≡ written os h
    → (Kept os h → Kept os o.history)
    → Begun os path h (create_temporary os exists existing o)
unfolding create_temporary make_call written added Kept
create_temporary-Begun os path h exists existing o empty same nothing kept =
    let asked = make_call (mkstemp_call (o.path ++ temporary_suffix)) o in
    elim (last_answer os asked).count
      as (λ r. Begun os path h (elim r [
        | none ↦ err (cannot_create_temporary (errno_or_eio os (last_answer os asked)), asked)
        | some fd ↦
            with_mode os exists existing
              (record asked { temporary_path = (last_answer os asked).bytes })
      ])) [
        | none ↦ unfold Begun in (simp append-nil nothing, kept)
        | some fd ↦
            with_mode-Begun os path h exists existing _ empty same (simp append-nil nothing) kept
      ]

pub output_begin-Begun :
    (os : Os) (path : List ℕ) (force : Bool) (h : History)
    → Begun os path h (output_begin os path force h)
unfolding output_begin make_call with_output written added Kept
output_begin-Begun os path force h =
    let start : Output = record { path = path; temporary_path = []; buffered = []; history = h } in
    let asked = make_call (lstat_call path) start in
    let existing = last_answer os asked in
    elim (output_checks os path force existing)
      as (λ r.
        Begun os path h
          (with_output r asked >>= λ o. create_temporary os (succeeded existing) existing o)) [
            | ok u ↦
                create_temporary-Begun os path h _ _ asked refl refl (append-nil (written os h))
                  (λ k. k)
            | err e ↦ unfold Begun in (append-nil (written os h), λ k. k)
          ]

and_not : (a b : Bool) → a && not b ≡ false → a ≡ true → b ≡ true
and_not true true h there = refl
and_not true false h there = cc
and_not false b h there = cc

neither : (a b : Bool) → not a && not b ≡ false → a ≡ false → b ≡ true
neither a true h missing = refl
neither true false h missing = cc
neither false false h missing = cc

-- When the tests let pass: the target is missing, or it is a regular file that may be replaced; and
-- its path has 4084 bytes at most.
pub output_checks-eq-ok :
    (os : Os) (path : List ℕ) (force : Bool) (existing : Answer) (u : Unit {0})
    → output_checks os path force existing ≡ ok u
    → (((succeeded existing ≡ false) × (existing.errno ≡ os.enoent))
        ⊎ ((succeeded existing ≡ true) × (existing.regular ≡ true) × (force ≡ true)))
      × (length path ≤ 4084)
unfolding output_checks
output_checks-eq-ok os path force existing u e =
    let (known, forced, kind, short, whole) =
      checks5-eq-ok (not (succeeded existing) && not (existing.errno == os.enoent))
        (succeeded existing && not force) (succeeded existing && not existing.regular)
        (ltb 4084 (length path)) (leb 4096 (length (path ++ temporary_suffix))) _ _ _ _ _ e in
    (
      elim (Bool-cases (succeeded existing)) [
        | inl there ↦ inr (there, and_not _ _ kind there, and_not _ _ forced there)
        | inr missing ↦ inl (missing, ==→eq _ _ (neither _ _ known missing))
      ],
      ltb→le _ _ short,
    )
