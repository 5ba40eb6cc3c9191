-- ===== src/Qlay/Create/Answers.antt =====
-- src/qlay.c: how `qlay_write_image` answers.
use qlvgm.Prelude.{
  ℕ, ◌+◌, ◌<◌, ◌≡◌, inl, inr, refl, arith, ap, subst, Bool, Bool-cases, true, false, List, [], ◌++◌,
  length, length-append, Result, ok, err, ◌>>=◌, ErrorIs, checks4-ErrorIs, checks5-ErrorIs, none,
  some,
}
use qlvgm.Os.{lstat_call, rename_call, mkstemp_call, fchmod_call, Os, Answer, History, succeeded}
use qlvgm.Os.History.{written, IsPatient}
use qlvgm.Qlay.Image.{CartridgeFile, layout_files}
use qlvgm.Qlay.Output.{
  Output, Step, ImageError, write_failed, out_of_rounds, never_ends, make_call, last_answer,
  rename_output, end_output, output_finish, output_begin, output_checks, with_output,
  create_temporary, with_mode, set_mode, temporary_suffix, cannot_create_temporary, errno_or_eio,
}
use qlvgm.Qlay.Output.Begin.{Begun, output_begin-Begun}
use qlvgm.Qlay.Create.{image_checks, write_image, render_image}
use qlvgm.Qlay.Create.Rounds.{
  Ends, Ends-then, write_sectors-Room, checked-Ends, flushed-Ends, close-Ends,
}

-- An error that is not the model's.
IsAnswer : ImageError → Type 0
IsAnswer never_ends = ⊥
IsAnswer e = Unit

pub Answered : Result (ImageError × Output) Output → Type 0
Answered (ok o) = Unit
Answered (err (e, o)) = IsAnswer e

end-Answered : (s : Step) → Ends s → Answered (end_output s)
unfolding Ends end_output Answered IsAnswer
end-Answered (ok o) ends = tt
end-Answered (err (write_failed e, o)) ends = tt
end-Answered (err (out_of_rounds, o)) ends = ends

with_output-Answered :
    (r : Result ImageError (Unit {0})) (o : Output)
    → ErrorIs IsAnswer r
    → Answered (with_output r o)
unfolding with_output Answered
with_output-Answered (ok u) o answers = tt
with_output-Answered (err e) o answers = answers

Answered-then :
    (r : Result (ImageError × Output) Output) (next : Output → Result (ImageError × Output) Output)
    → Answered r
    → ((o : Output) → r ≡ ok o → Answered (next o))
    → Answered (r >>= next)
unfolding Answered
Answered-then (ok o) next answers rest = rest o refl
Answered-then (err (e, o)) next answers rest = answers

set_mode-Answered : (os : Os) (mode : ℕ) (o : Output) → Answered (set_mode os mode o)
unfolding set_mode
set_mode-Answered os mode o =
    elim (Bool-cases (succeeded (last_answer os (make_call (fchmod_call mode) o)))) [
      | inl went ↦ rw went (unfold Answered in tt)
      | inr failed ↦ rw failed (unfold Answered IsAnswer in tt)
    ]

with_mode-Answered :
    (os : Os) (exists : Bool) (existing : Answer) (o : Output)
    → Answered (with_mode os exists existing o)
unfolding with_mode
with_mode-Answered os true existing o = set_mode-Answered os _ o
with_mode-Answered os false existing o = set_mode-Answered os _ _

create_temporary-Answered :
    (os : Os) (exists : Bool) (existing : Answer) (o : Output)
    → Answered (create_temporary os exists existing o)
unfolding create_temporary
create_temporary-Answered os exists existing o =
    let asked = make_call (mkstemp_call (o.path ++ temporary_suffix)) o in
    elim (last_answer os asked).count
      as (λ r. Answered (elim r [
        | none ↦ err (cannot_create_temporary (errno_or_eio os (last_answer os asked)), asked)
        | some fd ↦
            with_mode os exists existing
              (record asked { temporary_path = (last_answer os asked).bytes })
      ])) [
        | none ↦ unfold Answered IsAnswer in tt
        | some fd ↦ with_mode-Answered os exists existing _
      ]

output_begin-Answered :
    (os : Os) (path : List ℕ) (force : Bool) (h : History) → Answered (output_begin os path force h)
unfolding output_begin output_checks
output_begin-Answered os path force h =
    let asked : Output =
      make_call (lstat_call path)
        (record { path = path; temporary_path = []; buffered = []; history = h }) in
    let existing = last_answer os asked in
    Answered-then (with_output (output_checks os path force existing) asked) _
      (with_output-Answered (output_checks os path force existing) asked
        (unfold IsAnswer in checks5-ErrorIs IsAnswer _ _ _ _ _ _ _ _ _ _ (tt, tt, tt, tt, tt)))
      (λ o e. create_temporary-Answered os (succeeded existing) existing o)

-- A file that was begun has an empty buffer.
Begun-buffered :
    (os : Os) (path : List ℕ) (r : Result (ImageError × Output) Output) (o : Output)
    → Begun os path [] r
    → r ≡ ok o
    → length o.buffered ≡ 0
unfolding Begun written
Begun-buffered os path r o begun e =
    let opened : Begun os path [] (ok o) = subst (Begun os path []) e begun in
    let (same, empty, kept) = opened in
    omega (arith, ap length empty, length-append (written os o.history) o.buffered)

-- When the system interrupts `n` calls at most, `qlay_write_image` ends, with success or with an
-- error of its own, whatever else the system answers: its write loops need 4097 + `n` rounds at
-- most.
pub write_image-Answered :
    (os : Os) (n rounds : ℕ) (path : List ℕ) (force : Bool) (sectors random_id : ℕ)
    (medium_name : List ℕ) (files : List CartridgeFile)
    → IsPatient n os
    → 4096 + n < rounds
    → Answered (write_image os rounds path force sectors medium_name random_id files [])
unfolding write_image image_checks render_image output_finish rename_output
write_image-Answered os n rounds path force sectors random_id medium_name files patient enough =
    let unopened : Output = record {
      path = path;
      temporary_path = [];
      buffered = [];
      history = [];
    } in
    Answered-then (with_output (image_checks sectors files) unopened) _
      (with_output-Answered (image_checks sectors files) unopened
        (unfold IsAnswer in checks4-ErrorIs IsAnswer _ _ _ _ _ _ _ _ (tt, tt, tt, tt)))
      (λ u e.
        Answered-then (output_begin os path force []) _ (output_begin-Answered os path force [])
          (λ o begun. end-Answered _ (
            Ends-then _ _
              (close-Ends os n patient rounds enough _ (
                flushed-Ends os n patient rounds enough _ (
                  write_sectors-Room os n patient rounds enough sectors random_id medium_name files
                    (layout_files sectors files) sectors 0 o
                    (omega (
                      arith,
                      Begun-buffered os path (output_begin os path force []) o
                          (output_begin-Begun os path force []) begun,
                    )))))
              (λ o'.
                checked-Ends os n patient rounds enough (rename_call o'.temporary_path o'.path)
                  o'))))
