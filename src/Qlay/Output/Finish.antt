-- ===== src/Qlay/Output/Finish.antt =====
-- src/qlay.c: how `qlay_output_finish` ends a file.
use qlvgm.Prelude.{
  ℕ, ◌≡◌, ◌⊎◌, inl, inr, refl, ap, ap₂, subst, sym, Bool-cases, List, [], ◌∷◌, ◌++◌, append-nil,
  true, false, Result, ok, err, ◌>>=◌,
}
use qlvgm.Os.{Call, fsync_call, close_call, rename_call, unlink_call, Os, History, succeeded}
use qlvgm.Os.History.{written, Kept}
use qlvgm.Qlay.Output.{
  Output, Step, ImageError, cannot_write, never_ends, flush_bytes, flush_rest, checked, known_error,
  close_output, rename_output, end_output, output_finish, make_call, last_answer, out_of_rounds,
  write_failed, errno_or_eio,
}
use qlvgm.Qlay.Output.Writes.{
  Same, Same-trans, Same-refl, Leaves, Writes, write_bytes-Writes, content,
}

abbrev pub Done : Os → Call → History → Type 0
Done os c h = succeeded (os.answer (c ∷ h)) ≡ true

-- How a file that was to hold `bytes` ends. It is put in its place by the last call, behind a
-- successful fsync and close of all its bytes; or it is removed by the last call and nothing was
-- put in its place.
unfoldable pub Finished : Os → Output → List ℕ → Result (ImageError × Output) Output → Type 0
Finished os o bytes (ok o') =
    (h : History) × (o'.history ≡ rename_call o.temporary_path o.path ∷ close_call ∷ fsync_call ∷ h)
    × (written os h ≡ bytes)
    × Done os fsync_call h
    × Done os close_call (fsync_call ∷ h)
    × Done os (rename_call o.temporary_path o.path) (close_call ∷ fsync_call ∷ h)
    × (Kept os o.history → Kept os h)
Finished os o bytes (err (cannot_write e, o')) =
    (h : History) × (o'.history ≡ unlink_call o.temporary_path ∷ h)
    × (Kept os o.history → Kept os h)
Finished os o bytes (err (never_ends, o')) = Kept os o.history → Kept os o'.history
Finished os o bytes (err (e, o')) = ⊥

Flushed : Os → Output → List ℕ → Step → Type 0
Flushed os o bytes (ok o') = (written os o'.history ≡ bytes) × Same os o o'
Flushed os o bytes (err (stop, o')) = Same os o o'

Synced : Os → Output → List ℕ → Step → Type 0
Synced os o bytes (ok o') =
    (h : History) × (o'.history ≡ fsync_call ∷ h)
    × (written os h ≡ bytes)
    × Done os fsync_call h
    × Same os o o'
    × (Kept os o.history → Kept os h)
Synced os o bytes (err (stop, o')) = Same os o o'

Closed : Os → Output → List ℕ → Step → Type 0
Closed os o bytes (ok o') =
    (h : History) × (o'.history ≡ close_call ∷ fsync_call ∷ h)
    × (written os h ≡ bytes)
    × Done os fsync_call h
    × Done os close_call (fsync_call ∷ h)
    × Same os o o'
    × (Kept os o.history → Kept os h)
Closed os o bytes (err (stop, o')) = Same os o o'

Renamed : Os → Output → List ℕ → Step → Type 0
Renamed os o bytes (ok o') = Finished os o bytes (ok o')
Renamed os o bytes (err (stop, o')) = Same os o o'

checked-cases :
    (os : Os) (c : Call) (o : Output)
    → ((succeeded (last_answer os (make_call c o)) ≡ true) × (checked os c o ≡ ok (make_call c o)))
      ⊎ ((e : ℕ) × (succeeded (last_answer os (make_call c o)) ≡ false)
          × (checked os c o ≡ err (write_failed e, make_call c o)))
unfolding checked
checked-cases os c o = elim (Bool-cases (succeeded (last_answer os (make_call c o)))) [
  | inl went ↦ inl (went, rw went refl)
  | inr failed ↦ inr (errno_or_eio os (last_answer os (make_call c o)), failed, rw failed refl)
]

emptied-Flushed :
    (os : Os) (o : Output) (bytes : List ℕ) (s : Step)
    → Writes os o bytes s
    → Flushed os o (written os o.history ++ bytes) (s >>= λ o'. ok (record o' { buffered = [] }))
unfolding Writes Flushed
emptied-Flushed os o bytes (ok o') (more, keep, same) =
    (more, record { path = same.path; temporary_path = same.temporary_path; kept = same.kept })
emptied-Flushed os o bytes (err (stop, o')) same = same

flush_bytes-Flushed :
    (os : Os) (rounds : ℕ) (bytes : List ℕ) (o : Output)
    → Flushed os o (written os o.history ++ bytes) (flush_bytes os rounds bytes o)
unfolding flush_bytes Flushed
flush_bytes-Flushed os rounds [] o = (sym (append-nil (written os o.history)), Same-refl os o)
flush_bytes-Flushed os rounds (b ∷ bytes) o =
    emptied-Flushed os o (b ∷ bytes) _ (write_bytes-Writes os rounds (b ∷ bytes) o)

flush_rest-Flushed :
    (os : Os) (rounds : ℕ) (o : Output) → Flushed os o (content os o) (flush_rest os rounds o)
unfolding flush_rest
flush_rest-Flushed os rounds o = flush_bytes-Flushed os rounds o.buffered o

Flushed-from :
    (os : Os) (o o' : Output) (bytes : List ℕ) (s : Step)
    → Same os o o'
    → Flushed os o' bytes s
    → Flushed os o bytes s
unfolding Flushed
Flushed-from os o o' bytes (ok o'') same (all, also) = (all, Same-trans os o o' o'' same also)
Flushed-from os o o' bytes (err (stop, o'')) same also = Same-trans os o o' o'' same also

sync-Synced :
    (os : Os) (o : Output) (bytes : List ℕ) (s : Step)
    → Flushed os o bytes s
    → Synced os o bytes (s >>= λ o'. checked os fsync_call o')
unfolding Flushed Synced Kept make_call
sync-Synced os o bytes (ok o') (all, same) =
    let moved : Same os o (make_call fsync_call o') = record {
      path = same.path;
      temporary_path = same.temporary_path;
      kept = same.kept;
    } in
    elim (checked-cases os fsync_call o') [
      | inl (went, e) ↦
          subst (Synced os o bytes) (sym e) (o'.history, refl, all, went, moved, same.kept)
      | inr (code, failed, e) ↦ subst (Synced os o bytes) (sym e) moved
    ]
sync-Synced os o bytes (err (stop, o')) same = same

close-Closed :
    (os : Os) (o : Output) (bytes : List ℕ) (s : Step)
    → Synced os o bytes s
    → Closed os o bytes (close_output os s)
unfolding Synced Closed close_output Kept make_call
close-Closed os o bytes (ok o') (h, last, all, synced, same, kept) =
    let moved : Same os o (make_call close_call o') = record {
      path = same.path;
      temporary_path = same.temporary_path;
      kept = same.kept;
    } in
    elim (checked-cases os close_call o') [
      | inl (went, e) ↦ subst (Closed os o bytes) (sym e) (
        h,
        ap (◌∷◌ close_call) last,
        all,
        synced,
        subst (Done os close_call) last went,
        moved,
        kept,
      )
      | inr (code, failed, e) ↦ subst (Closed os o bytes) (sym e) moved
    ]
close-Closed os o bytes (err (write_failed e, o')) same = record {
  path = same.path;
  temporary_path = same.temporary_path;
  kept = same.kept;
}
close-Closed os o bytes (err (out_of_rounds, o')) same = same

rename-Renamed :
    (os : Os) (o : Output) (bytes : List ℕ) (s : Step)
    → Closed os o bytes s
    → Renamed os o bytes (rename_output os s)
unfolding Closed Renamed Finished rename_output Kept make_call
rename-Renamed os o bytes (ok o') (h, last, all, synced, closed, same, kept) =
    let c = rename_call o'.temporary_path o'.path in
    let call_eq : c ≡ rename_call o.temporary_path o.path =
      ap₂ rename_call same.temporary_path same.path in
    elim (checked-cases os c o') [
      | inl (went, e) ↦ subst (Renamed os o bytes) (sym e) (
        h,
        ap₂ (λ (x : Call) (y : History). x ∷ y) call_eq last,
        all,
        synced,
        closed,
        subst (λ x. Done os x (close_call ∷ fsync_call ∷ h)) call_eq (subst (Done os c) last went),
        kept,
      )
      | inr (code, failed, e) ↦ subst (Renamed os o bytes) (sym e) (record {
        path = same.path;
        temporary_path = same.temporary_path;
        kept = λ k. (failed, same.kept k);
      })
    ]
rename-Renamed os o bytes (err (stop, o')) same = same

end-Finished :
    (os : Os) (o : Output) (bytes : List ℕ) (s : Step)
    → Renamed os o bytes s
    → Finished os o bytes (end_output s)
unfolding Renamed Finished end_output Kept make_call
end-Finished os o bytes (ok o') done = done
end-Finished os o bytes (err (write_failed e, o')) same =
    (o'.history, ap (λ p. unlink_call p ∷ o'.history) same.temporary_path, same.kept)
end-Finished os o bytes (err (out_of_rounds, o')) same = same.kept

flush_and_sync-Synced :
    (os : Os) (rounds : ℕ) (o : Output) (bytes : List ℕ) (s : Step)
    → Leaves os o bytes s
    → Synced os o bytes
        (known_error os s >>= λ o'. flush_rest os rounds o' >>= λ o''. checked os fsync_call o'')
unfolding Leaves known_error Synced
flush_and_sync-Synced os rounds o bytes (ok o') (all, same) =
    subst (λ l. Synced os o l (flush_rest os rounds o' >>= λ o''. checked os fsync_call o'')) all
      (sync-Synced os o (content os o') _
        (Flushed-from os o o' _ _ same (flush_rest-Flushed os rounds o')))
flush_and_sync-Synced os rounds o bytes (err (write_failed e, o')) same = same
flush_and_sync-Synced os rounds o bytes (err (out_of_rounds, o')) same = same

-- `qlay_output_finish` behind writes that leave `bytes` in the file and the buffer when they do not
-- fail: either the system's last call puts the file in its place, behind a successful fsync and
-- close of a file with exactly these bytes; or the call removes the temporary file last, or the
-- rounds of the model are used up, and it has put nothing in any file's place.
pub output_finish-Finished :
    (os : Os) (rounds : ℕ) (o : Output) (bytes : List ℕ) (rendered : Step)
    → Leaves os o bytes rendered
    → Finished os o bytes (output_finish os rounds rendered)
unfolding output_finish
output_finish-Finished os rounds o bytes rendered leaves = end-Finished os o bytes _ (
    rename-Renamed os o bytes _
      (close-Closed os o bytes _ (flush_and_sync-Synced os rounds o bytes rendered leaves)))
