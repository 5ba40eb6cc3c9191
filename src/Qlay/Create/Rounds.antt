-- ===== src/Qlay/Create/Rounds.antt =====
-- src/qlay.c: how many rounds the loops of `qlay_write_image` need.
use qlvgm.Prelude.{
  ℕ, zero, suc, ◌+◌, ◌-◌, ◌≤◌, ◌<◌, ◌≡◌, inl, inr, refl, arith, Bool-cases, ◌==◌, ==→ne, List, [],
  ◌∷◌, ◌++◌, length, length-append, length-take, length-drop, take, drop, ok, err, ◌>>=◌,
}
use qlvgm.Os.{Call, write_call, fsync_call, close_call, Os, succeeded, interrupted}
use qlvgm.Os.History.{count-cases, interruptions, IsPatient}
use qlvgm.Qlay.Image.{CartridgeFile, Layout, sector_of, logical_of}
use qlvgm.Qlay.Output.{
  Output, Step, write_failed, out_of_rounds, make_call, last_answer, write_bytes, flush_full,
  write_loop, output_write, flush_bytes, flush_rest, checked, known_error, close_output,
}
use qlvgm.Qlay.Create.{write_sectors}

-- A step that is not out of rounds and leaves room in the buffer.
unfoldable pub Room : Step → Type 0
Room (ok o) = length o.buffered < 4096
Room (err (write_failed e, o)) = Unit
Room (err (out_of_rounds, o)) = ⊥

-- A step that is not out of rounds.
unfoldable pub Ends : Step → Type 0
Ends (ok o) = Unit
Ends (err (write_failed e, o)) = Unit
Ends (err (out_of_rounds, o)) = ⊥

Room-then :
    (s : Step) (next : Output → Step)
    → Room s
    → ((o : Output) → length o.buffered < 4096 → Room (next o))
    → Room (s >>= next)
unfolding Room
Room-then (ok o) next room rest = rest o room
Room-then (err (write_failed e, o)) next room rest = tt
Room-then (err (out_of_rounds, o)) next room rest = room

pub Ends-then :
    (s : Step) (next : Output → Step) → Ends s → ((o : Output) → Ends (next o)) → Ends (s >>= next)
unfolding Ends
Ends-then (ok o) next ends rest = rest o
Ends-then (err (write_failed e, o)) next ends rest = tt
Ends-then (err (out_of_rounds, o)) next ends rest = ends

Room-Ends : (s : Step) → Room s → Ends s
unfolding Room Ends
Room-Ends (ok o) room = tt
Room-Ends (err (write_failed e, o)) room = tt
Room-Ends (err (out_of_rounds, o)) room = room

emptied-Room : (s : Step) → Ends s → Room (s >>= λ o. ok (record o { buffered = [] }))
unfolding Room Ends
emptied-Room (ok o) ends = omega arith
emptied-Room (err (write_failed e, o)) ends = tt
emptied-Room (err (out_of_rounds, o)) ends = ends

module _ (os : Os) (n : ℕ) (patient : IsPatient n os) where
  write_bytes-Ends :
      (rounds : ℕ) (bytes : List ℕ) (o : Output)
      → length bytes + (n - interruptions os o.history) < rounds
      → Ends (write_bytes os rounds bytes o)
  unfolding write_bytes make_call
  write_bytes-Ends zero bytes o enough = absurd (omega arith)
  write_bytes-Ends (suc rounds) [] o enough = unfold Ends in tt
  write_bytes-Ends (suc rounds) (b ∷ bytes) o enough =
      let c = write_call (b ∷ bytes) in
      let a = make_call c o in
      elim (count-cases (last_answer os a).count) [
        | inl failed ↦ elim (Bool-cases ((last_answer os a).errno == os.eintr)) [
          | inl signal ↦
              let once : interruptions os (c ∷ o.history) ≡ interruptions os o.history + 1 =
                unfold interruptions interrupted in rw (failed, signal) refl in
              rw (failed, signal, write_bytes)
                (write_bytes-Ends rounds (b ∷ bytes) a
                  (omega (arith, once, patient (c ∷ o.history))))
          | inr other ↦ rw (failed, other, write_bytes) (unfold Ends in tt)
        ]
        | inr (inl nothing) ↦ rw (nothing, write_bytes) (unfold Ends in tt)
        | inr (inr (k, some_bytes)) ↦
            let unchanged : interruptions os (c ∷ o.history) ≡ interruptions os o.history + 0 =
              unfold interruptions interrupted in rw some_bytes refl in
            rw (some_bytes, write_bytes)
              (write_bytes-Ends rounds (drop k bytes) a
                (omega (arith, unchanged, length-drop k bytes)))
      ]

  module _ (rounds : ℕ) (enough : 4096 + n < rounds) where
    flush_full-Room : (o : Output) → length o.buffered ≤ 4096 → Room (flush_full os rounds o)
    unfolding flush_full
    flush_full-Room o fits = elim (Bool-cases (length o.buffered == 4096)) [
      | inl full ↦
          rw (full, flush_full)
            (emptied-Room _ (write_bytes-Ends rounds o.buffered o (omega arith)))
      | inr room ↦
          rw (room, flush_full) (unfold Room in omega (arith, ==→ne (length o.buffered) 4096 room))
    ]

    write_loop-Room :
        (fuel : ℕ) (bytes : List ℕ) (o : Output)
        → length bytes ≤ fuel
        → length o.buffered < 4096
        → Room (write_loop os rounds fuel bytes o)
    unfolding write_loop
    write_loop-Room fuel [] o fuelled room = unfold Room in room
    write_loop-Room zero (b ∷ bytes) o fuelled room = absurd (omega arith)
    write_loop-Room (suc fuel) (b ∷ bytes) o fuelled room =
        let available = 4096 - length o.buffered in
        let filled : Output = record o { buffered = o.buffered ++ take available (b ∷ bytes) } in
        Room-then (flush_full os rounds filled) _
          (flush_full-Room filled (
            omega (
              arith,
              length-append o.buffered (take available (b ∷ bytes)),
              length-take available (b ∷ bytes),
            )))
          (λ o' room'.
            write_loop-Room fuel (drop available (b ∷ bytes)) o'
              (omega (arith, length-drop available (b ∷ bytes))) room')

    pub write_sectors-Room :
        (sectors random_id : ℕ) (medium_name : List ℕ) (files : List CartridgeFile) (l : Layout)
        (left physical : ℕ) (o : Output)
        → length o.buffered < 4096
        → Room (write_sectors os rounds sectors medium_name random_id files l left physical o)
    unfolding write_sectors output_write
    write_sectors-Room sectors random_id medium_name files l zero physical o room =
        unfold Room in room
    write_sectors-Room sectors random_id medium_name files l (suc left) physical o room =
        Room-then _ _
          (write_loop-Room _ (sector_of l medium_name random_id files (logical_of sectors physical))
            o (omega arith) room)
          (λ o' room'.
            write_sectors-Room sectors random_id medium_name files l left (physical + 1) o' room')

    pub checked-Ends : (c : Call) (o : Output) → Ends (checked os c o)
    unfolding checked
    checked-Ends c o = elim (Bool-cases (succeeded (last_answer os (make_call c o)))) [
      | inl went ↦ rw (went, checked) (unfold Ends in tt)
      | inr failed ↦ rw (failed, checked) (unfold Ends in tt)
    ]

    flush_bytes-Ends :
        (bytes : List ℕ) (o : Output) → length bytes ≤ 4096 → Ends (flush_bytes os rounds bytes o)
    unfolding flush_bytes
    flush_bytes-Ends [] o short = unfold Ends in tt
    flush_bytes-Ends (b ∷ bytes) o short =
        Room-Ends _ (emptied-Room _ (write_bytes-Ends rounds (b ∷ bytes) o (omega arith)))

    pub flushed-Ends :
        (s : Step)
        → Room s
        → Ends (known_error os s >>= λ o. flush_rest os rounds o >>= λ o'. checked os fsync_call o')
    unfolding known_error flush_rest Room
    flushed-Ends (ok o) room =
        Ends-then (flush_bytes os rounds o.buffered o) _
          (flush_bytes-Ends o.buffered o (omega arith)) (λ o'. checked-Ends fsync_call o')
    flushed-Ends (err (write_failed e, o)) room = unfold Ends in tt
    flushed-Ends (err (out_of_rounds, o)) room = absurd room

    pub close-Ends : (s : Step) → Ends s → Ends (close_output os s)
    unfolding close_output Ends
    close-Ends (ok o) ends = checked-Ends close_call o
    close-Ends (err (write_failed e, o)) ends = tt
    close-Ends (err (out_of_rounds, o)) ends = ends
