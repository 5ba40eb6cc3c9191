-- ===== src/Vgm/Convert/Ordered.antt =====
-- src/vgm.c: the errors of `vgm_convert` on a song of `vgm_parse`.
use qlvgm.Prelude.{ℕ, ◌+◌, ◌*◌, ◌/◌, ◌%◌, ◌^◌, ◌≤◌, ◌<◌, ◌≢◌, inl, inr}
use qlvgm.Prelude.{arith, ltb, ◌==◌, ◌||◌, not, if◌then◌else◌, Bool, true, false, Bool-cases}
use qlvgm.Prelude.{
  List, [], ◌∷◌, drop, take, replicate, u32, sub32, ok, err, ok-ne-err, >>=-ne-err, fail_if-ne-err,
}
use qlvgm.Buffer.{ByteBuffer, empty}
use qlvgm.Vgm.Song.{Song, Write, no_loop}
use qlvgm.Vgm.Converter.{Converter}
use qlvgm.Vgm.Parse.Order.{Ascends, Ascends-take, Loops}
use qlvgm.Vgm.Parse.Whole.{IsSong}
use qlvgm.Vgm.Convert.Frames.{count_frames-bounds}
use qlvgm.Vgm.Convert.{
  Converted, Segment, event_order, no_frames, no_memory_batching, too_many_writes,
  samples_per_frame, duration_frames, buffer_bytes, batch, append_frame, written, collect, finish,
  segment, new_converter, intro, loop_pass, joined, looped, with_loop, checked, convert,
  forget_targets,
}

module _ (grants : ℕ → Bool) where
  written-order : (r : ByteBuffer × Bool) → written grants r ≢ err event_order
  unfolding written
  written-order (b, true) e = cc
  written-order (b, false) e = cc

  collect-order :
      (frames : List ByteBuffer) (i : ℕ) (output : ByteBuffer)
      → collect grants frames i output ≢ err event_order
  unfolding collect
  collect-order [] i output = ok-ne-err
  collect-order (frame ∷ frames) i output =
      let full : too_many_writes i ≢ event_order = λ e. cc in
      fail_if-ne-err (not (frame.size % 2 == 0) || ltb 65535 (frame.size / 2)) full (
        >>=-ne-err (written grants (append_frame grants output frame))
          (λ next. collect grants frames (u32 (i + 1)) next)
          (written-order (append_frame grants output frame))
          (λ next. collect-order frames (u32 (i + 1)) next))

  finish-order :
      (count : ℕ) (output : ByteBuffer) (r : Converter × (List ByteBuffer × Bool))
      → finish grants count output r ≢ err event_order
  unfolding finish
  finish-order count output (c, (frames, false)) e = cc
  finish-order count output (c, (frames, true)) e =
      >>=-ne-err (collect grants frames 0 output)
        (λ out. ok (record { converter = c; output = out; frame_count = count }))
        (collect-order frames 0 output) (λ out. ok-ne-err) e

  segment-order :
      (ws : List Write) (low high start duration rate : ℕ) (c : Converter) (output : ByteBuffer)
      → Ascends low ws high
      → start ≤ low
      → high + 1 < 2 ^ 32
      → segment grants ws start duration rate c output ≢ err event_order
  unfolding segment
  segment-order ws low high start duration rate c output a h k e =
      let spf = samples_per_frame rate in
      let (n, counted, _, _) =
        count_frames-bounds ws low high start spf (duration_frames duration spf) a h k in
      let none : no_frames ≢ event_order = λ e. cc in
      let memory : no_memory_batching ≢ event_order = λ e. cc in
      fail_if-ne-err (n == 0) none
        (fail_if-ne-err (not (grants (n * buffer_bytes))) memory
          (finish-order n output (batch grants ws start spf c (replicate n empty))))
        (rw (counted, segment) at e)

  loop_pass-order :
      (song : Song) (rate : ℕ) (c : Converter)
      → Loops song song.total_samples
      → song.total_samples + 1 < 2 ^ 32
      → loop_pass grants song rate c ≢ err event_order
  unfolding loop_pass
  loop_pass-order song rate c loop short =
      let rest = drop song.loop_write song.writes in
      segment-order (take (sub32 song.write_count song.loop_write) rest) song.loop_sample
        song.total_samples song.loop_sample (sub32 song.total_samples song.loop_sample) rate
        (forget_targets grants c) empty
        (Ascends-take (sub32 song.write_count song.loop_write) song.loop_sample rest
          song.total_samples loop.after)
        (omega arith) short

  intro-order :
      (song : Song) (rate : ℕ) (c : Converter)
      → Ascends 0 song.writes song.total_samples
      → song.total_samples + 1 < 2 ^ 32
      → intro grants song rate c ≢ err event_order
  unfolding intro
  intro-order song rate c ordered short e =
      let writes = if song.has_loop then song.loop_write else song.write_count in
      let samples = if song.has_loop then song.loop_sample else song.total_samples in
      elim (Bool-cases (not (samples == 0) || not (writes == 0))) [
        | inl some ↦
            segment-order (take writes song.writes) 0 song.total_samples 0 samples rate c empty
              (Ascends-take writes 0 song.writes song.total_samples ordered) (omega arith) short
              (rw (some, intro) at e)
        | inr none ↦ ok-ne-err (rw (none, intro) at e)
      ]

  joined-order : (r : ByteBuffer × Bool) → joined grants r ≢ err event_order
  unfolding joined
  joined-order (b, true) e = cc
  joined-order (b, false) e = cc

  looped-order : (start first steady : Segment) → looped grants start first steady ≢ err event_order
  unfolding looped
  looped-order start first steady =
      >>=-ne-err (joined grants _) _ (joined-order _) λ stream. ok-ne-err

  with_loop-order :
      (song : Song) (rate : ℕ) (start : Segment)
      → Loops song song.total_samples
      → song.total_samples + 1 < 2 ^ 32
      → with_loop grants song rate start ≢ err event_order
  unfolding with_loop
  with_loop-order song rate start loop short =
      >>=-ne-err (loop_pass grants song rate start.converter) _
        (loop_pass-order song rate start.converter loop short)
        λ first.
          >>=-ne-err (loop_pass grants song rate first.converter) _
            (loop_pass-order song rate first.converter loop short)
            λ steady. looped-order start first steady

  checked-order : (c : Converted) → checked grants c ≢ err event_order
  unfolding checked
  checked-order c e = ground arith

  -- For a song as `parse` returns it, with a total of less than 2 ^ 32 - 1 samples: `convert` never
  -- answers that the events are out of order, at any rate, with any allocator.
  pub convert-order :
      (d : List ℕ) (song : Song) (rate : ℕ) (pitch_conversion : Bool)
      → IsSong d song
      → song.total_samples + 1 < 2 ^ 32
      → convert grants song rate pitch_conversion ≢ err event_order
  unfolding convert
  convert-order d song rate pitch_conversion sound short =
      >>=-ne-err (intro grants song rate (new_converter grants song pitch_conversion)) _
        (intro-order song rate (new_converter grants song pitch_conversion) sound.ordered short)
        λ start. elim (Bool-cases song.has_loop) [
          | inl loop ↦ rw (loop) (
              >>=-ne-err (with_loop grants song rate start) (checked grants)
                (with_loop-order song rate start (sound.loops loop) short) checked-order)
          | inr whole ↦ rw (whole) (
              checked-order (record {
                stream = start.output;
                loop_offset = no_loop;
                frame_count = start.frame_count;
                loop_frame_count = 0;
                clipped_values = start.converter.clipped_values;
              }))
        ]
