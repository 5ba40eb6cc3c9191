-- ===== src/Vgm/Convert.antt =====
-- src/vgm.c: `convert_segment` and `vgm_convert`, from a song to frames of register writes.
pub mod Frames
pub mod Ordered
pub mod Batched
pub mod Collected
pub mod Streamed
pub mod Raw
pub mod RawSong
pub mod RawRead
mod Tests
use qlvgm.Prelude.{ℕ, zero, suc, ◌+◌, ◌-◌, ◌*◌, ◌/◌, ◌%◌, ltb, leb, ◌==◌, if◌then◌else◌, Bool, true}
use qlvgm.Prelude.{false, not, ◌&&◌, ◌||◌, List, [], ◌∷◌, u16, u32, sub32, take, drop, set, get_or}
use qlvgm.Prelude.{replicate, Result, ok, err, ◌>>=◌, ◌>>◌, fail_if}
use qlvgm.Buffer.{ByteBuffer, empty, append, append_be16, seq}
use qlvgm.Vgm.Song.{Song, Write, no_loop}
use qlvgm.Vgm.Converter.{Converter, Emitted, write}

pub data ConvertError : Type 0 where
  event_order no_frames no_memory_batching no_memory_stream no_memory_loop : ConvertError
  too_many_writes : ℕ → ConvertError

-- `converted_song`
pub record Converted : Type 0 where
  pub stream : ByteBuffer
  pub loop_offset : ℕ
  pub frame_count : ℕ
  pub loop_frame_count : ℕ
  pub clipped_values : ℕ

-- What a segment leaves: the converter, the output and the number of frames.
pub record Segment : Type 0 where
  pub converter : Converter
  pub output : ByteBuffer
  pub frame_count : ℕ

-- `sizeof(byte_buffer)`
abbrev pub buffer_bytes : ℕ
buffer_bytes = 24

abbrev pub samples_per_frame : ℕ → ℕ
samples_per_frame rate = 44100 / rate

-- The frame of a sample.
abbrev pub frame_index : ℕ → ℕ → ℕ → ℕ
frame_index start spf sample = sub32 sample start / spf

-- The frames that the duration takes, the last one in part.
pub duration_frames : ℕ → ℕ → ℕ
duration_frames duration spf =
    if duration % spf == 0 then duration / spf else u32 (duration / spf + 1)

-- The first loop over the writes: enough frames for every write.
pub count_frames : List Write → ℕ → ℕ → ℕ → Result ConvertError ℕ
count_frames [] start spf count = ok count
count_frames (w ∷ ws) start spf count =
    let index = frame_index start spf w.sample in
    let rest = count_frames ws start spf (if leb count index then u32 (index + 1) else count) in
    if ltb w.sample start then err event_order else rest

module _ (grants : ℕ → Bool) where
  -- The second loop: each write goes through the converter into its frame.
  pub batch :
      List Write → ℕ → ℕ → Converter → List ByteBuffer → Converter × (List ByteBuffer × Bool)
  batch [] start spf c frames = (c, (frames, true))
  batch (w ∷ ws) start spf c frames =
      let index = frame_index start spf w.sample in
      let (c', (frame, done)) = write grants c (get_or frames index empty) w.reg w.value in
      let rest = batch ws start spf c' (set frames index frame) in
      elim done [ true ↦ rest | false ↦ (c', (set frames index frame, false)) ]

  -- The bytes of one frame behind their count.
  pub append_frame : ByteBuffer → ByteBuffer → ByteBuffer × Bool
  append_frame output frame =
      seq (append_be16 grants output (u16 (frame.size / 2))) (λ o. append grants o frame.bytes)

  written : ByteBuffer × Bool → Result ConvertError ByteBuffer
  written (output, true) = ok output
  written (output, false) = err no_memory_stream

  -- The third loop: the frames, from index `i` on.
  pub collect : List ByteBuffer → ℕ → ByteBuffer → Result ConvertError ByteBuffer
  unfolding written append_frame
  collect [] i output = ok output
  collect (frame ∷ frames) i output = do
    fail_if (not (frame.size % 2 == 0) || ltb 65535 (frame.size / 2)) (too_many_writes i)
    next ← written (append_frame output frame)
    collect frames (u32 (i + 1)) next

  pub finish : ℕ → ByteBuffer → Converter × (List ByteBuffer × Bool) → Result ConvertError Segment
  finish count output (c, (frames, false)) = err no_memory_stream
  finish count output (c, (frames, true)) = do
    out ← collect frames 0 output
    ok (record { converter = c; output = out; frame_count = count })

  -- `convert_segment`; `ws` are the writes from `first_write` on.
  pub segment : List Write → ℕ → ℕ → ℕ → Converter → ByteBuffer → Result ConvertError Segment
  unfolding finish
  segment ws start duration rate c output = do
    let spf = samples_per_frame rate
    count ← count_frames ws start spf (duration_frames duration spf)
    fail_if (count == 0) no_frames
    fail_if (not (grants (count * buffer_bytes))) no_memory_batching
    finish count output (batch ws start spf c (replicate count empty))

  abbrev pub new_converter : Song → Bool → Converter
  new_converter song pitch_conversion = record {
    source = λ i. 0;
    target = λ i. 0;
    target_known = λ i. false;
    source_clock = song.clock_hz;
    clipped_values = 0;
    fm_high_latch = 0;
    fm_channel3_high_latch = 0;
    pitch_conversion = pitch_conversion;
  }

  -- `memset(converter.target_known, 0, ...)`
  abbrev pub forget_targets : Converter → Converter
  forget_targets c = record c { target_known = λ i. false }

  -- The writes and samples before the loop, or the whole song.
  pub intro : Song → ℕ → Converter → Result ConvertError Segment
  intro song rate c =
      let writes = if song.has_loop then song.loop_write else song.write_count in
      let samples = if song.has_loop then song.loop_sample else song.total_samples in
      if not (samples == 0) || not (writes == 0)
      then segment (take writes song.writes) 0 samples rate c empty
      else ok (record { converter = c; output = empty; frame_count = 0 })

  -- One pass over the loop, with all targets unknown.
  pub loop_pass : Song → ℕ → Converter → Result ConvertError Segment
  loop_pass song rate c =
      segment (take (sub32 song.write_count song.loop_write) (drop song.loop_write song.writes))
        song.loop_sample (sub32 song.total_samples song.loop_sample) rate (forget_targets c) empty

  -- `memcmp` of two byte strings.
  pub same_bytes : List ℕ → List ℕ → Bool
  same_bytes [] [] = true
  same_bytes [] (y ∷ ys) = false
  same_bytes (x ∷ xs) [] = false
  same_bytes (x ∷ xs) (y ∷ ys) = x == y && same_bytes xs ys

  pub joined : ByteBuffer × Bool → Result ConvertError ByteBuffer
  joined (stream, true) = ok stream
  joined (stream, false) = err no_memory_loop

  -- The loop behind the intro: once if the first pass leaves the chip as it found it, else with the
  -- steady pass behind the first.
  pub looped : Segment → Segment → Segment → Result ConvertError Converted
  unfolding same_bytes joined
  looped start first steady = do
    let is_stable =
        (first.output.size == steady.output.size)
        && same_bytes first.output.bytes steady.output.bytes
    let offset =
        if is_stable then start.output.size else u32 (start.output.size + first.output.size)
    stream ← joined (
        seq (append grants start.output first.output.bytes)
          λ s. if is_stable then (s, true) else append grants s steady.output.bytes)
    ok (record {
      stream = stream;
      loop_offset = offset;
      frame_count =
          u32
            (start.frame_count + first.frame_count + (if is_stable then 0 else steady.frame_count));
      loop_frame_count = steady.frame_count;
      clipped_values =
          (if is_stable then first.converter.clipped_values else steady.converter.clipped_values);
    })

  -- The two passes over the loop.
  pub with_loop : Song → ℕ → Segment → Result ConvertError Converted
  unfolding loop_pass looped
  with_loop song rate start = do
    first ← loop_pass song rate start.converter
    steady ← loop_pass song rate first.converter
    looped start first steady

  pub checked : Converted → Result ConvertError Converted
  checked c = if c.stream.failed then err no_memory_stream else ok c

  pub convert : Song → ℕ → Bool → Result ConvertError Converted
  unfolding intro with_loop checked
  convert song rate pitch_conversion = do
    start ← intro song rate (new_converter song pitch_conversion)
    converted ←
        (if song.has_loop
          then with_loop song rate start
          else ok (record {
            stream = start.output;
            loop_offset = no_loop;
            frame_count = start.frame_count;
            loop_frame_count = 0;
            clipped_values = start.converter.clipped_values;
          }))
    checked converted
