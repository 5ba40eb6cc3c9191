-- ===== src/Vgm/Convert/Streamed.antt =====
-- src/vgm.c: the stream that `convert_segment` writes, read back and played.
use qlvgm.Prelude.{ℕ, zero, suc, ◌+◌, ◌*◌, ◌^◌, ◌≤◌, ◌<◌, ◌≡◌, refl, arith, ap, sym, ◌∙◌, subst}
use qlvgm.Prelude.{Bool, true, false, not, ◌==◌}
use qlvgm.Prelude.{List, [], ◌++◌, append-nil, length, get_or, replicate, All, drop}
use qlvgm.Prelude.{
  length-replicate, drop-append_length, ok, ok_injective, >>=-eq-ok, fail_if-eq-ok, some,
}
use qlvgm.Buffer.{ByteBuffer, empty}
use qlvgm.Buffer.Laws.{IsWellFormed}
use qlvgm.Vgm.Song.{Write}
use qlvgm.Vgm.Parse.Order.{Ascends}
use qlvgm.Vgm.Converter.{Converter}
use qlvgm.Vgm.Converter.Emits.{IsRaw}
use qlvgm.Vgm.Convert.{
  Segment, no_frames, no_memory_batching, frame_index, duration_frames, samples_per_frame,
  buffer_bytes, batch, collect, finish, segment,
}
use qlvgm.Vgm.Convert.Frames.{count_frames-bounds}
use qlvgm.Vgm.Convert.Collected.{Holds, frames_from-Holds, collect-stream_bytes}
use qlvgm.Vgm.Convert.Batched.{BatchedSome, batch-Batched, tagged}
use qlvgm.Vgm.Played.{
  Pair, Tagged, pair_bytes, stream_bytes, play, pairs, in_frame, frames_from, length-frames_from,
}
use qlvgm.Vgm.Played.Read.{IsShort, read_frames, read_frames-stream_bytes}
use qlvgm.Vgm.Played.Order.{Rises, play_frames, concat, concat-frames_from}

zero_add : (n : ℕ) → n ≡ 0 + n
zero_add n = omega arith

module _ (grants : ℕ → Bool) where
  pub finish-ok :
      (count : ℕ) (output : ByteBuffer) (r : Converter × (List ByteBuffer × Bool)) (s : Segment)
      → finish grants count output r ≡ ok s
      → (r.1.1 ≡ true)
        × (collect grants r.1.0 0 output ≡ ok s.output)
        × (s.converter ≡ r.0)
        × (s.frame_count ≡ count)
  unfolding finish
  finish-ok count output (c, (frames, false)) s e = cc
  finish-ok count output (c, (frames, true)) s e =
      let (out, wrote, same) =
        >>=-eq-ok (collect grants frames 0 output)
          (λ out. ok (record { converter = c; output = out; frame_count = count })) e in
      let is = ok_injective same in
      (
        refl,
        wrote ∙ ap (λ (t : Segment). ok t.output) is,
        ap (λ (t : Segment). t.converter) (sym is),
        ap (λ (t : Segment). t.frame_count) (sym is),
      )

  -- The stream of a segment that began with the converter `c` behind `output`.
  pub record Streamed (low start spf : ℕ) (ws : List Write) (c : Converter) (output : ByteBuffer)
      (s : Segment) : Type 0 where
    pub writes : List Tagged
    pub in_order : concat (frames_from 0 s.frame_count writes) ≡ pairs writes
    pub bytes : s.output.bytes ≡ output.bytes ++ stream_bytes (frames_from 0 s.frame_count writes)
    pub short : All IsShort (frames_from 0 s.frame_count writes)
    pub played : play c.target (pairs writes) ≡ s.converter.target
    pub raw : IsRaw c → (writes ≡ tagged start spf ws) × IsRaw s.converter
    pub keeps : IsWellFormed output → IsWellFormed s.output

  empty_frames : (n i : ℕ) → get_or (replicate n empty) i empty ≡ empty
  empty_frames zero i = refl
  empty_frames (suc n) zero = refl
  empty_frames (suc n) (suc i) = empty_frames n i

  empty-IsWellFormed : IsWellFormed empty
  empty-IsWellFormed = record { counted = refl; fits = omega arith; bounded = omega arith }

  batched-Streamed :
      (n low start spf : ℕ) (ws : List Write) (c : Converter) (output : ByteBuffer)
      (r : Converter × (List ByteBuffer × Bool)) (s : Segment)
      → BatchedSome low start spf ws c (replicate n empty) r
      → collect grants r.1.0 0 output ≡ ok s.output
      → s.converter ≡ r.0
      → s.frame_count ≡ n
      → Streamed low start spf ws c output s
  batched-Streamed n low start spf ws c output (last, (next, done)) s (es, batched, rises, raw)
        wrote converter counted =
      let len = length-replicate n empty in
      let total = batched.counted ∙ len ∙ sym counted in
      let holds =
        subst (λ k. Holds next (frames_from 0 k es)) total
          (frames_from-Holds next 0 es
            (λ j h.
              subst (λ k. (get_or next j empty).bytes ≡ pair_bytes (in_frame k es)) (zero_add j)
                (batched.bytes j (subst (λ k. j < k) batched.counted h)
                  ∙ ap (λ f. f.bytes ++ pair_bytes (in_frame j es)) (empty_frames n j)))
            (batched.keeps λ i. subst IsWellFormed (sym (empty_frames n i)) empty-IsWellFormed)) in
      let (bytes, short, keeps) =
        collect-stream_bytes grants next (frames_from 0 s.frame_count es) 0 output s.output holds
          wrote in
      record {
        writes = es;
        in_order = concat-frames_from s.frame_count 0 (frame_index start spf low) es (omega arith) (
            subst (Rises (frame_index start spf low) es)
              (len ∙ sym counted ∙ zero_add s.frame_count) rises);
        bytes = bytes;
        short = short;
        played = batched.played ∙ ap (λ (d : Converter). d.target) (sym converter);
        raw = λ is_raw. let (same, still) = raw is_raw in (same, subst IsRaw (sym converter) still);
        keeps = keeps;
      }

  pub segment-Streamed :
      (ws : List Write) (low high start duration rate : ℕ) (c : Converter) (output : ByteBuffer)
      (s : Segment)
      → Ascends low ws high
      → start ≤ low
      → high + 1 < 2 ^ 32
      → segment grants ws start duration rate c output ≡ ok s
      → Streamed low start (samples_per_frame rate) ws c output s
  unfolding segment
  segment-Streamed ws low high start duration rate c output s a le short e =
      let spf = samples_per_frame rate in
      let (n, counted, _, inside) =
        count_frames-bounds ws low high start spf (duration_frames duration spf) a le short in
      let (_, positive) = fail_if-eq-ok (n == 0) no_frames _ (rw (counted, segment) at e) in
      let (_, went) =
        fail_if-eq-ok (not (grants (n * buffer_bytes))) no_memory_batching _ positive in
      let r = batch grants ws start spf c (replicate n empty) in
      let (done, wrote, converter, total) = finish-ok n output r s went in
      let room =
        subst (λ k. All (λ w. frame_index start spf w.sample < k) ws)
          (sym (length-replicate n empty)) inside in
      batched-Streamed n low start spf ws c output r s
        (batch-Batched grants ws low high start spf c (replicate n empty) a le (omega arith) room
          done)
        wrote converter total

  -- For writes in order from a sample not before `start` to one below 2 ^ 32 - 1: behind the output
  -- that it is given, a segment that succeeds leaves a stream that a reader takes apart into as many
  -- frames as it counts, with nothing behind them, and a chip with the registers that the converter
  -- tracked before ends, once it has played the frames, with those that it tracks after.
  pub segment-play_frames :
      (ws : List Write) (low high start duration rate : ℕ) (c : Converter) (output : ByteBuffer)
      (s : Segment)
      → Ascends low ws high
      → start ≤ low
      → high + 1 < 2 ^ 32
      → segment grants ws start duration rate c output ≡ ok s
      → (frames : List (List Pair)) × (read_frames s.frame_count
            (drop (length output.bytes) s.output.bytes)
          ≡ some (frames, []))
        × (s.output.bytes ≡ output.bytes ++ stream_bytes frames)
        × (play_frames c.target frames ≡ s.converter.target)
  segment-play_frames ws low high start duration rate c output s a le short e =
      let t = segment-Streamed ws low high start duration rate c output s a le short e in
      let frames = frames_from 0 s.frame_count t.writes in
      (
        frames,
        ap (λ bs. read_frames s.frame_count (drop (length output.bytes) bs)) t.bytes
            ∙ ap (read_frames s.frame_count) (
                drop-append_length output.bytes (stream_bytes frames)
                ∙ sym (append-nil (stream_bytes frames)))
            ∙ ap (λ n. read_frames n (stream_bytes frames ++ []))
                (sym (length-frames_from 0 s.frame_count t.writes))
            ∙ read_frames-stream_bytes frames [] t.short,
        t.bytes,
        ap (play c.target) t.in_order ∙ t.played,
      )
