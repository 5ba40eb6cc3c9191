-- ===== src/Vgm/Convert/RawSong.antt =====
-- src/vgm.c: the whole stream of `vgm_convert` for a song whose pitch stays as it is.
use qlvgm.Prelude.{ℕ, ◌+◌, ◌^◌, ◌≤◌, ◌<◌, ◌≡◌, refl, arith, ap, sym, ◌∙◌, subst}
use qlvgm.Prelude.{if◌then◌else◌, Bool, true, false, ◌&&◌, ◌==◌, inl, inr, ==_self, u32, sub32}
use qlvgm.Prelude.{List, ◌++◌, length, take, drop, All, take-length, length-drop}
use qlvgm.Prelude.{ok, err, ok_injective, >>=-eq-ok}
use qlvgm.Buffer.{ByteBuffer, empty, append, seq}
use qlvgm.Buffer.Laws.{Wrote, append-Wrote}
use qlvgm.Vgm.Song.{Song}
use qlvgm.Vgm.Parse.Order.{Loops}
use qlvgm.Vgm.Converter.{Converter}
use qlvgm.Vgm.Converter.Emits.{IsRaw}
use qlvgm.Vgm.Convert.{
  Converted, Segment, samples_per_frame, duration_frames, count_frames, segment, loop_pass,
  same_bytes, joined, with_loop, checked, forget_targets, no_memory_stream, looped,
}
use qlvgm.Vgm.Convert.Raw.{
  write_pairs, raw_frames, IsRawSegment, same_bytes_self, segment-count, segment-IsRawSegment,
}
use qlvgm.Vgm.Played.{stream_bytes}
use qlvgm.Vgm.Played.Order.{concat}
use qlvgm.Vgm.Played.Read.{IsShort}

if-ok : (b : Bool) (c v : Converted) → (if b then err no_memory_stream else ok c) ≡ ok v → c ≡ v
if-ok true c v e = cc
if-ok false c v e = ok_injective e

-- `sub32` of the writes behind the loop point takes them all.
loop_slice :
    (song : Song)
    → song.write_count ≡ length song.writes
    → song.write_count < 2 ^ 32
    → song.loop_write ≤ length song.writes
    → take (sub32 song.write_count song.loop_write) (drop song.loop_write song.writes)
      ≡ drop song.loop_write song.writes
loop_slice song counted short inside =
    let rest = drop song.loop_write song.writes in
    let all : sub32 song.write_count song.loop_write ≡ length rest =
      omega (arith, counted, length-drop song.loop_write song.writes) in
    ap (λ n. take n rest) all ∙ take-length rest

-- The stream of a song as it is.
pub record IsRawLoop (song : Song) (rate : ℕ) (start : Segment) (v : Converted) : Type 0 where
  pub bytes :
      v.stream.bytes
      ≡ start.output.bytes
        ++ stream_bytes
            (raw_frames song.loop_sample rate (drop song.loop_write song.writes) v.loop_frame_count)
  pub short :
      All IsShort
        (raw_frames song.loop_sample rate (drop song.loop_write song.writes) v.loop_frame_count)
  pub complete :
      concat
        (raw_frames song.loop_sample rate (drop song.loop_write song.writes) v.loop_frame_count)
      ≡ write_pairs (drop song.loop_write song.writes)
  pub offset : v.loop_offset ≡ start.output.size
  pub total : v.frame_count ≡ u32 (start.frame_count + v.loop_frame_count)

-- A loop whose passes leave the same bytes is in the stream once.
stable :
    (grants : ℕ → Bool) (first steady : Segment)
    → length first.output.bytes ≡ first.output.size
    → length steady.output.bytes ≡ steady.output.size
    → first.output.bytes ≡ steady.output.bytes
    → (first.output.size == steady.output.size)
        && same_bytes grants first.output.bytes steady.output.bytes
      ≡ true
stable grants first steady one two same =
    let size : first.output.size ≡ steady.output.size = sym one ∙ ap length same ∙ two in
    rw (size, same, ==_self steady.output.size, same_bytes_self grants steady.output.bytes) refl

module _ (grants : ℕ → Bool) where
  pub checked-ok : (c v : Converted) → checked grants c ≡ ok v → c ≡ v
  unfolding checked
  checked-ok c v e = if-ok c.stream.failed c v e

  joined-ok :
      (b : ByteBuffer) (xs : List ℕ) (r : ByteBuffer × Bool) (stream : ByteBuffer)
      → Wrote b xs r
      → joined grants r ≡ ok stream
      → stream.bytes ≡ b.bytes ++ xs
  unfolding joined
  joined-ok b xs (s, true) stream (inl (_, bytes, _)) e =
      ap (λ (t : ByteBuffer). t.bytes) (sym (ok_injective e)) ∙ bytes
  joined-ok b xs (s, true) stream (inr (bad, _)) e = absurd (cc bad)
  joined-ok b xs (s, false) stream w e = cc

  loop_pass-IsRawSegment :
      (song : Song) (rate : ℕ) (c : Converter) (s : Segment)
      → song.write_count ≡ length song.writes
      → song.write_count < 2 ^ 32
      → song.total_samples + 1 < 2 ^ 32
      → Loops song song.total_samples
      → IsRaw c
      → loop_pass grants song rate c ≡ ok s
      → IsRawSegment song.loop_sample rate (drop song.loop_write song.writes) s
        × (count_frames
              (drop song.loop_write song.writes)
              song.loop_sample
              (samples_per_frame rate)
              (duration_frames (sub32 song.total_samples song.loop_sample) (samples_per_frame rate))
            ≡ ok s.frame_count)
  unfolding loop_pass
  loop_pass-IsRawSegment song rate c s counted small short loop raw e =
      let slice = loop_slice song counted small loop.at_write in
      let duration = sub32 song.total_samples song.loop_sample in
      let went =
        ap (λ ws. segment grants ws song.loop_sample duration rate (forget_targets grants c) empty)
          (sym slice)
        ∙ e in
      let rest = drop song.loop_write song.writes in
      (
        segment-IsRawSegment grants rest song.loop_sample song.total_samples song.loop_sample
            duration rate (forget_targets grants c) s loop.after (omega arith) short raw went,
        segment-count grants rest song.loop_sample duration rate (forget_targets grants c) empty s
            went,
      )

  once-Wrote :
      (b : ByteBuffer) (xs : List ℕ) → Wrote b xs (seq (append grants b xs) (λ s. (s, true)))
  once-Wrote b xs = done b xs (append grants b xs) (append-Wrote grants b xs)
    where
      done :
          (b : ByteBuffer) (xs : List ℕ) (r : ByteBuffer × Bool)
          → Wrote b xs r
          → Wrote b xs (seq r (λ s. (s, true)))
      done b xs (c, true) w = w
      done b xs (c, false) w = w

  looped-stable :
      (start first steady : Segment) (v : Converted)
      → length first.output.bytes ≡ first.output.size
      → length steady.output.bytes ≡ steady.output.size
      → first.output.bytes ≡ steady.output.bytes
      → looped grants start first steady ≡ ok v
      → (v.stream.bytes ≡ start.output.bytes ++ first.output.bytes)
        × (v.loop_offset ≡ start.output.size)
        × (v.loop_frame_count ≡ steady.frame_count)
        × (v.frame_count ≡ u32 (start.frame_count + first.frame_count + 0))
  unfolding looped
  looped-stable start first steady v one two same e =
      let is_stable = stable grants first steady one two same in
      let (stream, went, done) = >>=-eq-ok (joined grants _) _ (rw (is_stable, looped) at e) in
      let is = ok_injective done in
      (
        ap (λ (t : Converted). t.stream.bytes) (sym is)
            ∙ joined-ok start.output first.output.bytes _ stream
                (once-Wrote start.output first.output.bytes) went,
        ap (λ (t : Converted). t.loop_offset) (sym is),
        ap (λ (t : Converted). t.loop_frame_count) (sym is),
        ap (λ (t : Converted). t.frame_count) (sym is),
      )

  pub with_loop-IsRawLoop :
      (song : Song) (rate : ℕ) (start : Segment) (v : Converted)
      → song.write_count ≡ length song.writes
      → song.write_count < 2 ^ 32
      → song.total_samples + 1 < 2 ^ 32
      → Loops song song.total_samples
      → IsRaw start.converter
      → with_loop grants song rate start ≡ ok v
      → IsRawLoop song rate start v
  unfolding with_loop
  with_loop-IsRawLoop song rate start v counted small short loop raw e =
      let (first, went_first, e1) = >>=-eq-ok (loop_pass grants song rate start.converter) _ e in
      let (steady, went_steady, e2) = >>=-eq-ok (loop_pass grants song rate first.converter) _ e1 in
      let (one, n1) =
        loop_pass-IsRawSegment song rate start.converter first counted small short loop raw
          went_first in
      let (two, n2) =
        loop_pass-IsRawSegment song rate first.converter steady counted small short loop one.raw
          went_steady in
      let same_count : first.frame_count ≡ steady.frame_count = ok_injective (sym n1 ∙ n2) in
      let frames = raw_frames song.loop_sample rate (drop song.loop_write song.writes) in
      let same : first.output.bytes ≡ steady.output.bytes =
        one.bytes ∙ ap (λ n. stream_bytes (frames n)) same_count ∙ sym two.bytes in
      let (bytes, offset, count, total) =
        looped-stable start first steady v one.sized two.sized same e2 in
      record {
        bytes =
            bytes
            ∙ ap (start.output.bytes ++◌)
                (same ∙ two.bytes ∙ ap (λ n. stream_bytes (frames n)) (sym count));
        short = subst (λ n. All IsShort (frames n)) (sym count) two.short;
        complete =
            subst (λ n. concat (frames n) ≡ write_pairs (drop song.loop_write song.writes))
              (sym count) two.complete;
        offset = offset;
        total = total ∙ ap u32 (omega (arith, same_count, count));
      }
