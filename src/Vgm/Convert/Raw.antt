-- ===== src/Vgm/Convert/Raw.antt =====
-- src/vgm.c: the stream of `vgm_convert` for a song whose pitch stays as it is.
use qlvgm.Prelude.{ℕ, ◌+◌, ◌*◌, ◌^◌, ◌≤◌, ◌<◌, ◌≡◌, refl, arith, ap, sym, ◌∙◌, subst}
use qlvgm.Prelude.{if◌then◌else◌, Bool, true, false, not, ◌||◌, ◌==◌, Bool-cases, inl, inr, ==_self}
use qlvgm.Prelude.{List, [], ◌∷◌, length, take, All}
use qlvgm.Prelude.{ok, ok_injective, >>=-eq-ok, fail_if-eq-ok}
use qlvgm.Buffer.{ByteBuffer, empty}
use qlvgm.Vgm.Song.{Song, Write}
use qlvgm.Vgm.Parse.Order.{Ascends, Ascends-take}
use qlvgm.Vgm.Converter.{Converter}
use qlvgm.Vgm.Converter.Emits.{IsRaw}
use qlvgm.Vgm.Convert.{
  Segment, samples_per_frame, duration_frames, count_frames, segment, intro, same_bytes, no_frames,
  no_memory_batching, buffer_bytes,
}
use qlvgm.Vgm.Convert.Batched.{tagged}
use qlvgm.Vgm.Convert.Streamed.{segment-Streamed, finish-ok}
use qlvgm.Vgm.Played.Order.{concat}
use qlvgm.Vgm.Played.{Pair, pairs, stream_bytes, frames_from}
use qlvgm.Vgm.Played.Read.{IsShort}

-- The stream of the writes `ws` as they are, in `n` frames from the sample `start` on.
abbrev pub raw_frames : ℕ → ℕ → List Write → ℕ → List (List Pair)
raw_frames start rate ws n = frames_from 0 n (tagged start (samples_per_frame rate) ws)

none_of : (m n : ℕ) → not (m == 0) || not (n == 0) ≡ false → n ≡ 0
none_of m n h = ground arith

-- The registers and the values of writes.
abbrev pub write_pairs : List Write → List Pair
write_pairs [] = []
write_pairs (w ∷ ws) = (w.reg, w.value) ∷ write_pairs ws

pairs-tagged : (start spf : ℕ) (ws : List Write) → pairs (tagged start spf ws) ≡ write_pairs ws
pairs-tagged start spf [] = refl
pairs-tagged start spf (w ∷ ws) = ap (◌∷◌ (w.reg, w.value)) (pairs-tagged start spf ws)

-- A segment that holds the writes as they are, behind nothing.
pub record IsRawSegment (start rate : ℕ) (ws : List Write) (s : Segment) : Type 0 where
  pub bytes : s.output.bytes ≡ stream_bytes (raw_frames start rate ws s.frame_count)
  pub short : All IsShort (raw_frames start rate ws s.frame_count)
  pub complete : concat (raw_frames start rate ws s.frame_count) ≡ write_pairs ws
  pub sized : length s.output.bytes ≡ s.output.size
  pub raw : IsRaw s.converter

pub same_bytes_self : (grants : ℕ → Bool) (xs : List ℕ) → same_bytes grants xs xs ≡ true
unfolding same_bytes
same_bytes_self grants [] = refl
same_bytes_self grants (x ∷ xs) = rw (==_self x, same_bytes_self grants xs) refl

-- The writes before the loop, or all.
abbrev pub intro_writes : Song → List Write
intro_writes song = take (if song.has_loop then song.loop_write else song.write_count) song.writes

module _ (grants : ℕ → Bool) where
  -- The number of frames does not depend on the converter.
  pub segment-count :
      (ws : List Write) (start duration rate : ℕ) (c : Converter) (output : ByteBuffer)
      (s : Segment)
      → segment grants ws start duration rate c output ≡ ok s
      → count_frames ws start
          (samples_per_frame rate)
          (duration_frames duration (samples_per_frame rate))
        ≡ ok s.frame_count
  unfolding segment
  segment-count ws start duration rate c output s e =
      let spf = samples_per_frame rate in
      let (n, counted, rest) =
        >>=-eq-ok (count_frames ws start spf (duration_frames duration spf)) _ e in
      let (_, positive) = fail_if-eq-ok (n == 0) no_frames _ rest in
      let (_, went) =
        fail_if-eq-ok (not (grants (n * buffer_bytes))) no_memory_batching _ positive in
      let (_, _, _, total) = finish-ok grants n output _ s went in counted ∙ ap ok (sym total)

  pub segment-IsRawSegment :
      (ws : List Write) (low high start duration rate : ℕ) (c : Converter) (s : Segment)
      → Ascends low ws high
      → start ≤ low
      → high + 1 < 2 ^ 32
      → IsRaw c
      → segment grants ws start duration rate c empty ≡ ok s
      → IsRawSegment start rate ws s
  segment-IsRawSegment ws low high start duration rate c s a le short raw e =
      let t = segment-Streamed grants ws low high start duration rate c empty s a le short e in
      let (same, still) = t.raw raw in
      record {
        bytes = t.bytes ∙ ap (λ es. stream_bytes (frames_from 0 s.frame_count es)) same;
        short = subst (λ es. All IsShort (frames_from 0 s.frame_count es)) same t.short;
        complete =
            ap (λ es. concat (frames_from 0 s.frame_count es)) (sym same)
            ∙ t.in_order
            ∙ ap pairs same
            ∙ pairs-tagged start (samples_per_frame rate) ws;
        sized =
            (t.keeps
              (record { counted = refl; fits = omega arith; bounded = omega arith })).counted;
        raw = still;
      }

  pub intro-IsRawSegment :
      (song : Song) (rate : ℕ) (c : Converter) (s : Segment)
      → Ascends 0 song.writes song.total_samples
      → song.total_samples + 1 < 2 ^ 32
      → IsRaw c
      → intro grants song rate c ≡ ok s
      → IsRawSegment 0 rate (intro_writes song) s
  unfolding intro
  intro-IsRawSegment song rate c s ordered short raw e =
      let writes = if song.has_loop then song.loop_write else song.write_count in
      let samples = if song.has_loop then song.loop_sample else song.total_samples in
      elim (Bool-cases (not (samples == 0) || not (writes == 0))) [
        | inl full ↦
            segment-IsRawSegment (intro_writes song) 0 song.total_samples 0 samples rate c s
              (Ascends-take writes 0 song.writes song.total_samples ordered) (omega arith) short raw
              (rw (full, intro) at e)
        | inr none ↦
            let no_writes : writes ≡ 0 = none_of samples writes none in
            let is = ok_injective (rw (none, intro) at e) in
            subst (IsRawSegment 0 rate (intro_writes song)) is (record {
              bytes = refl;
              short = tt;
              complete = ap (λ n. write_pairs (take n song.writes)) (sym no_writes);
              sized = refl;
              raw = raw;
            })
      ]
