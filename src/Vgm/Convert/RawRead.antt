-- ===== src/Vgm/Convert/RawRead.antt =====
-- src/vgm.c: the stream of `vgm_convert` read back, for a song whose pitch stays as it is.
use qlvgm.Prelude.{ℕ, ◌+◌, ◌^◌, ◌<◌, ◌≡◌, refl, ap, sym, ◌∙◌, subst}
use qlvgm.Prelude.{Bool, true, false, Bool-cases, inl, inr, u32}
use qlvgm.Prelude.{List, [], ◌++◌, append-nil, length, take, drop, take-length, drop-append_length}
use qlvgm.Prelude.{ok, >>=-eq-ok, some}
use qlvgm.Vgm.Song.{Song, Write, no_loop}
use qlvgm.Vgm.Parse.Whole.{IsSong}
use qlvgm.Vgm.Converter.Emits.{IsRaw}
use qlvgm.Vgm.Convert.{Converted, Segment, intro, with_loop, convert, checked, new_converter}
use qlvgm.Vgm.Convert.Raw.{raw_frames, write_pairs, IsRawSegment, intro_writes, intro-IsRawSegment}
use qlvgm.Vgm.Convert.RawSong.{checked-ok, IsRawLoop, with_loop-IsRawLoop}
use qlvgm.Vgm.Played.{stream_bytes, length-frames_from}
use qlvgm.Vgm.Played.Order.{concat}
use qlvgm.Vgm.Played.Read.{read_frames, read_frames-stream_bytes}

-- A reader of `bytes` finds the writes in `n` frames, in the order of the song, and leaves `rest`.
abbrev pub Reads : ℕ → ℕ → List Write → ℕ → List ℕ → List ℕ → Type 0
Reads start rate ws n bytes rest =
    (read_frames n bytes ≡ some (raw_frames start rate ws n, rest))
    × (concat (raw_frames start rate ws n) ≡ write_pairs ws)

-- Without a loop the stream is the song. With one it is the part before the loop, and from the loop
-- offset on the loop, once.
pub record ReadsBack (song : Song) (rate : ℕ) (v : Converted) : Type 0 where
  pub whole :
      song.has_loop ≡ false
      → (v.loop_offset ≡ no_loop) × Reads 0 rate song.writes v.frame_count v.stream.bytes []
  pub looped :
      song.has_loop ≡ true
      → (n : ℕ) × (v.frame_count ≡ u32 (n + v.loop_frame_count))
        × Reads 0 rate
            (take song.loop_write song.writes)
            n
            v.stream.bytes
            (drop v.loop_offset v.stream.bytes)
        × Reads song.loop_sample rate
            (drop song.loop_write song.writes)
            v.loop_frame_count
            (drop v.loop_offset v.stream.bytes)
            []

intro-Reads :
    (rate n : ℕ) (song : Song) (s : Segment) (bytes rest : List ℕ) (ws : List Write)
    → intro_writes song ≡ ws
    → IsRawSegment 0 rate (intro_writes song) s
    → s.frame_count ≡ n
    → bytes ≡ s.output.bytes ++ rest
    → Reads 0 rate ws n bytes rest
intro-Reads rate n song s bytes rest ws same h count all =
    let frames = raw_frames 0 rate (intro_writes song) s.frame_count in
    subst (λ us. Reads 0 rate us n bytes rest) same
      (subst (λ k. Reads 0 rate (intro_writes song) k bytes rest) count
        (
          ap (read_frames s.frame_count) (all ∙ ap (◌++ rest) h.bytes)
              ∙ ap (λ k. read_frames k (stream_bytes frames ++ rest))
                  (sym (length-frames_from 0 s.frame_count _))
              ∙ read_frames-stream_bytes frames rest h.short,
          h.complete,
        ))

module _ (grants : ℕ → Bool) where
  whole-ReadsBack :
      (song : Song) (rate : ℕ) (start : Segment) (v : Converted)
      → song.write_count ≡ length song.writes
      → song.has_loop ≡ false
      → IsRawSegment 0 rate (intro_writes song) start
      → v.stream ≡ start.output
      → v.frame_count ≡ start.frame_count
      → v.loop_offset ≡ no_loop
      → ReadsBack song rate v
  whole-ReadsBack song rate start v counted none h stream count offset = record {
    whole = λ _. (
      offset,
      intro-Reads rate v.frame_count song start v.stream.bytes [] song.writes
          (rw (none, counted) (take-length song.writes)) h (sym count)
          (ap (λ b. b.bytes) stream ∙ sym (append-nil start.output.bytes)),
    );
    looped = λ some. absurd (cc (some, none));
  }

  looped-ReadsBack :
      (song : Song) (rate : ℕ) (start : Segment) (v : Converted)
      → song.has_loop ≡ true
      → IsRawSegment 0 rate (intro_writes song) start
      → IsRawLoop song rate start v
      → ReadsBack song rate v
  looped-ReadsBack song rate start v loop h l =
      let frames =
        raw_frames song.loop_sample rate (drop song.loop_write song.writes) v.loop_frame_count in
      let behind : drop v.loop_offset v.stream.bytes ≡ stream_bytes frames =
        ap (λ n. drop n v.stream.bytes) (l.offset ∙ sym h.sized)
        ∙ ap (drop (length start.output.bytes)) l.bytes
        ∙ drop-append_length start.output.bytes (stream_bytes frames) in
      record {
        whole = λ none. absurd (cc (loop, none));
        looped = λ _. (
          start.frame_count,
          l.total,
          intro-Reads rate start.frame_count song start v.stream.bytes
              (drop v.loop_offset v.stream.bytes) (take song.loop_write song.writes)
              (rw (loop) refl) h refl (l.bytes ∙ ap (start.output.bytes ++◌) (sym behind)),
          (
            ap (read_frames v.loop_frame_count) (behind ∙ sym (append-nil (stream_bytes frames)))
                ∙ ap (λ k. read_frames k (stream_bytes frames ++ []))
                    (sym (length-frames_from 0 v.loop_frame_count _))
                ∙ read_frames-stream_bytes frames [] l.short,
            l.complete,
          ),
        );
      }

  -- For a song as `parse` returns it, with less than 2 ^ 32 writes and a total of less than 2 ^ 32 - 1
  -- samples, whose pitch is not to be converted or whose clock is the target's: in whatever stream
  -- `convert` returns, a reader finds, frame by frame, the writes of the song as they are and in
  -- their order; of a song with a loop it finds those before the loop, and from the loop offset on
  -- those of the loop, which is there once.
  pub convert-ReadsBack :
      (d : List ℕ) (song : Song) (rate : ℕ) (pitch_conversion : Bool) (v : Converted)
      → IsSong d song
      → song.write_count < 2 ^ 32
      → song.total_samples + 1 < 2 ^ 32
      → IsRaw (new_converter grants song pitch_conversion)
      → convert grants song rate pitch_conversion ≡ ok v
      → ReadsBack song rate v
  unfolding convert
  convert-ReadsBack d song rate pitch_conversion v sound small short raw e =
      let (start, went, rest) =
        >>=-eq-ok (intro grants song rate (new_converter grants song pitch_conversion)) _ e in
      let h =
        intro-IsRawSegment grants song rate (new_converter grants song pitch_conversion) start
          sound.ordered short raw went in
      elim (Bool-cases song.has_loop) [
        | inl loop ↦
            let (w, made, fine) =
              >>=-eq-ok (with_loop grants song rate start) (checked grants) (rw (loop) at rest) in
            looped-ReadsBack song rate start v loop h (
              subst (IsRawLoop song rate start) (checked-ok grants w v fine) (
                with_loop-IsRawLoop grants song rate start w sound.counted small short
                  (sound.loops loop) h.raw made))
        | inr none ↦
            let is = checked-ok grants _ v (rw (none) at rest) in
            whole-ReadsBack song rate start v sound.counted none h
              (ap (λ (t : Converted). t.stream) (sym is))
              (ap (λ (t : Converted). t.frame_count) (sym is))
              (ap (λ (t : Converted). t.loop_offset) (sym is))
      ]
