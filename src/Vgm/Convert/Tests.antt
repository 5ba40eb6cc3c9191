-- ===== src/Vgm/Convert/Tests.antt =====
-- The theorems on the stream at a song of two writes.
use qlvgm.Prelude.{◌≡◌, refl, true, false, [], ◌∷◌, List, ok, arith, drop, some, ◌++◌}
use qlvgm.Buffer.{empty, append, append_byte, append_be16, reserve, grow, store}
use qlvgm.Vgm.Song.{Write}
use qlvgm.Vgm.Converter.{
  Converter, update, emit, emit_changed, emit_psg_pair, scale_period, write, write_scaled,
  nearest_period,
}
use qlvgm.Vgm.Parse.Tests.{granted, tune, tune_song, parsed}
use qlvgm.Vgm.Parse.Whole.{parse-IsSong}
use qlvgm.Vgm.Convert.{
  Converted, Segment, convert, segment, intro, with_loop, looped, loop_pass, joined, checked,
  same_bytes, count_frames, duration_frames, batch, collect, append_frame, written, finish,
}
use qlvgm.Vgm.Convert.RawRead.{ReadsBack, convert-ReadsBack}
use qlvgm.Vgm.Convert.Streamed.{segment-play_frames}
use qlvgm.Vgm.Played.{Pair, stream_bytes}
use qlvgm.Vgm.Played.Read.{read_frames}
use qlvgm.Vgm.Played.Order.{play_frames}

abbrev tune_stream : Converted
tune_stream = record {
  stream = record {
    bytes = 0 ∷ 1 ∷ 0 ∷ 5 ∷ 0 ∷ 1 ∷ 1 ∷ 6 ∷ [];
    size = 8;
    capacity = 256;
    failed = false;
  };
  loop_offset = 4;
  frame_count = 2;
  loop_frame_count = 1;
  clipped_values = 0;
}

tune_converted : convert granted tune_song 50 false ≡ ok tune_stream
unfolding convert segment intro with_loop looped loop_pass joined checked same_bytes count_frames
    duration_frames batch collect append_frame written finish write emit append append_be16
    append_byte reserve grow store
tune_converted = refl

convert-ReadsBack_example : ReadsBack tune_song 50 tune_stream
convert-ReadsBack_example =
    convert-ReadsBack granted tune tune_song 50 false tune_stream
      (parse-IsSong granted tune tune_song (omega arith) parsed) (omega arith) (omega arith) refl
      tune_converted

-- A tone of a chip at 3993600 Hz.
abbrev tone : List Write
tone = record { sample = 0; reg = 0; value = 100 } ∷ []

abbrev tone_start : Converter
tone_start = record {
  source = λ i. 0;
  target = λ i. 0;
  target_known = λ i. false;
  source_clock = 3993600;
  clipped_values = 0;
  fm_high_latch = 0;
  fm_channel3_high_latch = 0;
  pitch_conversion = true;
}

abbrev tone_segment : Segment
tone_segment = record {
  converter = record tone_start {
    source = update (λ i. 0) 0 100;
    target = update (update (λ i. 0) 0 50) 1 0;
    target_known = update (update (λ i. false) 0 true) 1 true;
  };
  output = record { bytes = 0 ∷ 2 ∷ 0 ∷ 50 ∷ 1 ∷ 0 ∷ []; size = 6; capacity = 256; failed = false };
  frame_count = 1;
}

tone_converted : segment granted tone 0 882 50 tone_start empty ≡ ok tone_segment
unfolding segment count_frames duration_frames batch collect append_frame written finish write
    write_scaled emit_psg_pair scale_period nearest_period emit_changed emit append append_be16
    append_byte reserve grow store
tone_converted = refl

segment-play_frames_example :
    (frames : List (List Pair)) × (read_frames 1 (drop 0 tone_segment.output.bytes)
      ≡ some (frames, []))
    × (tone_segment.output.bytes ≡ [] ++ stream_bytes frames)
    × (play_frames (λ i. 0) frames ≡ tone_segment.converter.target)
segment-play_frames_example =
    segment-play_frames granted tone 0 0 0 882 50 tone_start empty tone_segment
      (omega arith, omega arith) (omega arith) (omega arith) tone_converted
