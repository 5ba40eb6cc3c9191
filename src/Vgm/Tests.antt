-- ===== src/Vgm/Tests.antt =====
-- The theorems on the song and the conversion at concrete inputs.
use qlvgm.Prelude.{ℕ, ◌≡◌, ◌≢◌, refl, true, [], ◌∷◌, ok, err, arith, ◌≤◌, ◌<◌, ◌*◌, ◌^◌, All}
use qlvgm.Vgm.Song.{Song, Write, no_song, add_write, target_clock}
use qlvgm.Vgm.Song.Array.{Stores, add_write-ok}
use qlvgm.Vgm.Converter.{absolute_difference, nearest_period, best_pitch, pitch_error}
use qlvgm.Vgm.Converter.Nearest.{nearest_period-IsNearest}
use qlvgm.Vgm.Converter.BestPitch.{IsPitch, best_pitch-IsNearest}
use qlvgm.Vgm.Parse.Tests.{granted, tune, tune_song, parsed}
use qlvgm.Vgm.Parse.Whole.{parse-IsSong}
use qlvgm.Vgm.Convert.{convert, event_order, count_frames, frame_index}
use qlvgm.Vgm.Convert.Frames.{count_frames-bounds}
use qlvgm.Vgm.Convert.Ordered.{convert-order}

convert-order_example : convert granted tune_song 50 true ≢ err event_order
convert-order_example =
    convert-order granted tune tune_song 50 true
      (parse-IsSong granted tune tune_song (omega arith) parsed) (omega arith)

count_frames-bounds_example :
    (n : ℕ) × (count_frames tune_song.writes 0 882 1 ≡ ok n)
    × (1 ≤ n)
    × All (λ w. frame_index 0 882 w.sample < n) tune_song.writes
count_frames-bounds_example =
    count_frames-bounds tune_song.writes 0 1617 0 882 1 (omega arith) (omega arith) (omega arith)

nearest_period-IsNearest_example :
    (1 ≤ nearest_period 3993600 200)
    × (absolute_difference (3993600 * nearest_period 3993600 200) (200 * target_clock)
        ≤ absolute_difference (3993600 * 101) (200 * target_clock))
nearest_period-IsNearest_example =
    nearest_period-IsNearest 3993600 200 101 (omega arith) (omega arith)

best_pitch-IsNearest_example :
    IsPitch (3993600 * 1000 * 2 ^ 4) (best_pitch 3993600 1000 4)
    × ((best_pitch 3993600 1000 4).error ≤ pitch_error (3993600 * 1000 * 2 ^ 4) 5 998)
best_pitch-IsNearest_example =
    best_pitch-IsNearest 3993600 1000 4 5 998 (omega arith) (omega arith) (omega arith)
      (omega arith) (omega arith)

abbrev one_write : Write
one_write = record { sample = 7; reg = 8; value = 9 }

abbrev one_stored : Song
one_stored = record no_song { writes = one_write ∷ []; write_count = 1; write_capacity = 4096 }

one_added : add_write granted no_song 7 8 9 ≡ ok one_stored
unfolding add_write
one_added = refl

add_write-ok_example : Stores no_song one_stored one_write
add_write-ok_example =
    add_write-ok granted no_song one_stored 7 8 9
      (record { counted = refl; fits = omega arith; bounded = omega arith }) one_added
