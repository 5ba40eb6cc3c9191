-- ===== src/Vgm/Parse/Tests.antt =====
-- A small file for `parse`.
use qlvgm.Prelude.{ℕ, ◌≡◌, refl, Bool, true, List, [], ◌∷◌, ◌++◌, replicate, ok, arith, ◌≢◌, err}
use qlvgm.Vgm.Song.{Song, out_of_rounds, add_write, add_samples}
use qlvgm.Vgm.Parse.{
  parse, parse_header, scan, command, write_command, wait_command, wait, mark_loop, check_end,
  loop_start, data_start, is_vgm, is_timer_register,
}
use qlvgm.Vgm.Parse.Whole.{IsSong, parse-IsSong, parse-rounds}

abbrev pub granted : ℕ → Bool
granted n = true

-- Two writes, with the loop at the second.
abbrev pub tune : List ℕ
tune =
    (0x56 ∷ 0x67 ∷ 0x6D ∷ 0x20 ∷ 0x4F ∷ 0 ∷ 0 ∷ 0 ∷ 0x51 ∷ 1 ∷ 0 ∷ 0 ∷ [])
    ++ (replicate 12 0
        ++ ((0x51 ∷ 6 ∷ 0 ∷ 0 ∷ 0x30 ∷ 0 ∷ 0 ∷ 0 ∷ 0x72 ∷ 3 ∷ 0 ∷ 0 ∷ [])
            ++ (replicate 16 0
                ++ ((0x14 ∷ 0 ∷ 0 ∷ 0 ∷ [])
                    ++ (replicate 12 0
                        ++ ((0x80 ∷ 0x84 ∷ 0x1E ∷ 0 ∷ [])
                            ++ (0x55 ∷ 0 ∷ 5 ∷ 0x62 ∷ 0x55 ∷ 1 ∷ 6 ∷ 0x63 ∷ 0x66 ∷ 0 ∷ 0 ∷ [])))))))

abbrev pub tune_song : Song
tune_song = record {
  writes =
      record { sample = 0; reg = 0; value = 5 } ∷ record { sample = 735; reg = 1; value = 6 } ∷ [];
  write_count = 2;
  write_capacity = 4096;
  total_samples = 1617;
  loop_sample = 735;
  loop_write = 1;
  clock_hz = 2000000;
  has_loop = true;
}

pub parsed : parse granted tune ≡ ok tune_song
unfolding parse parse_header scan command write_command wait_command wait mark_loop check_end
    loop_start data_start is_vgm is_timer_register add_write add_samples qlvgm.Buffer.read_le16
    qlvgm.Buffer.read_le32
parsed = refl

parse-IsSong_example : IsSong tune tune_song
parse-IsSong_example = parse-IsSong granted tune tune_song (omega arith) parsed

parse-rounds_example : parse granted tune ≢ err out_of_rounds
parse-rounds_example = parse-rounds granted tune (omega arith)
