-- ===== src/Assemble/Tests.antt =====
-- The theorem on the player's source at a system on which every call succeeds.
use qlvgm.Prelude.{ℕ, List, [], ◌∷◌}
use qlvgm.Assemble.{Numbers}

abbrev small_numbers : Numbers
small_numbers = record {
  rate = 50;
  raw_size = 8;
  loop_offset = 4;
  test_frames = 0;
  compressed = 1 ∷ 2 ∷ 3 ∷ [];
}

-- Every file has the bytes of `a:`.
abbrev a_label : List ℕ → List ℕ
a_label path = 97 ∷ 58 ∷ []
