-- ===== src/Program/Tests.antt =====
-- The theorems on the generated programs at concrete inputs.
use qlvgm.Prelude.{ℕ, ◌+◌, ◌<◌, ◌≡◌, arith, List, [], ◌∷◌, ◌++◌, length, true, ok}
use qlvgm.Program.{data_rows, source_end, make_boot}
use qlvgm.Program.Data.{read_hex, outside, read_hex-data_rows}
use qlvgm.Program.Boot.{Asks, make_boot-Asks}

abbrev few_bytes : List ℕ
few_bytes = 0 ∷ 171 ∷ 255 ∷ []

read_hex-data_rows_example :
    read_hex (data_rows 3 few_bytes ++ source_end) outside
    ≡ few_bytes ++ read_hex source_end outside
read_hex-data_rows_example =
    read_hex-data_rows 3 few_bytes source_end (omega arith, (omega arith, (omega arith, tt)))
      (omega arith)

make_boot-Asks_example :
    (text : List ℕ) × (make_boot 1000 24000 true 4 ≡ ok text)
    × (length text < 192)
    × Asks (1000 + 24000) true 4 text
make_boot-Asks_example = make_boot-Asks 1000 24000 true 4 (omega arith) (omega arith)
