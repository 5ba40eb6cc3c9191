-- ===== src/Buffer/Tests.antt =====
-- The theorems on the byte buffer at concrete inputs.
use qlvgm.Prelude.{ℕ, refl, Bool, true, false, [], ◌∷◌, arith}
use qlvgm.Buffer.{ByteBuffer, append}
use qlvgm.Buffer.Laws.{IsWellFormed, append-IsWellFormed}

abbrev some_memory : ℕ → Bool
some_memory n = true

abbrev three_bytes : ByteBuffer
three_bytes = record { bytes = 1 ∷ 2 ∷ 3 ∷ []; size = 3; capacity = 4; failed = false }

three_bytes_sound : IsWellFormed three_bytes
three_bytes_sound = record { counted = refl; fits = omega arith; bounded = omega arith }

append-IsWellFormed_example : IsWellFormed (append some_memory three_bytes (4 ∷ 5 ∷ [])).0
append-IsWellFormed_example =
    append-IsWellFormed some_memory three_bytes (4 ∷ 5 ∷ []) three_bytes_sound
