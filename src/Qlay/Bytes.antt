-- ===== src/Qlay/Bytes.antt =====
-- src/qlay.c: arrays of bytes by their indices, `memcpy` and `memset` into them, and the writes of
-- fixed-width numbers.
pub mod Laws
use qlvgm.Prelude.{ℕ, zero, suc, ◌+◌, ◌-◌, ◌*◌, ◌/◌, ◌^◌, ltb, leb, ◌==◌, ◌&&◌, if◌then◌else◌}
use qlvgm.Prelude.{List, [], ◌∷◌, length, u8, u16}
use qlvgm.Buffer.{byte_at}

abbrev pub Array : Type 0
Array = ℕ → ℕ

-- `memcpy(a + at, bytes, ...)`
pub put : ℕ → List ℕ → Array → Array
put at bytes a j = if leb at j && ltb j (at + length bytes) then byte_at bytes (j - at) else a j

-- `memset(a + at, value, count)`
pub fill : ℕ → ℕ → ℕ → Array → Array
fill at value count a j = if leb at j && ltb j (at + count) then value else a j

-- `a[at] = value`
pub assign : ℕ → ℕ → Array → Array
assign at value a j = if j == at then value else a j

-- The first `n` bytes from `at` on, as a list.
pub bytes_of : ℕ → ℕ → Array → List ℕ
bytes_of zero at a = []
bytes_of (suc n) at a = a at ∷ bytes_of n (at + 1) a

pub write_le16 : ℕ → ℕ → Array → Array
write_le16 at value a = put at (u8 value ∷ u8 (value / 2 ^ 8) ∷ []) a

pub write_be16 : ℕ → ℕ → Array → Array
write_be16 at value a = put at (u8 (value / 2 ^ 8) ∷ u8 value ∷ []) a

pub write_be32 : ℕ → ℕ → Array → Array
unfolding write_be16
write_be32 at value a = write_be16 (at + 2) (u16 value) (write_be16 at (u16 (value / 2 ^ 16)) a)
