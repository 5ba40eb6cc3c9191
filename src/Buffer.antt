-- ===== src/Buffer.antt =====
-- src/runtime.c: the growing byte buffer, and the fixed-width reads. `grants n` says whether
-- `realloc` or `malloc` gives `n` bytes.
pub mod Laws
pub mod Writes
pub mod Endian
mod Tests
use qlvgm.Prelude.{ℕ, zero, suc, ◌+◌, ◌-◌, ◌*◌, ◌/◌, ◌%◌, ◌^◌, bit_or, ltb, leb, ◌==◌}
use qlvgm.Prelude.{if◌then◌else◌, Bool, true, false, ◌||◌, List, [], ◌∷◌, ◌++◌, length, get_or}
use qlvgm.Prelude.{u8, u16, u32, u32_max}

-- `bytes` are `data[0 .. size)`; what `realloc` leaves behind them is never read.
pub record ByteBuffer : Type 0 where
  pub bytes : List ℕ
  pub size : ℕ
  pub capacity : ℕ
  pub failed : Bool

-- `byte_buffer b = { 0 }`, and what `buffer_free` leaves.
abbrev pub empty : ByteBuffer
empty = record { bytes = []; size = 0; capacity = 0; failed = false }

pub free : ByteBuffer → ByteBuffer
free b = empty

-- The doubling loop of `buffer_reserve`. A capacity that is not 0 reaches any `needed` in 32 rounds.
unfoldable pub grow : ℕ → ℕ → ℕ → ℕ
grow zero capacity needed = capacity
grow (suc fuel) capacity needed = elim (ltb capacity needed) [
  | false ↦ capacity
  | true ↦ elim (ltb (u32_max / 2) capacity) [
    | true ↦ needed
    | false ↦ grow fuel (u32 (capacity * 2)) needed
  ]
]

module _ (grants : ℕ → Bool) where
  unfoldable pub reserve : ByteBuffer → ℕ → ByteBuffer × Bool
  reserve b extra =
      if b.failed || ltb (u32_max - b.size) extra
      then (record b { failed = true }, false)
      else let needed = u32 (b.size + extra) in
        if leb needed b.capacity
        then (b, true)
        else let capacity = grow 32 (if b.capacity == 0 then 256 else b.capacity) needed in
          if grants capacity
          then (record b { capacity = capacity }, true)
          else (record b { failed = true }, false)

  -- `memcpy` behind the bytes that are there.
  unfoldable pub store : List ℕ → ByteBuffer × Bool → ByteBuffer × Bool
  store data' (b, true) =
      (record b { bytes = b.bytes ++ data'; size = u32 (b.size + length data') }, true)
  store data' (b, false) = (b, false)

  -- A pointer and a size are one list.
  unfoldable pub append : ByteBuffer → List ℕ → ByteBuffer × Bool
  unfolding store
  append b data' = if length data' == 0 then (b, true) else store data' (reserve b (length data'))

  unfoldable pub append_byte : ByteBuffer → ℕ → ByteBuffer × Bool
  append_byte b value = append b (value ∷ [])

  unfoldable pub append_be16 : ByteBuffer → ℕ → ByteBuffer × Bool
  append_be16 b value = append b (u8 (value / 2 ^ 8) ∷ u8 value ∷ [])

-- `first && second` on one buffer: the second write is made only if the first returned true.
abbrev pub seq : ByteBuffer × Bool → (ByteBuffer → ByteBuffer × Bool) → ByteBuffer × Bool
seq (b, true) next = next b
seq (b, false) next = (b, false)

-- A read at an offset of an array.
abbrev pub byte_at : List ℕ → ℕ → ℕ
byte_at bytes i = get_or bytes i 0

unfoldable pub read_le16 : List ℕ → ℕ → ℕ
read_le16 d at = bit_or (byte_at d at) (byte_at d (at + 1) * 2 ^ 8)

unfoldable pub read_le32 : List ℕ → ℕ → ℕ
read_le32 d at =
    bit_or
      (bit_or (bit_or (byte_at d at) (byte_at d (at + 1) * 2 ^ 8)) (byte_at d (at + 2) * 2 ^ 16))
      (byte_at d (at + 3) * 2 ^ 24)
