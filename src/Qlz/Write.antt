-- ===== src/Qlz/Write.antt =====
-- src/qlz.c: the packets of literals and of one match.
pub mod Bytes
pub mod Packets
pub mod Parts
pub mod Sizes
pub mod Matches
use qlvgm.Prelude.{ℕ, zero, suc, ◌+◌, ◌-◌, ◌*◌, ◌^◌, bit_or, ltb, leb, ◌==◌, ◌&&◌, not}
use qlvgm.Prelude.{if◌then◌else◌, Bool, true, false, List, take, drop, u8, u16, u32, sub32}
use qlvgm.Buffer.{ByteBuffer, append, append_byte, append_be16, seq}
use qlvgm.Qlz.Match.{Match, match_min, match_max}

abbrev pub literal_max : ℕ
literal_max = 64

-- `input[start .. start + count)`
abbrev pub slice : List ℕ → ℕ → ℕ → List ℕ
slice input start count = take count (drop start input)

pub match_part : ℕ → ℕ
match_part remaining =
    let count = if ltb match_max remaining then match_max else remaining in
    let tail = sub32 remaining count in
    if not (tail == 0) && ltb tail match_min then sub32 count (match_min - tail) else count

module _ (grants : ℕ → Bool) where
  -- `while (length != 0)`: each round takes a byte at least, so `length` rounds are enough.
  literals_loop : ℕ → ByteBuffer → List ℕ → ℕ → ℕ → ByteBuffer × Bool
  literals_loop zero payload input start n = (payload, true)
  literals_loop (suc fuel) payload input start n =
      let count = if ltb literal_max n then literal_max else n in
      elim (n == 0) [
        | true ↦ (payload, true)
        | false ↦ seq (append_byte grants payload (u8 (count - 1))) λ p.
            seq (append grants p (slice input start count))
              λ q. literals_loop fuel q input (u32 (start + count)) (n - count)
      ]

  pub write_literals : ByteBuffer → List ℕ → ℕ → ℕ → ByteBuffer × Bool
  unfolding literals_loop
  write_literals payload input start n = literals_loop n payload input start n

  -- `while (remaining != 0)`
  continue_loop : ℕ → ByteBuffer → ℕ → ByteBuffer × Bool
  continue_loop zero payload remaining = (payload, true)
  continue_loop (suc fuel) payload remaining =
      let count = match_part remaining in
      elim (remaining == 0) [
        | true ↦ (payload, true)
        | false ↦
            seq (append_byte grants payload (bit_or 0xC0 (u8 (sub32 count match_min))))
              λ p. continue_loop fuel p (sub32 remaining count)
      ]

  -- The control byte and the distance of a match.
  match_head : ByteBuffer → Match → ℕ → ByteBuffer × Bool
  match_head payload m length_code =
      if leb m.distance 256
      then seq (append_byte grants payload (bit_or 0x40 length_code))
          (λ p. append_byte grants p (u8 (sub32 m.distance 1)))
      else seq (append_byte grants payload (bit_or 0x80 length_code))
          (λ p. append_be16 grants p (u16 m.distance))

  pub write_match : ByteBuffer → Match → ByteBuffer × Bool
  unfolding match_head continue_loop
  write_match payload m =
      let count = match_part m.length in
      seq (match_head payload m (u8 (sub32 count match_min)))
        λ p. continue_loop m.length p (sub32 m.length count)
