-- ===== src/Qlay/Sector.antt =====
-- src/qlay.c: the checksum and one encoded sector. A sector is an array by its indices, of which
-- the first 686 count.
pub mod Sealed
pub mod Fields
mod Tests
use qlvgm.Prelude.{ℕ, zero, suc, ◌+◌, ◌-◌, bit_and, List, [], ◌∷◌, u16, u32}
use qlvgm.Qlay.Bytes.{Array, put, fill, write_le16, write_be16}

abbrev pub sector_size : ℕ
sector_size = 686

abbrev pub data_size : ℕ
data_size = 512

abbrev checksum_seed : ℕ
checksum_seed = 0x0F0F

pub checksum_loop : Array → ℕ → ℕ → ℕ → ℕ
checksum_loop a zero at sum = sum
checksum_loop a (suc left) at sum = checksum_loop a left (at + 1) (bit_and (u32 (sum + a at)) 65535)

-- `qlay_checksum(a + at, size)`
pub checksum : Array → ℕ → ℕ → ℕ
unfolding checksum_loop
checksum a at size = u16 (checksum_loop a size at checksum_seed)

-- The sector header with its checksum.
pub sector_header : ℕ → List ℕ → ℕ → Array → Array
sector_header logical medium_name random_id a =
    let named = put 14 medium_name (put 12 (0xFF ∷ logical ∷ []) (put 10 (0xFF ∷ 0xFF ∷ []) a)) in
    let header = write_be16 24 random_id named in write_le16 26 (checksum header 12 14) header

-- The block header with its checksum.
pub block_header : ℕ → ℕ → Array → Array
block_header file_id block a =
    let header = put 40 (file_id ∷ block ∷ []) (put 38 (0xFF ∷ 0xFF ∷ []) a) in
    write_le16 42 (checksum header 40 2) header

-- The data with its checksum.
pub data_block : List ℕ → Array → Array
data_block payload a =
    let data' = put 52 payload (put 50 (0xFF ∷ 0xFF ∷ []) a) in
    write_le16 564 (checksum data' 52 data_size) data'

pub encode_sector : ℕ → List ℕ → ℕ → ℕ → ℕ → List ℕ → Array
encode_sector logical medium_name random_id file_id block payload =
    fill 566 0x5A (sector_size - 566) (
      data_block payload
        (block_header file_id block (sector_header logical medium_name random_id (λ j. 0))))
