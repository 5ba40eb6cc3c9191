-- ===== src/Buffer/Endian.antt =====
-- src/runtime.c: the fixed-width reads as sums.
use qlvgm.Prelude.{ℕ, ◌+◌, ◌*◌, ◌^◌, ◌<◌, ◌≡◌, arith, List, bit_or}
use qlvgm.Prelude.Bits.{bit_or-shifted, bit_or_comm}
use qlvgm.Buffer.{byte_at, read_le16, read_le32}

-- `r | q << k` is a sum when `r` has at most `k` bits.
pub bit_or-low : (k q r : ℕ) → r < 2 ^ k → bit_or r (q * 2 ^ k) ≡ r + q * 2 ^ k
bit_or-low k q r h = omega (arith, bit_or_comm r (q * 2 ^ k), bit_or-shifted k q r h)

abbrev pub BytesAt : List ℕ → Type 0
BytesAt d = (i : ℕ) → byte_at d i < 256

pub read_le16-sum :
    (d : List ℕ) (at : ℕ) → BytesAt d → read_le16 d at ≡ byte_at d at + byte_at d (at + 1) * 256
unfolding read_le16
read_le16-sum d at h = bit_or-low 8 (byte_at d (at + 1)) (byte_at d at) (h at)

-- Of bytes below 256, `read_le32` gives the sum of the four, each times its power of 256.
pub read_le32-sum :
    (d : List ℕ) (at : ℕ)
    → BytesAt d
    → read_le32 d at
      ≡ byte_at d at
        + byte_at d (at + 1) * 256
        + byte_at d (at + 2) * 65536
        + byte_at d (at + 3) * 16777216
unfolding read_le32
read_le32-sum d at h =
    let a = byte_at d at in
    let b = byte_at d (at + 1) in
    let c = byte_at d (at + 2) in
    let e = byte_at d (at + 3) in
    ground (
      arith,
      h at,
      h (at + 1),
      h (at + 2),
      bit_or-low 8 b a,
      bit_or-low 16 c (a + b * 256),
      bit_or-low 24 e (a + b * 256 + c * 65536),
    )
