-- ===== src/Qlz/Stream.antt =====
-- src/qlz.c: `qlz_stream_create`, the header before the payload.
pub mod Header
use qlvgm.Prelude.{ℕ, ◌/◌, ◌^◌, if◌then◌else◌, Bool, true, false, List, [], ◌∷◌, length, u8}
use qlvgm.Prelude.{Result, ok, err, ◌>>=◌}
use qlvgm.Buffer.{ByteBuffer, empty, append, seq}
use qlvgm.Qlz.Compress.{CompressError, no_memory_collecting_stream, compress_payload}

-- `qlz_stream`
pub record Stream : Type 0 where
  pub contents : ByteBuffer
  pub raw_size : ℕ

abbrev pub magic : List ℕ
magic = b'Q' ∷ b'L' ∷ b'Z' ∷ b'1' ∷ []

abbrev pub be32_bytes : ℕ → List ℕ
be32_bytes value = u8 (value / 2 ^ 24) ∷ u8 (value / 2 ^ 16) ∷ u8 (value / 2 ^ 8) ∷ u8 value ∷ []

module _ (grants : ℕ → Bool) where
  pub append_be32 : ByteBuffer → ℕ → ByteBuffer × Bool
  append_be32 buffer value = append grants buffer (be32_bytes value)

  -- The four writes, joined by `&&`.
  pub collect : ByteBuffer → ℕ → ByteBuffer × Bool
  unfolding append_be32
  collect payload raw_size = seq (append grants empty magic) λ a.
      seq (append_be32 a raw_size)
        λ b. seq (append_be32 b payload.size) λ c. append grants c payload.bytes

  collected : ℕ → ByteBuffer × Bool → Result CompressError Stream
  collected raw_size (contents, true) = ok (record { contents = contents; raw_size = raw_size })
  collected raw_size (contents, false) = err no_memory_collecting_stream

  pub stream_create : ByteBuffer → Result CompressError Stream
  stream_create input = do
    payload ← compress_payload grants input.bytes empty
    collected input.size (collect payload input.size)
