-- ===== src/Qlz/RoundTrip.antt =====
-- src/qlz.c: `qlz_decode` behind `qlz_stream_create`.
use qlvgm.Prelude.{ℕ, ◌+◌, ◌/◌, ◌≤◌, ◌<◌, ◌^◌, ◌≡◌, arith, Bool, true, length, ap, ◌∙◌, sym}
use qlvgm.Prelude.{ok, take-length, ◌++◌}
use qlvgm.Buffer.{ByteBuffer, empty}
use qlvgm.Buffer.Laws.{IsWellFormed}
use qlvgm.Qlz.Stream.{Stream, magic, be32_bytes, stream_create}
use qlvgm.Qlz.Stream.Header.{stream_create-IsStream}
use qlvgm.Qlz.Decode.{decode}
use qlvgm.Qlz.Decode.Whole.{decode-Run}

module _ (grants : ℕ → Bool) (input : ByteBuffer) (sound : IsWellFormed input)
    (small : length input.bytes < 2 ^ 31) where
  -- For a well-formed input buffer of less than 2 ^ 31 bytes and any allocator of the compressor:
  -- whatever stream `stream_create` returns, `decode` turns its bytes back into the input, if the
  -- decoder's own allocator grants every request.
  pub decode-stream_create :
      (output_grants : ℕ → Bool) (s : Stream)
      → stream_create grants input ≡ ok s
      → ((n : ℕ) → output_grants n ≡ true)
      → (b : ByteBuffer) × (decode output_grants s.contents.bytes empty ≡ ok b)
        × (b.bytes ≡ input.bytes)
  decode-stream_create output_grants s e all =
      let h = stream_create-IsStream grants input s small e in
      let ((w, run, out), few) = h.encodes in
      let whole : w.out ≡ input.bytes = out ∙ take-length input.bytes in
      let n : length w.out ≡ input.size = ap length whole ∙ sound.counted in
      let (b, decoded, held) =
        decode-Run output_grants h.payload.bytes w run (omega (arith, n, sound.counted))
          (omega (arith, h.sound.counted, h.sound.fits, h.sound.bounded)) all in
      let text : s.contents.bytes
          ≡ magic
            ++ (be32_bytes (length w.out)
                ++ (be32_bytes (length h.payload.bytes) ++ h.payload.bytes)) =
        h.written
        ∙ ap (λ k. magic ++ (be32_bytes k ++ (be32_bytes h.payload.size ++ h.payload.bytes)))
            (sym n)
        ∙ ap (λ k. magic ++ (be32_bytes (length w.out) ++ (be32_bytes k ++ h.payload.bytes)))
            (sym h.sound.counted) in
      (b, ap (λ bytes. decode output_grants bytes empty) text ∙ decoded, held ∙ whole)

  -- For a well-formed input buffer of less than 2 ^ 31 bytes: a stream that `stream_create` returns
  -- has the size of the input as its `raw_size`, and at most 12 bytes more than the input and one
  -- for every 64 input bytes or part of 64.
  pub stream_create_size :
      (s : Stream)
      → stream_create grants input ≡ ok s
      → (s.raw_size ≡ length input.bytes)
        × (length s.contents.bytes ≤ 12 + (length input.bytes + (length input.bytes + 63) / 64))
  stream_create_size s e =
      let h = stream_create-IsStream grants input s small e in
      let (_, few) = h.encodes in
      (h.raw ∙ sym sound.counted, omega (arith, few, ap length h.written))
