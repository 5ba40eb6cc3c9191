-- ===== src/Qlz/Decode/Whole.antt =====
-- src/qlz.c: `qlz_decode` on a whole stream, with the header, the sizes and the packets.
use qlvgm.Prelude.{ℕ, suc, ◌+◌, ◌-◌, ◌*◌, ◌/◌, ◌<◌, ◌^◌, ◌≡◌, refl, arith, Bool, true, false, List}
use qlvgm.Prelude.{[], ◌++◌, length, ap, ap₂, ◌∙◌, sym, u8, u32, ok, ◌==◌}
use qlvgm.Prelude.{ltb, le→ltb, ==_self, drop}
use qlvgm.Prelude.Bits.{bit_or-shifted}
use qlvgm.Buffer.{ByteBuffer, empty, reserve}
use qlvgm.Buffer.Laws.{reserve_granted}
use qlvgm.Qlz.Format.{Window, Run}
use qlvgm.Qlz.Stream.{magic, be32_bytes}
use qlvgm.Qlz.Decode.{read_be32, has_magic, enter, decode, decode_loop}
use qlvgm.Qlz.Decode.Follows.{decode_loop-Run}

-- For a value below 2 ^ 32, `read_be32` of the four bytes that `append_be32` writes gives it back,
-- whatever follows them.
pub read_be32-be32_bytes :
    (v : ℕ) (rest : List ℕ) → v < 2 ^ 32 → read_be32 (be32_bytes v ++ rest) 0 ≡ v
unfolding read_be32
read_be32-be32_bytes v rest small =
    let a = u8 (v / 2 ^ 24) in
    let b = u8 (v / 2 ^ 16) in
    let c = u8 (v / 2 ^ 8) in
    ground (
      arith,
      bit_or-shifted 24 a (b * 2 ^ 16) (omega arith),
      bit_or-shifted 16 (a * 256 + b) (c * 2 ^ 8) (omega arith),
      bit_or-shifted 8 (a * 65536 + b * 256 + c) (u8 v) (omega arith),
    )

module _ (grants : ℕ → Bool) where
  decode-enter :
      (input : List ℕ) (out : ByteBuffer) (n : ℕ)
      → ltb (length input) 12 ≡ false
      → has_magic input ≡ true
      → read_be32 input 4 ≡ n
      → (read_be32 input 8 == length input - 12) ≡ true
      → decode grants input out ≡ enter grants (drop 12 input) n (reserve grants out n)
  unfolding decode
  decode-enter input out n long named raw packed = rw (long, named, packed, raw)

  enter_started :
      (payload : List ℕ) (n : ℕ) (c : ByteBuffer)
      → c.size ≡ 0
      → n < 2 ^ 32
      → enter grants payload n (c, true)
        ≡ decode_loop grants
            (suc (length payload))
            0
            n
            (record { unread = payload; output = c; last_distance = 0; can_continue = false })
  unfolding enter
  enter_started payload n c none_yet small =
      let end : u32 (c.size + n) ≡ n = omega (arith, none_yet) in
      ap₂
        (λ (from to : ℕ).
          decode_loop grants (suc (length payload)) from to
            (record { unread = payload; output = c; last_distance = 0; can_continue = false }))
        none_yet end

  -- A stream with the header and with a payload that is a run of the packet format is decoded
  -- to the output of the run, if the output and the payload have less than 2 ^ 32 bytes and the
  -- allocator grants every request.
  pub decode-Run :
      (payload : List ℕ) (w : Window)
      → Run (record { out = []; distance = 0; is_open = false }) payload w
      → length w.out < 2 ^ 32
      → length payload < 2 ^ 32
      → ((n : ℕ) → grants n ≡ true)
      → (b : ByteBuffer) × (decode grants
            (magic ++ (be32_bytes (length w.out) ++ (be32_bytes (length payload) ++ payload)))
            empty
          ≡ ok b)
        × (b.bytes ≡ w.out)
  decode-Run payload w r small_out small all =
      let whole =
        magic ++ (be32_bytes (length w.out) ++ (be32_bytes (length payload) ++ payload)) in
      let long : ltb (length whole) 12 ≡ false = le→ltb _ _ (omega arith) in
      let raw : read_be32 whole 4 ≡ length w.out =
        unfold read_be32 in
        read_be32-be32_bytes (length w.out) (be32_bytes (length payload) ++ payload) small_out in
      let packed : read_be32 whole 8 ≡ length payload =
        unfold read_be32 in read_be32-be32_bytes (length payload) payload small in
      let rest : length whole - 12 ≡ length payload = omega arith in
      let (c, reserved, sound, fine, bytes, room) =
        reserve_granted grants empty (length w.out) (omega arith) refl (omega arith) all in
      let (b, loop, out) =
        decode_loop-Run grants (length w.out) small_out (suc (length payload))
          (record { unread = payload; output = c; last_distance = 0; can_continue = false }) r
          (record {
            output = record {
              sound = sound;
              fine = fine;
              room = omega (arith, room);
              held = bytes;
            };
            distance = refl;
            is_open = refl;
            known = λ e. cc;
          })
          refl refl (omega arith) in
      let named : has_magic whole ≡ true = unfold has_magic in refl in
      let checked : (read_be32 whole 8 == length whole - 12) ≡ true =
        rw (packed, rest) (==_self (length payload)) in
      let entered = decode-enter whole empty (length w.out) long named raw checked in
      let started =
        ap (enter grants payload (length w.out)) reserved
        ∙ enter_started payload (length w.out) c (sym sound.counted ∙ ap length bytes) small_out in
      (b, entered ∙ started ∙ loop, out)
