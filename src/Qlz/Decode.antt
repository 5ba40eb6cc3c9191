-- ===== src/Qlz/Decode.antt =====
-- src/qlz.c: `qlz_decode`. The array from `input_at` to `input_end` is the list `unread`.
pub mod Output
pub mod Follows
pub mod Whole
pub mod Sound
pub mod Answers
pub mod Total
use qlvgm.Prelude.{ℕ, zero, suc, ◌+◌, ◌-◌, ◌*◌, ◌/◌, ◌^◌, bit_and, bit_or, ltb, leb, ◌==◌, ◌&&◌}
use qlvgm.Prelude.{◌||◌, not, if◌then◌else◌, Bool, true, false, List, [], ◌∷◌, length, take, drop}
use qlvgm.Prelude.{sub32, u32, Result, ok, err, ◌>>=◌, ◌>>◌, fail_if}
use qlvgm.Buffer.{ByteBuffer, reserve, append, append_byte, byte_at}
use qlvgm.Qlz.Match.{match_min}

-- The texts of `error_set`; `out_of_rounds` is none of them, but the loop below without fuel.
pub data DecodeError : Type 0 where
  invalid_header invalid_sizes truncated_payload invalid_literal : DecodeError
  truncated_short_match truncated_long_match zero_distance : DecodeError
  invalid_continuation invalid_match trailing_payload out_of_rounds : DecodeError

abbrev pub header_bytes : ℕ
header_bytes = 12

unfoldable pub read_be32 : List ℕ → ℕ → ℕ
read_be32 d at =
    bit_or
      (bit_or (bit_or (byte_at d at * 2 ^ 24) (byte_at d (at + 1) * 2 ^ 16))
        (byte_at d (at + 2) * 2 ^ 8))
      (byte_at d (at + 3))

unfoldable pub has_magic : List ℕ → Bool
has_magic d =
    byte_at d 0 == b'Q' && byte_at d 1 == b'L' && byte_at d 2 == b'Z' && byte_at d 3 == b'1'

-- The variables of the loop.
pub record Decoder : Type 0 where
  pub unread : List ℕ
  pub output : ByteBuffer
  pub last_distance : ℕ
  pub can_continue : Bool

-- `last_distance` as the packet of this type sets it, and what is unread then.
pub read_distance : ℕ → Decoder → Result DecodeError (ℕ × List ℕ)
read_distance type s =
    if type == 1
    then if length s.unread == 0
      then err truncated_short_match
      else ok (byte_at s.unread 0 + 1, drop 1 s.unread)
    else if type == 2
    then if ltb (length s.unread) 2
      then err truncated_long_match
      else (let distance = bit_or (byte_at s.unread 0 * 2 ^ 8) (byte_at s.unread 1) in
          if distance == 0 then err zero_distance else ok (distance, drop 2 s.unread))
    else if not s.can_continue
    then err invalid_continuation
    else ok (s.last_distance, s.unread)

module _ (grants : ℕ → Bool) where
  -- `for (i = 0; i < length; i += 1)`, by the rounds that are left.
  pub copy_loop : ℕ → ℕ → ByteBuffer → ByteBuffer
  copy_loop zero distance output = output
  copy_loop (suc left) distance output =
      copy_loop left distance
        (append_byte grants output (byte_at output.bytes (sub32 output.size distance))).0

  pub literal_packet : ℕ → Decoder → ℕ → Result DecodeError Decoder
  literal_packet output_end s control =
      let n = bit_and control 0x3F + 1 in
      if ltb (length s.unread) n || ltb (sub32 output_end s.output.size) n
      then err invalid_literal
      else ok (record {
        unread = drop n s.unread;
        output = (append grants s.output (take n s.unread)).0;
        last_distance = s.last_distance;
        can_continue = false;
      })

  pub match_packet : ℕ → ℕ → Decoder → ℕ → ℕ × List ℕ → Result DecodeError Decoder
  match_packet output_start output_end s control (distance, unread) =
      let n = bit_and control 0x3F + match_min in
      if ltb (sub32 s.output.size output_start) distance || ltb (sub32 output_end s.output.size) n
      then err invalid_match
      else ok (record {
        unread = unread;
        output = copy_loop n distance s.output;
        last_distance = distance;
        can_continue = true;
      })

  -- The body of the loop, from the control byte on.
  pub packet : ℕ → ℕ → Decoder → ℕ → Result DecodeError Decoder
  unfolding literal_packet read_distance match_packet
  packet output_start output_end s control =
      let type = control / 2 ^ 6 in
      if type == 0
      then literal_packet output_end s control
      else read_distance type s >>= match_packet output_start output_end s control

  pub round : ℕ → ℕ → List ℕ → Decoder → Result DecodeError Decoder
  round output_start output_end [] s = err truncated_payload
  round output_start output_end (control ∷ unread) s =
      packet output_start output_end (record s { unread = unread }) control

  -- `while (output->size < output_end)`; each round takes a byte at least.
  pub decode_loop : ℕ → ℕ → ℕ → Decoder → Result DecodeError ByteBuffer
  decode_loop zero output_start output_end s = err out_of_rounds
  decode_loop (suc fuel) output_start output_end s = elim (ltb s.output.size output_end) [
    | true ↦ round output_start output_end s.unread s >>= decode_loop fuel output_start output_end
    | false ↦ if length s.unread == 0 then ok s.output else err trailing_payload
  ]

  -- The checks of the sizes, and the start of the loop.
  pub enter : List ℕ → ℕ → ByteBuffer × Bool → Result DecodeError ByteBuffer
  enter payload decoded_size (output, false) = err invalid_sizes
  enter payload decoded_size (output, true) =
      decode_loop (suc (length payload)) output.size (u32 (output.size + decoded_size))
        (record { unread = payload; output = output; last_distance = 0; can_continue = false })

  pub decode : List ℕ → ByteBuffer → Result DecodeError ByteBuffer
  decode input output =
      if ltb (length input) header_bytes || not (has_magic input)
      then err invalid_header
      else let decoded_size = read_be32 input 4 in
        let payload_size = read_be32 input 8 in
        if not (payload_size == length input - header_bytes)
        then err invalid_sizes
        else enter (drop header_bytes input) decoded_size (reserve grants output decoded_size)
