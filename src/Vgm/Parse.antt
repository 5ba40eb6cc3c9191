-- ===== src/Vgm/Parse.antt =====
-- src/vgm.c: `vgm_parse`. `data` and `size` are one list; positions are indices into it.
pub mod Order
pub mod Commands
pub mod Errors
pub mod Rounds
pub mod Whole
pub mod Tests
use qlvgm.Prelude.{ℕ, zero, suc, ◌+◌, ◌-◌, ltb, leb, ◌==◌, if◌then◌else◌, Bool, true, false, not}
use qlvgm.Prelude.{
  ◌&&◌, ◌||◌, List, length, u32, bit_and, sub32, Result, ok, err, ◌>>=◌, ◌>>◌, fail_if,
}
use qlvgm.Buffer.{byte_at, read_le16, read_le32}
use qlvgm.Vgm.Song.{Song, no_song, target_clock, fixture_clock, ParseError, add_write, add_samples}
use qlvgm.Vgm.Song.{unsupported_file, invalid_eof, invalid_data_offset, flagged_clock}
use qlvgm.Vgm.Song.{invalid_loop_offset, unsupported_version, unsupported_clock}
use qlvgm.Vgm.Song.{unsupported_register, truncated_write, truncated_wait, unsupported_command}
use qlvgm.Vgm.Song.{sample_mismatch, no_end, no_samples, loop_off_boundary, loop_mismatch}
use qlvgm.Vgm.Song.{samples_without_loop, out_of_rounds}

-- What the header says, once it has been checked.
pub record Header : Type 0 where
  pub eof : ℕ
  pub data_offset : ℕ
  pub clock : ℕ
  pub has_loop : Bool
  pub loop_offset : ℕ

pub is_vgm : List ℕ → Bool
is_vgm d = byte_at d 0 == b'V' && byte_at d 1 == b'g' && byte_at d 2 == b'm' && byte_at d 3 == b' '

-- `data_offset`, from the relative offset at 0x34.
pub data_start : ℕ → ℕ
data_start relative_data = if relative_data == 0 then 0x40 else u32 (0x34 + relative_data)

-- The loop offset, from the relative offset at 0x1C, and whether there is one.
pub loop_start : ℕ → ℕ → ℕ → Result ParseError (Bool × ℕ)
loop_start relative_loop data_offset eof =
    if relative_loop == 0
    then ok (false, 0)
    else if ltb (relative_loop + 0x1C) data_offset || leb eof (relative_loop + 0x1C)
    then err invalid_loop_offset
    else ok (true, relative_loop + 0x1C)

pub parse_header : List ℕ → Result ParseError Header
parse_header d = do
  fail_if (ltb (length d) 0x48 || not (is_vgm d)) unsupported_file
  let version = read_le32 d 0x08
  fail_if (ltb version 0x150 || ltb 0x171 version) (unsupported_version version)
  let eof = read_le32 d 0x04 + 4
  fail_if (ltb (length d) eof || ltb eof 0x40) invalid_eof
  let data_offset = data_start (read_le32 d 0x34)
  fail_if (ltb data_offset 0x40 || leb eof data_offset) invalid_data_offset
  let clock = read_le32 d 0x44
  fail_if (not (bit_and clock 0xC0000000 == 0)) flagged_clock
  fail_if (not (clock == target_clock) && not (clock == fixture_clock)) (unsupported_clock clock)
  (has_loop, loop_offset) ← loop_start (read_le32 d 0x1C) data_offset eof
  ok (record {
    eof = eof;
    data_offset = data_offset;
    clock = clock;
    has_loop = has_loop;
    loop_offset = loop_offset;
  })

-- The variables of the command loop.
pub record Scan : Type 0 where
  pub song : Song
  pub position : ℕ
  pub samples : ℕ
  pub loop_found : Bool
  pub end_found : Bool

pub is_timer_register : ℕ → Bool
is_timer_register reg =
    reg == 0x24 || reg == 0x25 || reg == 0x26 || reg == 0x2D || reg == 0x2E || reg == 0x2F

-- `loop_sample` and `loop_write` are taken where the loop offset is reached.
pub mark_loop : Header → Scan → Scan
mark_loop h s =
    if h.has_loop && (s.position == h.loop_offset)
    then record s {
      song = record (s.song) { loop_sample = u32 s.samples; loop_write = s.song.write_count };
      loop_found = true;
    }
    else s

-- A wait that takes `amount` samples, with the position after the command.
pub wait : Scan → ℕ → ℕ → Result ParseError Scan
wait s position amount = do
  samples ← add_samples s.samples amount
  ok (record s { position = position; samples = samples })

module _ (grants : ℕ → Bool) where
  -- Command 0x55, at `at`.
  pub write_command : List ℕ → Header → Scan → ℕ → Result ParseError Scan
  unfolding is_timer_register
  write_command d h s at = do
    let position = u32 (at + 1)
    fail_if (ltb h.eof (u32 (position + 2))) (truncated_write at)
    let reg = byte_at d position
    let value = byte_at d (position + 1)
    fail_if (not (h.clock == target_clock) && is_timer_register reg) (unsupported_register reg)
    song ← add_write grants s.song (u32 s.samples) reg value
    ok (record s { song = song; position = u32 (position + 2) })

  -- Command 0x61, at `at`.
  pub wait_command : List ℕ → Header → Scan → ℕ → Result ParseError Scan
  unfolding wait
  wait_command d h s at = do
    let position = u32 (at + 1)
    fail_if (ltb h.eof (u32 (position + 2))) (truncated_wait at)
    wait s (u32 (position + 2)) (read_le16 d position)

  -- The command at `s.position`.
  pub command : List ℕ → Header → Scan → Result ParseError Scan
  unfolding write_command wait_command wait
  command d h s =
      let at = s.position in
      let c = byte_at d at in
      if c == 0x55
      then write_command d h s at
      else if c == 0x61
      then wait_command d h s at
      else if c == 0x62 || c == 0x63
      then wait s (u32 (at + 1)) (if c == 0x62 then 735 else 882)
      else if leb 0x70 c && leb c 0x7F
      then wait s (u32 (at + 1)) (bit_and c 0x0F + 1)
      else if c == 0x66
      then ok (record s { position = u32 (at + 1); end_found = true })
      else err (unsupported_command c at)

  -- `while (position < eof)`; every command takes a byte at least.
  pub scan : List ℕ → Header → ℕ → Scan → Result ParseError Scan
  scan d h zero s = if ltb s.position h.eof then err out_of_rounds else ok s
  scan d h (suc fuel) s = elim (ltb s.position h.eof) [
    | false ↦ ok s
    | true ↦ command d h (mark_loop h s) >>= λ t. elim t.end_found [
      | true ↦ ok t
      | false ↦ scan d h fuel t
    ]
  ]

-- The checks behind the loop.
pub check_end : List ℕ → Header → Scan → Result ParseError Song
check_end d h s = do
  fail_if (not s.end_found) no_end
  fail_if (s.samples == 0) no_samples
  let total = u32 s.samples
  fail_if (not (read_le32 d 0x18 == total)) (sample_mismatch (read_le32 d 0x18) total)
  let loop_samples = sub32 total s.song.loop_sample
  fail_if (h.has_loop && not s.loop_found) loop_off_boundary
  fail_if (h.has_loop && (not (read_le32 d 0x20 == loop_samples) || loop_samples == 0))
      loop_mismatch
  fail_if (not h.has_loop && not (read_le32 d 0x20 == 0)) samples_without_loop
  ok (record (s.song) { total_samples = total })

abbrev pub begin : Header → Scan
begin h = record {
  song = record no_song { clock_hz = h.clock; has_loop = h.has_loop };
  position = h.data_offset;
  samples = 0;
  loop_found = false;
  end_found = false;
}

pub parse : (ℕ → Bool) → List ℕ → Result ParseError Song
parse grants d = do
  h ← parse_header d
  s ← scan grants d h (h.eof - h.data_offset) (begin h)
  check_end d h s
