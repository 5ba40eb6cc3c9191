-- ===== src/Program.antt =====
-- src/output.c: the source of the player with the compressed data (`write_player_source`) and the
-- BOOT program (`make_boot`). A text is the list of its bytes.
mod Texts
pub mod Data
pub mod Boot
mod Tests
pub use Texts.*
use qlvgm.Prelude.{
  ℕ, zero, suc, ◌+◌, ◌-◌, ◌*◌, ◌/◌, ◌%◌, ◌^◌, ltb, leb, ◌==◌, if◌then◌else◌, Bool, true, false, not,
  ◌&&◌, ◌||◌,
}
use qlvgm.Prelude.{
  List, [], ◌∷◌, ◌++◌, length, take, drop, get_or, u32, u32_max, sub32, Result, ok, err, ◌>>=◌,
  ◌>>◌, fail_if,
}

-- A digit, from 0 to F.
pub hex_digit : ℕ → ℕ
hex_digit d = if ltb d 10 then 48 + d else 55 + d

-- `%02X`
unfoldable pub hex_byte : ℕ → List ℕ
hex_byte b = hex_digit (b / 16) ∷ hex_digit (b % 16) ∷ []

-- `%08X`, of a number below 2 ^ 32.
hex_long : ℕ → List ℕ
hex_long n =
    hex_byte (n / 2 ^ 24)
    ++ hex_byte (n / 2 ^ 16 % 256)
    ++ hex_byte (n / 2 ^ 8 % 256)
    ++ hex_byte (n % 256)

-- `%u`, with so many digits behind the first at most.
pub decimal_digits : ℕ → ℕ → List ℕ
decimal_digits zero n = (48 + n % 10) ∷ []
decimal_digits (suc more) n =
    let front = decimal_digits more (n / 10) in
    if ltb n 10 then (48 + n) ∷ [] else front ++ (48 + n % 10) ∷ []

-- A number below 2 ^ 32 has ten digits at most.
pub decimal : ℕ → List ℕ
decimal n = decimal_digits 9 n

-- The bytes of one row, with commas between them.
unfoldable pub row_bytes : List ℕ → List ℕ
row_bytes [] = []
row_bytes (b ∷ []) = 36 ∷ hex_byte b
row_bytes (b ∷ c ∷ rest) = 36 ∷ hex_byte b ++ 44 ∷ row_bytes (c ∷ rest)

-- The loop over the rows of the data that is left. A row takes a byte at least, so as many rounds as
-- bytes are enough.
unfoldable pub data_rows : ℕ → List ℕ → List ℕ
data_rows zero data_left = []
data_rows (suc fuel) [] = []
data_rows (suc fuel) (b ∷ rest) =
    row_start ++ row_bytes (take 16 (b ∷ rest)) ++ 10 ∷ data_rows fuel (drop 16 (b ∷ rest))

-- The numbers that the player is assembled with.
pub source_header : ℕ → ℕ → ℕ → ℕ → List ℕ
source_header rate raw_size loop_offset test_frames =
    rate_text
    ++ decimal rate
    ++ decoded_text
    ++ decimal raw_size
    ++ loop_text
    ++ hex_long loop_offset
    ++ frames_text
    ++ decimal test_frames
    ++ 10 ∷ []

-- A newline, if the player does not end with one.
unfoldable pub line_end : List ℕ → List ℕ
line_end player =
    if length player == 0 || not (get_or player (length player - 1) 0 == 10) then 10 ∷ [] else []

-- What `write_player_source` writes.
unfoldable pub player_source : List ℕ → ℕ → ℕ → ℕ → ℕ → List ℕ → List ℕ
player_source player rate raw_size loop_offset test_frames compressed =
    source_header rate raw_size loop_offset test_frames
    ++ player
    ++ line_end player
    ++ data_label
    ++ data_rows (length compressed) compressed
    ++ source_end

abbrev boot_bytes : ℕ
boot_bytes = 192

abbrev pub screen_address : ℕ
screen_address = 0x20000

pub data ProgramError : Type 0 where
  memory_exceeded : ProgramError
  boot_too_long : ProgramError

pub boot_text : ℕ → Bool → ℕ → List ℕ
boot_text memory true screen_mode =
    mode_text
    ++ decimal screen_mode
    ++ screen_text
    ++ decimal screen_address
    ++ screen_respr_text
    ++ decimal memory
    ++ screen_end_text
boot_text memory false screen_mode = respr_text ++ decimal memory ++ end_text

pub make_boot : ℕ → ℕ → Bool → ℕ → Result ProgramError (List ℕ)
make_boot loaded_size decoded_size has_screen screen_mode =
    let text = boot_text (u32 (loaded_size + decoded_size)) has_screen screen_mode in
    fail_if (ltb (sub32 u32_max decoded_size) loaded_size) memory_exceeded
    >> fail_if (leb boot_bytes (length text)) boot_too_long
    >> ok text
