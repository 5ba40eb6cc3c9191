-- ===== src/Program/Data.antt =====
-- src/output.c: the data rows of the player's source, read back.
use qlvgm.Prelude.{
  ℕ, zero, suc, ◌+◌, ◌-◌, ◌*◌, ◌/◌, ◌%◌, ◌≤◌, ◌<◌, ◌≡◌, refl, arith, ap, ◌∙◌, ltb, ◌==◌, true,
  false, if◌then◌else◌, List, [], ◌∷◌, ◌++◌, append_assoc, length, length-drop, take, drop, All,
  IsByte,
}
use qlvgm.Program.{hex_digit, hex_byte, row_bytes, data_rows, row_start}

-- The number of a hexadecimal digit.
hex_value : ℕ → ℕ
hex_value c = if ltb c 58 then c - 48 else c - 55

-- Before a `$`, behind one, or behind its first digit.
pub data Scanner : Type 0 where
  outside : Scanner
  behind_dollar : Scanner
  behind_digit : ℕ → Scanner

-- The bytes that a text spells, each with `$` and two digits.
pub read_hex : List ℕ → Scanner → List ℕ
read_hex [] s = []
read_hex (c ∷ text) outside = elim (c == 36) [
  | true ↦ read_hex text behind_dollar
  | false ↦ read_hex text outside
]
read_hex (c ∷ text) behind_dollar = read_hex text (behind_digit (hex_value c))
read_hex (c ∷ text) (behind_digit d) = (d * 16 + hex_value c) ∷ read_hex text outside

hex_value-hex_digit : (d : ℕ) → d < 16 → hex_value (hex_digit d) ≡ d
unfolding hex_value hex_digit
hex_value-hex_digit d h = ground arith

read_hex-hex_byte :
    (b : ℕ) (text : List ℕ)
    → b < 256
    → read_hex (36 ∷ hex_byte b ++ text) outside ≡ b ∷ read_hex text outside
unfolding read_hex hex_byte
read_hex-hex_byte b text small =
    let whole : hex_value (hex_digit (b / 16)) * 16 + hex_value (hex_digit (b % 16)) ≡ b = omega (
      arith,
      hex_value-hex_digit (b / 16) (omega arith),
      hex_value-hex_digit (b % 16) (omega arith),
    ) in
    ap (λ n. n ∷ read_hex text outside) whole

read_hex-comma : (text : List ℕ) → read_hex (44 ∷ text) outside ≡ read_hex text outside
unfolding read_hex
read_hex-comma text = refl

read_hex-row_start : (text : List ℕ) → read_hex (row_start ++ text) outside ≡ read_hex text outside
unfolding read_hex
read_hex-row_start text = refl

read_hex-row_bytes :
    (bytes text : List ℕ)
    → All IsByte bytes
    → read_hex (row_bytes bytes ++ 10 ∷ text) outside ≡ bytes ++ read_hex text outside
unfolding row_bytes
read_hex-row_bytes [] text small = unfold read_hex in refl
read_hex-row_bytes (b ∷ []) text (one, more) =
    read_hex-hex_byte b (10 ∷ text) one ∙ (unfold read_hex in refl)
read_hex-row_bytes (b ∷ c ∷ rest) text (one, more) =
    ap (λ l. read_hex (36 ∷ l) outside)
      (append_assoc (hex_byte b) (44 ∷ row_bytes (c ∷ rest)) (10 ∷ text))
    ∙ read_hex-hex_byte b (44 ∷ row_bytes (c ∷ rest) ++ 10 ∷ text) one
    ∙ ap (◌∷◌ b) (
        read_hex-comma (row_bytes (c ∷ rest) ++ 10 ∷ text)
        ∙ read_hex-row_bytes (c ∷ rest) text more)

All-take : (n : ℕ) (l : List ℕ) → All IsByte l → All IsByte (take n l)
All-take zero l small = tt
All-take (suc n) [] small = tt
All-take (suc n) (x ∷ l) (one, more) = (one, All-take n l more)

All-drop : (n : ℕ) (l : List ℕ) → All IsByte l → All IsByte (drop n l)
All-drop zero l small = small
All-drop (suc n) [] small = tt
All-drop (suc n) (x ∷ l) (one, more) = All-drop n l more

take-append-drop : (n : ℕ) (l rest : List ℕ) → take n l ++ (drop n l ++ rest) ≡ l ++ rest
take-append-drop zero l rest = refl
take-append-drop (suc n) [] rest = refl
take-append-drop (suc n) (x ∷ l) rest = ap (◌∷◌ x) (take-append-drop n l rest)

-- The rows of the data of the player's source, of as many rounds as bytes or more, spell the
-- data: what a reader makes of each `$` and the two digits behind it is the data, byte by byte, and
-- the text behind the rows is read from its start.
pub read_hex-data_rows :
    (fuel : ℕ) (bytes text : List ℕ)
    → All IsByte bytes
    → length bytes ≤ fuel
    → read_hex (data_rows fuel bytes ++ text) outside ≡ bytes ++ read_hex text outside
unfolding data_rows
read_hex-data_rows zero [] text small enough = refl
read_hex-data_rows zero (b ∷ rest) text small enough = absurd (omega arith)
read_hex-data_rows (suc fuel) [] text small enough = refl
read_hex-data_rows (suc fuel) (b ∷ rest) text small enough =
    let bytes = b ∷ rest in
    let more = data_rows fuel (drop 16 bytes) in
    ap (λ l. read_hex (row_start ++ l) outside)
      (append_assoc (row_bytes (take 16 bytes)) (10 ∷ more) text)
    ∙ read_hex-row_start (row_bytes (take 16 bytes) ++ 10 ∷ (more ++ text))
    ∙ read_hex-row_bytes (take 16 bytes) (more ++ text) (All-take 16 bytes small)
    ∙ ap (λ l. take 16 bytes ++ l)
        (read_hex-data_rows fuel (drop 16 bytes) text (All-drop 16 bytes small)
          (omega (arith, length-drop 16 bytes)))
    ∙ take-append-drop 16 bytes (read_hex text outside)
