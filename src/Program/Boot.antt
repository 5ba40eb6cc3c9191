-- ===== src/Program/Boot.antt =====
-- src/output.c: the numbers of the BOOT program and its length.
use qlvgm.Prelude.{
  ℕ, zero, suc, ◌+◌, ◌-◌, ◌*◌, ◌/◌, ◌%◌, ◌^◌, ◌≤◌, ◌<◌, ◌≡◌, refl, arith, ap, ◌∙◌, ltb, leb,
  Bool-cases, inl, inr, Bool, true, false, List, [], ◌∷◌, ◌++◌, length, length-append, append_assoc,
  u32, u32_max, sub32, ok, All, drop, ◌&&◌, ◌==◌, if◌then◌else◌,
}
use native.Mathlib.Numerals.{unary_clauses}
use qlvgm.Program.{
  decimal_digits, decimal, boot_text, make_boot, screen_address, screen_text, screen_respr_text,
  screen_end_text, end_text, mode_text, respr_text,
}

-- The number that decimal digits spell, behind a number read so far.
pub read_decimal : List ℕ → ℕ → ℕ
read_decimal [] n = n
read_decimal (c ∷ text) n = read_decimal text (n * 10 + (c - 48))

read_decimal-append :
    (xs ys : List ℕ) (n : ℕ) → read_decimal (xs ++ ys) n ≡ read_decimal ys (read_decimal xs n)
unfolding read_decimal
read_decimal-append [] ys n = refl
read_decimal-append (x ∷ xs) ys n = read_decimal-append xs ys (n * 10 + (x - 48))

decimal_digits-length : (more n : ℕ) → length (decimal_digits more n) ≤ suc more
unfolding decimal_digits
decimal_digits-length zero n = omega arith
decimal_digits-length (suc more) n = elim (Bool-cases (ltb n 10)) [
  | inl small ↦ rw (small, decimal_digits) (omega arith)
  | inr large ↦
      rw (large, decimal_digits)
        (omega (
          arith,
          length-append (decimal_digits more (n / 10)) ((48 + n % 10) ∷ []),
          decimal_digits-length more (n / 10),
        ))
]

read_decimal-digit : (n : ℕ) → read_decimal ((48 + n) ∷ []) 0 ≡ n
unfolding read_decimal
read_decimal-digit n = omega arith

read_decimal-last : (n : ℕ) → read_decimal ((48 + n % 10) ∷ []) (n / 10) ≡ n
unfolding read_decimal
read_decimal-last n = omega arith

power_suc : (k : ℕ) → 10 ^ suc k ≡ 10 ^ k * 10
power_suc k = simp unary_clauses (omega arith)

read_decimal-decimal_digits :
    (more n : ℕ) → n < 10 ^ suc more → read_decimal (decimal_digits more n) 0 ≡ n
unfolding decimal_digits
read_decimal-decimal_digits zero n low = unfold read_decimal in omega arith
read_decimal-decimal_digits (suc more) n low = elim (Bool-cases (ltb n 10)) [
  | inl small ↦ rw (small, decimal_digits) (read_decimal-digit n)
  | inr large ↦
      let power : 10 ^ suc (suc more) ≡ 10 ^ suc more * 10 = power_suc (suc more) in
      rw (large, decimal_digits)
        (read_decimal-append (decimal_digits more (n / 10)) ((48 + n % 10) ∷ []) 0
          ∙ ap (read_decimal ((48 + n % 10) ∷ []))
              (read_decimal-decimal_digits more (n / 10) (omega (arith, power)))
          ∙ read_decimal-last n)
]

decimal-length : (n : ℕ) → length (decimal n) ≤ 10
unfolding decimal
decimal-length n = decimal_digits-length 9 n

boot_text-length :
    (memory : ℕ) (has_screen : Bool) (screen_mode : ℕ)
    → length (boot_text memory has_screen screen_mode) < 192
unfolding boot_text
boot_text-length memory true screen_mode = simp length-append (
    omega (arith, decimal-length screen_mode, decimal-length screen_address, decimal-length memory))
boot_text-length memory false screen_mode =
    simp length-append (omega (arith, decimal-length memory))

-- Whether a text begins with a key.
pub begins : List ℕ → List ℕ → Bool
begins [] text = true
begins (k ∷ key) [] = false
begins (k ∷ key) (c ∷ text) = k == c && begins key text

-- What stands behind the first place of a key in a text.
pub behind : List ℕ → List ℕ → List ℕ
behind key [] = []
behind key (c ∷ text) =
    let later = behind key text in
    if begins key (c ∷ text) then drop (length key) (c ∷ text) else later

-- The number at the start of a text, up to the first byte that is no digit.
pub leading_number : List ℕ → ℕ → ℕ
leading_number [] n = n
leading_number (c ∷ text) n =
    let more = leading_number text (n * 10 + (c - 48)) in if leb 48 c && leb c 57 then more else n

pub number_behind : List ℕ → List ℕ → ℕ
number_behind key text = leading_number (behind key text) 0

-- "MODE ", `screen",` and "RESPR("
abbrev pub mode_key : List ℕ
mode_key = 77 ∷ 79 ∷ 68 ∷ 69 ∷ 32 ∷ []

abbrev pub screen_key : List ℕ
screen_key = 115 ∷ 99 ∷ 114 ∷ 101 ∷ 101 ∷ 110 ∷ 34 ∷ 44 ∷ []

abbrev pub respr_key : List ℕ
respr_key = 82 ∷ 69 ∷ 83 ∷ 80 ∷ 82 ∷ 40 ∷ []

-- The numbers that a reader finds in the program: the memory that RESPR asks for, and with a screen its
-- mode and the address that it is loaded at.
pub Asks : ℕ → Bool → ℕ → List ℕ → Type 0
Asks memory true screen_mode text =
    (number_behind mode_key text ≡ screen_mode)
    × (number_behind screen_key text ≡ 0x20000)
    × (number_behind respr_key text ≡ memory)
Asks memory false screen_mode text = number_behind respr_key text ≡ memory

abbrev IsDigit : ℕ → Type 0
IsDigit c = (48 ≤ c) × (c ≤ 57)

digits-append : (xs ys : List ℕ) → All IsDigit xs → All IsDigit ys → All IsDigit (xs ++ ys)
digits-append [] ys a b = b
digits-append (x ∷ xs) ys (first, a) b = (first, digits-append xs ys a b)

decimal_digits-IsDigit : (more n : ℕ) → All IsDigit (decimal_digits more n)
unfolding decimal_digits
decimal_digits-IsDigit zero n = ((omega arith, omega arith), tt)
decimal_digits-IsDigit (suc more) n = elim (Bool-cases (ltb n 10)) [
  | inl small ↦ rw (small, decimal_digits) ((omega arith, ground arith), tt)
  | inr large ↦
      rw (large, decimal_digits)
        (digits-append (decimal_digits more (n / 10)) ((48 + n % 10) ∷ [])
          (decimal_digits-IsDigit more (n / 10)) ((omega arith, omega arith), tt))
]

-- A key that starts with no digit is not found in digits.
behind-digits :
    (k : ℕ) (key digits text : List ℕ)
    → 57 < k
    → All IsDigit digits
    → behind (k ∷ key) (digits ++ text) ≡ behind (k ∷ key) text
unfolding behind begins
behind-digits k key [] text high a = refl
behind-digits k key (c ∷ digits) text high ((low, most), a) =
    let other : (k == c) ≡ false = ground arith in
    rw (other) (behind-digits k key digits text high a)

leading_number-digits :
    (digits : List ℕ) (c : ℕ) (text : List ℕ) (n : ℕ)
    → All IsDigit digits
    → (leb 48 c && leb c 57) ≡ false
    → leading_number (digits ++ c ∷ text) n ≡ read_decimal digits n
unfolding leading_number read_decimal
leading_number-digits [] c text n a other = rw other refl
leading_number-digits (d ∷ digits) c text n ((low, most), a) other =
    let is : (leb 48 d && leb d 57) ≡ true = ground arith in
    rw (is) (leading_number-digits digits c text (n * 10 + (d - 48)) a other)

-- A number that is printed in front of a byte that is no digit is read as it is.
leading_number-decimal :
    (m c : ℕ) (text : List ℕ)
    → m < 2 ^ 32
    → (leb 48 c && leb c 57) ≡ false
    → leading_number (decimal m ++ c ∷ text) 0 ≡ m
unfolding decimal
leading_number-decimal m c text low other =
    leading_number-digits (decimal_digits 9 m) c text 0 (decimal_digits-IsDigit 9 m) other
    ∙ read_decimal-decimal_digits 9 m (omega (arith, low))

behind-decimal :
    (k : ℕ) (key : List ℕ) (m : ℕ) (text : List ℕ)
    → 57 < k
    → behind (k ∷ key) (decimal m ++ text) ≡ behind (k ∷ key) text
unfolding decimal
behind-decimal k key m text high =
    behind-digits k key (decimal_digits 9 m) text high (decimal_digits-IsDigit 9 m)

-- The places of the keys in the program with a screen, and in the one with none.
module _ (memory screen_mode : ℕ) where
  abbrev at_memory : List ℕ
  at_memory = decimal memory ++ screen_end_text

  abbrev at_address : List ℕ
  at_address = decimal screen_address ++ (screen_respr_text ++ at_memory)

  abbrev at_mode : List ℕ
  at_mode = decimal screen_mode ++ (screen_text ++ at_address)

  boot_text-parts : boot_text memory true screen_mode ≡ mode_text ++ at_mode
  unfolding boot_text
  boot_text-parts = simp append_assoc refl

  behind-mode : behind mode_key (boot_text memory true screen_mode) ≡ at_mode
  unfolding behind begins
  behind-mode = rw boot_text-parts refl

  behind-screen : behind screen_key (boot_text memory true screen_mode) ≡ at_address
  unfolding behind begins
  behind-screen =
      rw boot_text-parts (
        behind-decimal 115 (drop 1 screen_key) screen_mode (screen_text ++ at_address)
          (omega arith))

  behind-respr : behind respr_key (boot_text memory true screen_mode) ≡ at_memory
  unfolding behind begins
  behind-respr = rw boot_text-parts (
      behind-decimal 82 (drop 1 respr_key) screen_mode (screen_text ++ at_address) (omega arith)
      ∙ behind-decimal 82 (drop 1 respr_key) screen_address (screen_respr_text ++ at_memory)
          (omega arith))

  behind-respr_alone :
      behind respr_key (boot_text memory false screen_mode) ≡ decimal memory ++ end_text
  unfolding boot_text behind begins
  behind-respr_alone = ap (behind respr_key) (append_assoc respr_text (decimal memory) end_text)

-- A number that is found behind a key.
found :
    (key text : List ℕ) (m c : ℕ) (rest : List ℕ)
    → behind key text ≡ decimal m ++ c ∷ rest
    → m < 2 ^ 32
    → (leb 48 c && leb c 57) ≡ false
    → number_behind key text ≡ m
unfolding number_behind
found key text m c rest at low other =
    ap (λ t. leading_number t 0) at ∙ leading_number-decimal m c rest low other

boot_text-Asks :
    (memory : ℕ) (has_screen : Bool) (screen_mode : ℕ)
    → memory < 2 ^ 32
    → screen_mode < 2 ^ 32
    → Asks memory has_screen screen_mode (boot_text memory has_screen screen_mode)
unfolding Asks
boot_text-Asks memory true screen_mode low mode =
    let text = boot_text memory true screen_mode in
    let address = at_address memory screen_mode in
    let end = at_memory memory screen_mode in
    (
      found mode_key text screen_mode 10 (drop 1 screen_text ++ address)
          (behind-mode memory screen_mode) mode refl,
      found screen_key text screen_address 10 (drop 1 screen_respr_text ++ end)
          (behind-screen memory screen_mode) (omega arith) refl,
      found respr_key text memory 41 (drop 1 screen_end_text) (behind-respr memory screen_mode) low
          refl,
    )
boot_text-Asks memory false screen_mode low mode =
    found respr_key (boot_text memory false screen_mode) memory 41 (drop 1 end_text)
      (behind-respr_alone memory screen_mode) low refl

-- When the sizes of the loaded program and of the decoded data add up to less than 2 ^ 32, and the
-- screen mode is below 2 ^ 32: `make_boot` returns a program of less than 192 bytes, in which the
-- number behind "RESPR(" is the sum of the sizes, and with a screen the number behind "MODE " is the
-- screen mode, and that behind the name of the screen's file is 0x20000.
pub make_boot-Asks :
    (loaded_size decoded_size : ℕ) (has_screen : Bool) (screen_mode : ℕ)
    → loaded_size + decoded_size < 2 ^ 32
    → screen_mode < 2 ^ 32
    → (text : List ℕ) × (make_boot loaded_size decoded_size has_screen screen_mode ≡ ok text)
      × (length text < 192)
      × Asks (loaded_size + decoded_size) has_screen screen_mode text
unfolding make_boot
make_boot-Asks loaded_size decoded_size has_screen screen_mode low mode =
    let memory = loaded_size + decoded_size in
    let whole : u32 memory ≡ memory = omega arith in
    let short = boot_text-length memory has_screen screen_mode in
    let fits : ltb (sub32 u32_max decoded_size) loaded_size ≡ false = ground arith in
    let room : leb 192 (length (boot_text memory has_screen screen_mode)) ≡ false =
      ground (arith, short) in
    (
      boot_text memory has_screen screen_mode,
      rw (whole, fits, room) refl,
      short,
      boot_text-Asks memory has_screen screen_mode low mode,
    )
