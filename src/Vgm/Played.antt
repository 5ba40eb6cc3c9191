-- ===== src/Vgm/Played.antt =====
-- The playback stream of src/vgm.c read back: each frame is the number of its register writes in
-- 16 bits, the high byte first, then a register and a value for each.
pub mod Read
pub mod Order
use qlvgm.Prelude.{
  ℕ, zero, suc, ◌+◌, ◌*◌, ◌/◌, ◌^◌, ◌≡◌, refl, arith, ◌==◌, if◌then◌else◌, ap, Bool-cases, inl, inr,
}
use qlvgm.Prelude.{Option, none, some, List, [], ◌∷◌, ◌++◌, length, u8, append_assoc, ◌∙◌, sym}
use qlvgm.Vgm.Converter.{update}

-- A register and the value for it.
abbrev pub Pair : Type 0
Pair = ℕ × ℕ

abbrev pub pair_bytes : List Pair → List ℕ
pair_bytes [] = []
pair_bytes ((reg, value) ∷ ps) = reg ∷ value ∷ pair_bytes ps

abbrev pub frame_bytes : List Pair → List ℕ
frame_bytes ps = u8 (length ps / 2 ^ 8) ∷ u8 (length ps) ∷ pair_bytes ps

abbrev pub stream_bytes : List (List Pair) → List ℕ
stream_bytes [] = []
stream_bytes (frame ∷ frames) = frame_bytes frame ++ stream_bytes frames

-- The registers of the chip after some writes.
abbrev pub play : (ℕ → ℕ) → List Pair → ℕ → ℕ
play chip [] = chip
play chip ((reg, value) ∷ ps) = play (update chip reg value) ps

-- Writes with the frame of each, in the order in which they are made.
abbrev pub Tagged : Type 0
Tagged = ℕ × Pair

abbrev pub pairs : List Tagged → List Pair
pairs [] = []
pairs ((index, p) ∷ es) = p ∷ pairs es

-- The writes of one frame.
abbrev pub in_frame : ℕ → List Tagged → List Pair
in_frame i [] = []
in_frame i ((index, p) ∷ es) = if index == i then p ∷ in_frame i es else in_frame i es

-- The next `n` frames from frame `i` on.
abbrev pub frames_from : ℕ → ℕ → List Tagged → List (List Pair)
frames_from i zero es = []
frames_from i (suc n) es = in_frame i es ∷ frames_from (i + 1) n es

pub play-append : (chip : ℕ → ℕ) (ps qs : List Pair) → play chip (ps ++ qs) ≡ play (play chip ps) qs
play-append chip [] qs = refl
play-append chip ((reg, value) ∷ ps) qs = play-append (update chip reg value) ps qs

pub pair_bytes-append : (ps qs : List Pair) → pair_bytes (ps ++ qs) ≡ pair_bytes ps ++ pair_bytes qs
pair_bytes-append [] qs = refl
pair_bytes-append ((reg, value) ∷ ps) qs = ap (λ t. reg ∷ value ∷ t) (pair_bytes-append ps qs)

pub length-pair_bytes : (ps : List Pair) → length (pair_bytes ps) ≡ 2 * length ps
length-pair_bytes [] = refl
length-pair_bytes ((reg, value) ∷ ps) = omega (arith, length-pair_bytes ps)

pub pairs-append : (ds es : List Tagged) → pairs (ds ++ es) ≡ pairs ds ++ pairs es
pairs-append [] es = refl
pairs-append ((index, p) ∷ ds) es = ap (◌∷◌ p) (pairs-append ds es)

pub in_frame-append :
    (i : ℕ) (ds es : List Tagged) → in_frame i (ds ++ es) ≡ in_frame i ds ++ in_frame i es
in_frame-append i [] es = refl
in_frame-append i ((index, p) ∷ ds) es = elim (Bool-cases (index == i)) [
  | inl here ↦ rw (here) (ap (◌∷◌ p) (in_frame-append i ds es))
  | inr away ↦ rw (away) (in_frame-append i ds es)
]

pub length-frames_from : (i n : ℕ) (es : List Tagged) → length (frames_from i n es) ≡ n
length-frames_from i zero es = refl
length-frames_from i (suc n) es = ap suc (length-frames_from (i + 1) n es)
