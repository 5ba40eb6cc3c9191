-- ===== src/Vgm/Played/Read.antt =====
-- A reader of the playback stream of src/vgm.c, which gives back the frames that it was made from.
use qlvgm.Prelude.{ℕ, zero, suc, ◌+◌, ◌*◌, ◌/◌, ◌^◌, ◌<◌, ◌≡◌, refl, arith, ap, ◌∙◌}
use qlvgm.Prelude.{Option, none, some, List, [], ◌∷◌, ◌++◌, length, u8, All, append_assoc}
use qlvgm.Vgm.Played.{Pair, pair_bytes, frame_bytes, stream_bytes}

-- A reading that may end too early, in front of more.
abbrev chain {ℓ κ} :
    {A : Type ℓ} {B : Type κ}
    → Option (A × List ℕ)
    → (A → List ℕ → Option (B × List ℕ))
    → Option (B × List ℕ)
chain none next = none
chain (some (a, rest)) next = next a rest

abbrev pub read_pairs : ℕ → List ℕ → Option (List Pair × List ℕ)
read_pairs zero bytes = some ([], bytes)
read_pairs (suc n) [] = none
read_pairs (suc n) (reg ∷ []) = none
read_pairs (suc n) (reg ∷ value ∷ bytes) =
    chain (read_pairs n bytes) λ ps rest. some ((reg, value) ∷ ps, rest)

abbrev pub read_frame : List ℕ → Option (List Pair × List ℕ)
read_frame [] = none
read_frame (high ∷ []) = none
read_frame (high ∷ low ∷ bytes) = read_pairs (high * 2 ^ 8 + low) bytes

abbrev pub read_frames : ℕ → List ℕ → Option (List (List Pair) × List ℕ)
read_frames zero bytes = some ([], bytes)
read_frames (suc n) bytes =
    chain (read_frame bytes)
      λ frame more. chain (read_frames n more) λ frames rest. some (frame ∷ frames, rest)

read_pairs-pair_bytes :
    (ps : List Pair) (rest : List ℕ)
    → read_pairs (length ps) (pair_bytes ps ++ rest) ≡ some (ps, rest)
read_pairs-pair_bytes [] rest = refl
read_pairs-pair_bytes ((reg, value) ∷ ps) rest = rw (read_pairs-pair_bytes ps rest) refl

read_frame-frame_bytes :
    (ps : List Pair) (rest : List ℕ)
    → length ps < 2 ^ 16
    → read_frame (frame_bytes ps ++ rest) ≡ some (ps, rest)
read_frame-frame_bytes ps rest short =
    let count : u8 (length ps / 2 ^ 8) * 2 ^ 8 + u8 (length ps) ≡ length ps = omega arith in
    ap (λ n. read_pairs n (pair_bytes ps ++ rest)) count ∙ read_pairs-pair_bytes ps rest

-- A frame whose count fits its 16 bits.
abbrev pub IsShort : List Pair → Type 0
IsShort ps = length ps < 2 ^ 16

read_frames-step :
    (n : ℕ) (bytes more rest : List ℕ) (frame : List Pair) (frames : List (List Pair))
    → read_frame bytes ≡ some (frame, more)
    → read_frames n more ≡ some (frames, rest)
    → read_frames (suc n) bytes ≡ some (frame ∷ frames, rest)
read_frames-step n bytes more rest frame frames first others = rw (first, others) refl

pub read_frames-stream_bytes :
    (frames : List (List Pair)) (rest : List ℕ)
    → All IsShort frames
    → read_frames (length frames) (stream_bytes frames ++ rest) ≡ some (frames, rest)
read_frames-stream_bytes [] rest short = refl
read_frames-stream_bytes (frame ∷ frames) rest (short, more) =
    let tail = stream_bytes frames ++ rest in
    read_frames-step (length frames) (stream_bytes (frame ∷ frames) ++ rest) tail rest frame frames
      (ap read_frame (append_assoc (frame_bytes frame) (stream_bytes frames) rest)
        ∙ read_frame-frame_bytes frame tail short)
      (read_frames-stream_bytes frames rest more)
