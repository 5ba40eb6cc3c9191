-- ===== src/Qlz/Write/Bytes.antt =====
-- src/qlz.c: the bytes of the packet writers, without the buffer that they go through.
use qlvgm.Prelude.{ℕ, zero, suc, ◌+◌, ◌-◌, ◌/◌, ◌^◌, bit_or, ltb, leb, ◌==◌}
use qlvgm.Prelude.{if◌then◌else◌, Bool, true, false, List, [], ◌∷◌, ◌++◌, u8, u16, u32, sub32}
use qlvgm.Prelude.{Bool-cases, inl, inr}
use qlvgm.Buffer.{ByteBuffer}
use qlvgm.Buffer.Writes.{
  Appends, append-Appends, append_byte-Appends, append_be16-Appends, seq-Appends,
}
use qlvgm.Buffer.Writes.{Appends-nil}
use qlvgm.Qlz.Match.{Match, match_min}
use qlvgm.Qlz.Write.{literal_max, slice, match_part, literals_loop, write_literals}
use qlvgm.Qlz.Write.{continue_loop, match_head, write_match}

unfoldable pub literal_bytes : ℕ → List ℕ → ℕ → ℕ → List ℕ
literal_bytes zero input start n = []
literal_bytes (suc fuel) input start n =
    let count = if ltb literal_max n then literal_max else n in
    elim (n == 0) [
      | true ↦ []
      | false ↦
          (u8 (count - 1) ∷ [])
          ++ (slice input start count ++ literal_bytes fuel input (u32 (start + count)) (n - count))
    ]

unfoldable pub continue_bytes : ℕ → ℕ → List ℕ
continue_bytes zero remaining = []
continue_bytes (suc fuel) remaining =
    let count = match_part remaining in
    elim (remaining == 0) [
      | true ↦ []
      | false ↦
          (bit_or 0xC0 (u8 (sub32 count match_min)) ∷ [])
          ++ continue_bytes fuel (sub32 remaining count)
    ]

unfoldable pub head_bytes : Match → ℕ → List ℕ
head_bytes m code =
    if leb m.distance 256
    then (bit_or 0x40 code ∷ []) ++ (u8 (sub32 m.distance 1) ∷ [])
    else (bit_or 0x80 code ∷ []) ++ (u8 (u16 m.distance / 2 ^ 8) ∷ u8 (u16 m.distance) ∷ [])

unfoldable pub match_bytes : Match → List ℕ
match_bytes m =
    let count = match_part m.length in
    head_bytes m (u8 (sub32 count match_min)) ++ continue_bytes m.length (sub32 m.length count)

module _ (grants : ℕ → Bool) where
  literals_loop-Appends :
      (fuel : ℕ) (b : ByteBuffer) (input : List ℕ) (start n : ℕ)
      → Appends grants b
          (literal_bytes fuel input start n)
          (literals_loop grants fuel b input start n)
  unfolding literals_loop literal_bytes
  literals_loop-Appends zero b input start n = Appends-nil grants b
  literals_loop-Appends (suc fuel) b input start n = elim (Bool-cases (n == 0)) [
    | inl e ↦ rw (e, literals_loop, literal_bytes) (Appends-nil grants b)
    | inr e ↦
        rw (e, literals_loop, literal_bytes)
          (seq-Appends grants b _ _ _ _ (append_byte-Appends grants b _) (λ c.
            seq-Appends grants c _ _ _ _ (append-Appends grants c _)
              (λ d. literals_loop-Appends fuel d input _ _)))
  ]

  pub write_literals-Appends :
      (b : ByteBuffer) (input : List ℕ) (start n : ℕ)
      → Appends grants b (literal_bytes n input start n) (write_literals grants b input start n)
  unfolding write_literals
  write_literals-Appends b input start n = literals_loop-Appends n b input start n

  continue_loop-Appends :
      (fuel : ℕ) (b : ByteBuffer) (remaining : ℕ)
      → Appends grants b (continue_bytes fuel remaining) (continue_loop grants fuel b remaining)
  unfolding continue_loop continue_bytes
  continue_loop-Appends zero b remaining = Appends-nil grants b
  continue_loop-Appends (suc fuel) b remaining = elim (Bool-cases (remaining == 0)) [
    | inl e ↦ rw (e, continue_loop, continue_bytes) (Appends-nil grants b)
    | inr e ↦
        rw (e, continue_loop, continue_bytes)
          (seq-Appends grants b _ _ _ _ (append_byte-Appends grants b _)
            (λ c. continue_loop-Appends fuel c _))
  ]

  match_head-Appends :
      (b : ByteBuffer) (m : Match) (code : ℕ)
      → Appends grants b (head_bytes m code) (match_head grants b m code)
  unfolding match_head head_bytes
  match_head-Appends b m code = elim (Bool-cases (leb m.distance 256)) [
    | inl e ↦ rw e (
        seq-Appends grants b _ _ _ _ (append_byte-Appends grants b _)
          (λ c. append_byte-Appends grants c _))
    | inr e ↦ rw e (
        seq-Appends grants b _ _ _ _ (append_byte-Appends grants b _)
          (λ c. append_be16-Appends grants c _))
  ]

  pub write_match-Appends :
      (b : ByteBuffer) (m : Match) → Appends grants b (match_bytes m) (write_match grants b m)
  unfolding write_match match_bytes
  write_match-Appends b m =
      seq-Appends grants b _ _ _ _ (match_head-Appends b m _)
        (λ c. continue_loop-Appends m.length c _)
