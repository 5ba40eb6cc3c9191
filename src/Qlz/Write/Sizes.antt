-- ===== src/Qlz/Write/Sizes.antt =====
-- src/qlz.c: the sizes of the packets.
use qlvgm.Prelude.{
  ℕ, zero, suc, ◌+◌, ◌-◌, ◌/◌, ◌≤◌, ◌<◌, ◌^◌, ◌≡◌, ◌⊎◌, inl, inr, arith, List, length,
}
use qlvgm.Prelude.{
  length-append, Bool-cases, ◌==◌, ==→eq, ==→ne, u8, u32, sub32, leb, if◌then◌else◌,
}
use qlvgm.Qlz.Match.{Match, match_min}
use qlvgm.Qlz.Match.Choice.{encoded, match_packets_lem}
use qlvgm.Qlz.Write.{slice, match_part}
use qlvgm.Qlz.Write.Bytes.{literal_bytes, continue_bytes, head_bytes, match_bytes}
use qlvgm.Qlz.Write.Packets.{chunk, length-slice}
use qlvgm.Qlz.Write.Parts.{match_part_bounds}

-- `n` literals inside an input of less than 2 ^ 32 bytes, with fuel for `n` rounds, take `n` bytes
-- and one control byte for every 64 or part of 64.
pub length-literal_bytes :
    (input : List ℕ) (fuel start n : ℕ)
    → n ≤ fuel
    → start + n ≤ length input
    → length input < 2 ^ 32
    → length (literal_bytes fuel input start n) ≡ n + (n + 63) / 64
unfolding literal_bytes
length-literal_bytes input zero start n enough inside small = omega arith
length-literal_bytes input (suc fuel) start n enough inside small = elim (Bool-cases (n == 0)) [
  | inl stop ↦ rw (stop, literal_bytes) (omega (arith, ==→eq n 0 stop))
  | inr more ↦
      let low : 1 ≤ chunk n = ground arith in
      let fits : chunk n ≤ n = ground arith in
      let whole : n + (n + 63) / 64 ≡ suc (chunk n + (n - chunk n + (n - chunk n + 63) / 64)) =
        ground arith in
      rw (more, literal_bytes)
        (omega (
          arith,
          whole,
          length-append (slice input start (chunk n))
              (literal_bytes fuel input (u32 (start + chunk n)) (n - chunk n)),
          length-slice input start (chunk n) (omega arith),
          length-literal_bytes input fuel (u32 (start + chunk n)) (n - chunk n) (omega arith)
              (omega arith) small,
        ))
]

-- Taking a part leaves one packet less.
match_part_packets :
    (n : ℕ) → 3 ≤ n → n < 2 ^ 32 → suc ((n - match_part n + 65) / 66) ≡ (n + 65) / 66
unfolding match_part
match_part_packets n low small = ground arith

length-continue_bytes :
    (fuel n : ℕ)
    → n ≤ fuel
    → n < 2 ^ 32
    → (n ≡ 0) ⊎ (3 ≤ n)
    → length (continue_bytes fuel n) ≡ (n + 65) / 66
unfolding continue_bytes
length-continue_bytes zero n enough small some_left = omega arith
length-continue_bytes (suc fuel) n enough small some_left = elim (Bool-cases (n == 0)) [
  | inl stop ↦ rw (stop, continue_bytes) (omega (arith, ==→eq n 0 stop))
  | inr more ↦
      let three : 3 ≤ n = omega (arith, ==→ne n 0 more) in
      let (low, high, fits, left) = match_part_bounds n three small in
      let rest : sub32 n (match_part n) ≡ n - match_part n = omega arith in
      rw (more, continue_bytes, rest)
        (omega (
          arith,
          match_part_packets n three small,
          length-continue_bytes fuel (n - match_part n) (omega arith) (omega arith) left,
        ))
]

length-head_bytes :
    (m : Match) (code : ℕ) → length (head_bytes m code) ≡ (if leb m.distance 256 then 2 else 3)
unfolding head_bytes
length-head_bytes m code = ground arith

-- For a match of at least 3 bytes whose length plus 65 fits 32 bits, `encoded` is the number of bytes that
-- its packets take in the payload.
pub length-match_bytes :
    (m : Match) → 3 ≤ m.length → m.length + 65 < 2 ^ 32 → length (match_bytes m) ≡ encoded m
unfolding match_bytes
length-match_bytes m low small =
    let (_, _, fits, left) = match_part_bounds m.length low (omega arith) in
    let rest : sub32 m.length (match_part m.length) ≡ m.length - match_part m.length =
      omega arith in
    rw rest (
      ground (
        arith,
        match_packets_lem m.length small,
        match_part_packets m.length low (omega arith),
        length-head_bytes m (u8 (sub32 (match_part m.length) match_min)),
        length-append (head_bytes m (u8 (sub32 (match_part m.length) match_min)))
            (continue_bytes m.length (m.length - match_part m.length)),
        length-continue_bytes m.length (m.length - match_part m.length) (omega arith) (omega arith)
            left,
      ))
