-- ===== src/Qlz/Write/Packets.antt =====
-- src/qlz.c: `qlz_write_literals` and the packets of the format.
use qlvgm.Prelude.{ℕ, zero, suc, ◌+◌, ◌-◌, ◌^◌, ◌≤◌, ◌<◌, ◌≡◌, arith}
use qlvgm.Prelude.{ltb, ◌==◌, if◌then◌else◌, false, List, ◌∷◌, ◌++◌, length, take, drop}
use qlvgm.Prelude.{u8, u32, Bool-cases, inl, inr, ap, ◌∙◌, sym, subst}
use qlvgm.Prelude.{length-take, length-drop, take-add, ==→eq}
use qlvgm.Qlz.Format.{Window, Packet, done, next, literal}
use qlvgm.Qlz.Format.Copies.{Reaches}
use qlvgm.Qlz.Write.{literal_max, slice}
use qlvgm.Qlz.Write.Bytes.{literal_bytes}

abbrev pub chunk : ℕ → ℕ
chunk n = if ltb literal_max n then literal_max else n

pub length-slice :
    (input : List ℕ) (start n : ℕ) → start + n ≤ length input → length (slice input start n) ≡ n
length-slice input start n h =
    omega (arith, length-take n (drop start input), length-drop start input)

module _ (input : List ℕ) (small : length input < 2 ^ 32) where
  -- One packet of literals.
  literals-Packet :
      (start n : ℕ) (w : Window)
      → 1 ≤ n
      → n ≤ 64
      → start + n ≤ length input
      → Packet w
          (u8 (n - 1) ∷ slice input start n)
          (record { out = w.out ++ slice input start n; distance = w.distance; is_open = false })
  literals-Packet start n w low high inside =
      subst
        (λ k.
          Packet w (k ∷ slice input start n)
            (record { out = w.out ++ slice input start n; distance = w.distance; is_open = false }))
        code (literal (slice input start n) (omega (arith, size)) (omega (arith, size)))
    where
      size : length (slice input start n) ≡ n
      size = length-slice input start n inside

      code : length (slice input start n) - 1 ≡ u8 (n - 1)
      code = omega (arith, size)

  literals_more :
      (start count n : ℕ) (w : Window) (bytes : List ℕ)
      → 1 ≤ count
      → count ≤ 64
      → start + count ≤ length input
      → w.out ≡ take start input
      → ((v : Window) → v.out ≡ take (start + count) input → Reaches input v bytes n)
      → Reaches input w (u8 (count - 1) ∷ (slice input start count ++ bytes)) n
  literals_more start count n w bytes low high inside e rest =
      let out : w.out ++ slice input start count ≡ take (start + count) input =
        ap (λ (xs : List ℕ). xs ++ slice input start count) e ∙ take-add start count input in
      let (v, run, ends) =
        rest
          (record {
            out = w.out ++ slice input start count;
            distance = w.distance;
            is_open = false;
          })
          out in
      (v, next (literals-Packet start count w low high inside) run, ends)

  -- The packets of `n` literals take the output from `start` to `start + n`.
  pub literal_bytes-Reaches :
      (fuel start n : ℕ) (w : Window)
      → n ≤ fuel
      → start + n ≤ length input
      → w.out ≡ take start input
      → Reaches input w (literal_bytes fuel input start n) (start + n)
  unfolding literal_bytes
  literal_bytes-Reaches zero start n w enough inside e =
      let same : start ≡ start + n = omega arith in (w, done, e ∙ ap (λ k. take k input) same)
  literal_bytes-Reaches (suc fuel) start n w enough inside e = elim (Bool-cases (n == 0)) [
    | inl stop ↦
        let same : start ≡ start + n = omega (arith, ==→eq n 0 stop) in
        rw (stop, literal_bytes) (w, done, e ∙ ap (λ k. take k input) same)
    | inr more ↦
        let low : 1 ≤ chunk n = ground arith in
        let high : chunk n ≤ 64 = ground arith in
        let fits : chunk n ≤ n = ground arith in
        let at : u32 (start + chunk n) ≡ start + chunk n = omega arith in
        let end : u32 (start + chunk n) + (n - chunk n) ≡ start + n = omega arith in
        rw (more, literal_bytes)
          (literals_more start (chunk n) (start + n) w _ low high (omega arith) e (λ v f.
            subst (Reaches input v _) end (
              literal_bytes-Reaches fuel (u32 (start + chunk n)) (n - chunk n) v (omega arith)
                (omega arith) (f ∙ ap (λ k. take k input) (sym at)))))
  ]
