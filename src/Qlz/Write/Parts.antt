-- ===== src/Qlz/Write/Parts.antt =====
-- src/qlz.c: `qlz_write_match` and the packets of the format.
use qlvgm.Prelude.{ℕ, zero, suc, ◌+◌, ◌-◌, ◌/◌, ◌%◌, ◌^◌, ◌≤◌, ◌<◌, ◌≡◌, refl, bit_or, arith}
use qlvgm.Prelude.{leb, ◌==◌, true, List, [], ◌∷◌, ◌++◌, length, take}
use qlvgm.Prelude.{u8, u16, sub32, Bool-cases, inl, inr, ◌⊎◌, ap, ◌∙◌, sym, subst}
use qlvgm.Prelude.{length-take, ap₂, leb→le, ==→eq, ==→ne}
use qlvgm.Prelude.Bits.{bit_or-shifted}
use qlvgm.Qlz.Match.{Match, match_min}
use qlvgm.Qlz.Format.{Window, Packet, Run, done, next, short, long, continuation, copy, matched}
use qlvgm.Qlz.Format.Copies.{Repeats, Reaches, Repeats-take, Repeats-drop, copy-take}
use qlvgm.Qlz.Write.{match_part}
use qlvgm.Qlz.Write.Bytes.{continue_bytes, head_bytes, match_bytes}

-- Of a match with at least 3 bytes left, and less than 2 ^ 32, the next part has 3 to 66 bytes and
-- leaves none or at least 3.
pub match_part_bounds :
    (n : ℕ)
    → 3 ≤ n
    → n < 2 ^ 32
    → (3 ≤ match_part n)
      × (match_part n ≤ 66)
      × (match_part n ≤ n)
      × ((n - match_part n ≡ 0) ⊎ (3 ≤ n - match_part n))
unfolding match_part
match_part_bounds n h small = ground arith

Packet-same : {w v u : Window} {xs ys : List ℕ} → xs ≡ ys → v ≡ u → Packet w xs v → Packet w ys u
Packet-same {w} {u = u} {xs = xs} e f p =
    subst (λ zs. Packet w zs u) e (subst (λ t. Packet w xs t) f p)

-- The control byte and the distance of a match are one packet.
head_bytes-Packet :
    (m : Match) (code : ℕ) (w : Window)
    → code < 64
    → 1 ≤ m.distance
    → m.distance ≤ 65535
    → m.distance ≤ length w.out
    → Packet w (head_bytes m code) (matched code m.distance w)
unfolding head_bytes
head_bytes-Packet m code w fits low high near = elim (Bool-cases (leb m.distance 256)) [
  | inl e ↦
      let close : m.distance ≤ 256 = leb→le m.distance 256 e in
      let back : m.distance - 1 + 1 ≡ m.distance = omega arith in
      let byte : m.distance - 1 ≡ u8 (sub32 m.distance 1) = omega arith in
      rw e (
        Packet-same (ap₂ (λ (a b : ℕ). a ∷ b ∷ []) (sym (bit_or-shifted 6 1 code fits)) byte)
          (ap (λ d. matched code d w) back)
          (short code (m.distance - 1) fits (omega arith) (omega arith)))
  | inr e ↦
      let high_byte : m.distance / 256 ≡ u8 (u16 m.distance / 2 ^ 8) = omega arith in
      let low_byte : m.distance % 256 ≡ u8 (u16 m.distance) = omega arith in
      rw e (
        Packet-same
          (ap₂ ◌∷◌ (sym (bit_or-shifted 6 2 code fits))
            (ap₂ (λ (a b : ℕ). a ∷ b ∷ []) high_byte low_byte))
          refl (long code m.distance fits low (omega arith) near))
]

module _ (input : List ℕ) (small : length input < 2 ^ 32) where
  -- The window after a match that copies `n` bytes.
  copied :
      (p d n : ℕ) (w : Window)
      → 3 ≤ n
      → n ≤ 66
      → w.out ≡ take p input
      → Repeats input p d n
      → copy (u8 (sub32 n match_min) + 3) d w.out ≡ take (p + n) input
  copied p d n w low high e r =
      let code : u8 (sub32 n match_min) + 3 ≡ n = omega arith in
      ap (λ k. copy k d w.out) code ∙ ap (copy n d) e ∙ copy-take n input p d r

  length_out :
      (p d n : ℕ) (w : Window) → w.out ≡ take p input → Repeats input p d n → length w.out ≡ p
  length_out p d n w e r = ap length e ∙ omega (arith, length-take p input, r.inside)

  continue_more :
      (p d n q : ℕ) (w : Window) (bytes : List ℕ)
      → 3 ≤ n
      → n ≤ 66
      → w.out ≡ take p input
      → w.is_open ≡ true
      → w.distance ≡ d
      → Repeats input p d n
      → ((v : Window)
          → v.out ≡ take (p + n) input
          → v.is_open ≡ true
          → v.distance ≡ d
          → Reaches input v bytes q)
      → Reaches input w (bit_or 0xC0 (u8 (sub32 n match_min)) ∷ bytes) q
  continue_more p d n q w bytes low high e op dist r rest =
      let code = u8 (sub32 n match_min) in
      let fits : code < 64 = omega arith in
      let out : copy (code + 3) w.distance w.out ≡ take (p + n) input =
        ap (λ k. copy (code + 3) k w.out) dist ∙ copied p d n w low high e r in
      let near : w.distance ≤ length w.out = omega (arith, length_out p d n w e r, r.back, dist) in
      let (v, run, ends) = rest (matched code w.distance w) out refl dist in
      let byte : 192 + code ≡ bit_or 0xC0 code = sym (bit_or-shifted 6 3 code fits) in
      (v, subst (λ b. Run w (b ∷ bytes) v) byte (next (continuation code fits op near) run), ends)

  continue_bytes-Reaches :
      (fuel p d n : ℕ) (w : Window)
      → n ≤ fuel
      → (n ≡ 0) ⊎ (3 ≤ n)
      → w.out ≡ take p input
      → w.is_open ≡ true
      → w.distance ≡ d
      → Repeats input p d n
      → Reaches input w (continue_bytes fuel n) (p + n)
  unfolding continue_bytes
  continue_bytes-Reaches zero p d n w enough some_left e op dist r =
      let same : p ≡ p + n = omega arith in (w, done, e ∙ ap (λ k. take k input) same)
  continue_bytes-Reaches (suc fuel) p d n w enough some_left e op dist r =
      elim (Bool-cases (n == 0)) [
        | inl stop ↦
            let same : p ≡ p + n = omega (arith, ==→eq n 0 stop) in
            rw (stop, continue_bytes) (w, done, e ∙ ap (λ k. take k input) same)
        | inr more ↦
            let three : 3 ≤ n = omega (arith, ==→ne n 0 more) in
            let (low, high, fits, left) = match_part_bounds n three (omega (arith, r.inside)) in
            let rest : sub32 n (match_part n) ≡ n - match_part n = omega (arith, r.inside) in
            let end : p + match_part n + (n - match_part n) ≡ p + n = omega arith in
            rw (more, continue_bytes)
              (continue_more p d (match_part n) (p + n) w _ low high e op dist
                (Repeats-take (match_part n) fits r)
                (λ v f o g.
                  subst (λ k. Reaches input v (continue_bytes fuel k) (p + n)) (sym rest)
                    (subst (Reaches input v (continue_bytes fuel (n - match_part n))) end (
                      continue_bytes-Reaches fuel (p + match_part n) d (n - match_part n) v
                        (omega arith) left f o g
                        (Repeats-drop (match_part n) (n - match_part n) (omega arith) r)))))
      ]

  -- The first packet of a match, with its distance in one byte or in two.
  head_more :
      (p n q : ℕ) (m : Match) (w : Window) (bytes : List ℕ)
      → 3 ≤ n
      → n ≤ 66
      → m.distance ≤ 65535
      → w.out ≡ take p input
      → Repeats input p m.distance n
      → ((v : Window)
          → v.out ≡ take (p + n) input
          → v.is_open ≡ true
          → v.distance ≡ m.distance
          → Reaches input v bytes q)
      → Reaches input w (head_bytes m (u8 (sub32 n match_min)) ++ bytes) q
  head_more p n q m w bytes low high far e r rest =
      let code = u8 (sub32 n match_min) in
      let near : m.distance ≤ length w.out =
        omega (arith, length_out p m.distance n w e r, r.back) in
      let (v, run, ends) =
        rest (matched code m.distance w) (copied p m.distance n w low high e r) refl refl in
      (v, next (head_bytes-Packet m code w (omega arith) r.near far near) run, ends)

  -- In an input of less than 2 ^ 32 bytes, the packets of a match of at least 3 bytes that repeats
  -- the input from a distance of at most 65535 take an output that spells the input up to the position of the match
  -- to one that spells it up to the end of the match.
  pub match_bytes-Reaches :
      (p : ℕ) (m : Match) (w : Window)
      → 3 ≤ m.length
      → m.distance ≤ 65535
      → w.out ≡ take p input
      → Repeats input p m.distance m.length
      → Reaches input w (match_bytes m) (p + m.length)
  unfolding match_bytes
  match_bytes-Reaches p m w three far e r =
      let count = match_part m.length in
      let (low, high, fits, left) = match_part_bounds m.length three (omega (arith, r.inside)) in
      let rest : sub32 m.length count ≡ m.length - count = omega (arith, r.inside) in
      let end : p + count + (m.length - count) ≡ p + m.length = omega arith in
      head_more p count (p + m.length) m w _ low high far e (Repeats-take count fits r) (λ v f o g.
        subst (λ k. Reaches input v (continue_bytes m.length k) (p + m.length)) (sym rest)
          (subst (Reaches input v (continue_bytes m.length (m.length - count))) end (
            continue_bytes-Reaches m.length (p + count) m.distance (m.length - count) v
              (omega arith) left f o g (Repeats-drop count (m.length - count) (omega arith) r))))
