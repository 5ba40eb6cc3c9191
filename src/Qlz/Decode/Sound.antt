-- ===== src/Qlz/Decode/Sound.antt =====
-- src/qlz.c: what a round of `qlz_decode` accepts is a packet of the format.
use qlvgm.Prelude.{
  ℕ, suc, ◌+◌, ◌-◌, ◌*◌, ◌/◌, ◌%◌, ◌≤◌, ◌<◌, ◌^◌, ◌≡◌, ◌≢◌, refl, arith, bit_and, bit_or,
}
use qlvgm.Prelude.{
  Bool, true, false, Bool-cases, inl, inr, List, [], ◌∷◌, ◌++◌, length, length-append, length-take,
  All, ◌∙◌, ap, sym, subst, sub32,
}
use qlvgm.Prelude.{
  Result, ok, err, ◌>>=◌, take, take-append_drop, ltb, ◌==◌, ◌||◌, ltb→le, ==→eq, ==→ne,
  or-eq-false, IsByte,
}
use qlvgm.Prelude.Bits.{bit_and-mask, bit_or-shifted}
use qlvgm.Qlz.Format.{Window, Packet, literal, short, long, continuation, matched}
use qlvgm.Qlz.Decode.{
  Decoder, DecodeError, out_of_rounds, round, packet, literal_packet, read_distance, match_packet,
}
use qlvgm.Qlz.Decode.Output.{Holds-size, length-copy, append-Holds, copy_loop-Holds}
use qlvgm.Qlz.Decode.Follows.{Shows}

module _ (grants : ℕ → Bool) (end : ℕ) (small : end < 2 ^ 32) where
  -- A packet that leads from `w` and takes the first bytes of `unread`, or an error of the decoder.
  abbrev pub Takes : Window → List ℕ → Result DecodeError Decoder → Type 0
  Takes w unread (err e) = e ≢ out_of_rounds
  Takes w unread (ok t) =
      (v : Window) × (bytes : List ℕ) × Packet w bytes v
      × (unread ≡ bytes ++ t.unread)
      × Shows t v end
      × (length v.out ≤ end)

  literal-Takes :
      (s : Decoder) (w : Window) (control : ℕ) (more : List ℕ)
      → Shows s w end
      → length w.out ≤ end
      → control < 64
      → Takes w (control ∷ more) (literal_packet grants end (record s { unread = more }) control)
  unfolding literal_packet
  literal-Takes s w control more h fits low =
      let n = bit_and control 0x3F + 1 in
      let size = Holds-size h.output in
      let count : n ≡ control + 1 = omega (arith, bit_and-mask 6 control) in
      elim (Bool-cases (ltb (length more) n || ltb (sub32 end s.output.size) n)) [
        | inl bad ↦ rw (bad) (λ e. cc)
        | inr good ↦
            let (enough, room) =
              or-eq-false (ltb (length more) n) (ltb (sub32 end s.output.size) n) good in
            let xs = take n more in
            let len : length xs ≡ n =
              omega (arith, length-take n more, ltb→le (length more) n enough) in
            let inside : length w.out + length xs ≤ end =
              omega (arith, len, size, ltb→le (sub32 end s.output.size) n room) in
            let head : control ≡ length xs - 1 = omega (arith, len, count) in
            rw (good) (
              record { out = w.out ++ xs; distance = w.distance; is_open = false },
              (length xs - 1) ∷ xs,
              literal xs (omega (arith, len)) (omega (arith, len, count)),
              ap (◌∷ more) head ∙ ap (◌∷◌ (length xs - 1)) (sym (take-append_drop n more)),
              record {
                output = append-Holds grants s.output end w.out xs h.output inside;
                distance = h.distance;
                is_open = refl;
                known = λ e. cc;
              },
              omega (arith, length-append w.out xs, inside),
            )
      ]

  match-Takes :
      (s : Decoder) (w : Window) (control code d : ℕ) (unread bytes rest : List ℕ)
      → Shows s w end
      → length w.out ≤ end
      → bit_and control 0x3F ≡ code
      → 1 ≤ d
      → (d ≤ length w.out → Packet w bytes (matched code d w))
      → unread ≡ bytes ++ rest
      → (t : Decoder) → t.output ≡ s.output
      → Takes w unread (match_packet grants 0 end t control (d, rest))
  unfolding match_packet
  match-Takes s w control code d unread bytes rest h fits n low p split t same =
      let size = Holds-size h.output in
      elim (Bool-cases
        (ltb (sub32 s.output.size 0) d || ltb (sub32 end s.output.size) (code + 3))) [
          | inl bad ↦ rw (same, n, bad) (λ e. cc)
          | inr good ↦
              let (back, room) =
                or-eq-false (ltb (sub32 s.output.size 0) d)
                  (ltb (sub32 end s.output.size) (code + 3)) good in
              let near : d ≤ length w.out =
                omega (arith, size, ltb→le (sub32 s.output.size 0) d back) in
              let inside : length w.out + (code + 3) ≤ end =
                omega (arith, size, ltb→le (sub32 end s.output.size) (code + 3) room) in
              rw (same, n, good)
                (
                  matched code d w,
                  bytes,
                  p near,
                  split,
                  record {
                    output =
                        copy_loop-Holds grants (code + 3) d s.output end w.out h.output low near
                          inside;
                    distance = refl;
                    is_open = refl;
                    known = λ e. low;
                  },
                  omega (arith, length-copy (code + 3) d w.out, inside),
                )
        ]

  short-Takes :
      (s : Decoder) (w : Window) (control : ℕ) (more : List ℕ)
      → Shows s w end
      → length w.out ≤ end
      → control / 2 ^ 6 ≡ 1
      → All IsByte more
      → Takes w (control ∷ more) (
          read_distance 1 (record s { unread = more })
          >>= match_packet grants 0 end (record s { unread = more }) control)
  unfolding read_distance
  short-Takes s w control [] h fits type bytes = λ e. cc
  short-Takes s w control (b ∷ rest) h fits type (byte, bytes) =
      let code = bit_and control 0x3F in
      let low : code < 64 = omega (arith, bit_and-mask 6 control) in
      let head : control ≡ 64 + code = omega (arith, bit_and-mask 6 control) in
      let some_left : (suc (length rest) == 0) ≡ false = ground arith in
      rw (some_left) (
        match-Takes s w control code (b + 1) (control ∷ b ∷ rest) ((64 + code) ∷ b ∷ []) rest h fits
          refl (omega arith) (λ near. short code b low byte near) (ap (λ c. c ∷ b ∷ rest) head)
          (record s { unread = b ∷ rest }) refl)

  far :
      (s : Decoder) (w : Window) (control a b : ℕ) (rest : List ℕ)
      → Shows s w end
      → length w.out ≤ end
      → control / 2 ^ 6 ≡ 2
      → a < 256
      → b < 256
      → 1 ≤ bit_or (a * 2 ^ 8) b
      → Takes w (control ∷ a ∷ b ∷ rest) (
          match_packet grants 0 end
            (record s { unread = a ∷ b ∷ rest })
            control
            (bit_or (a * 2 ^ 8) b, rest))
  far s w control a b rest h fits type high low some =
      let code = bit_and control 0x3F in
      let d = bit_or (a * 2 ^ 8) b in
      let sum : d ≡ a * 2 ^ 8 + b = bit_or-shifted 8 a b low in
      let few : code < 64 = omega (arith, bit_and-mask 6 control) in
      let head : control ≡ 128 + code = omega (arith, bit_and-mask 6 control) in
      let first : a ≡ d / 256 = omega (arith, sum) in
      let second : b ≡ d % 256 = omega (arith, sum) in
      match-Takes s w control code d (control ∷ a ∷ b ∷ rest)
        ((128 + code) ∷ (d / 256) ∷ (d % 256) ∷ []) rest h fits refl some
        (λ near. long code d few some (omega (arith, sum)) near)
        (ap (λ c. c ∷ a ∷ b ∷ rest) head
          ∙ ap (λ x. (128 + code) ∷ x ∷ b ∷ rest) first
          ∙ ap (λ x. (128 + code) ∷ (d / 256) ∷ x ∷ rest) second)
        (record s { unread = a ∷ b ∷ rest }) refl

  long-Takes :
      (s : Decoder) (w : Window) (control : ℕ) (more : List ℕ)
      → Shows s w end
      → length w.out ≤ end
      → control / 2 ^ 6 ≡ 2
      → All IsByte more
      → Takes w (control ∷ more) (
          read_distance 2 (record s { unread = more })
          >>= match_packet grants 0 end (record s { unread = more }) control)
  unfolding read_distance
  long-Takes s w control [] h fits type bytes = λ e. cc
  long-Takes s w control (a ∷ []) h fits type bytes = λ e. cc
  long-Takes s w control (a ∷ b ∷ rest) h fits type (high, (low, bytes)) =
      let d = bit_or (a * 2 ^ 8) b in
      let enough : ltb (suc (suc (length rest))) 2 ≡ false = ground arith in
      elim (Bool-cases (d == 0)) [
        | inl zero_d ↦ rw (enough, zero_d) (λ e. cc)
        | inr some ↦
            rw (enough, some)
              (far s w control a b rest h fits type high low (omega (arith, ==→ne d 0 some)))
      ]

  again-Takes :
      (s : Decoder) (w : Window) (control type : ℕ) (more : List ℕ)
      → Shows s w end
      → length w.out ≤ end
      → control / 2 ^ 6 ≡ 3
      → (type == 1) ≡ false
      → (type == 2) ≡ false
      → Takes w (control ∷ more) (
          read_distance type (record s { unread = more })
          >>= match_packet grants 0 end (record s { unread = more }) control)
  unfolding read_distance
  again-Takes s w control type more h fits three not_short not_long =
      let code = bit_and control 0x3F in
      let low : code < 64 = omega (arith, bit_and-mask 6 control) in
      let head : control ≡ 192 + code = omega (arith, bit_and-mask 6 control) in
      elim (Bool-cases s.can_continue) [
        | inr closed ↦ rw (not_short, not_long, closed) (λ e. cc)
        | inl opened ↦
            rw (not_short, not_long, opened)
              (match-Takes s w control code s.last_distance (control ∷ more) ((192 + code) ∷ [])
                more h fits refl (h.known opened)
                (λ near.
                  subst (λ d. Packet w ((192 + code) ∷ []) (matched code d w)) (sym h.distance)
                    (continuation code low (sym h.is_open ∙ opened)
                      (omega (arith, near, h.distance))))
                (ap (λ c. c ∷ more) head) (record s { unread = more; can_continue = true }) refl)
      ]

  -- A round takes a packet of the format, or it stops with an error of the decoder.
  pub round-Takes :
      (s : Decoder) (w : Window) (unread : List ℕ)
      → Shows s w end
      → length w.out ≤ end
      → All IsByte unread
      → Takes w unread (round grants 0 end unread s)
  unfolding round packet
  round-Takes s w [] h fits bytes = λ e. cc
  round-Takes s w (control ∷ more) h fits (byte, bytes) =
      let type = control / 2 ^ 6 in
      elim (Bool-cases (type == 0)) [
        | inl is ↦ rw (is) (literal-Takes s w control more h fits (omega (arith, ==→eq type 0 is)))
        | inr not_literal ↦ elim (Bool-cases (type == 1)) [
          | inl is ↦
              let one : type ≡ 1 = ==→eq type 1 is in
              rw (not_literal, one) (short-Takes s w control more h fits one bytes)
          | inr not_short ↦ elim (Bool-cases (type == 2)) [
            | inl is ↦
                let two : type ≡ 2 = ==→eq type 2 is in
                rw (not_literal, two) (long-Takes s w control more h fits two bytes)
            | inr not_long ↦
                let three : type ≡ 3 = omega (
                  arith,
                  ==→ne type 0 not_literal,
                  ==→ne type 1 not_short,
                  ==→ne type 2 not_long,
                ) in
                rw (not_literal) (again-Takes s w control type more h fits three not_short not_long)
          ]
        ]
      ]
