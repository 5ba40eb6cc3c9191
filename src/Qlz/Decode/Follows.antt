-- ===== src/Qlz/Decode/Follows.antt =====
-- src/qlz.c: the rounds of `qlz_decode` against the packets of the format.
use qlvgm.Prelude.{
  ℕ, zero, suc, ◌+◌, ◌-◌, ◌*◌, ◌/◌, ◌%◌, ◌≤◌, ◌<◌, ◌^◌, ◌≡◌, refl, arith, bit_and, bit_or,
}
use qlvgm.Prelude.{
  Bool, true, false, List, ◌∷◌, ◌++◌, length, length-append, ◌∙◌, sym, subst, sub32,
}
use qlvgm.Prelude.{ok, take-append_length, drop-append_length, ltb, ◌==◌, le→ltb, lt→ltb}
use qlvgm.Prelude.Bits.{bit_and-mask, bit_or-shifted}
use qlvgm.Buffer.{ByteBuffer, append}
use qlvgm.Qlz.Format.{Window, Packet, Run, literal, short, long, continuation, done, next, matched}
use qlvgm.Qlz.Decode.{Decoder, round, packet, literal_packet, read_distance, match_packet}
use qlvgm.Qlz.Decode.{copy_loop, decode_loop}
use qlvgm.Qlz.Decode.Output.{Holds, Holds-size, length-copy, append-Holds, copy_loop-Holds}

-- The decoder's variables stand for the window `w`, with room for `end` bytes of output.
pub record Shows (s : Decoder) (w : Window) (end : ℕ) : Type 0 where
  pub output : Holds s.output end w.out
  pub distance : s.last_distance ≡ w.distance
  pub is_open : s.can_continue ≡ w.is_open
  pub known : s.can_continue ≡ true → 1 ≤ s.last_distance

module _ (grants : ℕ → Bool) (end : ℕ) (small : end < 2 ^ 32) where
  -- A round that succeeds, and what it leaves.
  abbrev pub Advances : Decoder → List ℕ → Window → List ℕ → Type 0
  Advances s unread v rest =
      (t : Decoder) × (round grants 0 end unread s ≡ ok t) × Shows t v end × (t.unread ≡ rest)

  literal-Advances :
      (s : Decoder) (w : Window) (xs rest : List ℕ)
      → Shows s w end
      → 1 ≤ length xs
      → length xs ≤ 64
      → length w.out + length xs ≤ end
      → Advances s
          ((length xs - 1) ∷ (xs ++ rest))
          (record { out = w.out ++ xs; distance = w.distance; is_open = false })
          rest
  unfolding round packet literal_packet
  literal-Advances s w xs rest h low high fits =
      let size = Holds-size h.output in
      let n : bit_and (length xs - 1) 0x3F + 1 ≡ length xs =
        omega (arith, bit_and-mask 6 (length xs - 1)) in
      let type : ((length xs - 1) / 2 ^ 6 == 0) ≡ true = ground arith in
      let enough : ltb (length (xs ++ rest)) (length xs) ≡ false =
        le→ltb _ _ (omega (arith, length-append xs rest)) in
      let room : ltb (sub32 end s.output.size) (length xs) ≡ false =
        le→ltb _ _ (omega (arith, size)) in
      (
        record {
          unread = rest;
          output = (append grants s.output xs).0;
          last_distance = s.last_distance;
          can_continue = false;
        },
        rw (type, n, enough, room, take-append_length xs rest, drop-append_length xs rest),
        record {
          output = append-Holds grants s.output end w.out xs h.output fits;
          distance = h.distance;
          is_open = refl;
          known = λ e. cc;
        },
        refl,
      )

  match-Advances :
      (s : Decoder) (w : Window) (control code d : ℕ) (unread rest : List ℕ)
      → Shows s w end
      → bit_and control 0x3F ≡ code
      → (control / 2 ^ 6 == 0) ≡ false
      → read_distance (control / 2 ^ 6) (record s { unread = unread }) ≡ ok (d, rest)
      → 1 ≤ d
      → d ≤ length w.out
      → length w.out + (code + 3) ≤ end
      → Advances s (control ∷ unread) (matched code d w) rest
  unfolding round packet match_packet
  match-Advances s w control code d unread rest h n type read low near fits =
      let size = Holds-size h.output in
      let back : ltb (sub32 s.output.size 0) d ≡ false = le→ltb _ _ (omega (arith, size)) in
      let room : ltb (sub32 end s.output.size) (code + 3) ≡ false =
        le→ltb _ _ (omega (arith, size)) in
      (
        record {
          unread = rest;
          output = copy_loop grants (code + 3) d s.output;
          last_distance = d;
          can_continue = true;
        },
        rw (type, read, n, back, room),
        record {
          output = copy_loop-Holds grants (code + 3) d s.output end w.out h.output low near fits;
          distance = refl;
          is_open = refl;
          known = λ e. low;
        },
        refl,
      )

  code_byte : (type code : ℕ) → code < 64 → bit_and (type * 64 + code) 0x3F ≡ code
  code_byte type code fits = omega (arith, bit_and-mask 6 (type * 64 + code))

  pub Packet-Advances :
      {w v : Window} {bytes : List ℕ} (s : Decoder) (rest : List ℕ)
      → Packet w bytes v
      → Shows s w end
      → length v.out ≤ end
      → Advances s (bytes ++ rest) v rest
  Packet-Advances {w} s rest (literal xs low high) h fits =
      literal-Advances s w xs rest h low high (omega (arith, length-append w.out xs))
  Packet-Advances {w} s rest (short code byte c b near) h fits =
      match-Advances s w (64 + code) code (byte + 1) (byte ∷ rest) rest h (code_byte 1 code c)
        (ground arith) (unfold read_distance in ground arith) (omega arith) near
        (omega (arith, length-copy (code + 3) (byte + 1) w.out))
  Packet-Advances {w} s rest (long code d c low high near) h fits =
      let two : (d / 256) * 2 ^ 8 + d % 256 ≡ d = omega arith in
      let sum : bit_or ((d / 256) * 2 ^ 8) (d % 256) ≡ d =
        bit_or-shifted 8 (d / 256) (d % 256) (omega arith) ∙ two in
      match-Advances s w (128 + code) code d ((d / 256) ∷ (d % 256) ∷ rest) rest h
        (code_byte 2 code c) (ground arith) (unfold read_distance in ground (arith, sum)) low near
        (omega (arith, length-copy (code + 3) d w.out))
  Packet-Advances {w} s rest (continuation code c op near) h fits =
      let d = h.distance in
      match-Advances s w (192 + code) code w.distance rest rest h (code_byte 3 code c)
        (ground arith) (unfold read_distance in ground (arith, d, h.is_open))
        (omega (arith, d, h.known (h.is_open ∙ op))) near
        (omega (arith, length-copy (code + 3) w.distance w.out))

  -- A packet takes a byte at least, and gives one at least.
  pub Packet-grows :
      {w v : Window} {bytes : List ℕ}
      → Packet w bytes v
      → (1 ≤ length bytes) × (length w.out < length v.out)
  Packet-grows {w} (literal xs low high) = omega (arith, length-append w.out xs)
  Packet-grows {w} (short code byte c b near) =
      omega (arith, length-copy (code + 3) (byte + 1) w.out)
  Packet-grows {w} (long code d c low high near) = omega (arith, length-copy (code + 3) d w.out)
  Packet-grows {w} (continuation code c op near) =
      omega (arith, length-copy (code + 3) w.distance w.out)

  pub Run-grows : {w v : Window} {bytes : List ℕ} → Run w bytes v → length w.out ≤ length v.out
  Run-grows done = omega arith
  Run-grows (next p r) = omega (arith, Packet-grows p, Run-grows r)

  decode_loop_step :
      (fuel : ℕ) (s t : Decoder)
      → ltb s.output.size end ≡ true
      → round grants 0 end s.unread s ≡ ok t
      → decode_loop grants (suc fuel) 0 end s ≡ decode_loop grants fuel 0 end t
  unfolding decode_loop
  decode_loop_step fuel s t more e = simp (more, e, decode_loop)

  -- The loop makes of a run's bytes the run's output, in as many rounds as the run has packets.
  pub decode_loop-Run :
      (fuel : ℕ) {w v : Window} {bytes : List ℕ} (s : Decoder)
      → Run w bytes v
      → Shows s w end
      → s.unread ≡ bytes
      → length v.out ≡ end
      → length bytes < fuel
      → (b : ByteBuffer) × (decode_loop grants fuel 0 end s ≡ ok b) × (b.bytes ≡ v.out)
  unfolding decode_loop
  decode_loop-Run zero s r h e whole enough = absurd (omega arith)
  decode_loop-Run (suc fuel) s done h e whole enough =
      let stop : ltb s.output.size end ≡ false =
        le→ltb _ _ (omega (arith, Holds-size h.output, whole)) in
      (s.output, simp (stop, e, decode_loop), h.output.held)
  decode_loop-Run (suc fuel) s (next {w = w} {bytes = bytes} {rest = rest} p r) h e whole enough =
      let (some_bytes, grows) = Packet-grows p in
      let more : ltb s.output.size end ≡ true =
        lt→ltb _ _ (omega (arith, Holds-size h.output, whole, grows, Run-grows r)) in
      let (t, step, shows, left) = Packet-Advances s rest p h (omega (arith, whole, Run-grows r)) in
      let (b, loop, bytes_eq) =
        decode_loop-Run fuel t r shows left whole (omega (arith, length-append bytes rest)) in
      let here : round grants 0 end s.unread s ≡ ok t =
        subst (λ u. round grants 0 end u s ≡ ok t) (sym e) step in
      (b, decode_loop_step fuel s t more here ∙ loop, bytes_eq)
