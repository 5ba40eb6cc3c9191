-- ===== src/Qlz/Decode/Total.antt =====
-- src/qlz.c: `qlz_decode` on any bytes, from the header on.
use qlvgm.Prelude.{ℕ, suc, ◌+◌, ◌-◌, ◌≤◌, ◌<◌, ◌^◌, ◌≡◌, ◌≢◌, refl, arith}
use qlvgm.Prelude.{
  Bool, true, false, not, ◌||◌, Bool-cases, inl, inr, List, [], length, All, ◌∙◌, sym, subst,
}
use qlvgm.Prelude.{Result, ok, err, drop, ltb, ◌==◌, ltb→le, ==→eq, or-eq-false, IsByte, u32}
use qlvgm.Buffer.{ByteBuffer, empty, reserve}
use qlvgm.Buffer.Laws.{IsWellFormed, reserve_taken}
use qlvgm.Qlz.Format.{Window, Run, opening}
use qlvgm.Qlz.Decode.{
  Decoder, DecodeError, out_of_rounds, read_be32, has_magic, decode_loop, enter, decode,
}
use qlvgm.Qlz.Decode.Answers.{Ends, decode_loop-Ends, read_be32-bound, All-drop}

-- A decoded stream has the header, the size of its payload, a payload that is a run of packets, and the
-- run's output, which has the size that the header gives; otherwise the decoder names an error.
abbrev pub Decoded : List ℕ → Result DecodeError ByteBuffer → Type 0
Decoded input (err e) = e ≢ out_of_rounds
Decoded input (ok b) =
    (12 ≤ length input)
    × (has_magic input ≡ true)
    × (read_be32 input 8 ≡ length input - 12)
    × (w : Window) × Run opening (drop 12 input) w
    × (b.bytes ≡ w.out)
    × (length w.out ≡ read_be32 input 4)
    × IsWellFormed b

room_for : (n : ℕ) (c : ByteBuffer) → 0 + n ≤ c.capacity → n ≤ c.capacity
room_for n c h = omega arith

module _ (grants : ℕ → Bool) where
  Ends-Decoded :
      (input : List ℕ) (end : ℕ) (small : end < 2 ^ 32) (r : Result DecodeError ByteBuffer)
      → 12 ≤ length input
      → has_magic input ≡ true
      → read_be32 input 8 ≡ length input - 12
      → read_be32 input 4 ≡ end
      → Ends grants end small opening (drop 12 input) r
      → Decoded input r
  Ends-Decoded input end small (err e) long named packed raw h = h
  Ends-Decoded input end small (ok b) long named packed raw (w, run, out, total, sound) =
      (long, named, packed, w, run, out, total ∙ sym raw, sound)

  enter-Decoded :
      (input : List ℕ) (r : ByteBuffer × Bool)
      → 12 ≤ length input
      → has_magic input ≡ true
      → read_be32 input 8 ≡ length input - 12
      → All IsByte input
      → (r.1 ≡ true
          → IsWellFormed r.0
            × (r.0.failed ≡ false)
            × (r.0.bytes ≡ [])
            × (r.0.size ≡ 0)
            × (0 + read_be32 input 4 ≤ r.0.capacity))
      → Decoded input (enter grants (drop 12 input) (read_be32 input 4) r)
  unfolding enter
  enter-Decoded input (c, false) long named packed all taken = λ e. cc
  enter-Decoded input (c, true) long named packed all taken =
      let (sound, fine, bytes, none_yet, room) = taken refl in
      let n = read_be32 input 4 in
      let small : n < 2 ^ 32 = read_be32-bound input 4 all in
      let payload = drop 12 input in
      let start : Decoder = record {
        unread = payload;
        output = c;
        last_distance = 0;
        can_continue = false;
      } in
      let end : u32 (c.size + n) ≡ n = omega (arith, none_yet) in
      subst
        (λ at.
          Decoded input (decode_loop grants (suc (length payload)) at (u32 (c.size + n)) start))
        (sym none_yet)
        (subst (λ to. Decoded input (decode_loop grants (suc (length payload)) 0 to start))
          (sym end)
          (Ends-Decoded input n small (decode_loop grants (suc (length payload)) 0 n start) long
            named packed refl
            (decode_loop-Ends grants n small (suc (length payload)) start opening
              (record {
                output = record {
                  sound = sound;
                  fine = fine;
                  room = room_for n c room;
                  held = bytes;
                };
                distance = refl;
                is_open = refl;
                known = λ e. cc;
              })
              (omega arith) (All-drop 12 input all) (omega arith))))

  -- On any list of bytes and with any allocator, `decode` into an empty buffer ends: it returns a
  -- well-formed buffer, and then the input has the header and the size of its payload, the payload is
  -- a run of packets of the format, and the buffer holds the output of the run, of the size in the
  -- header; or it stops with one of the errors of the source, never because rounds ran out.
  pub decode-Decoded :
      (input : List ℕ) → All IsByte input → Decoded input (decode grants input empty)
  unfolding decode
  decode-Decoded input all = elim (Bool-cases (ltb (length input) 12 || not (has_magic input))) [
    | inl bad ↦ rw (bad) (λ e. cc)
    | inr good ↦
        let (long, named) = or-eq-false (ltb (length input) 12) (not (has_magic input)) good in
        elim (Bool-cases (read_be32 input 8 == length input - 12)) [
          | inr other ↦ rw (good, other) (λ e. cc)
          | inl packed ↦
              rw (good, packed)
                (enter-Decoded input (reserve grants empty (read_be32 input 4))
                  (ltb→le (length input) 12 long) (ground (arith, named))
                  (==→eq (read_be32 input 8) (length input - 12) packed) all
                  λ taken.
                    reserve_taken grants empty (read_be32 input 4)
                      (record { counted = refl; fits = omega arith; bounded = omega arith }) taken)
        ]
  ]
