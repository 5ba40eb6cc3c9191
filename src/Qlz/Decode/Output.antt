-- ===== src/Qlz/Decode/Output.antt =====
-- src/qlz.c: the output buffer of `qlz_decode`.
use qlvgm.Prelude.{ℕ, zero, suc, ◌+◌, ◌-◌, ◌≤◌, ◌≡◌, arith, Bool, false, List, [], ◌∷◌}
use qlvgm.Prelude.{◌++◌, length, length-append, ap, ◌∙◌, sym, sub32}
use qlvgm.Buffer.{ByteBuffer, append, byte_at}
use qlvgm.Buffer.Laws.{IsWellFormed, append_room}
use qlvgm.Buffer.Writes.{append_byte_lem}
use qlvgm.Qlz.Format.{copy}
use qlvgm.Qlz.Decode.{copy_loop}

-- A sound buffer that holds `out` and has room for `end` bytes.
pub record Holds (b : ByteBuffer) (end : ℕ) (out : List ℕ) : Type 0 where
  pub sound : IsWellFormed b
  pub fine : b.failed ≡ false
  pub room : end ≤ b.capacity
  pub held : b.bytes ≡ out

pub Holds-size : {b : ByteBuffer} {end : ℕ} {out : List ℕ} → Holds b end out → b.size ≡ length out
Holds-size h = sym h.sound.counted ∙ ap length h.held

pub length-copy : (n d : ℕ) (out : List ℕ) → length (copy n d out) ≡ length out + n
unfolding copy
length-copy zero d out = omega arith
length-copy (suc n) d out =
    let last = byte_at out (length out - d) ∷ [] in
    omega (arith, length-copy n d (out ++ last), length-append out last)

module _ (grants : ℕ → Bool) where
  pub append-Holds :
      (b : ByteBuffer) (end : ℕ) (out xs : List ℕ)
      → Holds b end out
      → length out + length xs ≤ end
      → Holds (append grants b xs).0 end (out ++ xs)
  append-Holds b end out xs h fits =
      let size = Holds-size h in
      rw (append_room grants b xs h.sound h.fine (omega (arith, size, h.room))) (record {
        sound = record {
          counted = omega (arith, length-append b.bytes xs, h.sound.counted);
          fits = omega (arith, size, h.room);
          bounded = h.sound.bounded;
        };
        fine = h.fine;
        room = h.room;
        held = ap (λ (ys : List ℕ). ys ++ xs) h.held;
      })

  -- The copying loop is the copy of the format.
  pub copy_loop-Holds :
      (n d : ℕ) (b : ByteBuffer) (end : ℕ) (out : List ℕ)
      → Holds b end out
      → 1 ≤ d
      → d ≤ length out
      → length out + n ≤ end
      → Holds (copy_loop grants n d b) end (copy n d out)
  unfolding copy_loop copy
  copy_loop-Holds zero d b end out h low near fits = h
  copy_loop-Holds (suc n) d b end out h low near fits =
      let x = byte_at out (length out - d) in
      let index : sub32 b.size d ≡ length out - d =
        omega (arith, Holds-size h, h.sound.fits, h.sound.bounded) in
      let byte : byte_at b.bytes (sub32 b.size d) ≡ x =
        ap (byte_at b.bytes) index ∙ ap (λ ys. byte_at ys (length out - d)) h.held in
      rw (byte, append_byte_lem)
        (copy_loop-Holds n d (append grants b (x ∷ [])).0 end (out ++ (x ∷ []))
          (append-Holds b end out (x ∷ []) h (omega arith)) low
          (omega (arith, length-append out (x ∷ []))) (omega (arith, length-append out (x ∷ []))))
