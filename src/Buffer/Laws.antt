-- ===== src/Buffer/Laws.antt =====
-- src/runtime.c: the appends of the byte buffer, failures included.
use qlvgm.Prelude.{ℕ, zero, suc, ◌+◌, ◌*◌, ◌^◌, ◌≤◌, ◌<◌, ◌≡◌, refl, ◌⊎◌, inl, inr}
use qlvgm.Prelude.{Bool, true, false, arith, length-append, ap, sym, ◌∙◌}
use qlvgm.Prelude.{List, [], ◌∷◌, ◌++◌, length, append-nil, append_assoc}
use native.Mathlib.Nat.{pow-suc}
use qlvgm.Buffer.{ByteBuffer, grow, reserve, append, seq}

-- The representation of a buffer in use.
pub record IsWellFormed (b : ByteBuffer) : Type 0 where
  pub counted : length b.bytes ≡ b.size
  pub fits : b.size ≤ b.capacity
  pub bounded : b.capacity < 2 ^ 32

-- With the capacity at least `needed / 2 ^ fuel` the loop ends by its test.
grow_bounds :
    (fuel capacity needed : ℕ)
    → needed ≤ capacity * 2 ^ fuel
    → capacity < 2 ^ 32
    → needed < 2 ^ 32
    → (needed ≤ grow fuel capacity needed)
      × (grow fuel capacity needed < 2 ^ 32)
      × (capacity ≤ grow fuel capacity needed)
unfolding grow
grow_bounds zero capacity needed h c n = ground arith
grow_bounds (suc fuel) capacity needed h c n = ground (
  arith,
  pow-suc 2 fuel,
  ap (λ (t : ℕ). capacity * t) (pow-suc 2 fuel),
  grow_bounds fuel (capacity * 2) needed,
)

-- What a write of `xs` may answer: it is done, or it returns false on a failed buffer.
abbrev pub Wrote : ByteBuffer → List ℕ → ByteBuffer × Bool → Type 0
Wrote b xs (c, ok) =
    ((ok ≡ true) × (c.bytes ≡ b.bytes ++ xs) × (c.failed ≡ b.failed))
    ⊎ ((ok ≡ false) × (c.failed ≡ true))

Wrote-longer :
    (b c : ByteBuffer) (xs ys : List ℕ) (r : ByteBuffer × Bool)
    → c.bytes ≡ b.bytes ++ xs
    → c.failed ≡ b.failed
    → Wrote c ys r
    → Wrote b (xs ++ ys) r
Wrote-longer b c xs ys (d, ok) bytes failed (inr h) = inr h
Wrote-longer b c xs ys (d, ok) bytes failed (inl (done, more, same)) =
    inl (done, rw (more, bytes) (append_assoc b.bytes xs ys), same ∙ failed)

-- The answers of two writes in a row.
pub seq-Wrote :
    (b : ByteBuffer) (xs ys : List ℕ) (r : ByteBuffer × Bool)
    (next : ByteBuffer → ByteBuffer × Bool)
    → Wrote b xs r
    → ((c : ByteBuffer) → Wrote c ys (next c))
    → Wrote b (xs ++ ys) (seq r next)
seq-Wrote b xs ys (c, false) next (inl (e, _, _)) k = absurd (cc e)
seq-Wrote b xs ys (c, false) next (inr h) k = inr h
seq-Wrote b xs ys (c, true) next (inr (e, _)) k = absurd (cc e)
seq-Wrote b xs ys (c, true) next (inl (_, bytes, failed)) k =
    Wrote-longer b c xs ys (next c) bytes failed (k c)

module _ (grants : ℕ → Bool) where
  reserve_keeps :
      (b : ByteBuffer) (n : ℕ)
      → let r = reserve grants b n in
        ((r.1 ≡ true) × (r.0.bytes ≡ b.bytes) × (r.0.failed ≡ b.failed) × (r.0.size ≡ b.size))
        ⊎ ((r.1 ≡ false) × (r.0.failed ≡ true))
  unfolding reserve
  reserve_keeps b n = ground arith

  pub append-Wrote : (b : ByteBuffer) (xs : List ℕ) → Wrote b xs (append grants b xs)
  unfolding append
  append-Wrote b [] = inl (refl, sym (append-nil b.bytes), refl)
  append-Wrote b (x ∷ xs) = ground (arith, reserve_keeps b (length (x ∷ xs)))

  reserve_room :
      (b : ByteBuffer) (n : ℕ)
      → IsWellFormed b
      → let r = reserve grants b n in
        (r.0.bytes ≡ b.bytes)
        × (r.0.size ≡ b.size)
        × (r.0.capacity < 2 ^ 32)
        × (b.capacity ≤ r.0.capacity)
        × (r.1 ≡ true → b.size + n ≤ r.0.capacity)
  unfolding reserve
  reserve_room b n w = ground (
    arith,
    w.fits,
    w.bounded,
    grow_bounds 32 256 (b.size + n),
    grow_bounds 32 b.capacity (b.size + n),
  )

  -- What a reservation that returns true gives, whatever the allocator grants.
  pub reserve_taken :
      (b : ByteBuffer) (n : ℕ)
      → IsWellFormed b
      → (reserve grants b n).1 ≡ true
      → let c = (reserve grants b n).0 in
        IsWellFormed c
        × (c.failed ≡ b.failed)
        × (c.bytes ≡ b.bytes)
        × (c.size ≡ b.size)
        × (b.size + n ≤ c.capacity)
  reserve_taken b n w taken =
      let (bytes, size, bounded, wider, room) = reserve_room b n w in
      let fits : (reserve grants b n).0.size ≤ (reserve grants b n).0.capacity =
        omega (arith, size, wider, w.fits) in
      let failed : (reserve grants b n).0.failed ≡ b.failed = elim (reserve_keeps b n) [
        | inl (_, _, same, _) ↦ same
        | inr (refused, _) ↦ absurd (cc (taken, refused))
      ] in
      (
        record { counted = ap length bytes ∙ w.counted ∙ sym size; fits = fits; bounded = bounded },
        failed,
        bytes,
        size,
        room taken,
      )

  reserve_answers :
      (b : ByteBuffer) (n : ℕ)
      → IsWellFormed b
      → b.failed ≡ false
      → b.size + n < 2 ^ 32
      → ((k : ℕ) → grants k ≡ true)
      → ((reserve grants b n).1 ≡ true) × ((reserve grants b n).0.failed ≡ false)
  unfolding reserve
  reserve_answers b n w fine fits all =
      ground (arith, all (grow 32 256 (b.size + n)), all (grow 32 b.capacity (b.size + n)))

  -- What a reservation that is granted gives.
  pub reserve_granted :
      (b : ByteBuffer) (n : ℕ)
      → IsWellFormed b
      → b.failed ≡ false
      → b.size + n < 2 ^ 32
      → ((k : ℕ) → grants k ≡ true)
      → (c : ByteBuffer) × (reserve grants b n ≡ (c, true))
        × IsWellFormed c
        × (c.failed ≡ false)
        × (c.bytes ≡ b.bytes)
        × (b.size + n ≤ c.capacity)
  reserve_granted b n w fine fits all =
      let room = reserve_room b n w in
      let answer = reserve_answers b n w fine fits all in
      (
        (reserve grants b n).0,
        ap (λ (ok : Bool). ((reserve grants b n).0, ok)) answer.0,
        record {
          counted = ap length room.0 ∙ w.counted ∙ sym room.1;
          fits = omega (arith, room, w.fits);
          bounded = room.2;
        },
        answer.1,
        room.0,
        room.4 answer.0,
      )

  -- On a well-formed buffer every `append`, a refused one too, leaves a well-formed buffer.
  pub append-IsWellFormed :
      (b : ByteBuffer) (xs : List ℕ) → IsWellFormed b → IsWellFormed (append grants b xs).0
  unfolding append
  append-IsWellFormed b [] w = w
  append-IsWellFormed b (x ∷ xs) w =
      ground (arith, w.counted, reserve_room b (length (x ∷ xs)) w, length-append b.bytes (x ∷ xs))

  -- A write that fits the capacity is done, whatever the allocator answers.
  pub append_room :
      (b : ByteBuffer) (xs : List ℕ)
      → IsWellFormed b
      → b.failed ≡ false
      → b.size + length xs ≤ b.capacity
      → append grants b xs ≡ (record b { bytes = b.bytes ++ xs; size = b.size + length xs }, true)
  unfolding append reserve
  append_room b [] w h fits = ground (arith, append-nil b.bytes)
  append_room b (x ∷ xs) w h fits = ground (arith, w.bounded)

  -- On a well-formed buffer that has not failed, `append` returns true if the new size stays below
  -- 2 ^ 32 and the allocator grants every request.
  pub append_granted :
      (b : ByteBuffer) (xs : List ℕ)
      → IsWellFormed b
      → b.failed ≡ false
      → b.size + length xs < 2 ^ 32
      → ((n : ℕ) → grants n ≡ true)
      → (append grants b xs).1 ≡ true
  unfolding append reserve
  append_granted b [] w h fits all = refl
  append_granted b (x ∷ xs) w h fits all = ground (
    arith,
    all (grow 32 256 (b.size + length (x ∷ xs))),
    all (grow 32 b.capacity (b.size + length (x ∷ xs))),
  )

  pub append_size :
      (b : ByteBuffer) (xs : List ℕ)
      → (append grants b xs).1 ≡ true
      → IsWellFormed b
      → b.size + length xs < 2 ^ 32
      → (append grants b xs).0.size ≡ b.size + length xs
  unfolding append
  append_size b [] e w fits = omega arith
  append_size b (x ∷ xs) e w fits = ground (arith, reserve_room b (length (x ∷ xs)) w)
