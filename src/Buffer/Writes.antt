-- ===== src/Buffer/Writes.antt =====
-- src/runtime.c: one description of a write, and of two in a row.
use qlvgm.Prelude.{ℕ, ◌+◌, ◌/◌, ◌^◌, ◌<◌, ◌≡◌, refl, inl, inr}
use qlvgm.Prelude.{Bool, true, false, arith, length-append, sym, ◌∙◌}
use qlvgm.Prelude.{List, [], ◌∷◌, ◌++◌, length, append-nil}
use qlvgm.Buffer.{ByteBuffer, append, append_byte, append_be16, seq}
use qlvgm.Prelude.{u8}
use qlvgm.Buffer.Laws.{
  IsWellFormed, Wrote, seq-Wrote, append-Wrote, append-IsWellFormed, append_granted, append_size,
}

module _ (grants : ℕ → Bool) where
  -- With an allocator that gives what is asked for, a write is done while the size stays 32 bits wide.
  abbrev pub Accepts : ByteBuffer → List ℕ → ByteBuffer × Bool → Type 0
  Accepts b xs r =
      ((n : ℕ) → grants n ≡ true)
      → IsWellFormed b
      → b.failed ≡ false
      → b.size + length xs < 2 ^ 32
      → (r.1 ≡ true) × IsWellFormed r.0 × (r.0.size ≡ b.size + length xs)

  -- What a write of `xs` does, allocation failures included.
  pub record Appends (b : ByteBuffer) (xs : List ℕ) (r : ByteBuffer × Bool) : Type 0 where
    pub wrote : Wrote b xs r
    pub accepts : Accepts b xs r
    pub keeps : IsWellFormed b → IsWellFormed r.0

  pub append-Appends : (b : ByteBuffer) (xs : List ℕ) → Appends b xs (append grants b xs)
  append-Appends b xs = record {
    wrote = append-Wrote grants b xs;
    accepts = λ all w fine fits.
        let e = append_granted grants b xs w fine fits all in
        (e, append-IsWellFormed grants b xs w, append_size grants b xs e w fits);
    keeps = append-IsWellFormed grants b xs;
  }

  pub append_byte_lem : (b : ByteBuffer) (x : ℕ) → append_byte grants b x ≡ append grants b (x ∷ [])
  unfolding append_byte
  append_byte_lem b x = refl

  pub append_byte-Appends : (b : ByteBuffer) (x : ℕ) → Appends b (x ∷ []) (append_byte grants b x)
  unfolding append_byte
  append_byte-Appends b x = append-Appends b (x ∷ [])

  pub append_be16-Appends :
      (b : ByteBuffer) (x : ℕ) → Appends b (u8 (x / 2 ^ 8) ∷ u8 x ∷ []) (append_be16 grants b x)
  unfolding append_be16
  append_be16-Appends b x = append-Appends b (u8 (x / 2 ^ 8) ∷ u8 x ∷ [])

  pub Appends-nil : (b : ByteBuffer) → Appends b [] (b, true)
  Appends-nil b = record {
    wrote = inl (refl, sym (append-nil b.bytes), refl);
    accepts = λ all w fine fits. (refl, w, omega arith);
    keeps = λ w. w;
  }

  seq-Accepts :
      (b : ByteBuffer) (xs ys : List ℕ) (r : ByteBuffer × Bool)
      (next : ByteBuffer → ByteBuffer × Bool)
      → Appends b xs r
      → ((c : ByteBuffer) → Appends c ys (next c))
      → Accepts b (xs ++ ys) (seq r next)
  seq-Accepts b xs ys (c, false) next a k all w fine fits =
      let (bad, _, _) = a.accepts all w fine (omega (arith, length-append xs ys)) in absurd (cc bad)
  seq-Accepts b xs ys (c, true) next a k all w fine fits =
      let (_, v, size) = a.accepts all w fine (omega (arith, length-append xs ys)) in
      let (done, u, more) =
        (k c).accepts all v (kept a.wrote) (omega (arith, length-append xs ys, size)) in
      (done, u, omega (arith, length-append xs ys, size, more))
    where
      kept : Wrote b xs (c, true) → c.failed ≡ false
      kept (inl (_, _, same)) = same ∙ fine
      kept (inr (e, _)) = cc

  seq-keeps :
      (ys : List ℕ) (r : ByteBuffer × Bool) (next : ByteBuffer → ByteBuffer × Bool)
      → IsWellFormed r.0
      → ((c : ByteBuffer) → Appends c ys (next c))
      → IsWellFormed (seq r next).0
  seq-keeps ys (c, false) next w k = w
  seq-keeps ys (c, true) next w k = (k c).keeps w

  pub seq-Appends :
      (b : ByteBuffer) (xs ys : List ℕ) (r : ByteBuffer × Bool)
      (next : ByteBuffer → ByteBuffer × Bool)
      → Appends b xs r
      → ((c : ByteBuffer) → Appends c ys (next c))
      → Appends b (xs ++ ys) (seq r next)
  seq-Appends b xs ys r next a k = record {
    wrote = seq-Wrote b xs ys r next a.wrote (λ c. (k c).wrote);
    accepts = seq-Accepts b xs ys r next a k;
    keeps = λ w. seq-keeps ys r next (a.keeps w) k;
  }
