-- ===== src/Vgm/Convert/Collected.antt =====
-- src/vgm.c: the frames that the third loop of `convert_segment` writes.
use qlvgm.Prelude.{ℕ, suc, ◌+◌, ◌*◌, ◌/◌, ◌%◌, ◌^◌, ◌≤◌, ◌<◌, ◌≡◌, arith, ap, sym, ◌∙◌, subst}
use qlvgm.Prelude.{Bool, true, false, not, ◌||◌, ◌==◌, ltb, inl, inr, u8, u16, u32, or-eq-false}
use qlvgm.Prelude.{List, [], ◌∷◌, ◌++◌, append-nil, append_assoc, length, get_or, All}
use qlvgm.Prelude.{ok, ok_injective, >>=-eq-ok, fail_if-eq-ok, ltb→le}
use qlvgm.Buffer.{ByteBuffer, empty, append, append_be16}
use qlvgm.Buffer.Laws.{IsWellFormed}
use qlvgm.Buffer.Writes.{Appends, append-Appends, append_be16-Appends, seq-Appends}
use qlvgm.Vgm.Convert.{too_many_writes, append_frame, written, collect}
use qlvgm.Vgm.Played.{
  Pair, Tagged, pair_bytes, length-pair_bytes, frame_bytes, stream_bytes, in_frame, frames_from,
}
use qlvgm.Vgm.Played.Read.{IsShort}

-- The frames that hold these writes.
abbrev pub Holds : List ByteBuffer → List (List Pair) → Type 0
Holds [] [] = Unit
Holds [] (ps ∷ pss) = ⊥
Holds (f ∷ fs) [] = ⊥
Holds (f ∷ fs) (ps ∷ pss) = (f.bytes ≡ pair_bytes ps) × IsWellFormed f × Holds fs pss

-- Frame by frame, from frame `i` on.
pub frames_from-Holds :
    (next : List ByteBuffer) (i : ℕ) (es : List Tagged)
    → ((j : ℕ) → j < length next → (get_or next j empty).bytes ≡ pair_bytes (in_frame (i + j) es))
    → ((j : ℕ) → IsWellFormed (get_or next j empty))
    → Holds next (frames_from i (length next) es)
frames_from-Holds [] i es bytes fine = tt
frames_from-Holds (f ∷ next) i es bytes fine =
    let here : i + 0 ≡ i = omega arith in
    (
      subst (λ k. f.bytes ≡ pair_bytes (in_frame k es)) here (bytes 0 (omega arith)),
      fine 0,
      frames_from-Holds next (i + 1) es
          (λ j h.
            let later : i + suc j ≡ i + 1 + j = omega arith in
            subst (λ k. (get_or next j empty).bytes ≡ pair_bytes (in_frame k es)) later
              (bytes (suc j) (omega arith)))
          (λ j. fine (suc j)),
    )

module _ (grants : ℕ → Bool) where
  append_frame-Appends :
      (output frame : ByteBuffer) (ps : List Pair)
      → frame.bytes ≡ pair_bytes ps
      → IsWellFormed frame
      → frame.size / 2 ≤ 65535
      → IsShort ps × Appends grants output (frame_bytes ps) (append_frame grants output frame)
  unfolding append_frame
  append_frame-Appends output frame ps bytes w short =
      let size : frame.size ≡ 2 * length ps =
        sym w.counted ∙ ap length bytes ∙ length-pair_bytes ps in
      let count : u16 (frame.size / 2) ≡ length ps = omega arith in
      (
        omega arith,
        rw (count, bytes)
            (seq-Appends grants output (u8 (length ps / 2 ^ 8) ∷ u8 (length ps) ∷ [])
              (pair_bytes ps) (append_be16 grants output (length ps))
              (λ o. append grants o (pair_bytes ps)) (append_be16-Appends grants output (length ps))
              (λ o. append-Appends grants o (pair_bytes ps))),
      )

  written-ok :
      (output : ByteBuffer) (xs : List ℕ) (r : ByteBuffer × Bool) (next : ByteBuffer)
      → Appends grants output xs r
      → written grants r ≡ ok next
      → (next.bytes ≡ output.bytes ++ xs) × (IsWellFormed output → IsWellFormed next)
  unfolding written
  written-ok output xs (b, true) next a e = elim a.wrote [
    | inl (_, bytes, _) ↦
        let same : b ≡ next = ok_injective e in
        (
          subst (λ n. n.bytes ≡ output.bytes ++ xs) same bytes,
          λ w. subst IsWellFormed same (a.keeps w),
        )
    | inr (bad, _) ↦ absurd (cc bad)
  ]
  written-ok output xs (b, false) next a e = cc

  -- The third loop writes the frames, each behind its count.
  pub collect-stream_bytes :
      (frames : List ByteBuffer) (pss : List (List Pair)) (i : ℕ) (output out : ByteBuffer)
      → Holds frames pss
      → collect grants frames i output ≡ ok out
      → (out.bytes ≡ output.bytes ++ stream_bytes pss)
        × All IsShort pss
        × (IsWellFormed output → IsWellFormed out)
  unfolding collect
  collect-stream_bytes [] [] i output out h e =
      let same : output ≡ out = ok_injective e in
      (
        ap (λ b. b.bytes) (sym same) ∙ sym (append-nil output.bytes),
        tt,
        λ w. subst IsWellFormed same w,
      )
  collect-stream_bytes [] (ps ∷ pss) i output out h e = absurd h
  collect-stream_bytes (f ∷ fs) [] i output out h e = absurd h
  collect-stream_bytes (f ∷ fs) (ps ∷ pss) i output out (bytes, fine, rest) e =
      let (fits, went) =
        fail_if-eq-ok (not (f.size % 2 == 0) || ltb 65535 (f.size / 2)) (too_many_writes i) _ e in
      let (next, wrote, others) =
        >>=-eq-ok (written grants (append_frame grants output f))
          (λ next. collect grants fs (u32 (i + 1)) next) went in
      let (_, low) = or-eq-false (not (f.size % 2 == 0)) (ltb 65535 (f.size / 2)) fits in
      let (short, a) =
        append_frame-Appends output f ps bytes fine (ltb→le 65535 (f.size / 2) low) in
      let (first, keeps) = written-ok output (frame_bytes ps) _ next a wrote in
      let (more, shorts, also) = collect-stream_bytes fs pss (u32 (i + 1)) next out rest others in
      (
        more
            ∙ ap (◌++ stream_bytes pss) first
            ∙ append_assoc output.bytes (frame_bytes ps) (stream_bytes pss),
        (short, shorts),
        λ w. also (keeps w),
      )
