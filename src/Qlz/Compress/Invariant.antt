-- ===== src/Qlz/Compress/Invariant.antt =====
-- src/qlz.c: the invariant of the main loop of `qlz_compress_payload`, and its parts.
use qlvgm.Prelude.{ℕ, zero, suc, ◌+◌, ◌-◌, ◌*◌, ◌≤◌, ◌<◌, ◌^◌, ◌≡◌, ◌⊎◌, inl, inr, arith}
use qlvgm.Prelude.{Bool, true, false, List, ◌++◌, length, take, sym, ap, ◌∙◌}
use qlvgm.Prelude.{subst, u32, sub32, length-append}
use qlvgm.Buffer.{ByteBuffer}
use qlvgm.Buffer.Laws.{Wrote, IsWellFormed}
use qlvgm.Buffer.Writes.{Appends}
use qlvgm.Qlz.Format.{opening, Window, Run-append}
use qlvgm.Qlz.Format.Copies.{Repeats, Reaches}
use qlvgm.Qlz.Match.{Match, Chains, find_matches, choose_match, insert_position}
use qlvgm.Qlz.Match.Finder.{Found, Below, find_matches-Found, insert_position-Below, Below-mono}
use qlvgm.Qlz.Match.Choice.{encoded, choose_match-IsOneOf}
use qlvgm.Qlz.Write.Bytes.{literal_bytes, match_bytes}
use qlvgm.Qlz.Write.Packets.{literal_bytes-Reaches}
use qlvgm.Qlz.Write.Parts.{match_bytes-Reaches}
use qlvgm.Qlz.Write.Sizes.{length-literal_bytes, length-match_bytes}
use qlvgm.Qlz.Compress.{State, best_match, insert_run}

-- The buffer has failed, or it decodes to the input up to `q`, with at most one byte more for
-- every 64.
abbrev pub Spells : List ℕ → ByteBuffer → ℕ → Type 0
Spells input payload q =
    payload.failed ≡ false
    → Reaches input opening payload.bytes q × (64 * length payload.bytes ≤ 65 * q)

pub record IsSound (grants : ℕ → Bool) (input : List ℕ) (s : State) : Type 0 where
  pub ordered : s.literal_start ≤ s.position
  pub inside : s.position ≤ length input
  pub below : s.payload.failed ≡ false → Below s.chains s.position
  pub spells : Spells input s.payload s.literal_start
  pub buffer : IsWellFormed s.payload
  pub granted : ((n : ℕ) → grants n ≡ true) → (s.payload.failed ≡ false) × IsWellFormed s.payload

-- A match that may be written.
abbrev pub IsGood : List ℕ → ℕ → Match → Type 0
IsGood input p m =
    (m.length ≡ 0)
    ⊎ (Repeats input p m.distance m.length
        × (m.distance ≤ 65535)
        × (3 ≤ m.length)
        × (encoded m < m.length))

module _ (input : List ℕ) (small : length input < 2 ^ 31) where
  Found-IsGood :
      (p : ℕ) (m : Match) → Found input p m → 3 ≤ m.length → encoded m < m.length → IsGood input p m
  Found-IsGood p m (inl e) three saves = inl e
  Found-IsGood p m (inr (r, far)) three saves = inr (r, far, three, saves)

  good :
      (p : ℕ) (short long : Match)
      → Found input p short
      → Found input p long
      → IsGood input p (choose_match short long)
  good p short long s l = elim (choose_match-IsOneOf short long) [
    | inl e ↦ inl e
    | inr (inl e, three, _, saves) ↦ Found-IsGood p _ (subst (Found input p) (sym e) s) three saves
    | inr (inr e, three, _, saves) ↦ Found-IsGood p _ (subst (Found input p) (sym e) l) three saves
  ]

  pub best_match-IsGood :
      (chains : Chains) (p : ℕ)
      → p ≤ length input
      → Below chains p
      → IsGood input p (best_match input chains p)
  unfolding best_match
  best_match-IsGood chains p inside below =
      let (s, l) = find_matches-Found input chains p inside (omega arith) below in
      good p (find_matches input chains p).0 (find_matches input chains p).1 s l

  pub insert_run-Below :
      (left i : ℕ) (chains : Chains)
      → i + left ≤ length input
      → Below chains i
      → Below (insert_run input left i chains) (i + left)
  unfolding insert_run
  insert_run-Below zero i chains h b = Below-mono (omega arith) b
  insert_run-Below (suc left) i chains h b =
      let at : u32 (i + 1) ≡ i + 1 = omega arith in
      let end : i + 1 + left ≡ i + suc left = omega arith in
      rw at (
        subst (Below (insert_run input left (i + 1) (insert_position input chains i))) end (
          insert_run-Below left (i + 1) (insert_position input chains i) (omega arith)
            (insert_position-Below input chains i b)))

  -- A write that is done makes the payload spell more of the input.
  pub Spells-more :
      (b : ByteBuffer) (xs : List ℕ) (q q' : ℕ) (r : ByteBuffer × Bool)
      → Spells input b q
      → ((w : Window) → w.out ≡ take q input → Reaches input w xs q')
      → 64 * length xs + 65 * q ≤ 65 * q'
      → Wrote b xs r
      → Spells input r.0 q'
  Spells-more b xs q q' (c, ok) s reach size (inr (_, bad)) fine = cc
  Spells-more b xs q q' (c, ok) s reach size (inl (_, bytes, same)) fine =
      let ((w, run, out), few) = s (sym same ∙ fine) in
      let (v, more, end) = reach w out in
      rw bytes ((v, Run-append run more, end), omega (arith, length-append b.bytes xs, few, size))

  -- A write that is granted leaves a sound buffer.
  pub granted_more :
      (grants : ℕ → Bool) (b : ByteBuffer) (xs : List ℕ) (q q' : ℕ) (r : ByteBuffer × Bool)
      → Spells input b q
      → 64 * length xs + 65 * q ≤ 65 * q'
      → q' ≤ length input
      → Appends grants b xs r
      → (b.failed ≡ false) × IsWellFormed b
      → ((n : ℕ) → grants n ≡ true)
      → (r.1 ≡ true) × (r.0.failed ≡ false) × IsWellFormed r.0
  granted_more grants b xs q q' r s size inside a (fine, w) all =
      let (_, few) = s fine in
      let (ends, v, _) = a.accepts all w fine (omega (arith, w.counted, few, size)) in
      (ends, still r ends a.wrote, v)
    where
      still : (r : ByteBuffer × Bool) → r.1 ≡ true → Wrote b xs r → r.0.failed ≡ false
      still (c, ok) ends (inl (_, _, same)) = same ∙ fine
      still (c, ok) ends (inr (e, _)) = cc

  -- The bytes of the literals before a match and of the match.
  abbrev pub packets : ℕ → ℕ → Match → List ℕ
  packets start p m = literal_bytes (sub32 p start) input start (sub32 p start) ++ match_bytes m

  pub packets-Reaches :
      (start p : ℕ) (m : Match) (w : Window)
      → start ≤ p
      → p ≤ length input
      → Repeats input p m.distance m.length
      → m.distance ≤ 65535
      → 3 ≤ m.length
      → w.out ≡ take start input
      → Reaches input w (packets start p m) (p + m.length)
  packets-Reaches start p m w ordered inside r far three e =
      let n : sub32 p start ≡ p - start = omega arith in
      let at : start + (p - start) ≡ p = omega arith in
      let (v, run, out) =
        literal_bytes-Reaches input (omega arith) (p - start) start (p - start) w (omega arith)
          (omega arith) e in
      let (u, more, end) =
        match_bytes-Reaches input (omega arith) p m v three far (out ∙ ap (λ k. take k input) at)
          r in
      rw n (u, Run-append run more, end)

  pub packets-size :
      (start p : ℕ) (m : Match)
      → start ≤ p
      → p + m.length ≤ length input
      → 3 ≤ m.length
      → encoded m < m.length
      → 64 * length (packets start p m) + 65 * start ≤ 65 * (p + m.length)
  packets-size start p m ordered inside three saves =
      let n : sub32 p start ≡ p - start = omega arith in
      rw n (
        omega (
          arith,
          length-append (literal_bytes (p - start) input start (p - start)) (match_bytes m),
          length-literal_bytes input (p - start) start (p - start) (omega arith) (omega arith)
              (omega arith),
          length-match_bytes m three (omega arith),
          saves,
        ))
