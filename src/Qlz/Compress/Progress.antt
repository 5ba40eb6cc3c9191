-- ===== src/Qlz/Compress/Progress.antt =====
-- src/qlz.c: the main loop of `qlz_compress_payload` to its end, and what is written behind it.
use qlvgm.Prelude.{ℕ, zero, suc, ◌+◌, ◌-◌, ◌*◌, ◌≤◌, ◌<◌, ◌^◌, ◌/◌, ◌≡◌, refl, inl, inr, arith}
use qlvgm.Prelude.{Bool, true, false, not, ◌||◌, ltb, ◌==◌, List, length, sym, ap, ◌∙◌}
use qlvgm.Prelude.{Bool-cases, ltb→lt, ltb→le, ==→eq, sub32, ok, ok_injective, take, length-append}
use qlvgm.Prelude.{◌-◌, ◌++◌, subst}
use qlvgm.Buffer.{ByteBuffer, empty}
use qlvgm.Buffer.Laws.{Wrote, IsWellFormed}
use qlvgm.Buffer.Writes.{Appends}
use qlvgm.Qlz.Format.{opening, done, Run-append}
use qlvgm.Qlz.Format.Copies.{Reaches}
use qlvgm.Qlz.Match.{hash_count}
use qlvgm.Qlz.Write.{write_literals}
use qlvgm.Qlz.Write.Bytes.{literal_bytes, write_literals-Appends}
use qlvgm.Qlz.Write.Packets.{literal_bytes-Reaches}
use qlvgm.Qlz.Write.Sizes.{length-literal_bytes}
use qlvgm.Qlz.Compress.{State, step, main_loop, flush, start, compress_payload}
use qlvgm.Qlz.Compress.Invariant.{IsSound, Spells}
use qlvgm.Qlz.Compress.Rounds.{step-Moves}

-- The payload decodes to the whole input, and is at most one byte longer for every 64 or part of 64.
abbrev pub Encodes : List ℕ → ByteBuffer → Type 0
Encodes input payload =
    Reaches input opening payload.bytes (length input)
    × (length payload.bytes ≤ length input + (length input + 63) / 64)

module _ (grants : ℕ → Bool) (input : List ℕ) (small : length input < 2 ^ 31) where
  main_loop-IsSound :
      (fuel : ℕ) (s : State)
      → IsSound grants input s
      → (s.payload.failed ≡ false → length input ≤ s.position + fuel)
      → let t = main_loop grants input fuel s in
        IsSound grants input t × (t.payload.failed ≡ false → length input ≤ t.position)
  unfolding main_loop
  main_loop-IsSound zero s v enough = (v, λ fine. omega (arith, enough fine))
  main_loop-IsSound (suc fuel) s v enough = elim (Bool-cases (ltb s.position (length input))) [
    | inr e ↦ rw (e, main_loop) (v, λ fine. ltb→le _ _ e)
    | inl e ↦ elim (Bool-cases s.payload.failed) [
      | inl bad ↦ rw (e, bad, main_loop) (v, λ fine. cc)
      | inr fine ↦
          let (moved, grows) = step-Moves grants input small s v fine (ltb→lt _ _ e) in
          rw (e, fine, main_loop)
            (main_loop-IsSound fuel (step grants input s) moved
              (λ f. omega (arith, grows f, enough fine)))
    ]
  ]

  start-IsSound : IsSound grants input (start grants empty)
  start-IsSound = record {
    ordered = omega arith;
    inside = omega arith;
    below = λ fine. record { heads = λ i c e. cc; previous = λ i c e. cc };
    spells = λ fine. ((opening, done, refl), omega arith);
    buffer = omega arith;
    granted = λ all. (refl, omega arith);
  }

  -- The literals behind the last match make the payload complete.
  rest_written :
      (b : ByteBuffer) (q : ℕ) (r : ByteBuffer × Bool)
      → q ≤ length input
      → b.failed ≡ false
      → Spells input b q
      → Appends grants b (literal_bytes (length input - q) input q (length input - q)) r
      → (r.0.failed ≡ false → Encodes input r.0)
        × (((n : ℕ) → grants n ≡ true) → IsWellFormed b → r.0.failed ≡ false)
  rest_written b q r inside fine s a =
      let n = length input - q in
      let xs = literal_bytes n input q n in
      let ((w, run, out), few) = s fine in
      let end : q + n ≡ length input = omega arith in
      let (v, more, whole) =
        literal_bytes-Reaches input (omega arith) n q n w (omega arith) (omega arith) out in
      let size = length-literal_bytes input n q n (omega arith) (omega arith) (omega arith) in
      let total : length (b.bytes ++ xs) ≤ length input + (length input + 63) / 64 =
        omega (arith, length-append b.bytes xs, size, few) in
      (
        complete r (v, Run-append run more, whole ∙ ap (λ k. take k input) end) total a.wrote,
        λ all w.
            let (ends, _, _) = a.accepts all w fine (omega (arith, w.counted, few, size)) in
            still r ends a.wrote,
      )
    where
      rest : List ℕ
      rest = literal_bytes (length input - q) input q (length input - q)

      complete :
          (r : ByteBuffer × Bool)
          → Reaches input opening (b.bytes ++ rest) (length input)
          → length (b.bytes ++ rest) ≤ length input + (length input + 63) / 64
          → Wrote b rest r
          → r.0.failed ≡ false
          → Encodes input r.0
      complete (c, answer) reach total (inl (_, bytes, _)) fine = rw bytes (reach, total)
      complete (c, answer) reach total (inr (_, bad)) fine = cc

      still : (r : ByteBuffer × Bool) → r.1 ≡ true → Wrote b rest r → r.0.failed ≡ false
      still (c, answer) ends (inl (_, _, same)) = same ∙ fine
      still (c, answer) ends (inr (e, _)) = cc

  flush-Encodes :
      (s : State)
      → IsSound grants input s
      → (s.payload.failed ≡ false → length input ≤ s.position)
      → ((flush grants input s).failed ≡ false → Encodes input (flush grants input s))
        × (((n : ℕ) → grants n ≡ true) → (flush grants input s).failed ≡ false)
        × IsWellFormed (flush grants input s)
  unfolding flush
  flush-Encodes s v ends = elim (Bool-cases s.payload.failed) [
    | inl bad ↦ simp bad (λ fine. cc, λ all. absurd (cc ((v.granted all).0)), v.buffer)
    | inr fine ↦ elim (Bool-cases (ltb s.literal_start (length input))) [
      | inl e ↦
          let n : sub32 (length input) s.literal_start ≡ length input - s.literal_start =
            omega (arith, v.ordered, v.inside) in
          let a =
            write_literals-Appends grants s.payload input s.literal_start
              (length input - s.literal_start) in
          let (sound, total) =
            rest_written s.payload s.literal_start
              (write_literals grants s.payload input s.literal_start
                (length input - s.literal_start))
              (omega (arith, v.ordered, v.inside)) fine v.spells a in
          simp (fine, e, n) (sound, λ all. total all v.buffer, a.keeps v.buffer)
      | inr e ↦
          let all_done : s.literal_start ≡ length input =
            omega (arith, ltb→le _ _ e, v.ordered, v.inside) in
          let (reach, few) = v.spells fine in
          simp (fine, e)
            (
              λ f. (
                subst (Reaches input opening s.payload.bytes) all_done reach,
                omega (arith, all_done),
              ),
              λ all. refl,
              v.buffer,
            )
    ]
  ]

  -- The loop and what follows it, from an empty payload.
  abbrev result : ByteBuffer
  result = flush grants input (main_loop grants input (length input) (start grants empty))

  result-Encodes :
      (result.failed ≡ false → Encodes input result)
      × (((n : ℕ) → grants n ≡ true) → result.failed ≡ false)
      × IsWellFormed result
  result-Encodes =
      let (v, ends) =
        main_loop-IsSound (length input) (start grants empty) start-IsSound (λ fine. omega arith) in
      flush-Encodes (main_loop grants input (length input) (start grants empty)) v ends

  abbrev refused : Bool
  refused = not (grants (4 * hash_count)) || not (grants (4 * length input))

  -- For an input of less than 2 ^ 31 bytes and any allocator: a payload that `compress_payload`
  -- returns is a run of packets whose output is the input, it has at most one byte more than the input for every
  -- 64 input bytes or part of 64, and its buffer is well-formed.
  pub compress_payload-Encodes :
      (out : ByteBuffer)
      → compress_payload grants input empty ≡ ok out
      → Encodes input out × IsWellFormed out
  unfolding compress_payload
  compress_payload-Encodes out e = elim (Bool-cases (length input == 0)) [
    | inl none_left ↦
        let same : empty ≡ out = ok_injective (rw none_left at e) in
        subst (λ b. Encodes input b × IsWellFormed b) same
          (
            ((opening, done, ap (λ k. take k input) (sym (==→eq _ 0 none_left))), omega arith),
            omega arith,
          )
    | inr some_left ↦ elim (Bool-cases refused) [
      | inl bad ↦ absurd (cc (rw (some_left, bad) at e))
      | inr fine ↦ elim (Bool-cases result.failed) [
        | inl bad ↦ absurd (cc (rw (some_left, fine, bad) at e))
        | inr good ↦
            subst (λ b. Encodes input b × IsWellFormed b)
              (ok_injective (simp (some_left, fine, good) at e))
              (result-Encodes.0 good, result-Encodes.2)
      ]
    ]
  ]

  -- With memory granted there is a payload.
  pub compress_payload_total :
      ((n : ℕ) → grants n ≡ true)
      → (out : ByteBuffer) × (compress_payload grants input empty ≡ ok out)
  unfolding compress_payload
  compress_payload_total all = elim (Bool-cases (length input == 0)) [
    | inl none_left ↦ (empty, rw none_left)
    | inr some_left ↦
        (result, rw (some_left, all (4 * hash_count), all (4 * length input), result-Encodes.1 all))
  ]
