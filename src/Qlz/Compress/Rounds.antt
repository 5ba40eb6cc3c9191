-- ===== src/Qlz/Compress/Rounds.antt =====
-- src/qlz.c: the rounds of the main loop of `qlz_compress_payload`.
use qlvgm.Prelude.{ℕ, ◌+◌, ◌-◌, ◌≤◌, ◌<◌, ◌^◌, ◌≡◌, refl, inl, inr, arith}
use qlvgm.Prelude.{Bool, true, false, ◌&&◌, ltb, ◌==◌, List, length, if◌then◌else◌}
use qlvgm.Prelude.{Bool-cases, ==→ne, subst, u32, sub32, ◌≢◌}
use qlvgm.Buffer.{ByteBuffer, seq}
use qlvgm.Buffer.Laws.{Wrote, IsWellFormed}
use qlvgm.Buffer.Writes.{seq-Appends}
use qlvgm.Qlz.Match.{Match, Chains, insert_position}
use qlvgm.Qlz.Match.Finder.{Below, insert_position-Below, Below-mono}
use qlvgm.Qlz.Write.{write_literals, write_match}
use qlvgm.Qlz.Write.Bytes.{literal_bytes, match_bytes, write_literals-Appends, write_match-Appends}
use qlvgm.Qlz.Compress.{State, step, emit, after_match, looks_ahead, defers, best_match, insert_run}
use qlvgm.Qlz.Compress.Invariant.{IsSound, Spells, IsGood, best_match-IsGood, insert_run-Below}
use qlvgm.Qlz.Compress.Invariant.{Spells-more, granted_more, packets, packets-Reaches, packets-size}

module _ (grants : ℕ → Bool) (input : List ℕ) (small : length input < 2 ^ 31) where
  -- The invariant, and what a round adds: the position grows unless the payload fails.
  abbrev pub Moves : ℕ → State → Type 0
  Moves p t = IsSound grants input t × (t.payload.failed ≡ false → p < t.position)

  -- The chains of a round: with or without the position that it looks at.
  abbrev ready : State → Bool → Chains
  ready s inserted = if inserted then insert_position input s.chains s.position else s.chains

  ready-Below :
      (s : State) (inserted : Bool)
      → Below s.chains s.position
      → Below (ready s inserted) (if inserted then s.position + 1 else s.position)
  ready-Below s true b = insert_position-Below input s.chains s.position b
  ready-Below s false b = b

  abbrev from : State → Bool → ℕ
  from s inserted = if inserted then s.position + 1 else s.position

  inserted-Below :
      (s : State) (inserted : Bool) (end : ℕ)
      → Below s.chains s.position
      → s.position + 1 ≤ end
      → end ≤ length input
      → Below (insert_run input (end - from s inserted) (from s inserted) (ready s inserted)) end
  inserted-Below s inserted end b before_end inside =
      let start : from s inserted ≤ end = ground arith in
      let sum : from s inserted + (end - from s inserted) ≡ end = omega arith in
      subst (Below _) sum (
        insert_run-Below input small (end - from s inserted) (from s inserted) (ready s inserted)
          (omega arith) (ready-Below s inserted b))

  after_match-Moves :
      (s : State) (m : Match) (inserted : Bool) (r : ByteBuffer × Bool)
      → IsSound grants input s
      → s.payload.failed ≡ false
      → s.position + m.length ≤ length input
      → 1 ≤ m.length
      → ((r.1 ≡ false) → r.0.failed ≡ true)
      → Spells input r.0 (s.position + m.length)
      → IsWellFormed r.0
      → (((n : ℕ) → grants n ≡ true) → (r.1 ≡ true) × (r.0.failed ≡ false) × IsWellFormed r.0)
      → Moves s.position (after_match grants input s m inserted (ready s inserted) r)
  unfolding after_match
  after_match-Moves s m inserted (payload, false) v fine fits some bad spells keeps granted = (
    record {
      ordered = v.ordered;
      inside = v.inside;
      below = λ ok. cc (bad refl);
      spells = λ ok. cc (bad refl);
      buffer = keeps;
      granted = λ all. absurd (cc ((granted all).0));
    },
    λ ok. cc (bad refl),
  )
  after_match-Moves s m inserted (payload, true) v fine fits some bad spells keeps granted =
      let end : u32 (s.position + m.length) ≡ s.position + m.length = omega arith in
      let one : u32 (s.position + 1) ≡ s.position + 1 = omega arith in
      rw (end, one)
        (
          record {
            ordered = omega arith;
            inside = fits;
            below = λ ok.
                inserted-Below s inserted (s.position + m.length) (v.below fine) (omega arith) fits;
            spells = spells;
            buffer = keeps;
            granted = λ all. let (_, fine', w) = granted all in (fine', w);
          },
          λ ok. omega arith,
        )

  emit-Moves :
      (s : State) (m : Match) (inserted : Bool)
      → IsSound grants input s
      → s.payload.failed ≡ false
      → IsGood input s.position m
      → m.length ≢ 0
      → Moves s.position (emit grants input s m inserted (ready s inserted))
  unfolding emit
  emit-Moves s m inserted v fine (inl e) some = absurd (some e)
  emit-Moves s m inserted v fine (inr (r, far, three, saves)) some =
      let n = sub32 s.position s.literal_start in
      let lits = literal_bytes n input s.literal_start n in
      let r' =
        seq (write_literals grants s.payload input s.literal_start n)
          (λ p. write_match grants p m) in
      let a =
        seq-Appends grants s.payload lits (match_bytes m)
          (write_literals grants s.payload input s.literal_start n) (λ p. write_match grants p m)
          (write_literals-Appends grants s.payload input s.literal_start n)
          (λ c. write_match-Appends grants c m) in
      let size =
        packets-size input small s.literal_start s.position m v.ordered r.inside three saves in
      after_match-Moves s m inserted r' v fine r.inside (omega arith)
        (stops s.payload (packets input small s.literal_start s.position m) r' a.wrote)
        (Spells-more input small s.payload _ s.literal_start (s.position + m.length) r' v.spells
          (λ u e.
            packets-Reaches input small s.literal_start s.position m u v.ordered v.inside r far
              three e)
          size a.wrote)
        (a.keeps v.buffer)
        (λ all.
          granted_more input small grants s.payload _ s.literal_start (s.position + m.length) r'
            v.spells size r.inside a (v.granted all) all)
    where
      stops :
          (b : ByteBuffer) (xs : List ℕ) (r : ByteBuffer × Bool)
          → Wrote b xs r
          → r.1 ≡ false
          → r.0.failed ≡ true
      stops b xs (c, ok) (inl (done, _, _)) e = cc
      stops b xs (c, ok) (inr (_, bad)) e = bad

  -- A round that writes nothing, with chains that end before the next position.
  skip-Moves :
      (s : State) (chains : Chains)
      → IsSound grants input s
      → s.position < length input
      → Below chains (s.position + 1)
      → Moves s.position (record s { chains = chains; position = u32 (s.position + 1) })
  skip-Moves s chains v lt b =
      let one : u32 (s.position + 1) ≡ s.position + 1 = omega arith in
      rw one (
        record {
          ordered = omega (arith, v.ordered);
          inside = omega arith;
          below = λ ok. b;
          spells = v.spells;
          buffer = v.buffer;
          granted = v.granted;
        },
        λ ok. omega arith,
      )

  from-le : (s : State) (inserted : Bool) → from s inserted ≤ s.position + 1
  from-le s true = omega arith
  from-le s false = omega arith

  pub step-Moves :
      (s : State)
      → IsSound grants input s
      → s.payload.failed ≡ false
      → s.position < length input
      → Moves s.position (step grants input s)
  unfolding step
  step-Moves s v fine lt =
      let m = best_match input s.chains s.position in
      let inserted = looks_ahead input s.position m in
      let below = v.below fine in
      elim (Bool-cases (inserted && defers input (ready s inserted) s.position m)) [
        | inl e ↦ rw e (
            skip-Moves s (ready s inserted) v lt
              (Below-mono (from-le s inserted) (ready-Below s inserted below)))
        | inr e ↦ elim (Bool-cases (m.length == 0)) [
          | inl z ↦
              rw (e, z)
                (skip-Moves s (insert_position input s.chains s.position) v lt
                  (insert_position-Below input s.chains s.position below))
          | inr z ↦
              rw (e, z)
                (emit-Moves s m (ltb (u32 (s.position + 1)) (length input)) v fine
                  (best_match-IsGood input small s.chains s.position v.inside below)
                  (==→ne m.length 0 z))
        ]
      ]
