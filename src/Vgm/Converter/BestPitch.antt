-- ===== src/Vgm/Converter/BestPitch.antt =====
-- src/vgm.c: the search of `converter_emit_fm_pair` over the eight blocks.
use qlvgm.Prelude.{ℕ, zero, suc, ◌+◌, ◌-◌, ◌*◌, ◌^◌, ◌≤◌, ◌<◌, ◌≡◌, refl, ◌⊎◌, inl, inr}
use qlvgm.Prelude.{arith, ltb, ◌==◌, Bool-cases, ltb→lt, ltb→le, ==→eq, ==→ne, ap}
use native.Mathlib.Nat.{mul-le-mul, pow-le-pow_right}
use qlvgm.Vgm.Converter.{Pitch, absolute_difference, candidate, pitch_error}
use qlvgm.Vgm.Converter.{try_block, try_blocks, best_pitch}
use qlvgm.Vgm.Converter.Nearest.{candidate-IsNearest}

-- A block of 3 bits and an F-number of 11, with the error that they make.
pub IsPitch : ℕ → Pitch → Type 0
IsPitch wanted p = (p.fnum ≤ 2047) × ((p.block ≤ 7) × (p.error ≡ pitch_error wanted p.block p.fnum))

try_block-error :
    (wanted b k : ℕ)
    → (best : Pitch) → k ≤ 2047
    → ((try_block wanted b best).error ≤ pitch_error wanted b k)
      × ((try_block wanted b best).error ≤ best.error)
unfolding try_block
try_block-error wanted b k best fits =
    let near = (candidate-IsNearest wanted b k fits).1 in
    elim (Bool-cases (ltb (pitch_error wanted b (candidate wanted b)) best.error)) [
      | inl less ↦
          rw (less) (
            near,
            omega (arith, ltb→lt (pitch_error wanted b (candidate wanted b)) best.error less),
          )
      | inr more ↦ rw (more) (
        omega (arith, near, ltb→le (pitch_error wanted b (candidate wanted b)) best.error more),
        omega arith,
      )
    ]

try_block-IsPitch :
    (wanted b : ℕ)
    → (best : Pitch) → b ≤ 7
    → IsPitch wanted best ⊎ (pitch_error wanted b (candidate wanted b) < best.error)
    → IsPitch wanted (try_block wanted b best)
unfolding try_block IsPitch
try_block-IsPitch wanted b best fits fine =
    elim (Bool-cases (ltb (pitch_error wanted b (candidate wanted b)) best.error)) [
      | inl less ↦ rw (less) ((candidate-IsNearest wanted b 0 (omega arith)).0, (fits, refl))
      | inr more ↦ rw (more) (elim fine [
        | inl sound ↦ sound
        | inr smaller ↦
            omega
              (arith, smaller, ltb→le (pitch_error wanted b (candidate wanted b)) best.error more)
      ])
    ]

try_blocks-IsPitch :
    (wanted left b : ℕ)
    → (best : Pitch) → b + left ≤ 8
    → IsPitch wanted best
    → IsPitch wanted (try_blocks wanted left b best)
unfolding try_blocks
try_blocks-IsPitch wanted zero b best room fine = fine
try_blocks-IsPitch wanted (suc left) b best room fine =
    try_blocks-IsPitch wanted left (b + 1) (try_block wanted b best) (omega arith)
      (try_block-IsPitch wanted b best (omega arith) (inl fine))

try_blocks-error :
    (wanted left b : ℕ)
    → (best : Pitch)
    → ((try_blocks wanted left b best).error ≤ best.error)
      × ((j k : ℕ)
          → b ≤ j
          → j < b + left
          → k ≤ 2047
          → (try_blocks wanted left b best).error ≤ pitch_error wanted j k)
unfolding try_blocks
try_blocks-error wanted zero b best = (omega arith, λ j k low high fits. omega arith)
try_blocks-error wanted (suc left) b best =
    let next = try_block wanted b best in
    let rest = try_blocks-error wanted left (b + 1) next in
    (
      omega (arith, rest.0, (try_block-error wanted b 0 best (omega arith)).1),
      λ j k low high fits. elim (Bool-cases (j == b)) [
        | inl same ↦ omega (
          arith,
          rest.0,
          (try_block-error wanted b k best fits).0,
          ap (λ i. pitch_error wanted i k) (==→eq j b same),
        )
        | inr other ↦ (rest.1) j k (omega (arith, ==→ne j b other)) (omega arith) fits
      ],
    )

silent_error : (wanted : ℕ) → pitch_error wanted 0 0 ≤ wanted
unfolding pitch_error absolute_difference
silent_error wanted = ground arith

wanted_bound :
    (source_clock fnum block : ℕ)
    → source_clock < 2 ^ 32
    → fnum ≤ 2047
    → block ≤ 7
    → source_clock * fnum * 2 ^ block < 2 ^ 64 - 1
wanted_bound source_clock fnum block clock low high =
    let power : 2 ^ block ≤ 2 ^ 7 = pow-le-pow_right {n = 2} (omega arith) high in
    let narrow : source_clock ≤ 2 ^ 32 = omega arith in
    let product : source_clock * fnum ≤ 2 ^ 32 * 2047 = mul-le-mul narrow low in
    omega (arith, mul-le-mul product power)

-- For a 32-bit clock, an 11-bit F-number and a 3-bit block: the search returns an 11-bit F-number,
-- a 3-bit block and the error that they make, and no pair of a 3-bit block and an 11-bit F-number
-- makes a smaller error.
pub best_pitch-IsNearest :
    (source_clock fnum block j k : ℕ)
    → source_clock < 2 ^ 32
    → fnum ≤ 2047
    → block ≤ 7
    → j ≤ 7
    → k ≤ 2047
    → IsPitch (source_clock * fnum * 2 ^ block) (best_pitch source_clock fnum block)
      × ((best_pitch source_clock fnum block).error
          ≤ pitch_error (source_clock * fnum * 2 ^ block) j k)
unfolding best_pitch try_blocks
best_pitch-IsNearest source_clock fnum block j k clock low high j_low k_low =
    let wanted = source_clock * fnum * 2 ^ block in
    let first : Pitch = record { fnum = 0; block = block; error = 2 ^ 64 - 1 } in
    (
      try_blocks-IsPitch wanted 7 1 (try_block wanted 0 first) (omega arith) (
          try_block-IsPitch wanted 0 first (omega arith) (
            inr (
              omega (
                arith,
                (candidate-IsNearest wanted 0 0 (omega arith)).1,
                silent_error wanted,
                wanted_bound source_clock fnum block clock low high,
              )))),
      ((try_blocks-error wanted 8 0 first).1) j k (omega arith) (omega arith) k_low,
    )
