-- ===== src/Vgm/Converter/Nearest.antt =====
-- src/vgm.c: the rounding of `scale_period` and of one block of `converter_emit_fm_pair`.
use qlvgm.Prelude.{ℕ, ◌+◌, ◌*◌, ◌/◌, ◌^◌, ◌≤◌, ◌<◌, inl, inr}
use qlvgm.Prelude.{arith, ltb, ◌==◌, if◌then◌else◌, Bool-cases, ltb→lt, ltb→le, ==→eq, ==→ne}
use native.Mathlib.Nat.{div-add-mod, mod-lt, mul-le-mul_left, pow-le-pow_right}
use qlvgm.Vgm.Song.{target_clock}
use qlvgm.Vgm.Converter.{nearest_period, absolute_difference, candidate, pitch_error}

-- A multiple within half a step is the nearest multiple.
nearest_multiple :
    (d x n k : ℕ)
    → d * n ≤ x + d / 2
    → x + d / 2 < d * n + d
    → absolute_difference (d * n) x ≤ absolute_difference (d * k) x
unfolding absolute_difference
nearest_multiple d x n k low high = elim (Bool-cases (ltb k n)) [
  | inl below ↦
      let fewer : k + 1 ≤ n = omega (arith, ltb→lt k n below) in
      ground (arith, mul-le-mul_left {m = k + 1} {n = n} d fewer)
  | inr above ↦ elim (Bool-cases (k == n)) [
    | inl same ↦ ground (arith, ==→eq k n same)
    | inr other ↦
        let more : n + 1 ≤ k = omega (arith, ltb→le k n above, ==→ne k n other) in
        ground (arith, mul-le-mul_left {m = n + 1} {n = k} d more)
  ]
]

rounded :
    (d x : ℕ)
    → 0 < d
    → (d * ((x + d / 2) / d) ≤ x + d / 2) × (x + d / 2 < d * ((x + d / 2) / d) + d)
rounded d x pos = (
  omega (arith, div-add-mod (x + d / 2) d),
  omega (arith, div-add-mod (x + d / 2) d, mod-lt (x + d / 2) pos),
)

-- Rounding x / d gives the multiple of d that is nearest to x.
rounded-nearest :
    (d x k : ℕ)
    → 0 < d
    → absolute_difference (d * ((x + d / 2) / d)) x ≤ absolute_difference (d * k) x
rounded-nearest d x k pos =
    nearest_multiple d x ((x + d / 2) / d) k ((rounded d x pos).0) ((rounded d x pos).1)

at_least_one :
    (d x n k : ℕ)
    → 1 ≤ k
    → x + d / 2 < d * n + d
    → absolute_difference (d * n) x ≤ absolute_difference (d * k) x
    → (1 ≤ (if n == 0 then 1 else n))
      × (absolute_difference (d * (if n == 0 then 1 else n)) x ≤ absolute_difference (d * k) x)
unfolding absolute_difference
at_least_one d x n k low high near = elim (Bool-cases (n == 0)) [
  | inl none ↦
      rw (none) (omega arith, ground (arith, ==→eq n 0 none, mul-le-mul_left {m = 1} {n = k} d low))
  | inr some ↦ rw (some) (omega (arith, ==→ne n 0 some), near)
]

at_most_2047 :
    (d x n k : ℕ)
    → k ≤ 2047
    → d * n ≤ x + d / 2
    → absolute_difference (d * n) x ≤ absolute_difference (d * k) x
    → ((if ltb 2047 n then 2047 else n) ≤ 2047)
      × (absolute_difference (d * (if ltb 2047 n then 2047 else n)) x
          ≤ absolute_difference (d * k) x)
unfolding absolute_difference
at_most_2047 d x n k high low near = elim (Bool-cases (ltb 2047 n)) [
  | inl over ↦
      let more : 2048 ≤ n = omega (arith, ltb→lt 2047 n over) in
      rw (over) (
        omega arith,
        ground (
          arith,
          mul-le-mul_left {m = k} {n = 2047} d high,
          mul-le-mul_left {m = 2048} {n = n} d more,
        ),
      )
  | inr in_range ↦ rw (in_range) (omega (arith, ltb→le 2047 n in_range), near)
]

-- For a source clock that is not 0: the converted period is at least 1, and no other period of at
-- least 1 comes nearer to `period * target_clock` when it is multiplied by the source clock.
pub nearest_period-IsNearest :
    (source_clock period k : ℕ)
    → 0 < source_clock
    → 1 ≤ k
    → (1 ≤ nearest_period source_clock period)
      × (absolute_difference
            (source_clock * nearest_period source_clock period)
            (period * target_clock)
          ≤ absolute_difference (source_clock * k) (period * target_clock))
unfolding nearest_period
nearest_period-IsNearest source_clock period k pos low =
    let x = period * target_clock in
    at_least_one source_clock x ((x + source_clock / 2) / source_clock) k low
      ((rounded source_clock x pos).1) (rounded-nearest source_clock x k pos)

pub power_positive : (n : ℕ) → 1 ≤ 2 ^ n
power_positive n = pow-le-pow_right {n = 2} (omega arith) {i = 0} {j = n} (omega arith)

-- The F-number of a block comes nearest among those of 11 bits.
pub candidate-IsNearest :
    (wanted block k : ℕ)
    → k ≤ 2047
    → (candidate wanted block ≤ 2047)
      × (pitch_error wanted block (candidate wanted block) ≤ pitch_error wanted block k)
unfolding candidate pitch_error
candidate-IsNearest wanted block k fits =
    let d = target_clock * 2 ^ block in
    let pos : 0 < d = omega (arith, power_positive block) in
    at_most_2047 d wanted ((wanted + d / 2) / d) k fits ((rounded d wanted pos).0)
      (rounded-nearest d wanted k pos)
