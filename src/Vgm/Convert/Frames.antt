-- ===== src/Vgm/Convert/Frames.antt =====
-- src/vgm.c: the array of frames of `convert_segment`.
use qlvgm.Prelude.{ℕ, ◌+◌, ◌-◌, ◌^◌, ◌≤◌, ◌<◌, ◌≡◌, refl}
use qlvgm.Prelude.{arith, ltb, leb, if◌then◌else◌, false}
use qlvgm.Prelude.{List, [], ◌∷◌, All, u32, sub32, ok}
use native.Mathlib.Nat.{div-le_self}
use qlvgm.Vgm.Song.{Write}
use qlvgm.Vgm.Parse.Order.{Ascends, Ascends-last}
use qlvgm.Vgm.Convert.{frame_index, count_frames}

-- An index is at most the distance in samples.
frame_index_bound :
    (start spf sample : ℕ)
    → start ≤ sample
    → sample < 2 ^ 32
    → frame_index start spf sample ≤ sample - start
frame_index_bound start spf sample low high = omega (arith, div-le_self (sub32 sample start) spf)

-- For writes in order from a sample not before `start` to one below 2 ^ 32 - 1: `count_frames` returns
-- a count that is at least the given one and above the frame of every write, so no write is
-- put behind the array of frames.
pub count_frames-bounds :
    (ws : List Write) (low high start spf count : ℕ)
    → Ascends low ws high
    → start ≤ low
    → high + 1 < 2 ^ 32
    → (n : ℕ) × (count_frames ws start spf count ≡ ok n)
      × (count ≤ n)
      × All (λ w. frame_index start spf w.sample < n) ws
unfolding count_frames
count_frames-bounds [] low high start spf count a h k = (count, refl, omega arith, tt)
count_frames-bounds (w ∷ ws) low high start spf count (first, rest) h k =
    let index = frame_index start spf w.sample in
    let next = if leb count index then u32 (index + 1) else count in
    let last = Ascends-last w.sample ws high rest in
    let bound = frame_index_bound start spf w.sample (omega arith) (omega arith) in
    let more : (index < next) × (count ≤ next) = ground arith in
    let (n, counted, up, fine) =
      count_frames-bounds ws w.sample high start spf next rest (omega arith) k in
    let in_order : ltb w.sample start ≡ false = ground arith in
    (n, rw in_order counted, omega arith, (omega arith, fine))
