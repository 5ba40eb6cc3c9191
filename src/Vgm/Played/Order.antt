-- ===== src/Vgm/Played/Order.antt =====
-- Writes whose frames never go back: frame by frame they are the writes in their order.
use qlvgm.Prelude.{ℕ, zero, suc, ◌+◌, ◌≤◌, ◌<◌, ◌≡◌, refl, arith, ap, ◌∙◌, ◌==◌, ==→eq, ==→ne}
use qlvgm.Prelude.{List, [], ◌∷◌, ◌++◌, Bool-cases, inl, inr}
use qlvgm.Vgm.Played.{Pair, Tagged, pairs, in_frame, frames_from, play}

-- From frame `low` on, below `high`.
abbrev pub Rises : ℕ → List Tagged → ℕ → Type 0
Rises low [] high = Unit
Rises low ((index, p) ∷ es) high = (low ≤ index) × (index < high) × Rises index es high

pub Rises-lower :
    (low more high : ℕ) (es : List Tagged) → low ≤ more → Rises more es high → Rises low es high
Rises-lower low more high [] h r = tt
Rises-lower low more high ((index, p) ∷ es) h (first, last, rest) = (omega arith, last, rest)

abbrev pub concat : List (List Pair) → List Pair
concat [] = []
concat (frame ∷ frames) = frame ++ concat frames

-- The registers of the chip after some frames.
abbrev pub play_frames : (ℕ → ℕ) → List (List Pair) → ℕ → ℕ
play_frames chip frames = play chip (concat frames)

in_frame-below :
    (i low high : ℕ) (es : List Tagged) → i < low → Rises low es high → in_frame i es ≡ []
in_frame-below i low high [] h r = refl
in_frame-below i low high ((index, p) ∷ es) h (first, _, rest) = elim (Bool-cases (index == i)) [
  | inl here ↦ absurd (omega (arith, ==→eq index i here))
  | inr away ↦ rw (away) (in_frame-below i index high es (omega arith) rest)
]

frames_from-skip :
    (n i index : ℕ) (p : Pair) (es : List Tagged)
    → index < i
    → frames_from i n ((index, p) ∷ es) ≡ frames_from i n es
frames_from-skip zero i index p es h = refl
frames_from-skip (suc n) i index p es h = elim (Bool-cases (index == i)) [
  | inl here ↦ absurd (omega (arith, ==→eq index i here))
  | inr away ↦
      rw (away) (ap (◌∷◌ (in_frame i es)) (frames_from-skip n (i + 1) index p es (omega arith)))
]

concat-cons :
    (n i index high : ℕ) (p : Pair) (es : List Tagged)
    → i ≤ index
    → index < i + n
    → Rises index es high
    → concat (frames_from i n ((index, p) ∷ es)) ≡ p ∷ concat (frames_from i n es)
concat-cons zero i index high p es low below r = absurd (omega arith)
concat-cons (suc n) i index high p es low below r = elim (Bool-cases (index == i)) [
  | inl here ↦
      let next : index < i + 1 = omega (arith, ==→eq index i here) in
      rw (here)
        (ap (λ fs. p ∷ (in_frame i es ++ concat fs)) (frames_from-skip n (i + 1) index p es next))
  | inr away ↦
      let later : i < index = omega (arith, ==→ne index i away) in
      let none = in_frame-below i index high es later r in
      rw (away, none) (concat-cons n (i + 1) index high p es (omega arith) (omega arith) r)
]

pub concat-frames_from :
    (n i low : ℕ) (es : List Tagged)
    → i ≤ low
    → Rises low es (i + n)
    → concat (frames_from i n es) ≡ pairs es
concat-frames_from zero i low [] h r = refl
concat-frames_from zero i low ((index, p) ∷ es) h (first, last, r) = absurd (omega arith)
concat-frames_from (suc n) i low [] h r = concat-frames_from n (i + 1) (i + 1) [] (omega arith) tt
concat-frames_from (suc n) i low ((index, p) ∷ es) h (first, last, r) =
    concat-cons (suc n) i index (i + suc n) p es (omega arith) last r
    ∙ ap (◌∷◌ p) (concat-frames_from (suc n) i index es (omega arith) r)
