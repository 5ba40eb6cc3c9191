-- ===== src/Vgm/Parse/Order.antt =====
-- src/vgm.c: the state between two commands of `vgm_parse`.
use qlvgm.Prelude.{ℕ, zero, suc, ◌^◌, ◌≤◌, ◌<◌, ◌≡◌, refl, ◌⊎◌, inl, inr}
use qlvgm.Prelude.{arith, ◌&&◌, ◌==◌, true, false, Bool-cases}
use qlvgm.Prelude.{List, [], ◌∷◌, ◌++◌, length, drop, take, All, u32}
use qlvgm.Vgm.Song.{Song, Write, target_clock}
use qlvgm.Vgm.Song.Array.{IsStored}
use qlvgm.Vgm.Parse.{Header, Scan, is_timer_register, mark_loop, begin}

-- The samples of the writes never go back, from `low` to `high`.
abbrev pub Ascends : ℕ → List Write → ℕ → Type 0
Ascends low [] high = low ≤ high
Ascends low (w ∷ ws) high = (low ≤ w.sample) × Ascends w.sample ws high

pub Ascends-wider :
    (low : ℕ) (ws : List Write) (high more : ℕ)
    → Ascends low ws high
    → high ≤ more
    → Ascends low ws more
Ascends-wider low [] high more a h = omega arith
Ascends-wider low (w ∷ ws) high more (first, rest) h =
    (first, Ascends-wider w.sample ws high more rest h)

pub Ascends-last : (low : ℕ) (ws : List Write) (high : ℕ) → Ascends low ws high → low ≤ high
Ascends-last low [] high a = a
Ascends-last low (w ∷ ws) high (first, rest) =
    omega (arith, first, Ascends-last w.sample ws high rest)

pub Ascends-take :
    (n low : ℕ) (ws : List Write) (high : ℕ) → Ascends low ws high → Ascends low (take n ws) high
Ascends-take zero low ws high a = Ascends-last low ws high a
Ascends-take (suc n) low [] high a = a
Ascends-take (suc n) low (w ∷ ws) high (first, rest) = (first, Ascends-take n w.sample ws high rest)

pub Ascends-snoc :
    (low : ℕ) (ws : List Write) (w : Write)
    → Ascends low ws w.sample
    → Ascends low (ws ++ (w ∷ [])) w.sample
Ascends-snoc low [] w a = (a, omega arith)
Ascends-snoc low (v ∷ ws) w (first, rest) = (first, Ascends-snoc v.sample ws w rest)

pub All-snoc :
    (P : Write → Type 0) (ws : List Write) (w : Write) → All P ws → P w → All P (ws ++ (w ∷ []))
All-snoc P [] w a p = (p, tt)
All-snoc P (v ∷ ws) w (first, rest) p = (first, All-snoc P ws w rest p)

pub drop-snoc :
    (n : ℕ) (ws : List Write) (w : Write)
    → n ≤ length ws
    → drop n (ws ++ (w ∷ [])) ≡ drop n ws ++ (w ∷ [])
drop-snoc zero ws w h = refl
drop-snoc (suc n) [] w h = absurd (omega arith)
drop-snoc (suc n) (v ∷ ws) w h = drop-snoc n ws w (omega arith)

-- Below the target clock no timer register is written.
abbrev pub IsAllowed : ℕ → Write → Type 0
IsAllowed clock w = (clock ≡ target_clock) ⊎ (is_timer_register w.reg ≡ false)

-- The loop point, once it is found.
pub record Loops (song : Song) (samples : ℕ) : Type 0 where
  pub at_write : song.loop_write ≤ length song.writes
  pub after : Ascends song.loop_sample (drop song.loop_write song.writes) samples

pub record IsSound (h : Header) (s : Scan) : Type 0 where
  pub array : IsStored s.song
  pub clock_hz : s.song.clock_hz ≡ h.clock
  pub has_loop : s.song.has_loop ≡ h.has_loop
  pub in_range : s.samples < 2 ^ 32
  pub inside : s.position ≤ h.eof
  pub ordered : Ascends 0 s.song.writes s.samples
  pub loops : s.loop_found ≡ true → Loops s.song s.samples
  pub allowed : All (IsAllowed h.clock) s.song.writes

drop-length : (ws : List Write) → drop (length ws) ws ≡ []
drop-length [] = refl
drop-length (w ∷ ws) = drop-length ws

pub position-mark_loop : (h : Header) (s : Scan) → (mark_loop h s).position ≡ s.position
unfolding mark_loop
position-mark_loop h s = ground arith

pub begin-IsSound : (h : Header) → h.data_offset ≤ h.eof → IsSound h (begin h)
begin-IsSound h low = record {
  array = record { counted = refl; fits = omega arith; bounded = omega arith };
  clock_hz = refl;
  has_loop = refl;
  in_range = omega arith;
  inside = low;
  ordered = omega arith;
  loops = λ found. absurd (cc found);
  allowed = tt;
}

-- Where the loop offset is reached, the loop begins behind the writes that are there.
pub mark_loop-IsSound : (h : Header) (s : Scan) → IsSound h s → IsSound h (mark_loop h s)
unfolding mark_loop
mark_loop-IsSound h s sound = elim (Bool-cases (h.has_loop && (s.position == h.loop_offset))) [
  | inr away ↦ rw (away) sound
  | inl here ↦
      let small : u32 s.samples ≡ s.samples = omega (arith, sound.in_range) in
      rw (here) (record {
        array = record {
          counted = sound.array.counted;
          fits = sound.array.fits;
          bounded = sound.array.bounded;
        };
        clock_hz = sound.clock_hz;
        has_loop = sound.has_loop;
        in_range = sound.in_range;
        inside = sound.inside;
        ordered = sound.ordered;
        loops = λ found. record {
          at_write = omega (arith, sound.array.counted);
          after = rw (sound.array.counted, drop-length s.song.writes, small) (omega arith);
        };
        allowed = sound.allowed;
      })
]
