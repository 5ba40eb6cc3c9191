-- ===== src/Qlz/Match/Choice.antt =====
-- src/qlz.c: `qlz_choose_match` and the weights that it compares.
use qlvgm.Prelude.{
  ℕ, ◌+◌, ◌/◌, ◌^◌, ◌≤◌, ◌<◌, ◌≡◌, refl, false, ◌⊎◌, inl, inr, arith, ltb, leb, if◌then◌else◌, true,
  Bool-cases, ◌||◌, ◌&&◌, not,
}
use qlvgm.Prelude.Int.{pos, ltb_ℤ, sub_ℕ}
use qlvgm.Qlz.Match.{Match, match_min, choose_match, prefer, match_saving, match_packets, no_match}

-- The bytes of a match in the payload: its distance, and a control byte for each part.
abbrev pub encoded : Match → ℕ
encoded m = (if leb m.distance 256 then 1 else 2) + match_packets m.length

prefer_cases : (short long : Match) → (prefer short long ≡ short) ⊎ (prefer short long ≡ long)
unfolding prefer
prefer_cases short long =
    elim (Bool-cases (
      ltb_ℤ (match_saving short) (match_saving long)
      || (not (ltb_ℤ (match_saving long) (match_saving short)) && ltb short.length long.length))) [
        | inl e ↦ inr (rw e)
        | inr e ↦ inl (rw e)
      ]

-- A match that saves something is shorter in the payload than in the input.
saves : (m : Match) → ltb_ℤ (pos 0) (match_saving m) ≡ true → encoded m < m.length
unfolding match_saving
saves m h = ground arith

kept :
    (m : Match)
    → let r =
        if ltb m.length (if ltb 256 m.distance then 4 else 3)
          || not (ltb_ℤ (pos 0) (match_saving m))
        then no_match
        else m in
      (r.length ≡ 0)
      ⊎ ((r ≡ m) × (3 ≤ m.length) × (256 < m.distance → 4 ≤ m.length) × (encoded m < m.length))
kept m = ground (arith, saves m)

-- The choice has length 0, or it is one of the two matches, at least 3 bytes long, at least 4 if its
-- distance is above 256, and `encoded` in fewer bytes than it stands for.
pub choose_match-IsOneOf :
    (short long : Match)
    → let m = choose_match short long in
      (m.length ≡ 0)
      ⊎ (((m ≡ short) ⊎ (m ≡ long))
          × (3 ≤ m.length)
          × (256 < m.distance → 4 ≤ m.length)
          × (encoded m < m.length))
unfolding choose_match
choose_match-IsOneOf short long = ground (arith, kept (prefer short long), prefer_cases short long)

pub match_packets_lem : (n : ℕ) → n + 65 < 2 ^ 32 → match_packets n ≡ (n + 65) / 66
unfolding match_packets
match_packets_lem n h = omega arith

pub match_saving_lem : (m : Match) → 3 ≤ m.length → match_saving m ≡ sub_ℕ m.length (encoded m)
unfolding match_saving
match_saving_lem m three =
    let not_small : ltb m.length match_min ≡ false = ground arith in rw not_small refl
