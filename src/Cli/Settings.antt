-- ===== src/Cli/Settings.antt =====
-- src/cli.c: the settings of the options.
use qlvgm.Prelude.{
  or-eq-false, ℕ, ◌≤◌, ◌≡◌, ◌⊎◌, inl, inr, refl, arith, Bool, Bool-cases, true, false, not, ◌&&◌,
  ◌||◌, ◌==◌, ltb, ltb→le, Option, none, some, List, length, Result, ok, err, ◌>>=◌, ◌>>◌, fail_if,
}
use qlvgm.Cli.{
  Strtoull, Options, CliError, parse_u32, set_screen_mode, set_rate, set_sectors, set_medium_name,
  set_random_id, bad_screen_mode, bad_rate, bad_medium_name,
}

abbrev ShortName : Option (List ℕ) → Type 0
ShortName none = Unit
ShortName (some name) = (1 ≤ length name) × (length name ≤ 10)

-- Options that the rest of the program can work with.
pub record IsUsable (o : Options) : Type 0 where
  pub rate : (o.rate ≡ 50) ⊎ (o.rate ≡ 60)
  pub sectors : (200 ≤ o.sectors) × (o.sectors ≤ 255)
  pub screen_mode : (o.screen_mode ≡ 4) ⊎ (o.screen_mode ≡ 8)
  pub random_id : o.random_id ≤ 65535
  pub medium_name : ShortName o.medium_name

unfoldable pub Sets : Result CliError Options → Type 0
Sets (ok o) = IsUsable o
Sets (err e) = Unit

InRange : ℕ → ℕ → Result CliError ℕ → Type 0
InRange low high (ok n) = (low ≤ n) × (n ≤ high)
InRange low high (err e) = Unit

parse_u32-InRange :
    (strtoull : Strtoull) (text : List ℕ) (low high : ℕ) (name : List ℕ)
    → InRange low high (parse_u32 strtoull text low high name)
unfolding parse_u32 InRange
parse_u32-InRange strtoull text low high name =
    let n = strtoull text in
    let before = n.failed || n.used == 0 || not (n.used == length text) in
    elim (Bool-cases (before || ltb n.value low || ltb high n.value)) [
      | inl bad ↦ rw (bad, parse_u32, InRange) tt
      | inr good ↦
          let (first, most) = or-eq-false (before || ltb n.value low) (ltb high n.value) good in
          let (shape, least) = or-eq-false before (ltb n.value low) first in
          rw (good, parse_u32, InRange) (ltb→le n.value low least, ltb→le high n.value most)
    ]

-- A setting of a number in a range.
Sets-number :
    (low high : ℕ) (r : Result CliError ℕ) (next : ℕ → Result CliError Options)
    → InRange low high r
    → ((n : ℕ) → low ≤ n → n ≤ high → Sets (next n))
    → Sets (r >>= next)
unfolding InRange Sets
Sets-number low high (ok n) next (least, most) rest = rest n least most
Sets-number low high (err e) next range rest = tt

Sets-check :
    (test : Bool) (e : CliError) (next : Result CliError Options)
    → (test ≡ false → Sets next)
    → Sets (fail_if test e >> next)
unfolding Sets
Sets-check true e next rest = tt
Sets-check false e next rest = rest refl

one_of : (n a b : ℕ) → not (n == a) && not (n == b) ≡ false → (n ≡ a) ⊎ (n ≡ b)
one_of n a b h = ground arith

module _ (strtoull : Strtoull) (o : Options) (usable : IsUsable o) (value : List ℕ) where
  pub set_screen_mode-Sets : Sets (set_screen_mode strtoull o value)
  unfolding set_screen_mode
  set_screen_mode-Sets =
      Sets-number 4 8 _ _ (parse_u32-InRange strtoull value 4 8 _) (λ n least most.
        Sets-check (not (n == 4) && not (n == 8)) bad_screen_mode
          (ok (record o { screen_mode = n; screen_mode_set = true }))
          (λ h.
            unfold Sets in
            record {
              rate = usable.rate;
              sectors = usable.sectors;
              screen_mode = one_of n 4 8 h;
              random_id = usable.random_id;
              medium_name = usable.medium_name;
            }))

  pub set_rate-Sets : Sets (set_rate strtoull o value)
  unfolding set_rate
  set_rate-Sets = Sets-number 50 60 _ _ (parse_u32-InRange strtoull value 50 60 _) (λ n least most.
      Sets-check (not (n == 50) && not (n == 60)) bad_rate (ok (record o { rate = n })) (λ h.
        unfold Sets in
        record {
          rate = one_of n 50 60 h;
          sectors = usable.sectors;
          screen_mode = usable.screen_mode;
          random_id = usable.random_id;
          medium_name = usable.medium_name;
        }))

  pub set_sectors-Sets : Sets (set_sectors strtoull o value)
  unfolding set_sectors
  set_sectors-Sets =
      Sets-number 200 255 _ _ (parse_u32-InRange strtoull value 200 255 _) (λ n least most.
        unfold Sets in
        record {
          rate = usable.rate;
          sectors = (least, most);
          screen_mode = usable.screen_mode;
          random_id = usable.random_id;
          medium_name = usable.medium_name;
        })

  pub set_random_id-Sets : Sets (set_random_id strtoull o value)
  unfolding set_random_id
  set_random_id-Sets =
      Sets-number 0 65535 _ _ (parse_u32-InRange strtoull value 0 65535 _) (λ n least most.
        unfold Sets in
        record {
          rate = usable.rate;
          sectors = usable.sectors;
          screen_mode = usable.screen_mode;
          random_id = most;
          medium_name = usable.medium_name;
        })

  pub set_medium_name-Sets : Sets (set_medium_name o value)
  unfolding set_medium_name
  set_medium_name-Sets =
      Sets-check (length value == 0 || ltb 10 (length value)) bad_medium_name
        (ok (record o { medium_name = some value }))
        (λ h.
          unfold Sets in
          record {
            rate = usable.rate;
            sectors = usable.sectors;
            screen_mode = usable.screen_mode;
            random_id = usable.random_id;
            medium_name = ground arith;
          })
