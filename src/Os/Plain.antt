-- ===== src/Os/Plain.antt =====
-- Calls that write no file and put none in another's place.
use qlvgm.Prelude.{◌≡◌, refl, ◌∙◌, ◌∷◌, append-nil, Result, ok, err, ◌>>=◌}
use qlvgm.Os.{write_call, rename_call, Call, History, Os}
use qlvgm.Os.History.{written, added, Kept}

-- From one history to a later one.
pub record Plain (os : Os) (h later : History) : Type 0 where
  pub keeps : Kept os h → Kept os later
  pub writes : written os later ≡ written os h

pub Plain-refl : (os : Os) (h : History) → Plain os h h
Plain-refl os h = record { keeps = λ k. k; writes = refl }

pub Plain-trans : {os : Os} {a b c : History} → Plain os a b → Plain os b c → Plain os a c
Plain-trans p q = record { keeps = λ k. q.keeps (p.keeps k); writes = q.writes ∙ p.writes }

-- No `write`, and no `rename`.
abbrev pub IsPlain : Call → Type 0
IsPlain (write_call bytes) = ⊥
IsPlain (rename_call a b) = ⊥
IsPlain c = Unit

module _ (os : Os) where
  pub Plain-call : (c : Call) (h : History) → IsPlain c → Plain os h (c ∷ h)
  unfolding Kept written added
  Plain-call (write_call bytes) h is = absurd is
  Plain-call (rename_call a b) h is = absurd is
  Plain-call c h is = record { keeps = λ k. k; writes = append-nil (written os h) }

  -- What a chain of calls leaves, a failure too.
  abbrev pub Plainly {ℓ κ} :
      {E : Type ℓ} {A : Type κ} → History → Result (E × History) (A × History) → Type 0
  Plainly h (ok (a, later)) = Plain os h later
  Plainly h (err (e, later)) = Plain os h later

  -- One more call in front.
  pub Plainly-after {ℓ κ} :
      {E : Type ℓ} {A : Type κ} (h later : History) (r : Result (E × History) (A × History))
      → Plain os h later
      → Plainly later r
      → Plainly h r
  Plainly-after h later (ok (a, last)) p q = Plain-trans p q
  Plainly-after h later (err (e, last)) p q = Plain-trans p q

  pub Plainly-then {ℓ κ μ} :
      {E : Type ℓ} {A : Type κ} {B : Type μ} (h : History) (r : Result (E × History) (A × History))
      (next : A × History → Result (E × History) (B × History))
      → Plainly h r
      → ((a : A) (later : History) → Plainly later (next (a, later)))
      → Plainly h (r >>= next)
  Plainly-then h (err (e, later)) next p k = p
  Plainly-then h (ok (a, later)) next p k = Plainly-after h later (next (a, later)) p (k a later)
