-- ===== src/Os/History.antt =====
-- What a history of system calls did to the file that is written.
use qlvgm.Prelude.{
  ◌⊎◌, inl, inr, refl, Option, none, some, suc, zero, ℕ, ◌+◌, ◌≤◌, ◌≡◌, false, none, some, List, [],
  ◌∷◌, ◌++◌, take, if◌then◌else◌,
}
use qlvgm.Os.{Call, write_call, rename_call, History, Os, interrupted, succeeded}

-- What a call adds to the file.
unfoldable pub added : Os → Call → History → List ℕ
added os (write_call bytes) h = elim (os.answer (write_call bytes ∷ h)).count [
  | none ↦ []
  | some n ↦ take n bytes
]
added os c h = []

-- The bytes that the calls wrote.
unfoldable pub written : Os → History → List ℕ
written os [] = []
written os (c ∷ h) = written os h ++ added os c h

-- How many calls a signal interrupted.
unfoldable pub interruptions : Os → History → ℕ
interruptions os [] = 0
interruptions os (c ∷ h) =
    interruptions os h + (if interrupted os (os.answer (c ∷ h)) then 1 else 0)

-- A system that interrupts so many calls at most.
abbrev pub IsPatient : ℕ → Os → Type 0
IsPatient n os = (h : History) → interruptions os h ≤ n

-- No file was put in another's place.
unfoldable pub Kept : Os → History → Type 0
Kept os [] = Unit
Kept os (rename_call a b ∷ h) = (succeeded (os.answer (rename_call a b ∷ h)) ≡ false) × Kept os h
Kept os (c ∷ h) = Kept os h

pub count-cases : (c : Option ℕ) → (c ≡ none) ⊎ (c ≡ some 0) ⊎ ((n : ℕ) × (c ≡ some (suc n)))
count-cases none = inl refl
count-cases (some zero) = inr (inl refl)
count-cases (some (suc n)) = inr (inr (n, refl))
