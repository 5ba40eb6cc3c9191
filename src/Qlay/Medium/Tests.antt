-- ===== src/Qlay/Medium/Tests.antt =====
-- The theorem on medium names at a concrete input.
use qlvgm.Prelude.{ℕ, ◌≡◌, refl, arith, List, [], ◌∷◌, ◌++◌, none}
use qlvgm.Buffer.{byte_at}
use qlvgm.Qlay.Medium.{ascii_equal_ignore_case, lower, medium_name}
use qlvgm.Qlay.Medium.Name.{name_byte, medium_name-path}

-- "out", "ab" and ".MdV"
abbrev folder : List ℕ
folder = 111 ∷ 117 ∷ 116 ∷ []

abbrev title : List ℕ
title = 97 ∷ 98 ∷ []

abbrev suffix : List ℕ
suffix = 46 ∷ 77 ∷ 100 ∷ 86 ∷ []

medium_name-path_example :
    (byte_at (medium_name (folder ++ 47 ∷ (title ++ suffix)) none) 1 ≡ name_byte title 1)
    × (byte_at (medium_name (title ++ suffix) none) 1 ≡ name_byte title 1)
unfolding ascii_equal_ignore_case lower
medium_name-path_example =
    medium_name-path folder title suffix 1
      (
        λ e. omega (arith, e),
        (
          λ e. omega (arith, e),
          (
            λ e. omega (arith, e),
            (λ e. omega (arith, e), (λ e. omega (arith, e), (λ e. omega (arith, e), tt))),
          ),
        ),
      )
      refl (omega arith)
