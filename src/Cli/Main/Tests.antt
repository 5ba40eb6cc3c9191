-- ===== src/Cli/Main/Tests.antt =====
-- The theorem on the whole program at a command line that makes an image with a screen, on a system on
-- which every call succeeds.
use qlvgm.Prelude.{ℕ, List, [], ◌∷◌, replicate, some, none, false}
use qlvgm.Os.{Os}
use qlvgm.Os.Sample.{sample_os}
use qlvgm.Vgm.Parse.Tests.{tune}
use qlvgm.Cli.{Strtoull, rate_name, force_name, screen_name}
use qlvgm.Cli.Main.{Environment}

-- `strtoull` on "60".
abbrev sixty : Strtoull
sixty text = record { value = 60; used = 2; failed = false }

-- `--rate 60 --force --screen scr a b`
abbrev arguments : List (List ℕ)
arguments =
    rate_name
    ∷ (54 ∷ 48 ∷ [])
    ∷ force_name
    ∷ screen_name
    ∷ (115 ∷ 99 ∷ 114 ∷ [])
    ∷ (97 ∷ [])
    ∷ (98 ∷ [])
    ∷ []

abbrev no_environment : Environment
no_environment = record { qlasm = some (99 ∷ []); player = none; test_frames = 0 }

-- The file of a name of one letter is the song, that of three letters the screen, and others have `a:`.
abbrev file_at : List ℕ → List ℕ
file_at (c ∷ []) = tune
file_at (a ∷ b ∷ c ∷ []) = replicate 32768 0
file_at path = 97 ∷ 58 ∷ []

abbrev full_os : Os
full_os = sample_os file_at
