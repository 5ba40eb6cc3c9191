-- ===== src/Cli/Names.antt =====
-- src/cli.c: the names of the options, by their bytes.
use qlvgm.Prelude.{ℕ, List, [], ◌∷◌}

-- "--"
abbrev pub dashes : List ℕ
dashes = 45 ∷ 45 ∷ []

-- "--help"
abbrev pub help_name : List ℕ
help_name = 45 ∷ 45 ∷ 104 ∷ 101 ∷ 108 ∷ 112 ∷ []

-- "--version"
abbrev pub version_name : List ℕ
version_name = 45 ∷ 45 ∷ 118 ∷ 101 ∷ 114 ∷ 115 ∷ 105 ∷ 111 ∷ 110 ∷ []

-- "--force"
abbrev pub force_name : List ℕ
force_name = 45 ∷ 45 ∷ 102 ∷ 111 ∷ 114 ∷ 99 ∷ 101 ∷ []

-- "--verbose"
abbrev pub verbose_name : List ℕ
verbose_name = 45 ∷ 45 ∷ 118 ∷ 101 ∷ 114 ∷ 98 ∷ 111 ∷ 115 ∷ 101 ∷ []

-- "--no-pitch-conversion"
abbrev pub no_pitch_name : List ℕ
no_pitch_name =
    45 ∷ 45 ∷ 110 ∷ 111 ∷ 45 ∷ 112 ∷ 105 ∷ 116 ∷ 99 ∷ 104 ∷ 45 ∷ 99 ∷ 111 ∷ 110 ∷ 118 ∷ 101 ∷ 114
    ∷ 115 ∷ 105 ∷ 111 ∷ 110 ∷ []

-- "--screen"
abbrev pub screen_name : List ℕ
screen_name = 45 ∷ 45 ∷ 115 ∷ 99 ∷ 114 ∷ 101 ∷ 101 ∷ 110 ∷ []

-- "--screen-mode"
abbrev pub screen_mode_name : List ℕ
screen_mode_name = 45 ∷ 45 ∷ 115 ∷ 99 ∷ 114 ∷ 101 ∷ 101 ∷ 110 ∷ 45 ∷ 109 ∷ 111 ∷ 100 ∷ 101 ∷ []

-- "--rate"
abbrev pub rate_name : List ℕ
rate_name = 45 ∷ 45 ∷ 114 ∷ 97 ∷ 116 ∷ 101 ∷ []

-- "--sectors"
abbrev pub sectors_name : List ℕ
sectors_name = 45 ∷ 45 ∷ 115 ∷ 101 ∷ 99 ∷ 116 ∷ 111 ∷ 114 ∷ 115 ∷ []

-- "--medium-name"
abbrev pub medium_name_name : List ℕ
medium_name_name = 45 ∷ 45 ∷ 109 ∷ 101 ∷ 100 ∷ 105 ∷ 117 ∷ 109 ∷ 45 ∷ 110 ∷ 97 ∷ 109 ∷ 101 ∷ []

-- "--random-id"
abbrev pub random_id_name : List ℕ
random_id_name = 45 ∷ 45 ∷ 114 ∷ 97 ∷ 110 ∷ 100 ∷ 111 ∷ 109 ∷ 45 ∷ 105 ∷ 100 ∷ []
