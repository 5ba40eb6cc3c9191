-- ===== src/Program/Texts.antt =====
-- src/output.c: the texts of the generated programs, by their bytes.
use qlvgm.Prelude.{ℕ, List, [], ◌∷◌}

-- 'TARGET_RATE EQU '
abbrev pub rate_text : List ℕ
rate_text = 84 ∷ 65 ∷ 82 ∷ 71 ∷ 69 ∷ 84 ∷ 95 ∷ 82 ∷ 65 ∷ 84 ∷ 69 ∷ 32 ∷ 69 ∷ 81 ∷ 85 ∷ 32 ∷ []

-- '\nDECODED_SIZE EQU '
abbrev pub decoded_text : List ℕ
decoded_text =
    10 ∷ 68 ∷ 69 ∷ 67 ∷ 79 ∷ 68 ∷ 69 ∷ 68 ∷ 95 ∷ 83 ∷ 73 ∷ 90 ∷ 69 ∷ 32 ∷ 69 ∷ 81 ∷ 85 ∷ 32 ∷ []

-- '\nLOOP_OFFSET EQU $'
abbrev pub loop_text : List ℕ
loop_text =
    10 ∷ 76 ∷ 79 ∷ 79 ∷ 80 ∷ 95 ∷ 79 ∷ 70 ∷ 70 ∷ 83 ∷ 69 ∷ 84 ∷ 32 ∷ 69 ∷ 81 ∷ 85 ∷ 32 ∷ 36 ∷ []

-- '\nTEST_FRAMES EQU '
abbrev pub frames_text : List ℕ
frames_text =
    10 ∷ 84 ∷ 69 ∷ 83 ∷ 84 ∷ 95 ∷ 70 ∷ 82 ∷ 65 ∷ 77 ∷ 69 ∷ 83 ∷ 32 ∷ 69 ∷ 81 ∷ 85 ∷ 32 ∷ []

-- 'qlz_data:\n'
abbrev pub data_label : List ℕ
data_label = 113 ∷ 108 ∷ 122 ∷ 95 ∷ 100 ∷ 97 ∷ 116 ∷ 97 ∷ 58 ∷ 10 ∷ []

-- '        DC.B    '
abbrev pub row_start : List ℕ
row_start = 32 ∷ 32 ∷ 32 ∷ 32 ∷ 32 ∷ 32 ∷ 32 ∷ 32 ∷ 68 ∷ 67 ∷ 46 ∷ 66 ∷ 32 ∷ 32 ∷ 32 ∷ 32 ∷ []

-- 'loaded_end:\n        END\n'
abbrev pub source_end : List ℕ
source_end =
    108 ∷ 111 ∷ 97 ∷ 100 ∷ 101 ∷ 100 ∷ 95 ∷ 101 ∷ 110 ∷ 100 ∷ 58 ∷ 10 ∷ 32 ∷ 32 ∷ 32 ∷ 32 ∷ 32 ∷ 32
    ∷ 32 ∷ 32 ∷ 69 ∷ 78 ∷ 68 ∷ 10 ∷ []

-- '100 MODE '
abbrev pub mode_text : List ℕ
mode_text = 49 ∷ 48 ∷ 48 ∷ 32 ∷ 77 ∷ 79 ∷ 68 ∷ 69 ∷ 32 ∷ []

-- '\n110 LBYTES "mdv1_screen",'
abbrev pub screen_text : List ℕ
screen_text =
    10 ∷ 49 ∷ 49 ∷ 48 ∷ 32 ∷ 76 ∷ 66 ∷ 89 ∷ 84 ∷ 69 ∷ 83 ∷ 32 ∷ 34 ∷ 109 ∷ 100 ∷ 118 ∷ 49 ∷ 95 ∷ 115
    ∷ 99 ∷ 114 ∷ 101 ∷ 101 ∷ 110 ∷ 34 ∷ 44 ∷ []

-- '\n120 a=RESPR('
abbrev pub screen_respr_text : List ℕ
screen_respr_text = 10 ∷ 49 ∷ 50 ∷ 48 ∷ 32 ∷ 97 ∷ 61 ∷ 82 ∷ 69 ∷ 83 ∷ 80 ∷ 82 ∷ 40 ∷ []

-- ')\n130 LBYTES "mdv1_qlvgm",a\n140 CALL a\n'
abbrev pub screen_end_text : List ℕ
screen_end_text =
    41 ∷ 10 ∷ 49 ∷ 51 ∷ 48 ∷ 32 ∷ 76 ∷ 66 ∷ 89 ∷ 84 ∷ 69 ∷ 83 ∷ 32 ∷ 34 ∷ 109 ∷ 100 ∷ 118 ∷ 49 ∷ 95
    ∷ 113 ∷ 108 ∷ 118 ∷ 103 ∷ 109 ∷ 34 ∷ 44 ∷ 97 ∷ 10 ∷ 49 ∷ 52 ∷ 48 ∷ 32 ∷ 67 ∷ 65 ∷ 76 ∷ 76 ∷ 32
    ∷ 97 ∷ 10 ∷ []

-- '100 a=RESPR('
abbrev pub respr_text : List ℕ
respr_text = 49 ∷ 48 ∷ 48 ∷ 32 ∷ 97 ∷ 61 ∷ 82 ∷ 69 ∷ 83 ∷ 80 ∷ 82 ∷ 40 ∷ []

-- ')\n110 LBYTES "mdv1_qlvgm",a\n120 CALL a\n'
abbrev pub end_text : List ℕ
end_text =
    41 ∷ 10 ∷ 49 ∷ 49 ∷ 48 ∷ 32 ∷ 76 ∷ 66 ∷ 89 ∷ 84 ∷ 69 ∷ 83 ∷ 32 ∷ 34 ∷ 109 ∷ 100 ∷ 118 ∷ 49 ∷ 95
    ∷ 113 ∷ 108 ∷ 118 ∷ 103 ∷ 109 ∷ 34 ∷ 44 ∷ 97 ∷ 10 ∷ 49 ∷ 50 ∷ 48 ∷ 32 ∷ 67 ∷ 65 ∷ 76 ∷ 76 ∷ 32
    ∷ 97 ∷ 10 ∷ []

-- 'BOOT'
abbrev pub boot_name : List ℕ
boot_name = 66 ∷ 79 ∷ 79 ∷ 84 ∷ []

-- 'qlvgm'
abbrev pub program_name : List ℕ
program_name = 113 ∷ 108 ∷ 118 ∷ 103 ∷ 109 ∷ []

-- 'screen'
abbrev pub screen_file_name : List ℕ
screen_file_name = 115 ∷ 99 ∷ 114 ∷ 101 ∷ 101 ∷ 110 ∷ []
