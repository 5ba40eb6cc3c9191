-- ===== src/Qlay/Medium.antt =====
-- src/qlay.c: `qlay_ascii_equal_ignore_case` and `qlay_medium_name`. A string is the list of its
-- bytes; no override is `none`.
pub mod Name
mod Tests
use qlvgm.Prelude.{
  ℕ, ◌+◌, ◌-◌, ltb, leb, ◌==◌, if◌then◌else◌, Bool, true, false, ◌&&◌, Option, none, some,
}
use qlvgm.Prelude.{List, [], ◌∷◌, length, take, drop}
use qlvgm.Qlay.Bytes.{put, fill, bytes_of}
use qlvgm.Qlay.Image.{zeros}

abbrev medium_name_size : ℕ
medium_name_size = 10

-- ".mdv"
abbrev pub mdv_suffix : List ℕ
mdv_suffix = 46 ∷ 109 ∷ 100 ∷ 118 ∷ []

-- A capital letter as a small one.
pub lower : ℕ → ℕ
lower c = if leb 65 c && leb c 90 then c + 32 else c

pub ascii_equal_ignore_case : List ℕ → List ℕ → Bool
ascii_equal_ignore_case [] [] = true
ascii_equal_ignore_case [] (b ∷ right) = false
ascii_equal_ignore_case (a ∷ left) [] = false
ascii_equal_ignore_case (a ∷ left) (b ∷ right) =
    lower a == lower b && ascii_equal_ignore_case left right

-- Behind the last '/', if there is one: `best` is what is behind the last so far.
pub behind_slash : List ℕ → List ℕ → List ℕ
behind_slash [] best = best
behind_slash (c ∷ rest) best = elim (c == 47) [
  | true ↦ behind_slash rest rest
  | false ↦ behind_slash rest best
]

-- How many bytes of the name of a path count: not those of its suffix.
pub name_length : List ℕ → ℕ
name_length name =
    if leb 4 (length name) && ascii_equal_ignore_case (drop (length name - 4) name) mdv_suffix
    then length name - 4
    else length name

-- `memset` and `memcpy`
pub padded : List ℕ → ℕ → List ℕ
padded name size =
    let count = if ltb medium_name_size size then medium_name_size else size in
    bytes_of medium_name_size 0 (put 0 (take count name) (fill 0 0x20 medium_name_size zeros))

pub medium_name : List ℕ → Option (List ℕ) → List ℕ
medium_name path (some name) = padded name (length name)
medium_name path none = let name = behind_slash path path in padded name (name_length name)
