-- ===== src/Qlay/Image/Tests.antt =====
-- The theorems on images at concrete inputs.
use qlvgm.Prelude.{ℕ, ◌+◌, ◌*◌, ◌≡◌, refl, arith, List, [], ◌∷◌, replicate, length}
use qlvgm.Qlay.Image.{CartridgeFile, image_fits, layout_files, sector_payload, zeros}
use qlvgm.Qlay.Image.Files.{blocks_before}
use qlvgm.Qlay.Image.Rest.{layout_files-first, layout_files-free}

abbrev medium : List ℕ
medium = replicate 10 0x20

abbrev boot : CartridgeFile
boot = record { name = 98 ∷ 111 ∷ 111 ∷ 116 ∷ []; contents = 1 ∷ 2 ∷ 3 ∷ [] }

abbrev program : CartridgeFile
program = record { name = 112 ∷ []; contents = 7 ∷ 8 ∷ 9 ∷ 10 ∷ [] }

abbrev two_files : List CartridgeFile
two_files = boot ∷ program ∷ []

layout_files-first_example :
    let l = layout_files 200 two_files in
    (l.map 0 ≡ 0xF8)
    × (l.map 2 ≡ 0)
    × (l.map 511 ≡ 1 + blocks_before two_files (length two_files))
    × (sector_payload l two_files 0 ≡ l.map)
    × (sector_payload l two_files 1 ≡ l.directory)
unfolding image_fits
layout_files-first_example =
    layout_files-first 200 two_files (omega arith) (omega arith) (omega arith, (omega arith, tt))
      refl

layout_files-free_example :
    let l = layout_files 200 two_files in
    (l.map (5 * 2) ≡ 0xFD) × (l.map (5 * 2 + 1) ≡ 0) × (sector_payload l two_files 5 ≡ zeros)
unfolding image_fits blocks_before
layout_files-free_example =
    layout_files-free 200 two_files 5 (omega arith) (omega arith) (omega arith, (omega arith, tt))
      refl (omega arith) (omega arith)
