-- ===== src/Qlay/Image/Rest.antt =====
-- src/qlay.c: the sectors of an image that hold no file.
use qlvgm.Prelude.{
  ℕ, zero, suc, ◌+◌, ◌-◌, ◌*◌, ◌≤◌, ◌<◌, ◌≡◌, ◌⊎◌, inl, inr, refl, arith, ap, ◌∙◌, u8, sub32, ◌==◌,
  ==→eq, ==→ne, Bool-cases, All, List, length, true, false,
}
use qlvgm.Qlay.Bytes.{Array, assign}
use qlvgm.Qlay.Bytes.Laws.{assign_self, assign-outside}
use qlvgm.Qlay.Image.{
  Layout, CartridgeFile, place_files, image_fits, initial_layout, layout_files, sector_payload,
  free_sectors, zeros,
}
use qlvgm.Qlay.Image.Files.{blocks_before}
use qlvgm.Qlay.Image.Stored.{IsNamed, fitting-IsFile}
use qlvgm.Qlay.Image.ReadBack.{image_fits-room, layout_files-AllPlaced}

free_sectors-outside :
    (left logical : ℕ) (map : Array) (j : ℕ)
    → ((s : ℕ) → logical ≤ s → s < logical + left → ¬ (j ≡ s * 2))
    → free_sectors left logical map j ≡ map j
unfolding free_sectors
free_sectors-outside zero logical map j h = refl
free_sectors-outside (suc left) logical map j h =
    free_sectors-outside left (logical + 1) _ j (λ s low high. h s (omega arith) (omega arith))
    ∙ assign-outside (logical * 2) 0xFD map j (h logical (omega arith) (omega arith))

free_sectors-inside :
    (left logical : ℕ) (map : Array) (s : ℕ)
    → logical ≤ s
    → s < logical + left
    → free_sectors left logical map (s * 2) ≡ 0xFD
unfolding free_sectors
free_sectors-inside zero logical map s low high = absurd (omega arith)
free_sectors-inside (suc left) logical map s low high = elim (Bool-cases (s == logical)) [
  | inl here ↦
      let at = ==→eq s logical here in
      free_sectors-outside left (logical + 1) _ (s * 2) (λ s' low' high' e. omega (arith, at))
      ∙ ap (λ n. assign (logical * 2) 0xFD map (n * 2)) at
      ∙ assign_self (logical * 2) 0xFD map
  | inr past ↦
      free_sectors-inside left (logical + 1) _ s (omega (arith, ==→ne s logical past)) (omega arith)
]

-- The map before any file is placed.
module _ (sectors count : ℕ) where
  abbrev start : Layout
  start = initial_layout sectors count

  initial_layout-ends : (start.map 0 ≡ 0xF8) × (start.map 2 ≡ 0)
  unfolding initial_layout
  initial_layout-ends = (
    assign-outside 2 0 _ 0 (λ e. omega (arith, e))
        ∙ free_sectors-outside (sectors - 1) 1 _ 0 (λ t low high e. omega (arith, e))
        ∙ assign_self 0 0xF8 zeros,
    assign_self 2 0 _,
  )

  initial_layout-free :
      (s : ℕ) → 2 ≤ s → s < sectors → (start.map (s * 2) ≡ 0xFD) × (start.map (s * 2 + 1) ≡ 0)
  unfolding initial_layout
  initial_layout-free s behind inner = (
    assign-outside 2 0 _ (s * 2) (λ e. omega (arith, e))
        ∙ free_sectors-inside (sectors - 1) 1 _ s (omega arith) (omega arith),
    assign-outside 2 0 _ (s * 2 + 1) (λ e. omega (arith, e))
        ∙ free_sectors-outside (sectors - 1) 1 _ (s * 2 + 1) (λ t low high e. omega (arith, e))
        ∙ assign-outside 0 0xF8 zeros (s * 2 + 1) (λ e. omega (arith, e)),
  )

layout_files-last :
    (sectors : ℕ) (files : List CartridgeFile)
    → (layout_files sectors files).map 511
      ≡ u8 (sub32 (place_files files 0 (initial_layout sectors (length files))).next 1)
unfolding layout_files
layout_files-last sectors files = assign_self 511 _ _

-- What is shared by the theorems on the sectors in use and on the free ones.
module _ (sectors : ℕ) (files : List CartridgeFile) (least : 200 ≤ sectors) (most : sectors ≤ 255)
    (named : All IsNamed files) (fits : image_fits sectors files ≡ true) where
  placed_next :
      ((place_files files 0 (initial_layout sectors (length files))).next
        ≡ 2 + blocks_before files (length files))
      × (2 + blocks_before files (length files) ≤ sectors)
  placed_next =
      let room = image_fits-room sectors files least most fits in
      let sound = fitting-IsFile files named (omega (arith, room)) in
      let (all, same, kept) = layout_files-AllPlaced sectors files sound in
      (unfold initial_layout in all.next, omega (arith, room))

  map_outside :
      (j : ℕ)
      → (j < 4) ⊎ ((2 + blocks_before files (length files)) * 2 ≤ j)
      → j < 511
      → (layout_files sectors files).map j ≡ (initial_layout sectors (length files)).map j
  map_outside j out inner =
      let room = image_fits-room sectors files least most fits in
      let sound = fitting-IsFile files named (omega (arith, room)) in
      let (all, same, kept) = layout_files-AllPlaced sectors files sound in
      let first : (initial_layout sectors (length files)).next ≡ 2 =
        unfold initial_layout in refl in
      let (next, fit) = placed_next in
      let away : (j < (initial_layout sectors (length files)).next * 2)
          ⊎ ((place_files files 0 (initial_layout sectors (length files))).next * 2 ≤ j) =
        elim out [ inl low ↦ inl (omega (arith, first)) | inr high ↦ inr (omega (arith, next)) ] in
      kept j (λ e. omega (arith, e)) ∙ all.outside j away

-- In an image of 200 to 255 sectors, of files that fit, even if they fill it, and whose names have at
-- most 36 bytes: the map says that sector 0 is the map and sector 1 the directory (file 0), and at its
-- end the number of the last sector in use. The payloads of the two are the map and the directory.
pub layout_files-first :
    (sectors : ℕ) (files : List CartridgeFile)
    → 200 ≤ sectors
    → sectors ≤ 255
    → All IsNamed files
    → image_fits sectors files ≡ true
    → let l = layout_files sectors files in
      (l.map 0 ≡ 0xF8)
      × (l.map 2 ≡ 0)
      × (l.map 511 ≡ 1 + blocks_before files (length files))
      × (sector_payload l files 0 ≡ l.map)
      × (sector_payload l files 1 ≡ l.directory)
unfolding sector_payload
layout_files-first sectors files least most named fits =
    let l = layout_files sectors files in
    let (map_id, directory_id) = initial_layout-ends sectors (length files) in
    let (next, fit) = placed_next sectors files least most named fits in
    let outside = map_outside sectors files least most named fits in
    let directory_at : l.map 2 ≡ 0 = outside 2 (inl (omega arith)) (omega arith) ∙ directory_id in
    (
      outside 0 (inl (omega arith)) (omega arith) ∙ map_id,
      directory_at,
      layout_files-last sectors files ∙ omega (arith, next, fit),
      refl,
      rw directory_at refl,
    )

-- In an image of 200 to 255 sectors, of files that fit and whose names have at most 36 bytes, every sector
-- behind those of the files, if there is one: the map says that it is free, and its payload is 512
-- zeros.
pub layout_files-free :
    (sectors : ℕ) (files : List CartridgeFile) (s : ℕ)
    → 200 ≤ sectors
    → sectors ≤ 255
    → All IsNamed files
    → image_fits sectors files ≡ true
    → 2 + blocks_before files (length files) ≤ s
    → s < sectors
    → let l = layout_files sectors files in
      (l.map (s * 2) ≡ 0xFD) × (l.map (s * 2 + 1) ≡ 0) × (sector_payload l files s ≡ zeros)
unfolding sector_payload
layout_files-free sectors files s least most named fits behind inner =
    let l = layout_files sectors files in
    let (free_id, free_block) = initial_layout-free sectors (length files) s (omega arith) inner in
    let outside = map_outside sectors files least most named fits in
    let free_at : l.map (s * 2) ≡ 0xFD =
      outside (s * 2) (inr (omega arith)) (omega arith) ∙ free_id in
    let not_first : (s == 0) ≡ false = ground arith in
    (
      free_at,
      outside (s * 2 + 1) (inr (omega arith)) (omega arith) ∙ free_block,
      rw (not_first, free_at) refl,
    )
