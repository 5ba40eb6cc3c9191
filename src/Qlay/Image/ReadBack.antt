-- ===== src/Qlay/Image/ReadBack.antt =====
-- src/qlay.c: the bytes of the files in the sectors of an image.
use qlvgm.Prelude.{
  ℕ, ◌+◌, ◌-◌, ◌*◌, ◌≤◌, ◌<◌, ◌≡◌, refl, arith, ap, ◌∙◌, u32, u8, ◌==◌, All, List, length, true,
  false, leb→le,
}
use qlvgm.Buffer.{byte_at}
use qlvgm.Qlay.Bytes.{Array, bytes_of}
use qlvgm.Qlay.Bytes.Laws.{assign-outside, byte_at-bytes_of, length-bytes_of}
use qlvgm.Qlay.Sector.{encode_sector}
use qlvgm.Qlay.Sector.Fields.{encode_sector-logical, encode_sector-file_id, encode_sector-block}
use qlvgm.Qlay.Sector.Sealed.{encode_sector-payload}
use qlvgm.Qlay.Image.{
  Layout, CartridgeFile, place_files, write_qdos_header, image_fits, initial_layout, layout_files,
  sector_payload, sector_of, logical_of, zeros,
}
use qlvgm.Qlay.Image.Files.{
  IsFile, blocks_before, FileAt, AllPlaced, place_files-AllPlaced, size_eq, Entry-at,
}
use qlvgm.Qlay.Image.Stored.{
  stored, copy_block-at, file_by_id-FileAt, IsFile-FileAt, blocks_before-lt, FileAt-lt,
  blocks_needed-blocks_before, IsNamed, fitting-IsFile, file_byte-stored,
}

-- What the arrays of an image of these files say, behind all loops.
pub layout_files-AllPlaced :
    (sectors : ℕ) (files : List CartridgeFile)
    → All IsFile files
    → let l = layout_files sectors files in
      let start = initial_layout sectors (length files) in
      let placed = place_files files 0 start in
      AllPlaced files 0 start placed
      × (l.directory ≡ placed.directory)
      × ((j : ℕ) → ¬ (j ≡ 511) → l.map j ≡ placed.map j)
unfolding layout_files
layout_files-AllPlaced sectors files sound =
    let placed = place_files files 0 (initial_layout sectors (length files)) in
    (
      place_files-AllPlaced files 0 (initial_layout sectors (length files)) sound,
      refl,
      λ j h. assign-outside 511 _ placed.map j h,
    )

module _ (sectors random_id : ℕ) (medium_name : List ℕ) (files : List CartridgeFile) (m k j : ℕ)
    (f : CartridgeFile) (few : length files ≤ 3) (sound : All IsFile files)
    (room : blocks_before files (length files) ≤ 253) (here : FileAt files m f) (low : j < 512)
    (inside : k * 512 + j < length f.contents + 64) where
  abbrev layout : Layout
  layout = layout_files sectors files

  abbrev own : ℕ
  own = 2 + blocks_before files m + k

  logical_low : own < 255
  logical_low = omega (arith, blocks_before-lt files m k f here (omega arith))

  entry : (layout.map (own * 2) ≡ m + 1) × (layout.map (own * 2 + 1) ≡ k)
  unfolding initial_layout
  entry =
      let (all, same, kept) = layout_files-AllPlaced sectors files sound in
      let start = initial_layout sectors (length files) in
      let placed = place_files files 0 start in
      let (id, block) =
        Entry-at placed.map (start.next + blocks_before files m + k) own (0 + m + 1) (m + 1) k
          (omega arith) (omega arith) (all.entries m k f here (omega arith)) in
      (
        kept (own * 2) (λ e. omega (arith, e, logical_low))
            ∙ id
            ∙ omega (arith, FileAt-lt files m f here, few),
        kept (own * 2 + 1) (λ e. omega (arith, e, logical_low))
            ∙ block
            ∙ omega (arith, logical_low),
      )

  header_byte :
      (p : ℕ) → p < 64 → layout.directory ((m + 1) * 64 + p) ≡ write_qdos_header 0 f zeros p
  header_byte p small =
      let (all, same, kept) = layout_files-AllPlaced sectors files sound in
      let at : (m + 1) * 64 + p ≡ (0 + m + 1) * 64 + p = omega arith in
      ap layout.directory at
      ∙ ap (λ (a : Array). a ((0 + m + 1) * 64 + p)) same
      ∙ all.headers m p f here small

  payload_byte : sector_payload layout files own j ≡ byte_at (stored f) (k * 512 + j)
  unfolding sector_payload
  payload_byte =
      let (id, block) = entry in
      let few_ids : m + 1 < 4 = omega (arith, FileAt-lt files m f here, few) in
      let first : (own == 0) ≡ false = ground arith in
      let not_directory : (m + 1 == 0) ≡ false = ground arith in
      let not_free : (m + 1 == 0xFD) ≡ false = ground arith in
      let whole : u32 (k * 512) ≡ k * 512 = omega (arith, logical_low) in
      rw (first, id, not_directory, not_free, block, whole, file_by_id-FileAt files m f here)
        (copy_block-at 512 (k * 512) ((m + 1) * 64) layout.directory f 0 zeros j
            (omega (arith, logical_low)) (omega arith) (omega arith)
            (omega (arith, size_eq f (IsFile-FileAt files m f sound here)))
          ∙ file_byte-stored ((m + 1) * 64) layout.directory f (k * 512 + j) header_byte)

pub image_fits-room :
    (sectors : ℕ) (files : List CartridgeFile)
    → 200 ≤ sectors
    → sectors ≤ 255
    → image_fits sectors files ≡ true
    → 2 + blocks_before files (length files) ≤ sectors
unfolding image_fits
image_fits-room sectors files least most fits =
    omega (arith, leb→le _ _ fits, blocks_needed-blocks_before files 1)

pub sector_of-stored :
    (sectors random_id : ℕ) (medium_name : List ℕ) (files : List CartridgeFile) (m k j : ℕ)
    (f : CartridgeFile)
    → 200 ≤ sectors
    → sectors ≤ 255
    → length files ≤ 3
    → All IsNamed files
    → image_fits sectors files ≡ true
    → FileAt files m f
    → j < 512
    → k * 512 + j < length f.contents + 64
    → let logical = 2 + blocks_before files m + k in
      let s = sector_of (layout_files sectors files) medium_name random_id files logical in
      (logical < sectors)
      × (byte_at s 13 ≡ logical)
      × (byte_at s 40 ≡ m + 1)
      × (byte_at s 41 ≡ k)
      × (byte_at s (52 + j) ≡ byte_at (stored f) (k * 512 + j))
unfolding sector_of
sector_of-stored sectors random_id medium_name files m k j f least most few named fits here low
      inside =
    let room = image_fits-room sectors files least most fits in
    let sound = fitting-IsFile files named (omega (arith, room)) in
    let logical = 2 + blocks_before files m + k in
    let inner : logical < sectors =
      omega (arith, room, blocks_before-lt files m k f here (omega arith)) in
    let l = layout_files sectors files in
    let payload = bytes_of 512 0 (sector_payload l files logical) in
    let s =
      encode_sector (u8 logical) medium_name random_id (l.map (logical * 2))
        (l.map (logical * 2 + 1)) payload in
    let (id, block) =
      entry sectors random_id medium_name files m k j f few sound (omega (arith, room)) here low
        inside in
    (
      inner,
      byte_at-bytes_of 686 0 s 13 (omega arith)
          ∙ encode_sector-logical _ _ _ _ _ _
          ∙ omega (arith, inner),
      byte_at-bytes_of 686 0 s 40 (omega arith) ∙ encode_sector-file_id _ _ _ _ _ _ ∙ id,
      byte_at-bytes_of 686 0 s 41 (omega arith) ∙ encode_sector-block _ _ _ _ _ _ ∙ block,
      byte_at-bytes_of 686 0 s (52 + j) (omega arith)
          ∙ ap s (omega arith)
          ∙ encode_sector-payload _ _ _ _ j _ payload (length-bytes_of 512 0 _) low
          ∙ byte_at-bytes_of 512 0 _ j low
          ∙ ap (sector_payload l files logical) (omega arith)
          ∙ payload_byte sectors random_id medium_name files m k j f few sound (omega (arith, room))
              here low inside,
    )

pub length-sector_of :
    (l : Layout) (medium_name : List ℕ) (random_id : ℕ) (files : List CartridgeFile) (logical : ℕ)
    → length (sector_of l medium_name random_id files logical) ≡ 686
unfolding sector_of
length-sector_of l medium_name random_id files logical = length-bytes_of 686 0 _

pub logical_of-back :
    (sectors logical : ℕ)
    → 1 ≤ logical
    → logical < sectors
    → sectors ≤ 255
    → logical_of sectors (0 + (sectors - logical)) ≡ logical
unfolding logical_of
logical_of-back sectors logical low inner most = ground arith
