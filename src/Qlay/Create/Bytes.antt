-- ===== src/Qlay/Create/Bytes.antt =====
-- src/qlay.c: the bytes of a whole image.
use qlvgm.Prelude.{
  ℕ, zero, suc, ◌+◌, ◌-◌, ◌*◌, ◌≤◌, ◌<◌, ◌≡◌, arith, ap, sym, ◌∙◌, subst, All, List, [], ◌++◌,
  append-nil, append_assoc, length, true, get_or-append, get_or-append_right,
}
use qlvgm.Buffer.{byte_at}
use qlvgm.Os.{Os}
use qlvgm.Qlay.Image.{CartridgeFile, Layout, layout_files, sector_of, logical_of, image_fits}
use qlvgm.Qlay.Image.Files.{blocks_before, FileAt}
use qlvgm.Qlay.Image.Stored.{IsNamed, stored}
use qlvgm.Qlay.Image.ReadBack.{sector_of-stored, length-sector_of, logical_of-back}
use qlvgm.Qlay.Output.{Output, output_write}
use qlvgm.Qlay.Output.Writes.{Leaves, Leaves-then, output_write-Leaves, content, Same-refl}
use qlvgm.Qlay.Create.{write_sectors, render_image}

-- So many sectors from `physical` on, one behind another.
sectors_from : ℕ → List ℕ → ℕ → List CartridgeFile → Layout → ℕ → ℕ → List ℕ
sectors_from sectors medium_name random_id files l zero physical = []
sectors_from sectors medium_name random_id files l (suc left) physical =
    sector_of l medium_name random_id files (logical_of sectors physical)
    ++ sectors_from sectors medium_name random_id files l left (physical + 1)

-- The bytes of an image.
pub image_bytes : ℕ → List ℕ → ℕ → List CartridgeFile → List ℕ
image_bytes sectors medium_name random_id files =
    sectors_from sectors medium_name random_id files (layout_files sectors files) sectors 0

module _ (sectors random_id : ℕ) (medium_name : List ℕ) (files : List CartridgeFile)
    (l : Layout) where
  sectors_from-at :
      (left physical k i : ℕ)
      → k < left
      → i < 686
      → byte_at (sectors_from sectors medium_name random_id files l left physical) (k * 686 + i)
        ≡ byte_at (sector_of l medium_name random_id files (logical_of sectors (physical + k))) i
  unfolding sectors_from
  sectors_from-at zero physical k i h low = absurd (omega arith)
  sectors_from-at (suc left) physical zero i h low =
      let s = sector_of l medium_name random_id files (logical_of sectors physical) in
      let rest = sectors_from sectors medium_name random_id files l left (physical + 1) in
      let at : 0 * 686 + i ≡ i = omega arith in
      ap (byte_at (s ++ rest)) at
      ∙ get_or-append s rest i 0 (
          omega
            (arith, length-sector_of l medium_name random_id files (logical_of sectors physical)))
      ∙ ap (λ p. byte_at (sector_of l medium_name random_id files (logical_of sectors p)) i)
          (omega arith)
  sectors_from-at (suc left) physical (suc k) i h low =
      let s = sector_of l medium_name random_id files (logical_of sectors physical) in
      let rest = sectors_from sectors medium_name random_id files l left (physical + 1) in
      let at : suc k * 686 + i ≡ length s + (k * 686 + i) =
        omega
          (arith, length-sector_of l medium_name random_id files (logical_of sectors physical)) in
      ap (byte_at (s ++ rest)) at
      ∙ get_or-append_right s rest (k * 686 + i) 0
      ∙ sectors_from-at left (physical + 1) k i (omega arith) low
      ∙ ap (λ p. byte_at (sector_of l medium_name random_id files (logical_of sectors p)) i)
          (omega arith)

  write_sectors-Leaves :
      (os : Os) (rounds left physical : ℕ) (o : Output)
      → Leaves os o
          (content os o ++ sectors_from sectors medium_name random_id files l left physical)
          (write_sectors os rounds sectors medium_name random_id files l left physical o)
  unfolding write_sectors sectors_from
  write_sectors-Leaves os rounds zero physical o =
      unfold Leaves in (sym (append-nil (content os o)), Same-refl os o)
  write_sectors-Leaves os rounds (suc left) physical o =
      let s = sector_of l medium_name random_id files (logical_of sectors physical) in
      let rest = sectors_from sectors medium_name random_id files l left (physical + 1) in
      Leaves-then os o (content os o ++ s) (content os o ++ (s ++ rest))
        (output_write os rounds s o) _ (output_write-Leaves os rounds s o)
        (λ o' holds same.
          subst
            (λ c. Leaves os o' c (
              write_sectors os rounds sectors medium_name random_id files l left (physical + 1) o'))
            (ap (λ c. c ++ rest) holds ∙ append_assoc (content os o) s rest)
            (write_sectors-Leaves os rounds left (physical + 1) o'))

-- The loops over the sectors, from an empty buffer on, leave the bytes of the image.
pub render_image-Leaves :
    (os : Os) (rounds sectors random_id : ℕ) (medium_name : List ℕ) (files : List CartridgeFile)
    (o : Output)
    → content os o ≡ []
    → Leaves os o
        (image_bytes sectors medium_name random_id files)
        (render_image os rounds sectors medium_name random_id files o)
unfolding render_image image_bytes
render_image-Leaves os rounds sectors random_id medium_name files o empty =
    let l = layout_files sectors files in
    subst
      (λ c.
        Leaves os o (c ++ sectors_from sectors medium_name random_id files l sectors 0)
          (write_sectors os rounds sectors medium_name random_id files l sectors 0 o))
      empty (write_sectors-Leaves sectors random_id medium_name files l os rounds sectors 0 o)

-- In an image of 200 to 255 sectors, of three files at most that fit and whose names have at most
-- 36 bytes: the `m`-th file (from 0), its header of 64 bytes counted in, is in the sectors whose
-- numbers are `2 + blocks before the file` and those that follow. The sector with the number
-- `logical` stands at `686 * (sectors - logical)` in the image; its bytes 13, 40 and 41 are its
-- number, the file's id `m + 1` and the block's number `k`; and from its byte 52 on stand the bytes
-- of the file from `512 * k` on.
pub image_bytes-stored :
    (sectors random_id : ℕ) (medium_name : List ℕ) (files : List CartridgeFile) (m k j : ℕ)
    (f : CartridgeFile)
    → 200 ≤ sectors
    → sectors ≤ 255
    → length files ≤ 3
    → All IsNamed files
    → image_fits sectors files ≡ true
    → FileAt files m f
    → j < 512
    → k * 512 + j < length f.contents + 64
    → let logical = 2 + blocks_before files m + k in
      let at = (sectors - logical) * 686 in
      let image = image_bytes sectors medium_name random_id files in
      (logical < sectors)
      × (byte_at image (at + 13) ≡ logical)
      × (byte_at image (at + 40) ≡ m + 1)
      × (byte_at image (at + 41) ≡ k)
      × (byte_at image (at + (52 + j)) ≡ byte_at (stored f) (k * 512 + j))
unfolding image_bytes
image_bytes-stored sectors random_id medium_name files m k j f least most few named fits here low
      inside =
    let logical = 2 + blocks_before files m + k in
    let l = layout_files sectors files in
    let (inner, number, id, block, byte) =
      sector_of-stored sectors random_id medium_name files m k j f least most few named fits here
        low inside in
    let found : logical_of sectors (0 + (sectors - logical)) ≡ logical =
      logical_of-back sectors logical (omega arith) inner most in
    let read : (i : ℕ)
        → i < 686
        → byte_at (image_bytes sectors medium_name random_id files) ((sectors - logical) * 686 + i)
          ≡ byte_at (sector_of l medium_name random_id files logical) i =
      λ i small.
        sectors_from-at sectors random_id medium_name files l sectors 0 (sectors - logical) i
          (omega arith) small
        ∙ ap (λ n. byte_at (sector_of l medium_name random_id files n) i) found in
    (
      inner,
      read 13 (omega arith) ∙ number,
      read 40 (omega arith) ∙ id,
      read 41 (omega arith) ∙ block,
      read (52 + j) (omega arith) ∙ byte,
    )
