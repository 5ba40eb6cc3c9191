-- ===== src/Qlay/Image.antt =====
-- src/qlay.c: the directory, the sector map and the sectors of an image, and the test that the
-- files fit. `data` and `size` of a file are one list.
pub mod Blocks
pub mod Files
pub mod Stored
pub mod ReadBack
pub mod Rest
mod Tests
use qlvgm.Prelude.{ℕ, zero, suc, ◌+◌, ◌-◌, ◌*◌, ◌/◌, ◌^◌, ltb, leb, ◌==◌, if◌then◌else◌, Bool, true}
use qlvgm.Prelude.{false, not, List, [], ◌∷◌, length, u8, u16, u32, sub32}
use qlvgm.Buffer.{byte_at}
use qlvgm.Qlay.Bytes.{Array, put, fill, assign, bytes_of, write_be16, write_be32}
use qlvgm.Qlay.Sector.{sector_size, data_size, encode_sector}

abbrev map_file_id : ℕ
map_file_id = 0xF8

abbrev free_file_id : ℕ
free_file_id = 0xFD

abbrev qdos_header_size : ℕ
qdos_header_size = 64

abbrev pub update_time : ℕ
update_time = 0x495AB600

-- `qlay_file`
pub record CartridgeFile : Type 0 where
  pub name : List ℕ
  pub contents : List ℕ

abbrev pub zeros : Array
zeros j = 0

-- `file->size + QLAY_QDOS_HEADER_SIZE`
abbrev pub total_size : CartridgeFile → ℕ
total_size f = u32 (length f.contents + qdos_header_size)

-- `qlay_write_qdos_header(a + at, file)`
pub write_qdos_header : ℕ → CartridgeFile → Array → Array
write_qdos_header at f a =
    let sized = write_be32 at (total_size f) (fill at 0 qdos_header_size a) in
    let named = put (at + 16) f.name (write_be16 (at + 14) (u16 (length f.name)) sized) in
    write_be32 (at + 52) update_time named

-- `needed`, from the sizes with no wrap-around.
pub blocks_needed : List CartridgeFile → ℕ → ℕ
blocks_needed [] needed = needed
blocks_needed (f ∷ fs) needed =
    blocks_needed fs (needed + (length f.contents + qdos_header_size + data_size - 1) / data_size)

unfoldable pub image_fits : ℕ → List CartridgeFile → Bool
unfolding blocks_needed
image_fits sectors files = leb (blocks_needed files 1) (sub32 sectors 1)

-- The arrays of `qlay_render_image`, and the next sector to give away.
pub record Layout : Type 0 where
  pub directory : Array
  pub map : Array
  pub next : ℕ

-- The loop that frees the sectors from `logical` on.
pub free_sectors : ℕ → ℕ → Array → Array
free_sectors zero logical map = map
free_sectors (suc left) logical map =
    free_sectors left (logical + 1) (assign (logical * 2) free_file_id map)

-- The loop over the blocks of one file, from `block` on. Each round covers a byte at least, so as
-- many rounds as the file has bytes are enough.
pub place_blocks : ℕ → ℕ → ℕ → ℕ → Layout → Layout
place_blocks zero id total block l = l
place_blocks (suc fuel) id total block l = elim (ltb (u32 (block * data_size)) total) [
  | true ↦ place_blocks fuel id total (block + 1) (record l {
    map = assign (l.next * 2 + 1) (u8 block) (assign (l.next * 2) (u8 id) l.map);
    next = l.next + 1;
  })
  | false ↦ l
]

-- The loop over the files, with the number of the next one.
pub place_files : List CartridgeFile → ℕ → Layout → Layout
place_files [] i l = l
place_files (f ∷ fs) i l =
    let header = write_qdos_header ((i + 1) * qdos_header_size) f l.directory in
    place_files fs (i + 1)
      (place_blocks (total_size f) (i + 1) (total_size f) 0 (record l { directory = header }))

-- The directory's own sector is the first behind the map.
pub initial_layout : ℕ → ℕ → Layout
initial_layout sectors file_count = record {
  directory = write_be32 0 (u32 ((file_count + 1) * qdos_header_size)) zeros;
  map = assign 2 0 (free_sectors (sectors - 1) 1 (assign 0 map_file_id zeros));
  next = 2;
}

pub layout_files : ℕ → List CartridgeFile → Layout
unfolding initial_layout
layout_files sectors files =
    let placed = place_files files 0 (initial_layout sectors (length files)) in
    record placed { map = assign (data_size - 1) (u8 (sub32 placed.next 1)) placed.map }

-- The file with this id, the first being 1.
pub file_by_id : List CartridgeFile → ℕ → CartridgeFile
file_by_id [] id = record { name = []; contents = [] }
file_by_id (f ∷ fs) id = if id == 1 then f else file_by_id fs (id - 1)

-- The loop that copies a block of a file, from byte `i` of the block on.
pub copy_block : ℕ → ℕ → ℕ → Array → CartridgeFile → ℕ → Array → Array
copy_block zero offset header directory f i payload = payload
copy_block (suc left) offset header directory f i payload =
    elim (ltb (u32 (offset + i)) (total_size f)) [
      | true ↦
          let position = u32 (offset + i) in
          copy_block left offset header directory f (i + 1) (
            assign i
              (if ltb position qdos_header_size
                then directory (header + position)
                else byte_at f.contents (position - qdos_header_size))
              payload)
      | false ↦ payload
    ]

-- `payload` of a sector.
pub sector_payload : Layout → List CartridgeFile → ℕ → Array
sector_payload l files logical =
    let file_id = l.map (logical * 2) in
    let block = l.map (logical * 2 + 1) in
    if logical == 0
    then l.map
    else if file_id == 0
    then l.directory
    else if not (file_id == free_file_id)
    then copy_block data_size (u32 (block * data_size)) (file_id * qdos_header_size) l.directory
        (file_by_id files file_id) 0 zeros
    else zeros

-- One sector of the image, by its logical number.
pub sector_of : Layout → List ℕ → ℕ → List CartridgeFile → ℕ → List ℕ
sector_of l medium_name random_id files logical = bytes_of sector_size 0 (
    encode_sector (u8 logical) medium_name random_id (l.map (logical * 2)) (l.map (logical * 2 + 1))
      (bytes_of data_size 0 (sector_payload l files logical)))

-- `physical == 0 ? 0 : sectors - physical`
pub logical_of : ℕ → ℕ → ℕ
logical_of sectors physical = if physical == 0 then 0 else sub32 sectors physical
