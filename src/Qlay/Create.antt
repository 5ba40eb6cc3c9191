-- ===== src/Qlay/Create.antt =====
-- src/qlay.c: `qlay_render_image` and `qlay_write_image`. A file's name and bytes are lists.
pub mod Bytes
pub mod Safety
pub mod Rounds
pub mod Answers
mod Tests
use qlvgm.Prelude.{
  ℕ, zero, suc, ◌+◌, ◌*◌, ltb, ◌==◌, Bool, true, false, not, ◌&&◌, ◌||◌, if◌then◌else◌,
}
use qlvgm.Prelude.{List, [], ◌∷◌, ◌++◌, length, sub32, ok, err, Result, ◌>>=◌, ◌>>◌, fail_if}
use qlvgm.Os.{Os, History}
use qlvgm.Qlay.Image.{
  CartridgeFile, Layout, layout_files, sector_of, logical_of, image_fits, blocks_needed,
}
use qlvgm.Qlay.Output.{
  Output, Step, ImageError, bad_sectors, bad_file_count, bad_name, capacity_exceeded, output_write,
  output_begin, output_finish, with_output,
}

abbrev min_sectors : ℕ
min_sectors = 200

abbrev max_sectors : ℕ
max_sectors = 255

abbrev max_files : ℕ
max_files = 3

abbrev qdos_name_size : ℕ
qdos_name_size = 36

-- The loop over the sectors that are left, from `physical` on.
pub write_sectors : Os → ℕ → ℕ → List ℕ → ℕ → List CartridgeFile → Layout → ℕ → ℕ → Output → Step
write_sectors os rounds sectors medium_name random_id files l zero physical o = ok o
write_sectors os rounds sectors medium_name random_id files l (suc left) physical o =
    output_write os rounds (sector_of l medium_name random_id files (logical_of sectors physical)) o
    >>= λ o'. write_sectors os rounds sectors medium_name random_id files l left (physical + 1) o'

pub render_image : Os → ℕ → ℕ → List ℕ → ℕ → List CartridgeFile → Output → Step
render_image os rounds sectors medium_name random_id files o =
    write_sectors os rounds sectors medium_name random_id files (layout_files sectors files) sectors
      0 o

-- The test of the names.
pub bad_names : List CartridgeFile → Bool
bad_names [] = false
bad_names (f ∷ fs) =
    let rest = bad_names fs in
    if length f.name == 0 || ltb qdos_name_size (length f.name) then true else rest

pub image_checks : ℕ → List CartridgeFile → Result ImageError (Unit {0})
image_checks sectors files =
    fail_if (ltb sectors min_sectors || ltb max_sectors sectors) bad_sectors
    >> fail_if (length files == 0 || ltb max_files (length files)) bad_file_count
    >> fail_if (bad_names files) bad_name
    >> fail_if (not (image_fits sectors files))
        (capacity_exceeded (blocks_needed files 1) (sub32 sectors 1))

pub write_image :
    Os
    → ℕ
    → List ℕ
    → Bool
    → ℕ
    → List ℕ
    → ℕ
    → List CartridgeFile
    → History
    → Result (ImageError × Output) Output
write_image os rounds path force sectors medium_name random_id files h =
    let unopened : Output = record {
      path = path;
      temporary_path = [];
      buffered = [];
      history = h;
    } in
    with_output (image_checks sectors files) unopened >>= λ u. output_begin os path force h >>= λ o.
    output_finish os rounds (render_image os rounds sectors medium_name random_id files o)
