-- ===== src/Package/Tests.antt =====
-- The theorem on the whole program at a concrete input.
use qlvgm.Prelude.{◌≡◌, refl, [], ◌∷◌, none, true}
use qlvgm.Os.{Os, History}
use qlvgm.Cli.{default_options}
use qlvgm.Vgm.Parse.Tests.{granted}
use qlvgm.Package.{Job, create_image}
use qlvgm.Package.Removal.{history_of, removed, create_image-removed}
use qlvgm.Os.Sample.{sample_os, sample_answer}
use qlvgm.Buffer.{empty}
use qlvgm.Qlz.Stream.{Stream}
use qlvgm.Vgm.Convert.{Converted}

-- Every file has the bytes of `a:`.
abbrev full_os : Os
full_os = sample_os (λ path. 97 ∷ 58 ∷ [])

abbrev small_job : Job
small_job = record {
  qlasm = 98 ∷ [];
  player_path = 99 ∷ [];
  output_path = 97 ∷ [];
  test_frames = 0;
  options = record default_options { force = true };
  screen = none;
}

abbrev tune_stream : Converted
tune_stream = record {
  stream = empty;
  loop_offset = 4;
  frame_count = 2;
  loop_frame_count = 1;
  clipped_values = 0;
}

abbrev small_stream : Stream
small_stream = record { raw_size = 8; contents = empty }

create_image-removed_example :
    (last : History) × (history_of
        (create_image full_os granted 5000 small_job tune_stream small_stream [])
      ≡ removed (47 ∷ 116 ∷ []) last)
unfolding sample_os sample_answer
create_image-removed_example =
    create_image-removed full_os granted 5000 small_job tune_stream small_stream [] 0 47 (116 ∷ [])
      refl refl
