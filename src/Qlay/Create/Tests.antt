-- ===== src/Qlay/Create/Tests.antt =====
-- The theorems on whole images at concrete inputs.
use qlvgm.Prelude.{
  ℕ, ◌+◌, ◌-◌, ◌*◌, ◌<◌, ◌≡◌, refl, arith, List, [], ◌∷◌, replicate, true, false, none, some,
}
use qlvgm.Buffer.{byte_at}
use qlvgm.Os.{Os, Answer, History, write_call, lstat_call, interrupted}
use qlvgm.Os.Plain.{Plain-refl}
use qlvgm.Os.History.{IsPatient, interruptions}
use qlvgm.Qlay.Image.{CartridgeFile, image_fits}
use qlvgm.Qlay.Image.Files.{blocks_before, FileAt}
use qlvgm.Qlay.Image.Stored.{stored}
use qlvgm.Qlay.Create.{write_image}
use qlvgm.Qlay.Create.Bytes.{image_bytes, image_bytes-stored}
use qlvgm.Qlay.Create.Safety.{Ended, write_image-Ended, Allowed, write_image-Allowed}
use qlvgm.Qlay.Create.Answers.{Answered, write_image-Answered}

abbrev medium : List ℕ
medium = replicate 10 0x20

abbrev boot : CartridgeFile
boot = record { name = 98 ∷ 111 ∷ 111 ∷ 116 ∷ []; contents = 1 ∷ 2 ∷ 3 ∷ [] }

abbrev program : CartridgeFile
program = record { name = 112 ∷ []; contents = 7 ∷ 8 ∷ 9 ∷ 10 ∷ [] }

abbrev two_files : List CartridgeFile
two_files = boot ∷ program ∷ []

abbrev target : List ℕ
target = 97 ∷ []

-- A system that writes one byte at a time and has no file.
abbrev answer_of : History → Answer
answer_of [] = record {
  count = some 0;
  errno = 0;
  mode = 0;
  regular = true;
  size = 0;
  bytes = [];
  exited = some 0;
}
answer_of (lstat_call path ∷ h) = record {
  count = none;
  errno = 2;
  mode = 0;
  regular = true;
  size = 0;
  bytes = [];
  exited = some 0;
}
answer_of (write_call bytes ∷ h) = record {
  count = some 1;
  errno = 0;
  mode = 0;
  regular = true;
  size = 0;
  bytes = [];
  exited = some 0;
}
answer_of (c ∷ h) = record {
  count = some 0;
  errno = 0;
  mode = 0;
  regular = true;
  size = 0;
  bytes = 116 ∷ [];
  exited = some 0;
}

abbrev slow_os : Os
slow_os = record { answer = answer_of; eintr = 4; enoent = 2; eio = 5; stack_address = 4096 }

image_bytes-stored_example :
    let logical = 2 + blocks_before two_files 1 + 0 in
    let at = (200 - logical) * 686 in
    let image = image_bytes 200 medium 0x1234 two_files in
    (logical < 200)
    × (byte_at image (at + 13) ≡ logical)
    × (byte_at image (at + 40) ≡ 1 + 1)
    × (byte_at image (at + 41) ≡ 0)
    × (byte_at image (at + (52 + 65)) ≡ byte_at (stored program) (0 * 512 + 65))
unfolding image_fits FileAt
image_bytes-stored_example =
    image_bytes-stored 200 0x1234 medium two_files 1 0 65 program (omega arith) (omega arith)
      (omega arith) (omega arith, (omega arith, tt)) refl refl (omega arith) (omega arith)

write_image-Ended_example :
    Ended slow_os target
      (image_bytes 200 medium 0x1234 two_files)
      (write_image slow_os 5000 target false 200 medium 0x1234 two_files [])
write_image-Ended_example =
    write_image-Ended slow_os 5000 target false 200 0x1234 medium two_files []
      (Plain-refl slow_os [])

write_image-Allowed_example :
    Allowed slow_os target false 200 two_files []
      (write_image slow_os 5000 target false 200 medium 0x1234 two_files [])
write_image-Allowed_example =
    write_image-Allowed slow_os 5000 target false 200 0x1234 medium two_files []

slow_os-IsPatient : IsPatient 0 slow_os
unfolding interruptions interrupted
slow_os-IsPatient [] = omega arith
slow_os-IsPatient (lstat_call path ∷ h) = omega (arith, slow_os-IsPatient h)
slow_os-IsPatient (write_call bytes ∷ h) = omega (arith, slow_os-IsPatient h)
slow_os-IsPatient (c ∷ h) = omega (arith, slow_os-IsPatient h)

write_image-Answered_example :
    Answered (write_image slow_os 5000 target false 200 medium 0x1234 two_files [])
write_image-Answered_example =
    write_image-Answered slow_os 0 5000 target false 200 0x1234 medium two_files slow_os-IsPatient
      (omega arith)
