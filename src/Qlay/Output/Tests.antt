-- ===== src/Qlay/Output/Tests.antt =====
-- The theorems on the output file at concrete inputs.
use qlvgm.Prelude.{refl, [], ◌∷◌, ◌++◌, length, true, some, ok}
use qlvgm.Os.{Os, Answer, History, write_call}
use qlvgm.Qlay.Output.{Output, output_write, output_finish}
use qlvgm.Qlay.Output.Writes.{Leaves, Same-refl, content, output_write-Leaves}
use qlvgm.Qlay.Output.Finish.{Finished, output_finish-Finished}

-- A system that writes all bytes at once.
abbrev eager_answer : History → Answer
eager_answer (write_call bytes ∷ h) = record {
  count = some (length bytes);
  errno = 0;
  mode = 0;
  regular = true;
  size = 0;
  bytes = [];
  exited = some 0;
}
eager_answer h = record {
  count = some 0;
  errno = 0;
  mode = 0;
  regular = true;
  size = 0;
  bytes = [];
  exited = some 0;
}

abbrev eager_os : Os
eager_os = record { answer = eager_answer; eintr = 4; enoent = 2; eio = 5; stack_address = 4096 }

abbrev begun : Output
begun = record {
  path = 97 ∷ [];
  temporary_path = 98 ∷ [];
  buffered = 1 ∷ 2 ∷ [];
  history = write_call (0 ∷ []) ∷ [];
}

output_write-Leaves_example :
    Leaves eager_os begun
      (content eager_os begun ++ 3 ∷ 4 ∷ [])
      (output_write eager_os 10 (3 ∷ 4 ∷ []) begun)
output_write-Leaves_example = output_write-Leaves eager_os 10 (3 ∷ 4 ∷ []) begun

output_finish-Finished_example :
    Finished eager_os begun (content eager_os begun) (output_finish eager_os 10 (ok begun))
unfolding Leaves
output_finish-Finished_example =
    output_finish-Finished eager_os 10 begun (content eager_os begun) (ok begun)
      (refl, Same-refl eager_os begun)
