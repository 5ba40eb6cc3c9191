-- ===== src/Runtime/Tests.antt =====
-- The theorem on files at a concrete input.
use Prim.Native.Nat.{min}
use qlvgm.Prelude.{
  ℕ, ◌+◌, ◌-◌, ◌≡◌, refl, arith, ap, ap₂, sym, ◌∙◌, List, [], ◌∷◌, take, drop, true, some,
}
use qlvgm.Os.{Os, Answer, History, open_call, read_call, interrupted}
use qlvgm.Os.History.{IsPatient, interruptions}
use qlvgm.Runtime.{read_file}
use qlvgm.Runtime.Contents.{position, read_by, after_reads, Holds, Reads, read_file-Reads}

abbrev three_bytes : List ℕ
three_bytes = 7 ∷ 8 ∷ 9 ∷ []

-- Where the next read starts.
offset : History → ℕ
offset [] = 0
offset (open_call path ∷ h) = 0
offset (read_call k ∷ h) = offset h + min k (3 - offset h)
offset (c ∷ h) = offset h

-- What the file that was opened last has: a name of one letter names these three bytes.
last_file : History → List ℕ
last_file [] = []
last_file (open_call (c ∷ []) ∷ h) = three_bytes
last_file (open_call path ∷ h) = 1 ∷ 2 ∷ 3 ∷ []
last_file (c ∷ h) = last_file h

-- A system with these files.
file_answer : History → Answer
file_answer (read_call k ∷ h) = record {
  count = some (min k (3 - offset h));
  errno = 0;
  mode = 0;
  regular = true;
  size = 3;
  bytes = take (min k (3 - offset h)) (drop (offset h) (last_file h));
  exited = some 0;
}
file_answer h = record {
  count = some 0;
  errno = 0;
  mode = 0;
  regular = true;
  size = 3;
  bytes = [];
  exited = some 0;
}

abbrev file_os : Os
file_os = record { answer = file_answer; eintr = 4; enoent = 2; eio = 5; stack_address = 4096 }

position-offset : (h : History) → position file_os h ≡ offset h
unfolding position read_by offset file_answer
position-offset [] = refl
position-offset (open_call path ∷ h) = refl
position-offset (read_call k ∷ h) = ap (λ p. p + min k (3 - offset h)) (position-offset h)
position-offset (c ∷ h) = position-offset h

some_injective : (m n : ℕ) → some m ≡ some n → m ≡ n
some_injective m n e = cc

last_file-after_reads : (asked : List ℕ) → last_file (after_reads (97 ∷ []) asked []) ≡ three_bytes
unfolding last_file
last_file-after_reads [] = refl
last_file-after_reads (k ∷ asked) = last_file-after_reads asked

file_os-Holds : Holds file_os (97 ∷ []) three_bytes []
unfolding file_answer
file_os-Holds = record {
  sized = refl;
  reads = λ asked k n e.
      let h = after_reads (97 ∷ []) asked [] in
      let same : min k (3 - offset h) ≡ n = some_injective _ _ e in
      (
        omega (arith, same),
        ap₂ (λ m f. take m (drop (offset h) f)) same (last_file-after_reads asked)
            ∙ ap (λ p. take n (drop p three_bytes)) (sym (position-offset h)),
      );
}

file_os-IsPatient : IsPatient 0 file_os
unfolding interruptions interrupted file_answer
file_os-IsPatient [] = omega arith
file_os-IsPatient (read_call k ∷ h) = omega (arith, file_os-IsPatient h)
file_os-IsPatient (c ∷ h) = omega (arith, file_os-IsPatient h)

read_file-Reads_example : Reads three_bytes (read_file file_os (λ size. true) 20000000 (97 ∷ []) [])
read_file-Reads_example =
    read_file-Reads file_os (97 ∷ []) three_bytes 0 [] file_os-Holds file_os-IsPatient
      (λ size. true) 20000000 (omega arith)
