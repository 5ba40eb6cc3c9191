-- ===== src/Qlay/RandomId/Tests.antt =====
-- The theorem on the random ID at a system that interrupts no call.
use qlvgm.Prelude.{arith, [], ◌∷◌, none, some, true}
use qlvgm.Os.{Os, interrupted}
use qlvgm.Os.History.{IsPatient, interruptions}
use qlvgm.Qlay.RandomId.{random_id}
use qlvgm.Qlay.RandomId.Drawn.{Drawn, random_id-Drawn}

-- Each read gives one byte.
abbrev byte_os : Os
byte_os = record {
  answer = λ h. record {
    count = some 1;
    errno = 0;
    mode = 0;
    regular = true;
    size = 0;
    bytes = 200 ∷ [];
    exited = none;
  };
  eintr = 4;
  enoent = 2;
  eio = 5;
  stack_address = 4096;
}

byte_os-IsPatient : IsPatient 0 byte_os
unfolding interruptions interrupted
byte_os-IsPatient [] = omega arith
byte_os-IsPatient (c ∷ h) = omega (arith, byte_os-IsPatient h)

random_id-Drawn_example : Drawn byte_os [] (random_id byte_os 3 [])
random_id-Drawn_example = random_id-Drawn byte_os 0 3 [] byte_os-IsPatient (omega arith)
