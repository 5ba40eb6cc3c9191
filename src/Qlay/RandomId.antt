-- ===== src/Qlay/RandomId.antt =====
-- src/qlay.c: `qlay_random_id`, on a host that stores the low byte of a number first.
pub mod Drawn
mod Tests
use Prim.Native.Nat.{bit_xor}
use qlvgm.Prelude.{
  ℕ, zero, suc, ◌+◌, ◌-◌, ◌*◌, ◌/◌, ◌^◌, ◌≤◌, ◌<◌, ◌≡◌, refl, arith, ltb, ◌==◌, if◌then◌else◌, Bool,
  true, false,
}
use qlvgm.Prelude.{
  Option, none, some, List, [], ◌∷◌, ◌++◌, length, get_or, u16, u64, Result, ok, err, ◌>>=◌,
  Bool-cases, inl, inr,
}
use qlvgm.Os.{
  open_call, read_call, close_call, time_call, getpid_call, Answer, History, Os, interrupted,
}

-- "/dev/urandom"
abbrev random_path : List ℕ
random_path = 47 ∷ 100 ∷ 101 ∷ 118 ∷ 47 ∷ 117 ∷ 114 ∷ 97 ∷ 110 ∷ 100 ∷ 111 ∷ 109 ∷ []

-- `sizeof value`
abbrev value_bytes : ℕ
value_bytes = 2

-- The loop is not cut short by the code: this stands for a loop that never ends.
pub data RandomError : Type 0 where
  never_ends : RandomError

pub random_mix : ℕ → ℕ
random_mix value =
    let a = bit_xor value (value / 2 ^ 30) in
    let b = u64 (a * 0xBF58476D1CE4E5B9) in
    let c = bit_xor b (b / 2 ^ 27) in let d = u64 (c * 0x94D049BB133111EB) in bit_xor d (d / 2 ^ 31)

-- `while (done < sizeof value)`: the bytes that were read, or nothing when they did not all come.
pub read_random :
    Os → ℕ → ℕ → List ℕ → History → Result (RandomError × History) (Option (List ℕ) × History)
read_random os zero left bytes h = err (never_ends, h)
read_random os (suc rounds) zero bytes h = ok (some bytes, h)
read_random os (suc rounds) (suc left) bytes h =
    let asked = read_call (suc left) ∷ h in
    elim (os.answer asked).count [
      | none ↦ elim ((os.answer asked).errno == os.eintr) [
        | true ↦ read_random os rounds (suc left) bytes asked
        | false ↦ ok (none, asked)
      ]
      | some zero ↦ ok (none, asked)
      | some (suc n) ↦ read_random os rounds (left - n) (bytes ++ (os.answer asked).bytes) asked
    ]

-- The number that a call returns, with -1 on 64 bits.
abbrev returned : Answer → ℕ
returned a = elim a.count [ none ↦ 2 ^ 64 - 1 | some n ↦ n ]

-- Without the system's entropy: the time, the process and an address, mixed.
pub mixed_id : Os → History → ℕ × History
mixed_id os h =
    let timed = time_call ∷ h in
    let asked = getpid_call ∷ timed in
    let time = u64 (returned (os.answer timed)) in
    let process = u64 (returned (os.answer asked) * 2 ^ 32) in
    let mixed = random_mix (bit_xor (bit_xor time process) os.stack_address) in
    (
      u16 (bit_xor (bit_xor (bit_xor mixed (mixed / 2 ^ 16)) (mixed / 2 ^ 32)) (mixed / 2 ^ 48)),
      asked,
    )

-- Behind the loop. The value of the bytes is that of a number of 16 bits in their place.
pub after_read : Os → Option (List ℕ) × History → ℕ × History
after_read os (some bytes, h) = (u16 (get_or bytes 0 0 + get_or bytes 1 0 * 2 ^ 8), close_call ∷ h)
after_read os (none, h) = mixed_id os (close_call ∷ h)

pub random_id : Os → ℕ → History → Result (RandomError × History) (ℕ × History)
random_id os rounds h =
    let asked = open_call random_path ∷ h in
    elim (os.answer asked).count [
      | none ↦ ok (mixed_id os asked)
      | some fd ↦ read_random os rounds value_bytes [] asked >>= λ read. ok (after_read os read)
    ]
