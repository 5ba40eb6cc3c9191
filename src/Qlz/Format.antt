-- ===== src/Qlz/Format.antt =====
-- The QLZ1 packet format as README.md describes it, apart from the code: what each packet is in
-- bytes, and what it makes of the output so far.
pub mod Copies
use qlvgm.Prelude.{ℕ, zero, suc, ◌+◌, ◌-◌, ◌*◌, ◌/◌, ◌%◌, ◌≤◌, ◌<◌, ◌≡◌, refl, Bool, true, false}
use qlvgm.Prelude.{List, [], ◌∷◌, ◌++◌, length, append_assoc, append-nil, sym, subst}
use qlvgm.Buffer.{byte_at}

-- The output, the distance of the last match, and whether a continuation may follow.
pub record Window : Type 0 where
  pub out : List ℕ
  pub distance : ℕ
  pub is_open : Bool

-- The window before any packet.
abbrev pub opening : Window
opening = record { out = []; distance = 0; is_open = false }

-- `count` bytes from `distance` back, one at a time, so that a match may overlap its output.
unfoldable pub copy : ℕ → ℕ → List ℕ → List ℕ
copy zero distance out = out
copy (suc count) distance out =
    copy count distance (out ++ (byte_at out (length out - distance) ∷ []))

abbrev pub matched : ℕ → ℕ → Window → Window
matched code distance w = record {
  out = copy (code + 3) distance w.out;
  distance = distance;
  is_open = true;
}

pub data Packet (w : Window) : List ℕ → Window → Type 0 where
  literal :
      (xs : List ℕ)
      → 1 ≤ length xs
      → length xs ≤ 64
      → Packet w
          ((length xs - 1) ∷ xs)
          (record { out = w.out ++ xs; distance = w.distance; is_open = false })
  short :
      (code byte : ℕ)
      → code < 64
      → byte < 256
      → byte + 1 ≤ length w.out
      → Packet w ((64 + code) ∷ byte ∷ []) (matched code (byte + 1) w)
  long :
      (code distance : ℕ)
      → code < 64
      → 1 ≤ distance
      → distance < 65536
      → distance ≤ length w.out
      → Packet w ((128 + code) ∷ (distance / 256) ∷ (distance % 256) ∷ []) (matched code distance w)
  continuation :
      (code : ℕ)
      → code < 64
      → w.is_open ≡ true
      → w.distance ≤ length w.out
      → Packet w ((192 + code) ∷ []) (matched code w.distance w)

pub data Run : Window → List ℕ → Window → Type 0 where
  done : {w : Window} → Run w [] w
  next :
      {w v u : Window} {bytes rest : List ℕ}
      → Packet w bytes v
      → Run v rest u
      → Run w (bytes ++ rest) u

pub Run-append : {w v u : Window} {xs ys : List ℕ} → Run w xs v → Run v ys u → Run w (xs ++ ys) u
Run-append done r = r
Run-append {u = u} {ys = ys} (next {w = w} {bytes = bytes} {rest = rest} p q) r =
    subst (λ zs. Run w zs u) (sym (append_assoc bytes rest ys)) (next p (Run-append q r))
