-- ===== src/Qlay/Image/Stored.antt =====
-- src/qlay.c: the bytes that the image keeps of a file.
use qlvgm.Prelude.{
  ℕ, zero, suc, ◌+◌, ◌-◌, ◌*◌, ◌/◌, ◌^◌, ◌≤◌, ◌<◌, ◌≡◌, inl, inr, refl, arith, ap, sym, ◌∙◌, u32,
  ltb, ltb→lt, ltb→le, ◌==◌, ==→eq, ==→ne, Bool-cases, subst, All, List, [], ◌∷◌, length,
  if◌then◌else◌, true, ◌++◌, get_or-append, get_or-append_right, lt→ltb,
}
use qlvgm.Buffer.{byte_at}
use qlvgm.Qlay.Bytes.{Array, assign, bytes_of}
use qlvgm.Qlay.Bytes.Laws.{assign_self, assign-outside, byte_at-bytes_of, length-bytes_of}
use qlvgm.Qlay.Image.{
  CartridgeFile, total_size, write_qdos_header, blocks_needed, file_by_id, copy_block, zeros,
}
use qlvgm.Qlay.Image.Files.{IsFile, blocks_before, FileAt}

-- What the image keeps of a file: the QDOS header and the contents.
pub stored : CartridgeFile → List ℕ
stored f = bytes_of 64 0 (write_qdos_header 0 f zeros) ++ f.contents

abbrev file_byte : ℕ → Array → CartridgeFile → ℕ → ℕ
file_byte header directory f p =
    if ltb p 64 then directory (header + p) else byte_at f.contents (p - 64)

copy_block-before :
    (left offset header : ℕ) (directory : Array) (f : CartridgeFile) (i : ℕ) (payload : Array)
    (j : ℕ)
    → j < i
    → copy_block left offset header directory f i payload j ≡ payload j
unfolding copy_block
copy_block-before zero offset header directory f i payload j h = refl
copy_block-before (suc left) offset header directory f i payload j h =
    elim (Bool-cases (ltb (u32 (offset + i)) (total_size f))) [
      | inr stop ↦ rw (stop, copy_block) refl
      | inl more ↦
          rw (more, copy_block)
            (copy_block-before left offset header directory f (i + 1) _ j (omega arith)
              ∙ assign-outside i _ payload j (λ e. omega arith))
    ]

pub copy_block-at :
    (left offset header : ℕ) (directory : Array) (f : CartridgeFile) (i : ℕ) (payload : Array)
    (j : ℕ)
    → offset + j < 2 ^ 31
    → i ≤ j
    → j < i + left
    → offset + j < total_size f
    → copy_block left offset header directory f i payload j
      ≡ file_byte header directory f (offset + j)
unfolding copy_block
copy_block-at zero offset header directory f i payload j small low high inside =
    absurd (omega arith)
copy_block-at (suc left) offset header directory f i payload j small low high inside =
    let same : u32 (offset + i) ≡ offset + i = omega arith in
    let more : ltb (u32 (offset + i)) (total_size f) ≡ true = lt→ltb _ _ (omega arith) in
    rw (more, copy_block)
      (elim (Bool-cases (i == j)) [
        | inl here ↦
            let at = ==→eq i j here in
            copy_block-before left offset header directory f (i + 1) _ j (omega (arith, at))
            ∙ ap (assign i _ payload) (sym at)
            ∙ assign_self i _ payload
            ∙ ap (file_byte header directory f) (omega (arith, same, at))
        | inr past ↦
            copy_block-at left offset header directory f (i + 1) _ j small
              (omega (arith, ==→ne i j past)) (omega arith) inside
      ])

pub file_by_id-FileAt :
    (fs : List CartridgeFile) (m : ℕ) (f : CartridgeFile)
    → FileAt fs m f
    → file_by_id fs (m + 1) ≡ f
unfolding file_by_id FileAt
file_by_id-FileAt [] m f here = elim here [ ]
file_by_id-FileAt (g ∷ fs) zero f here = here
file_by_id-FileAt (g ∷ fs) (suc m) f there =
    let back : suc m + 1 - 1 ≡ m + 1 = omega arith in
    ground (arith, ap (file_by_id fs) back, file_by_id-FileAt fs m f there)

pub IsFile-FileAt :
    (fs : List CartridgeFile) (m : ℕ) (f : CartridgeFile) → All IsFile fs → FileAt fs m f → IsFile f
unfolding FileAt
IsFile-FileAt [] m f sound here = elim here [ ]
IsFile-FileAt (g ∷ fs) zero f (one, more) here = subst IsFile here one
IsFile-FileAt (g ∷ fs) (suc m) f (one, more) there = IsFile-FileAt fs m f more there

pub blocks_before-lt :
    (fs : List CartridgeFile) (m k : ℕ) (f : CartridgeFile)
    → FileAt fs m f
    → k * 512 < length f.contents + 64
    → blocks_before fs m + k < blocks_before fs (length fs)
unfolding FileAt blocks_before
blocks_before-lt [] m k f here inside = elim here [ ]
blocks_before-lt (g ∷ fs) zero k f here inside =
    omega (arith, ap (λ (x : CartridgeFile). length x.contents) here)
blocks_before-lt (g ∷ fs) (suc m) k f there inside =
    omega (arith, blocks_before-lt fs m k f there inside)

pub FileAt-lt :
    (fs : List CartridgeFile) (m : ℕ) (f : CartridgeFile) → FileAt fs m f → m < length fs
unfolding FileAt
FileAt-lt [] m f here = elim here [ ]
FileAt-lt (g ∷ fs) zero f here = omega arith
FileAt-lt (g ∷ fs) (suc m) f there = omega (arith, FileAt-lt fs m f there)

pub blocks_needed-blocks_before :
    (fs : List CartridgeFile) (n : ℕ) → blocks_needed fs n ≡ n + blocks_before fs (length fs)
unfolding blocks_needed blocks_before
blocks_needed-blocks_before [] n = omega arith
blocks_needed-blocks_before (f ∷ fs) n =
    omega (arith, blocks_needed-blocks_before fs (n + (length f.contents + 64 + 512 - 1) / 512))

abbrev pub IsNamed : CartridgeFile → Type 0
IsNamed f = length f.name ≤ 36

-- Files that fit are small.
pub fitting-IsFile :
    (fs : List CartridgeFile)
    → All IsNamed fs
    → blocks_before fs (length fs) < 2 ^ 20
    → All IsFile fs
unfolding blocks_before
fitting-IsFile [] named fits = named
fitting-IsFile (f ∷ fs) (one, more) fits =
    (record { named = one; small = omega arith }, fitting-IsFile fs more (omega arith))

-- A byte of a file behind its header, or of the header.
pub file_byte-stored :
    (header : ℕ) (directory : Array) (f : CartridgeFile) (p : ℕ)
    → ((j : ℕ) → j < 64 → directory (header + j) ≡ write_qdos_header 0 f zeros j)
    → file_byte header directory f p ≡ byte_at (stored f) p
unfolding stored
file_byte-stored header directory f p headers =
    let front = bytes_of 64 0 (write_qdos_header 0 f zeros) in
    let whole : length front ≡ 64 = length-bytes_of 64 0 (write_qdos_header 0 f zeros) in
    elim (Bool-cases (ltb p 64)) [
      | inl low ↦
          let small = ltb→lt p 64 low in
          rw low (
            headers p small
            ∙ ap (write_qdos_header 0 f zeros) (omega arith)
            ∙ sym (byte_at-bytes_of 64 0 (write_qdos_header 0 f zeros) p small)
            ∙ sym (get_or-append front f.contents p 0 (omega (arith, small, whole))))
      | inr high ↦
          let at : length front + (p - 64) ≡ p = omega (arith, whole, ltb→le p 64 high) in
          rw high (
            sym (get_or-append_right front f.contents (p - 64) 0)
            ∙ ap (byte_at (front ++ f.contents)) at)
    ]
