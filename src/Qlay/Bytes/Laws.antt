-- ===== src/Qlay/Bytes/Laws.antt =====
-- src/qlay.c: what the writes into an array leave where.
use qlvgm.Prelude.{
  ℕ, zero, suc, ◌+◌, ◌-◌, ◌*◌, ◌/◌, ◌^◌, ◌≤◌, ◌<◌, ◌≡◌, ◌⊎◌, inl, inr, refl, arith, ap, ◌∙◌, u16,
  u8,
}
use qlvgm.Prelude.{leb, leb→le, Bool-cases}
use qlvgm.Prelude.{List, length, [], ◌∷◌}
use qlvgm.Buffer.{byte_at}
use qlvgm.Qlay.Bytes.{Array, put, fill, assign, bytes_of, write_le16, write_be16, write_be32}

-- A 16-bit number in the order of `qlay_write_le16`.
abbrev pub le16_at : Array → ℕ → ℕ
le16_at a at = a at + a (at + 1) * 256

-- Two arrays have the same bytes below `n`.
abbrev pub SameBelow : ℕ → Array → Array → Type 0
SameBelow n a b = (j : ℕ) → j < n → a j ≡ b j

pub put-below : (at : ℕ) (bytes : List ℕ) (a : Array) → SameBelow at (put at bytes a) a
unfolding put
put-below at bytes a j h = ground arith

pub put-at :
    (at : ℕ) (bytes : List ℕ) (a : Array) (i : ℕ)
    → i < length bytes
    → put at bytes a (at + i) ≡ byte_at bytes i
unfolding put
put-at at bytes a i h =
    let back : at + i - at ≡ i = omega arith in ground (arith, ap (byte_at bytes) back)

pub le16_at-write_le16 : (at v : ℕ) (a : Array) → v < 2 ^ 16 → le16_at (write_le16 at v a) at ≡ v
unfolding write_le16 put
le16_at-write_le16 at v a small = ground arith

pub write_le16-below : (at v : ℕ) (a : Array) → SameBelow at (write_le16 at v a) a
unfolding write_le16
write_le16-below at v a j h = put-below at (u8 v ∷ u8 (v / 2 ^ 8) ∷ []) a j h

pub fill-below : (at value count : ℕ) (a : Array) → SameBelow at (fill at value count a) a
unfolding fill
fill-below at value count a j h = ground arith

-- Outside the range that is written nothing changes.
pub put-outside :
    (at : ℕ) (bytes : List ℕ) (a : Array) (j : ℕ)
    → (j < at) ⊎ (at + length bytes ≤ j)
    → put at bytes a j ≡ a j
unfolding put
put-outside at bytes a j h = ground arith

pub fill-outside :
    (at value count : ℕ) (a : Array) (j : ℕ)
    → (j < at) ⊎ (at + count ≤ j)
    → fill at value count a j ≡ a j
unfolding fill
fill-outside at value count a j h = ground arith

pub write_be16-outside :
    (at v : ℕ) (a : Array) (j : ℕ) → (j < at) ⊎ (at + 2 ≤ j) → write_be16 at v a j ≡ a j
unfolding write_be16
write_be16-outside at v a j h = put-outside at (u8 (v / 2 ^ 8) ∷ u8 v ∷ []) a j h

pub write_be32-outside :
    (at v : ℕ) (a : Array) (j : ℕ) → (j < at) ⊎ (at + 4 ≤ j) → write_be32 at v a j ≡ a j
unfolding write_be32 write_be16 put
write_be32-outside at v a j h = ground arith

pub assign_self : (at v : ℕ) (a : Array) → assign at v a at ≡ v
unfolding assign
assign_self at v a = ground arith

pub assign-outside : (at v : ℕ) (a : Array) (j : ℕ) → ¬ (j ≡ at) → assign at v a j ≡ a j
unfolding assign
assign-outside at v a j h = ground arith

pub length-bytes_of : (n at : ℕ) (a : Array) → length (bytes_of n at a) ≡ n
unfolding bytes_of
length-bytes_of zero at a = refl
length-bytes_of (suc n) at a = ap suc (length-bytes_of n (at + 1) a)

pub byte_at-bytes_of :
    (n at : ℕ) (a : Array) (i : ℕ) → i < n → byte_at (bytes_of n at a) i ≡ a (at + i)
unfolding bytes_of
byte_at-bytes_of zero at a i h = absurd (omega arith)
byte_at-bytes_of (suc n) at a zero h = ap a (omega arith)
byte_at-bytes_of (suc n) at a (suc i) h =
    byte_at-bytes_of n (at + 1) a i (omega arith) ∙ ap a (omega arith)

-- A write does the same at every place: `i` from `p` is as `j` from `k`.
pub put-shift :
    (p k i j : ℕ) (bytes : List ℕ) (a b : Array)
    → i + k ≡ j + p
    → a i ≡ b j
    → put p bytes a i ≡ put k bytes b j
unfolding put
put-shift p k i j bytes a b e same = elim (Bool-cases (leb p i)) [
  | inl from ↦
      let at : i - p ≡ j - k = omega (arith, leb→le p i from) in
      ground (arith, ap (byte_at bytes) at)
  | inr before ↦ ground (arith, same)
]

pub write_be16-shift :
    (p k i j v : ℕ) (a b : Array)
    → i + k ≡ j + p
    → a i ≡ b j
    → write_be16 p v a i ≡ write_be16 k v b j
unfolding write_be16
write_be16-shift p k i j v a b e same = put-shift p k i j (u8 (v / 2 ^ 8) ∷ u8 v ∷ []) a b e same

pub write_be32-shift :
    (p k i j v : ℕ) (a b : Array)
    → i + k ≡ j + p
    → a i ≡ b j
    → write_be32 p v a i ≡ write_be32 k v b j
unfolding write_be32
write_be32-shift p k i j v a b e same =
    write_be16-shift (p + 2) (k + 2) i j (u16 v) _ _ (omega arith)
      (write_be16-shift p k i j (u16 (v / 2 ^ 16)) a b e same)

pub fill-inside :
    (at value count : ℕ) (a : Array) (j : ℕ)
    → at ≤ j
    → j < at + count
    → fill at value count a j ≡ value
unfolding fill
fill-inside at value count a j low high = ground arith
