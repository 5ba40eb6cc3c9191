-- ===== src/Qlay/Image/Files.antt =====
-- src/qlay.c: the map entries and the directory entries of all files.
use qlvgm.Prelude.{
  ℕ, zero, suc, ◌+◌, ◌-◌, ◌*◌, ◌^◌, ◌≤◌, ◌<◌, ◌≡◌, ◌⊎◌, inl, refl, arith, ap, sym, ◌∙◌, subst, All,
  List, [], ◌∷◌, length,
}
use qlvgm.Qlay.Bytes.{Array}
use qlvgm.Qlay.Bytes.Laws.{
  put-outside, fill-outside, write_be16-outside, write_be32-outside, put-shift, write_be16-shift,
  write_be32-shift, fill-inside,
}
use qlvgm.Qlay.Image.{
  Layout, CartridgeFile, place_blocks, place_files, total_size, write_qdos_header, update_time,
}
use qlvgm.Qlay.Image.Blocks.{block_count, Entry, Placed, place_blocks-Placed}

-- A file that the image can hold: 36 bytes of name at most, and a size that the 32-bit sums bear.
pub record IsFile (f : CartridgeFile) : Type 0 where
  pub named : length f.name ≤ 36
  pub small : length f.contents < 2 ^ 30

abbrev blocks_of : CartridgeFile → ℕ
blocks_of f = block_count (length f.contents + 64)

-- The sectors that the files before the `i`-th take.
unfoldable pub blocks_before : List CartridgeFile → ℕ → ℕ
blocks_before fs zero = 0
blocks_before [] (suc i) = 0
blocks_before (f ∷ fs) (suc i) = blocks_of f + blocks_before fs i

-- The `i`-th file is `f`.
unfoldable pub FileAt : List CartridgeFile → ℕ → CartridgeFile → Type 0
FileAt [] i f = ⊥
FileAt (g ∷ fs) zero f = g ≡ f
FileAt (g ∷ fs) (suc i) f = FileAt fs i f

write_qdos_header-outside :
    (at : ℕ) (f : CartridgeFile) (a : Array) (j : ℕ)
    → length f.name ≤ 36
    → (j < at) ⊎ (at + 64 ≤ j)
    → write_qdos_header at f a j ≡ a j
unfolding write_qdos_header
write_qdos_header-outside at f a j short h =
    write_be32-outside (at + 52) update_time _ j (ground arith)
    ∙ put-outside (at + 16) f.name _ j (ground arith)
    ∙ write_be16-outside (at + 14) _ _ j (ground arith)
    ∙ write_be32-outside at _ _ j (ground arith)
    ∙ fill-outside at 0 64 a j (ground arith)

-- A QDOS header is the same wherever it stands.
write_qdos_header-shift :
    (at : ℕ) (f : CartridgeFile) (a : Array) (j : ℕ)
    → j < 64
    → write_qdos_header at f a (at + j) ≡ write_qdos_header 0 f (λ x. 0) j
unfolding write_qdos_header
write_qdos_header-shift at f a j h =
    write_be32-shift (at + 52) 52 (at + j) j update_time _ _ (omega arith) (
      put-shift (at + 16) 16 (at + j) j f.name _ _ (omega arith) (
        write_be16-shift (at + 14) 14 (at + j) j _ _ _ (omega arith) (
          write_be32-shift at 0 (at + j) j _ _ _ (omega arith) (
            fill-inside at 0 64 a (at + j) (omega arith) (omega arith)
            ∙ sym (fill-inside 0 0 64 (λ x. 0) j (omega arith) (omega arith))))))

-- What the loop over the files leaves, file `i` being the first of those that are left.
pub record AllPlaced (fs : List CartridgeFile) (i : ℕ) (l r : Layout) : Type 0 where
  pub next : r.next ≡ l.next + blocks_before fs (length fs)
  pub entries :
      (m k : ℕ) (f : CartridgeFile)
      → FileAt fs m f
      → k * 512 < length f.contents + 64
      → Entry r.map (l.next + blocks_before fs m + k) (i + m + 1) k
  pub headers :
      (m j : ℕ) (f : CartridgeFile)
      → FileAt fs m f
      → j < 64
      → r.directory ((i + m + 1) * 64 + j) ≡ write_qdos_header 0 f (λ x. 0) j
  pub outside : (j : ℕ) → (j < l.next * 2) ⊎ (r.next * 2 ≤ j) → r.map j ≡ l.map j
  pub directory_below : (j : ℕ) → j < (i + 1) * 64 → r.directory j ≡ l.directory j

pub Entry-at :
    (map : Array) (s t id id' k : ℕ) → s ≡ t → id ≡ id' → Entry map s id k → Entry map t id' k
Entry-at map s t id id' k e e' h =
    subst (λ n. Entry map n id' k) e (subst (λ n. Entry map s n k) e' h)

pub size_eq : (f : CartridgeFile) → IsFile f → total_size f ≡ length f.contents + 64
size_eq f sound = omega (arith, sound.small)

module _ (f : CartridgeFile) (fs : List CartridgeFile) (i : ℕ) (l p r : Layout) (sound : IsFile f)
    (placed : Placed
      (i + 1)
      (total_size f)
      0
      (record l { directory = write_qdos_header ((i + 1) * 64) f l.directory })
      p)
    (rest : AllPlaced fs (i + 1) p r) where
  entries-cons :
      (m k : ℕ) (g : CartridgeFile)
      → FileAt (f ∷ fs) m g
      → k * 512 < length g.contents + 64
      → Entry r.map (l.next + blocks_before (f ∷ fs) m + k) (i + m + 1) k
  unfolding blocks_before FileAt
  entries-cons zero k g here inside =
      let more : k * 512 < total_size f =
        omega (arith, size_eq f sound, ap (λ (x : CartridgeFile). length x.contents) here) in
      let (first, second) = placed.entries k (omega arith) more in
      let low : k < block_count (total_size f) = omega (arith, more) in
      Entry-at r.map (l.next + (k - 0)) (l.next + 0 + k) (i + 1) (i + 0 + 1) k (omega arith)
        (omega arith)
        (
          rest.outside ((l.next + (k - 0)) * 2) (inl (omega (arith, placed.next, low))) ∙ first,
          rest.outside ((l.next + (k - 0)) * 2 + 1) (inl (omega (arith, placed.next, low)))
              ∙ second,
        )
  entries-cons (suc m) k g there inside =
      Entry-at r.map (p.next + blocks_before fs m + k)
        (l.next + (blocks_of f + blocks_before fs m) + k) (i + 1 + m + 1) (i + suc m + 1) k
        (omega (arith, placed.next, size_eq f sound)) (omega arith)
        (rest.entries m k g there inside)

  headers-cons :
      (m j : ℕ) (g : CartridgeFile)
      → FileAt (f ∷ fs) m g
      → j < 64
      → r.directory ((i + m + 1) * 64 + j) ≡ write_qdos_header 0 g (λ x. 0) j
  unfolding FileAt
  headers-cons zero j g here low =
      let at : i + 0 + 1 ≡ i + 1 = omega arith in
      ap (λ n. r.directory (n * 64 + j)) at
      ∙ rest.directory_below ((i + 1) * 64 + j) (omega arith)
      ∙ ap (λ (a : Array). a ((i + 1) * 64 + j)) placed.directory
      ∙ write_qdos_header-shift ((i + 1) * 64) f l.directory j low
      ∙ ap (λ g. write_qdos_header 0 g (λ x. 0) j) here
  headers-cons (suc m) j g there low =
      ap (λ n. r.directory (n * 64 + j)) (omega arith) ∙ rest.headers m j g there low

pub place_files-AllPlaced :
    (fs : List CartridgeFile) (i : ℕ) (l : Layout)
    → All IsFile fs
    → AllPlaced fs i l (place_files fs i l)
unfolding place_files blocks_before FileAt
place_files-AllPlaced [] i l sound = record {
  next = omega arith;
  entries = λ m k f here. elim here [ ];
  headers = λ m j f here. elim here [ ];
  outside = λ j h. refl;
  directory_below = λ j h. refl;
}
place_files-AllPlaced (f ∷ fs) i l (one, more) =
    let l' = record l { directory = write_qdos_header ((i + 1) * 64) f l.directory } in
    let p = place_blocks (total_size f) (i + 1) (total_size f) 0 l' in
    let sized = size_eq f one in
    let placed : Placed (i + 1) (total_size f) 0 l' p =
      place_blocks-Placed (total_size f) (i + 1) (total_size f) 0 l'
        (omega (arith, sized, one.small)) (omega arith) (omega arith) in
    let rest = place_files-AllPlaced fs (i + 1) p more in
    let r = place_files fs (i + 1) p in
    record {
      next = omega (arith, rest.next, placed.next, sized);
      entries = entries-cons f fs i l p r one placed rest;
      headers = headers-cons f fs i l p r one placed rest;
      outside = λ j h.
          rest.outside j (ground (arith, rest.next, placed.next))
          ∙ placed.outside j (ground (arith, rest.next, placed.next));
      directory_below = λ j h.
          rest.directory_below j (omega arith)
          ∙ ap (λ (a : Array). a j) placed.directory
          ∙ write_qdos_header-outside ((i + 1) * 64) f l.directory j one.named (inl (omega arith));
    }
