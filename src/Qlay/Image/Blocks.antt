-- ===== src/Qlay/Image/Blocks.antt =====
-- src/qlay.c: the entries of the sector map for the blocks of one file.
use qlvgm.Prelude.{
  ℕ, zero, suc, ◌+◌, ◌-◌, ◌*◌, ◌/◌, ◌^◌, ◌≤◌, ◌<◌, ◌≡◌, ◌⊎◌, inl, inr, refl, arith, sym, ◌∙◌, u32,
  u8, ltb, ltb→lt, ltb→le, ◌==◌, ==→eq, ==→ne, Bool-cases, subst,
}
use qlvgm.Qlay.Bytes.{Array, assign}
use qlvgm.Qlay.Bytes.Laws.{assign_self, assign-outside}
use qlvgm.Qlay.Sector.{data_size}
use qlvgm.Qlay.Image.{Layout, place_blocks}

-- How many blocks so many bytes take.
abbrev pub block_count : ℕ → ℕ
block_count total = (total + 511) / 512

-- The map entry of the sector `logical`.
abbrev pub Entry : Array → ℕ → ℕ → ℕ → Type 0
Entry map logical id block = (map (logical * 2) ≡ u8 id) × (map (logical * 2 + 1) ≡ u8 block)

-- From block `block` on, the sectors from `l.next` on are the blocks of the file `id`.
pub record Placed (id total block : ℕ) (l r : Layout) : Type 0 where
  pub next : r.next ≡ l.next + (block_count total - block)
  pub directory : r.directory ≡ l.directory
  pub entries : (k : ℕ) → block ≤ k → k * 512 < total → Entry r.map (l.next + (k - block)) id k
  pub outside : (j : ℕ) → (j < l.next * 2) ⊎ (r.next * 2 ≤ j) → r.map j ≡ l.map j

abbrev with_block : ℕ → ℕ → Layout → Layout
with_block id block l = record l {
  map = assign (l.next * 2 + 1) (u8 block) (assign (l.next * 2) (u8 id) l.map);
  next = l.next + 1;
}

with_block-outside :
    (id block : ℕ) (l : Layout) (j : ℕ)
    → (j < l.next * 2) ⊎ (l.next * 2 + 2 ≤ j)
    → (with_block id block l).map j ≡ l.map j
with_block-outside id block l j h =
    assign-outside _ _ _ j (λ e. ground arith) ∙ assign-outside _ _ _ j (λ e. ground arith)

with_block-Entry : (id block : ℕ) (l : Layout) → Entry (with_block id block l).map l.next id block
with_block-Entry id block l =
    (assign-outside _ _ _ _ (λ e. omega arith) ∙ assign_self _ _ _, assign_self _ _ _)

pub place_blocks-Placed :
    (fuel id total block : ℕ) (l : Layout)
    → total < 2 ^ 31
    → block ≤ block_count total
    → total ≤ block * 512 + fuel
    → Placed id total block l (place_blocks fuel id total block l)
unfolding place_blocks
place_blocks-Placed zero id total block l small low enough = record {
  next = omega arith;
  directory = refl;
  entries = λ k h more. absurd (omega arith);
  outside = λ j h. refl;
}
place_blocks-Placed (suc fuel) id total block l small low enough =
    elim (Bool-cases (ltb (u32 (block * data_size)) total)) [
      | inr stop ↦
          rw (stop, place_blocks)
            (record {
              next = omega (arith, ltb→le _ _ stop);
              directory = refl;
              entries = λ k h more. absurd (omega (arith, ltb→le _ _ stop));
              outside = λ j h. refl;
            })
      | inl more ↦
          let l' = with_block id block l in
          let here : block * 512 < total = omega (arith, ltb→lt _ _ more) in
          let rest =
            place_blocks-Placed fuel id total (block + 1) l' small (omega arith) (omega arith) in
          rw (more, place_blocks)
            (record {
              next = omega (arith, rest.next);
              directory = rest.directory;
              entries = λ k h inside. elim (Bool-cases (k == block)) [
                | inr other ↦
                    let past : block + 1 ≤ k = omega (arith, ==→ne k block other) in
                    let same : l.next + 1 + (k - (block + 1)) ≡ l.next + (k - block) =
                      omega arith in
                    subst (λ s. Entry (place_blocks fuel id total (block + 1) l').map s id k) same
                      (rest.entries k past inside)
                | inl same ↦
                    let r = place_blocks fuel id total (block + 1) l' in
                    let (first, second) = with_block-Entry id block l in
                    let kept : Entry r.map l.next id block = (
                      rest.outside (l.next * 2) (inl (omega arith)) ∙ first,
                      rest.outside (l.next * 2 + 1) (inl (omega arith)) ∙ second,
                    ) in
                    let at : l.next ≡ l.next + (k - block) = omega (arith, ==→eq k block same) in
                    subst (λ n. Entry r.map (l.next + (k - block)) id n) (sym (==→eq k block same))
                      (subst (λ s. Entry r.map s id block) at kept)
              ];
              outside = λ j h.
                  rest.outside j (ground (arith, rest.next))
                  ∙ with_block-outside id block l j (ground (arith, rest.next));
            })
    ]
