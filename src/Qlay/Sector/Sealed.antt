-- ===== src/Qlay/Sector/Sealed.antt =====
-- src/qlay.c: the bytes and the checksums of an encoded sector.
use qlvgm.Prelude.{
  ℕ, zero, suc, ◌+◌, ◌*◌, ◌%◌, ◌^◌, ◌≤◌, ◌<◌, ◌≡◌, refl, arith, ap, ap₂, sym, ◌∙◌, u16, u32,
}
use qlvgm.Prelude.{List, length, bit_and}
use qlvgm.Prelude.Bits.{bit_and-mask}
use qlvgm.Buffer.{byte_at}
use qlvgm.Qlay.Bytes.{Array, write_le16}
use qlvgm.Qlay.Bytes.Laws.{
  le16_at, SameBelow, put-below, put-at, fill-below, le16_at-write_le16, write_le16-below,
}
use qlvgm.Qlay.Sector.{
  checksum_loop, checksum, sector_header, block_header, data_block, encode_sector,
}

checksum_loop-same :
    (a b : Array) (left at sum n : ℕ)
    → SameBelow n a b
    → at + left ≤ n
    → checksum_loop a left at sum ≡ checksum_loop b left at sum
unfolding checksum_loop
checksum_loop-same a b zero at sum n h fits = refl
checksum_loop-same a b (suc left) at sum n h fits =
    rw (h at (omega arith))
      (checksum_loop-same a b left (at + 1) (bit_and (u32 (sum + b at)) 65535) n h (omega arith))

checksum-same :
    (a b : Array) (at size n : ℕ)
    → SameBelow n a b
    → at + size ≤ n
    → checksum a at size ≡ checksum b at size
unfolding checksum
checksum-same a b at size n h fits = ap u16 (checksum_loop-same a b size at 0x0F0F n h fits)

checksum-bound : (a : Array) (at size : ℕ) → checksum a at size < 2 ^ 16
unfolding checksum
checksum-bound a at size = omega arith

-- A checksum that is written behind its range seals it, as long as later writes stay behind.
sealed :
    (a s : Array) (at size end : ℕ)
    → at + size ≤ end
    → SameBelow (end + 2) s (write_le16 end (checksum a at size) a)
    → le16_at s end ≡ checksum s at size
sealed a s at size end fits same =
    let c = checksum a at size in
    let there = le16_at-write_le16 end c a (checksum-bound a at size) in
    let unread : SameBelow end s a =
      λ j h. same j (omega (arith, h)) ∙ write_le16-below end c a j h in
    ap₂ (λ (x y : ℕ). x + y * 256) (same end (omega arith)) (same (end + 1) (omega arith))
    ∙ there
    ∙ sym (checksum-same s a at size end unread fits)

pub block_header-below :
    (file_id block : ℕ) (a : Array) → SameBelow 38 (block_header file_id block a) a
unfolding block_header
block_header-below file_id block a j h =
    write_le16-below 42 _ _ j (omega arith)
    ∙ put-below 40 _ _ j (omega arith)
    ∙ put-below 38 _ _ j h

pub data_block-below : (payload : List ℕ) (a : Array) → SameBelow 50 (data_block payload a) a
unfolding data_block
data_block-below payload a j h =
    write_le16-below 564 _ _ j (omega arith)
    ∙ put-below 52 payload _ j (omega arith)
    ∙ put-below 50 _ _ j h

-- Whatever is put into a sector: its three stored checksums are those of the 14 bytes of the sector
-- header, the 2 bytes of the block header and the 512 bytes of data that the sector then holds.
pub encode_sector-IsSealed :
    (logical random_id file_id block : ℕ) (medium_name payload : List ℕ)
    → let s = encode_sector logical medium_name random_id file_id block payload in
      (le16_at s 26 ≡ checksum s 12 14)
      × (le16_at s 42 ≡ checksum s 40 2)
      × (le16_at s 564 ≡ checksum s 52 512)
unfolding encode_sector
encode_sector-IsSealed logical random_id file_id block medium_name payload =
    let h = sector_header logical medium_name random_id (λ j. 0) in
    let b = block_header file_id block h in
    let d = data_block payload b in
    let filled = fill-below 566 0x5A 120 d in
    (
      unfold sector_header in
          sealed _ _ 12 14 26 (omega arith) (λ j low.
            filled j (omega arith)
            ∙ data_block-below payload b j (omega arith)
            ∙ block_header-below file_id block h j (omega arith)),
      unfold block_header in
          sealed _ _ 40 2 42 (omega arith)
            (λ j low. filled j (omega arith) ∙ data_block-below payload b j (omega arith)),
      unfold data_block in sealed _ _ 52 512 564 (omega arith) (λ j low. filled j (omega arith)),
    )

-- An encoded sector holds the payload, of 512 bytes, from its byte 52 on.
pub encode_sector-payload :
    (logical random_id file_id block i : ℕ) (medium_name payload : List ℕ)
    → length payload ≡ 512
    → i < 512
    → encode_sector logical medium_name random_id file_id block payload (52 + i) ≡ byte_at payload i
unfolding encode_sector
encode_sector-payload logical random_id file_id block i medium_name payload whole low =
    let h = sector_header logical medium_name random_id (λ j. 0) in
    let b = block_header file_id block h in
    fill-below 566 0x5A 120 (data_block payload b) (52 + i) (omega arith)
    ∙ (unfold data_block in
        write_le16-below 564 _ _ (52 + i) (omega arith)
        ∙ put-at 52 payload _ i (omega (arith, whole)))

-- The bytes from `at` on, added up.
pub total : Array → ℕ → ℕ → ℕ
total a zero at = 0
total a (suc left) at = a at + total a left (at + 1)

checksum_loop-total :
    (a : Array) (left at sum : ℕ)
    → ((j : ℕ) → a j < 256)
    → sum < 2 ^ 16
    → checksum_loop a left at sum ≡ (sum + total a left at) % 2 ^ 16
unfolding checksum_loop total
checksum_loop-total a zero at sum small low = omega arith
checksum_loop-total a (suc left) at sum small low =
    let next = bit_and (u32 (sum + a at)) 65535 in
    let kept : next ≡ (sum + a at) % 2 ^ 16 =
      omega (arith, bit_and-mask 16 (u32 (sum + a at)), small at) in
    omega (arith, kept, checksum_loop-total a left (at + 1) next small (omega (arith, kept)))

-- Of an array of bytes, the checksum of a range is the seed 0x0F0F and the sum of the range, modulo
-- 2 ^ 16.
pub checksum-total :
    (a : Array) (at size : ℕ)
    → ((j : ℕ) → a j < 256)
    → checksum a at size ≡ (0x0F0F + total a size at) % 2 ^ 16
unfolding checksum
checksum-total a at size small =
    omega (arith, checksum_loop-total a size at 0x0F0F small (omega arith))
