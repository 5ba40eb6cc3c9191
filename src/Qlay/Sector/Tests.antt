-- ===== src/Qlay/Sector/Tests.antt =====
-- The theorems on sectors at concrete inputs.
use qlvgm.Prelude.{ℕ, ◌+◌, ◌%◌, ◌^◌, ◌≡◌, arith, List, replicate}
use qlvgm.Qlay.Bytes.{Array}
use qlvgm.Qlay.Bytes.Laws.{le16_at}
use qlvgm.Qlay.Sector.{checksum, encode_sector}
use qlvgm.Qlay.Sector.Sealed.{total, checksum-total, encode_sector-IsSealed}

abbrev name : List ℕ
name = replicate 10 0x20

abbrev payload : List ℕ
payload = replicate 512 7

encode_sector-IsSealed_example :
    let s = encode_sector 3 name 0x1234 1 2 payload in
    (le16_at s 26 ≡ checksum s 12 14)
    × (le16_at s 42 ≡ checksum s 40 2)
    × (le16_at s 564 ≡ checksum s 52 512)
encode_sector-IsSealed_example = encode_sector-IsSealed 3 0x1234 1 2 name payload

abbrev sevens : Array
sevens j = 7

checksum-total_example : checksum sevens 12 14 ≡ (0x0F0F + total sevens 14 12) % 2 ^ 16
checksum-total_example = checksum-total sevens 12 14 (λ j. omega arith)
