-- ===== src/Qlz/Write/Matches.antt =====
-- src/qlz.c: what `qlz_write_match` adds to the payload, and the weight of a match.
use qlvgm.Prelude.{
  ℕ, ◌+◌, ◌-◌, ◌^◌, ◌≤◌, ◌<◌, ◌≡◌, arith, ap, inl, inr, Bool, true, false, List, ◌++◌, length,
  length-append,
}
use qlvgm.Prelude.Int.{sub_ℕ}
use qlvgm.Buffer.{ByteBuffer}
use qlvgm.Buffer.Laws.{IsWellFormed, Wrote}
use qlvgm.Qlz.Match.{Match, match_saving}
use qlvgm.Qlz.Match.Choice.{encoded, match_packets_lem, match_saving_lem}
use qlvgm.Qlz.Write.{write_match}
use qlvgm.Qlz.Write.Bytes.{match_bytes, write_match-Appends}
use qlvgm.Qlz.Write.Sizes.{length-match_bytes}

Wrote-bytes :
    (b : ByteBuffer) (xs : List ℕ) (r : ByteBuffer × Bool)
    → Wrote b xs r
    → r.1 ≡ true
    → r.0.bytes ≡ b.bytes ++ xs
Wrote-bytes b xs r (inl (done, same, fine)) ends = same
Wrote-bytes b xs r (inr (failed, rest)) ends = absurd (cc)

-- With an allocator that grants every request, into a well-formed buffer that has not failed, with room
-- for 66 bytes more than the match is long in 32 bits, `write_match` succeeds for a match of at least 3
-- bytes; and `match_saving`, by which the finder weighs it, is the length of the match less the number
-- of bytes that the buffer has gained.
pub write_match-saving :
    (grants : ℕ → Bool) (b : ByteBuffer) (m : Match)
    → ((n : ℕ) → grants n ≡ true)
    → IsWellFormed b
    → b.failed ≡ false
    → 3 ≤ m.length
    → b.size + m.length + 66 < 2 ^ 32
    → let r = write_match grants b m in
      (r.1 ≡ true) × (match_saving m ≡ sub_ℕ m.length (length r.0.bytes - length b.bytes))
write_match-saving grants b m all sound fine three room =
    let r = write_match grants b m in
    let a = write_match-Appends grants b m in
    let packets = match_packets_lem m.length (omega (arith, room)) in
    let size = length-match_bytes m three (omega (arith, room)) in
    let few : length (match_bytes m) ≤ m.length + 3 = ground (arith, packets, size) in
    let (ends, later, more) = a.accepts all sound fine (omega (arith, few, room)) in
    let gained : length r.0.bytes - length b.bytes ≡ encoded m = omega (
      arith,
      ap length (Wrote-bytes b (match_bytes m) r a.wrote ends),
      length-append b.bytes (match_bytes m),
      size,
    ) in
    (ends, rw gained (match_saving_lem m three))
