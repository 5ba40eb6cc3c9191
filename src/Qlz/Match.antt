-- ===== src/Qlz/Match.antt =====
-- src/qlz.c: the hash chains, the match finder and the choice between a short and a long match.
pub mod Finder
pub mod Choice
use qlvgm.Prelude.{ℕ, zero, suc, ◌+◌, ◌-◌, ◌*◌, ◌/◌, ◌%◌, ◌^◌, bit_and, ltb, leb, ◌==◌}
use qlvgm.Prelude.{if◌then◌else◌, Bool, true, false, ◌&&◌, ◌||◌, Option, none, some, List}
use qlvgm.Prelude.{length, u32, sub32, not}
use qlvgm.Prelude.Int.{ℤ, pos, negsuc, sub_ℕ, ltb_ℤ, ◌+ℤ◌}
use qlvgm.Buffer.{byte_at}

abbrev pub hash_count : ℕ
hash_count = 65536

abbrev pub chain_limit : ℕ
chain_limit = 256

abbrev pub max_distance : ℕ
max_distance = 65535

abbrev pub match_min : ℕ
match_min = 3

abbrev pub match_max : ℕ
match_max = 66

-- `qlz_match`; all zero stands for no match.
pub record Match : Type 0 where
  pub distance : ℕ
  pub length : ℕ

abbrev pub no_match : Match
no_match = record { distance = 0; length = 0 }

-- An array of int32_t by its indices; `none` is a negative entry, such as the initial -1.
abbrev pub Links : Type 0
Links = ℕ → Option ℕ

abbrev pub no_links : Links
no_links i = none

-- `links[i] = value`
abbrev pub link : Links → ℕ → Option ℕ → Links
link links i value j = if j == i then value else links j

-- `(int32_t)position`
pub to_int32 : ℕ → Option ℕ
to_int32 position = if ltb position (2 ^ 31) then some position else none

-- `heads` and `previous`.
pub record Chains : Type 0 where
  pub heads : Links
  pub previous : Links

-- `qlz_hash(input + at)`
pub hash : List ℕ → ℕ → ℕ
hash input at =
    let value = u32 (byte_at input at * 251 + byte_at input (at + 1)) in
    bit_and (u32 (value * 251 + byte_at input (at + 2))) (hash_count - 1)

pub insert_position : List ℕ → Chains → ℕ → Chains
unfolding to_int32
insert_position input chains position =
    if leb (length input) (u32 (position + 2))
    then chains
    else let h = hash input position in
      record {
        heads = link chains.heads h (to_int32 position);
        previous = link chains.previous position (chains.heads h);
      }

-- The inner loop of `qlz_find_matches`, with `maximum - found` rounds left.
pub match_length : List ℕ → ℕ → ℕ → ℕ → ℕ → ℕ
match_length input candidate position zero found = found
match_length input candidate position (suc left) found =
    elim (byte_at input (candidate + found) == byte_at input (position + found)) [
      | true ↦ match_length input candidate position left (found + 1)
      | false ↦ found
    ]

-- The test that replaces the match of a class.
pub better : ℕ → ℕ → Match → Match
better distance found m =
    if ltb m.length found || ((found == m.length) && ltb distance m.distance)
    then record { distance = distance; length = found }
    else m

-- The outer loop, with `chain_limit - visits` rounds left; the pair is (short, long).
pub visit : List ℕ → Links → ℕ → ℕ → Option ℕ → Match → Match → Match × Match
visit input previous position zero candidate short long = (short, long)
visit input previous position (suc left) none short long = (short, long)
visit input previous position (suc left) (some candidate) short long =
    let distance = sub32 position candidate in
    let found = match_length input candidate position (length input - position) 0 in
    let go = visit input previous position left (previous candidate) in
    elim (ltb max_distance distance) [
      | true ↦ (short, long)
      | false ↦ elim (leb distance 256) [
        | true ↦ go (better distance found short) long
        | false ↦ go short (better distance found long)
      ]
    ]

pub find_matches : List ℕ → Chains → ℕ → Match × Match
find_matches input chains position =
    if ltb (length input) (u32 (position + match_min))
    then (no_match, no_match)
    else visit input chains.previous position chain_limit (chains.heads (hash input position))
        no_match no_match

pub match_packets : ℕ → ℕ
match_packets n = u32 (n + match_max - 1) / match_max

abbrev pub int64_min : ℤ
int64_min = negsuc (2 ^ 63 - 1)

pub match_saving : Match → ℤ
match_saving m =
    if ltb m.length match_min
    then int64_min
    else let offset_bytes = if leb m.distance 256 then 1 else 2 in
      sub_ℕ m.length (offset_bytes + match_packets m.length)

-- The match of the two that saves more, the longer one if they save the same.
pub prefer : Match → Match → Match
prefer short long =
    let s = match_saving short in
    let l = match_saving long in
    if ltb_ℤ s l || (not (ltb_ℤ l s) && ltb short.length long.length) then long else short

pub choose_match : Match → Match → Match
unfolding prefer
choose_match short long =
    let m = prefer short long in
    let minimum = if ltb 256 m.distance then match_min + 1 else match_min in
    if ltb m.length minimum || not (ltb_ℤ (pos 0) (match_saving m)) then no_match else m
