-- ===== src/Qlz/Compress.antt =====
-- src/qlz.c: `qlz_compress_payload`, the loop over the input with one step of lazy matching.
pub mod Invariant
pub mod Rounds
pub mod Progress
use qlvgm.Prelude.{ℕ, zero, suc, ◌+◌, ◌-◌, ◌*◌, ltb, leb, ◌==◌, ◌&&◌, ◌||◌, not, sub32, u32}
use qlvgm.Prelude.{if◌then◌else◌, Bool, true, false, List, length, Result, ok, err}
use qlvgm.Prelude.Int.{pos, ltb_ℤ, ◌+ℤ◌}
use qlvgm.Buffer.{ByteBuffer, seq}
use qlvgm.Qlz.Match.{Match, Chains, no_links, hash_count, insert_position, find_matches}
use qlvgm.Qlz.Match.{choose_match, match_saving}
use qlvgm.Qlz.Write.{write_literals, write_match}

pub data CompressError : Type 0 where
  no_memory_finding_matches no_memory_writing_stream no_memory_collecting_stream : CompressError

-- The variables of the main loop.
pub record State : Type 0 where
  pub payload : ByteBuffer
  pub chains : Chains
  pub literal_start : ℕ
  pub position : ℕ

pub best_match : List ℕ → Chains → ℕ → Match
best_match input chains position =
    let (short, long) = find_matches input chains position in choose_match short long

-- `for (i = insert_start; i < end; i += 1)`, by the rounds that are left.
pub insert_run : List ℕ → ℕ → ℕ → Chains → Chains
insert_run input zero i chains = chains
insert_run input (suc left) i chains =
    insert_run input left (u32 (i + 1)) (insert_position input chains i)

-- `match.length != 0 && position + 1 < input_size`
pub looks_ahead : List ℕ → ℕ → Match → Bool
looks_ahead input position m = not (m.length == 0) && ltb (u32 (position + 1)) (length input)

-- The chains with `position` in them, and whether the match there saves enough to wait for it.
pub defers : List ℕ → Chains → ℕ → Match → Bool
defers input inserted position m =
    ltb_ℤ (match_saving m +ℤ pos 1) (match_saving (best_match input inserted (u32 (position + 1))))

module _ (grants : ℕ → Bool) where
  -- What follows the writes: `break` on a failed one, else all positions of the match are inserted.
  after_match : List ℕ → State → Match → Bool → Chains → ByteBuffer × Bool → State
  after_match input s m inserted chains (payload, false) = record s {
    payload = payload;
    chains = chains;
  }
  after_match input s m inserted chains (payload, true) =
      let end = u32 (s.position + m.length) in
      let insert_start = if inserted then u32 (s.position + 1) else s.position in
      record {
        payload = payload;
        chains = insert_run input (end - insert_start) insert_start chains;
        literal_start = end;
        position = end;
      }

  emit : List ℕ → State → Match → Bool → Chains → State
  unfolding after_match
  emit input s m inserted chains = after_match input s m inserted chains (
      seq (write_literals grants s.payload input s.literal_start (sub32 s.position s.literal_start))
        (λ p. write_match grants p m))

  -- One round of the main loop.
  pub step : List ℕ → State → State
  unfolding emit looks_ahead defers best_match
  step input s =
      let m = best_match input s.chains s.position in
      let inserted = looks_ahead input s.position m in
      let chains = if inserted then insert_position input s.chains s.position else s.chains in
      if inserted && defers input chains s.position m
      then record s { chains = chains; position = u32 (s.position + 1) }
      else if m.length == 0
      then record s {
        chains = if inserted then chains else insert_position input chains s.position;
        position = u32 (s.position + 1);
      }
      else emit input s m inserted chains

  -- `while (position < input_size && !payload->failed)`
  pub main_loop : List ℕ → ℕ → State → State
  main_loop input zero s = s
  main_loop input (suc fuel) s = elim (ltb s.position (length input) && not s.payload.failed) [
    | true ↦ main_loop input fuel (step input s)
    | false ↦ s
  ]

  -- The literals that are left when the loop has ended.
  pub flush : List ℕ → State → ByteBuffer
  flush input s =
      if not s.payload.failed && ltb s.literal_start (length input)
      then (write_literals grants s.payload input s.literal_start
          (sub32 (length input) s.literal_start)).0
      else s.payload

  abbrev pub start : ByteBuffer → State
  start payload = record {
    payload = payload;
    chains = record { heads = no_links; previous = no_links };
    literal_start = 0;
    position = 0;
  }

  -- The two arrays hold 4-byte entries.
  pub compress_payload : List ℕ → ByteBuffer → Result CompressError ByteBuffer
  compress_payload input payload =
      if length input == 0
      then ok payload
      else if not (grants (4 * hash_count)) || not (grants (4 * length input))
      then err no_memory_finding_matches
      else let out = flush input (main_loop input (length input) (start payload)) in
        if out.failed then err no_memory_writing_stream else ok out
