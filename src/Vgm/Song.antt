-- ===== src/Vgm/Song.antt =====
-- src/vgm.c: the song that the parser collects.
pub mod Array
use qlvgm.Prelude.{
  ℕ, ◌+◌, ◌*◌, ltb, ◌==◌, if◌then◌else◌, Bool, true, false, List, [], ◌∷◌, ◌++◌, u32,
}
use qlvgm.Prelude.{u32_max, Result, ok, err}

abbrev pub target_clock : ℕ
target_clock = 2000000

abbrev pub fixture_clock : ℕ
fixture_clock = 3993600

abbrev pub no_loop : ℕ
no_loop = u32_max

-- `vgm_write`
pub record Write : Type 0 where
  pub sample : ℕ
  pub reg : ℕ
  pub value : ℕ

-- `vgm_song`; `writes` are the `write_count` entries in use.
pub record Song : Type 0 where
  pub writes : List Write
  pub write_count : ℕ
  pub write_capacity : ℕ
  pub total_samples : ℕ
  pub loop_sample : ℕ
  pub loop_write : ℕ
  pub clock_hz : ℕ
  pub has_loop : Bool

-- What `memset` to 0 gives.
abbrev pub no_song : Song
no_song = record {
  writes = [];
  write_count = 0;
  write_capacity = 0;
  total_samples = 0;
  loop_sample = 0;
  loop_write = 0;
  clock_hz = 0;
  has_loop = false;
}

-- The texts of `error_set`, with the values that they show.
pub data ParseError : Type 0 where
  unsupported_file invalid_eof invalid_data_offset flagged_clock invalid_loop_offset : ParseError
  unsupported_version unsupported_clock unsupported_register : ℕ → ParseError
  truncated_write truncated_wait : ℕ → ParseError
  unsupported_command sample_mismatch : ℕ → ℕ → ParseError
  too_many_writes no_memory too_long no_end no_samples : ParseError
  loop_off_boundary loop_mismatch samples_without_loop : ParseError
  out_of_rounds : ParseError

-- `sizeof(vgm_write)`
abbrev pub write_bytes : ℕ
write_bytes = 8

module _ (grants : ℕ → Bool) where
  -- `realloc` of the array of writes, where it is full.
  pub make_room : Song → Result ParseError Song
  make_room song =
      if song.write_count == song.write_capacity
      then (let capacity =
            if song.write_capacity == 0 then 4096 else u32 (song.write_capacity * 2) in
          if ltb capacity song.write_capacity
          then err too_many_writes
          else if grants (capacity * write_bytes)
          then ok (record song { write_capacity = capacity })
          else err no_memory)
      else ok song

  stored : Write → Result ParseError Song → Result ParseError Song
  stored w (err e) = err e
  stored w (ok song) =
      ok
        (record song { writes = song.writes ++ (w ∷ []); write_count = u32 (song.write_count + 1) })

  unfoldable pub add_write : Song → ℕ → ℕ → ℕ → Result ParseError Song
  unfolding make_room stored
  add_write song sample reg value =
      stored (record { sample = sample; reg = reg; value = value }) (make_room song)

unfoldable pub add_samples : ℕ → ℕ → Result ParseError ℕ
add_samples samples amount =
    if ltb u32_max (samples + amount) then err too_long else ok (samples + amount)

pub song_free : Song → Song
song_free song = no_song
