-- ===== src/Vgm/Song/Array.antt =====
-- src/vgm.c: the array of writes and the count of samples.
use qlvgm.Prelude.{ℕ, ◌+◌, ◌^◌, ◌≤◌, ◌<◌, ◌≡◌, ◌≢◌, refl}
use qlvgm.Prelude.{arith, Bool, sym, ap}
use qlvgm.Prelude.{[], ◌∷◌, ◌++◌, length, Result, ok, err, length-append, ok_injective}
use qlvgm.Vgm.Song.{
  Song, Write, add_write, add_samples, ParseError, make_room, stored, out_of_rounds,
}

-- The array of writes.
pub record IsStored (song : Song) : Type 0 where
  pub counted : song.write_count ≡ length song.writes
  pub fits : song.write_count ≤ song.write_capacity
  pub bounded : song.write_capacity < 2 ^ 32

-- The count of samples stays 32 bits wide.
pub add_samples-ok :
    (samples amount next : ℕ)
    → add_samples samples amount ≡ ok next
    → (next ≡ samples + amount) × (next < 2 ^ 32)
unfolding add_samples
add_samples-ok samples amount next e = ground arith

-- What a song has once `w` is stored behind its writes.
pub record Stores (song next : Song) (w : Write) : Type 0 where
  pub array : IsStored next
  pub writes : next.writes ≡ song.writes ++ (w ∷ [])
  pub loop_sample : next.loop_sample ≡ song.loop_sample
  pub loop_write : next.loop_write ≡ song.loop_write
  pub clock_hz : next.clock_hz ≡ song.clock_hz
  pub has_loop : next.has_loop ≡ song.has_loop

pub add_samples-rounds : (samples amount : ℕ) → add_samples samples amount ≢ err out_of_rounds
unfolding add_samples
add_samples-rounds samples amount e = ground arith

module _ (grants : ℕ → Bool) where
  make_room-ok :
      (song next : Song)
      → IsStored song
      → make_room grants song ≡ ok next
      → (next.writes ≡ song.writes)
        × (next.write_count ≡ song.write_count)
        × (next.loop_sample ≡ song.loop_sample)
        × (next.loop_write ≡ song.loop_write)
        × (next.clock_hz ≡ song.clock_hz)
        × (next.has_loop ≡ song.has_loop)
        × (song.write_count < next.write_capacity)
        × (next.write_capacity < 2 ^ 32)
  unfolding make_room
  make_room-ok song next w e = ground (arith, w.counted, w.fits, w.bounded)

  stored-ok :
      (song next : Song) (w : Write) (r : Result ParseError Song)
      → IsStored song
      → r ≡ make_room grants song
      → stored grants w r ≡ ok next
      → Stores song next w
  unfolding stored
  stored-ok song next w (err e) sound same h = cc
  stored-ok song next w (ok room) sound same h =
      let (writes, count, loop_sample, loop_write, clock_hz, has_loop, more, low) =
        make_room-ok song room sound (sym same) in
      let there = ok_injective h in
      simp (sym there) (record {
        array = record {
          counted = omega (
            arith,
            sound.counted,
            count,
            ap length writes,
            length-append room.writes (w ∷ []),
            more,
            low,
          );
          fits = omega (arith, more, count, low);
          bounded = low;
        };
        writes = rw (writes) refl;
        loop_sample = loop_sample;
        loop_write = loop_write;
        clock_hz = clock_hz;
        has_loop = has_loop;
      })

  -- On a stored array, a write that is accepted leaves a stored array with that write behind the
  -- others, and the loop point, the clock and the loop flag as they were.
  pub add_write-ok :
      (song next : Song) (sample reg value : ℕ)
      → IsStored song
      → add_write grants song sample reg value ≡ ok next
      → Stores song next (record { sample = sample; reg = reg; value = value })
  unfolding add_write
  add_write-ok song next sample reg value sound e =
      stored-ok song next (record { sample = sample; reg = reg; value = value })
        (make_room grants song) sound refl e

  stored-rounds :
      (song : Song) (w : Write) (r : Result ParseError Song)
      → r ≡ make_room grants song
      → stored grants w r ≢ err out_of_rounds
  unfolding stored make_room
  stored-rounds song w (ok next) same e = cc
  stored-rounds song w (err bad) same e = ground arith

  pub add_write-rounds :
      (song : Song) (sample reg value : ℕ)
      → add_write grants song sample reg value ≢ err out_of_rounds
  unfolding add_write
  add_write-rounds song sample reg value =
      stored-rounds song (record { sample = sample; reg = reg; value = value })
        (make_room grants song) refl
