-- ===== src/Vgm/Parse/Whole.antt =====
-- src/vgm.c: `vgm_parse` as a whole, and the song that it returns.
use qlvgm.Prelude.{ℕ, ◌+◌, ◌-◌, ◌^◌, ◌≤◌, ◌<◌, ◌≡◌, ◌≢◌, ◌⊎◌, inl, inr}
use qlvgm.Prelude.{arith, ◌==◌, ◌&&◌, ◌||◌, not, Bool, true, sym, ap}
use qlvgm.Prelude.{
  List, length, drop, All, u32, ok, err, ok_injective, >>=-eq-ok, fail_if-eq-ok, sub32,
  Result-cases, err_injective, ◌∙◌,
}
use qlvgm.Buffer.{read_le32}
use qlvgm.Vgm.Song.{
  Song, target_clock, fixture_clock, out_of_rounds, no_end, no_samples, sample_mismatch,
  loop_off_boundary, loop_mismatch, samples_without_loop,
}
use qlvgm.Vgm.Parse.{Header, Scan, scan, check_end, begin, parse, parse_header, loop_start}
use qlvgm.Vgm.Parse.Order.{Ascends, Ascends-last, IsAllowed, Loops, begin-IsSound}
use qlvgm.Vgm.Parse.Rounds.{scan-IsSound, scan-rounds}

parse_header-ok :
    (d : List ℕ) (h : Header)
    → parse_header d ≡ ok h
    → (h.data_offset < h.eof)
      × (h.eof ≤ length d)
      × ((h.clock ≡ target_clock) ⊎ (h.clock ≡ fixture_clock))
unfolding parse_header
parse_header-ok d h e = ground arith

-- A song, against the file that it comes from.
pub record IsSong (d : List ℕ) (song : Song) : Type 0 where
  pub counted : song.write_count ≡ length song.writes
  pub clock_hz : (song.clock_hz ≡ target_clock) ⊎ (song.clock_hz ≡ fixture_clock)
  pub allowed : All (IsAllowed song.clock_hz) song.writes
  pub some_samples : 0 < song.total_samples
  pub total : song.total_samples ≡ read_le32 d 0x18
  pub ordered : Ascends 0 song.writes song.total_samples
  pub loop_total :
      song.has_loop ≡ true
      → (0 < read_le32 d 0x20) × (song.loop_sample + read_le32 d 0x20 ≡ song.total_samples)
  pub loops : song.has_loop ≡ true → Loops song song.total_samples

checked :
    (d : List ℕ) (h : Header) (s : Scan) (song : Song)
    → check_end d h s ≡ ok song
    → (song ≡ record (s.song) { total_samples = u32 s.samples })
      × (0 < s.samples)
      × (u32 s.samples ≡ read_le32 d 0x18)
      × (h.has_loop ≡ true → s.loop_found ≡ true)
      × (h.has_loop ≡ true
          → (0 < read_le32 d 0x20) × (sub32 (u32 s.samples) s.song.loop_sample ≡ read_le32 d 0x20))
unfolding check_end
checked d h s song e =
    let total = u32 s.samples in
    let (ended, e1) = fail_if-eq-ok (not s.end_found) no_end _ e in
    let (some, e2) = fail_if-eq-ok (s.samples == 0) no_samples _ e1 in
    let (sum, e3) =
      fail_if-eq-ok (not (read_le32 d 0x18 == total)) (sample_mismatch (read_le32 d 0x18) total) _
        e2 in
    let (found, e4) = fail_if-eq-ok (h.has_loop && not s.loop_found) loop_off_boundary _ e3 in
    let loop_samples = sub32 total s.song.loop_sample in
    let (loop_sum, e5) =
      fail_if-eq-ok (h.has_loop && (not (read_le32 d 0x20 == loop_samples) || loop_samples == 0))
        loop_mismatch _ e4 in
    let (silent, e6) =
      fail_if-eq-ok (not h.has_loop && not (read_le32 d 0x20 == 0)) samples_without_loop _ e5 in
    (
      sym (ok_injective e6),
      ground (arith, some),
      ground (arith, sum),
      λ loop. ground (arith, found),
      λ loop. ground (arith, loop_sum),
    )

check_end-rounds : (d : List ℕ) (h : Header) (s : Scan) → check_end d h s ≢ err out_of_rounds
unfolding check_end
check_end-rounds d h s e = ground arith

parse_header-rounds : (d : List ℕ) → parse_header d ≢ err out_of_rounds
unfolding parse_header loop_start
parse_header-rounds d e = ground arith

-- For a file of less than 2 ^ 32 - 2 bytes: a song that `parse` returns has the target clock or 3993600,
-- its writes never go back in time and end within the total, with any clock but the target's none is
-- to a timer register, the total is not 0 and is the header's, and the point of a loop is behind so
-- many writes as there are at most (behind all of them for a loop of waits only), with all later writes at
-- its sample or behind, and the loop has the header's samples, which are not 0.
pub parse-IsSong :
    (grants : ℕ → Bool) (d : List ℕ) (song : Song)
    → length d + 2 < 2 ^ 32
    → parse grants d ≡ ok song
    → IsSong d song
unfolding parse
parse-IsSong grants d song short e =
    let (h, header, e1) = >>=-eq-ok (parse_header d) _ e in
    let (s, scanned, e2) = >>=-eq-ok (scan grants d h (h.eof - h.data_offset) (begin h)) _ e1 in
    let (low, inside, clock) = parse_header-ok d h header in
    let short_file : h.eof + 2 < 2 ^ 32 = omega arith in
    let sound =
      scan-IsSound grants d h short_file (h.eof - h.data_offset) (begin h) s
        (begin-IsSound h (omega arith)) scanned in
    let (there, some, sum, found, loop_sum) = checked d h s song e2 in
    let small : u32 s.samples ≡ s.samples = omega (arith, sound.in_range) in
    simp there (record {
      counted = sound.array.counted;
      clock_hz = rw (sound.clock_hz) clock;
      allowed = rw (sound.clock_hz) sound.allowed;
      some_samples = omega (arith, small, some);
      total = sum;
      ordered = rw small sound.ordered;
      loop_total = λ loop.
          let point = sound.loops (found (sym sound.has_loop ∙ loop)) in
          let before =
            Ascends-last s.song.loop_sample (drop s.song.loop_write s.song.writes) s.samples
              point.after in
          let (some_loop, difference) = loop_sum (sym sound.has_loop ∙ loop) in
          (some_loop, omega (arith, before, small, difference, sound.in_range));
      loops = λ loop.
          let point = sound.loops (found (sym sound.has_loop ∙ loop)) in
          record { at_write = point.at_write; after = rw small point.after };
    })

-- For a file of less than 2 ^ 32 - 2 bytes, the command loop of `parse` ends in as many rounds as the
-- file has bytes of commands: the answer is never that the rounds ran out.
pub parse-rounds :
    (grants : ℕ → Bool) (d : List ℕ) → length d + 2 < 2 ^ 32 → parse grants d ≢ err out_of_rounds
unfolding parse
parse-rounds grants d short e = elim (Result-cases (parse_header d)) [
  | inr (bad, stopped) ↦
      parse_header-rounds d (stopped ∙ ap err (err_injective (rw (stopped, parse) at e)))
  | inl (h, header) ↦
      let (low, inside, clock) = parse_header-ok d h header in
      let short_file : h.eof + 2 < 2 ^ 32 = omega arith in
      elim (Result-cases (scan grants d h (h.eof - h.data_offset) (begin h))) [
        | inr (bad, stopped) ↦
            scan-rounds grants d h short_file (h.eof - h.data_offset) (begin h)
              (begin-IsSound h (omega arith)) (omega arith)
              (stopped ∙ ap err (err_injective (rw (header, stopped, parse) at e)))
        | inl (s, scanned) ↦ check_end-rounds d h s (rw (header, scanned, parse) at e)
      ]
]
