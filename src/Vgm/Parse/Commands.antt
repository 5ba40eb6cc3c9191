-- ===== src/Vgm/Parse/Commands.antt =====
-- src/vgm.c: single commands of `vgm_parse`.
use qlvgm.Prelude.{ℕ, ◌+◌, ◌^◌, ◌≤◌, ◌<◌, ◌≡◌, inl, inr}
use qlvgm.Prelude.{
  arith, ltb, ◌==◌, ◌&&◌, not, if◌then◌else◌, Bool, true, false, Bool-cases, ltb→le, ==→eq, sym, ap,
}
use qlvgm.Prelude.{
  List, [], ◌∷◌, length, drop, u32, ok, length-append, ok_injective, >>=-eq-ok, fail_if-eq-ok,
}
use qlvgm.Buffer.{byte_at, read_le16}
use qlvgm.Prelude.{bit_and, ◌∙◌}
use qlvgm.Vgm.Song.{
  Song, Write, add_write, add_samples, target_clock, truncated_write, unsupported_register,
  truncated_wait,
}
use qlvgm.Vgm.Song.Array.{Stores, add_write-ok, add_samples-ok}
use qlvgm.Vgm.Parse.{Header, Scan, command, wait, write_command, wait_command, is_timer_register}
use qlvgm.Vgm.Parse.Order.{Ascends-wider, Ascends-snoc, All-snoc, drop-snoc, IsAllowed, IsSound}

-- A command that is read leaves a sound scan further on in the file.
pub record Advances (h : Header) (s t : Scan) : Type 0 where
  pub sound : IsSound h t
  pub further : s.position < t.position

wait-Advances :
    (h : Header) (s t : Scan) (p amount : ℕ)
    → IsSound h s
    → s.position < p
    → p ≤ h.eof
    → wait s p amount ≡ ok t
    → Advances h s t
unfolding wait
wait-Advances h s t p amount sound low high e =
    let (samples, added, there) = >>=-eq-ok (add_samples s.samples amount) _ e in
    let (sum, small) = add_samples-ok s.samples amount samples added in
    simp (sym (ok_injective there)) (record {
      sound = record {
        array = sound.array;
        clock_hz = sound.clock_hz;
        has_loop = sound.has_loop;
        in_range = small;
        inside = high;
        ordered = Ascends-wider 0 s.song.writes s.samples samples sound.ordered (omega arith);
        loops = λ found. record {
          at_write = (sound.loops found).at_write;
          after =
              Ascends-wider s.song.loop_sample (drop s.song.loop_write s.song.writes) s.samples
                samples (sound.loops found).after (omega arith);
        };
        allowed = sound.allowed;
      };
      further = low;
    })

-- A write at the current sample.
stored-IsSound :
    (h : Header) (s : Scan) (song : Song) (w : Write) (p : ℕ)
    → IsSound h s
    → Stores s.song song w
    → w.sample ≡ s.samples
    → IsAllowed h.clock w
    → p ≤ h.eof
    → IsSound h (record s { song = song; position = p })
stored-IsSound h s song w p sound more now allowed high = record {
  array = more.array;
  clock_hz = more.clock_hz ∙ sound.clock_hz;
  has_loop = more.has_loop ∙ sound.has_loop;
  in_range = sound.in_range;
  inside = high;
  ordered = simp (more.writes, sym now) (Ascends-snoc 0 s.song.writes w (simp now sound.ordered));
  loops = λ found.
      let before = sound.loops found in
      record {
        at_write = omega (
          arith,
          more.loop_write,
          before.at_write,
          ap length more.writes,
          length-append s.song.writes (w ∷ []),
        );
        after =
            simp
              (
                more.writes,
                more.loop_write,
                more.loop_sample,
                drop-snoc s.song.loop_write s.song.writes w before.at_write,
                sym now,
              )
              (Ascends-snoc s.song.loop_sample (drop s.song.loop_write s.song.writes) w
                (simp now before.after));
      };
  allowed = simp more.writes (All-snoc (IsAllowed h.clock) s.song.writes w sound.allowed allowed);
}

-- Command 0x66.
ended-Advances :
    (h : Header) (s : Scan)
    → h.eof + 2 < 2 ^ 32
    → IsSound h s
    → s.position < h.eof
    → Advances h s (record s { position = u32 (s.position + 1); end_found = true })
ended-Advances h s short sound inside = record {
  sound = record {
    array = sound.array;
    clock_hz = sound.clock_hz;
    has_loop = sound.has_loop;
    in_range = sound.in_range;
    inside = omega arith;
    ordered = sound.ordered;
    loops = sound.loops;
    allowed = sound.allowed;
  };
  further = omega arith;
}

not_timer :
    (clock : ℕ) (w : Write)
    → (not (clock == target_clock) && is_timer_register w.reg) ≡ false
    → IsAllowed clock w
not_timer clock w e = elim (Bool-cases (clock == target_clock)) [
  | inl same ↦ inl (==→eq clock target_clock same)
  | inr other ↦ inr (simp other at e)
]

module _ (grants : ℕ → Bool) where
  write_command-Advances :
      (d : List ℕ) (h : Header) (s t : Scan)
      → h.eof + 2 < 2 ^ 32
      → IsSound h s
      → s.position < h.eof
      → write_command grants d h s s.position ≡ ok t
      → Advances h s t
  unfolding write_command
  write_command-Advances d h s t short sound inside e =
      let p = u32 (s.position + 1) in
      let reg = byte_at d p in
      let (fits, e1) = fail_if-eq-ok (ltb h.eof (u32 (p + 2))) (truncated_write s.position) _ e in
      let (clean, e2) =
        fail_if-eq-ok (not (h.clock == target_clock) && is_timer_register reg)
          (unsupported_register reg) _ e1 in
      let (song, added, there) =
        >>=-eq-ok (add_write grants s.song (u32 s.samples) reg (byte_at d (p + 1))) _ e2 in
      let w : Write = record { sample = u32 s.samples; reg = reg; value = byte_at d (p + 1) } in
      let low : u32 (p + 2) ≤ h.eof = ltb→le h.eof (u32 (p + 2)) fits in
      simp (sym (ok_injective there)) (record {
        sound =
            stored-IsSound h s song w (u32 (p + 2)) sound
              (add_write-ok grants s.song song (u32 s.samples) reg (byte_at d (p + 1)) sound.array
                added)
              (omega (arith, sound.in_range)) (not_timer h.clock w clean) low;
        further = omega arith;
      })

  wait_command-Advances :
      (d : List ℕ) (h : Header) (s t : Scan)
      → h.eof + 2 < 2 ^ 32
      → IsSound h s
      → s.position < h.eof
      → wait_command grants d h s s.position ≡ ok t
      → Advances h s t
  unfolding wait_command
  wait_command-Advances d h s t short sound inside e =
      let p = u32 (s.position + 1) in
      let (fits, e1) = fail_if-eq-ok (ltb h.eof (u32 (p + 2))) (truncated_wait s.position) _ e in
      wait-Advances h s t (u32 (p + 2)) (read_le16 d p) sound (omega arith)
        (ltb→le h.eof (u32 (p + 2)) fits) e1

  -- Every command that is accepted.
  pub command-Advances :
      (d : List ℕ) (h : Header) (s t : Scan)
      → h.eof + 2 < 2 ^ 32
      → IsSound h s
      → s.position < h.eof
      → command grants d h s ≡ ok t
      → Advances h s t
  unfolding command
  command-Advances d h s t short sound inside e = ground (
    arith,
    write_command-Advances d h s t,
    wait_command-Advances d h s t,
    wait-Advances h s t (u32 (s.position + 1)) (if byte_at d s.position == 0x62 then 735 else 882),
    wait-Advances h s t (u32 (s.position + 1)) (bit_and (byte_at d s.position) 0x0F + 1),
    ended-Advances h s,
  )
