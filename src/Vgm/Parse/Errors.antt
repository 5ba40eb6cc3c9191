-- ===== src/Vgm/Parse/Errors.antt =====
-- src/vgm.c: the errors of single commands of `vgm_parse`.
use qlvgm.Prelude.{ℕ, ◌+◌, ◌≢◌}
use qlvgm.Prelude.{arith, ltb, ◌==◌, ◌&&◌, not, if◌then◌else◌, Bool}
use qlvgm.Prelude.{List, u32, ok, err}
use qlvgm.Buffer.{byte_at, read_le16}
use qlvgm.Prelude.{>>=-ne-err, ok-ne-err, fail_if-ne-err, bit_and}
use qlvgm.Vgm.Song.{
  add_write, add_samples, target_clock, truncated_write, unsupported_register, truncated_wait,
  out_of_rounds,
}
use qlvgm.Vgm.Song.Array.{add_write-rounds, add_samples-rounds}
use qlvgm.Vgm.Parse.{Header, Scan, command, wait, write_command, wait_command, is_timer_register}

module _ (grants : ℕ → Bool) where
  wait-rounds : (s : Scan) (p amount : ℕ) → wait s p amount ≢ err out_of_rounds
  unfolding wait
  wait-rounds s p amount =
      >>=-ne-err (add_samples s.samples amount) _ (add_samples-rounds s.samples amount) (λ a e. cc)

  write_command-rounds :
      (d : List ℕ) (h : Header) (s : Scan) (at : ℕ)
      → write_command grants d h s at ≢ err out_of_rounds
  unfolding write_command
  write_command-rounds d h s at =
      let p = u32 (at + 1) in
      let reg = byte_at d p in
      let value = byte_at d (p + 1) in
      let cut : truncated_write at ≢ out_of_rounds = λ e. cc in
      let timer : unsupported_register reg ≢ out_of_rounds = λ e. cc in
      fail_if-ne-err (ltb h.eof (u32 (p + 2))) cut (
        fail_if-ne-err (not (h.clock == target_clock) && is_timer_register reg) timer (
          >>=-ne-err (add_write grants s.song (u32 s.samples) reg value)
            (λ song. ok (record s { song = song; position = u32 (p + 2) }))
            (add_write-rounds grants s.song (u32 s.samples) reg value) (λ song. ok-ne-err)))

  wait_command-rounds :
      (d : List ℕ) (h : Header) (s : Scan) (at : ℕ)
      → wait_command grants d h s at ≢ err out_of_rounds
  unfolding wait_command
  wait_command-rounds d h s at =
      let p = u32 (at + 1) in
      let cut : truncated_wait at ≢ out_of_rounds = λ e. cc in
      fail_if-ne-err (ltb h.eof (u32 (p + 2))) cut (wait-rounds s (u32 (p + 2)) (read_le16 d p))

  -- No command stops as a loop without rounds would.
  pub command-rounds :
      (d : List ℕ) (h : Header) (s : Scan) → command grants d h s ≢ err out_of_rounds
  unfolding command
  command-rounds d h s e = ground (
    arith,
    write_command-rounds d h s s.position,
    wait_command-rounds d h s s.position,
    wait-rounds s (u32 (s.position + 1)) (if byte_at d s.position == 0x62 then 735 else 882),
    wait-rounds s (u32 (s.position + 1)) (bit_and (byte_at d s.position) 0x0F + 1),
  )
