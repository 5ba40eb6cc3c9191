-- ===== src/Vgm/Parse/Rounds.antt =====
-- src/vgm.c: the command loop of `vgm_parse`.
use qlvgm.Prelude.{ℕ, zero, suc, ◌+◌, ◌^◌, ◌≤◌, ◌<◌, ◌≡◌, ◌≢◌, inl, inr}
use qlvgm.Prelude.{arith, ltb, Bool, Bool-cases, ltb→lt, ap}
use qlvgm.Prelude.{List, ok, err, ok_injective, >>=-eq-ok, Result-cases, err_injective, subst, ◌∙◌}
use qlvgm.Vgm.Song.{out_of_rounds}
use qlvgm.Vgm.Parse.{Header, Scan, command, mark_loop, scan}
use qlvgm.Vgm.Parse.Order.{IsSound, mark_loop-IsSound, position-mark_loop}
use qlvgm.Vgm.Parse.Commands.{Advances, command-Advances}
use qlvgm.Vgm.Parse.Errors.{command-rounds}

module _ (grants : ℕ → Bool) (d : List ℕ) (h : Header) (short : h.eof + 2 < 2 ^ 32) where
  -- One round: the loop point is noted and the command is read.
  round :
      (s u : Scan)
      → IsSound h s
      → s.position < h.eof
      → command grants d h (mark_loop h s) ≡ ok u
      → Advances h s u
  round s u sound inside ran =
      let same = position-mark_loop h s in
      let next =
        command-Advances grants d h (mark_loop h s) u short (mark_loop-IsSound h s sound)
          (omega (arith, same)) ran in
      record { sound = next.sound; further = omega (arith, same, next.further) }

  pub scan-IsSound :
      (fuel : ℕ) (s t : Scan) → IsSound h s → scan grants d h fuel s ≡ ok t → IsSound h t
  unfolding scan
  scan-IsSound zero s t sound e = ground arith
  scan-IsSound (suc fuel) s t sound e = elim (Bool-cases (ltb s.position h.eof)) [
    | inr past ↦ subst (IsSound h) (ok_injective (rw (past, scan) at e)) sound
    | inl more ↦
        let (u, ran, rest) =
          >>=-eq-ok (command grants d h (mark_loop h s)) _ (rw (more, scan) at e) in
        let next = round s u sound (ltb→lt s.position h.eof more) ran in
        elim (Bool-cases u.end_found) [
          | inl last ↦ subst (IsSound h) (ok_injective (rw last at rest)) next.sound
          | inr further ↦ scan-IsSound fuel u t next.sound (rw further at rest)
        ]
  ]

  pub scan-rounds :
      (fuel : ℕ) (s : Scan)
      → IsSound h s
      → h.eof ≤ s.position + fuel
      → scan grants d h fuel s ≢ err out_of_rounds
  unfolding scan
  scan-rounds zero s sound room e = ground arith
  scan-rounds (suc fuel) s sound room e = elim (Bool-cases (ltb s.position h.eof)) [
    | inr past ↦ cc (rw (past, scan) at e)
    | inl more ↦ elim (Result-cases (command grants d h (mark_loop h s))) [
      | inr (bad, ran) ↦
          command-rounds grants d h (mark_loop h s)
            (ran ∙ ap err (err_injective (rw (more, ran, scan) at e)))
      | inl (u, ran) ↦
          let next = round s u sound (ltb→lt s.position h.eof more) ran in
          elim (Bool-cases u.end_found) [
            | inl last ↦ cc (rw (more, ran, last, scan) at e)
            | inr further ↦
                scan-rounds fuel u next.sound (omega (arith, next.further))
                  (rw (more, ran, further, scan) at e)
          ]
    ]
  ]
