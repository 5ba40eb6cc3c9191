-- ===== src/Vgm/Converter/Emits.antt =====
-- src/vgm.c: what `converter_write` puts into a frame, against the registers that it tracks.
use qlvgm.Prelude.{
  ℕ, ◌+◌, ◌*◌, ◌/◌, ◌^◌, ◌≡◌, refl, arith, ap, sym, subst, ◌∙◌, inl, inr, leb, ◌==◌,
}
use qlvgm.Prelude.{if◌then◌else◌, Bool, true, false, not, ◌&&◌, ◌||◌, Bool-cases}
use qlvgm.Prelude.{List, [], ◌∷◌, ◌++◌, append-nil, append_assoc, u8, bit_and, bit_or}
use qlvgm.Buffer.{ByteBuffer, append_byte}
use qlvgm.Buffer.Laws.{IsWellFormed}
use qlvgm.Buffer.Writes.{Appends, append_byte-Appends, seq-Appends}
use qlvgm.Vgm.Song.{target_clock}
use qlvgm.Vgm.Converter.{
  Converter, Emitted, both, update, scale_period, emit, emit_changed, emit_psg_pair, emit_fm_pair,
  write_scaled, write, best_pitch, clip,
}
use qlvgm.Vgm.Played.{Pair, pair_bytes, play, play-append, pair_bytes-append}

-- A call that returns true has put `ps` behind the frame, and a chip on which they are played has
-- the registers that the converter tracks.
abbrev pub Emits : List Pair → (ℕ → ℕ) → ByteBuffer → Emitted → Type 0
Emits ps chip frame (c, (next, false)) = Unit
Emits ps chip frame (c, (next, true)) =
    (next.bytes ≡ frame.bytes ++ pair_bytes ps)
    × (play chip ps ≡ c.target)
    × (IsWellFormed frame → IsWellFormed next)

abbrev pub EmitsSome : (ℕ → ℕ) → ByteBuffer → Emitted → Type 0
EmitsSome chip frame r = (ps : List Pair) × Emits ps chip frame r

Emits-none : (frame : ByteBuffer) (c : Converter) → Emits [] c.target frame (c, (frame, true))
Emits-none frame c = (sym (append-nil frame.bytes), refl, λ w. w)

both-Emits :
    (chip : ℕ → ℕ) (frame : ByteBuffer) (r : Emitted) (next : Converter → ByteBuffer → Emitted)
    → EmitsSome chip frame r
    → ((c : Converter) (f : ByteBuffer) → EmitsSome c.target f (next c f))
    → EmitsSome chip frame (both r next)
both-Emits chip frame (c, (f, false)) next e k = ([], tt)
both-Emits chip frame (c, (f, true)) next (ps, (bytes, played, keeps)) k = longer (next c f) (k c f)
  where
    longer : (r : Emitted) → EmitsSome c.target f r → EmitsSome chip frame r
    longer (c', (f', false)) e = ([], tt)
    longer (c', (f', true)) (qs, (more, on, also)) = (
      ps ++ qs,
      (
        more
            ∙ ap (◌++ pair_bytes qs) bytes
            ∙ append_assoc frame.bytes (pair_bytes ps) (pair_bytes qs)
            ∙ sym (ap (frame.bytes ++◌) (pair_bytes-append ps qs)),
        play-append chip ps qs ∙ ap (λ t. play t qs) played ∙ on,
        λ w. also (keeps w),
      ),
    )

if-Emits :
    (chip : ℕ → ℕ) (frame : ByteBuffer) (test : Bool) (r s : Emitted)
    → EmitsSome chip frame r
    → EmitsSome chip frame s
    → EmitsSome chip frame (if test then r else s)
if-Emits chip frame true r s h k = h
if-Emits chip frame false r s h k = k

-- The pitch is not converted, or the clock is the target's already.
abbrev pub IsRaw : Converter → Type 0
IsRaw c = not c.pitch_conversion || (c.source_clock == target_clock) ≡ true

module _ (grants : ℕ → Bool) where
  emitted :
      (c : Converter) (frame : ByteBuffer) (reg value : ℕ) (r : ByteBuffer × Bool)
      → Appends grants frame (reg ∷ value ∷ []) r
      → Emits ((reg, value) ∷ []) c.target frame (
        record c {
          target = update c.target reg value;
          target_known = update c.target_known reg true;
        },
        r,
      )
  emitted c frame reg value (f, false) a = tt
  emitted c frame reg value (f, true) a = elim a.wrote [
    | inl (_, bytes, _) ↦ (bytes, refl, a.keeps)
    | inr (bad, _) ↦ absurd (cc bad)
  ]

  pub emit-Emits :
      (c : Converter) (frame : ByteBuffer) (reg value : ℕ)
      → Emits ((reg, value) ∷ []) c.target frame (emit grants c frame reg value)
  unfolding emit
  emit-Emits c frame reg value = emitted c frame reg value _ (
      seq-Appends grants frame (reg ∷ []) (value ∷ []) (append_byte grants frame reg)
        (λ f. append_byte grants f value) (append_byte-Appends grants frame reg)
        (λ f. append_byte-Appends grants f value))

  emit_changed-Emits :
      (c : Converter) (frame : ByteBuffer) (reg value : ℕ)
      → EmitsSome c.target frame (emit_changed grants c frame reg value)
  unfolding emit_changed
  emit_changed-Emits c frame reg value =
      if-Emits c.target frame (c.target_known reg && (c.target reg == value)) (c, (frame, true))
        (emit grants c frame reg value) ([], Emits-none frame c)
        ((reg, value) ∷ [], emit-Emits c frame reg value)

  scale_period-target :
      (c : Converter) (period maximum : ℕ) → (scale_period c period maximum).0.target ≡ c.target
  unfolding scale_period clip
  scale_period-target c period maximum = ground arith

  emit_psg_pair-Emits :
      (c : Converter) (frame : ByteBuffer) (low_reg high_reg mask : ℕ)
      → EmitsSome c.target frame (emit_psg_pair grants c frame low_reg high_reg mask)
  unfolding emit_psg_pair
  emit_psg_pair-Emits c frame low_reg high_reg mask =
      let source = bit_and (bit_or (c.source low_reg) (c.source high_reg * 2 ^ 8)) mask in
      let scaled = (scale_period c source mask).0 in
      let target = (scale_period c source mask).1 in
      let high = λ (c' : Converter) (f : ByteBuffer).
        emit_changed grants c' f high_reg (u8 (target / 2 ^ 8)) in
      subst
        (λ chip.
          EmitsSome chip frame (both (emit_changed grants scaled frame low_reg (u8 target)) high))
        (scale_period-target c source mask)
        (both-Emits scaled.target frame (emit_changed grants scaled frame low_reg (u8 target)) high
          (emit_changed-Emits scaled frame low_reg (u8 target))
          (λ c' f. emit_changed-Emits c' f high_reg (u8 (target / 2 ^ 8))))

  clipped-target : (b : Bool) (c : Converter) → (if b then clip c else c).target ≡ c.target
  unfolding clip
  clipped-target b c = ground arith

  emit_two-Emits :
      (c : Converter) (frame : ByteBuffer) (reg value other more : ℕ)
      → EmitsSome c.target frame
          (both (emit grants c frame reg value) (λ c' f. emit grants c' f other more))
  emit_two-Emits c frame reg value other more =
      both-Emits c.target frame (emit grants c frame reg value)
        (λ c' f. emit grants c' f other more) ((reg, value) ∷ [], emit-Emits c frame reg value)
        (λ c' f. ((other, more) ∷ [], emit-Emits c' f other more))

  emit_fm_pair-Emits :
      (c : Converter) (frame : ByteBuffer) (low_reg high_reg low high : ℕ)
      → EmitsSome c.target frame (emit_fm_pair grants c frame low_reg high_reg low high)
  unfolding emit_fm_pair
  emit_fm_pair-Emits c frame low_reg high_reg low high =
      let fnum = bit_or low (bit_and high 7 * 2 ^ 8) in
      let block = bit_and (high / 2 ^ 3) 7 in
      let best = best_pitch c.source_clock fnum block in
      let is_clipped =
        not (fnum == 0) && best.fnum == 2047 && best.block == 7 && not (best.error == 0) in
      let target_high =
        u8 (bit_or (bit_or (bit_and high 0xC0) (best.block * 2 ^ 3)) (best.fnum / 2 ^ 8)) in
      let start = if is_clipped then clip c else c in
      subst
        (λ chip. EmitsSome chip frame (
          both (emit grants start frame high_reg target_high)
            (λ c' f. emit grants c' f low_reg (u8 best.fnum))))
        (clipped-target is_clipped c)
        (emit_two-Emits start frame high_reg target_high low_reg (u8 best.fnum))

  period_6-Emits :
      (c : Converter) (frame : ByteBuffer) (reg value : ℕ)
      → EmitsSome c.target frame (
          emit_changed grants
            (scale_period c value 0x1F).0
            frame
            reg
            (u8 ((scale_period c value 0x1F).1)))
  period_6-Emits c frame reg value =
      let scaled = (scale_period c value 0x1F).0 in
      let period = (scale_period c value 0x1F).1 in
      subst (λ chip. EmitsSome chip frame (emit_changed grants scaled frame reg (u8 period)))
        (scale_period-target c value 0x1F) (emit_changed-Emits scaled frame reg (u8 period))

  write_scaled-Emits :
      (c : Converter) (frame : ByteBuffer) (reg value : ℕ)
      → EmitsSome c.target frame (write_scaled grants c frame reg value)
  unfolding write_scaled
  write_scaled-Emits c frame reg value =
      let some = if-Emits c.target frame in
      let low_reg = bit_and reg 0xFE in
      some (leb reg 5) _ _ (emit_psg_pair-Emits c frame low_reg (low_reg + 1) 0x0FFF) (
        some (reg == 6) _ _ (period_6-Emits c frame reg (bit_and value 0x1F)) (
          some (reg == 11 || reg == 12) _ _ (emit_psg_pair-Emits c frame 11 12 0xFFFF) (
            some (leb 0xA4 reg && leb reg 0xA6) _ _
              ([], Emits-none frame (record c { fm_high_latch = value }))
              (some (leb 0xA0 reg && leb reg 0xA2) _ _
                (emit_fm_pair-Emits c frame reg (reg + 4) value c.fm_high_latch)
                (some (leb 0xAC reg && leb reg 0xAE) _ _
                  ([], Emits-none frame (record c { fm_channel3_high_latch = value }))
                  (some (leb 0xA8 reg && leb reg 0xAA) _ _
                    (emit_fm_pair-Emits c frame reg (reg + 4) value c.fm_channel3_high_latch)
                    ((reg, value) ∷ [], emit-Emits c frame reg value)))))))

  -- A write that succeeds puts pairs behind the frame, and the registers that the converter tracks
  -- are those of a chip that plays the pairs.
  pub write-Emits :
      (c : Converter) (frame : ByteBuffer) (reg value : ℕ)
      → EmitsSome c.target frame (write grants c frame reg value)
  unfolding write
  write-Emits c frame reg value =
      let c' = record c { source = update c.source reg value } in
      if-Emits c.target frame (not c.pitch_conversion || (c.source_clock == target_clock)) _ _
        ((reg, value) ∷ [], emit-Emits c' frame reg value) (write_scaled-Emits c' frame reg value)

  -- Without a conversion a write goes into the frame as it is.
  pub write-IsRaw :
      (c : Converter) (frame : ByteBuffer) (reg value : ℕ)
      → IsRaw c
      → Emits ((reg, value) ∷ []) c.target frame (write grants c frame reg value)
        × IsRaw (write grants c frame reg value).0
  unfolding write emit
  write-IsRaw c frame reg value raw =
      let c' = record c { source = update c.source reg value } in
      rw (raw) (emit-Emits c' frame reg value, raw)

  pub write-Sends :
      (c : Converter) (frame : ByteBuffer) (reg value : ℕ)
      → (ps : List Pair) × Emits ps c.target frame (write grants c frame reg value)
        × (IsRaw c → (ps ≡ (reg, value) ∷ []) × IsRaw (write grants c frame reg value).0)
  write-Sends c frame reg value =
      elim (Bool-cases (not c.pitch_conversion || (c.source_clock == target_clock))) [
        | inl raw ↦
            let (sent, still) = write-IsRaw c frame reg value raw in
            ((reg, value) ∷ [], sent, λ r. (refl, still))
        | inr scaled ↦
            let (ps, sent) = write-Emits c frame reg value in
            (ps, sent, λ r. absurd (cc (r, scaled)))
      ]
