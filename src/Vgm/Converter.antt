-- ===== src/Vgm/Converter.antt =====
-- src/vgm.c: `clock_converter`, from YM2203 writes at the source clock to writes at 2 MHz.
-- The 64-bit products stay below 2 ^ 52: a period has 16 bits, an F-number 11, a block 3 and a
-- clock 32. So they are written with no wrap-around.
pub mod Nearest
pub mod BestPitch
pub mod Emits
use qlvgm.Prelude.{ℕ, zero, suc, ◌+◌, ◌-◌, ◌*◌, ◌/◌, ◌^◌, ltb, leb, ◌==◌, if◌then◌else◌, Bool, true}
use qlvgm.Prelude.{false, not, ◌&&◌, ◌||◌, u8, u32, bit_and, bit_or}
use qlvgm.Buffer.{ByteBuffer, append_byte, seq}
use qlvgm.Vgm.Song.{target_clock}

-- An array by its indices.
abbrev pub update {ℓ} : {A : Type ℓ} → (ℕ → A) → ℕ → A → ℕ → A
update array i value j = if j == i then value else array j

-- `clock_converter`
pub record Converter : Type 0 where
  pub source : ℕ → ℕ
  pub target : ℕ → ℕ
  pub target_known : ℕ → Bool
  pub source_clock : ℕ
  pub clipped_values : ℕ
  pub fm_high_latch : ℕ
  pub fm_channel3_high_latch : ℕ
  pub pitch_conversion : Bool

-- The converter and the frame after a call, and its answer.
abbrev pub Emitted : Type 0
Emitted = Converter × (ByteBuffer × Bool)

-- `first && second`
abbrev pub both : Emitted → (Converter → ByteBuffer → Emitted) → Emitted
both (c, (frame, true)) next = next c frame
both (c, (frame, false)) next = (c, (frame, false))

unfoldable pub clip : Converter → Converter
clip c = record c { clipped_values = u32 (c.clipped_values + 1) }

-- The nearest period at the target clock, at least 1.
unfoldable pub nearest_period : ℕ → ℕ → ℕ
nearest_period source_clock period =
    let scaled = (period * target_clock + source_clock / 2) / source_clock in
    if scaled == 0 then 1 else scaled

unfoldable pub scale_period : Converter → ℕ → ℕ → Converter × ℕ
unfolding nearest_period clip
scale_period c period maximum =
    if period == 0
    then (c, 0)
    else (let scaled = nearest_period c.source_clock period in
        if ltb maximum scaled then (clip c, maximum) else (c, scaled))

pub absolute_difference : ℕ → ℕ → ℕ
absolute_difference left right = if leb right left then left - right else right - left

-- The best block and F-number so far, with their error.
pub record Pitch : Type 0 where
  pub fnum : ℕ
  pub block : ℕ
  pub error : ℕ

-- The F-number that comes nearest in one block.
pub candidate : ℕ → ℕ → ℕ
candidate wanted block =
    let divisor = target_clock * 2 ^ block in
    let nearest = (wanted + divisor / 2) / divisor in if ltb 2047 nearest then 2047 else nearest

pub pitch_error : ℕ → ℕ → ℕ → ℕ
pitch_error wanted block fnum = absolute_difference (target_clock * 2 ^ block * fnum) wanted

-- The body of the loop over the blocks.
pub try_block : ℕ → ℕ → Pitch → Pitch
try_block wanted block best =
    let fnum = candidate wanted block in
    let difference = pitch_error wanted block fnum in
    if ltb difference best.error
    then record { fnum = fnum; block = block; error = difference }
    else best

-- `for (block = 0; block < 8; block += 1)`, by the rounds that are left.
pub try_blocks : ℕ → ℕ → ℕ → Pitch → Pitch
try_blocks wanted zero block best = best
try_blocks wanted (suc left) block best =
    try_blocks wanted left (block + 1) (try_block wanted block best)

pub best_pitch : ℕ → ℕ → ℕ → Pitch
unfolding try_blocks try_block
best_pitch source_clock fnum block =
    try_blocks (source_clock * fnum * 2 ^ block) 8 0
      (record { fnum = 0; block = block; error = 2 ^ 64 - 1 })

module _ (grants : ℕ → Bool) where
  unfoldable pub emit : Converter → ByteBuffer → ℕ → ℕ → Emitted
  emit c frame reg value = (
    record c { target = update c.target reg value; target_known = update c.target_known reg true },
    seq (append_byte grants frame reg) (λ f. append_byte grants f value),
  )

  unfoldable pub emit_changed : Converter → ByteBuffer → ℕ → ℕ → Emitted
  unfolding emit
  emit_changed c frame reg value =
      if c.target_known reg && (c.target reg == value)
      then (c, (frame, true))
      else emit c frame reg value

  unfoldable pub emit_psg_pair : Converter → ByteBuffer → ℕ → ℕ → ℕ → Emitted
  unfolding scale_period emit_changed
  emit_psg_pair c frame low_reg high_reg mask =
      let source = bit_and (bit_or (c.source low_reg) (c.source high_reg * 2 ^ 8)) mask in
      let (scaled, target) = scale_period c source mask in
      both (emit_changed scaled frame low_reg (u8 target))
        (λ c' f. emit_changed c' f high_reg (u8 (target / 2 ^ 8)))

  pub emit_fm_pair : Converter → ByteBuffer → ℕ → ℕ → ℕ → ℕ → Emitted
  unfolding best_pitch emit clip
  emit_fm_pair c frame low_reg high_reg low high =
      let fnum = bit_or low (bit_and high 7 * 2 ^ 8) in
      let block = bit_and (high / 2 ^ 3) 7 in
      let best = best_pitch c.source_clock fnum block in
      let is_clipped =
        not (fnum == 0) && best.fnum == 2047 && best.block == 7 && not (best.error == 0) in
      let target_high =
        u8 (bit_or (bit_or (bit_and high 0xC0) (best.block * 2 ^ 3)) (best.fnum / 2 ^ 8)) in
      both (emit (if is_clipped then clip c else c) frame high_reg target_high)
        (λ c' f. emit c' f low_reg (u8 best.fnum))

  -- `converter_write` behind the store into `source` and the test for a raw copy.
  unfoldable pub write_scaled : Converter → ByteBuffer → ℕ → ℕ → Emitted
  unfolding emit_psg_pair emit_fm_pair
  write_scaled c frame reg value =
      if leb reg 5
      then (let low_reg = bit_and reg 0xFE in emit_psg_pair c frame low_reg (low_reg + 1) 0x0FFF)
      else if reg == 6
      then (let (scaled, period) = scale_period c (bit_and value 0x1F) 0x1F in
          emit_changed scaled frame reg (u8 period))
      else if reg == 11 || reg == 12
      then emit_psg_pair c frame 11 12 0xFFFF
      else if leb 0xA4 reg && leb reg 0xA6
      then (record c { fm_high_latch = value }, (frame, true))
      else if leb 0xA0 reg && leb reg 0xA2
      then emit_fm_pair c frame reg (reg + 4) value c.fm_high_latch
      else if leb 0xAC reg && leb reg 0xAE
      then (record c { fm_channel3_high_latch = value }, (frame, true))
      else if leb 0xA8 reg && leb reg 0xAA
      then emit_fm_pair c frame reg (reg + 4) value c.fm_channel3_high_latch
      else emit c frame reg value

  unfoldable pub write : Converter → ByteBuffer → ℕ → ℕ → Emitted
  unfolding write_scaled
  write c frame reg value =
      let c' = record c { source = update c.source reg value } in
      if not c.pitch_conversion || (c.source_clock == target_clock)
      then emit c' frame reg value
      else write_scaled c' frame reg value
