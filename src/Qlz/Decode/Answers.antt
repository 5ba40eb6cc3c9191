-- ===== src/Qlz/Decode/Answers.antt =====
-- src/qlz.c: all answers of `qlz_decode`, on any bytes.
use qlvgm.Prelude.{ℕ, zero, suc, ◌+◌, ◌*◌, ◌≤◌, ◌<◌, ◌^◌, ◌≡◌, ◌≢◌, refl, arith}
use qlvgm.Prelude.{
  if◌then◌else◌, Bool, true, false, Bool-cases, inl, inr, List, [], ◌∷◌, ◌++◌, length,
  length-append, All, ap, sym, subst,
}
use qlvgm.Prelude.{Result, ok, err, ◌>>=◌, drop, ltb, ◌==◌, ltb→le, ==→eq, IsByte}
use qlvgm.Prelude.Bits.{bit_or-shifted}
use qlvgm.Buffer.{ByteBuffer, byte_at}
use qlvgm.Buffer.Laws.{IsWellFormed}
use qlvgm.Qlz.Format.{Window, Packet, Run, done, next}
use qlvgm.Qlz.Decode.{
  Decoder, DecodeError, out_of_rounds, trailing_payload, read_be32, round, decode_loop,
}
use qlvgm.Qlz.Decode.Output.{Holds-size}
use qlvgm.Qlz.Decode.Follows.{Shows, Packet-grows}
use qlvgm.Qlz.Decode.Sound.{Takes, round-Takes}

All-append_right : (bytes rest : List ℕ) → All IsByte (bytes ++ rest) → All IsByte rest
All-append_right [] rest a = a
All-append_right (b ∷ bytes) rest (first, a) = All-append_right bytes rest a

pub All-drop : (n : ℕ) (bytes : List ℕ) → All IsByte bytes → All IsByte (drop n bytes)
All-drop zero bytes a = a
All-drop (suc n) [] a = tt
All-drop (suc n) (b ∷ bytes) (first, a) = All-drop n bytes a

byte_at-IsByte : (bytes : List ℕ) (i : ℕ) → All IsByte bytes → byte_at bytes i < 256
byte_at-IsByte [] i a = omega arith
byte_at-IsByte (b ∷ bytes) zero (first, a) = first
byte_at-IsByte (b ∷ bytes) (suc i) (first, a) = byte_at-IsByte bytes i a

pub read_be32-bound : (bytes : List ℕ) (at : ℕ) → All IsByte bytes → read_be32 bytes at < 2 ^ 32
unfolding read_be32
read_be32-bound bytes at all =
    let a = byte_at bytes at in
    let b = byte_at bytes (at + 1) in
    let c = byte_at bytes (at + 2) in
    let d = byte_at bytes (at + 3) in
    let a_low = byte_at-IsByte bytes at all in
    let b_low = byte_at-IsByte bytes (at + 1) all in
    let c_low = byte_at-IsByte bytes (at + 2) all in
    let d_low = byte_at-IsByte bytes (at + 3) all in
    ground (
      arith,
      bit_or-shifted 24 a (b * 2 ^ 16) (omega (arith, b_low)),
      bit_or-shifted 16 (a * 256 + b) (c * 2 ^ 8) (omega (arith, c_low)),
      bit_or-shifted 8 (a * 65536 + b * 256 + c) d (omega (arith, d_low)),
    )

module _ (grants : ℕ → Bool) (end : ℕ) (small : end < 2 ^ 32) where
  -- The loop took a run of packets to the end of the bytes, or it stopped with an error of the decoder.
  abbrev pub Ends : Window → List ℕ → Result DecodeError ByteBuffer → Type 0
  Ends w unread (err e) = e ≢ out_of_rounds
  Ends w unread (ok b) =
      (v : Window) × Run w unread v × (b.bytes ≡ v.out) × (length v.out ≡ end) × IsWellFormed b

  Ends-longer :
      (w v : Window) (bytes rest : List ℕ) (r : Result DecodeError ByteBuffer)
      → Packet w bytes v
      → Ends v rest r
      → Ends w (bytes ++ rest) r
  Ends-longer w v bytes rest (err e) p h = h
  Ends-longer w v bytes rest (ok b) p (u, run, out, total, sound) =
      (u, next p run, out, total, sound)

  round-Ends :
      (w : Window) (unread : List ℕ) (r : Result DecodeError Decoder)
      (loop : Decoder → Result DecodeError ByteBuffer)
      → All IsByte unread
      → Takes grants end small w unread r
      → ((t : Decoder) (v : Window)
          → Shows t v end
          → length v.out ≤ end
          → All IsByte t.unread
          → length t.unread < length unread
          → Ends v t.unread (loop t))
      → Ends w unread (r >>= loop)
  round-Ends w unread (err e) loop bytes h k = h
  round-Ends w unread (ok t) loop all (v, bytes, p, split, shows, fits) k =
      let shorter : length t.unread < length unread = omega (
        arith,
        ap length split,
        length-append bytes t.unread,
        (Packet-grows grants end small p).0,
      ) in
      let left = All-append_right bytes t.unread (subst (All IsByte) split all) in
      subst (λ bs. Ends w bs (loop t)) (sym split)
        (Ends-longer w v bytes t.unread (loop t) p (k t v shows fits left shorter))

  loop_more :
      (fuel : ℕ) (s : Decoder)
      → ltb s.output.size end ≡ true
      → decode_loop grants (suc fuel) 0 end s
        ≡ (round grants 0 end s.unread s >>= decode_loop grants fuel 0 end)
  unfolding decode_loop
  loop_more fuel s more = simp (more, decode_loop)

  loop_full :
      (fuel : ℕ) (s : Decoder) (none : Bool)
      → ltb s.output.size end ≡ false
      → (length s.unread == 0) ≡ none
      → decode_loop grants (suc fuel) 0 end s ≡ (if none then ok s.output else err trailing_payload)
  unfolding decode_loop
  loop_full fuel s none full is = simp (full, is, decode_loop)

  pub decode_loop-Ends :
      (fuel : ℕ) (s : Decoder) (w : Window)
      → Shows s w end
      → length w.out ≤ end
      → All IsByte s.unread
      → length s.unread < fuel
      → Ends w s.unread (decode_loop grants fuel 0 end s)
  decode_loop-Ends zero s w h fits bytes enough = absurd (omega arith)
  decode_loop-Ends (suc fuel) s w h fits bytes enough = elim (Bool-cases (ltb s.output.size end)) [
    | inl more ↦ subst (Ends w s.unread) (sym (loop_more fuel s more)) (
        round-Ends w s.unread (round grants 0 end s.unread s) (decode_loop grants fuel 0 end) bytes
          (round-Takes grants end small s w s.unread h fits bytes)
          λ t v shows also left shorter. decode_loop-Ends fuel t v shows also left (omega arith))
    | inr full ↦ elim (Bool-cases (length s.unread == 0)) [
      | inr some ↦ subst (Ends w s.unread) (sym (loop_full fuel s false full some)) (λ e. cc)
      | inl none ↦
          let whole : length w.out ≡ end =
            omega (arith, Holds-size h.output, ltb→le s.output.size end full) in
          subst (Ends w s.unread) (sym (loop_full fuel s true full none)) (
            w,
            subst (λ bs. Run w bs w) (sym (nothing s.unread (==→eq (length s.unread) 0 none))) done,
            h.output.held,
            whole,
            h.output.sound,
          )
    ]
  ]
    where
      nothing : (xs : List ℕ) → length xs ≡ 0 → xs ≡ []
      nothing [] e = refl
      nothing (x ∷ xs) e = absurd (omega arith)
