-- ===== src/Vgm/Convert/Batched.antt =====
-- src/vgm.c: what the second loop of `convert_segment` puts into the frames.
use qlvgm.Prelude.{ℕ, zero, suc, ◌+◌, ◌/◌, ◌^◌, ◌≤◌, ◌<◌, ◌≡◌, refl, arith, ap, sym, ◌∙◌, subst}
use qlvgm.Prelude.{Bool, true, false, Bool-cases, inl, inr, ◌==◌, ==→eq, ==→ne, ==_self, sub32}
use qlvgm.Prelude.{List, [], ◌∷◌, ◌++◌, append-nil, append_assoc, length, get_or, set, All}
use qlvgm.Prelude.{leb, leb→le, leb→lt, ◌⊎◌, length-set, get_or-set_self, get_or-set_ne}
use native.Mathlib.Nat.{div-add-mod, div-zero, mod-lt, mul-le-mul_left}
use qlvgm.Buffer.{ByteBuffer, empty}
use qlvgm.Buffer.Laws.{IsWellFormed}
use qlvgm.Vgm.Song.{Write}
use qlvgm.Vgm.Parse.Order.{Ascends, Ascends-last}
use qlvgm.Vgm.Converter.{Converter, Emitted, write}
use qlvgm.Vgm.Converter.Emits.{Emits, IsRaw, write-Sends}
use qlvgm.Vgm.Convert.{frame_index, batch}
use qlvgm.Vgm.Played.{
  Pair, Tagged, pair_bytes, pair_bytes-append, play, play-append, pairs, pairs-append, in_frame,
  in_frame-append,
}
use qlvgm.Vgm.Played.Order.{Rises, Rises-lower}

-- Each write with its frame.
abbrev pub tagged : ℕ → ℕ → List Write → List Tagged
tagged start spf [] = []
tagged start spf (w ∷ ws) = (frame_index start spf w.sample, (w.reg, w.value)) ∷ tagged start spf ws

abbrev tag : ℕ → List Pair → List Tagged
tag index [] = []
tag index (p ∷ ps) = (index, p) ∷ tag index ps

pairs-tag : (index : ℕ) (ps : List Pair) → pairs (tag index ps) ≡ ps
pairs-tag index [] = refl
pairs-tag index (p ∷ ps) = ap (◌∷◌ p) (pairs-tag index ps)

in_frame-tag_self : (index : ℕ) (ps : List Pair) → in_frame index (tag index ps) ≡ ps
in_frame-tag_self index [] = refl
in_frame-tag_self index (p ∷ ps) = rw (==_self index) (ap (◌∷◌ p) (in_frame-tag_self index ps))

in_frame-tag_ne :
    (i index : ℕ) (ps : List Pair) → (index == i) ≡ false → in_frame i (tag index ps) ≡ []
in_frame-tag_ne i index [] h = refl
in_frame-tag_ne i index (p ∷ ps) h = rw (h) (in_frame-tag_ne i index ps h)

Rises-tag :
    (low index high : ℕ) (ps : List Pair) (es : List Tagged)
    → low ≤ index
    → index < high
    → Rises index es high
    → Rises low (tag index ps ++ es) high
Rises-tag low index high [] es first last r = Rises-lower low index high es first r
Rises-tag low index high (p ∷ ps) es first last r =
    (first, last, Rises-tag index index high ps es (omega arith) last r)

-- The frames behind a batch: each has the bytes that it had and the pairs that are tagged with its index.
pub record Batched (es : List Tagged) (chip : ℕ → ℕ) (frames next : List ByteBuffer) (c : Converter)
    : Type 0 where
  pub counted : length next ≡ length frames
  pub bytes :
      (i : ℕ)
      → i < length frames
      → (get_or next i empty).bytes ≡ (get_or frames i empty).bytes ++ pair_bytes (in_frame i es)
  pub played : play chip (pairs es) ≡ c.target
  pub keeps :
      ((i : ℕ) → IsWellFormed (get_or frames i empty))
      → (i : ℕ) → IsWellFormed (get_or next i empty)

div-le-div : (s a b : ℕ) → a ≤ b → a / s ≤ b / s
div-le-div zero a b h = rw (div-zero a, div-zero b) (omega arith)
div-le-div (suc s) a b h = elim (Bool-cases (leb (a / suc s) (b / suc s))) [
  | inl fine ↦ leb→le (a / suc s) (b / suc s) fine
  | inr more ↦
      let over : b / suc s + 1 ≤ a / suc s = omega (arith, leb→lt (a / suc s) (b / suc s) more) in
      let pos : 0 < suc s = omega arith in
      absurd (
        omega (
          arith,
          div-add-mod a (suc s),
          div-add-mod b (suc s),
          mod-lt b pos,
          mul-le-mul_left {m = b / suc s + 1} {n = a / suc s} (suc s) over,
        ))
]

-- Later samples are in later frames.
frame_index-le :
    (start spf a b : ℕ)
    → start ≤ a
    → a ≤ b
    → b < 2 ^ 32
    → frame_index start spf a ≤ frame_index start spf b
frame_index-le start spf a b low le high =
    div-le-div spf (sub32 a start) (sub32 b start) (omega arith)

get_or-set-cases :
    (frames : List ByteBuffer) (index i : ℕ) (frame : ByteBuffer)
    → index < length frames
    → ((index == i ≡ true) × (get_or (set frames index frame) i empty ≡ frame))
      ⊎ ((index == i ≡ false) × (get_or (set frames index frame) i empty ≡ get_or frames i empty))
get_or-set-cases frames index i frame h = elim (Bool-cases (index == i)) [
  | inl here ↦ inl (
    here,
    ap (λ k. get_or (set frames index frame) k empty) (sym (==→eq index i here))
        ∙ get_or-set_self frames index frame empty h,
  )
  | inr away ↦ inr (away, get_or-set_ne frames index i frame empty (==→ne index i away))
]

-- One write in front of the others.
Batched-cons :
    (es : List Tagged) (ps : List Pair) (chip : ℕ → ℕ) (frames next : List ByteBuffer) (index : ℕ)
    (frame : ByteBuffer) (c last : Converter)
    → index < length frames
    → Emits ps chip (get_or frames index empty) (c, (frame, true))
    → Batched es c.target (set frames index frame) next last
    → Batched (tag index ps ++ es) chip frames next last
Batched-cons es ps chip frames next index frame c last inside (bytes, played, keeps) rest = record {
  counted = rest.counted ∙ length-set frames index frame;
  bytes = λ i h.
      let more = rest.bytes i (subst (λ n. i < n) (sym (length-set frames index frame)) h) in
      let split = in_frame-append i (tag index ps) es in
      elim (get_or-set-cases frames index i frame inside) [
        | inl (here, same) ↦
            let own : in_frame i (tag index ps) ≡ ps =
              ap (λ k. in_frame k (tag index ps)) (sym (==→eq index i here))
              ∙ in_frame-tag_self index ps in
            let at : get_or frames index empty ≡ get_or frames i empty =
              ap (λ k. get_or frames k empty) (==→eq index i here) in
            more
            ∙ ap (λ f. f.bytes ++ pair_bytes (in_frame i es)) same
            ∙ ap (◌++ pair_bytes (in_frame i es)) (bytes ∙ ap (λ f. f.bytes ++ pair_bytes ps) at)
            ∙ append_assoc (get_or frames i empty).bytes (pair_bytes ps)
                (pair_bytes (in_frame i es))
            ∙ sym (
                ap ((get_or frames i empty).bytes ++◌) (
                  ap pair_bytes (split ∙ ap (◌++ in_frame i es) own)
                  ∙ pair_bytes-append ps (in_frame i es)))
        | inr (away, same) ↦
            let none = in_frame-tag_ne i index ps away in
            more
            ∙ ap (λ f. f.bytes ++ pair_bytes (in_frame i es)) same
            ∙ sym (
                ap (λ qs. (get_or frames i empty).bytes ++ pair_bytes qs)
                  (split ∙ ap (◌++ in_frame i es) none))
      ];
  played =
      ap (play chip) (pairs-append (tag index ps) es ∙ ap (◌++ pairs es) (pairs-tag index ps))
      ∙ play-append chip ps (pairs es)
      ∙ ap (λ t. play t (pairs es)) played
      ∙ rest.played;
  keeps = λ fine. rest.keeps λ i. elim (get_or-set-cases frames index i frame inside) [
    | inl (_, same) ↦ subst IsWellFormed (sym same) (keeps (fine index))
    | inr (_, same) ↦ subst IsWellFormed (sym same) (fine i)
  ];
}

Batched-nil : (frames : List ByteBuffer) (c : Converter) → Batched [] c.target frames frames c
Batched-nil frames c = record {
  counted = refl;
  bytes = λ i h. sym (append-nil (get_or frames i empty).bytes);
  played = refl;
  keeps = λ fine. fine;
}

-- What a batch leaves, in the order of the frames and, without a conversion, with the song's writes.
abbrev pub BatchedSome :
    ℕ
    → ℕ
    → ℕ
    → List Write
    → Converter
    → List ByteBuffer
    → Converter × (List ByteBuffer × Bool)
    → Type 0
BatchedSome low start spf ws c frames (last, (next, done)) =
    (es : List Tagged) × Batched es c.target frames next last
    × Rises (frame_index start spf low) es (length frames)
    × (IsRaw c → (es ≡ tagged start spf ws) × IsRaw last)

-- A write that succeeds leaves the batch of the others.
batch-step :
    (grants : ℕ → Bool) (w : Write) (ws : List Write) (start spf : ℕ) (c : Converter)
    (frames : List ByteBuffer)
    → let index = frame_index start spf w.sample in
      let r = write grants c (get_or frames index empty) w.reg w.value in
      (r.1.1 ≡ true
        → batch grants (w ∷ ws) start spf c frames
          ≡ batch grants ws start spf r.0 (set frames index r.1.0))
      × (r.1.1 ≡ false → (batch grants (w ∷ ws) start spf c frames).1.1 ≡ false)
unfolding batch
batch-step grants w ws start spf c frames =
    (λ sent. rw (sent, batch) refl, λ stopped. rw (stopped, batch) refl)

Emits-sent :
    (ps : List Pair) (chip : ℕ → ℕ) (frame : ByteBuffer) (r : Emitted)
    → r.1.1 ≡ true
    → Emits ps chip frame r
    → Emits ps chip frame (r.0, (r.1.0, true))
Emits-sent ps chip frame (c, (f, true)) sent e = e
Emits-sent ps chip frame (c, (f, false)) sent e = absurd (cc sent)

-- For writes in order that have frames: a batch that succeeds puts writes into the frames, in the
-- order of the frames, and without a conversion those of the song.
pub batch-Batched :
    (grants : ℕ → Bool) (ws : List Write) (low high start spf : ℕ) (c : Converter)
    (frames : List ByteBuffer)
    → Ascends low ws high
    → start ≤ low
    → high < 2 ^ 32
    → All (λ w. frame_index start spf w.sample < length frames) ws
    → (batch grants ws start spf c frames).1.1 ≡ true
    → BatchedSome low start spf ws c frames (batch grants ws start spf c frames)
unfolding batch
batch-Batched grants [] low high start spf c frames a le short inside done =
    ([], Batched-nil frames c, tt, λ raw. (refl, raw))
batch-Batched grants (w ∷ ws) low high start spf c frames (first, others) le short (here, inside)
      done =
    let index = frame_index start spf w.sample in
    let r = write grants c (get_or frames index empty) w.reg w.value in
    let (ps, sent, raw_sent) = write-Sends grants c (get_or frames index empty) w.reg w.value in
    let len = length-set frames index r.1.0 in
    let room = subst (λ n. All (λ v. frame_index start spf v.sample < n) ws) (sym len) inside in
    let (went, stops) = batch-step grants w ws start spf c frames in
    elim (Bool-cases r.1.1) [
      | inr stopped ↦ absurd (cc (stops stopped, done))
      | inl sent_it ↦
          let step = went sent_it in
          let (es, rest, rises, raw_rest) =
            batch-Batched grants ws w.sample high start spf r.0 (set frames index r.1.0) others
              (omega arith) short room (ap (λ q. q.1.1) (sym step) ∙ done) in
          subst (BatchedSome low start spf (w ∷ ws) c frames) (sym step) (
            tag index ps ++ es,
            Batched-cons es ps c.target frames _ index r.1.0 r.0 _ here
                (Emits-sent ps c.target (get_or frames index empty) r sent_it sent) rest,
            Rises-tag (frame_index start spf low) index (length frames) ps es
                (frame_index-le start spf low w.sample le first
                  (omega (arith, Ascends-last w.sample ws high others)))
                here (subst (Rises index es) len rises),
            λ raw.
                let (alone, still) = raw_sent raw in
                let (same, end) = raw_rest still in
                (
                  ap (λ qs. tag index qs ++ es) alone ∙ ap (◌∷◌ (index, (w.reg, w.value))) same,
                  end,
                ),
          )
    ]
