-- ===== src/Qlz/Stream/Header.antt =====
-- src/qlz.c: the header and the payload that `qlz_stream_create` collects.
use qlvgm.Prelude.{ℕ, ◌<◌, ◌^◌, ◌≡◌, refl, arith, Bool, true, false, List}
use qlvgm.Prelude.{◌++◌, length, length-append, ap, ◌∙◌, sym, subst, ok, inl, inr}
use qlvgm.Prelude.{>>=-eq-ok, ok_injective}
use qlvgm.Buffer.{ByteBuffer, empty}
use qlvgm.Buffer.Laws.{Wrote, IsWellFormed}
use qlvgm.Buffer.Writes.{Appends, append-Appends, seq-Appends}
use qlvgm.Qlz.Compress.{compress_payload}
use qlvgm.Qlz.Compress.Progress.{Encodes, compress_payload-Encodes, compress_payload_total}
use qlvgm.Qlz.Stream.{Stream, magic, be32_bytes, append_be32, collect, collected, stream_create}

abbrev pub layout : ℕ → ByteBuffer → List ℕ
layout raw_size payload =
    magic ++ (be32_bytes raw_size ++ (be32_bytes payload.size ++ payload.bytes))

-- A stream has the header, the two sizes and a payload that encodes the input.
pub record IsStream (input : ByteBuffer) (s : Stream) : Type 0 where
  pub payload : ByteBuffer
  pub written : s.contents.bytes ≡ layout input.size payload
  pub raw : s.raw_size ≡ input.size
  pub encodes : Encodes input.bytes payload
  pub sound : IsWellFormed payload
  pub contents_sound : IsWellFormed s.contents

module _ (grants : ℕ → Bool) where
  collect-Appends :
      (payload : ByteBuffer) (raw_size : ℕ)
      → Appends grants empty (layout raw_size payload) (collect grants payload raw_size)
  unfolding collect append_be32
  collect-Appends payload raw_size =
      seq-Appends grants empty magic _ _ _ (append-Appends grants empty magic) (λ a.
        seq-Appends grants a (be32_bytes raw_size) _ _ _ (append-Appends grants a _) (λ b.
          seq-Appends grants b (be32_bytes payload.size) _ _ _ (append-Appends grants b _)
            (λ c. append-Appends grants c payload.bytes)))

  collected-eq-ok :
      (payload : ByteBuffer) (raw_size : ℕ) (r : ByteBuffer × Bool) (s : Stream)
      → Wrote empty (layout raw_size payload) r
      → IsWellFormed r.0
      → collected grants raw_size r ≡ ok s
      → (s.contents.bytes ≡ layout raw_size payload)
        × (s.raw_size ≡ raw_size)
        × IsWellFormed s.contents
  unfolding collected
  collected-eq-ok payload raw_size (c, true) s (inl (_, bytes, _)) w e =
      let same = ok_injective e in
      (
        sym (ap (λ (t : Stream). t.contents.bytes) same) ∙ bytes,
        sym (ap (λ (t : Stream). t.raw_size) same),
        subst (λ (t : Stream). IsWellFormed t.contents) same w,
      )
  collected-eq-ok payload raw_size (c, true) s (inr (bad, _)) w e = absurd (cc bad)
  collected-eq-ok payload raw_size (c, false) s a w e = absurd (cc e)

  pub stream_create-IsStream :
      (input : ByteBuffer) (s : Stream)
      → length input.bytes < 2 ^ 31
      → stream_create grants input ≡ ok s
      → IsStream input s
  unfolding stream_create
  stream_create-IsStream input s small e =
      let (payload, e₁, e₂) = >>=-eq-ok (compress_payload grants input.bytes empty) _ e in
      let (enc, sound) = compress_payload-Encodes grants input.bytes small payload e₁ in
      let a = collect-Appends payload input.size in
      let (bytes, raw, whole) =
        collected-eq-ok payload input.size (collect grants payload input.size) s a.wrote
          (a.keeps (omega arith)) e₂ in
      record {
        payload = payload;
        written = bytes;
        raw = raw;
        encodes = enc;
        sound = sound;
        contents_sound = whole;
      }

  collected_total :
      (raw_size : ℕ) (r : ByteBuffer × Bool)
      → r.1 ≡ true
      → (s : Stream) × (collected grants raw_size r ≡ ok s)
  unfolding collected
  collected_total raw_size (c, true) e = (record { contents = c; raw_size = raw_size }, refl)
  collected_total raw_size (c, false) e = absurd (cc e)

  -- For an input of less than 2 ^ 31 bytes and an allocator that grants every request,
  -- `stream_create` returns a stream.
  pub stream_create_total :
      (input : ByteBuffer)
      → length input.bytes < 2 ^ 31
      → ((n : ℕ) → grants n ≡ true)
      → (s : Stream) × (stream_create grants input ≡ ok s)
  unfolding stream_create
  stream_create_total input small all =
      let (payload, e) = compress_payload_total grants input.bytes small all in
      let ((_, few), sound) = compress_payload-Encodes grants input.bytes small payload e in
      let a = collect-Appends payload input.size in
      let (done, _, _) = a.accepts all (omega arith) refl (
        omega (
          arith,
          length-append magic (be32_bytes input.size ++ (be32_bytes payload.size ++ payload.bytes)),
          few,
        )) in
      let (s, f) = collected_total input.size (collect grants payload input.size) done in
      (s, rw e f)
