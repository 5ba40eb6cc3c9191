-- ===== src/Qlz/Tests.antt =====
-- Concrete runs of the compressor and the decoder, and the theorems at concrete inputs.
use qlvgm.Prelude.{
  ℕ, ◌≡◌, refl, Bool, true, false, List, [], ◌∷◌, ◌++◌, ok, length, arith, ◌≤◌, ◌/◌, ◌+◌, ◌⊎◌, ◌-◌,
  ◌≢◌,
}
use qlvgm.Buffer.{byte_at}
use qlvgm.Buffer.{ByteBuffer, empty}
use qlvgm.Buffer.Laws.{IsWellFormed}
use qlvgm.Qlz.Compress.{compress_payload}
use qlvgm.Qlz.Compress.Progress.{Encodes, compress_payload-Encodes, compress_payload_total}
use qlvgm.Qlz.Stream.{Stream, stream_create, magic, be32_bytes}
use qlvgm.Qlz.Stream.Header.{stream_create_total}
use qlvgm.Qlz.Decode.{decode}
use qlvgm.Qlz.Decode.Total.{Decoded, decode-Decoded}
use qlvgm.Qlz.Decode.Whole.{decode-Run}
use qlvgm.Qlz.RoundTrip.{decode-stream_create, stream_create_size}
use qlvgm.Qlz.Match.{
  Match, match_saving, Chains, no_links, insert_position, find_matches, match_length,
}
use qlvgm.Qlz.Match.Finder.{
  Found, Below, Below-mono, Agree, find_matches-Found, insert_position-Below, match_length_longest,
}
use qlvgm.Qlz.Format.{opening, Window, Run, next, literal, short, done}
use qlvgm.Prelude.Int.{sub_ℕ}
use qlvgm.Qlz.Write.{write_match}
use qlvgm.Qlz.Write.Matches.{write_match-saving}

abbrev always : ℕ → Bool
always n = true

abbrev abc : List ℕ
abc = 1 ∷ 2 ∷ 3 ∷ 4 ∷ []

abbrev sample : List ℕ
sample = abc ++ abc ++ abc ++ (9 ∷ 9 ∷ 9 ∷ 9 ∷ 9 ∷ 9 ∷ abc)

abbrev sample_buffer : ByteBuffer
sample_buffer = record { bytes = sample; size = length sample; capacity = 256; failed = false }

sample_sound : IsWellFormed sample_buffer
sample_sound = record { counted = refl; fits = omega arith; bounded = omega arith }

stream_create_total_example : (s : Stream) × (stream_create always sample_buffer ≡ ok s)
stream_create_total_example = stream_create_total always sample_buffer (omega arith) (λ n. refl)

packed : Stream
packed = (stream_create_total always sample_buffer (omega arith) (λ n. refl)).0

packed_eq : stream_create always sample_buffer ≡ ok packed
unfolding packed
packed_eq = (stream_create_total always sample_buffer (omega arith) (λ n. refl)).1

decode-stream_create_example :
    (b : ByteBuffer) × (decode always packed.contents.bytes empty ≡ ok b) × (b.bytes ≡ sample)
decode-stream_create_example =
    decode-stream_create always sample_buffer sample_sound (omega arith) always packed packed_eq
      (λ n. refl)

stream_create_size_example :
    (packed.raw_size ≡ 22) × (length packed.contents.bytes ≤ 12 + (22 + (22 + 63) / 64))
stream_create_size_example =
    stream_create_size always sample_buffer sample_sound (omega arith) packed packed_eq

payload : ByteBuffer
payload = (compress_payload_total always sample (omega arith) (λ n. refl)).0

payload_eq : compress_payload always sample empty ≡ ok payload
unfolding payload
payload_eq = (compress_payload_total always sample (omega arith) (λ n. refl)).1

compress_payload-Encodes_example : Encodes sample payload × IsWellFormed payload
compress_payload-Encodes_example =
    compress_payload-Encodes always sample (omega arith) payload payload_eq

-- Two literals and a match of five bytes from two back.
abbrev two_packets : List ℕ
two_packets = 1 ∷ 7 ∷ 8 ∷ (66 ∷ 1 ∷ [])

abbrev after_two : Window
after_two = record { out = 7 ∷ 8 ∷ 7 ∷ 8 ∷ 7 ∷ 8 ∷ 7 ∷ []; distance = 2; is_open = true }

two_packets-Run : Run opening two_packets after_two
unfolding qlvgm.Qlz.Format.copy
two_packets-Run =
    next (literal (7 ∷ 8 ∷ []) (omega arith) (omega arith))
      (next (short 2 1 (omega arith) (omega arith) (omega arith)) done)

decode-Run_example :
    (b : ByteBuffer) × (decode always
        (magic ++ (be32_bytes 7 ++ (be32_bytes 5 ++ two_packets)))
        empty
      ≡ ok b)
    × (b.bytes ≡ after_two.out)
decode-Run_example =
    decode-Run always two_packets after_two two_packets-Run (omega arith) (omega arith) (λ n. refl)

abbrev no_chains : Chains
no_chains = record { heads = no_links; previous = no_links }

abbrev one_chain : Chains
one_chain = insert_position sample no_chains 0

no_chains-Below : Below no_chains 0
no_chains-Below = record { heads = λ i c e. absurd (cc e); previous = λ i c e. absurd (cc e) }

find_matches-Found_example :
    Found sample 4 (find_matches sample one_chain 4).0
    × Found sample 4 (find_matches sample one_chain 4).1
find_matches-Found_example =
    find_matches-Found sample one_chain 4 (omega arith) (omega arith)
      (Below-mono (omega arith) (insert_position-Below sample no_chains 0 no_chains-Below))

match_length_longest_example :
    Agree sample 0 4 (match_length sample 0 4 18 0)
    × (match_length sample 0 4 18 0 ≤ 18)
    × ((match_length sample 0 4 18 0 ≡ 18)
        ⊎ (byte_at sample (0 + match_length sample 0 4 18 0)
            ≢ byte_at sample (4 + match_length sample 0 4 18 0)))
match_length_longest_example = match_length_longest sample 0 4

abbrev far_match : Match
far_match = record { length = 20; distance = 300 }

empty-IsWellFormed : IsWellFormed empty
empty-IsWellFormed = record { counted = refl; fits = omega arith; bounded = omega arith }

write_match-saving_example :
    let r = write_match always empty far_match in
    (r.1 ≡ true) × (match_saving far_match ≡ sub_ℕ 20 (length r.0.bytes - length empty.bytes))
write_match-saving_example =
    write_match-saving always empty far_match (λ n. refl) empty-IsWellFormed refl (omega arith)
      (omega arith)

abbrev two_stream : List ℕ
two_stream = b'Q' ∷ b'L' ∷ b'Z' ∷ b'1' ∷ 0 ∷ 0 ∷ 0 ∷ 7 ∷ 0 ∷ 0 ∷ 0 ∷ 5 ∷ two_packets

decode-Decoded_example : Decoded two_stream (decode always two_stream empty)
decode-Decoded_example = decode-Decoded always two_stream (
  omega arith,
  (
    omega arith,
    (
      omega arith,
      (
        omega arith,
        (
          omega arith,
          (
            omega arith,
            (
              omega arith,
              (
                omega arith,
                (
                  omega arith,
                  (
                    omega arith,
                    (
                      omega arith,
                      (
                        omega arith,
                        (
                          omega arith,
                          (omega arith, (omega arith, (omega arith, (omega arith, tt)))),
                        ),
                      ),
                    ),
                  ),
                ),
              ),
            ),
          ),
        ),
      ),
    ),
  ),
)
