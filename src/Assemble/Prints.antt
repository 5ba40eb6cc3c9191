-- ===== src/Assemble/Prints.antt =====
-- src/output.c: what the calls of `write_player_source` print, against the text of the source.
use qlvgm.Prelude.{
  ℕ, zero, suc, ◌-◌, ◌≡◌, refl, ap, sym, ◌∙◌, ◌==◌, not, ◌||◌, Bool-cases, inl, inr,
}
use qlvgm.Prelude.{List, [], ◌∷◌, ◌++◌, append_assoc, append-nil, length, take, drop, get_or}
use qlvgm.Os.{Call, fprintf_call, fwrite_call, fputs_call}
use qlvgm.Program.{
  hex_byte, row_start, row_bytes, data_rows, line_end, data_label, source_end, source_header,
  player_source,
}
use qlvgm.Assemble.{row_calls, data_calls, line_calls, Numbers, source_calls}

abbrev pub text_of : Call → List ℕ
text_of (fprintf_call text) = text
text_of (fwrite_call text) = text
text_of (fputs_call text) = text
text_of c = []

-- What calls print.
abbrev pub texts : List Call → List ℕ
texts [] = []
texts (c ∷ calls) = text_of c ++ texts calls

texts-append : (xs ys : List Call) → texts (xs ++ ys) ≡ texts xs ++ texts ys
texts-append [] ys = refl
texts-append (c ∷ xs) ys =
    ap (text_of c ++◌) (texts-append xs ys) ∙ sym (append_assoc (text_of c) (texts xs) (texts ys))

texts-row_calls : (bytes : List ℕ) → texts (row_calls bytes) ≡ row_bytes bytes
unfolding row_calls row_bytes
texts-row_calls [] = refl
texts-row_calls (b ∷ []) = append-nil (36 ∷ hex_byte b)
texts-row_calls (b ∷ c ∷ rest) = ap (λ t. (36 ∷ hex_byte b) ++ 44 ∷ t) (texts-row_calls (c ∷ rest))

texts-data_calls :
    (fuel : ℕ) (bytes : List ℕ) → texts (data_calls fuel bytes) ≡ data_rows fuel bytes
unfolding data_calls data_rows
texts-data_calls zero bytes = refl
texts-data_calls (suc fuel) [] = refl
texts-data_calls (suc fuel) (b ∷ rest) =
    let row = take 16 (b ∷ rest) in
    let others = data_calls fuel (drop 16 (b ∷ rest)) in
    texts-append (fputs_call row_start ∷ row_calls row) (fputs_call (10 ∷ []) ∷ others)
    ∙ ap (λ t. row_start ++ t ++ 10 ∷ texts others) (texts-row_calls row)
    ∙ ap (λ t. row_start ++ row_bytes row ++ 10 ∷ t) (texts-data_calls fuel (drop 16 (b ∷ rest)))

texts-line_calls : (player : List ℕ) → texts (line_calls player) ≡ line_end player
unfolding line_calls line_end
texts-line_calls player =
    elim (Bool-cases (length player == 0 || not (get_or player (length player - 1) 0 == 10))) [
      | inl more ↦ rw (more) refl
      | inr ended ↦ rw (ended) refl
    ]

-- The calls of `write_player_source` print the text of the player's source, with the data in rows.
pub texts-source_calls :
    (player : List ℕ) (n : Numbers)
    → texts (source_calls player n)
      ≡ player_source player n.rate n.raw_size n.loop_offset n.test_frames n.compressed
unfolding source_calls player_source
texts-source_calls player n =
    let header = source_header n.rate n.raw_size n.loop_offset n.test_frames in
    let data_part = data_calls (length n.compressed) n.compressed in
    let split =
      texts-append
        (fprintf_call header ∷ fwrite_call player ∷ line_calls player
          ++ fputs_call data_label ∷ data_part)
        (fputs_call source_end ∷ []) in
    let first =
      texts-append (fprintf_call header ∷ fwrite_call player ∷ line_calls player)
        (fputs_call data_label ∷ data_part) in
    let line = texts-line_calls player in
    let rows = texts-data_calls (length n.compressed) n.compressed in
    simp (split, first, line, rows, append_assoc, append-nil)
