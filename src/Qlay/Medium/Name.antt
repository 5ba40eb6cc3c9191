-- ===== src/Qlay/Medium/Name.antt =====
-- src/qlay.c: the medium name that a path gives.
use qlvgm.Prelude.{
  ℕ, suc, ◌+◌, ◌-◌, ◌≤◌, ◌<◌, ◌≡◌, ◌≢◌, refl, arith, ap, ◌∙◌, ltb, leb, ◌==◌, if◌then◌else◌,
  Bool-cases, inl, inr, Bool, true, false, ◌&&◌, none, List, [], ◌∷◌, ◌++◌, length, take, All,
  length-append, drop-append_length, ltb→lt, ltb→le, ==→eq, get_or-append, get_or-take, length-take,
  lt→ltb,
}
use qlvgm.Buffer.{byte_at}
use qlvgm.Qlay.Bytes.{put, fill, bytes_of}
use qlvgm.Qlay.Bytes.Laws.{put-at, put-outside, fill-inside, byte_at-bytes_of}
use qlvgm.Qlay.Image.{zeros}
use qlvgm.Qlay.Medium.{
  mdv_suffix, ascii_equal_ignore_case, behind_slash, name_length, padded, medium_name,
}

behind_slash-none : (name best : List ℕ) → All (λ c. c ≢ 47) name → behind_slash name best ≡ best
unfolding behind_slash
behind_slash-none [] best plain = refl
behind_slash-none (c ∷ name) best (one, more) = elim (Bool-cases (c == 47)) [
  | inl slash ↦ absurd (one (==→eq c 47 slash))
  | inr other ↦ rw (other, behind_slash) (behind_slash-none name best more)
]

behind_slash-last :
    (folder name best : List ℕ)
    → All (λ c. c ≢ 47) name
    → behind_slash (folder ++ 47 ∷ name) best ≡ name
unfolding behind_slash
behind_slash-last [] name best plain = behind_slash-none name name plain
behind_slash-last (c ∷ folder) name best plain = elim (Bool-cases (c == 47)) [
  | inl slash ↦ rw (slash, behind_slash) (behind_slash-last folder name (folder ++ 47 ∷ name) plain)
  | inr other ↦ rw (other, behind_slash) (behind_slash-last folder name best plain)
]

and-eq-true : (a b : Bool) → a && b ≡ true → b ≡ true
and-eq-true true b h = h
and-eq-true false b h = cc

ascii_equal-length :
    (left right : List ℕ) → ascii_equal_ignore_case left right ≡ true → length left ≡ length right
unfolding ascii_equal_ignore_case
ascii_equal-length [] [] e = refl
ascii_equal-length [] (b ∷ right) e = cc
ascii_equal-length (a ∷ left) [] e = cc
ascii_equal-length (a ∷ left) (b ∷ right) e =
    ap suc (ascii_equal-length left right (and-eq-true _ _ e))

name_length-suffix :
    (name suffix : List ℕ)
    → ascii_equal_ignore_case suffix mdv_suffix ≡ true
    → name_length (name ++ suffix) ≡ length name
unfolding name_length
name_length-suffix name suffix same =
    let whole = length-append name suffix in
    let four : length suffix ≡ 4 = ascii_equal-length suffix mdv_suffix same in
    let at : length (name ++ suffix) - 4 ≡ length name = omega (arith, whole, four) in
    let enough : leb 4 (length (name ++ suffix)) ≡ true = ground (arith, whole, four) in
    rw (enough, at, drop-append_length name suffix, same) refl

-- A name in a field of so many bytes, with spaces behind it.
pub name_byte : List ℕ → ℕ → ℕ
name_byte name i = if ltb i (length name) then byte_at name i else 0x20

field_at :
    (l : List ℕ) (count i : ℕ)
    → i < 10
    → count ≤ length l
    → byte_at (bytes_of 10 0 (put 0 (take count l) (fill 0 0x20 10 zeros))) i
      ≡ (if ltb i count then byte_at l i else 0x20)
field_at l count i low fits =
    let whole : length (take count l) ≡ count = omega (arith, length-take count l, fits) in
    byte_at-bytes_of 10 0 _ i low ∙ (elim (Bool-cases (ltb i count)) [
      | inl there ↦
          let inside = ltb→lt i count there in
          rw there (
            put-at 0 (take count l) _ i (omega (arith, whole, inside))
            ∙ get_or-take count l i 0 inside)
      | inr behind ↦
          let past = ltb→le i count behind in
          rw behind (
            put-outside 0 (take count l) _ (0 + i) (inr (omega (arith, whole, past)))
            ∙ fill-inside 0 0x20 10 zeros (0 + i) (omega arith) (omega arith))
    ])

padded-at :
    (name suffix : List ℕ) (i : ℕ)
    → i < 10
    → byte_at (padded (name ++ suffix) (length name)) i ≡ name_byte name i
unfolding padded name_byte
padded-at name suffix i low =
    let whole = length-append name suffix in
    elim (Bool-cases (ltb 10 (length name))) [
      | inl long ↦
          let above = ltb→lt 10 (length name) long in
          let inside : ltb i 10 ≡ true = lt→ltb i 10 low in
          let there : ltb i (length name) ≡ true = lt→ltb i (length name) (omega (arith, above)) in
          rw (long, there)
            (field_at (name ++ suffix) 10 i low (omega (arith, whole, above))
              ∙ rw inside (get_or-append name suffix i 0 (omega (arith, above))))
      | inr short ↦ rw short (
          field_at (name ++ suffix) (length name) i low (omega (arith, whole))
          ∙ (elim (Bool-cases (ltb i (length name))) [
            | inl there ↦ rw there (get_or-append name suffix i 0 (ltb→lt i (length name) there))
            | inr behind ↦ rw behind refl
          ]))
    ]

-- The path `name.mdv`, the suffix in small letters or capitals, in a folder or in none, gives the
-- medium name `name`, if `name.mdv` has no slash: its first ten bytes, or all of them with spaces
-- behind.
pub medium_name-path :
    (folder name suffix : List ℕ) (i : ℕ)
    → All (λ c. c ≢ 47) (name ++ suffix)
    → ascii_equal_ignore_case suffix mdv_suffix ≡ true
    → i < 10
    → (byte_at (medium_name (folder ++ 47 ∷ (name ++ suffix)) none) i ≡ name_byte name i)
      × (byte_at (medium_name (name ++ suffix) none) i ≡ name_byte name i)
unfolding medium_name
medium_name-path folder name suffix i plain same low =
    let file = name ++ suffix in
    let behind = behind_slash-last folder file (folder ++ 47 ∷ file) plain in
    let whole = behind_slash-none file file plain in
    let size = name_length-suffix name suffix same in
    (
      rw (behind, size) (padded-at name suffix i low),
      rw (whole, size) (padded-at name suffix i low),
    )
