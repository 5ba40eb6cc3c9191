-- ===== src/Qlay/Output/Writes.antt =====
-- src/qlay.c: what `qlay_write_bytes` and `qlay_output_write` write.
use qlvgm.Prelude.{
  ℕ, zero, suc, ◌-◌, ◌≡◌, inl, inr, refl, ap, sym, ◌∙◌, Bool-cases, none, some, List, [], ◌∷◌, ◌++◌,
  append-nil, append_assoc, length, take, drop, ◌==◌, ok, err, ◌>>=◌, subst,
}
use qlvgm.Os.{write_call, Os, interrupted}
use qlvgm.Os.History.{count-cases, written, added, Kept}
use qlvgm.Qlay.Output.{
  Output, Step, write_bytes, flush_full, write_loop, output_write, make_call, last_answer,
}

-- The same output, with more calls, none of which put a file in another's place.
pub record Same (os : Os) (o o' : Output) : Type 0 where
  pub path : o'.path ≡ o.path
  pub temporary_path : o'.temporary_path ≡ o.temporary_path
  pub kept : Kept os o.history → Kept os o'.history

pub Same-trans : (os : Os) (a b c : Output) → Same os a b → Same os b c → Same os a c
Same-trans os a b c p q = record {
  path = q.path ∙ p.path;
  temporary_path = q.temporary_path ∙ p.temporary_path;
  kept = λ k. q.kept (p.kept k);
}

-- A step that, when it does not fail, leaves `content` in the file and the buffer.
unfoldable pub Leaves : Os → Output → List ℕ → Step → Type 0
Leaves os o content (ok o') = (written os o'.history ++ o'.buffered ≡ content) × Same os o o'
Leaves os o content (err (stop, o')) = Same os o o'

-- A step of `qlay_write_bytes`, which leaves the buffer alone.
unfoldable pub Writes : Os → Output → List ℕ → Step → Type 0
Writes os o bytes (ok o') =
    (written os o'.history ≡ written os o.history ++ bytes)
    × (o'.buffered ≡ o.buffered)
    × Same os o o'
Writes os o bytes (err (stop, o')) = Same os o o'

Same-write : (os : Os) (bytes : List ℕ) (o : Output) → Same os o (make_call (write_call bytes) o)
unfolding make_call Kept
Same-write os bytes o = record { path = refl; temporary_path = refl; kept = λ k. k }

Writes-more :
    (os : Os) (o asked : Output) (first bytes : List ℕ) (s : Step)
    → written os asked.history ≡ written os o.history ++ first
    → asked.buffered ≡ o.buffered
    → Same os o asked
    → Writes os asked bytes s
    → Writes os o (first ++ bytes) s
unfolding Writes
Writes-more os o asked first bytes (ok o') more keep same (rest, kept, also) = (
  rest ∙ ap (λ l. l ++ bytes) more ∙ append_assoc (written os o.history) first bytes,
  kept ∙ keep,
  Same-trans os o asked o' same also,
)
Writes-more os o asked first bytes (err (stop, o')) more keep same rest =
    Same-trans os o asked o' same rest

take-append-drop : (n : ℕ) (l : List ℕ) → take n l ++ drop n l ≡ l
take-append-drop zero l = refl
take-append-drop (suc n) [] = refl
take-append-drop (suc n) (x ∷ l) = ap (◌∷◌ x) (take-append-drop n l)

-- One call of `write` with the answer it gets.
module _ (os : Os) (bytes : List ℕ) (o : Output) where
  abbrev asked : Output
  asked = make_call (write_call bytes) o

  written-none :
      (last_answer os asked).count ≡ none → written os asked.history ≡ written os o.history ++ []
  unfolding make_call written added
  written-none e = rw (e, added) refl

  written-some :
      (n : ℕ)
      → (last_answer os asked).count ≡ some n
      → written os asked.history ≡ written os o.history ++ take n bytes
  unfolding make_call written added
  written-some n e = rw (e, added) refl

pub write_bytes-Writes :
    (os : Os) (rounds : ℕ) (bytes : List ℕ) (o : Output)
    → Writes os o bytes (write_bytes os rounds bytes o)
unfolding write_bytes Writes interrupted make_call
write_bytes-Writes os zero bytes o = record { path = refl; temporary_path = refl; kept = λ k. k }
write_bytes-Writes os (suc rounds) [] o = (
  sym (append-nil (written os o.history)),
  refl,
  record { path = refl; temporary_path = refl; kept = λ k. k },
)
write_bytes-Writes os (suc rounds) (b ∷ bytes) o =
    let a = asked os (b ∷ bytes) o in
    let same = Same-write os (b ∷ bytes) o in
    elim (count-cases (last_answer os a).count) [
      | inl failed ↦ elim (Bool-cases ((last_answer os a).errno == os.eintr)) [
        | inl signal ↦
            rw (failed, signal, write_bytes)
              (Writes-more os o a [] (b ∷ bytes) _ (written-none os (b ∷ bytes) o failed) refl same
                (write_bytes-Writes os rounds (b ∷ bytes) a))
        | inr other ↦ rw (failed, other, write_bytes) same
      ]
      | inr (inl nothing) ↦ rw (nothing, write_bytes) same
      | inr (inr (n, some_bytes)) ↦
          rw (some_bytes, write_bytes)
            (subst (λ l. Writes os o l (write_bytes os rounds (drop n bytes) a))
              (ap (◌∷◌ b) (take-append-drop n bytes))
              (Writes-more os o a (b ∷ take n bytes) (drop n bytes) _
                (written-some os (b ∷ bytes) o (suc n) some_bytes) refl same
                (write_bytes-Writes os rounds (drop n bytes) a)))
    ]

-- What is in the file and in the buffer.
abbrev pub content : Os → Output → List ℕ
content os o = written os o.history ++ o.buffered

-- Emptying the buffer after it was written.
emptied-Leaves :
    (os : Os) (o : Output) (s : Step)
    → Writes os o o.buffered s
    → Leaves os o (content os o) (s >>= λ o'. ok (record o' { buffered = [] }))
unfolding Writes Leaves
emptied-Leaves os o (ok o') (more, keep, same) = (
  append-nil (written os o'.history) ∙ more,
  record { path = same.path; temporary_path = same.temporary_path; kept = same.kept },
)
emptied-Leaves os o (err (stop, o')) same = same

pub Same-refl : (os : Os) (o : Output) → Same os o o
Same-refl os o = record { path = refl; temporary_path = refl; kept = λ k. k }

flush_full-Leaves :
    (os : Os) (rounds : ℕ) (o : Output) → Leaves os o (content os o) (flush_full os rounds o)
unfolding flush_full Leaves
flush_full-Leaves os rounds o = elim (Bool-cases (length o.buffered == 4096)) [
  | inl full ↦
      rw (full, flush_full, Leaves)
        (emptied-Leaves os o _ (write_bytes-Writes os rounds o.buffered o))
  | inr room ↦ rw (room, flush_full, Leaves) (refl, Same-refl os o)
]

Leaves-from :
    (os : Os) (o o' : Output) (after : List ℕ) (s : Step)
    → Same os o o'
    → Leaves os o' after s
    → Leaves os o after s
unfolding Leaves
Leaves-from os o o' after (ok o'') same (left, also) = (left, Same-trans os o o' o'' same also)
Leaves-from os o o' after (err (stop, o'')) same also = Same-trans os o o' o'' same also

-- A step behind another.
pub Leaves-then :
    (os : Os) (o : Output) (first second : List ℕ) (s : Step) (next : Output → Step)
    → Leaves os o first s
    → ((o' : Output) → content os o' ≡ first → Same os o o' → Leaves os o' second (next o'))
    → Leaves os o second (s >>= next)
unfolding Leaves
Leaves-then os o first second (ok o') next (holds, same) rest =
    Leaves-from os o o' second (next o') same (rest o' holds same)
Leaves-then os o first second (err (stop, o')) next same rest = same

write_loop-Leaves :
    (os : Os) (rounds fuel : ℕ) (bytes : List ℕ) (o : Output)
    → Leaves os o (content os o ++ bytes) (write_loop os rounds fuel bytes o)
unfolding write_loop
write_loop-Leaves os rounds fuel [] o =
    unfold Leaves in (sym (append-nil (content os o)), Same-refl os o)
write_loop-Leaves os rounds zero (b ∷ bytes) o = unfold Leaves in Same-refl os o
write_loop-Leaves os rounds (suc fuel) (b ∷ bytes) o =
    let available = 4096 - length o.buffered in
    let filled = record o { buffered = o.buffered ++ take available (b ∷ bytes) } in
    let same : Same os o filled = record { path = refl; temporary_path = refl; kept = λ k. k } in
    let left : content os filled ++ drop available (b ∷ bytes) ≡ content os o ++ (b ∷ bytes) =
      ap (λ l. l ++ drop available (b ∷ bytes))
        (sym (append_assoc (written os o.history) o.buffered (take available (b ∷ bytes))))
      ∙ append_assoc (content os o) (take available (b ∷ bytes)) (drop available (b ∷ bytes))
      ∙ ap (λ l. content os o ++ l) (take-append-drop available (b ∷ bytes)) in
    Leaves-from os o filled _ _ same (
      subst
        (λ l. Leaves os filled l (
          flush_full os rounds filled >>= λ o'.
          write_loop os rounds fuel (drop available (b ∷ bytes)) o'))
        left
        (Leaves-then os filled (content os filled) (content os filled ++ drop available (b ∷ bytes))
          (flush_full os rounds filled) _ (flush_full-Leaves os rounds filled)
          (λ o' holds also.
            subst
              (λ l.
                Leaves os o' (l ++ drop available (b ∷ bytes))
                  (write_loop os rounds fuel (drop available (b ∷ bytes)) o'))
              holds (write_loop-Leaves os rounds fuel (drop available (b ∷ bytes)) o'))))

-- Whatever the system answers: a `qlay_output_write` that does not fail leaves, in the file and the
-- buffer behind it, the bytes that were there with its own behind them. On a failure too, the paths
-- are the same and no file was put in another's place.
pub output_write-Leaves :
    (os : Os) (rounds : ℕ) (bytes : List ℕ) (o : Output)
    → Leaves os o (content os o ++ bytes) (output_write os rounds bytes o)
unfolding output_write
output_write-Leaves os rounds bytes o = write_loop-Leaves os rounds (length bytes) bytes o
