-- ===== src/Qlz/Match/Finder.antt =====
-- src/qlz.c: `qlz_find_matches` and its inner loop, on the chains of `qlz_insert_position`.
use qlvgm.Prelude.{
  ℕ, zero, suc, ◌+◌, ◌-◌, ◌≤◌, ◌<◌, ◌^◌, ◌≡◌, refl, ◌≢◌, ◌⊎◌, inl, inr, arith, List,
}
use qlvgm.Prelude.{length, Option, none, some, ltb, leb, ◌==◌, Bool-cases}
use qlvgm.Prelude.{◌||◌, ◌&&◌, sub32, u32, ==→eq, ==→ne, ltb→le, ap, ◌∙◌, sym, subst}
use qlvgm.Buffer.{byte_at}
use qlvgm.Qlz.Format.Copies.{Repeats}
use qlvgm.Qlz.Match.{Match, Chains, Links, max_distance, match_min, chain_limit, no_match}
use qlvgm.Qlz.Match.{
  match_length, better, visit, find_matches, insert_position, to_int32, link, hash,
}

-- The `n` bytes from `c` on are those from `p` on.
abbrev pub Agree : List ℕ → ℕ → ℕ → ℕ → Type 0
Agree input c p n = (i : ℕ) → i < n → byte_at input (c + i) ≡ byte_at input (p + i)

Agree-suc :
    (input : List ℕ) (c p n : ℕ)
    → Agree input c p n
    → byte_at input (c + n) ≡ byte_at input (p + n)
    → Agree input c p (n + 1)
Agree-suc input c p n h e i lt = elim (Bool-cases (i == n)) [
  | inl same ↦
      let at : i ≡ n = ==→eq i n same in
      ap (λ k. byte_at input (c + k)) at ∙ e ∙ ap (λ k. byte_at input (p + k)) (sym at)
  | inr other ↦ h i (omega (arith, ==→ne i n other))
]

longer : {P : Type 0} (n found left : ℕ) → (n ≡ found + 1 + left) ⊎ P → (n ≡ found + suc left) ⊎ P
longer n found left (inl e) = inl (omega arith)
longer n found left (inr d) = inr d

-- The inner loop stops at the first difference or at the end, not before.
match_length_loop :
    (input : List ℕ) (c p left found : ℕ)
    → Agree input c p found
    → let n = match_length input c p left found in
      Agree input c p n
      × (n ≤ found + left)
      × ((n ≡ found + left) ⊎ (byte_at input (c + n) ≢ byte_at input (p + n)))
unfolding match_length
match_length_loop input c p zero found h = (h, omega arith, inl (omega arith))
match_length_loop input c p (suc left) found h =
    elim (Bool-cases (byte_at input (c + found) == byte_at input (p + found))) [
      | inl e ↦
          let ih =
            match_length_loop input c p left (found + 1)
              (Agree-suc input c p found h (==→eq _ _ e)) in
          rw (e, match_length) (ih.0, omega (arith, ih.1), longer _ found left ih.2)
      | inr e ↦ rw (e, match_length) (h, omega arith, inr (==→ne _ _ e))
    ]

-- The length that the finder measures at two positions is that of the longest common stretch: the
-- bytes agree up to it, and it reaches the end of the input or the next two bytes differ.
pub match_length_longest :
    (input : List ℕ) (c p : ℕ)
    → let n = match_length input c p (length input - p) 0 in
      Agree input c p n
      × (n ≤ length input - p)
      × ((n ≡ length input - p) ⊎ (byte_at input (c + n) ≢ byte_at input (p + n)))
match_length_longest input c p =
    let h = match_length_loop input c p (length input - p) 0 (λ i lt. absurd (omega arith)) in
    (h.0, omega (arith, h.1), whole h.2)
  where
    whole : {P : Type 0} {n m : ℕ} → (n ≡ 0 + m) ⊎ P → (n ≡ m) ⊎ P
    whole (inl e) = inl (omega arith)
    whole (inr d) = inr d

-- No match, or one that repeats earlier input within the window.
abbrev pub Found : List ℕ → ℕ → Match → Type 0
Found input p m =
    (m.length ≡ 0) ⊎ (Repeats input p m.distance m.length × (m.distance ≤ max_distance))

-- Every entry of the chains is a position before `p`.
pub record Below (chains : Chains) (p : ℕ) : Type 0 where
  pub heads : (i c : ℕ) → chains.heads i ≡ some c → c < p
  pub previous : (i c : ℕ) → chains.previous i ≡ some c → c < p

better-Found :
    (input : List ℕ) (p d n : ℕ) (m : Match)
    → Found input p m
    → Repeats input p d n
    → d ≤ max_distance
    → Found input p (better d n m)
unfolding better
better-Found input p d n m h r far =
    elim (Bool-cases (ltb m.length n || ((n == m.length) && ltb d m.distance))) [
      | inl e ↦ rw e (inr (r, far))
      | inr e ↦ rw e h
    ]

candidate-Repeats :
    (input : List ℕ) (c p : ℕ)
    → c < p
    → p ≤ length input
    → Repeats input p (p - c) (match_length input c p (length input - p) 0)
candidate-Repeats input c p lt inside =
    let (same, fits, _) = match_length_longest input c p in
    let back : p - (p - c) ≡ c = omega arith in
    record {
      near = omega arith;
      back = omega arith;
      inside = omega (arith, fits);
      same = λ i h. ap (λ k. byte_at input (k + i)) back ∙ same i h;
    }

visit-Found :
    (input : List ℕ) (previous : Links) (p left : ℕ) (candidate : Option ℕ) (short long : Match)
    → p ≤ length input
    → length input < 2 ^ 32
    → ((i c : ℕ) → previous i ≡ some c → c < p)
    → ((c : ℕ) → candidate ≡ some c → c < p)
    → Found input p short
    → Found input p long
    → let r = visit input previous p left candidate short long in
      Found input p r.0 × Found input p r.1
unfolding visit
visit-Found input previous p zero candidate short long inside small prev cand s l = (s, l)
visit-Found input previous p (suc left) none short long inside small prev cand s l = (s, l)
visit-Found input previous p (suc left) (some c) short long inside small prev cand s l =
    let d = sub32 p c in
    let n = match_length input c p (length input - p) 0 in
    let before : c < p = cand c refl in
    let r : Repeats input p d n =
      subst (λ k. Repeats input p k n) (distance_eq before)
        (candidate-Repeats input c p before inside) in
    elim (Bool-cases (ltb max_distance d)) [
      | inl far ↦ rw (far, visit) (s, l)
      | inr close ↦
          let near : d ≤ max_distance = ltb→le max_distance d close in
          elim (Bool-cases (leb d 256)) [
            | inl e ↦
                rw (close, e, visit)
                  (visit-Found input previous p left (previous c) (better d n short) long inside
                    small prev (λ k q. prev c k q) (better-Found input p d n short s r near) l)
            | inr e ↦
                rw (close, e, visit)
                  (visit-Found input previous p left (previous c) short (better d n long) inside
                    small prev (λ k q. prev c k q) s (better-Found input p d n long l r near))
          ]
    ]
  where
    distance_eq : c < p → p - c ≡ sub32 p c
    distance_eq before = omega arith

-- At a position within an input of less than 2 ^ 32 bytes, if the chains hold earlier positions
-- only: each of the two matches of the finder is empty, or it repeats the input from its distance
-- back and the distance is at most 65535.
pub find_matches-Found :
    (input : List ℕ) (chains : Chains) (p : ℕ)
    → p ≤ length input
    → length input < 2 ^ 32
    → Below chains p
    → let r = find_matches input chains p in Found input p r.0 × Found input p r.1
unfolding find_matches
find_matches-Found input chains p inside small below =
    elim (Bool-cases (ltb (length input) (u32 (p + match_min)))) [
      | inl e ↦ rw e (inl refl, inl refl)
      | inr e ↦ rw e (
          visit-Found input chains.previous p chain_limit (chains.heads (hash input p)) no_match
            no_match inside small below.previous (λ c q. below.heads _ c q) (inl refl) (inl refl))
    ]

pub Below-mono : {chains : Chains} {p q : ℕ} → p ≤ q → Below chains p → Below chains q
Below-mono h b = record {
  heads = λ i c e. omega (arith, b.heads i c e);
  previous = λ i c e. omega (arith, b.previous i c e);
}

link-below :
    (links : Links) (i : ℕ) (v : Option ℕ) (p : ℕ)
    → ((j c : ℕ) → links j ≡ some c → c < p)
    → ((c : ℕ) → v ≡ some c → c < p)
    → (j c : ℕ) → link links i v j ≡ some c
    → c < p
link-below links i v p h hv j c e = elim (Bool-cases (j == i)) [
  | inl same ↦ hv c (rw same at e)
  | inr other ↦ h j c (rw other at e)
]

-- Inserting the position `p` keeps all entries at `p` or before.
pub insert_position-Below :
    (input : List ℕ) (chains : Chains) (p : ℕ)
    → Below chains p
    → Below (insert_position input chains p) (p + 1)
unfolding insert_position
insert_position-Below input chains p below = elim (Bool-cases (leb (length input) (u32 (p + 2)))) [
  | inl e ↦ rw e (Below-mono (omega arith) below)
  | inr e ↦
      let up = Below-mono {q = p + 1} (omega arith) below in
      rw e (record {
        heads = link-below chains.heads _ (to_int32 p) (p + 1) up.heads (self p);
        previous = link-below chains.previous p _ (p + 1) up.previous (λ c q. up.heads _ c q);
      })
]
  where
    self : (p c : ℕ) → to_int32 p ≡ some c → c < p + 1
    self p c q = unfold to_int32 in ground arith
