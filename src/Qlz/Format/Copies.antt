-- ===== src/Qlz/Format/Copies.antt =====
-- Stretches of the input that repeat earlier ones, for the packets of src/qlz.c.
use qlvgm.Prelude.{ℕ, zero, suc, ◌+◌, ◌-◌, ◌≤◌, ◌<◌, ◌≡◌, arith, ap, ◌∙◌, sym}
use qlvgm.Prelude.{List, [], ◌∷◌, ◌++◌, length, take, length-take, get_or-take, take-suc}
use qlvgm.Buffer.{byte_at}
use qlvgm.Qlz.Format.{copy, Window, Run}

-- The `count` bytes at `position` are those `distance` back.
pub record Repeats (input : List ℕ) (position distance count : ℕ) : Type 0 where
  pub near : 1 ≤ distance
  pub back : distance ≤ position
  pub inside : position + count ≤ length input
  pub same :
      (i : ℕ) → i < count → byte_at input (position - distance + i) ≡ byte_at input (position + i)

-- A run that ends with a prefix of the input as output.
abbrev pub Reaches : List ℕ → Window → List ℕ → ℕ → Type 0
Reaches input w bytes position = (v : Window) × Run w bytes v × (v.out ≡ take position input)

pub Repeats-take :
    {input : List ℕ} {p d n : ℕ} (m : ℕ) → m ≤ n → Repeats input p d n → Repeats input p d m
Repeats-take m h r = record {
  near = r.near;
  back = r.back;
  inside = omega (arith, r.inside);
  same = λ i lt. r.same i (omega arith);
}

pub Repeats-drop :
    {input : List ℕ} {p d n : ℕ} (m k : ℕ)
    → m + k ≤ n
    → Repeats input p d n
    → Repeats input (p + m) d k
Repeats-drop {input} {p} {d} m k h r = record {
  near = r.near;
  back = omega (arith, r.back);
  inside = omega (arith, r.inside);
  same = λ i lt.
      ap (byte_at input) (left i) ∙ r.same (m + i) (omega arith) ∙ ap (byte_at input) (right i);
}
  where
    left : (i : ℕ) → p + m - d + i ≡ p - d + (m + i)
    left i = omega (arith, r.back)

    right : (i : ℕ) → p + (m + i) ≡ p + m + i
    right i = omega arith

-- One byte of a match is the next byte of the input.
copied_byte :
    (input : List ℕ) (p d n : ℕ)
    → Repeats input p d (suc n)
    → byte_at (take p input) (length (take p input) - d) ≡ byte_at input p
copied_byte input p d n r =
    ap (byte_at (take p input)) index
    ∙ get_or-take p input (p - d + 0) 0 (omega (arith, r.near, r.back))
    ∙ r.same 0 (omega arith)
    ∙ ap (byte_at input) end
  where
    index : length (take p input) - d ≡ p - d + 0
    index = omega (arith, length-take p input, r.inside)

    end : p + 0 ≡ p
    end = omega arith

pub copy-take :
    (n : ℕ) (input : List ℕ) (p d : ℕ)
    → Repeats input p d n
    → copy n d (take p input) ≡ take (p + n) input
unfolding copy
copy-take zero input p d r = let e : p ≡ p + 0 = omega arith in ap (λ k. take k input) e
copy-take (suc n) input p d r =
    ap (λ x. copy n d (take p input ++ (x ∷ []))) (copied_byte input p d n r)
    ∙ ap (copy n d) (sym (take-suc p input 0 (omega (arith, r.inside))))
    ∙ ap (λ k. copy n d (take k input)) one
    ∙ copy-take n input (p + 1) d (Repeats-drop 1 n (omega arith) r)
    ∙ ap (λ k. take k input) sum
  where
    one : suc p ≡ p + 1
    one = omega arith

    sum : p + 1 + n ≡ p + suc n
    sum = omega arith
