-- ===== src/Prelude/Outcome.antt =====
-- A call that returns a value or stops with an error.
use mathlib.Core.Path.{◌≡◌, refl, ap, sym}
use mathlib.Core.Bool.{Bool, true, false, ◌||◌}
use mathlib.Core.Logic.{◌⊎◌, inl, inr, ◌≢◌}

pub data Result {ℓ κ} (E : Type ℓ) (A : Type κ) : Type (ℓ ⊔ κ) where
  ok : A → Result E A
  err : E → Result E A

infixl 5 ◌>>=◌ ◌>>◌
abbrev pub ◌>>=◌ {ℓ κ μ} :
    {E : Type ℓ} {A : Type κ} {B : Type μ} → Result E A → (A → Result E B) → Result E B
ok a >>= f = f a
err e >>= f = err e

abbrev pub ◌>>◌ {ℓ κ} : {E : Type ℓ} {B : Type κ} → Result E (Unit {0}) → Result E B → Result E B
m >> k = m >>= λ _. k

-- `if (test) { error_set(error, ...); return false; }`
abbrev pub fail_if {ℓ} : {E : Type ℓ} → Bool → E → Result E (Unit {0})
fail_if true e = err e
fail_if false e = ok tt

pub ok_injective {ℓ κ} :
    {E : Type ℓ} {A : Type κ} {a b : A} → ◌≡◌ {A = Result E A} (ok a) (ok b) → a ≡ b
ok_injective e = cc

pub err_injective {ℓ κ} :
    {E : Type ℓ} {A : Type κ} {a b : E} → ◌≡◌ {A = Result E A} (err a) (err b) → a ≡ b
err_injective e = cc

pub ok-ne-err {ℓ κ} :
    {E : Type ℓ} {A : Type κ} {a : A} {e : E} → ◌≢◌ {A = Result E A} (ok a) (err e)
ok-ne-err h = cc

-- What a chain that succeeds went through.
pub >>=-eq-ok {ℓ κ μ} :
    {E : Type ℓ} {A : Type κ} {B : Type μ} (call : Result E A) (next : A → Result E B) {value : B}
    → (call >>= next) ≡ ok value
    → (given : A) × (call ≡ ok given) × (next given ≡ ok value)
>>=-eq-ok (err reason) next went = absurd (ok-ne-err (sym went))
>>=-eq-ok (ok given) next went = (given, refl, went)

-- Inversion of a check that lets pass.
pub fail_if-eq-ok {ℓ κ} :
    {E : Type ℓ} {B : Type κ} (test : Bool) (e : E) (k : Result E B) {b : B}
    → (fail_if test e >> k) ≡ ok b
    → (test ≡ false) × (k ≡ ok b)
fail_if-eq-ok true e k h = cc
fail_if-eq-ok false e k h = (refl, h)

pub Result-cases {ℓ κ} :
    {E : Type ℓ} {A : Type κ} (r : Result E A) → ((a : A) × (r ≡ ok a)) ⊎ ((e : E) × (r ≡ err e))
Result-cases (ok a) = inl (a, refl)
Result-cases (err e) = inr (e, refl)

-- A chain stops with an error only if a part of it does.
pub >>=-ne-err {ℓ κ μ} :
    {E : Type ℓ} {A : Type κ} {B : Type μ} (m : Result E A) (f : A → Result E B) {e : E}
    → m ≢ err e
    → ((a : A) → f a ≢ err e)
    → (m >>= f) ≢ err e
>>=-ne-err (ok a) f h k bad = k a bad
>>=-ne-err (err e) f h k bad = h (ap err (err_injective bad))

pub fail_if-ne-err {ℓ κ} :
    {E : Type ℓ} {B : Type κ} (test : Bool) {e bad : E} {k : Result E B}
    → e ≢ bad
    → k ≢ err bad
    → (fail_if test e >> k) ≢ err bad
fail_if-ne-err true h g e = h (err_injective e)
fail_if-ne-err false h g e = g e

-- Neither part of a test holds.
pub or-eq-false : (a b : Bool) → a || b ≡ false → (a ≡ false) × (b ≡ false)
or-eq-false true b h = cc
or-eq-false false b h = (refl, h)

-- A chain of four or five checks that lets pass.
pub checks4-eq-ok {ℓ} :
    {E : Type ℓ} (a b c d : Bool) (e1 e2 e3 e4 : E) {u : Unit {0}}
    → (fail_if a e1 >> fail_if b e2 >> fail_if c e3 >> fail_if d e4) ≡ ok u
    → (a ≡ false) × (b ≡ false) × (c ≡ false) × (d ≡ false)
checks4-eq-ok false false false false e1 e2 e3 e4 h = (refl, refl, refl, refl)
checks4-eq-ok true b c d e1 e2 e3 e4 h = absurd (ok-ne-err (sym h))
checks4-eq-ok false true c d e1 e2 e3 e4 h = absurd (ok-ne-err (sym h))
checks4-eq-ok false false true d e1 e2 e3 e4 h = absurd (ok-ne-err (sym h))
checks4-eq-ok false false false true e1 e2 e3 e4 h = absurd (ok-ne-err (sym h))

pub checks5-eq-ok {ℓ} :
    {E : Type ℓ} (a b c d f : Bool) (e1 e2 e3 e4 e5 : E) {u : Unit {0}}
    → (fail_if a e1 >> fail_if b e2 >> fail_if c e3 >> fail_if d e4 >> fail_if f e5) ≡ ok u
    → (a ≡ false) × (b ≡ false) × (c ≡ false) × (d ≡ false) × (f ≡ false)
checks5-eq-ok false false false false false e1 e2 e3 e4 e5 h = (refl, refl, refl, refl, refl)
checks5-eq-ok true b c d f e1 e2 e3 e4 e5 h = absurd (ok-ne-err (sym h))
checks5-eq-ok false true c d f e1 e2 e3 e4 e5 h = absurd (ok-ne-err (sym h))
checks5-eq-ok false false true d f e1 e2 e3 e4 e5 h = absurd (ok-ne-err (sym h))
checks5-eq-ok false false false true f e1 e2 e3 e4 e5 h = absurd (ok-ne-err (sym h))
checks5-eq-ok false false false false true e1 e2 e3 e4 e5 h = absurd (ok-ne-err (sym h))

-- The error of a result, when there is one.
abbrev pub ErrorIs {ℓ κ μ} : {E : Type ℓ} {A : Type κ} → (E → Type μ) → Result E A → Type μ
ErrorIs P (ok a) = Unit
ErrorIs P (err e) = P e

pub checks4-ErrorIs {ℓ μ} :
    {E : Type ℓ} (P : E → Type μ) (a b c d : Bool) (e1 e2 e3 e4 : E)
    → P e1 × P e2 × P e3 × P e4
    → ErrorIs P (fail_if a e1 >> fail_if b e2 >> fail_if c e3 >> fail_if d e4)
checks4-ErrorIs P true b c d e1 e2 e3 e4 (p1, p2, p3, p4) = p1
checks4-ErrorIs P false true c d e1 e2 e3 e4 (p1, p2, p3, p4) = p2
checks4-ErrorIs P false false true d e1 e2 e3 e4 (p1, p2, p3, p4) = p3
checks4-ErrorIs P false false false true e1 e2 e3 e4 (p1, p2, p3, p4) = p4
checks4-ErrorIs P false false false false e1 e2 e3 e4 (p1, p2, p3, p4) = tt

pub checks5-ErrorIs {ℓ μ} :
    {E : Type ℓ} (P : E → Type μ) (a b c d f : Bool) (e1 e2 e3 e4 e5 : E)
    → P e1 × P e2 × P e3 × P e4 × P e5
    → ErrorIs P (fail_if a e1 >> fail_if b e2 >> fail_if c e3 >> fail_if d e4 >> fail_if f e5)
checks5-ErrorIs P true b c d f e1 e2 e3 e4 e5 (p1, p2, p3, p4, p5) = p1
checks5-ErrorIs P false true c d f e1 e2 e3 e4 e5 (p1, p2, p3, p4, p5) = p2
checks5-ErrorIs P false false true d f e1 e2 e3 e4 e5 (p1, p2, p3, p4, p5) = p3
checks5-ErrorIs P false false false true f e1 e2 e3 e4 e5 (p1, p2, p3, p4, p5) = p4
checks5-ErrorIs P false false false false true e1 e2 e3 e4 e5 (p1, p2, p3, p4, p5) = p5
checks5-ErrorIs P false false false false false e1 e2 e3 e4 e5 (p1, p2, p3, p4, p5) = tt
