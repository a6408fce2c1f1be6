-- ===== src/Common/Failure.antt =====
-- Fallible code: a value, or the exception that was raised.
use mathlib.Core.Path.{◌≡◌, refl}
use mathlib.Core.Logic.{◌⊎◌, inl, inr}
use mathlib.Core.Bool.{Bool, true, false}
use mathlib.Core.List.{List, [], ◌∷◌}

pub data Result {ℓ κ} (E : Type κ) (A : Type ℓ) : Type (ℓ ⊔ κ) where
  ok : A → Result E A
  err : E → Result E A

infixl 5 ◌>>=◌ ◌>>◌
abbrev pub ◌>>=◌ {ℓ κ μ} :
    {E : Type κ} {A : Type ℓ} {B : Type μ} → Result E A → (A → Result E B) → Result E B
ok a >>= f = f a
err e >>= f = err e

abbrev pub ◌>>◌ {ℓ κ} : {E : Type κ} {B : Type ℓ} → Result E (Unit {0}) → Result E B → Result E B
m >> k = m >>= λ _. k

-- `if bad: raise e`
abbrev pub reject_if {κ} : {E : Type κ} → Bool → E → Result E (Unit {0})
reject_if true e = err e
reject_if false e = ok tt

-- The results of `f` on every item, or the first exception.
unfoldable pub traverse {ℓ κ μ} :
    {E : Type κ} {A : Type ℓ} {B : Type μ} → (A → Result E B) → List A → Result E (List B)
traverse f [] = ok []
traverse f (x ∷ xs) = do y ← f x; ys ← traverse f xs; ok (y ∷ ys)

-- Inversion of a step that succeeded.
module _ {ℓ κ μ} {E : Type κ} {A : Type ℓ} {B : Type μ} where
  pub >>=-eq-ok :
      (first : Result E A) (next : A → Result E B) {out : B}
      → (first >>= next) ≡ ok out
      → (x : A) × (first ≡ ok x) × (next x ≡ ok out)
  >>=-eq-ok (err e) next ran = cc
  >>=-eq-ok (ok x) next ran = (x, refl, ran)

pub ok_injective {ℓ κ} :
    {E : Type κ} {A : Type ℓ} {x y : A} → ◌≡◌ {A = Result E A} (ok x) (ok y) → x ≡ y
ok_injective h = cc h

pub traverse-cons {ℓ κ μ} :
    {E : Type κ} {A : Type ℓ} {B : Type μ} (f : A → Result E B) (x : A) (xs : List A) {y : B}
    {ys : List B}
    → f x ≡ ok y
    → traverse f xs ≡ ok ys
    → traverse f (x ∷ xs) ≡ ok (y ∷ ys)
unfolding traverse
traverse-cons f x xs e h = rw (e, h) refl

pub Result-cases {ℓ κ} :
    {E : Type κ} {A : Type ℓ} (m : Result E A) → ((e : E) × (m ≡ err e)) ⊎ ((a : A) × (m ≡ ok a))
Result-cases (ok a) = inr (a, refl)
Result-cases (err e) = inl (e, refl)

-- A check that passed.
pub reject_if-eq-ok {κ} :
    {E : Type κ} (bad : Bool) (e : E) {u : Unit {0}} → reject_if bad e ≡ ok u → bad ≡ false
reject_if-eq-ok true e h = cc h
reject_if-eq-ok false e h = refl
