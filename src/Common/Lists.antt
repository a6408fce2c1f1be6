-- ===== src/Common/Lists.antt =====
-- Lists measured by native numbers.
use Prim.Native.Nat.{ℕ, suc, ◌+◌}
use mathlib.Core.Path.{◌≡◌, refl, ap}
use mathlib.Core.List.{List, [], ◌∷◌, ◌++◌, map}
use native.Mathlib.Omega.{arith}

module _ {ℓ} {A : Type ℓ} where
  abbrev pub length : List A → ℕ
  length [] = 0
  length (x ∷ xs) = suc (length xs)

  pub length-append : (xs ys : List A) → length (xs ++ ys) ≡ length xs + length ys
  length-append [] ys = omega arith
  length-append (x ∷ xs) ys = omega (arith, length-append xs ys)

  -- A property of every item, as a tuple.
  abbrev pub All {κ} : (A → Type κ) → List A → Type κ
  All P [] = Unit
  All P (x ∷ xs) = P x × All P xs

pub length-map {ℓ κ} :
    {A : Type ℓ} {B : Type κ} (f : A → B) (xs : List A) → length (map f xs) ≡ length xs
length-map f [] = refl
length-map f (x ∷ xs) = ap suc (length-map f xs)

-- A property of some item.
pub data Any {ℓ κ} {A : Type ℓ} (P : A → Type κ) : List A → Type (ℓ ⊔ κ) where
  here : {x : A} {xs : List A} → P x → Any P (x ∷ xs)
  there : {x : A} {xs : List A} → Any P xs → Any P (x ∷ xs)

-- A relation of the items of two lists, place by place.
pub data Matched {ℓ κ μ} {A : Type ℓ} {B : Type κ} (R : A → B → Type μ)
    : List A → List B → Type (ℓ ⊔ κ ⊔ μ) where
  none_left : Matched R [] []
  pair :
      {x : A} {y : B} {xs : List A} {ys : List B}
      → R x y
      → Matched R xs ys
      → Matched R (x ∷ xs) (y ∷ ys)

module _ {ℓ κ} {A : Type ℓ} (P : A → Type κ) where
  pub All-append : (xs ys : List A) → All P xs → All P ys → All P (xs ++ ys)
  All-append [] ys a b = b
  All-append (x ∷ xs) ys (p, a) b = (p, All-append xs ys a b)

  pub All-append-split : (xs ys : List A) → All P (xs ++ ys) → All P xs × All P ys
  All-append-split [] ys a = (tt, a)
  All-append-split (x ∷ xs) ys (p, a) = let (b, c) = All-append-split xs ys a in ((p, b), c)

  pub All-weaken {μ} :
      (Q : A → Type μ) → ((x : A) → P x → Q x) → (xs : List A) → All P xs → All Q xs
  All-weaken Q f [] a = tt
  All-weaken Q f (x ∷ xs) (p, a) = (f x p, All-weaken Q f xs a)

module _ {ℓ κ μ} {A : Type ℓ} {B : Type κ} (P : B → Type μ) (f : A → B) where
  pub All-map : (xs : List A) → All (λ x. P (f x)) xs → All P (map f xs)
  All-map [] a = tt
  All-map (x ∷ xs) (p, a) = (p, All-map xs a)

  pub All-unmap : (xs : List A) → All P (map f xs) → All (λ x. P (f x)) xs
  All-unmap [] a = tt
  All-unmap (x ∷ xs) (p, a) = (p, All-unmap xs a)
