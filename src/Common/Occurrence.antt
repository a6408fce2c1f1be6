-- ===== src/Common/Occurrence.antt =====
-- Where a property holds in a list: at some place, at two places.
use mathlib.Core.Path.{◌≡◌, refl, sym, subst}
use mathlib.Core.List.{List, [], ◌∷◌, ◌++◌, map, flatten}
use axignal.Common.Lists.{All, All-weaken, Any, here, there}
use axignal.Common.Failure.{Result, ok, traverse, >>=-eq-ok, ok_injective}

-- A property of two places of a list.
pub data Twice {ℓ κ} {A : Type ℓ} (P : A → Type κ) : List A → Type (ℓ ⊔ κ) where
  now : {x : A} {xs : List A} → P x → Any P xs → Twice P (x ∷ xs)
  later : {x : A} {xs : List A} → Twice P xs → Twice P (x ∷ xs)

module _ {ℓ κ} {A : Type ℓ} {P : A → Type κ} where
  pub Any-left : (xs ys : List A) → Any P xs → Any P (xs ++ ys)
  Any-left [] ys a = elim a [ ]
  Any-left (x ∷ xs) ys (here p) = here p
  Any-left (x ∷ xs) ys (there a) = there (Any-left xs ys a)

  pub Any-right : (xs ys : List A) → Any P ys → Any P (xs ++ ys)
  Any-right [] ys a = a
  Any-right (x ∷ xs) ys a = there (Any-right xs ys a)

  pub Twice-both : (xs ys : List A) → Any P xs → Any P ys → Twice P (xs ++ ys)
  Twice-both [] ys a b = elim a [ ]
  Twice-both (x ∷ xs) ys (here p) b = now p (Any-right xs ys b)
  Twice-both (x ∷ xs) ys (there a) b = later (Twice-both xs ys a b)

  pub Twice-left : (xs ys : List A) → Twice P xs → Twice P (xs ++ ys)
  Twice-left [] ys t = elim t [ ]
  Twice-left (x ∷ xs) ys (now p a) = now p (Any-left xs ys a)
  Twice-left (x ∷ xs) ys (later t) = later (Twice-left xs ys t)

  pub Twice-right : (xs ys : List A) → Twice P ys → Twice P (xs ++ ys)
  Twice-right [] ys t = t
  Twice-right (x ∷ xs) ys t = later (Twice-right xs ys t)

module _ {ℓ κ μ ν} {A : Type ℓ} {B : Type κ} {P : A → Type μ} {Q : B → Type ν} where
  pub Any-map :
      (f : A → B) → ((x : A) → P x → Q (f x)) → (xs : List A) → Any P xs → Any Q (map f xs)
  Any-map f g [] a = elim a [ ]
  Any-map f g (x ∷ xs) (here p) = here (g x p)
  Any-map f g (x ∷ xs) (there a) = there (Any-map f g xs a)

  pub Twice-map :
      (f : A → B) → ((x : A) → P x → Q (f x)) → (xs : List A) → Twice P xs → Twice Q (map f xs)
  Twice-map f g [] t = elim t [ ]
  Twice-map f g (x ∷ xs) (now p a) = now (g x p) (Any-map f g xs a)
  Twice-map f g (x ∷ xs) (later t) = later (Twice-map f g xs t)

  -- A property of what the items give.
  pub Any-flatten :
      (f : A → List B)
      → ((x : A) → P x → Any Q (f x))
      → (xs : List A) → Any P xs
      → Any Q (flatten (map f xs))
  unfolding flatten
  Any-flatten f g [] a = elim a [ ]
  Any-flatten f g (x ∷ xs) (here p) = Any-left (f x) (flatten (map f xs)) (g x p)
  Any-flatten f g (x ∷ xs) (there a) = Any-right (f x) (flatten (map f xs)) (Any-flatten f g xs a)

  pub Twice-flatten :
      (f : A → List B)
      → ((x : A) → P x → Any Q (f x))
      → (xs : List A) → Twice P xs
      → Twice Q (flatten (map f xs))
  unfolding flatten
  Twice-flatten f g [] t = elim t [ ]
  Twice-flatten f g (x ∷ xs) (now p a) =
      Twice-both (f x) (flatten (map f xs)) (g x p) (Any-flatten f g xs a)
  Twice-flatten f g (x ∷ xs) (later t) =
      Twice-right (f x) (flatten (map f xs)) (Twice-flatten f g xs t)

-- What the successful runs of `f` have in common, at the places of their results.
module _ {ℓ κ μ ν ξ} {E : Type κ} {A : Type ℓ} {B : Type μ} {P : B → Type ν} {Q : B → Type ξ}
    (f : A → Result E B) (g : (x : A) (y : B) → f x ≡ ok y → P y → Q y) where
  pub traverse-Any : (xs : List A) (ys : List B) → traverse f xs ≡ ok ys → Any P ys → Any Q ys
  unfolding traverse
  traverse-Any [] ys h a = elim (subst (λ l. Any P l) (sym (ok_injective h)) a) [ ]
  traverse-Any (x ∷ xs) ys h a =
      let (y, first, h) = >>=-eq-ok (f x) _ h in
      let (rest, ran, last) = >>=-eq-ok (traverse f xs) _ h in
      let same = ok_injective last in
      subst (λ l. Any Q l) same
        (elim (subst (λ l. Any P l) (sym same) a) [
          | here p ↦ here (g x y first p)
          | there b ↦ there (traverse-Any xs rest ran b)
        ])

  pub traverse-Twice : (xs : List A) (ys : List B) → traverse f xs ≡ ok ys → Twice P ys → Twice Q ys
  unfolding traverse
  traverse-Twice [] ys h a = elim (subst (λ l. Twice P l) (sym (ok_injective h)) a) [ ]
  traverse-Twice (x ∷ xs) ys h a =
      let (y, first, h) = >>=-eq-ok (f x) _ h in
      let (rest, ran, last) = >>=-eq-ok (traverse f xs) _ h in
      let same = ok_injective last in
      subst (λ l. Twice Q l) same
        (elim (subst (λ l. Twice P l) (sym same) a) [
          | now p b ↦ now (g x y first p) (traverse-Any xs rest ran b)
          | later b ↦ later (traverse-Twice xs rest ran b)
        ])

module _ {ℓ κ} {A : Type ℓ} {P : A → Type κ} where
  pub Twice→Any : (xs : List A) → Twice P xs → Any P xs
  Twice→Any [] t = elim t [ ]
  Twice→Any (x ∷ xs) (now p a) = here p
  Twice→Any (x ∷ xs) (later t) = there (Twice→Any xs t)

  -- An item that has the property.
  pub Any-item : (xs : List A) → Any P xs → (x : A) × P x
  Any-item [] a = elim a [ ]
  Any-item (x ∷ xs) (here p) = (x, p)
  Any-item (x ∷ xs) (there a) = Any-item xs a

module _ {ℓ κ μ} {A : Type ℓ} {P : A → Type κ} {Q : A → Type μ} (f : (x : A) → P x → Q x) where
  pub Any-weaken : (xs : List A) → Any P xs → Any Q xs
  Any-weaken [] a = elim a [ ]
  Any-weaken (x ∷ xs) (here p) = here (f x p)
  Any-weaken (x ∷ xs) (there a) = there (Any-weaken xs a)

-- Every item is one of the list's.
pub All-self {ℓ} : {A : Type ℓ} (xs : List A) → All (λ x. Any (λ y. y ≡ x) xs) xs
All-self [] = tt
All-self {A} (x ∷ xs) = (
  here refl,
  All-weaken (λ y. Any (λ z. z ≡ y) xs) (λ y. Any (λ z. z ≡ y) (x ∷ xs)) (λ y a. there a) xs
      (All-self xs),
)
