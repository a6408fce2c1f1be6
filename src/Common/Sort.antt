-- ===== src/Common/Sort.antt =====
-- Python's `sorted`: a stable sort by a total Boolean order, as insertion sort.
use mathlib.Core.Path.{◌≡◌}
use mathlib.Core.Logic.{inl, inr}
use mathlib.Core.Bool.{Bool, true, false}
use mathlib.Core.List.{List, [], ◌∷◌, Perm}
use mathlib.Core.List.Perm
use axignal.Common.Tests.{if◌then◌else◌, Bool-cases}
use axignal.Common.Lists.{All}

module _ {ℓ} {A : Type ℓ} (le : A → A → Bool) where
  unfoldable pub insert_by : A → List A → List A
  insert_by x [] = x ∷ []
  insert_by x (y ∷ ys) = if le x y then x ∷ y ∷ ys else y ∷ insert_by x ys

  unfoldable pub sort_by : List A → List A
  unfolding insert_by
  sort_by [] = []
  sort_by (x ∷ xs) = insert_by x (sort_by xs)

  insert_by-perm : (x : A) (ys : List A) → Perm (insert_by x ys) (x ∷ ys)
  unfolding insert_by
  insert_by-perm x [] = Perm.refl _
  insert_by-perm x (y ∷ ys) = elim (Bool-cases (le x y)) [
    | inl h ↦ rw h (Perm.refl _)
    | inr h ↦ rw h (Perm.trans (Perm.cons y (insert_by-perm x ys)) (Perm.swap x y ys))
  ]

  -- Sorting only rearranges.
  pub sort_by-perm : (xs : List A) → Perm (sort_by xs) xs
  unfolding sort_by
  sort_by-perm [] = Perm.refl _
  sort_by-perm (x ∷ xs) = Perm.trans (insert_by-perm x (sort_by xs)) (Perm.cons x (sort_by-perm xs))

  All-insert {κ} : (P : A → Type κ) (x : A) (ys : List A) → P x → All P ys → All P (insert_by x ys)
  unfolding insert_by
  All-insert P x [] h a = (h, tt)
  All-insert P x (y ∷ ys) h a = elim (Bool-cases (le x y)) [
    | inl e ↦ rw e (h, a)
    | inr e ↦ rw e (a.0, All-insert P x ys h a.1)
  ]

  pub All-sort_by {κ} : (P : A → Type κ) (xs : List A) → All P xs → All P (sort_by xs)
  unfolding sort_by
  All-sort_by P [] a = tt
  All-sort_by P (x ∷ xs) a = All-insert P x (sort_by xs) a.0 (All-sort_by P xs a.1)

  -- Every item stands before those that it is not above.
  abbrev pub IsSortedBy : List A → Type 0
  IsSortedBy [] = Unit
  IsSortedBy (x ∷ xs) = All (λ y. le x y ≡ true) xs × IsSortedBy xs

  module _ (total : (x y : A) → le x y ≡ false → le y x ≡ true)
      (trans : (x y z : A) → le x y ≡ true → le y z ≡ true → le x z ≡ true) where
    All-trans :
        (x y : A) (ys : List A)
        → le x y ≡ true
        → All (λ z. le y z ≡ true) ys
        → All (λ z. le x z ≡ true) ys
    All-trans x y [] h a = tt
    All-trans x y (z ∷ zs) h a = (trans x y z h a.0, All-trans x y zs h a.1)

    All-insert_by :
        (x y : A) (ys : List A)
        → le x y ≡ true
        → All (λ z. le x z ≡ true) ys
        → All (λ z. le x z ≡ true) (insert_by y ys)
    unfolding insert_by
    All-insert_by x y [] h a = (h, tt)
    All-insert_by x y (z ∷ zs) h a = elim (Bool-cases (le y z)) [
      | inl e ↦ rw e (h, a)
      | inr e ↦ rw e (a.0, All-insert_by x y zs h a.1)
    ]

    insert_by-IsSortedBy : (x : A) (ys : List A) → IsSortedBy ys → IsSortedBy (insert_by x ys)
    unfolding insert_by
    insert_by-IsSortedBy x [] s = (tt, tt)
    insert_by-IsSortedBy x (y ∷ ys) s = elim (Bool-cases (le x y)) [
      | inl e ↦ rw e ((e, All-trans x y ys e s.0), s)
      | inr e ↦ rw e (All-insert_by y x ys (total x y e) s.0, insert_by-IsSortedBy x ys s.1)
    ]

    -- Where the order is total and transitive the result is sorted.
    pub sort_by-IsSortedBy : (xs : List A) → IsSortedBy (sort_by xs)
    unfolding sort_by
    sort_by-IsSortedBy [] = tt
    sort_by-IsSortedBy (x ∷ xs) = insert_by-IsSortedBy x (sort_by xs) (sort_by-IsSortedBy xs)
