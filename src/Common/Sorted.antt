-- ===== src/Common/Sorted.antt =====
-- A sorted list is determined by its items, where the order tells them apart.
use mathlib.Core.Path.{◌≡◌, refl, sym, subst, ap, ◌∙◌}
use mathlib.Core.HLevel.{⊥_prop}
use mathlib.Core.Logic.{◌⊎◌, inl, inr, ∥∥₁_prop, ∥∥₁_map, ∥∥₁_elim}
use mathlib.Core.Bool.{Bool, true}
use mathlib.Core.List.{List, [], ◌∷◌, Perm, Mem, Memᴰ}
use mathlib.Core.List.Perm
use mathlib.Core.List.Memᴰ
use axignal.Common.Lists.{All}
use axignal.Common.Sort.{IsSortedBy}

module _ {ℓ} {A : Type ℓ} where
  pub All-Memᴰ {κ} : (P : A → Type κ) (x : A) (xs : List A) → All P xs → Memᴰ x xs → P x
  All-Memᴰ P x [] a m = absurd (Memᴰ.not-nil m)
  All-Memᴰ P x (y ∷ ys) a m = elim (Memᴰ.cases_cons m) [
    | inl e ↦ subst P (sym e) a.0
    | inr later ↦ All-Memᴰ P x ys a.1 later
  ]

  -- Two items of `xs` that the order does not tell apart are the same.
  abbrev pub Told : (A → A → Bool) → List A → Type ℓ
  Told le xs = (x y : A) → Mem x xs → Mem y xs → le x y ≡ true → le y x ≡ true → x ≡ y

  module _ (le : A → A → Bool) (set : IsSet A) where
    head_first :
        (x y : A) (xs : List A)
        → All (λ z. le x z ≡ true) xs
        → Mem y (x ∷ xs)
        → ∥ (y ≡ x) ⊎ (le x y ≡ true) ∥₁
    head_first x y xs a m = ∥∥₁_elim m ∥∥₁_prop (λ d. elim (Memᴰ.cases_cons d) [
      | inl e ↦ ∣ inl e ∣₁
      | inr later ↦ ∣ inr (All-Memᴰ (λ z. le x z ≡ true) y xs a later) ∣₁
    ])

    same_head :
        (x y : A) (xs ys : List A)
        → Told le (x ∷ xs)
        → IsSortedBy le (x ∷ xs)
        → IsSortedBy le (y ∷ ys)
        → Perm (x ∷ xs) (y ∷ ys)
        → x ≡ y
    same_head x y xs ys told s t p =
        let y_in : Mem y (x ∷ xs) = (Perm.mem_iff p).1 ∣ Memᴰ.head refl ∣₁ in
        let x_in : Mem x (y ∷ ys) = (Perm.mem_iff p).0 ∣ Memᴰ.head refl ∣₁ in
        ∥∥₁_elim (head_first x y xs s.0 y_in) (set x y) (λ d. elim d [
          | inl e ↦ sym e
          | inr below ↦ ∥∥₁_elim (head_first y x ys t.0 x_in) (set x y) (λ c. elim c [
            | inl e ↦ e
            | inr above ↦ told x y ∣ Memᴰ.head refl ∣₁ y_in below above
          ])
        ])

    -- Two sorted lists of the same items are the same.
    pub sorted_unique :
        (xs ys : List A) → Told le xs → IsSortedBy le xs → IsSortedBy le ys → Perm xs ys → xs ≡ ys
    sorted_unique [] [] told s t p = refl
    sorted_unique [] (y ∷ ys) told s t p =
        absurd (∥∥₁_elim ((Perm.mem_iff p).1 ∣ Memᴰ.head refl ∣₁) ⊥_prop Memᴰ.not-nil)
    sorted_unique (x ∷ xs) [] told s t p =
        absurd (∥∥₁_elim ((Perm.mem_iff p).0 ∣ Memᴰ.head refl ∣₁) ⊥_prop Memᴰ.not-nil)
    sorted_unique (x ∷ xs) (y ∷ ys) told s t p =
        let e = same_head x y xs ys told s t p in
        let rest : Perm xs ys = Perm.cons_inv (subst (λ z. Perm (x ∷ xs) (z ∷ ys)) (sym e) p) in
        ap (λ z. z ∷ xs) e
        ∙ ap (λ zs. y ∷ zs)
            (sorted_unique xs ys (λ a b ma mb. told a b (later ma) (later mb)) s.1 t.1 rest)
      where
        later : {a : A} → Mem a xs → Mem a (x ∷ xs)
        later m = ∥∥₁_map m (λ d. Memᴰ.tail d)
