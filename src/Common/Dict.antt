-- ===== src/Common/Dict.antt =====
-- Python's dictionaries with text keys, as their items in order of first insertion.
use Prim.Native.String.{String}
use mathlib.Core.Path.{◌≡◌, refl, sym, subst}
use mathlib.Core.Logic.{inl, inr}
use mathlib.Core.Option.{Option, none, some, some-injective, none-ne-some}
use mathlib.Core.List.{List, [], ◌∷◌}
use native.Mathlib.Omega.{arith}
use text.Mathlib.TextEquality.{eq_iff}
use axignal.Common.Tests.{if◌then◌else◌, Bool-cases}
use axignal.Common.Lists.{All, Any, here, there}
use axignal.Common.Text.{◌==◌}

module _ {ℓ} {V : Type ℓ} where
  -- `d.get(k)`
  unfoldable pub get : String → List (String × V) → Option V
  get k [] = none
  get k ((j, v) ∷ d) = if j == k then some v else get k d

  -- `d[k] = v`
  unfoldable pub put : String → V → List (String × V) → List (String × V)
  put k v [] = (k, v) ∷ []
  put k v ((j, w) ∷ d) = if j == k then (j, v) ∷ d else (j, w) ∷ put k v d

  pub get-put :
      (k j : String) (v : V) (d : List (String × V))
      → get j (put k v d) ≡ (if k == j then some v else get j d)
  unfolding get put
  get-put k j v [] = refl
  get-put k j v ((i, w) ∷ d) = ground (arith, eq_iff k j, eq_iff i k, eq_iff i j, get-put k j v d)

-- The values of a dictionary: what an entry of them gives, and what a write leaves of the others.
module _ {ℓ κ} {V : Type ℓ} (P : V → Type κ) where
  pub get-All :
      (k : String) (d : List (String × V)) {v : V} → All (λ (j, w). P w) d → get k d ≡ some v → P v
  unfolding get
  get-All k [] a h = cc h
  get-All k ((j, w) ∷ d) (p, a) h = elim (Bool-cases (j == k)) [
    | inl same ↦ subst P (some-injective _ _ (rw same at h)) p
    | inr other ↦ get-All k d a (rw other at h)
  ]

  pub put-All :
      (k : String) (v : V) (d : List (String × V))
      → P v
      → All (λ (j, w). P w) d
      → All (λ (j, w). P w) (put k v d)
  unfolding put
  put-All k v [] p a = (p, tt)
  put-All k v ((j, w) ∷ d) p (q, a) = elim (Bool-cases (j == k)) [
    | inl same ↦ rw same (p, a)
    | inr other ↦ rw other (q, put-All k v d p a)
  ]

  -- A new key leaves every entry.
  pub put-kept :
      (k : String) (v : V) (d : List (String × V))
      → get k d ≡ none
      → Any (λ (j, w). P w) d
      → Any (λ (j, w). P w) (put k v d)
  unfolding put get
  put-kept k v [] fresh a = elim a [ ]
  put-kept k v ((j, w) ∷ d) fresh (here p) = elim (Bool-cases (j == k)) [
    | inl same ↦ absurd (none-ne-some w (sym (rw same at fresh)))
    | inr other ↦ rw other (here p)
  ]
  put-kept k v ((j, w) ∷ d) fresh (there a) = elim (Bool-cases (j == k)) [
    | inl same ↦ rw same (there a)
    | inr other ↦ rw other (there (put-kept k v d (rw other at fresh) a))
  ]

  pub put-new : (k : String) (v : V) (d : List (String × V)) → P v → Any (λ (j, w). P w) (put k v d)
  unfolding put
  put-new k v [] p = here p
  put-new k v ((j, w) ∷ d) p = elim (Bool-cases (j == k)) [
    | inl same ↦ rw same (here p)
    | inr other ↦ rw other (there (put-new k v d p))
  ]

pub get-Any {ℓ} :
    {V : Type ℓ} (k : String) (d : List (String × V)) {v : V}
    → get k d ≡ some v
    → Any (λ (j, w). w ≡ v) d
unfolding get
get-Any k [] h = cc h
get-Any k ((j, w) ∷ d) h = elim (Bool-cases (j == k)) [
  | inl same ↦ here (some-injective _ _ (rw same at h))
  | inr other ↦ there (get-Any k d (rw other at h))
]
