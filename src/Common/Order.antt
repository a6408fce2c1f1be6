-- ===== src/Common/Order.antt =====
-- `text_le` is a total order on texts.
use Prim.Native.Nat.{ℕ, Ordering, compare as compare_ℕ}
use Prim.Native.Char.{code}
use Prim.Native.String.compare
use Prim.Native.String.{String, compare, then}
use mathlib.Core.Path.{◌≡◌, refl}
use mathlib.Core.Bool.{true, false}
use native.Mathlib.Omega.{arith}
use text.Mathlib.Text.{is_le, is_eq}
use text.Mathlib.TextEquality.{eq_iff}
use mathlib.Core.HLevel.{hedberg}
use mathlib.Core.Logic.{inl, inr}
use mathlib.Core.List.{List, Perm}
use mathlib.Core.List.Perm
use axignal.Common.Tests.{Bool-cases}
use axignal.Common.Text.{text_le, ◌==◌}
use axignal.Common.Sort.{sort_by, sort_by-perm, sort_by-IsSortedBy}
use axignal.Common.Sorted.{sorted_unique}

then_total :
    (m n : ℕ) (o p : Ordering)
    → (is_le o ≡ false → is_le p ≡ true)
    → is_le (then (compare_ℕ m n) o) ≡ false
    → is_le (then (compare_ℕ n m) p) ≡ true
then_total m n o p h k = ground arith

pub text_le_total : (s t : String) → text_le s t ≡ false → text_le t s ≡ true
text_le_total String.[] String.[] h = refl
text_le_total String.[] (String.◌∷◌ d t) h = cc (rw (compare.nil-cons d t) at h)
text_le_total (String.◌∷◌ c s) String.[] h = rw (compare.nil-cons c s)
text_le_total (String.◌∷◌ c s) (String.◌∷◌ d t) h = rw (compare.cons-cons d c t s) (
    then_total (code c) (code d) (compare s t) (compare t s) (text_le_total s t)
      (rw (compare.cons-cons c d s t) at h))

then_trans :
    (a b c : ℕ) (o p q : Ordering)
    → (is_le o ≡ true → is_le p ≡ true → is_le q ≡ true)
    → is_le (then (compare_ℕ a b) o) ≡ true
    → is_le (then (compare_ℕ b c) p) ≡ true
    → is_le (then (compare_ℕ a c) q) ≡ true
then_trans a b c o p q h k l = ground arith

pub text_le_trans : (s t u : String) → text_le s t ≡ true → text_le t u ≡ true → text_le s u ≡ true
text_le_trans String.[] t String.[] h k = refl
text_le_trans String.[] t (String.◌∷◌ e u) h k = rw (compare.nil-cons e u)
text_le_trans (String.◌∷◌ c s) String.[] u h k = cc (rw (compare.cons-nil c s) at h)
text_le_trans (String.◌∷◌ c s) (String.◌∷◌ d t) String.[] h k = cc (rw (compare.cons-nil d t) at k)
text_le_trans (String.◌∷◌ c s) (String.◌∷◌ d t) (String.◌∷◌ e u) h k =
    rw (compare.cons-cons c e s u) (
      then_trans (code c) (code d) (code e) (compare s t) (compare t u) (compare s u)
        (text_le_trans s t u) (rw (compare.cons-cons c d s t) at h)
        (rw (compare.cons-cons d e t u) at k))

then_antisym :
    (m n : ℕ) (o p : Ordering)
    → (is_le o ≡ true → is_le p ≡ true → is_eq o ≡ true)
    → is_le (then (compare_ℕ m n) o) ≡ true
    → is_le (then (compare_ℕ n m) p) ≡ true
    → is_eq (then (compare_ℕ m n) o) ≡ true
then_antisym m n o p h k l = ground arith

text_le-is_eq :
    (s t : String) → text_le s t ≡ true → text_le t s ≡ true → is_eq (compare s t) ≡ true
text_le-is_eq String.[] String.[] h k = refl
text_le-is_eq String.[] (String.◌∷◌ d t) h k = cc (rw (compare.cons-nil d t) at k)
text_le-is_eq (String.◌∷◌ c s) String.[] h k = cc (rw (compare.cons-nil c s) at h)
text_le-is_eq (String.◌∷◌ c s) (String.◌∷◌ d t) h k = rw (compare.cons-cons c d s t) (
    then_antisym (code c) (code d) (compare s t) (compare t s) (text_le-is_eq s t)
      (rw (compare.cons-cons c d s t) at h) (rw (compare.cons-cons d c t s) at k))

-- Texts that stand before each other are the same.
pub text_le_antisym : (s t : String) → text_le s t ≡ true → text_le t s ≡ true → s ≡ t
text_le_antisym s t h k = (eq_iff s t).0 (text_le-is_eq s t h k)

String_discrete : Discrete String
String_discrete s t = elim (Bool-cases (s == t)) [
  | inl e ↦ yes ((eq_iff s t).0 e)
  | inr e ↦ no (λ p. cc ((eq_iff s t).1 p, e))
]

pub String_set : IsSet String
String_set = hedberg String_discrete

-- Sorting forgets the order in which texts stand.
pub sort_by-perm_texts :
    (xs ys : List String) → Perm xs ys → sort_by text_le xs ≡ sort_by text_le ys
sort_by-perm_texts xs ys p =
    sorted_unique text_le String_set (sort_by text_le xs) (sort_by text_le ys)
      (λ s t ms mt h k. text_le_antisym s t h k)
      (sort_by-IsSortedBy text_le text_le_total text_le_trans xs)
      (sort_by-IsSortedBy text_le text_le_total text_le_trans ys)
      (Perm.trans (sort_by-perm text_le xs) (Perm.trans p (Perm.symm (sort_by-perm text_le ys))))
