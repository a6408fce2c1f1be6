-- ===== src/Common/Text.antt =====
-- Texts: equality, substrings, prefixes of a text, membership in a collection of texts.
use Prim.Native.Nat.{ℕ, zero, suc}
use Prim.Native.String.{String, compare, ◌++◌}
use mathlib.Core.Path.{◌≡◌, refl}
use mathlib.Core.Bool.{Bool, true, false, ◌&&◌, ◌||◌}
use mathlib.Core.List.{List, [], ◌∷◌}
use text.Mathlib.Text.{starts_with, is_eq, is_le}
use native.Mathlib.Omega.{arith}
use text.Mathlib.TextEquality.{eq_iff}
use axignal.Common.Tests.{if◌then◌else◌, eqb}
use axignal.Common.Lists.{length}

infix 50 ◌==◌
abbrev pub ◌==◌ : String → String → Bool
s == t = is_eq (compare s t)

infixr 65 ◌⧺◌
-- Concatenation of texts, `s + t`.
abbrev pub ◌⧺◌ : String → String → String
s ⧺ t = s ++ t

-- `s <= t`: lexicographic by code points.
abbrev pub text_le : String → String → Bool
text_le s t = is_le (compare s t)

-- `bool(s)`: the empty text is false.
abbrev pub is_empty : String → Bool
is_empty s = s == ""

-- `needle in hay` on texts.
unfoldable pub occurs_in : String → String → Bool
occurs_in needle String.[] = needle == ""
occurs_in needle (String.◌∷◌ c s) = starts_with (String.◌∷◌ c s) needle || occurs_in needle s

-- `s[:n]`
unfoldable pub first_chars : ℕ → String → String
first_chars zero s = ""
first_chars (suc n) String.[] = ""
first_chars (suc n) (String.◌∷◌ c s) = String.◌∷◌ c (first_chars n s)

-- `s in xs` for a collection of texts.
unfoldable pub mem : String → List String → Bool
mem s [] = false
mem s (x ∷ xs) = s == x || mem s xs

-- `xs.issubset(ys)`
unfoldable pub subset : List String → List String → Bool
subset [] ys = true
subset (x ∷ xs) ys = mem x ys && subset xs ys

-- `any(token in text for token in tokens)`
unfoldable pub any_occurs : List String → String → Bool
unfolding occurs_in
any_occurs [] text = false
any_occurs (t ∷ ts) text = occurs_in t text || any_occurs ts text

-- Equality of two tuples of texts.
unfoldable pub same_texts : List String → List String → Bool
same_texts [] [] = true
same_texts (x ∷ xs) (y ∷ ys) = x == y && same_texts xs ys
same_texts _ _ = false

pub same_texts→eq : (xs ys : List String) → same_texts xs ys ≡ true → xs ≡ ys
unfolding same_texts
same_texts→eq [] [] h = refl
same_texts→eq [] (y ∷ ys) h = ground arith
same_texts→eq (x ∷ xs) [] h = ground arith
same_texts→eq (x ∷ xs) (y ∷ ys) h = ground (arith, eq_iff x y, same_texts→eq xs ys)

pub same_texts_refl : (xs : List String) → same_texts xs xs ≡ true
unfolding same_texts
same_texts_refl [] = refl
same_texts_refl (x ∷ xs) = ground (arith, eq_iff x x, same_texts_refl xs)

-- Every text of `xs` is in `ys`, read off the Boolean test.
pub mem-subset :
    (s : String) (xs ys : List String) → subset xs ys ≡ true → mem s xs ≡ true → mem s ys ≡ true
unfolding mem subset
mem-subset s [] ys h m = ground arith
mem-subset s (x ∷ xs) ys h m = ground (arith, eq_iff s x, mem-subset s xs ys)

-- `set(xs)`, in the order of last occurrence.
unfoldable pub dedup : List String → List String
unfolding mem
dedup [] = []
dedup (x ∷ xs) = let rest = dedup xs in if mem x xs then rest else x ∷ rest

-- `len(xs) == len(set(xs))`
unfoldable pub unique : List String → Bool
unfolding dedup
unique xs = eqb (length xs) (length (dedup xs))
