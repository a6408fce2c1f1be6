-- ===== src/Proposals/Parser/Cover.antt =====
-- The fragments that `DeterministicInstitutionalParser.parse` cuts, placed in the normalised text.
use Prim.Native.Char.{Char, code}
use package.text.Mathlib.TextBridge.{of_list}
use axignal.Common.{
  ℕ, zero, suc, ◌+◌, ◌-◌, ◌≤◌, ◌<◌, true, false, some, List, [], ◌∷◌, ◌++◌, ◌≡◌, refl, sym, ap, ◌∙◌,
  subst, All, length, length-append, Bool-cases, inl, inr, arith, ok, eqb,
}
use axignal.Proposals.Types.{ProposalLibrary, InstitutionalDocument, DocumentFragment}
use axignal.Proposals.Parser.{
  Chars, is_space, is_space_code, is_prefix, find, find_from, drop, fragment_at, cut,
}
use axignal.Proposals.Parser.Laid.{IsSpace, IsPart, Laid, blank, part}

abbrev pub take : ℕ → Chars → Chars
take zero s = []
take (suc k) [] = []
take (suc k) (c ∷ s) = c ∷ take k s

-- `s[i:j]`
unfoldable pub slice : ℕ → ℕ → Chars → Chars
unfolding drop
slice i j s = take (j - i) (drop i s)

-- The fragments of the text `s` from the place `k` on, the first with the ordinal `i`: each is the
-- text between its offsets, they stand in order, and only white space lies between them and behind.
abbrev pub Covers : Chars → ℕ → ℕ → List DocumentFragment → Type 0
Covers s i k [] = All IsSpace (drop k s)
Covers s i k (f ∷ fs) =
    (f.ordinal ≡ i)
    × (k ≤ f.start_char)
    × (f.start_char < f.end_char)
    × (f.end_char ≤ length s)
    × (f.text ≡ of_list (slice f.start_char f.end_char s))
    × All IsSpace (slice k f.start_char s)
    × Covers s (suc i) f.end_char fs

is_prefix-append : (p r : Chars) → is_prefix p (p ++ r) ≡ true
unfolding is_prefix
is_prefix-append [] r = refl
is_prefix-append (c ∷ p) r = ground (arith, is_prefix-append p r)

eqb→eq : (m n : ℕ) → eqb m n ≡ true → m ≡ n
eqb→eq m n h = ground arith

is_space-code : (c d : Char) → code c ≡ code d → is_space c ≡ is_space d
unfolding is_space
is_space-code c d e = ap is_space_code e

space-ne-prefix : (d : Char) (p s : Chars) → IsSpace d → IsPart p → is_prefix p (d ∷ s) ≡ false
unfolding is_prefix
space-ne-prefix d [] s white h = absurd h
space-ne-prefix d (c ∷ p) s white h = elim (Bool-cases (eqb (code c) (code d))) [
  | inl same ↦ cc (sym h ∙ is_space-code c d (eqb→eq (code c) (code d) same) ∙ white)
  | inr other ↦ rw other refl
]

-- The first occurrence of a part behind white space is where the part is laid.
find_part :
    (gap p r : Chars) → All IsSpace gap → IsPart p → find p (gap ++ (p ++ r)) ≡ some (length gap)
unfolding find
find_part [] [] r a h = absurd h
find_part [] (c ∷ p) r a h = rw (is_prefix-append (c ∷ p) r)
find_part (d ∷ gap) p r (white, a) h =
    rw (space-ne-prefix d p (gap ++ (p ++ r)) white h, find_part gap p r a h)

drop-nil : (k : ℕ) → drop k [] ≡ []
unfolding drop
drop-nil zero = refl
drop-nil (suc k) = refl

drop_add : (a b : ℕ) (s : Chars) → drop (a + b) s ≡ drop b (drop a s)
unfolding drop
drop_add zero b s = let e : 0 + b ≡ b = omega arith in rw e refl
drop_add (suc a) b [] = drop-nil (suc a + b) ∙ sym (drop-nil b)
drop_add (suc a) b (c ∷ s) = let e : suc a + b ≡ suc (a + b) = omega arith in rw e (drop_add a b s)

drop-append : (w s : Chars) → drop (length w) (w ++ s) ≡ s
unfolding drop
drop-append [] s = refl
drop-append (c ∷ w) s = drop-append w s

take-append : (w s : Chars) → take (length w) (w ++ s) ≡ w
take-append [] s = refl
take-append (c ∷ w) s = ap (λ x. c ∷ x) (take-append w s)

length-drop : (k : ℕ) (s : Chars) → 0 < length (drop k s) → length (drop k s) + k ≡ length s
unfolding drop
length-drop zero s h = omega arith
length-drop (suc k) [] h = absurd (omega arith)
length-drop (suc k) (c ∷ s) h = omega (arith, length-drop k s h)

part-pos : (p : Chars) → IsPart p → 0 < length p
part-pos [] h = absurd h
part-pos (c ∷ p) h = omega arith

-- A part of the text, found behind the place `k`.
module _ (s : Chars) (k : ℕ) (gap p rest : Chars) (laid : drop k s ≡ gap ++ (p ++ rest)) where
  drop_to : drop (k + length gap) s ≡ p ++ rest
  drop_to = drop_add k (length gap) s ∙ ap (drop (length gap)) laid ∙ drop-append gap (p ++ rest)

  drop_behind : drop (k + length gap + length p) s ≡ rest
  drop_behind =
      drop_add (k + length gap) (length p) s ∙ ap (drop (length p)) drop_to ∙ drop-append p rest

  slice_part : slice (k + length gap) (k + length gap + length p) s ≡ p
  unfolding slice
  slice_part =
      let e : k + length gap + length p - (k + length gap) ≡ length p = omega arith in
      rw (e, drop_to) (take-append p rest)

  slice_gap : slice k (k + length gap) s ≡ gap
  unfolding slice
  slice_gap =
      let e : k + length gap - k ≡ length gap = omega arith in
      rw (e, laid) (take-append gap (p ++ rest))

  part_within : IsPart p → k + length gap + length p ≤ length s
  part_within h =
      let n = length-append p rest in
      let room : 0 < length (drop (k + length gap) s) =
        rw drop_to (omega (arith, n, part-pos p h)) in
      let total : length (p ++ rest) + (k + length gap) ≡ length s =
        rw drop_to at (length-drop (k + length gap) s room) in
      omega (arith, n)

  find_from_part : All IsSpace gap → IsPart p → find_from p k s ≡ some (k + length gap)
  unfolding find_from
  find_from_part a h =
      let found : find p (drop k s) ≡ some (length gap) = rw laid (find_part gap p rest a h) in
      rw (found, find_from) refl

module _ (lib : ProposalLibrary) (d : InstitutionalDocument) (s : Chars) where
  cut-cons :
      (p : Chars) (ps : List Chars) (i k start : ℕ) {fs : List DocumentFragment}
      → find_from p k s ≡ some start
      → cut lib d s ps (suc i) (start + length p) ≡ ok fs
      → cut lib d s (p ∷ ps) i k ≡ ok (fragment_at lib d i p start ∷ fs)
  unfolding cut
  cut-cons p ps i k start found ran = rw (found, cut) (rw ran refl)

  Covers-cons :
      (p : Chars) (ps : List Chars) (i k : ℕ) (gap rest : Chars)
      → drop k s ≡ gap ++ (p ++ rest)
      → All IsSpace gap
      → IsPart p
      → (fs : List DocumentFragment) → Covers s (suc i) (k + length gap + length p) fs
      → Covers s i k (fragment_at lib d i p (k + length gap) ∷ fs)
  unfolding fragment_at
  Covers-cons p ps i k gap rest e a h fs covers = (
    refl,
    omega arith,
    omega (arith, part-pos p h),
    part_within s k gap p rest e h,
    ap of_list (sym (slice_part s k gap p rest e)),
    rw (slice_gap s k gap p rest e) a,
    covers,
  )

  -- `find` never fails, and the fragments cover the text.
  pub cut-Covers :
      (ps : List Chars) (i k : ℕ)
      → Laid (drop k s) ps
      → (fs : List DocumentFragment) × (cut lib d s ps i k ≡ ok fs)
        × Covers s i k fs
        × (length fs ≡ length ps)
  cut-Covers [] i k (blank a) = ([], unfold cut in refl, a, refl)
  cut-Covers (p ∷ ps) i k (part gap rest e a h laid) =
      let start = k + length gap in
      let (fs, ran, covers, n) =
        cut-Covers ps (suc i) (start + length p)
          (subst (λ x. Laid x ps) (sym (drop_behind s k gap p rest e)) laid) in
      (
        fragment_at lib d i p start ∷ fs,
        cut-cons p ps i k start (find_from_part s k gap p rest e a h) ran,
        Covers-cons p ps i k gap rest e a h fs covers,
        omega arith,
      )
