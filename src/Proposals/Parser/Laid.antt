-- ===== src/Proposals/Parser/Laid.antt =====
-- The parts that `_paragraph_break.split` and `strip` leave, laid out in the text.
use Prim.Native.Char.{Char}
use axignal.Common.{
  ℕ, zero, suc, ◌≤◌, true, false, Option, none, some, List, [], ◌∷◌, ◌++◌, append-nil, append_assoc,
  ◌≡◌, refl, sym, ap, ◌∙◌, subst, All, All-append, length, Bool-cases, inl, inr, arith,
}
use mathlib.Core.Option.{some-injective, none-ne-some}
use axignal.Proposals.Parser.{
  is_space_code, split_on, longer, Chars, is_space, is_newline, strip, strip_left, strip_right,
  strip_end, through_newline, break_at, or_zero, split_breaks, keep, stripped, paragraphs,
}

abbrev pub IsSpace : Char → Type 0
IsSpace c = is_space c ≡ true

-- A text that does not begin with white space.
abbrev pub IsTrimmed : Chars → Type 0
IsTrimmed [] = Unit {0}
IsTrimmed (c ∷ s) = is_space c ≡ false

abbrev pub IsPart : Chars → Type 0
IsPart [] = ⊥
IsPart (c ∷ s) = is_space c ≡ false

-- `Laid s ps`: the text is the parts `ps` in their order, with nothing but white space round them.
pub data Laid : Chars → List Chars → Type 0 where
  blank : {s : Chars} → All IsSpace s → Laid s []
  part :
      {s p : Chars} {ps : List Chars} (gap rest : Chars)
      → s ≡ gap ++ (p ++ rest)
      → All IsSpace gap
      → IsPart p
      → Laid rest ps
      → Laid s (p ∷ ps)

after_gap : (w s : Chars) (ps : List Chars) → All IsSpace w → Laid s ps → Laid (w ++ s) ps
after_gap w s [] a (blank b) = blank (All-append IsSpace w s a b)
after_gap w s (p ∷ ps) a (part gap rest e b h l) =
    part (w ++ gap) rest (ap (λ t. w ++ t) e ∙ sym (append_assoc w gap (p ++ rest)))
      (All-append IsSpace w gap a b) h l

strip_left_parts : (s : Chars) → (l : Chars) × (s ≡ l ++ strip_left s) × All IsSpace l
unfolding strip_left
strip_left_parts [] = ([], refl, tt)
strip_left_parts (c ∷ s) = elim (Bool-cases (is_space c)) [
  | inl white ↦
      let (l, e, a) = strip_left_parts s in rw white (c ∷ l, ap (λ t. c ∷ t) e, (white, a))
  | inr other ↦ rw other ([], refl, tt)
]

strip_left-IsTrimmed : (s : Chars) → IsTrimmed (strip_left s)
unfolding strip_left
strip_left-IsTrimmed [] = tt
strip_left-IsTrimmed (c ∷ s) = elim (Bool-cases (is_space c)) [
  | inl white ↦ rw white (strip_left-IsTrimmed s)
  | inr other ↦ rw other other
]

-- What `strip_end` drops is white space.
strip_end_parts :
    (c : Char) (s : Chars) → (r : Chars) × (c ∷ s ≡ strip_end c s ++ r) × All IsSpace r
unfolding strip_end
strip_end_parts c [] = elim (Bool-cases (is_space c)) [
  | inl white ↦ rw white (c ∷ [], refl, (white, tt))
  | inr other ↦ rw other ([], refl, tt)
]
strip_end_parts c (d ∷ s) = ([], sym (append-nil (c ∷ d ∷ s)), tt)

strip_right_parts : (s : Chars) → (r : Chars) × (s ≡ strip_right s ++ r) × All IsSpace r
unfolding strip_right
strip_right_parts [] = ([], refl, tt)
strip_right_parts (c ∷ s) =
    let (r, e, a) = strip_right_parts s in
    let (q, f, b) = strip_end_parts c (strip_right s) in
    (
      q ++ r,
      ap (λ t. c ∷ t) e ∙ ap (λ t. t ++ r) f ∙ append_assoc (strip_end c (strip_right s)) q r,
      All-append IsSpace q r b a,
    )

strip_end-IsTrimmed : (c : Char) (s : Chars) → is_space c ≡ false → IsTrimmed (strip_end c s)
unfolding strip_end
strip_end-IsTrimmed c [] h = rw h h
strip_end-IsTrimmed c (d ∷ s) h = h

strip_right-IsTrimmed : (s : Chars) → IsTrimmed s → IsTrimmed (strip_right s)
unfolding strip_right
strip_right-IsTrimmed [] h = tt
strip_right-IsTrimmed (c ∷ s) h = strip_end-IsTrimmed c (strip_right s) h

-- One part of the text, with the white space that `strip` takes from it.
Laid-keep :
    (q l r t : Chars) (ps : List Chars)
    → IsTrimmed q
    → All IsSpace l
    → All IsSpace r
    → Laid t ps
    → Laid (l ++ (q ++ (r ++ t))) (keep q ps)
unfolding keep
Laid-keep [] l r t ps h a b laid = after_gap l (r ++ t) ps a (after_gap r t ps b laid)
Laid-keep (c ∷ q) l r t ps h a b laid = part l (r ++ t) refl a h (after_gap r t ps b laid)

Laid-stripped :
    (p t : Chars) (ps : List Chars) → Laid t (stripped ps) → Laid (p ++ t) (stripped (p ∷ ps))
unfolding stripped strip
Laid-stripped p t ps laid =
    let (l, e, a) = strip_left_parts p in
    let (r, f, b) = strip_right_parts (strip_left p) in
    let q = strip_right (strip_left p) in
    subst (λ x. Laid x (keep q (stripped ps)))
      (sym (
        ap (λ x. x ++ t) (e ∙ ap (λ x. l ++ x) f)
        ∙ append_assoc l (q ++ r) t
        ∙ ap (λ x. l ++ x) (append_assoc q r t)))
      (Laid-keep q l r t (stripped ps)
        (strip_right-IsTrimmed (strip_left p) (strip_left-IsTrimmed p)) a b laid)

-- The first `k` characters are there, and are white space.
abbrev Skips : ℕ → Chars → Type 0
Skips zero s = Unit {0}
Skips (suc k) [] = ⊥
Skips (suc k) (c ∷ s) = IsSpace c × Skips k s

longer-Skips :
    (c : Char) (s : Chars) (o : Option ℕ) {k : ℕ}
    → IsSpace c
    → ((j : ℕ) → o ≡ some j → Skips j s)
    → longer c o ≡ some k
    → Skips k (c ∷ s)
unfolding longer
longer-Skips c s (some j) white ih h =
    subst (λ k. Skips k (c ∷ s)) (some-injective _ _ h) (white, ih j refl)
longer-Skips c s none white ih h = elim (Bool-cases (is_newline c)) [
  | inl yes_newline ↦
      subst (λ k. Skips k (c ∷ s)) (some-injective _ _ (rw yes_newline at h)) (white, tt)
  | inr other ↦ absurd (none-ne-some _ (rw other at h))
]

through_newline-Skips : (s : Chars) (k : ℕ) → through_newline s ≡ some k → Skips k s
unfolding through_newline
through_newline-Skips [] k h = absurd (none-ne-some _ h)
through_newline-Skips (c ∷ s) k h = elim (Bool-cases (is_space c)) [
  | inl white ↦ longer-Skips c s (through_newline s) white (through_newline-Skips s) (rw white at h)
  | inr other ↦ absurd (none-ne-some _ (rw other at h))
]

is_newline-IsSpace : (c : Char) → is_newline c ≡ true → IsSpace c
unfolding is_space is_space_code is_newline
is_newline-IsSpace c h = ground arith

-- Where a break starts, it is white space through its end.
break_at-Skips : (c : Char) (s : Chars) (k : ℕ) → break_at c s ≡ some k → IsSpace c × Skips k s
unfolding break_at
break_at-Skips c s k h = elim (Bool-cases (is_newline c)) [
  | inl newline ↦ (is_newline-IsSpace c newline, through_newline-Skips s k (rw newline at h))
  | inr other ↦ absurd (none-ne-some _ (rw other at h))
]

-- What the split of `s` leaves, behind the `k` characters that are skipped.
abbrev Splits : ℕ → Chars → Chars × List Chars → Type 0
Splits k s (p, ps) =
    (gap : Chars) × (rest : Chars) × (s ≡ gap ++ (p ++ rest))
    × All IsSpace gap
    × (length gap ≤ k)
    × Laid rest (stripped ps)

split_on-Splits :
    (c : Char) (s : Chars) (o : Option ℕ) (split : Chars × List Chars)
    → ((j : ℕ) → o ≡ some j → IsSpace c)
    → Splits (or_zero o) s split
    → Splits 0 (c ∷ s) (split_on o c split)
unfolding split_on or_zero
split_on-Splits c s (some k) (p, ps) white (gap, rest, e, a, n, laid) = (
  [],
  c ∷ s,
  refl,
  tt,
  omega arith,
  subst (λ x. Laid x (stripped (p ∷ ps))) (ap (λ x. c ∷ x) (sym e))
      (after_gap (c ∷ gap) (p ++ rest) (stripped (p ∷ ps)) (white k refl, a)
        (Laid-stripped p rest ps laid)),
)
split_on-Splits c s none (p, ps) white ([], rest, e, a, n, laid) =
    ([], rest, ap (λ x. c ∷ x) e, tt, omega arith, laid)
split_on-Splits c s none (p, ps) white (d ∷ gap, rest, e, a, n, laid) = absurd (omega arith)

Skips-or_zero :
    (c : Char) (s : Chars) (o : Option ℕ)
    → ((j : ℕ) → o ≡ some j → IsSpace c × Skips j s)
    → Skips (or_zero o) s
unfolding or_zero
Skips-or_zero c s none h = tt
Skips-or_zero c s (some k) h = (h k refl).1

split_breaks-Splits : (k : ℕ) (s : Chars) → Skips k s → Splits k s (split_breaks k s)
unfolding split_breaks stripped
split_breaks-Splits zero [] h = ([], [], refl, tt, omega arith, blank tt)
split_breaks-Splits (suc k) [] h = absurd h
split_breaks-Splits (suc k) (c ∷ s) (white, hs) =
    let (gap, rest, e, a, n, laid) = split_breaks-Splits k s hs in
    (c ∷ gap, rest, ap (λ x. c ∷ x) e, (white, a), omega arith, laid)
split_breaks-Splits zero (c ∷ s) h =
    let o = break_at c s in
    split_on-Splits c s o (split_breaks (or_zero o) s) (λ j e. (break_at-Skips c s j e).0)
      (split_breaks-Splits (or_zero o) s (Skips-or_zero c s o (break_at-Skips c s)))

Laid-first :
    (s : Chars) (split : Chars × List Chars)
    → Splits 0 s split
    → Laid s (stripped (split.0 ∷ split.1))
Laid-first s (p, ps) ([], rest, e, a, n, laid) =
    subst (λ x. Laid x (stripped (p ∷ ps))) (sym e) (Laid-stripped p rest ps laid)
Laid-first s (p, ps) (c ∷ gap, rest, e, a, n, laid) = absurd (omega arith)

-- The paragraphs of a text are laid out in it, whatever the text holds.
pub paragraphs-Laid : (s : Chars) → Laid s (paragraphs s)
unfolding paragraphs
paragraphs-Laid s = Laid-first s (split_breaks 0 s) (split_breaks-Splits 0 s tt)
