-- ===== src/Admission/Number.antt =====
-- `NUMBER_PATTERN.search` of apps/api/src/axignal_api/admission_types.py, with its two groups. Every
-- repetition is followed by a character that it cannot take, so the greedy reading is the only one.
use Prim.Native.Char.{Char, code}
use package.text.Mathlib.TextBridge.{of_list}
use axignal.Common.{
  ℕ, zero, suc, String, Bool, ◌&&◌, Option, none, some, [], ◌∷◌, ◌++◌, eqb, leb, if◌then◌else◌,
}
use axignal.Proposals.Parser.{Chars, characters, is_space}
use axignal.Proposals.Regex.{fold_case}
use axignal.Admission.Types.{AdmissionLibrary}

infixl 5 ◌and_then◌
abbrev pub ◌and_then◌ {ℓ κ} : {A : Type ℓ} {B : Type κ} → Option A → (A → Option B) → Option B
none and_then f = none
some a and_then f = f a

-- A literal text, with the case of letters ignored.
unfoldable pub after_text : String → Chars → Option Chars
unfolding fold_case
after_text String.[] s = some s
after_text (String.◌∷◌ l ls) [] = none
after_text (String.◌∷◌ l ls) (c ∷ s) =
    let rest = after_text ls s in
    if eqb (fold_case (code c)) (fold_case (code l)) then rest else none

unfoldable pub skip_spaces : Chars → Chars
unfolding is_space
skip_spaces [] = []
skip_spaces (c ∷ s) = let rest = skip_spaces s in if is_space c then rest else c ∷ s

-- `\s+`
unfoldable pub after_space : Chars → Option Chars
unfolding skip_spaces is_space
after_space [] = none
after_space (c ∷ s) = if is_space c then some (skip_spaces s) else none

unfoldable pub is_digit : Char → Bool
is_digit c = leb b'0' (code c) && leb (code c) b'9'

-- `[0-9]*`, and what follows.
unfoldable pub digits : Chars → Chars × Chars
unfolding is_digit
digits [] = ([], [])
digits (c ∷ s) = let (ds, rest) = digits s in if is_digit c then (c ∷ ds, rest) else ([], c ∷ s)

-- `[0-9]+`
unfoldable pub number_digits : Chars → Option (Chars × Chars)
unfolding digits is_digit
number_digits [] = none
number_digits (c ∷ s) =
    if is_digit c then (let (ds, rest) = digits s in some (c ∷ ds, rest)) else none

-- `(?:\.[0-9]+)?` behind the digits `ds`.
unfoldable pub fraction : Chars → Chars → Option (Chars × Chars)
unfolding number_digits
fraction ds [] = some (ds, [])
fraction ds (c ∷ s) =
    if eqb (code c) b'.'
    then number_digits s and_then (λ (fs, rest). some (ds ++ c ∷ fs, rest))
    else some (ds, c ∷ s)

-- `\d{n}`
module _ (lib : AdmissionLibrary) where
  unfoldable pub decimals : ℕ → Chars → Option Chars
  decimals zero s = some []
  decimals (suc n) [] = none
  decimals (suc n) (c ∷ s) =
      let rest = decimals n s in
      if lib.is_decimal (code c) then rest and_then (λ ds. some (c ∷ ds)) else none

  unfoldable pub value_and_period : Chars → Option (String × String)
  unfolding number_digits fraction after_space after_text decimals
  value_and_period s = number_digits s and_then (λ (ds, s). fraction ds s and_then (λ (value, s).
      after_space s and_then (λ s. after_text "percent" s and_then (λ s.
        after_space s and_then (λ s. after_text "in" s and_then (λ s. after_space s and_then (λ s.
          decimals 4 s and_then (λ period. some (of_list value, of_list period)))))))))

  -- A match at the start of the text, as its two groups.
  unfoldable pub match_at : Chars → Option (String × String)
  unfolding after_text after_space value_and_period
  match_at s =
      after_text "real GDP growth reached" s
      and_then (λ s. after_space s and_then (λ s. value_and_period s))

  unfoldable pub search_chars : Chars → Option (String × String)
  unfolding match_at
  search_chars [] = match_at []
  search_chars (c ∷ s) =
      let rest = search_chars s in elim (match_at (c ∷ s)) [ some m ↦ some m | none ↦ rest ]

  -- `NUMBER_PATTERN.search(text)`
  unfoldable pub search_number : String → Option (String × String)
  unfolding search_chars characters
  search_number text = search_chars (characters text)
