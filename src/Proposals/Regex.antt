-- ===== src/Proposals/Regex.antt =====
-- The regular expressions of `PromptInjectionScanner`, compiled with `re.I`: what follows a match.
use Prim.Native.Char.{Char, code}
use axignal.Common.{
  ℕ, zero, suc, ◌+◌, String, Bool, true, false, ◌&&◌, ◌||◌, List, [], ◌∷◌, ◌++◌, eqb, leb,
  if◌then◌else◌,
}
use axignal.Proposals.Types.{ProposalLibrary}
use axignal.Proposals.Parser.{Chars, is_space, is_newline}

pub data Regex : Type 0 where
  literal : String → Regex
  followed : Regex → Regex → Regex
  either : Regex → Regex → Regex
  maybe : Regex → Regex
  up_to : ℕ → Regex
  spaces : Regex
  word_end : Regex

-- The lower case of a letter, with the letters that `re.I` folds to `i`, `s` and `k`.
unfoldable pub fold_case : ℕ → ℕ
fold_case c =
    if leb b'A' c && leb c b'Z'
    then c + 32
    else if eqb c 304 || eqb c 305
    then b'i'
    else if eqb c 383
    then b's'
    else if eqb c 8490
    then b'k'
    else c

-- What follows the literal text at the start of `s`, if it is there.
unfoldable pub after_literal : String → Chars → List Chars
unfolding fold_case
after_literal String.[] s = s ∷ []
after_literal (String.◌∷◌ l ls) [] = []
after_literal (String.◌∷◌ l ls) (c ∷ s) =
    let rest = after_literal ls s in if eqb (fold_case (code c)) (code l) then rest else []

-- `.{0,n}`
unfoldable pub after_up_to : ℕ → Chars → List Chars
unfolding is_newline
after_up_to zero s = s ∷ []
after_up_to (suc n) [] = [] ∷ []
after_up_to (suc n) (c ∷ s) =
    let rest = after_up_to n s in (c ∷ s) ∷ (if is_newline c then [] else rest)

-- `\s+`
unfoldable pub after_spaces : Chars → List Chars
unfolding is_space
after_spaces [] = []
after_spaces (c ∷ s) = let rest = after_spaces s in if is_space c then s ∷ rest else []

unfoldable pub each : (Chars → List Chars) → List Chars → List Chars
each f [] = []
each f (s ∷ ss) = f s ++ each f ss

unfoldable pub is_any : List Chars → Bool
is_any [] = false
is_any (s ∷ ss) = true

module _ (lib : ProposalLibrary) where
  unfoldable pub is_word : Char → Bool
  is_word c =
      let n = code c in
      leb b'0' n && leb n b'9'
      || leb b'A' n && leb n b'Z'
      || leb b'a' n && leb n b'z'
      || eqb n b'_'
      || leb 128 n && lib.is_word_beyond_ascii n

  -- `\b` behind a letter.
  unfoldable pub at_word_end : Chars → List Chars
  unfolding is_word
  at_word_end [] = [] ∷ []
  at_word_end (c ∷ s) = if is_word c then [] else (c ∷ s) ∷ []

  -- What may follow a match of `r` at the start of `s`.
  unfoldable pub ends : Regex → Chars → List Chars
  unfolding after_literal after_up_to after_spaces at_word_end each
  ends (literal t) s = after_literal t s
  ends (followed r q) s = each (ends q) (ends r s)
  ends (either r q) s = ends r s ++ ends q s
  ends (maybe r) s = ends r s ++ s ∷ []
  ends (up_to n) s = after_up_to n s
  ends spaces s = after_spaces s
  ends word_end s = at_word_end s

  -- `pattern.search(s)`, as a Boolean.
  unfoldable pub search_in : Regex → Chars → Bool
  unfolding ends is_any
  search_in r [] = is_any (ends r [])
  search_in r (c ∷ s) = is_any (ends r (c ∷ s)) || search_in r s
