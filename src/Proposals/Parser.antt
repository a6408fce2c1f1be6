-- ===== src/Proposals/Parser.antt =====
-- `DeterministicInstitutionalParser.parse`: the paragraphs of a document as fragments with their
-- places in the normalised text. A text is read as the list of its characters.
pub mod Laid
pub mod Cover
pub mod Parsed
use Prim.Native.Char.{Char, code}
use package.text.Mathlib.TextBridge.{of_list}
use axignal.Common.{
  ℕ, zero, suc, ◌+◌, String, Bool, true, false, ◌&&◌, ◌||◌, Option, none, some, List, [], ◌∷◌, map,
  eqb, leb, ltb, mem, if◌then◌else◌, length, Result, ok, err, ◌>>=◌, ◌>>◌, reject_if, ◌⧺◌,
  first_chars,
}
use axignal.Common.Json.{Json, text, number, obj}
use axignal.Proposals.Types.{
  ProposalError, document_integrity_error, validation_error, InstitutionalDocument,
  DocumentFragment, ParsedDocument, ProposalLibrary,
}

abbrev pub Chars : Type 0
Chars = List Char

unfoldable pub characters : String → Chars
characters String.[] = []
characters (String.◌∷◌ c s) = c ∷ characters s

-- `str.isspace`, which is also `\s`.
unfoldable pub is_space_code : ℕ → Bool
is_space_code c =
    leb 9 c && leb c 13
    || leb 28 c && leb c 32
    || eqb c 133
    || eqb c 160
    || eqb c 5760
    || leb 8192 c && leb c 8202
    || eqb c 8232
    || eqb c 8233
    || eqb c 8239
    || eqb c 8287
    || eqb c 12288

unfoldable pub is_space : Char → Bool
unfolding is_space_code
is_space c = is_space_code (code c)

-- `\n`, `\r`, and the characters of `[ \t]`.
unfoldable pub is_newline : Char → Bool
is_newline c = eqb (code c) 10

unfoldable pub is_return : Char → Bool
is_return c = eqb (code c) 13

unfoldable pub is_blank : Char → Bool
is_blank c = eqb (code c) 32 || eqb (code c) 9

abbrev space : Char
space = " "

unfoldable pub starts_newline : Chars → Bool
unfolding is_newline
starts_newline [] = false
starts_newline (c ∷ s) = is_newline c

-- `content.replace("\r\n", "\n")`
unfoldable pub replace_crlf : Chars → Chars
unfolding is_return starts_newline
replace_crlf [] = []
replace_crlf (c ∷ s) =
    let rest = replace_crlf s in if is_return c && starts_newline s then rest else c ∷ rest

-- `_whitespace.sub(" ", s)`; the first argument says whether the character before was blank.
unfoldable pub collapse : Bool → Chars → Chars
unfolding is_blank
collapse after [] = []
collapse after (c ∷ s) =
    let rest = collapse (is_blank c) s in
    if is_blank c then (if after then rest else space ∷ rest) else c ∷ rest

-- `s.strip()`
unfoldable pub strip_left : Chars → Chars
unfolding is_space
strip_left [] = []
strip_left (c ∷ s) = let rest = strip_left s in if is_space c then rest else c ∷ s

unfoldable pub strip_end : Char → Chars → Chars
unfolding is_space
strip_end c [] = if is_space c then [] else c ∷ []
strip_end c (d ∷ s) = c ∷ d ∷ s

unfoldable pub strip_right : Chars → Chars
unfolding strip_end
strip_right [] = []
strip_right (c ∷ s) = strip_end c (strip_right s)

unfoldable pub strip : Chars → Chars
unfolding strip_left strip_right
strip s = strip_right (strip_left s)

unfoldable pub longer : Char → Option ℕ → Option ℕ
unfolding is_newline
longer c none = if is_newline c then some 1 else none
longer c (some k) = some (suc k)

-- How many characters `\s*\n+` takes from `s`: up to the last newline of the white space there.
unfoldable pub through_newline : Chars → Option ℕ
unfolding is_space longer
through_newline [] = none
through_newline (c ∷ s) = let k = longer c (through_newline s) in if is_space c then k else none

-- The length of the match of `\n\s*\n+` at `c`, less one.
unfoldable pub break_at : Char → Chars → Option ℕ
unfolding is_newline through_newline
break_at c s = if is_newline c then through_newline s else none

unfoldable pub or_zero : Option ℕ → ℕ
or_zero none = 0
or_zero (some k) = k

-- A character of a part, or the start of a break, before what is split already.
unfoldable pub split_on : Option ℕ → Char → Chars × List Chars → Chars × List Chars
split_on none c (part, parts) = (c ∷ part, parts)
split_on (some k) c (part, parts) = ([], part ∷ parts)

-- `_paragraph_break.split(s)`, as its first part and the others; `skip` characters of a break are left.
unfoldable pub split_breaks : ℕ → Chars → Chars × List Chars
unfolding break_at or_zero split_on
split_breaks skip [] = ([], [])
split_breaks (suc skip) (c ∷ s) = split_breaks skip s
split_breaks zero (c ∷ s) = split_on (break_at c s) c (split_breaks (or_zero (break_at c s)) s)

-- `[item.strip() for item in ... if item.strip()]`
unfoldable pub keep : Chars → List Chars → List Chars
keep [] kept = kept
keep (c ∷ s) kept = (c ∷ s) ∷ kept

unfoldable pub stripped : List Chars → List Chars
unfolding strip keep
stripped [] = []
stripped (p ∷ ps) = keep (strip p) (stripped ps)

unfoldable pub normalise : String → Chars
unfolding replace_crlf collapse strip characters
normalise content = strip (collapse false (replace_crlf (characters content)))

unfoldable pub paragraphs : Chars → List Chars
unfolding split_breaks stripped
paragraphs s = let (part, parts) = split_breaks 0 s in stripped (part ∷ parts)

unfoldable pub is_prefix : Chars → Chars → Bool
is_prefix [] s = true
is_prefix (c ∷ p) [] = false
is_prefix (c ∷ p) (d ∷ s) = eqb (code c) (code d) && is_prefix p s

-- `text.find(p)`, `none` for -1.
unfoldable pub find : Chars → Chars → Option ℕ
unfolding is_prefix
find p [] = if is_prefix p [] then some 0 else none
find p (d ∷ s) =
    let rest = find p s in
    if is_prefix p (d ∷ s) then some 0 else elim rest [ none ↦ none | some k ↦ some (suc k) ]

unfoldable pub drop : ℕ → Chars → Chars
drop zero s = s
drop (suc k) [] = []
drop (suc k) (c ∷ s) = drop k s

-- `text.find(p, cursor)` for a cursor within the text.
unfoldable pub find_from : Chars → ℕ → Chars → Option ℕ
unfolding find drop
find_from p cursor s = elim (find p (drop cursor s)) [ none ↦ none | some k ↦ some (cursor + k) ]

unfoldable pub is_nil : List Chars → Bool
is_nil [] = true
is_nil (p ∷ ps) = false

module _ (lib : ProposalLibrary) where
  unfoldable pub canonical_hash : Json → String
  canonical_hash value = "sha256:" ⧺ lib.sha256_hex (lib.dumps value)

  -- `canonical_hash(value).removeprefix("sha256:")[:n]`
  unfoldable pub short_hash : ℕ → Json → String
  short_hash n value = first_chars n (lib.sha256_hex (lib.dumps value))

  unfoldable pub fragment_key : InstitutionalDocument → ℕ → Chars → Json
  fragment_key d ordinal p = obj (
      ("document_id", text d.document_id)
      ∷ ("ordinal", number ordinal)
      ∷ ("text", text (of_list p))
      ∷ [])

  unfoldable pub fragment_at : InstitutionalDocument → ℕ → Chars → ℕ → DocumentFragment
  unfolding canonical_hash short_hash fragment_key
  fragment_at d ordinal p start = record {
    fragment_id = "frag_" ⧺ short_hash 20 (fragment_key d ordinal p);
    document_id = d.document_id;
    ordinal = ordinal;
    text = of_list p;
    start_char = start;
    end_char = start + length p;
    content_hash = canonical_hash (fragment_key d ordinal p);
  }

  -- The loop over the paragraphs: a start below 0 is refused by the schema of the fragment.
  unfoldable pub cut :
      InstitutionalDocument
      → Chars
      → List Chars
      → ℕ
      → ℕ
      → Result ProposalError (List DocumentFragment)
  unfolding find_from fragment_at
  cut d s [] ordinal cursor = ok []
  cut d s (p ∷ ps) ordinal cursor = elim (find_from p cursor s) [
    | none ↦ err validation_error
    | some start ↦ do
      rest ← cut d s ps (suc ordinal) (start + length p)
      ok (fragment_at d ordinal p start ∷ rest)
  ]

  -- `ParsedDocument(document=d, fragments=fragments)`
  unfoldable pub parsed_document :
      InstitutionalDocument → List DocumentFragment → Result ProposalError ParsedDocument
  parsed_document d fragments = do
    reject_if (ltb 100 (length fragments)) validation_error
    ok (record {
      document = d;
      fragments = fragments;
      parser_version = "institutional-text-parser@0.1.0";
    })

  unfoldable pub parse_paragraphs :
      InstitutionalDocument → Chars → List Chars → Result ProposalError ParsedDocument
  unfolding cut is_nil parsed_document
  parse_paragraphs d s ps = do
    reject_if (is_nil ps) (document_integrity_error "The document contains no parseable paragraphs")
    fragments ← cut d s ps 0 0
    parsed_document d fragments

  unfoldable pub parse : InstitutionalDocument → Result ProposalError ParsedDocument
  unfolding parse_paragraphs normalise paragraphs
  parse d = parse_paragraphs d (normalise d.content) (paragraphs (normalise d.content))
