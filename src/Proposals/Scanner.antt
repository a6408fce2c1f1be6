-- ===== src/Proposals/Scanner.antt =====
-- `PromptInjectionScanner`: the patterns of instructions that an untrusted document may hold.
pub mod Quarantine
use axignal.Common.{
  String, Bool, true, false, List, [], ◌∷◌, ◌++◌, if◌then◌else◌, ◌⧺◌, Result, ok, err,
}
use axignal.Proposals.Types.{
  ProposalError, document_security_error, DocumentFragment, ParsedDocument, ProposalLibrary,
}
use axignal.Proposals.Parser.{characters}
use axignal.Proposals.Regex.{
  Regex, literal, followed, either, maybe, up_to, spaces, word_end, search_in,
}

infixr 60 ◌then_by◌
abbrev pub ◌then_by◌ : Regex → Regex → Regex
r then_by q = followed r q

infixr 55 ◌or_by◌
abbrev pub ◌or_by◌ : Regex → Regex → Regex
r or_by q = either r q

abbrev pub ignore_instructions : Regex
ignore_instructions =
    literal "ignore "
    then_by (maybe (literal "all " or_by literal "the "))
    then_by (literal "previous" or_by literal "prior")
    then_by literal " instructions"

abbrev pub system_prompt_request : Regex
system_prompt_request =
    (literal "reveal" or_by literal "print" or_by literal "return")
    then_by up_to 30
    then_by literal "system prompt"

abbrev pub permission_mutation : Regex
permission_mutation =
    (literal "change" or_by literal "override" or_by literal "disable")
    then_by up_to 30
    then_by (literal "permissions"
        or_by literal "budget"
        or_by literal "policy"
        or_by literal "gate")

abbrev pub canonical_write_request : Regex
canonical_write_request =
    (literal "write" or_by literal "insert" or_by literal "publish")
    then_by up_to 30
    then_by (literal "claim ledger" or_by literal "canonical claim")

abbrev pub embedded_script : Regex
embedded_script =
    (literal "<script" then_by word_end)
    or_by literal "javascript:"
    or_by (literal "powershell" then_by spaces then_by literal "-")
    or_by (literal "curl"
        then_by spaces
        then_by literal "http"
        then_by maybe (literal "s")
        then_by literal "://")

abbrev pub blocked_patterns : List (String × Regex)
blocked_patterns =
    ("ignore_instructions", ignore_instructions)
    ∷ ("system_prompt_request", system_prompt_request)
    ∷ ("permission_mutation", permission_mutation)
    ∷ ("canonical_write_request", canonical_write_request)
    ∷ ("embedded_script", embedded_script)
    ∷ []

-- `", ".join(xs)`
unfoldable pub joined : List String → String
joined [] = ""
joined (x ∷ []) = x
joined (x ∷ y ∷ xs) = x ⧺ ", " ⧺ joined (y ∷ xs)

unfoldable pub refuse_detections : List String → Result ProposalError (Unit {0})
unfolding joined
refuse_detections [] = ok tt
refuse_detections (d ∷ ds) = err (
    document_security_error
      ("Untrusted document instructions detected and quarantined: " ⧺ joined (d ∷ ds)))

module _ (lib : ProposalLibrary) where
  unfoldable pub detections_of : List (String × Regex) → DocumentFragment → List String
  unfolding search_in characters
  detections_of [] f = []
  detections_of ((detection, regex) ∷ patterns) f =
      let rest = detections_of patterns f in
      if search_in lib regex (characters f.text)
      then (f.fragment_id ⧺ ":" ⧺ detection) ∷ rest
      else rest

  unfoldable pub detections : List DocumentFragment → List String
  unfolding detections_of
  detections [] = []
  detections (f ∷ fs) = detections_of blocked_patterns f ++ detections fs

  unfoldable pub inspect : ParsedDocument → Result ProposalError (Unit {0})
  unfolding detections refuse_detections
  inspect parsed = refuse_detections (detections parsed.fragments)
