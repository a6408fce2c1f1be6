-- ===== src/Rehearsal/Claim.antt =====
-- `ProcurementCandidateClaim` of connectors/ted_eforms.py. A claim's fingerprint is its identity.
use axignal.Common.{String, List, [], ◌∷◌, ◌⧺◌}
use axignal.Common.Json.{Json, Library, sha256_of}

pub record CandidateClaim : Type 0 where
  pub predicate : String
  pub subject_key : String
  pub value : Json
  pub source_path : String
  pub authority : String

-- `separator.join(parts)`
unfoldable pub join : String → List String → String
join sep [] = ""
join sep (x ∷ []) = x
join sep (x ∷ y ∷ rest) = x ⧺ sep ⧺ join sep (y ∷ rest)

-- The character U+001F, between the parts.
abbrev pub unit_separator : String
unit_separator = "\u{1f}"

unfoldable pub fingerprint : Library → CandidateClaim → String
unfolding join sha256_of
fingerprint lib c = sha256_of lib (
    join unit_separator
      (c.authority ∷ c.predicate ∷ c.subject_key ∷ lib.repr c.value ∷ c.source_path ∷ []))
