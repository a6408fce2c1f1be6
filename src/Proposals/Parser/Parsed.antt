-- ===== src/Proposals/Parser/Parsed.antt =====
-- What `DeterministicInstitutionalParser.parse` returns for a document.
use axignal.Common.{
  ◌≤◌, ◌<◌, List, [], ◌∷◌, ◌≡◌, refl, ◌↔◌, length, Bool-cases, inl, inr, arith, ok, ltb,
}
use axignal.Proposals.Types.{
  ProposalLibrary, InstitutionalDocument, DocumentFragment, ParsedDocument,
}
use axignal.Proposals.Parser.{
  Chars, normalise, paragraphs, is_nil, parsed_document, parse_paragraphs, parse,
}
use axignal.Proposals.Parser.Laid.{Laid, paragraphs-Laid}
use axignal.Proposals.Parser.Cover.{Covers, cut-Covers}

-- `parse_paragraphs` on parts that are laid out in the text.
module _ (lib : ProposalLibrary) (d : InstitutionalDocument) (s : Chars) where
  parsed_document-fields :
      (fs : List DocumentFragment) (parsed : ParsedDocument)
      → parsed_document lib d fs ≡ ok parsed
      → (fs ≡ parsed.fragments) × (parsed.document ≡ d)
  unfolding parsed_document
  parsed_document-fields fs parsed ran = ground arith

  parsed_document-within :
      (fs : List DocumentFragment) (ps : List Chars)
      → length fs ≡ length ps
      → 0 < length ps
      → ((parsed : ParsedDocument) × (parsed_document lib d fs ≡ ok parsed))
        ↔ ((0 < length ps) × (length ps ≤ 100))
  unfolding parsed_document
  parsed_document-within fs ps n pos = elim (Bool-cases (ltb 100 (length fs))) [
    | inl many ↦ (λ (parsed, h). absurd (cc (rw many at h)), λ (p, most). absurd (ground arith))
    | inr few ↦ (
      λ h. (pos, ground arith),
      λ h. (
        record { document = d; fragments = fs; parser_version = "institutional-text-parser@0.1.0" },
        rw few refl,
      ),
    )
  ]

  parsed-Covers :
      (ps : List Chars) (parsed : ParsedDocument)
      → Laid s ps
      → parse_paragraphs lib d s ps ≡ ok parsed
      → Covers s 0 0 parsed.fragments × (parsed.document ≡ d)
  unfolding parse_paragraphs is_nil
  parsed-Covers [] parsed laid ran = absurd (cc ran)
  parsed-Covers (p ∷ ps) parsed laid ran =
      let (fs, cuts, covers, n) = cut-Covers lib d s (p ∷ ps) 0 0 laid in
      let (e, same) = parsed_document-fields fs parsed (rw cuts at ran) in (rw (← e) covers, same)

  paragraphs_iff :
      (ps : List Chars)
      → Laid s ps
      → ((parsed : ParsedDocument) × (parse_paragraphs lib d s ps ≡ ok parsed))
        ↔ ((0 < length ps) × (length ps ≤ 100))
  unfolding parse_paragraphs is_nil
  paragraphs_iff [] laid = (λ (parsed, h). absurd (cc h), λ (pos, most). absurd (omega arith))
  paragraphs_iff (p ∷ ps) laid =
      let (fs, cuts, covers, n) = cut-Covers lib d s (p ∷ ps) 0 0 laid in
      rw cuts (parsed_document-within fs (p ∷ ps) n (omega arith))

module _ (lib : ProposalLibrary) (d : InstitutionalDocument) where
  -- The parse succeeds exactly when the normalised text has a paragraph and at most one hundred: no
  -- paragraph is ever missed by the search that starts behind the paragraph before it.
  pub parse_iff : ((parsed : ParsedDocument) × (parse lib d ≡ ok parsed)) ↔ (
      (0 < length (paragraphs (normalise d.content)))
      × (length (paragraphs (normalise d.content)) ≤ 100))
  unfolding parse
  parse_iff =
      paragraphs_iff lib d (normalise d.content) (paragraphs (normalise d.content))
        (paragraphs-Laid (normalise d.content))

  -- The fragments of a parsed document cover its normalised text: their ordinals count from 0, each
  -- is the text between its offsets, which do not overlap, and what no fragment holds is white space.
  pub parse-Covers :
      (parsed : ParsedDocument)
      → parse lib d ≡ ok parsed
      → Covers (normalise d.content) 0 0 parsed.fragments × (parsed.document ≡ d)
  unfolding parse
  parse-Covers parsed ran =
      parsed-Covers lib d (normalise d.content) (paragraphs (normalise d.content)) parsed
        (paragraphs-Laid (normalise d.content)) ran
