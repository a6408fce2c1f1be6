-- ===== src/Proposals/Scanner/Quarantine.antt =====
-- What `PromptInjectionScanner.inspect` does with a document that holds instructions.
use axignal.Common.{
  String, Bool, true, false, ◌||◌, List, [], ◌∷◌, ◌++◌, ◌≡◌, ◌≢◌, refl, ap, ◌⊎◌, inl, inr, ◌↔◌, Any,
  here, there, ◌⧺◌, Bool-cases, ok, err,
}
use mathlib.Core.List.{cons-ne-nil, append-eq-nil_iff}
use axignal.Proposals.Types.{
  document_security_error, InstitutionalDocument, DocumentFragment, ParsedDocument, ProposalLibrary,
}
use axignal.Proposals.Parser.{Chars, characters, parse}
use axignal.Proposals.Regex.{Regex, ends, is_any, search_in}
use axignal.Proposals.Scanner.{
  joined, blocked_patterns, detections_of, detections, refuse_detections, inspect,
}
use axignal.Proposals.Gateway.{ProposalModelGateway}
use axignal.Proposals.Pipeline.{execute}

-- Somewhere in the text, a match of the expression begins.
abbrev pub Occurs : ProposalLibrary → Regex → Chars → Type 0
Occurs lib r s = (u : Chars) × (t : Chars) × (s ≡ u ++ t) × (is_any (ends lib r t) ≡ true)

-- One of the blocked patterns occurs in the text of the fragment.
abbrev pub Tripped : ProposalLibrary → DocumentFragment → Type 0
Tripped lib f = Any (λ (name, r). Occurs lib r (characters f.text)) blocked_patterns

or_true : (b : Bool) → (b || true) ≡ true
or_true true = refl
or_true false = refl

nil_or_not {ℓ} : {A : Type ℓ} (xs : List A) → (xs ≡ []) ⊎ (xs ≢ [])
nil_or_not [] = inl refl
nil_or_not (x ∷ xs) = inr (cons-ne-nil x xs)

search_in-Occurs :
    (lib : ProposalLibrary) (r : Regex) (s : Chars) → search_in lib r s ≡ true → Occurs lib r s
unfolding search_in
search_in-Occurs lib r [] h = ([], [], refl, h)
search_in-Occurs lib r (c ∷ s) h = elim (Bool-cases (is_any (ends lib r (c ∷ s)))) [
  | inl starts ↦ ([], c ∷ s, refl, starts)
  | inr later ↦
      let (u, t, e, m) = search_in-Occurs lib r s (rw later at h) in
      (c ∷ u, t, ap (λ x. c ∷ x) e, m)
]

Occurs-search_in :
    (lib : ProposalLibrary) (r : Regex) (u t : Chars)
    → is_any (ends lib r t) ≡ true
    → search_in lib r (u ++ t) ≡ true
unfolding search_in
Occurs-search_in lib r [] [] h = h
Occurs-search_in lib r [] (c ∷ t) h = rw h refl
Occurs-search_in lib r (c ∷ u) t h = rw (Occurs-search_in lib r u t h) (or_true _)

module _ (lib : ProposalLibrary) (f : DocumentFragment) where
  abbrev TrippedBy : List (String × Regex) → Type 0
  TrippedBy patterns = Any (λ (name, r). Occurs lib r (characters f.text)) patterns

  detections_of-TrippedBy :
      (patterns : List (String × Regex)) → TrippedBy patterns → detections_of lib patterns f ≢ []
  unfolding detections_of
  detections_of-TrippedBy [] a = elim a [ ]
  detections_of-TrippedBy ((name, r) ∷ patterns) (here (u, t, e, m)) =
      let found : search_in lib r (characters f.text) ≡ true =
        rw e (Occurs-search_in lib r u t m) in
      rw found (cons-ne-nil _ _)
  detections_of-TrippedBy ((name, r) ∷ patterns) (there a) =
      elim (Bool-cases (search_in lib r (characters f.text))) [
        | inl found ↦ rw found (cons-ne-nil _ _)
        | inr other ↦ rw other (detections_of-TrippedBy patterns a)
      ]

  TrippedBy-detections_of :
      (patterns : List (String × Regex)) → detections_of lib patterns f ≢ [] → TrippedBy patterns
  unfolding detections_of
  TrippedBy-detections_of [] h = absurd (h refl)
  TrippedBy-detections_of ((name, r) ∷ patterns) h =
      elim (Bool-cases (search_in lib r (characters f.text))) [
        | inl found ↦ here (search_in-Occurs lib r (characters f.text) found)
        | inr other ↦ there (TrippedBy-detections_of patterns (rw other at h))
      ]

refuse_detections_iff : (ds : List String) → (refuse_detections ds ≡ ok tt) ↔ (ds ≡ [])
unfolding refuse_detections
refuse_detections_iff [] = (λ h. refl, λ h. refl)
refuse_detections_iff (d ∷ ds) = (λ h. cc h, λ h. absurd (cons-ne-nil d ds h))

refuse_detections_err :
    (ds : List String)
    → ds ≢ []
    → refuse_detections ds
      ≡ err (
          document_security_error
            ("Untrusted document instructions detected and quarantined: " ⧺ joined ds))
unfolding refuse_detections
refuse_detections_err [] h = absurd (h refl)
refuse_detections_err (d ∷ ds) h = refl

module _ (lib : ProposalLibrary) where
  detections-Tripped : (fs : List DocumentFragment) → Any (Tripped lib) fs → detections lib fs ≢ []
  unfolding detections
  detections-Tripped [] a = elim a [ ]
  detections-Tripped (f ∷ fs) (here t) = λ none_found.
      detections_of-TrippedBy lib f blocked_patterns t (append-eq-nil_iff.0 none_found).0
  detections-Tripped (f ∷ fs) (there a) =
      λ none_found. detections-Tripped fs a (append-eq-nil_iff.0 none_found).1

  Tripped-detections : (fs : List DocumentFragment) → detections lib fs ≢ [] → Any (Tripped lib) fs
  unfolding detections
  Tripped-detections [] h = absurd (h refl)
  Tripped-detections (f ∷ fs) h = elim (nil_or_not (detections_of lib blocked_patterns f)) [
    | inl clean ↦ there (Tripped-detections fs (rw clean at h))
    | inr found ↦ here (TrippedBy-detections_of lib f blocked_patterns found)
  ]

  -- The scan passes exactly when no blocked pattern occurs in the text of any fragment.
  pub inspect_iff :
      (parsed : ParsedDocument)
      → (inspect lib parsed ≡ ok tt) ↔ (¬ Any (Tripped lib) parsed.fragments)
  unfolding inspect
  inspect_iff parsed =
      let ds = detections lib parsed.fragments in
      let (to, from) = refuse_detections_iff ds in
      (
        λ h tripped. detections-Tripped parsed.fragments tripped (to h),
        λ clean. elim (nil_or_not ds) [
          | inl none_found ↦ from none_found
          | inr found ↦ absurd (clean (Tripped-detections parsed.fragments found))
        ],
      )

  -- A document in which a blocked pattern occurs is refused with a security error, and whatever the
  -- model gateway is: it is not consulted.
  pub execute-quarantines :
      (gateway : ProposalModelGateway) (d : InstitutionalDocument)
      (opportunity_id research_question : String) (parsed : ParsedDocument)
      → parse lib d ≡ ok parsed
      → Any (Tripped lib) parsed.fragments
      → execute lib gateway d opportunity_id research_question
        ≡ err (
            document_security_error (
              "Untrusted document instructions detected and quarantined: "
              ⧺ joined (detections lib parsed.fragments)))
  unfolding execute
  execute-quarantines gateway d opportunity_id research_question parsed parses tripped =
      let refused =
        refuse_detections_err (detections lib parsed.fragments)
          (detections-Tripped parsed.fragments tripped) in
      rw parses (rw refused refl)
