-- ===== src/Proposals/Pipeline/Binding.antt =====
-- The evidence that the loop of `execute` binds, through `_bind_evidence` and `_build_candidate`.
use axignal.Common.{
  String, false, Option, none, some, List, [], ◌∷◌, ◌≡◌, refl, sym, ap, subst, inl, inr, All, Any,
  ◌==◌, ◌∙◌, Bool-cases, ok, >>=-eq-ok, reject_if, reject_if-eq-ok, ok_injective, eq_iff,
}
use axignal.Common.Occurrence.{Any-weaken}
use axignal.Common.Dict.{get, put, get-All, put-All, put-kept, put-new, get-Any}
use axignal.Proposals.Types.{
  validation_error, DocumentFragment, ParsedDocument, SourceFragmentReference, EvidenceDraft,
  ProposalLibrary,
}
use axignal.Proposals.Gateway.{by_id, quotes}
use axignal.Proposals.Drafts.{
  Fragments, Bound, evidence_draft, wrong_rights, cited_fragment, draft_once, bind_reference,
  bind_evidence,
}

-- The evidence is the text of the fragment, and quotes the fragment's own hash.
abbrev pub Drawn : String → EvidenceDraft → DocumentFragment → Type 0
Drawn document_id e f =
    (e.document_id ≡ document_id)
    × (e.fragment_id ≡ f.fragment_id)
    × (e.text ≡ f.text)
    × (e.content_hash ≡ f.content_hash)
    × (e.quote_hash ≡ f.content_hash)

-- The evidence is drawn from a fragment of a document whose rights are the ones admitted.
abbrev pub Grounded : ParsedDocument → EvidenceDraft → Type 0
Grounded parsed e =
    Any (Drawn parsed.document.document_id e) parsed.fragments
    × (wrong_rights parsed.document ≡ false)

abbrev pub Has : String → Bound → Type 0
Has key bound = Any (λ (j, e). e.evidence_key ≡ key) bound

abbrev pub AllGrounded : ParsedDocument → Bound → Type 0
AllGrounded parsed bound = All (λ (j, e). Grounded parsed e) bound

-- Every entry of the dictionary of fragments is a fragment of the document.
abbrev pub FromDocument : ParsedDocument → Fragments → Type 0
FromDocument parsed fragments = All (λ (j, f). Any (λ g. g ≡ f) parsed.fragments) fragments

-- What binding more references does: the evidence so far stays, new evidence is grounded, and the
-- keys that are returned are bound.
abbrev pub Extends : ParsedDocument → Bound → Bound → List String → Type 0
Extends parsed bound bound' keys =
    ((key : String) → Has key bound → Has key bound')
    × (AllGrounded parsed bound → AllGrounded parsed bound')
    × All (λ key. Has key bound') keys

pub by_id-FromDocument :
    (parsed : ParsedDocument) (fs : List DocumentFragment) (d : Fragments)
    → All (λ f. Any (λ g. g ≡ f) parsed.fragments) fs
    → FromDocument parsed d
    → FromDocument parsed (by_id fs d)
unfolding by_id
by_id-FromDocument parsed [] d a b = b
by_id-FromDocument parsed (f ∷ fs) d (p, a) b =
    by_id-FromDocument parsed fs (put f.fragment_id f d) a
      (put-All (λ f. Any (λ g. g ≡ f) parsed.fragments) f.fragment_id f d p b)

cited_fragment-eq-ok :
    (o : Option DocumentFragment) (r : SourceFragmentReference) (f : DocumentFragment)
    → cited_fragment o r ≡ ok f
    → (o ≡ some f) × (f.content_hash ≡ r.quote_hash)
unfolding cited_fragment quotes
cited_fragment-eq-ok none r f h = absurd (cc h)
cited_fragment-eq-ok (some g) r f h = elim (Bool-cases (g.content_hash == r.quote_hash)) [
  | inl same ↦
      let e : g ≡ f = ok_injective (rw same at h) in
      (
        ap some e,
        ap (λ (x : DocumentFragment). x.content_hash) (sym e)
            ∙ (eq_iff g.content_hash r.quote_hash).0 same,
      )
  | inr other ↦ absurd (cc (rw other at h))
]

module _ (lib : ProposalLibrary) (parsed : ParsedDocument) where
  evidence_draft-Drawn :
      (f : DocumentFragment) (r : SourceFragmentReference)
      → f.content_hash ≡ r.quote_hash
      → (g : DocumentFragment) → g ≡ f
      → Drawn parsed.document.document_id (evidence_draft lib parsed f r) g
  unfolding evidence_draft
  evidence_draft-Drawn f r quoted g e = rw e (refl, refl, refl, refl, sym quoted)

  draft_once-Extends :
      (o : Option EvidenceDraft) (f : DocumentFragment) (r : SourceFragmentReference)
      (bound : Bound) (out : String × Bound)
      → get r.fragment_id bound ≡ o
      → Any (λ g. g ≡ f) parsed.fragments
      → f.content_hash ≡ r.quote_hash
      → draft_once lib parsed o f r bound ≡ ok out
      → Extends parsed bound out.1 (out.0 ∷ [])
  unfolding draft_once
  draft_once-Extends (some e) f r bound out found a quoted ran =
      subst (λ (x : String × Bound). Extends parsed bound x.1 (x.0 ∷ [])) (ok_injective ran)
        (
          λ key h. h,
          λ h. h,
          (
            Any-weaken (λ (j, e') same. ap (λ (x : EvidenceDraft). x.evidence_key) same) bound
                (get-Any r.fragment_id bound found),
            tt,
          ),
        )
  draft_once-Extends none f r bound out fresh a quoted ran =
      let e = evidence_draft lib parsed f r in
      let (u, allowed, last) =
        >>=-eq-ok (reject_if (wrong_rights parsed.document) validation_error) _ ran in
      subst (λ (x : String × Bound). Extends parsed bound x.1 (x.0 ∷ [])) (ok_injective last)
        (
          λ key h.
              put-kept (λ (x : EvidenceDraft). x.evidence_key ≡ key) r.fragment_id e bound fresh h,
          λ h.
              put-All (Grounded parsed) r.fragment_id e bound
                (
                  Any-weaken (evidence_draft-Drawn f r quoted) parsed.fragments a,
                  reject_if-eq-ok _ _ allowed,
                )
                h,
          (
            put-new (λ (x : EvidenceDraft). x.evidence_key ≡ e.evidence_key) r.fragment_id e bound
                refl,
            tt,
          ),
        )

  bind_reference-Extends :
      (fragments : Fragments) (r : SourceFragmentReference) (bound : Bound) (out : String × Bound)
      → FromDocument parsed fragments
      → bind_reference lib parsed fragments r bound ≡ ok out
      → Extends parsed bound out.1 (out.0 ∷ [])
  unfolding bind_reference
  bind_reference-Extends fragments r bound out from ran =
      let (f, cited, rest) = >>=-eq-ok (cited_fragment (get r.fragment_id fragments) r) _ ran in
      let (found, quoted) = cited_fragment-eq-ok (get r.fragment_id fragments) r f cited in
      draft_once-Extends (get r.fragment_id bound) f r bound out refl
        (get-All (λ f. Any (λ g. g ≡ f) parsed.fragments) r.fragment_id fragments from found) quoted
        rest

  Extends-cons :
      (a b c : Bound) (key : String) (keys : List String)
      → Extends parsed a b (key ∷ [])
      → Extends parsed b c keys
      → Extends parsed a c (key ∷ keys)
  Extends-cons a b c key keys (k, g, (h, _)) (l, i, m) =
      (λ j x. l j (k j x), λ x. i (g x), (l key h, m))

  pub bind_evidence-Extends :
      (fragments : Fragments) (rs : List SourceFragmentReference) (bound : Bound)
      (out : List String × Bound)
      → FromDocument parsed fragments
      → bind_evidence lib parsed fragments rs bound ≡ ok out
      → Extends parsed bound out.1 out.0
  unfolding bind_evidence
  bind_evidence-Extends fragments [] bound out from ran =
      subst (λ (x : List String × Bound). Extends parsed bound x.1 x.0) (ok_injective ran)
        (λ key h. h, λ h. h, tt)
  bind_evidence-Extends fragments (r ∷ rs) bound out from ran =
      let ((key, next), first, rest) =
        >>=-eq-ok (bind_reference lib parsed fragments r bound) _ ran in
      let ((keys, last), others, done) =
        >>=-eq-ok (bind_evidence lib parsed fragments rs next) _ rest in
      subst (λ (x : List String × Bound). Extends parsed bound x.1 x.0) (ok_injective done)
        (Extends-cons bound next last key keys
          (bind_reference-Extends fragments r bound (key, next) from first)
          (bind_evidence-Extends fragments rs next (keys, last) from others))
