-- ===== src/Proposals/Drafts.antt =====
-- What the pipeline builds: evidence bound to fragments, candidates, the boundary's results, the
-- dossier.
use axignal.Common.{
  ℕ, suc, ◌+◌, String, Bool, true, false, not, ◌&&◌, ◌||◌, Option, none, some, List, [], ◌∷◌, ◌++◌,
  map, ltb, ◌==◌, ◌⧺◌, if◌then◌else◌, is_none, length, Result, ok, err, ◌>>=◌, ◌>>◌, reject_if,
}
use axignal.Common.Dict.{get, put}
use axignal.Common.Json.{Json, text, texts, object, obj}
use axignal.Proposals.Types.{
  ProposalError, model_proposal_error, validation_error, InstitutionalDocument, DocumentFragment,
  ParsedDocument, SourceFragmentReference, ProposedClaim, ProposalBatch, EvidenceDraft,
  CandidateClaimDraft, AdmissionBoundaryResult, Relationship, supporting, adverse, context,
  DossierSection, DossierDraft, provisional, methodology, unknown, ProposalLibrary,
}
use axignal.Proposals.Parser.{canonical_hash, short_hash}
use axignal.Proposals.Gateway.{quotes}

abbrev pub commercial_reuse : String
commercial_reuse = "COMMERCIAL_REUSE_WITH_ATTRIBUTION"

-- The constant fields that the schema allows.
unfoldable pub wrong_rights : InstitutionalDocument → Bool
wrong_rights d = not (d.rights_status == commercial_reuse && d.license_id == "CC-BY-4.0")

abbrev pub Fragments : Type 0
Fragments = List (String × DocumentFragment)

abbrev pub Bound : Type 0
Bound = List (String × EvidenceDraft)

unfoldable pub has_no_key : List String → Bool
has_no_key [] = true
has_no_key (k ∷ ks) = false

-- The fragment that a reference names, if its hash is the one that the reference quotes.
unfoldable pub cited_fragment :
    Option DocumentFragment → SourceFragmentReference → Result ProposalError DocumentFragment
unfolding quotes
cited_fragment none r =
    err (model_proposal_error "A proposed claim references unavailable evidence")
cited_fragment (some f) r =
    if quotes (some f) r
    then ok f
    else err (model_proposal_error "A proposed claim references unavailable evidence")

unfoldable pub fingerprint_value : String → ProposedClaim → ProposalBatch → List String → Json
fingerprint_value opportunity_id c b keys = obj (
    ("opportunity_id", text opportunity_id)
    ∷ ("subject_id", text c.subject_id)
    ∷ ("predicate", text c.predicate)
    ∷ ("object_value", object c.object_value)
    ∷ ("evidence_keys", texts keys)
    ∷ ("producer_id", text b.producer_id)
    ∷ ("model_version", text b.model_version)
    ∷ ("method_version", text b.method_version)
    ∷ [])

unfoldable pub any_missing : List String → Bound → Bool
unfolding get
any_missing [] evidence_by_key = false
any_missing (k ∷ ks) evidence_by_key =
    is_none (get k evidence_by_key) || any_missing ks evidence_by_key

-- `if bad: reasons.append(reason)`
unfoldable pub reason_if : Bool → String → List String
reason_if true reason = reason ∷ []
reason_if false reason = []

-- `DeterministicProposalBoundary.evaluate`
unfoldable pub evaluate :
    InstitutionalDocument → Bound → CandidateClaimDraft → AdmissionBoundaryResult
unfolding any_missing reason_if has_no_key
evaluate d evidence_by_key c =
    let rights = not (d.rights_status == commercial_reuse) in
    let unbound = has_no_key c.evidence_keys || any_missing c.evidence_keys evidence_by_key in
    let producer = not (c.producer_type == "LOCAL_MODEL") in
    record {
      candidate_claim_id = c.candidate_claim_id;
      admitted = false;
      reasons =
          "generative_producer_cannot_auto_admit"
            ∷ "independent_runtime_required"
            ∷ reason_if rights "source_rights_not_admitted"
          ++ (reason_if unbound "evidence_binding_missing"
              ++ reason_if producer "unexpected_producer_type");
      handoff_ready = not (rights || unbound || producer);
      canonical_claim_id = none;
    }

unfoldable pub section_title : Relationship → String
section_title supporting = "Propuesta favorable"
section_title adverse = "Límite o evidencia adversa"
section_title context = "Límite o evidencia adversa"

-- `" ".join(xs)`
unfoldable pub spaced : List String → String
spaced [] = ""
spaced (x ∷ []) = x
spaced (x ∷ y ∷ xs) = x ⧺ " " ⧺ spaced (y ∷ xs)

unfoldable pub closing_sections : List String → List DossierSection
unfolding spaced
closing_sections unknowns =
    record {
      section_id = "unknowns";
      title = "Desconocidos explícitos";
      text = spaced unknowns;
      evidence_keys = [];
      candidate_claim_ids = [];
      status = unknown;
    }
    ∷ record {
      section_id = "authority";
      title = "Método y autoridad";
      text =
          "Un modelo local produjo propuestas estructuradas. AXIGNAL no las admite como hechos canónicos: el runtime determinista debe revalidar fuente, derechos, estructura, tiempo, unidades, contradicciones y ámbito.";
      evidence_keys = [];
      candidate_claim_ids = [];
      status = methodology;
    }
    ∷ []

unfoldable pub dossier_value : InstitutionalDocument → List CandidateClaimDraft → List String → Json
dossier_value d candidates unknowns = obj (
    ("document_id", text d.document_id)
    ∷ ("candidate_claim_ids", texts (map (λ c. c.candidate_claim_id) candidates))
    ∷ ("unknowns", texts unknowns)
    ∷ [])

module _ (lib : ProposalLibrary) where
  unfoldable pub evidence_key : InstitutionalDocument → DocumentFragment → String
  unfolding canonical_hash
  evidence_key d f = canonical_hash lib (
      obj (
        ("document_id", text d.document_id)
        ∷ ("fragment_id", text f.fragment_id)
        ∷ ("content_hash", text f.content_hash)
        ∷ []))

  unfoldable pub evidence_draft :
      ParsedDocument → DocumentFragment → SourceFragmentReference → EvidenceDraft
  unfolding evidence_key
  evidence_draft parsed f r =
      let d = parsed.document in
      record {
        evidence_key = evidence_key d f;
        document_id = d.document_id;
        fragment_id = f.fragment_id;
        source_id = d.source_id;
        title = d.title ⧺ " · fragment " ⧺ lib.print_number (f.ordinal + 1);
        text = f.text;
        content_hash = f.content_hash;
        quote_hash = r.quote_hash;
        rights_status = d.rights_status;
        license_id = d.license_id;
        parser_version = parsed.parser_version;
      }

  -- The key of the evidence of the fragment, and the dictionary with that evidence in it.
  unfoldable pub draft_once :
      ParsedDocument
      → Option EvidenceDraft
      → DocumentFragment
      → SourceFragmentReference
      → Bound
      → Result ProposalError (String × Bound)
  unfolding evidence_draft wrong_rights put
  draft_once parsed (some e) f r bound = ok (e.evidence_key, bound)
  draft_once parsed none f r bound = do
    reject_if (wrong_rights parsed.document) validation_error
    let e = evidence_draft parsed f r
    ok (e.evidence_key, put r.fragment_id e bound)

  unfoldable pub bind_reference :
      ParsedDocument
      → Fragments
      → SourceFragmentReference
      → Bound
      → Result ProposalError (String × Bound)
  unfolding get cited_fragment draft_once
  bind_reference parsed fragments_by_id r bound = do
    f ← cited_fragment (get r.fragment_id fragments_by_id) r
    draft_once parsed (get r.fragment_id bound) f r bound

  -- `_bind_evidence`
  unfoldable pub bind_evidence :
      ParsedDocument
      → Fragments
      → List SourceFragmentReference
      → Bound
      → Result ProposalError (List String × Bound)
  unfolding bind_reference
  bind_evidence parsed fragments_by_id [] bound = ok ([], bound)
  bind_evidence parsed fragments_by_id (r ∷ rs) bound = do
    (key, bound) ← bind_reference parsed fragments_by_id r bound
    (keys, bound) ← bind_evidence parsed fragments_by_id rs bound
    ok (key ∷ keys, bound)

  unfoldable pub candidate_of :
      String → ProposedClaim → ProposalBatch → List String → CandidateClaimDraft
  unfolding fingerprint_value canonical_hash short_hash
  candidate_of opportunity_id c b keys = record {
    candidate_claim_id = "cand_" ⧺ short_hash lib 24 (fingerprint_value opportunity_id c b keys);
    fingerprint = canonical_hash lib (fingerprint_value opportunity_id c b keys);
    opportunity_id = opportunity_id;
    subject_id = c.subject_id;
    predicate = c.predicate;
    object_value = c.object_value;
    statement = c.statement;
    kind = c.kind;
    relationship = c.relationship;
    evidence_keys = keys;
    producer_type = "LOCAL_MODEL";
    producer_id = b.producer_id;
    model_version = b.model_version;
    method_version = b.method_version;
    prompt_version = b.prompt_version;
    assumptions = c.assumptions;
    unknowns = c.unknowns;
    extraction_confidence = c.extraction_confidence;
  }

  -- `_build_candidate`; the schema of a candidate wants a key.
  unfoldable pub build_candidate :
      String
      → ProposedClaim
      → ProposalBatch
      → List String
      → Result ProposalError CandidateClaimDraft
  unfolding candidate_of has_no_key
  build_candidate opportunity_id c b keys = do
    reject_if (has_no_key keys) validation_error
    ok (candidate_of opportunity_id c b keys)

  unfoldable pub claim_sections : ℕ → List CandidateClaimDraft → List DossierSection
  unfolding section_title
  claim_sections index [] = []
  claim_sections index (c ∷ cs) =
      record {
        section_id = "claim_" ⧺ lib.print_number (index + 1);
        title = section_title c.relationship;
        text = c.statement;
        evidence_keys = c.evidence_keys;
        candidate_claim_ids = c.candidate_claim_id ∷ [];
        status = provisional;
      }
      ∷ claim_sections (suc index) cs

  -- `_build_dossier`; the schema of a dossier wants three sections.
  unfoldable pub build_dossier :
      InstitutionalDocument
      → List CandidateClaimDraft
      → List String
      → Result ProposalError DossierDraft
  unfolding claim_sections closing_sections dossier_value short_hash
  build_dossier d candidates unknowns = do
    let sections = claim_sections 0 candidates ++ closing_sections unknowns
    reject_if (ltb (length sections) 3) validation_error
    ok (record {
      dossier_id = "dossier_" ⧺ short_hash lib 24 (dossier_value d candidates unknowns);
      title = "Dossier provisional · " ⧺ d.title;
      summary =
          lib.print_number (length candidates)
          ⧺ " propuestas locales trazables; ninguna posee autoridad canónica.";
      sections = sections;
      attribution =
          ("source_id", d.source_id)
          ∷ ("source_url", d.source_url)
          ∷ ("license_id", d.license_id)
          ∷ ("attribution_text", d.attribution_text)
          ∷ [];
    })
