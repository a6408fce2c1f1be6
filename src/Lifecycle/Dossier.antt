-- ===== src/Lifecycle/Dossier.antt =====
-- `_build_dossier`: the procedure's dossier over the notices, their evidence and the decisions.
pub mod Traceable
pub mod State
use axignal.Common.{
  ℕ, String, Bool, true, false, not, ◌&&◌, ◌||◌, Option, none, some, List, [], ◌∷◌, ◌++◌, map, ◌⧺◌,
  ◌==◌, mem, subset, first_chars, if◌then◌else◌, Result, ok, err, traverse, ◌>>=◌,
}
use axignal.Common.Json.{Json, number, text, texts, obj, list, array, items, optional, Library}
use axignal.Rehearsal.Claim.{CandidateClaim, fingerprint}
use axignal.Rehearsal.Decision.{AdmissionDecision, RehearsalResult, outcome_text}
use axignal.Lifecycle.Notice.{
  LifecycleError, no_notices, missing_binding, LifecycleNotice, Kind, notice_cancellation,
  procedure_result, kind, reference,
}
use axignal.Lifecycle.Evidence.{EvidenceObject, bindings, canonical_hash, hash_digits}

pub record DossierSection : Type 0 where
  pub section_id : String
  pub title : String
  pub claim_fingerprints : List String
  pub evidence_keys : List String
  pub facts : List Json
  pub status : String

pub record Dossier : Type 0 where
  pub dossier_id : String
  pub procedure_identifier : String
  pub status : String
  pub lifecycle_state : String
  pub notice_references : List String
  pub sections : List DossierSection
  pub unknowns : List String
  pub warnings : List String
  pub content_hash : String

abbrev pub is_result : LifecycleNotice → Bool
is_result n = elim (kind n) [ procedure_result ↦ true | _ ↦ false ]

-- `[item for item in notices if item.identity.lifecycle_kind == "PROCEDURE_RESULT"]`
unfoldable pub result_notices : List LifecycleNotice → List LifecycleNotice
result_notices [] = []
result_notices (n ∷ ns) = let rest = result_notices ns in if is_result n then n ∷ rest else rest

unfoldable pub result_statuses : List LifecycleNotice → List String
result_statuses [] = []
result_statuses (n ∷ ns) = n.winner_selection_statuses ++ result_statuses ns

-- `{...} == {...}` on sets of texts.
unfoldable pub same_set : List String → List String → Bool
same_set xs ys = subset xs ys && subset ys xs

-- The state that a set of winner selection statuses stands for.
unfoldable pub result_state : List String → String
unfolding same_set subset mem
result_state statuses =
    if same_set statuses ("selec-w" ∷ [])
    then "AWARDED"
    else if mem "selec-w" statuses
    then "PARTIALLY_AWARDED"
    else if same_set statuses ("clos-nw" ∷ [])
    then "NO_AWARD"
    else "RESULT_PENDING_OR_MIXED"

-- `notices[-1].identity.lifecycle_kind == "NOTICE_CANCELLATION"`
unfoldable pub last_cancels : List LifecycleNotice → Bool
last_cancels [] = false
last_cancels (n ∷ []) = elim (kind n) [ notice_cancellation ↦ true | _ ↦ false ]
last_cancels (n ∷ m ∷ ns) = last_cancels (m ∷ ns)

unfoldable pub lifecycle_state_of : List LifecycleNotice → String
unfolding result_notices result_statuses result_state last_cancels
lifecycle_state_of notices = elim (result_notices notices) [
  | r ∷ rs ↦ result_state (result_statuses (r ∷ rs))
  | [] ↦ if last_cancels notices then "NOTICE_CANCELLED_PROCEDURE_UNRESOLVED" else "OPEN_OR_PENDING"
]

abbrev pub has_items {ℓ} : {A : Type ℓ} → List A → Bool
has_items [] = false
has_items (x ∷ xs) = true

unfoldable pub any_counts : List LifecycleNotice → Bool
any_counts [] = false
any_counts (n ∷ ns) = has_items n.tenders_received_counts || any_counts ns

unfoldable pub any_unresolved_winner : List LifecycleNotice → Bool
unfolding mem
any_unresolved_winner [] = false
any_unresolved_winner (n ∷ ns) =
    mem "selec-w" n.winner_selection_statuses && not (has_items n.winner_organisation_refs)
    || any_unresolved_winner ns

-- `if test: unknowns.append(message)`
abbrev noted : Bool → String → List String
noted test message = if test then message ∷ [] else []

unfoldable pub unknowns_of : List LifecycleNotice → String → List String
unfolding any_counts any_unresolved_winner
unknowns_of results state =
    noted (not (has_items results)) "No result notice is present for the procedure."
    ++ noted (has_items results && not (any_counts results))
        "Tender-count statistics are not published."
    ++ noted (has_items results && any_unresolved_winner results)
        "A winning result lacks a resolved winner organisation."
    ++ noted (state == "NOTICE_CANCELLED_PROCEDURE_UNRESOLVED") (
        "The notice is cancelled, but procedure cancellation is not established "
        ⧺ "without a no-award result notice.")

abbrev warnings_text : List String
warnings_text =
    "TED remains TECHNICAL_PROBE and is not PRODUCT_ADMITTED."
    ∷ "Sandbox decisions create zero canonical Claim Ledger writes."
    ∷ "The dossier is not a bid, eligibility decision or personalised advice." ∷ []

abbrev timeline_fact : LifecycleNotice → Json
timeline_fact n = obj (
    ("notice_reference", text (reference n))
    ∷ ("issue_date", text n.identity.issue_date)
    ∷ ("event_type", text n.identity.lifecycle_kind)
    ∷ ("previous_notice_reference", optional text n.identity.changed_notice_reference)
    ∷ ("change_reason_code", optional text n.identity.change_reason_code)
    ∷ ("lot_ids", texts n.identity.lot_ids)
    ∷ [])

abbrev result_fact : LifecycleNotice → Json
result_fact n = obj (
    ("notice_reference", text (reference n))
    ∷ ("winner_selection_statuses", texts n.winner_selection_statuses)
    ∷ ("winner_organisation_refs", texts n.winner_organisation_refs)
    ∷ (
      "awarded_values",
      list (λ v. obj (("amount", text v.0) ∷ ("currency", text v.1) ∷ [])) n.awarded_values,
    )
    ∷ ("tenders_received_counts", list number n.tenders_received_counts)
    ∷ ("contract_identifiers", texts n.contract_identifiers)
    ∷ ("award_dates", texts n.award_dates)
    ∷ [])

abbrev decision_fact : AdmissionDecision → Json
decision_fact d = obj (
    ("candidate_fingerprint", text d.candidate_fingerprint)
    ∷ ("outcome", text (outcome_text d.outcome))
    ∷ [])

abbrev section_payload : DossierSection → Json
section_payload s = obj (
    ("section_id", text s.section_id)
    ∷ ("claim_fingerprints", texts s.claim_fingerprints)
    ∷ ("evidence_keys", texts s.evidence_keys)
    ∷ ("facts", array (items s.facts))
    ∷ ("status", text s.status)
    ∷ [])

-- `ProcurementDossier.as_payload`
unfoldable pub dossier_as_payload : Dossier → Json
unfolding obj texts list
dossier_as_payload d = obj (
    ("dossier_id", text d.dossier_id)
    ∷ ("procedure_identifier", text d.procedure_identifier)
    ∷ ("status", text d.status)
    ∷ ("lifecycle_state", text d.lifecycle_state)
    ∷ ("notice_references", texts d.notice_references)
    ∷ ("sections", list titled d.sections)
    ∷ ("unknowns", texts d.unknowns)
    ∷ ("warnings", texts d.warnings)
    ∷ ("content_hash", text d.content_hash)
    ∷ [])
  where
    titled : DossierSection → Json
    titled s = obj (
        ("section_id", text s.section_id)
        ∷ ("title", text s.title)
        ∷ ("claim_fingerprints", texts s.claim_fingerprints)
        ∷ ("evidence_keys", texts s.evidence_keys)
        ∷ ("facts", array (items s.facts))
        ∷ ("status", text s.status)
        ∷ [])

-- `evidence_by_binding.get((r, f))`: of two Evidence Objects for one binding the later one stands.
unfoldable pub find_evidence : String → String → List EvidenceObject → Option String
find_evidence r f [] = none
find_evidence r f (e ∷ es) = elim (find_evidence r f es) [
  | some k ↦ some k
  | none ↦ if e.notice_reference == r && e.claim_fingerprint == f then some e.evidence_key else none
]

module _ (lib : Library) where
  -- `evidence_by_binding[(r, f)]`, with its `KeyError`.
  unfoldable pub cite :
      List EvidenceObject → LifecycleNotice × CandidateClaim → Result LifecycleError String
  unfolding find_evidence
  cite evidence b = elim (find_evidence (reference b.0) (fingerprint lib b.1) evidence) [
    | some k ↦ ok k
    | none ↦ err missing_binding
  ]

  abbrev pub fingerprints_of : List LifecycleNotice → List String
  fingerprints_of ns = map (λ b. fingerprint lib b.1) (bindings ns)

  unfoldable pub sections_of :
      List LifecycleNotice
      → List LifecycleNotice
      → List AdmissionDecision
      → List String
      → List String
      → List DossierSection
  sections_of notices results decisions all_keys result_keys =
      record {
        section_id = "lifecycle";
        title = "Notice lifecycle";
        claim_fingerprints = fingerprints_of notices;
        evidence_keys = all_keys;
        facts = map timeline_fact notices;
        status = "TRACEABLE";
      }
      ∷ record {
        section_id = "result";
        title = "Award and competition result";
        claim_fingerprints = fingerprints_of results;
        evidence_keys = result_keys;
        facts = map result_fact results;
        status = if has_items results then "TRACEABLE" else "UNKNOWN";
      }
      ∷ record {
        section_id = "admission";
        title = "Deterministic sandbox admission";
        claim_fingerprints = map (λ d. d.candidate_fingerprint) decisions;
        evidence_keys = all_keys;
        facts = map decision_fact decisions;
        status = "SANDBOX_ONLY";
      }
      ∷ []

  abbrev dossier_payload : String → String → List String → List DossierSection → List String → Json
  dossier_payload procedure state references sections unknowns = obj (
      ("procedure_identifier", text procedure)
      ∷ ("status", text "TRACEABLE_SANDBOX_REHEARSAL")
      ∷ ("lifecycle_state", text state)
      ∷ ("notice_references", texts references)
      ∷ ("sections", list section_payload sections)
      ∷ ("unknowns", texts unknowns)
      ∷ ("warnings", texts warnings_text)
      ∷ [])

  unfoldable pub dossier_of : String → List LifecycleNotice → List DossierSection → Dossier
  dossier_of procedure notices sections =
      let state : String = lifecycle_state_of notices in
      let unknowns : List String = unknowns_of (result_notices notices) state in
      let payload : Json =
        dossier_payload procedure state (map reference notices) sections unknowns in
      record {
        dossier_id = "dos_" ⧺ first_chars 24 (hash_digits lib payload);
        procedure_identifier = procedure;
        status = "TRACEABLE_SANDBOX_REHEARSAL";
        lifecycle_state = state;
        notice_references = map reference notices;
        sections = sections;
        unknowns = unknowns;
        warnings = warnings_text;
        content_hash = canonical_hash lib payload;
      }

  -- `notices[0]` raises an `IndexError` on no notices; `run` rejects those before.
  unfoldable pub build_dossier :
      List LifecycleNotice
      → List EvidenceObject
      → List AdmissionDecision
      → Result LifecycleError Dossier
  unfolding traverse cite sections_of dossier_of
  build_dossier [] evidence decisions = err no_notices
  build_dossier (n ∷ ns) evidence decisions = do
    all_keys ← traverse (cite evidence) (bindings (n ∷ ns))
    result_keys ← traverse (cite evidence) (bindings (result_notices (n ∷ ns)))
    ok (
        dossier_of n.identity.procedure_identifier (n ∷ ns)
          (sections_of (n ∷ ns) (result_notices (n ∷ ns)) decisions all_keys result_keys))
