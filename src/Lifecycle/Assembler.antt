-- ===== src/Lifecycle/Assembler.antt =====
-- `ProcurementLifecycleAssembler.run`. The parser is a parameter: what each of its two passes returns
-- or raises on a document, and the equality of the parsed notices. `lifecycle_parser` is the program's.
pub mod Runs
pub mod Sound
pub mod Parsed
use axignal.Common.{
  ℕ, String, Bool, true, false, not, List, [], ◌∷◌, if◌then◌else◌, Result, ok, err, reject_if,
  traverse, ◌>>=◌, ◌>>◌,
}
use axignal.Common.Json.{Library}
use axignal.Common.Xml.{XmlLibrary}
use axignal.Lifecycle.Parser.{parse}
use axignal.Rehearsal.Context.{AdmissionContext, product_admission_ready, sandbox_ready}
use axignal.Rehearsal.Decision.{RehearsalResult}
use axignal.Rehearsal.Store.{AdmissionStore, Failpoint, commit}
use axignal.Rehearsal.Policy.{unstored}
use axignal.Lifecycle.Notice.{
  LifecycleError, parser_error, no_notices, reparse_diverged, product_admission_out_of_scope,
  store_failpoint, LifecycleNotice,
}
use axignal.Lifecycle.Lineage.{validate_lineage}
use axignal.Lifecycle.Evidence.{EvidenceObject, build_evidence}
use axignal.Lifecycle.Decisions.{decide_notices, lifecycle_key}
use axignal.Lifecycle.Events.{LifecycleEvent, build_events}
use axignal.Lifecycle.Dossier.{Dossier, build_dossier}

pub record LifecycleParser : Type 0 where
  pub first_pass : String → Result String LifecycleNotice
  pub second_pass : String → Result String LifecycleNotice
  pub same : List LifecycleNotice → List LifecycleNotice → Bool

-- `TEDEFormsLifecycleParser()` in both passes.
abbrev pub lifecycle_parser :
    XmlLibrary → Library → (List LifecycleNotice → List LifecycleNotice → Bool) → LifecycleParser
lifecycle_parser x lib same = record {
  first_pass = parse x lib;
  second_pass = parse x lib;
  same = same;
}

pub record LifecycleResult : Type 0 where
  pub notices : List LifecycleNotice
  pub evidence_objects : List EvidenceObject
  pub lifecycle_events : List LifecycleEvent
  pub admission : RehearsalResult
  pub dossier : Dossier
  pub canonical_claim_writes : ℕ
  pub model_calls : ℕ
  pub reviewer_canonical_writes : ℕ

-- A parser's exception is passed on.
unfoldable pub passed_on : Result String LifecycleNotice → Result LifecycleError LifecycleNotice
passed_on (ok n) = ok n
passed_on (err e) = err (parser_error e)

-- `not raw_notices`
unfoldable pub has_no_notice : List String → Bool
has_no_notice [] = true
has_no_notice (r ∷ rs) = false

module _ (lib : Library) where
  -- Everything before the decisions: both passes, the lineage and the evidence.
  unfoldable pub prepare :
      LifecycleParser
      → List String
      → Result LifecycleError (List LifecycleNotice × List EvidenceObject)
  unfolding passed_on has_no_notice traverse
  prepare parser raws = do
    reject_if (has_no_notice raws) no_notices
    first ← traverse (λ r. passed_on (parser.first_pass r)) raws
    second ← traverse (λ r. passed_on (parser.second_pass r)) raws
    reject_if (not (parser.same first second)) reparse_diverged
    notices ← validate_lineage lib first
    evidence ← build_evidence lib notices
    ok (notices, evidence)

  -- The store's answer in the sandbox, or a result that no store holds.
  unfoldable pub admit :
      List LifecycleNotice
      → AdmissionContext
      → Bool
      → String
      → AdmissionStore
      → Result Failpoint RehearsalResult × AdmissionStore
  unfolding commit
  admit notices context fail batch s =
      if sandbox_ready context
      then commit lib (lifecycle_key lib notices context) (decide_notices lib context notices) fail
          batch s
      else (ok (unstored (decide_notices lib context notices)), s)

  abbrev pub result_of :
      List LifecycleNotice → List EvidenceObject → RehearsalResult → Dossier → LifecycleResult
  result_of notices evidence admission dossier = record {
    notices = notices;
    evidence_objects = evidence;
    lifecycle_events = build_events lib notices evidence;
    admission = admission;
    dossier = dossier;
    canonical_claim_writes = 0;
    model_calls = 0;
    reviewer_canonical_writes = 0;
  }

  -- The events and the dossier.
  unfoldable pub conclude :
      List LifecycleNotice
      → List EvidenceObject
      → RehearsalResult
      → Result LifecycleError LifecycleResult
  unfolding build_dossier
  conclude notices evidence admission = do
    dossier ← build_dossier lib notices evidence admission.decisions
    ok (result_of notices evidence admission dossier)

  -- What `run` does with the store's answer.
  unfoldable pub answer :
      List LifecycleNotice
      → List EvidenceObject
      → Result Failpoint RehearsalResult × AdmissionStore
      → Result LifecycleError LifecycleResult × AdmissionStore
  unfolding conclude
  answer notices evidence (err e, s) = (err store_failpoint, s)
  answer notices evidence (ok admission, s) = (conclude notices evidence admission, s)

  unfoldable pub run :
      LifecycleParser
      → List String
      → AdmissionContext
      → Bool
      → String
      → AdmissionStore
      → Result LifecycleError LifecycleResult × AdmissionStore
  unfolding prepare admit answer
  run parser raws context fail batch s = elim (prepare parser raws) [
    | err e ↦ (err e, s)
    | ok (notices, evidence) ↦
        if product_admission_ready context
        then (err product_admission_out_of_scope, s)
        else answer notices evidence (admit notices context fail batch s)
  ]
