-- ===== src/Outbox/Jobs.antt =====
-- `ResearchJob`, `AdmissionReviewJob`, `DocumentProposalBudget` and `DocumentProposalJob`.
use axignal.Common.{
  ℕ, zero, suc, String, Bool, true, false, not, ◌||◌, none, some, List, [], ◌∷◌, eqb, ◌==◌,
  is_empty, Result, ok, reject_if, ◌>>=◌, ◌>>◌,
}
use package.text.Mathlib.Text.{starts_with}
use axignal.Common.Integers.{ℤ, pos, negsuc}
use axignal.Common.Json.{Json, number, text, obj, Fields, fields, end}
use axignal.Outbox.Payload.{
  Exception, value_error, PayloadLibrary, lookup, is_number, is_text, str_of, dict_of, str_item,
  uuid_item, int_item,
}

-- `len(s)`
unfoldable pub text_length : String → ℕ
text_length String.[] = zero
text_length (String.◌∷◌ c s) = suc (text_length s)

abbrev pub policy_version_in_force : String
policy_version_in_force = "document-observed-fact@0.1.0"

-- `document_proposal` budgets: of the integers only positive ones leave `from_payload`.
pub record Budget : Type 0 where
  pub max_documents : ℕ
  pub max_model_calls : ℕ
  pub max_input_tokens : ℕ
  pub max_output_tokens : ℕ

-- `value <= 0`
abbrev pub not_positive : ℤ → Bool
not_positive (pos zero) = true
not_positive (pos (suc n)) = false
not_positive (negsuc n) = true

-- `value != 1`
abbrev pub not_one : ℤ → Bool
not_one (pos n) = not (eqb n 1)
not_one (negsuc n) = true

-- The value of an integer that is not negative.
abbrev pub magnitude : ℤ → ℕ
magnitude (pos n) = n
magnitude (negsuc n) = zero

unfoldable pub budget_payload : Budget → List (String × Json)
budget_payload b =
    ("max_documents", number b.max_documents)
    ∷ ("max_model_calls", number b.max_model_calls)
    ∷ ("max_input_tokens", number b.max_input_tokens)
    ∷ ("max_output_tokens", number b.max_output_tokens)
    ∷ []

-- The checks of `DocumentProposalBudget.from_payload`, and the budget.
unfoldable pub check_budget : ℤ → ℤ → ℤ → ℤ → Result Exception Budget
check_budget documents calls input output = do
  reject_if (not_one documents || not_one calls)
      (value_error "Document proposal v0.1 permits exactly one document and model call")
  reject_if (not_positive input || not_positive output)
      (value_error "Document proposal token budgets must be positive")
  ok (record {
    max_documents = magnitude documents;
    max_model_calls = magnitude calls;
    max_input_tokens = magnitude input;
    max_output_tokens = magnitude output;
  })

-- `not package_hash.startswith("sha256:") or len(package_hash) != 71`
unfoldable pub bad_hash : String → Bool
unfolding text_length
bad_hash h = not (starts_with h "sha256:") || not (eqb (text_length h) 71)

module _ (lib : PayloadLibrary) where
  pub record ResearchJob : Type 0 where
    pub tenant_id : lib.Uuid
    pub research_run_id : lib.Uuid
    pub source_id : String

  pub record AdmissionReviewJob : Type 0 where
    pub admission_handoff_id : lib.Uuid
    pub research_run_id : lib.Uuid
    pub tenant_id : lib.Uuid
    pub expected_package_hash : String
    pub policy_version : String

  pub record ProposalJob : Type 0 where
    pub tenant_id : lib.Uuid
    pub research_run_id : lib.Uuid
    pub source_id : String
    pub document_id : String
    pub pipeline_version : String
    pub budget : Budget

  unfoldable pub research_payload : ResearchJob → Fields
  unfolding fields
  research_payload j = fields (
      ("schema_version", number 1)
      ∷ ("tenant_id", text (lib.print_uuid j.tenant_id))
      ∷ ("research_run_id", text (lib.print_uuid j.research_run_id))
      ∷ ("source_id", text j.source_id)
      ∷ [])

  unfoldable pub research_job : Fields → Result Exception ResearchJob
  unfolding lookup is_number str_item uuid_item
  research_job p = do
    reject_if (not (is_number 1 (lookup "schema_version" p)))
        (value_error "Unsupported research job schema version")
    tenant_id ← uuid_item lib "tenant_id" p
    research_run_id ← uuid_item lib "research_run_id" p
    source_id ← str_item lib "source_id" p
    ok (record { tenant_id = tenant_id; research_run_id = research_run_id; source_id = source_id })

  unfoldable pub admission_payload : AdmissionReviewJob → Fields
  unfolding fields
  admission_payload j = fields (
      ("schema_version", number 1)
      ∷ ("job_kind", text "ADMISSION_REVIEW")
      ∷ ("admission_handoff_id", text (lib.print_uuid j.admission_handoff_id))
      ∷ ("research_run_id", text (lib.print_uuid j.research_run_id))
      ∷ ("tenant_id", text (lib.print_uuid j.tenant_id))
      ∷ ("expected_package_hash", text j.expected_package_hash)
      ∷ ("policy_version", text j.policy_version)
      ∷ [])

  -- `str(payload.get("policy_version", ""))`
  unfoldable pub policy_of : Fields → String
  unfolding lookup str_of
  policy_of p = elim (lookup "policy_version" p) [ none ↦ "" | some v ↦ str_of lib v ]

  unfoldable pub admission_job : Fields → Result Exception AdmissionReviewJob
  unfolding lookup is_number is_text str_item uuid_item policy_of bad_hash
  admission_job p = do
    reject_if (not (is_number 1 (lookup "schema_version" p)))
        (value_error "Unsupported admission job schema version")
    reject_if (not (is_text "ADMISSION_REVIEW" (lookup "job_kind" p)))
        (value_error "Unexpected admission job kind")
    package_hash ← str_item lib "expected_package_hash" p
    reject_if (bad_hash package_hash) (value_error "Admission job package hash is invalid")
    reject_if (not (policy_of p == policy_version_in_force))
        (value_error "Admission policy version is not supported")
    admission_handoff_id ← uuid_item lib "admission_handoff_id" p
    research_run_id ← uuid_item lib "research_run_id" p
    tenant_id ← uuid_item lib "tenant_id" p
    ok (record {
      admission_handoff_id = admission_handoff_id;
      research_run_id = research_run_id;
      tenant_id = tenant_id;
      expected_package_hash = package_hash;
      policy_version = policy_of p;
    })

  -- `DocumentProposalBudget.from_payload(dict(payload.get("budget", {})))`
  unfoldable pub budget_of : Fields → Result Exception Budget
  unfolding int_item check_budget
  budget_of b = do
    documents ← int_item lib "max_documents" 1 b
    calls ← int_item lib "max_model_calls" 1 b
    input ← int_item lib "max_input_tokens" 12_000 b
    output ← int_item lib "max_output_tokens" 2_500 b
    check_budget documents calls input output

  unfoldable pub budget_fields : Fields → Result Exception Fields
  unfolding lookup dict_of
  budget_fields p = elim (lookup "budget" p) [ none ↦ ok end | some v ↦ dict_of lib v ]

  unfoldable pub proposal_payload : ProposalJob → Fields
  unfolding fields budget_payload obj
  proposal_payload j = fields (
      ("schema_version", number 2)
      ∷ ("job_kind", text "DOCUMENT_PROPOSAL")
      ∷ ("tenant_id", text (lib.print_uuid j.tenant_id))
      ∷ ("research_run_id", text (lib.print_uuid j.research_run_id))
      ∷ ("source_id", text j.source_id)
      ∷ ("document_id", text j.document_id)
      ∷ ("pipeline_version", text j.pipeline_version)
      ∷ ("budget", obj (budget_payload j.budget))
      ∷ [])

  unfoldable pub proposal_job : Fields → Result Exception ProposalJob
  unfolding lookup is_number is_text str_item uuid_item budget_fields budget_of
  proposal_job p = do
    reject_if (not (is_number 2 (lookup "schema_version" p)))
        (value_error "Unsupported document proposal job schema version")
    reject_if (not (is_text "DOCUMENT_PROPOSAL" (lookup "job_kind" p)))
        (value_error "Unexpected proposal job kind")
    source_id ← str_item lib "source_id" p
    document_id ← str_item lib "document_id" p
    pipeline_version ← str_item lib "pipeline_version" p
    reject_if (is_empty source_id || not (starts_with document_id "doc_"))
        (value_error "Document proposal job source or document identity is invalid")
    tenant_id ← uuid_item lib "tenant_id" p
    research_run_id ← uuid_item lib "research_run_id" p
    b ← budget_fields p
    budget ← budget_of b
    ok (record {
      tenant_id = tenant_id;
      research_run_id = research_run_id;
      source_id = source_id;
      document_id = document_id;
      pipeline_version = pipeline_version;
      budget = budget;
    })
