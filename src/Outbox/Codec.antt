-- ===== src/Outbox/Codec.antt =====
-- The payload of a job gives the job back, in the order of the queue.
use axignal.Common.{
  ◌≡◌, refl, String, not, ◌||◌, some, ok, reject_if, ◌>>=◌, ◌>>◌, ◌==◌, is_empty, ℕ,
}
use package.text.Mathlib.Text.{starts_with}
use axignal.Common.Integers.{pos}
use axignal.Common.Json.{number, text, obj, object, Fields, fields}
use axignal.Outbox.Payload.{
  value_error, PayloadLibrary, lookup, item, is_number, is_text, str_of, str_item, uuid_item,
  int_item, int_of, dict_of,
}
use axignal.Outbox.Jobs.{
  ResearchJob, AdmissionReviewJob, ProposalJob, research_payload, admission_payload,
  proposal_payload, research_job, admission_job, proposal_job, bad_hash, policy_of,
  policy_version_in_force, budget_of, budget_fields, budget_payload,
}

module _ (lib : PayloadLibrary) where
  -- `UUID(str(u)) == u`
  unfoldable pub ReadsUuids : Type 0
  ReadsUuids = (u : lib.Uuid) → lib.parse_uuid (lib.print_uuid u) ≡ ok u

  -- The two dictionaries have the same items, if in another order.
  unfoldable pub SameItems : Fields → Fields → Type 0
  SameItems p q = (k : String) → lookup k q ≡ lookup k p

  -- `json.loads` of what `json.dumps` writes for the dictionary is a dictionary with the same items.
  unfoldable pub ReadsBack : Fields → Type 0
  ReadsBack p = (q : Fields) × (lib.loads (lib.dumps (object p)) ≡ ok (object q)) × SameItems p q

  module _ (uuids : ReadsUuids) where
    uuid_item-lem :
        (k : String) (q : Fields) (u : lib.Uuid)
        → lookup k q ≡ some (text (lib.print_uuid u))
        → uuid_item lib k q ≡ ok u
    unfolding ReadsUuids uuid_item str_item item str_of
    uuid_item-lem k q u h = rw (item, h) (uuids u)

    str_item-lem :
        (k : String) (q : Fields) (s : String)
        → lookup k q ≡ some (text s)
        → str_item lib k q ≡ ok s
    unfolding str_item item str_of
    str_item-lem k q s h = rw (item, h) refl

    -- The checks that are left when a job's own payload is read.
    pub admission_job-lem :
        (j : AdmissionReviewJob lib) (q : Fields)
        → SameItems (admission_payload lib j) q
        → admission_job lib q ≡ (do
          reject_if
              (bad_hash j.expected_package_hash)
              (value_error "Admission job package hash is invalid")
          reject_if
              (not (j.policy_version == policy_version_in_force))
              (value_error "Admission policy version is not supported")
          ok j)
    unfolding admission_job admission_payload lookup fields SameItems policy_of str_of is_number
        is_text
    admission_job-lem j q same =
        rw
          (
            same "schema_version",
            same "job_kind",
            str_item-lem "expected_package_hash" q j.expected_package_hash
                (same "expected_package_hash"),
            policy_of,
            same "policy_version",
            uuid_item-lem "admission_handoff_id" q j.admission_handoff_id
                (same "admission_handoff_id"),
            uuid_item-lem "research_run_id" q j.research_run_id (same "research_run_id"),
            uuid_item-lem "tenant_id" q j.tenant_id (same "tenant_id"),
          )
          refl

    pub int_item-lem :
        (k : String) (default n : ℕ) (q : Fields)
        → lookup k q ≡ some (number n)
        → int_item lib k default q ≡ ok (pos n)
    unfolding int_item int_of
    int_item-lem k default n q h = rw (int_item, h) refl

    pub proposal_job-lem :
        (j : ProposalJob lib) (q : Fields)
        → SameItems (proposal_payload lib j) q
        → proposal_job lib q ≡ (do
          reject_if
              (is_empty j.source_id || not (starts_with j.document_id "doc_"))
              (value_error "Document proposal job source or document identity is invalid")
          b ← budget_of lib (fields (budget_payload j.budget))
          ok (record {
            tenant_id = j.tenant_id;
            research_run_id = j.research_run_id;
            source_id = j.source_id;
            document_id = j.document_id;
            pipeline_version = j.pipeline_version;
            budget = b;
          }))
    unfolding proposal_job proposal_payload lookup fields obj SameItems is_number is_text
        budget_fields dict_of
    proposal_job-lem j q same =
        rw
          (
            same "schema_version",
            same "job_kind",
            str_item-lem "source_id" q j.source_id (same "source_id"),
            str_item-lem "document_id" q j.document_id (same "document_id"),
            str_item-lem "pipeline_version" q j.pipeline_version (same "pipeline_version"),
            uuid_item-lem "tenant_id" q j.tenant_id (same "tenant_id"),
            uuid_item-lem "research_run_id" q j.research_run_id (same "research_run_id"),
            budget_fields,
            same "budget",
          )
          refl

    pub research_job-lem :
        (j : ResearchJob lib) (q : Fields)
        → SameItems (research_payload lib j) q
        → research_job lib q ≡ ok j
    unfolding research_job research_payload lookup fields SameItems is_number
    research_job-lem j q same =
        rw
          (
            same "schema_version",
            uuid_item-lem "tenant_id" q j.tenant_id (same "tenant_id"),
            uuid_item-lem "research_run_id" q j.research_run_id (same "research_run_id"),
            str_item-lem "source_id" q j.source_id (same "source_id"),
          )
          refl
