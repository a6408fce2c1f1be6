-- ===== src/Tests/OutboxRuns.antt =====
-- Runs of the job codecs and of a publisher, and the theorems applied to them.
use axignal.Common.{
  ◌≡◌, refl, ◌↔◌, ℕ, String, true, false, none, List, [], ◌∷◌, map, length, Result, ok, err, All,
  arith, ◌++◌, is_empty,
}
use package.text.Mathlib.Text.{starts_with}
use axignal.Common.Json.{text, object, Fields, end}
use axignal.Outbox.Payload.{Exception, value_error, PayloadLibrary}
use axignal.Outbox.Jobs.{
  Budget, AdmissionReviewJob, ProposalJob, policy_version_in_force, bad_hash, admission_payload,
  proposal_payload,
}
use axignal.Outbox.Queue.{admission, proposal, encode, decode}
use axignal.Outbox.Codec.{ReadsUuids, ReadsBack, SameItems}
use axignal.Outbox.Roundtrip.{IsWithin, admission_roundtrip_iff, proposal_roundtrip_iff}
use axignal.Outbox.Table.{Row, pending, published, failed, pending_outbox}
use axignal.Outbox.Publisher.{Message, job, proposal_message, publish_pending}
use axignal.Outbox.Settled.{Distinct, settled, delivered, publish_pending-lem}
use axignal.Outbox.Attempts.{WithinLimit, Tried, publish_pending-WithinLimit}

-- A library whose UUIDs are texts and whose `json.loads` always reads this dictionary.
abbrev library_of : Fields → PayloadLibrary
library_of fs = record {
  Uuid = String;
  parse_uuid = λ s. ok s;
  print_uuid = λ u. u;
  repr = λ s. s;
  str_other = λ j. "";
  int_other = λ j. err (value_error "invalid literal");
  dict_other = λ j. ok end;
  dumps = λ j. "encoded";
  loads = λ s. ok (object fs);
}

abbrev plain : PayloadLibrary
plain = library_of end

abbrev admission_sample : AdmissionReviewJob plain
admission_sample = record {
  admission_handoff_id = "a1";
  research_run_id = "r1";
  tenant_id = "t1";
  expected_package_hash = "sha256:0123456789012345678901234567890123456789012345678901234567890123";
  policy_version = policy_version_in_force;
}

abbrev proposal_sample : ProposalJob plain
proposal_sample = record {
  tenant_id = "t1";
  research_run_id = "r1";
  source_id = "s1";
  document_id = "doc_1";
  pipeline_version = "1";
  budget = record {
    max_documents = 1;
    max_model_calls = 1;
    max_input_tokens = 12_000;
    max_output_tokens = 2_500;
  };
}

abbrev admission_library : PayloadLibrary
admission_library = library_of (admission_payload plain admission_sample)

abbrev admission_job_sample : AdmissionReviewJob admission_library
admission_job_sample = record {
  admission_handoff_id = "a1";
  research_run_id = "r1";
  tenant_id = "t1";
  expected_package_hash = "sha256:0123456789012345678901234567890123456789012345678901234567890123";
  policy_version = policy_version_in_force;
}

admission_uuids : ReadsUuids admission_library
unfolding ReadsUuids
admission_uuids u = refl

admission_reads :
    ReadsBack admission_library (admission_payload admission_library admission_job_sample)
unfolding ReadsBack SameItems admission_payload
admission_reads = (admission_payload plain admission_sample, refl, λ k. refl)

admission_roundtrip_iff_example :
    (decode admission_library
        (admission admission_library)
        (encode admission_library (admission admission_library) admission_job_sample)
      ≡ ok admission_job_sample)
    ↔ ((bad_hash admission_job_sample.expected_package_hash ≡ false)
        × (admission_job_sample.policy_version ≡ policy_version_in_force))
admission_roundtrip_iff_example =
    admission_roundtrip_iff admission_library admission_uuids admission_job_sample admission_reads

-- The package hash of the sample is well formed.
hash_is_good : bad_hash admission_job_sample.expected_package_hash ≡ false
unfolding bad_hash
hash_is_good = refl

abbrev proposal_library : PayloadLibrary
proposal_library = library_of (proposal_payload plain proposal_sample)

abbrev proposal_job_sample : ProposalJob proposal_library
proposal_job_sample = record {
  tenant_id = "t1";
  research_run_id = "r1";
  source_id = "s1";
  document_id = "doc_1";
  pipeline_version = "1";
  budget = proposal_sample.budget;
}

proposal_uuids : ReadsUuids proposal_library
unfolding ReadsUuids
proposal_uuids u = refl

proposal_reads : ReadsBack proposal_library (proposal_payload proposal_library proposal_job_sample)
unfolding ReadsBack SameItems proposal_payload
proposal_reads = (proposal_payload plain proposal_sample, refl, λ k. refl)

proposal_roundtrip_iff_example :
    (decode proposal_library
        (proposal proposal_library)
        (encode proposal_library (proposal proposal_library) proposal_job_sample)
      ≡ ok proposal_job_sample)
    ↔ ((is_empty proposal_job_sample.source_id ≡ false)
        × (starts_with proposal_job_sample.document_id "doc_" ≡ true)
        × IsWithin proposal_job_sample.budget)
proposal_roundtrip_iff_example =
    proposal_roundtrip_iff proposal_library proposal_uuids proposal_job_sample proposal_reads

-- A due event with a good payload, one with none, and one that is not due.
abbrev row : String → Fields → ℕ → ℕ → Row
row id payload attempts available_at = record {
  event_id = id;
  aggregate_id = "r1";
  event_type = "research.document_proposal.requested";
  payload = payload;
  attempts = attempts;
  status = pending;
  available_at = available_at;
  last_error = none;
}

abbrev table : List Row
table =
    row "e1" (proposal_payload plain proposal_sample) 0 10
    ∷ row "e2" end 4 20
    ∷ row "e3" end 0 500
    ∷ []

abbrev message : Row → Result Exception Message
message = proposal_message proposal_library

abbrev always : Row → Message → Result Exception (Unit {0})
always r m = ok tt

table-Distinct : Distinct table
unfolding Distinct
table-Distinct = ((refl, (refl, tt)), ((refl, tt), (tt, tt)))

publish_pending-lem_example : publish_pending message always 100 10 table [] ≡ record {
  rows = map (settled message always 100 (pending_outbox 100 10 table)) table;
  sent = [] ++ delivered message always 100 (pending_outbox 100 10 table);
  count = length (delivered message always 100 (pending_outbox 100 10 table));
}
publish_pending-lem_example = publish_pending-lem message always 100 10 table [] table-Distinct

-- One job was sent, the event without a payload was given up, and the third was not touched.
one_is_sent : (publish_pending message always 100 10 table []).sent ≡ job "encoded" ∷ []
unfolding publish_pending proposal_message axignal.Outbox.Jobs.proposal_job proposal_payload
one_is_sent = refl

states_after :
    map (λ r. r.status) (publish_pending message always 100 10 table []).rows
    ≡ published ∷ failed ∷ pending ∷ []
unfolding publish_pending proposal_message axignal.Outbox.Jobs.proposal_job proposal_payload
states_after = refl

table_is_within : All WithinLimit table
unfolding WithinLimit Tried
table_is_within = (omega arith, (omega arith, (omega arith, tt)))

publish_pending-WithinLimit_example :
    All WithinLimit (publish_pending message always 100 10 table []).rows
publish_pending-WithinLimit_example =
    publish_pending-WithinLimit message always 100 10 table [] table_is_within
