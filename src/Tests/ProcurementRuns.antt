-- ===== src/Tests/ProcurementRuns.antt =====
-- Runs of the validators of the procurement domain, and the theorems applied to them.
use axignal.Common.{◌≡◌, refl, ◌↔◌, String, false, none, some, [], ◌∷◌, mem, ok, err}
use axignal.Common.Json.{text, obj, list, object, Fields, fields}
use axignal.Procurement.{
  ProcurementFact, Opportunity, Clarification, answer_received, user_approved, translated_fact,
  axignal_inference, validate_origin, validate_bindings, validate_human_control, prohibited_keys,
  reject_contact_replication,
}
use axignal.Procurement.Audit.{KeyIn, reject_contact_replication_iff}
use axignal.Procurement.Control.{reach, Recorded, validate_human_control_iff}
use axignal.Tests.Samples.{library}

abbrev answered : Clarification
answered = record {
  state = answer_received;
  approved_by = some "u1";
  approved_at = some "2026-01-05";
  external_handoff_at = some "2026-01-06";
  sent_confirmed_by = some "u1";
  sent_at = some "2026-01-06";
}

validate_human_control_iff_example :
    (validate_human_control answered ≡ ok tt) ↔ Recorded (reach answered.state) answered
validate_human_control_iff_example = validate_human_control_iff answered

answered_is_accepted : validate_human_control answered ≡ ok tt
unfolding validate_human_control
answered_is_accepted = refl

-- An approved clarification with no approver is refused.
unapproved :
    validate_human_control (record answered { state = user_approved; approved_by = some "" })
    ≡ err "External communication requires explicit subscriber approval"
unfolding validate_human_control
unapproved = refl

-- A telephone number two levels down, in a list.
abbrev details : Fields
details = fields (("steps", list obj ((("phone", text "1") ∷ []) ∷ [])) ∷ [])

details_are_refused :
    reject_contact_replication library details
    ≡ err "Audit details must not replicate contact endpoints or message bodies"
unfolding reject_contact_replication fields list obj
details_are_refused = refl

abbrev plain : Fields
plain = fields (("steps", list obj ((("outcome", text "1") ∷ []) ∷ [])) ∷ [])

details_are_accepted : reject_contact_replication library plain ≡ ok tt
unfolding reject_contact_replication fields list obj
details_are_accepted = refl

reject_contact_replication_iff_example :
    (reject_contact_replication library plain ≡ ok tt)
    ↔ ((k : String) → KeyIn k (object plain) → mem (library.casefold k) prohibited_keys ≡ false)
reject_contact_replication_iff_example = reject_contact_replication_iff library plain

-- A translation needs a provenance, an inference needs facts.
abbrev translated : ProcurementFact
translated = record {
  fact_id = "f1";
  origin = translated_fact;
  provenance = none;
  supporting_fact_ids = [];
}

translated_is_refused : validate_origin translated ≡ err "Source-derived facts require provenance"
unfolding validate_origin
translated_is_refused = refl

inferred_is_accepted :
    validate_origin
      (record translated { origin = axignal_inference; supporting_fact_ids = "f2" ∷ [] })
    ≡ ok tt
unfolding validate_origin
inferred_is_accepted = refl

abbrev opportunity : Opportunity
opportunity = record {
  opportunity_id = "o1";
  current_version = record {
    opportunity_id = "o1";
    source_notice_id = "n1";
    source_version = "1";
    content_digest = "d";
  };
  facts = translated ∷ translated ∷ [];
  contact_channels = [];
}

repeated_fact_is_refused :
    validate_bindings opportunity ≡ err "Opportunity fact identifiers must be unique"
unfolding validate_bindings
repeated_fact_is_refused = refl
