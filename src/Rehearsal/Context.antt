-- ===== src/Rehearsal/Context.antt =====
-- `ProcurementAdmissionContext`: the state of the source and of the policy.
use axignal.Common.{String, Bool, true, false, not, ◌&&◌, ◌==◌}

pub record AdmissionContext : Type 0 where
  pub source_state : String
  pub policy_state : String
  pub rights_valid : Bool
  pub kill_switch_enabled : Bool
  pub sandbox_authorised : Bool

abbrev pub current_ted_state : AdmissionContext
current_ted_state = record {
  source_state = "TECHNICAL_PROBE";
  policy_state = "DISABLED_PENDING_PRODUCT_ADMISSION_AND_XML_PARSER";
  rights_valid = false;
  kill_switch_enabled = true;
  sandbox_authorised = false;
}

abbrev pub sandbox_rehearsal : AdmissionContext
sandbox_rehearsal = record {
  source_state = "SANDBOX";
  policy_state = "SANDBOX_REHEARSAL";
  rights_valid = true;
  kill_switch_enabled = false;
  sandbox_authorised = true;
}

unfoldable pub product_admission_ready : AdmissionContext → Bool
product_admission_ready c =
    c.source_state == "PRODUCT_ADMITTED"
    && c.policy_state == "ENABLED"
    && c.rights_valid
    && not c.kill_switch_enabled

unfoldable pub sandbox_ready : AdmissionContext → Bool
sandbox_ready c =
    c.source_state == "SANDBOX"
    && c.policy_state == "SANDBOX_REHEARSAL"
    && c.rights_valid
    && not c.kill_switch_enabled
    && c.sandbox_authorised
