-- ===== src/Lifecycle/Notice.antt =====
-- A parsed notice: `ProcurementNoticeIdentity` and `ParsedProcurementLifecycleNotice`, and the
-- exceptions that the lifecycle raises.
use axignal.Common.{ℕ, String, Option, List, ◌⧺◌, ◌==◌, if◌then◌else◌}
use axignal.Rehearsal.Claim.{CandidateClaim}

-- One constructor for each message of a `ProcurementLifecycleError` below the parser.
pub data LifecycleError : Type 0 where
  parser_error : String → LifecycleError
  no_notices reparse_diverged product_admission_out_of_scope : LifecycleError
  invalid_issue_date duplicate_notice_reference crosses_procedures : LifecycleError
  second_initial_notice dangling_previous_reference not_latest_competition : LifecycleError
  change_after_cancellation altered_lots result_without_competition : LifecycleError
  unknown_result_lot unknown_lifecycle_kind not_one_initial_notice : LifecycleError
  duplicate_evidence_key missing_binding : LifecycleError
  store_failpoint : LifecycleError

pub record NoticeIdentity : Type 0 where
  pub notice_id : String
  pub version_id : String
  pub issue_date : String
  pub procedure_identifier : String
  pub document_type : String
  pub notice_type : String
  pub notice_subtype : String
  pub lifecycle_kind : String
  pub changed_notice_reference : Option String
  pub change_reason_code : Option String
  pub lot_ids : List String
  pub raw_content_hash : String

unfoldable pub notice_reference : NoticeIdentity → String
notice_reference i = i.notice_id ⧺ "-" ⧺ i.version_id

pub record LifecycleNotice : Type 0 where
  pub identity : NoticeIdentity
  pub claims : List CandidateClaim
  pub winner_selection_statuses : List String
  pub winner_organisation_refs : List String
  pub awarded_values : List (String × String)
  pub tenders_received_counts : List ℕ
  pub contract_identifiers : List String
  pub award_dates : List String
  pub personal_field_element_count : ℕ

abbrev pub reference : LifecycleNotice → String
reference n = notice_reference n.identity

-- The kinds that the program tells apart by text.
pub data Kind : Type 0 where
  competition_initial competition_correction notice_cancellation procedure_result other : Kind

unfoldable pub kind_of_text : String → Kind
kind_of_text k =
    if k == "COMPETITION_INITIAL"
    then competition_initial
    else if k == "COMPETITION_CORRECTION"
    then competition_correction
    else if k == "NOTICE_CANCELLATION"
    then notice_cancellation
    else if k == "PROCEDURE_RESULT"
    then procedure_result
    else other

abbrev pub kind : LifecycleNotice → Kind
kind n = kind_of_text n.identity.lifecycle_kind
