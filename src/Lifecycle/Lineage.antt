-- ===== src/Lifecycle/Lineage.antt =====
-- `_validate_lineage` and `_date_key`: the notices in order of date, each linked to the last
-- competition notice before it.
pub mod Chain
pub mod Accepted
pub mod Ordered
pub mod Validated
pub mod Guarantees
pub mod Consequences
use axignal.Common.{
  ℕ, zero, suc, ◌+◌, String, Bool, true, false, not, ◌&&◌, ◌||◌, Option, none, some, List, [], ◌∷◌,
  map, ltb, eqb, mem, subset, same_texts, text_le, ◌==◌, if◌then◌else◌, Result, ok, err, reject_if,
  traverse, ◌>>=◌, ◌>>◌,
}
use axignal.Common.Sort.{sort_by}
use axignal.Common.Json.{Library}
use axignal.Lifecycle.Notice.{
  LifecycleError, invalid_issue_date, duplicate_notice_reference, crosses_procedures,
  second_initial_notice, dangling_previous_reference, not_latest_competition,
  change_after_cancellation, altered_lots, result_without_competition, unknown_result_lot,
  unknown_lifecycle_kind, not_one_initial_notice, LifecycleNotice, Kind, competition_initial,
  competition_correction, notice_cancellation, procedure_result, other, reference, kind,
}

-- The variables of the loop.
pub record LineageState : Type 0 where
  pub references : List String
  pub latest_competition : Option LifecycleNotice
  pub initial_count : ℕ
  pub cancelled_references : List String

abbrev pub initial_state : LineageState
initial_state = record {
  references = [];
  latest_competition = none;
  initial_count = 0;
  cancelled_references = [];
}

-- `previous is None or previous not in references`, handing on the previous reference.
unfoldable pub previous_reference : LifecycleNotice → LineageState → Result LifecycleError String
previous_reference n s = elim n.identity.changed_notice_reference [
  | none ↦ err dangling_previous_reference
  | some p ↦ if mem p s.references then ok p else err dangling_previous_reference
]

-- `latest_competition is None or previous != latest_competition.identity.notice_reference`
unfoldable pub latest_named : String → LineageState → Result LifecycleError LifecycleNotice
latest_named p s = elim s.latest_competition [
  | none ↦ err not_latest_competition
  | some l ↦ if p == reference l then ok l else err not_latest_competition
]

unfoldable pub visit_initial : LifecycleNotice → LineageState → Result LifecycleError LineageState
visit_initial n s = elim s.latest_competition [
  | some _ ↦ err second_initial_notice
  | none ↦ ok (record s { latest_competition = some n; initial_count = s.initial_count + 1 })
]

unfoldable pub visit_change :
    Bool → LifecycleNotice → LineageState → Result LifecycleError LineageState
visit_change cancels n s = do
  previous ← previous_reference n s
  latest ← latest_named previous s
  reject_if (mem previous s.cancelled_references) change_after_cancellation
  reject_if (not (same_texts n.identity.lot_ids latest.identity.lot_ids)) altered_lots
  ok (record s {
    latest_competition = some n;
    cancelled_references =
        if cancels then reference n ∷ s.cancelled_references else s.cancelled_references;
  })

unfoldable pub visit_result : LifecycleNotice → LineageState → Result LifecycleError LineageState
visit_result n s = elim s.latest_competition [
  | none ↦ err result_without_competition
  | some l ↦ if subset n.identity.lot_ids l.identity.lot_ids then ok s else err unknown_result_lot
]

unfoldable pub visit_kind :
    Kind → LifecycleNotice → LineageState → Result LifecycleError LineageState
visit_kind competition_initial n s = visit_initial n s
visit_kind competition_correction n s = visit_change false n s
visit_kind notice_cancellation n s = visit_change true n s
visit_kind procedure_result n s = visit_result n s
visit_kind other n s = err unknown_lifecycle_kind

-- The body of the loop.
unfoldable pub visit : String → LifecycleNotice → LineageState → Result LifecycleError LineageState
visit procedure n s = do
  reject_if (mem (reference n) s.references) duplicate_notice_reference
  reject_if (not (n.identity.procedure_identifier == procedure)) crosses_procedures
  s' ← visit_kind (kind n) n s
  ok (record s' { references = reference n ∷ s'.references })

unfoldable pub visit_all :
    String → List LifecycleNotice → LineageState → Result LifecycleError LineageState
visit_all procedure [] s = ok s
visit_all procedure (n ∷ ns) s = do s' ← visit procedure n s; visit_all procedure ns s'

-- The key of the sort: the day, then the reference.
unfoldable pub date_key : Library → LifecycleNotice → Result LifecycleError (ℕ × LifecycleNotice)
date_key lib n = elim (lib.iso_day n.identity.issue_date) [
  | none ↦ err invalid_issue_date
  | some d ↦ ok (d, n)
]

unfoldable pub key_le : ℕ × LifecycleNotice → ℕ × LifecycleNotice → Bool
key_le (d, n) (e, m) = ltb d e || (eqb d e && text_le (reference n) (reference m))

unfoldable pub order_notices :
    Library → List LifecycleNotice → Result LifecycleError (List LifecycleNotice)
order_notices lib notices = do
  keyed ← traverse (date_key lib) notices
  ok (map (λ p. p.1) (sort_by key_le keyed))

-- `ordered[0].identity.procedure_identifier`; the caller has tested that there is a notice.
unfoldable pub first_procedure : List LifecycleNotice → String
first_procedure [] = ""
first_procedure (n ∷ ns) = n.identity.procedure_identifier

-- The checks on notices that are in order.
unfoldable pub check_lineage : List LifecycleNotice → Result LifecycleError (List LifecycleNotice)
check_lineage ordered = do
  s ← visit_all (first_procedure ordered) ordered initial_state
  reject_if (not (eqb s.initial_count 1)) not_one_initial_notice
  ok ordered

unfoldable pub validate_lineage :
    Library → List LifecycleNotice → Result LifecycleError (List LifecycleNotice)
validate_lineage lib notices = do ordered ← order_notices lib notices; check_lineage ordered
