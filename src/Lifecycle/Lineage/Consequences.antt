-- ===== src/Lifecycle/Lineage/Consequences.antt =====
-- What the acceptance of a lineage promises to the code that runs after it.
use axignal.Common.{◌≡◌, List, [], ◌∷◌, ◌++◌, map, All, ok}
use axignal.Lifecycle.Notice.{
  LifecycleNotice, competition_initial, notice_cancellation, procedure_result, reference, kind,
}
use axignal.Lifecycle.Lineage.{check_lineage}
use axignal.Lifecycle.Lineage.Accepted.{check_lineage_iff}
use axignal.Lifecycle.Lineage.Guarantees.{Fresh, IsFollower, IsLineage-followers, IsLineage-closed}

-- When notices in order are accepted, no reference is repeated, the first notice is the initial one,
-- and every later one is a change or a result of the same procedure over lots of the first.
pub check_lineage-followers :
    (n : LifecycleNotice) (ns : List LifecycleNotice)
    → check_lineage (n ∷ ns) ≡ ok (n ∷ ns)
    → (kind n ≡ competition_initial) × Fresh [] (map reference (n ∷ ns)) × All (IsFollower n) ns
check_lineage-followers n ns h = IsLineage-followers n ns ((check_lineage_iff (n ∷ ns)).0 h)

-- When notices in order are accepted, only results follow a cancellation among them: no correction,
-- and no second cancellation.
pub check_lineage-closed :
    (before after : List LifecycleNotice) (c : LifecycleNotice)
    → kind c ≡ notice_cancellation
    → check_lineage (before ++ c ∷ after) ≡ ok (before ++ c ∷ after)
    → All (λ n. kind n ≡ procedure_result) after
check_lineage-closed before after c e h =
    IsLineage-closed before after c e ((check_lineage_iff (before ++ c ∷ after)).0 h)
