-- ===== src/Lifecycle/Events.antt =====
-- `_build_events`: one event for each notice, with the evidence of that notice.
pub mod Partition
use axignal.Common.{ℕ, suc, ◌+◌, String, Option, List, [], ◌∷◌, ◌++◌, ◌==◌, text_le, if◌then◌else◌}
use axignal.Common.Sort.{sort_by}
use axignal.Common.Json.{Json, number, text, texts, obj, optional, Library}
use axignal.Lifecycle.Notice.{LifecycleNotice, reference}
use axignal.Lifecycle.Evidence.{EvidenceObject, canonical_hash}

pub record LifecycleEvent : Type 0 where
  pub sequence : ℕ
  pub event_type : String
  pub notice_reference : String
  pub previous_notice_reference : Option String
  pub procedure_identifier : String
  pub lot_ids : List String
  pub evidence_keys : List String
  pub event_hash : String

-- `evidence_by_notice.setdefault(reference, []).append(key)`
unfoldable pub add_key : String → String → List (String × List String) → List (String × List String)
add_key r k [] = (r, k ∷ []) ∷ []
add_key r k ((q, ks) ∷ rest) =
    if q == r then (q, ks ++ k ∷ []) ∷ rest else (q, ks) ∷ add_key r k rest

unfoldable pub group_keys :
    List EvidenceObject → List (String × List String) → List (String × List String)
unfolding add_key
group_keys [] groups = groups
group_keys (e ∷ es) groups = group_keys es (add_key e.notice_reference e.evidence_key groups)

-- `evidence_by_notice.get(reference, ())`
unfoldable pub keys_for : String → List (String × List String) → List String
keys_for r [] = []
keys_for r ((q, ks) ∷ rest) = if q == r then ks else keys_for r rest

module _ (lib : Library) where
  abbrev event_material : ℕ → LifecycleNotice → List String → Json
  event_material sequence n evidence_keys = obj (
      ("sequence", number sequence)
      ∷ ("event_type", text n.identity.lifecycle_kind)
      ∷ ("notice_reference", text (reference n))
      ∷ ("previous_notice_reference", optional text n.identity.changed_notice_reference)
      ∷ ("procedure_identifier", text n.identity.procedure_identifier)
      ∷ ("lot_ids", texts n.identity.lot_ids)
      ∷ ("evidence_keys", texts evidence_keys)
      ∷ [])

  unfoldable pub event_of : ℕ → LifecycleNotice → List String → LifecycleEvent
  event_of sequence n evidence_keys = record {
    sequence = sequence;
    event_type = n.identity.lifecycle_kind;
    notice_reference = reference n;
    previous_notice_reference = n.identity.changed_notice_reference;
    procedure_identifier = n.identity.procedure_identifier;
    lot_ids = n.identity.lot_ids;
    evidence_keys = evidence_keys;
    event_hash = canonical_hash lib (event_material sequence n evidence_keys);
  }

  -- `for sequence, notice in enumerate(notices, start=1)`
  unfoldable pub events_from :
      ℕ → List (String × List String) → List LifecycleNotice → List LifecycleEvent
  unfolding event_of
  events_from sequence groups [] = []
  events_from sequence groups (n ∷ ns) =
      event_of sequence n (sort_by text_le (keys_for (reference n) groups))
      ∷ events_from (sequence + 1) groups ns

  unfoldable pub build_events : List LifecycleNotice → List EvidenceObject → List LifecycleEvent
  build_events notices evidence = events_from 1 (group_keys evidence []) notices
