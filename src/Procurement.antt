-- ===== src/Procurement.antt =====
-- apps/api/src/axignal_api/procurement_domain.py: facts, opportunities, workspaces, clarifications and
-- audit events, as pydantic hands them to their validators. Its contact channels are in Contact.
pub mod Audit
pub mod Control
use axignal.Common.{
  String, Bool, true, false, not, ◌&&◌, ◌||◌, Option, none, some, List, [], ◌∷◌, ◌++◌, map, mem,
  unique, ◌==◌, is_empty, is_none, if◌then◌else◌, Result, ok, err, reject_if, ◌>>=◌, ◌>>◌,
}
use axignal.Common.Json.{
  Json, null, boolean, number, text, array, object, Items, nil, cons, Fields, end, field, Library,
}
use axignal.Contact.{ContactChannel}

pub data FactOrigin : Type 0 where
  source_fact normalized_fact translated_fact extracted_requirement : FactOrigin
  axignal_inference axignal_recommendation subscriber_provided : FactOrigin

pub data WorkspaceState : Type 0 where
  created qualifying go_review no_go_review preparing awaiting_information : WorkspaceState
  ready_for_internal_review ready_for_subscriber_approval subscriber_approved : WorkspaceState
  presented_externally withdrawn closed archived : WorkspaceState

pub data ClarificationState : Type 0 where
  draft internal_review ready_for_user_approval user_approved external_handoff : ClarificationState
  sent_confirmed answer_received answer_applied closed_clarification cancelled : ClarificationState

-- The fields that a validator reads; a provenance and an instant are their texts.
pub record ProcurementFact : Type 0 where
  pub fact_id : String
  pub origin : FactOrigin
  pub provenance : Option String
  pub supporting_fact_ids : List String

pub record OpportunityVersion : Type 0 where
  pub opportunity_id : String
  pub source_notice_id : String
  pub source_version : String
  pub content_digest : String

pub record Opportunity : Type 0 where
  pub opportunity_id : String
  pub current_version : OpportunityVersion
  pub facts : List ProcurementFact
  pub contact_channels : List ContactChannel

pub record TenderWorkspace : Type 0 where
  pub opportunity_id : String
  pub opportunity_version : OpportunityVersion
  pub state : WorkspaceState
  pub contact_channel_ids : List String
  pub presented_externally_confirmed_by : Option String
  pub presented_externally_confirmed_at : Option String

pub record Clarification : Type 0 where
  pub state : ClarificationState
  pub approved_by : Option String
  pub approved_at : Option String
  pub external_handoff_at : Option String
  pub sent_confirmed_by : Option String
  pub sent_at : Option String

-- `not value` for a text that may be `None`.
abbrev pub is_blank : Option String → Bool
is_blank none = true
is_blank (some s) = is_empty s

abbrev pub is_source_derived : FactOrigin → Bool
is_source_derived source_fact = true
is_source_derived normalized_fact = true
is_source_derived translated_fact = true
is_source_derived extracted_requirement = true
is_source_derived _ = false

abbrev pub is_conclusion : FactOrigin → Bool
is_conclusion axignal_inference = true
is_conclusion axignal_recommendation = true
is_conclusion _ = false

abbrev pub has_no_item {ℓ} : {A : Type ℓ} → List A → Bool
has_no_item [] = true
has_no_item (a ∷ rest) = false

unfoldable pub validate_origin : ProcurementFact → Result String (Unit {0})
validate_origin f = do
  reject_if (is_source_derived f.origin && is_none f.provenance)
      "Source-derived facts require provenance"
  reject_if (is_conclusion f.origin && has_no_item f.supporting_fact_ids)
      "AXIGNAL conclusions require supporting facts"

-- `any(item.opportunity_id != self.opportunity_id for item in self.contact_channels)`
unfoldable pub any_foreign : String → List ContactChannel → Bool
any_foreign id [] = false
any_foreign id (c ∷ cs) = not (c.opportunity_id == id) || any_foreign id cs

unfoldable pub validate_bindings : Opportunity → Result String (Unit {0})
unfolding any_foreign unique
validate_bindings o = do
  reject_if (not (o.current_version.opportunity_id == o.opportunity_id))
      "Opportunity version belongs to another opportunity"
  reject_if (any_foreign o.opportunity_id o.contact_channels)
      "Contact channel belongs to another opportunity"
  reject_if (not (unique (map (λ f. f.fact_id) o.facts)))
      "Opportunity fact identifiers must be unique"

abbrev pub is_presented : WorkspaceState → Bool
is_presented presented_externally = true
is_presented _ = false

unfoldable pub validate_workspace_state : TenderWorkspace → Result String (Unit {0})
unfolding unique
validate_workspace_state w = do
  reject_if (not (w.opportunity_version.opportunity_id == w.opportunity_id))
      "Workspace snapshot belongs to another opportunity"
  reject_if (not (unique w.contact_channel_ids))
      "Workspace contact-channel references must be unique"
  reject_if (is_presented w.state && is_blank w.presented_externally_confirmed_by)
      "External presentation requires subscriber confirmation"
  reject_if (is_presented w.state && is_none w.presented_externally_confirmed_at)
      "External presentation requires confirmation timestamp"

-- The three sets of states of `validate_human_control`.
abbrev pub needs_sent : ClarificationState → Bool
needs_sent sent_confirmed = true
needs_sent answer_received = true
needs_sent answer_applied = true
needs_sent closed_clarification = true
needs_sent _ = false

abbrev pub needs_handoff : ClarificationState → Bool
needs_handoff external_handoff = true
needs_handoff s = needs_sent s

abbrev pub needs_approval : ClarificationState → Bool
needs_approval user_approved = true
needs_approval s = needs_handoff s

unfoldable pub validate_human_control : Clarification → Result String (Unit {0})
validate_human_control c = do
  reject_if (needs_approval c.state && (is_blank c.approved_by || is_none c.approved_at))
      "External communication requires explicit subscriber approval"
  reject_if (needs_handoff c.state && is_none c.external_handoff_at)
      "External states require a recorded handoff"
  reject_if (needs_sent c.state && (is_blank c.sent_confirmed_by || is_none c.sent_at))
      "Sent state must be confirmed by the subscriber"

unfoldable pub prohibited_keys : List String
prohibited_keys =
    "contact_name" ∷ "contact_email" ∷ "email" ∷ "phone" ∷ "telephone" ∷ "endpoint" ∷ "message_body"
    ∷ []

-- `prohibited.intersection(keys)` is not empty.
unfoldable pub intersects : List String → List String → Bool
unfolding mem
intersects [] ys = false
intersects (x ∷ xs) ys = mem x ys || intersects xs ys

module _ (lib : Library) where
  -- `iter_keys`: the keys of the dictionaries in a value, at every depth.
  unfoldable mutual
    pub iter_keys : Json → List String
    iter_keys (object fs) = field_keys fs
    iter_keys (array js) = item_keys js
    iter_keys null = []
    iter_keys (boolean b) = []
    iter_keys (number n) = []
    iter_keys (text s) = []

    pub field_keys : Fields → List String
    field_keys end = []
    field_keys (field k v fs) = lib.casefold k ∷ iter_keys v ++ field_keys fs

    pub item_keys : Items → List String
    item_keys nil = []
    item_keys (cons j js) = iter_keys j ++ item_keys js

  unfoldable pub reject_contact_replication : Fields → Result String (Unit {0})
  unfolding iter_keys intersects prohibited_keys
  reject_contact_replication details =
      reject_if (intersects (iter_keys (object details)) prohibited_keys)
        "Audit details must not replicate contact endpoints or message bodies"
