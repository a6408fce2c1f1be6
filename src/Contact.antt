-- ===== src/Contact.antt =====
-- The contact channels of apps/api/src/axignal_api/procurement_domain.py, and the policy on them in
-- apps/api/src/axignal_api/o01_contact_policy.py. The scheme of an endpoint, as `urlparse` and
-- `casefold` give it, is the argument `scheme`.
pub mod Classes
use axignal.Common.{
  String, Bool, true, false, not, ◌&&◌, ◌||◌, Option, none, some, is_some, List, [], ◌∷◌, is_empty,
  ◌==◌, if◌then◌else◌, Result, ok, err, reject_if, ◌>>=◌, ◌>>◌,
}

pub data ChannelType : Type 0 where
  procurement_platform buyer_profile official_form functional_email : ChannelType
  named_professional_email official_phone named_professional_phone source_link_only : ChannelType

pub data DataClass : Type 0 where
  institutional functional_non_personal professional_personal : DataClass
  ambiguous_personal blocked : DataClass

pub data PolicyDecision : Type 0 where
  allow contextual link_only block : PolicyDecision

pub data ContactAction : Type 0 where
  open_link reveal copy compose_procedure_query call : ContactAction

pub data ContactStatus : Type 0 where
  active superseded disabled archived : ContactStatus

-- One constructor for each message of a `ValueError`.
pub data ContactError : Type 0 where
  crm_or_marketing blocked_needs_block blocked_exposes ambiguous_needs_link : ContactError
  personal_needs_contextual personal_needs_named personal_needs_name : ContactError
  block_exposes needs_endpoint scheme_mismatch link_only_actions : ContactError
  needs_replacement no_permitted_type type_not_permitted decision_mismatch : ContactError
  wrong_purpose : ContactError

pub record ContactChannel : Type 0 where
  pub channel_id : String
  pub opportunity_id : String
  pub source_notice_id : String
  pub source_url : String
  pub organisation_name : String
  pub department : Option String
  pub contact_role : Option String
  pub last_verified_at : String
  pub channel_type : ChannelType
  pub contact_name : Option String
  pub endpoint : Option String
  pub data_class : DataClass
  pub policy_decision : PolicyDecision
  pub purpose : String
  pub searchable_globally : Bool
  pub exportable : Bool
  pub marketing_use : Bool
  pub allowed_actions : List ContactAction
  pub status : ContactStatus
  pub superseded_by : Option String

-- `not text` for a text that may be `None`.
abbrev pub is_missing : Option String → Bool
is_missing none = true
is_missing (some s) = is_empty s

abbrev pub has_actions : List ContactAction → Bool
has_actions [] = false
has_actions (a ∷ as_) = true

abbrev pub is_block : PolicyDecision → Bool
is_block block = true
is_block _ = false

abbrev pub is_link_only : PolicyDecision → Bool
is_link_only link_only = true
is_link_only _ = false

abbrev pub is_contextual : PolicyDecision → Bool
is_contextual contextual = true
is_contextual _ = false

abbrev pub is_named : ChannelType → Bool
is_named named_professional_email = true
is_named named_professional_phone = true
is_named _ = false

abbrev is_open : ContactAction → Bool
is_open open_link = true
is_open _ = false

-- `allowed_actions == frozenset({OPEN})`, on the actions in any order.
abbrev all_open : List ContactAction → Bool
all_open [] = true
all_open (a ∷ rest) = is_open a && all_open rest

unfoldable pub only_open : List ContactAction → Bool
only_open actions = has_actions actions && all_open actions

abbrev pub exposes : ContactChannel → Bool
exposes c = is_some c.endpoint || has_actions c.allowed_actions

abbrev pub is_crm : ContactChannel → Bool
is_crm c = c.searchable_globally || c.exportable || c.marketing_use

unfoldable pub expected_scheme : ChannelType → String
expected_scheme procurement_platform = "https"
expected_scheme buyer_profile = "https"
expected_scheme official_form = "https"
expected_scheme functional_email = "mailto"
expected_scheme named_professional_email = "mailto"
expected_scheme official_phone = "tel"
expected_scheme named_professional_phone = "tel"
expected_scheme source_link_only = "https"

abbrev is_superseded : ContactStatus → Bool
is_superseded superseded = true
is_superseded _ = false

abbrev endpoint_text : Option String → String
endpoint_text none = ""
endpoint_text (some s) = s

-- The tests from `not self.endpoint` on.
unfoldable pub check_endpoint : (String → String) → ContactChannel → Result ContactError (Unit {0})
check_endpoint scheme c = do
  reject_if (is_missing c.endpoint) needs_endpoint
  reject_if (not (scheme (endpoint_text c.endpoint) == expected_scheme c.channel_type))
      scheme_mismatch
  reject_if (is_link_only c.policy_decision && not (only_open c.allowed_actions)) link_only_actions
  reject_if (is_superseded c.status && is_missing c.superseded_by) needs_replacement
  ok tt

-- The tests from `policy_decision is BLOCK` on.
unfoldable pub check_exposure : (String → String) → ContactChannel → Result ContactError (Unit {0})
unfolding check_endpoint
check_exposure scheme c =
    if is_block c.policy_decision
    then reject_if (exposes c) block_exposes
    else check_endpoint scheme c

-- The tests that the data class asks for.
unfoldable pub check_class :
    DataClass → (String → String) → ContactChannel → Result ContactError (Unit {0})
unfolding check_exposure
check_class blocked scheme c = do
  reject_if (not (is_block c.policy_decision)) blocked_needs_block
  reject_if (exposes c) blocked_exposes
  ok tt
check_class ambiguous_personal scheme c = do
  reject_if (not (is_link_only c.policy_decision || is_block c.policy_decision))
      ambiguous_needs_link
  check_exposure scheme c
check_class professional_personal scheme c = do
  reject_if (not (is_contextual c.policy_decision)) personal_needs_contextual
  reject_if (not (is_named c.channel_type)) personal_needs_named
  reject_if (is_missing c.contact_name) personal_needs_name
  check_exposure scheme c
check_class institutional scheme c = check_exposure scheme c
check_class functional_non_personal scheme c = check_exposure scheme c

unfoldable pub validate_channel_policy :
    (String → String) → ContactChannel → Result ContactError (Unit {0})
unfolding check_class
validate_channel_policy scheme c = do
  reject_if (is_crm c) crm_or_marketing
  check_class c.data_class scheme c

pub record PolicyOutcome : Type 0 where
  pub data_class : DataClass
  pub decision : PolicyDecision
  pub permitted_channel_types : List ChannelType
  pub persistence_mode : String
  pub source_link_required : Bool
  pub conditions : List String

unfoldable pub policy : DataClass → PolicyOutcome
policy institutional = record {
  data_class = institutional;
  decision = allow;
  permitted_channel_types = procurement_platform ∷ buyer_profile ∷ official_form ∷ [];
  persistence_mode = "OPPORTUNITY_SCOPED_REFERENCE_AFTER_TYPED_APPROVAL";
  source_link_required = true;
  conditions =
      "official procurement purpose only" ∷ "source provenance required"
      ∷ "no marketing, export or global person search" ∷ [];
}
policy functional_non_personal = record {
  data_class = functional_non_personal;
  decision = allow;
  permitted_channel_types = functional_email ∷ official_phone ∷ [];
  persistence_mode = "OPPORTUNITY_SCOPED_REFERENCE_AFTER_TYPED_APPROVAL";
  source_link_required = true;
  conditions =
      "endpoint must represent an organisation or function" ∷ "source provenance required"
      ∷ "no marketing, export or cross-opportunity reuse" ∷ [];
}
policy professional_personal = record {
  data_class = professional_personal;
  decision = contextual;
  permitted_channel_types = named_professional_email ∷ named_professional_phone ∷ [];
  persistence_mode = "OPPORTUNITY_SCOPED_REFERENCE_PENDING_TYPED_PRIVACY_DECISION";
  source_link_required = true;
  conditions =
      "published in the source for the same procurement procedure"
      ∷ "strictly necessary for procedure-specific communication"
      ∷ "tenant and opportunity scope required"
      ∷ "no marketing, export, global search or cross-opportunity reuse"
      ∷ "endpoint and message body excluded from audit payloads"
      ∷ "retention and deletion require typed Privacy/Data Rights approval" ∷ [];
}
policy ambiguous_personal = record {
  data_class = ambiguous_personal;
  decision = link_only;
  permitted_channel_types = source_link_only ∷ [];
  persistence_mode = "SOURCE_LINK_ONLY_NO_ENDPOINT_PERSISTENCE";
  source_link_required = true;
  conditions =
      "do not persist the ambiguous endpoint"
      ∷ "open only the source-native notice or buyer profile"
      ∷ "reclassify or block before any direct communication action" ∷ [];
}
policy blocked = record {
  data_class = blocked;
  decision = block;
  permitted_channel_types = [];
  persistence_mode = "DENIED";
  source_link_required = false;
  conditions =
      "do not persist, index, search, reveal or act on the endpoint"
      ∷ "record aggregate rejection evidence only" ∷ [];
}

-- `a is b` on types of channel.
abbrev pub same_type : ChannelType → ChannelType → Bool
same_type procurement_platform procurement_platform = true
same_type buyer_profile buyer_profile = true
same_type official_form official_form = true
same_type functional_email functional_email = true
same_type named_professional_email named_professional_email = true
same_type official_phone official_phone = true
same_type named_professional_phone named_professional_phone = true
same_type source_link_only source_link_only = true
same_type _ _ = false

abbrev pub type_in : ChannelType → List ChannelType → Bool
type_in t [] = false
type_in t (u ∷ us) = same_type t u || type_in t us

-- `channel_type in outcome.permitted_channel_types`
unfoldable pub permitted : DataClass → ChannelType → Bool
unfolding policy
permitted data_class channel_type = type_in channel_type (policy data_class).permitted_channel_types

abbrev is_blocked_class : DataClass → Bool
is_blocked_class blocked = true
is_blocked_class _ = false

unfoldable pub evaluate_o01_contact_policy :
    DataClass → ChannelType → Result ContactError PolicyOutcome
unfolding policy permitted
evaluate_o01_contact_policy data_class channel_type =
    if not (permitted data_class channel_type)
    then (if is_blocked_class data_class then err no_permitted_type else err type_not_permitted)
    else ok (policy data_class)

-- `a is b` on policy decisions.
abbrev pub same_decision : PolicyDecision → PolicyDecision → Bool
same_decision allow allow = true
same_decision contextual contextual = true
same_decision link_only link_only = true
same_decision block block = true
same_decision _ _ = false

unfoldable pub validate_o01_contact_channel : ContactChannel → Result ContactError PolicyOutcome
unfolding evaluate_o01_contact_policy
validate_o01_contact_channel c = do
  outcome ← evaluate_o01_contact_policy c.data_class c.channel_type
  reject_if (not (same_decision c.policy_decision outcome.decision)) decision_mismatch
  reject_if (not (c.purpose == "PROCUREMENT_PROCEDURE_COMMUNICATION")) wrong_purpose
  reject_if (is_crm c) crm_or_marketing
  ok outcome

unfoldable pub policy_matrix : List PolicyOutcome
unfolding policy
policy_matrix =
    policy institutional
    ∷ policy functional_non_personal
    ∷ policy professional_personal
    ∷ policy ambiguous_personal
    ∷ policy blocked
    ∷ []
