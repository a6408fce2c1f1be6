-- ===== src/Contact/Classes.antt =====
-- What a channel that passes both validators may hold.
use axignal.Common.{◌≡◌, ◌↔◌, String, true, false, arith, ok}
use axignal.Contact.{
  ChannelType, procurement_platform, buyer_profile, official_form, functional_email,
  named_professional_email, official_phone, named_professional_phone, source_link_only, DataClass,
  institutional, functional_non_personal, professional_personal, ambiguous_personal, PolicyOutcome,
  ContactChannel, policy, permitted, evaluate_o01_contact_policy, validate_o01_contact_channel,
  validate_channel_policy, check_class, check_exposure, check_endpoint, is_crm, is_missing,
  is_named,
}

-- The one data class that a type of channel belongs to.
abbrev pub class_of : ChannelType → DataClass
class_of procurement_platform = institutional
class_of buyer_profile = institutional
class_of official_form = institutional
class_of functional_email = functional_non_personal
class_of official_phone = functional_non_personal
class_of named_professional_email = professional_personal
class_of named_professional_phone = professional_personal
class_of source_link_only = ambiguous_personal

permitted_iff : (d : DataClass) (t : ChannelType) → (permitted d t ≡ true) ↔ (d ≡ class_of t)
unfolding permitted
permitted_iff d t = ground arith

-- The policy accepts a data class for a type of channel exactly when it is the class of that type, and
-- then answers with the policy on the class; data that is blocked has no type at all.
pub evaluate_o01_contact_policy_iff :
    (d : DataClass) (t : ChannelType) (o : PolicyOutcome)
    → (evaluate_o01_contact_policy d t ≡ ok o) ↔ ((d ≡ class_of t) × (o ≡ policy d))
unfolding evaluate_o01_contact_policy
evaluate_o01_contact_policy_iff d t o = ground (arith, permitted_iff d t)

-- A channel that the domain and the policy both accept is no marketing data and has an endpoint with
-- the scheme of its type; its decision is the policy's, and blocked data is not among them. Where
-- its type is a named one, it has a contact name.
pub validate_o01_contact_channel_sound :
    (scheme : String → String) (c : ContactChannel) (o : PolicyOutcome)
    → validate_channel_policy scheme c ≡ ok tt
    → validate_o01_contact_channel c ≡ ok o
    → (is_crm c ≡ false)
      × (c.data_class ≡ class_of c.channel_type)
      × (o ≡ policy c.data_class)
      × (c.policy_decision ≡ o.decision)
      × (is_missing c.endpoint ≡ false)
      × (is_named c.channel_type ≡ true → is_missing c.contact_name ≡ false)
unfolding validate_channel_policy check_class check_exposure check_endpoint
    validate_o01_contact_channel
validate_o01_contact_channel_sound scheme c o h k =
    ground (arith, evaluate_o01_contact_policy_iff c.data_class c.channel_type o)
