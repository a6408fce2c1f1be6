-- ===== src/Launch/Modes.antt =====
-- Which launch mode is decided.
use axignal.Common.{
  ℕ, ◌≡◌, refl, String, true, not, ◌&&◌, List, [], ◌∷◌, ◌++◌, leb, if◌then◌else◌, arith,
}
use axignal.Launch.{
  Decision, LaunchMode, no_go, controlled_live_pilot, bounded_public_launch, general_availability,
  is_pass, has_items, all_gates_pass, pilot_gates, public_gates, ga_gates, launch_mode_decision,
}

-- How far a mode opens the product.
abbrev pub rank : LaunchMode → ℕ
rank no_go = 0
rank controlled_live_pilot = 1
rank bounded_public_launch = 2
rank general_availability = 3

-- The widest mode that was asked for, where a request of "NO_GO" counts as one without a limit.
abbrev pub limit : LaunchMode → ℕ
limit no_go = 3
limit m = rank m

-- The widest mode whose gates pass, tested on each list of gates by itself.
abbrev pub widest : List (String × String) → ℕ
widest gates =
    if all_gates_pass gates ga_gates
    then 3
    else if all_gates_pass gates public_gates
    then 2
    else if all_gates_pass gates pilot_gates
    then 1
    else 0

abbrev pub lesser : ℕ → ℕ → ℕ
lesser m n = if leb m n then m else n

all_gates_pass-append :
    (gates : List (String × String)) (gs hs : List String)
    → all_gates_pass gates (gs ++ hs) ≡ (all_gates_pass gates gs && all_gates_pass gates hs)
unfolding all_gates_pass
all_gates_pass-append gates [] hs = refl
all_gates_pass-append gates (g ∷ gs) hs = ground (arith, all_gates_pass-append gates gs hs)

public_needs_pilot :
    (gates : List (String × String))
    → all_gates_pass gates public_gates ≡ true
    → all_gates_pass gates pilot_gates ≡ true
unfolding public_gates
public_needs_pilot gates h =
    ground (arith, all_gates_pass-append gates pilot_gates ("INDEPENDENT_PAID_CUSTOMER_PASS" ∷ []))

ga_needs_public :
    (gates : List (String × String))
    → all_gates_pass gates ga_gates ≡ true
    → all_gates_pass gates public_gates ≡ true
unfolding ga_gates
ga_needs_public gates h = ground (
  arith,
  all_gates_pass-append gates public_gates
      ("RENEWAL_EVIDENCE_PASS" ∷ "COHORT_STABILITY_PASS" ∷ "SUPPORT_READINESS_PASS" ∷ []),
)

-- Without a stop condition and with the manifest approved, the mode decided is the lesser of the one
-- asked for and the widest whose gates pass, where "NO_GO" counts as no limit; otherwise it is
-- "NO_GO".
pub launch_mode_decision-rank :
    (requested : LaunchMode) (gates : List (String × String)) (stops : List String)
    (manifest : Decision)
    → rank (launch_mode_decision requested gates stops manifest) ≡ (
        if not (has_items stops) && is_pass manifest
        then lesser (limit requested) (widest gates)
        else 0)
unfolding launch_mode_decision
launch_mode_decision-rank no_go gates stops manifest =
    ground (arith, public_needs_pilot gates, ga_needs_public gates)
launch_mode_decision-rank controlled_live_pilot gates stops manifest =
    ground (arith, public_needs_pilot gates, ga_needs_public gates)
launch_mode_decision-rank bounded_public_launch gates stops manifest =
    ground (arith, public_needs_pilot gates, ga_needs_public gates)
launch_mode_decision-rank general_availability gates stops manifest =
    ground (arith, public_needs_pilot gates, ga_needs_public gates)
