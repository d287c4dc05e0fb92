-- ===== src/Alerts/Tests.antt =====
-- A long delay for want of a tug, its alert, and an alert that is acknowledged after it was resolved.
use marine_time_motion_platf.Prelude.{
  ℕ, ◌≡◌, refl, false, ◌&&◌, List, [], ◌∷◌, map, none, ◌==◌, if◌then◌else◌, arith,
}
use marine_time_motion_platf.Prelude.Text.{text, ◌=ᵗ◌}
use marine_time_motion_platf.Alerts.Alert.{
  Key, same_key, OperationalAlert, AlertStatus, new, resolved, AlertStore, acknowledge,
  update_alert,
}
use marine_time_motion_platf.Alerts.Rules.{
  AlertRule, Operations, Wording, evaluate_rules, drafts, seed_rules, create_or_get_alerts,
  new_alert, open_keys,
}
use marine_time_motion_platf.Alerts.Deduplication.{count_open, is_asked, evaluate_rules-count}
use marine_time_motion_platf.Alerts.Lifecycle.{
  here, next, evaluate, IsDeduplicated, Steps-IsDeduplicated,
}

abbrev operations : Operations
operations = record {
  delays =
      record {
        id = text "d1";
        vessel_call_id = 1;
        vcn = none;
        hours = 2500;
        requires_reason_review = false;
        canonical_category = text "Tug";
      }
      ∷ [];
  issues = [];
  bottlenecks = [];
  outliers = [];
}

abbrev wording : Wording
wording = record { title = λ d. text "Alert"; description = λ d. text "Delay" }

abbrev tug_key : Key
tug_key = record {
  rule_code = text "RULE_RESOURCE_SHORTAGE";
  linked_entity_type = text "canonical.delay";
  linked_entity_id = text "d1";
}

abbrev after : List AlertRule × List OperationalAlert
after = evaluate_rules wording 1 operations [] []

one_alert : map (λ a. a.key) after.1 ≡ tug_key ∷ []
unfolding evaluate_rules seed_rules drafts create_or_get_alerts new_alert open_keys ◌=ᵗ◌ same_key
one_alert = refl

evaluate_rules-count_example : count_open tug_key after.1 ≡ (
    if (count_open tug_key [] == 0) && is_asked tug_key (drafts after.0 operations)
    then 1
    else count_open tug_key [])
evaluate_rules-count_example = evaluate_rules-count wording 1 operations [] [] tug_key

abbrev empty_store : AlertStore
empty_store = record { alerts = []; actions = []; audit = [] }

empty-IsDeduplicated : IsDeduplicated []
unfolding count_open
empty-IsDeduplicated k = omega arith

Steps-IsDeduplicated_example : IsDeduplicated after.1
Steps-IsDeduplicated_example =
    Steps-IsDeduplicated (next here (evaluate wording 1 operations [] empty_store))
      empty-IsDeduplicated

-- Two alerts of one key, the first resolved and the second open: acknowledging the first opens it again.
abbrev alert : ℕ → AlertStatus → OperationalAlert
unfolding new_alert
alert i status =
    record (new_alert wording i
      (record { key = tug_key; severity = text "MEDIUM"; vessel_call_id = none; vcn = none })) {
        status = status;
      }

one_open : count_open tug_key (alert 1 resolved ∷ alert 2 new ∷ []) ≡ 1
unfolding count_open same_key ◌=ᵗ◌ alert
one_open = refl

two_open :
    count_open tug_key
      (update_alert 1 (acknowledge 9 (text "operator")) (alert 1 resolved ∷ alert 2 new ∷ []))
    ≡ 2
unfolding count_open same_key ◌=ᵗ◌ alert
two_open = refl
