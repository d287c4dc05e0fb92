-- ===== src/Alerts/Rules.antt =====
-- apps/api/services/alerts/engine.py: `evaluate_rules`. Hours and scores are in thousandths. The texts
-- of titles and descriptions are parameters of the evaluation.
use marine_time_motion_platf.Prelude.{
  ℕ, suc, Bool, true, false, ◌&&◌, ◌||◌, List, [], ◌∷◌, ◌++◌, map, any, find, filter, leb,
  if◌then◌else◌, Option, none, some,
}
use mathlib.Core.Option.{get_or}
use marine_time_motion_platf.Prelude.Text.{Text, text, ◌=ᵗ◌}
use marine_time_motion_platf.Alerts.Alert.{
  new, acknowledged, resolved, Key, same_key, OperationalAlert,
}

pub record AlertRule : Type 0 where
  pub rule_code : Text
  pub severity : Text
  pub is_active : Bool
  pub score_threshold : Option ℕ

abbrev missing_reason : Text
missing_reason = text "RULE_MISSING_DELAY_REASON"

abbrev critical_bottleneck : Text
critical_bottleneck = text "RULE_CRITICAL_BOTTLENECK"

abbrev extreme_outlier : Text
extreme_outlier = text "RULE_EXTREME_P90_OUTLIER"

abbrev resource_shortage : Text
resource_shortage = text "RULE_RESOURCE_SHORTAGE"

abbrev berth_conflict : Text
berth_conflict = text "RULE_BERTH_CONFLICT"

abbrev pub default_alert_rules : List AlertRule
default_alert_rules =
    record {
      rule_code = missing_reason;
      severity = text "MEDIUM";
      is_active = true;
      score_threshold = none;
    }
    ∷ record {
      rule_code = critical_bottleneck;
      severity = text "HIGH";
      is_active = true;
      score_threshold = some 65000;
    }
    ∷ record {
      rule_code = extreme_outlier;
      severity = text "CRITICAL";
      is_active = true;
      score_threshold = none;
    }
    ∷ record {
      rule_code = resource_shortage;
      severity = text "MEDIUM";
      is_active = true;
      score_threshold = none;
    }
    ∷ record {
      rule_code = berth_conflict;
      severity = text "HIGH";
      is_active = true;
      score_threshold = none;
    }
    ∷ []

-- The loop over the default rules: one that is missing is added.
unfoldable pub seed_rules : List AlertRule → List AlertRule → List AlertRule
seed_rules [] rules = rules
seed_rules (d ∷ defaults) rules =
    seed_rules defaults
      (if any (λ r. r.rule_code =ᵗ d.rule_code) rules then rules else rules ++ d ∷ [])

-- A delay with the number of its vessel call, and the other tables that the rules look at.
pub record DelayRow : Type 0 where
  pub id : Text
  pub vessel_call_id : ℕ
  pub vcn : Option Text
  pub hours : ℕ
  pub requires_reason_review : Bool
  pub canonical_category : Text

pub record IssueRow : Type 0 where
  pub id : Text
  pub vessel_call_id : ℕ
  pub vcn : Option Text
  pub rule_id : Text

pub record BottleneckRow : Type 0 where
  pub id : Text
  pub overall_bottleneck_score : ℕ

pub record OutlierRow : Type 0 where
  pub id : Text
  pub vessel_call_id : Option ℕ
  pub vcn : Option Text
  pub severity : Text

pub record Operations : Type 0 where
  pub delays : List DelayRow
  pub issues : List IssueRow
  pub bottlenecks : List BottleneckRow
  pub outliers : List OutlierRow

-- The arguments of `_create_or_get_alert`, without the texts.
pub record Draft : Type 0 where
  pub key : Key
  pub severity : Text
  pub vessel_call_id : Option ℕ
  pub vcn : Option Text

abbrev draft : AlertRule → Text → Text → Option ℕ → Option Text → Draft
draft rule entity_type entity_id call vcn = record {
  key = record {
    rule_code = rule.rule_code;
    linked_entity_type = entity_type;
    linked_entity_id = entity_id;
  };
  severity = rule.severity;
  vessel_call_id = call;
  vcn = vcn;
}

delay_draft : AlertRule → DelayRow → Draft
delay_draft rule d = draft rule (text "canonical.delay") d.id (some d.vessel_call_id) d.vcn

issue_draft : AlertRule → IssueRow → Draft
issue_draft rule q = draft rule (text "quality.quality_issue") q.id (some q.vessel_call_id) q.vcn

bottleneck_draft : AlertRule → BottleneckRow → Draft
bottleneck_draft rule b = draft rule (text "analytics.bottleneck_record") b.id none none

outlier_draft : AlertRule → OutlierRow → Draft
outlier_draft rule o = draft rule (text "analytics.outlier_record") o.id o.vessel_call_id o.vcn

-- The rule of a code, if it is active.
abbrev active_rule : Text → List AlertRule → Option AlertRule
active_rule code rules = find (λ r. r.is_active && (r.rule_code =ᵗ code)) rules

abbrev drafts_by : Option AlertRule → (AlertRule → List Draft) → List Draft
drafts_by none f = []
drafts_by (some rule) f = f rule

-- The alerts that the active rules ask for, in the order of the five rules.
unfoldable pub drafts : List AlertRule → Operations → List Draft
unfolding delay_draft issue_draft bottleneck_draft outlier_draft
drafts rules ops =
    drafts_by (active_rule missing_reason rules) (λ rule.
      map (delay_draft rule) (filter (λ d. d.requires_reason_review) ops.delays)
      ++ map (issue_draft rule) (filter (λ q. q.rule_id =ᵗ text "DQ-007") ops.issues))
    ++ drafts_by (active_rule critical_bottleneck rules) (λ rule. map (bottleneck_draft rule) (
        filter (λ b. leb (get_or rule.score_threshold 65000) b.overall_bottleneck_score)
          ops.bottlenecks))
    ++ drafts_by (active_rule extreme_outlier rules) (λ rule.
      map (outlier_draft rule)
        (filter (λ o. (o.severity =ᵗ text "HIGH") || (o.severity =ᵗ text "CRITICAL")) ops.outliers))
    ++ drafts_by (active_rule resource_shortage rules) (λ rule. map (delay_draft rule) (
        filter
          (λ d.
            ((d.canonical_category =ᵗ text "Tug") || (d.canonical_category =ᵗ text "Pilot"))
            && leb 1000 d.hours)
          ops.delays))
    ++ drafts_by (active_rule berth_conflict rules) (λ rule. map (delay_draft rule) (
        filter (λ d. (d.canonical_category =ᵗ text "Berth Non-Availability") && leb 1000 d.hours)
          ops.delays))

abbrev pub is_open : OperationalAlert → Bool
is_open a = elim a.status [ new ↦ true | acknowledged ↦ true | resolved ↦ false ]

-- `_open_alerts`: the keys of the open alerts. The alert that an entry holds is not used.
unfoldable pub open_keys : List OperationalAlert → List Key
open_keys alerts = map (λ a. a.key) (filter is_open alerts)

abbrev pub has_key : Key → List Key → Bool
has_key k keys = any (λ j. same_key j k) keys

-- The two texts that an alert shows.
pub record Wording : Type 0 where
  pub title : Draft → Text
  pub description : Draft → Text

unfoldable pub new_alert : Wording → ℕ → Draft → OperationalAlert
new_alert w i d = record {
  id = i;
  key = d.key;
  severity = d.severity;
  title = w.title d;
  description = w.description d;
  vessel_call_id = d.vessel_call_id;
  vcn = d.vcn;
  status = new;
  acknowledged_at = none;
  acknowledged_by = none;
  resolved_at = none;
  resolved_by = none;
  resolution_notes = none;
}

-- `_create_or_get_alert` for each draft; the next id is given by the database.
unfoldable pub create_or_get_alerts :
    Wording → ℕ → List Draft → List Key → List OperationalAlert → List OperationalAlert
create_or_get_alerts w next_id [] open_now alerts = alerts
create_or_get_alerts w next_id (d ∷ ds) open_now alerts =
    let kept = create_or_get_alerts w next_id ds open_now alerts in
    let added =
      create_or_get_alerts w (suc next_id) ds (open_now ++ d.key ∷ [])
        (alerts ++ new_alert w next_id d ∷ []) in
    if has_key d.key open_now then kept else added

unfoldable pub evaluate_rules :
    Wording
    → ℕ
    → Operations
    → List AlertRule
    → List OperationalAlert
    → List AlertRule × List OperationalAlert
evaluate_rules w next_id ops rules alerts =
    let seeded = seed_rules default_alert_rules rules in
    (seeded, create_or_get_alerts w next_id (drafts seeded ops) (open_keys alerts) alerts)
