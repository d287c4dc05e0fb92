-- ===== src/Alerts/Alert.antt =====
-- apps/api/services/alerts/engine.py: the tables of alerts and action items, and the operations of an
-- operator on them. Evidence, which is only stored, is left out.
use marine_time_motion_platf.Prelude.{
  ℕ, Bool, true, false, ◌&&◌, List, [], ◌∷◌, ◌++◌, map, find, ◌==◌, if◌then◌else◌, Option, none,
  some,
}
use marine_time_motion_platf.Prelude.Text.{Text, text, ◌=ᵗ◌, non_empty}

pub data AlertStatus : Type 0 where
  new acknowledged resolved : AlertStatus

-- What alerts are deduplicated by.
pub record Key : Type 0 where
  pub rule_code : Text
  pub linked_entity_type : Text
  pub linked_entity_id : Text

unfoldable pub same_key : Key → Key → Bool
same_key a b =
    (a.rule_code =ᵗ b.rule_code)
    && (a.linked_entity_type =ᵗ b.linked_entity_type)
    && (a.linked_entity_id =ᵗ b.linked_entity_id)

pub record OperationalAlert : Type 0 where
  pub id : ℕ
  pub key : Key
  pub severity : Text
  pub title : Text
  pub description : Text
  pub vessel_call_id : Option ℕ
  pub vcn : Option Text
  pub status : AlertStatus
  pub acknowledged_at : Option ℕ
  pub acknowledged_by : Option Text
  pub resolved_at : Option ℕ
  pub resolved_by : Option Text
  pub resolution_notes : Option Text

pub record Comment : Type 0 where
  pub author : Text
  pub body : Text
  pub timestamp : ℕ

pub record ActionItem : Type 0 where
  pub id : ℕ
  pub alert_id : Option ℕ
  pub vessel_call_id : Option ℕ
  pub title : Text
  pub description : Text
  pub assigned_to : Option Text
  pub due_date : Option ℕ
  pub priority : Text
  pub status : Text
  pub comments : List Comment
  pub created_by : Text

-- The rows of the audit log. The id of an action item is not assigned yet when its creation is logged.
pub data AuditEvent : Type 0 where
  alert_acknowledged : (actor : Text) (alert_id : ℕ) → AuditEvent
  alert_resolved : (actor : Text) (alert_id : ℕ) (notes : Text) → AuditEvent
  action_created :
      (actor : Text) (action_id : Option ℕ) (title : Text) (assigned_to : Option Text)
      (priority : Text)
      → AuditEvent
  action_updated :
      (actor : Text) (action_id : ℕ) (old_status new_status : Text) (comment_added : Bool)
      → AuditEvent

pub record AlertStore : Type 0 where
  pub alerts : List OperationalAlert
  pub actions : List ActionItem
  pub audit : List AuditEvent

pub data Result (A : Type 0) : Type 0 where
  not_found : Result A
  done : A → Result A

abbrev pub alert_by_id : ℕ → List OperationalAlert → Option OperationalAlert
alert_by_id i alerts = find (λ a. a.id == i) alerts

abbrev pub update_alert :
    ℕ → (OperationalAlert → OperationalAlert) → List OperationalAlert → List OperationalAlert
update_alert i f alerts = map (λ a. if a.id == i then f a else a) alerts

abbrev pub acknowledge : ℕ → Text → OperationalAlert → OperationalAlert
acknowledge now actor a = record a {
  status = acknowledged;
  acknowledged_at = some now;
  acknowledged_by = some actor;
}

abbrev pub resolve : ℕ → Text → Text → OperationalAlert → OperationalAlert
resolve now notes actor a = record a {
  status = resolved;
  resolved_at = some now;
  resolved_by = some actor;
  resolution_notes = some notes;
}

unfoldable pub acknowledge_alert : ℕ → ℕ → Text → AlertStore → Result AlertStore
acknowledge_alert now i actor db = elim (alert_by_id i db.alerts) [
  | none ↦ not_found
  | some a ↦ done (record db {
    alerts = update_alert i (acknowledge now actor) db.alerts;
    audit = db.audit ++ alert_acknowledged actor i ∷ [];
  })
]

unfoldable pub resolve_alert : ℕ → ℕ → Text → Text → AlertStore → Result AlertStore
resolve_alert now i notes actor db = elim (alert_by_id i db.alerts) [
  | none ↦ not_found
  | some a ↦ done (record db {
    alerts = update_alert i (resolve now notes actor) db.alerts;
    audit = db.audit ++ alert_resolved actor i notes ∷ [];
  })
]

-- The arguments of `create_action_item`.
pub record Task : Type 0 where
  pub title : Text
  pub description : Text
  pub assigned_to : Option Text
  pub due_date : Option ℕ
  pub priority : Text
  pub alert_id : Option ℕ
  pub vessel_call_id : Option ℕ
  pub created_by : Text

unfoldable pub create_action_item : ℕ → Task → AlertStore → AlertStore
create_action_item new_id t db = record db {
  actions =
      db.actions
      ++ record {
        id = new_id;
        alert_id = t.alert_id;
        vessel_call_id = t.vessel_call_id;
        title = t.title;
        description = t.description;
        assigned_to = t.assigned_to;
        due_date = t.due_date;
        priority = t.priority;
        status = text "OPEN";
        comments = [];
        created_by = t.created_by;
      }
        ∷ [];
  audit = db.audit ++ action_created t.created_by none t.title t.assigned_to t.priority ∷ [];
}

-- An argument that is there and not empty.
abbrev given : Option Text → Option Text
given none = none
given (some t) = if non_empty t then some t else none

abbrev pub action_by_id : ℕ → List ActionItem → Option ActionItem
action_by_id i actions = find (λ a. a.id == i) actions

unfoldable pub change_action : ℕ → Option Text → Option Text → Text → ActionItem → ActionItem
change_action now status comment actor a = record a {
  status = elim (given status) [ none ↦ a.status | some t ↦ t ];
  comments = elim (given comment) [
    | none ↦ a.comments
    | some t ↦ a.comments ++ record { author = actor; body = t; timestamp = now } ∷ []
  ];
}

unfoldable pub update_action_item :
    ℕ → ℕ → Option Text → Option Text → Text → AlertStore → Result AlertStore
update_action_item now i status comment actor db = elim (action_by_id i db.actions) [
  | none ↦ not_found
  | some a ↦ done (record db {
    actions =
        map (λ x. if x.id == i then change_action now status comment actor x else x) db.actions;
    audit =
        db.audit
        ++ action_updated actor i a.status (change_action now status comment actor a).status
            (elim (given comment) [ none ↦ false | some t ↦ true ])
          ∷ [];
  })
]
