-- ===== src/Alerts/Lifecycle.antt =====
-- Alerts over time: evaluations, acknowledgements and resolutions in any order.
use marine_time_motion_platf.Prelude.{ℕ, ◌≤◌, ◌≡◌, refl, ap, true, List, [], ◌∷◌, All, arith}
use marine_time_motion_platf.Prelude.Text.{Text}
use marine_time_motion_platf.Alerts.Alert.{
  Key, OperationalAlert, AlertStore, done, update_alert, acknowledge, resolve, acknowledge_alert,
  resolve_alert,
}
use marine_time_motion_platf.Alerts.Rules.{AlertRule, Operations, is_open, Wording, evaluate_rules}
use marine_time_motion_platf.Alerts.Deduplication.{count_open, evaluate_rules-count}

-- The rows with an id that are open, as they are where an operator acknowledges an alert.
abbrev pub IsOpen : ℕ → List OperationalAlert → Type 0
IsOpen i alerts = All (λ a. a.id ≡ i → is_open a ≡ true) alerts

-- One operation on the alerts. Only an open alert is acknowledged, which the code does not check.
pub data Step : List AlertRule × AlertStore → List AlertRule × AlertStore → Type 0 where
  evaluate :
      (w : Wording) (next_id : ℕ) (ops : Operations) (rules : List AlertRule) (db : AlertStore)
      → Step
          (rules, db)
          (
            (evaluate_rules w next_id ops rules db.alerts).0,
            record db { alerts = (evaluate_rules w next_id ops rules db.alerts).1 },
          )
  acknowledges :
      (now i : ℕ) (actor : Text) (rules : List AlertRule) (db db' : AlertStore)
      → IsOpen i db.alerts
      → acknowledge_alert now i actor db ≡ done db'
      → Step (rules, db) (rules, db')
  resolves :
      (now i : ℕ) (notes actor : Text) (rules : List AlertRule) (db db' : AlertStore)
      → resolve_alert now i notes actor db ≡ done db'
      → Step (rules, db) (rules, db')

pub data Steps (start : List AlertRule × AlertStore) : List AlertRule × AlertStore → Type 0 where
  here : Steps start start
  next : {s t : List AlertRule × AlertStore} → Steps start s → Step s t → Steps start t

-- At most one open alert for each key.
abbrev pub IsDeduplicated : List OperationalAlert → Type 0
IsDeduplicated alerts = (k : Key) → count_open k alerts ≤ 1

count_open-acknowledge :
    (k : Key) (now i : ℕ) (actor : Text) (alerts : List OperationalAlert)
    → IsOpen i alerts
    → count_open k (update_alert i (acknowledge now actor) alerts) ≡ count_open k alerts
unfolding count_open
count_open-acknowledge k now i actor [] open_now = refl
count_open-acknowledge k now i actor (a ∷ alerts) open_now =
    ground (arith, open_now.0, count_open-acknowledge k now i actor alerts open_now.1)

count_open-resolve :
    (k : Key) (now i : ℕ) (notes actor : Text) (alerts : List OperationalAlert)
    → count_open k (update_alert i (resolve now notes actor) alerts) ≤ count_open k alerts
unfolding count_open
count_open-resolve k now i notes actor [] = omega arith
count_open-resolve k now i notes actor (a ∷ alerts) =
    ground (arith, count_open-resolve k now i notes actor alerts)

acknowledge_alert-alerts :
    (now i : ℕ) (actor : Text) (db db' : AlertStore)
    → acknowledge_alert now i actor db ≡ done db'
    → db'.alerts ≡ update_alert i (acknowledge now actor) db.alerts
unfolding acknowledge_alert
acknowledge_alert-alerts now i actor db db' h = ground arith

resolve_alert-alerts :
    (now i : ℕ) (notes actor : Text) (db db' : AlertStore)
    → resolve_alert now i notes actor db ≡ done db'
    → db'.alerts ≡ update_alert i (resolve now notes actor) db.alerts
unfolding resolve_alert
resolve_alert-alerts now i notes actor db db' h = ground arith

Step-IsDeduplicated :
    {s t : List AlertRule × AlertStore}
    → Step s t
    → IsDeduplicated s.1.alerts
    → IsDeduplicated t.1.alerts
Step-IsDeduplicated (evaluate w i ops rules db) h k =
    ground (arith, h k, evaluate_rules-count w i ops rules db.alerts k)
Step-IsDeduplicated (acknowledges now i actor rules db db' open_now e) h k = ground (
  arith,
  h k,
  ap (count_open k) (acknowledge_alert-alerts now i actor db db' e),
  count_open-acknowledge k now i actor db.alerts open_now,
)
Step-IsDeduplicated (resolves now i notes actor rules db db' e) h k = ground (
  arith,
  h k,
  ap (count_open k) (resolve_alert-alerts now i notes actor db db' e),
  count_open-resolve k now i notes actor db.alerts,
)

-- Whatever evaluations, acknowledgements of open alerts and resolutions follow each other, no key
-- ever has two open alerts, if none had before.
pub Steps-IsDeduplicated :
    {s t : List AlertRule × AlertStore}
    → Steps s t
    → IsDeduplicated s.1.alerts
    → IsDeduplicated t.1.alerts
Steps-IsDeduplicated here h = h
Steps-IsDeduplicated (next steps step) h = Step-IsDeduplicated step (Steps-IsDeduplicated steps h)
