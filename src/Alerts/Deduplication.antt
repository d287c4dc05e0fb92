-- ===== src/Alerts/Deduplication.antt =====
-- One open alert for each key.
use marine_time_motion_platf.Prelude.{
  ℕ, suc, ◌+◌, ◌≡◌, ◌↔◌, refl, sym, ap, ◌∙◌, inl, inr, Bool, true, false, ◌&&◌, ◌||◌, not, List, [],
  ◌∷◌, ◌++◌, any, All, ◌==◌, if◌then◌else◌, Bool-cases, arith,
}
use marine_time_motion_platf.Prelude.Text.{◌=ᵗ◌, =ᵗ_iff, =ᵗ_refl}
use marine_time_motion_platf.Alerts.Alert.{Key, same_key, OperationalAlert}
use marine_time_motion_platf.Alerts.Rules.{
  AlertRule, Operations, Draft, drafts, is_open, open_keys, has_key, Wording, new_alert,
  create_or_get_alerts, seed_rules, default_alert_rules, evaluate_rules,
}

pub same_key_iff : (a b : Key) → (same_key a b ≡ true) ↔ (a ≡ b)
unfolding same_key
same_key_iff a b = ground (
  arith,
  =ᵗ_iff a.rule_code b.rule_code,
  =ᵗ_iff a.linked_entity_type b.linked_entity_type,
  =ᵗ_iff a.linked_entity_id b.linked_entity_id,
)

abbrev pub is_open_at : Key → OperationalAlert → Bool
is_open_at k a = is_open a && same_key k a.key

-- The number of open alerts with a key.
unfoldable pub count_open : Key → List OperationalAlert → ℕ
count_open k [] = 0
count_open k (a ∷ alerts) =
    if is_open_at k a then suc (count_open k alerts) else count_open k alerts

-- Whether a draft asks for a key.
abbrev pub is_asked : Key → List Draft → Bool
is_asked k ds = any (λ d. same_key k d.key) ds

count_open-append :
    (k : Key) (alerts : List OperationalAlert) (a : OperationalAlert)
    → count_open k (alerts ++ a ∷ []) ≡ count_open k alerts + (if is_open_at k a then 1 else 0)
unfolding count_open
count_open-append k [] a = ground arith
count_open-append k (x ∷ alerts) a = ground (arith, count_open-append k alerts a)

has_key-append :
    (k j : Key) (keys : List Key) → has_key k (keys ++ j ∷ []) ≡ (has_key k keys || same_key j k)
has_key-append k j [] = ground arith
has_key-append k j (i ∷ keys) = ground (arith, has_key-append k j keys)

has_key-open_keys :
    (k : Key) (alerts : List OperationalAlert)
    → has_key k (open_keys alerts) ≡ not (count_open k alerts == 0)
unfolding open_keys count_open
has_key-open_keys k [] = ground arith
has_key-open_keys k (a ∷ alerts) =
    ground (arith, has_key-open_keys k alerts, same_key_iff k a.key, same_key_iff a.key k)

new_alert-is_open :
    (k : Key) (w : Wording) (i : ℕ) (d : Draft) → is_open_at k (new_alert w i d) ≡ same_key k d.key
unfolding new_alert
new_alert-is_open k w i d = ground arith

-- The open alerts of a key after some drafts.
abbrev expected : Key → List Draft → List OperationalAlert → ℕ
expected k ds alerts =
    if (count_open k alerts == 0) && is_asked k ds then 1 else count_open k alerts

-- A draft whose key is open asks for nothing new.
ask_known :
    (k : Key) (d : Draft) (ds : List Draft) (alerts : List OperationalAlert)
    → not (count_open d.key alerts == 0) ≡ true
    → expected k ds alerts ≡ expected k (d ∷ ds) alerts
ask_known k d ds alerts has = elim (Bool-cases (same_key k d.key)) [
  | inl same ↦ ground (arith, ap (λ j. count_open j alerts) ((same_key_iff k d.key).0 same))
  | inr other ↦ ground arith
]

-- A draft whose key is not open adds one alert.
ask_added :
    (k : Key) (w : Wording) (i : ℕ) (d : Draft) (ds : List Draft) (alerts : List OperationalAlert)
    → not (count_open d.key alerts == 0) ≡ false
    → expected k ds (alerts ++ new_alert w i d ∷ []) ≡ expected k (d ∷ ds) alerts
ask_added k w i d ds alerts free = elim (Bool-cases (same_key k d.key)) [
  | inl same ↦ ground (
    arith,
    ap (λ j. count_open j alerts) ((same_key_iff k d.key).0 same),
    count_open-append k alerts (new_alert w i d),
    new_alert-is_open k w i d,
  )
  | inr other ↦
      ground (arith, count_open-append k alerts (new_alert w i d), new_alert-is_open k w i d)
]

added_known :
    (w : Wording) (i : ℕ) (d : Draft) (keys : List Key) (alerts : List OperationalAlert)
    → ((k : Key) → has_key k keys ≡ not (count_open k alerts == 0))
    → (k : Key)
    → has_key k (keys ++ d.key ∷ []) ≡ not (count_open k (alerts ++ new_alert w i d ∷ []) == 0)
added_known w i d keys alerts known k = ground (
  arith,
  known k,
  has_key-append k d.key keys,
  count_open-append k alerts (new_alert w i d),
  new_alert-is_open k w i d,
  same_key_iff k d.key,
  same_key_iff d.key k,
)

create_or_get_alerts-count :
    (w : Wording) (i : ℕ) (ds : List Draft) (keys : List Key) (alerts : List OperationalAlert)
    → ((k : Key) → has_key k keys ≡ not (count_open k alerts == 0))
    → (k : Key) → count_open k (create_or_get_alerts w i ds keys alerts) ≡ expected k ds alerts
unfolding create_or_get_alerts
create_or_get_alerts-count w i [] keys alerts known k = ground arith
create_or_get_alerts-count w i (d ∷ ds) keys alerts known k =
    elim (Bool-cases (has_key d.key keys)) [
      | inl has ↦ rw has (
          create_or_get_alerts-count w i ds keys alerts known k
          ∙ ask_known k d ds alerts (sym (known d.key) ∙ has))
      | inr free ↦ rw free (
          create_or_get_alerts-count w (suc i) ds (keys ++ d.key ∷ [])
            (alerts ++ new_alert w i d ∷ []) (added_known w i d keys alerts known) k
          ∙ ask_added k w i d ds alerts (sym (known d.key) ∙ free))
    ]

-- After an evaluation every key that the rules ask for has exactly one open alert if it had at most
-- one before, and no other key has an open alert more or less than before.
pub evaluate_rules-count :
    (w : Wording) (i : ℕ) (ops : Operations) (rules : List AlertRule)
    (alerts : List OperationalAlert) (k : Key)
    → let (seeded, after) = evaluate_rules w i ops rules alerts in
      count_open k after ≡ (
        if (count_open k alerts == 0) && is_asked k (drafts seeded ops)
        then 1
        else count_open k alerts)
unfolding evaluate_rules
evaluate_rules-count w i ops rules alerts k =
    create_or_get_alerts-count w i (drafts (seed_rules default_alert_rules rules) ops)
      (open_keys alerts) alerts (λ j. has_key-open_keys j alerts) k

-- Rules with a code.
abbrev has_code : AlertRule → List AlertRule → Bool
has_code d rules = any (λ r. r.rule_code =ᵗ d.rule_code) rules

has_code-append :
    (d e : AlertRule) (rules : List AlertRule)
    → has_code d (rules ++ e ∷ []) ≡ (has_code d rules || (e.rule_code =ᵗ d.rule_code))
has_code-append d e [] = ground arith
has_code-append d e (r ∷ rules) = ground (arith, has_code-append d e rules)

has_code-seed_rules :
    (d : AlertRule) (ds rules : List AlertRule)
    → has_code d rules ≡ true
    → has_code d (seed_rules ds rules) ≡ true
unfolding seed_rules
has_code-seed_rules d [] rules h = h
has_code-seed_rules d (e ∷ ds) rules h =
    has_code-seed_rules d ds (if has_code e rules then rules else rules ++ e ∷ [])
      (ground (arith, has_code-append d e rules))

seeded_once :
    (e : AlertRule) (rules : List AlertRule)
    → has_code e (if has_code e rules then rules else rules ++ e ∷ []) ≡ true
seeded_once e rules = ground (arith, has_code-append e e rules, =ᵗ_refl e.rule_code)

seed_rules-All : (ds rules : List AlertRule) → All (λ d. has_code d (seed_rules ds rules) ≡ true) ds
unfolding seed_rules
seed_rules-All [] rules = tt
seed_rules-All (e ∷ ds) rules =
    let rules' = if has_code e rules then rules else rules ++ e ∷ [] in
    (has_code-seed_rules e ds rules' (seeded_once e rules), seed_rules-All ds rules')

seed_rules-known :
    (ds rules : List AlertRule)
    → All (λ d. has_code d rules ≡ true) ds
    → seed_rules ds rules ≡ rules
unfolding seed_rules
seed_rules-known [] rules h = refl
seed_rules-known (e ∷ ds) rules h = rw (h.0) (seed_rules-known ds rules h.1)

create_or_get_alerts-known :
    (w : Wording) (i : ℕ) (ds : List Draft) (keys : List Key) (alerts : List OperationalAlert)
    → All (λ d. has_key d.key keys ≡ true) ds
    → create_or_get_alerts w i ds keys alerts ≡ alerts
unfolding create_or_get_alerts
create_or_get_alerts-known w i [] keys alerts h = refl
create_or_get_alerts-known w i (d ∷ ds) keys alerts h =
    rw (h.0) (create_or_get_alerts-known w i ds keys alerts h.1)

-- Each draft of a list is asked for by it.
asked-All :
    (ds : List Draft) (keys : List Key)
    → ((k : Key) → is_asked k ds ≡ true → has_key k keys ≡ true)
    → All (λ d. has_key d.key keys ≡ true) ds
asked-All [] keys h = tt
asked-All (d ∷ ds) keys h = (
  h d.key (ground (arith, same_key_iff d.key d.key)),
  asked-All ds keys (λ k e. h k (ground arith)),
)

open_after :
    (w : Wording) (i : ℕ) (ds : List Draft) (alerts : List OperationalAlert) (k : Key)
    → is_asked k ds ≡ true
    → has_key k (open_keys (create_or_get_alerts w i ds (open_keys alerts) alerts)) ≡ true
open_after w i ds alerts k asked =
    let after = create_or_get_alerts w i ds (open_keys alerts) alerts in
    ground (
      arith,
      has_key-open_keys k after,
      create_or_get_alerts-count w i ds (open_keys alerts) alerts (λ j. has_key-open_keys j alerts)
          k,
    )

-- An evaluation that is repeated at once, on the same operational data, changes nothing.
pub evaluate_rules_idempotent :
    (w : Wording) (i j : ℕ) (ops : Operations) (rules : List AlertRule)
    (alerts : List OperationalAlert)
    → let (seeded, after) = evaluate_rules w i ops rules alerts in
      evaluate_rules w j ops seeded after ≡ (seeded, after)
unfolding evaluate_rules
evaluate_rules_idempotent w i j ops rules alerts =
    let seeded = seed_rules default_alert_rules rules in
    let ds = drafts seeded ops in
    let after = create_or_get_alerts w i ds (open_keys alerts) alerts in
    let same : seed_rules default_alert_rules seeded ≡ seeded =
      seed_rules-known default_alert_rules seeded (seed_rules-All default_alert_rules rules) in
    ap (λ r. (r, create_or_get_alerts w j (drafts r ops) (open_keys after) after)) same
    ∙ ap (λ a. (seeded, a))
        (create_or_get_alerts-known w j ds (open_keys after) after
          (asked-All ds (open_keys after) (open_after w i ds alerts)))
