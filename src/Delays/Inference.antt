-- ===== src/Delays/Inference.antt =====
-- apps/api/services/delays/inference.py: a probable cause from the services of a vessel call. Times are
-- in microseconds, delays of a service too, and what the reasons quote.
pub mod Proposals
pub mod Governed
use marine_time_motion_platf.Prelude.{
  ℕ, ◌-◌, Bool, true, false, ◌&&◌, ◌||◌, not, List, [], ◌∷◌, ◌++◌, filter, ltb, leb, ◌==◌,
  if◌then◌else◌, Option, none, some,
}
use marine_time_motion_platf.Prelude.Text.{Text, text, ◌=ᵗ◌, non_empty, lower, occurs}
use marine_time_motion_platf.Delays.Category.{or_empty}
use marine_time_motion_platf.Delays.Delay.{
  Proposal, arrival_congestion, sailing_clearance, coordination_wait, tug_late, pilot_late,
  berthing_late, Factor, stage_is, tug_delayed, pilot_delayed, pilot_on_time, tug_on_schedule,
  mooring_lag, positive_arrival_delay, departure_delay, no_service_delays, departure_normal,
  limited_telemetry, inferred, Evidence, Delay, DelayAllocation, delay_cause_inferred, DelayStore,
  Result, ok, err, ◌>>=◌, one_or_none, delay_by_id, update_delay, update_where, is_confirmed,
}

-- A service request with its assignment and its execution, where there are any.
pub record Service : Type 0 where
  pub vessel_call_id : ℕ
  pub service_type : Option Text
  pub movement_type : Option Text
  pub scheduled_time : Option ℕ
  pub served_time : Option ℕ

-- 0.05 and 0.1 hours.
abbrev pub tolerance : ℕ
tolerance = 180000000

abbrev pub significant : ℕ
significant = 360000000

-- The delays that were found, of which the last of each kind counts.
pub record Found : Type 0 where
  pub pilot_delay : Option ℕ
  pub tug_delay : Option ℕ
  pub berthing_delay : Option ℕ

-- Whether a service is of a kind, and of the stage or of any.
unfoldable pub serves : Text → Text → Service → Bool
serves stage kind s =
    occurs kind (lower (or_empty s.service_type))
    && (occurs stage (lower (or_empty s.movement_type))
        || not (non_empty (or_empty s.movement_type)))

-- The delay of a service, if it is more than the tolerance.
abbrev late_by : ℕ → ℕ → Option ℕ → Option ℕ
late_by scheduled served old =
    if ltb tolerance (served - scheduled) then some (served - scheduled) else old

unfoldable pub observe : Text → Found → Service → ℕ → ℕ → Found
observe stage f s scheduled served =
    if serves stage (text "pilot") s
    then record f { pilot_delay = late_by scheduled served f.pilot_delay }
    else if serves stage (text "tug") s
    then record f { tug_delay = late_by scheduled served f.tug_delay }
    else if serves stage (text "berth") s
    then record f { berthing_delay = late_by scheduled served f.berthing_delay }
    else f

unfoldable pub observe_service : Text → Found → Service → Found
observe_service stage f s = elim s.scheduled_time [
  | none ↦ f
  | some scheduled ↦ elim s.served_time [
    | none ↦ f
    | some served ↦ observe stage f s scheduled served
  ]
]

unfoldable pub observe_all : Text → Found → List Service → Found
observe_all stage f [] = f
observe_all stage f (s ∷ services) = observe_all stage (observe_service stage f s) services

unfoldable pub exceeds : Option ℕ → Bool
exceeds none = false
exceeds (some d) = ltb significant d

unfoldable pub is_slight : Option ℕ → Bool
is_slight none = false
is_slight (some d) = ltb d tolerance

abbrev pub value : Option ℕ → ℕ
value none = 0
value (some d) = d

-- The evidence hierarchy.
unfoldable pub propose : Text → Text → Found → Evidence
propose actor movement_stage f =
    let stage = lower movement_stage in
    let base = stage_is movement_stage in
    if exceeds f.tug_delay
    then record {
      proposed_cause = tug_late (value f.tug_delay);
      proposed_category = text "Tug";
      confidence = 75;
      supporting_factors =
          base
          ∷ tug_delayed (value f.tug_delay) movement_stage
          ∷ (if is_slight f.pilot_delay then pilot_on_time ∷ [] else []);
      opposing_factors = [];
      inferred_by = actor;
    }
    else if exceeds f.pilot_delay
    then record {
      proposed_cause = pilot_late (value f.pilot_delay);
      proposed_category = text "Pilot";
      confidence = 78;
      supporting_factors =
          base
          ∷ pilot_delayed (value f.pilot_delay) movement_stage
          ∷ (if is_slight f.tug_delay then tug_on_schedule ∷ [] else []);
      opposing_factors = [];
      inferred_by = actor;
    }
    else if exceeds f.berthing_delay
    then record {
      proposed_cause = berthing_late (value f.berthing_delay);
      proposed_category = text "Berth Non-Availability";
      confidence = 70;
      supporting_factors = base ∷ mooring_lag ∷ [];
      opposing_factors = [];
      inferred_by = actor;
    }
    else if occurs (text "arrival") stage
    then record {
      proposed_cause = arrival_congestion;
      proposed_category = text "Berth Non-Availability";
      confidence = 60;
      supporting_factors = base ∷ positive_arrival_delay ∷ [];
      opposing_factors = no_service_delays ∷ [];
      inferred_by = actor;
    }
    else if occurs (text "sailing") stage
    then record {
      proposed_cause = sailing_clearance;
      proposed_category = text "Terminal Readiness";
      confidence = 58;
      supporting_factors = base ∷ departure_delay ∷ [];
      opposing_factors = departure_normal ∷ [];
      inferred_by = actor;
    }
    else record {
      proposed_cause = coordination_wait;
      proposed_category = text "Port-Side";
      confidence = 50;
      supporting_factors = base ∷ [];
      opposing_factors = limited_telemetry ∷ [];
      inferred_by = actor;
    }

unfoldable pub evidence_for : Text → List Service → Delay → Evidence
unfolding propose
evidence_for actor services d = propose actor d.movement_stage (
    observe_all (lower d.movement_stage)
      (record { pilot_delay = none; tug_delay = none; berthing_delay = none })
      (filter (λ s. s.vessel_call_id == d.vessel_call_id) services))

-- The inferred allocation of a delay.
unfoldable pub is_inferred_of : ℕ → DelayAllocation → Bool
is_inferred_of i a = (a.delay_id == i) && (a.cause_status =ᵗ text "INFERRED")

unfoldable pub new_allocation : ℕ → Delay → Evidence → DelayAllocation
new_allocation new_id d e = record {
  id = new_id;
  delay_id = d.id;
  cause = e.proposed_category;
  canonical_category = e.proposed_category;
  reason = some (inferred e.proposed_cause);
  duration_hours = d.total_duration_hours;
  is_primary = true;
  cause_status = text "INFERRED";
  confidence = some e.confidence;
  inference_evidence = some e;
  human_review_state = text "PENDING_REVIEW";
}

unfoldable pub revise_allocation : Evidence → DelayAllocation → DelayAllocation
revise_allocation e a = record a {
  cause = e.proposed_category;
  canonical_category = e.proposed_category;
  reason = some (inferred e.proposed_cause);
  confidence = some e.confidence;
  inference_evidence = some e;
  human_review_state = text "PENDING_REVIEW";
}

unfoldable pub mark_inferred : Evidence → Delay → Delay
mark_inferred e d = record d {
  cause_status = some (text "Inferred");
  canonical_category = some e.proposed_category;
  confidence = if leb 60 e.confidence then text "Medium" else text "Low";
  delay_reason = some (inferred e.proposed_cause);
}

pub data Inference : Type 0 where
  declined_confirmed_preserved : Inference
  inferred_success : Evidence → Inference

unfoldable pub store_inference : ℕ → Text → Delay → Evidence → DelayStore → Result DelayStore
store_inference new_id actor d e db = do
  old ← one_or_none (filter (is_inferred_of d.id) db.allocations)
  ok (record {
    delays = update_delay d.id (mark_inferred e) db.delays;
    allocations = elim old [
      | none ↦ db.allocations ++ new_allocation new_id d e ∷ []
      | some a ↦ update_where (is_inferred_of d.id) (revise_allocation e) db.allocations
    ];
    audit = db.audit ++ delay_cause_inferred actor d.id e ∷ [];
  })

unfoldable pub infer_delay_cause :
    ℕ → List Service → ℕ → Text → Bool → DelayStore → Result (Inference × DelayStore)
unfolding store_inference evidence_for
infer_delay_cause new_id services i actor force_reevaluate db = do
  d ← delay_by_id i db
  let e = evidence_for actor services d
  if is_confirmed d.cause_status && not force_reevaluate
      then ok (declined_confirmed_preserved, db)
      else (store_inference new_id actor d e db >>= λ db'. ok (inferred_success e, db'))
