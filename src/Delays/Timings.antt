-- ===== src/Delays/Timings.antt =====
-- apps/api/services/delays/service.py: the timings of services, how often they are late, and the
-- overview of service delays. Hours are in millionths, percentages in tenths.
pub mod Counted
pub mod Late
use marine_time_motion_platf.Prelude.{
  ℕ, suc, ◌*◌, Bool, true, false, ◌&&◌, ◌||◌, not, List, [], ◌∷◌, ◌++◌, map, filter, length, ltb,
  leb, ◌==◌, if◌then◌else◌, Option, none, some,
}
use marine_time_motion_platf.Prelude.Int.{ℤ, pos, negsuc, sub_ℕ, ◌+ℤ◌, ltb_ℤ}
use marine_time_motion_platf.Prelude.Round.{round_half_even}
use marine_time_motion_platf.Prelude.Text.{Text, text, ◌=ᵗ◌, strip, upper, occurs}
use marine_time_motion_platf.Delays.Category.{or_empty}
use marine_time_motion_platf.Analytics.Duration.{
  Status, available, unavailable, SemanticDurationResult, compute_lead_time,
  compute_planning_lead_time, compute_scheduling_gap, compute_execution_delay,
}

pub data Leg : Type 0 where
  arrival_inward sailing_outward shifting unclassified : Leg

unfoldable pub same_leg : Leg → Leg → Bool
same_leg arrival_inward arrival_inward = true
same_leg sailing_outward sailing_outward = true
same_leg shifting shifting = true
same_leg unclassified unclassified = true
same_leg _ _ = false

unfoldable pub leg_of : Option Text → Leg
leg_of movement_type =
    let value = upper (strip (or_empty movement_type)) in
    if (value =ᵗ text "ARRIVAL") || (value =ᵗ text "INWARD")
    then arrival_inward
    else if (value =ᵗ text "SAILING") || (value =ᵗ text "OUTWARD") || (value =ᵗ text "DEPARTURE")
    then sailing_outward
    else if value =ᵗ text "SHIFTING"
    then shifting
    else unclassified

-- A service request with its assignment and execution, where there are any.
pub record Request : Type 0 where
  pub id : ℕ
  pub movement_type : Option Text
  pub service_type : Text
  pub submission_time : Option ℕ
  pub requested_time : Option ℕ
  pub scheduled_time : Option ℕ
  pub served_time : Option ℕ

pub data DelayStatus : Type 0 where
  not_available early on_time late : DelayStatus

pub data DqStatus : Type 0 where
  clean missing_data schedule_before_request : DqStatus

pub data Missing : Type 0 where
  requested_missing scheduled_missing served_missing : Missing

pub record Timing : Type 0 where
  pub id : ℕ
  pub leg : Leg
  pub service_type : Text
  pub planning_lead_time_hours : Option ℤ
  pub scheduling_gap_hours : Option ℤ
  pub execution_delay_hours : Option ℤ
  pub requested_to_served_hours : Option ℤ
  pub execution_delay_status : DelayStatus
  pub data_quality_status : DqStatus
  pub unavailable_inputs : List Missing

-- `.value_hours`
abbrev pub hours_of : Status → Option ℤ
hours_of (available z) = some z
hours_of (unavailable r) = none

abbrev pub note_missing : Option ℕ → Missing → List Missing
note_missing none m = m ∷ []
note_missing (some t) m = []

abbrev pub is_below_zero : Option ℤ → Bool
is_below_zero none = false
is_below_zero (some z) = ltb_ℤ z (pos 0)

unfoldable pub status_of : Option ℤ → DelayStatus
status_of none = not_available
status_of (some (pos n)) = if n == 0 then on_time else late
status_of (some (negsuc n)) = early

unfoldable pub quality_of : Option ℤ → List Missing → DqStatus
quality_of scheduling [] = if is_below_zero scheduling then schedule_before_request else clean
quality_of scheduling (m ∷ missing) =
    if is_below_zero scheduling then schedule_before_request else missing_data

unfoldable pub timing_of : Request → Timing
timing_of r =
    let scheduling = hours_of (compute_scheduling_gap r.requested_time r.scheduled_time).status in
    let execution = hours_of (compute_execution_delay r.scheduled_time r.served_time).status in
    let missing =
      note_missing r.requested_time requested_missing
      ++ (note_missing r.scheduled_time scheduled_missing
          ++ note_missing r.served_time served_missing) in
    record {
      id = r.id;
      leg = leg_of r.movement_type;
      service_type = r.service_type;
      planning_lead_time_hours =
          hours_of (compute_planning_lead_time r.submission_time r.requested_time).status;
      scheduling_gap_hours = scheduling;
      execution_delay_hours = execution;
      requested_to_served_hours =
          hours_of (compute_lead_time r.requested_time r.served_time).status;
      execution_delay_status = status_of execution;
      data_quality_status = quality_of scheduling missing;
      unavailable_inputs = missing;
    }

pub data Band : Type 0 where
  acceptable watch critical : Band

-- By a percentage in tenths.
unfoldable pub classify_delay_frequency : ℕ → Band
classify_delay_frequency percentage =
    if ltb percentage 400 then acceptable else if leb percentage 600 then watch else critical

abbrev pub is_eligible : Leg → Timing → Bool
is_eligible leg t =
    same_leg t.leg leg && (elim t.execution_delay_hours [ none ↦ false | some z ↦ true ])

abbrev pub is_positive : Option ℤ → Bool
is_positive none = false
is_positive (some z) = ltb_ℤ (pos 0) z

abbrev pub is_delayed : Timing → Bool
is_delayed t = is_positive t.execution_delay_hours

pub record Frequency : Type 0 where
  pub leg : Leg
  pub eligible_event_count : ℕ
  pub delayed_event_count : ℕ
  -- The percentage and its band, where there is an eligible event.
  pub delay_frequency : Option (ℕ × Band)

unfoldable pub frequency_of : List Timing → Leg → Frequency
frequency_of rows leg =
    let eligible = filter (is_eligible leg) rows in
    let delayed = filter is_delayed eligible in
    let percentage = round_half_even (1000 * length delayed) (length eligible) in
    record {
      leg = leg;
      eligible_event_count = length eligible;
      delayed_event_count = length delayed;
      delay_frequency =
          if length eligible == 0
          then none
          else some (percentage, classify_delay_frequency percentage);
    }

unfoldable pub delay_frequency_by_leg : List Timing → List Frequency
delay_frequency_by_leg rows =
    map (frequency_of rows) (arrival_inward ∷ sailing_outward ∷ shifting ∷ [])

pub data Kind : Type 0 where
  pilotage berthing towage other_service : Kind

unfoldable pub service_kind : Text → Kind
service_kind service_type =
    let value = upper service_type in
    if occurs (text "PILOT") value
    then pilotage
    else if occurs (text "BERTH") value || occurs (text "MOOR") value
    then berthing
    else if occurs (text "TUG") value || occurs (text "TOW") value
    then towage
    else other_service

abbrev pub same_kind : Kind → Kind → Bool
same_kind pilotage pilotage = true
same_kind berthing berthing = true
same_kind towage towage = true
same_kind other_service other_service = true
same_kind _ _ = false

pub record Counts : Type 0 where
  pub delayed_count : ℕ
  pub on_time_count : ℕ
  pub early_count : ℕ

pub record Summary : Type 0 where
  pub average_hours : Option ℤ
  pub observation_count : ℕ
  pub counts : Option Counts

-- `[row[value_field] for row in rows if row.get(value_field) is not None]`
unfoldable pub values_of : (Timing → Option ℤ) → List Timing → List ℤ
values_of field [] = []
values_of field (t ∷ rows) =
    let rest = values_of field rows in elim (field t) [ none ↦ rest | some z ↦ z ∷ rest ]

unfoldable pub sum_values : List ℤ → ℤ
sum_values [] = pos 0
sum_values (z ∷ values) = z +ℤ sum_values values

-- `round(total / n, 6)`
unfoldable pub average : ℤ → ℕ → ℤ
average (pos t) n = pos (round_half_even t n)
average (negsuc t) n = sub_ℕ 0 (round_half_even (suc t) n)

unfoldable pub count_values : (ℤ → Bool) → List ℤ → ℕ
count_values p values = length (filter p values)

unfoldable pub summarize_values : (Timing → Option ℤ) → Bool → List Timing → Summary
summarize_values field include_execution_context rows =
    let values = values_of field rows in
    record {
      average_hours =
          if length values == 0 then none else some (average (sum_values values) (length values));
      observation_count = length values;
      counts =
          if include_execution_context
          then some (record {
            delayed_count = count_values (λ z. ltb_ℤ (pos 0) z) values;
            on_time_count =
                count_values (λ z. not (ltb_ℤ (pos 0) z) && not (ltb_ℤ z (pos 0))) values;
            early_count = count_values (λ z. ltb_ℤ z (pos 0)) values;
          })
          else none;
    }

-- The four summaries that the timings give.
unfoldable pub service_delay_overview : List Timing → List Summary
service_delay_overview rows =
    let towage_rows =
      filter (λ (t : Timing). same_kind (service_kind t.service_type) towage) rows in
    summarize_values (λ t. t.execution_delay_hours) true
      (filter (λ t. same_kind (service_kind t.service_type) pilotage) rows)
    ∷ summarize_values (λ t. t.execution_delay_hours) true
        (filter (λ t. same_kind (service_kind t.service_type) berthing) rows)
    ∷ summarize_values (λ t. t.requested_to_served_hours) false towage_rows
    ∷ summarize_values (λ t. t.execution_delay_hours) true towage_rows
    ∷ []

-- The items are those of the leg, or all; the aggregates are of all rows.
pub record Timings : Type 0 where
  pub items : List Timing
  pub total : ℕ
  pub delay_overview : List Summary
  pub delay_frequency_by_leg : List Frequency

unfoldable pub list_service_timings : Option Leg → List Request → Timings
list_service_timings leg requests =
    let all_rows = map timing_of requests in
    let rows : List Timing = elim leg [
      | none ↦ all_rows
      | some l ↦ filter (λ (t : Timing). same_leg t.leg l) all_rows
    ] in
    record {
      items = rows;
      total = length rows;
      delay_overview = service_delay_overview all_rows;
      delay_frequency_by_leg = delay_frequency_by_leg all_rows;
    }
