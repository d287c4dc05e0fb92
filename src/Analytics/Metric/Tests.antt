-- ===== src/Analytics/Metric/Tests.antt =====
-- The metrics of the samples, alone and in a table, and after a correction.
use marine_time_motion_platf.Prelude.{
  ◌<◌, ℕ, ◌≡◌, ◌⊎◌, inl, inr, refl, true, false, ◌&&◌, List, [], ◌∷◌, map, none, some, Bool-cases,
  subst, sym, ◌∙◌, ◌≢◌, ◌==◌, arith,
}
use marine_time_motion_platf.Prelude.Int.{pos, sub_ℕ}
use marine_time_motion_platf.Prelude.Round.{round_half_even}
use marine_time_motion_platf.Prelude.Members.{In}
use marine_time_motion_platf.Prelude.Text.{text, ◌=ᵗ◌, =ᵗ_iff, lower}
use marine_time_motion_platf.Journey.Occurrence.{EventOccurrence, Result, ok, err, observation_at}
use marine_time_motion_platf.Journey.Selector.{resolve_vessel_call, resolve_groups, group_from}
use marine_time_motion_platf.Journey.Tests.{
  selector, name_of, request, store, corrected_store, no_rows-IsUnique, approved, correct,
}
use marine_time_motion_platf.Analytics.Metric.{
  LeadTimeDefinition, LeadTimeResult, VesselCall, is_candidate, first_by, governed, AnalyticsEngine,
}
use marine_time_motion_platf.Analytics.Metric.Catalogue.{Seed, catalogue_seeds, ensure_catalogue}
use marine_time_motion_platf.Analytics.Metric.Catalogue.Loop.{seed_of}
use marine_time_motion_platf.Analytics.Metric.Catalogue.Installed.{ensure_catalogue-seed_of}
use marine_time_motion_platf.Analytics.Metric.Resolution.{
  event_named, queried, resolve_event_occurrence,
}
use marine_time_motion_platf.Analytics.Metric.Resolution.Governing.{
  Resolves, resolve_event_occurrence-Resolves,
}
use marine_time_motion_platf.Analytics.Metric.Call.{
  row_for, lacks_ata, newest_staged, same_vcn, is_blank_ata, between, compute_event_duration,
}
use marine_time_motion_platf.Analytics.Duration.{hours_between}
use marine_time_motion_platf.Analytics.Metric.Measured.{
  IsMeasured, IsUnavailable, compute_event_duration-IsMeasured,
}
use marine_time_motion_platf.Analytics.Metric.Service.{
  delayed, selected_match, services_of, ordered, insert, joined, compute_execution_delay,
}
use marine_time_motion_platf.Analytics.Metric.Table.Slots.{rows_at}
use marine_time_motion_platf.Analytics.Metric.Engine.{
  compute_single_definition, compute_calls, compute_result, Computed, Counts, compute_definitions,
  compute_all_metrics, is_active, active_calls, in_tenant,
}
use marine_time_motion_platf.Analytics.Metric.Engine.Single.{
  IsOne, has_call, IsDistinct, compute_single_definition-IsOne,
}
use marine_time_motion_platf.Analytics.Metric.Engine.Metrics.{HasOne, compute_all_metrics-HasOne}
use marine_time_motion_platf.Analytics.Metric.Engine.Returns.{
  Returns, IsNamed, compute_all_metrics-Returns,
}
use marine_time_motion_platf.Analytics.Metric.Corrected.{create_correction-resolved}
use marine_time_motion_platf.Analytics.Metric.Samples.{
  seen, ata, atd, engine, turnaround, arrival_delay, ship, duplicate,
}

ata_resolved :
    resolve_event_occurrence engine 1 (text "ATA") (text "first") ≡ ok (some (seen 1 7 1))
unfolding resolve_event_occurrence observation_at governed queried first_by is_candidate ◌=ᵗ◌
ata_resolved = refl

resolve_event_occurrence-Resolves_example :
    Resolves engine 1 (text "ATA") (text "first") (some (seen 1 7 1))
resolve_event_occurrence-Resolves_example =
    resolve_event_occurrence-Resolves engine 1 (text "ATA") (text "first") (some (seen 1 7 1))
      ata_resolved

abbrev row_or : LeadTimeResult → Result LeadTimeResult → LeadTimeResult
row_or row (ok r) = r
row_or row (err x) = row

abbrev turnaround_row : LeadTimeResult
turnaround_row =
    row_or (row_for turnaround ship none) (compute_event_duration engine turnaround ship none)

turnaround_computed : compute_event_duration engine turnaround ship none ≡ ok turnaround_row
unfolding compute_event_duration lacks_ata newest_staged same_vcn is_blank_ata
    resolve_event_occurrence observation_at governed queried first_by is_candidate ◌=ᵗ◌
turnaround_computed = refl

turnaround_hours : turnaround_row.duration_hours ≡ some (pos 30000000)
unfolding compute_event_duration lacks_ata newest_staged same_vcn is_blank_ata
    resolve_event_occurrence observation_at governed queried first_by is_candidate ◌=ᵗ◌ between
    hours_between round_half_even
turnaround_hours = refl

compute_event_duration-IsMeasured_example :
    IsMeasured engine turnaround ship turnaround_row
    ⊎ IsUnavailable engine turnaround ship turnaround_row
compute_event_duration-IsMeasured_example =
    compute_event_duration-IsMeasured engine turnaround ship none turnaround_row turnaround_computed

-- The pilot came an hour early.
early_by_an_hour :
    (compute_execution_delay engine arrival_delay ship none).duration_hours ≡ some (sub_ℕ 0 1000000)
unfolding compute_execution_delay delayed selected_match services_of ordered insert joined
    hours_between round_half_even ◌=ᵗ◌ lower
early_by_an_hour = refl

ata_named : Returns (event_named (text "ATA") engine.events)
unfolding ◌=ᵗ◌
ata_named = (some ata, refl)

atd_named : Returns (event_named (text "ATD") engine.events)
unfolding ◌=ᵗ◌
atd_named = (some atd, refl)

engine-IsNamed : IsNamed engine.events
engine-IsNamed name = elim (Bool-cases (text "ATA" =ᵗ name)) [
  | inl is_ata ↦
      subst (λ n. Returns (event_named n engine.events)) ((=ᵗ_iff (text "ATA") name).0 is_ata)
        ata_named
  | inr other ↦ elim (Bool-cases (text "ATD" =ᵗ name)) [
    | inl is_atd ↦
        subst (λ n. Returns (event_named n engine.events)) ((=ᵗ_iff (text "ATD") name).0 is_atd)
          atd_named
    | inr neither ↦ (none, ground arith)
  ]
]

compute_all_metrics-Returns_example :
    Returns
      (compute_all_metrics engine none (turnaround ∷ arrival_delay ∷ []) (ship ∷ duplicate ∷ []) [])
compute_all_metrics-Returns_example =
    compute_all_metrics-Returns engine engine-IsNamed no_rows-IsUnique none
      (turnaround ∷ arrival_delay ∷ []) (ship ∷ duplicate ∷ []) []

-- A table that holds the row twice, and a row of the call that was merged.
abbrev doubled : List LeadTimeResult
doubled = turnaround_row ∷ record turnaround_row { vessel_call_id = 2 } ∷ turnaround_row ∷ []

ship-IsDistinct : IsDistinct (ship ∷ [])
ship-IsDistinct = (refl, tt)

both-IsDistinct : IsDistinct (ship ∷ duplicate ∷ [])
both-IsDistinct = (refl, (refl, tt))

abbrev computed_or : Computed → Result Computed → Computed
computed_or c (ok d) = d
computed_or c (err x) = c

abbrev single : Computed
single = computed_or ([], []) (compute_single_definition engine arrival_delay (ship ∷ []) doubled)

single_computed :
    compute_single_definition engine arrival_delay (ship ∷ []) doubled ≡ ok (single.0, single.1)
unfolding compute_single_definition compute_calls compute_result
single_computed = refl

compute_single_definition-IsOne_example :
    (map (λ r. r.vessel_call_id) (single.0) ≡ 1 ∷ [])
    × ((vc : VesselCall)
        → In vc (ship ∷ [])
        → IsOne engine arrival_delay doubled vc (single.0) (single.1))
    × ((d c : ℕ)
        → ((arrival_delay.id == d) && has_call c (ship ∷ [])) ≡ false
        → rows_at d c (single.1) ≡ rows_at d c doubled)
compute_single_definition-IsOne_example =
    compute_single_definition-IsOne engine arrival_delay (ship ∷ []) doubled (single.0) (single.1)
      ship-IsDistinct single_computed

abbrev everything : List (ℕ × Counts) × List LeadTimeResult
everything =
    elim (compute_all_metrics engine none (arrival_delay ∷ []) (ship ∷ duplicate ∷ []) doubled) [
      | ok r ↦ r
      | err x ↦ ([], [])
    ]

everything_computed :
    compute_all_metrics engine none (arrival_delay ∷ []) (ship ∷ duplicate ∷ []) doubled
    ≡ ok (everything.0, everything.1)
unfolding compute_all_metrics compute_definitions active_calls is_active in_tenant ◌=ᵗ◌
    compute_single_definition compute_calls compute_result
everything_computed = refl

compute_all_metrics-HasOne_example :
    ((d : LeadTimeDefinition) (vc : VesselCall)
      → In d (arrival_delay ∷ [])
      → In vc (active_calls engine none (ship ∷ duplicate ∷ []))
      → HasOne d.id vc.id (everything.1))
    × ((m : VesselCall)
        → In m (ship ∷ duplicate ∷ [])
        → m.is_merged ≡ true
        → in_tenant engine m ≡ true
        → (d : ℕ) → rows_at d m.id (everything.1) ≡ [])
compute_all_metrics-HasOne_example =
    compute_all_metrics-HasOne engine none (arrival_delay ∷ []) (ship ∷ duplicate ∷ []) doubled
      (everything.1) (everything.0) both-IsDistinct everything_computed

abbrev corrected_engine : AnalyticsEngine
corrected_engine = record engine {
  occurrences = corrected_store.occurrences;
  observations = corrected_store.observations;
}

-- A later run, on another call without observations.
later_run :
    resolve_vessel_call selector [] name_of 20 2 [] corrected_store.observations
    ≡ ok ([], corrected_store.observations)
unfolding resolve_vessel_call resolve_groups group_from
later_run = refl

ata_known : event_named (text "ATA") corrected_engine.events ≡ ok (some ata)
unfolding ◌=ᵗ◌
ata_known = refl

create_correction-resolved_example :
    (o : EventOccurrence) × (resolve_event_occurrence corrected_engine 1 (text "ATA") (text "last")
      ≡ ok (some o))
    × (o.id ≡ 3)
    × (o.utc_value ≡ 5400000000)
create_correction-resolved_example =
    create_correction-resolved selector selector [] [] name_of name_of request store corrected_store
      20 2 [] [] corrected_store.observations corrected_engine (text "ATA") (text "last") ata
      no_rows-IsUnique approved refl correct later_run refl refl ata_known refl

-- A definition of a user's own, beside which the seeds are installed.
abbrev own : LeadTimeDefinition
own = record turnaround { name = text "Own"; custom_builder = true }

own_alone : (a b : LeadTimeDefinition) → In a (own ∷ []) → In b (own ∷ []) → a.id ≡ b.id → a ≡ b
own_alone a b (inl i) (inl j) same = i ∙ sym j
own_alone a b (inl i) (inr j) same = absurd j
own_alone a b (inr i) j same = absurd i

own_older : (d : LeadTimeDefinition) → In d (own ∷ []) → d.id < 20
own_older d (inl i) = rw i (omega arith)
own_older d (inr i) = absurd i

ensure_catalogue-seed_of_example :
    (map seed_of ((ensure_catalogue 20 (own ∷ [])).0) ≡ catalogue_seeds)
    × ((r : LeadTimeDefinition)
        → In r ((ensure_catalogue 20 (own ∷ [])).0)
        → In r ((ensure_catalogue 20 (own ∷ [])).1))
    × ((d : LeadTimeDefinition)
        → In d (own ∷ [])
        → ((s : Seed) → In s catalogue_seeds → d.name ≢ s.name)
        → In d ((ensure_catalogue 20 (own ∷ [])).1))
ensure_catalogue-seed_of_example = ensure_catalogue-seed_of 20 (own ∷ []) own_alone own_older
