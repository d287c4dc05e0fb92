-- ===== src/Analytics/Metric/Engine/Placed.antt =====
-- The result of a call stands in the slot of its definition and call.
use marine_time_motion_platf.Prelude.{
  ℕ, ◌≡◌, refl, sym, ap, ap₂, ◌∙◌, ◌⊎◌, inl, inr, true, Option, none, some, Bool-cases, arith,
}
use marine_time_motion_platf.Journey.Occurrence.{ok}
use marine_time_motion_platf.Analytics.Metric.{
  Availability, computable, no_source_data, LeadTimeDefinition, LeadTimeResult, VesselCall,
  AnalyticsEngine,
}
use marine_time_motion_platf.Analytics.Metric.Call.{
  row_for, event_envelope, without_ata, between, compute_event_duration,
}
use marine_time_motion_platf.Analytics.Metric.Service.{
  delay_envelope, delayed, compute_execution_delay,
}
use marine_time_motion_platf.Analytics.Metric.Measured.{compute_event_duration_cases}
use marine_time_motion_platf.Analytics.Metric.Table.{in_slot}
use marine_time_motion_platf.Analytics.Metric.Table.Slots.{in_slot_iff}
use marine_time_motion_platf.Analytics.Metric.Engine.{mark_no_source, compute_result}

-- The slot of a row.
abbrev slot : LeadTimeResult → ℕ × ℕ
slot row = (row.definition_id, row.vessel_call_id)

row_for-slot :
    (d : LeadTimeDefinition) (vc : VesselCall) (existing : Option LeadTimeResult)
    → ((row : LeadTimeResult) → existing ≡ some row → in_slot d.id vc.id row ≡ true)
    → slot (row_for d vc existing) ≡ (d.id, vc.id)
unfolding row_for
row_for-slot d vc none h = refl
row_for-slot d vc (some row) h =
    let (same_d, same_c) = (in_slot_iff d.id vc.id row).0 (h row refl) in
    ap₂ (λ a b. (a, b)) same_d same_c

between-slot :
    (d : LeadTimeDefinition) (s t : Option _) (row : LeadTimeResult)
    → slot (between d s t row) ≡ slot row
unfolding between
between-slot d none none row = refl
between-slot d none (some t) row = refl
between-slot d (some s) none row = refl
between-slot d (some s) (some t) row = refl

delayed-slot :
    (target : _) (s : Option _) (row : LeadTimeResult) → slot (delayed target s row) ≡ slot row
unfolding delayed
delayed-slot target none row = refl
delayed-slot target (some s) row = ground arith

-- The envelope of an event duration keeps the slot.
event_envelope-slot :
    (e : AnalyticsEngine) (d : LeadTimeDefinition) (vc : VesselCall) (row : LeadTimeResult)
    → slot (event_envelope e d vc row) ≡ slot row
unfolding event_envelope
event_envelope-slot e d vc row = refl

without_ata-slot : (row : LeadTimeResult) → slot (without_ata row) ≡ slot row
unfolding without_ata
without_ata-slot row = refl

compute_event_duration-slot :
    (e : AnalyticsEngine) (d : LeadTimeDefinition) (vc : VesselCall)
    (existing : Option LeadTimeResult) (row : LeadTimeResult)
    → compute_event_duration e d vc existing ≡ ok row
    → slot row ≡ slot (row_for d vc existing)
compute_event_duration-slot e d vc existing row done =
    let made = row_for d vc existing in
    let envelope = event_envelope e d vc made in
    elim (compute_event_duration_cases e d vc existing row done) [
      | inl (blank, is) ↦ ap slot is ∙ without_ata-slot envelope ∙ event_envelope-slot e d vc made
      | inr (s, t, present, h, g, is) ↦
          ap slot is ∙ between-slot d s t envelope ∙ event_envelope-slot e d vc made
    ]

compute_execution_delay-slot :
    (e : AnalyticsEngine) (d : LeadTimeDefinition) (vc : VesselCall)
    (existing : Option LeadTimeResult)
    → slot (compute_execution_delay e d vc existing) ≡ slot (row_for d vc existing)
unfolding compute_execution_delay delay_envelope
compute_execution_delay-slot e d vc existing = delayed-slot _ _ _

mark_no_source-slot :
    (e : AnalyticsEngine) (d : LeadTimeDefinition) (vc : VesselCall)
    (existing : Option LeadTimeResult)
    → slot (mark_no_source e d vc existing) ≡ slot (row_for d vc existing)
unfolding mark_no_source
mark_no_source-slot e d vc existing = refl

pub Availability-cases : (a : Availability) → (a ≡ computable) ⊎ (a ≡ no_source_data)
Availability-cases computable = inl refl
Availability-cases no_source_data = inr refl

compute_result-slot :
    (e : AnalyticsEngine) (d : LeadTimeDefinition) (vc : VesselCall)
    (existing : Option LeadTimeResult) (row : LeadTimeResult)
    → compute_result e d vc existing ≡ ok row
    → slot row ≡ slot (row_for d vc existing)
unfolding compute_result
compute_result-slot e d vc existing row done = elim (Availability-cases d.availability_status) [
  | inr none_there ↦
      let is : mark_no_source e d vc existing ≡ row = ground arith in
      sym (ap slot is) ∙ mark_no_source-slot e d vc existing
  | inl there ↦ elim (Bool-cases d.is_execution_delay) [
    | inl delay ↦
        let is : compute_execution_delay e d vc existing ≡ row = ground arith in
        sym (ap slot is) ∙ compute_execution_delay-slot e d vc existing
    | inr event ↦ compute_event_duration-slot e d vc existing row (ground arith)
  ]
]

-- The row of a call, from an existing row of its slot, stands in its slot.
pub compute_result-in_slot :
    (e : AnalyticsEngine) (d : LeadTimeDefinition) (vc : VesselCall)
    (existing : Option LeadTimeResult) (row : LeadTimeResult)
    → ((old : LeadTimeResult) → existing ≡ some old → in_slot d.id vc.id old ≡ true)
    → compute_result e d vc existing ≡ ok row
    → in_slot d.id vc.id row ≡ true
compute_result-in_slot e d vc existing row h done =
    let at = compute_result-slot e d vc existing row done ∙ row_for-slot d vc existing h in
    (in_slot_iff d.id vc.id row).1 (ap (λ p. p.0) at, ap (λ p. p.1) at)
