-- ===== src/Analytics/Metric/Measured.antt =====
-- What a result says of the observations that it was computed from.
use marine_time_motion_platf.Prelude.{
  ◌≡◌, refl, sym, ap, subst, ◌⊎◌, inl, inr, true, false, Bool-cases, Option, none, some, arith,
}
use marine_time_motion_platf.Journey.Occurrence.{EventOccurrence, ok}
use marine_time_motion_platf.Journey.Selector.Slots.{Result-cases}
use marine_time_motion_platf.Analytics.Duration.{hours_between}
use marine_time_motion_platf.Analytics.Metric.{
  LeadTimeDefinition, available, unavailable, Reason, LeadTimeResult, VesselCall, AnalyticsEngine,
}
use marine_time_motion_platf.Analytics.Metric.Resolution.{resolve_event_occurrence}
use marine_time_motion_platf.Analytics.Metric.Staged.{
  LacksAta, HasAta, lacks_ata-true, lacks_ata-false,
}
use marine_time_motion_platf.Analytics.Metric.Call.{
  row_for, lacks_ata, event_envelope, without_ata, between, compute_event_duration,
}

-- The row of a call from two occurrences, or without its ATA.
abbrev pub ComputedFrom :
    AnalyticsEngine → LeadTimeDefinition → VesselCall → LeadTimeResult → LeadTimeResult → Type 0
ComputedFrom e d vc envelope row =
    ((lacks_ata e d vc ≡ true) × (row ≡ without_ata envelope))
    ⊎ ((s t : Option EventOccurrence) × (lacks_ata e d vc ≡ false)
        × (resolve_event_occurrence e vc.id d.start_event d.occurrence_selection ≡ ok s)
        × (resolve_event_occurrence e vc.id d.end_event d.occurrence_selection ≡ ok t)
        × (row ≡ between d s t envelope))

pub compute_event_duration_cases :
    (e : AnalyticsEngine) (d : LeadTimeDefinition) (vc : VesselCall)
    (existing : Option LeadTimeResult) (row : LeadTimeResult)
    → compute_event_duration e d vc existing ≡ ok row
    → ComputedFrom e d vc (event_envelope e d vc (row_for d vc existing)) row
unfolding compute_event_duration
compute_event_duration_cases e d vc existing row done = elim (Bool-cases (lacks_ata e d vc)) [
  | inl blank ↦ inl (blank, ground arith)
  | inr present ↦
      elim (Result-cases (resolve_event_occurrence e vc.id d.start_event d.occurrence_selection)) [
        | inl (x, h) ↦ absurd (ground arith)
        | inr (s, h) ↦
            elim (Result-cases
              (resolve_event_occurrence e vc.id d.end_event d.occurrence_selection)) [
                | inl (x, g) ↦ absurd (ground arith)
                | inr (t, g) ↦ inr (s, t, present, h, g, ground arith)
              ]
      ]
]

-- Nothing is missing, and the row has the time between them and refers to them.
abbrev pub IsMeasured : AnalyticsEngine → LeadTimeDefinition → VesselCall → LeadTimeResult → Type 0
IsMeasured e d vc row =
    HasAta e d vc
    × (s t : EventOccurrence) × (resolve_event_occurrence e vc.id d.start_event
          d.occurrence_selection
        ≡ ok (some s))
    × (resolve_event_occurrence e vc.id d.end_event d.occurrence_selection ≡ ok (some t))
    × (row.status ≡ available)
    × (row.duration_hours ≡ some (hours_between s.utc_value t.utc_value))
    × (row.unavailable_reason ≡ none)
    × (row.start_event_occurrence_id ≡ some s.id)
    × (row.end_event_occurrence_id ≡ some t.id)

-- Something is missing, and the row has no duration but a reason.
abbrev pub IsUnavailable :
    AnalyticsEngine → LeadTimeDefinition → VesselCall → LeadTimeResult → Type 0
IsUnavailable e d vc row =
    (LacksAta e d vc
      ⊎ ((resolve_event_occurrence e vc.id d.start_event d.occurrence_selection ≡ ok none)
          ⊎ (resolve_event_occurrence e vc.id d.end_event d.occurrence_selection ≡ ok none)))
    × (row.status ≡ unavailable)
    × (row.duration_hours ≡ none)
    × (r : Reason) × (row.unavailable_reason ≡ some r)

between-ends :
    (d : LeadTimeDefinition) (s t : EventOccurrence) (envelope row : LeadTimeResult)
    → row ≡ between d (some s) (some t) envelope
    → (row.status ≡ available)
      × (row.duration_hours ≡ some (hours_between s.utc_value t.utc_value))
      × (row.unavailable_reason ≡ none)
      × (row.start_event_occurrence_id ≡ some s.id)
      × (row.end_event_occurrence_id ≡ some t.id)
unfolding between
between-ends d s t envelope row h = (
  ap (λ r. r.status) h,
  ap (λ r. r.duration_hours) h,
  ap (λ r. r.unavailable_reason) h,
  ap (λ r. r.start_event_occurrence_id) h,
  ap (λ r. r.end_event_occurrence_id) h,
)

-- A row that says why it has no duration.
abbrev IsExplained : LeadTimeResult → Type 0
IsExplained row =
    (row.status ≡ unavailable)
    × (row.duration_hours ≡ none)
    × (r : Reason) × (row.unavailable_reason ≡ some r)

without_ata-IsExplained : (envelope : LeadTimeResult) → IsExplained (without_ata envelope)
unfolding without_ata
without_ata-IsExplained envelope = (refl, refl, _, refl)

between-IsExplained :
    (d : LeadTimeDefinition) (s t : Option EventOccurrence) (envelope : LeadTimeResult)
    → (s ≡ none) ⊎ (t ≡ none)
    → IsExplained (between d s t envelope)
unfolding between
between-IsExplained d none none envelope h = (refl, refl, _, refl)
between-IsExplained d none (some t) envelope h = (refl, refl, _, refl)
between-IsExplained d (some s) none envelope h = (refl, refl, _, refl)
between-IsExplained d (some s) (some t) envelope (inl h) = absurd (ground arith)
between-IsExplained d (some s) (some t) envelope (inr h) = absurd (ground arith)

-- Whatever row was stored before, a computed row is one of two. Either it is available and refers to the
-- two observations that the definition's events resolve to, with the time between them; the definition
-- is then not the turnaround, or no staged row is for the call, or the newest one has an ATA. Or the row
-- is unavailable, without a duration, and gives a reason; then an event resolves to no observation, or
-- the definition is the turnaround and the newest staged row of a current batch of the tenant for the
-- call's VCN has an ATA that is missing or of spaces.
pub compute_event_duration-IsMeasured :
    (e : AnalyticsEngine) (d : LeadTimeDefinition) (vc : VesselCall)
    (existing : Option LeadTimeResult) (row : LeadTimeResult)
    → compute_event_duration e d vc existing ≡ ok row
    → IsMeasured e d vc row ⊎ IsUnavailable e d vc row
compute_event_duration-IsMeasured e d vc existing row done =
    let envelope = event_envelope e d vc (row_for d vc existing) in
    elim (compute_event_duration_cases e d vc existing row done) [
      | inl (blank, is) ↦
          let (status, hours, reason, given) =
            subst IsExplained (sym is) (without_ata-IsExplained envelope) in
          inr (inl (lacks_ata-true e d vc blank), status, hours, reason, given)
      | inr (none, t, present, h, g, is) ↦
          let (status, hours, reason, given) =
            subst IsExplained (sym is) (between-IsExplained d none t envelope (inl refl)) in
          inr (inr (inl h), status, hours, reason, given)
      | inr (some s, none, present, h, g, is) ↦
          let (status, hours, reason, given) =
            subst IsExplained (sym is) (between-IsExplained d (some s) none envelope (inr refl)) in
          inr (inr (inr g), status, hours, reason, given)
      | inr (some s, some t, present, h, g, is) ↦
          let (status, hours, reason, start, end) = between-ends d s t envelope row is in
          inl (lacks_ata-false e d vc present, s, t, h, g, status, hours, reason, start, end)
    ]
