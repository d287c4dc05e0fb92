-- ===== src/Analytics/Metric/Corrected.antt =====
-- A metric reads an approved correction: journey/correction_service.py and analytics/engine.py together.
use marine_time_motion_platf.Prelude.{
  ℕ, ◌≡◌, refl, ap, ap₂, ◌∙◌, inl, inr, true, false, List, [], ◌∷◌, ◌++◌, find, ◌==◌, if◌then◌else◌,
  Option, none, some, Bool-cases, Option-cases, arith,
}
use marine_time_motion_platf.Prelude.Members.{find-In, find-none}
use marine_time_motion_platf.Prelude.Text.{Text}
use marine_time_motion_platf.Journey.Occurrence.{
  EventOccurrence, CanonicalObservation, ok, observation_at,
}
use marine_time_motion_platf.Journey.Selector.{
  Selector, QualityIssue, resolve_vessel_call, get_canonical_occurrence_id,
}
use marine_time_motion_platf.Journey.Selector.Slots.{IsUnique, Result-cases}
use marine_time_motion_platf.Journey.Correction.{
  Request, JourneyStore, is_approved, occurrence_by_id, corrected_occurrence, supersede,
  stored_occurrences, create_correction,
}
use marine_time_motion_platf.Journey.Correction.Governs.{create_correction-IsGoverned}
use marine_time_motion_platf.Analytics.Metric.{EventDefinition, AnalyticsEngine, governed}
use marine_time_motion_platf.Analytics.Metric.Resolution.{event_named, resolve_event_occurrence}

abbrev by_id : ℕ → List EventOccurrence → Option EventOccurrence
by_id i os = find (λ o. o.id == i) os

by_id-append :
    (i : ℕ) (os : List EventOccurrence) (new : EventOccurrence)
    → by_id i os ≡ none
    → new.id ≡ i
    → by_id i (os ++ new ∷ []) ≡ some new
by_id-append i [] new free is = ground arith
by_id-append i (o ∷ os) new free is = ground (arith, by_id-append i os new)

by_id-supersede :
    (i p new : ℕ) (os : List EventOccurrence)
    → (i == p) ≡ false
    → by_id i (supersede p new os) ≡ by_id i os
unfolding supersede
by_id-supersede i p new [] h = refl
by_id-supersede i p new (o ∷ os) h = ground (arith, by_id-supersede i p new os h)

-- The prior observation of a request is another one than the new one.
prior-differs :
    (r : Request) (os : List EventOccurrence) (p : EventOccurrence)
    → by_id r.new_occurrence_id os ≡ none
    → occurrence_by_id r.prior_event_occurrence_id os ≡ some p
    → (r.new_occurrence_id == p.id) ≡ false
prior-differs r os p free found = elim (Option-cases r.prior_event_occurrence_id) [
  | inl none_given ↦ absurd (ground arith)
  | inr (j, given) ↦
      let at : by_id j os ≡ some p = ground arith in
      let i = (find-In (λ o. o.id == j) os p at).0 in
      let other = find-none (λ o. o.id == r.new_occurrence_id) os p free i in ground arith
]

stored_occurrences-new :
    (r : Request) (os : List EventOccurrence) (prior : Option EventOccurrence)
    → by_id r.new_occurrence_id os ≡ none
    → occurrence_by_id r.prior_event_occurrence_id os ≡ prior
    → by_id r.new_occurrence_id (stored_occurrences r prior os)
      ≡ some (corrected_occurrence r prior)
unfolding stored_occurrences corrected_occurrence
stored_occurrences-new r os none free found =
    by_id-append r.new_occurrence_id os (corrected_occurrence r none) free refl
stored_occurrences-new r os (some p) free found =
    let new = corrected_occurrence r (some p) in
    let appended = by_id-append r.new_occurrence_id os new free refl in
    elim (Bool-cases (is_approved r)) [
      | inl granted ↦
          let differs = prior-differs r os p free found in
          ap (by_id r.new_occurrence_id) (
            ap
              (λ b.
                if b then supersede p.id r.new_occurrence_id (os ++ new ∷ []) else os ++ new ∷ [])
              granted)
          ∙ by_id-supersede r.new_occurrence_id p.id r.new_occurrence_id (os ++ new ∷ []) differs
          ∙ appended
      | inr refused ↦
          ap (by_id r.new_occurrence_id) (
            ap
              (λ b.
                if b then supersede p.id r.new_occurrence_id (os ++ new ∷ []) else os ++ new ∷ [])
              refused)
          ∙ appended
    ]

create_correction-occurrences :
    (s : Selector) (issues : List QualityIssue) (name_of : ℕ → Text) (r : Request)
    (db db' : JourneyStore)
    → create_correction s issues name_of r db ≡ ok db'
    → db'.occurrences
      ≡ stored_occurrences r
          (occurrence_by_id r.prior_event_occurrence_id db.occurrences)
          db.occurrences
unfolding create_correction
create_correction-occurrences s issues name_of r db db' done = ground arith

get_canonical_occurrence_id-row :
    (c e i : ℕ) (rows : List CanonicalObservation)
    → get_canonical_occurrence_id c e rows ≡ ok (some i)
    → (row : CanonicalObservation) × (observation_at c e rows ≡ ok (some row))
      × (row.selected_event_occurrence_id ≡ some i)
unfolding get_canonical_occurrence_id
get_canonical_occurrence_id-row c e i rows h = elim (Result-cases (observation_at c e rows)) [
  | inl (x, g) ↦ absurd (ground arith)
  | inr (none, g) ↦ absurd (ground arith)
  | inr (some row, g) ↦ (row, g, ground arith)
]

corrected_occurrence-new :
    (r : Request) (prior : Option EventOccurrence)
    → let o = corrected_occurrence r prior in
      (o.id ≡ r.new_occurrence_id)
      × (o.utc_value ≡ r.new_utc_value)
      × (o.is_superseded ≡ false)
      × (o.is_quarantined ≡ false)
unfolding corrected_occurrence
corrected_occurrence-new r prior = (refl, refl, refl, refl)

governed-live :
    (e : AnalyticsEngine) (row : CanonicalObservation) (i : ℕ) (o : EventOccurrence)
    → row.selected_event_occurrence_id ≡ some i
    → by_id i e.occurrences ≡ some o
    → o.is_superseded ≡ false
    → o.is_quarantined ≡ false
    → governed e (some row) ≡ some o
unfolding governed
governed-live e row i o chosen found live clean = ground arith

resolve_event_occurrence-governed :
    (e : AnalyticsEngine) (call : ℕ) (name selection : Text) (d : EventDefinition)
    (row : CanonicalObservation) (o : EventOccurrence)
    → event_named name e.events ≡ ok (some d)
    → observation_at call d.id e.observations ≡ ok (some row)
    → governed e (some row) ≡ some o
    → resolve_event_occurrence e call name selection ≡ ok (some o)
unfolding resolve_event_occurrence
resolve_event_occurrence-governed e call name selection d row o named at found = ground arith

-- After an approved correction with a new id, and any later run of the selector on any call, a metric
-- reads the corrected time: the event of the correction resolves, for its vessel call, to the new
-- observation, whatever the order that a definition selects by and whether or not quarantined
-- observations are excluded.
pub create_correction-resolved :
    (s s' : Selector) (issues issues' : List QualityIssue) (name_of name_of' : ℕ → Text)
    (r : Request) (db db' : JourneyStore) (now call : ℕ) (os : List EventOccurrence)
    (results rows : List CanonicalObservation) (e : AnalyticsEngine) (name selection : Text)
    (d : EventDefinition)
    → IsUnique db.observations
    → is_approved r ≡ true
    → by_id r.new_occurrence_id db.occurrences ≡ none
    → create_correction s issues name_of r db ≡ ok db'
    → resolve_vessel_call s' issues' name_of' now call os db'.observations ≡ ok (results, rows)
    → e.occurrences ≡ db'.occurrences
    → e.observations ≡ rows
    → event_named name e.events ≡ ok (some d)
    → d.id ≡ r.event_definition_id
    → (o : EventOccurrence) × (resolve_event_occurrence e r.vessel_call_id name selection
        ≡ ok (some o))
      × (o.id ≡ r.new_occurrence_id)
      × (o.utc_value ≡ r.new_utc_value)
create_correction-resolved s s' issues issues' name_of name_of' r db db' now call os results rows e
      name selection d unique approved free done run stored read named event =
    let prior = occurrence_by_id r.prior_event_occurrence_id db.occurrences in
    let o = corrected_occurrence r prior in
    let (is_new, time, live, clean) = corrected_occurrence-new r prior in
    let canonical =
      (create_correction-IsGoverned s issues name_of r db db' unique approved done).1 s' issues'
        name_of' now call os results rows run in
    let (row, at, chosen) =
      get_canonical_occurrence_id-row r.vessel_call_id r.event_definition_id r.new_occurrence_id
        rows canonical in
    let found : by_id r.new_occurrence_id e.occurrences ≡ some o =
      ap (by_id r.new_occurrence_id)
        (stored ∙ create_correction-occurrences s issues name_of r db db' done)
      ∙ stored_occurrences-new r db.occurrences prior free refl in
    let here : observation_at r.vessel_call_id d.id e.observations ≡ ok (some row) =
      ap₂ (λ i t. observation_at r.vessel_call_id i t) event read ∙ at in
    (
      o,
      resolve_event_occurrence-governed e r.vessel_call_id name selection d row o named here
          (governed-live e row r.new_occurrence_id o chosen found live clean),
      is_new,
      time,
    )
