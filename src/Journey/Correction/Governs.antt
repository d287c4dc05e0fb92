-- ===== src/Journey/Correction/Governs.antt =====
-- An approved correction governs from then on.
use marine_time_motion_platf.Prelude.{
  ℕ, ◌≡◌, refl, sym, subst, ◌∙◌, inl, true, ◌&&◌, List, [], ◌∷◌, ◌++◌, ◌==◌, if◌then◌else◌, Option,
  none, some, arith,
}
use marine_time_motion_platf.Prelude.Text.{Text}
use marine_time_motion_platf.Journey.Occurrence.{
  EventOccurrence, steward_override, CanonicalObservation, ok, in_slot, observation_at, update_at,
}
use marine_time_motion_platf.Journey.Selector.{
  Selector, QualityIssue, resolve_vessel_call, get_canonical_occurrence_id,
}
use marine_time_motion_platf.Journey.Selector.Slots.{
  IsUnique, IsUnique-written, in_slot_iff, observation_at-append, observation_at-update,
}
use marine_time_motion_platf.Journey.Selector.Decisions.{
  ok-injective, resolve_vessel_call-IsUnique, resolve_vessel_call-override,
}
use marine_time_motion_platf.Journey.Correction.{
  Request, JourneyStore, is_approved, occurrence_by_id, override_with, blank,
  record_canonical_override, id_of, stored_occurrences, approved_observations, create_correction,
}

-- The slot of a request is decided by a steward, for the new observation.
abbrev pub IsGoverned : Request → List CanonicalObservation → Type 0
IsGoverned r rows =
    (o : CanonicalObservation) × (observation_at r.vessel_call_id r.event_definition_id rows
      ≡ ok (some o))
    × (o.selection_method ≡ steward_override)
    × (o.selected_event_occurrence_id ≡ some r.new_occurrence_id)

IsGoverned-canonical :
    (r : Request) (rows : List CanonicalObservation)
    → IsGoverned r rows
    → get_canonical_occurrence_id r.vessel_call_id r.event_definition_id rows
      ≡ ok (some r.new_occurrence_id)
unfolding get_canonical_occurrence_id
IsGoverned-canonical r rows (o, found, steward, chosen) = ground arith

IsGoverned-run :
    (s : Selector) (issues : List QualityIssue) (name_of : ℕ → Text) (now call : ℕ) (r : Request)
    (os : List EventOccurrence) (rows results rows' : List CanonicalObservation)
    → IsUnique rows
    → resolve_vessel_call s issues name_of now call os rows ≡ ok (results, rows')
    → IsGoverned r rows
    → IsGoverned r rows'
IsGoverned-run s issues name_of now call r os rows results rows' unique done
      (o, found, steward, chosen) =
    (
      o,
      resolve_vessel_call-override s issues name_of now call os rows results rows' r.vessel_call_id
          r.event_definition_id o unique done found (inl steward),
      steward,
      chosen,
    )

override_with-in_slot :
    (c e : ℕ) (r : Request) (p : Option ℕ) (o : CanonicalObservation)
    → in_slot c e o ≡ true
    → in_slot c e (override_with r p o) ≡ true
unfolding override_with in_slot
override_with-in_slot c e r p o h = h

override_with-steward :
    (r : Request) (p : Option ℕ) (o : CanonicalObservation)
    → ((override_with r p o).selection_method ≡ steward_override)
      × ((override_with r p o).selected_event_occurrence_id ≡ some r.new_occurrence_id)
unfolding override_with
override_with-steward r p o = (refl, refl)

override_with-slot :
    (r : Request) (p : Option ℕ) (o : CanonicalObservation)
    → ((override_with r p o).vessel_call_id ≡ o.vessel_call_id)
      × ((override_with r p o).event_definition_id ≡ o.event_definition_id)
unfolding override_with
override_with-slot r p o = (refl, refl)

-- The row that an override makes of a slot.
abbrev overridden : Request → Option ℕ → Option CanonicalObservation → CanonicalObservation
overridden r p none = override_with r p (blank r.vessel_call_id r.event_definition_id)
overridden r p (some o) = override_with r p o

record_canonical_override-slots :
    (r : Request) (p : Option ℕ) (rows : List CanonicalObservation)
    (o : Option CanonicalObservation)
    → observation_at r.vessel_call_id r.event_definition_id rows ≡ ok o
    → (rows' : List CanonicalObservation) × (record_canonical_override r p rows ≡ ok rows')
      × ((c e : ℕ)
          → observation_at c e rows' ≡ (
              if (r.vessel_call_id == c) && (r.event_definition_id == e)
              then ok (some (overridden r p o))
              else observation_at c e rows))
unfolding record_canonical_override override_with
record_canonical_override-slots r p rows none found =
    let new = overridden r p none in
    let slot = override_with-slot r p (blank r.vessel_call_id r.event_definition_id) in
    (
      rows ++ new ∷ [],
      ground arith,
      λ c e. ground (arith, slot, in_slot_iff c e new, observation_at-append c e rows new found),
    )
record_canonical_override-slots r p rows (some o) found = (
  update_at r.vessel_call_id r.event_definition_id (override_with r p) rows,
  ground arith,
  λ c e.
      observation_at-update r.vessel_call_id r.event_definition_id c e rows o (override_with r p)
        (λ x h. override_with-in_slot r.vessel_call_id r.event_definition_id r p x h) found,
)

overridden-IsGoverned :
    (r : Request) (p : Option ℕ) (o : Option CanonicalObservation)
    → ((overridden r p o).selection_method ≡ steward_override)
      × ((overridden r p o).selected_event_occurrence_id ≡ some r.new_occurrence_id)
overridden-IsGoverned r p none =
    override_with-steward r p (blank r.vessel_call_id r.event_definition_id)
overridden-IsGoverned r p (some o) = override_with-steward r p o

approved_observations-IsGoverned :
    (s : Selector) (issues : List QualityIssue) (name_of : ℕ → Text) (r : Request)
    (prior : Option EventOccurrence) (os : List EventOccurrence) (rows : List CanonicalObservation)
    → IsUnique rows
    → (rows' : List CanonicalObservation) × (approved_observations s issues name_of r prior os rows
        ≡ ok rows')
      × IsUnique rows'
      × IsGoverned r rows'
unfolding approved_observations
approved_observations-IsGoverned s issues name_of r prior os rows unique =
    let p = id_of prior in
    let (o, found) = unique r.vessel_call_id r.event_definition_id in
    let (rows1, made, at) = record_canonical_override-slots r p rows o found in
    let unique1 =
      IsUnique-written r.vessel_call_id r.event_definition_id rows rows1 (overridden r p o) unique
        at in
    let (results, rows2, done, unique2) =
      resolve_vessel_call-IsUnique s issues name_of r.now r.vessel_call_id os rows1 unique1 in
    let governed : IsGoverned r rows1 = (
      overridden r p o,
      ground (arith, at r.vessel_call_id r.event_definition_id),
      (overridden-IsGoverned r p o).0,
      (overridden-IsGoverned r p o).1,
    ) in
    (
      rows2,
      rw (made, approved_observations) (ground (arith, done)),
      unique2,
      IsGoverned-run s issues name_of r.now r.vessel_call_id r os rows1 results rows2 unique1 done
          governed,
    )

create_correction-observations :
    (s : Selector) (issues : List QualityIssue) (name_of : ℕ → Text) (r : Request)
    (db db' : JourneyStore)
    → is_approved r ≡ true
    → create_correction s issues name_of r db ≡ ok db'
    → let prior = occurrence_by_id r.prior_event_occurrence_id db.occurrences in
      approved_observations s issues name_of r prior
        (stored_occurrences r prior db.occurrences)
        db.observations
      ≡ ok db'.observations
unfolding create_correction
create_correction-observations s issues name_of r db db' approved done = ground arith

-- An approved correction governs: from then on the event of the request is decided by the steward for
-- the new observation, also after any later run of the selector on any call, with any configuration
-- and any observations, and the table keeps at most one decision for each call and event.
pub create_correction-IsGoverned :
    (s : Selector) (issues : List QualityIssue) (name_of : ℕ → Text) (r : Request)
    (db db' : JourneyStore)
    → IsUnique db.observations
    → is_approved r ≡ true
    → create_correction s issues name_of r db ≡ ok db'
    → IsUnique db'.observations
      × ((s' : Selector) (issues' : List QualityIssue) (name_of' : ℕ → Text) (now call : ℕ)
            (os : List EventOccurrence) (results rows : List CanonicalObservation)
          → resolve_vessel_call s' issues' name_of' now call os db'.observations
            ≡ ok (results, rows)
          → get_canonical_occurrence_id r.vessel_call_id r.event_definition_id rows
            ≡ ok (some r.new_occurrence_id))
create_correction-IsGoverned s issues name_of r db db' unique approved done =
    let prior = occurrence_by_id r.prior_event_occurrence_id db.occurrences in
    let (rows, made, unique', governed) =
      approved_observations-IsGoverned s issues name_of r prior
        (stored_occurrences r prior db.occurrences) db.observations unique in
    let same : rows ≡ db'.observations =
      ok-injective
        (sym made ∙ create_correction-observations s issues name_of r db db' approved done) in
    let unique_after = subst IsUnique same unique' in
    (
      unique_after,
      λ s' issues' name_of' now call os results rows' run. IsGoverned-canonical r rows' (
          IsGoverned-run s' issues' name_of' now call r os db'.observations results rows'
            unique_after run (subst (IsGoverned r) same governed)),
    )
