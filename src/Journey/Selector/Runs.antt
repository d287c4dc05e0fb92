-- ===== src/Journey/Selector/Runs.antt =====
-- Runs of the selector: they always succeed, keep decisions by stewards and those of other calls,
-- and decide every conflict.
use marine_time_motion_platf.Prelude.{
  ℕ, ◌≡◌, refl, sym, subst, inl, inr, true, false, ◌&&◌, List, [], ◌∷◌, ◌++◌, find, ◌==◌,
  if◌then◌else◌, Bool-cases, Option, none, some, arith,
}
use marine_time_motion_platf.Prelude.Text.{Text}
use marine_time_motion_platf.Journey.Occurrence.{
  CanonicalObservation, Result, ok, err, in_slot, observation_at, update_at,
}
use marine_time_motion_platf.Journey.Selector.{
  Selector, QualityIssue, Group, decide, is_override, is_conflict, resolve_group, resolve_groups,
}
use marine_time_motion_platf.Journey.Selector.Groups.{for_event, IsDistinct}
use marine_time_motion_platf.Journey.Selector.Slots.{
  IsUnique, IsUnique-written, in_slot_iff, observation_at-append, observation_at-update,
}

module _ (s : Selector) (issues : List QualityIssue) (name_of : ℕ → Text) (now call : ℕ) where
  decide_slot : (g : Group) → in_slot call g.event_definition_id (decide s issues now call g) ≡ true
  unfolding decide in_slot
  decide_slot g = ground arith

  -- The row that a group gets.
  abbrev pub row_of : Group → Option CanonicalObservation → CanonicalObservation
  row_of g none = decide s issues now call g
  row_of g (some o) = if is_override o.selection_method then o else decide s issues now call g

  -- A slot of one call is found where its call and its event are.
  at_slot :
      (g : Group) (rows : List CanonicalObservation) (r : Result (Option CanonicalObservation))
      (c e : ℕ)
      → observation_at call g.event_definition_id rows ≡ r
      → ((call == c) && (g.event_definition_id == e)) ≡ true
      → observation_at c e rows ≡ r
  at_slot g rows r c e found same =
      let call_is : call ≡ c = ground arith in
      let event_is : g.event_definition_id ≡ e = ground arith in
      subst (λ i. observation_at i e rows ≡ r) call_is
        (subst (λ i. observation_at call i rows ≡ r) event_is found)

  -- A run on a group succeeds, gives the group its row, and leaves the other slots alone.
  pub resolve_group-ok :
      (g : Group) (rows : List CanonicalObservation) (o : Option CanonicalObservation)
      → observation_at call g.event_definition_id rows ≡ ok o
      → (rows' : List CanonicalObservation) × (resolve_group s issues now call g rows
          ≡ ok (row_of g o, rows'))
        × ((c e : ℕ)
            → observation_at c e rows' ≡ (
                if (call == c) && (g.event_definition_id == e)
                then ok (some (row_of g o))
                else observation_at c e rows))
  unfolding resolve_group
  resolve_group-ok g rows none found =
      let new = decide s issues now call g in
      let slot = (in_slot_iff call g.event_definition_id new).0 (decide_slot g) in
      (
        rows ++ new ∷ [],
        ground arith,
        λ c e. ground (
          arith,
          slot,
          in_slot_iff c e new,
          observation_at-append c e rows new (
              subst (λ i. observation_at i new.event_definition_id rows ≡ ok none) (sym slot.0)
                (subst (λ i. observation_at call i rows ≡ ok none) (sym slot.1) found)),
        ),
      )
  resolve_group-ok g rows (some o) found = elim (Bool-cases (is_override o.selection_method)) [
    | inl kept ↦ (
      rows,
      ground arith,
      λ c e. elim (Bool-cases ((call == c) && (g.event_definition_id == e))) [
        | inl same ↦ ground (arith, at_slot g rows (ok (some o)) c e found same)
        | inr other ↦ ground arith
      ],
    )
    | inr free ↦
        let new = decide s issues now call g in
        (
          update_at call g.event_definition_id (λ x. new) rows,
          ground arith,
          λ c e. ground (
            arith,
            observation_at-update call g.event_definition_id c e rows o (λ x. new)
                (λ x h. decide_slot g) found,
          ),
        )
  ]

  -- What a group makes of the decision in its slot.
  abbrev pub decided :
      Group → Result (Option CanonicalObservation) → Result (Option CanonicalObservation)
  decided g (err e) = err e
  decided g (ok o) = if is_conflict name_of g then ok (some (row_of g o)) else ok o

  -- The decision in the slot of an event after a run on some groups.
  abbrev pub after :
      ℕ → Option Group → Result (Option CanonicalObservation) → Result (Option CanonicalObservation)
  after e none r = r
  after e (some g) r = decided g r

  -- The slots after a first group and then the others, which are of other events.
  calm_slot :
      (g : Group) (gs : List Group) (c e : ℕ) (r r' : Result (Option CanonicalObservation))
      → (g.event_definition_id ≡ e → find (for_event e) gs ≡ none)
      → is_conflict name_of g ≡ false
      → r' ≡ (if call == c then after e (find (for_event e) gs) r else r)
      → r' ≡ (if call == c then after e (find (for_event e) (g ∷ gs)) r else r)
  calm_slot g gs c e (ok o) r' fresh calm h = ground (arith, fresh)
  calm_slot g gs c e (err x) r' fresh calm h = ground (arith, fresh)

  conflict_slot :
      (g : Group) (gs : List Group) (c e : ℕ) (o : Option CanonicalObservation)
      (r r1 r' : Result (Option CanonicalObservation))
      → (g.event_definition_id ≡ e → find (for_event e) gs ≡ none)
      → is_conflict name_of g ≡ true
      → (((call == c) && (g.event_definition_id == e)) ≡ true → r ≡ ok o)
      → r1 ≡ (if (call == c) && (g.event_definition_id == e) then ok (some (row_of g o)) else r)
      → r' ≡ (if call == c then after e (find (for_event e) gs) r1 else r1)
      → r' ≡ (if call == c then after e (find (for_event e) (g ∷ gs)) r else r)
  conflict_slot g gs c e o r r1 r' fresh conflict found h1 h = ground (arith, fresh, found)

  find_fresh :
      (g : Group) (gs : List Group) (e : ℕ)
      → find (for_event g.event_definition_id) gs ≡ none
      → g.event_definition_id ≡ e
      → find (for_event e) gs ≡ none
  find_fresh g gs e h same = subst (λ i. find (for_event i) gs ≡ none) same h

  pub resolve_groups-ok :
      (gs : List Group) (rows : List CanonicalObservation)
      → IsUnique rows
      → IsDistinct gs
      → (results : List CanonicalObservation) × (rows' : List CanonicalObservation)
        × (resolve_groups s issues name_of now call gs rows ≡ ok (results, rows'))
        × ((c e : ℕ)
            → observation_at c e rows' ≡ (
                if call == c
                then after e (find (for_event e) gs) (observation_at c e rows)
                else observation_at c e rows))
  unfolding resolve_groups
  resolve_groups-ok [] rows unique distinct = ([], rows, refl, λ c e. ground arith)
  resolve_groups-ok (g ∷ gs) rows unique distinct = elim (Bool-cases (is_conflict name_of g)) [
    | inr calm ↦
        let (results, rows', e, at) = resolve_groups-ok gs rows unique distinct.1 in
        (
          results,
          rows',
          ground arith,
          λ c e. calm_slot g gs c e _ _ (find_fresh g gs e distinct.0) calm (at c e),
        )
    | inl conflict ↦
        let (o, found) = unique call g.event_definition_id in
        let (rows1, e1, at1) = resolve_group-ok g rows o found in
        let (results, rows', e, at) =
          resolve_groups-ok gs rows1
            (IsUnique-written call g.event_definition_id rows rows1 (row_of g o) unique at1)
            distinct.1 in
        (
          row_of g o ∷ results,
          rows',
          ground arith,
          λ c e.
              conflict_slot g gs c e o _ _ _ (find_fresh g gs e distinct.0) conflict
                (at_slot g rows (ok o) c e found) (at1 c e) (at c e),
        )
  ]
