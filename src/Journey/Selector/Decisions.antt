-- ===== src/Journey/Selector/Decisions.antt =====
-- What a run of the selector on a vessel call promises.
use marine_time_motion_platf.Prelude.{
  ℕ, ◌≡◌, ◌≢◌, refl, sym, ap, ap₂, subst, ◌∙◌, ◌⊎◌, inl, inr, true, false, List, [], ◌∷◌, filter,
  find, ◌==◌, if◌then◌else◌, Bool-cases, Option, none, some, arith,
}
use marine_time_motion_platf.Prelude.Text.{Text}
use marine_time_motion_platf.Journey.Occurrence.{
  EventOccurrence, Method, automatic, steward_override, CanonicalObservation, Result, ok, err,
  observation_at,
}
use marine_time_motion_platf.Journey.Selector.{
  Selector, QualityIssue, Group, decide, is_override, is_conflict, is_repeatable,
  resolve_vessel_call, live, group_from, select,
}
use marine_time_motion_platf.Journey.Selector.Groups.{
  for_event, of_event, group_from-IsDistinct, group_of_event,
}
use marine_time_motion_platf.Journey.Selector.Slots.{IsUnique}
use marine_time_motion_platf.Journey.Selector.Runs.{row_of, after, resolve_groups-ok}

pub ok-injective : {A : Type 0} {a b : A} → ok a ≡ ok b → a ≡ b
ok-injective {a = a} e = ap (λ r. elim r [ ok x ↦ x | err _ ↦ a ]) e

module _ (s : Selector) (issues : List QualityIssue) (name_of : ℕ → Text) (now call : ℕ) where
  -- The decision in a slot after a run.
  abbrev slot_after :
      List EventOccurrence
      → ℕ
      → ℕ
      → Result (Option CanonicalObservation)
      → Result (Option CanonicalObservation)
  slot_after occurrences c e r =
      if call == c
      then after s issues name_of now call e
          (find (for_event e) (group_from [] (filter (live call) occurrences))) r
      else r

  after-ok :
      (e : ℕ) (g : Option Group) (o : Option CanonicalObservation)
      → (o' : Option CanonicalObservation) × (after s issues name_of now call e g (ok o) ≡ ok o')
  after-ok e none o = (o, refl)
  after-ok e (some g) o = elim (Bool-cases (is_conflict name_of g)) [
    | inl h ↦ (some (row_of s issues name_of now call g o), rw h refl)
    | inr h ↦ (o, rw h refl)
  ]

  after-override :
      (e : ℕ) (g : Option Group) (o : CanonicalObservation)
      → o.selection_method ≡ steward_override
      → after s issues name_of now call e g (ok (some o)) ≡ ok (some o)
  after-override e none o h = refl
  after-override e (some g) o h = ground arith

  after-select :
      (g : Group) (e : ℕ) (o : Option CanonicalObservation)
      → is_conflict name_of g ≡ true
      → (d : CanonicalObservation) × (after s issues name_of now call e (some g) (ok o)
          ≡ ok (some d))
        × (((d.selection_method ≡ steward_override) × (ok o ≡ ok (some d)))
            ⊎ ((d.selection_method ≡ automatic)
                × (d.selected_event_occurrence_id ≡ some (select s g.first g.others).id)))
  unfolding decide
  after-select g e none h = (decide s issues now call g, ground arith, inr (refl, refl))
  after-select g e (some o) h = elim (Bool-cases (is_override o.selection_method)) [
    | inl kept ↦ (o, ground arith, inl (is_override_lem o.selection_method kept, refl))
    | inr free ↦ (decide s issues now call g, ground arith, inr (refl, refl))
  ]
    where
      is_override_lem : (m : Method) → is_override m ≡ true → m ≡ steward_override
      is_override_lem automatic h = ground arith
      is_override_lem steward_override h = refl

  slot_after-ok :
      (occurrences : List EventOccurrence) (c e : ℕ) (o : Option CanonicalObservation)
      → (o' : Option CanonicalObservation) × (slot_after occurrences c e (ok o) ≡ ok o')
  slot_after-ok occurrences c e o = elim (Bool-cases (call == c)) [
    | inl h ↦ rw h (after-ok e _ o)
    | inr h ↦ (o, rw h refl)
  ]

  resolve_vessel_call-slots :
      (occurrences : List EventOccurrence) (rows : List CanonicalObservation)
      → IsUnique rows
      → (results : List CanonicalObservation) × (rows' : List CanonicalObservation)
        × (resolve_vessel_call s issues name_of now call occurrences rows ≡ ok (results, rows'))
        × ((c e : ℕ)
            → observation_at c e rows' ≡ slot_after occurrences c e (observation_at c e rows))
  unfolding resolve_vessel_call
  resolve_vessel_call-slots occurrences rows unique =
      resolve_groups-ok s issues name_of now call (group_from [] (filter (live call) occurrences))
        rows unique (group_from-IsDistinct [] (filter (live call) occurrences) tt)

  slot_of_run :
      (occurrences : List EventOccurrence) (rows results rows' : List CanonicalObservation)
      → IsUnique rows
      → resolve_vessel_call s issues name_of now call occurrences rows ≡ ok (results, rows')
      → (c e : ℕ) → observation_at c e rows' ≡ slot_after occurrences c e (observation_at c e rows)
  slot_of_run occurrences rows results rows' unique done c e =
      let (results1, rows1, done1, at) = resolve_vessel_call-slots occurrences rows unique in
      let same : rows1 ≡ rows' = ap (λ p. p.1) (ok-injective (sym done1 ∙ done)) in
      subst (λ l. observation_at c e l ≡ slot_after occurrences c e (observation_at c e rows)) same
        (at c e)

  -- From a table with at most one decision for each call and event, a run succeeds, and leaves such a
  -- table.
  pub resolve_vessel_call-IsUnique :
      (occurrences : List EventOccurrence) (rows : List CanonicalObservation)
      → IsUnique rows
      → (results : List CanonicalObservation) × (rows' : List CanonicalObservation)
        × (resolve_vessel_call s issues name_of now call occurrences rows ≡ ok (results, rows'))
        × IsUnique rows'
  resolve_vessel_call-IsUnique occurrences rows unique =
      let (results, rows', done, at) = resolve_vessel_call-slots occurrences rows unique in
      (
        results,
        rows',
        done,
        λ c e.
            let (o, found) = unique c e in
            let (o', h) = slot_after-ok occurrences c e o in
            (o', at c e ∙ ap (slot_after occurrences c e) found ∙ h),
      )

  -- A run changes neither a decision by a steward nor one on another vessel call.
  pub resolve_vessel_call-override :
      (occurrences : List EventOccurrence) (rows results rows' : List CanonicalObservation)
      (c e : ℕ) (o : CanonicalObservation)
      → IsUnique rows
      → resolve_vessel_call s issues name_of now call occurrences rows ≡ ok (results, rows')
      → observation_at c e rows ≡ ok (some o)
      → (o.selection_method ≡ steward_override) ⊎ (call ≢ c)
      → observation_at c e rows' ≡ ok (some o)
  resolve_vessel_call-override occurrences rows results rows' c e o unique done found kept =
      slot_of_run occurrences rows results rows' unique done c e
      ∙ ap (slot_after occurrences c e) found
      ∙ elim (Bool-cases (call == c)) [
        | inl h ↦ ground (
          arith,
          after-override e (find (for_event e) (group_from [] (filter (live call) occurrences))) o,
        )
        | inr h ↦ rw h refl
      ]

  -- If an event that does not repeat has several live observations, then after a run it has a
  -- decision: one by a steward that was there before, or the automatic one for the best observation.
  pub resolve_vessel_call-select :
      (occurrences : List EventOccurrence) (rows results rows' : List CanonicalObservation) (e : ℕ)
      (first second : EventOccurrence) (rest : List EventOccurrence)
      → IsUnique rows
      → resolve_vessel_call s issues name_of now call occurrences rows ≡ ok (results, rows')
      → filter (of_event e) (filter (live call) occurrences) ≡ first ∷ second ∷ rest
      → is_repeatable (name_of e) ≡ false
      → (d : CanonicalObservation) × (observation_at call e rows' ≡ ok (some d))
        × (((d.selection_method ≡ steward_override) × (observation_at call e rows ≡ ok (some d)))
            ⊎ ((d.selection_method ≡ automatic)
                × (d.selected_event_occurrence_id ≡ some (select s first (second ∷ rest)).id)))
  resolve_vessel_call-select occurrences rows results rows' e first second rest unique done several
        once =
      let (g, found, event, one, others) =
        group_of_event e (filter (live call) occurrences) (second ∷ rest) first several in
      let (o, before) = unique call e in
      let conflict : is_conflict name_of g ≡ true = rw (event, once, others) (ground arith) in
      let (d, made, decision) = after-select g e o conflict in
      let at_group : slot_after occurrences call e (ok o)
          ≡ after s issues name_of now call e (some g) (ok o) =
        ground (arith, found) in
      (
        d,
        slot_of_run occurrences rows results rows' unique done call e
            ∙ ap (slot_after occurrences call e) before
            ∙ at_group
            ∙ made,
        elim decision [
          | inl (kept, same) ↦ inl (kept, before ∙ same)
          | inr (auto, chosen) ↦ inr (auto, chosen ∙ ap₂ (λ a b. some (select s a b).id) one others)
        ],
      )
