-- ===== src/Analytics/Metric/Resolution/Governing.antt =====
-- Which observation an event of a vessel call resolves to.
use marine_time_motion_platf.Prelude.{
  ◌<◌, ◌≢◌, ◌↔◌, ℕ, ◌≡◌, refl, sym, subst, ap, ◌∙◌, ◌⊎◌, inl, inr, true, false, ◌&&◌, List, [], ◌∷◌,
  filter, find, ◌==◌, Option, none, some, Bool-cases, Option-cases, arith, ==_iff,
}
use marine_time_motion_platf.Prelude.Members.{In, find-In, In-filter, filter-In}
use marine_time_motion_platf.Prelude.Text.{Text, text, ◌=ᵗ◌, =ᵗ_iff}
use marine_time_motion_platf.Journey.Occurrence.{
  EventOccurrence, CanonicalObservation, ok, observation_at,
}
use marine_time_motion_platf.Journey.Selector.Slots.{Result-cases}
use marine_time_motion_platf.Journey.Selector.Decisions.{ok-injective}
use marine_time_motion_platf.Analytics.Metric.{
  EventDefinition, AnalyticsEngine, is_candidate, before, first_by, governed,
}
use marine_time_motion_platf.Analytics.Metric.Resolution.{
  event_named, queried, resolve_event_occurrence,
}

-- The order of the query.
before_negatively_transitive :
    (selection : Text) (a b c : EventOccurrence)
    → before selection a b ≡ false
    → before selection b c ≡ false
    → before selection a c ≡ false
before_negatively_transitive selection a b c h g = elim (Bool-cases (selection =ᵗ text "last")) [
  | inl last ↦ ground arith
  | inr first ↦ ground arith
]

before_irreflexive : (selection : Text) (a : EventOccurrence) → before selection a a ≡ false
before_irreflexive selection a = ground arith

before_asymmetric :
    (selection : Text) (a b : EventOccurrence)
    → before selection a b ≡ true
    → before selection b a ≡ false
before_asymmetric selection a b h = elim (Bool-cases (selection =ᵗ text "last")) [
  | inl last ↦ ground arith
  | inr first ↦ ground arith
]

-- Earlier by the index, and by the time where the indices are the same.
abbrev pub IsEarlier : EventOccurrence → EventOccurrence → Type 0
IsEarlier o p =
    (o.occurrence_index < p.occurrence_index)
    ⊎ ((o.occurrence_index ≡ p.occurrence_index) × (o.utc_value < p.utc_value))

-- An observation that the query of a slot finds.
abbrev pub IsCandidate : AnalyticsEngine → ℕ → ℕ → EventOccurrence → Type 0
IsCandidate e call event o =
    (o.vessel_call_id ≡ call)
    × (o.event_definition_id ≡ event)
    × (o.is_superseded ≡ false)
    × ((e.exclude_quarantined ≡ false) ⊎ (o.is_quarantined ≡ false))

-- What comes first among the candidates: for "last" none of them is later, else none is earlier.
abbrev pub IsSelected : AnalyticsEngine → ℕ → ℕ → (selection : Text) → EventOccurrence → Type 0
IsSelected e call event selection o =
    IsCandidate e call event o
    × ((p : EventOccurrence)
        → In p e.occurrences
        → IsCandidate e call event p
        → ((selection ≡ text "last") × ¬ IsEarlier o p)
          ⊎ ((selection ≢ text "last") × ¬ IsEarlier p o))

is_candidate_iff :
    (e : AnalyticsEngine) (call event : ℕ) (o : EventOccurrence)
    → (is_candidate e call event o ≡ true) ↔ IsCandidate e call event o
unfolding is_candidate
is_candidate_iff e call event o = ground arith

before-false :
    (selection : Text) (o p : EventOccurrence)
    → before selection p o ≡ false
    → ((selection ≡ text "last") × ¬ IsEarlier o p) ⊎ ((selection ≢ text "last") × ¬ IsEarlier p o)
before-false selection o p h = elim (Bool-cases (selection =ᵗ text "last")) [
  | inl last ↦ inl ((=ᵗ_iff selection (text "last")).0 last, ground arith)
  | inr first ↦
      inr (λ same. absurd (ground (arith, (=ᵗ_iff selection (text "last")).1 same)), ground arith)
]

-- The first of a list stands in it, and none of the list comes before it.
abbrev pub IsFirst : (selection : Text) → EventOccurrence → List EventOccurrence → Type 0
IsFirst selection o os = In o os × ((p : EventOccurrence) → In p os → before selection p o ≡ false)

first_by-none :
    (selection : Text) (os : List EventOccurrence) → first_by (before selection) os ≡ none → os ≡ []
unfolding first_by
first_by-none selection [] h = refl
first_by-none selection (o ∷ os) h = elim (Option-cases (first_by (before selection) os)) [
  | inl none_there ↦ absurd (ground arith)
  | inr (p, found) ↦ absurd (ground arith)
]

IsFirst-alone :
    (selection : Text) (x : EventOccurrence) (os : List EventOccurrence)
    → os ≡ []
    → IsFirst selection x (x ∷ os)
IsFirst-alone selection x os empty = (
  inl refl,
  λ q i. elim i [
    | inl is ↦ subst (λ r. before selection r x ≡ false) (sym is) (before_irreflexive selection x)
    | inr j ↦ absurd (subst (In q) empty j)
  ],
)

IsFirst-later :
    (selection : Text) (x p : EventOccurrence) (os : List EventOccurrence)
    → before selection x p ≡ false
    → In p os
    → ((q : EventOccurrence) → In q os → before selection q p ≡ false)
    → IsFirst selection p (x ∷ os)
IsFirst-later selection x p os h i least = (
  inr i,
  λ q j. elim j [
    | inl is ↦ subst (λ r. before selection r p ≡ false) (sym is) h
    | inr k ↦ least q k
  ],
)

IsFirst-here :
    (selection : Text) (x p : EventOccurrence) (os : List EventOccurrence)
    → before selection p x ≡ false
    → ((q : EventOccurrence) → In q os → before selection q p ≡ false)
    → IsFirst selection x (x ∷ os)
IsFirst-here selection x p os h least = (
  inl refl,
  λ q j. elim j [
    | inl is ↦ subst (λ r. before selection r x ≡ false) (sym is) (before_irreflexive selection x)
    | inr k ↦ before_negatively_transitive selection q p x (least q k) h
  ],
)

first_by-IsFirst :
    (selection : Text) (os : List EventOccurrence) (o : EventOccurrence)
    → first_by (before selection) os ≡ some o
    → IsFirst selection o os
unfolding first_by
first_by-IsFirst selection [] o h = absurd (ground arith)
first_by-IsFirst selection (x ∷ os) o h = elim (Option-cases (first_by (before selection) os)) [
  | inl empty ↦
      let is : x ≡ o = ground arith in
      subst (λ q. IsFirst selection q (x ∷ os)) is
        (IsFirst-alone selection x os (first_by-none selection os empty))
  | inr (p, found) ↦
      let (i, least) = first_by-IsFirst selection os p found in
      elim (Bool-cases (before selection p x)) [
        | inl less ↦
            let is : p ≡ o = ground arith in
            subst (λ q. IsFirst selection q (x ∷ os)) is
              (IsFirst-later selection x p os (before_asymmetric selection p x less) i least)
        | inr more ↦
            let is : x ≡ o = ground arith in
            subst (λ q. IsFirst selection q (x ∷ os)) is (IsFirst-here selection x p os more least)
      ]
]

-- An observation that a metric may be computed from.
abbrev pub IsUsable : AnalyticsEngine → EventOccurrence → Type 0
IsUsable e o = (o.is_superseded ≡ false) × ((e.exclude_quarantined && o.is_quarantined) ≡ false)

is_candidate-IsUsable :
    (e : AnalyticsEngine) (call event : ℕ) (o : EventOccurrence)
    → is_candidate e call event o ≡ true
    → IsUsable e o
unfolding is_candidate
is_candidate-IsUsable e call event o h = (ground arith, ground arith)

governed-IsUsable :
    (e : AnalyticsEngine) (row : Option CanonicalObservation) (o : EventOccurrence)
    → governed e row ≡ some o
    → In o e.occurrences
      × IsUsable e o
      × (w : CanonicalObservation) × (row ≡ some w)
      × (w.selected_event_occurrence_id ≡ some o.id)
unfolding governed
governed-IsUsable e none o h = absurd (ground arith)
governed-IsUsable e (some w) o h = elim (Option-cases w.selected_event_occurrence_id) [
  | inl free ↦ absurd (ground arith)
  | inr (i, chosen) ↦ elim (Option-cases (find (λ p. p.id == i) e.occurrences)) [
    | inl missing ↦ absurd (ground arith)
    | inr (p, found) ↦
        let is : p ≡ o = ground arith in
        let (j, same) = find-In (λ q. q.id == i) e.occurrences p found in
        let usable : IsUsable e p = (ground arith, ground arith) in
        let names : some i ≡ some o.id =
          ap some (sym ((==_iff p.id i).0 same)) ∙ ap (λ q. some q.id) is in
        (
          subst (λ q. In q e.occurrences) is j,
          subst (IsUsable e) is usable,
          w,
          refl,
          chosen ∙ names,
        )
  ]
]

-- No decision on the slot selects a usable observation.
abbrev pub IsUndecided : AnalyticsEngine → ℕ → ℕ → Type 0
IsUndecided e call event =
    (row : CanonicalObservation)
    → observation_at call event e.observations ≡ ok (some row)
    → (row.selected_event_occurrence_id ≡ none)
      ⊎ ((i : ℕ) × (row.selected_event_occurrence_id ≡ some i)
          × ((find (λ o. o.id == i) e.occurrences ≡ none)
              ⊎ ((p : EventOccurrence) × (find (λ o. o.id == i) e.occurrences ≡ some p)
                  × ¬ IsUsable e p)))

governed-none :
    (e : AnalyticsEngine) (row : CanonicalObservation)
    → governed e (some row) ≡ none
    → (row.selected_event_occurrence_id ≡ none)
      ⊎ ((i : ℕ) × (row.selected_event_occurrence_id ≡ some i)
          × ((find (λ o. o.id == i) e.occurrences ≡ none)
              ⊎ ((p : EventOccurrence) × (find (λ o. o.id == i) e.occurrences ≡ some p)
                  × ¬ IsUsable e p)))
unfolding governed
governed-none e row h = elim (Option-cases row.selected_event_occurrence_id) [
  | inl free ↦ inl free
  | inr (i, chosen) ↦ elim (Option-cases (find (λ o. o.id == i) e.occurrences)) [
    | inl missing ↦ inr (i, chosen, inl missing)
    | inr (p, found) ↦ inr (i, chosen, inr (p, found, λ (live, clean). absurd (ground arith)))
  ]
]

governed-IsUndecided :
    (e : AnalyticsEngine) (call event : ℕ) (row : Option CanonicalObservation)
    → observation_at call event e.observations ≡ ok row
    → governed e row ≡ none
    → IsUndecided e call event
governed-IsUndecided e call event row at free w there =
    let same : row ≡ some w = ok-injective (sym at ∙ there) in
    governed-none e w (sym (ap (governed e) same) ∙ free)

-- What an event of a vessel call resolves to.
abbrev pub Resolves :
    AnalyticsEngine → ℕ → (name selection : Text) → Option EventOccurrence → Type 0
Resolves e call name selection none =
    (event_named name e.events ≡ ok none)
    ⊎ ((d : EventDefinition) × (event_named name e.events ≡ ok (some d))
        × IsUndecided e call d.id
        × ((o : EventOccurrence) → In o e.occurrences → ¬ IsCandidate e call d.id o))
Resolves e call name selection (some o) =
    (d : EventDefinition) × (event_named name e.events ≡ ok (some d))
    × In o e.occurrences
    × IsUsable e o
    × (((row : CanonicalObservation) × (observation_at call d.id e.observations ≡ ok (some row))
          × (row.selected_event_occurrence_id ≡ some o.id))
        ⊎ (IsUndecided e call d.id × IsSelected e call d.id selection o))

queried-Resolves :
    (e : AnalyticsEngine) (call : ℕ) (name selection : Text) (d : EventDefinition)
    (r : Option EventOccurrence)
    → event_named name e.events ≡ ok (some d)
    → IsUndecided e call d.id
    → queried e call d.id selection ≡ r
    → Resolves e call name selection r
unfolding queried
queried-Resolves e call name selection d none named open_slot h = inr (
  d,
  named,
  open_slot,
  λ o i it.
      let empty = first_by-none selection (filter (is_candidate e call d.id) e.occurrences) h in
      let there = (is_candidate_iff e call d.id o).1 it in
      absurd (subst (In o) empty (filter-In (is_candidate e call d.id) e.occurrences o i there)),
)
queried-Resolves e call name selection d (some o) named open_slot h =
    let (j, least) =
      first_by-IsFirst selection (filter (is_candidate e call d.id) e.occurrences) o h in
    let (i, it) = In-filter (is_candidate e call d.id) e.occurrences o j in
    let selected : IsSelected e call d.id selection o = (
      (is_candidate_iff e call d.id o).0 it,
      λ p k there. before-false selection o p (
          least p (
            filter-In (is_candidate e call d.id) e.occurrences p k
              ((is_candidate_iff e call d.id p).1 there))),
    ) in
    (d, named, i, is_candidate-IsUsable e call d.id o it, inr (open_slot, selected))

-- The observation that an event of a vessel call resolves to is stored, is not superseded and is not
-- quarantined where the engine excludes those. It is the one that the journey's decision on the call and
-- the event selects; or, where no decision selects a usable one, an observation of this call and event
-- than which, by index and then time, no usable one of them is earlier (for "last", later). Without an
-- observation, the event is unknown, or no decision selects a usable one and the call has none of it.
pub resolve_event_occurrence-Resolves :
    (e : AnalyticsEngine) (call : ℕ) (name selection : Text) (r : Option EventOccurrence)
    → resolve_event_occurrence e call name selection ≡ ok r
    → Resolves e call name selection r
unfolding resolve_event_occurrence
resolve_event_occurrence-Resolves e call name selection r done =
    elim (Result-cases (event_named name e.events)) [
      | inl (x, h) ↦ absurd (ground arith)
      | inr (none, named) ↦
          let is : none ≡ r = ground arith in subst (Resolves e call name selection) is (inl named)
      | inr (some d, named) ↦ elim (Result-cases (observation_at call d.id e.observations)) [
        | inl (x, h) ↦ absurd (ground arith)
        | inr (row, at) ↦ elim (Option-cases (governed e row)) [
          | inl free ↦
              queried-Resolves e call name selection d r named
                (governed-IsUndecided e call d.id row at free) (ground arith)
          | inr (o, found) ↦
              let is : some o ≡ r = ground arith in
              let (i, usable, w, same, chosen) = governed-IsUsable e row o found in
              subst (Resolves e call name selection) is
                (d, named, i, usable, inl (w, at ∙ ap ok same, chosen))
        ]
      ]
    ]
