-- ===== src/Journey/Selector.antt =====
-- apps/api/services/journey/canonical_selector.py. A group of observations of one event is a list in
-- the order of the query.
pub mod Ranking
pub mod Slots
pub mod Runs
pub mod Groups
pub mod Decisions
use marine_time_motion_platf.Prelude.{
  ℕ, suc, ◌+◌, Bool, true, false, ◌&&◌, ◌||◌, not, List, [], ◌∷◌, ◌++◌, map, any, filter, find, ltb,
  ◌==◌, length, if◌then◌else◌, Option, none, some,
}
use mathlib.Core.Option.{get_or}
use marine_time_motion_platf.Prelude.Text.{Text, text, ◌=ᵗ◌}
use marine_time_motion_platf.Journey.Occurrence.{
  EventOccurrence, Method, automatic, steward_override, Comparison, Explanation, only_observation,
  verification_outranks, confidence_exceeds, source_has_priority, Reasoning, compared,
  CanonicalObservation, Error, Result, ok, err, observation_at, update_at,
}

-- `CanonicalOccurrenceSelector.__init__`: the two orders of precedence.
pub record Selector : Type 0 where
  pub verification_priority : List Text
  pub source_priority : List Text
  pub rule_version : Text

-- `xs.index(x) if x in xs else len(xs)`
unfoldable pub index_of : Option Text → List Text → ℕ
index_of x [] = 0
index_of none (y ∷ ys) = suc (index_of none ys)
index_of (some x) (y ∷ ys) = let rest = index_of (some x) ys in if x =ᵗ y then 0 else suc rest

-- The parts of the rank; confidence counts the other way.
pub record Rank : Type 0 where
  pub verification_rank : ℕ
  pub confidence : ℕ
  pub source_rank : ℕ
  pub created_rank : ℕ

unfoldable pub rank : Selector → EventOccurrence → Rank
rank s o = record {
  verification_rank = index_of o.verification_status s.verification_priority;
  confidence = get_or o.confidence 0;
  source_rank = index_of o.source_system s.source_priority;
  created_rank = o.created_at;
}

-- `a < b` on the tuples.
abbrev pub precedes : Rank → Rank → Bool
precedes a b =
    ltb a.verification_rank b.verification_rank
    || ((a.verification_rank == b.verification_rank)
        && (ltb b.confidence a.confidence
            || ((a.confidence == b.confidence)
                && (ltb a.source_rank b.source_rank
                    || ((a.source_rank == b.source_rank) && ltb a.created_rank b.created_rank)))))

-- `sorted(occs, key=self._rank)`, which keeps the order of equal ranks.
unfoldable pub insert : Selector → EventOccurrence → List EventOccurrence → List EventOccurrence
insert s o [] = o ∷ []
insert s o (p ∷ ps) =
    let rest = insert s o ps in if precedes (rank s p) (rank s o) then p ∷ rest else o ∷ p ∷ ps

unfoldable pub sorted : Selector → List EventOccurrence → List EventOccurrence
sorted s [] = []
sorted s (o ∷ os) = insert s o (sorted s os)

-- `ranked[0]`; a group is not empty.
abbrev pub first_or : EventOccurrence → List EventOccurrence → EventOccurrence
first_or o [] = o
first_or o (p ∷ ps) = p

unfoldable pub select : Selector → EventOccurrence → List EventOccurrence → EventOccurrence
select s o os = first_or o (sorted s (o ∷ os))

abbrev same_text : Option Text → Option Text → Bool
same_text none none = true
same_text none (some b) = false
same_text (some a) none = false
same_text (some a) (some b) = a =ᵗ b

unfoldable pub explain : EventOccurrence → List EventOccurrence → Explanation
explain selected all_occs = elim (filter (λ o. not (o.id == selected.id)) all_occs) [
  | [] ↦ only_observation
  | other ∷ others ↦
      if not (same_text selected.verification_status other.verification_status)
      then verification_outranks selected.verification_status other.verification_status
      else if not (get_or selected.confidence 0 == get_or other.confidence 0)
      then confidence_exceeds selected.confidence other.confidence
      else source_has_priority selected.source_system
]

-- A quality issue of a vessel call, with the occurrence that it refers to, if it refers to one.
pub record QualityIssue : Type 0 where
  pub id : ℕ
  pub vessel_call_id : ℕ
  pub occurrence_reference : Option ℕ

abbrev refers_to : List ℕ → QualityIssue → Bool
refers_to ids issue = elim issue.occurrence_reference [
  | none ↦ false
  | some i ↦ any (λ j. i == j) ids
]

unfoldable pub find_related_quality_issue : List QualityIssue → ℕ → List ℕ → Option ℕ
find_related_quality_issue issues call ids =
    elim (find (refers_to ids) (filter (λ q. q.vessel_call_id == call) issues)) [
      | none ↦ none
      | some q ↦ some q.id
    ]

-- `by_definition.setdefault(occ.event_definition_id, []).append(occ)`; a group has a first element.
pub record Group : Type 0 where
  pub event_definition_id : ℕ
  pub first : EventOccurrence
  pub others : List EventOccurrence

unfoldable pub add_to_groups : EventOccurrence → List Group → List Group
add_to_groups o [] =
    record { event_definition_id = o.event_definition_id; first = o; others = [] } ∷ []
add_to_groups o (g ∷ gs) =
    let rest = add_to_groups o gs in
    if g.event_definition_id == o.event_definition_id
    then record g { others = g.others ++ o ∷ [] } ∷ gs
    else g ∷ rest

unfoldable pub group_from : List Group → List EventOccurrence → List Group
group_from groups [] = groups
group_from groups (o ∷ os) = group_from (add_to_groups o groups) os

abbrev pub live : ℕ → EventOccurrence → Bool
live call o = (o.vessel_call_id == call) && not o.is_superseded

unfoldable pub is_repeatable : Text → Bool
is_repeatable name = (name =ᵗ text "SHIFT_PILOT_ON_BOARD") || (name =ᵗ text "SHIFT_ALL_FAST")

compare_to : EventOccurrence → EventOccurrence → Comparison
compare_to selected o = record {
  event_occurrence_id = o.id;
  source_system = o.source_system;
  verification_status = o.verification_status;
  confidence = o.confidence;
  utc_value = o.utc_value;
  selected = o.id == selected.id;
}

-- The row of an automatic decision on a group.
unfoldable pub decide : Selector → List QualityIssue → ℕ → ℕ → Group → CanonicalObservation
unfolding compare_to
decide s issues now call g =
    let occs = g.first ∷ g.others in
    let selected = select s g.first g.others in
    let ids = map (λ (o : EventOccurrence). o.id) occs in
    record {
      vessel_call_id = call;
      event_definition_id = g.event_definition_id;
      candidate_event_occurrence_ids = ids;
      selected_event_occurrence_id = some selected.id;
      conflict_detected = true;
      selection_method = automatic;
      selection_reasoning =
          some (compared (map (compare_to selected) occs) (explain selected occs));
      quality_issue_id = find_related_quality_issue issues call ids;
      decided_by = some (text "system:canonical_selector");
      decided_at = some now;
      rule_version = some s.rule_version;
    }

abbrev pub is_override : Method → Bool
is_override automatic = false
is_override steward_override = true

-- A group with more than one live observation of an event that does not repeat.
abbrev pub is_conflict : (ℕ → Text) → Group → Bool
is_conflict name_of g =
    not (is_repeatable (name_of g.event_definition_id)) && ltb 0 (length g.others)

-- The decision on one group, and the row that results.
unfoldable pub resolve_group :
    Selector
    → List QualityIssue
    → ℕ
    → ℕ
    → Group
    → List CanonicalObservation
    → Result (CanonicalObservation × List CanonicalObservation)
resolve_group s issues now call g rows = elim (observation_at call g.event_definition_id rows) [
  | err e ↦ err e
  | ok none ↦ let new = decide s issues now call g in ok (new, rows ++ new ∷ [])
  | ok (some existing) ↦
      let new = decide s issues now call g in
      if is_override existing.selection_method
      then ok (existing, rows)
      else ok (new, update_at call g.event_definition_id (λ o. new) rows)
]

unfoldable pub resolve_groups :
    Selector
    → List QualityIssue
    → (ℕ → Text)
    → ℕ
    → ℕ
    → List Group
    → List CanonicalObservation
    → Result (List CanonicalObservation × List CanonicalObservation)
resolve_groups s issues name_of now call [] rows = ok ([], rows)
resolve_groups s issues name_of now call (g ∷ gs) rows =
    if is_conflict name_of g
    then elim (resolve_group s issues now call g rows) [
      | err e ↦ err e
      | ok (row, rows') ↦ elim (resolve_groups s issues name_of now call gs rows') [
        | err e ↦ err e
        | ok (results, rows'') ↦ ok (row ∷ results, rows'')
      ]
    ]
    else resolve_groups s issues name_of now call gs rows

-- The rows created or updated, and the table.
unfoldable pub resolve_vessel_call :
    Selector
    → List QualityIssue
    → (ℕ → Text)
    → ℕ
    → ℕ
    → List EventOccurrence
    → List CanonicalObservation
    → Result (List CanonicalObservation × List CanonicalObservation)
resolve_vessel_call s issues name_of now call occurrences rows =
    resolve_groups s issues name_of now call (group_from [] (filter (live call) occurrences)) rows

unfoldable pub get_canonical_occurrence_id : ℕ → ℕ → List CanonicalObservation → Result (Option ℕ)
get_canonical_occurrence_id call event rows = elim (observation_at call event rows) [
  | err e ↦ err e
  | ok none ↦ ok none
  | ok (some o) ↦ ok o.selected_event_occurrence_id
]
