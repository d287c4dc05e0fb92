-- ===== src/Journey/Selector/Groups.antt =====
-- The groups of a vessel call: one for each event, with all its live observations in order.
use marine_time_motion_platf.Prelude.{
  ℕ, ◌≡◌, ◌≢◌, refl, sym, ap, ◌∙◌, Bool, List, [], ◌∷◌, ◌++◌, filter, find, append_nil,
  append_assoc, ◌==◌, if◌then◌else◌, Option, none, some, arith,
}
use marine_time_motion_platf.Journey.Occurrence.{EventOccurrence}
use marine_time_motion_platf.Journey.Selector.{Group, add_to_groups, group_from}

abbrev pub for_event : ℕ → Group → Bool
for_event e g = g.event_definition_id == e

abbrev pub of_event : ℕ → EventOccurrence → Bool
of_event e o = o.event_definition_id == e

abbrev members_of : Option Group → List EventOccurrence
members_of none = []
members_of (some g) = g.first ∷ g.others

abbrev pub members : ℕ → List Group → List EventOccurrence
members e groups = members_of (find (for_event e) groups)

-- No two groups are of one event.
abbrev pub IsDistinct : List Group → Type 0
IsDistinct [] = Unit
IsDistinct (g ∷ gs) = (find (for_event g.event_definition_id) gs ≡ none) × IsDistinct gs

members-add_to_groups :
    (e : ℕ) (o : EventOccurrence) (gs : List Group)
    → members e (add_to_groups o gs) ≡ members e gs ++ (if of_event e o then o ∷ [] else [])
unfolding add_to_groups
members-add_to_groups e o [] = ground arith
members-add_to_groups e o (g ∷ gs) =
    ground (arith, members-add_to_groups e o gs, append_nil g.others, append_nil (members e gs))

find-add_to_groups :
    (e : ℕ) (o : EventOccurrence) (gs : List Group)
    → find (for_event e) gs ≡ none
    → e ≢ o.event_definition_id
    → find (for_event e) (add_to_groups o gs) ≡ none
unfolding add_to_groups
find-add_to_groups e o [] h other = ground arith
find-add_to_groups e o (g ∷ gs) h other = ground (arith, find-add_to_groups e o gs)

add_to_groups-IsDistinct :
    (o : EventOccurrence) (gs : List Group) → IsDistinct gs → IsDistinct (add_to_groups o gs)
unfolding add_to_groups
add_to_groups-IsDistinct o [] h = (refl, tt)
add_to_groups-IsDistinct o (g ∷ gs) h =
    ground (arith, add_to_groups-IsDistinct o gs h.1, find-add_to_groups g.event_definition_id o gs)

pub group_from-IsDistinct :
    (gs : List Group) (os : List EventOccurrence) → IsDistinct gs → IsDistinct (group_from gs os)
unfolding group_from
group_from-IsDistinct gs [] h = h
group_from-IsDistinct gs (o ∷ os) h =
    group_from-IsDistinct (add_to_groups o gs) os (add_to_groups-IsDistinct o gs h)

pub members-group_from :
    (e : ℕ) (gs : List Group) (os : List EventOccurrence)
    → members e (group_from gs os) ≡ members e gs ++ filter (of_event e) os
unfolding group_from
members-group_from e gs [] = sym (append_nil (members e gs))
members-group_from e gs (o ∷ os) =
    members-group_from e (add_to_groups o gs) os
    ∙ ap (λ l. l ++ filter (of_event e) os) (members-add_to_groups e o gs)
    ∙ append_assoc (members e gs) (if of_event e o then o ∷ [] else []) (filter (of_event e) os)
    ∙ ap (λ l. members e gs ++ l) (cons_filter e o os)
  where
    cons_filter :
        (e : ℕ) (o : EventOccurrence) (os : List EventOccurrence)
        → (if of_event e o then o ∷ [] else []) ++ filter (of_event e) os
          ≡ filter (of_event e) (o ∷ os)
    cons_filter e o os = ground arith

members_of-some :
    (o : Option Group) (first : EventOccurrence) (others : List EventOccurrence)
    → members_of o ≡ first ∷ others
    → (g : Group) × (o ≡ some g) × (g.first ≡ first) × (g.others ≡ others)
members_of-some none first others h = ground arith
members_of-some (some g) first others h = (g, refl, ground arith, ground arith)

find-for_event :
    (e : ℕ) (gs : List Group) (g : Group)
    → find (for_event e) gs ≡ some g
    → g.event_definition_id ≡ e
find-for_event e [] g h = ground arith
find-for_event e (x ∷ gs) g h = ground (arith, find-for_event e gs g)

-- The group of an event with observations is made of these.
pub group_of_event :
    (e : ℕ) (os others : List EventOccurrence) (first : EventOccurrence)
    → filter (of_event e) os ≡ first ∷ others
    → (g : Group) × (find (for_event e) (group_from [] os) ≡ some g)
      × (g.event_definition_id ≡ e)
      × (g.first ≡ first)
      × (g.others ≡ others)
group_of_event e os others first h =
    let (g, found, one, rest) = members_of-some _ first others (members-group_from e [] os ∙ h) in
    (g, found, find-for_event e (group_from [] os) g found, one, rest)
