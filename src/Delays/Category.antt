-- ===== src/Delays/Category.antt =====
-- apps/api/services/delays/mapping.py: from the categories and reasons of a source to the canonical
-- categories.
pub mod Canonical
use marine_time_motion_platf.Prelude.{
  Bool, ◌&&◌, ◌||◌, not, List, [], ◌∷◌, any, find, if◌then◌else◌, Option, none, some,
}
use marine_time_motion_platf.Prelude.Text.{Text, text, ◌=ᵗ◌, non_empty, strip, lower, occurs}

unfoldable pub canonical_delay_categories : List Text
canonical_delay_categories =
    text "Pilot"
    ∷ text "Tug"
    ∷ text "Berth Non-Availability"
    ∷ text "Weather"
    ∷ text "Regulatory Clearance"
    ∷ text "Terminal Readiness"
    ∷ text "Cargo Operation"
    ∷ text "Equipment Breakdown"
    ∷ text "Crane Downtime"
    ∷ text "Mooring"
    ∷ text "Documentation"
    ∷ text "Vessel-Side"
    ∷ text "Port-Side"
    ∷ text "External/Uncontrollable"
    ∷ text "Other"
    ∷ []

-- `value or ""`
unfoldable pub or_empty : Option Text → Text
or_empty none = []
or_empty (some t) = t

-- Whether one of the words occurs in a text.
unfoldable pub mentions : Text → List Text → Bool
mentions t words = any (λ w. occurs w t) words

-- The last rule: a source category that is spelled like a canonical one.
unfoldable pub exact_match : Text → Text
exact_match src = elim (find (λ c. lower c =ᵗ src) canonical_delay_categories) [
  | none ↦ text "Other"
  | some c ↦ c
]

-- The rules in their order, on texts in lower case.
unfoldable pub categorise : Text → Text → Text
categorise src rsn =
    if mentions src (text "weather" ∷ [])
      || mentions rsn
          (text "weather" ∷ text "swells" ∷ text "wind" ∷ text "fog" ∷ text "storm" ∷ [])
    then text "Weather"
    else if mentions rsn (text "tug" ∷ [])
    then text "Tug"
    else if mentions rsn (text "pilot" ∷ [])
    then text "Pilot"
    else if mentions rsn (text "berth" ∷ text "berth unavailable" ∷ text "berth congestion" ∷ [])
    then text "Berth Non-Availability"
    else if mentions rsn (text "cargo" ∷ text "awaiting cargo" ∷ text "terminal awaiting" ∷ [])
    then text "Terminal Readiness"
    else if mentions rsn (text "crane" ∷ [])
    then text "Crane Downtime"
    else if mentions rsn (text "equipment" ∷ text "breakdown" ∷ [])
    then text "Equipment Breakdown"
    else if mentions rsn (text "mooring" ∷ text "lines" ∷ [])
    then text "Mooring"
    else if mentions rsn (text "documentation" ∷ text "customs" ∷ text "paperwork" ∷ [])
    then text "Documentation"
    else if mentions rsn (text "ship not ready" ∷ []) || mentions src (text "vessel" ∷ [])
    then text "Vessel-Side"
    else if mentions rsn
        (text "clearance" ∷ text "regulatory" ∷ text "quarantine" ∷ text "immigration" ∷ [])
    then text "Regulatory Clearance"
    else if mentions rsn (text "shift" ∷ []) || mentions src (text "marine service" ∷ [])
    then text "Port-Side"
    else exact_match src

unfoldable pub map_to_canonical_category : Option Text → Option Text → Text
unfolding or_empty categorise
map_to_canonical_category source_category reason =
    if not (non_empty (or_empty source_category)) && not (non_empty (or_empty reason))
    then text "Other"
    else categorise (lower (strip (or_empty source_category))) (lower (strip (or_empty reason)))
