-- ===== src/Identity/Merger/Events.antt =====
-- The loop over the events of a merged call: what moves and what is deleted.
use marine_time_motion_platf.Prelude.{
  ℕ, ◌≡◌, refl, sym, ap, ap₂, ◌∙◌, Bool, true, false, ◌&&◌, not, List, [], ◌∷◌, ◌++◌, filter,
  filter-filter, All, arith, if◌then◌else◌, Bool-cases, inl, inr,
}
use mathlib.Core.List.{append_assoc, append-nil}
use marine_time_motion_platf.Identity.Store.{EventOccurrence, belongs, reassign}
use marine_time_motion_platf.Identity.Merger.{
  transfer_events, restore_children, has_duplicate, remove,
}
use marine_time_motion_platf.Identity.Merger.Children.{
  listed, HasUniqueIds, ids_of, relocate, listed_iff, listed_home, restore-relocate,
  relocate-congruence,
}

module _ (survivor : ℕ) (stored : List EventOccurrence) where
  -- An event that the survivor has too.
  abbrev pub is_duplicate : EventOccurrence → Bool
  is_duplicate e = has_duplicate survivor e.content stored

  -- The loop in closed form: the rows that are left, and the ids of those that moved.
  abbrev settled :
      List EventOccurrence → List EventOccurrence → List ℕ → List EventOccurrence × List ℕ
  settled todo events moved =
      let kept = ids_of (λ e. not (is_duplicate e)) todo in
      let dropped = ids_of is_duplicate todo in
      (
        relocate survivor (λ c. listed c.id kept) (filter (λ c. not (listed c.id dropped)) events),
        moved ++ kept,
      )

  filter_all :
      (events : List EventOccurrence)
      → events ≡ relocate survivor (λ c. false) (filter (λ c. true) events)
  filter_all [] = refl
  filter_all (c ∷ cs) = ap (λ (t : List EventOccurrence). c ∷ t) (filter_all cs)

  filter-remove :
      (i : ℕ) (dropped : List ℕ) (events : List EventOccurrence)
      → filter (λ c. not (listed c.id dropped)) (remove i events)
        ≡ filter (λ c. not (listed c.id (i ∷ dropped))) events
  filter-remove i dropped [] = refl
  filter-remove i dropped (c ∷ cs) = ground (arith, filter-remove i dropped cs)

  relocate-reassign :
      (i : ℕ) (kept dropped : List ℕ) (events : List EventOccurrence)
      → relocate survivor
          (λ c. listed c.id kept)
          (filter (λ c. not (listed c.id dropped)) (reassign survivor i events))
        ≡ relocate survivor
            (λ c. listed c.id (i ∷ kept))
            (filter (λ c. not (listed c.id dropped)) events)
  relocate-reassign i kept dropped [] = refl
  relocate-reassign i kept dropped (c ∷ cs) = ground (arith, relocate-reassign i kept dropped cs)

  transfer_events_closed :
      (todo events : List EventOccurrence) (moved : List ℕ)
      → transfer_events survivor stored todo events moved ≡ settled todo events moved
  unfolding transfer_events
  transfer_events_closed [] events moved =
      ap₂ (λ a b. (a, b)) (filter_all events) (sym (append-nil moved))
  transfer_events_closed (e ∷ todo) events moved = elim (Bool-cases (is_duplicate e)) [
    | inl duplicate ↦ rw duplicate (
        transfer_events_closed todo (remove e.id events) moved
        ∙ ap
            (λ (t : List EventOccurrence).
              (relocate survivor (λ c. listed c.id kept) t, moved ++ kept))
            (filter-remove e.id dropped events))
    | inr fresh ↦ rw fresh (
        transfer_events_closed todo (reassign survivor e.id events) (moved ++ e.id ∷ [])
        ∙ ap₂ (λ a b. (a, b)) (relocate-reassign e.id kept dropped events)
            (append_assoc moved (e.id ∷ []) kept))
  ]
    where
      kept : List ℕ
      kept = ids_of (λ c. not (is_duplicate c)) todo

      dropped : List ℕ
      dropped = ids_of is_duplicate todo

filter-congruence :
    (p q : EventOccurrence → Bool) (events : List EventOccurrence)
    → All (λ c. p c ≡ q c) events
    → filter (λ c. not (p c)) events ≡ filter (λ c. not (q c)) events
filter-congruence p q [] h = refl
filter-congruence p q (c ∷ cs) h = ground (arith, filter-congruence p q cs h.1)

All-filter :
    (P : EventOccurrence → Type 0) (q : EventOccurrence → Bool) (events : List EventOccurrence)
    → All P events
    → All P (filter q events)
All-filter P q [] h = tt
All-filter P q (c ∷ cs) h = keep (q c) (All-filter P q cs h.1)
  where
    keep : (b : Bool) → All P (filter q cs) → All P (if b then c ∷ filter q cs else filter q cs)
    keep true rest = (h.0, rest)
    keep false rest = rest

module _ (survivor merged : ℕ) (events : List EventOccurrence) where
  -- An event of the merged call that the survivor has too: the merge deletes it.
  abbrev pub is_lost : EventOccurrence → Bool
  is_lost e = belongs merged e && is_duplicate survivor events e

  -- Any other event of the merged call.
  abbrev pub is_moving : EventOccurrence → Bool
  is_moving e = belongs merged e && not (is_duplicate survivor events e)

  abbrev transferred : List EventOccurrence × List ℕ
  transferred = transfer_events survivor events (filter (belongs merged) events) events []

  transferred_closed : transferred ≡ (
    relocate survivor
        (λ c. listed c.id (ids_of is_moving events))
        (filter (λ c. not (listed c.id (ids_of is_lost events))) events),
    ids_of is_moving events,
  )
  transferred_closed =
      transfer_events_closed survivor events (filter (belongs merged) events) events []
      ∙ rw (
        filter-filter (belongs merged) (λ e. not (is_duplicate survivor events e)) events,
        filter-filter (belongs merged) (is_duplicate survivor events) events,
      )

  module _ (unique : HasUniqueIds events) where
    left_over :
        filter (λ c. not (listed c.id (ids_of is_lost events))) events
        ≡ filter (λ c. not (is_lost c)) events
    left_over = filter-congruence _ is_lost events (listed_iff is_lost events unique)

    -- The events that stay are all but the lost ones; of these the moving ones are now the
    -- survivor's, and the others are unchanged.
    pub transfer_events_lem :
        transferred.0 ≡ relocate survivor is_moving (filter (λ c. not (is_lost c)) events)
    transfer_events_lem =
        ap (λ r. r.0) transferred_closed
        ∙ rw left_over (
            relocate-congruence survivor _ is_moving (filter (λ c. not (is_lost c)) events)
              (All-filter _ _ events (listed_iff is_moving events unique)))

    moving_home :
        (rows : List EventOccurrence)
        → All (λ c. is_moving c ≡ true → c.vessel_call_id ≡ merged) rows
    moving_home [] = tt
    moving_home (c ∷ cs) = ((λ e. ground arith), moving_home cs)

    -- Restoring brings back every event but the lost ones.
    pub restore-transfer_events :
        restore_children merged transferred.1 transferred.0 ≡ filter (λ c. not (is_lost c)) events
    restore-transfer_events =
        let home =
          listed_home merged (ids_of is_moving events) is_moving events
            (listed_iff is_moving events unique) (moving_home events) in
        rw transferred_closed (
          rw left_over (
            restore-relocate survivor merged (ids_of is_moving events) _
              (All-filter _ _ events home)))
