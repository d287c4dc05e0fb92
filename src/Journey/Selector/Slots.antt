-- ===== src/Journey/Selector/Slots.antt =====
-- What a run of the selector does to the decisions of every slot.
use marine_time_motion_platf.Prelude.{
  ℕ, ◌≡◌, ◌↔◌, append_nil, refl, ap, subst, ◌∙◌, ◌⊎◌, inl, inr, Bool, true, false, ◌&&◌, List, [],
  ◌∷◌, ◌++◌, map, filter, ◌==◌, if◌then◌else◌, Bool-cases, Option, none, some, arith,
}
use marine_time_motion_platf.Journey.Occurrence.{
  CanonicalObservation, Error, Result, ok, err, in_slot, one_or_none, observation_at, update_at,
}

pub Result-cases :
    {A : Type 0} (r : Result A) → ((e : Error) × (r ≡ err e)) ⊎ ((a : A) × (r ≡ ok a))
Result-cases (ok a) = inr (a, refl)
Result-cases (err e) = inl (e, refl)

-- The rows of one slot after a row is added.
filter_snoc :
    {A : Type 0} (p : A → Bool) (xs : List A) (y : A)
    → filter p (xs ++ y ∷ []) ≡ filter p xs ++ (if p y then y ∷ [] else [])
filter_snoc p [] y = ground arith
filter_snoc p (x ∷ xs) y = ground (arith, filter_snoc p xs y)

one_or_none-none : {A : Type 0} (xs : List A) → one_or_none xs ≡ ok none → xs ≡ []
one_or_none-none [] h = refl
one_or_none-none (x ∷ []) h = ground arith
one_or_none-none (x ∷ y ∷ rest) h = ground arith

one_or_none-some : {A : Type 0} (xs : List A) (a : A) → one_or_none xs ≡ ok (some a) → xs ≡ a ∷ []
one_or_none-some [] a h = ground arith
one_or_none-some (x ∷ []) a h = ground arith
one_or_none-some (x ∷ y ∷ rest) a h = ground arith

pub in_slot_iff :
    (c e : ℕ) (o : CanonicalObservation)
    → (in_slot c e o ≡ true) ↔ ((o.vessel_call_id ≡ c) × (o.event_definition_id ≡ e))
unfolding in_slot
in_slot_iff c e o = ground arith

one_or_none_snoc :
    {A : Type 0} (xs : List A) (y : A) → xs ≡ [] → one_or_none (xs ++ y ∷ []) ≡ ok (some y)
one_or_none_snoc xs y h = rw h refl

pub observation_at-append :
    (c e : ℕ) (rows : List CanonicalObservation) (new : CanonicalObservation)
    → observation_at new.vessel_call_id new.event_definition_id rows ≡ ok none
    → observation_at c e (rows ++ new ∷ [])
      ≡ (if in_slot c e new then ok (some new) else observation_at c e rows)
unfolding observation_at
observation_at-append c e rows new free = elim (Bool-cases (in_slot c e new)) [
  | inl same ↦
      let slot = (in_slot_iff c e new).0 same in
      let empty : filter (in_slot c e) rows ≡ [] = one_or_none-none _ (
        subst (λ i. observation_at i e rows ≡ ok none) slot.0
          (subst (λ i. observation_at new.vessel_call_id i rows ≡ ok none) slot.1 free)) in
      ap one_or_none (filter_snoc (in_slot c e) rows new)
      ∙ rw same (one_or_none_snoc (filter (in_slot c e) rows) new empty)
  | inr other ↦
      ap one_or_none (filter_snoc (in_slot c e) rows new)
      ∙ rw other (ap one_or_none (append_nil (filter (in_slot c e) rows)))
]

filter_same_slot :
    (c e : ℕ) (rows : List CanonicalObservation) (f : CanonicalObservation → CanonicalObservation)
    → ((o : CanonicalObservation) → in_slot c e o ≡ true → in_slot c e (f o) ≡ true)
    → filter (in_slot c e) (update_at c e f rows) ≡ map f (filter (in_slot c e) rows)
unfolding update_at
filter_same_slot c e [] f h = refl
filter_same_slot c e (o ∷ rows) f h = ground (arith, h o, filter_same_slot c e rows f h)

filter_other_slot :
    (call event c e : ℕ) (rows : List CanonicalObservation)
    (f : CanonicalObservation → CanonicalObservation)
    → ((o : CanonicalObservation) → in_slot call event o ≡ true → in_slot call event (f o) ≡ true)
    → ((call == c) && (event == e)) ≡ false
    → filter (in_slot c e) (update_at call event f rows) ≡ filter (in_slot c e) rows
unfolding update_at
filter_other_slot call event c e [] f h other = refl
filter_other_slot call event c e (o ∷ rows) f h other = ground (
  arith,
  h o,
  filter_other_slot call event c e rows f h other,
  in_slot_iff c e o,
  in_slot_iff call event o,
  in_slot_iff c e (f o),
  in_slot_iff call event (f o),
)

pub observation_at-update :
    (call event c e : ℕ) (rows : List CanonicalObservation) (old : CanonicalObservation)
    (f : CanonicalObservation → CanonicalObservation)
    → ((o : CanonicalObservation) → in_slot call event o ≡ true → in_slot call event (f o) ≡ true)
    → observation_at call event rows ≡ ok (some old)
    → observation_at c e (update_at call event f rows)
      ≡ (if (call == c) && (event == e) then ok (some (f old)) else observation_at c e rows)
unfolding observation_at
observation_at-update call event c e rows old f h found =
    elim (Bool-cases ((call == c) && (event == e))) [
      | inl same ↦
          let call_is : call ≡ c = ground arith in
          let event_is : event ≡ e = ground arith in
          rw same (
            subst (λ i. observation_at i e (update_at call event f rows) ≡ ok (some (f old)))
              call_is
              (subst (λ i. observation_at call i (update_at call event f rows) ≡ ok (some (f old)))
                event_is
                (ap one_or_none (
                  filter_same_slot call event rows f h
                  ∙ ap (map f) (one_or_none-some _ old found)))))
      | inr other ↦ rw other (ap one_or_none (filter_other_slot call event c e rows f h other))
    ]

-- At most one decision for each vessel call and event.
abbrev pub IsUnique : List CanonicalObservation → Type 0
IsUnique rows =
    (call event : ℕ) → (o : Option CanonicalObservation) × (observation_at call event rows ≡ ok o)

pub IsUnique-written :
    (call event : ℕ) (rows rows' : List CanonicalObservation) (row : CanonicalObservation)
    → IsUnique rows
    → ((c e : ℕ)
        → observation_at c e rows'
          ≡ (if (call == c) && (event == e) then ok (some row) else observation_at c e rows))
    → IsUnique rows'
IsUnique-written call event rows rows' row unique at c e =
    elim (Bool-cases ((call == c) && (event == e))) [
      | inl same ↦ (some row, ground (arith, at c e))
      | inr other ↦ let (o, h) = unique c e in (o, ground (arith, at c e))
    ]
