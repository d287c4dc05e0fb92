-- ===== src/Delays/Inference/Proposals.antt =====
-- What an inference proposes is shown by the services.
use marine_time_motion_platf.Prelude.{
  ◌⊎◌, false, ℕ, ◌+◌, ◌-◌, ◌≤◌, ◌<◌, ◌≡◌, refl, inl, inr, true, List, [], ◌∷◌, filter, ltb, ◌==◌,
  if◌then◌else◌, Option, none, some, Option-cases, Bool-cases, arith,
}
use marine_time_motion_platf.Prelude.Members.{In}
use marine_time_motion_platf.Prelude.Text.{Text, text, ◌=ᵗ◌, lower, occurs, non_empty}
use marine_time_motion_platf.Delays.Category.{canonical_delay_categories, or_empty}
use marine_time_motion_platf.Delays.Category.Canonical.{IsCanonical, constant}
use marine_time_motion_platf.Delays.Delay.{
  Proposal, tug_late, pilot_late, berthing_late, Evidence, Delay,
}
use marine_time_motion_platf.Delays.Inference.{
  Service, tolerance, significant, Found, serves, observe, observe_service, observe_all, exceeds,
  value, propose, evidence_for,
}

-- A service of a kind, of the stage or with no movement type, that was late by so much.
pub record WasLate (stage kind : Text) (services : List Service) (late : ℕ) : Type 0 where
  pub service : Service
  pub member : In service services
  pub of_kind : occurs kind (lower (or_empty service.service_type)) ≡ true
  pub of_stage :
      (occurs stage (lower (or_empty service.movement_type)) ≡ true)
      ⊎ ((service.movement_type ≡ none) ⊎ (service.movement_type ≡ some []))
  pub scheduled : ℕ
  pub scheduled_lem : service.scheduled_time ≡ some scheduled
  pub served_lem : service.served_time ≡ some (scheduled + late)

-- Every delay that was found is that of a service.
record IsFound (stage : Text) (services : List Service) (f : Found) : Type 0 where
  pilot : (k : ℕ) → f.pilot_delay ≡ some k → WasLate stage (text "pilot") services k
  tug : (k : ℕ) → f.tug_delay ≡ some k → WasLate stage (text "tug") services k
  berthing : (k : ℕ) → f.berthing_delay ≡ some k → WasLate stage (text "berth") services k

no_words : (o : Option Text) → non_empty (or_empty o) ≡ false → (o ≡ none) ⊎ (o ≡ some [])
no_words none h = inl refl
no_words (some []) h = inr refl
no_words (some (c ∷ cs)) h = absurd (unfold or_empty in ground arith)

serves_lem :
    (stage kind : Text) (s : Service)
    → serves stage kind s ≡ true
    → (occurs kind (lower (or_empty s.service_type)) ≡ true)
      × ((occurs stage (lower (or_empty s.movement_type)) ≡ true)
          ⊎ ((s.movement_type ≡ none) ⊎ (s.movement_type ≡ some [])))
unfolding serves
serves_lem stage kind s h = elim (Bool-cases (occurs stage (lower (or_empty s.movement_type)))) [
  | inl of_it ↦ (ground arith, inl of_it)
  | inr other ↦ (ground arith, inr (no_words s.movement_type (ground arith)))
]

late_by-WasLate :
    (stage kind : Text) (services : List Service) (s : Service) (a b k : ℕ) (old : Option ℕ)
    → In s services
    → serves stage kind s ≡ true
    → s.scheduled_time ≡ some a
    → s.served_time ≡ some b
    → ((k : ℕ) → old ≡ some k → WasLate stage kind services k)
    → (if ltb tolerance (b - a) then some (b - a) else old) ≡ some k
    → WasLate stage kind services k
late_by-WasLate stage kind services s a b k old i sv ea eb h e =
    elim (Bool-cases (ltb tolerance (b - a))) [
      | inl late ↦ record {
        service = s;
        member = i;
        of_kind = (serves_lem stage kind s sv).0;
        of_stage = (serves_lem stage kind s sv).1;
        scheduled = a;
        scheduled_lem = ea;
        served_lem = ground arith;
      }
      | inr soon ↦ h k (ground arith)
    ]

observe-IsFound :
    (stage : Text) (services : List Service) (f : Found) (s : Service) (a b : ℕ)
    → In s services
    → s.scheduled_time ≡ some a
    → s.served_time ≡ some b
    → IsFound stage services f
    → IsFound stage services (observe stage f s a b)
unfolding observe
observe-IsFound stage services f s a b i ea eb h =
    elim (Bool-cases (serves stage (text "pilot") s)) [
      | inl p ↦
          rw (p, observe)
            (record {
              pilot = λ k. late_by-WasLate stage _ services s a b k f.pilot_delay i p ea eb h.pilot;
              tug = h.tug;
              berthing = h.berthing;
            })
      | inr np ↦ elim (Bool-cases (serves stage (text "tug") s)) [
        | inl p ↦
            rw (np, p, observe)
              (record {
                pilot = h.pilot;
                tug = λ k. late_by-WasLate stage _ services s a b k f.tug_delay i p ea eb h.tug;
                berthing = h.berthing;
              })
        | inr nt ↦ elim (Bool-cases (serves stage (text "berth") s)) [
          | inl p ↦
              rw (np, nt, p, observe)
                (record {
                  pilot = h.pilot;
                  tug = h.tug;
                  berthing = λ k.
                      late_by-WasLate stage _ services s a b k f.berthing_delay i p ea eb
                        h.berthing;
                })
          | inr nb ↦ rw (np, nt, nb, observe) h
        ]
      ]
    ]

observe_service-IsFound :
    (stage : Text) (services : List Service) (f : Found) (s : Service)
    → In s services
    → IsFound stage services f
    → IsFound stage services (observe_service stage f s)
unfolding observe_service
observe_service-IsFound stage services f s i h = elim (Option-cases s.scheduled_time) [
  | inl none_set ↦ rw (none_set, observe_service) h
  | inr (a, ea) ↦
      rw (ea, observe_service)
        (elim (Option-cases s.served_time) [
          | inl none_set ↦ rw none_set h
          | inr (b, eb) ↦ rw eb (observe-IsFound stage services f s a b i ea eb h)
        ])
]

observe_all-IsFound :
    (stage : Text) (all services : List Service) (f : Found)
    → ((s : Service) → In s services → In s all)
    → IsFound stage all f
    → IsFound stage all (observe_all stage f services)
unfolding observe_all
observe_all-IsFound stage all [] f sub h = h
observe_all-IsFound stage all (s ∷ services) f sub h =
    observe_all-IsFound stage all services (observe_service stage f s) (λ x i. sub x (inr i))
      (observe_service-IsFound stage all f s (sub s (inl refl)) h)

-- A proposal that quotes a delay has a service to show for it, of more than 0.1 hours.
abbrev pub IsShown : Text → List Service → Proposal → Type 0
IsShown stage services (tug_late k) = WasLate stage (text "tug") services k × (significant < k)
IsShown stage services (pilot_late k) = WasLate stage (text "pilot") services k × (significant < k)
IsShown stage services (berthing_late k) =
    WasLate stage (text "berth") services k × (significant < k)
IsShown stage services _ = Unit

pub record IsSound (stage : Text) (services : List Service) (e : Evidence) : Type 0 where
  pub canonical : IsCanonical e.proposed_category
  pub at_least : 50 ≤ e.confidence
  pub at_most : e.confidence ≤ 78
  pub shown : IsShown stage services e.proposed_cause

quoted :
    {P : ℕ → Type 0} (o : Option ℕ)
    → ((k : ℕ) → o ≡ some k → P k)
    → exceeds o ≡ true
    → P (value o) × (significant < value o)
unfolding exceeds
quoted none h e = absurd (ground arith)
quoted (some k) h e = (h k refl, ground arith)

propose-IsSound :
    (actor movement_stage : Text) (services : List Service) (f : Found)
    → IsFound (lower movement_stage) services f
    → IsSound (lower movement_stage) services (propose actor movement_stage f)
unfolding propose canonical_delay_categories ◌=ᵗ◌
propose-IsSound actor movement_stage services f h = elim (Bool-cases (exceeds f.tug_delay)) [
  | inl tug ↦
      rw (tug, propose)
        (record {
          canonical = constant (text "Tug") refl;
          at_least = omega arith;
          at_most = omega arith;
          shown = quoted f.tug_delay h.tug tug;
        })
  | inr no_tug ↦ elim (Bool-cases (exceeds f.pilot_delay)) [
    | inl pilot ↦
        rw (no_tug, pilot, propose)
          (record {
            canonical = constant (text "Pilot") refl;
            at_least = omega arith;
            at_most = omega arith;
            shown = quoted f.pilot_delay h.pilot pilot;
          })
    | inr no_pilot ↦ elim (Bool-cases (exceeds f.berthing_delay)) [
      | inl berthing ↦
          rw (no_tug, no_pilot, berthing, propose)
            (record {
              canonical = constant (text "Berth Non-Availability") refl;
              at_least = omega arith;
              at_most = omega arith;
              shown = quoted f.berthing_delay h.berthing berthing;
            })
      | inr no_berthing ↦ elim (Bool-cases (occurs (text "arrival") (lower movement_stage))) [
        | inl arrival ↦
            rw (no_tug, no_pilot, no_berthing, arrival, propose)
              (record {
                canonical = constant (text "Berth Non-Availability") refl;
                at_least = omega arith;
                at_most = omega arith;
                shown = tt;
              })
        | inr no_arrival ↦ elim (Bool-cases (occurs (text "sailing") (lower movement_stage))) [
          | inl sailing ↦
              rw (no_tug, no_pilot, no_berthing, no_arrival, sailing, propose)
                (record {
                  canonical = constant (text "Terminal Readiness") refl;
                  at_least = omega arith;
                  at_most = omega arith;
                  shown = tt;
                })
          | inr no_sailing ↦
              rw (no_tug, no_pilot, no_berthing, no_arrival, no_sailing, propose)
                (record {
                  canonical = constant (text "Port-Side") refl;
                  at_least = omega arith;
                  at_most = omega arith;
                  shown = tt;
                })
        ]
      ]
    ]
  ]
]

-- An inference is sound: its category is one of the canonical ones, its confidence lies between 0.5
-- and 0.78, and where it quotes the delay of a service, there is such a service of the vessel call,
-- of this kind and of the stage of the delay or without a movement type, that was served so long after its scheduled time, and
-- this is more than 0.1 hours.
pub evidence_for-IsSound :
    (actor : Text) (services : List Service) (d : Delay)
    → IsSound
        (lower d.movement_stage)
        (filter (λ s. s.vessel_call_id == d.vessel_call_id) services)
        (evidence_for actor services d)
unfolding evidence_for
evidence_for-IsSound actor services d =
    let own = filter (λ (s : Service). s.vessel_call_id == d.vessel_call_id) services in
    propose-IsSound actor d.movement_stage own _ (
      observe_all-IsFound (lower d.movement_stage) own own _ (λ s i. i)
        (record {
          pilot = λ k e. absurd (ground arith);
          tug = λ k e. absurd (ground arith);
          berthing = λ k e. absurd (ground arith);
        }))
