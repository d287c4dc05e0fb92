-- ===== src/Analytics/Metric/Service/Joined.antt =====
-- What the joins of the query of services give.
use marine_time_motion_platf.Prelude.{
  ℕ, ◌≡◌, sym, ap, ◌∙◌, inl, inr, true, ◌&&◌, List, [], ◌∷◌, ◌==◌, arith, ==_iff,
}
use marine_time_motion_platf.Prelude.Members.{In, In-append, In-if}
use marine_time_motion_platf.Prelude.Text.{text, ◌=ᵗ◌}
use marine_time_motion_platf.Analytics.Metric.{ServiceRequest, ServiceAssignment, ServiceExecution}
use marine_time_motion_platf.Analytics.Metric.Service.{Service, executed, assigned, joined}

-- A pilotage service of a vessel call, with its assignment and its execution.
abbrev pub IsPilotage : ℕ → Service → Type 0
IsPilotage call s =
    ((s.request).vessel_call_id ≡ call)
    × (((s.request).service_type =ᵗ text "Pilotage Service") ≡ true)
    × ((s.assignment).service_request_id ≡ (s.request).id)
    × ((s.execution).service_assignment_id ≡ (s.assignment).id)

executed-joins :
    (r : ServiceRequest) (a : ServiceAssignment) (xs : List ServiceExecution) (s : Service)
    → In s (executed r a xs)
    → (s.request ≡ r) × (s.assignment ≡ a) × ((s.execution).service_assignment_id ≡ a.id)
executed-joins r a [] s i = absurd i
executed-joins r a (x ∷ xs) s i =
    elim (In-if (x.service_assignment_id == a.id) s _ (executed r a xs) i) [
      | inl (same, inl is) ↦ (
        ap (λ t. t.request) is,
        ap (λ t. t.assignment) is,
        ap (λ t. (t.execution).service_assignment_id) is
            ∙ (==_iff x.service_assignment_id a.id).0 same,
      )
      | inl (same, inr j) ↦ executed-joins r a xs s j
      | inr (differs, j) ↦ executed-joins r a xs s j
    ]

-- The keys that link the rows of a service of a request.
abbrev IsLinked : ServiceRequest → Service → Type 0
IsLinked r s =
    (s.request ≡ r)
    × ((s.assignment).service_request_id ≡ r.id)
    × ((s.execution).service_assignment_id ≡ (s.assignment).id)

executed-IsLinked :
    (r : ServiceRequest) (a : ServiceAssignment) (xs : List ServiceExecution) (s : Service)
    → (a.service_request_id == r.id) ≡ true
    → In s (executed r a xs)
    → IsLinked r s
executed-IsLinked r a xs s mine i =
    let (of_r, of_a, key) = executed-joins r a xs s i in
    (
      of_r,
      ap (λ b. b.service_request_id) of_a ∙ (==_iff a.service_request_id r.id).0 mine,
      key ∙ sym (ap (λ b. b.id) of_a),
    )

assigned-IsLinked :
    (r : ServiceRequest) (ys : List ServiceAssignment) (xs : List ServiceExecution) (s : Service)
    → In s (assigned r ys xs)
    → IsLinked r s
assigned-IsLinked r [] xs s i = absurd i
assigned-IsLinked r (a ∷ ys) xs s i =
    elim (In-if (a.service_request_id == r.id) s _ (assigned r ys xs) i) [
      | inl (mine, j) ↦ elim (In-append s (executed r a xs) (assigned r ys xs) j) [
        | inl k ↦ executed-IsLinked r a xs s mine k
        | inr k ↦ assigned-IsLinked r ys xs s k
      ]
      | inr (other, j) ↦ assigned-IsLinked r ys xs s j
    ]

pub joined-IsPilotage :
    (call : ℕ) (rs : List ServiceRequest) (ys : List ServiceAssignment) (xs : List ServiceExecution)
    (s : Service)
    → In s (joined call rs ys xs)
    → IsPilotage call s
unfolding joined
joined-IsPilotage call [] ys xs s i = absurd i
joined-IsPilotage call (r ∷ rs) ys xs s i =
    let of_call = (r.vessel_call_id == call) && (r.service_type =ᵗ text "Pilotage Service") in
    elim (In-if of_call s _ (joined call rs ys xs) i) [
      | inl (mine, j) ↦ elim (In-append s (assigned r ys xs) (joined call rs ys xs) j) [
        | inl k ↦
            let (of_r, key, key') = assigned-IsLinked r ys xs s k in
            let here : r.vessel_call_id ≡ call = ground arith in
            let pilotage : (r.service_type =ᵗ text "Pilotage Service") ≡ true = ground arith in
            (
              ap (λ q. q.vessel_call_id) of_r ∙ here,
              ap (λ q. q.service_type =ᵗ text "Pilotage Service") of_r ∙ pilotage,
              key ∙ sym (ap (λ q. q.id) of_r),
              key',
            )
        | inr k ↦ joined-IsPilotage call rs ys xs s k
      ]
      | inr (other, j) ↦ joined-IsPilotage call rs ys xs s j
    ]
