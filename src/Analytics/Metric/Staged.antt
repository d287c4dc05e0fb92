-- ===== src/Analytics/Metric/Staged.antt =====
-- When the early return of a turnaround is taken: the staged row that the code looks at, and its ATA.
use marine_time_motion_platf.Prelude.{
  ◌≡◌, ◌≢◌, refl, sym, ap, subst, ◌↔◌, ◌≤◌, ◌⊎◌, inl, inr, true, false, List, [], ◌∷◌, ltb, ltb→lt,
  Bool-cases, Option-cases, Option, none, some, arith,
}
use marine_time_motion_platf.Prelude.Members.{In}
use marine_time_motion_platf.Prelude.Text.{Text, text, ◌=ᵗ◌, =ᵗ_iff, strip, non_empty_iff}
use marine_time_motion_platf.Analytics.Metric.{
  LeadTimeDefinition, VesselCall, StagedCall, AnalyticsEngine,
}
use marine_time_motion_platf.Analytics.Metric.Call.{
  same_vcn, is_staged_for, newest_staged, is_blank_ata, lacks_ata,
}

-- A staged row of the vessel call of a current batch of the tenant.
abbrev pub IsStagedFor : Text → Option Text → StagedCall → Type 0
IsStagedFor tenant vcn s = (s.vcn ≡ vcn) × (s.tenant_id ≡ tenant) × (s.is_current ≡ true)

same_vcn_iff : (a b : Option Text) → (same_vcn a b ≡ true) ↔ (a ≡ b)
unfolding same_vcn
same_vcn_iff none none = (λ h. refl, λ h. refl)
same_vcn_iff none (some b) = (λ h. absurd (ground arith), λ h. absurd (ground arith))
same_vcn_iff (some a) none = (λ h. absurd (ground arith), λ h. absurd (ground arith))
same_vcn_iff (some a) (some b) =
    (λ h. ap some ((=ᵗ_iff a b).0 h), λ h. (=ᵗ_iff a b).1 (ground arith))

is_staged_for_iff :
    (tenant : Text) (vcn : Option Text) (s : StagedCall)
    → (is_staged_for tenant vcn s ≡ true) ↔ IsStagedFor tenant vcn s
is_staged_for_iff tenant vcn s = ground (arith, same_vcn_iff s.vcn vcn, =ᵗ_iff s.tenant_id tenant)

-- A staged row of a call than which none is newer.
abbrev pub IsNewest : Text → Option Text → StagedCall → List StagedCall → Type 0
IsNewest tenant vcn s rows =
    In s rows
    × IsStagedFor tenant vcn s
    × ((t : StagedCall) → In t rows → IsStagedFor tenant vcn t → t.created_at ≤ s.created_at)

newest_staged-none :
    (tenant : Text) (vcn : Option Text) (rows : List StagedCall)
    → newest_staged tenant vcn rows ≡ none
    → (t : StagedCall) → In t rows
    → ¬ IsStagedFor tenant vcn t
unfolding newest_staged
newest_staged-none tenant vcn [] h t i = absurd i
newest_staged-none tenant vcn (s ∷ rows) h t i = elim (Bool-cases (is_staged_for tenant vcn s)) [
  | inl here ↦ absurd (ground arith)
  | inr other ↦ λ it. elim i [
    | inl is ↦
        let here = (is_staged_for_iff tenant vcn s).1 (subst (IsStagedFor tenant vcn) is it) in
        absurd (ground arith)
    | inr k ↦ absurd (newest_staged-none tenant vcn rows (ground arith) t k it)
  ]
]

newest_staged-IsNewest :
    (tenant : Text) (vcn : Option Text) (rows : List StagedCall) (s : StagedCall)
    → newest_staged tenant vcn rows ≡ some s
    → IsNewest tenant vcn s rows
unfolding newest_staged
newest_staged-IsNewest tenant vcn [] s h = absurd (ground arith)
newest_staged-IsNewest tenant vcn (x ∷ rows) s h = elim (Bool-cases (is_staged_for tenant vcn x)) [
  | inr other ↦
      let (i, here, least) = newest_staged-IsNewest tenant vcn rows s (ground arith) in
      (
        inr i,
        here,
        λ t j it. elim j [
          | inl is ↦
              let staged =
                (is_staged_for_iff tenant vcn x).1 (subst (IsStagedFor tenant vcn) is it) in
              absurd (ground arith)
          | inr k ↦ least t k it
        ],
      )
  | inl here ↦ elim (Option-cases (newest_staged tenant vcn rows)) [
    | inl alone ↦
        let same : x ≡ s = ground arith in
        let first : IsNewest tenant vcn x (x ∷ rows) = (
          inl refl,
          (is_staged_for_iff tenant vcn x).0 here,
          λ t j it. elim j [
            | inl is ↦ subst (λ u. u.created_at ≤ x.created_at) (sym is) (omega arith)
            | inr k ↦ absurd (newest_staged-none tenant vcn rows alone t k it)
          ],
        ) in
        subst (λ u. IsNewest tenant vcn u (x ∷ rows)) same first
    | inr (y, found) ↦
        let (i, it_is, least) = newest_staged-IsNewest tenant vcn rows y found in
        elim (Bool-cases (ltb x.created_at y.created_at)) [
          | inl older ↦
              let same : y ≡ s = ground arith in
              let first : IsNewest tenant vcn y (x ∷ rows) = (
                inr i,
                it_is,
                λ t j it. elim j [
                  | inl is ↦
                      subst (λ u. u.created_at ≤ y.created_at) (sym is)
                        (ground (arith, ltb→lt x.created_at y.created_at older))
                  | inr k ↦ least t k it
                ],
              ) in
              subst (λ u. IsNewest tenant vcn u (x ∷ rows)) same first
          | inr newest ↦
              let same : x ≡ s = ground arith in
              let most : y.created_at ≤ x.created_at = ground arith in
              let first : IsNewest tenant vcn x (x ∷ rows) = (
                inl refl,
                (is_staged_for_iff tenant vcn x).0 here,
                λ t j it. elim j [
                  | inl is ↦ subst (λ u. u.created_at ≤ x.created_at) (sym is) (omega arith)
                  | inr k ↦ omega (arith, least t k it, most)
                ],
              ) in
              subst (λ u. IsNewest tenant vcn u (x ∷ rows)) same first
        ]
  ]
]

-- An ATA that is missing or of spaces only.
abbrev pub IsBlank : Option Text → Type 0
IsBlank none = Unit
IsBlank (some t) = strip t ≡ []

-- A turnaround whose newest staged row has no ATA.
abbrev pub LacksAta : AnalyticsEngine → LeadTimeDefinition → VesselCall → Type 0
LacksAta e d vc =
    (d.name ≡ text "Turnaround")
    × (s : StagedCall) × IsNewest e.tenant_id vc.vcn s e.staged
    × IsBlank s.ata

-- Another definition, or a call that no staged row is for, or whose newest one has an ATA.
abbrev pub HasAta : AnalyticsEngine → LeadTimeDefinition → VesselCall → Type 0
HasAta e d vc =
    (d.name ≢ text "Turnaround")
    ⊎ (((s : StagedCall) → In s e.staged → ¬ IsStagedFor e.tenant_id vc.vcn s)
        ⊎ ((s : StagedCall) × IsNewest e.tenant_id vc.vcn s e.staged × ¬ IsBlank s.ata))

IsBlank-iff :
    (a : Option Text) (s : StagedCall) → s.ata ≡ a → (is_blank_ata (some s) ≡ true) ↔ IsBlank a
unfolding is_blank_ata
IsBlank-iff none s h = (λ x. tt, λ x. ground arith)
IsBlank-iff (some t) s h = ground (arith, non_empty_iff (strip t))

-- The staged row that is looked at, if there is one.
abbrev staged_for : AnalyticsEngine → VesselCall → Option StagedCall
staged_for e vc = newest_staged e.tenant_id vc.vcn e.staged

pub lacks_ata-true :
    (e : AnalyticsEngine) (d : LeadTimeDefinition) (vc : VesselCall)
    → lacks_ata e d vc ≡ true
    → LacksAta e d vc
unfolding lacks_ata is_blank_ata
lacks_ata-true e d vc h = elim (Option-cases (staged_for e vc)) [
  | inl none_there ↦ absurd (ground arith)
  | inr (s, found) ↦ (
    (=ᵗ_iff d.name (text "Turnaround")).0 (ground arith),
    s,
    newest_staged-IsNewest e.tenant_id vc.vcn e.staged s found,
    (IsBlank-iff s.ata s refl).0 (ground arith),
  )
]

pub lacks_ata-false :
    (e : AnalyticsEngine) (d : LeadTimeDefinition) (vc : VesselCall)
    → lacks_ata e d vc ≡ false
    → HasAta e d vc
unfolding lacks_ata
lacks_ata-false e d vc h = elim (Bool-cases (d.name =ᵗ text "Turnaround")) [
  | inr other ↦ inl (λ same. absurd (ground (arith, (=ᵗ_iff d.name (text "Turnaround")).1 same)))
  | inl turnaround ↦ elim (Option-cases (staged_for e vc)) [
    | inl none_there ↦ inr (inl (newest_staged-none e.tenant_id vc.vcn e.staged none_there))
    | inr (s, found) ↦ inr (
        inr (
          s,
          newest_staged-IsNewest e.tenant_id vc.vcn e.staged s found,
          λ blank. absurd (ground (arith, (IsBlank-iff s.ata s refl).1 blank)),
        ))
  ]
]
