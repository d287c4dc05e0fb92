-- ===== src/Analytics/Metric/Catalogue/Loop.antt =====
-- What the loop over the seeds returns, and what it leaves alone in the table.
use marine_time_motion_platf.Prelude.{
  ℕ, suc, ◌≡◌, ◌≢◌, refl, sym, ap, ap₂, subst, ◌∙◌, inl, inr, false, List, [], ◌∷◌, ◌++◌, map, ◌==◌,
  if◌then◌else◌, Option, none, some, Bool-cases, Option-cases, arith, ==_iff,
}
use marine_time_motion_platf.Prelude.Members.{In, map-In, append-In}
use marine_time_motion_platf.Prelude.Text.{Text}
use marine_time_motion_platf.Analytics.Metric.{LeadTimeDefinition}
use marine_time_motion_platf.Analytics.Metric.Catalogue.{
  Seed, new_definition, update_definition, write_definition, install,
}

-- What a definition has of its seed.
abbrev pub seed_of : LeadTimeDefinition → Seed
seed_of d = record {
  name = d.name;
  start_event = d.start_event;
  end_event = d.end_event;
  formula_version = d.formula_version;
  occurrence_selection = d.occurrence_selection;
  availability_status = d.availability_status;
  required_events = d.required_events;
  is_execution_delay = d.is_execution_delay;
  execution_delay_movement = d.execution_delay_movement;
}

update_definition-seed_of :
    (s : Seed) (d : LeadTimeDefinition) → d.name ≡ s.name → seed_of (update_definition s d) ≡ s
unfolding update_definition
update_definition-seed_of s d same = ap (λ n. record s { name = n }) same

new_definition-seed_of : (i : ℕ) (s : Seed) → seed_of (new_definition i s) ≡ s
unfolding new_definition
new_definition-seed_of i s = refl

-- One turn of the loop, by whether the name is there.
pub install_new :
    (existing : Text → Option LeadTimeDefinition) (next : ℕ) (s : Seed) (seeds : List Seed)
    (ds : List LeadTimeDefinition)
    → existing s.name ≡ none
    → let row = new_definition next s in
      let rest = install existing (suc next) seeds (ds ++ row ∷ []) in
      install existing next (s ∷ seeds) ds ≡ (row ∷ rest.0, rest.1)
unfolding install
install_new existing next s seeds ds missing = ground arith

pub install_known :
    (existing : Text → Option LeadTimeDefinition) (next : ℕ) (s : Seed) (seeds : List Seed)
    (ds : List LeadTimeDefinition) (d : LeadTimeDefinition)
    → existing s.name ≡ some d
    → let row = update_definition s d in
      let rest = install existing next seeds (write_definition row ds) in
      install existing next (s ∷ seeds) ds ≡ (row ∷ rest.0, rest.1)
unfolding install
install_known existing next s seeds ds d found = ground arith

pub install-seed_of :
    (existing : Text → Option LeadTimeDefinition) (next : ℕ) (seeds : List Seed)
    (ds : List LeadTimeDefinition)
    → ((name : Text) (d : LeadTimeDefinition) → existing name ≡ some d → d.name ≡ name)
    → map seed_of ((install existing next seeds ds).0) ≡ seeds
unfolding install
install-seed_of existing next [] ds h = refl
install-seed_of existing next (s ∷ seeds) ds h = elim (Option-cases (existing s.name)) [
  | inl missing ↦
      ap (λ r. map seed_of (r.0)) (install_new existing next s seeds ds missing)
      ∙ ap₂ (λ x xs. x ∷ xs) (new_definition-seed_of next s)
          (install-seed_of existing (suc next) seeds (ds ++ new_definition next s ∷ []) h)
  | inr (d, found) ↦
      let row = update_definition s d in
      ap (λ r. map seed_of (r.0)) (install_known existing next s seeds ds d found)
      ∙ ap₂ (λ x xs. x ∷ xs) (update_definition-seed_of s d (h s.name d found))
          (install-seed_of existing next seeds (write_definition row ds) h)
]

pub write_definition-In :
    (row d : LeadTimeDefinition) (ds : List LeadTimeDefinition)
    → (d.id == row.id) ≡ false
    → In d ds
    → In d (write_definition row ds)
unfolding write_definition
write_definition-In row d ds other i =
    subst (λ x. In x (write_definition row ds)) (ap (λ b. if b then row else d) other)
      (map-In (λ x. if x.id == row.id then row else x) ds d i)

pub update_definition-id : (s : Seed) (d : LeadTimeDefinition) → (update_definition s d).id ≡ d.id
unfolding update_definition
update_definition-id s d = refl

update_definition-other :
    (s : Seed) (d x : LeadTimeDefinition)
    → d.name ≢ s.name
    → x.name ≡ s.name
    → (d.id ≡ x.id → d.name ≡ x.name)
    → (d.id == (update_definition s x).id) ≡ false
update_definition-other s d x foreign named same =
    elim (Bool-cases (d.id == (update_definition s x).id)) [
      | inr other ↦ other
      | inl hit ↦
          let ids = (==_iff d.id (update_definition s x).id).0 hit ∙ update_definition-id s x in
          absurd (foreign (same ids ∙ named))
    ]

pub install-In :
    (existing : Text → Option LeadTimeDefinition) (next : ℕ) (seeds : List Seed)
    (ds : List LeadTimeDefinition) (d : LeadTimeDefinition)
    → ((name : Text) (x : LeadTimeDefinition) → existing name ≡ some x → x.name ≡ name)
    → ((name : Text) (x : LeadTimeDefinition)
        → existing name ≡ some x
        → d.id ≡ x.id
        → d.name ≡ x.name)
    → ((s : Seed) → In s seeds → d.name ≢ s.name)
    → In d ds
    → In d ((install existing next seeds ds).1)
unfolding install
install-In existing next [] ds d named same foreign i = i
install-In existing next (s ∷ seeds) ds d named same foreign i =
    elim (Option-cases (existing s.name)) [
      | inl missing ↦
          let new = new_definition next s in
          subst (λ r. In d (r.1)) (sym (install_new existing next s seeds ds missing))
            (install-In existing (suc next) seeds (ds ++ new ∷ []) d named same
              (λ t j. foreign t (inr j)) (append-In d ds (new ∷ []) i))
      | inr (x, found) ↦
          let row = update_definition s x in
          let other =
            update_definition-other s d x (foreign s (inl refl)) (named s.name x found)
              (same s.name x found) in
          subst (λ r. In d (r.1)) (sym (install_known existing next s seeds ds x found))
            (install-In existing next seeds (write_definition row ds) d named same
              (λ t j. foreign t (inr j)) (write_definition-In row d ds other i))
    ]
