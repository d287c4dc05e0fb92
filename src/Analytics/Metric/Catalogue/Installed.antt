-- ===== src/Analytics/Metric/Catalogue/Installed.antt =====
-- What the catalogue holds after its seeds are installed.
use marine_time_motion_platf.Prelude.{
  ℕ, suc, ◌≡◌, ◌≢◌, refl, sym, ap, subst, ◌∙◌, inl, inr, Bool, true, not, all, ◌&&◌, ◌<◌, List, [],
  ◌∷◌, ◌++◌, map, ◌==◌, if◌then◌else◌, Option, some, Bool-cases, Option-cases, arith, ==_iff,
}
use marine_time_motion_platf.Prelude.Members.{In, find-In, map-In, append-In}
use marine_time_motion_platf.Prelude.Text.{Text, ◌=ᵗ◌, =ᵗ_iff}
use marine_time_motion_platf.Analytics.Metric.{LeadTimeDefinition}
use marine_time_motion_platf.Analytics.Metric.Catalogue.{
  Seed, catalogue_seeds, new_definition, update_definition, definition_named, write_definition,
  install, ensure_catalogue,
}
use marine_time_motion_platf.Analytics.Metric.Catalogue.Loop.{
  seed_of, install_new, install_known, install-seed_of, write_definition-In, update_definition-id,
  install-In,
}

-- What the loop needs of the rows that were read before it, as the table and the next id go on.
record IsRead (existing : Text → Option LeadTimeDefinition) (next : ℕ)
    (ds : List LeadTimeDefinition) : Type 0 where
  named : (name : Text) (x : LeadTimeDefinition) → existing name ≡ some x → x.name ≡ name
  unique :
      (n m : Text) (x y : LeadTimeDefinition)
      → existing n ≡ some x
      → existing m ≡ some y
      → x.id ≡ y.id
      → x ≡ y
  older : (name : Text) (x : LeadTimeDefinition) → existing name ≡ some x → x.id < next
  stored :
      (name : Text) (x : LeadTimeDefinition)
      → existing name ≡ some x
      → (d : LeadTimeDefinition) × In d ds × (d.id ≡ x.id)

append-IsRead :
    (existing : Text → Option LeadTimeDefinition) (next : ℕ) (ds : List LeadTimeDefinition)
    (row : LeadTimeDefinition)
    → IsRead existing next ds
    → IsRead existing (suc next) (ds ++ row ∷ [])
append-IsRead existing next ds row h = record {
  named = h.named;
  unique = h.unique;
  older = λ name x found. omega (arith, h.older name x found);
  stored = λ name x found.
      let (d, i, same) = h.stored name x found in (d, append-In d ds (row ∷ []) i, same);
}

-- What a write makes of a row of the table has the id of that row.
write_definition-kept :
    (row d : LeadTimeDefinition) (ds : List LeadTimeDefinition)
    → In d ds
    → (x : LeadTimeDefinition) × In x (write_definition row ds) × (x.id ≡ d.id)
unfolding write_definition
write_definition-kept row d ds i = elim (Bool-cases (d.id == row.id)) [
  | inl hit ↦ (
    row,
    subst (λ x. In x (write_definition row ds)) (ap (λ b. if b then row else d) hit)
        (map-In (λ x. if x.id == row.id then row else x) ds d i),
    sym ((==_iff d.id row.id).0 hit),
  )
  | inr other ↦ (d, write_definition-In row d ds other i, refl)
]

write_definition-IsRead :
    (existing : Text → Option LeadTimeDefinition) (next : ℕ) (ds : List LeadTimeDefinition)
    (row : LeadTimeDefinition)
    → IsRead existing next ds
    → IsRead existing next (write_definition row ds)
write_definition-IsRead existing next ds row h = record {
  named = h.named;
  unique = h.unique;
  older = h.older;
  stored = λ name x found.
      let (d, i, same) = h.stored name x found in
      let (y, j, kept) = write_definition-kept row d ds i in (y, j, kept ∙ same);
}

write_definition-row :
    (row d : LeadTimeDefinition) (ds : List LeadTimeDefinition)
    → d.id ≡ row.id
    → In d ds
    → In row (write_definition row ds)
unfolding write_definition
write_definition-row row d ds same i =
    subst (λ x. In x (write_definition row ds))
      (ap (λ b. if b then row else d) ((==_iff d.id row.id).1 same))
      (map-In (λ x. if x.id == row.id then row else x) ds d i)

In-last : (d : LeadTimeDefinition) (ds : List LeadTimeDefinition) → In d (ds ++ d ∷ [])
In-last d [] = inl refl
In-last d (x ∷ ds) = inr (In-last d ds)

-- No two seeds have the same name.
abbrev HaveDistinctNames : List Seed → Type 0
HaveDistinctNames [] = Unit
HaveDistinctNames (s ∷ seeds) =
    ((t : Seed) → In t seeds → s.name ≢ t.name) × HaveDistinctNames seeds

-- The same as a test.
distinct_names : List Seed → Bool
distinct_names [] = true
distinct_names (s ∷ seeds) = all (λ t. not (s.name =ᵗ t.name)) seeds && distinct_names seeds

all-other :
    (s : Seed) (seeds : List Seed) (t : Seed)
    → all (λ t. not (s.name =ᵗ t.name)) seeds ≡ true
    → In t seeds
    → s.name ≢ t.name
all-other s [] t h i same = absurd i
all-other s (u ∷ seeds) t h (inl here) same =
    absurd (ground (arith, (=ᵗ_iff s.name u.name).1 (same ∙ ap (λ x. x.name) here)))
all-other s (u ∷ seeds) t h (inr there) same = all-other s seeds t (ground arith) there same

distinct_names-HaveDistinctNames :
    (seeds : List Seed) → distinct_names seeds ≡ true → HaveDistinctNames seeds
unfolding distinct_names
distinct_names-HaveDistinctNames [] h = tt
distinct_names-HaveDistinctNames (s ∷ seeds) h = (
  λ t i. all-other s seeds t (ground arith) i,
  distinct_names-HaveDistinctNames seeds (ground arith),
)

catalogue_seeds-HaveDistinctNames : HaveDistinctNames catalogue_seeds
unfolding catalogue_seeds distinct_names ◌=ᵗ◌
catalogue_seeds-HaveDistinctNames = distinct_names-HaveDistinctNames catalogue_seeds refl

-- Every row that the loop returns stands in the table that it leaves.
install_stored :
    (existing : Text → Option LeadTimeDefinition) (next : ℕ) (seeds : List Seed)
    (ds : List LeadTimeDefinition)
    → IsRead existing next ds
    → HaveDistinctNames seeds
    → (r : LeadTimeDefinition) → In r ((install existing next seeds ds).0)
    → In r ((install existing next seeds ds).1)
unfolding install
install_stored existing next [] ds h distinct = λ r i. absurd i
install_stored existing next (s ∷ seeds) ds h (other_names, distinct) =
    elim (Option-cases (existing s.name)) [
      | inl missing ↦
          let new = new_definition next s in
          subst (λ p. (r : LeadTimeDefinition) → In r (p.0) → In r (p.1))
            (sym (install_new existing next s seeds ds missing))
            (λ r i. elim i [
              | inl is ↦
                  subst (λ x. In x ((install existing (suc next) seeds (ds ++ new ∷ [])).1))
                    (sym is)
                    (install-In existing (suc next) seeds (ds ++ new ∷ []) new h.named
                      (λ name x found same.
                        absurd (unfold new_definition in omega (arith, h.older name x found)))
                      (λ t j. unfold new_definition in other_names t j) (In-last new ds))
              | inr j ↦
                  install_stored existing (suc next) seeds (ds ++ new ∷ [])
                    (append-IsRead existing next ds new h) distinct r j
            ])
      | inr (x, found) ↦
          let row = update_definition s x in
          let (d, held, same) = h.stored s.name x found in
          subst (λ p. (r : LeadTimeDefinition) → In r (p.0) → In r (p.1))
            (sym (install_known existing next s seeds ds x found))
            (λ r i. elim i [
              | inl is ↦
                  subst (λ y. In y ((install existing next seeds (write_definition row ds)).1))
                    (sym is)
                    (install-In existing next seeds (write_definition row ds) row h.named
                      (λ name y known ids.
                        unfold update_definition in
                        ap (λ e. e.name) (h.unique s.name name x y found known ids))
                      (λ t j e.
                        other_names t j
                          (sym (h.named s.name x found) ∙ (unfold update_definition in e)))
                      (write_definition-row row d ds (same ∙ sym (update_definition-id s x)) held))
              | inr j ↦
                  install_stored existing next seeds (write_definition row ds)
                    (write_definition-IsRead existing next ds row h) distinct r j
            ])
    ]

-- Installing the seeds in a table whose ids are distinct and all below the next one gives one definition
-- for each seed, in the order of the seeds and with all that the seed says of it, whatever a stored row
-- of its name said before; each of these definitions stands in the table afterwards; and every
-- definition of another name in the table is as it was.
pub ensure_catalogue-seed_of :
    (next : ℕ) (ds : List LeadTimeDefinition)
    → ((a b : LeadTimeDefinition) → In a ds → In b ds → a.id ≡ b.id → a ≡ b)
    → ((d : LeadTimeDefinition) → In d ds → d.id < next)
    → (map seed_of ((ensure_catalogue next ds).0) ≡ catalogue_seeds)
      × ((r : LeadTimeDefinition)
          → In r ((ensure_catalogue next ds).0)
          → In r ((ensure_catalogue next ds).1))
      × ((d : LeadTimeDefinition)
          → In d ds
          → ((s : Seed) → In s catalogue_seeds → d.name ≢ s.name)
          → In d ((ensure_catalogue next ds).1))
unfolding ensure_catalogue
ensure_catalogue-seed_of next ds distinct older =
    let known : (name : Text) (x : LeadTimeDefinition)
        → definition_named name ds ≡ some x
        → In x ds × ((x.name =ᵗ name) ≡ true) =
      λ name x found. find-In (λ d. d.name =ᵗ name) ds x found in
    let named : (name : Text) (x : LeadTimeDefinition)
        → definition_named name ds ≡ some x
        → x.name ≡ name =
      λ name x found. (=ᵗ_iff x.name name).0 (known name x found).1 in
    (
      install-seed_of (λ name. definition_named name ds) next catalogue_seeds ds named,
      install_stored (λ name. definition_named name ds) next catalogue_seeds ds
          (record {
            named = named;
            unique = λ n m x y a b ids. distinct x y ((known n x a).0) ((known m y b).0) ids;
            older = λ name x found. older x ((known name x found).0);
            stored = λ name x found. (x, (known name x found).0, refl);
          })
          catalogue_seeds-HaveDistinctNames,
      λ d i foreign.
          install-In (λ name. definition_named name ds) next catalogue_seeds ds d named
            (λ name x found is. ap (λ e. e.name) (distinct d x i ((known name x found).0) is))
            foreign i,
    )
