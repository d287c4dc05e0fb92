-- ===== src/Identity/Merger/Children.antt =====
-- The loops over the children of a merged call in closed form, for tables with unique ids.
use marine_time_motion_platf.Prelude.{
  ℕ, ◌≡◌, refl, sym, subst, ◌≢◌, ap, ◌∙◌, Bool, true, false, List, [], ◌∷◌, map, filter, any, All,
  arith, ◌==◌, ==_iff, if◌then◌else◌, Bool-cases, inl, inr,
}
use mathlib.Core.List.{foldl}
use marine_time_motion_platf.Identity.Store.{Child, belongs, reassign}
use marine_time_motion_platf.Identity.Merger.{transfer_children, restore_children}

-- Whether an id is in a list of ids.
abbrev pub listed : ℕ → List ℕ → Bool
listed i ids = any (λ j. j == i) ids

module _ {P : Type 0} where
  -- No two rows have one id.
  abbrev pub HasUniqueIds : List (Child P) → Type 0
  HasUniqueIds [] = Unit
  HasUniqueIds (x ∷ xs) = All (λ c. c.id ≢ x.id) xs × HasUniqueIds xs

  abbrev pub ids_of : (Child P → Bool) → List (Child P) → List ℕ
  ids_of p rows = map (λ c. c.id) (filter p rows)

  -- Rows that pass a test are moved to a vessel call.
  abbrev pub relocate : ℕ → (Child P → Bool) → List (Child P) → List (Child P)
  relocate target p rows = map (λ c. if p c then record c { vessel_call_id = target } else c) rows

  reassign_loop :
      (target : ℕ) (ids : List ℕ) (rows : List (Child P))
      → foldl (λ acc i. reassign target i acc) rows ids
        ≡ relocate target (λ c. listed c.id ids) rows
  reassign_loop target [] rows = unmoved rows
    where
      unmoved : (rows : List (Child P)) → rows ≡ relocate target (λ c. false) rows
      unmoved [] = refl
      unmoved (c ∷ cs) = ap (λ (t : List (Child P)). c ∷ t) (unmoved cs)
  reassign_loop target (i ∷ ids) rows =
      reassign_loop target ids (reassign target i rows) ∙ step rows
    where
      step :
          (rows : List (Child P))
          → relocate target (λ c. listed c.id ids) (reassign target i rows)
            ≡ relocate target (λ c. listed c.id (i ∷ ids)) rows
      step [] = refl
      step (c ∷ cs) = ground (arith, step cs)

  pub not_listed :
      (i : ℕ) (p : Child P → Bool) (rows : List (Child P))
      → All (λ c. c.id ≢ i) rows
      → listed i (ids_of p rows) ≡ false
  not_listed i p [] h = refl
  not_listed i p (c ∷ cs) h = ground (arith, not_listed i p cs h.1)

  -- In a table with unique ids a row is listed exactly if it passes the test.
  pub listed_iff :
      (p : Child P → Bool) (rows : List (Child P))
      → HasUniqueIds rows
      → All (λ c. listed c.id (ids_of p rows) ≡ p c) rows
  listed_iff p [] h = tt
  listed_iff p (x ∷ xs) h = elim (Bool-cases (p x)) [
    | inl passes ↦
        subst (λ ids. All (λ c. listed c.id ids ≡ p c) (x ∷ xs)) (sym (ids_of_pass passes))
          (ground arith, later _ xs (listed_iff p xs h.1) h.0)
    | inr fails ↦
        subst (λ ids. All (λ c. listed c.id ids ≡ p c) (x ∷ xs)) (sym (ids_of_fail fails))
          (not_listed x.id p xs h.0 ∙ sym fails, listed_iff p xs h.1)
  ]
    where
      ids_of_pass : p x ≡ true → ids_of p (x ∷ xs) ≡ x.id ∷ ids_of p xs
      ids_of_pass e = rw e

      ids_of_fail : p x ≡ false → ids_of p (x ∷ xs) ≡ ids_of p xs
      ids_of_fail e = rw e

      later :
          (ids : List ℕ) (rows : List (Child P))
          → All (λ c. listed c.id ids ≡ p c) rows
          → All (λ c. c.id ≢ x.id) rows
          → All (λ c. listed c.id (x.id ∷ ids) ≡ p c) rows
      later ids [] h k = tt
      later ids (c ∷ cs) h k = (ground arith, later ids cs h.1 k.1)

  pub relocate-congruence :
      (target : ℕ) (p q : Child P → Bool) (rows : List (Child P))
      → All (λ c. p c ≡ q c) rows
      → relocate target p rows ≡ relocate target q rows
  relocate-congruence target p q [] h = refl
  relocate-congruence target p q (c ∷ cs) h = rw h.0 (
      ap (λ (t : List (Child P)). (if q c then record c { vessel_call_id = target } else c) ∷ t)
        (relocate-congruence target p q cs h.1))

  -- Every service request or delay of the merged call moves to the survivor, and no other row.
  pub transfer_children_lem :
      (survivor merged : ℕ) (rows : List (Child P))
      → HasUniqueIds rows
      → (transfer_children survivor merged rows).0 ≡ relocate survivor (belongs merged) rows
  unfolding transfer_children
  transfer_children_lem survivor merged rows h =
      reassign_loop survivor _ rows
      ∙ relocate-congruence survivor _ (belongs merged) rows (listed_iff (belongs merged) rows h)

  relocate_back :
      (survivor merged : ℕ) (q : ℕ → Bool) (rows : List (Child P))
      → relocate merged (λ c. q c.id) (relocate survivor (λ c. q c.id) rows)
        ≡ relocate merged (λ c. q c.id) rows
  relocate_back survivor merged q [] = refl
  relocate_back survivor merged q (c ∷ cs) = ground (arith, relocate_back survivor merged q cs)

  relocate_home :
      (merged : ℕ) (p : Child P → Bool) (rows : List (Child P))
      → All (λ c. p c ≡ true → c.vessel_call_id ≡ merged) rows
      → relocate merged p rows ≡ rows
  relocate_home merged p [] h = refl
  relocate_home merged p (c ∷ cs) h = ground (arith, relocate_home merged p cs h.1, h.0)

  -- Rows that are listed because they pass a test of rows of the merged call.
  pub listed_home :
      (merged : ℕ) (ids : List ℕ) (p : Child P → Bool) (rows : List (Child P))
      → All (λ c. listed c.id ids ≡ p c) rows
      → All (λ c. p c ≡ true → c.vessel_call_id ≡ merged) rows
      → All (λ c. listed c.id ids ≡ true → c.vessel_call_id ≡ merged) rows
  listed_home merged ids p [] h k = tt
  listed_home merged ids p (c ∷ cs) h k =
      ((λ e. k.0 (sym h.0 ∙ e)), listed_home merged ids p cs h.1 k.1)

  pub belongs_home :
      (merged : ℕ) (rows : List (Child P))
      → All (λ c. belongs merged c ≡ true → c.vessel_call_id ≡ merged) rows
  belongs_home merged [] = tt
  belongs_home merged (c ∷ cs) =
      ((λ e. (==_iff c.vessel_call_id merged).0 e), belongs_home merged cs)

  -- Rows that were moved by id return to the call that they all came from.
  pub restore-relocate :
      (survivor merged : ℕ) (ids : List ℕ) (rows : List (Child P))
      → All (λ c. listed c.id ids ≡ true → c.vessel_call_id ≡ merged) rows
      → restore_children merged ids (relocate survivor (λ c. listed c.id ids) rows) ≡ rows
  unfolding restore_children
  restore-relocate survivor merged ids rows home =
      reassign_loop merged ids _
      ∙ relocate_back survivor merged (λ i. listed i ids) rows
      ∙ relocate_home merged _ rows home

  -- Restoring the listed rows undoes their transfer.
  pub restore-transfer_children :
      (survivor merged : ℕ) (rows : List (Child P))
      → HasUniqueIds rows
      → let (moved, ids) = transfer_children survivor merged rows in
        restore_children merged ids moved ≡ rows
  unfolding transfer_children
  restore-transfer_children survivor merged rows h =
      let ids = ids_of (belongs merged) rows in
      let home =
        listed_home merged ids (belongs merged) rows (listed_iff (belongs merged) rows h)
          (belongs_home merged rows) in
      rw (reassign_loop survivor ids rows) (restore-relocate survivor merged ids rows home)
