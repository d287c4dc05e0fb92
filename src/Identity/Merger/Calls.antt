-- ===== src/Identity/Merger/Calls.antt =====
-- The rows of vessel calls under a merge and under its reversal.
use marine_time_motion_platf.Prelude.{
  ℕ, ◌≡◌, refl, sym, ap, ap₂, subst, ◌≢◌, ◌∙◌, true, false, List, [], ◌∷◌, map, All, arith, ◌==◌,
  ==_iff, some, Bool-cases, inl, inr,
}
use native.Mathlib.Decide.{ℕ_discrete}
use marine_time_motion_platf.Identity.Record.{
  Column, Value, null, num, bool, VesselCall, set_column, is_merged, merged_into_id,
}
use marine_time_motion_platf.Identity.Store.{call_by_id, update_call}
use marine_time_motion_platf.Identity.Merger.{
  apply_entries, merged_calls, mark_merged, unmark_merged, apply_serialized,
}
use marine_time_motion_platf.Identity.Merger.Writes.{
  set_column_same, apply_entries-id, mark_merged-twin, at_row, at_row_hit, at_row_miss, AreTwins,
  apply_serialized-twin, at_row-twin,
}

module _ (survivor merged : VesselCall) (entries : List (Column × Value)) where
  -- The writes of a merge to one row, and those of its reversal.
  abbrev forth : VesselCall → VesselCall
  forth x =
      at_row merged.id (mark_merged survivor.id) (at_row survivor.id (apply_entries entries) x)

  abbrev back : VesselCall → VesselCall
  back y = at_row merged.id unmark_merged (
      at_row merged.id (apply_serialized merged.get)
        (at_row survivor.id (apply_serialized survivor.get) y))

  forth-twin : (x : VesselCall) → AreTwins (forth x) x
  forth-twin x =
      let (p, q) = at_row-twin survivor.id (apply_entries entries) x (apply_entries-id entries x) in
      let y = at_row survivor.id (apply_entries entries) x in
      let (p', q') =
        at_row-twin merged.id (mark_merged survivor.id) y (mark_merged-twin survivor.id y) in
      (p' ∙ p, q' ∙ q)

  back-merged :
      (y : VesselCall)
      → AreTwins y merged
      → merged.get is_merged ≡ bool false
      → merged.get merged_into_id ≡ null
      → back y ≡ merged
  back-merged y (p, q) flag into =
      let z = at_row survivor.id (apply_serialized survivor.get) y in
      let (p', q') = at_row-twin survivor.id (apply_serialized survivor.get) y (refl, refl) in
      ap (at_row merged.id unmark_merged) (
        at_row_hit merged.id (apply_serialized merged.get) z (p' ∙ p)
        ∙ apply_serialized-twin z merged (p' ∙ p, q' ∙ q))
      ∙ at_row_hit merged.id unmark_merged merged refl
      ∙ ap (set_column merged_into_id null) (set_column_same is_merged (bool false) merged flag)
      ∙ set_column_same merged_into_id null merged into

  back-survivor :
      (y : VesselCall) → AreTwins y survivor → survivor.id ≢ merged.id → back y ≡ survivor
  back-survivor y (p, q) ne =
      ap (λ v. at_row merged.id unmark_merged (at_row merged.id (apply_serialized merged.get) v))
        (at_row_hit survivor.id (apply_serialized survivor.get) y p
          ∙ apply_serialized-twin y survivor (p, q))
      ∙ ap (at_row merged.id unmark_merged)
          (at_row_miss merged.id (apply_serialized merged.get) survivor ne)
      ∙ at_row_miss merged.id unmark_merged survivor ne

  forth_other : (x : VesselCall) → x.id ≢ survivor.id → x.id ≢ merged.id → forth x ≡ x
  forth_other x ns nm =
      ap (at_row merged.id (mark_merged survivor.id))
        (at_row_miss survivor.id (apply_entries entries) x ns)
      ∙ at_row_miss merged.id (mark_merged survivor.id) x nm

  back_other : (x : VesselCall) → x.id ≢ survivor.id → x.id ≢ merged.id → back x ≡ x
  back_other x ns nm =
      ap (λ v. at_row merged.id unmark_merged (at_row merged.id (apply_serialized merged.get) v))
        (at_row_miss survivor.id (apply_serialized survivor.get) x ns)
      ∙ ap (at_row merged.id unmark_merged)
          (at_row_miss merged.id (apply_serialized merged.get) x nm)
      ∙ at_row_miss merged.id unmark_merged x nm

  there_and_back :
      (x : VesselCall)
      → (x.id ≡ survivor.id → x ≡ survivor)
      → (x.id ≡ merged.id → x ≡ merged)
      → merged.get is_merged ≡ bool false
      → merged.get merged_into_id ≡ null
      → back (forth x) ≡ x
  there_and_back x h k flag into = elim (ℕ_discrete x.id merged.id) [
    | yes is_m ↦ to_merged (k is_m)
    | no not_m ↦ elim (ℕ_discrete x.id survivor.id) [
      | yes is_s ↦ to_survivor (h is_s) not_m
      | no not_s ↦ ap back (forth_other x not_s not_m) ∙ back_other x not_s not_m
    ]
  ]
    where
      to_merged : x ≡ merged → back (forth x) ≡ x
      to_merged e =
          back-merged (forth x) (subst (AreTwins (forth x)) e (forth-twin x)) flag into ∙ sym e

      to_survivor : x ≡ survivor → x.id ≢ merged.id → back (forth x) ≡ x
      to_survivor e ne =
          back-survivor (forth x) (subst (AreTwins (forth x)) e (forth-twin x))
            (subst (λ v. v.id ≢ merged.id) e ne)
          ∙ sym e

  merged_calls-map :
      (calls : List VesselCall) → merged_calls survivor merged entries calls ≡ map forth calls
  unfolding at_row
  merged_calls-map [] = refl
  merged_calls-map (x ∷ xs) = ap (λ (t : List VesselCall). forth x ∷ t) (merged_calls-map xs)

  -- The reversal of a merge restores the table of calls.
  pub restore-merged_calls :
      (calls : List VesselCall)
      → All (λ x. x.id ≡ survivor.id → x ≡ survivor) calls
      → All (λ x. x.id ≡ merged.id → x ≡ merged) calls
      → merged.get is_merged ≡ bool false
      → merged.get merged_into_id ≡ null
      → update_call merged.id unmark_merged (
          update_call merged.id (apply_serialized merged.get) (
            update_call survivor.id
              (apply_serialized survivor.get)
              (merged_calls survivor merged entries calls)))
        ≡ calls
  unfolding at_row
  restore-merged_calls [] hs hm flag into = refl
  restore-merged_calls (x ∷ xs) hs hm flag into =
      ap₂ (λ (y : VesselCall) ys. y ∷ ys) (there_and_back x hs.0 hm.0 flag into)
        (restore-merged_calls xs hs.1 hm.1 flag into)

  found_among :
      (i : ℕ) (calls : List VesselCall) (v : VesselCall)
      → call_by_id i calls ≡ some v
      → (w : VesselCall) × (call_by_id i (map forth calls) ≡ some w) × (w.id ≡ i)
  found_among i [] v e = cc
  found_among i (x ∷ xs) v e = elim (Bool-cases (x.id == i)) [
    | inl here ↦ (forth x, rw ((forth-twin x).0, here), (forth-twin x).0 ∙ (==_iff x.id i).0 here)
    | inr later ↦
        let (w, found, same) = found_among i xs v (ground arith) in
        (w, rw ((forth-twin x).0, later) found, same)
  ]

  -- A call that is in the table is found under its id after the merge too.
  pub merged_calls_found :
      (i : ℕ) (calls : List VesselCall) (v : VesselCall)
      → call_by_id i calls ≡ some v
      → (w : VesselCall) × (call_by_id i (merged_calls survivor merged entries calls) ≡ some w)
        × (w.id ≡ i)
  merged_calls_found i calls v e = rw (merged_calls-map calls) (found_among i calls v e)

  mark_among :
      (calls : List VesselCall) (v : VesselCall)
      → call_by_id merged.id calls ≡ some v
      → (w : VesselCall) × (call_by_id merged.id (map forth calls) ≡ some w)
        × (w.get is_merged ≡ bool true)
        × (w.get merged_into_id ≡ num survivor.id)
  unfolding set_column
  mark_among [] v e = cc
  mark_among (x ∷ xs) v e = elim (Bool-cases (x.id == merged.id)) [
    | inl here ↦
        let y = at_row survivor.id (apply_entries entries) x in
        let same =
          (at_row-twin survivor.id (apply_entries entries) x (apply_entries-id entries x)).0 in
        let hit =
          at_row_hit merged.id (mark_merged survivor.id) y
            (same ∙ (==_iff x.id merged.id).0 here) in
        (
          forth x,
          rw ((forth-twin x).0, here),
          ap (λ v. v.get is_merged) hit,
          ap (λ v. v.get merged_into_id) hit,
        )
    | inr later ↦
        let (w, found, flag, into) = mark_among xs v (ground arith) in
        (w, rw ((forth-twin x).0, later) found, flag, into)
  ]

  -- The merged call is found under its id and marked as part of the survivor.
  pub merged_calls_marked :
      (calls : List VesselCall) (v : VesselCall)
      → call_by_id merged.id calls ≡ some v
      → (w : VesselCall) × (call_by_id merged.id (merged_calls survivor merged entries calls)
          ≡ some w)
        × (w.get is_merged ≡ bool true)
        × (w.get merged_into_id ≡ num survivor.id)
  merged_calls_marked calls v e = rw (merged_calls-map calls) (mark_among calls v e)
