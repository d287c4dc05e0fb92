-- ===== src/Delays/Allocation/Totals.antt =====
-- Sums and ranks of allocations.
use marine_time_motion_platf.Prelude.{
  ℕ, suc, ◌+◌, ◌≡◌, refl, sym, ap, ◌∙◌, inl, inr, Bool, true, false, ◌&&◌, ◌||◌, not, List, [], ◌∷◌,
  filter, any, All, length, ◌==◌, if◌then◌else◌, Bool-cases, arith,
}
use marine_time_motion_platf.Prelude.Int.{
  ℤ, pos, negsuc, pos_part, neg_part, ◌+ℤ◌, ◌-ℤ◌, ◌≤ℤ◌, ltb_ℤ, +ℤ_parts, -ℤ_parts, eq_of_parts,
  +ℤ_assoc, +ℤ_comm,
}
use marine_time_motion_platf.Delays.Delay.{DelayAllocation}
use marine_time_motion_platf.Delays.Allocation.{
  AllocationData, sum_hours, allocation_of, new_allocations, designate, belongs_to, allocated,
  unallocated, ranks_before, insert_ranked, ranked,
}

module _ (p : DelayAllocation → Bool) where
  pub filter_whole : (xs : List DelayAllocation) → All (λ a. p a ≡ true) xs → filter p xs ≡ xs
  filter_whole [] h = refl
  filter_whole (a ∷ xs) h = ground (arith, h.0, filter_whole xs h.1)

  pub filter_nothing :
      (xs : List DelayAllocation) → All (λ a. p a ≡ true) xs → filter (λ a. not (p a)) xs ≡ []
  filter_nothing [] h = refl
  filter_nothing (a ∷ xs) h = ground (arith, h.0, filter_nothing xs h.1)

  pub others_excluded : (xs : List DelayAllocation) → filter p (filter (λ a. not (p a)) xs) ≡ []
  others_excluded [] = refl
  others_excluded (a ∷ xs) = ground (arith, others_excluded xs)

  pub others_fixed :
      (xs : List DelayAllocation)
      → filter (λ a. not (p a)) (filter (λ a. not (p a)) xs) ≡ filter (λ a. not (p a)) xs
  others_fixed [] = refl
  others_fixed (a ∷ xs) = ground (arith, others_fixed xs)

-- The number of primary allocations.
unfoldable pub primaries : List DelayAllocation → ℕ
primaries [] = 0
primaries (a ∷ rows) = (if a.is_primary then 1 else 0) + primaries rows

module _ (i : ℕ) where
  pub new_allocations-belong :
      (new_id : ℕ) (f : Bool) (rows : List AllocationData)
      → All (λ a. belongs_to i a ≡ true) (new_allocations new_id i f rows)
  unfolding new_allocations allocation_of
  new_allocations-belong new_id f [] = tt
  new_allocations-belong new_id f (a ∷ rows) =
      (ground arith, new_allocations-belong (suc new_id) (f || a.is_primary) rows)

  pub designate-belong :
      (f : Bool) (xs : List DelayAllocation)
      → All (λ a. belongs_to i a ≡ true) xs
      → All (λ a. belongs_to i a ≡ true) (designate f xs)
  unfolding designate
  designate-belong f [] h = h
  designate-belong true (a ∷ xs) h = h
  designate-belong false (a ∷ xs) h = h

  pub allocated-new_allocations :
      (new_id : ℕ) (f : Bool) (rows : List AllocationData)
      → allocated (new_allocations new_id i f rows) ≡ sum_hours rows
  unfolding new_allocations allocation_of allocated sum_hours
  allocated-new_allocations new_id f [] = refl
  allocated-new_allocations new_id f (a ∷ rows) =
      ap (◌+ℤ◌ a.duration_hours) (allocated-new_allocations (suc new_id) (f || a.is_primary) rows)

  pub length-new_allocations :
      (new_id : ℕ) (f : Bool) (rows : List AllocationData)
      → length (new_allocations new_id i f rows) ≡ length rows
  unfolding new_allocations
  length-new_allocations new_id f [] = refl
  length-new_allocations new_id f (a ∷ rows) =
      ap suc (length-new_allocations (suc new_id) (f || a.is_primary) rows)

  primaries-new_allocations :
      (new_id : ℕ) (f : Bool) (rows : List AllocationData)
      → primaries (new_allocations new_id i f rows)
        ≡ (if not f && any (λ (a : AllocationData). a.is_primary) rows then 1 else 0)
  unfolding new_allocations allocation_of primaries
  primaries-new_allocations new_id f [] = ground arith
  primaries-new_allocations new_id f (a ∷ rows) =
      ground (arith, primaries-new_allocations (suc new_id) (f || a.is_primary) rows)

  -- One primary allocation, if there is any.
  pub primaries-designate :
      (new_id : ℕ) (rows : List AllocationData)
      → primaries (
          designate
            (any (λ (a : AllocationData). a.is_primary) rows)
            (new_allocations new_id i false rows))
        ≡ (if length rows == 0 then 0 else 1)
  unfolding designate new_allocations allocation_of primaries
  primaries-designate new_id [] = refl
  primaries-designate new_id (a ∷ rows) =
      ground (arith, primaries-new_allocations (suc new_id) a.is_primary rows)

pub allocated-designate :
    (f : Bool) (xs : List DelayAllocation) → allocated (designate f xs) ≡ allocated xs
unfolding designate allocated
allocated-designate f [] = refl
allocated-designate true (a ∷ xs) = refl
allocated-designate false (a ∷ xs) = refl

pub length-designate : (f : Bool) (xs : List DelayAllocation) → length (designate f xs) ≡ length xs
unfolding designate
length-designate f [] = refl
length-designate f (a ∷ xs) = refl

allocated-insert_ranked :
    (a : DelayAllocation) (xs : List DelayAllocation)
    → allocated (insert_ranked a xs) ≡ a.duration_hours +ℤ allocated xs
unfolding insert_ranked allocated
allocated-insert_ranked a [] = refl
allocated-insert_ranked a (b ∷ xs) = elim (Bool-cases (ranks_before b a)) [
  | inl later ↦
      rw (later, insert_ranked)
        (ap (◌+ℤ◌ b.duration_hours) (allocated-insert_ranked a xs)
          ∙ sym (+ℤ_assoc b.duration_hours a.duration_hours (allocated xs))
          ∙ ap (λ (t : ℤ). t +ℤ allocated xs) (+ℤ_comm b.duration_hours a.duration_hours)
          ∙ +ℤ_assoc a.duration_hours b.duration_hours (allocated xs))
  | inr first ↦ rw (first, insert_ranked)
]

pub allocated-ranked : (xs : List DelayAllocation) → allocated (ranked xs) ≡ allocated xs
unfolding ranked allocated
allocated-ranked [] = refl
allocated-ranked (a ∷ xs) =
    allocated-insert_ranked a (ranked xs) ∙ ap (◌+ℤ◌ a.duration_hours) (allocated-ranked xs)

clipped :
    (total used rest : ℤ)
    → pos_part rest + neg_part total + pos_part used
      ≡ neg_part rest + pos_part total + neg_part used
    → (used ≤ℤ total → used +ℤ (if ltb_ℤ rest (pos 0) then pos 0 else rest) ≡ total)
      × (total ≤ℤ used → (if ltb_ℤ rest (pos 0) then pos 0 else rest) ≡ pos 0)
clipped total used (pos n) h =
    (λ le. eq_of_parts _ _ (ground (arith, +ℤ_parts used (pos n))), λ le. ground arith)
clipped total used (negsuc n) h = (λ le. absurd (omega arith), λ le. ground arith)

-- What is not allocated fills the total, unless more is allocated than that.
pub unallocated_rest :
    (total used : ℤ)
    → (used ≤ℤ total → used +ℤ unallocated total used ≡ total)
      × (total ≤ℤ used → unallocated total used ≡ pos 0)
unfolding unallocated
unallocated_rest total used = clipped total used (total -ℤ used) (-ℤ_parts total used)
