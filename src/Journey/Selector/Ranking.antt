-- ===== src/Journey/Selector/Ranking.antt =====
-- The observation that governs is the best by the configured order.
use marine_time_motion_platf.Prelude.{
  ◌<◌, ◌≡◌, refl, sym, ap, subst, ◌⊎◌, inl, inr, true, false, List, [], ◌∷◌, ◌++◌, All, All-append,
  if◌then◌else◌, Bool-cases, arith,
}
use marine_time_motion_platf.Journey.Occurrence.{EventOccurrence}
use marine_time_motion_platf.Journey.Selector.{
  Selector, Rank, rank, precedes, insert, sorted, first_or, select,
}

-- The better of two ranks, of equal ones the first: verification, then confidence, then the source,
-- then the time of ingestion.
abbrev pub IsBetter : Rank → Rank → Type 0
IsBetter a b =
    (a.verification_rank < b.verification_rank)
    ⊎ ((a.verification_rank ≡ b.verification_rank)
        × ((b.confidence < a.confidence)
            ⊎ ((a.confidence ≡ b.confidence)
                × ((a.source_rank < b.source_rank)
                    ⊎ ((a.source_rank ≡ b.source_rank) × (a.created_rank < b.created_rank))))))

best : Selector → EventOccurrence → List EventOccurrence → EventOccurrence
best s o [] = o
best s o (p ∷ ps) = let b = best s p ps in if precedes (rank s b) (rank s o) then b else o

first_or-insert :
    (s : Selector) (d o p : EventOccurrence) (ps : List EventOccurrence)
    → first_or d (insert s o (p ∷ ps)) ≡ (if precedes (rank s p) (rank s o) then p else o)
unfolding insert
first_or-insert s d o p ps = ground arith

sorted-cons :
    (s : Selector) (o : EventOccurrence) (os : List EventOccurrence)
    → (rest : List EventOccurrence) × (sorted s (o ∷ os) ≡ best s o os ∷ rest)
unfolding sorted best insert
sorted-cons s o [] = ([], refl)
sorted-cons s o (p ∷ ps) =
    let (rest, e) = sorted-cons s p ps in
    elim (Bool-cases (precedes (rank s (best s p ps)) (rank s o))) [
      | inl b ↦ (insert s o rest, rw e (ground arith))
      | inr b ↦ (best s p ps ∷ rest, rw e (ground arith))
    ]

select-best :
    (s : Selector) (o : EventOccurrence) (os : List EventOccurrence) → select s o os ≡ best s o os
unfolding select
select-best s o os = ap (first_or o) (sorted-cons s o os).1

-- Where an observation stands in its group: all before it are worse, none behind is better.
abbrev pub IsChosen : Selector → EventOccurrence → List EventOccurrence → Type 0
IsChosen s x os =
    (before : List EventOccurrence) × (after : List EventOccurrence) × (os ≡ before ++ x ∷ after)
    × All (λ p. IsBetter (rank s x) (rank s p)) before
    × All (λ p. ¬ IsBetter (rank s p) (rank s x)) after

not-IsBetter_before :
    (s : Selector) (x b : EventOccurrence) (os : List EventOccurrence)
    → ¬ IsBetter (rank s b) (rank s x)
    → All (λ p. IsBetter (rank s b) (rank s p)) os
    → All (λ p. ¬ IsBetter (rank s p) (rank s x)) os
not-IsBetter_before s x b [] h all = tt
not-IsBetter_before s x b (p ∷ ps) h all = (ground arith, not-IsBetter_before s x b ps h all.1)

not-IsBetter_after :
    (s : Selector) (x b : EventOccurrence) (os : List EventOccurrence)
    → ¬ IsBetter (rank s b) (rank s x)
    → All (λ p. ¬ IsBetter (rank s p) (rank s b)) os
    → All (λ p. ¬ IsBetter (rank s p) (rank s x)) os
not-IsBetter_after s x b [] h all = tt
not-IsBetter_after s x b (p ∷ ps) h all = (ground arith, not-IsBetter_after s x b ps h all.1)

precedes_iff_true : (a b : Rank) → precedes a b ≡ true → IsBetter a b
precedes_iff_true a b h = ground arith

precedes_iff_false : (a b : Rank) → precedes a b ≡ false → ¬ IsBetter a b
precedes_iff_false a b h = ground arith

IsChosen-tail :
    (s : Selector) (b o : EventOccurrence) (os : List EventOccurrence)
    → IsBetter (rank s b) (rank s o)
    → IsChosen s b os
    → IsChosen s b (o ∷ os)
IsChosen-tail s b o os h (before, after, e, worse, none_better) =
    (o ∷ before, after, ap (λ l. o ∷ l) e, (h, worse), none_better)

IsChosen-head :
    (s : Selector) (b o : EventOccurrence) (os : List EventOccurrence)
    → ¬ IsBetter (rank s b) (rank s o)
    → IsChosen s b os
    → IsChosen s o (o ∷ os)
IsChosen-head s b o os h (before, after, e, worse, none_better) = (
  [],
  os,
  refl,
  tt,
  subst (All (λ p. ¬ IsBetter (rank s p) (rank s o))) (sym e) (
      All-append _ before (b ∷ after) (not-IsBetter_before s o b before h worse)
        (h, not-IsBetter_after s o b after h none_better)),
)

best-IsChosen :
    (s : Selector) (o : EventOccurrence) (os : List EventOccurrence)
    → IsChosen s (best s o os) (o ∷ os)
unfolding best
best-IsChosen s o [] = ([], [], refl, tt, tt)
best-IsChosen s o (p ∷ ps) =
    let chosen = best-IsChosen s p ps in
    let b = best s p ps in
    elim (Bool-cases (precedes (rank s b) (rank s o))) [
      | inl h ↦ rw h (IsChosen-tail s b o (p ∷ ps) (precedes_iff_true _ _ h) chosen)
      | inr h ↦ rw h (IsChosen-head s b o (p ∷ ps) (precedes_iff_false _ _ h) chosen)
    ]

-- The selected observation is one of the group, it is better than every one before it, and none
-- behind it is better: so it is the best, and the first of equals.
pub select-IsChosen :
    (s : Selector) (o : EventOccurrence) (os : List EventOccurrence)
    → IsChosen s (select s o os) (o ∷ os)
select-IsChosen s o os = rw (select-best s o os) (best-IsChosen s o os)
