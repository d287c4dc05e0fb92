-- ===== src/Identity/Merger/Inversion.antt =====
-- What a successful merge has found and checked.
use marine_time_motion_platf.Prelude.{
  ℕ, ◌≡◌, refl, ap, ◌∙◌, Bool, true, false, ◌&&◌, not, List, [], ◌∷◌, ◌++◌, All, ◌≢◌, find, arith,
  ◌==◌, Option, some, none,
}
use marine_time_motion_platf.Prelude.Text.{Text}
use marine_time_motion_platf.Identity.Record.{Value, VesselCall}
use marine_time_motion_platf.Identity.Survivorship.{determine_survivor_record}
use marine_time_motion_platf.Identity.Store.{
  MatchCandidate, MergeDecision, DecisionState, Store, call_by_id,
}
use marine_time_motion_platf.Identity.Merger.{
  Error, Result, ok, err, ◌>>=◌, or_raise, raise_if, Key, commit_merge, execute_merge,
  commit_unmerge, execute_unmerge, decision_not_found, not_merged, abort_missing_records,
  snapshot_survivor, snapshot_merged, is_merged_state, ◌>>◌,
}

bind-eq-ok :
    {A B : Type 0} (first : Result A) (next : A → Result B) {result : B}
    → (first >>= next) ≡ ok result
    → (a : A) × (first ≡ ok a) × (next a ≡ ok result)
bind-eq-ok (err e) next h = cc
bind-eq-ok (ok a) next h = (a, refl, h)

or_raise-eq-ok : {A : Type 0} (o : Option A) (e : Error) {a : A} → or_raise o e ≡ ok a → o ≡ some a
or_raise-eq-ok none e h = cc
or_raise-eq-ok (some a) e h = cc

raise_if-eq-ok : (b : Bool) (e : Error) {u : Unit {0}} → raise_if b e ≡ ok u → b ≡ false
raise_if-eq-ok true e h = cc
raise_if-eq-ok false e h = refl

call_by_id-id :
    (i : ℕ) (v : VesselCall) (calls : List VesselCall) → call_by_id i calls ≡ some v → v.id ≡ i
call_by_id-id i v [] h = cc
call_by_id-id i v (x ∷ xs) h = ground (arith, call_by_id-id i v xs)

module _ {S D : Type 0} where
  -- The candidate and the two calls of a merge that went through.
  pub record HasMerged (candidate_id : ℕ) (actor : Text) (manual : Bool)
      (custom : List (Key × Value)) (new_id : ℕ) (db : Store S D) (r : Store S D × MergeDecision)
      : Type 0 where
    pub candidate : MatchCandidate
    pub found : find (λ c. c.id == candidate_id) db.candidates ≡ some candidate
    pub allowed : (candidate.conflict_detected && not manual) ≡ false
    pub v1 : VesselCall
    pub v2 : VesselCall
    pub found_1 : call_by_id candidate.source_record_1_id db.calls ≡ some v1
    pub found_2 : call_by_id candidate.source_record_2_id db.calls ≡ some v2
    pub result : commit_merge candidate v1 v2 actor manual custom new_id db ≡ r

  pub execute_merge-HasMerged :
      (candidate_id : ℕ) (actor : Text) (manual : Bool) (custom : List (Key × Value)) (new_id : ℕ)
      (db : Store S D) (r : Store S D × MergeDecision)
      → execute_merge candidate_id actor manual custom new_id db ≡ ok r
      → HasMerged candidate_id actor manual custom new_id db r
  unfolding execute_merge
  execute_merge-HasMerged candidate_id actor manual custom new_id db r h =
      let (candidate, e1, h1) = bind-eq-ok _ _ h in
      let (_, e2, h2) = bind-eq-ok _ _ h1 in
      let (v1, e3, h3) = bind-eq-ok _ _ h2 in
      let (v2, e4, h4) = bind-eq-ok _ _ h3 in
      record {
        candidate = candidate;
        found = or_raise-eq-ok _ _ e1;
        allowed = raise_if-eq-ok _ _ e2;
        v1 = v1;
        v2 = v2;
        found_1 = or_raise-eq-ok _ _ e3;
        found_2 = or_raise-eq-ok _ _ e4;
        result = cc;
      }

-- Both records that a merge chooses between stand in the table under their ids.
pub survivor_found :
    (i j : ℕ) (v1 v2 : VesselCall) (calls : List VesselCall)
    → call_by_id i calls ≡ some v1
    → call_by_id j calls ≡ some v2
    → let (survivor, merged) = determine_survivor_record v1 v2 in
      (call_by_id survivor.id calls ≡ some survivor) × (call_by_id merged.id calls ≡ some merged)
unfolding determine_survivor_record
survivor_found i j v1 v2 calls e f = ground (arith, found_under_id i v1 e, found_under_id j v2 f)
  where
    found_under_id :
        (i : ℕ) (v : VesselCall) → call_by_id i calls ≡ some v → call_by_id v.id calls ≡ some v
    found_under_id i v e = ap (λ (k : ℕ). call_by_id k calls) (call_by_id-id i v calls e) ∙ e

-- A decision with a new id is found under it.
pub find_new :
    (new_id : ℕ) (decision : MergeDecision) (decisions : List MergeDecision)
    → decision.id ≡ new_id
    → All (λ d. d.id ≢ new_id) decisions
    → find (λ d. d.id == new_id) (decisions ++ decision ∷ []) ≡ some decision
find_new new_id decision [] e h = ground arith
find_new new_id decision (d ∷ ds) e h = ground (arith, find_new new_id decision ds e h.1)

module _ {S D : Type 0} where
  -- A merge can be taken back if its decision stands and both records are in the table.
  pub execute_unmerge_lem :
      (decision_id : ℕ) (steward : Text) (notes : Option Text) (db : Store S D)
      (decision : MergeDecision) (s m : VesselCall)
      → find (λ d. d.id == decision_id) db.decisions ≡ some decision
      → decision.decision ≡ DecisionState.merged
      → call_by_id (snapshot_survivor decision decision.prior_state_snapshot) db.calls ≡ some s
      → call_by_id (snapshot_merged decision decision.prior_state_snapshot) db.calls ≡ some m
      → execute_unmerge decision_id steward notes db
        ≡ ok (commit_unmerge decision s.id m.id steward notes db)
  unfolding execute_unmerge
  execute_unmerge_lem decision_id steward notes db decision s m found state found_s found_m =
      ap (λ o. or_raise o decision_not_found >>= after_found) found
      ∙ ap (λ st. raise_if (not (is_merged_state st)) not_merged >> rest) state
      ∙ ap (λ o. or_raise o abort_missing_records >>= after_survivor) found_s
      ∙ ap (λ o. or_raise o abort_missing_records >>= after_merged) found_m
    where
      after_merged : VesselCall → Result (Store S D)
      after_merged m' = ok (commit_unmerge decision s.id m'.id steward notes db)

      after_survivor : VesselCall → Result (Store S D)
      after_survivor s' = do
        m' ←
            or_raise (call_by_id (snapshot_merged decision decision.prior_state_snapshot) db.calls)
              abort_missing_records
        ok (commit_unmerge decision s'.id m'.id steward notes db)

      rest : Result (Store S D)
      rest =
          or_raise (call_by_id (snapshot_survivor decision decision.prior_state_snapshot) db.calls)
            abort_missing_records
          >>= after_survivor

      after_found : MergeDecision → Result (Store S D)
      after_found d = do
        raise_if (not (is_merged_state d.decision)) not_merged
        s' ←
            or_raise (call_by_id (snapshot_survivor d d.prior_state_snapshot) db.calls)
              abort_missing_records
        m' ←
            or_raise (call_by_id (snapshot_merged d d.prior_state_snapshot) db.calls)
              abort_missing_records
        ok (commit_unmerge d s'.id m'.id steward notes db)
