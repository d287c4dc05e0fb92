-- ===== src/Identity/Normalizer/Ratio/Bounds.antt =====
-- The ratio of `SequenceMatcher` is at most 1.
use marine_time_motion_platf.Prelude.{ℕ, zero, suc, ◌+◌, ◌≤◌, ◌<◌, arith, length, [], ◌∷◌}
use marine_time_motion_platf.Prelude.Text.{Text}
use marine_time_motion_platf.Prelude.Slices.{take, drop, length-take, length-drop}
use marine_time_motion_platf.Identity.Normalizer.Ratio.{
  common, Block, longest_at, longest_from, no_block, matched, matched_pass, ratio_num, ratio_den,
}

common-le : (a b : Text) → (common a b ≤ length a) × (common a b ≤ length b)
unfolding common
common-le [] b = omega arith
common-le (x ∷ xs) [] = omega arith
common-le (x ∷ xs) (y ∷ ys) = ground (arith, common-le xs ys)

record IsInside (la lb : ℕ) (block : Block) : Type 0 where
  in_a : block.at_a + block.size ≤ la
  in_b : block.at_b + block.size ≤ lb

module _ (la lb : ℕ) where
  longest_at-IsInside :
      (i j : ℕ) (a b : Text) (best : Block)
      → i + length a ≤ la
      → j + length b ≤ lb
      → IsInside la lb best
      → IsInside la lb (longest_at i j a b best)
  unfolding longest_at
  longest_at-IsInside i j a [] best ha hb inside = inside
  longest_at-IsInside i j a (y ∷ ys) best ha hb inside =
      longest_at-IsInside i (j + 1) a ys _ ha (omega arith) (ground (arith, common-le a (y ∷ ys)))

  longest_from-IsInside :
      (i : ℕ) (a b : Text) (best : Block)
      → i + length a ≤ la
      → length b ≤ lb
      → IsInside la lb best
      → IsInside la lb (longest_from i a b best)
  unfolding longest_from
  longest_from-IsInside i [] b best ha hb inside = inside
  longest_from-IsInside i (x ∷ xs) b best ha hb inside =
      longest_from-IsInside (i + 1) xs b _ (omega arith) hb
        (longest_at-IsInside i 0 (x ∷ xs) b best ha (omega arith) inside)

matched-le : (fuel : ℕ) (a b : Text) → (matched fuel a b ≤ length a) × (matched fuel a b ≤ length b)
unfolding matched matched_pass
matched-le zero a b = omega arith
matched-le (suc fuel) a b =
    let block = longest_from 0 a b no_block in
    let inside =
      longest_from-IsInside (length a) (length b) 0 a b no_block (omega arith) (omega arith)
        (omega arith) in
    let left = matched-le fuel (take block.at_a a) (take block.at_b b) in
    let right =
      matched-le fuel (drop (block.at_a + block.size) a) (drop (block.at_b + block.size) b) in
    ground (
      arith,
      inside,
      left,
      right,
      length-take block.at_a a,
      length-take block.at_b b,
      length-drop (block.at_a + block.size) a,
      length-drop (block.at_b + block.size) b,
    )

pub ratio_num-le-ratio_den : (a b : Text) → (ratio_num a b ≤ ratio_den a b) × (0 < ratio_den a b)
unfolding ratio_num ratio_den
ratio_num-le-ratio_den a b = ground (arith, matched-le (length a) a b)
