-- ===== src/Identity/Normalizer/Ratio.antt =====
-- `difflib.SequenceMatcher(None, a, b).ratio()` for texts below the length of 200 at which
-- `difflib` begins to leave out popular characters.
pub mod Bounds
use marine_time_motion_platf.Prelude.{
  ℕ, zero, suc, ◌+◌, ◌*◌, ltb, ◌==◌, length, [], ◌∷◌, if◌then◌else◌,
}
use marine_time_motion_platf.Prelude.Text.{Text}
use marine_time_motion_platf.Prelude.Slices.{take, drop}

-- The length of the common prefix.
common : Text → Text → ℕ
common [] b = 0
common (x ∷ xs) [] = 0
common (x ∷ xs) (y ∷ ys) = let rest = common xs ys in if x == y then suc rest else 0

-- A matching block: `size` characters from `at_a` in one text and from `at_b` in the other.
record Block : Type 0 where
  at_a : ℕ
  at_b : ℕ
  size : ℕ

-- The longest block that starts at `i` in `a`, and of these the first in `b`.
longest_at : ℕ → ℕ → Text → Text → Block → Block
longest_at i j a [] best = best
longest_at i j a (y ∷ ys) best = longest_at i (j + 1) a ys (
    if ltb best.size (common a (y ∷ ys))
    then record { at_a = i; at_b = j; size = common a (y ∷ ys) }
    else best)

-- `find_longest_match`: the longest block, of these the first in `a`, then the first in `b`.
longest_from : ℕ → Text → Text → Block → Block
longest_from i [] b best = best
longest_from i (x ∷ xs) b best = longest_from (i + 1) xs b (longest_at i 0 (x ∷ xs) b best)

abbrev no_block : Block
no_block = record { at_a = 0; at_b = 0; size = 0 }

-- The characters in all matching blocks: those of the longest, and of the texts on its two sides.
matched_pass : (Text → Text → ℕ) → Block → Text → Text → ℕ
matched_pass rest block a b =
    rest (take block.at_a a) (take block.at_b b)
    + block.size
    + rest (drop (block.at_a + block.size) a) (drop (block.at_b + block.size) b)

matched : ℕ → Text → Text → ℕ
matched zero a b = 0
matched (suc fuel) a b =
    let block = longest_from 0 a b no_block in
    let sum = matched_pass (matched fuel) block a b in if block.size == 0 then 0 else sum

-- `ratio` is 2 * matches / length, and 1 for two empty texts.
unfoldable pub ratio_num : Text → Text → ℕ
unfolding matched matched_pass longest_from longest_at common
ratio_num a b = if length a + length b == 0 then 1 else 2 * matched (length a) a b

unfoldable pub ratio_den : Text → Text → ℕ
ratio_den a b = if length a + length b == 0 then 1 else length a + length b
