-- ===== src/Identity/Normalizer/Similarity.antt =====
-- The range of the similarity of two names, and names that differ in punctuation or case.
use marine_time_motion_platf.Prelude.{◌*◌, ◌≤◌, ◌≡◌, true, Option, some, none, arith}
use marine_time_motion_platf.Prelude.Round.{round_half_even, round_half_even-le}
use marine_time_motion_platf.Prelude.Text.{Text, =ᵗ_refl, non_empty, strip, upper}
use marine_time_motion_platf.Identity.Normalizer.{normalize, similarity_of, similarity}
use marine_time_motion_platf.Identity.Normalizer.Ratio.{ratio_num, ratio_den}
use marine_time_motion_platf.Identity.Normalizer.Ratio.Bounds.{ratio_num-le-ratio_den}

rounded_ratio-le : (a b : Text) → round_half_even (10000 * ratio_num a b) (ratio_den a b) ≤ 10000
rounded_ratio-le a b =
    let (le, positive) = ratio_num-le-ratio_den a b in
    round_half_even-le (10000 * ratio_num a b) (ratio_den a b) 10000 positive (omega arith)

similarity_of-le : (raw1 raw2 norm1 norm2 : Text) → (similarity_of raw1 raw2 norm1 norm2).0 ≤ 10000
unfolding similarity_of
similarity_of-le raw1 raw2 norm1 norm2 = ground (arith, rounded_ratio-le norm1 norm2)

-- A similarity is at most 1.
pub similarity-le : (name1 name2 : Option Text) → (similarity name1 name2).0 ≤ 10000
unfolding similarity
similarity-le none name2 = omega arith
similarity-le (some name1) none = omega arith
similarity-le (some name1) (some name2) = ground (
  arith,
  similarity_of-le (upper (strip name1)) (upper (strip name2)) (normalize (some name1))
      (normalize (some name2)),
)

-- Two names that are not empty and have one normal form are similar to at least 0.99, so the
-- matcher counts them as agreed.
pub similarity-normalize :
    (name1 name2 : Text)
    → non_empty name1 ≡ true
    → non_empty name2 ≡ true
    → normalize (some name1) ≡ normalize (some name2)
    → 9900 ≤ (similarity (some name1) (some name2)).0
unfolding similarity similarity_of
similarity-normalize name1 name2 h1 h2 e =
    rw (h1, h2, e, =ᵗ_refl (normalize (some name2))) (ground arith)
