-- ===== src/Identity/Normalizer.antt =====
-- apps/api/services/identity/normalizer.py: vessel names in a normal form, and their similarity.
pub mod NormalForm
pub mod Similarity
pub mod Ratio
use marine_time_motion_platf.Prelude.{
  ℕ, ◌*◌, Bool, true, false, ◌&&◌, ◌||◌, not, Option, none, some, [], leb, if◌then◌else◌,
}
use marine_time_motion_platf.Prelude.Round.{round_half_even}
use marine_time_motion_platf.Prelude.Text.{Text, non_empty, is_space, strip, upper, sub_runs, ◌=ᵗ◌}
use marine_time_motion_platf.Identity.Normalizer.Ratio.{ratio_num, ratio_den}

-- `[A-Z0-9]`
unfoldable pub is_plain : ℕ → Bool
is_plain c = (leb b'A' c && leb c b'Z') || (leb b'0' c && leb c b'9')

unfoldable pub normalize : Option Text → Text
unfolding strip upper sub_runs is_space is_plain
normalize none = []
normalize (some name) =
    strip (sub_runs is_space false (sub_runs (λ c. not (is_plain c)) false (upper (strip name))))

-- The five explanations of `similarity`, without the texts that they quote.
pub data Reason : Type 0 where
  names_empty verbatim normalized close_match probabilistic : Reason

-- Scores are in units of 1/10000, the four digits that the code rounds to.
similarity_of : Text → Text → Text → Text → ℕ × Reason
similarity_of raw1 raw2 norm1 norm2 =
    if raw1 =ᵗ raw2
    then (10000, verbatim)
    else if norm1 =ᵗ norm2
    then (9900, normalized)
    else let num = ratio_num norm1 norm2 in
      let den = ratio_den norm1 norm2 in
      (
        round_half_even (10000 * num) den,
        (if leb (9 * den) (10 * num) then close_match else probabilistic),
      )

unfoldable pub similarity : Option Text → Option Text → ℕ × Reason
unfolding similarity_of
similarity none name2 = (0, names_empty)
similarity (some name1) none = (0, names_empty)
similarity (some name1) (some name2) =
    if non_empty name1 && non_empty name2
    then similarity_of (upper (strip name1)) (upper (strip name2)) (normalize (some name1))
        (normalize (some name2))
    else (0, names_empty)
