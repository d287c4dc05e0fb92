-- ===== src/Delays/Category/Canonical.antt =====
-- The mapping of categories is total and governed.
use marine_time_motion_platf.Prelude.{
  ◌≡◌, refl, inl, inr, Bool, true, false, ◌&&◌, not, List, [], ◌∷◌, any, all, find, Bool-cases,
  if◌then◌else◌, Option, none, some, Option-cases, arith,
}
use marine_time_motion_platf.Prelude.Members.{In, find-In}
use marine_time_motion_platf.Prelude.Text.{
  Text, text, ◌=ᵗ◌, =ᵗ_iff, non_empty, strip, lstrip, rstrip, is_space, lower, occurs, starts_with,
}
use marine_time_motion_platf.Delays.Category.{
  canonical_delay_categories, mentions, exact_match, categorise, or_empty,
  map_to_canonical_category,
}

-- One of the fifteen categories.
abbrev pub IsCanonical : Text → Type 0
IsCanonical c = In c canonical_delay_categories

listed : (c : Text) (xs : List Text) → any (λ k. c =ᵗ k) xs ≡ true → In c xs
listed c [] h = absurd (ground arith)
listed c (x ∷ xs) h = elim (Bool-cases (c =ᵗ x)) [
  | inl here ↦ inl ((=ᵗ_iff c x).0 here)
  | inr other ↦ inr (listed c xs (ground arith))
]

choose : (b : Bool) (x y : Text) → IsCanonical x → IsCanonical y → IsCanonical (if b then x else y)
choose true x y hx hy = hx
choose false x y hx hy = hy

exact_match-IsCanonical : (src : Text) → IsCanonical (exact_match src)
unfolding exact_match canonical_delay_categories ◌=ᵗ◌
exact_match-IsCanonical src =
    elim (Option-cases (find (λ c. lower c =ᵗ src) canonical_delay_categories)) [
      | inl nothing ↦
          rw (nothing, exact_match) (listed (text "Other") canonical_delay_categories refl)
      | inr (c, found) ↦
          rw (found, exact_match)
            (find-In (λ x. lower x =ᵗ src) canonical_delay_categories c found).0
    ]

pub constant : (c : Text) → any (λ k. c =ᵗ k) canonical_delay_categories ≡ true → IsCanonical c
constant c h = listed c canonical_delay_categories h

categorise-IsCanonical : (src rsn : Text) → IsCanonical (categorise src rsn)
unfolding categorise canonical_delay_categories ◌=ᵗ◌
categorise-IsCanonical src rsn = choose _ _ _ (constant (text "Weather") refl) (
    choose _ _ _ (constant (text "Tug") refl) (
      choose _ _ _ (constant (text "Pilot") refl) (
        choose _ _ _ (constant (text "Berth Non-Availability") refl) (
          choose _ _ _ (constant (text "Terminal Readiness") refl) (
            choose _ _ _ (constant (text "Crane Downtime") refl) (
              choose _ _ _ (constant (text "Equipment Breakdown") refl) (
                choose _ _ _ (constant (text "Mooring") refl) (
                  choose _ _ _ (constant (text "Documentation") refl) (
                    choose _ _ _ (constant (text "Vessel-Side") refl) (
                      choose _ _ _ (constant (text "Regulatory Clearance") refl) (
                        choose _ _ _ (constant (text "Port-Side") refl)
                          (exact_match-IsCanonical src))))))))))))

kept :
    (xs : List Text) (c : Text)
    → all (λ k. map_to_canonical_category (some k) none =ᵗ k) xs ≡ true
    → In c xs
    → map_to_canonical_category (some c) none ≡ c
kept [] c h i = absurd i
kept (x ∷ xs) c h (inl e) = rw e ((=ᵗ_iff _ x).0 (ground arith))
kept (x ∷ xs) c h (inr i) = kept xs c (ground arith) i

-- Whatever the source says, the category is one of the fifteen canonical ones; and a canonical
-- category that comes without a reason is mapped to itself.
pub map_to_canonical_category-IsCanonical :
    (source_category reason : Option Text) (c : Text)
    → IsCanonical (map_to_canonical_category source_category reason)
      × (IsCanonical c → map_to_canonical_category (some c) none ≡ c)
unfolding map_to_canonical_category canonical_delay_categories ◌=ᵗ◌ mentions exact_match strip
    lstrip rstrip is_space lower occurs starts_with
map_to_canonical_category-IsCanonical source_category reason c = (
  choose (not (non_empty (or_empty source_category)) && not (non_empty (or_empty reason))) _ _
      (constant (text "Other") refl)
      (categorise-IsCanonical (lower (strip (or_empty source_category)))
        (lower (strip (or_empty reason)))),
  kept canonical_delay_categories c refl,
)
