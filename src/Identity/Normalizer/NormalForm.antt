-- ===== src/Identity/Normalizer/NormalForm.antt =====
-- The normal form that `VesselNameNormalizer.normalize` produces, and that it keeps what is in it.
use marine_time_motion_platf.Prelude.{
  ℕ, ◌≡◌, refl, ◌⊎◌, inl, inr, ap, Bool, true, false, not, Option, none, some, [], ◌∷◌, arith,
  Bool-cases, if◌then◌else◌,
}
use marine_time_motion_platf.Prelude.Text.{
  Text, is_space, non_empty, lstrip, rstrip, strip, upper, to_upper, sub_runs,
}
use marine_time_motion_platf.Identity.Normalizer.{is_plain, normalize}

-- Letters and digits in words with one space between them; `gap` says that a space (or the
-- start) stands before the text.
abbrev pub IsWords : Bool → Text → Type 0
IsWords gap [] = gap ≡ false
IsWords gap (x ∷ xs) =
    ((is_plain x ≡ true) × IsWords false xs) ⊎ ((x ≡ 32) × (gap ≡ false) × IsWords true xs)

abbrev pub IsNormal : Text → Type 0
IsNormal t = (t ≡ []) ⊎ IsWords true t

-- The same without the demand on the end of the text.
abbrev HasSingleSpaces : Bool → Text → Type 0
HasSingleSpaces gap [] = Unit
HasSingleSpaces gap (x ∷ xs) =
    ((is_plain x ≡ true) × HasSingleSpaces false xs)
    ⊎ ((x ≡ 32) × (gap ≡ false) × HasSingleSpaces true xs)

sub_runs-HasSingleSpaces :
    (gap : Bool) (t : Text) → HasSingleSpaces gap (sub_runs (λ c. not (is_plain c)) gap t)
unfolding sub_runs
sub_runs-HasSingleSpaces gap [] = tt
sub_runs-HasSingleSpaces gap (x ∷ xs) = elim (Bool-cases (is_plain x)) [
  | inl p ↦ rw p (inl (p, sub_runs-HasSingleSpaces false xs))
  | inr n ↦ rw n (skip gap _ (sub_runs-HasSingleSpaces true xs))
]
  where
    skip :
        (gap : Bool) (t : Text)
        → HasSingleSpaces true t
        → HasSingleSpaces gap (if gap then t else 32 ∷ t)
    skip true t h = h
    skip false t h = inr (refl, refl, h)

is_space-plain : (c : ℕ) → is_plain c ≡ true → is_space c ≡ false
unfolding is_space is_plain
is_space-plain c h = ground arith

is_space-32 : is_space 32 ≡ true
unfolding is_space
is_space-32 = refl

sub_runs-spaces : (gap : Bool) (t : Text) → HasSingleSpaces gap t → sub_runs is_space gap t ≡ t
unfolding sub_runs
sub_runs-spaces gap [] h = refl
sub_runs-spaces gap (x ∷ xs) (inl (p, h)) =
    rw (is_space-plain x p) (ap (λ (t : Text). x ∷ t) (sub_runs-spaces false xs h))
sub_runs-spaces gap (x ∷ xs) (inr (e, g, h)) =
    rw (e, g, is_space-32) (ap (λ (t : Text). 32 ∷ t) (sub_runs-spaces true xs h))

lstrip-HasSingleSpaces :
    (gap : Bool) (t : Text) → HasSingleSpaces gap t → HasSingleSpaces true (lstrip t)
unfolding lstrip
lstrip-HasSingleSpaces gap [] h = tt
lstrip-HasSingleSpaces gap (x ∷ xs) (inl (p, h)) = rw (is_space-plain x p) (inl (p, h))
lstrip-HasSingleSpaces gap (x ∷ xs) (inr (e, g, h)) =
    rw (e, is_space-32) (lstrip-HasSingleSpaces true xs h)

rstrip-IsWords :
    (gap : Bool) (t : Text) → HasSingleSpaces gap t → (rstrip t ≡ []) ⊎ IsWords gap (rstrip t)
unfolding rstrip
rstrip-IsWords gap [] h = inl refl
rstrip-IsWords gap (x ∷ xs) (inl (p, h)) = elim (rstrip-IsWords false xs h) [
  | inl e ↦ rw (is_space-plain x p, e) (inr (inl (p, refl)))
  | inr w ↦ rw (is_space-plain x p) (inr (inl (p, w)))
]
rstrip-IsWords gap (x ∷ xs) (inr (e, g, h)) =
    rw (e, is_space-32) (step (rstrip xs) (rstrip-IsWords true xs h))
  where
    step :
        (r : Text)
        → (r ≡ []) ⊎ IsWords true r
        → ((if not (non_empty r) then [] else 32 ∷ r) ≡ [])
          ⊎ IsWords gap (if not (non_empty r) then [] else 32 ∷ r)
    step [] h = inl refl
    step (y ∷ ys) (inl f) = cc
    step (y ∷ ys) (inr w) = inr (inr (refl, g, w))

IsWords-HasSingleSpaces : (gap : Bool) (t : Text) → IsWords gap t → HasSingleSpaces gap t
IsWords-HasSingleSpaces gap [] h = tt
IsWords-HasSingleSpaces gap (x ∷ xs) (inl (p, h)) = inl (p, IsWords-HasSingleSpaces false xs h)
IsWords-HasSingleSpaces gap (x ∷ xs) (inr (e, g, h)) = inr (e, g, IsWords-HasSingleSpaces true xs h)

IsWords-inside : (t : Text) → IsWords true t → IsWords false t
IsWords-inside [] h = refl
IsWords-inside (x ∷ xs) (inl (p, h)) = inl (p, h)
IsWords-inside (x ∷ xs) (inr (e, g, h)) = cc

to_upper-plain : (c : ℕ) → is_plain c ≡ true → to_upper c ≡ c
unfolding is_plain
to_upper-plain c h = ground arith

upper-IsWords : (gap : Bool) (t : Text) → IsWords gap t → upper t ≡ t
unfolding upper
upper-IsWords gap [] h = refl
upper-IsWords gap (x ∷ xs) (inl (p, h)) = cc (to_upper-plain x p, upper-IsWords false xs h)
upper-IsWords gap (x ∷ xs) (inr (e, g, h)) = rw e (cc (upper-IsWords true xs h))

punctuation_32 : is_plain 32 ≡ false
unfolding is_plain
punctuation_32 = refl

sub_runs-IsWords :
    (gap : Bool) (t : Text) → IsWords gap t → sub_runs (λ c. not (is_plain c)) gap t ≡ t
unfolding sub_runs
sub_runs-IsWords gap [] h = refl
sub_runs-IsWords gap (x ∷ xs) (inl (p, h)) =
    rw p (ap (λ (t : Text). x ∷ t) (sub_runs-IsWords false xs h))
sub_runs-IsWords gap (x ∷ xs) (inr (e, g, h)) =
    rw (e, g, punctuation_32) (ap (λ (t : Text). 32 ∷ t) (sub_runs-IsWords true xs h))

lstrip-IsWords : (t : Text) → IsWords true t → lstrip t ≡ t
unfolding lstrip
lstrip-IsWords [] h = refl
lstrip-IsWords (x ∷ xs) (inl (p, h)) = rw (is_space-plain x p)
lstrip-IsWords (x ∷ xs) (inr (e, g, h)) = cc

rstrip-IsWords_id : (gap : Bool) (t : Text) → IsWords gap t → rstrip t ≡ t
unfolding rstrip
rstrip-IsWords_id gap [] h = refl
rstrip-IsWords_id gap (x ∷ xs) (inl (p, h)) =
    rw (is_space-plain x p) (ap (λ (t : Text). x ∷ t) (rstrip-IsWords_id false xs h))
rstrip-IsWords_id gap (x ∷ []) (inr (e, g, h)) = cc
rstrip-IsWords_id gap (x ∷ y ∷ ys) (inr (e, g, h)) =
    rw (rstrip-IsWords_id true (y ∷ ys) h, e, is_space-32)

strip-IsWords : (t : Text) → IsWords true t → strip t ≡ t
unfolding strip
strip-IsWords t h = rw (lstrip-IsWords t h) (rstrip-IsWords_id true t h)

-- Whatever the name, its normal form is empty or consists of words of letters and digits,
-- separated by single spaces, with none at either end.
pub normalize-IsNormal : (name : Option Text) → IsNormal (normalize name)
unfolding normalize
normalize-IsNormal none = inl refl
normalize-IsNormal (some name) =
    let t = upper (strip name) in
    let spaced = sub_runs-HasSingleSpaces false t in
    rw (sub_runs-spaces false _ spaced)
      (rstrip-IsWords true _ (lstrip-HasSingleSpaces false _ spaced))

normalize-IsWords : (t : Text) → IsWords true t → normalize (some t) ≡ t
unfolding normalize
normalize-IsWords t h =
    let inner = IsWords-inside t h in
    rw
      (
        strip-IsWords t h,
        upper-IsWords true t h,
        sub_runs-IsWords false t inner,
        sub_runs-spaces false t (IsWords-HasSingleSpaces false t inner),
      )
      (strip-IsWords t h)

normalize_empty : normalize (some []) ≡ []
unfolding normalize
normalize_empty = refl

-- Normalising a normal form a second time changes nothing.
pub normalize_idempotent : (name : Option Text) → normalize (some (normalize name)) ≡ normalize name
normalize_idempotent name = elim (normalize-IsNormal name) [
  | inl e ↦ rw e normalize_empty
  | inr w ↦ normalize-IsWords _ w
]
