-- ===== src/Analytics/Metric/Service/Ordered.antt =====
-- The order of the services of a vessel call.
use marine_time_motion_platf.Prelude.{
  ℕ, ◌≡◌, refl, sym, subst, ap, ◌⊎◌, inl, inr, Bool, true, false, List, [], ◌∷◌, find,
  if◌then◌else◌, Option, none, some, Bool-cases, arith,
}
use marine_time_motion_platf.Prelude.Members.{In, In-if}
use marine_time_motion_platf.Analytics.Metric.Service.{
  Service, scheduled_before, precedes, insert, ordered, last_of,
}

scheduled_before_negatively_transitive :
    (a b c : Option ℕ)
    → scheduled_before a b ≡ false
    → scheduled_before b c ≡ false
    → scheduled_before a c ≡ false
scheduled_before_negatively_transitive none b c h g = refl
scheduled_before_negatively_transitive (some a) none none h g = absurd (ground arith)
scheduled_before_negatively_transitive (some a) none (some c) h g = absurd (ground arith)
scheduled_before_negatively_transitive (some a) (some b) none h g = absurd (ground arith)
scheduled_before_negatively_transitive (some a) (some b) (some c) h g = ground arith

scheduled_before_asymmetric :
    (a b : Option ℕ) → scheduled_before a b ≡ true → scheduled_before b a ≡ false
scheduled_before_asymmetric none b h = absurd (ground arith)
scheduled_before_asymmetric (some a) none h = refl
scheduled_before_asymmetric (some a) (some b) h = ground arith

precedes_negatively_transitive :
    (a b c : Service) → precedes a b ≡ false → precedes b c ≡ false → precedes a c ≡ false
precedes_negatively_transitive a b c h g =
    scheduled_before_negatively_transitive (a.assignment).scheduled_time
      (b.assignment).scheduled_time (c.assignment).scheduled_time h g

precedes_asymmetric : (a b : Service) → precedes a b ≡ true → precedes b a ≡ false
precedes_asymmetric a b h =
    scheduled_before_asymmetric (a.assignment).scheduled_time (b.assignment).scheduled_time h

precedes_irreflexive : (a : Service) → precedes a a ≡ false
precedes_irreflexive a = elim (Bool-cases (precedes a a)) [
  | inl before ↦ precedes_asymmetric a a before
  | inr after ↦ after
]

In-insert : (s t : Service) (ts : List Service) → In t (insert s ts) → (t ≡ s) ⊎ In t ts
unfolding insert
In-insert s t [] i = i
In-insert s t (u ∷ ts) i = elim (In-if (precedes u s) t (u ∷ insert s ts) (s ∷ u ∷ ts) i) [
  | inl (before, inl is) ↦ inr (inl is)
  | inl (before, inr j) ↦ elim (In-insert s t ts j) [ inl is ↦ inl is | inr k ↦ inr (inr k) ]
  | inr (after, j) ↦ j
]

-- No service comes before an earlier one of the list.
abbrev pub IsOrdered : List Service → Type 0
IsOrdered [] = Unit
IsOrdered (s ∷ ss) = ((t : Service) → In t ss → precedes t s ≡ false) × IsOrdered ss

insert-IsOrdered : (s : Service) (ts : List Service) → IsOrdered ts → IsOrdered (insert s ts)
unfolding insert
insert-IsOrdered s [] h = (λ t i. absurd i, tt)
insert-IsOrdered s (t ∷ ts) (least, h) = elim (Bool-cases (precedes t s)) [
  | inl before ↦
      subst (λ b. IsOrdered (if b then t ∷ insert s ts else s ∷ t ∷ ts)) (sym before)
        (
          λ u i. elim (In-insert s u ts i) [
            | inl is ↦ subst (λ v. precedes v t ≡ false) (sym is) (precedes_asymmetric t s before)
            | inr j ↦ least u j
          ],
          insert-IsOrdered s ts h,
        )
  | inr after ↦
      subst (λ b. IsOrdered (if b then t ∷ insert s ts else s ∷ t ∷ ts)) (sym after)
        (
          λ u i. elim i [
            | inl is ↦ subst (λ v. precedes v s ≡ false) (sym is) after
            | inr j ↦ precedes_negatively_transitive u t s (least u j) after
          ],
          (least, h),
        )
]

pub ordered-IsOrdered : (ss : List Service) → IsOrdered (ordered ss)
unfolding ordered
ordered-IsOrdered [] = tt
ordered-IsOrdered (s ∷ ss) = insert-IsOrdered s (ordered ss) (ordered-IsOrdered ss)

pub In-ordered : (t : Service) (ss : List Service) → In t (ordered ss) → In t ss
unfolding ordered
In-ordered t [] i = i
In-ordered t (s ∷ ss) i = elim (In-insert s t (ordered ss) i) [
  | inl is ↦ inl is
  | inr j ↦ inr (In-ordered t ss j)
]

-- The first match in an ordered list is preceded by no other match.
abbrev pub IsFirstMatch : (Service → Bool) → List Service → Service → Type 0
IsFirstMatch p ss s =
    In s ss × (p s ≡ true) × ((t : Service) → In t ss → p t ≡ true → precedes t s ≡ false)

pub first_of :
    (x : Service) (ss : List Service)
    → ((t : Service) → In t ss → precedes t x ≡ false)
    → In x (x ∷ ss) × ((t : Service) → In t (x ∷ ss) → precedes t x ≡ false)
first_of x ss least = (
  inl refl,
  λ t i. elim i [
    | inl is ↦ subst (λ u. precedes u x ≡ false) (sym is) (precedes_irreflexive x)
    | inr j ↦ least t j
  ],
)

pub find-first :
    (p : Service → Bool) (ss : List Service) (s : Service)
    → IsOrdered ss
    → find p ss ≡ some s
    → IsFirstMatch p ss s
find-first p [] s h found = absurd (ground arith)
find-first p (x ∷ ss) s (least, h) found = elim (Bool-cases (p x)) [
  | inl here ↦
      let is : x ≡ s = ground arith in
      let (i, first) = first_of x ss least in
      subst (IsFirstMatch p (x ∷ ss)) is (i, here, λ t j matches. first t j)
  | inr more ↦
      let (i, here, first) = find-first p ss s h (ground arith) in
      (
        inr i,
        here,
        λ t j matches. elim j [
          | inl is ↦ absurd (ground (arith, ap p is))
          | inr k ↦ first t k matches
        ],
      )
]

-- The last of an ordered list comes before none of it.
pub last_of-last :
    (s : Service) (ts : List Service)
    → IsOrdered (s ∷ ts)
    → In (last_of s ts) (s ∷ ts)
      × ((t : Service) → In t (s ∷ ts) → precedes (last_of s ts) t ≡ false)
unfolding last_of
last_of-last s [] h = (
  inl refl,
  λ t i. elim i [
    | inl is ↦ subst (λ u. precedes s u ≡ false) (sym is) (precedes_irreflexive s)
    | inr j ↦ absurd j
  ],
)
last_of-last s (t ∷ ts) (least, h) =
    let (i, last) = last_of-last t ts h in
    (
      inr i,
      λ u j. elim j [
        | inl is ↦ subst (λ v. precedes (last_of t ts) v ≡ false) (sym is) (least (last_of t ts) i)
        | inr k ↦ last u k
      ],
    )
