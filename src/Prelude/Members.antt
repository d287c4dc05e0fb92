-- ===== src/Prelude/Members.antt =====
-- Membership by recursion: where a proof splits on where an element stands.
use marine_time_motion_platf.Prelude.{
  ◌≡◌, refl, sym, ap, subst, ◌∙◌, ◌⊎◌, inl, inr, Bool, true, false, List, [], ◌∷◌, ◌++◌, map,
  filter, find, if◌then◌else◌, none, some, Bool-cases, arith,
}

module _ {A : Type 0} where
  abbrev pub In : A → List A → Type 0
  In a [] = ⊥
  In a (x ∷ xs) = (a ≡ x) ⊎ In a xs

  pub find-In : (p : A → Bool) (xs : List A) (a : A) → find p xs ≡ some a → In a xs × (p a ≡ true)
  find-In p [] a h = absurd (ground arith)
  find-In p (x ∷ xs) a h = elim (Bool-cases (p x)) [
    | inl here ↦ ground arith
    | inr more ↦ ground (arith, find-In p xs a)
  ]

  pub find-none : (p : A → Bool) (xs : List A) (a : A) → find p xs ≡ none → In a xs → p a ≡ false
  find-none p [] a h i = absurd i
  find-none p (x ∷ xs) a h (inl e) = elim (Bool-cases (p x)) [
    | inl here ↦ absurd (ground arith)
    | inr more ↦ ap p e ∙ more
  ]
  find-none p (x ∷ xs) a h (inr i) = elim (Bool-cases (p x)) [
    | inl here ↦ absurd (ground arith)
    | inr more ↦ find-none p xs a (ground arith) i
  ]

  pub In-append : (a : A) (xs ys : List A) → In a (xs ++ ys) → In a xs ⊎ In a ys
  In-append a [] ys h = inr h
  In-append a (x ∷ xs) ys (inl e) = inl (inl e)
  In-append a (x ∷ xs) ys (inr h) = elim (In-append a xs ys h) [
    | inl l ↦ inl (inr l)
    | inr r ↦ inr r
  ]

  pub append-In : (a : A) (xs ys : List A) → In a xs → In a (xs ++ ys)
  append-In a [] ys i = absurd i
  append-In a (x ∷ xs) ys (inl e) = inl e
  append-In a (x ∷ xs) ys (inr i) = inr (append-In a xs ys i)

  -- What stands in one of two lists, by a test.
  pub In-if :
      (b : Bool) (a : A) (xs ys : List A)
      → In a (if b then xs else ys)
      → ((b ≡ true) × In a xs) ⊎ ((b ≡ false) × In a ys)
  In-if true a xs ys i = inl (refl, i)
  In-if false a xs ys i = inr (refl, i)

  pub In-filter : (p : A → Bool) (xs : List A) (a : A) → In a (filter p xs) → In a xs × (p a ≡ true)
  In-filter p [] a h = absurd h
  In-filter p (x ∷ xs) a h = elim (In-if (p x) a (x ∷ filter p xs) (filter p xs) h) [
    | inl (here, inl e) ↦ (inl e, ap p e ∙ here)
    | inl (here, inr i) ↦ let (j, holds) = In-filter p xs a i in (inr j, holds)
    | inr (more, i) ↦ let (j, holds) = In-filter p xs a i in (inr j, holds)
  ]

  pub filter-In : (p : A → Bool) (xs : List A) (a : A) → In a xs → p a ≡ true → In a (filter p xs)
  filter-In p [] a i h = absurd i
  filter-In p (x ∷ xs) a (inl e) h =
      let here : p x ≡ true = sym (ap p e) ∙ h in
      subst (In a) (ap (λ b. if b then x ∷ filter p xs else filter p xs) (sym here)) (inl e)
  filter-In p (x ∷ xs) a (inr i) h = elim (Bool-cases (p x)) [
    | inl here ↦
        subst (In a) (ap (λ b. if b then x ∷ filter p xs else filter p xs) (sym here))
          (inr (filter-In p xs a i h))
    | inr more ↦
        subst (In a) (ap (λ b. if b then x ∷ filter p xs else filter p xs) (sym more))
          (filter-In p xs a i h)
  ]

module _ {A B : Type 0} where
  -- What stands in an image comes from the list.
  pub In-map : (f : A → B) (xs : List A) (b : B) → In b (map f xs) → (a : A) × In a xs × (b ≡ f a)
  In-map f [] b h = absurd h
  In-map f (x ∷ xs) b (inl e) = (x, inl refl, e)
  In-map f (x ∷ xs) b (inr h) = let (a, i, e) = In-map f xs b h in (a, inr i, e)

  pub map-In : (f : A → B) (xs : List A) (a : A) → In a xs → In (f a) (map f xs)
  map-In f [] a h = absurd h
  map-In f (x ∷ xs) a (inl e) = inl (λ i. f (e i))
  map-In f (x ∷ xs) a (inr h) = inr (map-In f xs a h)
