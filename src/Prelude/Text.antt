-- ===== src/Prelude/Text.antt =====
-- Python texts as lists of code points, with the methods of `str` and `re` that the code calls.
-- `upper` and `lower` are those of ASCII; `is_space` is `str.isspace` and the `\s` of `re`.
use Prim.Native.Char.{code}
use Prim.Native.String.{String}
use marine_time_motion_platf.Prelude.{
  ℕ, ◌+◌, ◌-◌, ◌≡◌, ◌≢◌, refl, ◌↔◌, Bool, true, false, ◌&&◌, ◌||◌, not, List, [], ◌∷◌, map, arith,
  leb, ◌==◌, if◌then◌else◌,
}

abbrev pub Text : Type 0
Text = List ℕ

abbrev pub text : String → Text
text String.[] = []
text (String.◌∷◌ c s) = code c ∷ text s

infix 50 ◌=ᵗ◌
unfoldable pub ◌=ᵗ◌ : Text → Text → Bool
[] =ᵗ [] = true
[] =ᵗ (y ∷ ys) = false
(x ∷ xs) =ᵗ [] = false
(x ∷ xs) =ᵗ (y ∷ ys) = (x == y) && (xs =ᵗ ys)

pub =ᵗ_iff : (s t : Text) → ((s =ᵗ t) ≡ true) ↔ (s ≡ t)
unfolding ◌=ᵗ◌
=ᵗ_iff [] [] = ground arith
=ᵗ_iff [] (y ∷ ys) = ground arith
=ᵗ_iff (x ∷ xs) [] = ground arith
=ᵗ_iff (x ∷ xs) (y ∷ ys) = ground (arith, =ᵗ_iff xs ys)

pub =ᵗ_refl : (s : Text) → (s =ᵗ s) ≡ true
=ᵗ_refl s = (=ᵗ_iff s s).1 refl

pub =ᵗ_comm : (s t : Text) → (s =ᵗ t) ≡ (t =ᵗ s)
=ᵗ_comm s t = ground (arith, =ᵗ_iff s t, =ᵗ_iff t s)

-- `bool(s)`
abbrev pub non_empty : Text → Bool
non_empty [] = false
non_empty (x ∷ xs) = true

pub non_empty_iff : (t : Text) → (non_empty t ≡ true) ↔ (t ≢ [])
non_empty_iff [] = ground arith
non_empty_iff (c ∷ cs) = ground arith

unfoldable pub is_space : ℕ → Bool
is_space c =
    (leb 9 c && leb c 13)
    || (leb 28 c && leb c 32)
    || c == 0x85
    || c == 0xa0
    || c == 0x1680
    || (leb 0x2000 c && leb c 0x200a)
    || c == 0x2028
    || c == 0x2029
    || c == 0x202f
    || c == 0x205f
    || c == 0x3000

unfoldable pub lstrip : Text → Text
lstrip [] = []
lstrip (x ∷ xs) = let rest = lstrip xs in if is_space x then rest else x ∷ xs

unfoldable pub rstrip : Text → Text
rstrip [] = []
rstrip (x ∷ xs) =
    let rest = rstrip xs in if is_space x && not (non_empty rest) then [] else x ∷ rest

unfoldable pub strip : Text → Text
unfolding lstrip rstrip
strip s = rstrip (lstrip s)

abbrev pub to_upper : ℕ → ℕ
to_upper c = if leb b'a' c && leb c b'z' then c - 32 else c

abbrev pub to_lower : ℕ → ℕ
to_lower c = if leb b'A' c && leb c b'Z' then c + 32 else c

unfoldable pub upper : Text → Text
upper s = map to_upper s

unfoldable pub lower : Text → Text
lower s = map to_lower s

unfoldable pub starts_with : Text → Text → Bool
starts_with [] t = true
starts_with (x ∷ xs) [] = false
starts_with (x ∷ xs) (y ∷ ys) = (x == y) && starts_with xs ys

-- `sub in t`
unfoldable pub occurs : Text → Text → Bool
unfolding starts_with
occurs sub [] = not (non_empty sub)
occurs sub (y ∷ ys) = starts_with sub (y ∷ ys) || occurs sub ys

-- `t.endswith(c)` for a text of one character
unfoldable pub ends_with : ℕ → Text → Bool
ends_with c [] = false
ends_with c (y ∷ []) = c == y
ends_with c (y ∷ z ∷ zs) = ends_with c (z ∷ zs)

-- `re.sub(r"[p]+", " ", t)`: each maximal run of characters that satisfy `p` becomes one space.
-- `inside` says that a run is being replaced.
unfoldable pub sub_runs : (ℕ → Bool) → Bool → Text → Text
sub_runs p inside [] = []
sub_runs p inside (x ∷ xs) =
    let run = sub_runs p true xs in
    let plain = sub_runs p false xs in if p x then (if inside then run else 32 ∷ run) else x ∷ plain
