-- ===== src/Text/Slug.antt =====
-- The shape of the names that slugify makes, which the stores use as file names.
use gdb_cli_tools.Prelude.{
  ℕ, ◌≡◌, refl, ◌↔◌, ◌⊎◌, inl, inr, Bool, true, false, ◌&&◌, ◌||◌, [], ◌∷◌, arith, ◌==◌,
  if◌then◌else◌, Bool-cases, Bytes, is_digit, is_lower, is_alnum, to_lower,
}
use gdb_cli_tools.Text.{SlugEnd, empty, dash, word, slug_loop, pop_dashes, slugify}

-- A byte of a slug's words: a digit or a small letter.
abbrev pub is_word : ℕ → Bool
is_word c = is_digit c || is_lower c

-- [a-z0-9]+(-[a-z0-9]+)*, read behind the state `last`.
abbrev pub is_slug_from : SlugEnd → Bytes → Bool
is_slug_from word [] = true
is_slug_from empty [] = false
is_slug_from dash [] = false
is_slug_from word (c ∷ s) =
    if is_word c then is_slug_from word s else c == b'-' && is_slug_from dash s
is_slug_from empty (c ∷ s) = is_word c && is_slug_from word s
is_slug_from dash (c ∷ s) = is_word c && is_slug_from word s

abbrev pub is_slug : Bytes → Bool
is_slug s = is_slug_from empty s

-- The same, when the text may end anywhere.
abbrev begins_slug : SlugEnd → Bytes → Bool
begins_slug last [] = true
begins_slug word (c ∷ s) = if is_word c then begins_slug word s else c == b'-' && begins_slug dash s
begins_slug empty (c ∷ s) = is_word c && begins_slug word s
begins_slug dash (c ∷ s) = is_word c && begins_slug word s

to_lower-is_word : (c : ℕ) → is_alnum c ≡ true → is_word (to_lower c) ≡ true
to_lower-is_word c h = ground arith

slug_loop-begins : (last : SlugEnd) (s : Bytes) → begins_slug last (slug_loop last s) ≡ true
unfolding slug_loop
slug_loop-begins last [] = refl
slug_loop-begins word (c ∷ s) =
    ground (arith, to_lower-is_word c, slug_loop-begins word s, slug_loop-begins dash s)
slug_loop-begins empty (c ∷ s) =
    ground (arith, to_lower-is_word c, slug_loop-begins word s, slug_loop-begins empty s)
slug_loop-begins dash (c ∷ s) =
    ground (arith, to_lower-is_word c, slug_loop-begins word s, slug_loop-begins dash s)

pop_dashes-is_slug :
    (last : SlugEnd) (t : Bytes)
    → begins_slug last t ≡ true
    → (pop_dashes t ≡ []) ⊎ (is_slug_from last (pop_dashes t) ≡ true)
unfolding pop_dashes
pop_dashes-is_slug last [] h = inl refl
pop_dashes-is_slug word (c ∷ t) h =
    ground (arith, pop_dashes-is_slug word t, pop_dashes-is_slug dash t)
pop_dashes-is_slug empty (c ∷ t) h = ground (arith, pop_dashes-is_slug word t)
pop_dashes-is_slug dash (c ∷ t) h = ground (arith, pop_dashes-is_slug word t)

-- Whatever the title, slugify gives a slug: words of digits and small letters, joined by single
-- dashes, and at least one word.
pub slugify-is_slug : (s : Bytes) → is_slug (slugify s) ≡ true
unfolding slugify
slugify-is_slug s =
    ground (arith, pop_dashes-is_slug empty (slug_loop empty s) (slug_loop-begins empty s))

slug_loop_fixed : (last : SlugEnd) (s : Bytes) → is_slug_from last s ≡ true → slug_loop last s ≡ s
unfolding slug_loop
slug_loop_fixed last [] h = refl
slug_loop_fixed word (c ∷ s) h = ground (arith, slug_loop_fixed word s, slug_loop_fixed dash s)
slug_loop_fixed empty (c ∷ s) h = ground (arith, slug_loop_fixed word s)
slug_loop_fixed dash (c ∷ s) h = ground (arith, slug_loop_fixed word s)

and→left : (a b : Bool) → (a && b) ≡ true → a ≡ true
and→left true b h = refl
and→left false b h = cc

and→right : (a b : Bool) → (a && b) ≡ true → b ≡ true
and→right true b h = h
and→right false b h = cc

if_and_false {ℓ} : {A : Type ℓ} (a : Bool) (x y : A) → (if a && false then x else y) ≡ y
if_and_false true x y = refl
if_and_false false x y = refl

not_dash : (c : ℕ) → is_word c ≡ true → (c == b'-') ≡ false
not_dash c h = ground arith

pop_dashes_fixed : (last : SlugEnd) (s : Bytes) → is_slug_from last s ≡ true → pop_dashes s ≡ s
unfolding pop_dashes
pop_dashes_fixed last [] h = refl
pop_dashes_fixed word (c ∷ []) h = elim (Bool-cases (is_word c)) [
  | inl w ↦ rw (not_dash c w)
  | inr n ↦ ground arith
]
pop_dashes_fixed word (c ∷ d ∷ s) h = elim (Bool-cases (is_word c)) [
  | inl w ↦ rw (pop_dashes_fixed word (d ∷ s) (rw w at h), not_dash c w)
  | inr n ↦
      rw (pop_dashes_fixed dash (d ∷ s) (and→right (c == b'-') _ (rw n at h)))
        (if_and_false (c == b'-') _ _)
]
pop_dashes_fixed empty (c ∷ s) h = rw (
  not_dash c (and→left _ (is_slug_from word s) h),
  pop_dashes_fixed word s (and→right (is_word c) _ h),
)
pop_dashes_fixed dash (c ∷ s) h = rw (
  not_dash c (and→left _ (is_slug_from word s) h),
  pop_dashes_fixed word s (and→right (is_word c) _ h),
)

-- slugify leaves a text as it is exactly when the text is a slug.
pub slugify_fixed_iff : (s : Bytes) → (slugify s ≡ s) ↔ (is_slug s ≡ true)
slugify_fixed_iff s = (λ e. rw e at (slugify-is_slug s), back s)
  where
    back : (t : Bytes) → is_slug t ≡ true → slugify t ≡ t
    back [] h = cc
    back (c ∷ t) h =
        unfold slugify in rw (slug_loop_fixed empty (c ∷ t) h, pop_dashes_fixed empty (c ∷ t) h)
