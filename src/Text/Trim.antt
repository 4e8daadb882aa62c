-- ===== src/Text/Trim.antt =====
-- What trim_view leaves and what it takes away.
use gdb_cli_tools.Prelude.{
  ◌≡◌, refl, ap, ◌∙◌, true, false, ◌&&◌, [], ◌∷◌, ◌++◌, Bytes, is_space, is_empty, every, arith,
  if◌then◌else◌, inl, inr, Bool-cases,
}
use gdb_cli_tools.Text.{trim_front, trim_back, trim}

-- The first byte, if there is one, is no space.
abbrev pub StartsClean : Bytes → Type 0
StartsClean [] = Unit
StartsClean (c ∷ s) = is_space c ≡ false

-- The last byte, if there is one, is no space.
abbrev pub EndsClean : Bytes → Type 0
EndsClean [] = Unit
EndsClean (c ∷ []) = is_space c ≡ false
EndsClean (c ∷ d ∷ s) = EndsClean (d ∷ s)

trim_front-StartsClean : (s : Bytes) → StartsClean (trim_front s)
unfolding trim_front
trim_front-StartsClean [] = tt
trim_front-StartsClean (c ∷ s) = elim (Bool-cases (is_space c)) [
  | inl e ↦ rw e (trim_front-StartsClean s)
  | inr e ↦ rw e e
]

trim_front_split :
    (s : Bytes) → (pre : Bytes) × (every is_space pre ≡ true) × (s ≡ pre ++ trim_front s)
unfolding trim_front
trim_front_split [] = ([], refl, refl)
trim_front_split (c ∷ s) = elim (Bool-cases (is_space c)) [
  | inl e ↦ let (pre, h, p) = trim_front_split s in (c ∷ pre, rw e h, rw e (ap (λ t. c ∷ t) p))
  | inr e ↦ ([], refl, rw e)
]

is_empty→nil : (s : Bytes) → is_empty s ≡ true → s ≡ []
is_empty→nil [] h = refl
is_empty→nil (c ∷ s) h = cc

trim_back_split :
    (s : Bytes) → (post : Bytes) × (every is_space post ≡ true) × (s ≡ trim_back s ++ post)
unfolding trim_back
trim_back_split [] = ([], refl, refl)
trim_back_split (c ∷ s) =
    let (post, h, p) = trim_back_split s in
    elim (Bool-cases (is_space c && is_empty (trim_back s))) [
      | inl e ↦ (
        c ∷ post,
        ground arith,
        rw e (ap (λ t. c ∷ t) (rw (is_empty→nil (trim_back s) (ground arith)) at p)),
      )
      | inr e ↦ (post, h, rw e (ap (λ t. c ∷ t) p))
    ]

trim_back-EndsClean : (s : Bytes) → EndsClean (trim_back s)
unfolding trim_back
trim_back-EndsClean [] = tt
trim_back-EndsClean (c ∷ s) = clean (trim_back s) (trim_back-EndsClean s)
  where
    clean : (r : Bytes) → EndsClean r → EndsClean (if is_space c && is_empty r then [] else c ∷ r)
    clean [] h = elim (Bool-cases (is_space c)) [ inl e ↦ rw e tt | inr e ↦ rw e e ]
    clean (d ∷ r) h = elim (Bool-cases (is_space c)) [ inl e ↦ rw e h | inr e ↦ rw e h ]

trim_back-StartsClean : (s : Bytes) → StartsClean s → StartsClean (trim_back s)
unfolding trim_back
trim_back-StartsClean [] h = tt
trim_back-StartsClean (c ∷ s) h = rw h h

-- trim takes white space off both ends and nothing else: the text is some spaces, the result and
-- some spaces, and the result neither begins nor ends with a space.
pub trim_lem :
    (s : Bytes)
    → ((pre : Bytes) × (post : Bytes) × (every is_space pre ≡ true)
        × (every is_space post ≡ true)
        × (s ≡ pre ++ (trim s ++ post)))
      × StartsClean (trim s)
      × EndsClean (trim s)
unfolding trim
trim_lem s =
    let (pre, h, p) = trim_front_split s in
    let (post, k, q) = trim_back_split (trim_front s) in
    (
      (pre, post, h, k, p ∙ ap (λ t. pre ++ t) q),
      trim_back-StartsClean (trim_front s) (trim_front-StartsClean s),
      trim_back-EndsClean (trim_front s),
    )

-- A text with clean ends is left as it is.
pub trim_clean : (s : Bytes) → StartsClean s → EndsClean s → trim s ≡ s
unfolding trim
trim_clean s h k = rw (front s h) (back s k)
  where
    front : (t : Bytes) → StartsClean t → trim_front t ≡ t
    front [] h = refl
    front (c ∷ t) h = rw h

    back : (t : Bytes) → EndsClean t → trim_back t ≡ t
    back [] k = refl
    back (c ∷ []) k = rw k
    back (c ∷ d ∷ t) k = rw (back (d ∷ t) k) (ground arith)

-- Trimming twice is trimming once.
pub trim_idem : (s : Bytes) → trim (trim s) ≡ trim s
trim_idem s = let (_, h, k) = trim_lem s in trim_clean (trim s) h k
