-- ===== src/Gdb/Decimal.antt =====
-- std::to_string of an unsigned number. Each round divides by ten; one unit of fuel for each unit of
-- the number is more than enough.
use gdb_cli_tools.Prelude.{
  ℕ, zero, suc, ◌+◌, ◌-◌, ◌*◌, ◌/◌, ◌%◌, ◌<◌, ◌≡◌, refl, sym, ap, ◌∙◌, inl, inr, true, [], ◌∷◌,
  ◌++◌, arith, ltb, if◌then◌else◌, ltb→lt, Bool-cases, every, Bytes, is_digit,
}

unfoldable pub digits : ℕ → ℕ → Bytes
digits zero n = []
digits (suc f) n =
    let more = digits f (n / 10) in if ltb n 10 then (48 + n) ∷ [] else more ++ (48 + n % 10) ∷ []

unfoldable pub to_string : ℕ → Bytes
unfolding digits
to_string n = digits (suc n) n

-- The number that digits stand for, behind the number `acc`.
abbrev pub value_from : ℕ → Bytes → ℕ
value_from acc [] = acc
value_from acc (c ∷ s) = value_from (acc * 10 + (c - 48)) s

value_from-append :
    (acc : ℕ) (s : Bytes) (c : ℕ) → value_from acc (s ++ c ∷ []) ≡ value_from acc s * 10 + (c - 48)
value_from-append acc [] c = refl
value_from-append acc (d ∷ s) c = value_from-append (acc * 10 + (d - 48)) s c

digits_lem :
    (f n : ℕ) → n < f → (value_from 0 (digits f n) ≡ n) × (every is_digit (digits f n) ≡ true)
unfolding digits
digits_lem zero n h = absurd (omega arith)
digits_lem (suc f) n h = elim (Bool-cases (ltb n 10)) [
  | inl e ↦ rw e (omega (arith, ltb→lt n 10 e), ground (arith, ltb→lt n 10 e))
  | inr e ↦
      let (v, d) = digits_lem f (n / 10) (ground arith) in
      rw e (
        value_from-append 0 (digits f (n / 10)) (48 + n % 10) ∙ omega (arith, v),
        every-append (digits f (n / 10)) (n % 10) d (omega arith),
      )
]
  where
    every-append :
        (s : Bytes) (d : ℕ)
        → every is_digit s ≡ true
        → d < 10
        → every is_digit (s ++ (48 + d) ∷ []) ≡ true
    every-append [] d h lt = ground arith
    every-append (c ∷ s) d h lt = ground (arith, every-append s d)

pub to_string-digits : (n : ℕ) → every is_digit (to_string n) ≡ true
unfolding to_string
to_string-digits n = (digits_lem (suc n) n (omega arith)).1

pub value_from-to_string : (n : ℕ) → value_from 0 (to_string n) ≡ n
unfolding to_string
value_from-to_string n = (digits_lem (suc n) n (omega arith)).0

pub to_string-injective : (n m : ℕ) → to_string n ≡ to_string m → n ≡ m
to_string-injective n m e =
    sym (value_from-to_string n) ∙ ap (value_from 0) e ∙ value_from-to_string m
