-- ===== src/Prelude/Parsed.antt =====
-- The outcome of a recursive-descent parser that runs on fuel: a value with the input that is left,
-- a refusal, or too little fuel, which has no counterpart in the code.
use Prim.Native.Nat.{ℕ, ◌≤◌, ◌<◌}
use mathlib.Core.Path.{◌≡◌, refl}
use mathlib.Core.Logic.{◌≢◌}
use mathlib.Core.Bool.{Bool, true, false}
use mathlib.Core.Option.{Option, none, some}
use mathlib.Core.List.{[], ◌∷◌}
use native.Mathlib.Omega.{arith}
use gdb_cli_tools.Prelude.Tests.{if◌then◌else◌, ◌==◌}
use gdb_cli_tools.Prelude.Lists.{length}
use gdb_cli_tools.Prelude.Chars.{Bytes, is_space}

pub data Parsed {ℓ} (A : Type ℓ) : Type ℓ where
  ok : A → Parsed A
  failed out_of_fuel : Parsed A

module _ {ℓ κ} {A : Type ℓ} {B : Type κ} where
  infixl 5 ◌>>=◌
  abbrev pub ◌>>=◌ : Parsed A → (A → Parsed B) → Parsed B
  ok a >>= k = k a
  failed >>= k = failed
  out_of_fuel >>= k = out_of_fuel

-- The run kept within its fuel and leaves at most `n` bytes when it succeeds.
abbrev pub Within {ℓ} : {A : Type ℓ} → ℕ → Parsed (A × Bytes) → Type 0
Within n (ok (a, rest)) = length rest ≤ n
Within n failed = Unit
Within n out_of_fuel = ⊥

pub Within-bind {ℓ κ} :
    {A : Type ℓ} {B : Type κ} (m n : ℕ) (r : Parsed (A × Bytes))
    (k : A × Bytes → Parsed (B × Bytes))
    → Within m r
    → ((a : A) (rest : Bytes) → length rest ≤ m → Within n (k (a, rest)))
    → Within n (r >>= k)
Within-bind m n (ok (a, rest)) k h step = step a rest h
Within-bind m n failed k h step = tt
Within-bind m n out_of_fuel k h step = h

pub Within-mono {ℓ} :
    {A : Type ℓ} (m n : ℕ) (r : Parsed (A × Bytes)) → m ≤ n → Within m r → Within n r
Within-mono m n (ok (a, rest)) le h = omega arith
Within-mono m n failed le h = tt
Within-mono m n out_of_fuel le h = h

pub Within-if {ℓ} :
    {A : Type ℓ} (n : ℕ) (b : Bool) (x y : Parsed (A × Bytes))
    → (b ≡ true → Within n x)
    → (b ≡ false → Within n y)
    → Within n (if b then x else y)
Within-if n true x y h k = h (λ i. true)
Within-if n false x y h k = k (λ i. false)

pub Within-option {ℓ κ} :
    {A : Type ℓ} {B : Type κ} (n : ℕ) (o : Option B) (k : B → Parsed (A × Bytes))
    (d : Parsed (A × Bytes))
    → ((b : B) → o ≡ some b → Within n (k b))
    → Within n d
    → Within n (elim o [ some b ↦ k b | none ↦ d ])
Within-option n (some b) k d h g = h b (λ i. some b)
Within-option n none k d h g = g

pub Within-ne_out_of_fuel {ℓ} :
    {A : Type ℓ} (n : ℕ) (r : Parsed (A × Bytes)) → Within n r → r ≢ out_of_fuel
Within-ne_out_of_fuel n (ok a) h = cc
Within-ne_out_of_fuel n failed h = cc
Within-ne_out_of_fuel n out_of_fuel h = absurd h

-- while (pos_ < text_.size() && std::isspace(text_[pos_])) ++pos_
abbrev pub skip_space : Bytes → Bytes
skip_space [] = []
skip_space (c ∷ s) = if is_space c then skip_space s else c ∷ s

-- pos_ < text_.size() && text_[pos_] == c
abbrev pub peek : ℕ → Bytes → Bool
peek c [] = false
peek c (d ∷ s) = d == c

-- ++pos_
abbrev pub advance : Bytes → Bytes
advance [] = []
advance (c ∷ s) = s

-- Skip white space, then read one given byte.
abbrev pub consume : ℕ → Bytes → Option Bytes
consume c s = if peek c (skip_space s) then some (advance (skip_space s)) else none

pub length-skip_space : (s : Bytes) → length (skip_space s) ≤ length s
length-skip_space [] = omega arith
length-skip_space (c ∷ s) = ground (arith, length-skip_space s)

pub length-advance : (c : ℕ) (s : Bytes) → peek c s ≡ true → length (advance s) < length s
length-advance c [] h = cc
length-advance c (d ∷ s) h = omega arith

pub length-consume : (c : ℕ) (s r : Bytes) → consume c s ≡ some r → length r < length s
length-consume c s r h = ground (arith, length-skip_space s, length-advance c (skip_space s))

-- What follows an element: the closing bracket, or a comma and more.
unfoldable pub after_element :
    {A : Type 0} → ℕ → Bytes → A → (Bytes → Parsed (A × Bytes)) → Parsed (A × Bytes)
after_element close s last more = elim (consume close s) [
  | some r ↦ ok (last, r)
  | none ↦ elim (consume b',' s) [ some r ↦ more r | none ↦ failed ]
]

pub after_element-Within :
    {A : Type 0} (n close : ℕ) (s : Bytes) (last : A) (more : Bytes → Parsed (A × Bytes))
    → length s ≤ n
    → ((r : Bytes) → length r < length s → Within n (more r))
    → Within n (after_element close s last more)
unfolding after_element
after_element-Within n close s last more le h =
    Within-option n (consume close s) _ _ (λ r e. omega (arith, length-consume _ s r e))
      (Within-option n (consume b',' s) _ _ (λ r e. h r (length-consume _ s r e)) tt)

pub opened-Within :
    {A : Type 0} (n close : ℕ) (s : Bytes) (empty : A) (more : Parsed (A × Bytes))
    → length s ≤ n
    → Within n more
    → Within n (elim (consume close s) [ some r ↦ ok (empty, r) | none ↦ more ])
opened-Within n close s empty more le h =
    Within-option n (consume close s) _ _ (λ r e. omega (arith, length-consume _ s r e)) h

-- A text that opens a value or a name: its first byte is no space and no closing bracket.
abbrev pub Opens : Bytes → Type 0
Opens [] = ⊥
Opens (c ∷ s) = (is_space c ≡ false) × ((c == b']') ≡ false) × ((c == b'}') ≡ false)

pub Opens-skip_space : (s : Bytes) → Opens s → skip_space s ≡ s
Opens-skip_space [] h = refl
Opens-skip_space (c ∷ s) h = rw (h.0)

pub Opens-consume : (s : Bytes) → Opens s → (consume b']' s ≡ none) × (consume b'}' s ≡ none)
Opens-consume [] h = absurd h
Opens-consume (c ∷ s) (h, k, l) = (rw (h, k), rw (h, l))

module _ {A : Type 0} (s : Bytes) (last : A) (more : Bytes → Parsed (A × Bytes)) where
  pub brace_end : after_element b'}' (b'}' ∷ s) last more ≡ ok (last, s)
  unfolding after_element
  brace_end = refl

  pub brace_more : after_element b'}' (b',' ∷ s) last more ≡ more s
  unfolding after_element
  brace_more = refl

  pub bracket_end : after_element b']' (b']' ∷ s) last more ≡ ok (last, s)
  unfolding after_element
  bracket_end = refl

  pub bracket_more : after_element b']' (b',' ∷ s) last more ≡ more s
  unfolding after_element
  bracket_more = refl
