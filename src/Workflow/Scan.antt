-- ===== src/Workflow/Scan.antt =====
-- The values that src/workflow/hypothesis.cpp finds in a text. A regular expression is the scanner that
-- it stands for: at each byte the longest match, and the search goes on behind a match. `strtoll` and
-- `strtoull` are the C functions on a whole token, `none` for an error or a token that is not read to
-- its end.
use gdb_cli_tools.Prelude.{
  ℕ, zero, suc, ◌+◌, ◌-◌, Bool, true, false, ◌&&◌, ◌||◌, Option, none, some, List, [], ◌∷◌, ◌++◌,
  ltb, leb, ◌==◌, if◌then◌else◌, length, is_empty, take, drop, every, Bytes, codes, is_space,
  is_digit, is_alnum,
}
use gdb_cli_tools.Task.Load.{ℤ, pos, negsuc}
use gdb_cli_tools.Text.{trim}
use gdb_cli_tools.Mi.Value.{span}
use gdb_cli_tools.Mi.Escape.{after_text}
use gdb_cli_tools.Gdb.Session.{contains}
use gdb_cli_tools.Action.Export.{same_int}
use gdb_cli_tools.Evidence.Frames.{find_text}

abbrev pub is_hex_digit : ℕ → Bool
is_hex_digit c = is_digit c || ((leb 97 c && leb c 102) || (leb 65 c && leb c 70))

abbrev pub starts_space : Bytes → Bool
starts_space [] = true
starts_space (c ∷ s) = is_space c

-- (^|[=\s])0($|\s); `opens` says that what stands before the rest is the start, = or a space.
unfoldable pub zero_search : Bool → Bytes → Bool
zero_search opens [] = false
zero_search opens (c ∷ s) =
    (opens && (c == b'0' && starts_space s)) || zero_search (c == b'=' || is_space c) s

unfoldable pub contains_null_marker : Bytes → Bool
unfolding zero_search after_text
contains_null_marker observed =
    contains (codes "0x0") observed
    || (zero_search true observed
        || (contains (codes "= nullptr") observed || contains (codes "(nil)") observed))

-- How many bytes 0x and hexadecimal digits take at the front; none where there is no digit.
unfoldable pub hex_length : (ℕ → Bool) → Bytes → ℕ
unfolding span
hex_length is_x (z ∷ x ∷ s) =
    let n = length ((span is_hex_digit s).0) in
    if z == b'0' && (is_x x && ltb 0 n) then n + 2 else 0
hex_length is_x _ = 0

-- 0x[0-9a-fA-F]+|[0-9]+
unfoldable pub unsigned_length : Bytes → ℕ
unfolding hex_length span
unsigned_length s =
    let n = hex_length (λ x. x == b'x') s in if n == 0 then length ((span is_digit s).0) else n

abbrev pub is_sign : ℕ → Bool
is_sign c = c == b'+' || c == b'-'

abbrev pub with_sign : ℕ → ℕ
with_sign n = if n == 0 then 0 else suc n

-- [+-]?(?:0x[0-9a-fA-F]+|[0-9]+): how many bytes it takes at the front.
unfoldable pub number_length : Bytes → ℕ
unfolding unsigned_length
number_length [] = 0
number_length (c ∷ s) = if is_sign c then with_sign (unsigned_length s) else unsigned_length (c ∷ s)

-- 0[xX][0-9a-fA-F]+
unfoldable pub address_length : Bytes → ℕ
unfolding hex_length
address_length s = hex_length (λ x. x == b'x' || x == b'X') s

abbrev pub is_name_byte : ℕ → Bool
is_name_byte c = is_alnum c || c == b'_'

abbrev pub starts_name : Bytes → Bool
starts_name [] = false
starts_name (c ∷ s) = is_name_byte c

-- The tokens that stand alone: `before` judges the byte in front, and no name goes on behind one.
-- `skip` counts the bytes of a match that are still to be passed over.
unfoldable pub tokens_loop : (Bytes → ℕ) → (ℕ → Bool) → Bool → ℕ → Bytes → List Bytes
tokens_loop measure before joined skip [] = []
tokens_loop measure before joined (suc skip) (c ∷ s) = tokens_loop measure before (before c) skip s
tokens_loop measure before joined zero (c ∷ s) =
    let n = measure (c ∷ s) in
    let pass = tokens_loop measure before (before c) 0 s in
    let behind = tokens_loop measure before (before c) (n - 1) s in
    if n == 0
    then pass
    else if joined || starts_name (drop n (c ∷ s))
    then behind
    else take n (c ∷ s) ∷ behind

-- The values of the tokens that the C function reads.
unfoldable pub values_of : {V : Type 0} → (Bytes → Option V) → List Bytes → List V
values_of read [] = []
values_of read (token ∷ tokens) = elim (read token) [
  | some value ↦ value ∷ values_of read tokens
  | none ↦ values_of read tokens
]

-- A value, or the reason why there is none.
pub data Found (V : Type 0) : Type 0 where
  value : V → Found V
  missing : Bytes → Found V

abbrev pub all_same : {V : Type 0} → (V → V → Bool) → V → List V → Bool
all_same same_value first values = every (λ v. same_value v first) values

unfoldable pub single : {V : Type 0} → (V → V → Bool) → Bytes → Bytes → List V → Found V
single same_value no_value several [] = missing no_value
single same_value no_value several (first ∷ values) =
    if all_same same_value first (first ∷ values) then value first else missing several

-- -0 and 0 are one int.
abbrev pub leb_int : ℤ → ℤ → Bool
leb_int (pos m) (pos n) = leb m n
leb_int (pos m) (negsuc n) = false
leb_int (negsuc m) (pos n) = true
leb_int (negsuc m) (negsuc n) = leb n m

module _ (strtoll : Bytes → Option ℤ) where
  unfoldable pub extract_numeric_values : Bytes → List ℤ
  unfolding values_of tokens_loop number_length
  extract_numeric_values text =
      values_of strtoll (tokens_loop number_length (λ c. c == b'$' || is_name_byte c) false 0 text)

  unfoldable pub extract_single_numeric_value : Bytes → Found ℤ
  unfolding extract_numeric_values single
  extract_single_numeric_value text =
      single same_int (codes "numeric assertion could not find an integer value")
        (codes "numeric assertion found multiple different integer values")
        (extract_numeric_values text)

  -- LOW..HIGH behind the tests of its form.
  unfoldable pub bounds_of : Found ℤ → Found ℤ → Found (ℤ × ℤ)
  bounds_of (missing reason) high = missing (codes "between lower bound invalid: " ++ reason)
  bounds_of (value low) (missing reason) = missing (codes "between upper bound invalid: " ++ reason)
  bounds_of (value low) (value high) =
      if leb_int low high
      then value (low, high)
      else missing (codes "between lower bound is greater than upper bound")

  unfoldable pub bounds_between : Bytes → Bytes → Found (ℤ × ℤ)
  unfolding extract_single_numeric_value bounds_of
  bounds_between low_text high_text =
      if is_empty low_text || is_empty high_text
      then missing (codes "between expected must include both LOW and HIGH")
      else bounds_of (extract_single_numeric_value low_text)
          (extract_single_numeric_value high_text)

  unfoldable pub parse_between_bounds : Bytes → Found (ℤ × ℤ)
  unfolding find_text trim after_text bounds_between
  parse_between_bounds expected = elim (find_text (codes "..") expected) [
    | none ↦ missing (codes "between expected must use LOW..HIGH")
    | some sep ↦
        if contains (codes "..") (drop (sep + 2) expected)
        then missing (codes "between expected must use LOW..HIGH")
        else bounds_between (trim (take sep expected)) (trim (drop (sep + 2) expected))
  ]

module _ (strtoull : Bytes → Option ℕ) where
  -- parse_address_token: the digits behind 0x.
  abbrev pub parse_address_token : Bytes → Option ℕ
  parse_address_token token = strtoull (drop 2 token)

  unfoldable pub extract_address_values : Bytes → List ℕ
  unfolding values_of tokens_loop address_length
  extract_address_values text =
      values_of parse_address_token (tokens_loop address_length is_name_byte false 0 text)

  unfoldable pub extract_single_address_value : Bytes → Found ℕ
  unfolding extract_address_values single
  extract_single_address_value text =
      single (λ a b. a == b) (codes "address assertion could not find a hex address")
        (codes "address assertion found multiple different addresses") (extract_address_values text)
