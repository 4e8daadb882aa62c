-- ===== src/Json/Parse.antt =====
-- The class Parser of src/common/json.cpp. `text_` and `pos_` are the text that is left, and an
-- exception is a refusal. `from_chars` is std::from_chars on a whole token, `none` where it fails or
-- leaves a part of the token.
pub mod Total
use gdb_cli_tools.Prelude.{
  ℕ, zero, suc, ◌+◌, ◌*◌, Bool, true, false, ◌||◌, Option, none, some, [], ◌∷◌, ◌++◌, ◌==◌,
  if◌then◌else◌, length, is_empty, drop, Bytes, codes, quote_mark, is_digit,
}
use gdb_cli_tools.Prelude.Parsed.{
  Parsed, ok, failed, out_of_fuel, ◌>>=◌, skip_space, peek, advance, consume, after_element,
}
use gdb_cli_tools.Text.{starts_with}
use gdb_cli_tools.Json.Text.{parse_string}
use gdb_cli_tools.Json.Value.{
  Json, Items, Members, null, bool, number, string, array, object, no_items, item, no_members,
  emplace,
}

-- The digits at the front of a text, and the rest.
unfoldable pub span_digits : Bytes → Bytes × Bytes
span_digits [] = ([], [])
span_digits (c ∷ s) = let r = span_digits s in if is_digit c then (c ∷ r.0, r.1) else ([], c ∷ s)

-- Digits, and a point with digits.
unfoldable pub unsigned_token : Bytes → Bytes × Bytes
unfolding span_digits
unsigned_token s =
    let whole = span_digits s in
    let part = span_digits (advance whole.1) in
    if peek b'.' whole.1 then (whole.0 ++ b'.' ∷ part.0, part.1) else whole

-- The token of parse_number and what follows it.
unfoldable pub number_token : Bytes → Bytes × Bytes
unfolding unsigned_token
number_token s =
    let digits = unsigned_token (advance s) in
    if peek b'-' s then (b'-' ∷ digits.0, digits.1) else unsigned_token s

-- Does parse_value go to parse_number?
abbrev pub starts_number : Bytes → Bool
starts_number [] = false
starts_number (c ∷ s) = c == b'-' || is_digit c

module _ {N : Type 0} (from_chars : Bytes → Option N) where
  unfoldable pub read_token : Bytes × Bytes → Parsed (Json N × Bytes)
  read_token (token, r) = elim (from_chars token) [ none ↦ failed | some x ↦ ok (number x, r) ]

  unfoldable pub parse_number : Bytes → Parsed (Json N × Bytes)
  unfolding number_token read_token
  parse_number s = read_token (number_token s)

  unfoldable pub parse_bool : Bytes → Parsed (Json N × Bytes)
  unfolding starts_with
  parse_bool s =
      if starts_with s (codes "true")
      then ok (bool true, drop 4 s)
      else if starts_with s (codes "false")
      then ok (bool false, drop 5 s)
      else failed

  unfoldable pub parse_null : Bytes → Parsed (Json N × Bytes)
  unfolding starts_with
  parse_null s = if starts_with s (codes "null") then ok (null, drop 4 s) else failed

  unfoldable pub parse_text : Bytes → Parsed (Json N × Bytes)
  unfolding parse_string
  parse_text s = parse_string s >>= λ (t, r). ok (string t, r)

  -- The values that hold no others.
  unfoldable pub parse_scalar : Bytes → Parsed (Json N × Bytes)
  unfolding parse_bool parse_null parse_number parse_text
  parse_scalar t =
      if peek quote_mark t
      then parse_text t
      else if peek b't' t || peek b'f' t
      then parse_bool t
      else if peek b'n' t
      then parse_null t
      else if starts_number t
      then parse_number t
      else failed

  unfoldable pub expect : ℕ → Bytes → Parsed (Unit {0} × Bytes)
  expect c s = elim (consume c s) [ none ↦ failed | some r ↦ ok (tt, r) ]

  unfoldable mutual
    pub parse_value : ℕ → Bytes → Parsed (Json N × Bytes)
    parse_value zero s = out_of_fuel
    parse_value (suc f) s =
        let t = skip_space s in
        let members = parse_members f (advance t) no_members >>= λ (m, r). ok (object m, r) in
        let elements = parse_items f (advance t) >>= λ (xs, r). ok (array xs, r) in
        if peek b'{' t
        then elim (consume b'}' (advance t)) [ some r ↦ ok (object no_members, r) | none ↦ members ]
        else if peek b'[' t
        then elim (consume b']' (advance t)) [ some r ↦ ok (array no_items, r) | none ↦ elements ]
        else parse_scalar t

    pub parse_members : ℕ → Bytes → Members N → Parsed (Members N × Bytes)
    parse_members zero s m = out_of_fuel
    parse_members (suc f) s m = parse_string s >>= λ (key, r). expect b':' r >>= λ (_, r₁).
        parse_value f r₁ >>= λ (v, r₂).
        after_element b'}' r₂ (emplace key v m) (λ r₃. parse_members f r₃ (emplace key v m))

    pub parse_items : ℕ → Bytes → Parsed (Items N × Bytes)
    parse_items zero s = out_of_fuel
    parse_items (suc f) s = parse_value f s >>= λ (v, r).
        after_element b']' r (item v no_items)
          (λ r₁. parse_items f r₁ >>= λ (xs, r₂). ok (item v xs, r₂))

  -- Parser(text).parse(): nothing but white space may follow the value.
  unfoldable pub parse_json : Bytes → Parsed (Json N)
  unfolding parse_value parse_scalar after_element expect parse_string emplace
  parse_json s = parse_value (2 * length s + 2) (skip_space s) >>= λ (v, r).
      if is_empty (skip_space r) then ok v else failed
