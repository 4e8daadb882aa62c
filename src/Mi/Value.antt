-- ===== src/Mi/Value.antt =====
-- The MiValue of src/gdb/mi_utils.hpp and the class MiValueParser of src/gdb/mi_utils.cpp. The
-- parser's `text_` and `pos_` are the text that is left; each call of parse_value, and each round of
-- the loops of parse_tuple and parse_list, costs one unit of fuel.
pub mod Total
pub mod Render
pub mod Lexemes
pub mod RoundTrip
use gdb_cli_tools.Prelude.{
  ℕ, zero, suc, ◌+◌, ◌*◌, ◌≡◌, refl, Bool, true, false, not, ◌||◌, Option, none, some, [], ◌∷◌,
  ◌++◌, ◌==◌, if◌then◌else◌, length, is_empty, Bytes, codes, quote_mark, backslash, is_alnum,
}
use gdb_cli_tools.Prelude.Parsed.{
  Parsed, ok, failed, out_of_fuel, ◌>>=◌, skip_space, peek, advance, consume, after_element,
}
use gdb_cli_tools.Mi.Escape.{unescape_mi_string}

mutual
  pub data MiValue : Type 0 where
    text : Bytes → MiValue
    bare : Bytes → MiValue
    tuple : MiFields → MiValue
    items : MiItems → MiValue

  pub data MiFields : Type 0 where
    no_fields : MiFields
    field : Bytes → MiValue → MiFields → MiFields

  pub data MiItems : Type 0 where
    no_items : MiItems
    item : MiValue → MiItems → MiItems

abbrev pub is_identifier : ℕ → Bool
is_identifier c = is_alnum c || (c == b'_' || c == b'-')

-- The bytes up to the first that fails the test, and the rest.
unfoldable pub span : (ℕ → Bool) → Bytes → Bytes × Bytes
span p [] = ([], [])
span p (c ∷ s) = let r = span p s in if p c then (c ∷ r.0, r.1) else ([], c ∷ s)

unfoldable pub parse_identifier : Bytes → Bytes × Bytes
unfolding span
parse_identifier s = span is_identifier (skip_space s)

abbrev pub is_bare : ℕ → Bool
is_bare c = not (c == b',' || (c == b']' || c == b'}'))

unfoldable pub parse_bare : Bytes → Parsed (MiValue × Bytes)
unfolding span
parse_bare s = let r = span is_bare s in if is_empty r.0 then failed else ok (bare r.0, r.1)

-- The loop of parse_string behind the opening quote.
unfoldable pub string_loop : Bool → Bytes → Bytes → Parsed (MiValue × Bytes)
unfolding unescape_mi_string
string_loop escaped raw [] = failed
string_loop true raw (c ∷ s) = string_loop false (raw ++ backslash ∷ c ∷ []) s
string_loop false raw (c ∷ s) =
    let escape = string_loop true raw s in
    let copy = string_loop false (raw ++ c ∷ []) s in
    if c == backslash
    then escape
    else if c == quote_mark
    then ok (text (unescape_mi_string raw), s)
    else copy

-- The name and `=` that may stand before a list item; without them the parser goes back.
unfoldable pub name_of : Bytes × Bytes → Option (Bytes × Bytes)
name_of (key, r) =
    if is_empty key then none else elim (consume b'=' r) [ some r' ↦ some (key, r') | none ↦ none ]

unfoldable pub item_name : Bytes → Option (Bytes × Bytes)
unfolding parse_identifier name_of
item_name s = name_of (parse_identifier s)

-- The name and `=` of a tuple's field, which must be there.
unfoldable pub field_name : Bytes → Parsed (Bytes × Bytes)
unfolding item_name
field_name s = elim (item_name s) [ some named ↦ ok named | none ↦ failed ]

unfoldable mutual
  pub parse_value : ℕ → Bytes → Parsed (MiValue × Bytes)
  parse_value zero s = out_of_fuel
  parse_value (suc f) s =
      let t = skip_space s in
      let u = skip_space (advance t) in
      let fields = parse_fields f u >>= λ (fs, r). ok (tuple fs, r) in
      let elements = parse_items f u >>= λ (xs, r). ok (items xs, r) in
      if is_empty t
      then failed
      else if peek quote_mark t
      then string_loop false [] (advance t)
      else if peek b'{' t
      then elim (consume b'}' u) [ some r ↦ ok (tuple no_fields, r) | none ↦ fields ]
      else if peek b'[' t
      then elim (consume b']' u) [ some r ↦ ok (items no_items, r) | none ↦ elements ]
      else parse_bare t

  pub parse_fields : ℕ → Bytes → Parsed (MiFields × Bytes)
  parse_fields zero s = out_of_fuel
  parse_fields (suc f) [] = failed
  parse_fields (suc f) (c ∷ s) = field_name (c ∷ s) >>= λ (key, r). parse_value f r >>= λ (v, r₁).
      after_element b'}' r₁ (field key v no_fields)
        (λ r₂. parse_fields f r₂ >>= λ (fs, r₃). ok (field key v fs, r₃))

  pub parse_items : ℕ → Bytes → Parsed (MiItems × Bytes)
  parse_items zero s = out_of_fuel
  parse_items (suc f) [] = failed
  parse_items (suc f) (c ∷ s) =
      let plain = parse_value f (c ∷ s) in
      elim (item_name (c ∷ s)) [
        | some (key, r) ↦ parse_value f r >>= λ (v, r₁). ok (tuple (field key v no_fields), r₁)
        | none ↦ plain
      ]
      >>= λ (v, r₁).
          after_element b']' r₁ (item v no_items)
            (λ r₂. parse_items f r₂ >>= λ (xs, r₃). ok (item v xs, r₃))

-- MiValueParser(text).parse(): nothing but white space may follow the value.
unfoldable pub parse_mi_value : Bytes → Parsed MiValue
unfolding parse_value string_loop parse_bare after_element item_name field_name
parse_mi_value s = parse_value (2 * length s + 2) (skip_space s) >>= λ (v, r).
    if is_empty (skip_space r) then ok v else failed

sample :
    parse_mi_value (codes "{a=\"x\\n\",b=[c={},1 ], d=\"\"}")
    ≡ ok (
        tuple (
          field (codes "a") (text (b'x' ∷ 10 ∷ [])) (
            field
              (codes "b")
              (items (
                item
                  (tuple (field (codes "c") (tuple no_fields) no_fields))
                  (item (bare (codes "1 ")) no_items)))
              (field (codes "d") (text []) no_fields))))
unfolding parse_mi_value
sample = refl
