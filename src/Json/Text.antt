-- ===== src/Json/Text.antt =====
-- The texts of src/common/json.cpp: escape_string and parse_string; and json_escape, which
-- src/replay/replay_plan.cpp, src/replay/record_store.cpp and src/evidence/evidence_store.cpp share.
pub mod Laws
use gdb_cli_tools.Prelude.{
  ℕ, ◌+◌, ◌/◌, ◌%◌, Bool, true, false, ◌||◌, Option, none, some, [], ◌∷◌, ◌++◌, ltb, leb, ◌==◌,
  if◌then◌else◌, Bytes, quote_mark, backslash,
}
use gdb_cli_tools.Prelude.Parsed.{Parsed, ok, failed, consume}

unfoldable pub escape_byte : ℕ → Bytes
escape_byte c =
    if c == quote_mark
    then backslash ∷ quote_mark ∷ []
    else if c == backslash
    then backslash ∷ backslash ∷ []
    else if c == 10
    then backslash ∷ b'n' ∷ []
    else if c == 13
    then backslash ∷ b'r' ∷ []
    else if c == 9
    then backslash ∷ b't' ∷ []
    else c ∷ []

unfoldable pub escape_body : Bytes → Bytes
unfolding escape_byte
escape_body [] = []
escape_body (c ∷ s) = escape_byte c ++ escape_body s

unfoldable pub escape_string : Bytes → Bytes
unfolding escape_body
escape_string s = quote_mark ∷ (escape_body s ++ quote_mark ∷ [])

-- The byte that an escape stands for; `none` is the exception "unsupported JSON escape".
unfoldable pub unescape : ℕ → Option ℕ
unescape e =
    if e == quote_mark
    then some quote_mark
    else if e == backslash
    then some backslash
    else if e == b'/'
    then some b'/'
    else if e == b'b'
    then some 8
    else if e == b'f'
    then some 12
    else if e == b'n'
    then some 10
    else if e == b'r'
    then some 13
    else if e == b't'
    then some 9
    else none

-- The loop of parse_string behind the opening quote; `escaping` says that a backslash was read.
unfoldable pub string_loop : Bool → Bytes → Bytes → Parsed (Bytes × Bytes)
unfolding unescape
string_loop escaping out [] = failed
string_loop true out (e ∷ s) = elim (unescape e) [
  | none ↦ failed
  | some c ↦ string_loop false (out ++ c ∷ []) s
]
string_loop false out (c ∷ s) =
    let escape = string_loop true out s in
    let copy = string_loop false (out ++ c ∷ []) s in
    if c == quote_mark then ok (out, s) else if c == backslash then escape else copy

unfoldable pub parse_string : Bytes → Parsed (Bytes × Bytes)
unfolding string_loop
parse_string s = elim (consume quote_mark s) [ none ↦ failed | some r ↦ string_loop false [] r ]

abbrev hex_digit : ℕ → ℕ
hex_digit d = if ltb d 10 then 48 + d else 87 + d

-- json_escape writes the other control bytes as \u00 and two hexadecimal digits.
unfoldable pub json_escape_byte : ℕ → Bytes
unfolding escape_byte
json_escape_byte c =
    if leb 32 c || (c == 9 || (c == 10 || c == 13))
    then escape_byte c
    else backslash ∷ b'u' ∷ b'0' ∷ b'0' ∷ hex_digit (c / 16) ∷ hex_digit (c % 16) ∷ []

unfoldable pub json_escape_body : Bytes → Bytes
unfolding json_escape_byte
json_escape_body [] = []
json_escape_body (c ∷ s) = json_escape_byte c ++ json_escape_body s

unfoldable pub json_escape : Bytes → Bytes
unfolding json_escape_body
json_escape s = quote_mark ∷ (json_escape_body s ++ quote_mark ∷ [])
