-- ===== src/Mi/Escape.antt =====
-- The quoting of src/gdb/mi_utils.cpp: commands are quoted by mi_quote, what gdb prints is unescaped.
pub mod RoundTrip
use gdb_cli_tools.Prelude.{
  ℕ, Bool, true, false, ◌||◌, Option, none, some, List, [], ◌∷◌, ◌++◌, map, ltb, ◌==◌,
  if◌then◌else◌, length, is_empty, take, drop, Bytes, quote_mark, backslash, newline, same,
}
use mathlib.Core.Option

-- The byte that a backslash and `n` stand for.
unfoldable pub unescape_byte : ℕ → ℕ
unescape_byte n = if n == b'n' then 10 else if n == b't' then 9 else if n == b'r' then 13 else n

-- append_unescaped_mi_string: a backslash at the very end is kept.
unfoldable pub unescape_mi_string : Bytes → Bytes
unfolding unescape_byte
unescape_mi_string [] = []
unescape_mi_string (c ∷ []) = c ∷ []
unescape_mi_string (c ∷ n ∷ s) =
    let escaped = unescape_byte n ∷ unescape_mi_string s in
    let plain = c ∷ unescape_mi_string (n ∷ s) in if c == backslash then escaped else plain

-- What the loop of mi_quote appends for one byte.
unfoldable pub quote_byte : ℕ → Bytes
quote_byte c =
    if c == backslash || c == quote_mark
    then backslash ∷ c ∷ []
    else if c == newline
    then backslash ∷ b'n' ∷ []
    else c ∷ []

unfoldable pub mi_quote_body : Bytes → Bytes
unfolding quote_byte
mi_quote_body [] = []
mi_quote_body (c ∷ s) = quote_byte c ++ mi_quote_body s

unfoldable pub mi_quote : Bytes → Bytes
unfolding mi_quote_body
mi_quote s = quote_mark ∷ (mi_quote_body s ++ quote_mark ∷ [])

-- The text behind the first `c`, and the text before the last one: line.find and line.rfind.
unfoldable pub after_first : ℕ → Bytes → Option Bytes
after_first c [] = none
after_first c (d ∷ s) = if d == c then some s else after_first c s

unfoldable pub before_last : ℕ → Bytes → Option Bytes
before_last c [] = none
before_last c (d ∷ s) = elim (before_last c s) [
  | some t ↦ some (d ∷ t)
  | none ↦ if d == c then some [] else none
]

unfoldable pub mi_stream_payload_view : Bytes → Option Bytes
unfolding after_first before_last
mi_stream_payload_view [] = none
mi_stream_payload_view (kind ∷ s) =
    if ltb (length (kind ∷ s)) 3
    then none
    else if kind == b'~' || (kind == b'@' || kind == b'&')
    then elim (after_first quote_mark s) [ none ↦ none | some t ↦ before_last quote_mark t ]
    else none

unfoldable pub mi_stream_payload : Bytes → Option Bytes
unfolding mi_stream_payload_view unescape_mi_string
mi_stream_payload line = Option.map unescape_mi_string (mi_stream_payload_view line)

unfoldable pub joined_raw : List Bytes → Bytes
joined_raw [] = []
joined_raw (line ∷ lines) = line ++ newline ∷ joined_raw lines

-- A line feed is added behind a payload that does not end in one.
unfoldable pub end_line : Bytes → Bytes
end_line [] = []
end_line (c ∷ []) = if c == newline then c ∷ [] else c ∷ newline ∷ []
end_line (c ∷ d ∷ s) = c ∷ end_line (d ∷ s)

unfoldable pub decoded_loop : List Bytes → Bytes
unfolding mi_stream_payload end_line
decoded_loop [] = []
decoded_loop (line ∷ lines) =
    let rest = decoded_loop lines in
    elim (mi_stream_payload line) [ none ↦ rest | some payload ↦ end_line payload ++ rest ]

unfoldable pub decoded_streams : List Bytes → Bytes
unfolding decoded_loop joined_raw
decoded_streams lines =
    let out = decoded_loop lines in if is_empty out then joined_raw lines else out

-- The text behind the first occurrence of `needle`.
unfoldable pub after_text : Bytes → Bytes → Option Bytes
after_text needle [] = if is_empty needle then some [] else none
after_text needle (c ∷ s) =
    if same (take (length needle) (c ∷ s)) needle
    then some (drop (length needle) (c ∷ s))
    else after_text needle s

-- The loop of field_value up to the closing quote: a backslash is dropped, what follows it is kept.
unfoldable pub field_loop : Bool → Bytes → Bytes
field_loop escaped [] = []
field_loop true (c ∷ s) = c ∷ field_loop false s
field_loop false (c ∷ s) =
    let skip = field_loop true s in
    let keep = c ∷ field_loop false s in
    if c == backslash then skip else if c == quote_mark then [] else keep

unfoldable pub field_value : Bytes → Bytes → Bytes
unfolding after_text field_loop
field_value line name = elim (after_text (name ++ b'=' ∷ quote_mark ∷ []) line) [
  | none ↦ []
  | some s ↦ field_loop false s
]
