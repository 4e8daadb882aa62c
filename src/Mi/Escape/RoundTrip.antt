-- ===== src/Mi/Escape/RoundTrip.antt =====
-- mi_quote of src/gdb/mi_utils.cpp, and the functions that read what it writes.
use gdb_cli_tools.Prelude.{
  ℕ, suc, ◌≤◌, ◌≡◌, refl, ap, ◌∙◌, subst, true, false, ◌||◌, Option, none, some, [], ◌∷◌, ◌++◌,
  append_assoc, append-nil, arith, ltb, ◌==◌, length, length-append, take_append_length,
  drop_append_length, Bytes, quote_mark, newline, same_refl, has_char,
}
use gdb_cli_tools.Mi.Escape.{
  unescape_mi_string, quote_byte, mi_quote_body, mi_quote, after_first, before_last,
  mi_stream_payload, after_text, field_loop, field_value,
}

unescape-quote_byte :
    (c : ℕ) (s : Bytes) → unescape_mi_string (quote_byte c ++ s) ≡ c ∷ unescape_mi_string s
unfolding unescape_mi_string quote_byte
unescape-quote_byte c [] = ground arith
unescape-quote_byte c (d ∷ s) = ground arith

-- Unescaping the inside of a quoted text gives the text back, whatever bytes it holds.
pub unescape_mi_string-mi_quote_body : (s : Bytes) → unescape_mi_string (mi_quote_body s) ≡ s
unfolding mi_quote_body
unescape_mi_string-mi_quote_body [] = unfold unescape_mi_string in refl
unescape_mi_string-mi_quote_body (c ∷ s) =
    unescape-quote_byte c (mi_quote_body s) ∙ ap (λ t. c ∷ t) (unescape_mi_string-mi_quote_body s)

before_last-append :
    (c : ℕ) (s t : Bytes) {u : Bytes}
    → before_last c t ≡ some u
    → before_last c (s ++ t) ≡ some (s ++ u)
unfolding before_last
before_last-append c [] t h = h
before_last-append c (d ∷ s) t h = rw (before_last-append c s t h, before_last)

length-mi_quote : (s : Bytes) → 2 ≤ length (mi_quote s)
unfolding mi_quote
length-mi_quote s = omega (arith, length-append (mi_quote_body s) (quote_mark ∷ []))

ltb-false : (s : Bytes) → 2 ≤ length s → ltb (suc (length s)) 3 ≡ false
ltb-false s h = ground arith

-- The view of a quoted text is what stands between the quotes.
abbrev between_quotes : Bytes → Option Bytes
between_quotes s = elim (after_first quote_mark s) [
  | none ↦ none
  | some t ↦ before_last quote_mark t
]

view_quoted : (s : Bytes) → between_quotes (mi_quote s) ≡ some (mi_quote_body s)
unfolding mi_quote after_first
view_quoted s =
    subst (λ t. before_last quote_mark (mi_quote_body s ++ quote_mark ∷ []) ≡ some t)
      (append-nil (mi_quote_body s))
      (before_last-append quote_mark (mi_quote_body s) (quote_mark ∷ [])
        (unfold before_last in refl))

-- A stream record carries its text: the payload of ~, @ or & and a quoted text is the text.
pub mi_stream_payload-mi_quote :
    (kind : ℕ) (s : Bytes)
    → (kind == b'~' || (kind == b'@' || kind == b'&')) ≡ true
    → mi_stream_payload (kind ∷ mi_quote s) ≡ some s
unfolding mi_stream_payload
mi_stream_payload-mi_quote kind s h =
    rw (ltb-false (mi_quote s) (length-mi_quote s), h, view_quoted s)
      (ap some (unescape_mi_string-mi_quote_body s))

-- The bytes that field_value gives back: it keeps what follows a backslash, so a line feed, which
-- mi_quote writes as \n, is out.
field_loop-mi_quote_body :
    (s rest : Bytes)
    → has_char newline s ≡ false
    → field_loop false (mi_quote_body s ++ quote_mark ∷ rest) ≡ s
unfolding field_loop mi_quote_body quote_byte
field_loop-mi_quote_body [] rest h = refl
field_loop-mi_quote_body (c ∷ s) rest h = ground (arith, field_loop-mi_quote_body s rest)

after_text_here : (needle s : Bytes) → after_text needle (needle ++ s) ≡ some s
unfolding after_text
after_text_here [] [] = refl
after_text_here [] (c ∷ s) = refl
after_text_here (d ∷ needle) s =
    rw (take_append_length needle s, drop_append_length needle s, same_refl (d ∷ needle))

field_value_found :
    (line name : Bytes) {t : Bytes}
    → after_text (name ++ b'=' ∷ quote_mark ∷ []) line ≡ some t
    → field_value line name ≡ field_loop false t
unfolding field_value
field_value_found line name e = rw (e, field_value)

field_text :
    (name s rest : Bytes)
    → name ++ b'=' ∷ (mi_quote s ++ rest)
      ≡ (name ++ b'=' ∷ quote_mark ∷ []) ++ (mi_quote_body s ++ quote_mark ∷ rest)
unfolding mi_quote
field_text name s rest = simp append_assoc

-- Reading a field that was written as name="text" gives the text back, if it has no line feed and
-- the line begins with the field.
pub field_value-mi_quote :
    (name s rest : Bytes)
    → has_char newline s ≡ false
    → field_value (name ++ b'=' ∷ (mi_quote s ++ rest)) name ≡ s
unfolding field_value mi_quote
field_value-mi_quote name s rest h = rw (field_text name s rest) (
    field_value_found _ name (after_text_here (name ++ b'=' ∷ quote_mark ∷ []) _)
    ∙ field_loop-mi_quote_body s rest h)
