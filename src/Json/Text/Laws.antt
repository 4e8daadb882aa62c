-- ===== src/Json/Text/Laws.antt =====
-- What the two escapers of texts write, and what the parser reads of it.
use gdb_cli_tools.Prelude.{
  ℕ, ◌-◌, ◌≡◌, ap, ◌∙◌, inl, inr, Bool, true, false, not, ◌&&◌, ◌||◌, [], ◌∷◌, ◌++◌, append_assoc,
  append-nil, arith, ltb, ◌==◌, if◌then◌else◌, Bool-cases, length, every, Bytes, quote_mark,
  backslash,
}
use gdb_cli_tools.Prelude.Parsed.{
  ok, failed, consume, Within, Within-if, Within-option, Within-mono, length-consume,
}
use gdb_cli_tools.Json.Text.{
  escape_byte, escape_body, escape_string, unescape, string_loop, parse_string, json_escape_byte,
  json_escape_body, json_escape,
}

string_loop-escape_byte :
    (c : ℕ) (out s : Bytes)
    → string_loop false out (escape_byte c ++ s) ≡ string_loop false (out ++ c ∷ []) s
unfolding string_loop escape_byte
string_loop-escape_byte c out s = ground arith

string_loop-escape_body :
    (out s rest : Bytes)
    → string_loop false out (escape_body s ++ quote_mark ∷ rest) ≡ ok (out ++ s, rest)
unfolding escape_body
string_loop-escape_body out [] rest = unfold string_loop in rw append-nil
string_loop-escape_body out (c ∷ s) rest =
    rw (append_assoc (escape_byte c) (escape_body s) (quote_mark ∷ rest), string_loop-escape_byte)
      (string_loop-escape_body (out ++ c ∷ []) s rest
        ∙ ap (λ t. ok (t, rest)) (append_assoc out (c ∷ []) s))

-- The parser reads every escaped text back, whatever its bytes are and whatever follows.
pub parse_string-escape_string :
    (s rest : Bytes) → parse_string (escape_string s ++ rest) ≡ ok (s, rest)
unfolding parse_string escape_string
parse_string-escape_string s rest =
    rw (append_assoc (escape_body s) (quote_mark ∷ []) rest) (string_loop-escape_body [] s rest)

-- A control byte other than \t, \n and \r.
abbrev pub is_control : ℕ → Bool
is_control c = ltb c 32 && not (c == 9 || (c == 10 || c == 13))

json_escape_byte-plain : (c : ℕ) → is_control c ≡ false → json_escape_byte c ≡ escape_byte c
unfolding json_escape_byte
json_escape_byte-plain c h = ground arith

string_loop-control :
    (c : ℕ) (out s : Bytes)
    → is_control c ≡ true
    → string_loop false out (json_escape_byte c ++ s) ≡ failed
unfolding string_loop json_escape_byte
string_loop-control c out s h = ground arith

string_loop-json_escape :
    (out s rest : Bytes)
    → string_loop false out (json_escape_body s ++ quote_mark ∷ rest)
      ≡ (if every (λ c. not (is_control c)) s then ok (out ++ s, rest) else failed)
unfolding json_escape_body
string_loop-json_escape out [] rest = unfold string_loop in rw append-nil
string_loop-json_escape out (c ∷ s) rest = elim (Bool-cases (is_control c)) [
  | inl k ↦ rw (
    append_assoc (json_escape_byte c) (json_escape_body s) (quote_mark ∷ rest),
    string_loop-control c out (json_escape_body s ++ quote_mark ∷ rest) k,
    k,
  )
  | inr k ↦
      rw
        (
          append_assoc (json_escape_byte c) (json_escape_body s) (quote_mark ∷ rest),
          json_escape_byte-plain c k,
          string_loop-escape_byte,
          k,
        )
        (string_loop-json_escape (out ++ c ∷ []) s rest ∙ rw (append_assoc out (c ∷ []) s))
]

-- json_escape, which writes replay plans and record exports, and the parser that reads them back
-- agree exactly on the texts without control bytes other than \t, \n and \r: such a text is read
-- back, and any other is written as a \u escape, which the parser refuses.
pub parse_string-json_escape :
    (s rest : Bytes)
    → parse_string (json_escape s ++ rest)
      ≡ (if every (λ c. not (is_control c)) s then ok (s, rest) else failed)
unfolding parse_string json_escape
parse_string-json_escape s rest =
    rw (append_assoc (json_escape_body s) (quote_mark ∷ []) rest)
      (string_loop-json_escape [] s rest)

string_loop-Within :
    (escaping : Bool) (out s : Bytes) → Within (length s) (string_loop escaping out s)
unfolding string_loop
string_loop-Within escaping out [] = tt
string_loop-Within true out (e ∷ s) =
    Within-option _ (unescape e) _ _
      (λ c _. Within-mono (length s) _ _ (omega arith) (string_loop-Within false (out ++ c ∷ []) s))
      tt
string_loop-Within false out (c ∷ s) =
    Within-if _ (c == quote_mark) _ _ (λ _. omega arith)
      λ _.
        Within-if _ (c == backslash) _ _
          (λ _. Within-mono (length s) _ _ (omega arith) (string_loop-Within true out s))
          (λ _.
            Within-mono (length s) _ _ (omega arith) (string_loop-Within false (out ++ c ∷ []) s))

pub parse_string-Within : (s : Bytes) → Within (length s - 1) (parse_string s)
unfolding parse_string
parse_string-Within s =
    Within-option _ (consume quote_mark s) _ _
      (λ r e.
        Within-mono (length r) _ _ (omega (arith, length-consume quote_mark s r e))
          (string_loop-Within false [] r))
      tt
