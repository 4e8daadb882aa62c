-- ===== src/Mi/Value/Lexemes.antt =====
-- How the pieces of a printed MI value are read: quoted texts, names, unquoted scalars.
use gdb_cli_tools.Prelude.{
  ℕ, suc, ◌≡◌, refl, ap, ◌∙◌, ◌⊎◌, inl, inr, Bool, true, false, none, some, [], ◌∷◌, ◌++◌,
  append_assoc, append-nil, arith, ◌==◌, Bool-cases, every, Bytes, quote_mark, is_space,
}
use gdb_cli_tools.Prelude.Parsed.{Parsed, ok, failed, skip_space, peek, Opens, Opens-skip_space}
use gdb_cli_tools.Mi.Escape.{quote_byte, mi_quote_body, mi_quote, unescape_mi_string}
use gdb_cli_tools.Mi.Value.{
  MiValue, text, bare, tuple, items, no_fields, field, no_items, item, span, is_identifier, is_bare,
  parse_identifier, parse_bare, string_loop, item_name, field_name, name_of, parse_value,
}
use gdb_cli_tools.Mi.Value.Render.{is_plain, is_bare_text, is_name, render, is_printable, stops}

string_loop-escaped :
    (c : ℕ) (raw s : Bytes)
    → string_loop false raw (quote_byte c ++ s) ≡ string_loop false (raw ++ quote_byte c) s
unfolding string_loop quote_byte
string_loop-escaped c raw s = ground arith

pub string_loop-mi_quote_body :
    (raw s rest : Bytes)
    → string_loop false raw (mi_quote_body s ++ quote_mark ∷ rest)
      ≡ ok (text (unescape_mi_string (raw ++ mi_quote_body s)), rest)
unfolding mi_quote_body
string_loop-mi_quote_body raw [] rest = unfold string_loop in rw append-nil
string_loop-mi_quote_body raw (c ∷ s) rest =
    rw (append_assoc (quote_byte c) (mi_quote_body s) (quote_mark ∷ rest), string_loop-escaped)
      (string_loop-mi_quote_body (raw ++ quote_byte c) s rest
        ∙ ap (λ t. ok (text (unescape_mi_string t), rest))
            (append_assoc raw (quote_byte c) (mi_quote_body s)))

-- Up to the next separator there is no `=`.
abbrev Unnamed : Bytes → Type 0
Unnamed [] = Unit
Unnamed (c ∷ s) = (is_bare c ≡ false) ⊎ ((c == b'=') ≡ false) × Unnamed s

Unnamed-skip_space : (s : Bytes) → Unnamed s → Unnamed (skip_space s)
Unnamed-skip_space [] h = tt
Unnamed-skip_space (c ∷ s) (inl e) = elim (Bool-cases (is_space c)) [
  | inl sp ↦ absurd (ground arith)
  | inr sp ↦ rw sp (inl e)
]
Unnamed-skip_space (c ∷ s) (inr (e, h)) = elim (Bool-cases (is_space c)) [
  | inl sp ↦ rw sp (Unnamed-skip_space s h)
  | inr sp ↦ rw sp (inr (e, h))
]

Unnamed-span : (s : Bytes) → Unnamed s → Unnamed (span is_identifier s).1
unfolding span
Unnamed-span [] h = tt
Unnamed-span (c ∷ s) (inl e) = elim (Bool-cases (is_identifier c)) [
  | inl k ↦ absurd (ground arith)
  | inr k ↦ rw k (inl e)
]
Unnamed-span (c ∷ s) (inr (e, h)) = elim (Bool-cases (is_identifier c)) [
  | inl k ↦ rw k (Unnamed-span s h)
  | inr k ↦ rw k (inr (e, h))
]

peek-Unnamed : (s : Bytes) → Unnamed s → peek b'=' s ≡ false
peek-Unnamed [] h = refl
peek-Unnamed (c ∷ s) (inl e) = ground arith
peek-Unnamed (c ∷ s) (inr (e, h)) = e

item_name-Unnamed : (s : Bytes) → Unnamed s → item_name s ≡ none
unfolding item_name
item_name-Unnamed s h = ground (
  arith,
  peek-Unnamed (skip_space (span is_identifier (skip_space s)).1)
      (Unnamed-skip_space _ (Unnamed-span _ (Unnamed-skip_space s h))),
)

plain-Unnamed : (s rest : Bytes) → every is_plain s ≡ true → stops rest ≡ true → Unnamed (s ++ rest)
plain-Unnamed [] [] h k = tt
plain-Unnamed [] (c ∷ rest) h k = inl (ground arith)
plain-Unnamed (c ∷ s) rest h k = inr (ground arith, plain-Unnamed s rest (ground arith) k)

span_all :
    (p : ℕ → Bool) (s : Bytes) (rest : Bytes)
    → every p s ≡ true
    → span p rest ≡ ([], rest)
    → span p (s ++ rest) ≡ (s, rest)
unfolding span
span_all p [] rest h k = k
span_all p (c ∷ s) rest h k = ground (arith, span_all p s rest)

span-stops : (rest : Bytes) → stops rest ≡ true → span is_bare rest ≡ ([], rest)
unfolding span
span-stops [] h = refl
span-stops (c ∷ rest) h = ground arith

plain→bare : (s : Bytes) → every is_plain s ≡ true → every is_bare s ≡ true
plain→bare [] h = refl
plain→bare (c ∷ s) h = ground (arith, plain→bare s)

pub name-Opens : (k rest : Bytes) → is_name k ≡ true → Opens (k ++ rest)
name-Opens [] rest h = absurd (cc)
name-Opens (c ∷ k) rest h = (ground arith, ground arith, ground arith)

parse_identifier-name :
    (k rest : Bytes) → is_name k ≡ true → parse_identifier (k ++ b'=' ∷ rest) ≡ (k, b'=' ∷ rest)
unfolding parse_identifier
parse_identifier-name k rest h =
    rw (Opens-skip_space (k ++ b'=' ∷ rest) (name-Opens k (b'=' ∷ rest) h))
      (span_all is_identifier k (b'=' ∷ rest) (ground arith) (unfold span in refl))

pub item_name-name :
    (k rest : Bytes) → is_name k ≡ true → item_name (k ++ b'=' ∷ rest) ≡ some (k, rest)
unfolding item_name
item_name-name [] rest h = absurd (cc)
item_name-name (c ∷ k) rest h = ap name_of (parse_identifier-name (c ∷ k) rest h)

pub field_name-name :
    (k rest : Bytes) → is_name k ≡ true → field_name (k ++ b'=' ∷ rest) ≡ ok (k, rest)
unfolding field_name
field_name-name k rest h =
    ap {B = Parsed (Bytes × Bytes)} (λ o. elim o [ some named ↦ ok named | none ↦ failed ])
      (item_name-name k rest h)

pub render-Opens : (v : MiValue) (rest : Bytes) → is_printable v ≡ true → Opens (render v ++ rest)
unfolding render is_printable mi_quote
render-Opens (text s) rest h = (refl, refl, refl)
render-Opens (bare []) rest h = absurd (cc)
render-Opens (bare (c ∷ s)) rest h = (ground arith, ground arith, ground arith)
render-Opens (tuple no_fields) rest h = (refl, refl, refl)
render-Opens (tuple (field k v fs)) rest h = (refl, refl, refl)
render-Opens (items no_items) rest h = (refl, refl, refl)
render-Opens (items (item v xs)) rest h = (refl, refl, refl)

pub item_name-render :
    (v : MiValue) (rest : Bytes)
    → is_printable v ≡ true
    → stops rest ≡ true
    → item_name (render v ++ rest) ≡ none
unfolding render is_printable mi_quote
item_name-render (text s) rest h k = unfold item_name span in refl
item_name-render (bare []) rest h k = absurd (cc)
item_name-render (bare (c ∷ s)) rest h k =
    item_name-Unnamed _ (plain-Unnamed (c ∷ s) rest (ground arith) k)
item_name-render (tuple no_fields) rest h k = unfold item_name span in refl
item_name-render (tuple (field n v fs)) rest h k = unfold item_name span in refl
item_name-render (items no_items) rest h k = unfold item_name span in refl
item_name-render (items (item v xs)) rest h k = unfold item_name span in refl

parse_bare-plain :
    (c : ℕ) (s rest : Bytes)
    → every is_plain (c ∷ s) ≡ true
    → stops rest ≡ true
    → parse_bare (c ∷ (s ++ rest)) ≡ ok (bare (c ∷ s), rest)
unfolding parse_bare
parse_bare-plain c s rest h k =
    rw (span_all is_bare (c ∷ s) rest (plain→bare (c ∷ s) h) (span-stops rest k))

pub parse_value-bare :
    (f : ℕ) (s rest : Bytes)
    → is_bare_text s ≡ true
    → stops rest ≡ true
    → parse_value (suc f) (s ++ rest) ≡ ok (bare s, rest)
unfolding parse_value
parse_value-bare f [] rest h k = absurd (cc)
parse_value-bare f (c ∷ s) rest h k = ground (arith, parse_bare-plain c s rest)
