-- ===== src/Mi/Value/Render.antt =====
-- An independent description of the MI values that the parser is to read, as a printer: quoted
-- texts by mi_quote, unquoted scalars, tuples in braces and lists in brackets.
use gdb_cli_tools.Prelude.{
  ℕ, Bool, true, false, not, ◌&&◌, [], ◌∷◌, ◌++◌, ◌==◌, is_empty, every, Bytes, quote_mark,
  is_space,
}
use gdb_cli_tools.Mi.Escape.{mi_quote}
use gdb_cli_tools.Mi.Value.{
  MiValue, MiFields, MiItems, text, bare, tuple, items, no_fields, field, no_items, item,
  is_identifier, is_bare,
}

-- A byte of an unquoted scalar: no separator, and no `=`, which would name a list item.
abbrev pub is_plain : ℕ → Bool
is_plain c = is_bare c && not (c == b'=')

-- The first byte of an unquoted scalar decides that it is one.
abbrev pub is_bare_text : Bytes → Bool
is_bare_text [] = false
is_bare_text (c ∷ s) =
    (not (is_space c) && (not (c == quote_mark) && (not (c == b'{') && not (c == b'['))))
    && every is_plain (c ∷ s)

abbrev pub is_name : Bytes → Bool
is_name s = not (is_empty s) && every is_identifier s

unfoldable mutual
  pub render : MiValue → Bytes
  render (text s) = mi_quote s
  render (bare s) = s
  render (tuple no_fields) = b'{' ∷ b'}' ∷ []
  render (tuple (field k v fs)) = b'{' ∷ (k ++ b'=' ∷ (render v ++ render_fields fs))
  render (items no_items) = b'[' ∷ b']' ∷ []
  render (items (item v xs)) = b'[' ∷ (render v ++ render_items xs)

  pub render_fields : MiFields → Bytes
  render_fields no_fields = b'}' ∷ []
  render_fields (field k v fs) = b',' ∷ (k ++ b'=' ∷ (render v ++ render_fields fs))

  pub render_items : MiItems → Bytes
  render_items no_items = b']' ∷ []
  render_items (item v xs) = b',' ∷ (render v ++ render_items xs)

-- Field names are identifiers, and unquoted scalars are free of separators.
unfoldable mutual
  pub is_printable : MiValue → Bool
  is_printable (text s) = true
  is_printable (bare s) = is_bare_text s
  is_printable (tuple fs) = fields_printable fs
  is_printable (items xs) = items_printable xs

  pub fields_printable : MiFields → Bool
  fields_printable no_fields = true
  fields_printable (field k v fs) = is_name k && (is_printable v && fields_printable fs)

  pub items_printable : MiItems → Bool
  items_printable no_items = true
  items_printable (item v xs) = is_printable v && items_printable xs

-- What may follow a value: nothing, a comma or a closing bracket.
abbrev pub stops : Bytes → Bool
stops [] = true
stops (c ∷ s) = not (is_bare c)
