-- ===== src/Mi/Value/RoundTrip.antt =====
-- The parser of src/gdb/mi_utils.cpp on printed MI values.
use gdb_cli_tools.Prelude.{
  ℕ, zero, suc, ◌+◌, ◌*◌, ◌≤◌, ◌≡◌, refl, ap, ◌∙◌, subst, true, false, none, [], ◌∷◌, ◌++◌,
  append_assoc, append-nil, arith, if◌then◌else◌, length, is_empty, length-append, Bytes,
  quote_mark,
}
use gdb_cli_tools.Prelude.Parsed.{
  ok, failed, ◌>>=◌, skip_space, after_element, brace_end, brace_more, bracket_end, bracket_more,
  Opens, Opens-skip_space, Opens-consume,
}
use gdb_cli_tools.Mi.Escape.{mi_quote_body, mi_quote}
use gdb_cli_tools.Mi.Escape.RoundTrip.{unescape_mi_string-mi_quote_body}
use gdb_cli_tools.Mi.Value.{
  MiValue, MiFields, MiItems, text, bare, tuple, items, no_fields, field, no_items, item, item_name,
  parse_value, parse_fields, parse_items, parse_mi_value,
}
use gdb_cli_tools.Mi.Value.Render.{
  is_name, render, render_fields, render_items, is_printable, fields_printable, items_printable,
  stops,
}
use gdb_cli_tools.Mi.Value.Lexemes.{
  string_loop-mi_quote_body, name-Opens, field_name-name, render-Opens, item_name-render,
  parse_value-bare,
}

parse_value-text :
    (f : ℕ) (s rest : Bytes) → parse_value (suc f) (mi_quote s ++ rest) ≡ ok (text s, rest)
unfolding parse_value mi_quote
parse_value-text f s rest = rw (
  append_assoc (mi_quote_body s) (quote_mark ∷ []) rest,
  string_loop-mi_quote_body [] s rest,
  unescape_mi_string-mi_quote_body s,
)

parse_fields-step :
    (g : ℕ) (k r r₁ rest : Bytes) (v : MiValue) (fs : MiFields)
    → is_name k ≡ true
    → parse_value g r ≡ ok (v, r₁)
    → after_element b'}' r₁
        (field k v no_fields)
        (λ r₂. parse_fields g r₂ >>= λ (gs, r₃). ok (field k v gs, r₃))
      ≡ ok (fs, rest)
    → parse_fields (suc g) (k ++ b'=' ∷ r) ≡ ok (fs, rest)
unfolding parse_fields
parse_fields-step g [] r r₁ rest v fs n e h = cc
parse_fields-step g (c ∷ k) r r₁ rest v fs n e h = rw (field_name-name (c ∷ k) r n, e) h

parse_items-step :
    (g : ℕ) (s r₁ rest : Bytes) (v : MiValue) (xs : MiItems)
    → is_empty s ≡ false
    → item_name s ≡ none
    → parse_value g s ≡ ok (v, r₁)
    → after_element b']' r₁
        (item v no_items)
        (λ r₂. parse_items g r₂ >>= λ (ys, r₃). ok (item v ys, r₃))
      ≡ ok (xs, rest)
    → parse_items (suc g) s ≡ ok (xs, rest)
unfolding parse_items
parse_items-step g [] r₁ rest v xs n i e h = cc
parse_items-step g (c ∷ s) r₁ rest v xs n i e h = rw (i, e) h

parse_value-tuple :
    (f : ℕ) (s rest : Bytes) (fs : MiFields)
    → Opens s
    → parse_fields f s ≡ ok (fs, rest)
    → parse_value (suc f) (b'{' ∷ s) ≡ ok (tuple fs, rest)
unfolding parse_value
parse_value-tuple f s rest fs o h =
    rw ((Opens-consume (skip_space s) (rw (Opens-skip_space s o) o)).1) (
      ap (λ t. parse_fields f t >>= λ (gs, r). ok (tuple gs, r)) (Opens-skip_space s o)
      ∙ ap (λ t. t >>= λ (gs, r). ok (tuple gs, r)) h)

parse_value-items :
    (f : ℕ) (s rest : Bytes) (xs : MiItems)
    → Opens s
    → parse_items f s ≡ ok (xs, rest)
    → parse_value (suc f) (b'[' ∷ s) ≡ ok (items xs, rest)
unfolding parse_value
parse_value-items f s rest xs o h =
    rw ((Opens-consume (skip_space s) (rw (Opens-skip_space s o) o)).0) (
      ap (λ t. parse_items f t >>= λ (ys, r). ok (items ys, r)) (Opens-skip_space s o)
      ∙ ap (λ t. t >>= λ (ys, r). ok (items ys, r)) h)

-- The rest of a loop behind an element, with the fuel of the loop.
abbrev MoreFields : ℕ → MiFields → Bytes → Type 0
MoreFields f fs rest =
    (k : Bytes) (v : MiValue)
    → after_element b'}' (render_fields fs ++ rest) (field k v no_fields)
        (λ r₂. parse_fields f r₂ >>= λ (gs, r₃). ok (field k v gs, r₃))
      ≡ ok (field k v fs, rest)

abbrev MoreItems : ℕ → MiItems → Bytes → Type 0
MoreItems f xs rest =
    (v : MiValue)
    → after_element b']' (render_items xs ++ rest) (item v no_items)
        (λ r₂. parse_items f r₂ >>= λ (ys, r₃). ok (item v ys, r₃))
      ≡ ok (item v xs, rest)

abbrev ReadsAt : ℕ → MiValue → Bytes → Type 0
ReadsAt f v rest = parse_value (suc f) (render v ++ rest) ≡ ok (v, rest)

field_text :
    (k : Bytes) (v : MiValue) (fs : MiFields) (rest : Bytes)
    → (k ++ b'=' ∷ (render v ++ render_fields fs)) ++ rest
      ≡ k ++ b'=' ∷ (render v ++ (render_fields fs ++ rest))
field_text k v fs rest = simp append_assoc

-- A name, a value and what follows, read with two units of fuel to spare.
fields-step :
    (f : ℕ) (k : Bytes) (v : MiValue) (fs : MiFields) (rest : Bytes)
    → is_name k ≡ true
    → 2 ≤ f
    → ((g : ℕ) → f ≡ suc (suc g) → ReadsAt g v (render_fields fs ++ rest))
    → ((g : ℕ) → f ≡ suc (suc g) → MoreFields (suc g) fs rest)
    → parse_fields f ((k ++ b'=' ∷ (render v ++ render_fields fs)) ++ rest)
      ≡ ok (field k v fs, rest)
fields-step zero k v fs rest n le h m = absurd (omega arith)
fields-step (suc zero) k v fs rest n le h m = absurd (omega arith)
fields-step (suc (suc g)) k v fs rest n le h m =
    rw (field_text k v fs rest)
      (parse_fields-step (suc g) k _ _ rest v (field k v fs) n (h g refl) (m g refl k v))

items-step :
    (f : ℕ) (v : MiValue) (xs : MiItems) (rest : Bytes)
    → is_printable v ≡ true
    → stops (render_items xs ++ rest) ≡ true
    → 2 ≤ f
    → ((g : ℕ) → f ≡ suc (suc g) → ReadsAt g v (render_items xs ++ rest))
    → ((g : ℕ) → f ≡ suc (suc g) → MoreItems (suc g) xs rest)
    → parse_items f ((render v ++ render_items xs) ++ rest) ≡ ok (item v xs, rest)
items-step zero v xs rest p k le h m = absurd (omega arith)
items-step (suc zero) v xs rest p k le h m = absurd (omega arith)
items-step (suc (suc g)) v xs rest p k le h m =
    rw (append_assoc (render v) (render_items xs) rest) (
      parse_items-step (suc g) _ _ rest v (item v xs)
        (Opens-ne (render v ++ (render_items xs ++ rest))
          (render-Opens v (render_items xs ++ rest) p))
        (item_name-render v (render_items xs ++ rest) p k) (h g refl) (m g refl v))
  where
    Opens-ne : (s : Bytes) → Opens s → is_empty s ≡ false
    Opens-ne [] h = absurd h
    Opens-ne (c ∷ s) h = refl

no_fields-reads :
    (f : ℕ) (rest : Bytes) → parse_value (suc f) (b'{' ∷ b'}' ∷ rest) ≡ ok (tuple no_fields, rest)
unfolding parse_value
no_fields-reads f rest = refl

no_items-reads :
    (f : ℕ) (rest : Bytes) → parse_value (suc f) (b'[' ∷ b']' ∷ rest) ≡ ok (items no_items, rest)
unfolding parse_value
no_items-reads f rest = refl

stops-fields : (fs : MiFields) (rest : Bytes) → stops (render_fields fs ++ rest) ≡ true
unfolding render
stops-fields no_fields rest = refl
stops-fields (field k v fs) rest = refl

stops-items : (xs : MiItems) (rest : Bytes) → stops (render_items xs ++ rest) ≡ true
unfolding render
stops-items no_items rest = refl
stops-items (item v xs) rest = refl

length_field :
    (k : Bytes) (v : MiValue) (fs : MiFields)
    → length (k ++ b'=' ∷ (render v ++ render_fields fs))
      ≡ length k + 1 + length (render v) + length (render_fields fs)
length_field k v fs = omega (
  arith,
  length-append k (b'=' ∷ (render v ++ render_fields fs)),
  length-append (render v) (render_fields fs),
)

mutual
  unfolding render is_printable

  parse_value-render :
      (v : MiValue) (f : ℕ) (rest : Bytes)
      → is_printable v ≡ true
      → stops rest ≡ true
      → 2 * length (render v) ≤ f
      → ReadsAt f v rest
  parse_value-render (text s) f rest p k h = parse_value-text f s rest
  parse_value-render (bare s) f rest p k h = parse_value-bare f s rest p k
  parse_value-render (tuple no_fields) f rest p k h = no_fields-reads f rest
  parse_value-render (tuple (field n v fs)) f rest p k h =
      parse_value-tuple f _ rest (field n v fs)
        (rw (field_text n v fs rest) (name-Opens n _ (ground arith)))
        ((fields-step f n v fs rest (ground arith) (omega arith)
          (λ g e.
            parse_value-render v g _ (ground arith) (stops-fields fs rest)
              (omega (arith, length_field n v fs)))
          (λ g e.
            parse_fields-render fs (suc g) rest (ground arith)
              (omega (arith, length_field n v fs)))))
  parse_value-render (items no_items) f rest p k h = no_items-reads f rest
  parse_value-render (items (item v xs)) f rest p k h =
      parse_value-items f _ rest (item v xs)
        (rw (append_assoc (render v) (render_items xs) rest) (render-Opens v _ (ground arith)))
        ((items-step f v xs rest (ground arith) (stops-items xs rest) (omega arith)
          (λ g e.
            parse_value-render v g _ (ground arith) (stops-items xs rest)
              (omega (arith, length-append (render v) (render_items xs))))
          (λ g e.
            parse_items-render xs (suc g) rest (ground arith)
              (omega (arith, length-append (render v) (render_items xs))))))

  parse_fields-render :
      (fs : MiFields) (f : ℕ) (rest : Bytes)
      → fields_printable fs ≡ true
      → 2 * length (render_fields fs) ≤ f
      → MoreFields f fs rest
  parse_fields-render no_fields f rest p h k v = brace_end rest _ _
  parse_fields-render (field k' v' fs) f rest p h k v =
      brace_more _ _ _
      ∙ (ap (λ o. o >>= λ (gs, r₃). ok (field k v gs, r₃))
          ((fields-step f k' v' fs rest (ground arith) (omega arith)
            (λ g e.
              parse_value-render v' g _ (ground arith) (stops-fields fs rest)
                (omega (arith, length_field k' v' fs)))
            (λ g e.
              parse_fields-render fs (suc g) rest (ground arith)
                (omega (arith, length_field k' v' fs))))))

  parse_items-render :
      (xs : MiItems) (f : ℕ) (rest : Bytes)
      → items_printable xs ≡ true
      → 2 * length (render_items xs) ≤ f
      → MoreItems f xs rest
  parse_items-render no_items f rest p h v = bracket_end rest _ _
  parse_items-render (item v' xs) f rest p h v =
      bracket_more _ _ _
      ∙ (ap (λ o. o >>= λ (ys, r₃). ok (item v ys, r₃))
          ((items-step f v' xs rest (ground arith) (stops-items xs rest) (omega arith)
            (λ g e.
              parse_value-render v' g _ (ground arith) (stops-items xs rest)
                (omega (arith, length-append (render v') (render_items xs))))
            (λ g e.
              parse_items-render xs (suc g) rest (ground arith)
                (omega (arith, length-append (render v') (render_items xs)))))))

-- Every MI value whose field names are identifiers and whose unquoted scalars hold no separator is
-- read back from its print, whatever its depth and whatever bytes its quoted texts hold.
pub parse_mi_value-render : (v : MiValue) → is_printable v ≡ true → parse_mi_value (render v) ≡ ok v
unfolding parse_mi_value
parse_mi_value-render v p =
    rw (Opens-skip_space (render v) (subst Opens (append-nil (render v)) (render-Opens v [] p))) (
      ap (λ o. o >>= λ (w, r). if is_empty (skip_space r) then ok w else failed)
        (subst (λ t. parse_value (2 * length (render v) + 2) t ≡ ok (v, [])) (append-nil (render v))
          (subst (λ n. parse_value n (render v ++ []) ≡ ok (v, []))
            {x = suc (2 * length (render v) + 1)} (omega arith)
            (parse_value-render v (2 * length (render v) + 1) [] p refl (omega arith)))))
