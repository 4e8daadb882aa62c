-- ===== src/Mi/Value/Total.antt =====
-- The fuel of parse_mi_value of src/gdb/mi_utils.cpp.
use gdb_cli_tools.Prelude.{
  ℕ, zero, suc, ◌+◌, ◌-◌, ◌*◌, ◌≤◌, ◌<◌, ◌≡◌, ◌≢◌, inl, inr, Bool, true, false, Option, none, some,
  [], ◌∷◌, ◌++◌, arith, ◌==◌, if◌then◌else◌, Bool-cases, Option-cases, length, is_empty, Bytes,
  quote_mark, backslash,
}
use gdb_cli_tools.Prelude.Parsed.{
  Parsed, ok, failed, out_of_fuel, ◌>>=◌, skip_space, peek, advance, consume, Within, Within-bind,
  after_element-Within, opened-Within, Within-mono, Within-if, Within-option, length-skip_space,
  length-advance, length-consume,
}
use gdb_cli_tools.Mi.Value.{
  MiValue, span, is_identifier, parse_identifier, parse_bare, is_bare, string_loop, item_name,
  field_name, parse_value, parse_fields, parse_items, parse_mi_value,
}

length-span : (p : ℕ → Bool) (s : Bytes) → length (span p s).1 ≤ length s
unfolding span
length-span p [] = omega arith
length-span p (c ∷ s) = ground (arith, length-span p s)

length-parse_identifier : (s : Bytes) → length (parse_identifier s).1 ≤ length s
unfolding parse_identifier
length-parse_identifier s =
    omega (arith, length-span is_identifier (skip_space s), length-skip_space s)

length-item_name : (s key r : Bytes) → item_name s ≡ some (key, r) → length r < length s
unfolding item_name
length-item_name s key r =
    go (parse_identifier s).0 (parse_identifier s).1 (length-parse_identifier s)
  where
    go :
        (k t : Bytes)
        → length t ≤ length s
        → if◌then◌else◌ {A = Option (Bytes × Bytes)}
            (is_empty k)
            none
            (elim (consume b'=' t) [ some r' ↦ some (k, r') | none ↦ none ])
          ≡ some (key, r)
        → length r < length s
    go [] t le h = cc
    go (c ∷ k) t le h = elim (Option-cases (consume b'=' t)) [
      | inl e ↦ cc
      | inr (r', e) ↦ ground (arith, length-consume b'=' t r' e)
    ]

string_loop-Within : (e : Bool) (raw s : Bytes) → Within (length s) (string_loop e raw s)
unfolding string_loop
string_loop-Within e raw [] = tt
string_loop-Within true raw (c ∷ s) =
    Within-mono (length s) _ _ (omega arith)
      (string_loop-Within false (raw ++ backslash ∷ c ∷ []) s)
string_loop-Within false raw (c ∷ s) =
    Within-if _ (c == backslash) _ _
      (λ _. Within-mono (length s) _ _ (omega arith) (string_loop-Within true raw s))
      (λ _.
        Within-if _ (c == quote_mark) _ _ (λ _. omega arith)
          (λ _.
            Within-mono (length s) _ _ (omega arith) (string_loop-Within false (raw ++ c ∷ []) s)))

parse_bare-Within : (s : Bytes) → Within (length s) (parse_bare s)
unfolding parse_bare
parse_bare-Within s =
    Within-if _ (is_empty (span is_bare s).0) _ _ (λ _. tt) (λ _. length-span is_bare s)

field_name-Within : (s : Bytes) → Within (length s - 1) (field_name s)
unfolding field_name
field_name-Within s =
    Within-option _ (item_name s) _ _ (λ (key, r) e. omega (arith, length-item_name s key r e)) tt

length_inner :
    (c : ℕ) (s : Bytes)
    → peek c (skip_space s) ≡ true
    → length (skip_space (advance (skip_space s))) < length s
length_inner c s h = omega (
  arith,
  length-skip_space s,
  length-advance c (skip_space s) h,
  length-skip_space (advance (skip_space s)),
)

mutual
  unfolding parse_value

  parse_value-Within :
      (f : ℕ) (s : Bytes) → 2 * length s + 1 ≤ f → Within (length s) (parse_value f s)
  parse_value-Within zero s h = absurd (omega arith)
  parse_value-Within (suc f) s h =
      let t = skip_space s in
      let u = skip_space (advance t) in
      Within-if _ (is_empty t) _ _ (λ _. tt)
        (λ _.
          Within-if _ (peek quote_mark t) _ _
            (λ p.
              Within-mono _ _ _ (omega (arith, length-advance _ t p, length-skip_space s))
                (string_loop-Within false [] (advance t)))
            (λ _.
              Within-if _ (peek b'{' t) _ _
                (λ p. opened-Within _ b'}' u _ _ (omega (arith, length_inner _ s p)) (
                  Within-bind (length u) _ (parse_fields f u) _
                    (parse_fields-Within f u (omega (arith, length_inner _ s p)))
                    (λ fs r le. omega (arith, length_inner _ s p))))
                (λ _.
                  Within-if _ (peek b'[' t) _ _
                    (λ p. opened-Within _ b']' u _ _ (omega (arith, length_inner _ s p)) (
                      Within-bind (length u) _ (parse_items f u) _
                        (parse_items-Within f u (omega (arith, length_inner _ s p)))
                        (λ xs r le. omega (arith, length_inner _ s p))))
                    (λ _. Within-mono _ _ _ (length-skip_space s) (parse_bare-Within t)))))

  parse_fields-Within :
      (f : ℕ) (s : Bytes) → 2 * length s + 2 ≤ f → Within (length s) (parse_fields f s)
  parse_fields-Within zero s h = absurd (omega arith)
  parse_fields-Within (suc f) [] h = tt
  parse_fields-Within (suc f) (c ∷ s) h =
      Within-bind (length s) _ (field_name (c ∷ s)) _
        (Within-mono _ _ (field_name (c ∷ s)) (omega arith) (field_name-Within (c ∷ s)))
        λ key r le.
          Within-bind (length r) _ (parse_value f r) _ (parse_value-Within f r (omega arith))
            λ v r₁ le₁. after_element-Within _ b'}' r₁ _ _ (omega arith) λ r₂ lt.
              Within-bind (length r₂) _ (parse_fields f r₂) _
                (parse_fields-Within f r₂ (omega arith)) (λ fs r₃ le₃. omega arith)

  parse_items-Within :
      (f : ℕ) (s : Bytes) → 2 * length s + 2 ≤ f → Within (length s) (parse_items f s)
  parse_items-Within zero s h = absurd (omega arith)
  parse_items-Within (suc f) [] h = tt
  parse_items-Within (suc f) (c ∷ s) h =
      Within-bind (suc (length s)) _ _ _
        (Within-option (suc (length s)) (item_name (c ∷ s)) _ _
          (λ (key, r) e.
            let lt = length-item_name (c ∷ s) key r e in
            Within-bind (length r) _ (parse_value f r) _ (parse_value-Within f r (omega arith))
              (λ v r₁ le. omega arith))
          (parse_value-Within f (c ∷ s) (omega arith)))
        λ v r₁ le₁. after_element-Within _ b']' r₁ _ _ (omega arith) λ r₂ lt.
          Within-bind (length r₂) _ (parse_items f r₂) _ (parse_items-Within f r₂ (omega arith))
            (λ xs r₃ le₃. omega arith)

-- On every text the parser gives a value or refuses: its fuel never runs out.
pub parse_mi_value-ne-out_of_fuel : (s : Bytes) → parse_mi_value s ≢ out_of_fuel
unfolding parse_mi_value
parse_mi_value-ne-out_of_fuel s =
    go (parse_value (2 * length s + 2) (skip_space s))
      (parse_value-Within _ (skip_space s) (omega (arith, length-skip_space s)))
  where
    go :
        (o : Parsed (MiValue × Bytes))
        → Within (length (skip_space s)) o
        → (o >>= λ (v, r). if is_empty (skip_space r) then ok v else failed) ≢ out_of_fuel
    go (ok (v, r)) h = elim (Bool-cases (is_empty (skip_space r))) [
      | inl e ↦ rw e (cc)
      | inr e ↦ rw e (cc)
    ]
    go failed h = cc
    go out_of_fuel h = absurd h
