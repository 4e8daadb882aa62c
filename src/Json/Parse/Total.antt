-- ===== src/Json/Parse/Total.antt =====
-- The fuel of parse_json of src/common/json.cpp.
use gdb_cli_tools.Prelude.{
  ℕ, zero, suc, ◌+◌, ◌-◌, ◌*◌, ◌≤◌, ◌<◌, ◌≡◌, ◌≢◌, inl, inr, true, ◌||◌, Option, [], ◌∷◌, arith,
  if◌then◌else◌, Bool-cases, length, is_empty, drop, length-drop, Bytes, codes, quote_mark,
}
use gdb_cli_tools.Prelude.Parsed.{
  Parsed, ok, failed, out_of_fuel, ◌>>=◌, skip_space, peek, advance, consume, Within, Within-bind,
  Within-mono, Within-if, Within-option, after_element-Within, opened-Within, length-skip_space,
  length-advance, length-consume,
}
use gdb_cli_tools.Text.{starts_with}
use gdb_cli_tools.Json.Text.{parse_string}
use gdb_cli_tools.Json.Text.Laws.{parse_string-Within}
use gdb_cli_tools.Json.Value.{Json, Members, no_members, emplace}
use gdb_cli_tools.Json.Parse.{
  span_digits, unsigned_token, number_token, starts_number, parse_scalar, expect, parse_value,
  parse_members, parse_items, parse_json,
}

length-span_digits : (s : Bytes) → length (span_digits s).1 ≤ length s
unfolding span_digits
length-span_digits [] = omega arith
length-span_digits (c ∷ s) = ground (arith, length-span_digits s)

length-advance_le : (s : Bytes) → length (advance s) ≤ length s
length-advance_le [] = omega arith
length-advance_le (c ∷ s) = omega arith

length-unsigned_token : (s : Bytes) → length (unsigned_token s).1 ≤ length s
unfolding unsigned_token
length-unsigned_token s = ground (
  arith,
  length-span_digits s,
  length-span_digits (advance (span_digits s).1),
  length-advance_le (span_digits s).1,
)

length-number_token : (s : Bytes) → length (number_token s).1 ≤ length s
unfolding number_token
length-number_token s =
    ground (arith, length-unsigned_token s, length-unsigned_token (advance s), length-advance_le s)

length-drop_le : (n : ℕ) (s : Bytes) → length (drop n s) ≤ length s
length-drop_le n s = omega (arith, length-drop {0} n s)

module _ {N : Type 0} (from_chars : Bytes → Option N) where
  parse_scalar-Within : (t : Bytes) → Within (length t) (parse_scalar from_chars t)
  unfolding parse_scalar
  parse_scalar-Within t =
      Within-if _ (peek quote_mark t) _ _
        (λ _.
          Within-bind (length t - 1) _ (parse_string t) _ (parse_string-Within t)
            (λ u r le. omega arith))
        λ _.
          Within-if _ (peek b't' t || peek b'f' t) _ _
            (λ _.
              Within-if _ (starts_with t (codes "true")) _ _ (λ _. length-drop_le 4 t)
                λ _.
                  Within-if _ (starts_with t (codes "false")) _ _ (λ _. length-drop_le 5 t)
                    (λ _. tt))
            λ _.
              Within-if _ (peek b'n' t) _ _
                (λ _.
                  Within-if _ (starts_with t (codes "null")) _ _ (λ _. length-drop_le 4 t)
                    (λ _. tt))
                λ _.
                  Within-if _ (starts_number t) _ _
                    (λ _.
                      Within-option _ (from_chars (number_token t).0) _ _
                        (λ x _. length-number_token t) tt)
                    (λ _. tt)

  expect-Within : (c : ℕ) (s : Bytes) → Within (length s - 1) (expect from_chars c s)
  unfolding expect
  expect-Within c s =
      Within-option _ (consume c s) _ _ (λ r e. omega (arith, length-consume c s r e)) tt

  length_inner :
      (c : ℕ) (s : Bytes)
      → peek c (skip_space s) ≡ true
      → length (advance (skip_space s)) < length s
  length_inner c s h = omega (arith, length-skip_space s, length-advance c (skip_space s) h)

  parse_string-shrinks : (s : Bytes) → Within (length s - 1) (parse_string s)
  parse_string-shrinks s = parse_string-Within s

  mutual
    unfolding parse_value

    parse_value-Within :
        (f : ℕ) (s : Bytes) → 2 * length s + 1 ≤ f → Within (length s) (parse_value from_chars f s)
    parse_value-Within zero s h = absurd (omega arith)
    parse_value-Within (suc f) s h =
        let t = skip_space s in
        let u = advance t in
        Within-if _ (peek b'{' t) _ _
          (λ p. opened-Within _ b'}' u _ _ (omega (arith, length_inner _ s p)) (
            Within-bind (length u) _ (parse_members from_chars f u no_members) _
              (parse_members-Within f u no_members (omega (arith, length_inner _ s p)))
              (λ m r le. omega (arith, length_inner _ s p))))
          (λ _.
            Within-if _ (peek b'[' t) _ _
              (λ p. opened-Within _ b']' u _ _ (omega (arith, length_inner _ s p)) (
                Within-bind (length u) _ (parse_items from_chars f u) _
                  (parse_items-Within f u (omega (arith, length_inner _ s p)))
                  (λ xs r le. omega (arith, length_inner _ s p))))
              (λ _. Within-mono _ _ _ (length-skip_space s) (parse_scalar-Within t)))

    parse_members-Within :
        (f : ℕ) (s : Bytes) (m : Members N)
        → 2 * length s + 2 ≤ f
        → Within (length s) (parse_members from_chars f s m)
    parse_members-Within zero s m h = absurd (omega arith)
    parse_members-Within (suc f) s m h =
        Within-bind (length s - 1) _ (parse_string s) _ (parse_string-Within s) λ key r le.
          Within-bind (length r - 1) _ (expect from_chars b':' r) _ (expect-Within b':' r)
            λ _ r₁ le₁.
              Within-bind (length r₁) _ (parse_value from_chars f r₁) _
                (parse_value-Within f r₁ (omega arith))
                λ v r₂ le₂. after_element-Within _ b'}' r₂ _ _ (omega arith) λ r₃ lt.
                  Within-mono (length r₃) _ _ (omega arith)
                    (parse_members-Within f r₃ (emplace key v m) (omega arith))

    parse_items-Within :
        (f : ℕ) (s : Bytes) → 2 * length s + 2 ≤ f → Within (length s) (parse_items from_chars f s)
    parse_items-Within zero s h = absurd (omega arith)
    parse_items-Within (suc f) s h =
        Within-bind (length s) _ (parse_value from_chars f s) _
          (parse_value-Within f s (omega arith))
          λ v r₁ le₁. after_element-Within _ b']' r₁ _ _ (omega arith) λ r₂ lt.
            Within-bind (length r₂) _ (parse_items from_chars f r₂) _
              (parse_items-Within f r₂ (omega arith)) (λ xs r₃ le₃. omega arith)

  -- On every text, and whatever the library reads as a number, the parser gives a value or refuses.
  pub parse_json-ne-out_of_fuel : (s : Bytes) → parse_json from_chars s ≢ out_of_fuel
  unfolding parse_json
  parse_json-ne-out_of_fuel s =
      finish (parse_value from_chars (2 * length s + 2) (skip_space s))
        (parse_value-Within _ (skip_space s) (omega (arith, length-skip_space s)))
    where
      finish :
          (o : Parsed (Json N × Bytes))
          → Within (length (skip_space s)) o
          → (o >>= λ (v, r). if is_empty (skip_space r) then ok v else failed) ≢ out_of_fuel
      finish (ok (v, r)) h = elim (Bool-cases (is_empty (skip_space r))) [
        | inl e ↦ rw e (cc)
        | inr e ↦ rw e (cc)
      ]
      finish failed h = cc
      finish out_of_fuel h = absurd h
