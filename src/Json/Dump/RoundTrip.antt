-- ===== src/Json/Dump/RoundTrip.antt =====
-- dump_json and parse_json of src/common/json.cpp, one behind the other.
use gdb_cli_tools.Prelude.{
  ℕ, zero, suc, ◌+◌, ◌*◌, ◌≤◌, ◌≡◌, refl, ap, ◌∙◌, subst, true, false, Option, [], ◌∷◌, ◌++◌,
  append_assoc, append-nil, arith, if◌then◌else◌, length, is_empty, length-append, Bytes, codes,
}
use gdb_cli_tools.Prelude.Parsed.{
  ok, failed, ◌>>=◌, skip_space, after_element, Opens, Opens-skip_space, Opens-consume, brace_end,
  brace_more, bracket_end, bracket_more,
}
use gdb_cli_tools.Json.Text.{escape_string}
use gdb_cli_tools.Json.Text.Laws.{parse_string-escape_string}
use gdb_cli_tools.Json.Value.{
  Json, Items, Members, null, bool, number, string, array, object, no_items, item, no_members,
  member, emplace,
}
use gdb_cli_tools.Json.Parse.{
  parse_scalar, expect, parse_value, parse_members, parse_items, parse_json,
}
use gdb_cli_tools.Json.Dump.{dump_json, dump_items, dump_members}
use gdb_cli_tools.Json.Dump.Order.{emplace_all, emplace_all-Ascending}
use gdb_cli_tools.Json.Dump.Scalars.{
  stops, IsReadable, ItemsReadable, MembersReadable, number-Opens, parse_value-string,
  parse_value-number,
}

module _ {N : Type 0} (from_chars : Bytes → Option N) (print : N → Bytes) where
  abbrev pub ReadsAt : ℕ → Json N → Bytes → Type 0
  ReadsAt f v rest = parse_value from_chars (suc f) (dump_json print v ++ rest) ≡ ok (v, rest)

  abbrev MoreItems : ℕ → Items N → Bytes → Type 0
  MoreItems f xs rest =
      (v : Json N)
      → after_element b']' (dump_items print xs ++ rest) (item v no_items)
          (λ r₁. parse_items from_chars f r₁ >>= λ (ys, r₂). ok (item v ys, r₂))
        ≡ ok (item v xs, rest)

  abbrev MoreMembers : ℕ → Members N → Bytes → Type 0
  MoreMembers f n rest =
      (m : Members N)
      → after_element b'}' (dump_members print n ++ rest) m (λ r. parse_members from_chars f r m)
        ≡ ok (emplace_all m n, rest)

  items_next :
      (g : ℕ) (s r rest : Bytes) (v : Json N) (xs : Items N)
      → parse_value from_chars g s ≡ ok (v, r)
      → after_element b']' r
          (item v no_items)
          (λ r₁. parse_items from_chars g r₁ >>= λ (ys, r₂). ok (item v ys, r₂))
        ≡ ok (xs, rest)
      → parse_items from_chars (suc g) s ≡ ok (xs, rest)
  unfolding parse_value
  items_next g s r rest v xs e h = rw e h

  items-step :
      (f : ℕ) (v : Json N) (xs : Items N) (rest : Bytes)
      → 2 ≤ f
      → ((g : ℕ) → f ≡ suc (suc g) → ReadsAt g v (dump_items print xs ++ rest))
      → ((g : ℕ) → f ≡ suc (suc g) → MoreItems (suc g) xs rest)
      → parse_items from_chars f ((dump_json print v ++ dump_items print xs) ++ rest)
        ≡ ok (item v xs, rest)
  items-step zero v xs rest le h m = absurd (omega arith)
  items-step (suc zero) v xs rest le h m = absurd (omega arith)
  items-step (suc (suc g)) v xs rest le h m =
      rw (append_assoc (dump_json print v) (dump_items print xs) rest)
        (items_next (suc g) _ _ rest v (item v xs) (h g refl) (m g refl v))

  member_text :
      (k : Bytes) (v : Json N) (n : Members N) (rest : Bytes)
      → (escape_string k ++ b':' ∷ (dump_json print v ++ dump_members print n)) ++ rest
        ≡ escape_string k ++ b':' ∷ (dump_json print v ++ (dump_members print n ++ rest))
  member_text k v n rest = simp append_assoc

  expect-colon : (s : Bytes) → expect from_chars b':' (b':' ∷ s) ≡ ok (tt, s)
  unfolding expect
  expect-colon s = refl

  members-step :
      (f : ℕ) (k : Bytes) (v : Json N) (n m : Members N) (rest : Bytes)
      → 2 ≤ f
      → ((g : ℕ) → f ≡ suc (suc g) → ReadsAt g v (dump_members print n ++ rest))
      → ((g : ℕ) → f ≡ suc (suc g) → MoreMembers (suc g) n rest)
      → parse_members from_chars f
          ((escape_string k ++ b':' ∷ (dump_json print v ++ dump_members print n)) ++ rest)
          m
        ≡ ok (emplace_all (emplace k v m) n, rest)
  unfolding parse_value
  members-step zero k v n m rest le h l = absurd (omega arith)
  members-step (suc zero) k v n m rest le h l = absurd (omega arith)
  members-step (suc (suc g)) k v n m rest le h l =
      rw
        (
          member_text k v n rest,
          parse_string-escape_string k
              (b':' ∷ (dump_json print v ++ (dump_members print n ++ rest))),
          expect-colon (dump_json print v ++ (dump_members print n ++ rest)),
          h g refl,
        )
        (l g refl (emplace k v m))

  length_member :
      (k : Bytes) (v : Json N) (n : Members N)
      → length (escape_string k ++ b':' ∷ (dump_json print v ++ dump_members print n))
        ≡ length (escape_string k) + 1 + length (dump_json print v) + length (dump_members print n)
  length_member k v n = omega (
    arith,
    length-append (escape_string k) (b':' ∷ (dump_json print v ++ dump_members print n)),
    length-append (dump_json print v) (dump_members print n),
  )

  stops-items : (xs : Items N) (rest : Bytes) → stops (dump_items print xs ++ rest) ≡ true
  unfolding dump_json
  stops-items no_items rest = refl
  stops-items (item v xs) rest = refl

  stops-members : (m : Members N) (rest : Bytes) → stops (dump_members print m ++ rest) ≡ true
  unfolding dump_json
  stops-members no_members rest = refl
  stops-members (member k v m) rest = refl

  pub dump-Opens :
      (v : Json N) (rest : Bytes)
      → IsReadable from_chars print v
      → Opens (dump_json print v ++ rest)
  unfolding dump_json IsReadable escape_string
  dump-Opens null rest h = (refl, refl, refl)
  dump-Opens (bool true) rest h = (refl, refl, refl)
  dump-Opens (bool false) rest h = (refl, refl, refl)
  dump-Opens (number x) rest h = number-Opens from_chars print (print x) rest h.starts
  dump-Opens (string s) rest h = (refl, refl, refl)
  dump-Opens (array no_items) rest h = (refl, refl, refl)
  dump-Opens (array (item v xs)) rest h = (refl, refl, refl)
  dump-Opens (object no_members) rest h = (refl, refl, refl)
  dump-Opens (object (member k v m)) rest h = (refl, refl, refl)

  module _ (f : ℕ) (rest : Bytes) where
    null-reads : parse_value from_chars (suc f) (codes "null" ++ rest) ≡ ok (null, rest)
    unfolding parse_value parse_scalar
    null-reads = refl

    true-reads : parse_value from_chars (suc f) (codes "true" ++ rest) ≡ ok (bool true, rest)
    unfolding parse_value parse_scalar
    true-reads = refl

    false-reads : parse_value from_chars (suc f) (codes "false" ++ rest) ≡ ok (bool false, rest)
    unfolding parse_value parse_scalar
    false-reads = refl

    no_items-reads : parse_value from_chars (suc f) (b'[' ∷ b']' ∷ rest) ≡ ok (array no_items, rest)
    unfolding parse_value
    no_items-reads = refl

    no_members-reads :
        parse_value from_chars (suc f) (b'{' ∷ b'}' ∷ rest) ≡ ok (object no_members, rest)
    unfolding parse_value
    no_members-reads = refl

  object-reads :
      (f : ℕ) (s rest : Bytes) (m : Members N)
      → Opens s
      → parse_members from_chars f s no_members ≡ ok (m, rest)
      → parse_value from_chars (suc f) (b'{' ∷ s) ≡ ok (object m, rest)
  unfolding parse_value
  object-reads f s rest m o h = rw ((Opens-consume s o).1, h)

  array-reads :
      (f : ℕ) (s rest : Bytes) (xs : Items N)
      → Opens s
      → parse_items from_chars f s ≡ ok (xs, rest)
      → parse_value from_chars (suc f) (b'[' ∷ s) ≡ ok (array xs, rest)
  unfolding parse_value
  array-reads f s rest xs o h = rw ((Opens-consume s o).0, h)

  escape-Opens : (k s : Bytes) → Opens (escape_string k ++ s)
  unfolding escape_string
  escape-Opens k s = (refl, refl, refl)

  mutual
    unfolding dump_json IsReadable

    pub parse_value-dump_json :
        (v : Json N) (f : ℕ) (rest : Bytes)
        → IsReadable from_chars print v
        → stops rest ≡ true
        → 2 * length (dump_json print v) ≤ f
        → ReadsAt f v rest
    parse_value-dump_json null f rest p k h = null-reads f rest
    parse_value-dump_json (bool true) f rest p k h = true-reads f rest
    parse_value-dump_json (bool false) f rest p k h = false-reads f rest
    parse_value-dump_json (number x) f rest p k h = parse_value-number from_chars print f x rest p k
    parse_value-dump_json (string s) f rest p k h = parse_value-string from_chars print f s rest
    parse_value-dump_json (array no_items) f rest p k h = no_items-reads f rest
    parse_value-dump_json (array (item v xs)) f rest p k h =
        array-reads f _ rest (item v xs)
          (rw (append_assoc (dump_json print v) (dump_items print xs) rest) (dump-Opens v _ p.0))
          (items-step f v xs rest (omega arith)
            (λ g e.
              parse_value-dump_json v g _ p.0 (stops-items xs rest)
                (omega (arith, length-append (dump_json print v) (dump_items print xs))))
            (λ g e.
              parse_items-dump_items xs (suc g) rest p.1
                (omega (arith, length-append (dump_json print v) (dump_items print xs)))))
    parse_value-dump_json (object no_members) f rest p k h = no_members-reads f rest
    parse_value-dump_json (object (member n v m)) f rest p k h =
        object-reads f _ rest (member n v m) (rw (member_text n v m rest) (escape-Opens n _)) (
          members-step f n v m no_members rest (omega arith)
            (λ g e.
              parse_value-dump_json v g _ p.1.0 (stops-members m rest)
                (omega (arith, length_member n v m)))
            (λ g e.
              parse_members-dump_members m (suc g) rest p.1.1 (omega (arith, length_member n v m)))
          ∙ ap (λ t. ok (t, rest)) (emplace_all-Ascending (member n v m) p.0))

    parse_items-dump_items :
        (xs : Items N) (f : ℕ) (rest : Bytes)
        → ItemsReadable from_chars print xs
        → 2 * length (dump_items print xs) ≤ f
        → MoreItems f xs rest
    parse_items-dump_items no_items f rest p h v = bracket_end rest _ _
    parse_items-dump_items (item w xs) f rest p h v =
        bracket_more _ _ _
        ∙ ap (λ o. o >>= λ (ys, r). ok (item v ys, r))
            (items-step f w xs rest (omega arith)
              (λ g e.
                parse_value-dump_json w g _ p.0 (stops-items xs rest)
                  (omega (arith, length-append (dump_json print w) (dump_items print xs))))
              (λ g e.
                parse_items-dump_items xs (suc g) rest p.1
                  (omega (arith, length-append (dump_json print w) (dump_items print xs)))))

    parse_members-dump_members :
        (n : Members N) (f : ℕ) (rest : Bytes)
        → MembersReadable from_chars print n
        → 2 * length (dump_members print n) ≤ f
        → MoreMembers f n rest
    parse_members-dump_members no_members f rest p h m = brace_end rest _ _
    parse_members-dump_members (member k v n) f rest p h m =
        brace_more _ _ _
        ∙ members-step f k v n m rest (omega arith)
            (λ g e.
              parse_value-dump_json v g _ p.0 (stops-members n rest)
                (omega (arith, length_member k v n)))
            (λ g e.
              parse_members-dump_members n (suc g) rest p.1 (omega (arith, length_member k v n)))

  -- A value whose numbers are printed as plain tokens, and whose objects are in the order of a
  -- std::map, is read back from what dump_json writes, whatever bytes its texts and keys hold.
  pub parse_json-dump_json :
      (v : Json N)
      → IsReadable from_chars print v
      → parse_json from_chars (dump_json print v) ≡ ok v
  unfolding parse_json
  parse_json-dump_json v p =
      rw
        (Opens-skip_space (dump_json print v)
          (subst Opens (append-nil (dump_json print v)) (dump-Opens v [] p)))
        (ap (λ o. o >>= λ (w, r). if is_empty (skip_space r) then ok w else failed)
          (subst (λ t. parse_value from_chars (2 * length (dump_json print v) + 2) t ≡ ok (v, []))
            (append-nil (dump_json print v))
            (subst (λ n. parse_value from_chars n (dump_json print v ++ []) ≡ ok (v, []))
              {x = suc (2 * length (dump_json print v) + 1)} (omega arith)
              (parse_value-dump_json v (2 * length (dump_json print v) + 1) [] p refl
                (omega arith)))))
