-- ===== src/Json/Dump/Scalars.antt =====
-- Which values dump_json writes faithfully, and how the parser reads the numbers and texts in them.
use gdb_cli_tools.Prelude.{
  ℕ, suc, ◌≡◌, refl, ap, ◌∙◌, inl, inr, Bool, true, false, ◌||◌, Option, some, [], ◌∷◌, ◌++◌, arith,
  ◌==◌, Bool-cases, Bytes, codes, newline, has_char,
}
use gdb_cli_tools.Prelude.Parsed.{ok, peek, advance, Opens, Opens-skip_space}
use gdb_cli_tools.Json.Text.{escape_string}
use gdb_cli_tools.Json.Text.Laws.{parse_string-escape_string}
use gdb_cli_tools.Json.Value.{
  Json, Items, Members, number, string, array, object, no_items, item, no_members, member,
}
use gdb_cli_tools.Json.Parse.{
  span_digits, unsigned_token, number_token, starts_number, read_token, parse_number, parse_text,
  parse_scalar, parse_value,
}
use gdb_cli_tools.Json.Dump.Order.{Ascending}

-- What may follow a value: nothing, a comma, a closing bracket or a line feed.
abbrev pub stops : Bytes → Bool
stops [] = true
stops (c ∷ s) = c == b',' || (c == b']' || (c == b'}' || c == newline))

span_digits-append :
    (s rest : Bytes)
    → stops rest ≡ true
    → span_digits (s ++ rest) ≡ ((span_digits s).0, (span_digits s).1 ++ rest)
unfolding span_digits
span_digits-append [] [] k = refl
span_digits-append [] (c ∷ rest) k = ground arith
span_digits-append (c ∷ s) rest k = ground (arith, span_digits-append s rest k)

-- A text that may not follow a number inside a token is not seen by the test for one byte.
peek-append :
    (c : ℕ) (s rest : Bytes)
    → has_char c (codes ",]}\n") ≡ false
    → stops rest ≡ true
    → peek c (s ++ rest) ≡ peek c s
peek-append c [] [] h k = refl
peek-append c [] (d ∷ rest) h k = ground arith
peek-append c (d ∷ s) rest h k = refl

advance-append :
    (c : ℕ) (s rest : Bytes) → peek c s ≡ true → advance (s ++ rest) ≡ advance s ++ rest
advance-append c [] rest h = cc
advance-append c (d ∷ s) rest h = refl

unsigned_token-append :
    (s rest : Bytes)
    → stops rest ≡ true
    → unsigned_token (s ++ rest) ≡ ((unsigned_token s).0, (unsigned_token s).1 ++ rest)
unfolding unsigned_token
unsigned_token-append s rest k =
    rw (span_digits-append s rest k, peek-append b'.' (span_digits s).1 rest refl k)
      (elim (Bool-cases (peek b'.' (span_digits s).1)) [
        | inl e ↦ rw (
          e,
          advance-append b'.' (span_digits s).1 rest e,
          span_digits-append (advance (span_digits s).1) rest k,
        )
        | inr e ↦ rw e
      ])

number_token-append :
    (s rest : Bytes)
    → stops rest ≡ true
    → number_token (s ++ rest) ≡ ((number_token s).0, (number_token s).1 ++ rest)
unfolding number_token
number_token-append s rest k =
    rw (peek-append b'-' s rest refl k) (elim (Bool-cases (peek b'-' s)) [
      | inl e ↦ rw (e, advance-append b'-' s rest e, unsigned_token-append (advance s) rest k)
      | inr e ↦ rw (e, unsigned_token-append s rest k)
    ])

module _ {N : Type 0} (from_chars : Bytes → Option N) (print : N → Bytes) where
  -- A number that is printed as one token of digits, with a sign and a point at most, and that is
  -- read back from it: no exponent, and no more digits than operator<< writes.
  pub record IsPlain (x : N) : Type 0 where
    pub starts : starts_number (print x) ≡ true
    pub token : number_token (print x) ≡ (print x, [])
    pub read : from_chars (print x) ≡ some x

  unfoldable mutual
    -- All numbers are plain, and the members of an object are in ascending order, as in a std::map.
    pub IsReadable : Json N → Type 0
    IsReadable (number x) = IsPlain x
    IsReadable (array xs) = ItemsReadable xs
    IsReadable (object m) = Ascending m × MembersReadable m
    IsReadable _ = Unit

    pub ItemsReadable : Items N → Type 0
    ItemsReadable no_items = Unit
    ItemsReadable (item v xs) = IsReadable v × ItemsReadable xs

    pub MembersReadable : Members N → Type 0
    MembersReadable no_members = Unit
    MembersReadable (member k v m) = IsReadable v × MembersReadable m

  pub number-Opens : (s rest : Bytes) → starts_number s ≡ true → Opens (s ++ rest)
  number-Opens [] rest h = absurd (cc)
  number-Opens (c ∷ s) rest h = (ground arith, ground arith, ground arith)

  parse_number-print :
      (x : N) (rest : Bytes)
      → IsPlain x
      → stops rest ≡ true
      → parse_number from_chars (print x ++ rest) ≡ ok (number x, rest)
  unfolding parse_number
  parse_number-print x rest p k =
      ap (read_token from_chars)
        (number_token-append (print x) rest k ∙ ap (λ t. (t.0, t.1 ++ rest)) p.token)
      ∙ unfold read_token in rw (p.read, read_token)

  parse_scalar-number :
      (s rest : Bytes) {r : Json N × Bytes}
      → starts_number s ≡ true
      → parse_number from_chars (s ++ rest) ≡ ok r
      → (parse_scalar from_chars (s ++ rest) ≡ ok r)
        × (peek b'{' (s ++ rest) ≡ false)
        × (peek b'[' (s ++ rest) ≡ false)
  unfolding parse_scalar
  parse_scalar-number [] rest h e = absurd (cc)
  parse_scalar-number (c ∷ s) rest h e = (ground arith, ground arith, ground arith)

  pub parse_value-scalar :
      (f : ℕ) (s : Bytes) {r : Json N × Bytes}
      → Opens s
      → peek b'{' s ≡ false
      → peek b'[' s ≡ false
      → parse_scalar from_chars s ≡ ok r
      → parse_value from_chars (suc f) s ≡ ok r
  unfolding parse_value
  parse_value-scalar f s o b q e = rw (Opens-skip_space s o, b, q) e

  parse_text-string :
      (s rest : Bytes) → parse_text from_chars (escape_string s ++ rest) ≡ ok (string s, rest)
  unfolding parse_text
  parse_text-string s rest = rw (parse_string-escape_string s rest)

  pub parse_value-string :
      (f : ℕ) (s rest : Bytes)
      → parse_value from_chars (suc f) (escape_string s ++ rest) ≡ ok (string s, rest)
  unfolding escape_string parse_scalar
  parse_value-string f s rest =
      parse_value-scalar f _ (refl, refl, refl) refl refl (parse_text-string s rest)

  pub parse_value-number :
      (f : ℕ) (x : N) (rest : Bytes)
      → IsPlain x
      → stops rest ≡ true
      → parse_value from_chars (suc f) (print x ++ rest) ≡ ok (number x, rest)
  parse_value-number f x rest p k =
      let (e, b, q) = parse_scalar-number (print x) rest p.starts (parse_number-print x rest p k) in
      parse_value-scalar f _ (number-Opens (print x) rest p.starts) b q e
