-- ===== src/Json/Dump/OneLine.antt =====
-- Line feeds in the text of dump_json of src/common/json.cpp.
use gdb_cli_tools.Prelude.{
  ℕ, ◌≡◌, refl, true, false, [], ◌∷◌, ◌++◌, arith, Bytes, quote_mark, newline, has_char,
}
use gdb_cli_tools.Json.Value.{
  Json, Items, Members, null, bool, number, string, array, object, no_items, item, no_members,
  member,
}
use gdb_cli_tools.Json.Text.{escape_byte, escape_body, escape_string}
use gdb_cli_tools.Json.Dump.{dump_json, dump_items, dump_members}

-- A text without a line feed.
abbrev pub IsLine : Bytes → Type 0
IsLine s = has_char newline s ≡ false

pub append-IsLine : (s t : Bytes) → IsLine s → IsLine t → IsLine (s ++ t)
append-IsLine [] t h k = k
append-IsLine (c ∷ s) t h k = ground (arith, append-IsLine s t)

escape_byte-IsLine : (c : ℕ) → IsLine (escape_byte c)
unfolding escape_byte
escape_byte-IsLine c = ground arith

escape_body-IsLine : (s : Bytes) → IsLine (escape_body s)
unfolding escape_body
escape_body-IsLine [] = refl
escape_body-IsLine (c ∷ s) =
    append-IsLine (escape_byte c) (escape_body s) (escape_byte-IsLine c) (escape_body-IsLine s)

pub escape_string-IsLine : (s : Bytes) → IsLine (escape_string s)
unfolding escape_string
escape_string-IsLine s = append-IsLine (escape_body s) (quote_mark ∷ []) (escape_body-IsLine s) refl

module _ {N : Type 0} (print : N → Bytes) (prints : (x : N) → IsLine (print x)) where
  mutual
    unfolding dump_json

    value-IsLine : (v : Json N) → IsLine (dump_json print v)
    value-IsLine null = refl
    value-IsLine (bool true) = refl
    value-IsLine (bool false) = refl
    value-IsLine (number x) = prints x
    value-IsLine (string s) = escape_string-IsLine s
    value-IsLine (array no_items) = refl
    value-IsLine (array (item v xs)) =
        append-IsLine (dump_json print v) (dump_items print xs) (value-IsLine v) (items-IsLine xs)
    value-IsLine (object no_members) = refl
    value-IsLine (object (member k v m)) =
        append-IsLine (escape_string k) (b':' ∷ (dump_json print v ++ dump_members print m))
          (escape_string-IsLine k)
          (append-IsLine (dump_json print v) (dump_members print m) (value-IsLine v)
            (members-IsLine m))

    items-IsLine : (xs : Items N) → IsLine (dump_items print xs)
    items-IsLine no_items = refl
    items-IsLine (item v xs) =
        append-IsLine (dump_json print v) (dump_items print xs) (value-IsLine v) (items-IsLine xs)

    members-IsLine : (m : Members N) → IsLine (dump_members print m)
    members-IsLine no_members = refl
    members-IsLine (member k v m) =
        append-IsLine (escape_string k) (b':' ∷ (dump_json print v ++ dump_members print m))
          (escape_string-IsLine k)
          (append-IsLine (dump_json print v) (dump_members print m) (value-IsLine v)
            (members-IsLine m))

  -- Where no number is printed with a line feed, no JSON value is.
  pub dump_json-IsLine : (v : Json N) → IsLine (dump_json print v)
  dump_json-IsLine v = value-IsLine v
