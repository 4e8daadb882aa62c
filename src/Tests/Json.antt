-- ===== src/Tests/Json.antt =====
-- Examples for the JSON parser and printer. Numbers are those below ten, printed as one digit.
use gdb_cli_tools.Prelude.{
  ℕ, ◌+◌, ◌-◌, ◌≡◌, refl, ◌≢◌, false, not, Option, none, some, [], ◌∷◌, ◌++◌, if◌then◌else◌, every,
  Bytes, codes, is_digit,
}
use gdb_cli_tools.Prelude.Parsed.{ok, failed, out_of_fuel}
use gdb_cli_tools.Json.Value.{
  Json, null, bool, number, string, array, object, no_items, item, no_members, member, less,
}
use gdb_cli_tools.Json.Text.{parse_string, json_escape}
use gdb_cli_tools.Json.Text.Laws.{is_control, parse_string-json_escape}
use gdb_cli_tools.Json.Parse.{parse_json, number_token, unsigned_token, span_digits}
use gdb_cli_tools.Json.Parse.Total.{parse_json-ne-out_of_fuel}
use gdb_cli_tools.Json.Dump.{dump_json}
use gdb_cli_tools.Json.Dump.Scalars.{IsPlain, IsReadable}
use gdb_cli_tools.Json.Dump.RoundTrip.{parse_json-dump_json}

abbrev from_digit : Bytes → Option ℕ
from_digit [] = none
from_digit (c ∷ []) = if is_digit c then some (c - 48) else none
from_digit (c ∷ d ∷ s) = none

abbrev to_digit : ℕ → Bytes
to_digit n = (48 + n) ∷ []

seven-IsPlain : IsPlain from_digit to_digit 7
unfolding number_token unsigned_token span_digits
seven-IsPlain = record { starts = refl; token = refl; read = refl }

abbrev request : Json ℕ
request = object (
    member (codes "command") (string (codes "print \"x\"\n")) (
      member (codes "depths") (array (item (number 7) (item null no_items)))
        (member (codes "raw") (bool false) no_members)))

request-IsReadable : IsReadable from_digit to_digit request
unfolding IsReadable less
request-IsReadable =
    (((refl, (refl, tt)), ((refl, tt), (tt, tt))), (tt, ((seven-IsPlain, (tt, tt)), (tt, tt))))

parse_json-dump_json_example : parse_json from_digit (dump_json to_digit request) ≡ ok request
parse_json-dump_json_example = parse_json-dump_json from_digit to_digit request request-IsReadable

parse_json-ne-out_of_fuel_example : parse_json from_digit (codes "[[{\"a\":") ≢ out_of_fuel
parse_json-ne-out_of_fuel_example = parse_json-ne-out_of_fuel from_digit (codes "[[{\"a\":")

parse_string-json_escape_example : parse_string (json_escape (b'a' ∷ 1 ∷ []) ++ codes ",1") ≡ (
    if every (λ c. not (is_control c)) (b'a' ∷ 1 ∷ [])
    then ok (b'a' ∷ 1 ∷ [], codes ",1")
    else failed)
parse_string-json_escape_example = parse_string-json_escape (b'a' ∷ 1 ∷ []) (codes ",1")
