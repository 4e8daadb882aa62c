-- ===== src/Json/Dump/Trailing.antt =====
-- parse_json of src/common/json.cpp on two lines, the first of which is a whole value.
use gdb_cli_tools.Prelude.{
  suc, ◌+◌, ◌*◌, ◌≡◌, refl, ap, ◌∙◌, subst, false, Option, ◌∷◌, ◌++◌, arith, if◌then◌else◌, length,
  is_empty, length-append, Bytes, newline,
}
use gdb_cli_tools.Prelude.Parsed.{ok, failed, ◌>>=◌, skip_space, Opens-skip_space}
use gdb_cli_tools.Json.Value.{Json}
use gdb_cli_tools.Json.Parse.{parse_value, parse_json}
use gdb_cli_tools.Json.Dump.{dump_json}
use gdb_cli_tools.Json.Dump.Scalars.{IsReadable}
use gdb_cli_tools.Json.Dump.RoundTrip.{dump-Opens, parse_value-dump_json}

module _ {N : Type 0} (from_chars : Bytes → Option N) (print : N → Bytes) where
  -- A value and more than white space on the lines behind it is refused.
  pub parse_json-trailing :
      (v : Json N) (t : Bytes)
      → IsReadable from_chars print v
      → is_empty (skip_space t) ≡ false
      → parse_json from_chars (dump_json print v ++ newline ∷ t) ≡ failed
  unfolding parse_json
  parse_json-trailing v t p more =
      let s = dump_json print v ++ newline ∷ t in
      rw (Opens-skip_space s (dump-Opens from_chars print v (newline ∷ t) p)) (
        ap (λ o. o >>= λ (w, r). if is_empty (skip_space r) then ok w else failed)
          (subst (λ n. parse_value from_chars n s ≡ ok (v, newline ∷ t))
            {x = suc (2 * length s + 1)} (omega arith)
            (parse_value-dump_json from_chars print v (2 * length s + 1) (newline ∷ t) p refl
              (omega (arith, length-append (dump_json print v) (newline ∷ t)))))
        ∙ rw more)
