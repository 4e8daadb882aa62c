-- ===== src/Tests/Mi.antt =====
-- Examples for the quoting, the value parser and the audit of MI records.
use gdb_cli_tools.Prelude.{
  ◌≡◌, refl, ◌≢◌, some, List, [], ◌∷◌, ◌++◌, ◌==◌, if◌then◌else◌, Bytes, codes,
}
use gdb_cli_tools.Mi.Escape.{mi_quote, mi_stream_payload, field_value}
use gdb_cli_tools.Mi.Escape.RoundTrip.{mi_stream_payload-mi_quote, field_value-mi_quote}
use gdb_cli_tools.Mi.Value.{
  MiValue, text, bare, tuple, items, no_fields, field, no_items, item, parse_mi_value,
}
use gdb_cli_tools.Mi.Value.Render.{render, is_printable}
use gdb_cli_tools.Mi.Value.RoundTrip.{parse_mi_value-render}
use gdb_cli_tools.Mi.Value.Total.{parse_mi_value-ne-out_of_fuel}
use gdb_cli_tools.Mi.Audit.{result, async, no_stream, audit_line}
use gdb_cli_tools.Mi.Audit.Laws.{audit_line-record}
use gdb_cli_tools.Prelude.Parsed.{ok, out_of_fuel}

abbrev frame : MiValue
frame = tuple (
    field (codes "func") (text (codes "say \"hi\"\n")) (
      field (codes "args") (items (item (bare (codes "1")) (item (tuple no_fields) no_items)))
        no_fields))

parse_mi_value-render_example : parse_mi_value (render frame) ≡ ok frame
unfolding is_printable
parse_mi_value-render_example = parse_mi_value-render frame refl

parse_mi_value-ne-out_of_fuel_example : parse_mi_value (codes "{a=[{b=") ≢ out_of_fuel
parse_mi_value-ne-out_of_fuel_example = parse_mi_value-ne-out_of_fuel (codes "{a=[{b=")

mi_stream_payload-mi_quote_example :
    mi_stream_payload (b'~' ∷ mi_quote (codes "x = \"y\"\n")) ≡ some (codes "x = \"y\"\n")
mi_stream_payload-mi_quote_example = mi_stream_payload-mi_quote b'~' (codes "x = \"y\"\n") refl

field_value-mi_quote_example :
    field_value
      (codes "reason" ++ b'=' ∷ (mi_quote (codes "a \"b\"") ++ codes ",x"))
      (codes "reason")
    ≡ codes "a \"b\""
field_value-mi_quote_example =
    field_value-mi_quote (codes "reason") (codes "a \"b\"") (codes ",x") refl

abbrev log_lines : List Bytes
log_lines = codes "12^done" ∷ codes "(gdb)" ∷ []

audit_line-record_example :
    audit_line 3 (codes "12" ++ b'*' ∷ (codes "stopped" ++ b',' ∷ codes "reason=\"x\"")) ≡ record {
      sequence = 3;
      token = codes "12";
      record_kind = if b'*' == b'^' then result else async;
      record_class = codes "stopped";
      stream_type = no_stream;
    }
audit_line-record_example =
    audit_line-record 3 b'*' (codes "12") (codes "stopped") (codes "reason=\"x\"") refl refl refl
