-- ===== src/Evidence/Text.antt =====
-- The texts that src/evidence/evidence_store.cpp writes: the summary within its limit, the JSON of a
-- piece of evidence and of the index, and the Markdown view. `normal` is
-- lexically_normal().string() of a path.
pub mod Bounds
use gdb_cli_tools.Prelude.{
  ℕ, Bool, true, false, not, ◌&&◌, ◌||◌, List, [], ◌∷◌, ◌++◌, map, leb, if◌then◌else◌, length,
  is_empty, take, Bytes, codes, quote_mark, newline, same,
}
use gdb_cli_tools.Text.{lower}
use gdb_cli_tools.Gdb.Decimal.{to_string}
use gdb_cli_tools.Gdb.Session.{contains}
use gdb_cli_tools.Json.Text.{json_escape}
use gdb_cli_tools.Mi.Audit
use gdb_cli_tools.Mi.Audit.{MiRecordAudit, RecordKind, StreamType}
use gdb_cli_tools.Mi.Escape.{joined_raw}
use gdb_cli_tools.Mi.Summary.{summarize_mi_records}
use gdb_cli_tools.Evidence.{Evidence}
use gdb_cli_tools.Evidence.Frames.{summarize_backtrace, summarize_threads, end_of_line}

abbrev pub max_summary_bytes : ℕ
max_summary_bytes = 65536

abbrev pub truncation_mark : Bytes
truncation_mark = newline ∷ end_of_line (codes "... truncated by evidence summary byte limit ...")

-- The summary and whether it is cut.
unfoldable pub truncate_summary : Bytes → Bytes × Bool
truncate_summary summary =
    if leb (length summary) max_summary_bytes
    then (summary, false)
    else (take max_summary_bytes summary ++ truncation_mark, true)

unfoldable pub summarize_by_title : Bytes → Bytes → List Bytes → Bool → Bytes
unfolding lower summarize_backtrace summarize_threads summarize_mi_records joined_raw
summarize_by_title title decoded raw_lines backtrace_summary =
    let title_lower = lower title in
    let mi_summary = summarize_mi_records raw_lines in
    if backtrace_summary || contains (codes "backtrace") title_lower
    then summarize_backtrace decoded
    else if contains (codes "thread") title_lower
    then summarize_threads decoded
    else if not (is_empty mi_summary) && same decoded (joined_raw raw_lines)
    then mi_summary
    else decoded

unfoldable pub kind_name : RecordKind → Bytes
kind_name Audit.prompt = codes "prompt"
kind_name Audit.result = codes "result"
kind_name Audit.async = codes "async"
kind_name Audit.stream = codes "stream"
kind_name Audit.unknown = codes "unknown"

unfoldable pub stream_name : StreamType → Bytes
stream_name Audit.no_stream = []
stream_name Audit.console = codes "console"
stream_name Audit.target = codes "target"
stream_name Audit.log = codes "log"

-- Each item, and a comma between two.
unfoldable pub comma_list : List Bytes → Bytes
comma_list [] = []
comma_list (s ∷ []) = s
comma_list (s ∷ t ∷ rest) = s ++ b',' ∷ comma_list (t ∷ rest)

unfoldable pub number_array_json : List ℕ → Bytes
unfolding comma_list to_string
number_array_json items = b'[' ∷ (comma_list (map to_string items) ++ b']' ∷ [])

-- "key":value
unfoldable pub field_json : Bytes → Bytes → Bytes
field_json key value = quote_mark ∷ (key ++ (quote_mark ∷ b':' ∷ value))

unfoldable pub mi_record_audit_json : MiRecordAudit → Bytes
unfolding comma_list field_json kind_name stream_name to_string json_escape
mi_record_audit_json r =
    b'{'
    ∷ (comma_list (
          field_json (codes "sequence") (to_string r.sequence)
          ∷ field_json (codes "token") (json_escape r.token)
          ∷ field_json (codes "record_kind") (json_escape (kind_name r.record_kind))
          ∷ field_json (codes "record_class") (json_escape r.record_class)
          ∷ field_json (codes "stream_type") (json_escape (stream_name r.stream_type))
          ∷ [])
        ++ b'}' ∷ [])

unfoldable pub mi_record_audit_array_json : List MiRecordAudit → Bytes
unfolding comma_list mi_record_audit_json
mi_record_audit_array_json records =
    b'[' ∷ (comma_list (map mi_record_audit_json records) ++ b']' ∷ [])

abbrev pub bool_text : Bool → Bytes
bool_text b = if b then codes "true" else codes "false"

module _ (normal : Bytes → Bytes) where
  unfoldable pub evidence_json : Evidence → Bytes
  unfolding comma_list field_json json_escape number_array_json mi_record_audit_array_json to_string
  evidence_json ev =
      b'{'
      ∷ (comma_list (
            field_json (codes "id") (json_escape ev.id)
            ∷ field_json (codes "kind") (json_escape ev.kind)
            ∷ field_json (codes "title") (json_escape ev.title)
            ∷ field_json (codes "command") (json_escape ev.command)
            ∷ field_json (codes "raw_file") (json_escape (normal ev.raw_file))
            ∷ field_json (codes "summary_file") (json_escape (normal ev.summary_file))
            ∷ field_json (codes "view_file") (json_escape (normal ev.view_file))
            ∷ field_json (codes "raw_sha256") (json_escape ev.raw_sha256)
            ∷ field_json (codes "captured_at") (json_escape ev.captured_at)
            ∷ field_json (codes "included_records") (number_array_json ev.included_records)
            ∷ field_json (codes "related_records") (number_array_json ev.related_records)
            ∷ field_json (codes "concurrent_records") (number_array_json ev.concurrent_records)
            ∷ field_json (codes "raw_records") (mi_record_audit_array_json ev.raw_records)
            ∷ field_json (codes "raw_bytes") (to_string ev.raw_bytes)
            ∷ field_json (codes "kept_bytes") (to_string ev.kept_bytes)
            ∷ field_json (codes "truncated") (bool_text ev.truncated)
            ∷ field_json (codes "lossy_summary") (bool_text ev.lossy_summary)
            ∷ [])
          ++ b'}' ∷ [])

  -- The lines of the evidence in the index: a comma ends each but the last.
  unfoldable pub index_items : List Evidence → Bytes
  unfolding evidence_json
  index_items [] = []
  index_items (ev ∷ []) = codes "    " ++ end_of_line (evidence_json ev)
  index_items (ev ∷ next ∷ rest) =
      codes "    " ++ (evidence_json ev ++ (b',' ∷ newline ∷ index_items (next ∷ rest)))

  unfoldable pub index_json : List Evidence → Bytes
  unfolding index_items to_string
  index_json evidence =
      end_of_line (codes "{")
      ++ (end_of_line (codes "  \"schema\": \"gdb-agent-evidence-index-v1\",")
          ++ (end_of_line
                (codes "  \"summary_byte_limit\": " ++ (to_string max_summary_bytes ++ codes ","))
              ++ (end_of_line (codes "  \"evidence\": [")
                  ++ (index_items evidence
                      ++ (end_of_line (codes "  ]") ++ end_of_line (codes "}"))))))
