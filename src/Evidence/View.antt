-- ===== src/Evidence/View.antt =====
-- evidence_view of src/evidence/evidence_store.cpp: the Markdown page of a piece of evidence.
use gdb_cli_tools.Prelude.{List, [], ◌∷◌, ◌++◌, length, Bytes, codes}
use gdb_cli_tools.Mi.Audit.{MiRecordAudit}
use gdb_cli_tools.Gdb.Decimal.{to_string}
use gdb_cli_tools.Evidence.{Evidence}
use gdb_cli_tools.Evidence.Frames.{end_of_line}
use gdb_cli_tools.Evidence.Text.{bool_text, kind_name, stream_name}

-- "- Label: `value`" on a line.
unfoldable pub bullet : Bytes → Bytes → Bytes
bullet label value = codes "- " ++ (label ++ (codes ": `" ++ (value ++ end_of_line (codes "`"))))

unfoldable pub audit_row : MiRecordAudit → Bytes
unfolding kind_name stream_name to_string
audit_row r =
    codes "| "
    ++ (to_string r.sequence
        ++ (codes " | `"
            ++ (r.token
                ++ (codes "` | `"
                    ++ (kind_name r.record_kind
                        ++ (codes "` | `"
                            ++ (r.record_class
                                ++ (codes "` | `"
                                    ++ (stream_name r.stream_type
                                        ++ end_of_line (codes "` |"))))))))))

unfoldable pub audit_rows : List MiRecordAudit → Bytes
unfolding audit_row
audit_rows [] = []
audit_rows (r ∷ records) = audit_row r ++ audit_rows records

unfoldable pub audit_table : List MiRecordAudit → Bytes
unfolding audit_rows
audit_table [] = []
audit_table (r ∷ records) =
    end_of_line (end_of_line (codes "## Raw MI Audit"))
    ++ (end_of_line (codes "| Seq | Token | Kind | Class | Stream |")
        ++ (end_of_line (codes "| --- | --- | --- | --- | --- |")
            ++ end_of_line (audit_rows (r ∷ records))))

unfoldable pub view_counts : Evidence → Bytes
unfolding bullet to_string
view_counts ev =
    end_of_line (end_of_line (codes "## Record Attribution"))
    ++ (bullet (codes "Included records") (to_string (length ev.included_records))
        ++ (bullet (codes "Related records") (to_string (length ev.related_records))
            ++ end_of_line
                (bullet (codes "Concurrent records") (to_string (length ev.concurrent_records)))))

module _ (normal : Bytes → Bytes) where
  unfoldable pub view_head : Evidence → Bytes
  unfolding bullet to_string
  view_head ev =
      end_of_line (end_of_line (codes "# " ++ (ev.id ++ (codes " " ++ ev.title))))
      ++ (bullet (codes "Kind") ev.kind
          ++ (bullet (codes "Command") ev.command
              ++ (bullet (codes "Captured at") ev.captured_at
                  ++ (bullet (codes "Raw SHA-256") ev.raw_sha256
                      ++ (bullet (codes "Raw bytes") (to_string ev.raw_bytes)
                          ++ (bullet (codes "Kept summary bytes") (to_string ev.kept_bytes)
                              ++ (bullet (codes "Truncated") (bool_text ev.truncated)
                                  ++ (bullet (codes "Lossy summary") (bool_text ev.lossy_summary)
                                      ++ (bullet (codes "Human summary") (normal ev.summary_file)
                                          ++ end_of_line (
                                              bullet (codes "Raw MI") (normal ev.raw_file)))))))))))

  unfoldable pub evidence_view : Evidence → Bytes
  unfolding view_head view_counts audit_table
  evidence_view ev =
      view_head ev
      ++ (view_counts ev
          ++ (audit_table ev.raw_records
              ++ (end_of_line (end_of_line (codes "## Summary"))
                  ++ (end_of_line (codes "```text")
                      ++ (end_of_line ev.summary ++ end_of_line (codes "```"))))))
