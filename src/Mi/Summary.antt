-- ===== src/Mi/Summary.antt =====
-- The summaries of src/gdb/mi_utils.cpp: a line for each result or asynchronous record.
pub mod Bounds
use gdb_cli_tools.Prelude.{
  ℕ, ◌+◌, ◌-◌, ◌≡◌, refl, Bool, true, false, Option, none, some, List, [], ◌∷◌, ◌++◌, ltb, leb,
  ◌==◌, if◌then◌else◌, length, is_empty, take, Bytes, codes, newline, same,
}
use gdb_cli_tools.Prelude.Parsed.{Parsed, ok, failed, out_of_fuel}
use gdb_cli_tools.Mi.Value.{
  MiValue, MiFields, MiItems, text, bare, tuple, items, no_fields, field, no_items, item,
  parse_mi_value,
}
use gdb_cli_tools.Mi.Audit.{record_marker, class_of, result_payload}

-- limit_summary(text, max_size)
unfoldable pub limit_summary : Bytes → ℕ → Bytes
limit_summary s max_size =
    if leb (length s) max_size
    then s
    else if leb max_size 4
    then take max_size s
    else take (max_size - 4) s ++ codes " ..."

-- What the loops of value_summary write behind an entry: nothing at the end, ", ..." behind the
-- sixth entry or a later one, else a comma and the entries that follow.
unfoldable pub entry_end : ℕ → Bool → Bytes → Bytes
entry_end i is_last more =
    if is_last then [] else if leb 5 i then codes ", ..." else codes ", " ++ more

abbrev pub no_more_fields : MiFields → Bool
no_more_fields no_fields = true
no_more_fields (field k v fs) = false

abbrev pub no_more_items : MiItems → Bool
no_more_items no_items = true
no_more_items (item v xs) = false

-- `depth` is the value's depth and `i` an entry's number.
unfoldable mutual
  pub value_summary : MiValue → ℕ → Bytes
  value_summary (text s) depth = if ltb 3 depth then codes "..." else s
  value_summary (bare s) depth = if ltb 3 depth then codes "..." else s
  value_summary (tuple fs) depth =
      let inside = fields_summary fs 0 depth in
      if ltb 3 depth then codes "..." else b'{' ∷ (inside ++ b'}' ∷ [])
  value_summary (items xs) depth =
      let inside = items_summary xs 0 depth in
      if ltb 3 depth then codes "..." else b'[' ∷ (inside ++ b']' ∷ [])

  pub fields_summary : MiFields → ℕ → ℕ → Bytes
  fields_summary no_fields i depth = []
  fields_summary (field k v fs) i depth =
      k
      ++ b'='
        ∷ (value_summary v (depth + 1)
            ++ entry_end i (no_more_fields fs) (fields_summary fs (i + 1) depth))

  pub items_summary : MiItems → ℕ → ℕ → Bytes
  items_summary no_items i depth = []
  items_summary (item v xs) i depth =
      value_summary v (depth + 1) ++ entry_end i (no_more_items xs) (items_summary xs (i + 1) depth)

unfoldable pub find_field : Bytes → MiFields → Option MiValue
find_field name no_fields = none
find_field name (field k v fs) = if same k name then some v else find_field name fs

unfoldable pub tuple_field : MiValue → Bytes → Option MiValue
unfolding find_field
tuple_field (tuple fs) name = find_field name fs
tuple_field _ name = none

unfoldable pub scalar_summary : MiValue → Bytes
unfolding value_summary entry_end
scalar_summary (text s) = s
scalar_summary (bare s) = s
scalar_summary v = value_summary v 0

-- What append_named_field writes; the label stands for the name where there is one.
unfoldable pub named_field : MiValue → Bytes → Bytes → Bytes
unfolding tuple_field scalar_summary limit_summary
named_field v name label = elim (tuple_field v name) [
  | none ↦ []
  | some f ↦
      32 ∷ ((if is_empty label then name else label) ++ b'=' ∷ limit_summary (scalar_summary f) 160)
]

unfoldable pub frame_place : Option MiValue → Option MiValue → Bytes
unfolding scalar_summary limit_summary
frame_place none line = []
frame_place (some path) line =
    codes " at "
    ++ (limit_summary (scalar_summary path) 120
        ++ elim line [ none ↦ [] | some l ↦ b':' ∷ scalar_summary l ])

unfoldable pub first_of : Option MiValue → Option MiValue → Option MiValue
first_of (some v) w = some v
first_of none w = w

unfoldable pub frame_text : MiValue → Option MiValue → Option MiValue → Option MiValue → Bytes
unfolding scalar_summary limit_summary frame_place value_summary
frame_text frame (some func) path line =
    codes " frame=" ++ (limit_summary (scalar_summary func) 80 ++ frame_place path line)
frame_text frame none (some path) line = frame_place (some path) line
frame_text frame none none line = codes " frame=" ++ limit_summary (value_summary frame 0) 160

unfoldable pub frame_summary : MiValue → Bytes
unfolding tuple_field first_of frame_text
frame_summary frame =
    frame_text frame (tuple_field frame (codes "func"))
      (first_of (tuple_field frame (codes "file")) (tuple_field frame (codes "fullname")))
      (tuple_field frame (codes "line"))

unfoldable pub labelled : Bytes → Option MiValue → Bytes
unfolding limit_summary value_summary
labelled label none = []
labelled label (some v) = label ++ limit_summary (value_summary v 0) 160

unfoldable pub frame_part : Option MiValue → Bytes
unfolding frame_summary
frame_part none = []
frame_part (some frame) = frame_summary frame

-- append_payload_summary
unfoldable pub payload_summary : MiValue → Bytes
unfolding named_field tuple_field frame_part labelled
payload_summary payload =
    named_field payload (codes "msg") []
    ++ (named_field payload (codes "reason") []
        ++ (named_field payload (codes "thread-id") []
            ++ (named_field payload (codes "stopped-threads") []
                ++ (named_field payload (codes "value") []
                    ++ (frame_part (tuple_field payload (codes "frame"))
                        ++ (labelled (codes " bkpt=") (tuple_field payload (codes "bkpt"))
                            ++ labelled (codes " wpt=") (tuple_field payload (codes "wpt"))))))))

unfoldable pub parsed_summary : Parsed MiValue → Bytes
unfolding payload_summary
parsed_summary (ok payload) = payload_summary payload
parsed_summary failed = []
parsed_summary out_of_fuel = []

-- The payload is parsed as a tuple; one that does not parse is left out.
unfoldable pub summary_of : Bytes → Bytes
unfolding parsed_summary parse_mi_value
summary_of payload =
    if is_empty payload then [] else parsed_summary (parse_mi_value (b'{' ∷ (payload ++ b'}' ∷ [])))

unfoldable pub record_summary : Option (Bytes × Bytes) → Bytes
unfolding class_of result_payload summary_of
record_summary none = []
record_summary (some (token, [])) = []
record_summary (some (token, kind ∷ s)) =
    (if kind == b'^' then codes "result" else codes "async")
    ++ b':' ∷ (class_of s ++ (summary_of (result_payload s) ++ newline ∷ []))

unfoldable pub summarize_mi_records : List Bytes → Bytes
unfolding record_marker record_summary
summarize_mi_records [] = []
summarize_mi_records (line ∷ lines) =
    record_summary (record_marker line (codes "^*=")) ++ summarize_mi_records lines

stop_line :
    summarize_mi_records (
      codes "*stopped,reason=\"end\",frame={func=\"f\",line=\"3\",file=\"a.c\"}"
      ∷ codes "(gdb)"
      ∷ [])
    ≡ codes "async:stopped reason=end frame=f at a.c:3" ++ newline ∷ []
unfolding summarize_mi_records
stop_line = refl
