-- ===== src/Mi/Audit.antt =====
-- record_marker, token_prefix, result_payload and audit_mi_records of src/gdb/mi_utils.cpp. A line
-- and a position in it are the text before the position and the text from it on.
pub mod Laws
use gdb_cli_tools.Prelude.{
  ℕ, ◌≡◌, refl, not, ◌||◌, Option, none, some, List, [], ◌∷◌, map, ◌==◌, if◌then◌else◌, every,
  Bytes, codes, is_digit, same, has_char,
}
use mathlib.Core.Option
use gdb_cli_tools.Mi.Value.{span}

pub data RecordKind : Type 0 where
  prompt result async stream unknown : RecordKind

pub data StreamType : Type 0 where
  no_stream console target log : StreamType

pub record MiRecordAudit : Type 0 where
  pub sequence : ℕ
  pub token : Bytes
  pub record_kind : RecordKind
  pub record_class : Bytes
  pub stream_type : StreamType

-- line.find_first_of(markers)
unfoldable pub find_first_of : Bytes → Bytes → Option (Bytes × Bytes)
find_first_of markers [] = none
find_first_of markers (c ∷ s) =
    if has_char c markers
    then some ([], c ∷ s)
    else Option.map (λ (t, r). (c ∷ t, r)) (find_first_of markers s)

-- The marker, if nothing but digits stands before it: the token and the text from the marker on.
unfoldable pub digits_only : Bytes × Bytes → Option (Bytes × Bytes)
digits_only (token, r) = if every is_digit token then some (token, r) else none

unfoldable pub record_marker : Bytes → Bytes → Option (Bytes × Bytes)
unfolding find_first_of digits_only
record_marker line markers = elim (find_first_of markers line) [
  | none ↦ none
  | some found ↦ digits_only found
]

-- The bytes up to a comma: line.substr(class_start, class_end - class_start).
unfoldable pub class_of : Bytes → Bytes
unfolding span
class_of s = (span (λ c. not (c == b',')) s).0

abbrev pub all_markers : Bytes
all_markers = codes "^*=~@&"

unfoldable pub kind_of : ℕ → RecordKind
kind_of kind =
    if kind == b'^'
    then result
    else if kind == b'*' || kind == b'='
    then async
    else if kind == b'~' || (kind == b'@' || kind == b'&')
    then stream
    else unknown

unfoldable pub stream_of : ℕ → StreamType
stream_of kind =
    if kind == b'~' || (kind == b'@' || kind == b'&')
    then (if kind == b'~' then console else if kind == b'@' then target else log)
    else no_stream

abbrev pub blank_audit : ℕ → RecordKind → MiRecordAudit
blank_audit sequence kind = record {
  sequence = sequence;
  token = [];
  record_kind = kind;
  record_class = [];
  stream_type = no_stream;
}

-- The audit of a line with a marker: the byte at the marker is `kind`, `s` follows it.
unfoldable pub marked_audit : ℕ → Bytes × Bytes → MiRecordAudit
unfolding kind_of stream_of class_of
marked_audit sequence (token, []) = blank_audit sequence unknown
marked_audit sequence (token, kind ∷ s) = record {
  sequence = sequence;
  token = token;
  record_kind = kind_of kind;
  record_class = if kind == b'^' || (kind == b'*' || kind == b'=') then class_of s else [];
  stream_type = stream_of kind;
}

unfoldable pub audit_line : ℕ → Bytes → MiRecordAudit
unfolding record_marker marked_audit
audit_line sequence line =
    if same line (codes "(gdb)")
    then blank_audit sequence prompt
    else elim (record_marker line all_markers) [
      | none ↦ blank_audit sequence unknown
      | some found ↦ marked_audit sequence found
    ]

-- A line beyond the sequence numbers gets 0.
unfoldable pub audit_mi_records : List Bytes → List ℕ → List MiRecordAudit
unfolding audit_line
audit_mi_records [] sequences = []
audit_mi_records (line ∷ lines) [] = audit_line 0 line ∷ audit_mi_records lines []
audit_mi_records (line ∷ lines) (n ∷ sequences) =
    audit_line n line ∷ audit_mi_records lines sequences

-- The text behind the first comma, if there is any.
unfoldable pub result_payload : Bytes → Bytes
unfolding span
result_payload s = elim (span (λ c. not (c == b',')) s).1 [ [] ↦ [] | c ∷ payload ↦ payload ]

result_line : audit_line 4 (codes "12^done,value=\"1\"") ≡ record {
  sequence = 4;
  token = codes "12";
  record_kind = result;
  record_class = codes "done";
  stream_type = no_stream;
}
unfolding audit_line
result_line = refl
