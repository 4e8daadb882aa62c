-- ===== src/Mi/Audit/Laws.antt =====
-- audit_mi_records of src/gdb/mi_utils.cpp, line by line.
use gdb_cli_tools.Prelude.{
  ℕ, zero, suc, ◌≡◌, refl, ap, ◌∙◌, Bool, true, false, ◌||◌, Option, none, some, List, [], ◌∷◌,
  ◌++◌, arith, ◌==◌, if◌then◌else◌, length, get_elem?, every, Bytes, codes, is_digit, same,
  has_char,
}
use mathlib.Core.Option
use gdb_cli_tools.Mi.Audit.{
  prompt, result, async, unknown, no_stream, MiRecordAudit, find_first_of, digits_only,
  record_marker, class_of, all_markers, blank_audit, marked_audit, audit_line, audit_mi_records,
}

audit_line-sequence : (n : ℕ) (line : Bytes) → (audit_line n line).sequence ≡ n
unfolding audit_line
audit_line-sequence n line = go (same line (codes "(gdb)")) (record_marker line all_markers)
  where
    pick : Bool → Option (Bytes × Bytes) → MiRecordAudit
    pick b o =
        if b
        then blank_audit n prompt
        else elim o [ none ↦ blank_audit n unknown | some found ↦ marked_audit n found ]

    go : (b : Bool) (o : Option (Bytes × Bytes)) → (pick b o).sequence ≡ n
    go true o = refl
    go false none = refl
    go false (some (token, [])) = refl
    go false (some (token, c ∷ s)) = refl

-- The sequence number that stands at a line's position, or 0.
abbrev pub sequence_at : List ℕ → ℕ → ℕ
sequence_at sequences i = elim (get_elem? sequences i) [ some n ↦ n | none ↦ 0 ]

-- There is one audit record for each line, in order: the record at a position is the audit of the
-- line there, under the sequence number there, and carries that number; past the lines is nothing.
pub audit_mi_records-get_elem? :
    (lines : List Bytes) (sequences : List ℕ) (i : ℕ)
    → (get_elem? (audit_mi_records lines sequences) i
        ≡ Option.map (audit_line (sequence_at sequences i)) (get_elem? lines i))
      × (length (audit_mi_records lines sequences) ≡ length lines)
unfolding audit_mi_records
audit_mi_records-get_elem? [] sequences i = (refl, refl)
audit_mi_records-get_elem? (line ∷ lines) [] zero =
    (refl, ap suc ((audit_mi_records-get_elem? lines [] zero).1))
audit_mi_records-get_elem? (line ∷ lines) [] (suc i) =
    let (p, q) = audit_mi_records-get_elem? lines [] i in (p, ap suc q)
audit_mi_records-get_elem? (line ∷ lines) (n ∷ sequences) zero =
    (refl, ap suc ((audit_mi_records-get_elem? lines sequences zero).1))
audit_mi_records-get_elem? (line ∷ lines) (n ∷ sequences) (suc i) =
    let (p, q) = audit_mi_records-get_elem? lines sequences i in (p, ap suc q)

digits-record_marker :
    (token s : Bytes) (kind : ℕ)
    → every is_digit token ≡ true
    → has_char kind all_markers ≡ true
    → find_first_of all_markers (token ++ kind ∷ s) ≡ some (token, kind ∷ s)
unfolding find_first_of
digits-record_marker [] s kind h k = rw k
digits-record_marker (c ∷ token) s kind h k =
    rw (digit_no_marker c (ground arith), digits-record_marker token s kind (ground arith) k)
  where
    digit_no_marker : (c : ℕ) → is_digit c ≡ true → has_char c all_markers ≡ false
    digit_no_marker c h = ground arith

class_of-append :
    (klass payload : Bytes)
    → has_char b',' klass ≡ false
    → class_of (klass ++ b',' ∷ payload) ≡ klass
unfolding class_of
class_of-append [] payload h = refl
class_of-append (c ∷ klass) payload h = ground (arith, class_of-append klass payload)

record_marker-record :
    (token s : Bytes) (kind : ℕ)
    → every is_digit token ≡ true
    → has_char kind all_markers ≡ true
    → record_marker (token ++ kind ∷ s) all_markers ≡ some (token, kind ∷ s)
unfolding record_marker
record_marker-record token s kind h k =
    ap {B = Option (Bytes × Bytes)} (λ o. elim o [ none ↦ none | some found ↦ digits_only found ])
      (digits-record_marker token s kind h k)
    ∙ (rw h)

no_prompt :
    (token s : Bytes) (kind : ℕ)
    → every is_digit token ≡ true
    → has_char kind all_markers ≡ true
    → same (token ++ kind ∷ s) (codes "(gdb)") ≡ false
no_prompt [] s kind h k = ground arith
no_prompt (c ∷ token) s kind h k = ground arith

marked_audit-record :
    (n kind : ℕ) (token klass payload : Bytes)
    → has_char b',' klass ≡ false
    → (kind == b'^' || (kind == b'*' || kind == b'=')) ≡ true
    → marked_audit n (token, kind ∷ (klass ++ b',' ∷ payload)) ≡ record {
      sequence = n;
      token = token;
      record_kind = if kind == b'^' then result else async;
      record_class = klass;
      stream_type = no_stream;
    }
unfolding marked_audit
marked_audit-record n kind token klass payload k m = ground (arith, class_of-append klass payload k)

-- A record that is a token of digits, ^, * or =, a class without a comma, a comma and a payload is
-- audited as that token, kind and class: ^ is a result record, * and = are asynchronous records.
pub audit_line-record :
    (n kind : ℕ) (token klass payload : Bytes)
    → every is_digit token ≡ true
    → has_char b',' klass ≡ false
    → (kind == b'^' || (kind == b'*' || kind == b'=')) ≡ true
    → audit_line n (token ++ kind ∷ (klass ++ b',' ∷ payload)) ≡ record {
      sequence = n;
      token = token;
      record_kind = if kind == b'^' then result else async;
      record_class = klass;
      stream_type = no_stream;
    }
unfolding audit_line
audit_line-record n kind token klass payload h k m =
    rw (no_prompt token (klass ++ b',' ∷ payload) kind h (ground arith)) (
      ap {B = MiRecordAudit}
        (λ o. elim o [ none ↦ blank_audit n unknown | some found ↦ marked_audit n found ])
        (record_marker-record token (klass ++ b',' ∷ payload) kind h (ground arith))
      ∙ marked_audit-record n kind token klass payload k m)
