-- ===== src/Evidence/Store.antt =====
-- The class EvidenceStore of src/evidence/evidence_store.cpp, with the files that it writes. A path
-- is its text, `join` is the operator / of two paths and `normal` is lexically_normal().string().
-- `opens` says whether the file system opens a file for writing, `sanitize_output` is that function
-- of src/common/string_utils.cpp for the store's working directory, and the time stamp of
-- captured_at_now is an argument. The counter, an int in the code, is a number without bound.
pub mod Laws
pub mod Ids
use gdb_cli_tools.Prelude.{
  ℕ, zero, suc, ◌+◌, Bool, true, false, not, ◌||◌, some, List, [], ◌∷◌, ◌++◌, ltb, if◌then◌else◌,
  length, is_empty, Bytes, codes, same,
}
use gdb_cli_tools.Text.{slugify}
use gdb_cli_tools.Gdb.Decimal.{to_string}
use gdb_cli_tools.Mi.Audit.{MiRecordAudit, audit_mi_records}
use gdb_cli_tools.Mi.Escape.{joined_raw, decoded_streams}
use gdb_cli_tools.Record.Files.{Files, update}
use gdb_cli_tools.Evidence.{Evidence}
use gdb_cli_tools.Evidence.Sha256.{sha256_hex}
use gdb_cli_tools.Evidence.Text.{truncate_summary, summarize_by_title, index_json}
use gdb_cli_tools.Evidence.View.{evidence_view}

pub record EvidenceStore : Type 0 where
  pub counter : ℕ
  pub evidence : List Evidence
  pub files : Files

-- id_stream.width(4) with the fill character 0.
unfoldable pub fill_zeros : ℕ → Bytes → Bytes
fill_zeros zero digits = digits
fill_zeros (suc n) digits = if ltb (length digits) 4 then fill_zeros n (b'0' ∷ digits) else digits

-- The id of a counter that is already increased.
unfoldable pub evidence_id : ℕ → Bytes
unfolding fill_zeros to_string
evidence_id counter = b'E' ∷ fill_zeros 4 (to_string counter)

-- What add and add_text are called with, but the text.
pub record Source : Type 0 where
  pub kind : Bytes
  pub title : Bytes
  pub command : Bytes

module _ (join : Bytes → Bytes → Bytes) (normal : Bytes → Bytes) (opens : Bytes → Bool)
    (assets : Bytes) where
  -- write_text_file; `false` is its exception.
  unfoldable pub write_text_file : Bytes → Bytes → EvidenceStore → EvidenceStore × Bool
  unfolding update
  write_text_file path text store =
      if opens path
      then (record store { files = update store.files path (some text) }, true)
      else (store, false)

  -- What follows a write that did not throw.
  abbrev pub and_then :
      EvidenceStore × Bool → (EvidenceStore → EvidenceStore × Bool) → EvidenceStore × Bool
  and_then (store, true) k = k store
  and_then (store, false) k = (store, false)

  abbrev pub index_path : Bytes
  index_path = join (join assets (codes "evidence")) (codes "index.json")

  unfoldable pub write_index : EvidenceStore → EvidenceStore × Bool
  unfolding write_text_file index_json
  write_index store = write_text_file index_path (index_json normal store.evidence) store

  -- The constructor of the store, on the files that are there.
  unfoldable pub new_store : Files → EvidenceStore × Bool
  unfolding write_index
  new_store files = write_index (record { counter = 0; evidence = []; files = files })

  unfoldable pub view_path : Bytes → Bytes
  view_path base = join (join assets (codes "evidence")) (base ++ codes ".md")

  unfoldable pub raw_path : Bytes → Bytes → Bytes
  raw_path base extension =
      join (join (join assets (codes "evidence")) (codes "raw")) (base ++ extension)

  unfoldable pub summary_path : Bytes → Bytes
  summary_path base =
      join (join (join assets (codes "evidence")) (codes "summary")) (base ++ codes ".summary.txt")

  -- evidence_.push_back
  abbrev pub push_evidence : Evidence → EvidenceStore → EvidenceStore
  push_evidence ev store = record store { evidence = store.evidence ++ ev ∷ [] }

  -- The three files of a piece of evidence, the store's list and the index, in this order.
  unfoldable pub keep : Evidence → Bytes → EvidenceStore → EvidenceStore × Bool
  unfolding write_text_file evidence_view write_index
  keep ev raw store = and_then (write_text_file ev.raw_file raw store) (λ s₁.
      and_then (write_text_file ev.summary_file ev.summary s₁) (λ s₂.
        and_then (write_text_file ev.view_file (evidence_view normal ev) s₂)
          (λ s₃. write_index (push_evidence ev s₃))))

  -- The piece of evidence with its files named by id and title; `summary` is cut where it is long.
  unfoldable pub new_evidence :
      Source → Bytes → ℕ → Bytes → Bytes → Bytes → List ℕ → List MiRecordAudit → Bool → Evidence
  unfolding evidence_id slugify view_path raw_path summary_path sha256_hex truncate_summary
  new_evidence source extension counter now raw text included records lossy =
      let id = evidence_id counter in
      let base = id ++ b'.' ∷ slugify source.title in
      let cut = truncate_summary text in
      record {
        id = id;
        kind = source.kind;
        title = source.title;
        command = source.command;
        raw_file = raw_path base extension;
        summary_file = summary_path base;
        view_file = view_path base;
        raw_sha256 = sha256_hex raw;
        captured_at = now;
        included_records = included;
        related_records = [];
        concurrent_records = [];
        raw_records = records;
        raw_bytes = length raw;
        kept_bytes = length cut.0;
        truncated = cut.1;
        lossy_summary = lossy || not (same cut.0 raw);
        summary = cut.0;
      }

  -- The store after the call, the evidence, and whether no exception was thrown.
  abbrev pub kept_as : Evidence → Bytes → EvidenceStore → EvidenceStore × (Evidence × Bool)
  kept_as ev raw store = let r = keep ev raw store in (r.0, (ev, r.1))

  module _ (sanitize_output : Bytes → Bytes) where
    unfoldable pub evidence_of : Source → List Bytes → Bool → List ℕ → Bytes → ℕ → Evidence
    unfolding new_evidence joined_raw decoded_streams summarize_by_title audit_mi_records
    evidence_of source raw_lines backtrace_summary included now counter =
        new_evidence source (codes ".mi.txt") counter now (joined_raw raw_lines)
          (summarize_by_title source.title (sanitize_output (decoded_streams raw_lines)) raw_lines
            backtrace_summary)
          included (audit_mi_records raw_lines included) backtrace_summary

    unfoldable pub add :
        Source
        → List Bytes
        → Bool
        → List ℕ
        → Bytes
        → EvidenceStore
        → EvidenceStore × (Evidence × Bool)
    unfolding evidence_of keep
    add source raw_lines backtrace_summary included now store =
        let counter = store.counter + 1 in
        kept_as (evidence_of source raw_lines backtrace_summary included now counter)
          (joined_raw raw_lines) (record store { counter = counter })

    unfoldable pub text_evidence_of : Source → Bytes → Bytes → ℕ → Evidence
    unfolding new_evidence
    text_evidence_of source text now counter =
        let summary = sanitize_output text in
        new_evidence source (codes ".txt") counter now text
          (if is_empty summary then codes "(empty)\n" else summary) [] [] false

    unfoldable pub add_text :
        Source → Bytes → Bytes → EvidenceStore → EvidenceStore × (Evidence × Bool)
    unfolding text_evidence_of keep
    add_text source text now store =
        let counter = store.counter + 1 in
        kept_as (text_evidence_of source text now counter) text (record store { counter = counter })
