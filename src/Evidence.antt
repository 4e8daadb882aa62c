-- ===== src/Evidence.antt =====
-- The evidence store of src/evidence: the record of one piece of evidence.
pub mod Sha256
pub mod Frames
pub mod Text
pub mod View
pub mod Store
use gdb_cli_tools.Prelude.{ℕ, Bool, List, Bytes}
use gdb_cli_tools.Mi.Audit.{MiRecordAudit}

-- A std::filesystem::path is its text.
pub record Evidence : Type 0 where
  pub id : Bytes
  pub kind : Bytes
  pub title : Bytes
  pub command : Bytes
  pub raw_file : Bytes
  pub summary_file : Bytes
  pub view_file : Bytes
  pub raw_sha256 : Bytes
  pub captured_at : Bytes
  pub included_records : List ℕ
  pub related_records : List ℕ
  pub concurrent_records : List ℕ
  pub raw_records : List MiRecordAudit
  pub raw_bytes : ℕ
  pub kept_bytes : ℕ
  pub truncated : Bool
  pub lossy_summary : Bool
  pub summary : Bytes
