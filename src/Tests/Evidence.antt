-- ===== src/Tests/Evidence.antt =====
-- Examples for the evidence store.
use gdb_cli_tools.Prelude.{
  ◌*◌, ◌%◌, ◌^◌, ℕ, ◌+◌, ◌≤◌, ◌≡◌, refl, Bool, true, none, [], ◌∷◌, ◌++◌, length, Bytes, codes,
}
use gdb_cli_tools.Record.Files.{Files}
use gdb_cli_tools.Evidence.{Evidence}
use gdb_cli_tools.Evidence.Sha256.{big_endian, sha256_hex}
use gdb_cli_tools.Evidence.Sha256.Laws.{zero_bytes}
use gdb_cli_tools.Evidence.Text.{truncate_summary, truncation_mark}
use gdb_cli_tools.Evidence.Text.Bounds.{IsCut, truncate_summary-IsCut}
use gdb_cli_tools.Evidence.Frames.{simplify_frame_line, summarize_threads}
use gdb_cli_tools.Evidence.Store.{
  EvidenceStore, Source, new_store, add_text, text_evidence_of, keep,
}
use gdb_cli_tools.Evidence.Store.Laws.{Keeps, keep-Keeps}
use gdb_cli_tools.Evidence.Store.Ids.{IsReachable, ids_unique}

-- The published digest of "abc".
digest_of_abc :
    sha256_hex (codes "abc")
    ≡ codes "ba7816bf8f01cfea414140de5dae2223b00361a396177a9cb410ff61f20015ad"
unfolding sha256_hex
digest_of_abc = refl

frame_with_address :
    simplify_frame_line (codes "#1  0x0000 in main (argc=1) at main.c:4")
    ≡ codes "#1 main at main.c:4"
unfolding simplify_frame_line
frame_with_address = refl

frame_without_address :
    simplify_frame_line (codes "#0  abort () from libc.so") ≡ codes "#0 abort from libc.so"
unfolding simplify_frame_line
frame_without_address = refl

current_thread :
    summarize_threads (codes "  Id Target\n* 1  Thread 7 main ()\n  2 Thread 8 wait ()\n")
    ≡ codes "* 1  Thread 7 main ()\n- 2 Thread 8 wait ()\n"
unfolding summarize_threads
current_thread = refl

-- The one block of the text "abc".
abbrev abc_block : Bytes
abc_block =
    codes "abc" ++ 0x80 ∷ (zero_bytes 52 ++ big_endian 8 (length (codes "abc") * 8 % 2 ^ 64))

truncate_summary-IsCut_example :
    (length ((truncate_summary (codes "all kept")).0) ≤ 65536 + length truncation_mark)
    × IsCut (codes "all kept") (truncate_summary (codes "all kept"))
truncate_summary-IsCut_example = truncate_summary-IsCut (codes "all kept")

abbrev slash : Bytes → Bytes → Bytes
slash a b = a ++ b'/' ∷ b

abbrev same_path : Bytes → Bytes
same_path p = p

abbrev all_open : Bytes → Bool
all_open p = true

abbrev no_files : Files
no_files p = none

abbrev empty_store : EvidenceStore
empty_store = (new_store slash same_path all_open (codes "out") no_files).0

abbrev note : Source
note = record { kind = codes "Note"; title = codes "First note"; command = [] }

abbrev one_note : EvidenceStore
one_note =
    (add_text slash same_path all_open (codes "out") same_path note (codes "text") (codes "now")
      empty_store).0

abbrev first_note : Evidence
first_note =
    text_evidence_of slash same_path all_open (codes "out") same_path note (codes "text")
      (codes "now") 1

abbrev place : ℕ
place = 0

ids_unique_example : place ≡ place
unfolding add_text new_store
ids_unique_example =
    ids_unique slash same_path all_open (codes "out") same_path one_note place place first_note
      first_note
      (IsReachable.text_added note (codes "text") (codes "now") (IsReachable.started no_files)) refl
      refl refl

keep-Keeps_example :
    Keeps slash same_path all_open
      (codes "out")
      first_note
      empty_store
      (keep slash same_path all_open (codes "out") first_note (codes "text") empty_store)
keep-Keeps_example =
    keep-Keeps slash same_path all_open (codes "out") first_note (codes "text") empty_store
