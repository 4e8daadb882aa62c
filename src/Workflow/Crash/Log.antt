-- ===== src/Workflow/Crash/Log.antt =====
-- The reads of a log that only grows.
use gdb_cli_tools.Prelude.{
  ℕ, ◌≤◌, ◌≡◌, refl, sym, ap, ◌∙◌, inl, inr, Bool, true, false, List, [], ◌∷◌, ◌++◌, append_assoc,
  append-nil, arith, leb, leb→le, Bool-cases, length, drop, length-append, drop_append_length,
  Bytes,
}
use gdb_cli_tools.Gdb.Process.Stream.{drop-append}
use gdb_cli_tools.Workflow.Crash.{LogFile, unopened, readable, resumed, read_text_delta}

-- What is appended to a log before each read, and whether the log can be opened then.
abbrev pub appended : List (Bytes × Bool) → Bytes
appended [] = []
appended ((piece, opens) ∷ more) = piece ++ appended more

abbrev pub log_file : Bool → Bytes → LogFile
log_file true s = readable s
log_file false s = unopened (length s)

-- The texts of all reads, one behind the other, and of a last one that opens the log.
unfoldable pub read_log : List (Bytes × Bool) → Bytes → ℕ → Bytes
unfolding read_text_delta
read_log [] log offset = (read_text_delta (readable log) offset).0
read_log ((piece, opens) ∷ more) log offset =
    let (delta, next) = read_text_delta (log_file opens (log ++ piece)) offset in
    delta ++ read_log more (log ++ piece) next

drop-all : (s : Bytes) → drop (length s) s ≡ []
drop-all [] = refl
drop-all (c ∷ s) = drop-all s

resumed_lem : (s : Bytes) (n : ℕ) → n ≤ length s → resumed (length s) n ≡ n
resumed_lem s n h = ground arith

read_text_delta-readable :
    (s : Bytes) (n : ℕ) → n ≤ length s → read_text_delta (readable s) n ≡ (drop n s, length s)
unfolding read_text_delta
read_text_delta-readable s n h = elim (Bool-cases (leb (length s) n)) [
  | inl e ↦
      let k : n ≡ length s = omega (arith, leb→le (length s) n e) in
      let ended : drop n s ≡ [] = ap (λ m. drop m s) k ∙ drop-all s in
      let nothing : ([], n) ≡ (drop n s, length s) =
        ap (λ m. ([], m)) k ∙ ap (λ d. (d, length s)) (sym ended) in
      rw (resumed_lem s n h, e) nothing
  | inr e ↦ rw (resumed_lem s n h, e)
]

read_text_delta-unopened :
    (s : Bytes) (n : ℕ) → n ≤ length s → read_text_delta (unopened (length s)) n ≡ ([], n)
unfolding read_text_delta
read_text_delta-unopened s n h = rw (resumed_lem s n h)

-- Of a log that only grows, the reads give all that stands behind the offset, each byte once and in
-- order, whatever is appended between them and whichever of them cannot open the log but the last.
pub read_log_lem :
    (reads : List (Bytes × Bool)) (log : Bytes) (offset : ℕ)
    → offset ≤ length log
    → read_log reads log offset ≡ drop offset (log ++ appended reads)
unfolding read_log
read_log_lem [] log offset h =
    ap (λ r. r.0) (read_text_delta-readable log offset h) ∙ ap (drop offset) (sym (append-nil log))
read_log_lem ((piece, true) ∷ more) log offset h =
    let grown = log ++ piece in
    let longer : offset ≤ length grown = omega (arith, length-append log piece) in
    ap (λ r. r.0 ++ read_log more grown r.1) (read_text_delta-readable grown offset longer)
    ∙ ap (λ l. drop offset grown ++ l)
        (read_log_lem more grown (length grown) (omega arith)
          ∙ drop_append_length grown (appended more))
    ∙ sym (drop-append offset grown (appended more) longer)
    ∙ ap (drop offset) (append_assoc log piece (appended more))
read_log_lem ((piece, false) ∷ more) log offset h =
    let grown = log ++ piece in
    let longer : offset ≤ length grown = omega (arith, length-append log piece) in
    ap (λ r. r.0 ++ read_log more grown r.1) (read_text_delta-unopened grown offset longer)
    ∙ read_log_lem more grown offset longer
    ∙ ap (drop offset) (append_assoc log piece (appended more))
