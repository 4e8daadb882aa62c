-- ===== src/Evidence/Frames.antt =====
-- The summaries of a backtrace and of a thread list in src/evidence/evidence_store.cpp. A position
-- in a line is what stands from it on, or how many bytes stand before it.
use gdb_cli_tools.Prelude.{
  ℕ, suc, Bool, true, false, not, ◌||◌, Option, none, some, List, [], ◌∷◌, ◌++◌, ltb, leb, ◌==◌,
  if◌then◌else◌, length, is_empty, take, drop, Bytes, codes, newline, is_digit, find_char,
}
use mathlib.Core.Option
use gdb_cli_tools.Text.{trim, trim_front, starts_with}
use gdb_cli_tools.Task.Env.{lines_of}
use gdb_cli_tools.Mi.Value.{span}
use gdb_cli_tools.Mi.Escape.{after_text}

-- The text behind the last occurrence of `needle`: line.rfind.
unfoldable pub after_last : Bytes → Bytes → Option Bytes
unfolding starts_with
after_last needle [] = if is_empty needle then some [] else none
after_last needle (c ∷ s) = elim (after_last needle s) [
  | some rest ↦ some rest
  | none ↦ if starts_with (c ∷ s) needle then some (drop (length needle) (c ∷ s)) else none
]

-- The position of the first occurrence of `needle`: line.find.
unfoldable pub find_text : Bytes → Bytes → Option ℕ
unfolding starts_with
find_text needle [] = if is_empty needle then some 0 else none
find_text needle (c ∷ s) =
    let later = Option.map suc (find_text needle s) in
    if starts_with (c ∷ s) needle then some 0 else later

-- The earlier of two positions that may be missing.
abbrev pub earlier : Option ℕ → Option ℕ → Option ℕ
earlier none at = at
earlier (some arg) none = some arg
earlier (some arg) (some at) = if ltb at arg then some at else some arg

-- The function name of a frame line without " in ": up to the arguments or " at ", the whole line
-- where that is nothing.
unfoldable pub name_before : Bytes → Option ℕ → Bytes → Bytes
unfolding trim
name_before line none rest = line
name_before line (some fn_end) rest = if ltb 0 fn_end then trim (take fn_end rest) else line

unfoldable pub frame_function : Bytes → Bytes → Bytes
unfolding trim after_text span trim_front find_text name_before
frame_function line behind_number = elim (after_text (codes " in ") line) [
  | some rest ↦ trim (span (λ c. not (c == b'(')) rest).0
  | none ↦
      let rest = trim_front behind_number in
      name_before line (earlier (find_char b'(' rest) (find_text (codes " at ") rest)) rest
]

-- trim of what stands behind the last `needle`, empty where there is none.
unfoldable pub trimmed_after : Bytes → Bytes → Bytes
unfolding trim after_last
trimmed_after needle line = elim (after_last needle line) [ some rest ↦ trim rest | none ↦ [] ]

unfoldable pub frame_suffix : Bytes → Bytes → Bytes
frame_suffix file_line from_library =
    if is_empty file_line
    then (if is_empty from_library then [] else codes " from " ++ from_library)
    else codes " at " ++ file_line

-- A line that begins with #.
unfoldable pub frame_line : Bytes → Bytes
unfolding span trim_front frame_function trimmed_after frame_suffix
frame_line line =
    let number = span is_digit (trim_front (drop 1 line)) in
    b'#'
    ∷ ((if is_empty number.0 then codes "?" else number.0)
        ++ (32 ∷ frame_function line number.1)
        ++ frame_suffix (trimmed_after (codes " at ") line) (trimmed_after (codes " from ") line))

unfoldable pub simplify_frame_line : Bytes → Bytes
unfolding trim starts_with frame_line
simplify_frame_line line =
    if starts_with (trim line) (codes "#") then frame_line (trim line) else trim line

abbrev pub end_of_line : Bytes → Bytes
end_of_line line = line ++ newline ∷ []

-- The loop of summarize_backtrace; `frames` counts the frames that are written.
unfoldable pub backtrace_loop : ℕ → List Bytes → Bytes
unfolding trim starts_with simplify_frame_line
backtrace_loop frames [] = []
backtrace_loop frames (line ∷ lines) =
    let trimmed = trim line in
    let thread = end_of_line trimmed ++ backtrace_loop frames lines in
    let more = backtrace_loop (suc frames) lines in
    let other = backtrace_loop frames lines in
    if starts_with trimmed (codes "Thread ")
    then thread
    else if starts_with trimmed (codes "#")
    then end_of_line (simplify_frame_line trimmed)
      ++ (if leb 12 (suc frames) then end_of_line (codes "... truncated after 12 frames") else more)
    else other

-- The summary, or the text where it is empty.
abbrev pub or_whole : Bytes → Bytes → Bytes
or_whole summary text = if is_empty summary then text else summary

unfoldable pub summarize_backtrace : Bytes → Bytes
unfolding lines_of backtrace_loop
summarize_backtrace text = or_whole (backtrace_loop 0 (lines_of text)) text

-- Does the line begin with a digit?
abbrev pub digit_first : Bytes → Bool
digit_first [] = false
digit_first (c ∷ s) = is_digit c

-- A line of the thread list: its mark and its text, `none` where the loop passes it over.
unfoldable pub thread_text : Bool → Bytes → Option Bytes
unfolding starts_with
thread_text current trimmed =
    if starts_with trimmed (codes "Id ") || starts_with trimmed (codes "Id\t")
    then none
    else if current
    then some (codes "* " ++ trimmed)
    else if digit_first trimmed
    then some (codes "- " ++ trimmed)
    else none

unfoldable pub thread_line : Bytes → Option Bytes
unfolding starts_with trim thread_text
thread_line trimmed =
    if is_empty trimmed
    then none
    else if starts_with trimmed (codes "*")
    then thread_text true (trim (drop 1 trimmed))
    else thread_text false trimmed

unfoldable pub threads_loop : ℕ → List Bytes → Bytes
unfolding trim thread_line
threads_loop threads [] = []
threads_loop threads (line ∷ lines) =
    let more = threads_loop (suc threads) lines in
    let other = threads_loop threads lines in
    elim (thread_line (trim line)) [
      | some text ↦
          end_of_line text
          ++ (if leb 24 (suc threads)
              then end_of_line (codes "... truncated after 24 threads")
              else more)
      | none ↦ other
    ]

unfoldable pub summarize_threads : Bytes → Bytes
unfolding lines_of threads_loop
summarize_threads text = or_whole (threads_loop 0 (lines_of text)) text
