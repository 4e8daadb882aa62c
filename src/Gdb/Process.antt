-- ===== src/Gdb/Process.antt =====
-- The line reader of src/gdb/gdb_process.cpp. What select and read do is a list of events, in order;
-- when the list is at its end the deadline has passed.
pub mod Stream
pub mod Chunks
use gdb_cli_tools.Prelude.{
  ℕ, ◌+◌, ◌*◌, ◌&&◌, Option, none, some, List, [], ◌∷◌, ◌++◌, ltb, leb, ◌==◌, if◌then◌else◌, length,
  drop, Bytes, newline,
}

pub record GdbProcess : Type 0 where
  pub buffer : Bytes
  pub buffer_start : ℕ

pub data ReadEvent : Type 0 where
  chunk : Bytes → ReadEvent
  interrupted closed timed_out failed : ReadEvent

-- What read_line returns: a line, nullopt, or an exception.
pub data Reply : Type 0 where
  line : Bytes → Reply
  no_line error : Reply

abbrev pub compact_threshold : ℕ
compact_threshold = 64 * 1024

-- The bytes that were received and not yet returned.
abbrev pub pending : GdbProcess → Bytes
pending p = drop p.buffer_start p.buffer

-- The text before the first line feed, if there is one: buffer.find('\n', buffer_start).
unfoldable pub find_line : Bytes → Option Bytes
find_line [] = none
find_line (c ∷ s) =
    if c == newline then some [] else elim (find_line s) [ none ↦ none | some t ↦ some (c ∷ t) ]

-- if (!line.empty() && line.back() == '\r') line.pop_back()
unfoldable pub strip_return : Bytes → Bytes
strip_return [] = []
strip_return (c ∷ []) = if c == 13 then [] else c ∷ []
strip_return (c ∷ d ∷ s) = c ∷ strip_return (d ∷ s)

-- The buffer behind a line: it drops what was returned once that is large and half of it.
unfoldable pub consume_line : GdbProcess → Bytes → GdbProcess
consume_line p text =
    let start = p.buffer_start + length text + 1 in
    if leb compact_threshold start && leb (length p.buffer) (start * 2)
    then record { buffer = drop start p.buffer; buffer_start = 0 }
    else record p { buffer_start = start }

abbrev pub cleared : GdbProcess
cleared = record { buffer = []; buffer_start = 0 }

-- The end of the output: what is left is a line, if there is anything.
unfoldable pub at_end : GdbProcess → Reply × GdbProcess
at_end p =
    if ltb p.buffer_start (length p.buffer) then (line (pending p), cleared) else (no_line, cleared)

unfoldable pub append : GdbProcess → Bytes → GdbProcess
append p s = record p { buffer = p.buffer ++ s }

-- The reply, the process behind it and the events that are left.
unfoldable pub read_line : GdbProcess → List ReadEvent → Reply × GdbProcess × List ReadEvent
unfolding find_line strip_return consume_line at_end append
read_line p [] = elim (find_line (pending p)) [
  | some text ↦ (line (strip_return text), consume_line p text, [])
  | none ↦ (no_line, p, [])
]
read_line p (e ∷ events) =
    let again = read_line (elim e [ chunk s ↦ append p s | _ ↦ p ]) events in
    elim (find_line (pending p)) [
      | some text ↦ (line (strip_return text), consume_line p text, e ∷ events)
      | none ↦ elim e [
        | chunk s ↦ again
        | interrupted ↦ again
        | closed ↦ ((at_end p).0, (at_end p).1, events)
        | timed_out ↦ (no_line, p, events)
        | failed ↦ (error, p, events)
      ]
    ]
