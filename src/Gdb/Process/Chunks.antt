-- ===== src/Gdb/Process/Chunks.antt =====
-- The line reader of src/gdb/gdb_process.cpp on bytes that arrive in chunks.
use gdb_cli_tools.Prelude.{
  ◌+◌, ◌≡◌, refl, sym, ap, ◌∙◌, subst, inl, inr, Bool, true, false, some, List, [], ◌∷◌, ◌++◌,
  append_assoc, append-nil, arith, ◌==◌, Bool-cases, Option-cases, length, drop, Bytes, newline,
}
use mathlib.Core.Option.{some-injective}
use gdb_cli_tools.Gdb.Process.{
  GdbProcess, ReadEvent, chunk, interrupted, closed, timed_out, failed, line, pending, find_line,
  strip_return, read_line,
}
use gdb_cli_tools.Gdb.Process.Stream.{IsValid, spec, drop-append, length-find_line, read_line-spec}

-- The bytes of the chunks.
abbrev pub received : List ReadEvent → Bytes
received [] = []
received (chunk s ∷ events) = s ++ received events
received (_ ∷ events) = received events

abbrev pub only_chunks : List ReadEvent → Bool
only_chunks [] = true
only_chunks (chunk s ∷ events) = only_chunks events
only_chunks (interrupted ∷ events) = only_chunks events
only_chunks (_ ∷ events) = false

find_line-append : (s t text : Bytes) → find_line s ≡ some text → find_line (s ++ t) ≡ some text
unfolding find_line
find_line-append [] t text h = cc
find_line-append (c ∷ s) t text h = elim (Bool-cases (c == newline)) [
  | inl e ↦ rw e (rw e at h)
  | inr e ↦ elim (Option-cases (find_line s)) [
    | inl n ↦ cc (rw (e, n) at h)
    | inr (u, k) ↦ rw (e, find_line-append s t u k) (rw (e, k) at h)
  ]
]

-- The stream at a point: the bytes that wait, then those of the events left.
abbrev pub stream : Bytes → List ReadEvent → Bytes
stream s events = s ++ received events

abbrev Cuts : Bytes → List ReadEvent → Bytes → Type 0
Cuts s events text =
    ((spec s events).0 ≡ line (strip_return text))
    × (stream (spec s events).1 (spec s events).2 ≡ drop (length text + 1) (stream s events))

spec_at :
    (s : Bytes) (events : List ReadEvent) (t : Bytes)
    → find_line s ≡ some t
    → spec s events ≡ (line (strip_return t), drop (length t + 1) s, events)
unfolding spec
spec_at s [] t e = rw (e, spec)
spec_at s (x ∷ events) t e = rw (e, spec)

spec_found :
    (s : Bytes) (events : List ReadEvent) (t text : Bytes)
    → find_line s ≡ some t
    → find_line (stream s events) ≡ some text
    → Cuts s events text
spec_found s events t text e h =
    let same_text : t ≡ text =
      some-injective _ _ (sym (find_line-append s (received events) t e) ∙ h) in
    rw (spec_at s events t e, ← same_text)
      (
        refl,
        sym (
            drop-append (length t + 1) s (received events) (omega (arith, length-find_line s t e))),
      )

-- However the output of gdb is cut into chunks and the reads are interrupted: if the bytes that wait
-- and those that arrive hold a line feed, the reply is the text before the first one (without a
-- carriage return at its end), and the bytes behind it are those that are still to come.
pub spec_chunks :
    (s : Bytes) (events : List ReadEvent) (text : Bytes)
    → only_chunks events ≡ true
    → find_line (stream s events) ≡ some text
    → Cuts s events text
unfolding spec
spec_chunks s [] text o h =
    spec_found s [] text text (subst (λ t. find_line t ≡ some text) (append-nil s) h) h
spec_chunks s (chunk t ∷ events) text o h = elim (Option-cases (find_line s)) [
  | inl e ↦
      rw (e, spec, ← append_assoc s t (received events))
        (spec_chunks (s ++ t) events text o (rw append_assoc h))
  | inr (u, e) ↦ spec_found s (chunk t ∷ events) u text e h
]
spec_chunks s (interrupted ∷ events) text o h = elim (Option-cases (find_line s)) [
  | inl e ↦ rw (e, spec) (spec_chunks s events text o h)
  | inr (u, e) ↦ spec_found s (interrupted ∷ events) u text e h
]
spec_chunks s (closed ∷ events) text o h = absurd (cc)
spec_chunks s (timed_out ∷ events) text o h = absurd (cc)
spec_chunks s (failed ∷ events) text o h = absurd (cc)

-- When only chunks and interruptions arrive, and the bytes that wait, followed by those of the
-- chunks, hold a line: read_line gives this line without a carriage return at its end, and what is
-- left of the bytes is what follows the line feed, however they are cut into chunks. The process's
-- position must lie within its buffer.
pub read_line_chunks :
    (p : GdbProcess) (events : List ReadEvent) (text : Bytes)
    → IsValid p
    → only_chunks events ≡ true
    → find_line (stream (pending p) events) ≡ some text
    → let (reply, p', events') = read_line p events in
      (reply ≡ line (strip_return text))
      × (stream (pending p') events' ≡ drop (length text + 1) (stream (pending p) events))
read_line_chunks p events text v o h =
    let agree = (read_line-spec p events v).0 in
    let (e, r) = spec_chunks (pending p) events text o h in
    (ap (λ t. t.0) agree ∙ e, ap (λ t. stream t.1 t.2) agree ∙ r)
