-- ===== src/Gdb/Process/Stream.antt =====
-- The line reader of src/gdb/gdb_process.cpp seen from outside, as a function of the bytes that wait.
use mathlib.Core.Option.{some-injective}
use gdb_cli_tools.Prelude.{
  ℕ, zero, suc, ◌+◌, ◌*◌, ◌≤◌, ◌<◌, ◌≡◌, refl, sym, ap, ◌∙◌, inl, inr, ◌&&◌, none, some, List, [],
  ◌∷◌, ◌++◌, arith, leb, ◌==◌, if◌then◌else◌, Bool-cases, Option-cases, length, is_empty, drop,
  length-append, length-drop, Bytes, newline,
}
use gdb_cli_tools.Gdb.Process.{
  GdbProcess, ReadEvent, chunk, interrupted, closed, timed_out, failed, Reply, line, no_line, error,
  compact_threshold, pending, find_line, strip_return, consume_line, at_end, append, read_line,
}

-- The position lies within the buffer.
abbrev pub IsValid : GdbProcess → Type 0
IsValid p = p.buffer_start ≤ length p.buffer

-- The reader's specification, on the bytes that wait.
unfoldable pub spec : Bytes → List ReadEvent → Reply × Bytes × List ReadEvent
spec s [] = elim (find_line s) [
  | some text ↦ (line (strip_return text), drop (length text + 1) s, [])
  | none ↦ (no_line, s, [])
]
spec s (e ∷ events) =
    let again = spec (elim e [ chunk t ↦ s ++ t | _ ↦ s ]) events in
    elim (find_line s) [
      | some text ↦ (line (strip_return text), drop (length text + 1) s, e ∷ events)
      | none ↦ elim e [
        | chunk t ↦ again
        | interrupted ↦ again
        | closed ↦ if is_empty s then (no_line, [], events) else (line s, [], events)
        | timed_out ↦ (no_line, s, events)
        | failed ↦ (error, s, events)
      ]
    ]

-- The reply, the bytes that wait and the events left, of a run of read_line.
abbrev pub view : Reply × GdbProcess × List ReadEvent → Reply × Bytes × List ReadEvent
view (r, p, events) = (r, pending p, events)

drop-nil : (k : ℕ) → drop {A = ℕ} k [] ≡ []
drop-nil zero = refl
drop-nil (suc k) = refl

drop-drop : (n m : ℕ) (s : Bytes) → drop m (drop n s) ≡ drop (n + m) s
drop-drop zero m s = ap (λ k. drop k s) (omega arith)
drop-drop (suc n) m [] = drop-nil m ∙ sym (drop-nil (suc n + m))
drop-drop (suc n) m (c ∷ s) =
    drop-drop n m s ∙ ap (λ k. drop k (c ∷ s)) {x = suc (n + m)} (omega arith)

pub drop-append : (n : ℕ) (s t : Bytes) → n ≤ length s → drop n (s ++ t) ≡ drop n s ++ t
drop-append zero s t h = refl
drop-append (suc n) [] t h = absurd (omega arith)
drop-append (suc n) (c ∷ s) t h = drop-append n s t (omega arith)

pub length-find_line : (s text : Bytes) → find_line s ≡ some text → length text < length s
unfolding find_line
length-find_line [] text h = cc
length-find_line (c ∷ s) text h = elim (Bool-cases (c == newline)) [
  | inl e ↦ omega (arith, ap length (some-injective _ _ (rw e at h)))
  | inr e ↦ elim (Option-cases (find_line s)) [
    | inl n ↦ cc (rw (e, n) at h)
    | inr (t, k) ↦
        omega (arith, length-find_line s t k, ap length (some-injective _ _ (rw (e, k) at h)))
  ]
]

pending-consume_line :
    (p : GdbProcess) (text : Bytes)
    → pending (consume_line p text) ≡ drop (length text + 1) (pending p)
unfolding consume_line
pending-consume_line p text =
    let start = p.buffer_start + length text + 1 in
    let step : drop start p.buffer ≡ drop (length text + 1) (pending p) =
      ap (λ k. drop k p.buffer) (omega arith)
      ∙ sym (drop-drop p.buffer_start (length text + 1) p.buffer) in
    elim (Bool-cases (leb compact_threshold start && leb (length p.buffer) (start * 2))) [
      | inl e ↦ rw e step
      | inr e ↦ rw e step
    ]

consume_line-IsValid :
    (p : GdbProcess) (text : Bytes)
    → IsValid p
    → find_line (pending p) ≡ some text
    → IsValid (consume_line p text)
unfolding consume_line
consume_line-IsValid p text v e =
    ground (arith, length-find_line (pending p) text e, length-drop p.buffer_start p.buffer)

at_end-view :
    (p : GdbProcess) (events : List ReadEvent)
    → IsValid p
    → view ((at_end p).0, (at_end p).1, events)
      ≡ (if is_empty (pending p) then (no_line, [], events) else (line (pending p), [], events))
unfolding at_end
at_end-view p events v = ground (arith, length-drop p.buffer_start p.buffer)

at_end-IsValid : (p : GdbProcess) → IsValid (at_end p).1
unfolding at_end
at_end-IsValid p = ground arith

pending-append : (p : GdbProcess) (s : Bytes) → IsValid p → pending (append p s) ≡ pending p ++ s
unfolding append
pending-append p s v = drop-append p.buffer_start p.buffer s v

append-IsValid : (p : GdbProcess) (s : Bytes) → IsValid p → IsValid (append p s)
unfolding append
append-IsValid p s v = omega (arith, length-append p.buffer s)

-- A run agrees with the specification and leaves a valid position.
abbrev Agrees : GdbProcess → List ReadEvent → Type 0
Agrees p events =
    (view (read_line p events) ≡ spec (pending p) events) × IsValid (read_line p events).1

read_found :
    (p : GdbProcess) (events : List ReadEvent) (text : Bytes)
    → IsValid p
    → find_line (pending p) ≡ some text
    → Agrees p events
unfolding read_line spec
read_found p [] text v e = (
  rw (e, read_line, spec, pending-consume_line p text),
  rw (e, read_line) (consume_line-IsValid p text v e),
)
read_found p (x ∷ events) text v e = (
  rw (e, read_line, spec, pending-consume_line p text),
  rw (e, read_line) (consume_line-IsValid p text v e),
)

-- read_line is a reader of the waiting bytes: for every list of events its reply, the bytes that
-- wait and the events left are those of the specification, and the position stays within the buffer.
pub read_line-spec :
    (p : GdbProcess) (events : List ReadEvent)
    → IsValid p
    → (view (read_line p events) ≡ spec (pending p) events) × IsValid (read_line p events).1
unfolding read_line spec
read_line-spec p [] v = elim (Option-cases (find_line (pending p))) [
  | inl e ↦ (rw (e, read_line, spec), rw (e, read_line) v)
  | inr (text, e) ↦ read_found p [] text v e
]
read_line-spec p (chunk s ∷ events) v = elim (Option-cases (find_line (pending p))) [
  | inl e ↦
      let (h, w) = read_line-spec (append p s) events (append-IsValid p s v) in
      (
        rw (e, read_line, spec) (h ∙ ap (λ t. spec t events) (pending-append p s v)),
        rw (e, read_line) w,
      )
  | inr (text, e) ↦ read_found p (chunk s ∷ events) text v e
]
read_line-spec p (interrupted ∷ events) v = elim (Option-cases (find_line (pending p))) [
  | inl e ↦
      let (h, w) = read_line-spec p events v in (rw (e, read_line, spec) h, rw (e, read_line) w)
  | inr (text, e) ↦ read_found p (interrupted ∷ events) text v e
]
read_line-spec p (closed ∷ events) v = elim (Option-cases (find_line (pending p))) [
  | inl e ↦ (rw (e, read_line, spec) (at_end-view p events v), rw (e, read_line) (at_end-IsValid p))
  | inr (text, e) ↦ read_found p (closed ∷ events) text v e
]
read_line-spec p (timed_out ∷ events) v = elim (Option-cases (find_line (pending p))) [
  | inl e ↦ (rw (e, read_line, spec), rw (e, read_line) v)
  | inr (text, e) ↦ read_found p (timed_out ∷ events) text v e
]
read_line-spec p (failed ∷ events) v = elim (Option-cases (find_line (pending p))) [
  | inl e ↦ (rw (e, read_line, spec), rw (e, read_line) v)
  | inr (text, e) ↦ read_found p (failed ∷ events) text v e
]
