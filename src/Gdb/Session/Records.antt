-- ===== src/Gdb/Session/Records.antt =====
-- The records that command_blocking of src/gdb/gdb_session.cpp keeps, and the session log.
use gdb_cli_tools.Prelude.{
  ℕ, zero, suc, ◌+◌, ◌-◌, ◌≤◌, ◌<◌, ◌≡◌, refl, ap, ◌∙◌, some, List, [], ◌∷◌, ◌++◌, arith, if_both,
  length, get_elem?, length-append, Bytes, same,
}
use gdb_cli_tools.Text.{starts_with}
use gdb_cli_tools.Gdb.Session.{
  CommandResult, GdbSession, new_result, log_line, push_record, send, prompt_line, result_class_of,
  command_loop, command_blocking,
}

-- The lines are the log's lines at the numbers, which count from 1.
abbrev pub Logged : List Bytes → List ℕ → List Bytes → Type 0
Logged log [] [] = Unit
Logged log (n ∷ sequences) (raw ∷ lines) =
    (0 < n) × (get_elem? log (n - 1) ≡ some raw) × Logged log sequences lines
Logged log _ _ = ⊥

-- The numbers grow strictly, from above `low` to at most `high`.
abbrev pub Rising : ℕ → ℕ → List ℕ → Type 0
Rising low high [] = low ≤ high
Rising low high (n ∷ sequences) = (low < n) × Rising n high sequences

-- The session's counter is the length of its log.
abbrev pub IsCounted : GdbSession → Type 0
IsCounted s = length s.session_log ≡ s.record_sequence

get_elem?-append :
    {A : Type 0} (xs ys : List A) (i : ℕ) {a : A}
    → get_elem? xs i ≡ some a
    → get_elem? (xs ++ ys) i ≡ some a
get_elem?-append [] ys i h = cc
get_elem?-append (x ∷ xs) ys zero h = h
get_elem?-append (x ∷ xs) ys (suc i) h = get_elem?-append xs ys i h

get_elem?_last : {A : Type 0} (xs : List A) (a : A) → get_elem? (xs ++ a ∷ []) (length xs) ≡ some a
get_elem?_last [] a = refl
get_elem?_last (x ∷ xs) a = get_elem?_last xs a

Logged-append :
    (log more : List Bytes) (sequences : List ℕ) (lines : List Bytes)
    → Logged log sequences lines
    → Logged (log ++ more) sequences lines
Logged-append log more [] [] h = tt
Logged-append log more [] (x ∷ lines) h = h
Logged-append log more (n ∷ sequences) [] h = h
Logged-append log more (n ∷ sequences) (raw ∷ lines) (p, e, h) =
    (p, get_elem?-append log more (n - 1) e, Logged-append log more sequences lines h)

Logged-push :
    (log : List Bytes) (raw : Bytes) (n : ℕ) (sequences : List ℕ) (lines : List Bytes)
    → 0 < n
    → get_elem? log (n - 1) ≡ some raw
    → Logged log sequences lines
    → Logged log (sequences ++ n ∷ []) (lines ++ raw ∷ [])
Logged-push log raw n [] [] p e h = (p, e, tt)
Logged-push log raw n [] (x ∷ lines) p e h = absurd h
Logged-push log raw n (m ∷ sequences) [] p e h = absurd h
Logged-push log raw n (m ∷ sequences) (x ∷ lines) p e (q, f, h) =
    (q, f, Logged-push log raw n sequences lines p e h)

Rising-weaken :
    (low high high' : ℕ) (sequences : List ℕ)
    → high ≤ high'
    → Rising low high sequences
    → Rising low high' sequences
Rising-weaken low high high' [] le h = omega arith
Rising-weaken low high high' (n ∷ sequences) le (p, h) =
    (p, Rising-weaken n high high' sequences le h)

Rising-push :
    (low high : ℕ) (sequences : List ℕ)
    → Rising low high sequences
    → Rising low (high + 1) (sequences ++ (high + 1) ∷ [])
Rising-push low high [] h = (omega arith, omega arith)
Rising-push low high (n ∷ sequences) (p, h) = (p, Rising-push n high sequences h)

-- What a loop keeps: the counter counts the log, the kept lines are logged, and their numbers rise
-- from the number that the session started at.
pub record Keeps (start : ℕ) (s : GdbSession) (r : CommandResult) : Type 0 where
  pub counted : IsCounted s
  pub logged : Logged s.session_log r.record_sequences r.raw_lines
  pub rising : Rising start s.record_sequence r.record_sequences

pub log_line-Keeps :
    (start : ℕ) (s : GdbSession) (r : CommandResult) (raw : Bytes)
    → Keeps start s r
    → Keeps start (log_line s raw) r
unfolding log_line
log_line-Keeps start s r raw k = record {
  counted = omega (arith, length-append s.session_log (raw ∷ []), k.counted);
  logged = Logged-append s.session_log (raw ∷ []) r.record_sequences r.raw_lines k.logged;
  rising =
      Rising-weaken start s.record_sequence (s.record_sequence + 1) r.record_sequences (omega arith)
        k.rising;
}

pub push_record-Keeps :
    (start : ℕ) (s : GdbSession) (r : CommandResult) (raw : Bytes)
    → Keeps start s r
    → Keeps start (log_line s raw) (push_record r (log_line s raw).record_sequence raw)
unfolding log_line push_record
push_record-Keeps start s r raw k = record {
  counted = omega (arith, length-append s.session_log (raw ∷ []), k.counted);
  logged =
      Logged-push _ raw (s.record_sequence + 1) r.record_sequences r.raw_lines (omega arith)
        (ap (get_elem? (s.session_log ++ raw ∷ [])) (omega (arith, k.counted))
          ∙ get_elem?_last s.session_log raw)
        (Logged-append s.session_log (raw ∷ []) r.record_sequences r.raw_lines k.logged);
  rising = Rising-push start s.record_sequence r.record_sequences k.rising;
}

class-Keeps :
    (start : ℕ) (s : GdbSession) (r : CommandResult) (klass : Bytes)
    → Keeps start s r
    → Keeps start s (record r { result_class = klass })
class-Keeps start s r klass k = record { counted = k.counted; logged = k.logged; rising = k.rising }

command_loop-Keeps :
    (start : ℕ) (prefix : Bytes) (s : GdbSession) (r : CommandResult) (lines : List Bytes)
    → Keeps start s r
    → let out = command_loop prefix s r lines in Keeps start out.0 out.1
unfolding command_loop
command_loop-Keeps start prefix s r [] k = record {
  counted = k.counted;
  logged = k.logged;
  rising = k.rising;
}
command_loop-Keeps start prefix s r (raw ∷ lines) k =
    let P = λ (o : GdbSession × CommandResult × List Bytes). Keeps start o.0 o.1 in
    if_both P (same raw prompt_line) _ _
      (λ _.
        command_loop-Keeps start prefix (log_line s raw) r lines (log_line-Keeps start s r raw k))
      (λ _.
        if_both P (starts_with raw (prefix ++ b'^' ∷ [])) _ _
          (λ _.
            class-Keeps start (log_line s raw) _ (result_class_of prefix raw)
              (push_record-Keeps start s r raw k))
          (λ _.
            command_loop-Keeps start prefix (log_line s raw)
              (push_record r (log_line s raw).record_sequence raw) lines
              (push_record-Keeps start s r raw k)))

pub send-IsCounted : (s : GdbSession) (command : Bytes) → IsCounted s → IsCounted (send s command)
unfolding send
send-IsCounted s command h = h

-- However the lines of gdb arrive, a command leaves the session's counter at the length of its log,
-- and each record of its result is the line of the log at its sequence number; the numbers rise
-- strictly and are above those of every earlier command.
pub command_blocking-Keeps :
    (s : GdbSession) (command : Bytes) (lines : List Bytes)
    → IsCounted s
    → let out = command_blocking s command lines in Keeps s.record_sequence out.0 out.1
unfolding command_blocking
command_blocking-Keeps s command lines h =
    command_loop-Keeps s.record_sequence _ (send s command) (new_result command) lines (record {
      counted = send-IsCounted s command h;
      logged = tt;
      rising = unfold send in omega arith;
    })
