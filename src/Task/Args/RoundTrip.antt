-- ===== src/Task/Args/RoundTrip.antt =====
-- The argument line of src/task/debug_task.cpp and the quoting of src/common/string_utils.cpp.
use gdb_cli_tools.Prelude.{
  ℕ, ◌≡◌, refl, ap, ◌∙◌, subst, ◌≢◌, ◌⊎◌, inl, inr, true, false, not, some, List, [], ◌∷◌, ◌++◌,
  append_assoc, append-nil, arith, Bool-cases, All, every, Bytes, is_space,
}
use gdb_cli_tools.Text.{needs_quote, any_needs_quote, quote_body, shell_quote_for_report}
use gdb_cli_tools.Task.Args.{ArgState, start, step, run, parse_shell_like_args}

-- What shell_quote_for_report can carry through: a word that is not empty and that is quoted or has
-- no white space. (\v, \f and \r are white space to the parser and do not cause quoting.)
abbrev pub IsWord : Bytes → Type 0
IsWord w = (w ≢ []) × ((any_needs_quote w ≡ true) ⊎ (every (λ c. not (is_space c)) w ≡ true))

-- The words, quoted, with a blank between two.
unfoldable pub quoted_line : List Bytes → Bytes
quoted_line [] = []
quoted_line (w ∷ []) = shell_quote_for_report w
quoted_line (w ∷ v ∷ ws) = shell_quote_for_report w ++ 32 ∷ quoted_line (v ∷ ws)

-- Between two tokens, and inside a token outside of quotes.
abbrev between : List Bytes → ArgState
between done = record start { args = done }

abbrev inside : List Bytes → Bytes → ArgState
inside done w = record start { args = done; current = w; have_token = true }

abbrev quoted : List Bytes → Bytes → ArgState
quoted done w = record start { args = done; current = w; have_token = true; in_single = true }

run-quote_body :
    (done : List Bytes) (w s rest : Bytes)
    → run (quoted done w) (quote_body s ++ b'\'' ∷ rest) ≡ run (inside done (w ++ s)) rest
unfolding run step quote_body
run-quote_body done w [] rest = rw append-nil
run-quote_body done w (c ∷ s) rest =
    ground (arith, run-quote_body done (w ++ c ∷ []) s rest, append_assoc w (c ∷ []) s)

run-plain :
    (done : List Bytes) (w s rest : Bytes)
    → any_needs_quote s ≡ false
    → every (λ c. not (is_space c)) s ≡ true
    → run (inside done w) (s ++ rest) ≡ run (inside done (w ++ s)) rest
unfolding run step any_needs_quote
run-plain done w [] rest h k = rw append-nil
run-plain done w (c ∷ s) rest h k =
    ground (arith, run-plain done (w ++ c ∷ []) s rest, append_assoc w (c ∷ []) s)

step_first :
    (done : List Bytes) (c : ℕ)
    → needs_quote c ≡ false
    → is_space c ≡ false
    → step (between done) c ≡ inside done (c ∷ [])
unfolding step needs_quote
step_first done c h k = ground arith

shell_quote_quoted :
    (w : Bytes)
    → any_needs_quote w ≡ true
    → shell_quote_for_report w ≡ b'\'' ∷ (quote_body w ++ b'\'' ∷ [])
unfolding shell_quote_for_report
shell_quote_quoted w e = rw e

shell_quote_plain : (w : Bytes) → any_needs_quote w ≡ false → shell_quote_for_report w ≡ w
unfolding shell_quote_for_report
shell_quote_plain w e = rw e

run-shell_quote_quoted :
    (done : List Bytes) (w rest : Bytes)
    → any_needs_quote w ≡ true
    → run (between done) (shell_quote_for_report w ++ rest) ≡ run (inside done w) rest
unfolding run step
run-shell_quote_quoted done w rest e =
    rw (shell_quote_quoted w e, append_assoc) (run-quote_body done [] w rest)

run-shell_quote_plain :
    (done : List Bytes) (w rest : Bytes)
    → w ≢ []
    → any_needs_quote w ≡ false
    → every (λ c. not (is_space c)) w ≡ true
    → run (between done) (shell_quote_for_report w ++ rest) ≡ run (inside done w) rest
unfolding run any_needs_quote
run-shell_quote_plain done [] rest n e k = absurd (n refl)
run-shell_quote_plain done (c ∷ s) rest n e k = rw (shell_quote_plain (c ∷ s) e) (
    ap (λ t. run t (s ++ rest)) (step_first done c (ground arith) (ground arith))
    ∙ run-plain done (c ∷ []) s rest (ground arith) (ground arith))

run-shell_quote :
    (done : List Bytes) (w rest : Bytes)
    → IsWord w
    → run (between done) (shell_quote_for_report w ++ rest) ≡ run (inside done w) rest
run-shell_quote done w rest (n, inl e) = run-shell_quote_quoted done w rest e
run-shell_quote done w rest (n, inr k) = elim (Bool-cases (any_needs_quote w)) [
  | inl e ↦ run-shell_quote_quoted done w rest e
  | inr e ↦ run-shell_quote_plain done w rest n e k
]

step_blank : (done : List Bytes) (w : Bytes) → step (inside done w) 32 ≡ between (done ++ w ∷ [])
unfolding step
step_blank done w = refl

run-quoted_line :
    (done : List Bytes) (w : Bytes) (ws : List Bytes)
    → All IsWord (w ∷ ws)
    → (before : List Bytes) × (v : Bytes) × (run (between done) (quoted_line (w ∷ ws))
        ≡ inside before v)
      × (before ++ v ∷ [] ≡ done ++ w ∷ ws)
unfolding quoted_line run
run-quoted_line done w [] (h, _) = (
  done,
  w,
  subst (λ t. run (between done) t ≡ inside done w) (append-nil (shell_quote_for_report w))
      (run-shell_quote done w [] h),
  refl,
)
run-quoted_line done w (x ∷ ws) (h, hs) =
    let (before, v, p, q) = run-quoted_line (done ++ w ∷ []) x ws hs in
    (
      before,
      v,
      run-shell_quote done w (32 ∷ quoted_line (x ∷ ws)) h
          ∙ (ap (λ t. run t (quoted_line (x ∷ ws))) (step_blank done w) ∙ p),
      q ∙ append_assoc done (w ∷ []) (x ∷ ws),
    )

-- Words that are quoted for the report and joined by blanks are parsed back into the same words,
-- provided no word is empty and each is quoted or free of white space.
pub parse_shell_like_args-quoted_line :
    (ws : List Bytes) → All IsWord ws → parse_shell_like_args (quoted_line ws) ≡ some ws
unfolding parse_shell_like_args
parse_shell_like_args-quoted_line [] h = unfold quoted_line in refl
parse_shell_like_args-quoted_line (w ∷ ws) h =
    let (before, v, p, q) = run-quoted_line [] w ws h in rw p (ap some q)
