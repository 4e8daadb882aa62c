-- ===== src/Task/Env/Laws.antt =====
-- The environment of a task file, written one entry on a line.
use gdb_cli_tools.Prelude.{
  ℕ, ◌≡◌, refl, ap, ◌∙◌, subst, inl, inr, true, false, not, Option, none, some, List, [], ◌∷◌, ◌++◌,
  arith, ◌==◌, if◌then◌else◌, Bool-cases, is_empty, All, every, Bytes, newline, same, same→eq,
  has_char,
}
use mathlib.Core.Option
use gdb_cli_tools.Text.{trim}
use gdb_cli_tools.Text.Trim.{StartsClean, EndsClean, trim_clean}
use gdb_cli_tools.Json.Value.{less}
use gdb_cli_tools.Mi.Value.{span}
use gdb_cli_tools.Task.Env.{
  TextMap, assign, lookup, lines_of, is_key_byte, check_entry, env_entry, entry_then, env_loop,
  parse_env_lines,
}

-- What map[key] gives behind map[k] = v.
pub lookup-assign :
    (key k v : Bytes) (m : TextMap)
    → lookup key (assign k v m) ≡ (if same k key then some v else lookup key m)
unfolding lookup assign
lookup-assign key k v [] = refl
lookup-assign key k v ((j, w) ∷ m) = elim (Bool-cases (same k j)) [
  | inl e ↦ rw (e, same→eq k j e) (elim (Bool-cases (same j key)) [ inl a ↦ rw a | inr a ↦ rw a ])
  | inr e ↦ elim (Bool-cases (less k j)) [
    | inl l ↦ rw (e, l)
    | inr l ↦
        rw (e, l, lookup-assign key k v m)
          (elim (Bool-cases (same j key)) [
            | inl a ↦ rw (a, subst (λ t. same k t ≡ false) (same→eq j key a) e)
            | inr a ↦ rw a
          ])
  ]
]

-- An entry that a line KEY=value carries: a key of letters, digits and _, a value without line
-- feed, and no white space at the end of the line.
pub record IsEntry (k v : Bytes) : Type 0 where
  pub named : is_empty k ≡ false
  pub key_bytes : every is_key_byte k ≡ true
  pub one_line : has_char newline v ≡ false
  pub ends : EndsClean (k ++ b'=' ∷ v)

abbrev pub EntryOf : Bytes × Bytes → Type 0
EntryOf (k, v) = IsEntry k v

abbrev pub render_env : TextMap → Bytes
render_env [] = []
render_env ((k, v) ∷ entries) = (k ++ b'=' ∷ v) ++ newline ∷ render_env entries

-- The value of the last entry for a key.
abbrev pub last_value : Bytes → TextMap → Option Bytes → Option Bytes
last_value key [] so_far = so_far
last_value key ((k, v) ∷ entries) so_far =
    last_value key entries (if same k key then some v else so_far)

pub lines_of-line :
    (line rest : Bytes)
    → has_char newline line ≡ false
    → lines_of (line ++ newline ∷ rest) ≡ line ∷ lines_of rest
unfolding lines_of
lines_of-line [] rest h = refl
lines_of-line (c ∷ line) rest h = elim (Bool-cases (c == newline)) [
  | inl e ↦ cc (rw e at h)
  | inr e ↦ rw (e, lines_of-line line rest (rw e at h))
]

key_line-one_line :
    (k v : Bytes)
    → every is_key_byte k ≡ true
    → has_char newline v ≡ false
    → has_char newline (k ++ b'=' ∷ v) ≡ false
key_line-one_line [] v h n = n
key_line-one_line (c ∷ k) v h n = ground (arith, key_line-one_line k v)

key_line-StartsClean : (k v : Bytes) → every is_key_byte k ≡ true → StartsClean (k ++ b'=' ∷ v)
key_line-StartsClean [] v h = refl
key_line-StartsClean (c ∷ k) v h = ground arith

span-key :
    (k v : Bytes)
    → every is_key_byte k ≡ true
    → span (λ c. not (c == b'=')) (k ++ b'=' ∷ v) ≡ (k, b'=' ∷ v)
unfolding span
span-key [] v h = refl
span-key (c ∷ k) v h = rw (span-key k v (ground arith), not_equals c (ground arith))
  where
    not_equals : (c : ℕ) → is_key_byte c ≡ true → (c == b'=') ≡ false
    not_equals c h = ground arith

is_empty-line : (k v : Bytes) → is_empty (k ++ b'=' ∷ v) ≡ false
is_empty-line [] v = refl
is_empty-line (c ∷ k) v = refl

env_entry-line : (k v : Bytes) → IsEntry k v → env_entry (k ++ b'=' ∷ v) ≡ some (k, v)
unfolding env_entry check_entry
env_entry-line k v h = ap check_entry (span-key k v h.key_bytes) ∙ rw (h.named, h.key_bytes)

trim-line : (k v : Bytes) → IsEntry k v → trim (k ++ b'=' ∷ v) ≡ k ++ b'=' ∷ v
trim-line k v h = trim_clean _ (key_line-StartsClean k v h.key_bytes) h.ends

env_loop-line :
    (k v : Bytes) (lines : List Bytes) (env : TextMap)
    → IsEntry k v
    → env_loop ((k ++ b'=' ∷ v) ∷ lines) env ≡ env_loop lines (assign k v env)
unfolding env_loop
env_loop-line k v lines env h = rw (ap is_empty (trim-line k v h) ∙ is_empty-line k v) (
    ap (λ o. entry_then o env (env_loop lines))
      (ap env_entry (trim-line k v h) ∙ env_entry-line k v h))

env_loop-render_env :
    (key : Bytes) (entries env : TextMap)
    → All EntryOf entries
    → Option.map (lookup key) (env_loop (lines_of (render_env entries)) env)
      ≡ some (last_value key entries (lookup key env))
env_loop-render_env key [] env h = unfold env_loop lines_of in refl
env_loop-render_env key ((k, v) ∷ entries) env (h, hs) =
    ap (λ l. Option.map (lookup key) (env_loop l env))
      (lines_of-line (k ++ b'=' ∷ v) (render_env entries)
        (key_line-one_line k v h.key_bytes h.one_line))
    ∙ ap (Option.map (lookup key)) (env_loop-line k v (lines_of (render_env entries)) env h)
    ∙ env_loop-render_env key entries (assign k v env) hs
    ∙ ap (λ o. some (last_value key entries o)) (lookup-assign key k v env)

-- Entries KEY=value, each key one or more letters, digits and _, each value without a line feed, and
-- no entry ending in white space, are written one on a line. parse_env_lines takes all of them over,
-- without an exception: a key then has the value of its last entry, and a key without an entry has
-- none.
pub parse_env_lines-render_env :
    (key : Bytes) (entries : TextMap)
    → All EntryOf entries
    → Option.map (lookup key) (parse_env_lines (render_env entries))
      ≡ some (last_value key entries none)
unfolding parse_env_lines
parse_env_lines-render_env key entries h =
    env_loop-render_env key entries [] h
    ∙ ap (λ o. some (last_value key entries o)) (unfold lookup in refl)
