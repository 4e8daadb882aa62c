-- ===== src/Task/Env.antt =====
-- parse_env_lines of src/task/debug_task.cpp, with the std::map of texts that it fills and the
-- lines that std::getline gives.
pub mod Laws
use gdb_cli_tools.Prelude.{
  ℕ, Bool, not, ◌||◌, Option, none, some, List, [], ◌∷◌, ◌==◌, if◌then◌else◌, is_empty, every,
  Bytes, newline, is_alnum, same,
}
use gdb_cli_tools.Text.{trim}
use gdb_cli_tools.Json.Value.{less}
use gdb_cli_tools.Mi.Value.{span}

abbrev pub TextMap : Type 0
TextMap = List (Bytes × Bytes)

-- map[key] = value
unfoldable pub assign : Bytes → Bytes → TextMap → TextMap
unfolding less
assign k v [] = (k, v) ∷ []
assign k v ((j, w) ∷ m) =
    let later = (j, w) ∷ assign k v m in
    if same k j then (k, v) ∷ m else if less k j then (k, v) ∷ (j, w) ∷ m else later

unfoldable pub lookup : Bytes → TextMap → Option Bytes
lookup k [] = none
lookup k ((j, w) ∷ m) = if same j k then some w else lookup k m

abbrev pub first_byte : ℕ → List Bytes → List Bytes
first_byte c [] = (c ∷ []) ∷ []
first_byte c (line ∷ lines) = (c ∷ line) ∷ lines

-- The lines of a text: a last line without a line feed counts, an empty one does not.
unfoldable pub lines_of : Bytes → List Bytes
lines_of [] = []
lines_of (c ∷ s) = if c == newline then [] ∷ lines_of s else first_byte c (lines_of s)

abbrev pub is_key_byte : ℕ → Bool
is_key_byte c = is_alnum c || c == b'_'

-- The key and what follows it; `none` is an exception: no =, an empty key or a byte that no key has.
unfoldable pub check_entry : Bytes × Bytes → Option (Bytes × Bytes)
check_entry (key, []) = none
check_entry (key, c ∷ value) =
    if is_empty key then none else if every is_key_byte key then some (key, value) else none

unfoldable pub env_entry : Bytes → Option (Bytes × Bytes)
unfolding span check_entry
env_entry line = check_entry (span (λ c. not (c == b'=')) line)

-- An entry is put into the map, and the loop goes on; a bad one ends it.
unfoldable pub entry_then :
    Option (Bytes × Bytes) → TextMap → (TextMap → Option TextMap) → Option TextMap
unfolding assign
entry_then none env rest = none
entry_then (some (k, v)) env rest = rest (assign k v env)

unfoldable pub env_loop : List Bytes → TextMap → Option TextMap
unfolding trim env_entry entry_then
env_loop [] env = some env
env_loop (raw ∷ lines) env =
    if is_empty (trim raw)
    then env_loop lines env
    else entry_then (env_entry (trim raw)) env (env_loop lines)

unfoldable pub parse_env_lines : Bytes → Option TextMap
unfolding lines_of env_loop
parse_env_lines text = env_loop (lines_of text) []
