-- ===== src/Replay/Fingerprint.antt =====
-- The task's fingerprint in src/replay/replay_plan.cpp.
pub mod Shape
use gdb_cli_tools.Prelude.{
  ℕ, zero, suc, ◌+◌, ◌*◌, ◌/◌, ◌%◌, ◌^◌, Bool, true, false, none, some, List, [], ◌∷◌, ◌++◌, ltb,
  if◌then◌else◌, length, take, Bytes, codes, newline, is_space,
}
use gdb_cli_tools.Text.{trim}
use gdb_cli_tools.Task.Load.{DebugTask}

-- The loop of summarize_problem: white space becomes one blank.
unfoldable pub compact_loop : Bool → Bytes → Bytes
compact_loop previous_space [] = []
compact_loop previous_space (c ∷ s) =
    let skip = compact_loop true s in
    let keep = c ∷ compact_loop false s in
    if is_space c then (if previous_space then skip else 32 ∷ skip) else keep

unfoldable pub summarize_problem : Bytes → Bytes
unfolding trim compact_loop
summarize_problem problem =
    let compact = compact_loop false (trim problem) in
    if ltb 160 (length compact) then take 160 compact else compact

-- a ^ b, bit by bit from the lowest.
unfoldable pub xor : ℕ → ℕ → ℕ → ℕ
xor zero a b = 0
xor (suc n) a b = (a + b) % 2 + 2 * xor n (a / 2) (b / 2)

-- One round of the hash, on uint64_t.
unfoldable pub hash_byte : ℕ → ℕ → ℕ
unfolding xor
hash_byte hash c = (xor 64 hash c * 1099511628211) % 2 ^ 64

unfoldable pub hash_loop : ℕ → Bytes → ℕ
unfolding hash_byte
hash_loop hash [] = hash
hash_loop hash (c ∷ s) = hash_loop (hash_byte hash c) s

unfoldable pub hex_byte : ℕ → ℕ
hex_byte d = if ltb d 10 then 48 + d else 87 + d

-- std::setw(16) with leading zeros: the last `n` digits.
unfoldable pub hex : ℕ → ℕ → Bytes
unfolding hex_byte
hex zero value = []
hex (suc n) value = hex n (value / 16) ++ hex_byte (value % 16) ∷ []

unfoldable pub fingerprint_hex : Bytes → Bytes
unfolding hex hash_loop
fingerprint_hex s = hex 16 (hash_loop 1469598103934665603 s)

-- Each argument, and a zero byte behind it.
unfoldable pub argv_text : List Bytes → Bytes
argv_text [] = []
argv_text (arg ∷ args) = arg ++ 0 ∷ argv_text args

unfoldable pub core_dump_string : DebugTask → Bytes
core_dump_string task = elim task.core_dump [ none ↦ [] | some path ↦ path ]

unfoldable pub field_line : Bytes → Bytes → Bytes
field_line name value = name ++ b'=' ∷ (value ++ newline ∷ [])

unfoldable pub task_fingerprint_input : DebugTask → Bytes
unfolding summarize_problem argv_text core_dump_string field_line
task_fingerprint_input task =
    field_line (codes "problem_summary") (summarize_problem task.problem)
    ++ (field_line (codes "executable") task.executable
        ++ (field_line (codes "working_directory") task.working_directory
            ++ (field_line (codes "args") task.args_raw
                ++ (field_line (codes "argv") (argv_text task.args)
                    ++ field_line (codes "core_dump") (core_dump_string task)))))

unfoldable pub replay_task_fingerprint : DebugTask → Bytes
unfolding task_fingerprint_input fingerprint_hex
replay_task_fingerprint task = codes "fnv1a64:" ++ fingerprint_hex (task_fingerprint_input task)
