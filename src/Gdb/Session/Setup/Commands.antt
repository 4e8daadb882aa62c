-- ===== src/Gdb/Session/Setup/Commands.antt =====
-- What initialize of src/gdb/gdb_session.cpp writes to gdb.
use gdb_cli_tools.Prelude.{
  ◌≤◌, Bool, true, false, take, every, ℕ, ◌+◌, ◌≡◌, List, [], ◌∷◌, ◌++◌, length, Bytes, newline,
}
use gdb_cli_tools.Gdb.Decimal.{to_string}
use gdb_cli_tools.Gdb.Session.{GdbSession}
use gdb_cli_tools.Gdb.Session.Records.{IsCounted}
use gdb_cli_tools.Gdb.Session.Setup.{Exchange, prints, SetupEnd}

-- The bytes on the wire for commands behind the token `n`.
abbrev pub numbered : ℕ → List Bytes → List Bytes
numbered n [] = []
numbered n (command ∷ commands) =
    (to_string (n + 1) ++ (command ++ newline ∷ [])) ∷ numbered (n + 1) commands

-- What a loop leaves alone.
abbrev SentAs : GdbSession → GdbSession → Type 0
SentAs s s' = (s'.token ≡ s.token) × (s'.written ≡ s.written)

abbrev pub is_print : Exchange → Bool
is_print (prints lines) = true
is_print _ = false

-- A session behind commands: how many of them were written in full, and what was written of one more.
pub record HasSent (s : GdbSession) (commands : List Bytes) (exchanges : List Exchange)
    (out : SetupEnd) : Type 0 where
  pub count : ℕ
  pub partial : List Bytes
  pub bounded : count + length partial ≤ length commands
  pub written : out.0.written ≡ s.written ++ (numbered s.token (take count commands) ++ partial)
  pub token : out.0.token ≡ s.token + (count + length partial)
  pub complete : out.2 ≡ true → (count ≡ length commands) × (partial ≡ [])
  pub one : length partial ≤ 1
  pub answered : every is_print exchanges ≡ true → out.2 ≡ true
  pub counted : IsCounted out.0
