-- ===== src/Lib.antt =====
-- A model of gdb_cli_tools, a command line tool that drives gdb over its machine interface (MI), and
-- theorems on it.
--
-- The tool reads a task file, starts gdb, sends it MI commands, and keeps what gdb prints as records.
-- Requests and answers are JSON texts; the requests of a session can be recorded into an artifact and
-- replayed. The parts that are modelled, with the code that each translates:
--
--   Json    src/common/json.cpp: the value type (Json/Value), the class Parser (Json/Parse), the texts
--           (Json/Text, with the json_escape that three other files share) and dump_json (Json/Dump).
--   Mi      src/gdb/mi_utils.cpp: quoting and field lookup (Mi/Escape), the class MiValueParser
--           (Mi/Value), audit_mi_records (Mi/Audit) and the summaries (Mi/Summary).
--   Gdb     src/gdb/gdb_process.cpp: read_line (Gdb/Process); src/gdb/gdb_session.cpp:
--           command_blocking (Gdb/Session) and exec_control_blocking (Gdb/Session/Exec), which read
--           the lines, log them and number them, and initialize (Gdb/Session/Setup);
--           std::to_string of a token (Gdb/Decimal).
--   Record  src/replay/record_store.cpp: the streams of an artifact (Record/Stream), its format
--           (Record/Artifact), the files (Record/Files) and the RecordingState (Record/State).
--   Replay  src/replay/replay_plan.cpp: the failure policies (Replay/Policy), the fingerprint of a task
--           (Replay/Fingerprint), validate_replay_plan (Replay/Validate) and the text that
--           write_replay_plan writes (Replay/Plan).
--           The run of a replay, src/replay/replay_runtime.cpp: a step and its evidence (Replay/Run),
--           the loop over the steps of a plan (Replay/Run/Plan), the report (Replay/Run/Report) and
--           replay_action_file (Replay/Run/File).
--   Task    src/task/debug_task.cpp: the sections of a task file (Task/Fields), its argument line
--           (Task/Args), its environment (Task/Env), load_task and validate_task (Task/Load).
--   Action  src/cli/action.hpp, src/cli/action.cpp: the kinds of requests (Action/Kind), their fields
--           (Action/Fields, Action/Policy), parse_action_request (Action/Parse) and
--           action_request_to_json (Action/Export), the results and the lines they are printed as
--           (Action/Result), with_timeout_defaults (Action/Timeout).
--   Evidence  src/evidence/evidence_store.cpp: the digest (Evidence/Sha256), the frames of a backtrace
--           (Evidence/Frames), the summaries (Evidence/Text), the JSON and Markdown texts
--           (Evidence/View), add, add_text and the files of the store (Evidence/Store).
--   Workflow  src/workflow/hypothesis.cpp: the values found in a text (Workflow/Scan) and the
--           evaluation of an assertion (Workflow/Assertion); src/workflow/hypothesis_store.cpp: the
--           ids of hypotheses and the text of their index (Workflow/Store);
--           src/workflow/crash_workflow.cpp: the reads of the program's logs (Workflow/Crash).
--   Text    src/common/string_utils.cpp: trim, lower, starts_with, shell_quote_for_report,
--           replace_all and slugify; the arguments of std templates (Text/Template).
--
-- Functions have the names of the code; what the code does in one function is cut into helpers where
-- a loop or a branch needs a name. Texts are lists of bytes. A position in a text is the text that is
-- left, an exception or std::nullopt is `none` or `failed`, and a std::map is the list of its entries
-- in the order of the keys. Time is modelled by what arrives before a deadline: read_line has a list
-- of read events, a command loop a list of lines, and the end of the list is the deadline.
--
-- The two parsers run on fuel, one unit for each value and each entry of a list or an object, twice
-- the length of the text and two more at the start: every two units read a byte or more. A token and
-- a record number are unbounded here: 2 ^ 64 commands or lines would be needed to see a difference.
-- So is the counter of the evidence store, an int in the code: 2 ^ 31 pieces of evidence would be.
--
-- parse_action_request has the depth of a request as its fuel, one unit for each request inside
-- another. The digest counts its rounds and blocks down from their number.
--
-- A replay goes on a session that is an interface: what execute_session_operation does with a request,
-- and the evidence it is given. The steps of a replay are composed from parse_action_request, the
-- results and the reports as in the code. The store of records takes the conversion of a request to
-- JSON as a parameter, and Action/Export has that conversion.
--
-- The exceptions of write_all and read_line are modelled for the setup of a session only (Gdb/Session/
-- Setup); in the other commands they would end the command and go to the caller. A log of the
-- debugged program does not grow between the read of its size and of its text, and add_text does not
-- throw in a replay.
--
-- What is not under src/ is a parameter: std::from_chars and operator<< for a double, the casts
-- between a double and an int, std::stoi, strtoll and strtoull, std::filesystem, the time stamp, and
-- the outcome of a write. sanitize_output is a parameter of the evidence store, since its regular
-- expressions belong to std::regex. Not modelled: process creation and signals, coroutines and locks,
-- the output of reports, the validation of requests and their dispatch to gdb, the files of
-- hypotheses, the probes, the console evidence of a crash, and the options of the command line.
pub mod Prelude
pub mod Text
pub mod Task
pub mod Mi
pub mod Json
pub mod Replay
pub mod Record
pub mod Gdb
pub mod Action
pub mod Evidence
pub mod Workflow
pub mod Tests
