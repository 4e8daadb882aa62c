-- ===== src/Workflow/Store.antt =====
-- src/workflow/hypothesis_store.cpp: the hypotheses of a session and the text of their index. The
-- counter is the int of the code, below its bound.
use gdb_cli_tools.Prelude.{
  ℕ, ◌+◌, List, [], ◌∷◌, ◌++◌, if◌then◌else◌, is_empty, Bytes, codes, newline,
}
use gdb_cli_tools.Gdb.Decimal.{to_string}
use gdb_cli_tools.Json.Text.{escape_string}
use gdb_cli_tools.Evidence.Store.{fill_zeros}

pub record HypothesisCheck : Type 0 where
  pub id : Bytes
  pub description : Bytes
  pub expression : Bytes
  pub assertion : Bytes
  pub expected : Bytes
  pub observed : Bytes
  pub status : Bytes
  pub evidence_id : Bytes
  pub error_evidence_id : Bytes

pub record HypothesisRecord : Type 0 where
  pub id : Bytes
  pub title : Bytes
  pub description : Bytes
  pub tool_status : Bytes
  pub agent_conclusion : Bytes
  pub agent_inference : Bytes
  pub checks : List HypothesisCheck

-- The hypotheses in the order of their ids.
pub record HypothesisStore : Type 0 where
  pub hypotheses_by_id : List (Bytes × HypothesisRecord)
  pub hypothesis_counter : ℕ

unfoldable pub next_hypothesis_id : HypothesisStore → HypothesisStore × Bytes
unfolding fill_zeros to_string
next_hypothesis_id store =
    let counter = store.hypothesis_counter + 1 in
    (record store { hypothesis_counter = counter }, b'H' ∷ fill_zeros 4 (to_string counter))

-- "key": value behind an indent, then what ends the line.
abbrev pub index_line : Bytes → Bytes → Bytes → Bytes → Bytes
index_line indent key value ending =
    indent ++ (b'"' ∷ (key ++ (codes "\": " ++ (value ++ (ending ++ newline ∷ [])))))

abbrev pub check_line : Bytes → Bytes → Bytes
check_line key value = index_line (codes "          ") key (escape_string value) (codes ",")

abbrev pub hypothesis_line : Bytes → Bytes → Bytes
hypothesis_line key value = index_line (codes "      ") key (escape_string value) (codes ",")

abbrev pub text_or_null : Bytes → Bytes
text_or_null s = if is_empty s then codes "null" else escape_string s

unfoldable pub check_text : HypothesisCheck → Bytes
unfolding escape_string
check_text check =
    codes "        {"
    ++ (newline
        ∷ (check_line (codes "id") check.id
            ++ (check_line (codes "check_id") check.id
                ++ (check_line (codes "description") check.description
                    ++ (check_line (codes "expression") check.expression
                        ++ (check_line (codes "assertion") check.assertion
                            ++ (check_line (codes "expected") check.expected
                                ++ (check_line (codes "observed") check.observed
                                    ++ (check_line (codes "status") check.status
                                        ++ (check_line (codes "evidence") check.evidence_id
                                            ++ (index_line (codes "          ")
                                                  (codes "error_evidence")
                                                  (text_or_null check.error_evidence_id) []
                                                ++ codes "        }")))))))))))

-- The checks, a comma behind each but the last.
unfoldable pub checks_text : List HypothesisCheck → Bytes
unfolding check_text
checks_text [] = []
checks_text (check ∷ []) = check_text check ++ newline ∷ []
checks_text (check ∷ next ∷ rest) = check_text check ++ (b',' ∷ newline ∷ checks_text (next ∷ rest))

unfoldable pub hypothesis_text : HypothesisRecord → Bytes
unfolding escape_string checks_text
hypothesis_text hypothesis =
    codes "    {"
    ++ (newline
        ∷ (hypothesis_line (codes "id") hypothesis.id
            ++ (hypothesis_line (codes "title") hypothesis.title
                ++ (hypothesis_line (codes "description") hypothesis.description
                    ++ (hypothesis_line (codes "tool_status") hypothesis.tool_status
                        ++ (hypothesis_line (codes "agent_conclusion") hypothesis.agent_conclusion
                            ++ (hypothesis_line (codes "agent_inference") hypothesis.agent_inference
                                ++ (codes "      \"checks\": ["
                                    ++ (newline
                                        ∷ (checks_text hypothesis.checks
                                            ++ (codes "      ]"
                                                ++ (newline ∷ codes "    }"))))))))))))

unfoldable pub hypotheses_text : List (Bytes × HypothesisRecord) → Bytes
unfolding hypothesis_text
hypotheses_text [] = []
hypotheses_text ((key, hypothesis) ∷ []) = hypothesis_text hypothesis
hypotheses_text ((key, hypothesis) ∷ next ∷ rest) =
    hypothesis_text hypothesis ++ (b',' ∷ newline ∷ hypotheses_text (next ∷ rest))

-- What write_hypothesis_index gives to write_text_file.
unfoldable pub write_hypothesis_index : HypothesisStore → Bytes
unfolding hypotheses_text
write_hypothesis_index store =
    codes "{"
    ++ (newline
        ∷ (codes "  \"schema\": \"gdb-agent-hypotheses-v1\","
            ++ (newline
                ∷ (codes "  \"hypotheses\": ["
                    ++ (newline
                        ∷ (hypotheses_text store.hypotheses_by_id
                            ++ (newline ∷ (codes "  ]" ++ (newline ∷ b'}' ∷ newline ∷ [])))))))))
