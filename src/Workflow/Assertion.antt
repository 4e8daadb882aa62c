-- ===== src/Workflow/Assertion.antt =====
-- evaluate_hypothesis_assertion of src/workflow/hypothesis.cpp.
pub mod Opposites
use gdb_cli_tools.Prelude.{
  ℕ, Bool, not, ◌&&◌, Option, none, some, ◌++◌, ◌==◌, if◌then◌else◌, is_empty, Bytes, codes, same,
}
use gdb_cli_tools.Task.Load.{ℤ}
use gdb_cli_tools.Text.{trim, lower}
use gdb_cli_tools.Mi.Escape.{after_text}
use gdb_cli_tools.Gdb.Session.{contains}
use gdb_cli_tools.Action.Export.{same_int}
use gdb_cli_tools.Action.Parse.{or_text}
use gdb_cli_tools.Workflow.Scan.{
  Found, value, missing, leb_int, contains_null_marker, extract_single_numeric_value,
  extract_single_address_value, parse_between_bounds,
}

-- The status "passed" or "failed", or "unknown" with its reason.
pub data HypothesisAssertionResult : Type 0 where
  passed failed : HypothesisAssertionResult
  unknown : Bytes → HypothesisAssertionResult

abbrev pub verdict : Bool → HypothesisAssertionResult
verdict test = if test then passed else failed

unfoldable pub needs_expected :
    Bytes → Bytes → HypothesisAssertionResult → HypothesisAssertionResult
needs_expected name expected result =
    if is_empty expected then unknown (name ++ codes " requires non-empty expected") else result

-- A test of two values that are found, the observed one first.
unfoldable pub compare_found :
    {V : Type 0} → (V → V → Bool) → Found V → Found V → HypothesisAssertionResult
compare_found test (missing reason) expected = unknown reason
compare_found test (value observed) (missing reason) = unknown reason
compare_found test (value observed) (value expected) = verdict (test observed expected)

unfoldable pub within : Found ℤ → Found (ℤ × ℤ) → HypothesisAssertionResult
within (missing reason) bounds = unknown reason
within (value observed) (missing reason) = unknown reason
within (value observed) (value (low, high)) =
    verdict (leb_int low observed && leb_int observed high)

unfoldable pub non_null_address : Found ℕ → HypothesisAssertionResult
non_null_address (missing reason) = unknown reason
non_null_address (value observed) = verdict (not (observed == 0))

-- The comparison of a numeric assertion.
unfoldable pub numeric_test : Bytes → Option (ℤ → ℤ → Bool)
numeric_test name =
    if same name (codes "greater_than")
    then some (λ a b. not (leb_int a b))
    else if same name (codes "less_than")
    then some (λ a b. not (leb_int b a))
    else if same name (codes "greater_equal")
    then some (λ a b. leb_int b a)
    else if same name (codes "less_equal")
    then some leb_int
    else if same name (codes "equals_number")
    then some same_int
    else if same name (codes "not_equals_number")
    then some (λ a b. not (same_int a b))
    else none

module _ (strtoll : Bytes → Option ℤ) (strtoull : Bytes → Option ℕ) where
  -- The assertions on values: between and the two on addresses.
  unfoldable pub value_assertion : Bytes → Bytes → Bytes → Bytes → HypothesisAssertionResult
  unfolding needs_expected compare_found within non_null_address extract_single_numeric_value
      extract_single_address_value parse_between_bounds
  value_assertion assertion name observed expected =
      let address = extract_single_address_value strtoull observed in
      if same name (codes "between")
      then needs_expected name expected (
          within (extract_single_numeric_value strtoll observed)
            (parse_between_bounds strtoll expected))
      else if same name (codes "address_non_null")
      then non_null_address address
      else if same name (codes "address_equals")
      then needs_expected name expected
          (compare_found (λ a b. a == b) address (extract_single_address_value strtoull expected))
      else unknown (codes "unknown assertion: " ++ assertion)

  unfoldable pub numeric_assertion : Bytes → Bytes → Bytes → Bytes → HypothesisAssertionResult
  unfolding numeric_test needs_expected compare_found extract_single_numeric_value value_assertion
  numeric_assertion assertion name observed expected = elim (numeric_test name) [
    | some test ↦ needs_expected name expected (
        compare_found test (extract_single_numeric_value strtoll observed)
          (extract_single_numeric_value strtoll expected))
    | none ↦ value_assertion assertion name observed expected
  ]

  -- The assertions on texts. `seen` and `wanted` are the texts as they are given, the two behind
  -- them without the white space at their ends.
  unfoldable pub text_assertion :
      Bytes → Bytes → Bytes → Bytes → Bytes → Bytes → HypothesisAssertionResult
  unfolding needs_expected contains_null_marker numeric_assertion after_text
  text_assertion assertion name seen wanted observed expected =
      let other = numeric_assertion assertion name observed expected in
      if same name (codes "contains")
      then needs_expected name expected (verdict (contains wanted seen))
      else if same name (codes "not_contains")
      then needs_expected name expected (verdict (not (contains wanted seen)))
      else if same name (codes "is_null")
      then verdict (contains_null_marker seen)
      else if same name (codes "non_null")
      then verdict (not (contains_null_marker seen))
      else if same name (codes "equals")
      then needs_expected name expected (verdict (same observed expected))
      else if same name (codes "not_equals")
      then needs_expected name expected (verdict (not (same observed expected)))
      else other

  unfoldable pub evaluate_hypothesis_assertion : Bytes → Bytes → Bytes → HypothesisAssertionResult
  unfolding lower trim text_assertion
  evaluate_hypothesis_assertion assertion observed expected =
      let name = or_text (lower assertion) (codes "none") in
      let result =
        text_assertion assertion name observed expected (trim observed) (trim expected) in
      if same name (codes "none")
      then passed
      else if is_empty (trim observed)
      then unknown (name ++ codes " requires non-empty observed")
      else result
