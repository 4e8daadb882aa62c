-- ===== src/Workflow/Assertion/Opposites.antt =====
-- Assertions that deny one another.
use gdb_cli_tools.Prelude.{
  ℕ, ◌≡◌, refl, Bool, true, false, not, Option, [], ◌∷◌, ◌++◌, if◌then◌else◌, is_empty, Bytes,
  codes, same,
}
use gdb_cli_tools.Task.Load.{ℤ}
use gdb_cli_tools.Text.{trim}
use gdb_cli_tools.Gdb.Session.{contains}
use gdb_cli_tools.Action.Export.{same_int}
use gdb_cli_tools.Workflow.Scan.{
  Found, value, missing, leb_int, contains_null_marker, extract_single_numeric_value,
}
use gdb_cli_tools.Workflow.Assertion.{
  HypothesisAssertionResult, passed, failed, unknown, verdict, needs_expected, compare_found,
  evaluate_hypothesis_assertion,
}

-- The assertions that come with one that says the contrary.
pub data Denies : Bytes → Bytes → Type 0 where
  not_contains_denies : Denies (codes "not_contains") (codes "contains")
  non_null_denies : Denies (codes "non_null") (codes "is_null")
  not_equals_denies : Denies (codes "not_equals") (codes "equals")
  less_equal_denies : Denies (codes "less_equal") (codes "greater_than")
  greater_equal_denies : Denies (codes "greater_equal") (codes "less_than")
  not_equals_number_denies : Denies (codes "not_equals_number") (codes "equals_number")

-- passed against failed, or unknown against unknown.
abbrev pub Opposite : HypothesisAssertionResult → HypothesisAssertionResult → Type 0
Opposite passed r = r ≡ failed
Opposite failed r = r ≡ passed
Opposite (unknown reason) (unknown other) = Unit
Opposite (unknown reason) _ = ⊥

not-Opposite : (b : Bool) → Opposite (verdict (not b)) (verdict b)
not-Opposite true = refl
not-Opposite false = refl

verdict-Opposite : (b : Bool) → Opposite (verdict b) (verdict (not b))
verdict-Opposite true = refl
verdict-Opposite false = refl

needs-Opposite :
    (name other expected : Bytes) (r s : HypothesisAssertionResult)
    → Opposite r s
    → Opposite (needs_expected name expected r) (needs_expected other expected s)
unfolding needs_expected
needs-Opposite name other [] r s h = tt
needs-Opposite name other (c ∷ expected) r s h = h

compare-Opposite :
    (p q : ℤ → ℤ → Bool) (o e : Found ℤ)
    → ((a b : ℤ) → Opposite (verdict (p a b)) (verdict (q a b)))
    → Opposite (compare_found p o e) (compare_found q o e)
unfolding compare_found
compare-Opposite p q (missing reason) e h = tt
compare-Opposite p q (value a) (missing reason) h = tt
compare-Opposite p q (value a) (value b) h = h a b

-- A numeric assertion with each of two tests.
numeric-Opposite :
    (name other expected : Bytes) (p q : ℤ → ℤ → Bool) (o e : Found ℤ)
    → ((a b : ℤ) → Opposite (verdict (p a b)) (verdict (q a b)))
    → Opposite
        (needs_expected name expected (compare_found p o e))
        (needs_expected other expected (compare_found q o e))
numeric-Opposite name other expected p q o e h =
    needs-Opposite name other expected (compare_found p o e) (compare_found q o e)
      (compare-Opposite p q o e h)

text-Opposite :
    (name other expected : Bytes) (test : Bool)
    → Opposite
        (needs_expected name expected (verdict (not test)))
        (needs_expected other expected (verdict test))
text-Opposite name other expected test =
    needs-Opposite name other expected (verdict (not test)) (verdict test) (not-Opposite test)

-- Under the test that the observed text is not empty.
observed-Opposite :
    (name other observed : Bytes) (r s : HypothesisAssertionResult)
    → Opposite r s
    → Opposite
        (if is_empty observed then unknown name else r)
        (if is_empty observed then unknown other else s)
observed-Opposite name other [] r s h = tt
observed-Opposite name other (c ∷ observed) r s h = h

-- A text under the test that it is not empty.
abbrev observed_or_unknown : Bytes → Bytes → HypothesisAssertionResult → HypothesisAssertionResult
observed_or_unknown name observed r =
    if is_empty observed then unknown (name ++ codes " requires non-empty observed") else r

-- A numeric assertion on two texts.
abbrev numeric_on :
    (Bytes → Option ℤ) → Bytes → (ℤ → ℤ → Bool) → Bytes → Bytes → HypothesisAssertionResult
numeric_on strtoll name test observed expected = observed_or_unknown name observed (
    needs_expected name expected (
      compare_found test (extract_single_numeric_value strtoll observed)
        (extract_single_numeric_value strtoll expected)))

text_on-Opposite :
    (name other observed expected : Bytes) (test : Bool)
    → Opposite
        (observed_or_unknown name observed (needs_expected name expected (verdict (not test))))
        (observed_or_unknown other observed (needs_expected other expected (verdict test)))
text_on-Opposite name other observed expected test =
    observed-Opposite _ _ observed _ _ (text-Opposite name other expected test)

numeric_on-Opposite :
    (strtoll : Bytes → Option ℤ) (name other observed expected : Bytes) (p q : ℤ → ℤ → Bool)
    → ((a b : ℤ) → Opposite (verdict (p a b)) (verdict (q a b)))
    → Opposite
        (numeric_on strtoll name p observed expected)
        (numeric_on strtoll other q observed expected)
numeric_on-Opposite strtoll name other observed expected p q h =
    observed-Opposite _ _ observed _ _ (
      numeric-Opposite name other expected p q (extract_single_numeric_value strtoll observed)
        (extract_single_numeric_value strtoll expected) h)

-- An assertion and the one that denies it give opposite results on the same texts: one passes where
-- the other fails, and they are unknown together.
pub denied_assertion :
    (strtoll : Bytes → Option ℤ) (strtoull : Bytes → Option ℕ) (a b observed expected : Bytes)
    → Denies a b
    → Opposite
        (evaluate_hypothesis_assertion strtoll strtoull a observed expected)
        (evaluate_hypothesis_assertion strtoll strtoull b observed expected)
unfolding evaluate_hypothesis_assertion
denied_assertion strtoll strtoull _ _ o e Denies.not_contains_denies =
    text_on-Opposite (codes "not_contains") (codes "contains") (trim o) (trim e) (contains e o)
denied_assertion strtoll strtoull _ _ o e Denies.non_null_denies =
    observed-Opposite (codes "non_null requires non-empty observed")
      (codes "is_null requires non-empty observed") (trim o)
      (verdict (not (contains_null_marker o))) (verdict (contains_null_marker o))
      (not-Opposite (contains_null_marker o))
denied_assertion strtoll strtoull _ _ o e Denies.not_equals_denies =
    text_on-Opposite (codes "not_equals") (codes "equals") (trim o) (trim e)
      (same (trim o) (trim e))
denied_assertion strtoll strtoull _ _ o e Denies.less_equal_denies =
    numeric_on-Opposite strtoll (codes "less_equal") (codes "greater_than") (trim o) (trim e)
      leb_int (λ a b. not (leb_int a b)) (λ a b. verdict-Opposite (leb_int a b))
denied_assertion strtoll strtoull _ _ o e Denies.greater_equal_denies =
    numeric_on-Opposite strtoll (codes "greater_equal") (codes "less_than") (trim o) (trim e)
      (λ a b. leb_int b a) (λ a b. not (leb_int b a)) (λ a b. verdict-Opposite (leb_int b a))
denied_assertion strtoll strtoull _ _ o e Denies.not_equals_number_denies =
    numeric_on-Opposite strtoll (codes "not_equals_number") (codes "equals_number") (trim o)
      (trim e) (λ a b. not (same_int a b)) same_int (λ a b. not-Opposite (same_int a b))
