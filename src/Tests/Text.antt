-- ===== src/Tests/Text.antt =====
-- Examples for the text helpers, the argument line of a task and the failure policies.
use gdb_cli_tools.Prelude.{
  Bool, true, ◌++◌, every, Bool-cases, ◌∷◌, ◌≡◌, refl, inl, inr, some, List, [], All, Bytes, codes,
}
use gdb_cli_tools.Text.{trim, any_needs_quote}
use gdb_cli_tools.Text.Template.{split_template_args, join_template_args}
use gdb_cli_tools.Text.Template.Args.{
  is_plain, Nested, IsArg, split_template_args-join_template_args,
}
use gdb_cli_tools.Task.Args.{parse_shell_like_args}
use gdb_cli_tools.Task.Args.RoundTrip.{quoted_line, IsWord, parse_shell_like_args-quoted_line}

abbrev words : List Bytes
words = codes "--file" ∷ codes "it's a b" ∷ []

words-IsWord : All IsWord words
unfolding any_needs_quote
words-IsWord = ((cc, inr refl), ((cc, inl refl), tt))

parse_shell_like_args-quoted_line_example : parse_shell_like_args (quoted_line words) ≡ some words
parse_shell_like_args-quoted_line_example = parse_shell_like_args-quoted_line words words-IsWord

abbrev template_args : List Bytes
template_args = codes "std::pair<int, char>" ∷ codes "void (int, int)" ∷ []

-- Plain bytes in front of a nested text.
plain-Nested :
    {inside : Bool} (s : Bytes) {t : Bytes}
    → every is_plain s ≡ true
    → Nested inside t
    → Nested inside (s ++ t)
plain-Nested [] h n = n
plain-Nested (c ∷ s) h n = elim (Bool-cases (is_plain c)) [
  | inl e ↦ Nested.byte c e (plain-Nested s (rw e at h) n)
  | inr e ↦ cc (rw e at h)
]

-- "int, char" and "int, int" inside of brackets.
pair-Nested : Nested true (codes "int, char")
pair-Nested =
    plain-Nested (codes "int") refl
      (Nested.comma (plain-Nested (codes " char") refl Nested.nothing))

parameters-Nested : Nested true (codes "int, int")
parameters-Nested =
    plain-Nested (codes "int") refl (Nested.comma (plain-Nested (codes " int") refl Nested.nothing))

template_args-IsArg : All IsArg (codes "int" ∷ template_args)
unfolding trim
template_args-IsArg = (
  record { nested = plain-Nested (codes "int") refl Nested.nothing; trimmed = refl },
  (
    record {
      nested =
          plain-Nested (codes "std::pair") refl
            (Nested.angles {t = codes "int, char"} pair-Nested Nested.nothing);
      trimmed = refl;
    },
    (
      record {
        nested =
            plain-Nested (codes "void ") refl
              (Nested.parens {t = codes "int, int"} parameters-Nested Nested.nothing);
        trimmed = refl;
      },
      tt,
    ),
  ),
)

split_template_args-join_template_args_example :
    split_template_args (join_template_args (codes "int" ∷ template_args))
    ≡ codes "int" ∷ template_args
split_template_args-join_template_args_example =
    split_template_args-join_template_args (codes "int") template_args template_args-IsArg
