-- ===== src/Text.antt =====
-- src/common/string_utils.cpp: the helpers on single texts. A std::string_view that a loop walks is
-- the list of the bytes that are left; a text that a loop appends to is built front to back.
pub mod Template
pub mod Trim
pub mod Slug
use gdb_cli_tools.Prelude.{
  ℕ, zero, suc, Bool, true, false, ◌&&◌, ◌||◌, [], ◌∷◌, ◌++◌, map, Bytes, codes, is_space, is_alnum,
  to_lower, ◌==◌, if◌then◌else◌, is_empty, quote_mark, backslash, length, drop,
}

-- while (!s.empty() && is_space(s.front())) s.remove_prefix(1)
unfoldable pub trim_front : Bytes → Bytes
trim_front [] = []
trim_front (c ∷ s) = if is_space c then trim_front s else c ∷ s

-- while (!s.empty() && is_space(s.back())) s.remove_suffix(1): a byte is removed when it is a
-- space and all that follows it is removed.
unfoldable pub trim_back : Bytes → Bytes
trim_back [] = []
trim_back (c ∷ s) = let r = trim_back s in if is_space c && is_empty r then [] else c ∷ r

unfoldable pub trim : Bytes → Bytes
unfolding trim_front trim_back
trim s = trim_back (trim_front s)

unfoldable pub lower : Bytes → Bytes
lower s = map to_lower s

-- s.size() >= prefix.size() && s.compare(0, prefix.size(), prefix) == 0
unfoldable pub starts_with : Bytes → Bytes → Bool
starts_with s [] = true
starts_with [] (p ∷ ps) = false
starts_with (c ∷ s) (p ∷ ps) = c == p && starts_with s ps

-- The bytes that make shell_quote_for_report quote: blank, \t, \n, the two quotes, the backslash.
unfoldable pub needs_quote : ℕ → Bool
needs_quote c =
    c == 32 || (c == 9 || (c == 10 || (c == quote_mark || (c == b'\'' || c == backslash))))

unfoldable pub any_needs_quote : Bytes → Bool
unfolding needs_quote
any_needs_quote [] = false
any_needs_quote (c ∷ s) = needs_quote c || any_needs_quote s

-- The loop of shell_quote_for_report: a single quote becomes '\''.
unfoldable pub quote_body : Bytes → Bytes
quote_body [] = []
quote_body (c ∷ s) =
    if c == b'\'' then b'\'' ∷ backslash ∷ b'\'' ∷ b'\'' ∷ quote_body s else c ∷ quote_body s

unfoldable pub shell_quote_for_report : Bytes → Bytes
unfolding any_needs_quote quote_body
shell_quote_for_report s = if any_needs_quote s then b'\'' ∷ (quote_body s ++ b'\'' ∷ []) else s

-- The loop of replace_all. A match moves `pos` behind the text put in, so the replacement is never
-- searched: `skip` counts the bytes of the match that are still to be passed over.
unfoldable pub replace_loop : Bytes → Bytes → ℕ → Bytes → Bytes
unfolding starts_with
replace_loop from to skip [] = []
replace_loop from to (suc skip) (c ∷ s) = replace_loop from to skip s
replace_loop from to zero (c ∷ s) =
    let matched = to ++ replace_loop from to (length (drop 1 from)) s in
    let copied = c ∷ replace_loop from to zero s in
    if starts_with (c ∷ s) from then matched else copied

unfoldable pub replace_all : Bytes → Bytes → Bytes → Bytes
unfolding replace_loop
replace_all s from to = if is_empty from then s else replace_loop from to 0 s

-- The loop of slugify. `last` says what `out` ends with: nothing yet, a dash, or another byte.
pub data SlugEnd : Type 0 where
  empty dash word : SlugEnd

unfoldable pub slug_loop : SlugEnd → Bytes → Bytes
slug_loop last [] = []
slug_loop last (c ∷ s) =
    let kept = to_lower c ∷ slug_loop word s in
    let dropped = slug_loop last s in
    let dashed = b'-' ∷ slug_loop dash s in
    if is_alnum c then kept else elim last [ word ↦ dashed | _ ↦ dropped ]

-- while (!out.empty() && out.back() == '-') out.pop_back()
unfoldable pub pop_dashes : Bytes → Bytes
pop_dashes [] = []
pop_dashes (c ∷ s) = let r = pop_dashes s in if c == b'-' && is_empty r then [] else c ∷ r

unfoldable pub slugify : Bytes → Bytes
unfolding slug_loop pop_dashes
slugify s =
    let out = pop_dashes (slug_loop empty s) in if is_empty out then codes "evidence" else out
