-- ===== src/Text/Template.antt =====
-- The std template helpers of src/common/string_utils.cpp: the arguments of a template, and the
-- containers printed without their default arguments.
pub mod Args
pub mod Parts
use gdb_cli_tools.Prelude.{
  ℕ, ◌+◌, ◌-◌, Bool, true, false, not, ◌&&◌, List, [], ◌∷◌, ◌++◌, ltb, ◌==◌, if◌then◌else◌, length,
  take, drop, Bytes, codes, same,
}
use gdb_cli_tools.Text.{trim, starts_with}

-- depth and paren_depth of the scan; depth can fall below zero, `below` counts how far.
pub record Depth : Type 0 where
  pub depth : ℕ
  pub below : ℕ
  pub paren_depth : ℕ

abbrev pub top : Depth
top = record { depth = 0; below = 0; paren_depth = 0 }

-- ++depth and --depth, on depth - below; one of the two is 0.
unfoldable pub open_angle : Depth → Depth
open_angle d =
    if d.below == 0 then record d { depth = d.depth + 1 } else record d { below = d.below - 1 }

unfoldable pub close_angle : Depth → Depth
close_angle d =
    if d.depth == 0 then record d { below = d.below + 1 } else record d { depth = d.depth - 1 }

abbrev pub is_top : Depth → Bool
is_top d = d.depth == 0 && (d.below == 0 && d.paren_depth == 0)

-- Does the byte end an argument?
abbrev pub cuts : Depth → ℕ → Bool
cuts d c = c == b',' && is_top d

unfoldable pub scan : Depth → ℕ → Depth
unfolding open_angle close_angle
scan d c =
    if c == b'<'
    then open_angle d
    else if c == b'>'
    then close_angle d
    else if c == b'('
    then record d { paren_depth = d.paren_depth + 1 }
    else if c == b')' && ltb 0 d.paren_depth
    then record d { paren_depth = d.paren_depth - 1 }
    else d

-- `current` is the argument so far: text.substr(start, i - start).
unfoldable pub split_loop : Depth → Bytes → Bytes → List Bytes
unfolding scan trim
split_loop d current [] = trim current ∷ []
split_loop d current (c ∷ s) =
    let cut = trim current ∷ split_loop d [] s in
    let on = split_loop (scan d c) (current ++ c ∷ []) s in if cuts d c then cut else on

unfoldable pub split_template_args : Bytes → List Bytes
unfolding split_loop
split_template_args s = split_loop top [] s

-- join_template_args of all its arguments.
unfoldable pub join_template_args : List Bytes → Bytes
join_template_args [] = []
join_template_args (arg ∷ []) = arg
join_template_args (arg ∷ next ∷ args) = arg ++ (codes ", " ++ join_template_args (next ∷ args))

unfoldable pub parts_size : List Bytes → ℕ
parts_size [] = 0
parts_size (part ∷ parts) = length part + parts_size parts

-- The loop of equals_parts over the parts; `s` is the text from pos on.
unfoldable pub parts_match : Bytes → List Bytes → Bool
parts_match s [] = true
parts_match s (part ∷ parts) =
    let rest = parts_match (drop (length part) s) parts in
    if not (same (take (length part) s) part) then false else rest

unfoldable pub equals_parts : Bytes → List Bytes → Bool
unfolding parts_size parts_match
equals_parts s parts = if not (length s == parts_size parts) then false else parts_match s parts

unfoldable pub strip_front : Bytes → Bytes
unfolding starts_with trim
strip_front arg =
    if starts_with arg (codes "const ") then trim (drop (length (codes "const ")) arg) else arg

unfoldable pub strip_back : Bytes → Bytes
unfolding trim
strip_back arg =
    let n = length arg - length (codes " const") in
    if ltb (length (codes " const")) (length arg) && same (drop n arg) (codes " const")
    then trim (take n arg)
    else arg

unfoldable pub strip_const_key : Bytes → Bytes
unfolding trim strip_front strip_back
strip_const_key arg = strip_back (strip_front (trim arg))

unfoldable pub render_template : Bytes → List Bytes → Bytes
unfolding join_template_args
render_template name args =
    codes "std::" ++ (name ++ (codes "<" ++ (join_template_args args ++ codes ">")))

-- is_default_allocator, is_default_less, is_default_hash, is_default_equal_to and is_default_delete
-- are this test, with the template's name.
unfoldable pub is_default_of : Bytes → Bytes → Bytes → Bool
unfolding equals_parts
is_default_of template arg value_type =
    equals_parts arg ((codes "std::" ++ (template ++ codes "<")) ∷ value_type ∷ codes ">" ∷ [])

unfoldable pub is_default_pair_allocator : Bytes → Bytes → Bytes → Bool
unfolding equals_parts strip_const_key
is_default_pair_allocator arg key_type value_type = equals_parts arg (
    codes "std::allocator<std::pair<"
    ∷ strip_const_key key_type
    ∷ codes ", "
    ∷ value_type
    ∷ codes ">>"
    ∷ [])

unfoldable pub render_sequence_container : Bytes → List Bytes → Bytes
unfolding render_template is_default_of
render_sequence_container name (value ∷ []) = render_template name (value ∷ [])
render_sequence_container name (value ∷ alloc ∷ []) =
    if is_default_of (codes "allocator") alloc value
    then render_template name (value ∷ [])
    else render_template name (value ∷ alloc ∷ [])
render_sequence_container name args = render_template name args

unfoldable pub render_set_container : List Bytes → Bytes
unfolding render_template is_default_of
render_set_container (key ∷ compare ∷ []) =
    if is_default_of (codes "less") compare key
    then render_template (codes "set") (key ∷ [])
    else render_template (codes "set") (key ∷ compare ∷ [])
render_set_container (key ∷ compare ∷ alloc ∷ []) =
    if is_default_of (codes "less") compare key && is_default_of (codes "allocator") alloc key
    then render_template (codes "set") (key ∷ [])
    else if is_default_of (codes "allocator") alloc key
    then render_template (codes "set") (key ∷ compare ∷ [])
    else render_template (codes "set") (key ∷ compare ∷ alloc ∷ [])
render_set_container args = render_template (codes "set") args

unfoldable pub render_unique_ptr : List Bytes → Bytes
unfolding render_template is_default_of
render_unique_ptr (value ∷ deleter ∷ []) =
    if is_default_of (codes "default_delete") deleter value
    then render_template (codes "unique_ptr") (value ∷ [])
    else render_template (codes "unique_ptr") (value ∷ deleter ∷ [])
render_unique_ptr args = render_template (codes "unique_ptr") args

-- render_map_container where the name is map.
unfoldable pub render_ordered_map : Bytes → List Bytes → Bytes
unfolding render_template is_default_of is_default_pair_allocator
render_ordered_map name (key ∷ value ∷ compare ∷ alloc ∷ []) =
    let default_alloc = is_default_pair_allocator alloc key value in
    if is_default_of (codes "less") compare key && default_alloc
    then render_template name (key ∷ value ∷ [])
    else if default_alloc
    then render_template name (key ∷ value ∷ compare ∷ [])
    else render_template name (key ∷ value ∷ compare ∷ alloc ∷ [])
render_ordered_map name args = render_template name args

-- render_map_container for any other name.
unfoldable pub render_hash_map : Bytes → List Bytes → Bytes
unfolding render_template is_default_of is_default_pair_allocator
render_hash_map name (key ∷ value ∷ hash ∷ equal ∷ alloc ∷ []) =
    let default_equal = is_default_of (codes "equal_to") equal key in
    let default_alloc = is_default_pair_allocator alloc key value in
    if is_default_of (codes "hash") hash key && (default_equal && default_alloc)
    then render_template name (key ∷ value ∷ [])
    else if default_equal && default_alloc
    then render_template name (key ∷ value ∷ hash ∷ [])
    else if default_alloc
    then render_template name (key ∷ value ∷ hash ∷ equal ∷ [])
    else render_template name (key ∷ value ∷ hash ∷ equal ∷ alloc ∷ [])
render_hash_map name args = render_template name args

unfoldable pub render_map_container : Bytes → List Bytes → Bytes
unfolding render_ordered_map render_hash_map
render_map_container name args =
    if same name (codes "map") then render_ordered_map name args else render_hash_map name args
