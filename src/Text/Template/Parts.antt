-- ===== src/Text/Template/Parts.antt =====
-- The tests for default arguments.
use gdb_cli_tools.Prelude.{
  ◌≡◌, refl, sym, ap, ◌∙◌, ◌↔◌, inl, inr, true, List, [], ◌∷◌, ◌++◌, arith, ◌==◌, ==_refl,
  Bool-cases, length, take, drop, length-append, take-append-drop, length-drop, take_append_length,
  drop_append_length, Bytes, same, same_refl, same→eq,
}
use gdb_cli_tools.Text.Template.{parts_size, parts_match, equals_parts}

abbrev pub concat_parts : List Bytes → Bytes
concat_parts [] = []
concat_parts (part ∷ parts) = part ++ concat_parts parts

parts_match→eq :
    (s : Bytes) (parts : List Bytes)
    → length s ≡ parts_size parts
    → parts_match s parts ≡ true
    → s ≡ concat_parts parts
unfolding parts_match parts_size
parts_match→eq [] [] l h = refl
parts_match→eq (c ∷ s) [] l h = absurd (omega (arith, l))
parts_match→eq s (part ∷ parts) l h = elim (Bool-cases (same (take (length part) s) part)) [
  | inl e ↦
      sym (take-append-drop (length part) s)
      ∙ ap (λ t. t ++ drop (length part) s) (same→eq _ part e)
      ∙ ap (λ t. part ++ t)
          (parts_match→eq (drop (length part) s) parts
            (omega (arith, l, length-drop (length part) s)) (rw e at h))
  | inr e ↦ cc (rw e at h)
]

parts_match_refl : (parts : List Bytes) → parts_match (concat_parts parts) parts ≡ true
unfolding parts_match
parts_match_refl [] = refl
parts_match_refl (part ∷ parts) =
    rw
      (
        take_append_length part (concat_parts parts),
        same_refl part,
        drop_append_length part (concat_parts parts),
      )
      (parts_match_refl parts)

length-concat_parts : (parts : List Bytes) → length (concat_parts parts) ≡ parts_size parts
unfolding parts_size
length-concat_parts [] = refl
length-concat_parts (part ∷ parts) =
    omega (arith, length-append part (concat_parts parts), length-concat_parts parts)

equals_parts→eq :
    (s : Bytes) (parts : List Bytes) → equals_parts s parts ≡ true → s ≡ concat_parts parts
unfolding equals_parts
equals_parts→eq s parts h = elim (Bool-cases (length s == parts_size parts)) [
  | inl e ↦ parts_match→eq s parts (ground arith) (rw e at h)
  | inr e ↦ cc (rw e at h)
]

equals_parts_refl : (parts : List Bytes) → equals_parts (concat_parts parts) parts ≡ true
unfolding equals_parts
equals_parts_refl parts =
    rw (length-concat_parts parts, ==_refl (parts_size parts)) (parts_match_refl parts)

-- equals_parts says whether the text is the parts in a row.
pub equals_parts_iff :
    (s : Bytes) (parts : List Bytes) → (equals_parts s parts ≡ true) ↔ (s ≡ concat_parts parts)
equals_parts_iff s parts = (equals_parts→eq s parts, λ e. rw e (equals_parts_refl parts))
