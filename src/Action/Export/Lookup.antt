-- ===== src/Action/Export/Lookup.antt =====
-- What a member of a JSON object is behind the assignments of action_request_to_json.
use gdb_cli_tools.Prelude.{
  ◌≡◌, refl, sym, ap, ◌∙◌, subst, ◌⊎◌, inl, inr, Bool, true, false, not, ◌&&◌, Option, none, some,
  [], ◌∷◌, if◌then◌else◌, Bool-cases, is_empty, Bytes, codes, same, same→eq,
}
use gdb_cli_tools.Task.Load.{ℤ}
use gdb_cli_tools.Json.Value.{
  Json, Members, null, bool, number, string, array, object, no_members, member, less, find_member,
  string_or, bool_or,
}
use gdb_cli_tools.Action.Fields.{
  Numbers, assign_member, params_of, has_field, int_field, params_int,
}
use gdb_cli_tools.Action.Export.{put_text, put_flag, put_time, json_number}

pub text_or_empty : (s : Bytes) → (if not (is_empty s) then s else []) ≡ s
text_or_empty [] = refl
text_or_empty (c ∷ s) = refl

module _ {N : Type 0} where
  -- What object_value[key] is behind object_value[k] = v.
  pub find_member-assign_member :
      (key k : Bytes) (v : Json N) (m : Members N)
      → find_member key (assign_member k v m) ≡ (if same k key then some v else find_member key m)
  unfolding find_member assign_member
  find_member-assign_member key k v no_members = refl
  find_member-assign_member key k v (member j w m) = elim (Bool-cases (same k j)) [
    | inl e ↦ rw (e, same→eq k j e) (elim (Bool-cases (same j key)) [ inl a ↦ rw a | inr a ↦ rw a ])
    | inr e ↦ elim (Bool-cases (less k j)) [
      | inl l ↦ rw (e, l)
      | inr l ↦
          rw (e, l, find_member-assign_member key k v m)
            (elim (Bool-cases (same j key)) [
              | inl a ↦ rw (a, subst (λ t. same k t ≡ false) (same→eq j key a) e)
              | inr a ↦ rw a
            ])
    ]
  ]

  pub find_member-put_text :
      (key k s : Bytes) (m : Members N)
      → find_member key (put_text k s m)
        ≡ (if same k key && not (is_empty s) then some (string s) else find_member key m)
  unfolding put_text
  find_member-put_text key k [] m = elim (Bool-cases (same k key)) [ inl a ↦ rw a | inr a ↦ rw a ]
  find_member-put_text key k (c ∷ s) m =
      rw (find_member-assign_member key k (string (c ∷ s)) m)
        (elim (Bool-cases (same k key)) [ inl a ↦ rw a | inr a ↦ rw a ])

  pub find_member-put_flag :
      (key k : Bytes) (b : Bool) (m : Members N)
      → find_member key (put_flag k b m)
        ≡ (if same k key && b then some (bool true) else find_member key m)
  unfolding put_flag
  find_member-put_flag key k true m =
      rw (find_member-assign_member key k (bool true) m)
        (elim (Bool-cases (same k key)) [ inl a ↦ rw a | inr a ↦ rw a ])
  find_member-put_flag key k false m = elim (Bool-cases (same k key)) [
    | inl a ↦ rw a
    | inr a ↦ rw a
  ]

  abbrev pub text_of : Json N → Bytes
  text_of (string s) = s
  text_of _ = []

  abbrev pub text_found : Option (Json N) → Bytes
  text_found none = []
  text_found (some v) = text_of v

  -- The text of a member that may be there, as string_or reads it with an empty fallback.
  unfoldable pub text_at : Bytes → Members N → Bytes
  unfolding find_member
  text_at key m = text_found (find_member key m)

  pub string_or-object : (key : Bytes) (m : Members N) → string_or (object m) key [] ≡ text_at key m
  unfolding string_or text_at
  string_or-object key m = elim (find_member key m) [
    | some v ↦ elim v [
      | string s ↦ refl
      | null ↦ refl
      | bool b ↦ refl
      | number n ↦ refl
      | array xs ↦ refl
      | object o ↦ refl
    ]
    | none ↦ refl
  ]

  pub text_at-assign_member :
      (key k : Bytes) (v : Json N) (m : Members N)
      → text_at key (assign_member k v m) ≡ (if same k key then text_of v else text_at key m)
  unfolding text_at
  text_at-assign_member key k v m =
      ap text_found (find_member-assign_member key k v m)
      ∙ elim (Bool-cases (same k key)) [ inl a ↦ rw a | inr a ↦ rw a ]

  pub text_at-put_text :
      (key k s : Bytes) (m : Members N)
      → text_at key (put_text k s m) ≡ (if same k key && not (is_empty s) then s else text_at key m)
  unfolding put_text
  text_at-put_text key k [] m = elim (Bool-cases (same k key)) [ inl a ↦ rw a | inr a ↦ rw a ]
  text_at-put_text key k (c ∷ s) m =
      rw (text_at-assign_member key k (string (c ∷ s)) m)
        (elim (Bool-cases (same k key)) [ inl a ↦ rw a | inr a ↦ rw a ])

-- A flag or a number is no text.
pub text_at-put_flag :
    {N : Type 0} (key k : Bytes) (b : Bool) (m : Members N)
    → text_at key (put_flag k b m) ≡ (if same k key && b then [] else text_at key m)
unfolding put_flag
text_at-put_flag key k true m =
    rw (text_at-assign_member key k (bool true) m)
      (elim (Bool-cases (same k key)) [ inl a ↦ rw a | inr a ↦ rw a ])
text_at-put_flag key k false m = elim (Bool-cases (same k key)) [ inl a ↦ rw a | inr a ↦ rw a ]

pub find_member-no_members : {N : Type 0} (key : Bytes) → find_member {N = N} key no_members ≡ none
unfolding find_member
find_member-no_members key = refl

pub text_at-no_members : (N : Type 0) (key : Bytes) → text_at {N = N} key no_members ≡ []
unfolding text_at
text_at-no_members N key = refl

-- The lookups of a flag: bool_or with the fallback false.
pub bool_or-present :
    {N : Type 0} (key : Bytes) (m : Members N) (b : Bool)
    → find_member key m ≡ (if b then some (bool true) else none)
    → bool_or (object m) key false ≡ b
unfolding bool_or
bool_or-present key m true e = rw (bool_or, e)
bool_or-present key m false e = rw (bool_or, e)

pub params_of-none :
    {N : Type 0} (m : Members N)
    → find_member (codes "params") m ≡ none
    → params_of (object m) ≡ none
unfolding params_of
params_of-none m e = rw (params_of, e)

pub has_field-present :
    {N : Type 0} (key : Bytes) (m : Members N) (v : Json N) (test : Bool)
    → find_member (codes "params") m ≡ none
    → find_member key m ≡ (if test then some v else none)
    → has_field (object m) key ≡ test
unfolding has_field
has_field-present key m v true p e = rw (has_field, e)
has_field-present key m v false p e = rw (has_field, e, params_of, p)

module _ {N : Type 0} (numbers : Numbers N) where
  -- An int that is turned into a double is turned back.
  abbrev pub KeepsInts : Type 0
  KeepsInts = (z : ℤ) → numbers.to_int (numbers.of_int z) ≡ z

  pub find_member-put_time :
      (key k : Bytes) (test : Bool) (z : ℤ) (m : Members N)
      → find_member key (put_time numbers k test z m)
        ≡ (if same k key && test then some (json_number numbers z) else find_member key m)
  unfolding put_time
  find_member-put_time key k true z m =
      rw (find_member-assign_member key k (json_number numbers z) m)
        (elim (Bool-cases (same k key)) [ inl a ↦ rw a | inr a ↦ rw a ])
  find_member-put_time key k false z m = elim (Bool-cases (same k key)) [
    | inl a ↦ rw a
    | inr a ↦ rw a
  ]

  pub text_at-put_time :
      (key k : Bytes) (test : Bool) (z : ℤ) (m : Members N)
      → text_at key (put_time numbers k test z m)
        ≡ (if same k key && test then [] else text_at key m)
  unfolding put_time
  text_at-put_time key k true z m =
      rw (text_at-assign_member key k (json_number numbers z) m)
        (elim (Bool-cases (same k key)) [ inl a ↦ rw a | inr a ↦ rw a ])
  text_at-put_time key k false z m = elim (Bool-cases (same k key)) [ inl a ↦ rw a | inr a ↦ rw a ]

  pub int_field-present :
      (key : Bytes) (m : Members N) (test : Bool) (z fallback : ℤ)
      → KeepsInts
      → find_member (codes "params") m ≡ none
      → find_member key m ≡ (if test then some (json_number numbers z) else none)
      → (test ≡ true) ⊎ (z ≡ fallback)
      → int_field numbers (object m) key fallback ≡ z
  unfolding int_field
  int_field-present key m true z fallback keeps p e c = rw (int_field, e) (keeps z)
  int_field-present key m false z fallback keeps p e (inl c) = cc
  int_field-present key m false z fallback keeps p e (inr c) =
      rw (int_field, e, params_int, params_of, p) (sym c)

pub ruleset lookups = (
  find_member-assign_member, find_member-put_text, find_member-put_flag, find_member-put_time,
  find_member-no_members, string_or-object, text_at-assign_member, text_at-put_text,
  text_at-put_flag, text_at-put_time, text_at-no_members, text_or_empty,
)
