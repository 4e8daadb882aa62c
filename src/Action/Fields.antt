-- ===== src/Action/Fields.antt =====
-- The accessors of src/cli/action.cpp on a request's JSON object. `N` stands for double, and
-- `Numbers` for its conversions.
use gdb_cli_tools.Prelude.{
  Bool, true, false, Option, none, some, [], if◌then◌else◌, Bytes, codes, same,
}
use gdb_cli_tools.Task.Load.{ℤ}
use gdb_cli_tools.Replay.Validate.{int_text}
use gdb_cli_tools.Json.Value.{
  Json, Members, null, number, string, object, no_members, member, less, find, string_or,
}

-- static_cast<int>, the conversion back, static_cast<long long>, the conversion back, == and the
-- test value <= 0.
pub record Numbers (N : Type 0) : Type 0 where
  pub to_int : N → ℤ
  pub of_int : ℤ → N
  pub to_long : N → ℤ
  pub of_long : ℤ → N
  pub equal : N → N → Bool
  pub at_most_zero : N → Bool

module _ {N : Type 0} where
  -- object_value[key] = value
  unfoldable pub assign_member : Bytes → Json N → Members N → Members N
  unfolding less
  assign_member k v no_members = member k v no_members
  assign_member k v (member j w m) =
      let later = member j w (assign_member k v m) in
      if same k j then member k v m else if less k j then member k v (member j w m) else later

  abbrev pub string_field : Json N → Bytes → Bytes
  string_field json key = string_or json key []

  -- json.find("params"), where it is an object.
  unfoldable pub params_of : Json N → Option (Json N)
  unfolding find
  params_of json = elim (find json (codes "params")) [
    | some value ↦ elim value [ object m ↦ some (object m) | _ ↦ none ]
    | none ↦ none
  ]

  unfoldable pub has_field : Json N → Bytes → Bool
  unfolding find params_of
  has_field json key = elim (find json key) [
    | some value ↦ true
    | none ↦ elim (params_of json) [
      | some params ↦ elim (find params key) [ some value ↦ true | none ↦ false ]
      | none ↦ false
    ]
  ]

  unfoldable pub on_hit_json_from : Json N → Option (Json N)
  unfolding find params_of
  on_hit_json_from action = elim (find action (codes "on_hit")) [
    | some on_hit ↦ some on_hit
    | none ↦ elim (params_of action) [ some params ↦ find params (codes "on_hit") | none ↦ none ]
  ]

  -- find, where the value is not null.
  unfoldable pub find_present : Json N → Bytes → Option (Json N)
  unfolding find
  find_present json key = elim (find json key) [
    | some value ↦ elim value [ null ↦ none | v ↦ some v ]
    | none ↦ none
  ]

module _ {N : Type 0} (numbers : Numbers N) where
  unfoldable pub int_or : Json N → Bytes → ℤ → ℤ
  unfolding find
  int_or json key fallback = elim (find json key) [
    | some value ↦ elim value [ number n ↦ numbers.to_int n | _ ↦ fallback ]
    | none ↦ fallback
  ]

  unfoldable pub params_int : Json N → Bytes → ℤ → ℤ
  unfolding params_of int_or
  params_int json key fallback = elim (params_of json) [
    | some params ↦ int_or params key fallback
    | none ↦ fallback
  ]

  unfoldable pub int_field : Json N → Bytes → ℤ → ℤ
  unfolding find params_int
  int_field json key fallback = elim (find json key) [
    | some value ↦ elim value [ number n ↦ numbers.to_int n | _ ↦ params_int json key fallback ]
    | none ↦ params_int json key fallback
  ]

  -- The text of a whole number; another number has none.
  unfoldable pub whole_text : N → Bytes
  unfolding int_text
  whole_text n =
      let value = numbers.to_long n in
      if numbers.equal n (numbers.of_long value) then int_text value else []

  unfoldable pub selector_field : Json N → Bytes → Bytes
  unfolding find whole_text
  selector_field json key = elim (find json key) [
    | some value ↦ elim value [ string s ↦ s | number n ↦ whole_text n | _ ↦ [] ]
    | none ↦ []
  ]
