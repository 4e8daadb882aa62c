-- ===== src/Json/Value.antt =====
-- The class Json of src/common/json.hpp and its accessors. `N` stands for double. An object is the
-- std::map of its members: the keys in order, each once.
use gdb_cli_tools.Prelude.{
  Bool, true, false, ◌&&◌, ◌||◌, Option, none, some, [], ◌∷◌, ltb, ◌==◌, if◌then◌else◌, Bytes, same,
}

mutual
  pub data Json (N : Type 0) : Type 0 where
    null : Json N
    bool : Bool → Json N
    number : N → Json N
    string : Bytes → Json N
    array : Items N → Json N
    object : Members N → Json N

  pub data Items (N : Type 0) : Type 0 where
    no_items : Items N
    item : Json N → Items N → Items N

  pub data Members (N : Type 0) : Type 0 where
    no_members : Members N
    member : Bytes → Json N → Members N → Members N

-- operator< of two keys: the first byte that differs decides.
unfoldable pub less : Bytes → Bytes → Bool
less [] [] = false
less [] (d ∷ t) = true
less (c ∷ s) [] = false
less (c ∷ s) (d ∷ t) = ltb c d || (c == d && less s t)

module _ {N : Type 0} where
  -- object_value.emplace(key, value): a key that is there keeps its value.
  unfoldable pub emplace : Bytes → Json N → Members N → Members N
  unfolding less
  emplace k v no_members = member k v no_members
  emplace k v (member j w m) =
      let later = member j w (emplace k v m) in
      if same k j then member j w m else if less k j then member k v (member j w m) else later

  unfoldable pub find_member : Bytes → Members N → Option (Json N)
  find_member k no_members = none
  find_member k (member j w m) = if same j k then some w else find_member k m

  unfoldable pub find : Json N → Bytes → Option (Json N)
  unfolding find_member
  find (object m) key = find_member key m
  find _ key = none

  unfoldable pub string_or : Json N → Bytes → Bytes → Bytes
  unfolding find
  string_or json key fallback = elim (find json key) [
    | some value ↦ elim value [ string s ↦ s | _ ↦ fallback ]
    | none ↦ fallback
  ]

  unfoldable pub bool_or : Json N → Bytes → Bool → Bool
  unfolding find
  bool_or json key fallback = elim (find json key) [
    | some value ↦ elim value [ bool b ↦ b | _ ↦ fallback ]
    | none ↦ fallback
  ]
