-- ===== src/Json/Dump.antt =====
-- dump_json of src/common/json.cpp. `print` is what operator<< writes for a double.
pub mod Order
pub mod Scalars
pub mod OneLine
pub mod RoundTrip
pub mod Trailing
use gdb_cli_tools.Prelude.{true, false, [], ◌∷◌, ◌++◌, Bytes, codes}
use gdb_cli_tools.Json.Text.{escape_string}
use gdb_cli_tools.Json.Value.{
  Json, Items, Members, null, bool, number, string, array, object, no_items, item, no_members,
  member,
}

-- A comma stands before each element but the first; the loops over what follows the first element
-- write the closing bracket too.
module _ {N : Type 0} (print : N → Bytes) where
  unfoldable mutual
    pub dump_json : Json N → Bytes
    dump_json null = codes "null"
    dump_json (bool true) = codes "true"
    dump_json (bool false) = codes "false"
    dump_json (number x) = print x
    dump_json (string s) = escape_string s
    dump_json (array no_items) = b'[' ∷ b']' ∷ []
    dump_json (array (item v xs)) = b'[' ∷ (dump_json v ++ dump_items xs)
    dump_json (object no_members) = b'{' ∷ b'}' ∷ []
    dump_json (object (member k v m)) =
        b'{' ∷ (escape_string k ++ b':' ∷ (dump_json v ++ dump_members m))

    pub dump_items : Items N → Bytes
    dump_items no_items = b']' ∷ []
    dump_items (item v xs) = b',' ∷ (dump_json v ++ dump_items xs)

    pub dump_members : Members N → Bytes
    dump_members no_members = b'}' ∷ []
    dump_members (member k v m) = b',' ∷ (escape_string k ++ b':' ∷ (dump_json v ++ dump_members m))
