-- ===== src/Action/Result.antt =====
-- The results of src/cli/action.hpp and their conversions in src/cli/action.cpp. `of_int` is the
-- conversion of an int to a double, `print` the text of a double.
pub mod Lines
use gdb_cli_tools.Prelude.{Bool, true, false, List, [], ◌∷◌, ◌++◌, Bytes, codes, newline}
use gdb_cli_tools.Task.Load.{ℤ}
use gdb_cli_tools.Json.Value.{
  Json, Items, Members, null, bool, number, string, array, object, no_items, item, no_members,
}
use gdb_cli_tools.Json.Dump.{dump_json}
use gdb_cli_tools.Action.Kind.{ActionKind}
use gdb_cli_tools.Action.Fields.{assign_member}
use gdb_cli_tools.Action.Export.{put_text}

-- ResultField::Value, ResultObject and ResultArray; a pointer to no object is `nothing`.
mutual
  pub data ResultValue : Type 0 where
    nothing : ResultValue
    text : Bytes → ResultValue
    int : ℤ → ResultValue
    flag : Bool → ResultValue
    result_object : ResultFields → ResultValue
    result_array : ResultObjects → ResultValue

  pub data ResultFields : Type 0 where
    no_fields : ResultFields
    field : Bytes → ResultValue → ResultFields → ResultFields

  pub data ResultObjects : Type 0 where
    no_objects : ResultObjects
    one_object : ResultFields → ResultObjects → ResultObjects

pub record ActionResult : Type 0 where
  pub ok : Bool
  pub kind : ActionKind
  pub action : Bytes
  pub error : Bytes
  pub evidence_id : Bytes
  pub command_evidence_id : Bytes
  pub finished : Bool
  pub fields : ResultFields

pub record ActionOutput : Type 0 where
  pub prelude : List ActionResult
  pub final : ActionResult

-- ActionResult::success and ActionResult::failure.
unfoldable pub success : ActionKind → Bytes → ActionResult
success kind action = record {
  ok = true;
  kind = kind;
  action = action;
  error = [];
  evidence_id = [];
  command_evidence_id = [];
  finished = false;
  fields = no_fields;
}

unfoldable pub failure : ActionKind → Bytes → Bytes → ActionResult
unfolding success
failure kind action error = record (success kind action) { ok = false; error = error }

-- fields.push_back
unfoldable pub push_field : Bytes → ResultValue → ResultFields → ResultFields
push_field key value no_fields = field key value no_fields
push_field key value (field k v fields) = field k v (push_field key value fields)

-- set_field on a result: each of action_result_set_string, _int, _bool, _null, _object and _array.
unfoldable pub set_field : ActionResult → Bytes → ResultValue → ActionResult
unfolding push_field
set_field result key value = record result { fields = push_field key value result.fields }

module _ {N : Type 0} (of_int : ℤ → N) where
  unfoldable mutual
    unfolding assign_member

    pub field_value_to_json : ResultValue → Json N
    field_value_to_json nothing = null
    field_value_to_json (text s) = string s
    field_value_to_json (int value) = number (of_int value)
    field_value_to_json (flag value) = bool value
    field_value_to_json (result_object fields) = object (put_fields fields no_members)
    field_value_to_json (result_array objects) = array (result_array_to_json objects)

    -- The loop of result_object_to_json and of action_result_to_json.
    pub put_fields : ResultFields → Members N → Members N
    put_fields no_fields m = m
    put_fields (field key value fields) m =
        put_fields fields (assign_member key (field_value_to_json value) m)

    pub result_array_to_json : ResultObjects → Items N
    result_array_to_json no_objects = no_items
    result_array_to_json (one_object fields objects) =
        item (object (put_fields fields no_members)) (result_array_to_json objects)

  unfoldable pub action_result_to_json : ActionResult → Json N
  unfolding assign_member put_text put_fields
  action_result_to_json result = object (
      put_fields result.fields (
        put_text (codes "command_evidence") result.command_evidence_id (
          put_text (codes "evidence") result.evidence_id (
            put_text (codes "error") result.error (
              put_text (codes "action") result.action
                (assign_member (codes "ok") (bool result.ok) no_members))))))

  module _ (print : N → Bytes) where
    unfoldable pub action_result_line : ActionResult → Bytes
    unfolding action_result_to_json dump_json
    action_result_line result = dump_json print (action_result_to_json result) ++ newline ∷ []

    unfoldable pub prelude_text : List ActionResult → Bytes
    unfolding action_result_line
    prelude_text [] = []
    prelude_text (result ∷ results) = action_result_line result ++ prelude_text results

    unfoldable pub action_output_text : ActionOutput → Bytes
    unfolding prelude_text
    action_output_text output = prelude_text output.prelude ++ action_result_line output.final
