-- ===== src/Chat/Metadata.antt =====
-- src/lib/chat/turn-plan.ts: what is read of a row's metadata.
use agent_studio.Shared.{String, Bool, false, Option, none, some, str_eq, if◌then◌else◌}

-- The JSON of a row's metadata; of numbers and arrays nothing is read.
mutual
  pub data Json : Type 0 where
    null_json number_json array_json : Json
    bool_json : Bool → Json
    string_json : String → Json
    object_json : Fields → Json

  pub data Fields : Type 0 where
    no_fields : Fields
    field : String → Json → Fields → Fields

unfoldable pub lookup : Fields → String → Option Json
lookup no_fields key = none
lookup (field name value rest) key =
    let later = lookup rest key in if str_eq name key then some value else later

-- `value[key]`, none also where the value is no object.
unfoldable pub get_field : Option Json → String → Option Json
unfolding lookup
get_field (some (object_json fields)) key = lookup fields key
get_field _ key = none

abbrev pub non_empty_string : Option Json → Option String
non_empty_string (some (string_json s)) = if str_eq s "" then none else some s
non_empty_string _ = none

abbrev pub is_true : Option Json → Bool
is_true (some (bool_json b)) = b
is_true _ = false

pub record TurnJoin : Type 0 where
  pub uuid : String
  pub session_id : String
  pub cwd : String
  pub checkpointed : Bool

abbrev pub join_of : Option String → Option String → Option String → Bool → Option TurnJoin
join_of (some uuid) (some session_id) (some cwd) checkpointed =
    some (record { uuid = uuid; session_id = session_id; cwd = cwd; checkpointed = checkpointed })
join_of _ _ _ checkpointed = none

unfoldable pub read_turn_join : Option Json → Option TurnJoin
unfolding get_field
read_turn_join metadata =
    let raw = get_field metadata "sdkTurn" in
    join_of (non_empty_string (get_field raw "uuid")) (non_empty_string (get_field raw "sessionId"))
      (non_empty_string (get_field raw "cwd")) (is_true (get_field raw "checkpointed"))

unfoldable pub has_pending_cut : Option Json → Bool
unfolding get_field
has_pending_cut metadata = is_true (get_field metadata "sdkCutPending")

unfoldable pub read_tail_uuid : Option Json → Option String
unfolding get_field
read_tail_uuid metadata = non_empty_string (get_field metadata "sdkTailUuid")
