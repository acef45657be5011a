-- ===== src/Relay/State.antt =====
-- Connection states (agents/core/connection_state.py): a user's value, and flags of the library's own
-- beside it under reserved keys.
use agents_python_cloudflare.Prelude.{
  String, Bool, true, false, ◌||◌, Option, none, some, ◌==◌, if◌then◌else◌,
}
use agents_python_cloudflare.Json.{
  Json, null, object, Fields, end, field, update_keys, set_key, pop_key,
}

abbrev pub is_internal_key : String → Bool
is_internal_key key =
    key == "_cf_readonly"
    || (key == "_cf_no_protocol"
        || (key == "_cf_voiceInCall"
            || (key == "_cf_subAgentOuterUrl" || key == "_cf_subAgentTags")))

unfoldable pub internal_fields : Fields → Fields
internal_fields end = end
internal_fields (field key v fs) =
    let rest = internal_fields fs in if is_internal_key key then field key v rest else rest

unfoldable pub visible_fields : Fields → Fields
visible_fields end = end
visible_fields (field key v fs) =
    let rest = visible_fields fs in if is_internal_key key then rest else field key v rest

unfoldable pub connection_state_flags : Json → Fields
unfolding internal_fields
connection_state_flags (object fs) = internal_fields fs
connection_state_flags _ = end

abbrev pub no_fields : Fields → Bool
no_fields end = true
no_fields (field key v fs) = false

-- A dict, or None where it is empty.
abbrev pub or_none : Fields → Json
or_none end = null
or_none (field key v fs) = object (field key v fs)

unfoldable pub connection_user_state : Json → Json
unfolding internal_fields visible_fields
connection_user_state (object fs) =
    if no_fields (internal_fields fs) then object fs else or_none (visible_fields fs)
connection_user_state state = state

-- `none` is the TypeError.
unfoldable pub merge_connection_state : Json → Fields → Option Json
merge_connection_state user_state end = some user_state
merge_connection_state null (field key v fs) = some (object (field key v fs))
merge_connection_state (object visible) (field key v fs) =
    some (object (update_keys visible (field key v fs)))
merge_connection_state user_state (field key v fs) = none

abbrev pub set_flag : Fields → String → Json → Fields
set_flag raw key null = pop_key key raw
set_flag raw key value = set_key key value raw

unfoldable pub set_connection_state_flag : Json → String → Json → Option Json
set_connection_state_flag null key value = some (or_none (set_flag end key value))
set_connection_state_flag (object fs) key value = some (or_none (set_flag fs key value))
set_connection_state_flag state key null = some state
set_connection_state_flag state key value = none
