-- ===== src/Rooms/Control.antt =====
-- crates/rooms/src/extension/queue.rs: the parameters of the requests that control a turn.
use acp_mux.Base.{
  String, Bool, false, Option, none, some, is_some, and_then, map_some, or_else, not, ◌&&◌, ◌==◌,
  eq_text, if◌then◌else◌,
}
use Prim.Native.String.{◌++◌ as text_append}
use acp_mux.Json.{Value, Items, Fields, obj, arr, str, nil, item, get_key, get_field, as_str}
use acp_mux.Jsonrpc.{IncomingRequest, ok}
use acp_mux.Text.{trim}
use acp_mux.Core.{MuxCore}
use acp_mux.Rooms.{RoomsExtension, no_active_turn_code, invalid_params_code}
use acp_mux.Rooms.Refusal.{Checked, ◌>>=◌, ◌>>◌, refuse, refuse_if, required}

pub record ActiveControlParams : Type 0 where
  pub session_id : String
  pub text : String

-- The text of a block, if the block is a text.
abbrev pub block_text : Value → Option String
block_text v =
    and_then (and_then (get_field v "type") as_str)
      λ kind. if kind == "text" then and_then (get_field v "text") as_str else none

unfoldable pub blocks_text : Items → Option String
blocks_text nil = some ""
blocks_text (item v vs) =
    let rest = blocks_text vs in
    and_then (block_text v) λ first. map_some (λ more. text_append first more) rest

-- The texts of a prompt of one block or more, all of them texts.
unfoldable pub text_from_text_only_prompt : Value → Option String
unfolding blocks_text
text_from_text_only_prompt (arr nil) = none
text_from_text_only_prompt (arr (item v vs)) = blocks_text (item v vs)
text_from_text_only_prompt v = none

abbrev pub object_of : Option Value → Checked Fields
object_of (some (obj fs)) = ok fs
object_of other = refuse invalid_params_code "rooms control params must be an object"

-- `params.text`, or without it a prompt of texts.
abbrev pub text_or_prompt : Option Value → Option Value → Checked String
text_or_prompt (some (str s)) prompt = ok s
text_or_prompt (some other) prompt =
    refuse invalid_params_code "rooms control params.text must be a string"
text_or_prompt none prompt =
    required (and_then prompt text_from_text_only_prompt) invalid_params_code
      "rooms control params.text or text-only params.prompt is required"

abbrev pub session_field : Option Value → Checked (Option String)
session_field (some (str s)) = ok (some s)
session_field (some other) =
    refuse invalid_params_code "rooms control params.sessionId must be a string when present"
session_field none = ok none

-- Both are there and differ.
abbrev pub clashes : Option String → Option String → Bool
clashes (some requested) (some active) = not (requested == active)
clashes _ _ = false

-- `parse_rooms_active_turn_control_params`, up to the sending of the error.
unfoldable pub control_params :
    Bool → RoomsExtension → MuxCore → IncomingRequest → Checked ActiveControlParams
control_params require_active_turn r c req = do
  refuse_if (require_active_turn && not (is_some c.prompt_in_flight)) no_active_turn_code
      "rooms active-turn control requires an active turn"
  params ← object_of req.params
  raw ← text_or_prompt (get_key "text" params) (get_key "prompt" params)
  let text = trim raw
  refuse_if (text == "") invalid_params_code "rooms control text must be non-empty"
  requested ← session_field (get_key "sessionId" params)
  let active = or_else r.active_turn_session_id c.canonical_session_id
  refuse_if (clashes requested active) invalid_params_code
      "rooms control params.sessionId must match the active or canonical sessionId"
  session_id ←
      required (or_else requested active) invalid_params_code
        "rooms control could not determine an ACP sessionId"
  ok (record { session_id = session_id; text = text })
