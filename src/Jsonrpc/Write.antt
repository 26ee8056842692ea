-- ===== src/Jsonrpc/Write.antt =====
-- crates/acp-mux/src/jsonrpc.rs: the JSON value that the derived serialisers write for a frame, its
-- fields in the order of the structs. An absent option is left out.
use acp_mux.Base.{String, Option, none, some}
use acp_mux.Json.{Value, Fields, num, str, obj, end, field, i64_number}
use acp_mux.Jsonrpc.{
  RequestId, number, text, null, IncomingRequest, IncomingNotification, JsonRpcError,
  IncomingResponse, Incoming, request, notification, response,
}

unfoldable pub id_to_value : RequestId → Value
id_to_value (number z) = num (i64_number z)
id_to_value (text s) = str s
id_to_value null = Value.null

-- `skip_serializing_if = "Option::is_none"`.
abbrev pub opt_field : String → Option Value → Fields → Fields
opt_field k none fs = fs
opt_field k (some v) fs = field k v fs

unfoldable pub error_to_value : JsonRpcError → Value
error_to_value e = obj (
    field "code" (num (i64_number e.code))
      (field "message" (str e.message) (opt_field "data" e.payload end)))

abbrev pub opt_error_field : Option JsonRpcError → Fields → Fields
opt_error_field none fs = fs
opt_error_field (some e) fs = field "error" (error_to_value e) fs

unfoldable pub request_to_value : IncomingRequest → Value
request_to_value r = obj (
    field "jsonrpc" (str "2.0") (
      field "id" (id_to_value r.id)
        (field "method" (str r.method) (opt_field "params" r.params end))))

unfoldable pub notification_to_value : IncomingNotification → Value
notification_to_value n =
    obj (
      field "jsonrpc" (str "2.0") (field "method" (str n.method) (opt_field "params" n.params end)))

unfoldable pub response_to_value : IncomingResponse → Value
response_to_value r = obj (
    field "jsonrpc" (str "2.0")
      (field "id" (id_to_value r.id) (opt_field "result" r.result (opt_error_field r.error end))))

-- `Incoming::to_vec`, up to the printing of the value.
unfoldable pub to_value : Incoming → Value
to_value (request r) = request_to_value r
to_value (notification n) = notification_to_value n
to_value (response r) = response_to_value r
