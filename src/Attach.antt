-- ===== src/Attach.antt =====
-- crates/acp-mux/src/attach.rs: the parameters and results of `session/attach` and `session/detach`.
use acp_mux.Base.{
  String, List, [], ◌∷◌, Option, some, ◌==◌, eq_text, if◌then◌else◌, map_some, unwrap_or, ℤ, negsuc,
}
use acp_mux.Json.{Value, Items, Fields, str, arr, obj, nil, item, end, field, insert_key, as_str}
use acp_mux.Jsonrpc.{◌>>=◌, ◌>>◌, require, is_struct, struct_field, opt_value}
use acp_mux.Jsonrpc.Write.{opt_field}

abbrev pub attach_err_not_found : ℤ
attach_err_not_found = negsuc 32000

pub data HistoryPolicy : Type 0 where
  full full_lineage pending_only none after_message : HistoryPolicy

pub record ClientInfo : Type 0 where
  pub name : String
  pub version : Option String

pub record AttachParams : Type 0 where
  pub session_id : Option String
  pub history_policy : Option HistoryPolicy
  pub after_message_id : Option String
  pub client_id : Option String
  pub client_info : Option ClientInfo
  pub meta : Option Value

pub record ConnectedClient : Type 0 where
  pub client_id : String
  pub name : Option String

pub record HistoryEntry : Type 0 where
  pub method : String
  pub params : Option Value

pub record AttachResult : Type 0 where
  pub session_id : String
  pub client_id : String
  pub connected_clients : List ConnectedClient
  pub history_policy : HistoryPolicy
  pub history : Option (List HistoryEntry)
  pub extra : Fields

-- `#[serde(default)] Option<T>`: the outer option is a failure of the reading.
unfoldable pub optional {ℓ} : {A : Type ℓ} → (Value → Option A) → Option Value → Option (Option A)
optional read Option.none = some Option.none
optional read (some Value.null) = some Option.none
optional read (some v) = map_some some (read v)

abbrev pub policy_of_name : String → Option HistoryPolicy
policy_of_name s =
    if s == "full"
    then some HistoryPolicy.full
    else if s == "full_lineage"
    then some HistoryPolicy.full_lineage
    else if s == "pending_only"
    then some HistoryPolicy.pending_only
    else if s == "none"
    then some HistoryPolicy.none
    else if s == "after_message"
    then some HistoryPolicy.after_message
    else Option.none

-- A unit variant is read from its name, or from an object with the name as its one key.
unfoldable pub policy_of_value : Value → Option HistoryPolicy
policy_of_value (str s) = policy_of_name s
policy_of_value (obj (field s Value.null end)) = policy_of_name s
policy_of_value _ = Option.none

unfoldable pub client_info_of_value : Value → Option ClientInfo
client_info_of_value v = do
  require (is_struct v 2)
  name ← struct_field v "name" 0 >>= as_str
  version ← optional as_str (struct_field v "version" 1)
  some (record { name = name; version = version })

unfoldable pub attach_params_of_value : Value → Option AttachParams
attach_params_of_value v = do
  require (is_struct v 6)
  session_id ← optional as_str (struct_field v "sessionId" 0)
  history_policy ← optional policy_of_value (struct_field v "historyPolicy" 1)
  after_message_id ← optional as_str (struct_field v "afterMessageId" 2)
  client_id ← optional as_str (struct_field v "clientId" 3)
  client_info ← optional client_info_of_value (struct_field v "clientInfo" 4)
  some (record {
    session_id = session_id;
    history_policy = history_policy;
    after_message_id = after_message_id;
    client_id = client_id;
    client_info = client_info;
    meta = opt_value (struct_field v "_meta" 5);
  })

abbrev pub default_attach_params : AttachParams
default_attach_params = record {
  session_id = Option.none;
  history_policy = Option.none;
  after_message_id = Option.none;
  client_id = Option.none;
  client_info = Option.none;
  meta = Option.none;
}

-- `from_value(params).unwrap_or_default()`, and the default where there are none.
unfoldable pub attach_params : Option Value → AttachParams
attach_params params = unwrap_or (params >>= attach_params_of_value) default_attach_params

-- The one field of `DetachParams`.
unfoldable pub detach_session_id : Option Value → Option String
detach_session_id params = unwrap_or (params >>= read) Option.none
  where
    read : Value → Option (Option String)
    read v = do require (is_struct v 1); optional as_str (struct_field v "sessionId" 0)

abbrev pub policy_name : HistoryPolicy → String
policy_name HistoryPolicy.full = "full"
policy_name HistoryPolicy.full_lineage = "full_lineage"
policy_name HistoryPolicy.pending_only = "pending_only"
policy_name HistoryPolicy.none = "none"
policy_name HistoryPolicy.after_message = "after_message"

unfoldable pub client_to_value : ConnectedClient → Value
client_to_value c =
    obj (field "clientId" (str c.client_id) (opt_field "name" (map_some str c.name) end))

unfoldable pub entry_to_value : HistoryEntry → Value
entry_to_value e = obj (field "method" (str e.method) (opt_field "params" e.params end))

unfoldable pub items_of {ℓ} : {A : Type ℓ} → (A → Value) → List A → Items
items_of f [] = nil
items_of f (a ∷ as') = item (f a) (items_of f as')

abbrev pub clients_field : List ConnectedClient → Option Value
clients_field [] = Option.none
clients_field (c ∷ cs) = some (arr (items_of client_to_value (c ∷ cs)))

-- The flattened `extra` fields are written over the others.
unfoldable pub insert_all : Fields → Fields → Fields
insert_all end fs = fs
insert_all (field k v extra) fs = insert_all extra (insert_key k v fs)

unfoldable pub attach_result_to_value : AttachResult → Value
attach_result_to_value r = obj (
    insert_all r.extra (
      field "sessionId" (str r.session_id) (
        field "clientId" (str r.client_id) (
          opt_field "connectedClients" (clients_field r.connected_clients) (
            field "historyPolicy" (str (policy_name r.history_policy)) (
              opt_field "history" (map_some (λ es. arr (items_of entry_to_value es)) r.history)
                end))))))

unfoldable pub detach_result_to_value : String → Value
detach_result_to_value session_id =
    obj (field "sessionId" (str session_id) (field "status" (str "detached") end))
