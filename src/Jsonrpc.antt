-- ===== src/Jsonrpc.antt =====
-- crates/acp-mux/src/jsonrpc.rs: the JSON-RPC envelope, its reading from a JSON value by the typed
-- deserialisers and its writing back. `JsonRpcVersion` is a unit type: it is read and written here.
pub mod Write
pub mod RoundTrip
use acp_mux.Base.{
  ℕ, suc, ◌≤◌, ◌≡◌, refl, String, Bool, true, false, ◌||◌, Option, none, some, arith, ◌==◌, is_some,
  and_then, map_some, if◌then◌else◌, leb, i64_max, ℤ, pos, negsuc, Eq, eq_text, eq_int, ◌↔◌,
}
use acp_mux.Json.{
  Number, pos_int, Value, Items, Fields, bool, num, str, arr, obj, nil, item, end, field, get_key,
  contains_key, get_field, as_str, nth_item, count_items, number_as_i64, i64_number,
}

pub data RequestId : Type 0 where
  number : ℤ → RequestId
  text : String → RequestId
  null : RequestId

pub record IncomingRequest : Type 0 where
  pub id : RequestId
  pub method : String
  pub params : Option Value

pub record IncomingNotification : Type 0 where
  pub method : String
  pub params : Option Value

pub record JsonRpcError : Type 0 where
  pub code : ℤ
  pub message : String
  pub payload : Option Value

pub record IncomingResponse : Type 0 where
  pub id : RequestId
  pub result : Option Value
  pub error : Option JsonRpcError

pub data Incoming : Type 0 where
  request : IncomingRequest → Incoming
  notification : IncomingNotification → Incoming
  response : IncomingResponse → Incoming

pub data ParseError : Type 0 where
  json : ParseError
  not_an_object : ParseError
  ambiguous : Bool → Bool → Bool → ParseError

pub data Result {ℓ κ} (E : Type ℓ) (A : Type κ) : Type (ℓ ⊔ κ) where
  ok : A → Result E A
  err : E → Result E A

infixl 5 ◌>>=◌
abbrev pub ◌>>=◌ {ℓ κ} : {A : Type ℓ} {B : Type κ} → Option A → (A → Option B) → Option B
m >>= f = and_then m f

infixl 5 ◌>>◌
abbrev pub ◌>>◌ {ℓ} : {B : Type ℓ} → Option (Unit {0}) → Option B → Option B
m >> k = and_then m (λ _. k)

abbrev pub require : Bool → Option (Unit {0})
require true = some tt
require false = none

-- Equality of ids, as the map of agent requests compares them.
unfoldable pub id_eq : RequestId → RequestId → Bool
id_eq (number a) (number b) = a == b
id_eq (text a) (text b) = a == b
id_eq null null = true
id_eq _ _ = false

pub id-eq_iff : (a b : RequestId) → (id_eq a b ≡ true) ↔ (a ≡ b)
unfolding id_eq
id-eq_iff (number a) (number b) = ground (arith, eq_int.alike_iff a b)
id-eq_iff (number a) (text b) = ground arith
id-eq_iff (number a) null = ground arith
id-eq_iff (text a) (number b) = ground arith
id-eq_iff (text a) (text b) = ground (arith, eq_text.alike_iff a b)
id-eq_iff (text a) null = ground arith
id-eq_iff null (number b) = ground arith
id-eq_iff null (text b) = ground arith
id-eq_iff null null = ground arith

instance abbrev pub eq_id : Eq RequestId
eq_id = record { alike = id_eq; alike_iff = id-eq_iff }

-- The untagged enum: an `i64`, a string or null; anything else is refused.
unfoldable pub id_of_value : Value → Option RequestId
id_of_value (num n) = map_some number (number_as_i64 n)
id_of_value (str s) = some (text s)
id_of_value Value.null = some null
id_of_value _ = none

-- The literal "2.0".
unfoldable pub version_of : Option Value → Option (Unit {0})
version_of (some (str s)) = require (s == "2.0")
version_of _ = none

-- `#[serde(default)] Option<Value>`: a missing field and an explicit null are both none.
unfoldable pub opt_value : Option Value → Option Value
opt_value (some Value.null) = none
opt_value v = v

-- A derived struct reads an object by field names, and an array by positions.
unfoldable pub struct_field : Value → String → ℕ → Option Value
struct_field (obj fs) name i = get_key name fs
struct_field (arr vs) name i = nth_item i vs
struct_field _ name i = none

unfoldable pub is_struct : Value → ℕ → Bool
is_struct (obj fs) n = true
is_struct (arr vs) n = leb (count_items vs) n
is_struct _ n = false

unfoldable pub i64_of_value : Value → Option ℤ
i64_of_value (num n) = number_as_i64 n
i64_of_value _ = none

unfoldable pub error_of_value : Value → Option JsonRpcError
error_of_value v = do
  require (is_struct v 3)
  code ← struct_field v "code" 0 >>= i64_of_value
  message ← struct_field v "message" 1 >>= as_str
  some (record { code = code; message = message; payload = opt_value (struct_field v "data" 2) })

-- `Option<JsonRpcError>`: the outer option is a failure of the reading.
unfoldable pub opt_error : Option Value → Option (Option JsonRpcError)
opt_error none = some none
opt_error (some Value.null) = some none
opt_error (some v) = map_some some (error_of_value v)

unfoldable pub request_of_fields : Fields → Option IncomingRequest
request_of_fields fs = do
  version_of (get_key "jsonrpc" fs)
  id ← get_key "id" fs >>= id_of_value
  method ← get_key "method" fs >>= as_str
  some (record { id = id; method = method; params = opt_value (get_key "params" fs) })

unfoldable pub notification_of_fields : Fields → Option IncomingNotification
notification_of_fields fs = do
  version_of (get_key "jsonrpc" fs)
  method ← get_key "method" fs >>= as_str
  some (record { method = method; params = opt_value (get_key "params" fs) })

unfoldable pub response_of_fields : Fields → Option IncomingResponse
response_of_fields fs = do
  version_of (get_key "jsonrpc" fs)
  id ← get_key "id" fs >>= id_of_value
  error ← opt_error (get_key "error" fs)
  some (record { id = id; result = opt_value (get_key "result" fs); error = error })

abbrev pub or_json {ℓ} : {A : Type ℓ} → Option A → Result ParseError A
or_json none = err json
or_json (some a) = ok a

abbrev pub map_ok {ℓ κ} :
    {A : Type ℓ} {B : Type κ} → (A → B) → Result ParseError A → Result ParseError B
map_ok f (ok a) = ok (f a)
map_ok f (err e) = err e

-- The frame's kind is decided by the fields that are present.
unfoldable pub classify : Fields → Bool → Bool → Bool → Result ParseError Incoming
classify fs true true _ = map_ok request (or_json (request_of_fields fs))
classify fs false true _ = map_ok notification (or_json (notification_of_fields fs))
classify fs true false true = map_ok response (or_json (response_of_fields fs))
classify fs has_id has_method has_reply = err (ambiguous has_id has_method has_reply)

-- `Incoming::from_value`.
unfoldable pub from_value : Value → Result ParseError Incoming
unfolding classify
from_value (obj fs) =
    classify fs (contains_key "id" fs) (contains_key "method" fs)
      (contains_key "result" fs || contains_key "error" fs)
from_value _ = err not_an_object
