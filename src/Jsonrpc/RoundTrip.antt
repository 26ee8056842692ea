-- ===== src/Jsonrpc/RoundTrip.antt =====
-- Reading back what is written, and the frame that cannot be read back.
use acp_mux.Base.{
  ◌≤◌, ◌≡◌, refl, String, true, false, Option, none, some, arith, ℤ, pos, negsuc, i64_max, ◌⊎◌, inl,
  inr, is_some,
}
use acp_mux.Json.{Value, bool, num, str, arr, obj, end, field, get_key, number_as_i64, i64_number}
use acp_mux.Jsonrpc.{
  RequestId, number, text, null, IncomingRequest, IncomingNotification, JsonRpcError,
  IncomingResponse, Incoming, request, notification, response, ambiguous, ok, err, from_value,
  request_of_fields, notification_of_fields, response_of_fields, id_of_value, version_of, opt_value,
  opt_error, error_of_value, struct_field, is_struct, i64_of_value,
}
use acp_mux.Jsonrpc.Write.{
  id_to_value, error_to_value, request_to_value, notification_to_value, response_to_value, to_value,
}

-- The range of an `i64`.
abbrev pub InI64 : ℤ → Type 0
InI64 (pos n) = n ≤ i64_max
InI64 (negsuc n) = n ≤ i64_max

abbrev pub IdInRange : RequestId → Type 0
IdInRange (number z) = InI64 z
IdInRange (text s) = Unit {0}
IdInRange null = Unit {0}

-- No explicit null, which would be read back as an absent field.
abbrev pub IsPlain : Option Value → Type 0
IsPlain none = Unit {0}
IsPlain (some Value.null) = ⊥
IsPlain (some (bool b)) = Unit {0}
IsPlain (some (num n)) = Unit {0}
IsPlain (some (str s)) = Unit {0}
IsPlain (some (arr vs)) = Unit {0}
IsPlain (some (obj fs)) = Unit {0}

abbrev pub ErrorIsPlain : Option JsonRpcError → Type 0
ErrorIsPlain none = Unit {0}
ErrorIsPlain (some e) = InI64 e.code × IsPlain e.payload

-- A frame whose numbers are `i64`, with no explicit null, and a response with a result or an error.
abbrev pub IsWire : Incoming → Type 0
IsWire (request r) = IdInRange r.id × IsPlain r.params
IsWire (notification n) = IsPlain n.params
IsWire (response r) =
    IdInRange r.id
    × IsPlain r.result
    × ErrorIsPlain r.error
    × ((is_some r.result ≡ true) ⊎ (is_some r.error ≡ true))

number-i64 : (z : ℤ) → InI64 z → number_as_i64 (i64_number z) ≡ some z
number-i64 (pos n) r = ground arith
number-i64 (negsuc n) r = ground arith

id-value : (i : RequestId) → IdInRange i → id_of_value (id_to_value i) ≡ some i
unfolding id_of_value id_to_value
id-value (number z) r = rw (number-i64 z r)
id-value (text s) r = refl
id-value null r = refl

opt-plain : (v : Option Value) → IsPlain v → opt_value v ≡ v
unfolding opt_value
opt-plain none p = refl
opt-plain (some Value.null) p = elim p [ ]
opt-plain (some (bool b)) p = refl
opt-plain (some (num n)) p = refl
opt-plain (some (str s)) p = refl
opt-plain (some (arr vs)) p = refl
opt-plain (some (obj fs)) p = refl

request-value :
    (i : RequestId) (m : String) (p : Option Value)
    → IdInRange i
    → IsPlain p
    → let r : IncomingRequest = record { id = i; method = m; params = p } in
      from_value (request_to_value r) ≡ ok (request r)
unfolding from_value request_to_value get_key request_of_fields version_of opt_value
request-value i m none ri rp = rw (id-value i ri)
request-value i m (some v) ri rp = rw (id-value i ri, opt-plain (some v) rp)

notification-value :
    (m : String) (p : Option Value)
    → IsPlain p
    → let n : IncomingNotification = record { method = m; params = p } in
      from_value (notification_to_value n) ≡ ok (notification n)
unfolding from_value notification_to_value get_key notification_of_fields version_of opt_value
notification-value m none rp = refl
notification-value m (some v) rp = rw (opt-plain (some v) rp)

error-fields :
    (z : ℤ) (m : String) (p : Option Value)
    → InI64 z
    → IsPlain p
    → let e : JsonRpcError = record { code = z; message = m; payload = p } in
      error_of_value (error_to_value e) ≡ some e
unfolding error_of_value error_to_value is_struct struct_field get_key i64_of_value opt_value
error-fields z m none rz rp = rw (number-i64 z rz)
error-fields z m (some v) rz rp = rw (number-i64 z rz, opt-plain (some v) rp)

opt-error-value :
    (e : JsonRpcError)
    → InI64 e.code
    → IsPlain e.payload
    → opt_error (some (error_to_value e)) ≡ some (some e)
unfolding opt_error error_to_value
opt-error-value e rz rp = rw (error-fields e.code e.message e.payload rz rp)

response-value :
    (i : RequestId) (v : Option Value) (e : Option JsonRpcError)
    → IsWire (response (record { id = i; result = v; error = e }))
    → let r : IncomingResponse = record { id = i; result = v; error = e } in
      from_value (response_to_value r) ≡ ok (response r)
unfolding from_value response_to_value get_key response_of_fields version_of opt_value opt_error
response-value i none none w = elim w.3 [ inl e ↦ cc | inr e ↦ cc ]
response-value i (some v) none w = rw (id-value i w.0, opt-plain (some v) w.1)
response-value i none (some e) w = rw (id-value i w.0, opt-error-value e w.2.0 w.2.1)
response-value i (some v) (some e) w =
    rw (id-value i w.0, opt-error-value e w.2.0 w.2.1, opt-plain (some v) w.1)

-- A frame with its numbers in range, with no explicit null, and for a response with a result or an
-- error, is read back as the frame that was written.
pub from_value-to_value : (f : Incoming) → IsWire f → from_value (to_value f) ≡ ok f
unfolding to_value
from_value-to_value (request r) w = request-value r.id r.method r.params w.0 w.1
from_value-to_value (notification n) w = notification-value n.method n.params w
from_value-to_value (response r) w = response-value r.id r.result r.error w

-- A response whose result is an explicit null and that has no error is read as one with neither, and
-- what is written for it is no JSON-RPC frame: it is refused as ambiguous.
pub null_result_lost :
    (i : RequestId)
    → IdInRange i
    → let v = obj (
        field "jsonrpc" (str "2.0") (field "id" (id_to_value i) (field "result" Value.null end))) in
      let r : IncomingResponse = record { id = i; result = none; error = none } in
      (from_value v ≡ ok (response r))
      × (from_value (to_value (response r)) ≡ err (ambiguous true false false))
unfolding from_value to_value response_to_value get_key response_of_fields version_of opt_value
    opt_error
null_result_lost i ri = (rw (id-value i ri), refl)
