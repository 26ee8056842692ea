-- ===== src/Tests/Wire.antt =====
-- The theorems on frames, on a response with an error and on one with a null result.
use acp_mux.Jsonrpc.RoundTrip.{null_result_lost, from_value-to_value}
use acp_mux.Jsonrpc.{number}
use acp_mux.Jsonrpc.Write.{id_to_value, to_value}
use acp_mux.Jsonrpc.{Incoming, from_value, IncomingResponse, response, ok, err, ambiguous}
use acp_mux.Base.{◌≡◌, refl, none, some, pos, negsuc, arith, inr, true, false}
use acp_mux.Json.{Value, obj, str, bool, field, end}

abbrev refused : Incoming
refused = response (record {
  id = number (negsuc 3);
  result = none;
  error = some (record { code = negsuc 32000; message = "busy"; payload = some (bool true) });
})

from_value-to_value_example : from_value (to_value refused) ≡ ok refused
from_value-to_value_example =
    from_value-to_value refused (omega arith, tt, (omega arith, tt), inr refl)

null_result_lost_example :
    let v = obj (
      field "jsonrpc"
        (str "2.0")
        (field "id" (id_to_value (number (pos 5))) (field "result" Value.null end))) in
    let r : IncomingResponse = record { id = number (pos 5); result = none; error = none } in
    (from_value v ≡ ok (response r))
    × (from_value (to_value (response r)) ≡ err (ambiguous true false false))
null_result_lost_example = null_result_lost (number (pos 5)) (omega arith)
