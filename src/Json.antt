-- ===== src/Json.antt =====
-- JSON values: the constructors of `serde_json::Value` that the code matches on, and its accessors
-- `get`, `as_str`, `contains_key`, `insert`, `remove` (crates/acp-mux/src/jsonrpc.rs and the callers).
-- Reading and printing bytes belongs to serde_json: see `Host`.
use acp_mux.Base.{
  ℕ, zero, suc, ◌≡◌, refl, String, Bool, Option, none, some, arith, ◌==◌, is_some, and_then,
  if◌then◌else◌, leb, i64_max, ℤ, pos, negsuc, eq_text,
}

-- A JSON number: a `u64`, a negative `i64` (`neg_int n` is -(n + 1)), or the bits of an `f64`.
pub data Number : Type 0 where
  pos_int neg_int float : ℕ → Number

mutual
  pub data Value : Type 0 where
    null : Value
    bool : Bool → Value
    num : Number → Value
    str : String → Value
    arr : Items → Value
    obj : Fields → Value

  pub data Items : Type 0 where
    nil : Items
    item : Value → Items → Items

  pub data Fields : Type 0 where
    end : Fields
    field : String → Value → Fields → Fields

-- `Map::get`.
unfoldable pub get_key : String → Fields → Option Value
get_key k end = none
get_key k (field j v fs) = if j == k then some v else get_key k fs

abbrev pub contains_key : String → Fields → Bool
contains_key k fs = is_some (get_key k fs)

unfoldable pub insert_key : String → Value → Fields → Fields
insert_key k v end = field k v end
insert_key k v (field j w fs) = if j == k then field j v fs else field j w (insert_key k v fs)

unfoldable pub remove_key : String → Fields → Fields
remove_key k end = end
remove_key k (field j w fs) = let rest = remove_key k fs in if j == k then rest else field j w rest

-- `Value::get(key)`: none unless the value is an object.
unfoldable pub get_field : Value → String → Option Value
get_field (obj fs) k = get_key k fs
get_field _ k = none

abbrev pub as_str : Value → Option String
as_str (str s) = some s
as_str _ = none

-- `params.as_ref().and_then(|p| p.get(key)).and_then(Value::as_str)`.
abbrev pub str_param : Option Value → String → Option String
str_param params k = and_then params (λ p. and_then (get_field p k) as_str)

unfoldable pub nth_item : ℕ → Items → Option Value
nth_item i nil = none
nth_item zero (item v vs) = some v
nth_item (suc i) (item v vs) = nth_item i vs

unfoldable pub count_items : Items → ℕ
count_items nil = 0
count_items (item v vs) = suc (count_items vs)

-- A number read as an `i64`.
abbrev pub number_as_i64 : Number → Option ℤ
number_as_i64 (pos_int n) = if leb n i64_max then some (pos n) else none
number_as_i64 (neg_int n) = if leb n i64_max then some (negsuc n) else none
number_as_i64 (float b) = none

abbrev pub i64_number : ℤ → Number
i64_number (pos n) = pos_int n
i64_number (negsuc n) = neg_int n

pub get_key-insert_key :
    (k j : String) (v : Value) (fs : Fields)
    → get_key j (insert_key k v fs) ≡ (if k == j then some v else get_key j fs)
unfolding get_key insert_key
get_key-insert_key k j v end = refl
get_key-insert_key k j v (field i w fs) = ground (
  arith,
  eq_text.alike_iff k j,
  eq_text.alike_iff i k,
  eq_text.alike_iff i j,
  get_key-insert_key k j v fs,
)

pub get_key-remove_key :
    (k j : String) (fs : Fields)
    → get_key j (remove_key k fs) ≡ (if k == j then none else get_key j fs)
unfolding get_key remove_key
get_key-remove_key k j end = ground arith
get_key-remove_key k j (field i w fs) = ground (
  arith,
  eq_text.alike_iff k j,
  eq_text.alike_iff i k,
  eq_text.alike_iff i j,
  get_key-remove_key k j fs,
)
