-- ===== src/Host.antt =====
-- What the program takes from outside its source: the reader and the printer of serde_json, the
-- clock, the disk, and UTF-8. A value of `Host` is a parameter of every operation that uses one of
-- them.
use acp_mux.Base.{ℕ, String, Bool, true, false, List, [], ◌∷◌, Option, none, some}
use acp_mux.Json.{Value}
use acp_mux.Jsonrpc.{Incoming, ParseError, json, Result, err, from_value}
use acp_mux.Jsonrpc.Write.{to_value}

abbrev pub Bytes : Type 0
Bytes = List ℕ

pub record Host : Type 0 where
  -- `serde_json::from_slice` and `serde_json::to_vec`.
  pub from_slice : Bytes → Option Value
  pub to_vec : Value → Option Bytes
  -- `utc_rfc3339_now()` as it reads when the frame with this sequence number is recorded.
  pub recorded_at : ℕ → String
  -- `utc_rfc3339_now()` as it reads when the segment with this number is opened.
  pub rotated_at : ℕ → String
  -- `serde_json::to_string`, and the passage between a text and its UTF-8.
  pub to_string : Value → Option String
  pub as_bytes : String → Bytes
  pub from_utf8 : Bytes → Option String
  -- Whether the append of the frame with this sequence number reaches the disk.
  pub append_succeeds : ℕ → Bool

abbrev pub is_empty : Bytes → Bool
is_empty [] = true
is_empty (b ∷ bs) = false

module _ (h : Host) where
  -- `Incoming::parse`.
  unfoldable pub parse : Bytes → Result ParseError Incoming
  parse bytes = elim (h.from_slice bytes) [ none ↦ err json | some v ↦ from_value v ]

  -- `to_vec().unwrap_or_else(|_| Vec::new())`.
  unfoldable pub to_vec_or_empty : Value → Bytes
  to_vec_or_empty v = elim (h.to_vec v) [ none ↦ [] | some bytes ↦ bytes ]

  -- `Incoming::to_vec`.
  unfoldable pub print : Incoming → Option Bytes
  print frame = h.to_vec (to_value frame)
