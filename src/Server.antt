-- ===== src/Server.antt =====
-- crates/acp-mux/src/server.rs: the reading of an attach query, and a connection from its upgrade to its
-- end. Accepting sockets and writing HTTP belong to axum.
pub mod Queries
pub mod Inbound
pub mod Pages
use acp_mux.Base.{
  ℕ, zero, suc, String, Bool, true, false, not, ◌&&◌, ◌||◌, List, [], ◌∷◌, ◌++◌, Option, none, some,
  if◌then◌else◌, leb, length, ◌==◌, eq_nat, eq_text,
}
use acp_mux.Host.{Host, Bytes, is_empty}
use acp_mux.Jsonrpc.{Result, ok, err}
use acp_mux.Core.{Subscriber, Outbound, OutMsg, frame, close}
use acp_mux.Mux.Run.{MuxMsg, inbound_from_subscriber, detaches, take}
use acp_mux.Registry.{
  MuxHandle, RegistryError, agent_cmd_missing, peer_id_in_use, agent_spawn, actor_unreachable,
}

abbrev pub mux_id_max_len : ℕ
mux_id_max_len = 128

abbrev pub close_code_bad_query : ℕ
close_code_bad_query = 4400

abbrev pub close_code_peer_conflict : ℕ
close_code_peer_conflict = 4409

abbrev pub close_code_internal : ℕ
close_code_internal = 1011

pub record AttachQuery : Type 0 where
  pub mux : Option String
  pub peer_id : Option String
  pub peer_name : Option String
  pub role : Option String
  pub replay : Option String

pub record ValidatedAttach : Type 0 where
  pub mux : String
  pub peer_id : String
  pub peer_name : Option String
  pub role : Option String
  pub skip_legacy_replay : Bool

-- `u8::is_ascii_alphanumeric`, an underscore or a dash.
abbrev pub is_id_byte : ℕ → Bool
is_id_byte b =
    (leb b'0' b && leb b b'9')
    || (leb b'A' b && leb b b'Z')
    || (leb b'a' b && leb b b'z')
    || b == b'_'
    || b == b'-'

abbrev pub all : (ℕ → Bool) → Bytes → Bool
all p [] = true
all p (b ∷ bs) = p b && all p bs

infixl 5 ◌>>=◌ ◌>>◌
abbrev pub ◌>>=◌ {ℓ κ} :
    {A : Type ℓ} {B : Type κ} → Result String A → (A → Result String B) → Result String B
ok a >>= f = f a
err e >>= f = err e

abbrev pub ◌>>◌ {ℓ} : {B : Type ℓ} → Result String (Unit {0}) → Result String B → Result String B
m >> k = m >>= λ u. k

abbrev pub ok_or {ℓ} : {A : Type ℓ} → Option A → String → Result String A
ok_or none reason = err reason
ok_or (some a) reason = ok a

abbrev pub check : Bool → String → Result String (Unit {0})
check true reason = ok tt
check false reason = err reason

abbrev pub skip_of : Option String → Result String Bool
skip_of none = ok false
skip_of (some s) = if s == "skip" then ok true else err "invalid ?replay (expected 'skip')"

-- `Vec::pop`, if the last byte is `b`.
unfoldable pub pop_byte : ℕ → Bytes → Option Bytes
pop_byte b [] = none
pop_byte b (c ∷ []) = if c == b then some [] else none
pop_byte b (c ∷ d ∷ cs) = elim (pop_byte b (d ∷ cs)) [ none ↦ none | some front ↦ some (c ∷ front) ]

unfoldable pub strip_trailing_newline : Bytes → Bytes
unfolding pop_byte
strip_trailing_newline bytes = elim (pop_byte b'\n' bytes) [
  | none ↦ bytes
  | some line ↦ elim (pop_byte b'\r' line) [ none ↦ line | some front ↦ front ]
]

-- A message of the client, or an error of the socket.
pub data WsMessage : Type 0 where
  text binary : Bytes → WsMessage
  closes pings pongs fails : WsMessage

-- What is written to the socket.
pub data WsOut : Type 0 where
  sends_text : Bytes → WsOut
  sends_close : ℕ → String → WsOut
  closes_socket : WsOut

-- `ws_in_task`: what reaches the mux. `accepted` is how many more messages the actor's channel takes.
unfoldable pub ws_in_task : String → ℕ → List WsMessage → List MuxMsg
ws_in_task peer accepted [] = []
ws_in_task peer zero (text b ∷ ms) = []
ws_in_task peer (suc n) (text b ∷ ms) =
    inbound_from_subscriber peer (strip_trailing_newline b) ∷ ws_in_task peer n ms
ws_in_task peer zero (binary b ∷ ms) = []
ws_in_task peer (suc n) (binary b ∷ ms) =
    inbound_from_subscriber peer (strip_trailing_newline b) ∷ ws_in_task peer n ms
ws_in_task peer accepted (closes ∷ ms) = []
ws_in_task peer accepted (fails ∷ ms) = []
ws_in_task peer accepted (pings ∷ ms) = ws_in_task peer accepted ms
ws_in_task peer accepted (pongs ∷ ms) = ws_in_task peer accepted ms

-- The answer that closes a connection whose attach was refused.
abbrev pub refusal : RegistryError → ℕ × String
refusal peer_id_in_use = (close_code_peer_conflict, "peer_id already attached to this mux")
refusal agent_cmd_missing = (close_code_internal, "server has no --agent-cmd configured")
refusal agent_spawn = (close_code_internal, "agent spawn failed")
refusal actor_unreachable = (close_code_internal, "mux unreachable")

-- A connection: closed with a code and a reason, or served until one of its tasks ends. Then it has sent
-- these messages to the actor of this handle.
pub data Connection : Type 0 where
  closed_with : ℕ → String → Connection
  served : MuxHandle → List MuxMsg → Connection

abbrev pub closed_by : ℕ × String → Connection
closed_by (code, reason) = closed_with code reason

abbrev pub subscriber_of : ValidatedAttach → Subscriber
subscriber_of v = record {
  peer_id = v.peer_id;
  peer_name = v.peer_name;
  role = v.role;
  suppress_legacy_replay = v.skip_legacy_replay;
  outbound = record { closed = false; sent = [] };
}

module _ (h : Host) where
  unfoldable pub is_valid_mux_id : String → Bool
  is_valid_mux_id s =
      not (is_empty (h.as_bytes s))
      && leb (length (h.as_bytes s)) mux_id_max_len
      && all is_id_byte (h.as_bytes s)

  unfoldable pub validate : AttachQuery → Result String ValidatedAttach
  unfolding is_valid_mux_id
  validate q = do
    mux ← ok_or q.mux "missing ?mux"
    check (is_valid_mux_id mux) "invalid ?mux (expect ^[A-Za-z0-9_-]{1,128}$)"
    peer_id ← ok_or q.peer_id "missing ?peer_id"
    check (not (is_empty (h.as_bytes peer_id))) "empty ?peer_id"
    skip ← skip_of q.replay
    ok (record {
      mux = mux;
      peer_id = peer_id;
      peer_name = q.peer_name;
      role = q.role;
      skip_legacy_replay = skip;
    })

  -- `ws_out_task`: what the socket is written. `accepted` is how many more frames the socket takes.
  unfoldable pub ws_out_task : ℕ → List OutMsg → List WsOut
  ws_out_task accepted [] = closes_socket ∷ []
  ws_out_task accepted (close code reason ∷ ms) = sends_close code reason ∷ []
  ws_out_task zero (frame b ∷ ms) =
      let rest = ws_out_task zero ms in elim (h.from_utf8 b) [ none ↦ rest | some t ↦ [] ]
  ws_out_task (suc n) (frame b ∷ ms) =
      let skipped = ws_out_task (suc n) ms in
      let rest = ws_out_task n ms in
      elim (h.from_utf8 b) [ none ↦ skipped | some t ↦ sends_text b ∷ rest ]

  abbrev pub serve : String → ℕ → List WsMessage → Result RegistryError MuxHandle → Connection
  serve peer accepted ms (err e) = closed_by (refusal e)
  serve peer accepted ms (ok handle) =
      served handle (take accepted (ws_in_task peer accepted ms ++ detaches peer ∷ []))

  -- `handle_attach`, with the answer of the registry's attach as an argument; `ms` are the messages that
  -- arrive until one of the two tasks ends.
  unfoldable pub handle_attach :
      (String → Subscriber → Result RegistryError MuxHandle)
      → ℕ
      → List WsMessage
      → AttachQuery
      → Connection
  handle_attach attach accepted ms q = elim (validate q) [
    | err reason ↦ closed_with close_code_bad_query reason
    | ok v ↦ serve v.peer_id accepted ms (attach v.mux (subscriber_of v))
  ]
