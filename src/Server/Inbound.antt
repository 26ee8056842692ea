-- ===== src/Server/Inbound.antt =====
-- crates/acp-mux/src/server.rs: what a connection hands on to the actor of its mux.
use acp_mux.Base.{
  ℕ, zero, suc, ◌≡◌, ◌≢◌, refl, ap, ◌∙◌, String, List, [], ◌∷◌, ◌++◌, Option, none, some,
  if◌then◌else◌, ◌==◌, eq_nat, arith, map, filter_map,
}
use mathlib.Core.List.{append_assoc}
use acp_mux.Host.{Host, Bytes}
use acp_mux.Jsonrpc.{Result, ok}
use acp_mux.Core.{Subscriber}
use acp_mux.Mux.Run.{MuxMsg, inbound_from_subscriber, detaches, take}
use acp_mux.Registry.{MuxHandle, RegistryError}
use acp_mux.Server.{
  AttachQuery, ValidatedAttach, served, handle_attach, subscriber_of, serve, ws_in_task, WsMessage,
  text, binary, closes, pings, pongs, fails, strip_trailing_newline, pop_byte,
}
use acp_mux.Server.Queries.{Asks, validate_iff}

-- The messages before the client closes the socket or it fails.
abbrev pub open_part : List WsMessage → List WsMessage
open_part [] = []
open_part (closes ∷ ms) = []
open_part (fails ∷ ms) = []
open_part (m ∷ ms) = m ∷ open_part ms

abbrev pub payload : WsMessage → Option Bytes
payload (text b) = some b
payload (binary b) = some b
payload _ = none

abbrev pub inbound : String → Bytes → MuxMsg
inbound peer b = inbound_from_subscriber peer (strip_trailing_newline b)

ws_in_task-payloads :
    (peer : String) (n : ℕ) (ms : List WsMessage)
    → ws_in_task peer n ms ≡ map (inbound peer) (take n (filter_map payload (open_part ms)))
unfolding ws_in_task
ws_in_task-payloads peer zero [] = refl
ws_in_task-payloads peer (suc n) [] = refl
ws_in_task-payloads peer zero (text b ∷ ms) = refl
ws_in_task-payloads peer (suc n) (text b ∷ ms) =
    ap (λ l. inbound peer b ∷ l) (ws_in_task-payloads peer n ms)
ws_in_task-payloads peer zero (binary b ∷ ms) = refl
ws_in_task-payloads peer (suc n) (binary b ∷ ms) =
    ap (λ l. inbound peer b ∷ l) (ws_in_task-payloads peer n ms)
ws_in_task-payloads peer zero (closes ∷ ms) = refl
ws_in_task-payloads peer (suc n) (closes ∷ ms) = refl
ws_in_task-payloads peer zero (fails ∷ ms) = refl
ws_in_task-payloads peer (suc n) (fails ∷ ms) = refl
ws_in_task-payloads peer zero (pings ∷ ms) = ws_in_task-payloads peer zero ms
ws_in_task-payloads peer (suc n) (pings ∷ ms) = ws_in_task-payloads peer (suc n) ms
ws_in_task-payloads peer zero (pongs ∷ ms) = ws_in_task-payloads peer zero ms
ws_in_task-payloads peer (suc n) (pongs ∷ ms) = ws_in_task-payloads peer (suc n) ms

take-map :
    {A : Type 0} {B : Type 0}
    → (f : A → B) (d : B) (n : ℕ) (xs : List A)
    → take n (map f (take n xs) ++ d ∷ []) ≡ take n (map f xs ++ d ∷ [])
unfolding take
take-map f d zero xs = refl
take-map f d (suc n) [] = refl
take-map f d (suc n) (x ∷ xs) = ap (λ l. f x ∷ l) (take-map f d n xs)

-- A query that asks for `v`, and is given an actor: the actor is sent the text and binary messages of the
-- client, in order and each without its line end, up to the first close or error, and then that the peer
-- has left; all of it as far as its channel takes messages.
pub handle_attach-served :
    (h : Host) (attach : String → Subscriber → Result RegistryError MuxHandle) (accepted : ℕ)
    (ms : List WsMessage) (q : AttachQuery) (v : ValidatedAttach) (handle : MuxHandle)
    → Asks h q v
    → attach v.mux (subscriber_of v) ≡ ok handle
    → handle_attach h attach accepted ms q
      ≡ served handle (
          take accepted (
            map (inbound v.peer_id) (filter_map payload (open_part ms)) ++ detaches v.peer_id ∷ []))
unfolding handle_attach
handle_attach-served h attach accepted ms q v handle k given =
    rw ((validate_iff h q v).1 k, handle_attach)
      (rw (given, serve)
        (ap (served handle) (
          ap (λ l. take accepted (l ++ detaches v.peer_id ∷ []))
            (ws_in_task-payloads v.peer_id accepted ms)
          ∙ take-map (inbound v.peer_id) (detaches v.peer_id) accepted
              (filter_map payload (open_part ms)))))

pop_byte-append :
    (b c : ℕ) (bs : Bytes) → pop_byte b (bs ++ c ∷ []) ≡ (if c == b then some bs else none)
unfolding pop_byte
pop_byte-append b c [] = refl
pop_byte-append b c (x ∷ []) = ground arith
pop_byte-append b c (x ∷ y ∷ bs) = ground (arith, pop_byte-append b c (y ∷ bs))

-- A text that ends in a line feed loses it, and a carriage return before it; any other stays.
pub strip-line :
    (bs : Bytes) (c d : ℕ)
    → (strip_trailing_newline (bs ++ d ∷ b'\n' ∷ []) ≡ (if d == b'\r' then bs else bs ++ d ∷ []))
      × (c ≢ b'\n' → strip_trailing_newline (bs ++ c ∷ []) ≡ bs ++ c ∷ [])
unfolding strip_trailing_newline
strip-line bs c d = (
  ground (
    arith,
    append_assoc bs (d ∷ []) (b'\n' ∷ []),
    pop_byte-append b'\n' b'\n' (bs ++ d ∷ []),
    pop_byte-append b'\r' d bs,
  ),
  λ n. ground (arith, pop_byte-append b'\n' c bs),
)

-- So a line that does not end in a carriage return loses its line feed alone.
pub strip-framed :
    (bs : Bytes) → pop_byte b'\r' bs ≡ none → strip_trailing_newline (bs ++ b'\n' ∷ []) ≡ bs
unfolding strip_trailing_newline
strip-framed bs whole = ground (arith, pop_byte-append b'\n' b'\n' bs, whole)
