-- ===== src/Rooms/Steps.antt =====
-- The Rooms server as a transition system: every change that a hook makes to the room. The children
-- show that the hooks make no other change, and what follows from it.
pub mod OfQueue
pub mod OfHooks
pub mod Keeps
pub mod Queued
pub mod Rotation
pub mod Flight
pub mod Reached
use acp_mux.Base.{ℕ, ◌≡◌, refl, String, false, List, ◌∷◌, Option, leb, is_some, true}
use acp_mux.Host.{Host, Bytes}
use acp_mux.Core.{MuxCore}
use acp_mux.Core.Send.{broadcast, send_to}
use acp_mux.Extension.{Mux, over_core}
use acp_mux.Extension.Ctx.{
  CtxStep, broadcasts, sends, sends_agent, wakes, send_to_agent, schedule_wake,
}
use acp_mux.Rooms.{
  RoomsExtension, QueuedPrompt, QueuedPromptKind, hard_steer, Segment, EndReason,
  max_mux_queue_prompts,
}
use acp_mux.Rooms.Control.{ActiveControlParams}
use acp_mux.Rooms.Queue.{
  Room, set_queue, enqueue, remove_item, pending_queue_prompt_count, has_pending_hard_steer,
}
use acp_mux.Rooms.Steer.{push_front}
use acp_mux.Rooms.Segments.{rotate_segment}

-- The lists of a room and their counters.
pub record Lists : Type 0 where
  pub queued_prompts : List QueuedPrompt
  pub next_queue_item_id : ℕ
  pub segments : List Segment
  pub active_segment_id : Option ℕ
  pub next_segment_id : ℕ

abbrev pub lists : RoomsExtension → Lists
lists r = record {
  queued_prompts = r.queued_prompts;
  next_queue_item_id = r.next_queue_item_id;
  segments = r.segments;
  active_segment_id = r.active_segment_id;
  next_segment_id = r.next_segment_id;
}

pub data RoomStep (h : Host) (m n : Room) : Type 0 where
  acts : {d : MuxCore} → CtxStep h m.core d → n ≡ record m { core = d } → RoomStep h m n
  notes : lists n.ext ≡ lists m.ext → n.core ≡ m.core → RoomStep h m n
  -- A prompt waits only for a turn in flight; with none in flight the first one leaves the queue.
  queues :
      (peer : String) (control : ActiveControlParams)
      → leb max_mux_queue_prompts (pending_queue_prompt_count m.ext.queued_prompts) ≡ false
      → is_some m.core.prompt_in_flight ≡ true
      → n ≡ enqueue h peer control m
      → RoomStep h m n
  rolls :
      (peer : String) (control : ActiveControlParams) (p : QueuedPrompt) (ps : List QueuedPrompt)
      → leb max_mux_queue_prompts (pending_queue_prompt_count m.ext.queued_prompts) ≡ false
      → is_some m.core.prompt_in_flight ≡ false
      → (enqueue h peer control m).ext.queued_prompts ≡ p ∷ ps
      → n ≡ set_queue ps (enqueue h peer control m)
      → RoomStep h m n
  steers :
      (p : QueuedPrompt) (turn : ℕ)
      → p.kind ≡ hard_steer turn
      → has_pending_hard_steer m.ext.queued_prompts ≡ false
      → is_some m.core.prompt_in_flight ≡ true
      → n ≡ push_front p m
      → RoomStep h m n
  pops :
      (p : QueuedPrompt) (ps : List QueuedPrompt)
      → m.ext.queued_prompts ≡ p ∷ ps
      → n ≡ set_queue ps m
      → RoomStep h m n
  removes : (id : String) → n ≡ set_queue (remove_item id m.ext.queued_prompts) m → RoomStep h m n
  rotates :
      (now : String) (session : Option String) (reason : EndReason)
      → n ≡ rotate_segment h now session reason m
      → RoomStep h m n

pub data RoomSteps (h : Host) (m : Room) : Room → Type 0 where
  here : RoomSteps h m m
  next : {n o : Room} → RoomSteps h m n → RoomStep h n o → RoomSteps h m o

pub trans : {h : Host} {l m n : Room} → RoomSteps h l m → RoomSteps h m n → RoomSteps h l n
trans p here = p
trans p (next q s) = next (trans p q) s

pub one : {h : Host} {m n : Room} → RoomStep h m n → RoomSteps h m n
one s = next here s

pub by_notes :
    {h : Host} {m : Room} (n : Room) → lists n.ext ≡ lists m.ext → n.core ≡ m.core → RoomSteps h m n
by_notes n e c = one (notes e c)

pub by_say : {h : Host} (bytes : Bytes) (m : Room) → RoomSteps h m (over_core (broadcast h bytes) m)
by_say bytes m = one (acts (broadcasts bytes refl) refl)

pub by_tell :
    {h : Host} (peer : String) (bytes : Bytes) (m : Room)
    → RoomSteps h m (over_core (send_to peer bytes) m)
by_tell peer bytes m = one (acts (sends peer bytes refl) refl)

pub by_ask :
    {h : Host} (bytes : Bytes) (m : Room) → RoomSteps h m (over_core (send_to_agent h bytes) m)
by_ask bytes m = one (acts (sends_agent bytes refl) refl)

pub by_wake :
    {h : Host} (delay : ℕ) (bytes : Bytes) (m : Room)
    → RoomSteps h m (over_core (schedule_wake delay bytes) m)
by_wake delay bytes m = one (acts (wakes delay bytes refl) refl)

-- Induction over the steps of a room.
pub keep_room {ℓ} :
    {h : Host} (P : Room → Type ℓ)
    → ((m n : Room) → RoomStep h m n → P m → P n)
    → {m n : Room} → RoomSteps h m n
    → P m
    → P n
keep_room P keep here p = p
keep_room P keep (next {n = n} {o = o} steps s) p = keep n o s (keep_room P keep steps p)
