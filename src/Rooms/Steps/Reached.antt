-- ===== src/Rooms/Steps/Reached.antt =====
-- What the steps of a room keep holds in every state that the actor of a room reaches.
use acp_mux.Rooms.Steps.OfHooks.{
  subscriber_request-RoomSteps, prompt_settled-RoomSteps, translating-RoomSteps,
  forwarded-RoomSteps, notification-RoomSteps, canonical-RoomSteps, attached-RoomSteps,
  detached-RoomSteps, attach-RoomSteps, wake-RoomSteps,
}
use acp_mux.Base.{
  ℕ, ◌≤◌, ◌≡◌, refl, ap, subst, true, is_some, ◌⊎◌, inl, inr, Bool-cases, ltb, arith, u64_max,
}
use acp_mux.Jsonrpc.{IncomingResponse}
use acp_mux.Host.{Host}
use acp_mux.Core.{MuxCore}
use acp_mux.Mux.State.{KeepsState}
use acp_mux.Rooms.{RoomsExtension}
use acp_mux.Rooms.Queue.{Room, enqueue}
use acp_mux.Rooms.Segments.Lineage.{IsSegmented, rotate_segment-IsSegmented}
use acp_mux.Rooms.Hooks.{
  rooms, on_prompt_settled, on_agent_request, on_agent_response, on_agent_request_resolved,
  on_subscriber_attaching, replay_frame,
}
use acp_mux.Rooms.Steps.{
  RoomStep, acts, notes, queues, rolls, steers, pops, removes, rotates, keep_room, by_say, Lists,
}
use acp_mux.Rooms.Steps.Queued.{
  IsBounded, queue-IsBounded, steer-IsBounded, pop-IsBounded, remove-IsBounded, move-IsBounded,
}
use acp_mux.Rooms.Steps.Rotation.{rotated}

-- A property that every step keeps, and what is left of it in the gap at the end of a turn.
pub rooms-KeepsState :
    (h : Host) (W P : Room → Type 0)
    → ((m n : Room) → RoomStep h m n → W m → W n)
    → ((m n : Room) → RoomStep h m n → P m → P n)
    → ((m : Room) (d : MuxCore)
        → d.prompt_in_flight ≡ m.core.prompt_in_flight
        → P m
        → P (record m { core = d }))
    → ((m : Room) (d : MuxCore)
        → is_some d.prompt_in_flight ≡ true
        → P m
        → P (record m { core = d }))
    → ((m : Room) (d : MuxCore) → P m → W (record m { core = d }))
    → ((m : Room) (d : MuxCore) → W m → W (record m { core = d }))
    → ((m : Room) (n : ℕ) (r : IncomingResponse) → W m → P (on_prompt_settled h m n r))
    → KeepsState (rooms h) W P
unfolding on_agent_request on_agent_response on_agent_request_resolved on_subscriber_attaching
    replay_frame
rooms-KeepsState h W P lapsed kept aside begins lapses drifts settled = record {
  aside = aside;
  begins = begins;
  lapses = lapses;
  drifts = drifts;
  lapsed_resolved = λ m i b r. keep_room W lapsed (by_say _ m);
  settled = settled;
  subscriber_request = λ m p r. keep_room P kept (subscriber_request-RoomSteps m p r);
  request_translating = λ m p n r. keep_room P kept (translating-RoomSteps m p n r);
  request_forwarded = λ m p n r. keep_room P kept (forwarded-RoomSteps m p n r);
  subscriber_notification = λ m p n. keep_room P kept (notification-RoomSteps m p n);
  agent_notification = λ m n p. p;
  agent_request = λ m i r. keep_room P kept (by_say _ m);
  agent_response = λ m n r p. p;
  agent_request_resolved = λ m i b r. keep_room P kept (by_say _ m);
  canonical_session_id =
      λ m old s via_load. keep_room P kept (canonical-RoomSteps m old s via_load);
  subscriber_attaching = λ m s. keep_room P kept (by_say _ m);
  subscriber_attached = λ m p. keep_room P kept (attached-RoomSteps m p);
  subscriber_detached = λ m p. keep_room P kept (detached-RoomSteps m p);
  attach = λ m p a r. keep_room P kept (attach-RoomSteps p a r m);
  replay = λ m e p. p;
  wake = λ m b. keep_room P kept (wake-RoomSteps b m);
}

-- A property of the extension's state alone.
pub ext-KeepsState :
    (h : Host) (Q : RoomsExtension → Type 0)
    → ((m n : Room) → RoomStep h m n → Q m.ext → Q n.ext)
    → KeepsState (rooms h) (λ m. Q m.ext) (λ m. Q m.ext)
ext-KeepsState h Q kept =
    rooms-KeepsState h (λ m. Q m.ext) (λ m. Q m.ext) kept kept (λ m d e p. p) (λ m d e p. p)
      (λ m d p. p) (λ m d p. p)
      (λ m n r. keep_room (λ (m : Room). Q m.ext) kept (prompt_settled-RoomSteps m n r))

pub step-IsBounded :
    {h : Host} (m n : Room)
    → RoomStep h m n
    → IsBounded m.ext.queued_prompts
    → IsBounded n.ext.queued_prompts
unfolding enqueue
step-IsBounded m n (acts s e) b = rw e b
step-IsBounded m n (notes e c) b = rw (ap (λ (l : Lists). l.queued_prompts) e) b
step-IsBounded m n (queues p control left busy e) b =
    rw e (queue-IsBounded m.ext.queued_prompts _ b refl refl left)
step-IsBounded m n (rolls p control q qs left idle f e) b = rw e (
    pop-IsBounded q qs
      (subst IsBounded f (queue-IsBounded m.ext.queued_prompts _ b refl refl left)))
step-IsBounded m n (steers p turn k w busy e) b =
    rw e (steer-IsBounded m.ext.queued_prompts p turn b k w)
step-IsBounded m n (pops p ps f e) b = rw e (pop-IsBounded p ps (subst IsBounded f b))
step-IsBounded m n (removes id e) b = rw e (remove-IsBounded id m.ext.queued_prompts b)
step-IsBounded {h} m n (rotates now session reason e) b = elim (rotated h now session reason m).0 [
  | inl same ↦ rw (e, same) b
  | inr moved ↦ rw (e, moved) (move-IsBounded session m.ext.queued_prompts b)
]

-- Numbered without gaps, or all the numbers of 64 bits are used up.
abbrev pub IsNumbered : RoomsExtension → Type 0
IsNumbered r = IsSegmented r ⊎ (u64_max ≤ r.next_segment_id)

-- The part of the state that a step other than a rotation leaves as it is.
same-IsNumbered :
    (r s : RoomsExtension)
    → s.segments ≡ r.segments
    → s.active_segment_id ≡ r.active_segment_id
    → s.next_segment_id ≡ r.next_segment_id
    → IsNumbered r
    → IsNumbered s
same-IsNumbered r s e f g n = rw (e, f, g) n

pub step-IsNumbered : {h : Host} (m n : Room) → RoomStep h m n → IsNumbered m.ext → IsNumbered n.ext
unfolding enqueue
step-IsNumbered m n (acts s e) b = rw e b
step-IsNumbered m n (notes e c) b =
    same-IsNumbered m.ext n.ext (ap (λ (l : Lists). l.segments) e)
      (ap (λ (l : Lists). l.active_segment_id) e) (ap (λ (l : Lists). l.next_segment_id) e) b
step-IsNumbered m n (queues p control left busy e) b = rw e b
step-IsNumbered m n (rolls p control q qs left idle f e) b = rw e b
step-IsNumbered m n (steers p turn k w busy e) b = rw e b
step-IsNumbered m n (pops p ps f e) b = rw e b
step-IsNumbered m n (removes id e) b = rw e b
step-IsNumbered {h} m n (rotates now session reason e) b =
    let next = (rotated h now session reason m).1 in
    elim (Bool-cases (ltb m.ext.next_segment_id u64_max)) [
      | inr full ↦ inr (rw (e, next, full) (omega arith))
      | inl room ↦ elim b [
        | inl s ↦ inl (rw e (rotate_segment-IsSegmented h now session reason m s (ground arith)))
        | inr used ↦ absurd (ground arith)
      ]
    ]
