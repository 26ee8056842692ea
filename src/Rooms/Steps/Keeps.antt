-- ===== src/Rooms/Steps/Keeps.antt =====
-- The hooks of the Rooms extension as operations of `MuxCtx` on the core.
use acp_mux.Rooms.Steps.OfHooks.{
  subscriber_request-RoomSteps, translating-RoomSteps, forwarded-RoomSteps, notification-RoomSteps,
  prompt_settled-RoomSteps, canonical-RoomSteps, attached-RoomSteps, detached-RoomSteps,
  attach-RoomSteps, wake-RoomSteps,
}
use acp_mux.Base.{refl, String, Option, none, some, ℕ, if_case}
use acp_mux.Host.{Host, Bytes}
use acp_mux.Core.{MuxCore}
use acp_mux.Extension.{KeepsToCtx}
use acp_mux.Extension.Ctx.{broadcasts, tags, CtxSteps, stay, also, set_replay_tag}
use acp_mux.Rooms.{EndReason}
use acp_mux.Rooms.Queue.{Room, enqueue}
use acp_mux.Rooms.Segments.{
  announce, add_segment, close_segment, rotate_from, rotate_segment, take_segment_id,
}
use acp_mux.Rooms.Hooks.{
  rooms, on_agent_request, on_agent_response, on_agent_request_resolved, on_subscriber_attaching,
  replay_frame,
}
use acp_mux.Rooms.Steps.{
  RoomStep, acts, notes, queues, steers, pops, removes, rotates, RoomSteps, here, next, by_say,
  rolls,
}

chain : {h : Host} {b c d : MuxCore} → CtxSteps h b c → CtxSteps h c d → CtxSteps h b d
chain p stay = p
chain p (also q s) = also (chain p q) s

module _ {h : Host} where
  announce-CtxSteps : (bytes : Bytes) (m : Room) → CtxSteps h m.core (announce h bytes m).core
  announce-CtxSteps bytes m =
      if_case (λ (r : Room). CtxSteps h m.core r.core) m.ext.options.emit_segment_frames
        (also stay (broadcasts bytes refl)) stay

  tagged-CtxSteps : (tag : ℕ) (c : MuxCore) → CtxSteps h c (set_replay_tag tag c)
  tagged-CtxSteps tag c = also stay (tags tag refl)

  add-CtxSteps :
      (now : String) (session : Option String) (id : ℕ) (m : Room)
      → CtxSteps h m.core (add_segment h now session id m).core
  unfolding add_segment
  add-CtxSteps now session id m = chain (tagged-CtxSteps id m.core) (announce-CtxSteps _ _)

  from-CtxSteps :
      (now : String) (session : Option String) (reason : EndReason) (id : ℕ) (active : Option ℕ)
      (m : Room)
      → CtxSteps h m.core (rotate_from h now session reason id active m).core
  unfolding rotate_from close_segment
  from-CtxSteps now session reason id none m = add-CtxSteps now session id m
  from-CtxSteps now session reason id (some current) m =
      chain (chain (tagged-CtxSteps current m.core) (announce-CtxSteps _ _))
        (add-CtxSteps now session id (close_segment h now session reason current id m))

  pub step-CtxSteps : (m n : Room) → RoomStep h m n → CtxSteps h m.core n.core
  unfolding enqueue rotate_segment
  step-CtxSteps m n (acts s e) = rw e (also stay s)
  step-CtxSteps m n (notes e c) = rw c stay
  step-CtxSteps m n (queues p control left busy e) = rw e stay
  step-CtxSteps m n (rolls p control q qs left idle f e) = rw e stay
  step-CtxSteps m n (steers p turn k w busy e) = rw e stay
  step-CtxSteps m n (pops p ps q e) = rw e stay
  step-CtxSteps m n (removes id e) = rw e stay
  step-CtxSteps m n (rotates now session reason e) = rw e (
      from-CtxSteps now session reason m.ext.next_segment_id m.ext.active_segment_id
        (take_segment_id h m))

  pub of_room : {m n : Room} → RoomSteps h m n → CtxSteps h m.core n.core
  of_room here = stay
  of_room (next steps s) = chain (of_room steps) (step-CtxSteps _ _ s)

-- Every hook of the Rooms server keeps to the operations that the mux gives its extension.
pub rooms-KeepsToCtx : (h : Host) → KeepsToCtx h (rooms h)
unfolding on_agent_request on_agent_response on_agent_request_resolved on_subscriber_attaching
    replay_frame
rooms-KeepsToCtx h = record {
  subscriber_request = λ m p r. of_room (subscriber_request-RoomSteps m p r);
  request_translating = λ m p n r. of_room (translating-RoomSteps m p n r);
  request_forwarded = λ m p n r. of_room (forwarded-RoomSteps m p n r);
  subscriber_notification = λ m p n. of_room (notification-RoomSteps m p n);
  agent_notification = λ m n. stay;
  agent_request = λ m i r. of_room (by_say _ m);
  agent_response = λ m n r. stay;
  prompt_settled = λ m n r. of_room (prompt_settled-RoomSteps m n r);
  agent_request_resolved = λ m i b r. of_room (by_say _ m);
  canonical_session_id = λ m old s via_load. of_room (canonical-RoomSteps m old s via_load);
  subscriber_attaching = λ m s. of_room (by_say _ m);
  subscriber_attached = λ m p. of_room (attached-RoomSteps m p);
  subscriber_detached = λ m p. of_room (detached-RoomSteps m p);
  attach = λ m p a r. of_room (attach-RoomSteps p a r m);
  replay = λ m e. stay;
  wake = λ m b. of_room (wake-RoomSteps b m);
}
