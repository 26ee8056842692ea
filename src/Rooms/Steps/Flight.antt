-- ===== src/Rooms/Steps/Flight.antt =====
-- A turn in flight, and the prompts that wait for its end.
use acp_mux.Rooms.Segments.{move_prompt}
use acp_mux.Base.{
  ◌≡◌, refl, ap, sym, ◌∙◌, String, Bool, true, List, [], ◌∷◌, map, is_some, ◌⊎◌, inl, inr, ◌++◌,
  arith,
}
use acp_mux.Json.{Value}
use acp_mux.Jsonrpc.{Incoming, request, notification, response, ok, err}
use acp_mux.Host.{Host, Bytes, parse}
use acp_mux.Core.{MuxCore}
use acp_mux.Core.Send.{send_to, submit_prompt}
use acp_mux.Extension.Ctx.{
  CtxStep, broadcasts, sends, sends_agent, submits, tags, wakes, CtxSteps, send_to_agent,
  push_frame, keep_steps,
}
use acp_mux.Mux.State.{broadcast_flight}
use acp_mux.Rooms.Queue.{Room, enqueue, queued_item, remove_item}
use acp_mux.Rooms.Steps.{
  RoomStep, acts, notes, queues, rolls, steers, pops, removes, rotates, RoomSteps, keep_room, Lists,
}
use acp_mux.Rooms.Steps.Rotation.{rotated}
use acp_mux.Rooms.Steps.Keeps.{step-CtxSteps}

-- A prompt is in flight.
abbrev pub IsFlying : MuxCore → Type 0
IsFlying c = is_some c.prompt_in_flight ≡ true

push_flight :
    (bytes : Bytes) (f : Incoming) (c : MuxCore)
    → (push_frame bytes f c).prompt_in_flight ≡ c.prompt_in_flight
unfolding push_frame
push_flight bytes (request r) c = refl
push_flight bytes (notification n) c = refl
push_flight bytes (response r) c = refl

send_to_agent_flight :
    (h : Host) (bytes : Bytes) (c : MuxCore)
    → (send_to_agent h bytes c).prompt_in_flight ≡ c.prompt_in_flight
unfolding send_to_agent
send_to_agent_flight h bytes c =
    elim (parse h bytes)
      as (λ r.
        (elim r as (λ _. MuxCore) [ err e ↦ c | ok f ↦ push_frame bytes f c ]).prompt_in_flight
        ≡ c.prompt_in_flight) [ err e ↦ refl | ok f ↦ push_flight bytes f c ]

-- While a prompt is in flight no other is submitted.
submit_flight :
    (h : Host) (p : String) (v : Value) (d : Bool) (c : MuxCore)
    → IsFlying c
    → (submit_prompt h p v d c).0 ≡ c
unfolding submit_prompt
submit_flight h p v d c f = rw f refl

-- An extension never ends the turn in flight.
step-IsFlying : {h : Host} (c d : MuxCore) → CtxStep h c d → IsFlying c → IsFlying d
unfolding send_to
step-IsFlying {h} c d (broadcasts b e) f = rw (e, broadcast_flight h b c) f
step-IsFlying c d (sends p b e) f = rw e f
step-IsFlying {h} c d (sends_agent b e) f = rw (e, send_to_agent_flight h b c) f
step-IsFlying {h} c d (submits p v b e) f = rw (e, submit_flight h p v b c f) f
step-IsFlying c d (tags t e) f = rw e f
step-IsFlying c d (wakes t p e) f = rw e f

pub CtxSteps-IsFlying : {h : Host} {c d : MuxCore} → CtxSteps h c d → IsFlying c → IsFlying d
CtxSteps-IsFlying {h} steps = keep_steps IsFlying step-IsFlying steps

-- A prompt waits only while another one is in flight.
abbrev pub IsBusy : Room → Type 0
IsBusy m = IsFlying m.core ⊎ (m.ext.queued_prompts ≡ [])

abbrev tail_of {ℓ} : {A : Type ℓ} → List A → List A
tail_of [] = []
tail_of (x ∷ xs) = xs

pub step-IsBusy : {h : Host} (m n : Room) → RoomStep h m n → IsBusy m → IsBusy n
unfolding enqueue remove_item
step-IsBusy m n s (inl f) = inl (CtxSteps-IsFlying (step-CtxSteps m n s) f)
step-IsBusy m n (acts s e) (inr q) = inr (rw e q)
step-IsBusy m n (notes e c) (inr q) = inr (ap (λ (l : Lists). l.queued_prompts) e ∙ q)
step-IsBusy m n (queues p control left busy e) (inr q) = inl (rw e busy)
step-IsBusy {h} m n (rolls p control first ps left idle f e) (inr q) =
    inr (rw e (sym (ap tail_of (ap (λ qs. qs ++ queued_item h p control m ∷ []) (sym q) ∙ f))))
step-IsBusy m n (steers p turn k w busy e) (inr q) = inl (rw e busy)
step-IsBusy m n (pops p ps f e) (inr q) = absurd (ground arith)
step-IsBusy m n (removes id e) (inr q) = inr (rw (e, q) refl)
step-IsBusy {h} m n (rotates now session reason e) (inr q) =
    elim (rotated h now session reason m).0 [
      | inl same ↦ inr (rw e (same ∙ q))
      | inr moved ↦ inr (rw e (moved ∙ ap (map (move_prompt session)) q))
    ]

pub RoomSteps-IsBusy : {h : Host} {m n : Room} → RoomSteps h m n → IsBusy m → IsBusy n
RoomSteps-IsBusy steps = keep_room IsBusy step-IsBusy steps
