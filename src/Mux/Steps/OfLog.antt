-- ===== src/Mux/Steps/OfLog.antt =====
-- Which steps of the core change the replay log, its numbering and its copy on disk: recording a
-- broadcast frame, and nothing else.
use acp_mux.Base.{
  ℕ, String, Bool, List, [], ◌∷◌, ◌++◌, Option, none, some, is_some, map_some, ◌==◌, eq_text,
  if_case, saturating_suc,
}
use acp_mux.Base.Map
use acp_mux.Json.{Value}
use acp_mux.Jsonrpc.{RequestId, eq_id, Incoming, request, notification, response, ok, err}
use acp_mux.Host.{Host, Bytes, parse}
use acp_mux.Core.{MuxCore, ReplayEntry, RoomReplayStore}
use acp_mux.Core.Send.{
  close_all_subscribers, fanout, record_frame, append_record, broadcast, send_to, submit_prompt,
  enqueue_prompt,
}
use acp_mux.Extension.Ctx.{
  CtxStep, broadcasts, sends, sends_agent, submits, tags, wakes, keep_steps, push_frame,
  send_to_agent,
}
use acp_mux.Mux.Session.{consume}
use acp_mux.Mux.Inbound.{enter_request}
use acp_mux.Mux.Agent.{open_request, note_permission, is_prompt_id}
use acp_mux.Mux.Steps.{
  CoreStep, extends, joins, leaves, pushes, consumes, asks, fans, switches, caches_initialize,
  caches_session, numbers, forwards, shuts, drains, closes,
}

pub record Transcript : Type 0 where
  pub log : Option (List ReplayEntry)
  pub store : Option RoomReplayStore
  pub next_seq : ℕ

abbrev pub transcript : MuxCore → Transcript
transcript c = record { log = c.replay_log; store = c.replay_store; next_seq = c.next_replay_seq }

-- The entry of a frame that is recorded under a tag.
abbrev pub entry_for : Host → ℕ → Bytes → ℕ → ReplayEntry
entry_for h tag bytes seq = record {
  frame = bytes;
  recorded_at = h.recorded_at seq;
  seq = seq;
  ext_tag = tag;
}

module _ {ℓ} (h : Host) (Q : Transcript → Type ℓ)
    (recorded : (l : List ReplayEntry) (s : Option RoomReplayStore) (n tag : ℕ) (bytes : Bytes)
      → Q (record { log = some l; store = s; next_seq = n })
      → Q (record {
        log = some (l ++ entry_for h tag bytes n ∷ []);
        store = map_some (append_record h n tag bytes) s;
        next_seq = saturating_suc n;
      })) where
  record_frame-keeps :
      (b : Bytes) (log : Option (List ReplayEntry)) (c : MuxCore)
      → Q (record { log = log; store = c.replay_store; next_seq = c.next_replay_seq })
      → Q (transcript c)
      → Q (transcript (record_frame h b log c))
  unfolding record_frame
  record_frame-keeps b none c q p = p
  record_frame-keeps b (some l) c q p = recorded l c.replay_store c.next_replay_seq c.replay_tag b q

  enqueue-keeps :
      (p : String) (d : Bool) (b : Bytes) (c : MuxCore)
      → Q (transcript c)
      → Q (transcript (enqueue_prompt h p d b c).0)
  unfolding enqueue_prompt
  enqueue-keeps p d [] c q = q
  enqueue-keeps p d (x ∷ b) c q = q

  submit-keeps :
      (p : String) (v : Value) (d : Bool) (c : MuxCore)
      → Q (transcript c)
      → Q (transcript (submit_prompt h p v d c).0)
  unfolding submit_prompt
  submit-keeps p v d c q =
      if_case (λ (r : MuxCore × Option ℕ). Q (transcript r.0)) (is_some c.prompt_in_flight) q
        (enqueue-keeps p d _ c q)

  push-keeps :
      (b : Bytes) (f : Incoming) (c : MuxCore)
      → Q (transcript c)
      → Q (transcript (push_frame b f c))
  unfolding push_frame
  push-keeps b (request r) c q = q
  push-keeps b (notification n) c q = q
  push-keeps b (response r) c q = q

  send_to_agent-keeps :
      (b : Bytes) (c : MuxCore) → Q (transcript c) → Q (transcript (send_to_agent h b c))
  unfolding send_to_agent
  send_to_agent-keeps b c q =
      elim (parse h b)
        as (λ r.
          Q (transcript (elim r as (λ _. MuxCore) [ err e ↦ c | ok f ↦ push_frame b f c ]))) [
            | err e ↦ q
            | ok f ↦ push-keeps b f c q
          ]

  keep_log_ctx : (c d : MuxCore) → CtxStep h c d → Q (transcript c) → Q (transcript d)
  unfolding send_to broadcast
  keep_log_ctx c d (broadcasts b e) q = rw e (record_frame-keeps b c.replay_log c q q)
  keep_log_ctx c d (sends p b e) q = rw e q
  keep_log_ctx c d (sends_agent b e) q = rw e (send_to_agent-keeps b c q)
  keep_log_ctx c d (submits p v b e) q = rw e (submit-keeps p v b c q)
  keep_log_ctx c d (tags t e) q = rw e q
  keep_log_ctx c d (wakes t p e) q = rw e q

  asks-keeps :
      (method : String) (id : RequestId) (line : Bytes) (c : MuxCore)
      → Q (transcript c)
      → Q (transcript (note_permission method id line (open_request id c)))
  unfolding note_permission open_request
  asks-keeps method id line c q =
      let before : Q (transcript (open_request id c)) =
        if_case (λ (d : MuxCore). Q (transcript d)) (is_some (Map.get id c.agent_pending)) q q in
      if_case (λ (d : MuxCore). Q (transcript d)) (method == "session/request_permission") before
        before

  pub keep_log : (c d : MuxCore) → CoreStep h c d → Q (transcript c) → Q (transcript d)
  unfolding fanout close_all_subscribers enter_request consume
  keep_log c d (extends s) q = keep_log_ctx c d s q
  keep_log c d (joins s e) q = rw e q
  keep_log c d (leaves p e) q = rw e q
  keep_log c d (pushes b e) q = rw e q
  keep_log c d (consumes j e) q = rw e q
  keep_log c d (asks method j line e) q = rw e (asks-keeps method j line c q)
  keep_log c d (fans l e) q = rw e q
  keep_log c d (switches s e) q = rw e q
  keep_log c d (caches_initialize v e) q = rw e q
  keep_log c d (caches_session v e) q = rw e q
  keep_log c d (numbers e) q = rw e q
  keep_log c d (forwards {b} entry p bytes steps e) q =
      rw e (keep_steps (λ (f : MuxCore). Q (transcript f)) keep_log_ctx steps q)
  keep_log c d (shuts code reason e) q = rw e q
  keep_log c d (drains e) q = rw e q
  keep_log c d (closes k e) q =
      rw e (if_case (λ (f : MuxCore). Q (transcript f)) (is_prompt_id c.prompt_in_flight k) q q)
