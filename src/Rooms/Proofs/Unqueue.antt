-- ===== src/Rooms/Proofs/Unqueue.antt =====
-- The removal of a prompt that waits.
use acp_mux.Text.{trim}
use acp_mux.Json.{Fields, obj, get_key, str}
use acp_mux.Rooms.Turns.{say}
use acp_mux.Core.Send.{send_result_response}
use acp_mux.Base.{
  ◌≡◌, refl, ap, ◌∙◌, String, Bool, true, false, List, [], ◌∷◌, ◌++◌, Option, none, some, ◌⊎◌, inl,
  inr, Bool-cases, eq_text, ◌==◌, ◌≢◌, any, ◌↔◌, All, arith, subst, if◌then◌else◌, not,
}
use acp_mux.Jsonrpc.{IncomingRequest, ok}
use acp_mux.Host.{Host}
use acp_mux.Rooms.{QueuedPrompt, queue_item_not_found_code}
use acp_mux.Rooms.Refusal.{◌>>◌, refuse_if}
use acp_mux.Rooms.Queue.{
  Room, has_id, remove_item, check_unqueue, handle_rooms_unqueue_prompt_request, set_queue,
}
use acp_mux.Rooms.Frames.{queue_item_removed}
use acp_mux.Rooms.Proofs.Refused.{dealings, say-dealings, reject-dealings, respond-dealings}

-- No prompt of these has this id.
abbrev Lacks : String → List QueuedPrompt → Type 0
Lacks id = All (λ q. q.queue_item_id ≢ some id)

-- `after` is `before` less the first prompt that has this id; or no prompt has it, and nothing is taken.
abbrev pub Unqueued : String → List QueuedPrompt → List QueuedPrompt → Type 0
Unqueued id before after =
    (Lacks id before × (after ≡ before))
    ⊎ ((front : List QueuedPrompt) × (p : QueuedPrompt) × (back : List QueuedPrompt) × (before
          ≡ front ++ p ∷ back)
        × Lacks id front
        × (p.queue_item_id ≡ some id)
        × (after ≡ front ++ back))

has_id_iff : (id : String) (p : QueuedPrompt) → (has_id id p ≡ true) ↔ (p.queue_item_id ≡ some id)
has_id_iff id p = named p.queue_item_id
  where
    named :
        (o : Option String)
        → ((elim o as (λ _. Bool) [ none ↦ false | some j ↦ j == id ]) ≡ true) ↔ (o ≡ some id)
    named none = ground arith
    named (some j) =
        (λ e. ap some ((eq_text.alike_iff j id).0 e), λ e. (eq_text.alike_iff j id).1 (by_some e))
      where
        by_some : some j ≡ some id → j ≡ id
        by_some e = cc

has_id-false : (id : String) (p : QueuedPrompt) → has_id id p ≡ false → p.queue_item_id ≢ some id
has_id-false id p miss is = absurd (let hit = (has_id_iff id p).1 is in cc)

any-Lacks : (id : String) (ps : List QueuedPrompt) → any (has_id id) ps ≡ false → Lacks id ps
any-Lacks id [] e = tt
any-Lacks id (p ∷ ps) e = elim (Bool-cases (has_id id p)) [
  | inl hit ↦ absurd (
      let e' : true ≡ false = subst (λ b. (if b then true else any (has_id id) ps) ≡ false) hit e in
      cc)
  | inr miss ↦ (
    has_id-false id p miss,
    any-Lacks id ps (subst (λ b. (if b then true else any (has_id id) ps) ≡ false) miss e),
  )
]

remove_item-Unqueued : (id : String) (ps : List QueuedPrompt) → Unqueued id ps (remove_item id ps)
unfolding remove_item
remove_item-Unqueued id [] = inl (tt, refl)
remove_item-Unqueued id (p ∷ ps) = elim (Bool-cases (has_id id p)) [
  | inl hit ↦ rw hit (inr ([], p, ps, refl, tt, (has_id_iff id p).0 hit, refl))
  | inr miss ↦ rw miss (elim (remove_item-Unqueued id ps) [
    | inl (nobody, same) ↦ inl ((has_id-false id p miss, nobody), ap (λ qs. p ∷ qs) same)
    | inr (front, q, back, split, before, named, rest) ↦ inr (
      p ∷ front,
      q,
      back,
      ap (λ qs. p ∷ qs) split,
      (has_id-false id p miss, before),
      named,
      ap (λ qs. p ∷ qs) rest,
    )
  ])
]

module _ (h : Host) (peer : String) (req : IncomingRequest) (m : Room) (fs : Fields) (raw : String)
    (is_object : req.params ≡ some (obj fs)) (has_key : get_key "queueItemId" fs ≡ some (str raw))
    (not_blank : (trim raw == "") ≡ false) where
  check_unqueue-any :
      (ps : List QueuedPrompt)
      → check_unqueue h req ps ≡ (
          refuse_if
            (not (any (has_id (trim raw)) ps))
            queue_item_not_found_code
            "queue item not found"
          >> ok (trim raw))
  unfolding check_unqueue
  check_unqueue-any ps = rw (is_object, has_key, not_blank) refl

  -- `rooms/unqueue_prompt` for the id that its params hold, trimmed and not empty: the first prompt of the
  -- queue that has this id is taken out of it, and the others stay in their order; if no prompt has it,
  -- the queue stays as it is. Nothing else changes in the room or in what the agent is asked.
  pub unqueue-Unqueued :
      let n = handle_rooms_unqueue_prompt_request h peer req m in
      Unqueued (trim raw) m.ext.queued_prompts n.ext.queued_prompts
      × (dealings n
          ≡ record (dealings m) { ext = record m.ext { queued_prompts = n.ext.queued_prompts } })
  unfolding handle_rooms_unqueue_prompt_request send_result_response
  unqueue-Unqueued = elim (Bool-cases (any (has_id (trim raw)) m.ext.queued_prompts)) [
    | inl found ↦
        let removed = set_queue (remove_item (trim raw) m.ext.queued_prompts) m in
        rw (check_unqueue-any m.ext.queued_prompts, found, handle_rooms_unqueue_prompt_request)
          (
            remove_item-Unqueued (trim raw) m.ext.queued_prompts,
            respond-dealings h peer _
                  (say h (queue_item_removed h m.core.mux_id (trim raw) peer) removed)
                ∙ say-dealings h _ removed,
          )
    | inr nobody ↦
        rw (check_unqueue-any m.ext.queued_prompts, nobody, handle_rooms_unqueue_prompt_request)
          (
            inl (any-Lacks (trim raw) m.ext.queued_prompts nobody, refl),
            reject-dealings h peer req.id _ m,
          )
  ]
