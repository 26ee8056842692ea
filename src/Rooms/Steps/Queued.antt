-- ===== src/Rooms/Steps/Queued.antt =====
-- The order and the bounds of the queue of a room.
use acp_mux.Base.{
  ℕ, suc, ◌≤◌, ◌≡◌, refl, ap, String, true, false, List, [], ◌∷◌, ◌++◌, map, Option, none, some,
  is_some, All, All-append, length, leb, arith, ◌⊎◌, inl, inr, eq_text, Bool-cases, ◌∙◌,
}
use acp_mux.Rooms.{QueuedPrompt, queue, hard_steer, max_mux_queue_prompts}
use acp_mux.Rooms.Queue.{
  is_queue, is_hard_steer, pending_queue_prompt_count, has_pending_hard_steer, remove_item, has_id,
}
use acp_mux.Rooms.Segments.{move_prompt}

-- A prompt that a client queued, under an id.
abbrev pub IsQueueItem : QueuedPrompt → Type 0
IsQueueItem p = (is_queue p.kind ≡ true) × (is_some p.queue_item_id ≡ true)

-- Only the first prompt may be a hard steer, and the others have been queued by clients.
abbrev pub IsOrdered : List QueuedPrompt → Type 0
IsOrdered [] = Unit
IsOrdered (p ∷ ps) = (IsQueueItem p ⊎ (is_hard_steer p.kind ≡ true)) × All IsQueueItem ps

-- An ordered queue within the bound that `rooms/queue_prompt` checks.
abbrev pub IsBounded : List QueuedPrompt → Type 0
IsBounded ps = IsOrdered ps × (pending_queue_prompt_count ps ≤ max_mux_queue_prompts)

items-IsOrdered : (ps : List QueuedPrompt) → All IsQueueItem ps → IsOrdered ps
items-IsOrdered [] a = tt
items-IsOrdered (p ∷ ps) a = (inl a.0, a.1)

steers_first :
    (ps : List QueuedPrompt) → IsOrdered ps → has_pending_hard_steer ps ≡ false → All IsQueueItem ps
unfolding has_pending_hard_steer
steers_first [] o e = tt
steers_first (p ∷ ps) (inl i, a) e = (i, a)
steers_first (p ∷ ps) (inr s, a) e = absurd (ground arith)

count-append :
    (ps : List QueuedPrompt) (p : QueuedPrompt)
    → p.kind ≡ queue
    → pending_queue_prompt_count (ps ++ p ∷ []) ≡ suc (pending_queue_prompt_count ps)
unfolding pending_queue_prompt_count
count-append [] p k = rw k refl
count-append (q ∷ ps) p k = omega (arith, count-append ps p k)

append-IsOrdered :
    (ps : List QueuedPrompt) (p : QueuedPrompt)
    → IsOrdered ps
    → IsQueueItem p
    → IsOrdered (ps ++ p ∷ [])
append-IsOrdered [] p o i = (inl i, tt)
append-IsOrdered (q ∷ ps) p o i = (o.0, All-append IsQueueItem ps (p ∷ []) o.1 (i, tt))

-- A prompt that is queued where there is room.
pub queue-IsBounded :
    (ps : List QueuedPrompt) (p : QueuedPrompt)
    → IsBounded ps
    → p.kind ≡ queue
    → is_some p.queue_item_id ≡ true
    → leb max_mux_queue_prompts (pending_queue_prompt_count ps) ≡ false
    → IsBounded (ps ++ p ∷ [])
queue-IsBounded ps p (o, b) k i left =
    (append-IsOrdered ps p o (rw k refl, i), ground (arith, count-append ps p k))

-- A steer at the front of a queue without one.
pub steer-IsBounded :
    (ps : List QueuedPrompt) (p : QueuedPrompt) (turn : ℕ)
    → IsBounded ps
    → p.kind ≡ hard_steer turn
    → has_pending_hard_steer ps ≡ false
    → IsBounded (p ∷ ps)
unfolding pending_queue_prompt_count
steer-IsBounded ps p turn (o, b) k w =
    ((inr (rw k refl), steers_first ps o w), rw k (omega (arith, b)))

pub pop-IsBounded : (p : QueuedPrompt) (ps : List QueuedPrompt) → IsBounded (p ∷ ps) → IsBounded ps
unfolding pending_queue_prompt_count
pop-IsBounded p ps (o, b) = (items-IsOrdered ps o.1, omega arith)

remove-count :
    (id : String) (ps : List QueuedPrompt)
    → pending_queue_prompt_count (remove_item id ps) ≤ pending_queue_prompt_count ps
unfolding pending_queue_prompt_count remove_item
remove-count id [] = omega arith
remove-count id (p ∷ ps) = elim (Bool-cases (has_id id p)) [
  | inl hit ↦ rw hit (omega arith)
  | inr miss ↦ rw miss (omega (arith, remove-count id ps))
]

remove-items :
    (id : String) (ps : List QueuedPrompt)
    → All IsQueueItem ps
    → All IsQueueItem (remove_item id ps)
unfolding remove_item
remove-items id [] a = tt
remove-items id (p ∷ ps) a = elim (Bool-cases (has_id id p)) [
  | inl hit ↦ rw hit a.1
  | inr miss ↦ rw miss (a.0, remove-items id ps a.1)
]

remove-IsOrdered :
    (id : String) (ps : List QueuedPrompt) → IsOrdered ps → IsOrdered (remove_item id ps)
unfolding remove_item
remove-IsOrdered id [] o = tt
remove-IsOrdered id (p ∷ ps) o = elim (Bool-cases (has_id id p)) [
  | inl hit ↦ rw hit (items-IsOrdered ps o.1)
  | inr miss ↦ rw miss (o.0, remove-items id ps o.1)
]

pub remove-IsBounded :
    (id : String) (ps : List QueuedPrompt) → IsBounded ps → IsBounded (remove_item id ps)
remove-IsBounded id ps (o, b) = (remove-IsOrdered id ps o, omega (arith, remove-count id ps))

module _ (session : Option String) where
  moved_kind : (p : QueuedPrompt) → (move_prompt session p).kind ≡ p.kind
  moved_kind p = elim session as (λ s. (move_prompt s p).kind ≡ p.kind) [
    | none ↦ refl
    | some t ↦ refl
  ]

  moved_id : (p : QueuedPrompt) → (move_prompt session p).queue_item_id ≡ p.queue_item_id
  moved_id p = elim session as (λ s. (move_prompt s p).queue_item_id ≡ p.queue_item_id) [
    | none ↦ refl
    | some t ↦ refl
  ]

  moved_item : (p : QueuedPrompt) → IsQueueItem p → IsQueueItem (move_prompt session p)
  moved_item p (k, i) = (ap is_queue (moved_kind p) ∙ k, ap is_some (moved_id p) ∙ i)

  moved_items :
      (ps : List QueuedPrompt) → All IsQueueItem ps → All IsQueueItem (map (move_prompt session) ps)
  moved_items [] a = tt
  moved_items (p ∷ ps) a = (moved_item p a.0, moved_items ps a.1)

  moved_count :
      (ps : List QueuedPrompt)
      → pending_queue_prompt_count (map (move_prompt session) ps) ≡ pending_queue_prompt_count ps
  unfolding pending_queue_prompt_count
  moved_count [] = refl
  moved_count (p ∷ ps) = rw (moved_kind p, moved_count ps) refl

  pub move-IsBounded :
      (ps : List QueuedPrompt) → IsBounded ps → IsBounded (map (move_prompt session) ps)
  move-IsBounded [] b = b
  move-IsBounded (p ∷ ps) ((inl i, a), b) =
      ((inl (moved_item p i), moved_items ps a), rw (moved_count (p ∷ ps)) b)
  move-IsBounded (p ∷ ps) ((inr s, a), b) =
      ((inr (ap is_hard_steer (moved_kind p) ∙ s), moved_items ps a), rw (moved_count (p ∷ ps)) b)

items-count :
    (ps : List QueuedPrompt) → All IsQueueItem ps → length ps ≡ pending_queue_prompt_count ps
unfolding pending_queue_prompt_count
items-count [] a = refl
items-count (p ∷ ps) a = rw a.0.0 (omega (arith, items-count ps a.1))

-- At most one prompt more than clients may queue.
pub bounded-length : (ps : List QueuedPrompt) → IsBounded ps → length ps ≤ suc max_mux_queue_prompts
unfolding pending_queue_prompt_count
bounded-length [] b = ground arith
bounded-length (p ∷ ps) (o, b) = omega (arith, items-count ps o.1)
