-- ===== src/Mux/Proofs/Requests.antt =====
-- Requests that were forwarded to the agent: their numbers, the prompt in flight, and their responses.
use acp_mux.Base.{
  ℕ, ◌≤◌, ◌<◌, ◌≡◌, refl, subst, String, Bool, true, false, List, Option, none, some, is_some,
  arith, inl, inr, pos, saturating_suc, u64_max, eq_nat, ltb, if◌then◌else◌, Bool-cases,
}
use acp_mux.Base.Map
use acp_mux.Jsonrpc.{number, IncomingResponse}
use acp_mux.Host.{Host}
use acp_mux.Core.{MuxCore, PendingRequest, Subscriber}
use acp_mux.Core.New.{MuxOptions, new_core}
use acp_mux.Extension.{Mux, MuxExtension, KeepsToCtx}
use acp_mux.Mux.Agent.{is_prompt_id, route_agent_response, answer_pending}
use acp_mux.Mux.Run.{Actor, Event, run, reach}
use acp_mux.Mux.Steps.{keep_core, close_request}
use acp_mux.Mux.Steps.OfRun.{keep_run, keep_reachable}
use acp_mux.Mux.Steps.OfPending.{Pending, Above, Keeps, Of, keep_pending}
use acp_mux.Mux.Steps.FromAgent.{answer-CoreSteps}

-- The prompt in flight is a pending request.
abbrev pub Booked : ℕ → Pending → Option ℕ → Type 0
Booked n p none = Unit {0}
Booked n p (some k) = is_some (Map.get k p) ≡ true

Booked-insert :
    (n : ℕ) (p : Pending) (f : Option ℕ) (k : ℕ) (e : PendingRequest)
    → Booked n p f
    → Booked n (Map.insert k e p) f
Booked-insert n p none k e b = tt
Booked-insert n p (some j) k e b = ground (arith, Map.get-insert k j e p)

Booked-Keeps : Keeps Booked
Booked-Keeps = record {
  number = number;
  submit = λ n p e b. ground (arith, Map.get-insert n n e p);
  enter = enter;
  finish = λ n p k b. tt;
  answer = answer;
}
  where
    number : (n : ℕ) (p : Pending) (f : Option ℕ) → Booked n p f → Booked (saturating_suc n) p f
    number n p none b = tt
    number n p (some k) b = b

    enter :
        (k : ℕ) (p₀ : Pending) (f₀ : Option ℕ) (n : ℕ) (p : Pending) (f : Option ℕ)
        (e : PendingRequest)
        → Booked k p₀ f₀
        → Above k n
        → Booked n p f
        → (is_prompt : Bool) → Booked n (Map.insert k e p) (if is_prompt then some k else f)
    enter k p₀ f₀ n p f e _ _ b true = ground (arith, Map.get-insert k k e p)
    enter k p₀ f₀ n p f e _ _ b false = Booked-insert n p f k e b

    answer :
        (n : ℕ) (p : Pending) (f : Option ℕ) (k : ℕ)
        → is_prompt_id f k ≡ false
        → Booked n p f
        → Booked n (Map.remove k p) f
    answer n p none k e b = tt
    answer n p (some j) k e b = ground (arith, Map.get-remove k j p)

-- While the numbers last, those from the next one on are free.
abbrev pub Fresh : ℕ → Pending → Option ℕ → Type 0
Fresh n p f = n < u64_max → (k : ℕ) → n ≤ k → Map.get k p ≡ none

Fresh-Keeps : Keeps Fresh
Fresh-Keeps = record {
  number = λ n p f fresh l k le. fresh (ground arith) k (ground arith);
  submit = λ n p e fresh l k le.
      ground (arith, Map.get-insert n k e p, fresh (ground arith) k (ground arith));
  enter = λ j p₀ f₀ n p f e _ below fresh is_prompt l k le.
      ground (arith, Map.get-insert j k e p, fresh l k le, below);
  finish = λ n p j fresh l k le. ground (arith, Map.get-remove j k p, fresh l k le);
  answer = λ n p f j _ fresh l k le. ground (arith, Map.get-remove j k p, fresh l k le);
}

-- Request k was numbered, and is no longer pending.
abbrev pub Done : ℕ → ℕ → Pending → Option ℕ → Type 0
Done k n p f = (k < u64_max) × (k < n) × (Map.get k p ≡ none)

Done-Keeps : (k : ℕ) → Keeps (Done k)
Done-Keeps k = record {
  number = λ n p f d. ground arith;
  submit = λ n p e d. ground (arith, Map.get-insert n k e p);
  enter = λ j p₀ f₀ n p f e d₀ _ d is_prompt. ground (arith, Map.get-insert j k e p);
  finish = λ n p j d. ground (arith, Map.get-remove j k p);
  answer = λ n p f j _ d. ground (arith, Map.get-remove j k p);
}

below_next :
    (c : MuxCore) (n : ℕ) (p : PendingRequest)
    → Of Fresh c
    → c.next_mux_id < u64_max
    → Map.get n c.pending ≡ some p
    → n < c.next_mux_id
below_next c n p fresh room found = elim (Bool-cases (ltb n c.next_mux_id)) [
  | inl yes_ ↦ ground arith
  | inr no_ ↦ absurd (ground (arith, fresh room n (ground arith)))
]

module _ {h : Host} {E : Type 0} (x : MuxExtension E) (k : KeepsToCtx h x) where
  reachable-Fresh :
      (mux_id : String) (options : MuxOptions) (ext : E) (s : Subscriber) (es : List Event)
      → Of Fresh (reach h x mux_id options ext s es).mux.core
  unfolding new_core Map.get
  reachable-Fresh mux_id options ext s es =
      keep_reachable x k (Of Fresh) (keep_pending Fresh Fresh-Keeps) mux_id options ext s es
        (λ _ _ _. refl)

  -- In every state that the actor reaches, a prompt in flight is a pending request, so that the
  -- response which ends its turn is still awaited.
  pub prompt_is_pending :
      (mux_id : String) (options : MuxOptions) (ext : E) (s : Subscriber) (es : List Event) (n : ℕ)
      → (reach h x mux_id options ext s es).mux.core.prompt_in_flight ≡ some n
      → is_some (Map.get n (reach h x mux_id options ext s es).mux.core.pending) ≡ true
  unfolding new_core
  prompt_is_pending mux_id options ext s es n prompt =
      let c = (reach h x mux_id options ext s es).mux.core in
      subst (Booked c.next_mux_id c.pending) prompt (
        keep_reachable x k (Of Booked) (keep_pending Booked Booked-Keeps) mux_id options ext s es
          tt)

  -- In every state that the actor reaches, and until the numbers of 64 bits are used up, no pending
  -- request has the next number or one above it: a new request never takes another's place.
  pub next_number_is_free :
      (mux_id : String) (options : MuxOptions) (ext : E) (s : Subscriber) (es : List Event) (n : ℕ)
      → (reach h x mux_id options ext s es).mux.core.next_mux_id < u64_max
      → (reach h x mux_id options ext s es).mux.core.next_mux_id ≤ n
      → Map.get n (reach h x mux_id options ext s es).mux.core.pending ≡ none
  next_number_is_free mux_id options ext s es n room above =
      reachable-Fresh mux_id options ext s es room n above

  -- A response to a request that is not pending is dropped.
  route_absent :
      (r : IncomingResponse) (n : ℕ) (m : Mux E)
      → r.id ≡ number (pos n)
      → Map.get n m.core.pending ≡ none
      → route_agent_response h x r m ≡ m
  unfolding route_agent_response
  route_absent r n m same absent = rw (same, route_agent_response) (rw absent)

  pub route_present :
      (r : IncomingResponse) (n : ℕ) (p : PendingRequest) (m : Mux E)
      → r.id ≡ number (pos n)
      → Map.get n m.core.pending ≡ some p
      → route_agent_response h x r m ≡ answer_pending h x n r p m
  unfolding route_agent_response
  route_present r n p m same found = rw (same, route_agent_response) (rw found)

  closed-Done :
      (n : ℕ) (c : MuxCore) → n < u64_max → n < c.next_mux_id → Of (Done n) (close_request n c)
  closed-Done n c l b = ground (arith, Map.get-remove n n c.pending)

  answered-Done :
      (a : Actor E) (r : IncomingResponse) (n : ℕ) (p : PendingRequest)
      → Of Fresh a.mux.core
      → a.mux.core.next_mux_id < u64_max
      → r.id ≡ number (pos n)
      → Map.get n a.mux.core.pending ≡ some p
      → Of (Done n) (route_agent_response h x r a.mux).core
  answered-Done a r n p fresh room same found =
      let below : n < a.mux.core.next_mux_id = below_next a.mux.core n p fresh room found in
      rw (route_present r n p a.mux same found) (
        keep_core (Of (Done n)) (keep_pending (Done n) (Done-Keeps n))
          (answer-CoreSteps x k n r p a.mux) (closed-Done n a.mux.core (omega arith) below))

  -- In every state that the actor reaches before the numbers of 64 bits are used up, a pending request
  -- is answered once. Its first response takes it off the books, and after any further events another
  -- response with its number changes nothing: neither a subscriber nor the extension sees it.
  pub response_once :
      (mux_id : String) (options : MuxOptions) (ext : E) (s : Subscriber)
      (before after : List Event) (r r' : IncomingResponse) (n : ℕ) (p : PendingRequest)
      → (reach h x mux_id options ext s before).mux.core.next_mux_id < u64_max
      → Map.get n (reach h x mux_id options ext s before).mux.core.pending ≡ some p
      → r.id ≡ number (pos n)
      → r'.id ≡ number (pos n)
      → let a = reach h x mux_id options ext s before in
        let m' = route_agent_response h x r a.mux in
        let later = (run h x (record a { mux = m' }) after).mux in
        (Map.get n m'.core.pending ≡ none) × (route_agent_response h x r' later ≡ later)
  response_once mux_id options ext s before after r r' n p room found same same' =
      let a = reach h x mux_id options ext s before in
      let done =
        answered-Done a r n p (reachable-Fresh mux_id options ext s before) room same found in
      (
        done.2,
        route_absent r' n _ same'
            (keep_run x k (Of (Done n)) (keep_pending (Done n) (Done-Keeps n))
              (record a { mux = route_agent_response h x r a.mux }) after done).2,
      )
