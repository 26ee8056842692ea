-- ===== src/Rooms/Proofs/Views/Stream.antt =====
-- `replay_stream_phases` of crates/rooms/src/extension/attach_views.rs.
use acp_mux.Base.{
  ◌≡◌, refl, sym, ap, ◌∙◌, ℕ, String, true, List, [], ◌∷◌, ◌++◌, filter_map, Option, none, some,
  Bool-cases, inl, inr, ◌==◌, eq_text, arith, subst,
}
use mathlib.Core.List.{append-nil, append_assoc, reverse, reverse-cons}
use acp_mux.Attach.{HistoryEntry}
use acp_mux.Host.{Host}
use acp_mux.Rooms.Views.Groups.{turn_groups, append_reversed, newest_turn_first_history}
use acp_mux.Rooms.Views.Phases.{
  WakeReplayPhase, replay_stream_phases, phases_of, append_all, no_entries,
  history_entries_to_frame_strings,
}
use acp_mux.Rooms.Joined.{in_order}
use acp_mux.Rooms.Proofs.Views.Order.{turn_groups-newest_first}

abbrev pub all_frames : List WakeReplayPhase → List String
all_frames [] = []
all_frames (p ∷ ps) = p.frames ++ all_frames ps

filter_map-append {ℓ} :
    {A B : Type ℓ} (f : A → Option B) (xs ys : List A)
    → filter_map f (xs ++ ys) ≡ filter_map f xs ++ filter_map f ys
filter_map-append f [] ys = refl
filter_map-append {A = A} {B = B} f (x ∷ xs) ys =
    let rest = filter_map-append f xs ys in
    elim (f x)
      as (λ o.
        (elim o as (λ _. List B) [
          | none ↦ filter_map f (xs ++ ys)
          | some y ↦ y ∷ filter_map f (xs ++ ys)
        ])
        ≡ (elim o as (λ _. List B) [ none ↦ filter_map f xs | some y ↦ y ∷ filter_map f xs ])
          ++ filter_map f ys) [ none ↦ rest | some y ↦ ap (λ zs. y ∷ zs) rest ]

append_all-append {ℓ} :
    {A : Type ℓ} (gs ks : List (List A)) → append_all (gs ++ ks) ≡ append_all gs ++ append_all ks
append_all-append [] ks = refl
append_all-append (g ∷ gs) ks = rw (append_all-append gs ks) (sym (append_assoc g _ _))

reversed-append :
    (p : List HistoryEntry) (gs : List (List HistoryEntry))
    → append_reversed p gs ≡ p ++ append_all (reverse gs)
unfolding append_reversed
reversed-append p [] = sym (append-nil p)
reversed-append p (g ∷ gs) =
    rw
      (
        reverse-cons g gs,
        append_all-append (reverse gs) (g ∷ []),
        append-nil g,
        reversed-append p gs,
      )
      (append_assoc p (append_all (reverse gs)) g)

newest-append :
    (history : List HistoryEntry)
    → let r = turn_groups history in
      newest_turn_first_history history ≡ r.0 ++ append_all (reverse r.1)
unfolding newest_turn_first_history
newest-append history = reversed-append (turn_groups history).0 (turn_groups history).1

no_entries-nil {ℓ} : {A : Type ℓ} (xs : List A) → no_entries xs ≡ true → xs ≡ []
no_entries-nil [] e = refl
no_entries-nil (x ∷ xs) e = absurd (ground arith)

module _ (h : Host) (peer : String) (order : String) (generation boundary : ℕ) where
  phases-frames :
      (p : List HistoryEntry) (gs : List (List HistoryEntry))
      → all_frames (phases_of h peer order generation boundary p gs)
        ≡ history_entries_to_frame_strings h (p ++ append_all gs)
  unfolding history_entries_to_frame_strings
  phases-frames p [] = rw (append-nil p) (append-nil _)
  phases-frames p (latest ∷ older) = elim (Bool-cases (no_entries (append_all older))) [
    | inl none_left ↦
        rw (none_left, no_entries-nil (append_all older) none_left, append-nil latest)
          (append-nil _)
    | inr more ↦ rw more (
        ap (λ fs. history_entries_to_frame_strings h (p ++ latest) ++ fs) (append-nil _)
        ∙ sym (filter_map-append _ (p ++ latest) (append_all older))
        ∙ ap (history_entries_to_frame_strings h) (append_assoc p latest (append_all older)))
  ]

  -- In either order, the phases of a streamed replay together hold the frames of the history that the
  -- client is shown, each once, in the order in which it is shown.
  pub replay_stream_phases-frames :
      (history : List HistoryEntry)
      → let shown = in_order h order history in
        all_frames (replay_stream_phases h peer order generation boundary shown)
        ≡ history_entries_to_frame_strings h shown
  unfolding replay_stream_phases
  replay_stream_phases-frames history = elim (Bool-cases (order == "newest_turn_first")) [
    | inr chronological ↦ rw chronological (append-nil _)
    | inl newest ↦
        let shown = newest_turn_first_history history in
        rw newest (
          subst
            (λ (r : List HistoryEntry × List (List HistoryEntry)).
              all_frames (phases_of h peer order generation boundary r.0 r.1)
              ≡ history_entries_to_frame_strings h shown)
            (sym (turn_groups-newest_first history))
            (phases-frames (turn_groups history).0 (reverse (turn_groups history).1)
              ∙ ap (history_entries_to_frame_strings h) (sym (newest-append history))))
  ]
