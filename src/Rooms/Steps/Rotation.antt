-- ===== src/Rooms/Steps/Rotation.antt =====
-- What a new segment does to the queue and to the numbers of a room.
use acp_mux.Base.{◌≡◌, ap, ◌∙◌, ℕ, String, map, Option, none, some, ◌⊎◌, inl, inr, saturating_suc}
use acp_mux.Host.{Host}
use acp_mux.Rooms.{RoomsExtension, EndReason}
use acp_mux.Rooms.Queue.{Room}
use acp_mux.Rooms.Segments.{
  move_prompt, add_segment, close_segment, rotate_from, rotate_segment, take_segment_id,
}
use acp_mux.Rooms.Segments.Lineage.{segments-announce}

module _ (h : Host) (now : String) (session : Option String) (reason : EndReason) where
  added :
      (id : ℕ) (m : Room)
      → ((add_segment h now session id m).ext.queued_prompts ≡ m.ext.queued_prompts)
        × ((add_segment h now session id m).ext.next_segment_id ≡ m.ext.next_segment_id)
  unfolding add_segment
  added id m = (
    ap (λ (r : RoomsExtension). r.queued_prompts) (segments-announce h _ _),
    ap (λ (r : RoomsExtension). r.next_segment_id) (segments-announce h _ _),
  )

  closed :
      (current id : ℕ) (m : Room)
      → ((close_segment h now session reason current id m).ext.queued_prompts
          ≡ map (move_prompt session) m.ext.queued_prompts)
        × ((close_segment h now session reason current id m).ext.next_segment_id
            ≡ m.ext.next_segment_id)
  unfolding close_segment
  closed current id m = (
    ap (λ (r : RoomsExtension). map (move_prompt session) r.queued_prompts)
        (segments-announce h _ _),
    ap (λ (r : RoomsExtension). r.next_segment_id) (segments-announce h _ _),
  )

  from :
      (id : ℕ) (active : Option ℕ) (m : Room)
      → let n = rotate_from h now session reason id active m in
        ((n.ext.queued_prompts ≡ m.ext.queued_prompts)
          ⊎ (n.ext.queued_prompts ≡ map (move_prompt session) m.ext.queued_prompts))
        × (n.ext.next_segment_id ≡ m.ext.next_segment_id)
  unfolding rotate_from
  from id none m = let (q, n) = added id m in (inl q, n)
  from id (some current) m =
      let shut = close_segment h now session reason current id m in
      let (q, n) = added id shut in let (p, k) = closed current id m in (inr (q ∙ p), n ∙ k)

  -- The prompts that wait stay, or go to the new session; the next number is taken.
  pub rotated :
      (m : Room)
      → let n = rotate_segment h now session reason m in
        ((n.ext.queued_prompts ≡ m.ext.queued_prompts)
          ⊎ (n.ext.queued_prompts ≡ map (move_prompt session) m.ext.queued_prompts))
        × (n.ext.next_segment_id ≡ saturating_suc m.ext.next_segment_id)
  unfolding rotate_segment
  rotated m = from m.ext.next_segment_id m.ext.active_segment_id (take_segment_id h m)
