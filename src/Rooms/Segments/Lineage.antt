-- ===== src/Rooms/Segments/Lineage.antt =====
-- The segments of a room are numbered without gaps, and the last one is the active one.
use acp_mux.Base.{
  ℕ, suc, ◌-◌, ◌≤◌, ◌<◌, ◌≡◌, refl, sym, ap, ◌∙◌, subst, String, true, false, List, [], ◌∷◌, ◌++◌,
  Option, none, some, is_some, if◌then◌else◌, if_case, eq_nat, nat_eq, ltb, arith, u64_max,
  Bool-cases, inl, inr,
}
use acp_mux.Host.{Host, Bytes}
use acp_mux.Extension.{Mux}
use acp_mux.Rooms.{EndReason, Segment, RoomsExtension, open_segment}
use acp_mux.Rooms.Segments.{
  update_segment, end_segment, end_replay, rotate_from, rotate_segment, add_segment, close_segment,
  next_replay_seq, announce, say_ended, take_segment_id,
}

-- The ids of the segments go from `n` up to `k`; exactly the last one is open.
abbrev pub Lineage : ℕ → List Segment → ℕ → Type 0
Lineage n [] k = n ≡ k
Lineage n (s ∷ ss) k =
    (s.id ≡ n)
    × (is_some s.closed_at ≡ ltb (suc n) k)
    × (is_some s.closed_replay_seq ≡ ltb (suc n) k)
    × Lineage (suc n) ss k

-- The active segment is the last one, and there is none before the first.
abbrev pub IsSegmented : RoomsExtension → Type 0
IsSegmented r =
    Lineage 1 r.segments r.next_segment_id
    × (r.active_segment_id
        ≡ (if nat_eq r.next_segment_id 1 then none else some (r.next_segment_id - 1)))

Lineage-le : (n : ℕ) (ss : List Segment) (k : ℕ) → Lineage n ss k → n ≤ k
Lineage-le n [] k l = omega arith
Lineage-le n (s ∷ ss) k l = omega (arith, Lineage-le (suc n) ss k l.3)

update-update :
    (j : ℕ) (f g : Segment → Segment) (ss : List Segment)
    → ((s : Segment) → (f s).id ≡ s.id)
    → update_segment j g (update_segment j f ss) ≡ update_segment j (λ s. g (f s)) ss
unfolding update_segment
update-update j f g [] keeps = refl
update-update j f g (s ∷ ss) keeps = ground (arith, keeps s, update-update j f g ss keeps)

-- To close the last segment and to add an open one.
closed-Lineage :
    (j n : ℕ) (f : Segment → Segment) (ss : List Segment) (s' : Segment)
    → ((s : Segment)
        → ((f s).id ≡ s.id)
          × (is_some (f s).closed_at ≡ true)
          × (is_some (f s).closed_replay_seq ≡ true))
    → Lineage n ss (suc j)
    → n ≤ j
    → s'.id ≡ suc j
    → is_some s'.closed_at ≡ false
    → is_some s'.closed_replay_seq ≡ false
    → Lineage n (update_segment j f ss ++ s' ∷ []) (suc (suc j))
unfolding update_segment
closed-Lineage j n f [] s' closes l b i o o' = absurd (omega arith)
closed-Lineage j n f (s ∷ []) s' closes l b i o o' = elim (Bool-cases (nat_eq s.id j)) [
  | inl hit ↦ rw hit (
    ground (arith, closes s),
    ground (arith, closes s),
    ground (arith, closes s),
    (ground arith, ground arith, ground arith, ground arith),
  )
  | inr miss ↦ absurd (ground arith)
]
closed-Lineage j n f (s ∷ t ∷ ss) s' closes l b i o o' =
    let above : suc (suc n) ≤ suc j = Lineage-le (suc (suc n)) ss (suc j) l.3.3 in
    let miss : nat_eq s.id j ≡ false = ground arith in
    rw miss (
      ground arith,
      ground arith,
      ground arith,
      closed-Lineage j (suc n) f (t ∷ ss) s' closes l.3 (omega arith) i o o',
    )

first-Lineage :
    (s' : Segment) (ss : List Segment)
    → Lineage 1 ss 1
    → s'.id ≡ 1
    → is_some s'.closed_at ≡ false
    → is_some s'.closed_replay_seq ≡ false
    → Lineage 1 (ss ++ s' ∷ []) 2
first-Lineage s' [] l i o o' = (i, ground arith, ground arith, refl)
first-Lineage s' (s ∷ ss) l i o o' = absurd (omega (arith, Lineage-le 2 ss 1 l.3))

module _ (h : Host) where
  pub segments-announce :
      (bytes : Bytes) (m : Mux RoomsExtension) → (announce h bytes m).ext ≡ m.ext
  segments-announce bytes m =
      if_case (λ (r : Mux RoomsExtension). r.ext ≡ m.ext) m.ext.options.emit_segment_frames refl
        refl

  module _ (now : String) (session : Option String) (reason : EndReason)
      (m : Mux RoomsExtension) where
    -- What a new segment does to the list, if it has the number below the next one.
    add-IsSegmented :
        (id : ℕ)
        → Lineage 1
            (m.ext.segments ++ open_segment id session now (next_replay_seq m.core) ∷ [])
            (suc id)
        → m.ext.next_segment_id ≡ suc id
        → 1 ≤ id
        → IsSegmented (add_segment h now session id m).ext
    unfolding add_segment
    add-IsSegmented id l n b = subst IsSegmented (sym (segments-announce _ _)) (
      subst
          (Lineage 1 (m.ext.segments ++ open_segment id session now (next_replay_seq m.core) ∷ []))
          (sym n) l,
      ground arith,
    )

    closed_segments :
        (current id : ℕ)
        → (seq : ℕ) × ((close_segment h now session reason current id m).ext.segments
            ≡ update_segment current
                (λ s. end_replay seq (end_segment now reason s))
                m.ext.segments)
    unfolding close_segment
    closed_segments current id =
        let seq = next_replay_seq (say_ended h now reason current id m).core - 1 in
        (
          seq,
          ap (λ (r : RoomsExtension). update_segment current (end_replay seq) r.segments)
                (segments-announce _ _)
              ∙ update-update current (end_segment now reason) (end_replay seq) m.ext.segments
                  (λ s. refl),
        )

    closed_next :
        (current id : ℕ)
        → (close_segment h now session reason current id m).ext.next_segment_id
          ≡ m.ext.next_segment_id
    unfolding close_segment
    closed_next current id = ap (λ (r : RoomsExtension). r.next_segment_id) (segments-announce _ _)

  is_closed :
      (now : String) (reason : EndReason) (seq : ℕ) (s : Segment)
      → let e = end_replay seq (end_segment now reason s) in
        (e.id ≡ s.id) × (is_some e.closed_at ≡ true) × (is_some e.closed_replay_seq ≡ true)
  is_closed now reason seq s = (refl, refl, refl)

  from-IsSegmented :
      (now : String) (session : Option String) (reason : EndReason) (id : ℕ) (active : Option ℕ)
      (m : Mux RoomsExtension)
      → Lineage 1 m.ext.segments id
      → active ≡ (if nat_eq id 1 then none else some (id - 1))
      → m.ext.next_segment_id ≡ suc id
      → IsSegmented (rotate_from h now session reason id active m).ext
  unfolding rotate_from
  from-IsSegmented now session reason id none m l e n =
      let first : id ≡ 1 = ground arith in
      add-IsSegmented now session reason m id
        (subst
          (λ k.
            Lineage 1 (m.ext.segments ++ open_segment k session now (next_replay_seq m.core) ∷ [])
              (suc k))
          (sym first)
          (first-Lineage _ m.ext.segments (subst (Lineage 1 m.ext.segments) first l) refl refl
            refl))
        n (ground arith)
  from-IsSegmented now session reason id (some current) m l e n =
      let closed = close_segment h now session reason current id m in
      let (seq, segments) = closed_segments now session reason m current id in
      let above = Lineage-le 1 m.ext.segments id l in
      let before : id ≡ suc current = ground arith in
      add-IsSegmented now session reason closed id
        (rw segments (
          rw before (
            closed-Lineage current 1 _ m.ext.segments _ (is_closed now reason seq)
              (subst (Lineage 1 m.ext.segments) before l) (ground arith) refl refl refl)))
        (closed_next now session reason m current id ∙ n) (omega arith)

  -- A rotation keeps the segments of a room numbered from 1 without gaps, the last one open and active
  -- and every earlier one closed, until the numbers of 64 bits are used up.
  pub rotate_segment-IsSegmented :
      (now : String) (session : Option String) (reason : EndReason) (m : Mux RoomsExtension)
      → IsSegmented m.ext
      → m.ext.next_segment_id < u64_max
      → IsSegmented (rotate_segment h now session reason m).ext
  unfolding rotate_segment
  rotate_segment-IsSegmented now session reason m (lineage, active) room =
      from-IsSegmented now session reason m.ext.next_segment_id m.ext.active_segment_id
        (take_segment_id h m) lineage active (ground arith)
