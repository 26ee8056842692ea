-- ===== src/Agent.antt =====
-- crates/acp-mux/src/agent/process.rs: the lines of an agent's output on their way to a channel. The
-- process and its pipes belong to tokio: a pump sees the results of its reads, and what becomes of its
-- sends.
use acp_mux.Base.{
  ℕ, suc, ◌+◌, ◌≤◌, ◌≡◌, ◌≢◌, refl, ap, false, List, [], ◌∷◌, ◌++◌, none, if◌then◌else◌, length,
  All, arith, saturating_suc, u64_max, eq_nat,
}
use mathlib.Core.List.{append_assoc}
use acp_mux.Host.{Bytes, is_empty}
use acp_mux.Server.{strip_trailing_newline, pop_byte}
use acp_mux.Server.Inbound.{strip-framed}

-- `read_until`: the bytes up to a line feed, or the rest of the output; or an error. The list ends where
-- the output does.
pub data Read : Type 0 where
  got : Bytes → Read
  failed : Read

pub data PumpMode : Type 0 where
  blocking lossy : PumpMode

-- The channel at one send: it takes the line, it is full, or its receiver is gone.
pub data Slot : Type 0 where
  takes full gone : Slot

-- The lines that the channel took, and the number of those that were dropped.
abbrev pub Pumped : Type 0
Pumped = List Bytes × ℕ

abbrev pub put_line : Bytes → Pumped → Pumped
put_line line (ls, n) = (line ∷ ls, n)

-- One send: a blocking one waits while the channel is full. `rest` is what becomes of the later reads, by
-- the number of lines dropped before them.
abbrev pub offer : PumpMode → Slot → Bytes → ℕ → (ℕ → Pumped) → Pumped
offer blocking takes line dropped rest = put_line line (rest dropped)
offer blocking full line dropped rest = put_line line (rest dropped)
offer lossy takes line dropped rest = put_line line (rest dropped)
offer lossy full line dropped rest = rest (saturating_suc dropped)
offer _ gone line dropped rest = ([], dropped)

-- `room` is the channel at each send.
unfoldable pub pump_lines : PumpMode → (ℕ → Slot) → ℕ → ℕ → List Read → Pumped
pump_lines mode room sends dropped [] = ([], dropped)
pump_lines mode room sends dropped (failed ∷ rs) = ([], dropped)
pump_lines mode room sends dropped (got bytes ∷ rs) =
    let line = strip_trailing_newline bytes in
    let skipped = pump_lines mode room sends dropped rs in
    let sent = offer mode (room sends) line dropped (λ n. pump_lines mode room (suc sends) n rs) in
    if is_empty line then skipped else sent

-- What `AgentProcess::send` writes for a frame.
abbrev pub framed : Bytes → Bytes
framed frame = frame ++ b'\n' ∷ []

-- A stream of frames, one to a line.
abbrev pub stream : List Bytes → Bytes
stream [] = []
stream (f ∷ fs) = framed f ++ stream fs

abbrev pub Unbroken : Bytes → Type 0
Unbroken = All (λ b. b ≢ b'\n')

-- A frame that is not empty, has no line feed in it and does not end in a carriage return.
abbrev pub IsFrame : Bytes → Type 0
IsFrame frame = (is_empty frame ≡ false) × (pop_byte b'\r' frame ≡ none) × Unbroken frame

-- A channel whose receiver stays.
abbrev Stays : (ℕ → Slot) → Type 0
Stays room = (n : ℕ) → room n ≢ gone

-- `reads` stands for what `read_until` gives of a stream, read by read: nothing at its end, and up to the
-- first line feed, that one included, when there is one.
module _ (reads : Bytes → List Read) (at_end : reads [] ≡ [])
    (to_line_feed : (line rest : Bytes)
      → Unbroken line
      → reads (line ++ b'\n' ∷ rest) ≡ got (line ++ b'\n' ∷ []) ∷ reads rest) where
  reads-stream :
      (f : Bytes) (fs : List Bytes)
      → Unbroken f
      → reads (stream (f ∷ fs)) ≡ got (framed f) ∷ reads (stream fs)
  reads-stream f fs whole = rw append_assoc (to_line_feed f (stream fs) whole)

  -- Frames that are not empty, have no line feed in them and do not end in a carriage return, written one
  -- to a line, come out of a blocking pump as they were written, all of them and in their order, however
  -- slowly the receiver takes them. The reads split the stream at its line feeds, as `read_until` does, and
  -- the receiver stays.
  pub pump_lines-framed :
      (room : ℕ → Slot) (sends dropped : ℕ) (frames : List Bytes)
      → Stays room
      → All IsFrame frames
      → pump_lines blocking room sends dropped (reads (stream frames)) ≡ (frames, dropped)
  unfolding pump_lines
  pump_lines-framed room sends dropped [] s k = rw at_end refl
  pump_lines-framed room sends dropped (f ∷ fs) s k =
      rw (reads-stream f fs k.0.2, strip-framed f k.0.1, pump_lines)
        (rw (k.0.0)
          (by_room (room sends) refl (pump_lines-framed room (suc sends) dropped fs s k.1)))
    where
      by_room :
          (r : Slot)
          → room sends ≡ r
          → pump_lines blocking room (suc sends) dropped (reads (stream fs)) ≡ (fs, dropped)
          → offer blocking r f dropped
              (λ n. pump_lines blocking room (suc sends) n (reads (stream fs)))
            ≡ (f ∷ fs, dropped)
      by_room takes e ih = ap (put_line f) ih
      by_room full e ih = ap (put_line f) ih
      by_room gone e ih = absurd (s sends e)

  -- A lossy pump drops a line only when the channel is full, and counts it.
  pub pump_lines-counted :
      (room : ℕ → Slot) (sends dropped : ℕ) (frames : List Bytes)
      → Stays room
      → All IsFrame frames
      → dropped + length frames ≤ u64_max
      → let p = pump_lines lossy room sends dropped (reads (stream frames)) in
        length p.0 + p.1 ≡ dropped + length frames
  unfolding pump_lines
  pump_lines-counted room sends dropped [] s k b = rw at_end (omega arith)
  pump_lines-counted room sends dropped (f ∷ fs) s k b =
      rw (reads-stream f fs k.0.2, strip-framed f k.0.1, pump_lines)
        (rw (k.0.0)
          (by_room (room sends) refl (λ n l. pump_lines-counted room (suc sends) n fs s k.1 l)))
    where
      by_room :
          (r : Slot)
          → room sends ≡ r
          → ((n : ℕ)
              → n + length fs ≤ u64_max
              → let p = pump_lines lossy room (suc sends) n (reads (stream fs)) in
                length p.0 + p.1 ≡ n + length fs)
          → let p =
              offer lossy r f dropped
                (λ n. pump_lines lossy room (suc sends) n (reads (stream fs))) in
            length p.0 + p.1 ≡ dropped + suc (length fs)
      by_room takes e ih = omega (arith, ih dropped (omega arith))
      by_room full e ih =
          let one : saturating_suc dropped ≡ dropped + 1 = ground (arith, b) in
          omega (arith, one, b, ih (saturating_suc dropped) (omega (arith, one, b)))
      by_room gone e ih = absurd (s sends e)
