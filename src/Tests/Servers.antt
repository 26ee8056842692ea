-- ===== src/Tests/Servers.antt =====
-- The server and the command line, at small inputs.
use Prim.Native.Char.{code}
use mathlib.Core.List.{append_assoc}
use acp_mux.Base.{
  ℕ, ◌≡◌, refl, String, true, ◌==◌, eq_nat, if◌then◌else◌, List, [], ◌∷◌, ◌++◌, none, some, map,
  filter_map, inr, arith, Bool-cases, inl,
}
use acp_mux.Jsonrpc.{Result, ok, err}
use acp_mux.Host.{Host, Bytes, is_empty}
use acp_mux.Core.{Subscriber}
use acp_mux.Core.New.{disabled, unbounded, bounded}
use acp_mux.Mux.Run.{detaches, take}
use acp_mux.Registry.{MuxHandle, RegistryError, peer_id_in_use}
use acp_mux.Server.{
  AttachQuery, ValidatedAttach, handle_attach, served, closed_with, WsMessage, text, pings, closes,
  binary, strip_trailing_newline, validate, pop_byte,
}
use acp_mux.Server.Queries.{Asks}
use acp_mux.Server.Inbound.{handle_attach-served, inbound, payload, open_part}
use acp_mux.Agent.{pump_lines, pump_lines-framed, blocking, Slot, takes, full, Read, got, Unbroken}
use acp_mux.Cli.{from_str, split_agent_cmd}
use acp_mux.Tests.{host}

abbrev codes : String → Bytes
codes String.[] = []
codes (String.◌∷◌ c s) = code c ∷ codes s

-- Texts in ASCII.
abbrev web : Host
web = record host { as_bytes = codes }

abbrev query : AttachQuery
query = record {
  mux = some "a_b-C-9";
  peer_id = some "p1";
  peer_name = none;
  role = none;
  replay = some "skip";
}

abbrev accepted : ValidatedAttach
accepted = record {
  mux = "a_b-C-9";
  peer_id = "p1";
  peer_name = none;
  role = none;
  skip_legacy_replay = true;
}

query-Asks : Asks web query accepted
query-Asks = record {
  mux = refl;
  mux_id = ground arith;
  peer = refl;
  named = omega arith;
  peer_name = refl;
  role = refl;
  replay = inr (refl, refl);
}

-- The registry hands out its first actor.
abbrev attaches : String → Subscriber → Result RegistryError MuxHandle
attaches mux s = ok 0

-- "{}" with a line end, a ping, "{}", a close, and what is never read.
abbrev chat : List WsMessage
chat =
    text (b'{' ∷ b'}' ∷ b'\r' ∷ b'\n' ∷ [])
    ∷ pings
    ∷ binary (b'{' ∷ b'}' ∷ [])
    ∷ closes
    ∷ text (b'{' ∷ [])
    ∷ []

handle_attach-served_example :
    handle_attach web attaches 9 chat query
    ≡ served 0
        (take 9 (map (inbound "p1") (filter_map payload (open_part chat)) ++ detaches "p1" ∷ []))
handle_attach-served_example =
    handle_attach-served web attaches 9 chat query accepted 0 query-Asks refl

-- A peer that is there already.
conflict :
    handle_attach web (λ mux s. err peer_id_in_use) 9 chat query
    ≡ closed_with 4409 "peer_id already attached to this mux"
unfolding handle_attach validate
conflict = refl

no_mux :
    handle_attach web attaches 9 chat (record query { mux = none })
    ≡ closed_with 4400 "missing ?mux"
unfolding handle_attach validate
no_mux = refl

stripped_once : strip_trailing_newline (b'{' ∷ b'}' ∷ b'\n' ∷ b'\n' ∷ []) ≡ b'{' ∷ b'}' ∷ b'\n' ∷ []
unfolding strip_trailing_newline
stripped_once = refl

any_case : from_str "UNBOUNDED" ≡ some unbounded
unfolding from_str
any_case = refl

zero_disables : from_str "0" ≡ some disabled
unfolding from_str
zero_disables = refl

too_large : from_str "4294967296" ≡ none
unfolding from_str
too_large = refl

a_bound : from_str "+12" ≡ some (bounded 12)
unfolding from_str
a_bound = refl

split_blanks : split_agent_cmd "  agent --port  9090 " ≡ some ("agent", "--port" ∷ "9090" ∷ [])
unfolding split_agent_cmd
split_blanks = refl

-- A receiver that is behind at first.
abbrev slow : ℕ → Slot
slow n = if n == 0 then full else takes

-- A reader that cuts a stream after each line feed: `line` is what it has of the line.
abbrev cut : Bytes → Bytes → List Read
cut line [] = if is_empty line then [] else got line ∷ []
cut line (b ∷ bs) =
    let next = cut [] bs in
    let more = cut (line ++ b ∷ []) bs in if b == b'\n' then got (line ++ b ∷ []) ∷ next else more

cut-line_feed :
    (begun line rest : Bytes)
    → Unbroken line
    → cut begun (line ++ b'\n' ∷ rest) ≡ got (begun ++ (line ++ b'\n' ∷ [])) ∷ cut [] rest
cut-line_feed begun [] rest k = refl
cut-line_feed begun (b ∷ bs) rest k = elim (Bool-cases (b == b'\n')) [
  | inl same ↦ absurd (k.0 (ground (arith, same)))
  | inr other ↦ rw (other, cut-line_feed (begun ++ b ∷ []) bs rest k.1, append_assoc) refl
]

cut-at_end : cut [] [] ≡ []
cut-at_end = refl

-- 1, a line feed, 2, 3, a line feed.
pump_lines-framed_example :
    pump_lines blocking slow 0 0 (cut [] (1 ∷ b'\n' ∷ 2 ∷ 3 ∷ b'\n' ∷ []))
    ≡ ((1 ∷ []) ∷ (2 ∷ 3 ∷ []) ∷ [], 0)
unfolding pop_byte
pump_lines-framed_example =
    pump_lines-framed (cut []) cut-at_end (cut-line_feed []) slow 0 0 ((1 ∷ []) ∷ (2 ∷ 3 ∷ []) ∷ [])
      (λ n. ground arith)
      (
        (refl, refl, ((λ e. omega arith), tt)),
        ((refl, refl, ((λ e. omega arith), ((λ e. omega arith), tt))), tt),
      )
