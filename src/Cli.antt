-- ===== src/Cli.antt =====
-- crates/acp-mux/src/cli.rs: the values of options that the program reads itself, and the splitting of a
-- raw agent command. Reading the command line belongs to clap.
pub mod Numbers
use Prim.Native.Char.{code}
use Prim.Native.String.{String, ◌++◌}
use acp_mux.Base.{
  ℕ, ◌+◌, ◌-◌, ◌*◌, Bool, true, false, ◌&&◌, List, [], ◌∷◌, Option, none, some, if◌then◌else◌, leb,
  ◌==◌, eq_nat, eq_text, and_then, map_some,
}
use acp_mux.Text.{is_whitespace}
use acp_mux.Core.New.{ReplayTurns, disabled, unbounded, bounded}
use acp_mux.Policy.{ClientToolPolicy, block_by_default, unsafe_debug_broadcast}

pub data LogLevel : Type 0 where
  trace debug info warn error : LogLevel

unfoldable pub as_filter : LogLevel → String
as_filter trace = "trace"
as_filter debug = "debug"
as_filter info = "info"
as_filter warn = "warn"
as_filter error = "error"

-- `Cli::client_tool_policy`, by the flag --unsafe-debug-client-tool-broadcast.
unfoldable pub client_tool_policy : Bool → ClientToolPolicy
client_tool_policy unsafe = if unsafe then unsafe_debug_broadcast else block_by_default

-- `str::eq_ignore_ascii_case`.
abbrev pub lower : ℕ → ℕ
lower c = if leb b'A' c && leb c b'Z' then c + 32 else c

unfoldable pub eq_ignore_ascii_case : String → String → Bool
eq_ignore_ascii_case String.[] String.[] = true
eq_ignore_ascii_case (String.◌∷◌ c s) (String.◌∷◌ d t) =
    let rest = eq_ignore_ascii_case s t in if lower (code c) == lower (code d) then rest else false
eq_ignore_ascii_case _ _ = false

abbrev pub u32_max : ℕ
u32_max = 4294967295

-- The digits of a number, after those that make `n`.
unfoldable pub digits_from : ℕ → String → Option ℕ
digits_from n String.[] = some n
digits_from n (String.◌∷◌ c s) =
    let rest = digits_from (n * 10 + (code c - b'0')) s in
    if leb b'0' (code c) && leb (code c) b'9' then rest else none

abbrev pub some_digits : String → Option ℕ
some_digits String.[] = none
some_digits s = digits_from 0 s

-- A plus sign may stand before the digits.
abbrev pub unsigned_digits : String → Option ℕ
unsigned_digits String.[] = none
unsigned_digits (String.◌∷◌ c s) =
    if code c == b'+' then some_digits s else digits_from 0 (String.◌∷◌ c s)

-- `str::parse::<u32>`.
unfoldable pub parse_u32 : String → Option ℕ
unfolding digits_from
parse_u32 s = and_then (unsigned_digits s) (λ n. if leb n u32_max then some n else none)

-- `ReplayTurns::from_str`, its error without the text that it prints.
unfoldable pub from_str : String → Option ReplayTurns
unfolding eq_ignore_ascii_case parse_u32
from_str s =
    if eq_ignore_ascii_case s "unbounded"
    then some unbounded
    else map_some (λ n. if n == 0 then disabled else bounded n) (parse_u32 s)

abbrev pub put_word : Bool → String → List String → List String
put_word true word ws = ws
put_word false word ws = word ∷ ws

-- `split_whitespace`: the words between blanks; `word` is the one that is being read.
unfoldable pub words_from : String → String → List String
words_from word String.[] = put_word (word == "") word []
words_from word (String.◌∷◌ c s) =
    let split = put_word (word == "") word (words_from "" s) in
    let on = words_from (word ++ String.◌∷◌ c "") s in if is_whitespace (code c) then split else on

abbrev pub first_and_rest : List String → Option (String × List String)
first_and_rest [] = none
first_and_rest (w ∷ ws) = some (w, ws)

unfoldable pub split_agent_cmd : String → Option (String × List String)
unfolding words_from
split_agent_cmd raw = first_and_rest (words_from "" raw)
