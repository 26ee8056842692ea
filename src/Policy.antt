-- ===== src/Policy.antt =====
-- crates/acp-mux/src/cli.rs: the policy for client-tool requests.
use acp_mux.Base.{String, Option, none, some, if◌then◌else◌}
use text.Mathlib.Text.{starts_with}

pub data ClientToolMode : Type 0 where
  block unsafe_debug : ClientToolMode

pub record ClientToolPolicy : Type 0 where
  pub fs : ClientToolMode
  pub terminal : ClientToolMode

abbrev pub block_by_default : ClientToolPolicy
block_by_default = record { fs = block; terminal = block }

abbrev pub unsafe_debug_broadcast : ClientToolPolicy
unsafe_debug_broadcast = record { fs = unsafe_debug; terminal = unsafe_debug }

unfoldable pub mode_for_method : ClientToolPolicy → String → Option ClientToolMode
mode_for_method p method =
    if starts_with method "fs/"
    then some p.fs
    else if starts_with method "terminal/"
    then some p.terminal
    else none
