-- ===== src/AgentConfig.antt =====
-- crates/acp-mux/src/agent_config.rs: the file of named agents, and the command to spawn from the options
-- of the command line. The environment, the disk, TOML and paths are parameters.
use Prim.Native.String.{◌++◌}
use acp_mux.Base.{
  String, Bool, true, false, List, [], ◌∷◌, Option, none, some, if◌then◌else◌, ◌==◌, eq_text, map,
  map_some,
}
use acp_mux.Base.Map
use acp_mux.Jsonrpc.{Result, ok, err}
use acp_mux.Registry.{AgentCmd}
use acp_mux.Cli.{split_agent_cmd}

pub record AgentEntry : Type 0 where
  pub command : String
  pub args : List String
  pub env : List (String × String)

-- The maps are in the order of their keys.
abbrev pub AgentConfig : Type 0
AgentConfig = List (String × AgentEntry)

pub data FileRead : Type 0 where
  content : String → FileRead
  not_found unreadable : FileRead

-- `join` is that of paths; `from_toml` is none for a text that is refused.
pub record Environment : Type 0 where
  pub xdg_config_home : Option String
  pub home : Option String
  pub join : String → String → String
  pub read_to_string : String → FileRead
  pub from_toml : String → Option AgentConfig
  pub quoted : String → String

pub data ConfigError : Type 0 where
  parse_agent_config read_agent_config : String → ConfigError
  mutually_exclusive : ConfigError
  no_agent_named : String → ConfigError

unfoldable pub to_agent_cmd : AgentEntry → AgentCmd
to_agent_cmd e = record { program = e.command; args = e.args; env = e.env }

abbrev pub nonempty : Option String → Option String
nonempty none = none
nonempty (some s) = if s == "" then none else some s

abbrev pub names : AgentConfig → List String
names = map (λ entry. entry.0)

unfoldable pub joined : String → List String → String
joined mark [] = ""
joined mark (s ∷ []) = s
joined mark (s ∷ t ∷ ts) = s ++ mark ++ joined mark (t ∷ ts)

-- The names that an error lists.
abbrev pub known : List String → String
known [] = "(none configured)"
known ns = joined ", " ns

abbrev pub command_line : AgentEntry → String
command_line e =
    let args = joined " " e.args in if args == "" then e.command else e.command ++ " " ++ args

unfoldable pub listed : AgentConfig → String
listed [] = ""
listed ((name, e) ∷ config) = name ++ "\t" ++ command_line e ++ "\n" ++ listed config

abbrev pub list_text : AgentConfig → String
list_text [] = "no agents configured\n"
list_text config = listed config

abbrev pub map_result : {A B : Type 0} → (A → B) → Result ConfigError A → Result ConfigError B
map_result f (ok a) = ok (f a)
map_result f (err e) = err e

module _ (env : Environment) where
  unfoldable pub default_config_path : Option String
  default_config_path = elim (nonempty env.xdg_config_home) [
    | some dir ↦ some (env.join (env.join dir "acp-mux") "agents.toml")
    | none ↦
        map_some (λ home. env.join (env.join (env.join home ".config") "acp-mux") "agents.toml")
          (nonempty env.home)
  ]

  -- The file at a path that must be there, or need not.
  unfoldable pub load_from : String → Bool → Result ConfigError AgentConfig
  load_from path required = elim (env.read_to_string path) [
    | content text ↦ elim (env.from_toml text) [
      | none ↦ err (parse_agent_config path)
      | some config ↦ ok config
    ]
    | not_found ↦ if required then err (read_agent_config path) else ok []
    | unreadable ↦ err (read_agent_config path)
  ]

  -- `AgentConfig::load`.
  unfoldable pub load : Option String → Result ConfigError AgentConfig
  unfolding load_from default_config_path
  load (some path) = load_from path true
  load none = elim default_config_path [ none ↦ ok [] | some path ↦ load_from path false ]

  abbrev pub found : String → AgentConfig → Result ConfigError (Option AgentCmd)
  found name config = elim (Map.get name config) [
    | none ↦ err (
        no_agent_named (
          "no agent named "
          ++ env.quoted name
          ++ " in the agent config; known agents: "
          ++ known (names config)))
    | some entry ↦ ok (some (to_agent_cmd entry))
  ]

  abbrev pub look_for :
      String → Result ConfigError AgentConfig → Result ConfigError (Option AgentCmd)
  look_for name (ok config) = found name config
  look_for name (err e) = err e

  unfoldable pub resolve_agent_cmd :
      Option String → Option String → Option String → Result ConfigError (Option AgentCmd)
  unfolding split_agent_cmd to_agent_cmd load
  resolve_agent_cmd (some agent) (some raw) path = err mutually_exclusive
  resolve_agent_cmd none (some raw) path = ok (
      map_some (λ (cmd : String × List String). record { program = cmd.0; args = cmd.1; env = [] })
        (split_agent_cmd raw))
  resolve_agent_cmd none none path = ok none
  resolve_agent_cmd (some name) none path = look_for name (load path)

  unfoldable pub list_agents_text : Option String → Result ConfigError String
  unfolding listed
  list_agents_text path = map_result list_text (load path)
