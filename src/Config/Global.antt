-- ===== src/Config/Global.antt =====
-- The global configuration of project/config/config.go, with its variables as state, and the configuration
-- of a node in project/oracle/pkg/config/config.go. Files, encoding/json and the environment are parameters.
-- An int stands as its bits, and the type of float32 is a parameter.
use lab.Base.{ℕ, String, List, Bool, true, not, Option, none, some, if◌then◌else◌, ◌==◌, string_eq}
use lab.Base.Results.{Result, ok, err, ◌>>=◌, ◌>>◌, guard, or_err}
use lab.Pbft.Types.{Bytes}

pub record ConsensusConfig : Type 0 where
  pub type : String
  pub timeout_ms : ℕ
  pub min_nodes : ℕ
  pub max_nodes : ℕ

pub record NetworkConfig : Type 0 where
  pub port : ℕ
  pub host : String
  pub consensus : ConsensusConfig

pub record PinataConfig : Type 0 where
  pub api_key : String
  pub api_secret : String
  pub jwt : String

pub record StorageConfig : Type 0 where
  pub provider : String
  pub pinata : PinataConfig

pub record OracleConfig : Type 0 where
  pub network : NetworkConfig
  pub storage : StorageConfig

pub record OpenAiConfig (F : Type 0) : Type 0 where
  pub api_key : String
  pub model : String
  pub temperature : F
  pub max_tokens : ℕ
  pub default_temperature : F
  pub max_retries : ℕ
  pub retry_interval_ms : ℕ

pub record LlmConfig (F : Type 0) : Type 0 where
  pub openai : OpenAiConfig F
  pub request_timeout_ms : ℕ
  pub cache_duration_ms : ℕ

pub record BlockchainConfig : Type 0 where
  pub network : String
  pub rpc_url : String
  pub chain_id : ℕ
  pub contract_address : String
  pub oracle_private_key : String
  pub gas_limit : ℕ
  pub confirmations : ℕ

pub record LoggingConfig : Type 0 where
  pub level : String
  pub file : String
  pub max_size_mb : ℕ
  pub max_backups : ℕ
  pub max_age_days : ℕ
  pub compress : Bool

pub record SecurityConfig : Type 0 where
  pub tls_enabled : Bool
  pub cert_file : String
  pub key_file : String
  pub auth_token_expiry_ms : ℕ

pub record InvokerConfig : Type 0 where
  pub network : String
  pub rpc_url : String
  pub chain_id : ℕ
  pub contract_address : String
  pub private_key : String
  pub gas_limit : ℕ
  pub confirmations : ℕ

pub record GlobalConfig (F : Type 0) : Type 0 where
  pub oracle : OracleConfig
  pub llm : LlmConfig F
  pub blockchain : BlockchainConfig
  pub logging : LoggingConfig
  pub security : SecurityConfig
  pub invoker : InvokerConfig

-- The variables config and configOnce; none is nil.
pub record Globals (F : Type 0) : Type 0 where
  pub config : Option (GlobalConfig F)
  pub is_done : Bool

pub data ConfigError : Type 0 where
  not_read not_parsed no_directory not_marshalled not_written : ConfigError

-- What the code meets outside at one call: what it reads at a path; what json.Unmarshal leaves of a
-- configuration, and whether it succeeds; the environment; and what it writes.
pub record Files (F : Type 0) : Type 0 where
  pub empty : GlobalConfig F
  pub read : String → Option Bytes
  pub unmarshal : Bytes → GlobalConfig F → GlobalConfig F × Bool
  pub getenv : String → String
  pub make_directory : String → Bool
  pub marshal : GlobalConfig F → Option Bytes
  pub write : String → Bytes → Bool

module _ {F : Type 0} (files : Files F) where
  -- loadEnvVars
  unfoldable pub load_env_vars : GlobalConfig F → GlobalConfig F
  load_env_vars cfg =
      let key = files.getenv "OPENAI_API_KEY" in
      let jwt = files.getenv "PINATA_JWT" in
      let url = files.getenv "ETH_RPC_URL" in
      record cfg {
        llm = record cfg.llm {
          openai = record cfg.llm.openai {
            api_key = if not (key == "") then key else cfg.llm.openai.api_key;
          };
        };
        oracle = record cfg.oracle {
          storage = record cfg.oracle.storage {
            pinata = record cfg.oracle.storage.pinata {
              jwt = if not (jwt == "") then jwt else cfg.oracle.storage.pinata.jwt;
            };
          };
        };
        blockchain = record cfg.blockchain {
          rpc_url = if not (url == "") then url else cfg.blockchain.rpc_url;
        };
      }

  -- The function of configOnce: the configuration that it leaves, and its error.
  unfoldable pub load_once : String → GlobalConfig F × Option ConfigError
  unfolding load_env_vars
  load_once path = elim (files.read path) [
    | none ↦ (files.empty, some not_read)
    | some bytes ↦
        let parsed = files.unmarshal bytes files.empty in
        if parsed.1 then (load_env_vars parsed.0, none) else (parsed.0, some not_parsed)
  ]

  -- LoadConfig; the configuration that it returns may be nil.
  unfoldable pub load_config :
      String → Globals F → Globals F × Result ConfigError (Option (GlobalConfig F))
  unfolding load_once
  load_config path g =
      let loaded = load_once path in
      let done : Globals F = record { config = some loaded.0; is_done = true } in
      if g.is_done
      then (g, ok g.config)
      else (done, elim loaded.1 [ some e ↦ err e | none ↦ ok done.config ])

  -- GetConfig
  unfoldable pub get_config : Globals F → Option (GlobalConfig F)
  get_config g = g.config

  -- What UpdateConfig ends with before it sets the configuration.
  unfoldable pub save_config : GlobalConfig F → String → String → Result ConfigError (Unit {0})
  save_config cfg directory path = do
    guard (files.make_directory directory) no_directory
    bytes ← or_err (files.marshal cfg) not_marshalled
    guard (files.write path bytes) not_written

  -- UpdateConfig; the directory of the path is an argument.
  unfoldable pub update_config :
      GlobalConfig F → String → String → Globals F → Globals F × Option ConfigError
  unfolding save_config
  update_config cfg directory path g = elim (save_config cfg directory path) [
    | err e ↦ (g, some e)
    | ok done ↦ (record g { config = some cfg }, none)
  ]

-- Config of a node.
pub record NodeConfig : Type 0 where
  pub node_id : String
  pub listen_address : String
  pub peers : List String
  pub consensus_timeout : ℕ
  pub view_change_timeout : ℕ
  pub max_message_size : ℕ
  pub connection_timeout : ℕ

-- LoadConfig of a node's configuration.
unfoldable pub load_node_config :
    (String → Option Bytes) → (Bytes → Option NodeConfig) → String → Result ConfigError NodeConfig
load_node_config read unmarshal path = do
  bytes ← or_err (read path) not_read
  or_err (unmarshal bytes) not_parsed
