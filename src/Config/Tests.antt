-- ===== src/Config/Tests.antt =====
-- The configuration of project/config/config.go behind a first load that fails.
use lab.Base.{ℕ, [], ◌∷◌, true, false, none, some, ◌≡◌, refl}
use lab.Base.Results.{ok, err}
use lab.Config.Global.{Files, GlobalConfig, not_read, load_config, get_config}
use lab.Config.Loading.{load, calls, no_globals, load_config-again}

abbrev empty : GlobalConfig ℕ
empty = record {
  oracle = record {
    network = record {
      port = 0;
      host = "";
      consensus = record { type = ""; timeout_ms = 0; min_nodes = 0; max_nodes = 0 };
    };
    storage = record { provider = ""; pinata = record { api_key = ""; api_secret = ""; jwt = "" } };
  };
  llm = record {
    openai = record {
      api_key = "";
      model = "";
      temperature = 0;
      max_tokens = 0;
      default_temperature = 0;
      max_retries = 0;
      retry_interval_ms = 0;
    };
    request_timeout_ms = 0;
    cache_duration_ms = 0;
  };
  blockchain = record {
    network = "";
    rpc_url = "";
    chain_id = 0;
    contract_address = "";
    oracle_private_key = "";
    gas_limit = 0;
    confirmations = 0;
  };
  logging = record {
    level = "";
    file = "";
    max_size_mb = 0;
    max_backups = 0;
    max_age_days = 0;
    compress = false;
  };
  security = record {
    tls_enabled = false;
    cert_file = "";
    key_file = "";
    auth_token_expiry_ms = 0;
  };
  invoker = record {
    network = "";
    rpc_url = "";
    chain_id = 0;
    contract_address = "";
    private_key = "";
    gas_limit = 0;
    confirmations = 0;
  };
}

-- No file can be read; and every file holds a configuration.
abbrev missing : Files ℕ
missing = record {
  empty = empty;
  read = λ path. none;
  unmarshal = λ b cfg. (cfg, true);
  getenv = λ name. "";
  make_directory = λ path. true;
  marshal = λ cfg. some [];
  write = λ path b. true;
}

abbrev present : Files ℕ
present = record missing { read = λ path. some []; getenv = λ name. "key" }

first_fails : (load_config missing "a" no_globals).1 ≡ err not_read
unfolding load_config
first_fails = refl

load_config-again_example :
    let g = calls (load present "b" ∷ []) (load_config missing "a" no_globals).0 in
    (load_config present "b" g ≡ (g, ok (some empty))) × (get_config present g ≡ some empty)
unfolding calls load_config
load_config-again_example = load_config-again missing present "a" "b" (load present "b" ∷ [])
