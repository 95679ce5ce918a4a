-- ===== src/Root/Sdk.antt =====
-- What cmd/bpsd/cmd/root.go, its config.go and RegisterIBC of app/ibc.go take from outside the repository:
-- cobra, the client context, the injection and the commands of the SDK.
use base_protocol_system.Base.{◌≡◌, ◌↔◌, Bool, Option, List, String, ℤ, Action}
use mathlib.Core.List.{Memᴰ}
use base_protocol_system.Export.Sdk.{ExportSdk}
use base_protocol_system.Export.{Exported}
use base_protocol_system.Commands.{CommandSdk}

-- A map from names.
abbrev pub Table : Type 0 → Type 0
Table V = String → Option V

-- What `depinject.Inject` fills in; its maps are not nil.
pub record Injected (Ctx Module Basic : Type 0) : Type 0 where
  pub modules : Table Module
  pub manager : Table Basic
  pub context : Ctx

pub record RootSdk (k : ExportSdk) (c : CommandSdk k) : Type 1 where
  pub Cmd : Type 0
  pub Ctx : Type 0
  pub Codec : Type 0
  pub Registry : Type 0
  pub TxOptions : Type 0
  pub Amino : Type 0
  pub TxConfig : Type 0
  pub Basic : Type 0
  pub ServerConfig : Type 0
  pub CmtConfig : Type 0
  pub inject :
      (Codec → Registry → TxOptions → Amino → Action k.State k.Ext Ctx)
      → Action k.State k.Ext (Injected Ctx c.app.AppModule Basic)
  -- the client context
  pub empty_context : Ctx
  pub with_codec : Codec → Ctx → Ctx
  pub with_interface_registry : Registry → Ctx → Ctx
  pub with_legacy_amino : Amino → Ctx → Ctx
  pub with_stdin : Ctx → Ctx
  pub with_account_retriever : Ctx → Ctx
  pub with_home_dir : String → Ctx → Ctx
  pub with_viper : String → Ctx → Ctx
  pub with_cmd_context : Cmd → Ctx → Ctx
  pub with_tx_config : TxConfig → Ctx → Ctx
  pub codec : Ctx → Codec
  pub tx_config : Ctx → TxConfig
  pub read_from_client_config : Ctx → k.State → (Ctx × Option k.Ext) × k.State
  pub read_persistent_command_flags : Ctx → Cmd → Action k.State k.Ext Ctx
  pub set_cmd_client_context_handler : Ctx → Cmd → Action k.State k.Ext (Unit {0})
  pub with_grpc_coin_metadata : Ctx → TxOptions → TxOptions
  pub new_tx_config : Codec → TxOptions → Action k.State k.Ext TxConfig
  -- the configuration files
  pub default_config : ServerConfig
  pub set_min_gas_prices : String → ServerConfig → ServerConfig
  pub default_config_template : String
  pub default_cmt_config : CmtConfig
  pub set_addr_book_strict : Bool → CmtConfig → CmtConfig
  pub set_allow_duplicate_ip : Bool → CmtConfig → CmtConfig
  pub intercept_configs : Cmd → String → ServerConfig → CmtConfig → Action k.State k.Ext (Unit {0})
  -- the modules; `range` is the order in which a map is visited
  pub range : List (String × c.app.AppModule) → k.State → List (String × c.app.AppModule)
  pub module_name : c.app.AppModule → String
  pub as_basic : c.app.AppModule → Option Basic
  pub interface_registry : Codec → Registry
  pub register_interfaces : Basic → Registry → Action k.State k.Ext (Unit {0})
  pub core_adaptor : String → c.app.AppModule → Basic
  pub zero_ibc_keeper : c.app.IbcKeeper
  pub zero_transfer_keeper : c.app.TransferKeeper
  pub zero_ica_controller_keeper : c.app.IcaControllerKeeper
  pub zero_ica_host_keeper : c.app.IcaHostKeeper
  pub tm_client_of : Codec → c.app.LightClient
  pub solomachine_client_of : Codec → c.app.LightClient
  -- cobra, and the commands of the SDK
  pub command : String → List String → String → (Cmd → Action k.State k.Ext (Unit {0})) → Cmd
  pub add_command : List Cmd → Cmd → Cmd
  pub set_out : Cmd → Action k.State k.Ext (Unit {0})
  pub set_err : Cmd → Action k.State k.Ext (Unit {0})
  pub node_command : String → String → (Cmd → Action k.State k.Ext (Unit {0})) → Cmd
  pub enhance_root_command : Table c.app.AppModule → Cmd → Action k.State k.Ext Cmd
  pub validate_cmd : Cmd → Action k.State k.Ext (Unit {0})
  pub init_cmd : Table Basic → String → Cmd
  pub debug_cmd : Cmd
  pub config_cmd : Cmd
  pub pruning_cmd : (c.app.Opts → Action k.State k.Ext (Unit {0})) → String → Cmd
  pub snapshot_cmd : (c.app.Opts → Action k.State k.Ext (Unit {0})) → Cmd
  pub add_start_commands :
      String
      → (c.app.Opts → Action k.State k.Ext (Unit {0}))
      → (ℤ
          → Bool
          → List String
          → c.app.Opts
          → List String
          → Action k.State k.Ext (Exported k × Option k.Ext))
      → Cmd
      → Cmd
  pub status_cmd : Cmd
  pub genutil_cmd : TxConfig → Table Basic → String → Cmd
  pub keys_cmd : Cmd
  -- the commands below `query` and `tx`
  pub wait_tx_cmd : Cmd
  pub validator_cmd : Cmd
  pub query_block_cmd : Cmd
  pub query_txs_by_events_cmd : Cmd
  pub query_blocks_cmd : Cmd
  pub query_tx_cmd : Cmd
  pub query_block_results_cmd : Cmd
  pub sign_cmd : Cmd
  pub sign_batch_cmd : Cmd
  pub multi_sign_cmd : Cmd
  pub multi_sign_batch_cmd : Cmd
  pub validate_signatures_cmd : Cmd
  pub line_break : Cmd
  pub broadcast_cmd : Cmd
  pub encode_cmd : Cmd
  pub decode_cmd : Cmd
  pub simulate_cmd : Cmd

-- A map is visited entry by entry, and the modules have the names of their packages.
pub record RootLaws {k : ExportSdk} {c : CommandSdk k} (r : RootSdk k c) : Type 0 where
  pub range_all :
      (modules : List (String × c.app.AppModule)) (s : k.State) (e : String × c.app.AppModule)
      → Memᴰ e (r.range modules s) ↔ Memᴰ e modules
  pub ibc_name :
      (x : c.app.IbcKeeper) → r.module_name (c.app.ibc_app_module x) ≡ c.app.names.ibc_module
  pub transfer_name :
      (x : c.app.TransferKeeper)
      → r.module_name (c.app.transfer_app_module x) ≡ c.app.names.transfer_module
  pub ica_name :
      (x : c.app.IcaControllerKeeper) (y : c.app.IcaHostKeeper)
      → r.module_name (c.app.ica_app_module x y) ≡ c.app.names.ica_module
  pub tm_name :
      (x : c.app.LightClient) → r.module_name (c.app.tm_app_module x) ≡ c.app.names.tm_module
  pub solomachine_name :
      (x : c.app.LightClient)
      → r.module_name (c.app.solomachine_app_module x) ≡ c.app.names.solomachine_module
