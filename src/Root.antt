-- ===== src/Root.antt =====
-- cmd/bpsd/cmd/root.go and config.go, initRootCmd of commands.go, and RegisterIBC of app/ibc.go: the
-- root command and what it prepares for its children.
pub mod Sdk
pub mod Modules
mod Runs
use base_protocol_system.Base.{
  Bool, true, false, Option, none, some, List, [], ◌∷◌, String, str_eq, ◌⧺◌, Outcome, Action, ok,
  err, panic, ◌>>=◌, ◌>>◌, pure, gets, panics, for_each, if◌then◌else◌,
}
use base_protocol_system.Export.Sdk.{ExportSdk}
use base_protocol_system.App.Console.{app_name}
use base_protocol_system.Commands.{CommandSdk, new_app, app_export}
use Sdk.{Table, Injected, RootSdk}

-- `m[name] = v`
abbrev pub put : {V : Type 0} → String → V → Table V → Table V
put name v m n = if str_eq name n then some v else m n

-- A loop that writes what is made of each entry.
abbrev pub put_all : {M V : Type 0} → (String → M → V) → List (String × M) → Table V → Table V
put_all f [] m = m
put_all f ((n, x) ∷ es) m = put_all f es (put n (f n x) m)

module _ (k : ExportSdk) (c : CommandSdk k) (r : RootSdk k c) where
  open k use {State, Ext}
  open r use {Cmd, Ctx, Codec, Registry, TxOptions, Amino, Basic, ServerConfig, CmtConfig}

  -- The literal of the map in `RegisterIBC`.
  abbrev pub client_modules : Codec → List (String × c.app.AppModule)
  client_modules cdc =
      (c.app.names.ibc_module, c.app.ibc_app_module r.zero_ibc_keeper)
      ∷ (c.app.names.transfer_module, c.app.transfer_app_module r.zero_transfer_keeper)
      ∷ (
        c.app.names.ica_module,
        c.app.ica_app_module r.zero_ica_controller_keeper r.zero_ica_host_keeper,
      )
      ∷ (c.app.names.tm_module, c.app.tm_app_module (r.tm_client_of cdc))
      ∷ (c.app.names.solomachine_module, c.app.solomachine_app_module (r.solomachine_client_of cdc))
      ∷ []

  unfoldable pub register_basic : Codec → String × c.app.AppModule → Action State Ext (Unit {0})
  register_basic cdc e = elim (r.as_basic e.1) [
    | none ↦ pure tt
    | some basic ↦ r.register_interfaces basic (r.interface_registry cdc)
  ]

  unfoldable pub register_ibc : Codec → Action State Ext (List (String × c.app.AppModule))
  register_ibc cdc = do
    modules ← gets (r.range (client_modules cdc))
    for_each (register_basic cdc) modules
    pure (client_modules cdc)

  abbrev init_app_config : String × ServerConfig
  init_app_config = (r.default_config_template, r.set_min_gas_prices "0.0001ubps" r.default_config)

  abbrev init_comet_bft_config : CmtConfig
  init_comet_bft_config =
      r.set_allow_duplicate_ip false (r.set_addr_book_strict true r.default_cmt_config)

  -- `if err != nil { return err }` on a context that comes with an error.
  abbrev client_config : Ctx → Action State Ext Ctx
  client_config ctx s =
      let ((read_ctx, e), s') = r.read_from_client_config ctx s in
      elim e [ none ↦ (ok read_ctx, s') | some x ↦ (err x, s') ]

  -- `PersistentPreRunE`; the context outside is set, too, to the one that a second run would start from.
  unfoldable pub persistent_pre_run : Ctx → Cmd → Action State Ext (Unit {0})
  persistent_pre_run client_ctx cmd = do
    r.set_out cmd
    r.set_err cmd
    with_flags ←
        r.read_persistent_command_flags (r.with_viper app_name (r.with_cmd_context cmd client_ctx))
          cmd
    configured ← client_config with_flags
    r.set_cmd_client_context_handler configured cmd
    r.intercept_configs cmd init_app_config.0 init_app_config.1 init_comet_bft_config

  -- `clientCtx, _ = config.ReadFromClientConfig(clientCtx)`
  abbrev client_config_or_not : Ctx → Action State Ext Ctx
  client_config_or_not ctx s =
      let ((read_ctx, e), s') = r.read_from_client_config ctx s in (ok read_ctx, s')

  unfoldable pub provide_client_context :
      String → Codec → Registry → TxOptions → Amino → Action State Ext Ctx
  provide_client_context home app_codec registry options amino =
      client_config_or_not (
        r.with_viper app_name (
          r.with_home_dir home (
            r.with_account_retriever (
              r.with_stdin (
                r.with_legacy_amino amino
                  (r.with_interface_registry registry (r.with_codec app_codec r.empty_context)))))))
      >>= λ ctx.
          panics (r.new_tx_config (r.codec ctx) (r.with_grpc_coin_metadata ctx options)) >>= λ tx.
          pure (r.with_tx_config tx ctx)

  abbrev query_command : Cmd
  query_command =
      r.add_command
        (r.wait_tx_cmd ∷ r.validator_cmd ∷ r.query_block_cmd ∷ r.query_txs_by_events_cmd
          ∷ r.query_blocks_cmd ∷ r.query_tx_cmd ∷ r.query_block_results_cmd ∷ [])
        (r.command "query" ("q" ∷ []) "Querying subcommands" r.validate_cmd)

  abbrev tx_command : Cmd
  tx_command =
      r.add_command
        (r.sign_cmd ∷ r.sign_batch_cmd ∷ r.multi_sign_cmd ∷ r.multi_sign_batch_cmd
          ∷ r.validate_signatures_cmd ∷ r.line_break ∷ r.broadcast_cmd ∷ r.encode_cmd ∷ r.decode_cmd
          ∷ r.simulate_cmd ∷ [])
        (r.command "tx" [] "Transactions subcommands" r.validate_cmd)

  -- The maps of the injection, with the modules that were visited in them.
  abbrev pub filled :
      Injected Ctx c.app.AppModule Basic
      → List (String × c.app.AppModule)
      → Injected Ctx c.app.AppModule Basic
  filled injected entries = record {
    modules = put_all (λ n x. x) entries injected.modules;
    manager = put_all r.core_adaptor entries injected.manager;
    context = injected.context;
  }

  unfoldable pub with_ibc :
      Injected Ctx c.app.AppModule Basic → Action State Ext (Injected Ctx c.app.AppModule Basic)
  with_ibc injected = do
    ibc_modules ← register_ibc (r.codec injected.context)
    entries ← gets (r.range ibc_modules)
    pure (filled injected entries)

  -- `app.DefaultNodeHome`, and the commands of the two testnets.
  module _ (home : String) (in_place_testnet : Cmd) (multi_node_testnet : Table Basic → Cmd) where
    abbrev init_root_cmd : r.TxConfig → Table Basic → Cmd → Cmd
    init_root_cmd tx_config manager root =
        r.add_command
          (r.status_cmd
            ∷ r.genutil_cmd tx_config manager home
            ∷ query_command
            ∷ tx_command
            ∷ r.keys_cmd
            ∷ [])
          (r.add_start_commands home (new_app k c) (app_export k c) (
            r.add_command
              (r.init_cmd manager home
                ∷ in_place_testnet
                ∷ multi_node_testnet manager
                ∷ r.debug_cmd
                ∷ r.config_cmd
                ∷ r.pruning_cmd (new_app k c) home
                ∷ r.snapshot_cmd (new_app k c)
                ∷ [])
              root))

    -- What `NewRootCmd` has when it comes to the commands: the injection with the modules of IBC in
    -- its maps.
    unfoldable pub prepare_root : Action State Ext (Injected Ctx c.app.AppModule Basic)
    prepare_root = panics (r.inject (provide_client_context home)) >>= with_ibc

    -- The commands, over what was prepared.
    unfoldable pub root_of : Injected Ctx c.app.AppModule Basic → Action State Ext Cmd
    root_of prepared = panics (
        r.enhance_root_command prepared.modules (
          init_root_cmd (r.tx_config prepared.context) prepared.manager
            (r.node_command (app_name ⧺ "d") "bps node" (persistent_pre_run prepared.context))))

    unfoldable pub new_root_cmd : Action State Ext Cmd
    new_root_cmd = prepare_root >>= root_of
