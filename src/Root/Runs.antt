-- ===== src/Root/Runs.antt =====
-- A root command that is the number of the commands in it, and the theorem of the modules at it.
use base_protocol_system.Base.{
  ℕ, ◌+◌, ◌≡◌, ◌≢◌, refl, All, Apart, true, false, none, some, List, [], ◌∷◌, String, str_eq,
  str_eq_same, ok, err, panic, for_each,
}
use base_protocol_system.Export.Runs.{Store, sdk, store_at}
use base_protocol_system.App.{IbcKeepers, ibc_app_modules}
use base_protocol_system.Commands.Runs.{commands}
use base_protocol_system.Root.Sdk.{Injected, RootSdk, RootLaws}
use base_protocol_system.Root.{
  register_basic, register_ibc, provide_client_context, with_ibc, prepare_root, root_of,
  new_root_cmd,
}
use base_protocol_system.Root.Modules.{client_names, HasModule, new_root_cmd-HasModule}

abbrev count : List ℕ → ℕ
count [] = 0
count (n ∷ ns) = n + count ns

-- The context is the text of the home, and the configuration of the client cannot be read.
abbrev root_sdk : RootSdk sdk commands
root_sdk = record {
  Cmd = ℕ;
  Ctx = String;
  Codec = Unit {0};
  Registry = Unit {0};
  TxOptions = Unit {0};
  Amino = Unit {0};
  TxConfig = Unit {0};
  Basic = String;
  ServerConfig = String;
  CmtConfig = Unit {0};
  inject = λ provide s.
      let (r, t) = provide tt tt tt tt s in
      elim r [
        | ok ctx ↦ (ok (record { modules = λ n. none; manager = λ n. none; context = ctx }), t)
        | err e ↦ (err e, t)
        | panic ↦ (panic, t)
      ];
  empty_context = "";
  with_codec = λ x ctx. ctx;
  with_interface_registry = λ x ctx. ctx;
  with_legacy_amino = λ x ctx. ctx;
  with_stdin = λ ctx. ctx;
  with_account_retriever = λ ctx. ctx;
  with_home_dir = λ home ctx. home;
  with_viper = λ name ctx. ctx;
  with_cmd_context = λ cmd ctx. ctx;
  with_tx_config = λ tx ctx. ctx;
  codec = λ ctx. tt;
  tx_config = λ ctx. tt;
  read_from_client_config = λ ctx s. ((ctx, some true), s);
  read_persistent_command_flags = λ ctx cmd s. (ok ctx, s);
  set_cmd_client_context_handler = λ ctx cmd s. (ok tt, s);
  with_grpc_coin_metadata = λ ctx options. options;
  new_tx_config = λ codec options s. (ok tt, s);
  default_config = "";
  set_min_gas_prices = λ price config. price;
  default_config_template = "";
  default_cmt_config = tt;
  set_addr_book_strict = λ b config. config;
  set_allow_duplicate_ip = λ b config. config;
  intercept_configs = λ cmd template config cmt s. (ok tt, s);
  range = λ es s. es;
  module_name = λ m. m;
  as_basic = some;
  interface_registry = λ codec. tt;
  register_interfaces = λ basic registry s. (ok tt, s);
  core_adaptor = λ n m. m;
  zero_ibc_keeper = tt;
  zero_transfer_keeper = tt;
  zero_ica_controller_keeper = tt;
  zero_ica_host_keeper = tt;
  tm_client_of = λ codec. tt;
  solomachine_client_of = λ codec. tt;
  command = λ name aliases short run. 1;
  add_command = λ children cmd. cmd + count children;
  set_out = λ cmd s. (ok tt, s);
  set_err = λ cmd s. (ok tt, s);
  node_command = λ name short run. 1;
  enhance_root_command = λ modules cmd s. (ok cmd, s);
  validate_cmd = λ cmd s. (ok tt, s);
  init_cmd = λ manager home. 1;
  debug_cmd = 1;
  config_cmd = 1;
  pruning_cmd = λ new home. 1;
  snapshot_cmd = λ new. 1;
  add_start_commands = λ home new export cmd. cmd + 1;
  status_cmd = 1;
  genutil_cmd = λ tx manager home. 1;
  keys_cmd = 1;
  wait_tx_cmd = 1;
  validator_cmd = 1;
  query_block_cmd = 1;
  query_txs_by_events_cmd = 1;
  query_blocks_cmd = 1;
  query_tx_cmd = 1;
  query_block_results_cmd = 1;
  sign_cmd = 1;
  sign_batch_cmd = 1;
  multi_sign_cmd = 1;
  multi_sign_batch_cmd = 1;
  validate_signatures_cmd = 1;
  line_break = 1;
  broadcast_cmd = 1;
  encode_cmd = 1;
  decode_cmd = 1;
  simulate_cmd = 1;
}

root_laws : RootLaws root_sdk
root_laws = record {
  range_all = λ es s e. (λ h. h, λ h. h);
  ibc_name = λ x. refl;
  transfer_name = λ x. refl;
  ica_name = λ x y. refl;
  tm_name = λ x. refl;
  solomachine_name = λ x. refl;
}

other : (s t : String) → str_eq s t ≡ false → s ≢ t
other s t differ e = let same = str_eq_same s t e in absurd (cc)

names-Apart : Apart (client_names commands)
names-Apart = (
  (
    other "ibc" "transfer" refl,
    (
      other "ibc" "interchainaccounts" refl,
      (other "ibc" "07-tendermint" refl, (other "ibc" "06-solomachine" refl, tt)),
    ),
  ),
  (
    (
      other "transfer" "interchainaccounts" refl,
      (other "transfer" "07-tendermint" refl, (other "transfer" "06-solomachine" refl, tt)),
    ),
    (
      (
        other "interchainaccounts" "07-tendermint" refl,
        (other "interchainaccounts" "06-solomachine" refl, tt),
      ),
      ((other "07-tendermint" "06-solomachine" refl, tt), (tt, tt)),
    ),
  ),
)

keepers : IbcKeepers commands.app
keepers = record {
  ibc_keeper = tt;
  transfer_keeper = tt;
  ica_host_keeper = tt;
  ica_controller_keeper = tt;
}

rooted :
    new_root_cmd sdk commands root_sdk ".bps" 1 (λ manager. 1) (store_at 42 false)
    ≡ (ok 31, store_at 42 false)
unfolding new_root_cmd prepare_root with_ibc register_ibc register_basic provide_client_context
    root_of for_each
rooted = refl

new_root_cmd-HasModule_example :
    (p : Injected String String String) × (u : Store) × (prepare_root sdk commands root_sdk ".bps" 1
        (λ manager. 1)
        (store_at 42 false)
      ≡ (ok p, u))
    × (root_of sdk commands root_sdk ".bps" 1 (λ manager. 1) p u ≡ (ok 31, store_at 42 false))
    × All (λ m. HasModule root_sdk p m) (ibc_app_modules commands.app keepers tt tt)
new_root_cmd-HasModule_example =
    new_root_cmd-HasModule sdk commands root_sdk root_laws ".bps" 1 (λ manager. 1) names-Apart
      keepers tt tt (store_at 42 false) (store_at 42 false) 31 rooted
