-- ===== src/MultiNode/Nodes.antt =====
-- cmd/bpsd/cmd/testnet_multi_node.go, the loop of `initTestnetFiles` over the nodes.
use base_protocol_system.Base.{
  ℕ, ◌*◌, false, none, some, List, [], ◌∷◌, ◌++◌, String, ◌⧺◌, str_eq, itoa, nth, ℤ, pos, ◌-ℤ◌,
  if◌then◌else◌, Action, ok, err, panic, ◌>>=◌, ◌>>◌, pure, read, must,
}
use base_protocol_system.MultiNode.Sdk.{MultiNodeSdk, NodeConfig, AppConfig, Balance}
use base_protocol_system.MultiNode.Files.{write_file}
use base_protocol_system.MultiNode.Args.{InitArgs}

abbrev pub p2p_port : ℕ → ℤ
p2p_port i = pos 26656 -ℤ pos (3 * i)

abbrev pub grpc_port : ℕ → ℤ
grpc_port i = pos 9090 -ℤ pos (2 * i)

abbrev pub api_port : ℕ → ℤ
api_port i = pos 1317 -ℤ pos i

abbrev pub node_dir_name : String → ℕ → String
node_dir_name prefix i = prefix ⧺ itoa (pos i)

abbrev pub memo_of : String → String → ℕ → String
memo_of node_id ip i = node_id ⧺ "@" ⧺ ip ⧺ ":" ⧺ itoa (p2p_port i)

abbrev pub add_peer : String → String → String
add_peer peers memo = if str_eq peers "" then memo else peers ⧺ "," ⧺ memo

-- `args.ports[i]`, which is empty where the map has no port.
abbrev pub port_of : List String → ℕ → String
port_of ports i = elim (nth ports i) [ none ↦ "" | some p ↦ p ]

module _ (k : MultiNodeSdk) where
  open k use {State, Ext, Rest, Bytes, PubKey, Keyring, Address, Coin, Coins, Account, Tx}

  -- What the rounds fill in. The arrays are as long as the rounds that are done.
  pub record Nodes : Type 0 where
    pub node_ids : List String
    pub val_pub_keys : List PubKey
    pub gen_accounts : List Account
    pub gen_balances : List (Balance Coins)
    pub gen_files : List String
    pub persistent_peers : String
    pub gentxs_files : List String
    pub node_config : NodeConfig Rest
    pub app_config : AppConfig Rest

  abbrev pub node_dir : InitArgs Coin → ℕ → String
  node_dir args i = k.join (args.output_dir ∷ node_dir_name args.node_dir_prefix i ∷ [])

  abbrev pub gentxs_dir : InitArgs Coin → ℕ → String
  gentxs_dir args i =
      k.join (args.output_dir ∷ node_dir_name args.node_dir_prefix i ∷ "config" ∷ "gentx" ∷ [])

  -- `if err != nil { _ = os.RemoveAll(dir); return err }`, where an error of `RemoveAll` is dropped.
  unfoldable pub or_remove : {A : Type 0} → String → Action State Ext A → Action State Ext A
  or_remove dir m s =
      let (r, s') = m s in
      elim r [ ok a ↦ (ok a, s') | err e ↦ (err e, (k.remove_all dir s').1) | panic ↦ (panic, s') ]

  abbrev pub config_of : InitArgs Coin → ℕ → NodeConfig Rest → NodeConfig Rest
  config_of args i c = record c {
    root_dir = node_dir args i;
    moniker = node_dir_name args.node_dir_prefix i;
    rpc_listen_address = "tcp://0.0.0.0:" ⧺ port_of args.ports i;
  }

  -- The directory of the node and the files of its validator.
  unfoldable pub make_node :
      InitArgs Coin → ℕ → NodeConfig Rest → Action State Ext (String × PubKey)
  make_node args i config = do
    or_remove args.output_dir (k.mkdir_all (k.join (node_dir args i ∷ "config" ∷ [])))
    or_remove args.output_dir (k.initialize_node_validator_files config)

  -- The node among those before it; its memo goes to the peers.
  abbrev pub add_node : InitArgs Coin → ℕ → Nodes → NodeConfig Rest → String × PubKey → Nodes
  add_node args i nodes config made = record nodes {
    node_ids = nodes.node_ids ++ (made.0 ∷ []);
    val_pub_keys = nodes.val_pub_keys ++ (made.1 ∷ []);
    persistent_peers = add_peer nodes.persistent_peers (memo_of made.0 args.starting_ip_address i);
    gen_files = nodes.gen_files ++ (k.genesis_file config ∷ []);
    node_config = config;
  }

  unfoldable pub prepare_node :
      InitArgs Coin → ℕ → Nodes → Action State Ext (Nodes × (String × PubKey))
  prepare_node args i nodes = do
    let config = config_of args i nodes.node_config
    made ← make_node args i config
    pure (add_node args i nodes config made, made)

  -- The key of the node, and the words of its seed in a file.
  unfoldable pub make_key : InitArgs Coin → ℕ → Action State Ext (Keyring × Address)
  make_key args i = do
    let dir = node_dir args i
    kb ← k.new_keyring args.keyring_backend dir
    algo ← read (λ s. k.new_signing_algo args.algo (k.supported_algorithms kb))
    key ←
        or_remove args.output_dir
          (k.generate_save_coin_key kb (node_dir_name args.node_dir_prefix i) algo)
    cli_print ← read (λ s. k.marshal_secret (key.1))
    write_file k (k.join (dir ∷ "key_seed.json" ∷ [])) dir cli_print
    pure (kb, key.0)

  -- The balance of the node in the genesis.
  unfoldable pub genesis_coins : Action State Ext Coins
  genesis_coins = do
    testtoken ← must (k.new_coin "testtoken" (k.tokens_from_consensus_power 1000))
    stake ← must (k.new_coin k.default_bond_denom (k.tokens_from_consensus_power 500))
    pure (k.sort (testtoken ∷ stake ∷ []))

  unfoldable pub val_tokens : InitArgs Coin → ℕ → Action State Ext Coin
  val_tokens args i = elim (nth args.validators_stakes_amount i) [
    | some c ↦ pure c
    | none ↦ must (k.new_coin k.default_bond_denom (k.tokens_from_consensus_power 100))
  ]

  unfoldable pub make_gentx :
      InitArgs Coin → ℕ → String × PubKey → Keyring × Address → Action State Ext Bytes
  make_gentx args i made key = do
    let name = node_dir_name args.node_dir_prefix i
    let memo = memo_of (made.0) args.starting_ip_address i
    tokens ← val_tokens args i
    create_val_msg ←
        read (λ s. k.new_msg_create_validator (k.validator_text (key.1)) (made.1) tokens name)
    tx ← read (λ s. k.set_msgs create_val_msg)
    signed ← k.sign args.chain_id memo (key.0) name (k.set_memo memo tx)
    read (λ s. k.encode_tx signed)

  abbrev pub gentx_file : InitArgs Coin → ℕ → String → String
  gentx_file args i node_id = k.join (gentxs_dir args i ∷ ("gentx-" ⧺ node_id ⧺ ".json") ∷ [])

  abbrev addresses_of : InitArgs Coin → ℕ → AppConfig Rest → AppConfig Rest
  addresses_of args i c = record c {
    grpc_address = args.starting_ip_address ⧺ ":" ⧺ itoa (grpc_port i);
    api_address = "tcp://localhost:" ⧺ itoa (api_port i);
  }

  -- The node's entries in the genesis and the file of its transaction.
  abbrev pub add_genesis : InitArgs Coin → ℕ → Nodes → String → Address → Coins → Nodes
  add_genesis args i nodes node_id addr coins = record nodes {
    gen_balances =
        nodes.gen_balances ++ (record { address = k.account_text addr; coins = coins } ∷ []);
    gen_accounts = nodes.gen_accounts ++ (k.new_base_account addr ∷ []);
    gentxs_files = nodes.gentxs_files ++ (gentx_file args i node_id ∷ []);
    app_config = addresses_of args i nodes.app_config;
  }

  -- The transaction and the configuration of the application go to files.
  unfoldable pub write_node :
      InitArgs Coin → ℕ → String → Nodes → Bytes → Action State Ext (Unit {0})
  write_node args i node_id nodes tx_bz = do
    write_file k (gentx_file args i node_id) (gentxs_dir args i) tx_bz
    k.write_app_config (k.join (node_dir args i ∷ "config" ∷ "app.toml" ∷ []))
        (addresses_of args i nodes.app_config)

  -- The rest of a round, behind the files of the validator.
  unfoldable pub finish_node :
      InitArgs Coin → ℕ → Nodes × (String × PubKey) → Action State Ext Nodes
  finish_node args i (nodes, made) = do
    key ← make_key args i
    coins ← genesis_coins
    tx_bz ← make_gentx args i made key
    write_node args i (made.0) nodes tx_bz
    pure (add_genesis args i nodes (made.0) (key.1) coins)

  unfoldable pub init_node : InitArgs Coin → ℕ → Nodes → Action State Ext Nodes
  init_node args i nodes = prepare_node args i nodes >>= finish_node args i

  -- The configuration of the application that the rounds start from.
  unfoldable pub start_app_config : InitArgs Coin → AppConfig Rest
  start_app_config args =
      record (record k.default_app_config {
        min_gas_prices = args.min_gas_prices;
        api_enable = false;
      }) {
        min_gas_prices = "0.0001" ⧺ k.default_bond_denom;
        enable_hostname_label = false;
        telemetry_enabled = false;
        prometheus_retention_time = 0;
      }

  unfoldable pub no_nodes : InitArgs Coin → NodeConfig Rest → Nodes
  no_nodes args config = record {
    node_ids = [];
    val_pub_keys = [];
    gen_accounts = [];
    gen_balances = [];
    gen_files = [];
    persistent_peers = "";
    gentxs_files = [];
    node_config = config;
    app_config = start_app_config args;
  }
