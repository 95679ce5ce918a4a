-- ===== src/MultiNode/Genesis.antt =====
-- cmd/bpsd/cmd/testnet_multi_node.go, `initGenFiles` and `collectGenFiles`.
use base_protocol_system.Base.{
  ℕ, ◌+◌, ◌*◌, true, Option, none, some, List, [], ◌∷◌, String, ◌⧺◌, itoa, nth, ℤ, pos, ◌-ℤ◌,
  Action, ◌>>=◌, ◌>>◌, pure, read, gets, must,
}
use base_protocol_system.MultiNode.Sdk.{MultiNodeSdk, NodeConfig, Balance}
use base_protocol_system.MultiNode.Files.{count_up}
use base_protocol_system.MultiNode.Args.{InitArgs, rounds}
use base_protocol_system.MultiNode.Nodes.{p2p_port, node_dir_name, port_of, node_dir}

abbrev pub proxy_port : ℕ → ℤ
proxy_port i = pos 26658 -ℤ pos (3 * i)

abbrev pub prometheus_port : ℕ → ℤ
prometheus_port i = pos (26660 + i)

module _ (k : MultiNodeSdk) where
  open k use {State, Ext, Rest, PubKey, Coin, Coins, Account, Any, GenState, Json, Time}

  unfoldable pub add_balances : List (Balance Coins) → Coins → Option Coins
  add_balances [] supply = some supply
  add_balances (b ∷ bs) supply = elim (k.add supply b.coins) [
    | none ↦ none
    | some c ↦ add_balances bs c
  ]

  pub set_accounts : List Account → GenState → Action State Ext GenState
  set_accounts gen_accounts gen = do
    auth ← must (k.auth_genesis gen)
    accounts ← read (λ s. k.pack_accounts gen_accounts)
    must (k.set_auth_genesis (record auth { accounts = accounts }) gen)

  unfoldable pub set_balances : List (Balance Coins) → GenState → Action State Ext GenState
  set_balances gen_balances gen = do
    bank ← must (k.bank_genesis gen)
    let balances = k.sanitize_genesis_balances gen_balances
    supply ← must (add_balances balances bank.supply)
    must (k.set_bank_genesis (record bank { balances = balances; supply = supply }) gen)

  -- `genFiles[i]` panics out of range.
  pub save_genesis : String → Json → List String → ℕ → Unit {0} → Action State Ext (Unit {0})
  save_genesis chain_id app_state gen_files i done =
      must (nth gen_files i) >>= k.save_as chain_id app_state

  pub init_gen_files :
      String → List Account → List (Balance Coins) → List String → ℕ → Action State Ext (Unit {0})
  init_gen_files chain_id gen_accounts gen_balances gen_files n = do
    with_accounts ← set_accounts gen_accounts k.default_genesis
    gen ← set_balances gen_balances with_accounts
    app_state ← read (λ s. k.marshal_indent gen)
    count_up (save_genesis chain_id app_state gen_files) 0 n tt

  abbrev network_config : InitArgs Coin → String → ℕ → NodeConfig Rest → NodeConfig Rest
  network_config args persistent_peers i c = record c {
    persistent_peers = persistent_peers;
    allow_duplicate_ip = true;
    p2p_listen_address = "tcp://0.0.0.0:" ⧺ itoa (p2p_port i);
    rpc_listen_address = "tcp://127.0.0.1:" ⧺ port_of args.ports i;
    proxy_app = "tcp://127.0.0.1:" ⧺ itoa (proxy_port i);
    prometheus_listen_addr = ":" ⧺ itoa (prometheus_port i);
    prometheus = true;
  }

  -- `if appState == nil { appState = nodeAppState }`
  abbrev pub canonical : Option Json → Json → Json
  canonical none node_app_state = node_app_state
  canonical (some app_state) node_app_state = app_state

  -- One round; the state of the application that it hands on is the first node's.
  pub collect_node :
      InitArgs Coin
      → List String
      → List PubKey
      → String
      → Time
      → ℕ
      → NodeConfig Rest × Option Json
      → Action State Ext (NodeConfig Rest × Option Json)
  collect_node args node_ids val_pub_keys persistent_peers gen_time i (config, app_state) = do
    let name = node_dir_name args.node_dir_prefix i
    let dir = node_dir k args i
    let placed = record config { moniker = name; root_dir = dir }
    node_id ← must (nth node_ids i)
    val_pub_key ← must (nth val_pub_keys i)
    app_genesis ← k.app_genesis_from_file (k.genesis_file placed)
    generated ←
        k.gen_app_state_from_config placed
          (record {
            chain_id = args.chain_id;
            gentxs_dir = k.join (dir ∷ "config" ∷ "gentx" ∷ []);
            node_id = node_id;
            pub_key = val_pub_key;
          })
          app_genesis
    let set = network_config args persistent_peers i (generated.0)
    k.write_node_config (k.join (set.root_dir ∷ "config" ∷ "config.toml" ∷ [])) set
    let state = canonical app_state (generated.1)
    k.export_genesis_file_with_time (k.genesis_file set) args.chain_id state gen_time
    pure (set, some state)

  pub collect_gen_files :
      NodeConfig Rest
      → List String
      → List PubKey
      → String
      → InitArgs Coin
      → Action State Ext (Unit {0})
  collect_gen_files config node_ids val_pub_keys persistent_peers args = do
    gen_time ← gets k.now
    count_up (collect_node args node_ids val_pub_keys persistent_peers gen_time) 0
        (rounds args.num_validators) (config, none)
    pure tt
