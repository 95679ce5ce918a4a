-- ===== src/MultiNode/Testnet.antt =====
-- cmd/bpsd/cmd/testnet_multi_node.go, the command from its flags to its end.
use base_protocol_system.Base.{
  ℕ, List, [], ◌∷◌, String, ◌⧺◌, str_eq, pos, negsuc, if◌then◌else◌, Action, ok, err, panic, ◌>>=◌,
  ◌>>◌, pure, for_each,
}
use base_protocol_system.MultiNode.Sdk.{MultiNodeSdk, NodeConfig}
use base_protocol_system.MultiNode.Files.{copy_file, is_sub_dir, count_up, generate_random_string}
use base_protocol_system.MultiNode.Args.{InitArgs, Flags, read_args, rounds}
use base_protocol_system.MultiNode.Nodes.{Nodes, init_node, no_nodes, node_dir}
use base_protocol_system.MultiNode.Genesis.{init_gen_files, collect_gen_files}

module _ (k : MultiNodeSdk) where
  open k use {State, Ext, Rest, Coin}

  -- A file that is in the directory already, or whose place cannot be told, is passed over.
  unfoldable pub copy_gentx : String → String → Action State Ext (Unit {0})
  copy_gentx dir file s = elim (is_sub_dir k file dir s) [
    | err e ↦ (ok tt, s)
    | panic ↦ (panic, s)
    | ok inside ↦ if inside then (ok tt, s) else (copy_file k file dir >> pure tt) s
  ]

  unfoldable pub copy_gentxs :
      InitArgs Coin → List String → ℕ → Unit {0} → Action State Ext (Unit {0})
  copy_gentxs args files i done =
      for_each (copy_gentx (k.join (node_dir k args i ∷ "config" ∷ "gentx" ∷ []))) files

  pub name_chain : InitArgs Coin → Action State Ext (InitArgs Coin)
  name_chain args =
      if str_eq args.chain_id ""
      then (do
        drawn ← generate_random_string k 6
        pure (record args { chain_id = "chain-" ⧺ drawn }))
      else pure args

  -- What follows the loop over the nodes.
  pub finish_testnet : InitArgs Coin → Nodes k → Action State Ext (Unit {0})
  finish_testnet args nodes = do
    let n = rounds args.num_validators
    init_gen_files k args.chain_id nodes.gen_accounts nodes.gen_balances nodes.gen_files n
    count_up (copy_gentxs args nodes.gentxs_files) 0 n tt
    collect_gen_files k nodes.node_config nodes.node_ids nodes.val_pub_keys nodes.persistent_peers
        args

  unfoldable pub init_nodes : InitArgs Coin → ℕ → NodeConfig Rest → Action State Ext (Nodes k)
  init_nodes args n config = count_up (init_node k args) 0 n (no_nodes k args config)

  -- An array of a negative length panics.
  pub lay_out : NodeConfig Rest → InitArgs Coin → Action State Ext (Unit {0})
  lay_out config args s = elim args.num_validators [
    | negsuc n ↦ (panic, s)
    | pos n ↦ (init_nodes args n config >>= finish_testnet args) s
  ]

  pub init_testnet_files : NodeConfig Rest → InitArgs Coin → Action State Ext (Unit {0})
  init_testnet_files config args = name_chain args >>= lay_out config

  -- The command, where the contexts of the client and of the server are there.
  pub run_multi_node : NodeConfig Rest → Flags → Action State Ext (Unit {0})
  run_multi_node config f = read_args k f >>= init_testnet_files config
