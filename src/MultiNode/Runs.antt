-- ===== src/MultiNode/Runs.antt =====
-- A platform with one directory, coins that are numbers, and the theorems of these modules at concrete inputs.
use base_protocol_system.Base.{
  ℕ, ◌+◌, ◌≡◌, refl, Bool, Option, ◌==◌, true, false, none, some, List, [], ◌∷◌, String, ◌⧺◌,
  str_eq, str_eq_same, starts_with, itoa, digits, nth, pos, pos_part, ◌-ℤ◌, ◌<ℤ◌, arith, ok, err,
  if◌then◌else◌,
}
use Prim.Native.Char.{code}
use base_protocol_system.MultiNode.Sdk.{
  MultiNodeSdk, MultiNodeLaws, NodeConfig, Balance, BankGenesis,
}
use base_protocol_system.MultiNode.Args.{InitArgs, read_ports, default_ports}
use base_protocol_system.MultiNode.Nodes.{
  Nodes, init_node, finish_node, make_key, genesis_coins, make_gentx, val_tokens, write_node,
  start_app_config, no_nodes, prepare_node, make_node, config_of, or_remove,
}
use base_protocol_system.MultiNode.Files.{write_file, count_up}
use base_protocol_system.MultiNode.Testnet.{init_nodes}
use base_protocol_system.MultiNode.Peers.{IsFilled, init_nodes-IsFilled}
use base_protocol_system.MultiNode.Genesis.{set_balances, add_balances}
use base_protocol_system.MultiNode.Ports.{p2p, rpc, port, ports_apart}
use base_protocol_system.MultiNode.Removal.{FailsAt, prepare_node_removes}
use base_protocol_system.MultiNode.Supply.{set_balances-supply, held}

unfoldable pub joined : List String → String
joined [] = ""
joined (p ∷ []) = p
joined (p ∷ q ∷ ps) = p ⧺ "/" ⧺ joined (q ∷ ps)

-- What follows the last slash.
unfoldable pub last_part : String → String → String
last_part p String.[] = p
last_part p (String.◌∷◌ c s) =
    last_part (if code c == b'/' then "" else p ⧺ String.◌∷◌ c String.[]) s

-- The state is what each name holds. The validator's files fail for "bad1".
abbrev pub sdk : MultiNodeSdk
sdk = record {
  State = String → Option String;
  Ext = String;
  Rest = Unit {0};
  Bytes = String;
  File = String;
  PubKey = ℕ;
  Keyring = String;
  Algos = String;
  Algo = String;
  Address = String;
  Coin = ℕ;
  Coins = ℕ;
  Account = String;
  Any = String;
  Msg = String;
  Tx = String;
  GenState = ℕ;
  Json = ℕ;
  AppGenesis = ℕ;
  Time = ℕ;
  join = joined;
  base = λ p. last_part "" p;
  abs = λ p s. ok p;
  rel = λ p q. ok (if starts_with q p then "x" else "..");
  is_abs = λ p. false;
  mkdir_all = λ d s. (ok tt, s);
  remove_all = λ d s. (none, λ q. if str_eq q d then none else s q);
  write_os_file = λ f b s. (ok tt, s);
  open_file = λ f s. (ok f, s);
  create = λ f s. (ok f, s);
  copy = λ d f s. (ok 1, λ q. if str_eq q d then s f else s q);
  sync = λ f s. (ok tt, s);
  close = λ f s. s;
  intn = λ n s. (ok 3, s);
  now = λ s. 5;
  initialize_node_validator_files =
      λ c s. if str_eq c.moniker "bad1" then (err "no key", s) else (ok (c.moniker, 7), s);
  genesis_file = λ c. c.root_dir;
  default_app_config = record {
    min_gas_prices = "";
    api_enable = true;
    enable_hostname_label = true;
    telemetry_enabled = true;
    prometheus_retention_time = 60;
    grpc_address = "";
    api_address = "";
    app_rest = tt;
  };
  write_app_config = λ f c s. (ok tt, s);
  write_node_config = λ f c s. (ok tt, s);
  new_keyring = λ b d s. (ok d, s);
  supported_algorithms = λ kb. kb;
  new_signing_algo = λ a as'. ok a;
  generate_save_coin_key = λ kb n a s. (ok (n, "words"), s);
  marshal_secret = ok;
  account_text = λ a. a;
  validator_text = λ a. a;
  default_bond_denom = "stake";
  new_int_from_string = λ t. if str_eq t "" then none else some (pos 1);
  tokens_from_consensus_power = λ n. pos n;
  new_coin = λ d n. some (pos_part n);
  sort = λ cs. elim cs [ [] ↦ 0 | c ∷ ds ↦ c ];
  add = λ a b. some (a + b);
  new_base_account = λ a. a;
  new_msg_create_validator = λ v key c n. ok n;
  set_msgs = ok;
  set_memo = λ m tx. m;
  sign = λ c m kb n tx s. (ok tx, s);
  encode_tx = ok;
  default_genesis = 4;
  auth_genesis = λ g. some (record { accounts = []; auth_rest = tt });
  set_auth_genesis = λ a g. some g;
  pack_accounts = ok;
  bank_genesis = λ g. some (record { balances = []; supply = g; bank_rest = tt });
  set_bank_genesis = λ b g. some b.supply;
  sanitize_genesis_balances = λ bs. bs;
  marshal_indent = ok;
  save_as = λ c j f s. (ok tt, s);
  app_genesis_from_file = λ f s. (ok 0, s);
  gen_app_state_from_config = λ c i g s. (ok (c, g), s);
  export_genesis_file_with_time = λ f c j t s. (ok tt, s);
}

summed : (a b c : ℕ) → some (a + b) ≡ some c → c ≡ a + b
summed a b c e = ground arith

abbrev is_there : Option String → Bool
is_there none = false
is_there (some c) = true

removed :
    (d : String) (s : String → Option String) → is_there (if str_eq d d then none else s d) ≡ false
removed d s = let same = str_eq_same d d refl in ground arith

abbrev sdk_laws : MultiNodeLaws sdk
sdk_laws = record {
  there = λ d s. is_there (s d);
  there-remove_all = λ d s e. removed d s;
  amount_of = λ c d. c;
  amount_of-add = λ a b c d e. summed a b c e;
}

abbrev args : InitArgs ℕ
args = record {
  algo = "secp256k1";
  chain_id = "chain";
  keyring_backend = "test";
  min_gas_prices = "";
  node_dir_prefix = "bad";
  num_validators = pos 2;
  output_dir = "out";
  starting_ip_address = "localhost";
  validators_stakes_amount = [];
  ports = "1" ∷ "2" ∷ [];
}

abbrev config : NodeConfig (Unit {0})
config = record {
  root_dir = "";
  moniker = "";
  rpc_listen_address = "";
  persistent_peers = "";
  allow_duplicate_ip = false;
  p2p_listen_address = "";
  proxy_app = "";
  prometheus_listen_addr = "";
  prometheus = false;
  node_rest = tt;
}

default_of_three : read_ports (pos 3) (some "") ≡ "26657" ∷ "26654" ∷ "26651" ∷ []
unfolding read_ports default_ports itoa digits ◌-ℤ◌
default_of_three = refl

-- Every name holds an empty file.
abbrev full : String → Option String
full q = some ""

-- What is left when the output directory is removed.
abbrev left : String → Option String
left q = if str_eq q "out" then none else some ""

fails : prepare_node sdk args 1 (no_nodes sdk args config) full ≡ (err "no key", left)
unfolding prepare_node make_node or_remove no_nodes itoa digits joined
fails = refl

prepare_node_removes_example :
    (u : String → Option String) × FailsAt sdk args 1 (config_of sdk args 1 config) full "no key" u
    × ((sdk.remove_all "out" u).1 ≡ left)
    × ((sdk.remove_all "out" u).0 ≡ none → sdk_laws.there "out" left ≡ false)
prepare_node_removes_example =
    prepare_node_removes sdk sdk_laws args 1 (no_nodes sdk args config) full left "no key" fails

abbrev balances : List (Balance ℕ)
balances = record { address = "a"; coins = 10 } ∷ record { address = "b"; coins = 20 } ∷ []

balanced : set_balances sdk balances 4 full ≡ (ok 34, full)
unfolding set_balances add_balances
balanced = refl

set_balances-supply_example :
    (full ≡ full)
    × ((old new' : BankGenesis ℕ (Unit {0})) × (sdk.bank_genesis 4 ≡ some old)
        × (sdk.set_bank_genesis new' 4 ≡ some 34)
        × (new'.balances ≡ sdk.sanitize_genesis_balances balances)
        × ((d : String) → new'.supply ≡ old.supply + held sdk sdk_laws d new'.balances))
set_balances-supply_example = set_balances-supply sdk sdk_laws balances 4 34 full full balanced

ports_apart_example :
    (pos 0 <ℤ port p2p 1) × (port p2p 1 ≡ port rpc 1316 → (p2p ≡ rpc) × ◌≡◌ {A = ℕ} 1 1316)
ports_apart_example = ports_apart p2p rpc 1 1316 (omega arith) (omega arith)

abbrev pub good : InitArgs ℕ
good = record args { node_dir_prefix = "node" }

abbrev two_nodes : Nodes sdk
two_nodes = record {
  node_ids = "node0" ∷ "node1" ∷ [];
  val_pub_keys = 7 ∷ 7 ∷ [];
  gen_accounts = "node0" ∷ "node1" ∷ [];
  gen_balances =
      record { address = "node0"; coins = 1000 } ∷ record { address = "node1"; coins = 1000 } ∷ [];
  gen_files = "out/node0" ∷ "out/node1" ∷ [];
  persistent_peers = "node0@localhost:26656,node1@localhost:26653";
  gentxs_files =
      "out/node0/config/gentx/gentx-node0.json" ∷ "out/node1/config/gentx/gentx-node1.json" ∷ [];
  node_config = record config {
    root_dir = "out/node1";
    moniker = "node1";
    rpc_listen_address = "tcp://0.0.0.0:2";
  };
  app_config = record (start_app_config sdk good) {
    grpc_address = "localhost:9088";
    api_address = "tcp://localhost:1316";
  };
}

made : init_nodes sdk good 2 config full ≡ (ok two_nodes, full)
unfolding init_nodes init_node prepare_node make_node or_remove finish_node make_key write_file
    genesis_coins make_gentx val_tokens write_node no_nodes start_app_config count_up itoa digits
    nth ◌-ℤ◌ joined
made = refl

init_nodes-IsFilled_example : IsFilled sdk good 2 two_nodes
init_nodes-IsFilled_example = init_nodes-IsFilled sdk good 2 config full full two_nodes made
