-- ===== src/MultiNode/Args.antt =====
-- cmd/bpsd/cmd/testnet_multi_node.go, the arguments that the command reads from its flags.
use base_protocol_system.Base.{
  ℕ, zero, suc, ◌*◌, Option, none, some, List, [], ◌∷◌, String, str_eq, split, itoa, ◌⧺◌, ℤ, pos,
  negsuc, ◌-ℤ◌, if◌then◌else◌, Action, ◌>>=◌, pure, must,
}
use base_protocol_system.MultiNode.Sdk.{MultiNodeSdk}

-- The texts of the flags, where each can be read; a flag that cannot is the zero value.
pub record Flags : Type 0 where
  pub output_dir : String
  pub keyring_backend : String
  pub chain_id : String
  pub min_gas_prices : String
  pub node_dir_prefix : String
  pub starting_ip_address : String
  pub num_validators : ℤ
  pub algo : String
  pub validators_stake_amount : Option String
  pub list_ports : Option String

-- The keys of the two maps are 0, 1, 2 and so on.
pub record InitArgs (Coin : Type 0) : Type 0 where
  pub algo : String
  pub chain_id : String
  pub keyring_backend : String
  pub min_gas_prices : String
  pub node_dir_prefix : String
  pub num_validators : ℤ
  pub output_dir : String
  pub starting_ip_address : String
  pub validators_stakes_amount : List Coin
  pub ports : List String

-- How often `for i := 0; i < n; i++` goes round.
abbrev pub rounds : ℤ → ℕ
rounds (pos n) = n
rounds (negsuc n) = 0

abbrev pub rpc_port : ℕ → ℤ
rpc_port i = pos 26657 -ℤ pos (3 * i)

unfoldable pub default_ports : ℕ → ℕ → List String
default_ports i zero = []
default_ports i (suc n) = itoa (rpc_port i) ∷ default_ports (suc i) n

unfoldable pub read_ports : ℤ → Option String → List String
read_ports n none = []
read_ports n (some s) = if str_eq s "" then default_ports 0 (rounds n) else split s

module _ (k : MultiNodeSdk) where
  open k use {State, Ext, Coin}

  -- A negative amount makes `sdk.NewCoin` panic.
  pub read_stakes : List String → Action State Ext (List Coin)
  read_stakes [] = pure []
  read_stakes (amount ∷ amounts) = elim (k.new_int_from_string amount) [
    | none ↦ read_stakes amounts
    | some a ↦ do
      coin ← must (k.new_coin k.default_bond_denom a)
      coins ← read_stakes amounts
      pure (coin ∷ coins)
  ]

  pub stakes_of : Option String → Action State Ext (List Coin)
  stakes_of none = pure []
  stakes_of (some s) = read_stakes (split s)

  pub read_args : Flags → Action State Ext (InitArgs Coin)
  read_args f = do
    stakes ← stakes_of f.validators_stake_amount
    pure (record {
      algo = f.algo;
      chain_id = f.chain_id;
      keyring_backend = f.keyring_backend;
      min_gas_prices = f.min_gas_prices;
      node_dir_prefix = f.node_dir_prefix;
      num_validators = f.num_validators;
      output_dir = f.output_dir;
      starting_ip_address = f.starting_ip_address;
      validators_stakes_amount = stakes;
      ports = read_ports f.num_validators f.list_ports;
    })

-- `addTestnetFlagsToCmd` and the flags of the command itself: what they are when they are not given.
pub default_flags : String → String → Flags
default_flags bond_denom secp256k1_type = record {
  output_dir = "./.testnets";
  keyring_backend = "test";
  chain_id = "";
  min_gas_prices = "0.0001" ⧺ bond_denom;
  node_dir_prefix = "validator";
  starting_ip_address = "localhost";
  num_validators = pos 4;
  algo = secp256k1_type;
  validators_stake_amount = some "100000000,100000000,100000000,100000000";
  list_ports = some "";
}

-- The name under which a flag is looked up.
pub normalize : String → String → String
normalize flag_key_type name = if str_eq name "algo" then flag_key_type else name
