-- ===== src/Wiring.antt =====
-- app/app_config.go and app/app.go: the orders in which the modules run, and the permissions of their
-- accounts. The names of the modules and of the permissions are constants of the packages that
-- declare the modules; the model enumerates the constants, and a function gives their texts.
pub mod Accounts
mod Runs
use base_protocol_system.Base.{
  Bool, true, false, ◌||◌, Option, none, some, List, [], ◌∷◌, map, String, str_eq, if◌then◌else◌,
}

-- A constant by the package that declares it.
pub data Name : Type 0 where
  upgrade auth distr mint slashing evidence staking authz epochs ibc bps gov feegrant group : Name
  consensus bank genutil vesting nft circuit transfer ica params tx runtime : Name
  fee_collector bonded_pool not_bonded_pool : Name
  minter burner : Name
  acc legacy_bps_store_key : Name

abbrev pub pre_blockers : List Name
pre_blockers = upgrade ∷ auth ∷ []

abbrev pub begin_blockers : List Name
begin_blockers = mint ∷ distr ∷ slashing ∷ evidence ∷ staking ∷ authz ∷ epochs ∷ ibc ∷ bps ∷ []

abbrev pub end_blockers : List Name
end_blockers = gov ∷ staking ∷ feegrant ∷ group ∷ bps ∷ []

abbrev pub init_genesis_order : List Name
init_genesis_order =
    consensus ∷ auth ∷ bank ∷ distr ∷ staking ∷ slashing ∷ gov ∷ mint ∷ genutil ∷ evidence ∷ authz
    ∷ feegrant ∷ vesting ∷ nft ∷ group ∷ upgrade ∷ circuit ∷ epochs ∷ ibc ∷ transfer ∷ ica ∷ bps
    ∷ []

-- A module and the key of its store, where that is not its name.
abbrev pub override_store_keys : List (Name × Name)
override_store_keys = (auth, acc) ∷ (bps, legacy_bps_store_key) ∷ []

-- The entries of `Modules`, in order.
abbrev pub configured_modules : List Name
configured_modules =
    runtime ∷ auth ∷ vesting ∷ bank ∷ staking ∷ slashing ∷ tx ∷ genutil ∷ authz ∷ upgrade ∷ distr
    ∷ evidence ∷ mint ∷ group ∷ nft ∷ feegrant ∷ gov ∷ consensus ∷ circuit ∷ params ∷ epochs ∷ bps
    ∷ []

-- The accounts of the modules, with what they may do.
abbrev pub module_acc_perms : List (Name × List Name)
module_acc_perms =
    (fee_collector, [])
    ∷ (distr, [])
    ∷ (mint, minter ∷ [])
    ∷ (bonded_pool, burner ∷ staking ∷ [])
    ∷ (not_bonded_pool, burner ∷ staking ∷ [])
    ∷ (gov, burner ∷ [])
    ∷ (nft, [])
    ∷ (transfer, minter ∷ burner ∷ [])
    ∷ (ica, [])
    ∷ []

abbrev pub block_acc_addrs : List Name
block_acc_addrs = fee_collector ∷ distr ∷ mint ∷ bonded_pool ∷ not_bonded_pool ∷ nft ∷ []

-- `dup[key] = value` on a map of texts, and a lookup in it.
module _ {V : Type 0} where
  pub insert : String → V → List (String × V) → List (String × V)
  insert k v [] = (k, v) ∷ []
  insert k v ((j, w) ∷ m) = if str_eq j k then (k, v) ∷ m else (j, w) ∷ insert k v m

  pub lookup : String → List (String × V) → Option V
  lookup k [] = none
  lookup k ((j, v) ∷ m) = if str_eq j k then some v else lookup k m

module _ (text : Name → String) where
  pub copy_perms :
      List (Name × List Name) → List (String × List String) → List (String × List String)
  copy_perms [] dup = dup
  copy_perms ((account, perms) ∷ more) dup =
      copy_perms more (insert (text account) (map text perms) dup)

  pub get_macc_perms : List (String × List String)
  get_macc_perms = copy_perms module_acc_perms []

  pub mark_all : List String → List (String × Bool) → List (String × Bool)
  mark_all [] result = result
  mark_all (addr ∷ addrs) result = mark_all addrs (insert addr true result)

  pub keys_of : List (String × List String) → List String
  keys_of [] = []
  keys_of ((k, _) ∷ m) = k ∷ keys_of m

  pub blocked_from : List Name → List (String × Bool)
  blocked_from [] = mark_all (keys_of get_macc_perms) []
  blocked_from (a ∷ as') = mark_all (map text (a ∷ as')) []

  pub blocked_addresses : List (String × Bool)
  blocked_addresses = blocked_from block_acc_addrs

  -- `BlockedAddresses()[addr]`
  pub is_blocked : String → Bool
  is_blocked addr = elim (lookup addr blocked_addresses) [ none ↦ false | some b ↦ b ]
