-- ===== src/Keeper/Genesis.antt =====
-- Genesis of x/bps: what bad genesis data ends in.
use base_protocol_system.Base.{◌≡◌, arith, err, panic}
use base_protocol_system.Keeper.Sdk.{KeeperSdk, KeeperSdkLaws}
use base_protocol_system.Keeper.{
  Params, GenesisState, module_init_genesis, module_validate_genesis, failed_to_unmarshal,
}

module _ (k : KeeperSdk Params GenesisState) (l : KeeperSdkLaws k) where
  open k use {State, Ext, Json, params_get, params_set, unmarshal_json, marshal_json}

  -- JSON that does not unmarshal makes `InitGenesis` panic, with the state as it was, and
  -- `ValidateGenesis` answer an error that holds the reason.
  pub module_init_genesis_cases :
      (j : Json) (s : State) (e : Ext)
      → unmarshal_json j ≡ err e
      → (module_init_genesis k j s ≡ (panic, s))
        × (module_validate_genesis k j ≡ err (failed_to_unmarshal e))
  unfolding module_init_genesis module_validate_genesis
  module_init_genesis_cases j s e h = (ground arith, ground arith)
