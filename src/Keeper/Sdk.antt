-- ===== src/Keeper/Sdk.antt =====
-- What x/bps takes from outside the repository: the store item of the parameters, the address codec,
-- the module addresses of the SDK and its JSON codec.
use base_protocol_system.Base.{◌≡◌, ◌↔◌, Bool, true, String, Outcome, Action, ok}

pub record KeeperSdk (Params GenesisState : Type 0) : Type 1 where
  pub State : Type 0
  pub Ext : Type 0
  pub Bytes : Type 0
  pub Json : Type 0
  pub is_not_found : Ext → Bool
  pub bytes_equal : Bytes → Bytes → Bool
  pub string_to_bytes : String → Outcome Ext Bytes
  pub bytes_to_string : Bytes → Outcome Ext String
  pub params_get : State → Outcome Ext Params
  pub params_set : Params → Action State Ext (Unit {0})
  -- Whether the schema builds.
  pub build_schema : Bool
  pub new_module_address : String → Bytes
  pub new_module_address_or_bech32_address : String → Bytes
  pub unmarshal_json : Json → Outcome Ext GenesisState
  pub marshal_json : GenesisState → Outcome Ext Json

-- A store gives back what was set, bytes are compared by their contents, and JSON that was marshalled
-- is read back.
pub record KeeperSdkLaws {P G : Type 0} (k : KeeperSdk P G) : Type 0 where
  pub bytes_equal_iff : (a b : k.Bytes) → (k.bytes_equal a b ≡ true) ↔ (a ≡ b)
  pub get-set : (p : P) (s t : k.State) → k.params_set p s ≡ (ok tt, t) → k.params_get t ≡ ok p
  pub unmarshal-marshal : (g : G) (j : k.Json) → k.marshal_json g ≡ ok j → k.unmarshal_json j ≡ ok g
