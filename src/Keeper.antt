-- ===== src/Keeper.antt =====
-- x/bps/keeper and x/bps/types: the module's parameters behind their keeper, its message server,
-- its query server and its genesis. The parameters are one item of a store that is the model's state.
pub mod Sdk
pub mod Runs
pub mod Genesis
pub mod Authority
use base_protocol_system.Base.{
  ◌≡◌, Bool, true, false, not, ◌&&◌, ◌||◌, Option, none, some, String, if◌then◌else◌, str_eq,
}
use base_protocol_system.Base.{
  Outcome, Action, ok, err, panic, ◌>>=◌, ◌>>◌, pure, throw, read, gets, must, modify,
}
use Sdk.{KeeperSdk}

-- `types.Params` has no field.
pub data Params : Type 0 where
  params : Params

pub record GenesisState : Type 0 where
  pub module_params : Params

pub record MsgUpdateParams : Type 0 where
  pub authority : String
  pub new_params : Params

abbrev pub gov_module_name : String
gov_module_name = "gov"

-- `NewParams`, `DefaultParams`, `DefaultGenesis`
abbrev pub default_params : Params
default_params = params

abbrev pub default_genesis : GenesisState
default_genesis = record { module_params = default_params }

-- The errors that the code makes, round those of the store, the codecs and the addresses.
pub data Error (Ext : Type 0) : Type 0 where
  external : Ext → Error Ext
  invalid_authority_address : Ext → Error Ext
  invalid_signer : (expected got : String) → Error Ext
  invalid_request : Error Ext
  internal : Error Ext
  failed_to_unmarshal : Ext → Error Ext

-- `Params.Validate` and `GenesisState.Validate` refuse nothing.
pub validate : {E : Type 0} → Params → Outcome E (Unit {0})
validate p = ok tt

pub validate_genesis_state : {E : Type 0} → GenesisState → Outcome E (Unit {0})
validate_genesis_state gs = validate gs.module_params

module _ (k : KeeperSdk Params GenesisState) where
  open k use {
    State, Ext, Bytes, Json, is_not_found, bytes_equal, string_to_bytes, bytes_to_string,
    params_get, params_set, build_schema, new_module_address, new_module_address_or_bech32_address,
    unmarshal_json, marshal_json,
  }

  -- A call whose error is passed on as it is.
  abbrev pub passed : {A : Type 0} → Outcome Ext A → Outcome (Error Ext) A
  passed (ok a) = ok a
  passed (err e) = err (external e)
  passed panic = panic

  abbrev pub pass : {A : Type 0} → Action State Ext A → Action State (Error Ext) A
  pass f s = let (r, s') = f s in (passed r, s')

  pub record Keeper : Type 0 where
    pub authority_bytes : Bytes

  -- `NewKeeper`: an authority with no text, or a schema that does not build, is a panic.
  pub new_keeper : Bytes → Option Keeper
  new_keeper authority = elim (bytes_to_string authority) [
    | ok _ ↦ (if build_schema then some (record { authority_bytes = authority }) else none)
    | err _ ↦ none
    | panic ↦ none
  ]

  -- `ProvideModule`, from the authority of the module's configuration.
  pub provide_module : String → Option Keeper
  unfolding new_keeper
  provide_module config_authority = new_keeper (
      if str_eq config_authority ""
      then new_module_address gov_module_name
      else new_module_address_or_bech32_address config_authority)

  decode_authority : String → Outcome (Error Ext) Bytes
  decode_authority authority = elim (string_to_bytes authority) [
    | ok b ↦ ok b
    | err e ↦ err (invalid_authority_address e)
    | panic ↦ panic
  ]

  -- The text of the keeper's authority in the error; its own error is dropped.
  pub expected_authority : Keeper → String
  expected_authority keeper = elim (bytes_to_string keeper.authority_bytes) [ ok s ↦ s | _ ↦ "" ]

  check_authority : Keeper → String → Bytes → Action State (Error Ext) (Unit {0})
  unfolding expected_authority
  check_authority keeper got authority =
      if bytes_equal keeper.authority_bytes authority
      then pure tt
      else throw (invalid_signer (expected_authority keeper) got)

  -- `msgServer.UpdateParams`
  pub update_params : Keeper → MsgUpdateParams → Action State (Error Ext) (Unit {0})
  unfolding decode_authority check_authority validate
  update_params keeper req = do
    authority ← read (λ s. decode_authority req.authority)
    check_authority keeper req.authority authority
    read (λ s. validate req.new_params)
    pass (params_set req.new_params)

  params_or_default : Outcome Ext Params → Outcome (Error Ext) Params
  params_or_default (ok p) = ok p
  params_or_default (err e) = if is_not_found e then ok default_params else err internal
  params_or_default panic = panic

  -- `queryServer.Params`; `none` is a request that is nil.
  pub query_params : Option (Unit {0}) → Action State (Error Ext) Params
  unfolding params_or_default
  query_params none = throw invalid_request
  query_params (some _) = read (λ s. params_or_default (params_get s))

  pub init_genesis : GenesisState → Action State (Error Ext) (Unit {0})
  init_genesis gs = pass (params_set gs.module_params)

  pub export_genesis : Action State (Error Ext) GenesisState
  export_genesis = do p ← read (λ s. passed (params_get s)); pure (record { module_params = p })

  -- The module's handlers of raw JSON. An error inside `InitGenesis` and `ExportGenesis` panics.
  abbrev pub or_panic : {A : Type 0} → Action State (Error Ext) A → Action State (Error Ext) A
  or_panic f s = elim ((f s).0) [
    | ok a ↦ (ok a, (f s).1)
    | err _ ↦ (panic, (f s).1)
    | panic ↦ (panic, (f s).1)
  ]

  pub module_init_genesis : Json → Action State (Error Ext) (Unit {0})
  unfolding init_genesis
  module_init_genesis gs = do
    gen_state ← or_panic (read (λ s. passed (unmarshal_json gs)))
    or_panic (init_genesis gen_state)

  pub module_export_genesis : Action State (Error Ext) Json
  unfolding export_genesis
  module_export_genesis = do
    gen_state ← or_panic export_genesis
    or_panic (read (λ s. passed (marshal_json gen_state)))

  unmarshalled : Outcome Ext GenesisState → Outcome (Error Ext) (Unit {0})
  unfolding validate_genesis_state
  unmarshalled (ok gs) = validate_genesis_state gs
  unmarshalled (err e) = err (failed_to_unmarshal e)
  unmarshalled panic = panic

  pub module_validate_genesis : Json → Outcome (Error Ext) (Unit {0})
  unfolding unmarshalled
  module_validate_genesis bz = unmarshalled (unmarshal_json bz)

  -- `MustMarshalJSON`: `none` is its panic.
  pub module_default_genesis : Option Json
  module_default_genesis = elim (marshal_json default_genesis) [ ok bz ↦ some bz | _ ↦ none ]
