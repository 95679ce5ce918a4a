-- ===== src/BpsModule.antt =====
-- x/bps/module: module.go, depinject.go and simulation.go, and RegisterInterfaces of x/bps/types/codec.go.
-- The handlers of the genesis stand with the keeper.
pub mod Provided
mod Runs
use base_protocol_system.Base.{
  ℕ, Option, none, some, List, [], ◌∷◌, ◌++◌, map, String, Action, ok, pure,
}
use base_protocol_system.Keeper.Sdk.{KeeperSdk}
use base_protocol_system.Keeper
use base_protocol_system.Keeper.{Keeper, provide_module, module_default_genesis}
use base_protocol_system.Wire.Module.{Module}
use base_protocol_system.Wire.Tx.{MsgUpdateParams, MsgUpdateParamsResponse}
use base_protocol_system.Wire.Query.{QueryParamsRequest, QueryParamsResponse}
use base_protocol_system.Service.{Failure, msg_server, query_server}
use base_protocol_system.Gateway.Sdk.{GatewaySdk}
use base_protocol_system.Gateway.{register_query_handler}
use base_protocol_system.Root.Sdk.{Table}
use base_protocol_system.Root.{put}

abbrev pub module_name : String
module_name = "bps"

-- What `RegisterInterfaces` tells a registry: the interfaces, and the messages that implement them.
pub data Interface : Type 0 where
  sdk_msg tx_msg_response : Interface

pub data Implementation : Type 0 where
  msg_update_params msg_update_params_response : Implementation

abbrev pub register_interfaces :
    List (Interface × List Implementation) → List (Interface × List Implementation)
register_interfaces registrar =
    registrar
    ++ ((sdk_msg, msg_update_params ∷ []) ∷ (tx_msg_response, msg_update_params_response ∷ []) ∷ [])

module _ (k : KeeperSdk Keeper.Params Keeper.GenesisState) (text : List ℕ → String) where
  open k use {State}

  -- A service with its server, as a registrar gets it.
  pub data Service : Type 0 where
    msg_service :
        (MsgUpdateParams → Action State (Failure k text) MsgUpdateParamsResponse) → Service
    query_service :
        (QueryParamsRequest → Action State (Failure k text) QueryParamsResponse) → Service

  -- `NewMsgServerImpl` and `NewQueryServerImpl`
  abbrev pub new_msg_server_impl : Keeper k → Service
  new_msg_server_impl keeper = msg_service (msg_server k text keeper)

  abbrev pub new_query_server_impl : Keeper k → Service
  new_query_server_impl keeper = query_service (query_server k text)

-- `AuthKeeper` and `BankKeeper` are the keepers of other modules, which the module does not call.
module _ (k : KeeperSdk Keeper.Params Keeper.GenesisState) (text : List ℕ → String)
    (AuthKeeper BankKeeper : Type 0) where
  open k use {State, Ext, Json}

  pub record AppModule : Type 0 where
    pub keeper : Keeper k
    pub auth_keeper : AuthKeeper
    pub bank_keeper : BankKeeper

  abbrev pub new_app_module : Keeper k → AuthKeeper → BankKeeper → AppModule
  new_app_module keeper auth bank = record {
    keeper = keeper;
    auth_keeper = auth;
    bank_keeper = bank;
  }

  -- The inputs that the keeper's interface does not hold already.
  pub record ModuleInputs : Type 0 where
    pub config : Module
    pub in_auth_keeper : AuthKeeper
    pub in_bank_keeper : BankKeeper

  pub record ModuleOutputs : Type 0 where
    pub bps_keeper : Keeper k
    pub bps_module : AppModule

  -- `ProvideModule`, with the outputs around the keeper.
  unfoldable pub provide_outputs : ModuleInputs → Option ModuleOutputs
  provide_outputs inputs = elim (provide_module k (text inputs.config.config_authority)) [
    | none ↦ none
    | some keeper ↦ some (record {
      bps_keeper = keeper;
      bps_module = new_app_module keeper inputs.in_auth_keeper inputs.in_bank_keeper;
    })
  ]

  -- `RegisterServices`, over a registrar that keeps what it gets.
  unfoldable pub register_services : AppModule → List (Service k text) → List (Service k text)
  register_services am registrar =
      registrar
      ++ (new_msg_server_impl k text am.keeper ∷ new_query_server_impl k text am.keeper ∷ [])

  -- `BeginBlock` and `EndBlock`
  abbrev pub begin_block : AppModule → Action State (Failure k text) (Unit {0})
  begin_block am = pure tt

  abbrev pub end_block : AppModule → Action State (Failure k text) (Unit {0})
  end_block am = pure tt

  -- `RegisterGRPCGatewayRoutes`: the registration returns no error, so that it does not panic.
  module _ {W : Type 0} (g : GatewaySdk State (Failure k text) W) where
    abbrev pub register_grpc_gateway_routes : g.Pattern → g.Conn → g.Mux → g.Routes → g.Routes
    register_grpc_gateway_routes pattern client_ctx mux =
        register_query_handler g pattern mux client_ctx

  -- `GenerateGenesisState`: the texts of the accounts are made and dropped. `none` is the panic of
  -- `MustMarshalJSON`.
  abbrev pub generate_genesis_state : Table Json → Option (Table Json)
  generate_genesis_state gen_state = elim (module_default_genesis k) [
    | none ↦ none
    | some bz ↦ some (put module_name bz gen_state)
  ]
