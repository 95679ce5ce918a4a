-- ===== src/App.antt =====
-- app/app.go and app/ibc.go: how an application is put together.
pub mod Sdk
pub mod Console
pub mod Stores
pub mod Runs
use base_protocol_system.Base.{
  Bool, Option, none, some, List, [], ◌∷◌, ◌++◌, String, Outcome, Action, ok, err, panic, ◌>>=◌,
  ◌>>◌, pure, gets, must, modify, panics,
}
use Sdk.{AppSdk, IbcNames}

module _ {State Ext : Type 0} (a : AppSdk State Ext) where
  open a use {
    Opts, BaseOption, KvStoreKey, IbcKeeper, TransferKeeper, IcaHostKeeper, IcaControllerKeeper,
    Router, RouterV2, LightClient, AppModule, Request, Response,
  }

  -- `GetKey`; the key that is found may be of another kind.
  pub get_key : String → State → Option KvStoreKey
  get_key store_key s = elim (a.find_store_key store_key s) [
    | none ↦ none
    | some found ↦ a.as_kv_store_key found
  ]

  -- The four stores that the dependency injection does not know.
  abbrev pub ibc_stores : List String
  ibc_stores =
      a.names.ibc_store ∷ a.names.transfer_store ∷ a.names.ica_host_store
      ∷ a.names.ica_controller_store ∷ []

  unfoldable pub register_key_tables : Action State Ext (Unit {0})
  register_key_tables = do
    a.with_key_table a.names.ibc_module a.ibc_key_table
    a.with_key_table a.names.transfer_module a.transfer_key_table
    a.with_key_table a.names.ica_controller_module a.ica_controller_key_table
    a.with_key_table a.names.ica_host_module a.ica_host_key_table

  -- The four keepers, each on the key of its store, its parameters and the address of gov.
  pub record IbcKeepers : Type 0 where
    pub ibc_keeper : IbcKeeper
    pub transfer_keeper : TransferKeeper
    pub ica_host_keeper : IcaHostKeeper
    pub ica_controller_keeper : IcaControllerKeeper

  unfoldable pub create_ibc_keeper : String → Action State Ext IbcKeeper
  create_ibc_keeper gov = do
    made ← gets (λ s.
        a.new_ibc_keeper (get_key a.names.ibc_store s) (a.subspace a.names.ibc_module s) gov s)
    keeper ← must made
    modify (a.set_ibc_keeper keeper)
    pure keeper

  unfoldable pub create_transfer_keeper : String → IbcKeeper → Action State Ext TransferKeeper
  create_transfer_keeper gov ibc = do
    made ← gets (λ s.
        a.new_transfer_keeper (get_key a.names.transfer_store s)
          (a.subspace a.names.transfer_module s) ibc gov s)
    keeper ← must made
    modify (a.set_transfer_keeper keeper)
    pure keeper

  unfoldable pub create_ica_host_keeper : String → IbcKeeper → Action State Ext IcaHostKeeper
  create_ica_host_keeper gov ibc = do
    made ← gets (λ s.
        a.new_ica_host_keeper (get_key a.names.ica_host_store s)
          (a.subspace a.names.ica_host_module s) ibc gov s)
    keeper ← must made
    modify (a.set_ica_host_keeper keeper)
    pure keeper

  unfoldable pub create_ica_controller_keeper :
      String → IbcKeeper → Action State Ext IcaControllerKeeper
  create_ica_controller_keeper gov ibc = do
    made ← gets (λ s.
        a.new_ica_controller_keeper (get_key a.names.ica_controller_store s)
          (a.subspace a.names.ica_controller_module s) ibc gov s)
    keeper ← must made
    modify (a.set_ica_controller_keeper keeper)
    pure keeper

  unfoldable pub create_keepers : Action State Ext IbcKeepers
  create_keepers = do
    gov ← gets (a.module_address a.names.gov_module)
    ibc ← create_ibc_keeper gov
    transfer ← create_transfer_keeper gov ibc
    host ← create_ica_host_keeper gov ibc
    controller ← create_ica_controller_keeper gov ibc
    pure (record {
      ibc_keeper = ibc;
      transfer_keeper = transfer;
      ica_host_keeper = host;
      ica_controller_keeper = controller;
    })

  -- `AddRoute` panics on a route that is there.
  unfoldable pub ibc_router : IbcKeepers → Action State Ext Router
  ibc_router ks = do
    with_transfer ←
        must
          (a.add_route a.names.transfer_module (a.transfer_stack ks.transfer_keeper) a.new_router)
    with_controller ← must (
        a.add_route a.names.ica_controller_module (a.ica_controller_stack ks.ica_controller_keeper)
          with_transfer)
    must (a.add_route a.names.ica_host_module (a.ica_host_stack ks.ica_host_keeper) with_controller)

  unfoldable pub set_routes : IbcKeepers → Action State Ext (Unit {0})
  set_routes ks = do
    router ← ibc_router ks
    router_v2 ← must (
        a.add_route_v2 a.names.transfer_port (a.transfer_stack_v2 ks.transfer_keeper)
          a.new_router_v2)
    a.set_router router
    a.set_router_v2 router_v2

  -- The modules that the application is given.
  abbrev pub ibc_app_modules : IbcKeepers → LightClient → LightClient → List AppModule
  ibc_app_modules ks tm solo =
      a.ibc_app_module ks.ibc_keeper
      ∷ a.transfer_app_module ks.transfer_keeper
      ∷ a.ica_app_module ks.ica_controller_keeper ks.ica_host_keeper
      ∷ a.tm_app_module tm
      ∷ a.solomachine_app_module solo
      ∷ []

  unfoldable pub register_ibc_app_modules : IbcKeepers → Action State Ext (Unit {0})
  register_ibc_app_modules ks = do
    tm ← gets a.tm_light_client
    a.add_client_route a.names.tm_module tm
    solo ← gets a.solomachine_light_client
    a.add_client_route a.names.solomachine_module solo
    a.register_modules (ibc_app_modules ks tm solo)

  -- The routes and the modules of the keepers.
  unfoldable pub connect : IbcKeepers → Action State Ext (Unit {0})
  connect ks = set_routes ks >> register_ibc_app_modules ks

  -- `registerIBCModules`, which takes the options and does not look at them.
  unfoldable pub register_ibc_modules : Action State Ext (Unit {0})
  register_ibc_modules = do
    a.register_stores ibc_stores
    register_key_tables
    ks ← create_keepers
    connect ks

  -- The function that `New` sets as the application's `InitChainer`.
  pub init_chainer : Request → Action State Ext Response
  init_chainer req = a.set_module_version_map >> a.runtime_init_chainer req

  -- What `New` does before it loads a version.
  unfoldable pub assemble : Opts → List BaseOption → Action State Ext (Unit {0})
  assemble opts base_options = do
    panics (a.inject opts)
    modify (a.build (base_options ++ (a.optimistic_execution ∷ [])))
    panics register_ibc_modules
    modify a.set_simulation_manager
    modify (a.set_init_chainer init_chainer)

  -- `New`: what fails in it panics.
  unfoldable pub new : Opts → List BaseOption → Bool → Action State Ext (Unit {0})
  new opts base_options load_latest = assemble opts base_options >> panics (a.load load_latest)
