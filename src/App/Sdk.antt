-- ===== src/App/Sdk.antt =====
-- What app/app.go and app/ibc.go take from outside the repository: the dependency injection, the runtime
-- and the constructors of the IBC modules, over the state of an application and of its stores.
use base_protocol_system.Base.{◌≡◌, All, Bool, Option, some, List, String, Action, ok}

-- The constants of the IBC packages that the code uses.
pub record IbcNames : Type 0 where
  pub ibc_store : String
  pub transfer_store : String
  pub ica_host_store : String
  pub ica_controller_store : String
  pub ibc_module : String
  pub transfer_module : String
  pub ica_module : String
  pub ica_host_module : String
  pub ica_controller_module : String
  pub tm_module : String
  pub solomachine_module : String
  pub transfer_port : String
  pub gov_module : String

-- `none` of a constructor is its panic.
pub record AppSdk (State Ext : Type 0) : Type 1 where
  pub names : IbcNames
  pub Opts : Type 0
  pub BaseOption : Type 0
  pub StoreKey : Type 0
  pub KvStoreKey : Type 0
  pub KeyTable : Type 0
  pub Subspace : Type 0
  pub IbcKeeper : Type 0
  pub TransferKeeper : Type 0
  pub IcaHostKeeper : Type 0
  pub IcaControllerKeeper : Type 0
  pub Stack : Type 0
  pub StackV2 : Type 0
  pub Router : Type 0
  pub RouterV2 : Type 0
  pub LightClient : Type 0
  pub AppModule : Type 0
  pub Response : Type 0
  pub Request : Type 0
  -- depinject, runtime and baseapp
  pub inject : Opts → Action State Ext (Unit {0})
  pub optimistic_execution : BaseOption
  pub build : List BaseOption → State → State
  pub set_simulation_manager : State → State
  pub load : Bool → Action State Ext (Unit {0})
  pub set_init_chainer : (Request → Action State Ext Response) → State → State
  pub runtime_init_chainer : Request → Action State Ext Response
  pub set_module_version_map : Action State Ext (Unit {0})
  pub find_store_key : String → State → Option StoreKey
  pub as_kv_store_key : StoreKey → Option KvStoreKey
  pub register_stores : List String → Action State Ext (Unit {0})
  pub register_modules : List AppModule → Action State Ext (Unit {0})
  -- the legacy parameters
  pub ibc_key_table : KeyTable
  pub transfer_key_table : KeyTable
  pub ica_controller_key_table : KeyTable
  pub ica_host_key_table : KeyTable
  pub with_key_table : String → KeyTable → Action State Ext (Unit {0})
  pub subspace : String → State → Subspace
  -- the keepers; an address with no text is the empty one
  pub module_address : String → State → String
  pub new_ibc_keeper : Option KvStoreKey → Subspace → String → State → Option IbcKeeper
  pub new_transfer_keeper :
      Option KvStoreKey → Subspace → IbcKeeper → String → State → Option TransferKeeper
  pub new_ica_host_keeper :
      Option KvStoreKey → Subspace → IbcKeeper → String → State → Option IcaHostKeeper
  pub new_ica_controller_keeper :
      Option KvStoreKey → Subspace → IbcKeeper → String → State → Option IcaControllerKeeper
  pub set_ibc_keeper : IbcKeeper → State → State
  pub set_transfer_keeper : TransferKeeper → State → State
  pub set_ica_host_keeper : IcaHostKeeper → State → State
  pub set_ica_controller_keeper : IcaControllerKeeper → State → State
  -- the routes
  pub transfer_stack : TransferKeeper → Stack
  pub ica_controller_stack : IcaControllerKeeper → Stack
  pub ica_host_stack : IcaHostKeeper → Stack
  pub transfer_stack_v2 : TransferKeeper → StackV2
  pub new_router : Router
  pub add_route : String → Stack → Router → Option Router
  pub new_router_v2 : RouterV2
  pub add_route_v2 : String → StackV2 → RouterV2 → Option RouterV2
  pub set_router : Router → Action State Ext (Unit {0})
  pub set_router_v2 : RouterV2 → Action State Ext (Unit {0})
  pub tm_light_client : State → LightClient
  pub solomachine_light_client : State → LightClient
  pub add_client_route : String → LightClient → Action State Ext (Unit {0})
  -- the modules
  pub ibc_app_module : IbcKeeper → AppModule
  pub transfer_app_module : TransferKeeper → AppModule
  pub ica_app_module : IcaControllerKeeper → IcaHostKeeper → AppModule
  pub tm_app_module : LightClient → AppModule
  pub solomachine_app_module : LightClient → AppModule

-- The stores that were registered have keys of the kind that keepers want, and what comes later finds
-- them under the same names.
pub record AppLaws {State Ext : Type 0} (a : AppSdk State Ext) : Type 0 where
  pub register_stores-find :
      (stores : List String) (s t : State)
      → a.register_stores stores s ≡ (ok tt, t)
      → All
          (λ n.
            (f : a.StoreKey) × (key : a.KvStoreKey) × (a.find_store_key n t ≡ some f)
            × (a.as_kv_store_key f ≡ some key))
          stores
  pub with_key_table_finds :
      (m : String) (table : a.KeyTable) (n : String) (s : State)
      → a.find_store_key n ((a.with_key_table m table s).1) ≡ a.find_store_key n s
  pub set_ibc_keeper_finds :
      (x : a.IbcKeeper) (n : String) (s : State)
      → a.find_store_key n (a.set_ibc_keeper x s) ≡ a.find_store_key n s
  pub set_transfer_keeper_finds :
      (x : a.TransferKeeper) (n : String) (s : State)
      → a.find_store_key n (a.set_transfer_keeper x s) ≡ a.find_store_key n s
  pub set_ica_host_keeper_finds :
      (x : a.IcaHostKeeper) (n : String) (s : State)
      → a.find_store_key n (a.set_ica_host_keeper x s) ≡ a.find_store_key n s
  pub set_ica_controller_keeper_finds :
      (x : a.IcaControllerKeeper) (n : String) (s : State)
      → a.find_store_key n (a.set_ica_controller_keeper x s) ≡ a.find_store_key n s
  pub set_router_finds :
      (x : a.Router) (n : String) (s : State)
      → a.find_store_key n ((a.set_router x s).1) ≡ a.find_store_key n s
  pub set_router_v2_finds :
      (x : a.RouterV2) (n : String) (s : State)
      → a.find_store_key n ((a.set_router_v2 x s).1) ≡ a.find_store_key n s
  pub add_client_route_finds :
      (m : String) (x : a.LightClient) (n : String) (s : State)
      → a.find_store_key n ((a.add_client_route m x s).1) ≡ a.find_store_key n s
  pub register_modules_finds :
      (ms : List a.AppModule) (n : String) (s : State)
      → a.find_store_key n ((a.register_modules ms s).1) ≡ a.find_store_key n s
  pub simulation_finds :
      (n : String) (s : State)
      → a.find_store_key n (a.set_simulation_manager s) ≡ a.find_store_key n s
  pub set_init_chainer_finds :
      (f : a.Request → Action State Ext a.Response) (n : String) (s : State)
      → a.find_store_key n (a.set_init_chainer f s) ≡ a.find_store_key n s
  pub load_finds :
      (latest : Bool) (n : String) (s : State)
      → a.find_store_key n ((a.load latest s).1) ≡ a.find_store_key n s
