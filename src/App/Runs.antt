-- ===== src/App/Runs.antt =====
-- Applications whose state is a list of store names, and one that only loads.
use base_protocol_system.Base.{
  ◌≡◌, refl, ap, All, Bool, true, false, Option, none, some, List, [], ◌∷◌, ◌++◌, String, str_eq,
  str_eq_same, if◌then◌else◌, Outcome, Action, ok,
}
use mathlib.Core.Path.{subst}
use base_protocol_system.App.Sdk.{IbcNames, AppSdk, AppLaws}
use base_protocol_system.App.{
  ibc_stores, register_key_tables, create_ibc_keeper, create_transfer_keeper,
  create_ica_host_keeper, create_ica_controller_keeper, create_keepers, ibc_router, set_routes,
  register_ibc_app_modules, connect, register_ibc_modules, assemble, new,
}
use base_protocol_system.App.Stores.{HasKey, new-HasStore}
use base_protocol_system.App.Console.{
  ConsoleSdk, ConsoleLaws, app_name, HasConsole, register_api_routes, register_open_api_service,
  register_api_routes-HasConsole,
}

abbrev names : IbcNames
names = record {
  ibc_store = "ibc";
  transfer_store = "transfer";
  ica_host_store = "icahost";
  ica_controller_store = "icacontroller";
  ibc_module = "ibc";
  transfer_module = "transfer";
  ica_module = "interchainaccounts";
  ica_host_module = "icahost";
  ica_controller_module = "icacontroller";
  tm_module = "07-tendermint";
  solomachine_module = "06-solomachine";
  transfer_port = "transfer";
  gov_module = "gov";
}

-- Every call but those on the stores leaves the state alone; the options are texts, and so
-- are the modules, their names.
abbrev pub idle :
    (S E : Type 0)
    → (List String → Action S E (Unit {0}))
    → (String → S → Option String)
    → AppSdk S E
idle S E register find = record {
  names = names;
  Opts = String;
  BaseOption = String;
  StoreKey = String;
  KvStoreKey = String;
  KeyTable = Unit {0};
  Subspace = Unit {0};
  IbcKeeper = Unit {0};
  TransferKeeper = Unit {0};
  IcaHostKeeper = Unit {0};
  IcaControllerKeeper = Unit {0};
  Stack = Unit {0};
  StackV2 = Unit {0};
  Router = List String;
  RouterV2 = List String;
  LightClient = Unit {0};
  AppModule = String;
  Response = Unit {0};
  Request = Unit {0};
  inject = λ o s. (ok tt, s);
  optimistic_execution = "optimistic";
  build = λ os s. s;
  set_simulation_manager = λ s. s;
  load = λ latest s. (ok tt, s);
  set_init_chainer = λ f s. s;
  runtime_init_chainer = λ r s. (ok tt, s);
  set_module_version_map = λ s. (ok tt, s);
  find_store_key = find;
  as_kv_store_key = some;
  register_stores = register;
  register_modules = λ ms s. (ok tt, s);
  ibc_key_table = tt;
  transfer_key_table = tt;
  ica_controller_key_table = tt;
  ica_host_key_table = tt;
  with_key_table = λ m k s. (ok tt, s);
  subspace = λ m s. tt;
  module_address = λ m s. m;
  new_ibc_keeper = λ k p g s. some tt;
  new_transfer_keeper = λ k p i g s. some tt;
  new_ica_host_keeper = λ k p i g s. some tt;
  new_ica_controller_keeper = λ k p i g s. some tt;
  set_ibc_keeper = λ x s. s;
  set_transfer_keeper = λ x s. s;
  set_ica_host_keeper = λ x s. s;
  set_ica_controller_keeper = λ x s. s;
  transfer_stack = λ x. tt;
  ica_controller_stack = λ x. tt;
  ica_host_stack = λ x. tt;
  transfer_stack_v2 = λ x. tt;
  new_router = [];
  add_route = λ n x r. some (n ∷ r);
  new_router_v2 = [];
  add_route_v2 = λ n x r. some (n ∷ r);
  set_router = λ r s. (ok tt, s);
  set_router_v2 = λ r s. (ok tt, s);
  tm_light_client = λ s. tt;
  solomachine_light_client = λ s. tt;
  add_client_route = λ n x s. (ok tt, s);
  ibc_app_module = λ x. "ibc";
  transfer_app_module = λ x. "transfer";
  ica_app_module = λ x y. "interchainaccounts";
  tm_app_module = λ x. "07-tendermint";
  solomachine_app_module = λ x. "06-solomachine";
}

-- A store that is in the list is its own key.
abbrev find : String → List String → Option String
find n [] = none
find n (m ∷ ms) = if str_eq n m then some m else find n ms

abbrev sdk : AppSdk (List String) Bool
sdk = idle (List String) Bool (λ ns s. (ok tt, ns ++ s)) find

abbrev IsFound : List String → String → Type 0
IsFound s n = (f : String) × (key : String) × (find n s ≡ some f) × (some f ≡ some key)

more : (m n : String) (s : List String) → IsFound s n → IsFound (m ∷ s) n
more m n s (f, key, found, kv) = go (str_eq n m)
  where
    go :
        (b : Bool)
        → (g : String) × (h : String) × ((if b then some m else find n s) ≡ some g)
          × (some g ≡ some h)
    go true = (m, m, refl, refl)
    go false = (f, f, found, refl)

mores : (m : String) (ns s : List String) → All (IsFound s) ns → All (IsFound (m ∷ s)) ns
mores m [] s h = tt
mores m (n ∷ ns) s (h, hs) = (more m n s h, mores m ns s hs)

All-found : (ns s : List String) → All (IsFound (ns ++ s)) ns
All-found [] s = tt
All-found (n ∷ ns) s =
    ((n, n, rw (str_eq_same n n refl) refl, refl), mores n ns (ns ++ s) (All-found ns s))

sdk_laws : AppLaws sdk
sdk_laws = record {
  register_stores-find = λ ns s t e.
      subst (λ u. All (IsFound u) ns) (ap (λ (p : Outcome Bool (Unit {0}) × List String). p.1) e)
        (All-found ns s);
  with_key_table_finds = λ m k n s. refl;
  set_ibc_keeper_finds = λ x n s. refl;
  set_transfer_keeper_finds = λ x n s. refl;
  set_ica_host_keeper_finds = λ x n s. refl;
  set_ica_controller_keeper_finds = λ x n s. refl;
  set_router_finds = λ x n s. refl;
  set_router_v2_finds = λ x n s. refl;
  add_client_route_finds = λ m x n s. refl;
  register_modules_finds = λ ms n s. refl;
  simulation_finds = λ n s. refl;
  set_init_chainer_finds = λ f n s. refl;
  load_finds = λ latest n s. refl;
}

started : new sdk "" [] true [] ≡ (ok tt, ibc_stores sdk)
unfolding new assemble register_ibc_modules register_key_tables create_keepers create_ibc_keeper
    create_transfer_keeper create_ica_host_keeper create_ica_controller_keeper connect set_routes
    ibc_router register_ibc_app_modules
started = refl

new-HasStore_example :
    HasKey sdk sdk_laws (ibc_stores sdk) "ibc"
    × HasKey sdk sdk_laws (ibc_stores sdk) "transfer"
    × HasKey sdk sdk_laws (ibc_stores sdk) "icahost"
    × HasKey sdk sdk_laws (ibc_stores sdk) "icacontroller"
new-HasStore_example = new-HasStore sdk sdk_laws "" [] true [] (ibc_stores sdk) started

-- A router that is the handler of each path; a writer holds what was written.
abbrev Handler : Type 0
Handler = Unit {0} → Action String String (Unit {0})

or_else : Option Handler → Handler → Option Handler
or_else none h = some h
or_else (some g) h = some g

abbrev route : String → Handler → (String → Option Handler) → String → Option Handler
route p h s q = if str_eq p q then or_else (s q) h else s q

abbrev console_sdk : ConsoleSdk (String → Option Handler) String
console_sdk = record {
  ClientCtx = Unit {0};
  Router = Unit {0};
  ApiConfig = Bool;
  Request = Unit {0};
  Writer = String;
  Template = String;
  swagger = λ c. c;
  runtime_api_routes = λ a c s. (ok tt, s);
  register_swagger_api = λ x r b s. (ok tt, s);
  handle = λ r p h s. route p h s;
  file_server = λ r w. (ok tt, "files");
  parse_fs = λ f. some f;
  execute = λ t page w. (ok tt, page.title);
}

takes :
    (p : String) (h : Handler) (s : String → Option Handler) → s p ≡ none → route p h s p ≡ some h
unfolding or_else
takes p h s free = rw (str_eq_same p p refl) rw free refl

leaves :
    (p q : String) (h : Handler) (s : String → Option Handler)
    → str_eq p q ≡ false
    → route p h s q ≡ s q
leaves p q h s other = rw other refl

abbrev console_laws : ConsoleLaws console_sdk
console_laws = record {
  serve = λ r p s. s p;
  handle_takes = λ r p h s free. takes p h s free;
  handle_leaves = λ r p q h s other. leaves p q h s other;
  runtime_leaves = λ a c q s. refl;
  swagger_leaves = λ x r b q s other. refl;
}

abbrev no_routes : String → Option Handler
no_routes q = none

abbrev console_routes : String → Option Handler
console_routes = register_open_api_service console_sdk app_name tt no_routes

routed :
    register_api_routes console_sdk (record { client_ctx = tt; router = tt }) true no_routes
    ≡ (ok tt, console_routes)
unfolding register_api_routes
routed = refl

register_api_routes-HasConsole_example : HasConsole console_sdk console_laws tt console_routes
register_api_routes-HasConsole_example =
    register_api_routes-HasConsole console_sdk console_laws
      (record { client_ctx = tt; router = tt }) true no_routes console_routes routed refl refl
