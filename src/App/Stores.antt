-- ===== src/App/Stores.antt =====
-- The stores of the IBC modules in an application that was put together.
use base_protocol_system.Base.{
  ◌≡◌, refl, sym, ap, ◌∙◌, All, Bool, Option, some, List, [], ◌∷◌, ◌++◌, String, arith, Action, ok,
  ◌>>=◌, ◌>>◌, pure, gets, must, modify, panics, then-ok, panics-ok,
}
use base_protocol_system.Base.Keeps.{Keeps, Keeps-bind, Keeps-must}
use base_protocol_system.App.Sdk.{AppSdk, AppLaws}
use base_protocol_system.App.{
  get_key, ibc_stores, IbcKeepers, register_key_tables, create_ibc_keeper, create_transfer_keeper,
  create_ica_host_keeper, create_ica_controller_keeper, create_keepers, ibc_router, set_routes,
  register_ibc_app_modules, connect, register_ibc_modules, init_chainer, assemble, new,
}

module _ {State Ext : Type 0} (a : AppSdk State Ext) (l : AppLaws a) where
  -- There is a key for a store, and for each of some stores.
  abbrev pub HasStore : State → String → Type 0
  HasStore s n =
      (f : a.StoreKey) × (key : a.KvStoreKey) × (a.find_store_key n s ≡ some f)
      × (a.as_kv_store_key f ≡ some key)

  HasAll : List String → State → Type 0
  HasAll names s = All (HasStore s) names

  still_found :
      (names : List String) (s t : State)
      → ((n : String) → a.find_store_key n t ≡ a.find_store_key n s)
      → HasAll names s
      → HasAll names t
  unfolding HasAll
  still_found [] s t same h = tt
  still_found (n ∷ names) s t same ((f, key, found, kv), h) =
      ((f, key, same n ∙ found, kv), still_found names s t same h)

  abbrev HasStores : State → Type 0
  HasStores = HasAll (ibc_stores a)

  finds :
      {A : Type 0} (m : Action State Ext A)
      → ((n : String) (s : State) → a.find_store_key n ((m s).1) ≡ a.find_store_key n s)
      → Keeps HasStores m
  finds m same s t r e h =
      still_found (ibc_stores a) s t (λ n. sym (ap (λ p. a.find_store_key n p.1) e) ∙ same n s) h

  register_key_tables-HasStores : Keeps HasStores (register_key_tables a)
  unfolding register_key_tables
  register_key_tables-HasStores =
      let host = a.with_key_table a.names.ica_host_module a.ica_host_key_table in
      let controller = a.with_key_table a.names.ica_controller_module a.ica_controller_key_table in
      let transfer = a.with_key_table a.names.transfer_module a.transfer_key_table in
      let ibc = a.with_key_table a.names.ibc_module a.ibc_key_table in
      Keeps-bind HasStores ibc (λ _. transfer >> (controller >> host))
        (finds ibc (l.with_key_table_finds a.names.ibc_module a.ibc_key_table))
        λ _.
          Keeps-bind HasStores transfer (λ _. controller >> host)
            (finds transfer (l.with_key_table_finds a.names.transfer_module a.transfer_key_table))
            λ _.
              Keeps-bind HasStores controller (λ _. host)
                (finds controller
                  (l.with_key_table_finds a.names.ica_controller_module a.ica_controller_key_table))
                λ _.
                  finds host (l.with_key_table_finds a.names.ica_host_module a.ica_host_key_table)

  set_made : {K : Type 0} → (K → State → State) → K → Action State Ext K
  set_made put keeper = modify (put keeper) >> pure keeper

  -- A keeper that is made and set.
  made_of : {K : Type 0} → (State → Option K) → (K → State → State) → Action State Ext K
  made_of make put = gets make >>= λ made. must made >>= set_made put

  made_keeper :
      {K : Type 0} (make : State → Option K) (put : K → State → State)
      → ((x : K) (n : String) (s : State) → a.find_store_key n (put x s) ≡ a.find_store_key n s)
      → Keeps HasStores (made_of make put)
  unfolding made_of set_made
  made_keeper make put same =
      Keeps-bind HasStores (gets {E = Ext} make) (λ made. must made >>= set_made put)
        (finds (gets make) (λ n s. refl))
        λ made.
          Keeps-bind HasStores (must {E = Ext} made) (set_made put) (Keeps-must HasStores made)
            λ keeper. finds (set_made put keeper) (λ n s. same keeper n s)

  create_keepers-HasStores : Keeps HasStores (create_keepers a)
  unfolding create_keepers create_ibc_keeper create_transfer_keeper create_ica_host_keeper
      create_ica_controller_keeper made_of set_made
  create_keepers-HasStores =
      let K = IbcKeepers a in
      let all : a.IbcKeeper
          → a.TransferKeeper
          → a.IcaHostKeeper
          → a.IcaControllerKeeper
          → Action State Ext K =
        λ i t h c. pure (record {
          ibc_keeper = i;
          transfer_keeper = t;
          ica_host_keeper = h;
          ica_controller_keeper = c;
        }) in
      let controller = create_ica_controller_keeper a in
      let host : String → a.IbcKeeper → a.TransferKeeper → Action State Ext K =
        λ gov i t. create_ica_host_keeper a gov i >>= λ h. controller gov i >>= all i t h in
      let transfer : String → a.IbcKeeper → Action State Ext K =
        λ gov i. create_transfer_keeper a gov i >>= host gov i in
      Keeps-bind HasStores (gets {E = Ext} (a.module_address a.names.gov_module))
        (λ gov. create_ibc_keeper a gov >>= transfer gov)
        (finds (gets (a.module_address a.names.gov_module)) (λ n s. refl))
        λ gov.
          Keeps-bind HasStores (create_ibc_keeper a gov) (transfer gov)
            (made_keeper
              (λ s.
                a.new_ibc_keeper (get_key a a.names.ibc_store s) (a.subspace a.names.ibc_module s)
                  gov s)
              a.set_ibc_keeper l.set_ibc_keeper_finds)
            λ i.
              Keeps-bind HasStores (create_transfer_keeper a gov i) (host gov i)
                (made_keeper
                  (λ s.
                    a.new_transfer_keeper (get_key a a.names.transfer_store s)
                      (a.subspace a.names.transfer_module s) i gov s)
                  a.set_transfer_keeper l.set_transfer_keeper_finds)
                λ t.
                  Keeps-bind HasStores (create_ica_host_keeper a gov i)
                    (λ h. controller gov i >>= all i t h)
                    (made_keeper
                      (λ s.
                        a.new_ica_host_keeper (get_key a a.names.ica_host_store s)
                          (a.subspace a.names.ica_host_module s) i gov s)
                      a.set_ica_host_keeper l.set_ica_host_keeper_finds)
                    λ h.
                      Keeps-bind HasStores (controller gov i) (all i t h)
                        (made_keeper
                          (λ s.
                            a.new_ica_controller_keeper (get_key a a.names.ica_controller_store s)
                              (a.subspace a.names.ica_controller_module s) i gov s)
                          a.set_ica_controller_keeper l.set_ica_controller_keeper_finds)
                        λ c. finds (all i t h c) (λ n s. refl)

  set_routes-HasStores : (ks : IbcKeepers a) → Keeps HasStores (set_routes a ks)
  unfolding set_routes ibc_router
  set_routes-HasStores ks =
      let with_host : a.Router → Action State Ext a.Router =
        λ r. must (a.add_route a.names.ica_host_module (a.ica_host_stack ks.ica_host_keeper) r) in
      let first =
        a.add_route a.names.transfer_module (a.transfer_stack ks.transfer_keeper) a.new_router in
      let second : a.Router → Option a.Router = λ r.
        a.add_route a.names.ica_controller_module (a.ica_controller_stack ks.ica_controller_keeper)
          r in
      let v2 =
        a.add_route_v2 a.names.transfer_port (a.transfer_stack_v2 ks.transfer_keeper)
          a.new_router_v2 in
      let set : a.Router → a.RouterV2 → Action State Ext (Unit {0}) =
        λ r r2. a.set_router r >> a.set_router_v2 r2 in
      let on : a.Router → Action State Ext (Unit {0}) = λ r. must v2 >>= set r in
      Keeps-bind HasStores (ibc_router a ks) on
        (Keeps-bind HasStores (must {E = Ext} first) (λ r. must (second r) >>= with_host)
          (Keeps-must HasStores first)
          λ r.
            Keeps-bind HasStores (must {E = Ext} (second r)) with_host
              (Keeps-must HasStores (second r))
              λ r'.
                Keeps-must HasStores
                  (a.add_route a.names.ica_host_module (a.ica_host_stack ks.ica_host_keeper) r'))
        λ r. Keeps-bind HasStores (must {E = Ext} v2) (set r) (Keeps-must HasStores v2) λ r2.
          Keeps-bind HasStores (a.set_router r) (λ _. a.set_router_v2 r2)
            (finds (a.set_router r) (l.set_router_finds r))
            λ _. finds (a.set_router_v2 r2) (l.set_router_v2_finds r2)

  register_ibc_app_modules-HasStores :
      (ks : IbcKeepers a) → Keeps HasStores (register_ibc_app_modules a ks)
  unfolding register_ibc_app_modules
  register_ibc_app_modules-HasStores ks =
      let modules : a.LightClient → a.LightClient → List a.AppModule = λ tm solo.
        a.ibc_app_module ks.ibc_keeper
        ∷ a.transfer_app_module ks.transfer_keeper
        ∷ a.ica_app_module ks.ica_controller_keeper ks.ica_host_keeper
        ∷ a.tm_app_module tm
        ∷ a.solomachine_app_module solo
        ∷ [] in
      let with_solo : a.LightClient → a.LightClient → Action State Ext (Unit {0}) = λ tm solo.
        a.add_client_route a.names.solomachine_module solo
        >> a.register_modules (modules tm solo) in
      let with_tm : a.LightClient → Action State Ext (Unit {0}) = λ tm.
        a.add_client_route a.names.tm_module tm
        >> (gets a.solomachine_light_client >>= with_solo tm) in
      Keeps-bind HasStores (gets {E = Ext} a.tm_light_client) with_tm
        (finds (gets a.tm_light_client) (λ n s. refl))
        λ tm.
          Keeps-bind HasStores (a.add_client_route a.names.tm_module tm)
            (λ _. gets a.solomachine_light_client >>= with_solo tm)
            (finds (a.add_client_route a.names.tm_module tm)
              (l.add_client_route_finds a.names.tm_module tm))
            λ _.
              Keeps-bind HasStores (gets {E = Ext} a.solomachine_light_client) (with_solo tm)
                (finds (gets a.solomachine_light_client) (λ n s. refl))
                λ solo.
                  Keeps-bind HasStores (a.add_client_route a.names.solomachine_module solo)
                    (λ _. a.register_modules (modules tm solo))
                    (finds (a.add_client_route a.names.solomachine_module solo)
                      (l.add_client_route_finds a.names.solomachine_module solo))
                    λ _.
                      finds (a.register_modules (modules tm solo))
                        (l.register_modules_finds (modules tm solo))

  connect-HasStores : (ks : IbcKeepers a) → Keeps HasStores (connect a ks)
  unfolding connect
  connect-HasStores ks =
      Keeps-bind HasStores (set_routes a ks) (λ _. register_ibc_app_modules a ks)
        (set_routes-HasStores ks) λ _. register_ibc_app_modules-HasStores ks

  register_ibc_modules-HasStores :
      (s t : State) → register_ibc_modules a s ≡ (ok tt, t) → HasStores t
  unfolding register_ibc_modules HasAll
  register_ibc_modules-HasStores s t e =
      let later = create_keepers a >>= connect a in
      let (s', stored, rest) =
        then-ok (a.register_stores (ibc_stores a)) (register_key_tables a >> later) s t tt e in
      Keeps-bind HasStores (register_key_tables a) (λ _. later) register_key_tables-HasStores
        (λ _.
          Keeps-bind HasStores (create_keepers a) (connect a) create_keepers-HasStores
            connect-HasStores)
        s' t tt rest (l.register_stores-find (ibc_stores a) s s' stored)

  keys_found :
      (names : List String) (t : State)
      → HasAll names t
      → All (λ n. (key : a.KvStoreKey) × (get_key a n t ≡ some key)) names
  unfolding HasAll get_key
  keys_found [] t h = tt
  keys_found (n ∷ names) t ((f, key, found, kv), h) = ((key, ground arith), keys_found names t h)

  abbrev pub HasKey : State → String → Type 0
  HasKey t n = (key : a.KvStoreKey) × (get_key a n t ≡ some key)

  -- In an application that `New` returns, `GetKey` finds a key for each of the stores of IBC, of the
  -- transfers and of the host and the controller of interchain accounts.
  pub new-HasStore :
      (opts : a.Opts) (base_options : List a.BaseOption) (latest : Bool) (s t : State)
      → new a opts base_options latest s ≡ (ok tt, t)
      → HasKey t a.names.ibc_store
        × HasKey t a.names.transfer_store
        × HasKey t a.names.ica_host_store
        × HasKey t a.names.ica_controller_store
  unfolding new assemble HasAll
  new-HasStore opts base_options latest s t e =
      let put : Action State Ext (Unit {0}) = modify a.set_simulation_manager in
      let chain : Action State Ext (Unit {0}) = modify (a.set_init_chainer (init_chainer a)) in
      let registered : Action State Ext (Unit {0}) = panics (register_ibc_modules a) in
      let built : Action State Ext (Unit {0}) =
        modify (a.build (base_options ++ (a.optimistic_execution ∷ []))) in
      let loaded : Action State Ext (Unit {0}) = panics (a.load latest) in
      let (s5, assembled, load) = then-ok (assemble a opts base_options) loaded s t tt e in
      let (s1, _, e1) =
        then-ok (panics (a.inject opts)) (built >> (registered >> (put >> chain))) s s5 tt
          assembled in
      let (s2, _, e2) = then-ok built (registered >> (put >> chain)) s1 s5 tt e1 in
      let (s3, e3, e4) = then-ok registered (put >> chain) s2 s5 tt e2 in
      let have =
        register_ibc_modules-HasStores s2 s3
          (panics-ok {F = Ext} (register_ibc_modules a) s2 s3 tt e3) in
      let kept =
        Keeps-bind HasStores put (λ _. chain) (finds put l.simulation_finds)
          (λ _. finds chain (l.set_init_chainer_finds (init_chainer a))) s3 s5 tt e4 have in
      let end =
        finds (a.load latest) (l.load_finds latest) s5 t tt
          (panics-ok {F = Ext} (a.load latest) s5 t tt load) kept in
      let keys = keys_found (ibc_stores a) t end in (keys.0, keys.1.0, keys.1.1.0, keys.1.1.1.0)
