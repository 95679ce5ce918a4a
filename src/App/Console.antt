-- ===== src/App/Console.antt =====
-- RegisterAPIRoutes of app/app.go, and docs/docs.go: the console of the application's API.
use mathlib.Core.Path.{subst}
use base_protocol_system.Base.{
  ◌≡◌, refl, sym, ap, ◌∙◌, Bool, false, Option, none, some, String, str_eq, starts_with, Outcome,
  Action, ◌≢◌, inl, inr, arith, Outcome-cases, ok, err, panic, ◌>>◌, modify, panics, then-ok,
  panics-ok,
}

-- What the console's page shows.
pub record Page : Type 0 where
  pub title : String
  pub url : String

-- The fields of the API's server and configuration that the code reads.
pub record ApiServer (ClientCtx Router : Type 0) : Type 0 where
  pub client_ctx : ClientCtx
  pub router : Router

-- The runtime, the server and the router of the API, and templates. `none` of `parse_fs` is the nil
-- template that comes with an error.
pub record ConsoleSdk (State Ext : Type 0) : Type 1 where
  pub ClientCtx : Type 0
  pub Router : Type 0
  pub ApiConfig : Type 0
  pub Request : Type 0
  pub Writer : Type 0
  pub Template : Type 0
  pub swagger : ApiConfig → Bool
  pub runtime_api_routes : ApiServer ClientCtx Router → ApiConfig → Action State Ext (Unit {0})
  pub register_swagger_api : ClientCtx → Router → Bool → Action State Ext (Unit {0})
  pub handle : Router → String → (Request → Action Writer Ext (Unit {0})) → State → State
  pub file_server : Request → Action Writer Ext (Unit {0})
  pub parse_fs : String → Option Template
  pub execute : Option Template → Page → Action Writer Ext (Unit {0})

abbrev pub api_file : String
api_file = "/static/openapi.json"

abbrev pub index_file : String
index_file = "template/index.tpl"

abbrev pub app_name : String
app_name = "bps"

-- `_ = t.Execute(...)`
abbrev ignoring : {S E : Type 0} → Action S E (Unit {0}) → Action S E (Unit {0})
ignoring m s =
    let (r, s') = m s in elim r [ ok a ↦ (ok tt, s') | err e ↦ (ok tt, s') | panic ↦ (panic, s') ]

module _ {State Ext : Type 0} (k : ConsoleSdk State Ext) where
  open k use {ClientCtx, Router, ApiConfig, Request, Writer}

  unfoldable pub handler : String → Request → Action Writer Ext (Unit {0})
  handler title req =
      ignoring (k.execute (k.parse_fs index_file) (record { title = title; url = api_file }))

  unfoldable pub register_open_api_service : String → Router → State → State
  register_open_api_service title rtr s =
      k.handle rtr "/" (handler title) (k.handle rtr api_file k.file_server s)

  unfoldable pub register_api_routes :
      ApiServer ClientCtx Router → ApiConfig → Action State Ext (Unit {0})
  register_api_routes api_svr api_config = do
    k.runtime_api_routes api_svr api_config
    panics (k.register_swagger_api api_svr.client_ctx api_svr.router (k.swagger api_config))
    modify (register_open_api_service app_name api_svr.router)

-- A route takes the path it is registered for where no route has it, and leaves the other paths; the
-- runtime's routes are those of the gateway, and those of swagger are below /swagger/.
pub record ConsoleLaws {State Ext : Type 0} (k : ConsoleSdk State Ext) : Type 0 where
  pub serve : k.Router → String → State → Option (k.Request → Action k.Writer Ext (Unit {0}))
  pub handle_takes :
      (r : k.Router) (p : String) (h : k.Request → Action k.Writer Ext (Unit {0})) (s : State)
      → serve r p s ≡ none
      → serve r p (k.handle r p h s) ≡ some h
  pub handle_leaves :
      (r : k.Router) (p q : String) (h : k.Request → Action k.Writer Ext (Unit {0})) (s : State)
      → str_eq p q ≡ false
      → serve r q (k.handle r p h s) ≡ serve r q s
  pub runtime_leaves :
      (a : ApiServer k.ClientCtx k.Router) (c : k.ApiConfig) (q : String) (s : State)
      → serve a.router q ((k.runtime_api_routes a c s).1) ≡ serve a.router q s
  pub swagger_leaves :
      (x : k.ClientCtx) (r : k.Router) (b : Bool) (q : String) (s : State)
      → starts_with q "/swagger/" ≡ false
      → serve r q ((k.register_swagger_api x r b s).1) ≡ serve r q s

module _ {State Ext : Type 0} (k : ConsoleSdk State Ext) (l : ConsoleLaws k) where
  -- A handler that writes what the template makes of a title and an address, whatever the request; an
  -- error of the template is dropped.
  abbrev pub Shows : String → String → (k.Request → Action k.Writer Ext (Unit {0})) → Type 0
  Shows title url h =
      (req : k.Request) (w : k.Writer)
      → let shown =
          k.execute (k.parse_fs "template/index.tpl") (record { title = title; url = url }) w in
        ((h req w).1 ≡ shown.1) × (shown.0 ≢ panic → (h req w).0 ≡ ok tt)

  -- The root shows the console with the application's name, and the address that the console gives
  -- is served from the files.
  abbrev pub HasConsole : k.Router → State → Type 0
  HasConsole r s =
      ((h : k.Request → Action k.Writer Ext (Unit {0})) × (l.serve r "/" s ≡ some h)
        × Shows "bps" "/static/openapi.json" h)
      × (l.serve r "/static/openapi.json" s ≡ some k.file_server)

  handler-Shows : (title : String) → Shows title "/static/openapi.json" (handler k title)
  unfolding handler
  handler-Shows title req w =
      let page : Page = record { title = title; url = api_file } in
      elim (Outcome-cases ((k.execute (k.parse_fs index_file) page w).0)) [
        | inl (u, p) ↦ (ground arith, λ _. ground arith)
        | inr (inl (x, p)) ↦ (ground arith, λ _. ground arith)
        | inr (inr p) ↦ (ground arith, λ h. absurd (h p))
      ]

  register_open_api_service-HasConsole :
      (r : k.Router) (s : State)
      → l.serve r "/" s ≡ none
      → l.serve r api_file s ≡ none
      → HasConsole r (register_open_api_service k app_name r s)
  unfolding register_open_api_service
  register_open_api_service-HasConsole r s root_free file_free =
      let with_file = k.handle r api_file k.file_server s in
      (
        (
          handler k app_name,
          l.handle_takes r "/" (handler k app_name) with_file
              (l.handle_leaves r api_file "/" k.file_server s refl ∙ root_free),
          handler-Shows app_name,
        ),
        l.handle_leaves r "/" api_file (handler k app_name) with_file refl
            ∙ l.handle_takes r api_file k.file_server s file_free,
      )

  runtime_kept :
      (a : ApiServer k.ClientCtx k.Router) (c : k.ApiConfig) (q : String) (s u : State)
      → k.runtime_api_routes a c s ≡ (ok tt, u)
      → l.serve a.router q u ≡ l.serve a.router q s
  runtime_kept a c q s u e =
      ap (l.serve a.router q) (sym (ap (λ p. p.1) e)) ∙ l.runtime_leaves a c q s

  swagger_kept :
      (a : ApiServer k.ClientCtx k.Router) (c : k.ApiConfig) (q : String) (u v : State)
      → starts_with q "/swagger/" ≡ false
      → ◌≡◌ {A = Outcome Ext (Unit {0}) × State}
          (panics (k.register_swagger_api a.client_ctx a.router (k.swagger c)) u)
          (ok tt, v)
      → l.serve a.router q v ≡ l.serve a.router q u
  swagger_kept a c q u v other e =
      let done = panics-ok (k.register_swagger_api a.client_ctx a.router (k.swagger c)) u v tt e in
      ap (l.serve a.router q) (sym (ap (λ p. p.1) done))
      ∙ l.swagger_leaves a.client_ctx a.router (k.swagger c) q u other

  -- When the routes of the API are registered, and no route has the root or "/static/openapi.json"
  -- before, the root writes what the template makes of the title "bps" and of that address, and the
  -- address is served from the files.
  pub register_api_routes-HasConsole :
      (a : ApiServer k.ClientCtx k.Router) (c : k.ApiConfig) (s t : State)
      → register_api_routes k a c s ≡ (ok tt, t)
      → l.serve a.router "/" s ≡ none
      → l.serve a.router api_file s ≡ none
      → HasConsole a.router t
  unfolding register_api_routes
  register_api_routes-HasConsole a c s t e root_free file_free =
      let swaggered = panics (k.register_swagger_api a.client_ctx a.router (k.swagger c)) in
      let finished = modify (register_open_api_service k app_name a.router) in
      let (u, first, rest) = then-ok (k.runtime_api_routes a c) (swaggered >> finished) s t tt e in
      let (v, second, last) = then-ok swaggered finished u t tt rest in
      let kept : (q : String)
          → starts_with q "/swagger/" ≡ false
          → l.serve a.router q v ≡ l.serve a.router q s =
        λ q other. swagger_kept a c q u v other second ∙ runtime_kept a c q s u first in
      subst (HasConsole a.router) (ap (λ p. p.1) last) (
        register_open_api_service-HasConsole a.router v (kept "/" refl ∙ root_free)
          (kept api_file refl ∙ file_free))
