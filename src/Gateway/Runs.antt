-- ===== src/Gateway/Runs.antt =====
-- A gateway whose response is the parameters that were written last, over the keeper of one cell.
use base_protocol_system.Base.{
  ◌≡◌, ◌⊎◌, refl, ap, Option, none, some, [], String, str_eq, Outcome, Action, ok, err, panic,
  if◌then◌else◌,
}
use base_protocol_system.Keeper
use base_protocol_system.Keeper.{update_params, query_params}
use base_protocol_system.Keeper.Runs.{sdk, sdk_laws, gov_keeper}
use base_protocol_system.Wire.Error.{Decoded}
use base_protocol_system.Wire.Params.{params}
use base_protocol_system.Wire.Query.{QueryParamsResponse, found_unmarshal}
use base_protocol_system.Wire.Query.RoundTrip.{request_marshal-nil, found_unmarshal-found_marshal}
use base_protocol_system.Service.{Failure, wire_params, update_params_handler, params_handler}
use base_protocol_system.Service.Runs.{text, by_gov, fits, bytes_by_gov, marshalled, updated}
use base_protocol_system.Gateway.Sdk.{GatewaySdk, GatewayLaws}
use base_protocol_system.Gateway.{register_query_handler_server, register_query_handler}
use base_protocol_system.Gateway.Answers.{keeper_server, get_params_cases}
use base_protocol_system.Gateway.EndToEnd.{Leads, Forwards, update-get}

abbrev Written : Type 0
Written = Option QueryParamsResponse

abbrev Errors : Type 0
Errors = Failure sdk text

abbrev Handler : Type 0
Handler = String → Unit {0} → Action (Option Keeper.Params × Written) (Unit {0} ⊎ Errors) (Unit {0})

abbrev match_path : String → String → Option (Unit {0})
match_path p req = if str_eq p req then some tt else none

abbrev Serving : Type 0
Serving = Action (Option Keeper.Params × Written) (Unit {0} ⊎ Errors) (Unit {0})

abbrev route : Handler → String → Option (Unit {0}) → Serving
route h req none s = (ok tt, s)
route h req (some path) s = h req path s

abbrev serve_route : Option (String × Handler) → String → Serving
serve_route none req s = (ok tt, s)
serve_route (some (p, h)) req s = route h req (match_path p req) s

-- Requests and patterns are paths, and the last route is the only one. The connection leads to the
-- service of the keeper.
abbrev gateway : GatewaySdk (Option Keeper.Params) Errors Written
gateway = record {
  Request = String;
  PathParams = Unit {0};
  Ctx = Unit {0};
  Mux = Unit {0};
  Routes = Option (String × Handler);
  Pattern = String;
  Marshaler = Unit {0};
  Stream = Unit {0};
  Metadata = Unit {0};
  Conn = Unit {0};
  DialOption = Unit {0};
  Ext = Unit {0};
  request_context = λ req. tt;
  with_cancel = λ ctx. ctx;
  new_stream = tt;
  with_server_transport_stream = λ stream ctx. ctx;
  marshaler_for_request = λ mux req. (tt, tt);
  annotate_incoming_context = λ ctx mux req. ok ctx;
  annotate_context = λ ctx mux req. ok ctx;
  zero_metadata = tt;
  join_stream = λ stream s md. md;
  with_server_metadata = λ md ctx. ctx;
  http_error = λ ctx mux out req e w. none;
  forward_response_message = λ ctx mux out req resp w. some resp;
  new_pattern = λ version ops pool verb. some "/antasena/bps/bps/v1/params";
  handle = λ method p h routes. some (p, h);
  dial = λ endpoint opts. ok tt;
  invoke_params =
      λ conn ctx name req s. let (r, t) = params_handler sdk text none [] s in ((r, tt), t);
  invoke_update_params = λ conn ctx name msg s.
      let (r, t) = update_params_handler sdk text gov_keeper none bytes_by_gov s in ((r, tt), t);
  no_routes = none;
  serve = serve_route;
  matches = λ method p req. match_path p req;
}

gateway_laws : GatewayLaws gateway
gateway_laws = record { serve-handle = λ method p h req path e. ap (route h req) e }

leads : Leads sdk sdk_laws text gateway gateway_laws tt
leads ctx req bytes reply s t resp back sent handled written read =
    let start : QueryParamsResponse = record { found_params = params } in
    let nil = request_marshal-nil req in
    let empty : bytes ≡ [] = cc in
    let (reply', written', read') = found_unmarshal-found_marshal resp start in
    let replied : reply' ≡ reply = cc in
    let read_back : found_unmarshal reply start ≡ Decoded.ok resp = rw (← replied) read' in
    let same : resp ≡ back = cc in
    let called : params_handler sdk text none [] s ≡ (ok back, t) = rw (← empty, ← same) handled in
    (
      tt,
      ap (λ (p : Outcome Errors QueryParamsResponse × Option Keeper.Params). ((p.0, tt), p.1))
          called,
    )

abbrev found : QueryParamsResponse
found = record { found_params = by_gov.new_params }

abbrev path : String
path = "/antasena/bps/bps/v1/params"

update-get_example :
    Forwards sdk sdk_laws text gateway gateway_laws
      (register_query_handler_server gateway path tt (keeper_server sdk text gateway) none)
      tt
      path
      (some Keeper.params)
      none
      found
    × Forwards sdk sdk_laws text gateway gateway_laws
        (register_query_handler gateway path tt tt none)
        tt
        path
        (some Keeper.params)
        none
        found
update-get_example =
    update-get sdk sdk_laws text gateway gateway_laws gov_keeper by_gov bytes_by_gov none
      (some Keeper.params) none tt tt path path tt tt tt fits marshalled updated refl refl refl
      leads

abbrev routes : Option (String × Handler)
routes = register_query_handler_server gateway path tt (keeper_server sdk text gateway) none

get_params_cases_example :
    ((p : Keeper.Params) × (ctx : Unit {0}) × (rctx : Unit {0}) × (◌≡◌
        {A = Outcome (Unit {0}) (Unit {0})}
        (ok tt)
        (ok rctx))
      × (query_params sdk (some tt) none ≡ (ok p, none))
      × (serve_route routes path (none, none)
          ≡ (ok tt, (none, some (record { found_params = wire_params p })))))
    ⊎ (((e : Keeper.Error sdk.Ext) × (ctx : Unit {0}) × (rctx : Unit {0}) × (◌≡◌
            {A = Outcome (Unit {0}) (Unit {0})}
            (ok tt)
            (ok rctx))
          × (query_params sdk (some tt) none ≡ (err e, none))
          × (serve_route routes path (none, none) ≡ (ok tt, (none, none))))
        ⊎ (((x : Unit {0}) × (◌≡◌ {A = Outcome (Unit {0}) (Unit {0})} (ok tt) (err x))
              × (serve_route routes path (none, none) ≡ (ok tt, (none, none))))
            ⊎ (((◌≡◌ {A = Outcome (Unit {0}) (Unit {0})} (ok tt) panic)
                  ⊎ (query_params sdk (some tt) none ≡ (panic, none)))
                × (serve_route routes path (none, none) ≡ (panic, (none, none))))))
get_params_cases_example =
    get_params_cases sdk text gateway gateway_laws tt path path tt none none refl
