-- ===== src/Gateway/Sdk.antt =====
-- What query.pb.gw.go and the clients of x/bps/types take from outside the repository: net/http, the
-- runtime of grpc-gateway and gRPC.
use base_protocol_system.Base.{◌≡◌, ◌⊎◌, Option, some, List, String, ℕ, Outcome, Action}
use base_protocol_system.Wire.Tx.{MsgUpdateParams, MsgUpdateParamsResponse}
use base_protocol_system.Wire.Query.{QueryParamsRequest, QueryParamsResponse}

-- `S` is the state of the server, `E` its errors and `W` the response that is written.
pub record GatewaySdk (S E W : Type 0) : Type 1 where
  pub Request : Type 0
  pub PathParams : Type 0
  pub Ctx : Type 0
  -- a mux is a pointer; its routes change
  pub Mux : Type 0
  pub Routes : Type 0
  pub Pattern : Type 0
  pub Marshaler : Type 0
  pub Stream : Type 0
  pub Metadata : Type 0
  pub Conn : Type 0
  pub DialOption : Type 0
  -- the errors of the gateway itself
  pub Ext : Type 0
  pub request_context : Request → Ctx
  pub with_cancel : Ctx → Ctx
  pub new_stream : Stream
  pub with_server_transport_stream : Stream → Ctx → Ctx
  pub marshaler_for_request : Mux → Request → Marshaler × Marshaler
  pub annotate_incoming_context : Ctx → Mux → Request → Outcome Ext Ctx
  pub annotate_context : Ctx → Mux → Request → Outcome Ext Ctx
  pub zero_metadata : Metadata
  pub join_stream : Stream → S → Metadata → Metadata
  pub with_server_metadata : Metadata → Ctx → Ctx
  -- what the runtime writes into the response
  pub http_error : Ctx → Mux → Marshaler → Request → Ext ⊎ E → W → W
  pub forward_response_message : Ctx → Mux → Marshaler → Request → QueryParamsResponse → W → W
  -- `NewPattern`, where `none` is its error
  pub new_pattern : ℕ → List ℕ → List String → String → Option Pattern
  pub handle :
      String
      → Pattern
      → (Request → PathParams → Action (S × W) (Ext ⊎ E) (Unit {0}))
      → Routes
      → Routes
  -- gRPC
  pub dial : String → List DialOption → Outcome Ext Conn
  pub invoke_params :
      Conn → Ctx → String → QueryParamsRequest → S → (Outcome E QueryParamsResponse × Metadata) × S
  pub invoke_update_params :
      Conn → Ctx → String → MsgUpdateParams → S → (Outcome E MsgUpdateParamsResponse × Metadata) × S
  -- no routes, and how a request is served by some
  pub no_routes : Routes
  pub serve : Routes → Request → Action (S × W) (Ext ⊎ E) (Unit {0})
  pub matches : String → Pattern → Request → Option PathParams

-- Where there is one route, it takes the requests of its method and pattern.
pub record GatewayLaws {S E W : Type 0} (g : GatewaySdk S E W) : Type 0 where
  pub serve-handle :
      (method : String) (p : g.Pattern)
      (h : g.Request → g.PathParams → Action (S × W) (g.Ext ⊎ E) (Unit {0})) (req : g.Request)
      (params : g.PathParams)
      → g.matches method p req ≡ some params
      → g.serve (g.handle method p h g.no_routes) req ≡ h req params
