-- ===== src/Gateway.antt =====
-- x/bps/types/query.pb.gw.go and the clients of query.pb.go and tx.pb.go: the parameters over
-- HTTP.
pub mod Sdk
pub mod Answers
pub mod EndToEnd
mod Runs
use base_protocol_system.Base.{
  ℕ, Option, none, some, ◌⊎◌, inl, inr, List, [], ◌∷◌, String, Outcome, Action, ok, err, panic,
}
use base_protocol_system.Wire.Tx.{MsgUpdateParams, MsgUpdateParamsResponse}
use base_protocol_system.Wire.Query.{QueryParamsRequest, request, QueryParamsResponse}
use Sdk.{GatewaySdk}

module _ {S E W : Type 0} (g : GatewaySdk S E W) where
  open g use {
    Request, PathParams, Ctx, Mux, Routes, Pattern, Marshaler, Metadata, Conn, DialOption, Ext,
  }

  -- `QueryServer`, and `QueryClient`, which gives the metadata of the call, too.
  abbrev pub QueryServer : Type 0
  QueryServer = Ctx → QueryParamsRequest → Action S E QueryParamsResponse

  abbrev pub QueryClient : Type 0
  QueryClient = Ctx → QueryParamsRequest → S → (Outcome E QueryParamsResponse × Metadata) × S

  -- `NewQueryClient` and its `Params`
  pub new_query_client : Conn → QueryClient
  new_query_client cc ctx req s = g.invoke_params cc ctx "/bps.bps.v1.Query/Params" req s

  -- `NewMsgClient` and its `UpdateParams`
  pub new_msg_client :
      Conn → Ctx → MsgUpdateParams → S → (Outcome E MsgUpdateParamsResponse × Metadata) × S
  new_msg_client cc ctx msg s = g.invoke_update_params cc ctx "/bps.bps.v1.Msg/UpdateParams" msg s

  -- `request_Query_Params_0` and `local_request_Query_Params_0`; the request is the empty message.
  pub request_query_params : QueryClient → QueryClient
  request_query_params client ctx req s = client ctx request s

  abbrev pub local_request_query_params :
      QueryServer → Ctx → S → (Outcome E QueryParamsResponse × Metadata) × S
  local_request_query_params server ctx s =
      let (r, s') = server ctx request s in ((r, g.zero_metadata), s')

  -- `/antasena/bps/bps/v1/params`
  abbrev pub pattern_query_params : Option Pattern
  pattern_query_params =
      g.new_pattern 1 (2 ∷ 0 ∷ 2 ∷ 1 ∷ 2 ∷ 1 ∷ 2 ∷ 2 ∷ 2 ∷ 3 ∷ [])
        ("antasena" ∷ "bps" ∷ "v1" ∷ "params" ∷ []) ""

  -- What both handlers do with what the server answered.
  unfoldable pub answer :
      Ctx
      → Mux
      → Marshaler
      → Request
      → Outcome E QueryParamsResponse
      → Action (S × W) (Ext ⊎ E) (Unit {0})
  answer ctx mux outbound req (ok resp) (s, w) =
      (ok tt, (s, g.forward_response_message ctx mux outbound req resp w))
  answer ctx mux outbound req (err e) (s, w) =
      (ok tt, (s, g.http_error ctx mux outbound req (inr e) w))
  answer ctx mux outbound req panic (s, w) = (panic, (s, w))

  unfoldable pub annotated :
      Ctx
      → Mux
      → Marshaler
      → Request
      → Outcome Ext Ctx
      → (Ctx → Action (S × W) (Ext ⊎ E) (Unit {0}))
      → Action (S × W) (Ext ⊎ E) (Unit {0})
  annotated ctx mux outbound req (ok rctx) next (s, w) = next rctx (s, w)
  annotated ctx mux outbound req (err e) next (s, w) =
      (ok tt, (s, g.http_error ctx mux outbound req (inl e) w))
  annotated ctx mux outbound req panic next (s, w) = (panic, (s, w))

  -- The handlers of `RegisterQueryHandlerServer` and `RegisterQueryHandlerClient`. That the context
  -- is cancelled at the end is left out.
  unfoldable pub serve_local :
      QueryServer → Mux → Request → PathParams → Action (S × W) (Ext ⊎ E) (Unit {0})
  serve_local server mux req path_params =
      let stream = g.new_stream in
      let ctx = g.with_server_transport_stream stream (g.with_cancel (g.request_context req)) in
      let (inbound, outbound) = g.marshaler_for_request mux req in
      annotated ctx mux outbound req (g.annotate_incoming_context ctx mux req) λ rctx (s, w).
        let ((resp, md), s') = local_request_query_params server rctx s in
        answer (g.with_server_metadata (g.join_stream stream s' md) ctx) mux outbound req resp
          (s', w)

  unfoldable pub serve_client :
      QueryClient → Mux → Request → PathParams → Action (S × W) (Ext ⊎ E) (Unit {0})
  serve_client client mux req path_params =
      let ctx = g.with_cancel (g.request_context req) in
      let (inbound, outbound) = g.marshaler_for_request mux req in
      annotated ctx mux outbound req (g.annotate_context ctx mux req) λ rctx (s, w).
        let ((resp, md), s') = request_query_params client rctx request s in
        answer (g.with_server_metadata md ctx) mux outbound req resp (s', w)

  -- `RegisterQueryHandlerServer`, `RegisterQueryHandlerClient` and `RegisterQueryHandler`, which return no
  -- error, on the pattern that was compiled at the start.
  abbrev pub register_query_handler_server : Pattern → Mux → QueryServer → Routes → Routes
  register_query_handler_server pattern mux server = g.handle "GET" pattern (serve_local server mux)

  abbrev pub register_query_handler_client : Pattern → Mux → QueryClient → Routes → Routes
  register_query_handler_client pattern mux client =
      g.handle "GET" pattern (serve_client client mux)

  abbrev pub register_query_handler : Pattern → Mux → Conn → Routes → Routes
  register_query_handler pattern mux conn =
      register_query_handler_client pattern mux (new_query_client conn)

  -- `RegisterQueryHandlerFromEndpoint`; that the connection is closed with the context is left out.
  register_query_handler_from_endpoint :
      Pattern → Mux → String → List DialOption → Routes → Outcome Ext Routes
  register_query_handler_from_endpoint pattern mux endpoint opts routes =
      elim (g.dial endpoint opts) [
        | ok conn ↦ ok (register_query_handler pattern mux conn routes)
        | err e ↦ err e
        | panic ↦ panic
      ]
