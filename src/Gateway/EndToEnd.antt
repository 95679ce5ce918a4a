-- ===== src/Gateway/EndToEnd.antt =====
-- From the bytes of an update to the answer of a GET.
use base_protocol_system.Base.{
  ℕ, ◌^◌, ◌<◌, ◌≡◌, refl, sym, ap, ◌∙◌, none, some, List, [], String, ok,
}
use base_protocol_system.Keeper.Sdk.{KeeperSdk, KeeperSdkLaws}
use base_protocol_system.Keeper
use base_protocol_system.Keeper.{Keeper}
use base_protocol_system.Wire.Error.{Decoded}
use base_protocol_system.Wire.Params.{params}
use base_protocol_system.Wire.Tx.{MsgUpdateParams, msg_size, msg_marshal, response}
use base_protocol_system.Wire.Query.{
  QueryParamsRequest, request, request_marshal, QueryParamsResponse, found_marshal, found_unmarshal,
}
use base_protocol_system.Wire.Query.RoundTrip.{request_marshal-nil, found_unmarshal-found_marshal}
use base_protocol_system.Service.{Failure, query_server, update_params_handler, params_handler}
use base_protocol_system.Service.EndToEnd.{update-query, params_handler-nil, some_injective}
use base_protocol_system.Gateway.Sdk.{GatewaySdk, GatewayLaws}
use base_protocol_system.Gateway.{
  answer, annotated, serve_local, serve_client, new_query_client, request_query_params,
  register_query_handler_server, register_query_handler,
}
use base_protocol_system.Gateway.Answers.{keeper_server, request_ctx, outbound}

module _ (k : KeeperSdk Keeper.Params Keeper.GenesisState) (l : KeeperSdkLaws k)
    (text : List ℕ → String) {W : Type 0} (g : GatewaySdk k.State (Failure k text) W)
    (gl : GatewayLaws g) where
  open k use {State, Ext}

  -- A connection that leads to the handler of the parameters: it carries the bytes that Marshal
  -- writes there, and those of the response back.
  abbrev pub Leads : g.Conn → Type 0
  Leads conn =
      (ctx : g.Ctx) (req : QueryParamsRequest) (bytes reply : List ℕ) (s t : State)
      (resp back : QueryParamsResponse)
      → request_marshal req ≡ some bytes
      → params_handler k text none bytes s ≡ (ok resp, t)
      → found_marshal resp ≡ some reply
      → found_unmarshal reply (record { found_params = params }) ≡ Decoded.ok back
      → (md : g.Metadata) × (g.invoke_params conn ctx "/bps.bps.v1.Query/Params" req s
          ≡ ((ok back, md), t))

  -- What a GET that a mux serves writes, and that it leaves the store alone.
  abbrev pub Forwards : g.Routes → g.Mux → g.Request → State → W → QueryParamsResponse → Type 0
  Forwards routes mux req s w resp =
      (ctx : g.Ctx) × (g.serve routes req (s, w)
        ≡ (ok tt, (s, g.forward_response_message ctx mux (outbound k text g mux req) req resp w)))

  local-Forwards :
      (mux : g.Mux) (pattern : g.Pattern) (req : g.Request) (path : g.PathParams) (rctx : g.Ctx)
      (s : State) (w : W) (resp : QueryParamsResponse)
      → g.matches "GET" pattern req ≡ some path
      → let routes =
          register_query_handler_server g pattern mux (keeper_server k text g) g.no_routes in
        g.annotate_incoming_context (request_ctx k text g req) mux req ≡ ok rctx
        → query_server k text request s ≡ (ok resp, s)
        → Forwards routes mux req s w resp
  unfolding serve_local annotated answer
  local-Forwards mux pattern req path rctx s w resp found context q =
      let routes =
        register_query_handler_server g pattern mux (keeper_server k text g) g.no_routes in
      (
        g.with_server_metadata (g.join_stream g.new_stream s g.zero_metadata)
            (request_ctx k text g req),
        ap (λ f. f (s, w))
              (gl.serve-handle "GET" pattern (serve_local g (keeper_server k text g) mux) req path
                found)
            ∙ rw (context, q) refl,
      )

  client-Forwards :
      (conn : g.Conn) (mux : g.Mux) (pattern : g.Pattern) (req : g.Request) (path : g.PathParams)
      (rctx : g.Ctx) (s : State) (w : W) (resp : QueryParamsResponse)
      → g.matches "GET" pattern req ≡ some path
      → let routes = register_query_handler g pattern mux conn g.no_routes in
        g.annotate_context (g.with_cancel (g.request_context req)) mux req ≡ ok rctx
        → Leads conn
        → params_handler k text none [] s ≡ (ok resp, s)
        → Forwards routes mux req s w resp
  unfolding serve_client annotated answer request_query_params new_query_client
  client-Forwards conn mux pattern req path rctx s w resp found context leads q =
      let client = new_query_client g conn in
      let (reply, written, read) =
        found_unmarshal-found_marshal resp (record { found_params = params }) in
      let (md, invoked) =
        leads rctx request [] reply s s resp resp (request_marshal-nil request) q written read in
      (
        g.with_server_metadata md (g.with_cancel (g.request_context req)),
        ap (λ f. f (s, w))
              (gl.serve-handle "GET" pattern (serve_client g client mux) req path found)
            ∙ rw (context, invoked) refl,
      )

  -- After an update by the bytes of a message succeeded, a GET of the parameters forwards the
  -- message's parameters and leaves the store as the update left it, by the keeper itself and over
  -- a connection that leads to the service, where the context of the request can be annotated.
  pub update-get :
      (keeper : Keeper k) (m : MsgUpdateParams) (bytes : List ℕ) (s t : State) (w : W)
      (conn : g.Conn) (mux : g.Mux) (pattern : g.Pattern) (req : g.Request) (path : g.PathParams)
      (local_ctx client_ctx : g.Ctx)
      → msg_size m < 2 ^ 63
      → msg_marshal m ≡ some bytes
      → update_params_handler k text keeper none bytes s ≡ (ok response, t)
      → g.matches "GET" pattern req ≡ some path
      → let local =
          register_query_handler_server g pattern mux (keeper_server k text g) g.no_routes in
        let remote = register_query_handler g pattern mux conn g.no_routes in
        g.annotate_incoming_context (request_ctx k text g req) mux req ≡ ok local_ctx
        → g.annotate_context (g.with_cancel (g.request_context req)) mux req ≡ ok client_ctx
        → Leads conn
        → Forwards local mux req t w (record { found_params = m.new_params })
          × Forwards remote mux req t w (record { found_params = m.new_params })
  update-get keeper m bytes s t w conn mux pattern req path local_ctx client_ctx size written
        updated found context context' leads =
      let (bytes', written', _, query) = update-query k l text keeper m size in
      let same : bytes' ≡ bytes = some_injective (sym written' ∙ written) in
      let q = query s t (rw (same) updated) in
      let resp : QueryParamsResponse = record { found_params = m.new_params } in
      (
        local-Forwards mux pattern req path local_ctx t w resp found context
            (sym (params_handler-nil k l text t) ∙ q),
        client-Forwards conn mux pattern req path client_ctx t w resp found context' leads q,
      )
