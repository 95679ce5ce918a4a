-- ===== src/Gateway/Answers.antt =====
-- What a GET of the parameters is answered, and that it leaves the store alone.
use base_protocol_system.Base.{
  ℕ, ◌≡◌, ◌⊎◌, refl, ap, ◌∙◌, inl, inr, some, List, String, arith, Outcome, ok, err, panic,
  Outcome-cases,
}
use base_protocol_system.Keeper.Sdk.{KeeperSdk}
use base_protocol_system.Keeper
use base_protocol_system.Keeper.{Keeper, query_params}
use base_protocol_system.Keeper.Authority.{query_params_reads}
use base_protocol_system.Wire.Query.{request}
use base_protocol_system.Service.{Failure, served, wire_params, query_server}
use base_protocol_system.Gateway.Sdk.{GatewaySdk, GatewayLaws}
use base_protocol_system.Gateway.{
  QueryServer, answer, annotated, serve_local, register_query_handler_server,
}

module _ (k : KeeperSdk Keeper.Params Keeper.GenesisState) (text : List ℕ → String) {W : Type 0}
    (g : GatewaySdk k.State (Failure k text) W) where
  open k use {State, Ext}

  -- The query server of the keeper, which does not look at the context.
  abbrev pub keeper_server : QueryServer g
  keeper_server ctx r = query_server k text r

  -- The context of a request, before and after the query.
  abbrev pub request_ctx : g.Request → g.Ctx
  request_ctx req =
      g.with_server_transport_stream g.new_stream (g.with_cancel (g.request_context req))

  abbrev pub outbound : g.Mux → g.Request → g.Marshaler
  outbound mux req = (g.marshaler_for_request mux req).1

  query_server-ok :
      (s : State) (p : Keeper.Params)
      → query_params k (some tt) s ≡ (ok p, s)
      → query_server k text request s ≡ (ok (record { found_params = wire_params p }), s)
  unfolding query_server
  query_server-ok s p e = ground arith

  query_server-err :
      (s : State) (x : Keeper.Error Ext)
      → query_params k (some tt) s ≡ (err x, s)
      → query_server k text request s ≡ (err (served x), s)
  unfolding query_server
  query_server-err s x e = ground arith

  query_server_panics :
      (s : State)
      → query_params k (some tt) s ≡ (panic, s)
      → query_server k text request s ≡ (panic, s)
  unfolding query_server
  query_server_panics s e = ground arith

  abbrev pub answer_ctx : g.Request → State → g.Ctx
  answer_ctx req s =
      g.with_server_metadata (g.join_stream g.new_stream s g.zero_metadata) (request_ctx req)

  module _ (gl : GatewayLaws g) where
    -- A GET of the parameters, by the handler that RegisterQueryHandlerServer registers, never changes
    -- the store. Where the request's context is annotated, it forwards what the keeper answers to a
    -- query or writes the error of the query; where the context fails, it writes that error; and it
    -- panics where one of the two does.
    pub get_params_cases :
        (mux : g.Mux) (pattern : g.Pattern) (req : g.Request) (path : g.PathParams) (s : State)
        (w : W)
        → g.matches "GET" pattern req ≡ some path
        → let routes = register_query_handler_server g pattern mux keeper_server g.no_routes in
          let context = g.annotate_incoming_context (request_ctx req) mux req in
          let query = query_params k (some tt) s in
          ((p : Keeper.Params) × (ctx : g.Ctx) × (rctx : g.Ctx) × (context ≡ ok rctx)
            × (query ≡ (ok p, s))
            × (g.serve routes req (s, w) ≡ (
              ok tt,
              (
                s,
                g.forward_response_message ctx mux
                    (outbound mux req)
                    req
                    (record { found_params = wire_params p })
                    w,
              ),
            )))
          ⊎ (((e : Keeper.Error Ext) × (ctx : g.Ctx) × (rctx : g.Ctx) × (context ≡ ok rctx)
                × (query ≡ (err e, s))
                × (g.serve routes req (s, w)
                    ≡ (ok tt, (s, g.http_error ctx mux (outbound mux req) req (inr (served e)) w))))
              ⊎ (((x : g.Ext) × (context ≡ err x)
                    × (g.serve routes req (s, w) ≡ (
                      ok tt,
                      (s, g.http_error (request_ctx req) mux (outbound mux req) req (inl x) w),
                    )))
                  ⊎ (((context ≡ panic) ⊎ (query ≡ (panic, s)))
                      × (g.serve routes req (s, w) ≡ (panic, (s, w))))))
    unfolding serve_local annotated answer
    get_params_cases mux pattern req path s w found =
        let routes = register_query_handler_server g pattern mux keeper_server g.no_routes in
        let context = g.annotate_incoming_context (request_ctx req) mux req in
        let here : g.serve routes req (s, w) ≡ serve_local g keeper_server mux req path (s, w) =
          ap (λ f. f (s, w))
            (gl.serve-handle "GET" pattern (serve_local g keeper_server mux) req path found) in
        let query_is : (r : Outcome (Keeper.Error Ext) Keeper.Params)
            → (query_params k (some tt) s).0 ≡ r
            → query_params k (some tt) s ≡ (r, s) =
          λ r q. query_params_reads k s ∙ ap (λ x. (x, s)) q in
        elim (Outcome-cases context) [
          | inl (rctx, c) ↦ elim (Outcome-cases ((query_params k (some tt) s).0)) [
            | inl (p, q) ↦
                let q' = query_is (ok p) q in
                inl (p, answer_ctx req s, rctx, c, q', here ∙ rw (c, query_server-ok s p q') refl)
            | inr (inl (e, q)) ↦
                let q' = query_is (err e) q in
                inr (
                  inl
                    (e, answer_ctx req s, rctx, c, q', here ∙ rw (c, query_server-err s e q') refl))
            | inr (inr q) ↦
                let q' = query_is panic q in
                inr (inr (inr (inr q', here ∙ rw (c, query_server_panics s q') refl)))
          ]
          | inr (inl (x, c)) ↦ inr (inr (inl (x, c, here ∙ rw (c) refl)))
          | inr (inr c) ↦ inr (inr (inr (inl c, here ∙ rw (c) refl)))
        ]
