-- ===== src/Service.antt =====
-- The services of x/bps/types/tx.pb.go and query.pb.go: bytes of a request, decoded by the codec and
-- handled by the keeper's servers.
pub mod EndToEnd
pub mod Runs
use base_protocol_system.Base.{
  Bool, true, false, Option, none, some, List, [], ℕ, String, Outcome, Action, ok, err, panic,
  ◌>>=◌, ◌>>◌, pure, read,
}
use base_protocol_system.Keeper.Sdk.{KeeperSdk}
use base_protocol_system.Keeper
use base_protocol_system.Keeper.{Keeper, update_params, query_params}
use base_protocol_system.Wire.Error.{Decoded, DecodeError}
use base_protocol_system.Wire.Params.{Params, params}
use base_protocol_system.Wire.Tx.{MsgUpdateParams, MsgUpdateParamsResponse, response, msg_unmarshal}
use base_protocol_system.Wire.Query.{
  QueryParamsRequest, request, QueryParamsResponse, request_unmarshal,
}

-- What a handler may end with beside the server's errors: the error of `dec`.
pub data HandlerError (E : Type 0) : Type 0 where
  undecodable : DecodeError → HandlerError E
  served : E → HandlerError E

-- `dec`, over an `Unmarshal`. A loop that is out of rounds, which does not happen, counts as a panic.
abbrev pub dec : {M E : Type 0} → Decoded M → Outcome (HandlerError E) M
dec (Decoded.ok m) = ok m
dec (Decoded.err e) = err (undecodable e)
dec Decoded.stuck = panic

-- A server's own end, as the handler passes it on.
abbrev pub serve : {S E A : Type 0} → Action S E A → Action S (HandlerError E) A
serve f s =
    let (r, s') = f s in
    elim r [ ok a ↦ (ok a, s') | err e ↦ (err (served e), s') | panic ↦ (panic, s') ]

-- `_Msg_UpdateParams_Handler` and `_Query_Params_Handler`: the request is decoded, and the interceptor, if
-- there is one, gets it with the server.
abbrev pub handle :
    {S E M A : Type 0}
    → Option (M → (M → Action S (HandlerError E) A) → Action S (HandlerError E) A)
    → (M → Action S (HandlerError E) A)
    → Decoded M
    → Action S (HandlerError E) A
handle none server m = read (λ s. dec m) >>= server
handle (some intercept) server m = read (λ s. dec m) >>= λ req. intercept req server

-- The parameters of the two modules of the model are one type in Go.
abbrev pub keeper_params : Params → Keeper.Params
keeper_params params = Keeper.params

abbrev pub wire_params : Keeper.Params → Params
wire_params Keeper.params = params

-- `text` is the string of some bytes.
module _ (k : KeeperSdk Keeper.Params Keeper.GenesisState) (text : List ℕ → String) where
  open k use {State, Ext}

  abbrev pub Failure : Type 0
  Failure = HandlerError (Keeper.Error Ext)

  abbrev pub as_request : MsgUpdateParams → Keeper.MsgUpdateParams
  as_request m = record { authority = text m.authority; new_params = keeper_params m.new_params }

  -- `msgServer.UpdateParams` and `queryServer.Params`, on the messages of the codec.
  pub msg_server : Keeper k → MsgUpdateParams → Action State Failure MsgUpdateParamsResponse
  msg_server keeper m = serve (update_params k keeper (as_request m) >> pure response)

  unfoldable pub query_server : QueryParamsRequest → Action State Failure QueryParamsResponse
  query_server r =
      serve (query_params k (some tt) >>= λ p. pure (record { found_params = wire_params p }))

  unfoldable pub update_params_handler :
      Keeper k
      → Option (
          MsgUpdateParams
          → (MsgUpdateParams → Action State Failure MsgUpdateParamsResponse)
          → Action State Failure MsgUpdateParamsResponse)
      → List ℕ
      → Action State Failure MsgUpdateParamsResponse
  update_params_handler keeper interceptor bytes =
      handle interceptor (msg_server keeper)
        (msg_unmarshal bytes (record { authority = []; new_params = params }))

  unfoldable pub params_handler :
      Option (
        QueryParamsRequest
        → (QueryParamsRequest → Action State Failure QueryParamsResponse)
        → Action State Failure QueryParamsResponse)
      → List ℕ
      → Action State Failure QueryParamsResponse
  params_handler interceptor bytes =
      handle interceptor query_server (request_unmarshal bytes request)
