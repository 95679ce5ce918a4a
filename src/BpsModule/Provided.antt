-- ===== src/BpsModule/Provided.antt =====
-- The services of a module that the injection provides.
use base_protocol_system.Base.{
  ℕ, ◌≡◌, sym, ap, ◌∙◌, inl, inr, none, some, List, [], String, arith, Action, ok, Option-cases,
}
use mathlib.Core.List.{Memᴰ}
use mathlib.Core.List.Memᴰ
use base_protocol_system.Keeper.Sdk.{KeeperSdk, KeeperSdkLaws}
use base_protocol_system.Keeper
use base_protocol_system.Keeper.{Keeper, provide_module}
use base_protocol_system.Keeper.Authority.{update_params_iff, default_authority_is_gov}
use base_protocol_system.Wire.Error.{Decoded}
use base_protocol_system.Wire.Params.{params}
use base_protocol_system.Wire.Tx.{MsgUpdateParams, MsgUpdateParamsResponse, response, msg_unmarshal}
use base_protocol_system.Service.{Failure, as_request, keeper_params, handle, msg_server}
use base_protocol_system.Service.EndToEnd.{msg_server_iff, Decoded-cases}
use base_protocol_system.BpsModule.{
  AppModule, ModuleInputs, ModuleOutputs, provide_outputs, msg_service, register_services,
}

module _ (k : KeeperSdk Keeper.Params Keeper.GenesisState) (l : KeeperSdkLaws k)
    (text : List ℕ → String) (AuthKeeper BankKeeper : Type 0) where
  open k use {State, string_to_bytes, params_set, new_module_address}

  -- A server of messages, and the handler of the service over it.
  abbrev pub MsgServer : Type 0
  MsgServer = MsgUpdateParams → Action State (Failure k text) MsgUpdateParamsResponse

  provided :
      (inputs : ModuleInputs k text AuthKeeper BankKeeper)
      (out : ModuleOutputs k text AuthKeeper BankKeeper)
      → provide_outputs k text AuthKeeper BankKeeper inputs ≡ some out
      → provide_module k (text inputs.config.config_authority) ≡ some out.bps_module.keeper
  unfolding provide_outputs
  provided inputs out e =
      elim (Option-cases (provide_module k (text inputs.config.config_authority))) [
        | inl missing ↦ absurd (ground arith)
        | inr (keeper, p) ↦ ground arith
      ]

  registered :
      (am : AppModule k text AuthKeeper BankKeeper) (server : MsgServer)
      → Memᴰ (msg_service server) (register_services k text AuthKeeper BankKeeper am [])
      → server ≡ msg_server k text am.keeper
  unfolding register_services
  registered am server (Memᴰ.head e) = cc
  registered am server (Memᴰ.tail (Memᴰ.head e)) = absurd (cc)
  registered am server (Memᴰ.tail (Memᴰ.tail m)) = absurd (Memᴰ.not-nil m)

  -- A module that the injection provides with no authority in its configuration registers a message
  -- service that takes parameters from the module gov only: bytes that its handler, with whatever
  -- server it registered, answers with no error are a message whose authority is the address of
  -- gov, and the store took the message's parameters and left what it left.
  pub provided_takes_gov :
      (inputs : ModuleInputs k text AuthKeeper BankKeeper)
      (out : ModuleOutputs k text AuthKeeper BankKeeper) (server : MsgServer) (bytes : List ℕ)
      (s t : State)
      → text inputs.config.config_authority ≡ ""
      → provide_outputs k text AuthKeeper BankKeeper inputs ≡ some out
      → Memᴰ (msg_service server) (register_services k text AuthKeeper BankKeeper out.bps_module [])
      → handle none server (msg_unmarshal bytes (record { authority = []; new_params = params })) s
        ≡ (ok response, t)
      → (m : MsgUpdateParams) × (msg_unmarshal bytes
            (record { authority = []; new_params = params })
          ≡ Decoded.ok m)
        × (string_to_bytes (text m.authority) ≡ ok (new_module_address "gov"))
        × (params_set (keeper_params m.new_params) s ≡ (ok tt, t))
  provided_takes_gov inputs out server bytes s t no_authority outputs mem handled =
      let start : MsgUpdateParams = record { authority = []; new_params = params } in
      let keeper = out.bps_module.keeper in
      let built : provide_module k "" ≡ some keeper =
        ap (provide_module k) (sym no_authority) ∙ provided inputs out outputs in
      let handled' : handle none (msg_server k text keeper) (msg_unmarshal bytes start) s
          ≡ (ok response, t) =
        ap (λ f. handle none f (msg_unmarshal bytes start) s)
          (sym (registered out.bps_module server mem))
        ∙ handled in
      elim (Decoded-cases (msg_unmarshal bytes start)) [
        | inl (m, p) ↦
            let served : msg_server k text keeper m s ≡ (ok response, t) = ground arith in
            let updated = (msg_server_iff k l text keeper m s t).0 served in
            (
              m,
              p,
              default_authority_is_gov k l keeper (as_request k text m) s t built updated,
              ((update_params_iff k l keeper (as_request k text m) s t).0 updated).1,
            )
        | inr (inl (x, p)) ↦ absurd (ground arith)
        | inr (inr p) ↦ absurd (ground arith)
      ]
