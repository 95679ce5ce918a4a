-- ===== src/Service/EndToEnd.antt =====
-- From the bytes of a request to the store, and back.
use base_protocol_system.Base.{
  ℕ, Option, ◌^◌, ◌<◌, ◌≡◌, ◌↔◌, ◌⊎◌, refl, sym, ap, ◌∙◌, none, some, List, [], length, String,
  arith, ok, err, read, inl, inr, Outcome-cases, settled,
}
use base_protocol_system.Keeper.Sdk.{KeeperSdk, KeeperSdkLaws}
use base_protocol_system.Keeper
use base_protocol_system.Keeper.{Keeper, update_params, query_params}
use base_protocol_system.Keeper.Authority.{update_params_iff, query-update}
use base_protocol_system.Wire.Error.{Decoded, DecodeError, stuck}
use base_protocol_system.Wire.Ends.{unmarshal_ends}
use base_protocol_system.Wire.Params.{Params, params}
use base_protocol_system.Wire.Tx.{MsgUpdateParams, msg_size, msg_marshal, msg_unmarshal, response}
use base_protocol_system.Wire.Tx.RoundTrip.{msg_unmarshal-msg_marshal}
use base_protocol_system.Wire.Query.{request, request_field, request_unmarshal}
use base_protocol_system.Wire.Message.Read.{unmarshal_lem, unmarshal_loop-end}
use base_protocol_system.Service.{
  undecodable, keeper_params, wire_params, as_request, msg_server, query_server,
  update_params_handler, params_handler,
}

pub Decoded-cases :
    {A : Type 0} (d : Decoded A)
    → ((a : A) × (d ≡ Decoded.ok a)) ⊎ (((e : DecodeError) × (d ≡ Decoded.err e)) ⊎ (d ≡ stuck))
Decoded-cases (Decoded.ok a) = inl (a, refl)
Decoded-cases (Decoded.err e) = inr (inl (e, refl))
Decoded-cases Decoded.stuck = inr (inr refl)

pub some_injective : {A : Type 0} {a b : A} → ◌≡◌ {A = Option A} (some a) (some b) → a ≡ b
some_injective e = cc

module _ (k : KeeperSdk Keeper.Params Keeper.GenesisState) (l : KeeperSdkLaws k)
    (text : List ℕ → String) where
  open k use {State, Ext, string_to_bytes, params_set}

  -- A server that succeeded, without the wrapping of its errors.
  pub msg_server_iff :
      (keeper : Keeper k) (m : MsgUpdateParams) (s t : State)
      → (msg_server k text keeper m s ≡ (ok response, t))
        ↔ (update_params k keeper (as_request k text m) s ≡ (ok tt, t))
  unfolding msg_server
  msg_server_iff keeper m s t = (
    λ e. elim (Outcome-cases ((update_params k keeper (as_request k text m) s).0)) [
      | inl (u, p) ↦ settled (update_params k keeper (as_request k text m) s) p ∙ ground arith
      | inr bad ↦ absurd (ground arith)
    ],
    λ e. ground arith,
  )

  pub params_handler-nil :
      (s : State) → params_handler k text none [] s ≡ query_server k text request s
  unfolding params_handler
  params_handler-nil s =
      let decoded : request_unmarshal [] request ≡ Decoded.ok request =
        unfold request_unmarshal in
        (unmarshal_lem "QueryParamsRequest" request_field [] request
          ∙ unmarshal_loop-end "QueryParamsRequest" request_field 0 0 request) in
      rw (decoded) refl

  query_served :
      (s : State) (p : Keeper.Params)
      → query_params k (some tt) s ≡ (ok p, s)
      → params_handler k text none [] s ≡ (ok (record { found_params = wire_params p }), s)
  unfolding query_server
  query_served s p e = params_handler-nil s ∙ ground arith

  back : (p : Params) → wire_params (keeper_params p) ≡ p
  back params = refl

  -- A handler that comes to the server's method succeeds where the update does.
  reached_iff :
      (keeper : Keeper k) (bytes : List ℕ) (m : MsgUpdateParams) (s : State)
      → update_params_handler k text keeper none bytes s ≡ msg_server k text keeper m s
      → (t : State)
      → (update_params_handler k text keeper none bytes s ≡ (ok response, t)) ↔ (
          (string_to_bytes (text m.authority) ≡ ok keeper.authority_bytes)
          × (params_set (keeper_params m.new_params) s ≡ (ok tt, t)))
  reached_iff keeper bytes m s reach t = (
    λ e.
        (update_params_iff k l keeper (as_request k text m) s t).0
          ((msg_server_iff keeper m s t).0 (sym reach ∙ e)),
    λ both.
        reach
        ∙ (msg_server_iff keeper m s t).1
            ((update_params_iff k l keeper (as_request k text m) s t).1 both),
  )

  -- The bytes that Marshal writes of a message reach the store as the message: the handler succeeds
  -- exactly where the authority decodes to the keeper's and the store takes the parameters, and it
  -- leaves what the store left; and a query of no bytes then answers these parameters.
  pub update-query :
      (keeper : Keeper k) (m : MsgUpdateParams)
      → msg_size m < 2 ^ 63
      → (bytes : List ℕ) × (msg_marshal m ≡ some bytes)
        × ((s t : State)
            → (update_params_handler k text keeper none bytes s ≡ (ok response, t)) ↔ (
                (string_to_bytes (text m.authority) ≡ ok keeper.authority_bytes)
                × (params_set (keeper_params m.new_params) s ≡ (ok tt, t))))
        × ((s t : State)
            → update_params_handler k text keeper none bytes s ≡ (ok response, t)
            → params_handler k text none [] t ≡ (ok (record { found_params = m.new_params }), t))
  unfolding update_params_handler
  update-query keeper m h =
      let (bytes, written, _, read) = msg_unmarshal-msg_marshal m h in
      let reach : (s : State)
          → update_params_handler k text keeper none bytes s ≡ msg_server k text keeper m s =
        λ s. rw (read) refl in
      (
        bytes,
        written,
        λ s t. reached_iff keeper bytes m s (reach s) t,
        λ s t e.
            query_served t (keeper_params m.new_params) (
              query-update k l keeper (as_request k text m) s t
                ((msg_server_iff keeper m s t).0 (sym (reach s) ∙ e)))
            ∙ ap (λ p. (ok (record { found_params = p }), t)) (back m.new_params),
      )

  -- Bytes of any kind, where their number fits an int, are a message, which the server handles and
  -- which succeeds exactly where its authority decodes to the keeper's and the store takes its
  -- parameters, or are refused by the decoder, whose error ends the handler with the store as it was.
  pub update_params_handler_cases :
      (keeper : Keeper k) (bytes : List ℕ) (s : State)
      → length bytes < 2 ^ 63
      → ((m : MsgUpdateParams) × (msg_unmarshal bytes
              (record { authority = []; new_params = params })
            ≡ Decoded.ok m)
          × (update_params_handler k text keeper none bytes s ≡ msg_server k text keeper m s)
          × ((t : State)
              → (update_params_handler k text keeper none bytes s ≡ (ok response, t)) ↔ (
                  (string_to_bytes (text m.authority) ≡ ok keeper.authority_bytes)
                  × (params_set (keeper_params m.new_params) s ≡ (ok tt, t)))))
        ⊎ ((e : DecodeError) × (msg_unmarshal bytes (record { authority = []; new_params = params })
              ≡ Decoded.err e)
            × (update_params_handler k text keeper none bytes s ≡ (err (undecodable e), s)))
  unfolding update_params_handler
  update_params_handler_cases keeper bytes s h =
      elim (Decoded-cases (msg_unmarshal bytes (record { authority = []; new_params = params }))) [
        | inl (m, p) ↦ inl (m, p, rw (p) refl, reached_iff keeper bytes m s (rw (p) refl))
        | inr (inl (e, p)) ↦ inr (e, p, rw (p) refl)
        | inr (inr p) ↦
            absurd ((unmarshal_ends bytes h).0 (record { authority = []; new_params = params }) p)
      ]
