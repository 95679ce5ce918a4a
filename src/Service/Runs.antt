-- ===== src/Service/Runs.antt =====
-- Requests as bytes, over the keeper's store of one cell.
use base_protocol_system.Base.{
  Option, ℕ, ◌^◌, ◌<◌, ◌≡◌, ◌↔◌, ◌⊎◌, refl, none, some, List, [], ◌∷◌, String, arith, ok, err,
}
use base_protocol_system.Keeper.Runs.{sdk, sdk_laws, gov_keeper}
use base_protocol_system.Wire.Error.{Decoded, DecodeError}
use base_protocol_system.Keeper
use mathlib.Core.Path.{sym, ◌∙◌}
use base_protocol_system.Wire.Varint.Format.{varint_bytes}
use base_protocol_system.Wire.Tx.RoundTrip.{msg_marshal-string_field}
use base_protocol_system.Wire.Varint.{sov, bit_length}
use base_protocol_system.Wire.Params.{params, params_size}
use base_protocol_system.Wire.Tx.{MsgUpdateParams, msg_size, msg_marshal, msg_unmarshal, response}
use base_protocol_system.Service.{
  undecodable, keeper_params, msg_server, update_params_handler, params_handler,
}
use base_protocol_system.Service.EndToEnd.{
  some_injective, update-query, update_params_handler_cases,
}

-- The text of the bytes of "gov", and no other text.
abbrev pub text : List ℕ → String
text bytes = elim bytes [ [] ↦ "" | b ∷ bs ↦ "gov" ]

abbrev pub by_gov : MsgUpdateParams
by_gov = record { authority = 103 ∷ 111 ∷ 118 ∷ []; new_params = params }

pub fits : msg_size by_gov < 2 ^ 63
unfolding msg_size params_size sov bit_length
fits = omega arith

-- The authority "gov" and the parameters.
abbrev pub bytes_by_gov : List ℕ
bytes_by_gov = 10 ∷ 3 ∷ 103 ∷ 111 ∷ 118 ∷ 18 ∷ 0 ∷ []

pub marshalled : msg_marshal by_gov ≡ some bytes_by_gov
unfolding varint_bytes
marshalled = msg_marshal-string_field by_gov (omega arith)

pub updated :
    update_params_handler sdk text gov_keeper none bytes_by_gov none
    ≡ (ok response, some Keeper.params)
updated =
    let (bytes, written, reached, _) = update-query sdk sdk_laws text gov_keeper by_gov fits in
    let same : bytes ≡ bytes_by_gov = some_injective (sym written ∙ marshalled) in
    rw (← same) ((reached none (some Keeper.params)).1 (refl, refl))

update-query_example :
    (bytes : List ℕ) × (msg_marshal by_gov ≡ some bytes)
    × ((s t : sdk.State)
        → (update_params_handler sdk text gov_keeper none bytes s ≡ (ok response, t)) ↔ (
            (sdk.string_to_bytes (text by_gov.authority) ≡ ok gov_keeper.authority_bytes)
            × (sdk.params_set (keeper_params by_gov.new_params) s ≡ (ok tt, t))))
    × ((s t : sdk.State)
        → update_params_handler sdk text gov_keeper none bytes s ≡ (ok response, t)
        → params_handler sdk text none [] t ≡ (ok (record { found_params = by_gov.new_params }), t))
update-query_example = update-query sdk sdk_laws text gov_keeper by_gov fits

update_params_handler_cases_example :
    ((m : MsgUpdateParams) × (msg_unmarshal
          (255 ∷ [])
          (record { authority = []; new_params = params })
        ≡ Decoded.ok m)
      × (update_params_handler sdk text gov_keeper none (255 ∷ []) none
          ≡ msg_server sdk text gov_keeper m none)
      × ((t : Option Keeper.Params)
          → (update_params_handler sdk text gov_keeper none (255 ∷ []) none ≡ (ok response, t)) ↔ (
              (sdk.string_to_bytes (text m.authority) ≡ ok gov_keeper.authority_bytes)
              × (sdk.params_set (keeper_params m.new_params) none ≡ (ok tt, t)))))
    ⊎ ((e : DecodeError) × (msg_unmarshal
            (255 ∷ [])
            (record { authority = []; new_params = params })
          ≡ Decoded.err e)
        × (update_params_handler sdk text gov_keeper none (255 ∷ []) none
            ≡ (err (undecodable e), none)))
update_params_handler_cases_example =
    update_params_handler_cases sdk sdk_laws text gov_keeper (255 ∷ []) none (omega arith)
