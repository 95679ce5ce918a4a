-- ===== src/BpsModule/Runs.antt =====
-- A module with no authority in its configuration, over the keeper of one cell.
use base_protocol_system.Base.{◌≡◌, refl, some, none, [], ok}
use mathlib.Core.List.{Memᴰ}
use base_protocol_system.Keeper
use base_protocol_system.Keeper.Runs.{sdk, sdk_laws, gov_keeper, built}
use base_protocol_system.Wire.Error.{Decoded}
use base_protocol_system.Wire.Params.{params}
use base_protocol_system.Wire.Tx.{MsgUpdateParams, msg_unmarshal, response}
use base_protocol_system.Service.{handle, keeper_params, msg_server, update_params_handler}
use base_protocol_system.Service.Runs.{text, bytes_by_gov, updated}
use base_protocol_system.BpsModule.{
  ModuleInputs, ModuleOutputs, provide_outputs, msg_service, register_services,
}
use base_protocol_system.BpsModule.Provided.{provided_takes_gov}

abbrev inputs : ModuleInputs sdk text (Unit {0}) (Unit {0})
inputs = record {
  config = record { config_authority = [] };
  in_auth_keeper = tt;
  in_bank_keeper = tt;
}

abbrev outputs : ModuleOutputs sdk text (Unit {0}) (Unit {0})
outputs = record {
  bps_keeper = gov_keeper;
  bps_module = record { keeper = gov_keeper; auth_keeper = tt; bank_keeper = tt };
}

made : provide_outputs sdk text (Unit {0}) (Unit {0}) inputs ≡ some outputs
unfolding provide_outputs
made = rw (built, provide_outputs) refl

registered :
    Memᴰ
      (msg_service (msg_server sdk text gov_keeper))
      (register_services sdk text (Unit {0}) (Unit {0}) outputs.bps_module [])
unfolding register_services
registered = Memᴰ.head refl

handled :
    handle none
      (msg_server sdk text gov_keeper)
      (msg_unmarshal bytes_by_gov (record { authority = []; new_params = params }))
      none
    ≡ (ok response, some Keeper.params)
unfolding update_params_handler
handled = updated

provided_takes_gov_example :
    (m : MsgUpdateParams) × (msg_unmarshal bytes_by_gov
        (record { authority = []; new_params = params })
      ≡ Decoded.ok m)
    × (sdk.string_to_bytes (text m.authority) ≡ ok "gov")
    × (sdk.params_set (keeper_params m.new_params) none ≡ (ok tt, some Keeper.params))
provided_takes_gov_example =
    provided_takes_gov sdk sdk_laws text (Unit {0}) (Unit {0}) inputs outputs
      (msg_server sdk text gov_keeper) bytes_by_gov none (some Keeper.params) refl made registered
      handled
