-- ===== src/Commands/Runs.antt =====
-- An application whose store stays as it is when it is loaded, and the theorem of the command at concrete inputs.
use base_protocol_system.Base.{
  ◌≡◌, refl, sym, ap, Bool, true, false, Option, none, some, [], ◌∷◌, String, ℤ, pos, ◌+ℤ◌, Outcome,
  ok,
}
use base_protocol_system.Export.{export_app_state_and_validators, export_state, exported_from}
use base_protocol_system.Export.Runs.{Store, sdk, store_at, exported}
use base_protocol_system.App.Runs.{idle}
use base_protocol_system.App.{
  register_key_tables, create_ibc_keeper, create_transfer_keeper, create_ica_host_keeper,
  create_ica_controller_keeper, create_keepers, ibc_router, set_routes, register_ibc_app_modules,
  connect, register_ibc_modules, assemble, new,
}
use base_protocol_system.Commands.{
  CommandSdk, CommandLaws, app_export, load_app, export_loaded, set_home, app_export_height,
}

abbrev placed : ℤ → Store → Store
placed h s = record s { info = record { start_height = h; info_rest = 4 } }

-- The height that is loaded is kept as the start of the signing. The options are the text of the
-- flag of the home.
abbrev pub commands : CommandSdk sdk
commands = record {
  app = idle Store Bool (λ ns s. (ok tt, s)) (λ n s. none);
  default_base_options = λ o. [];
  home_flag = some;
  as_viper = some;
  home_not_set = true;
  not_viper = false;
  load_height = λ h s. (ok tt, placed h s);
  last_block_height = λ s. s.info.start_height;
}

command_laws : CommandLaws sdk commands
command_laws = record {
  load_height-sets =
      λ h s t e. ap (λ (p : Outcome Bool (Unit {0}) × Store). p.1.info.start_height) (sym e);
}

command_run :
    app_export sdk commands (pos 90) false [] "home" ("bank" ∷ []) (store_at 42 false)
    ≡ (ok (exported, none), placed (pos 90) (store_at 42 false))
unfolding new assemble register_ibc_modules register_key_tables create_keepers create_ibc_keeper
    create_transfer_keeper create_ica_host_keeper create_ica_controller_keeper connect set_routes
    ibc_router register_ibc_app_modules app_export load_app export_loaded
    export_app_state_and_validators export_state exported_from ◌+ℤ◌
command_run = refl

app_export_height_example :
    (set_home sdk commands "home" ≡ true)
    × ((viper : String) × (loaded : Store) × (◌≡◌ {A = Option String} (some "home") (some viper))
        × (load_app sdk commands (pos 90) viper (store_at 42 false) ≡ (ok tt, loaded))
        × (exported.exported_height ≡ pos 90 +ℤ pos 1))
app_export_height_example =
    app_export_height sdk commands command_laws 90 false [] ("bank" ∷ []) "home" (store_at 42 false)
      (placed (pos 90) (store_at 42 false)) exported command_run
