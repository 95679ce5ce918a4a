-- ===== src/Commands.antt =====
-- cmd/bpsd/cmd/commands.go: the command that exports the state of the application, at a height or at the last one.
pub mod Runs
use base_protocol_system.Base.{
  ℕ, zero, suc, ◌≡◌, ◌∙◌, refl, not, panics, settled, then-ok, Bool-cases, Option-cases, Bool, true,
  false, Option, none, some, List, [], String, str_eq, ℤ, pos, negsuc, ◌+ℤ◌, arith, Outcome, Action,
  ok, err, panic, ◌>>=◌, ◌>>◌, pure, throw, read, gets, if◌then◌else◌, inl, inr,
}
use base_protocol_system.Export.Sdk.{ExportSdk}
use base_protocol_system.Export.{Exported, no_export, export_app_state_and_validators}
use base_protocol_system.App.Sdk.{AppSdk}
use base_protocol_system.App.{new}
use base_protocol_system.Export.Result.{export_heights}

-- The application over the store, with its methods `LoadHeight` and `LastBlockHeight`, and what the
-- server makes of the options for it. `home_flag` is the flag where it is a
-- string, and `as_viper` the options where they are a `*viper.Viper`.
pub record CommandSdk (k : ExportSdk) : Type 1 where
  pub app : AppSdk k.State k.Ext
  pub default_base_options : app.Opts → List app.BaseOption
  pub home_flag : app.Opts → Option String
  pub as_viper : app.Opts → Option app.Opts
  pub home_not_set : k.Ext
  pub not_viper : k.Ext
  pub load_height : ℤ → Action k.State k.Ext (Unit {0})
  pub last_block_height : k.State → ℤ

-- The height that is loaded is the last one.
pub record CommandLaws (k : ExportSdk) (c : CommandSdk k) : Type 0 where
  pub load_height-sets :
      (h : ℤ) (s t : k.State) → c.load_height h s ≡ (ok tt, t) → c.last_block_height t ≡ h

abbrev is_latest : ℤ → Bool
is_latest (pos n) = false
is_latest (negsuc zero) = true
is_latest (negsuc (suc n)) = false

module _ (k : ExportSdk) (c : CommandSdk k) where
  open k use {State, Ext}

  -- `newApp` loads the latest version.
  pub new_app : c.app.Opts → Action State Ext (Unit {0})
  new_app opts = new c.app opts (c.default_base_options opts) true

  unfoldable pub load_app : ℤ → c.app.Opts → Action State Ext (Unit {0})
  load_app height opts =
      if is_latest height
      then new c.app opts [] true
      else (new c.app opts [] false >> c.load_height height)

  abbrev pub set_home : c.app.Opts → Bool
  set_home opts = elim (c.home_flag opts) [ none ↦ false | some home ↦ not (str_eq home "") ]

  abbrev failed : Ext → Action State Ext (Exported k × Option Ext)
  failed e = pure (no_export k, some e)

  -- `if err := bApp.LoadHeight(height); err != nil { return servertypes.ExportedApp{}, err }`
  unfoldable pub export_loaded :
      Bool
      → List String
      → List String
      → Outcome Ext (Unit {0})
      → Action State Ext (Exported k × Option Ext)
  export_loaded for_zero_height jail_allowed modules (ok _) s =
      export_app_state_and_validators k (c.last_block_height s) for_zero_height jail_allowed modules
        s
  export_loaded for_zero_height jail_allowed modules (err e) s = failed e s
  export_loaded for_zero_height jail_allowed modules panic s = (panic, s)

  unfoldable pub app_export :
      ℤ → Bool → List String → c.app.Opts → List String → Action State Ext (Exported k × Option Ext)
  app_export height for_zero_height jail_allowed opts modules s =
      if set_home opts
      then elim (c.as_viper opts) [
        | none ↦ failed c.not_viper s
        | some viper ↦
            let (r, s') = load_app height viper s in
            export_loaded for_zero_height jail_allowed modules r s'
      ]
      else failed c.home_not_set s

  export_loaded_height :
      (zero_height : Bool) (allowed modules : List String) (r : Outcome Ext (Unit {0}))
      (s t : State) (app : Exported k)
      → export_loaded zero_height allowed modules r s ≡ (ok (app, none), t)
      → (r ≡ ok tt)
        × (app.exported_height ≡ (if zero_height then pos 0 else c.last_block_height s +ℤ pos 1))
  unfolding export_loaded
  export_loaded_height zero_height allowed modules (ok u) s t app e =
      (refl, (export_heights k (c.last_block_height s) zero_height allowed modules s t app e).0)
  export_loaded_height zero_height allowed modules (err x) s t app e = absurd (ground arith)
  export_loaded_height zero_height allowed modules panic s t app e = absurd (ground arith)

  load_app_height :
      CommandLaws k c
      → (n : ℕ) (viper : c.app.Opts) (s t : State) → load_app (pos n) viper s ≡ (ok tt, t)
      → c.last_block_height t ≡ pos n
  unfolding load_app
  load_app_height laws n viper s t e =
      let (s', p, q) = then-ok (new c.app viper [] false) (c.load_height (pos n)) s t tt e in
      laws.load_height-sets (pos n) s' t q

  -- An export at a height, with no error, had a home and options that are viper's, loaded the
  -- application at that height, and answers the height zero where it was asked to and else the
  -- height behind the loaded one.
  pub app_export_height :
      CommandLaws k c
      → (n : ℕ) (zero_height : Bool) (allowed modules : List String) (opts : c.app.Opts)
        (s t : State) (app : Exported k)
      → app_export (pos n) zero_height allowed opts modules s ≡ (ok (app, none), t)
      → (set_home opts ≡ true)
        × ((viper : c.app.Opts) × (loaded : State) × (c.as_viper opts ≡ some viper)
            × (load_app (pos n) viper s ≡ (ok tt, loaded))
            × (app.exported_height ≡ (if zero_height then pos 0 else pos n +ℤ pos 1)))
  unfolding app_export
  app_export_height laws n zero_height allowed modules opts s t app e =
      elim (Bool-cases (set_home opts)) [
        | inr h ↦ absurd (ground arith)
        | inl h ↦ elim (Option-cases (c.as_viper opts)) [
          | inl v ↦ absurd (ground arith)
          | inr (viper, v) ↦
              let (r, exported) =
                export_loaded_height zero_height allowed modules ((load_app (pos n) viper s).0)
                  ((load_app (pos n) viper s).1) t app (ground arith) in
              let loaded = settled (load_app (pos n) viper s) r in
              (
                h,
                (
                  viper,
                  (load_app (pos n) viper s).1,
                  v,
                  loaded,
                  exported
                      ∙ rw (load_app_height laws n viper s ((load_app (pos n) viper s).1) loaded)
                          refl,
                ),
              )
        ]
      ]
