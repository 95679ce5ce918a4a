-- ===== src/Export.antt =====
-- app/export.go: the export of the application's state, and its preparation for a chain that starts
-- at height zero. The store is the model's state; the block height of the context, which the code
-- sets to zero for a while, is the argument of the calls.
pub mod Sdk
pub mod Passes
pub mod Validators
pub mod Reset
pub mod Result
pub mod Runs
use base_protocol_system.Base.{
  ◌+◌, ◌≡◌, Bool, true, false, not, ◌&&◌, ◌||◌, Option, none, some, List, [], ◌∷◌, map, String,
  str_eq, ℤ, pos, ◌+ℤ◌, if◌then◌else◌,
}
use base_protocol_system.Base.{
  Outcome, Action, ok, err, panic, ◌>>=◌, ◌>>◌, pure, read, gets, must, modify, panics, dropped,
  for_each,
}
use Sdk.{Entry, Unbonding, Validator, Delegation, FeePool, SigningInfo, ExportSdk}

-- A lookup in `allowedAddrsMap`.
pub is_allowed : List String → String → Bool
is_allowed [] addr = false
is_allowed (a ∷ as') addr = str_eq a addr || is_allowed as' addr

-- `applyAllowedAddrs`
abbrev pub apply_allowed : List String → Bool
apply_allowed [] = false
apply_allowed (a ∷ as') = true

abbrev pub reset_entry : {Rest : Type 0} → Entry Rest → Entry Rest
reset_entry e = record e { creation_height = pos 0 }

-- `for i := range red.Entries { red.Entries[i].CreationHeight = 0 }`
abbrev pub reset_entries : {Key Rest : Type 0} → Unbonding Key Rest → Unbonding Key Rest
reset_entries u = record u { entries = map reset_entry u.entries }

abbrev pub settled_validator :
    {Rest : Type 0} → List String → String → Validator Rest → Validator Rest
settled_validator allowed val_addr v = record v {
  unbonding_height = pos 0;
  jailed = if apply_allowed allowed && not (is_allowed allowed val_addr) then true else v.jailed;
}

-- What `ExportAppStateAndValidators` returns, which has zero values beside most errors.
pub record ExportedApp (Json Validators Params : Type 0) : Type 0 where
  pub app_state : Option Json
  pub exported_validators : Validators
  pub exported_height : ℤ
  pub consensus_params : Params

module _ (k : ExportSdk) where
  open k use {
    State, Ext, Bytes, Parties, Rest, Json, GenesisValidators, ConsensusParams, validator_bytes,
    staking_validator_bytes, account_bytes, staking_validator_text, iterate_validators,
    get_all_delegations, withdraw_validator_commission, withdraw_delegation_rewards,
    delete_all_validator_slash_events, delete_all_validator_historical_rewards,
    get_validator_outstanding_rewards_coins, fee_pool_get, fee_pool_set, add,
    after_validator_created, before_delegation_created, after_delegation_modified,
    iterate_redelegations, set_redelegation, iterate_unbonding_delegations,
    set_unbonding_delegation, validator_keys, close_iterator, get_validator, set_validator,
    apply_and_return_validator_set_updates, iterate_validator_signing_infos,
    set_validator_signing_info,
  }

  -- The addresses that keep their validators out of jail all decode.
  pub read_allowed : List String → Action State Ext (Unit {0})
  read_allowed = for_each λ addr. do panics (read (λ s. validator_bytes addr)); pure tt

  pub withdraw_commissions : ℤ → Action State Ext (Unit {0})
  withdraw_commissions height = panics (
      iterate_validators height λ val. do
        val_bz ← panics (read (λ s. staking_validator_bytes val.operator))
        dropped (withdraw_validator_commission height val_bz)
        pure false)

  pub withdraw_rewards : ℤ → List Delegation → Action State Ext (Unit {0})
  withdraw_rewards height = for_each λ delegation. do
    val_addr ← panics (read (λ s. validator_bytes delegation.validator_address))
    del_addr ← panics (read (λ s. account_bytes delegation.delegator_address))
    dropped (withdraw_delegation_rewards height del_addr val_addr)

  -- Rewards that were not withdrawn go to the community pool.
  pub reinitialize_validator : ℤ → Validator Rest → Action State Ext Bool
  reinitialize_validator height val = do
    val_bz ← panics (read (λ s. staking_validator_bytes val.operator))
    rewards ← panics (read (get_validator_outstanding_rewards_coins val_bz))
    fee_pool ← panics (read fee_pool_get)
    pool ← must (add fee_pool.community_pool rewards)
    panics (fee_pool_set (record fee_pool { community_pool = pool }))
    panics (after_validator_created height val_bz)
    pure false

  pub reinitialize_validators : ℤ → Action State Ext (Unit {0})
  reinitialize_validators height =
      panics (iterate_validators height (reinitialize_validator height))

  pub reinitialize_delegations : ℤ → List Delegation → Action State Ext (Unit {0})
  reinitialize_delegations height = for_each λ del. do
    val_addr ← panics (read (λ s. validator_bytes del.validator_address))
    del_addr ← panics (read (λ s. account_bytes del.delegator_address))
    panics (before_delegation_created height del_addr val_addr)
    panics (after_delegation_modified height del_addr val_addr)

  pub reset_redelegation : Unbonding Parties Rest → Action State Ext Bool
  reset_redelegation red = do panics (set_redelegation (reset_entries red)); pure false

  pub reset_unbonding_delegation : Unbonding Parties Rest → Action State Ext Bool
  reset_unbonding_delegation ubd = do
    panics (set_unbonding_delegation (reset_entries ubd))
    pure false

  -- A round of the loop over the keys of the validators.
  pub settle_validator : List String → Bytes → Action State Ext (Unit {0})
  settle_validator allowed addr = do
    validator ← panics (read (get_validator addr))
    val_addr ← panics (read (λ s. staking_validator_text addr))
    panics (set_validator (settled_validator allowed val_addr validator))

  pub settle_validators : List String → Action State Ext (Unit {0})
  settle_validators allowed s = for_each (settle_validator allowed) (validator_keys s) s

  -- An error of `SetValidatorSigningInfo` is dropped.
  pub reset_signing_info : Bytes × SigningInfo Rest → Action State Ext Bool
  reset_signing_info (addr, info) = do
    dropped (set_validator_signing_info addr (record info { start_height = pos 0 }))
    pure false

  pub reset_signing_infos : Action State Ext (Unit {0})
  reset_signing_infos = panics (iterate_validator_signing_infos reset_signing_info)

  -- An error at the iterator's end is logged, and the function returns there.
  pub after_settling : ℤ → Action State Ext (Unit {0})
  after_settling height s = elim (close_iterator s) [
    | ok _ ↦ (panics (apply_and_return_validator_set_updates height) >> reset_signing_infos) s
    | err _ ↦ (ok tt, s)
    | panic ↦ (panic, s)
  ]

  pub reset_redelegations : Action State Ext (Unit {0})
  reset_redelegations = panics (iterate_redelegations reset_redelegation)

  pub reset_unbonding_delegations : Action State Ext (Unit {0})
  reset_unbonding_delegations = panics (iterate_unbonding_delegations reset_unbonding_delegation)

  -- The staking and the slashing state, at the height that the context had.
  pub reset_heights : ℤ → List String → Action State Ext (Unit {0})
  reset_heights height allowed =
      reset_redelegations
      >> (reset_unbonding_delegations >> (settle_validators allowed >> after_settling height))

  -- The distribution state: withdrawn at the height of the context, and set up again at height zero.
  pub redistribute : ℤ → List Delegation → Action State Ext (Unit {0})
  redistribute height dels = do
    withdraw_rewards height dels
    modify (delete_all_validator_slash_events height)
    modify (delete_all_validator_historical_rewards height)
    reinitialize_validators (pos 0)
    reinitialize_delegations (pos 0) dels

  pub distribution_part : ℤ → List String → Action State Ext (Unit {0})
  distribution_part height allowed = do
    read_allowed allowed
    withdraw_commissions height
    dels ← panics (read get_all_delegations)
    redistribute height dels

  pub prep_for_zero_height_genesis : ℤ → List String → Action State Ext (Unit {0})
  prep_for_zero_height_genesis height allowed =
      distribution_part height allowed >> reset_heights height allowed

module _ (k : ExportSdk) where
  open k use {State, Ext, Json, GenState, GenesisValidators, ConsensusParams}

  abbrev pub Exported : Type 0
  Exported = ExportedApp Json GenesisValidators ConsensusParams

  -- The zero value.
  abbrev pub no_export : Exported
  no_export = record {
    app_state = none;
    exported_validators = k.no_validators;
    exported_height = pos 0;
    consensus_params = k.no_consensus_params;
  }

  unfoldable pub exported_from : ℤ → ℤ → Json → State → Exported × Option Ext
  exported_from ctx_height height json s =
      let (vals, e) = k.write_validators ctx_height s in
      (
        record {
          app_state = some json;
          exported_validators = vals;
          exported_height = height;
          consensus_params = k.get_consensus_params ctx_height s;
        },
        e,
      )

  unfoldable pub export_state : ℤ → ℤ → List String → State → Outcome Ext (Exported × Option Ext)
  export_state ctx_height height modules s =
      elim (k.export_genesis_for_modules ctx_height modules s) [
        | err e ↦ ok (no_export, some e)
        | panic ↦ panic
        | ok gen_state ↦ elim (k.marshal_indent gen_state) [
          | err e ↦ ok (no_export, some e)
          | panic ↦ panic
          | ok json ↦ ok (exported_from ctx_height height json s)
        ]
      ]

  -- `ExportAppStateAndValidators`, with the last block's height. The result has the error, as in Go.
  unfoldable pub export_app_state_and_validators :
      ℤ → Bool → List String → List String → Action State Ext (Exported × Option Ext)
  export_app_state_and_validators last_height for_zero_height jail_allowed modules =
      if for_zero_height
      then prep_for_zero_height_genesis k last_height jail_allowed
        >> read (export_state last_height (pos 0) modules)
      else read (export_state last_height (last_height +ℤ pos 1) modules)
